-- ===== src/Orchestration/Correction.antt =====
-- packages/orchestration/src/correction.ts: the bounded correction loop.
use avity_os.Base.{ℕ, ◌+◌, ◌≤◌, ◌<◌, ◌≡◌, ◌↔◌, if◌then◌else◌, ltb, arith, String}
use avity_os.Contracts.{Mission}

-- The reason of an escalation names the limit and the mission.
pub data CorrectionDecision : Type 0 where
  retry : (attempt : ℕ) → CorrectionDecision
  escalate : (limit : ℕ) (mission_id : String) → CorrectionDecision

unfoldable pub decide_correction : Mission → CorrectionDecision
decide_correction mission =
    let next = mission.correction_attempts + 1 in
    if ltb mission.max_correction_attempts next
    then escalate mission.max_correction_attempts mission.id
    else retry next

-- A failed mission is retried, with its next attempt, exactly while it is below its limit, and at
-- or above the limit it escalates.
decide_correction_iff :
    (m : Mission)
    → ((decide_correction m ≡ retry (m.correction_attempts + 1))
        ↔ (m.correction_attempts < m.max_correction_attempts))
      × ((decide_correction m ≡ escalate m.max_correction_attempts m.id)
          ↔ (m.max_correction_attempts ≤ m.correction_attempts))
unfolding decide_correction
decide_correction_iff m = ground arith
