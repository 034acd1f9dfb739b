-- ===== src/Orchestration/Machines/Missions.antt =====
-- Traces of a mission by MISSION_TRANSITIONS.
use avity_os.Base.{
  true, false, ◌≡◌, refl, subst, ◌↔◌, ◌⊎◌, inl, inr, List, [], ◌∷◌, includes, arith,
}
use avity_os.Contracts.{MissionState, mission_state_eq}
use avity_os.Orchestration.Machines.{
  mission_transitions, mission_terminal_states, mission_pauseable_states, can_transition_mission,
}
use avity_os.Orchestration.Machines.Traces.{
  Trace, Trace-absorbed, start, step, Visits, last_of, is_legal,
}

-- A mission state has no exit exactly if MISSION_TERMINAL_STATES lists it.
pub mission_terminal_iff :
    (s : MissionState) → (includes mission_terminal_states s ≡ true) ↔ (mission_transitions s ≡ [])
unfolding includes
mission_terminal_iff MissionState.proposed = ((λ h. cc), (λ h. cc))
mission_terminal_iff _ = ((λ h. ground arith), (λ h. ground arith))

abbrev pub MissionTrace : MissionState → MissionState → Type 0
MissionTrace = Trace can_transition_mission

mission_stuck :
    (s u : MissionState)
    → includes mission_terminal_states s ≡ true
    → can_transition_mission s u ≡ false
unfolding includes can_transition_mission
mission_stuck MissionState.proposed u h = cc
mission_stuck s u h = ground arith

-- A mission that is over stays as it is, by whatever legal steps.
pub terminal_mission_absorbs :
    (s t : MissionState) → includes mission_terminal_states s ≡ true → MissionTrace s t → t ≡ s
terminal_mission_absorbs s t over p =
    Trace-absorbed can_transition_mission (λ u. mission_stuck s u over) p

-- A way from a state to `completed` that never pauses.
abbrev from_review : List MissionState
from_review =
    MissionState.review_required ∷ MissionState.approved ∷ MissionState.integrated
    ∷ MissionState.completed ∷ []

abbrev from_running : List MissionState
from_running =
    MissionState.running ∷ MissionState.result_submitted ∷ MissionState.validating ∷ from_review

abbrev completion_route : MissionState → List MissionState
completion_route MissionState.completed = []
completion_route MissionState.cancelled = []
completion_route MissionState.integrated = MissionState.completed ∷ []
completion_route MissionState.approved = MissionState.integrated ∷ MissionState.completed ∷ []
completion_route MissionState.review_required =
    MissionState.approved ∷ MissionState.integrated ∷ MissionState.completed ∷ []
completion_route MissionState.validating = from_review
completion_route MissionState.blocked = from_review
completion_route MissionState.paused = from_review
completion_route MissionState.result_submitted = MissionState.validating ∷ from_review
completion_route MissionState.running =
    MissionState.result_submitted ∷ MissionState.validating ∷ from_review
completion_route MissionState.assigned = from_running
completion_route MissionState.ready = MissionState.assigned ∷ from_running
completion_route MissionState.proposed = MissionState.ready ∷ MissionState.assigned ∷ from_running
completion_route MissionState.retrying = MissionState.assigned ∷ from_running
completion_route MissionState.failed = MissionState.retrying ∷ MissionState.assigned ∷ from_running

-- Every mission state that MISSION_TERMINAL_STATES does not list, `failed`, `blocked` and
-- `paused` included, has a route of legal steps to `completed` with no pause on it.
pub mission_no_dead_end :
    (s : MissionState)
    → includes mission_terminal_states s ≡ false
    → (route : List MissionState) × (is_legal can_transition_mission s route ≡ true)
      × (last_of can_transition_mission s route ≡ MissionState.completed)
      × (includes route MissionState.paused ≡ false)
unfolding includes can_transition_mission
mission_no_dead_end MissionState.completed h = cc
mission_no_dead_end MissionState.cancelled h = cc
mission_no_dead_end MissionState.proposed h =
    (completion_route MissionState.proposed, refl, refl, refl)
mission_no_dead_end s h = (completion_route s, refl, refl, refl)

-- The states from which one step leads to a state of the end of a mission's life.
before_approved :
    (t : MissionState)
    → can_transition_mission t MissionState.approved ≡ true
    → (t ≡ MissionState.review_required) ⊎ (t ≡ MissionState.paused)
unfolding can_transition_mission
before_approved MissionState.proposed h = cc
before_approved t h = ground arith

before_integrated :
    (t : MissionState)
    → can_transition_mission t MissionState.integrated ≡ true
    → (t ≡ MissionState.approved) ⊎ (t ≡ MissionState.paused)
unfolding can_transition_mission
before_integrated MissionState.proposed h = cc
before_integrated t h = ground arith

before_completed :
    (t : MissionState)
    → can_transition_mission t MissionState.completed ≡ true
    → t ≡ MissionState.integrated
unfolding can_transition_mission
before_completed MissionState.proposed h = cc
before_completed t h = ground arith

abbrev Visited : {s t : MissionState} → MissionTrace s t → MissionState → Type 0
Visited = Visits can_transition_mission

Visits-last : {s t : MissionState} (p : MissionTrace s t) {v : MissionState} → t ≡ v → Visited p v
Visits-last start e = e
Visits-last (step p h) e = inl e

reviewed :
    {t : MissionState} (p : MissionTrace MissionState.proposed t)
    → t ≡ MissionState.approved
    → Visited p MissionState.paused ⊎ Visited p MissionState.review_required
reviewed start e = cc
reviewed (step {t = t} p h) e =
    elim (before_approved t (subst (λ v. can_transition_mission t v ≡ true) e h)) [
      | inl from_review ↦ inr (inr (Visits-last p from_review))
      | inr from_pause ↦ inl (inr (Visits-last p from_pause))
    ]

approved_first :
    {t : MissionState} (p : MissionTrace MissionState.proposed t)
    → t ≡ MissionState.integrated
    → Visited p MissionState.paused
      ⊎ Visited p MissionState.review_required × Visited p MissionState.approved
approved_first start e = cc
approved_first (step {t = t} p h) e =
    elim (before_integrated t (subst (λ v. can_transition_mission t v ≡ true) e h)) [
      | inl from_approved ↦ elim (reviewed p from_approved) [
        | inl paused ↦ inl (inr paused)
        | inr seen ↦ inr (inr seen, inr (Visits-last p from_approved))
      ]
      | inr from_pause ↦ inl (inr (Visits-last p from_pause))
    ]

-- A mission that a trace of legal steps brings from `proposed` to `completed` was under review,
-- was approved and was integrated on the way, unless it was paused on the way.
pub mission_review_gate :
    (p : MissionTrace MissionState.proposed MissionState.completed)
    → Visits can_transition_mission p MissionState.paused
      ⊎ Visits can_transition_mission p MissionState.review_required
        × Visits can_transition_mission p MissionState.approved
        × Visits can_transition_mission p MissionState.integrated
mission_review_gate p = completed p refl
  where
    completed :
        {t : MissionState} (q : MissionTrace MissionState.proposed t)
        → t ≡ MissionState.completed
        → Visited q MissionState.paused
          ⊎ Visited q MissionState.review_required
            × Visited q MissionState.approved
            × Visited q MissionState.integrated
    completed start e = cc
    completed (step {t = t} q h) e =
        let before = before_completed t (subst (λ v. can_transition_mission t v ≡ true) e h) in
        elim (approved_first q before) [
          | inl paused ↦ inl (inr paused)
          | inr (seen, approved) ↦ inr (inr seen, inr approved, inr (Visits-last q before))
        ]

-- Which states a pause of the project may suspend: every one in MISSION_PAUSEABLE_STATES may go
-- to `paused`, and of the others only `failed` might.
mission_pauseable_iff :
    (s : MissionState)
    → (can_transition_mission s MissionState.paused ≡ true)
      ↔ ((includes mission_pauseable_states s ≡ true) ⊎ (s ≡ MissionState.failed))
unfolding includes can_transition_mission
mission_pauseable_iff MissionState.proposed = ((λ h. inl refl), (λ h. refl))
mission_pauseable_iff s = ((λ h. ground arith), (λ h. ground arith))
