-- ===== src/Contracts/Enums.antt =====
-- packages/contracts/src/enums.ts
use avity_os.Base.{ℕ, zero, suc, ◌≡◌, refl, ◌↔◌, true, nat_eqb, StrictEq, code-eq_iff}

pub data MissionState : Type 0 where
  proposed ready assigned running result_submitted validating review_required : MissionState
  approved integrated completed paused blocked retrying cancelled failed : MissionState

abbrev pub mission_state_code : MissionState → ℕ
mission_state_code proposed = 0
mission_state_code ready = 1
mission_state_code assigned = 2
mission_state_code running = 3
mission_state_code result_submitted = 4
mission_state_code validating = 5
mission_state_code review_required = 6
mission_state_code approved = 7
mission_state_code integrated = 8
mission_state_code completed = 9
mission_state_code paused = 10
mission_state_code blocked = 11
mission_state_code retrying = 12
mission_state_code cancelled = 13
mission_state_code failed = 14

abbrev mission_state_of : ℕ → MissionState
mission_state_of zero = proposed
mission_state_of (suc zero) = ready
mission_state_of (suc (suc zero)) = assigned
mission_state_of (suc (suc (suc zero))) = running
mission_state_of (suc (suc (suc (suc zero)))) = result_submitted
mission_state_of (suc (suc (suc (suc (suc zero))))) = validating
mission_state_of (suc (suc (suc (suc (suc (suc zero)))))) = review_required
mission_state_of (suc (suc (suc (suc (suc (suc (suc zero))))))) = approved
mission_state_of (suc (suc (suc (suc (suc (suc (suc (suc zero)))))))) = integrated
mission_state_of (suc (suc (suc (suc (suc (suc (suc (suc (suc zero))))))))) = completed
mission_state_of (suc (suc (suc (suc (suc (suc (suc (suc (suc (suc zero)))))))))) = paused
mission_state_of (suc (suc (suc (suc (suc (suc (suc (suc (suc (suc (suc zero))))))))))) = blocked
mission_state_of (suc (suc (suc (suc (suc (suc (suc (suc (suc (suc (suc (suc zero)))))))))))) =
    retrying
mission_state_of
      (suc (suc (suc (suc (suc (suc (suc (suc (suc (suc (suc (suc (suc zero))))))))))))) =
    cancelled
mission_state_of _ = failed

mission_state_of-code : (a : MissionState) → mission_state_of (mission_state_code a) ≡ a
mission_state_of-code proposed = refl
mission_state_of-code ready = refl
mission_state_of-code assigned = refl
mission_state_of-code running = refl
mission_state_of-code result_submitted = refl
mission_state_of-code validating = refl
mission_state_of-code review_required = refl
mission_state_of-code approved = refl
mission_state_of-code integrated = refl
mission_state_of-code completed = refl
mission_state_of-code paused = refl
mission_state_of-code blocked = refl
mission_state_of-code retrying = refl
mission_state_of-code cancelled = refl
mission_state_of-code failed = refl

pub mission_state-code_iff :
    (a b : MissionState) → (nat_eqb (mission_state_code a) (mission_state_code b) ≡ true) ↔ (a ≡ b)
mission_state-code_iff = code-eq_iff mission_state_code mission_state_of mission_state_of-code

instance abbrev pub mission_state_eq : StrictEq MissionState
mission_state_eq = record {
  same = λ a b. nat_eqb (mission_state_code a) (mission_state_code b);
  same_iff = mission_state-code_iff;
}

pub data RunState : Type 0 where
  queued starting running paused cancelling cancelled succeeded failed timed_out : RunState

abbrev pub run_state_code : RunState → ℕ
run_state_code queued = 0
run_state_code starting = 1
run_state_code running = 2
run_state_code paused = 3
run_state_code cancelling = 4
run_state_code cancelled = 5
run_state_code succeeded = 6
run_state_code failed = 7
run_state_code timed_out = 8

abbrev run_state_of : ℕ → RunState
run_state_of zero = queued
run_state_of (suc zero) = starting
run_state_of (suc (suc zero)) = running
run_state_of (suc (suc (suc zero))) = paused
run_state_of (suc (suc (suc (suc zero)))) = cancelling
run_state_of (suc (suc (suc (suc (suc zero))))) = cancelled
run_state_of (suc (suc (suc (suc (suc (suc zero)))))) = succeeded
run_state_of (suc (suc (suc (suc (suc (suc (suc zero))))))) = failed
run_state_of _ = timed_out

run_state_of-code : (a : RunState) → run_state_of (run_state_code a) ≡ a
run_state_of-code queued = refl
run_state_of-code starting = refl
run_state_of-code running = refl
run_state_of-code paused = refl
run_state_of-code cancelling = refl
run_state_of-code cancelled = refl
run_state_of-code succeeded = refl
run_state_of-code failed = refl
run_state_of-code timed_out = refl

pub run_state-code_iff :
    (a b : RunState) → (nat_eqb (run_state_code a) (run_state_code b) ≡ true) ↔ (a ≡ b)
run_state-code_iff = code-eq_iff run_state_code run_state_of run_state_of-code

instance abbrev pub run_state_eq : StrictEq RunState
run_state_eq = record {
  same = λ a b. nat_eqb (run_state_code a) (run_state_code b);
  same_iff = run_state-code_iff;
}

pub data ProjectStatus : Type 0 where
  draft clarifying planning active paused blocked completed archived : ProjectStatus

abbrev pub project_status_code : ProjectStatus → ℕ
project_status_code draft = 0
project_status_code clarifying = 1
project_status_code planning = 2
project_status_code active = 3
project_status_code paused = 4
project_status_code blocked = 5
project_status_code completed = 6
project_status_code archived = 7

abbrev project_status_of : ℕ → ProjectStatus
project_status_of zero = draft
project_status_of (suc zero) = clarifying
project_status_of (suc (suc zero)) = planning
project_status_of (suc (suc (suc zero))) = active
project_status_of (suc (suc (suc (suc zero)))) = paused
project_status_of (suc (suc (suc (suc (suc zero))))) = blocked
project_status_of (suc (suc (suc (suc (suc (suc zero)))))) = completed
project_status_of _ = archived

project_status_of-code : (a : ProjectStatus) → project_status_of (project_status_code a) ≡ a
project_status_of-code draft = refl
project_status_of-code clarifying = refl
project_status_of-code planning = refl
project_status_of-code active = refl
project_status_of-code paused = refl
project_status_of-code blocked = refl
project_status_of-code completed = refl
project_status_of-code archived = refl

pub project_status-code_iff :
    (a b : ProjectStatus)
    → (nat_eqb (project_status_code a) (project_status_code b) ≡ true) ↔ (a ≡ b)
project_status-code_iff = code-eq_iff project_status_code project_status_of project_status_of-code

instance abbrev pub project_status_eq : StrictEq ProjectStatus
project_status_eq = record {
  same = λ a b. nat_eqb (project_status_code a) (project_status_code b);
  same_iff = project_status-code_iff;
}

pub data ProviderErrorCategory : Type 0 where
  auth quota_exhausted rate_limited transient_network invalid_request : ProviderErrorCategory
  context_overflow tool_failure agent_crash policy_denied sandbox_unavailable :
      ProviderErrorCategory
  unknown : ProviderErrorCategory

pub data FallbackAction : Type 0 where
  wait_for_reset retry_backoff switch_model switch_provider pause_lower_priority : FallbackAction
  escalate_user : FallbackAction
