-- ===== src/Orchestration/Machines.antt =====
-- packages/orchestration/src/machines.ts: the transition tables, and the checks against them.
-- The children prove what holds of every trace of legal steps.
pub mod Traces
pub mod Missions
pub mod Runs
pub mod Projects
use avity_os.Base.{Bool, List, [], ◌∷◌, includes, if◌then◌else◌}
use avity_os.Contracts.{
  MissionState, RunState, ProjectStatus, mission_state_eq, run_state_eq, project_status_eq,
}

abbrev pub mission_transitions : MissionState → List MissionState
mission_transitions MissionState.proposed =
    MissionState.ready ∷ MissionState.paused ∷ MissionState.cancelled ∷ []
mission_transitions MissionState.ready =
    MissionState.assigned ∷ MissionState.paused ∷ MissionState.blocked ∷ MissionState.cancelled ∷ []
mission_transitions MissionState.assigned =
    MissionState.running ∷ MissionState.ready ∷ MissionState.paused ∷ MissionState.blocked
    ∷ MissionState.cancelled ∷ []
mission_transitions MissionState.running =
    MissionState.result_submitted ∷ MissionState.paused ∷ MissionState.blocked
    ∷ MissionState.retrying ∷ MissionState.cancelled ∷ MissionState.failed ∷ []
mission_transitions MissionState.result_submitted =
    MissionState.validating ∷ MissionState.paused ∷ MissionState.cancelled ∷ []
mission_transitions MissionState.validating =
    MissionState.review_required ∷ MissionState.retrying ∷ MissionState.blocked
    ∷ MissionState.failed ∷ MissionState.paused ∷ MissionState.cancelled ∷ []
mission_transitions MissionState.review_required =
    MissionState.approved ∷ MissionState.retrying ∷ MissionState.blocked ∷ MissionState.failed
    ∷ MissionState.paused ∷ MissionState.cancelled ∷ []
mission_transitions MissionState.approved =
    MissionState.integrated ∷ MissionState.blocked ∷ MissionState.paused ∷ MissionState.cancelled
    ∷ []
mission_transitions MissionState.integrated =
    MissionState.completed ∷ MissionState.failed ∷ MissionState.paused ∷ []
mission_transitions MissionState.completed = []
mission_transitions MissionState.paused =
    MissionState.proposed ∷ MissionState.ready ∷ MissionState.assigned ∷ MissionState.running
    ∷ MissionState.result_submitted ∷ MissionState.validating ∷ MissionState.review_required
    ∷ MissionState.approved ∷ MissionState.integrated ∷ MissionState.blocked
    ∷ MissionState.cancelled ∷ []
mission_transitions MissionState.blocked =
    MissionState.ready ∷ MissionState.review_required ∷ MissionState.paused ∷ MissionState.cancelled
    ∷ MissionState.failed ∷ []
mission_transitions MissionState.retrying =
    MissionState.assigned ∷ MissionState.paused ∷ MissionState.failed ∷ MissionState.cancelled ∷ []
mission_transitions MissionState.cancelled = []
mission_transitions MissionState.failed = MissionState.retrying ∷ MissionState.paused ∷ []

abbrev pub run_transitions : RunState → List RunState
run_transitions RunState.queued = RunState.starting ∷ RunState.cancelled ∷ []
run_transitions RunState.starting = RunState.running ∷ RunState.failed ∷ RunState.cancelling ∷ []
run_transitions RunState.running =
    RunState.succeeded ∷ RunState.failed ∷ RunState.timed_out ∷ RunState.paused
    ∷ RunState.cancelling ∷ []
run_transitions RunState.paused = RunState.running ∷ RunState.cancelling ∷ []
run_transitions RunState.cancelling = RunState.cancelled ∷ RunState.failed ∷ []
run_transitions RunState.cancelled = []
run_transitions RunState.succeeded = []
run_transitions RunState.failed = []
run_transitions RunState.timed_out = []

abbrev pub project_transitions : ProjectStatus → List ProjectStatus
project_transitions ProjectStatus.draft =
    ProjectStatus.clarifying ∷ ProjectStatus.planning ∷ ProjectStatus.active ∷ ProjectStatus.paused
    ∷ ProjectStatus.archived ∷ []
project_transitions ProjectStatus.clarifying =
    ProjectStatus.planning ∷ ProjectStatus.clarifying ∷ ProjectStatus.paused ∷ ProjectStatus.blocked
    ∷ ProjectStatus.draft ∷ ProjectStatus.archived ∷ []
project_transitions ProjectStatus.planning =
    ProjectStatus.active ∷ ProjectStatus.clarifying ∷ ProjectStatus.paused ∷ ProjectStatus.blocked
    ∷ ProjectStatus.archived ∷ []
project_transitions ProjectStatus.active =
    ProjectStatus.paused ∷ ProjectStatus.blocked ∷ ProjectStatus.completed
    ∷ ProjectStatus.clarifying ∷ ProjectStatus.planning ∷ ProjectStatus.archived ∷ []
project_transitions ProjectStatus.paused =
    ProjectStatus.active ∷ ProjectStatus.planning ∷ ProjectStatus.clarifying ∷ ProjectStatus.draft
    ∷ ProjectStatus.blocked ∷ ProjectStatus.archived ∷ []
project_transitions ProjectStatus.blocked =
    ProjectStatus.planning ∷ ProjectStatus.active ∷ ProjectStatus.clarifying ∷ ProjectStatus.paused
    ∷ ProjectStatus.archived ∷ []
project_transitions ProjectStatus.completed = ProjectStatus.archived ∷ []
project_transitions ProjectStatus.archived = []

abbrev pub mission_terminal_states : List MissionState
mission_terminal_states = MissionState.completed ∷ MissionState.cancelled ∷ []

abbrev pub run_terminal_states : List RunState
run_terminal_states =
    RunState.cancelled ∷ RunState.succeeded ∷ RunState.failed ∷ RunState.timed_out ∷ []

abbrev pub project_terminal_states : List ProjectStatus
project_terminal_states = ProjectStatus.archived ∷ []

abbrev pub mission_pauseable_states : List MissionState
mission_pauseable_states =
    MissionState.proposed ∷ MissionState.ready ∷ MissionState.assigned ∷ MissionState.running
    ∷ MissionState.result_submitted ∷ MissionState.validating ∷ MissionState.review_required
    ∷ MissionState.approved ∷ MissionState.integrated ∷ MissionState.blocked ∷ MissionState.retrying
    ∷ []

abbrev pub run_cancellable_on_pause : List RunState
run_cancellable_on_pause =
    RunState.queued ∷ RunState.starting ∷ RunState.running ∷ RunState.paused ∷ []

-- `IllegalTransitionError`: the entity that its first field names is a constructor here.
pub data IllegalTransition : Type 0 where
  mission_error : (from to : MissionState) → IllegalTransition
  run_error : (from to : RunState) → IllegalTransition
  project_error : (from to : ProjectStatus) → IllegalTransition

-- A check that returns nothing or throws.
pub data Checked : Type 0 where
  passed : Checked
  throws : IllegalTransition → Checked

unfoldable pub can_transition_mission : MissionState → MissionState → Bool
unfolding includes
can_transition_mission from to = includes (mission_transitions from) to

unfoldable pub assert_mission_transition : MissionState → MissionState → Checked
unfolding can_transition_mission
assert_mission_transition from to =
    if can_transition_mission from to then passed else throws (mission_error from to)

unfoldable pub can_transition_run : RunState → RunState → Bool
unfolding includes
can_transition_run from to = includes (run_transitions from) to

unfoldable pub assert_run_transition : RunState → RunState → Checked
unfolding can_transition_run
assert_run_transition from to =
    if can_transition_run from to then passed else throws (run_error from to)

unfoldable pub can_transition_project : ProjectStatus → ProjectStatus → Bool
unfolding includes
can_transition_project from to = includes (project_transitions from) to

unfoldable pub assert_project_transition : ProjectStatus → ProjectStatus → Checked
unfolding can_transition_project
assert_project_transition from to =
    if can_transition_project from to then passed else throws (project_error from to)
