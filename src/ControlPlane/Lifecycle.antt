-- ===== src/ControlPlane/Lifecycle.antt =====
-- services/control-plane/src/store.ts: the changes of missions, runs and projects. The time of a
-- call is the argument `at`, which each of its calls of `now` returns.
pub mod Keeping
use avity_os.Base.{
  ℕ, String, Bool, true, false, not, ◌&&◌, ◌||◌, List, [], ◌∷◌, ◌++◌, Option, none, some, ◌===◌,
  if◌then◌else◌, length, lookup, insert, includes, or_else, is_some, string_eq,
}
use Prim.Native.String.{◌++◌ as str_append}
use avity_os.Contracts.{MissionState, RunState, ProjectStatus, run_state_eq, project_status_eq}
use avity_os.Orchestration.Machines.{
  can_transition_mission, can_transition_run, can_transition_project, run_terminal_states,
  mission_error, run_error, project_error,
}
use avity_os.ControlPlane.Store.{
  ProjectRow, MissionRow, RunRow, Store, StoreError, not_found, store_conflict, illegal, constraint,
  Conflict, project_status_changed, mission_state_changed, run_created, run_state_changed, Host,
}
use avity_os.ControlPlane.Store.Actions.{
  Action, Result, ok, err, pure, throw, gets, find_or_throw, modify, transaction, unless, ◌>>=◌,
  ◌>>◌,
}
use avity_os.ControlPlane.Journal.{append_event, append_audit, on_project, on_mission, on_run}
use avity_os.ControlPlane.Fence.{fenced, assert_project_accepting_work}

-- `text || null`
abbrev pub or_null : String → Option String
or_null text = if text === "" then none else some text

-- SQL's COALESCE.
abbrev pub coalesce : Option String → Option String → Option String
coalesce none old = old
coalesce (some new) old = some new

-- `UPDATE ... WHERE id = ?`
abbrev pub put_project : String → ProjectRow → Store → Store
put_project id row s = record s { projects = insert id row s.projects }

abbrev pub put_mission : String → MissionRow → Store → Store
put_mission id row s = record s { missions = insert id row s.missions }

abbrev pub put_run : String → RunRow → Store → Store
put_run id row s = record s { runs = insert id row s.runs }

abbrev pub moved_mission :
    (at : String) → (to : MissionState) → (reason : String) → MissionRow → MissionRow
moved_mission at to reason mission = record mission {
  state = to;
  state_reason = or_null reason;
  updated_at = at;
}

abbrev pub moved_run :
    (at : String) → (to : RunState) → (exit_reason error_category : Option String) → RunRow → RunRow
moved_run at to exit_reason error_category run = record run {
  state = to;
  exit_reason = coalesce exit_reason run.exit_reason;
  error_category = coalesce error_category run.error_category;
  started_at =
      if to === RunState.running && not (is_some run.started_at) then some at else run.started_at;
  ended_at = if includes run_terminal_states to then some at else run.ended_at;
  updated_at = at;
}

-- A mission's state, as it is written in texts.
abbrev pub mission_state_text : MissionState → String
mission_state_text MissionState.proposed = "proposed"
mission_state_text MissionState.ready = "ready"
mission_state_text MissionState.assigned = "assigned"
mission_state_text MissionState.running = "running"
mission_state_text MissionState.result_submitted = "result_submitted"
mission_state_text MissionState.validating = "validating"
mission_state_text MissionState.review_required = "review_required"
mission_state_text MissionState.approved = "approved"
mission_state_text MissionState.integrated = "integrated"
mission_state_text MissionState.completed = "completed"
mission_state_text MissionState.paused = "paused"
mission_state_text MissionState.blocked = "blocked"
mission_state_text MissionState.retrying = "retrying"
mission_state_text MissionState.cancelled = "cancelled"
mission_state_text MissionState.failed = "failed"

-- `${id}: ${mission.state} -> ${to} (${reason})`
transition_text : (id : String) → (from to : MissionState) → (reason : String) → String
transition_text id from to reason = str_append id (
    str_append ": " (
      str_append (mission_state_text from) (
        str_append " -> "
          (str_append (mission_state_text to) (str_append " (" (str_append reason ")"))))))

module _ (host : Host) (at : String) where
  unfoldable pub transition_mission :
      (id : String)
      → (to : MissionState) → (reason actor : String) → (expected : Option ℕ) → Action (Unit {0})
  unfolding lookup insert can_transition_mission append_event append_audit transition_text
      assert_project_accepting_work
  transition_mission id to reason actor expected = transaction do
    mission ← find_or_throw (λ s. lookup id s.missions) (not_found id)
    fenced mission.project_id expected
    unless (can_transition_mission mission.state to)
        (throw (illegal (mission_error mission.state to)))
    modify (put_mission id (moved_mission at to reason mission))
    append_event host at (on_mission mission.project_id id)
        (mission_state_changed mission.state to reason)
    append_audit host at (some mission.project_id) actor "mission.transition"
        (transition_text id mission.state to reason)

  unfoldable pub update_mission_meta :
      (id : String)
      → (branch_name worktree_path baseline_commit : Option String)
      → (correction_attempts : Option ℕ) → (expected : Option ℕ) → Action (Unit {0})
  unfolding lookup insert assert_project_accepting_work
  update_mission_meta id branch_name worktree_path baseline_commit correction_attempts expected =
      transaction do
        mission ← find_or_throw (λ s. lookup id s.missions) (not_found id)
        fenced mission.project_id expected
        modify (
            put_mission id (record mission {
              branch_name = coalesce branch_name mission.branch_name;
              worktree_path = coalesce worktree_path mission.worktree_path;
              baseline_commit = coalesce baseline_commit mission.baseline_commit;
              correction_attempts = or_else correction_attempts mission.correction_attempts;
              updated_at = at;
            }))

  abbrev pub queued_run :
      (project_id mission_id : String) → (provider_id model worker_id : Option String) → RunRow
  queued_run project_id mission_id provider_id model worker_id = record {
    project_id = project_id;
    mission_id = mission_id;
    provider_id = provider_id;
    model = model;
    worker_id = worker_id;
    state = RunState.queued;
    exit_reason = none;
    error_category = none;
    started_at = none;
    ended_at = none;
    updated_at = at;
  }

  -- The identifier of the new run. It is the primary key, so that one that is taken is refused.
  unfoldable pub create_run :
      (project_id mission_id : String)
      → (provider_id model worker_id : Option String) → (expected : Option ℕ) → Action String
  unfolding lookup insert append_event assert_project_accepting_work
  create_run project_id mission_id provider_id model worker_id expected = transaction do
    assert_project_accepting_work project_id expected
    id ← gets (λ s. host.new_id "run" (length s.runs))
    taken ← gets (λ s. is_some (lookup id s.runs))
    unless (not taken) (throw constraint)
    modify (put_run id (queued_run project_id mission_id provider_id model worker_id))
    append_event host at (on_run project_id mission_id id) (run_created model)
    pure id

  unfoldable pub transition_run :
      (id : String)
      → (to : RunState) → (exit_reason error_category : Option String) → (expected : Option ℕ)
      → Action (Unit {0})
  unfolding lookup insert includes can_transition_run append_event assert_project_accepting_work
  transition_run id to exit_reason error_category expected = transaction do
    run ← find_or_throw (λ s. lookup id s.runs) (not_found id)
    fenced run.project_id expected
    unless (can_transition_run run.state to) (throw (illegal (run_error run.state to)))
    modify (put_run id (moved_run at to exit_reason error_category run))
    append_event host at (on_run run.project_id run.mission_id id)
        (run_state_changed run.state to exit_reason error_category)

  unfoldable pub set_project_status :
      (id : String) → (status : ProjectStatus) → (expected : Option ℕ) → Action (Unit {0})
  unfolding lookup insert can_transition_project append_event assert_project_accepting_work
  set_project_status id status expected = transaction do
    project ← find_or_throw (λ s. lookup id s.projects) (not_found id)
    fenced id expected
    unless (project.status === status) do
      unless (not (status === ProjectStatus.paused || project.status === ProjectStatus.paused))
          (throw (store_conflict Conflict.illegal_transition))
      unless (can_transition_project project.status status)
          (throw (illegal (project_error project.status status)))
      modify (put_project id (record project { status = status; updated_at = at }))
      append_event host at (on_project id) (project_status_changed project.status status)
