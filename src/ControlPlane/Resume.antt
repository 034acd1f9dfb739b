-- ===== src/ControlPlane/Resume.antt =====
-- services/control-plane/src/store.ts: resuming a paused project. The time of a call is `at`.
pub mod Targets
pub mod Keeping
use avity_os.Base.{
  ℕ, ◌+◌, String, Bool, true, false, not, ◌&&◌, ◌||◌, List, [], ◌∷◌, ◌++◌, map, Option, none, some,
  ◌===◌, if◌then◌else◌, length, lookup, insert, includes, or_else, is_some, filter, any, string_eq,
}
use Prim.Native.String.{◌++◌ as str_append}
use avity_os.Contracts.{
  MissionState, RunState, ProjectStatus, mission_state_eq, run_state_eq, project_status_eq,
}
use avity_os.Orchestration.Machines.{
  can_transition_project, mission_pauseable_states, run_cancellable_on_pause, project_error,
}
use avity_os.ControlPlane.Store.{
  ProjectRow, PauseRow, MissionRow, RunRow, Store, StoreError, not_found, store_conflict, illegal,
  constraint, Conflict, project_status_changed, project_paused, project_resumed, Host,
}
use avity_os.ControlPlane.Store.Actions.{
  Action, Result, ok, err, pure, throw, gets, find_or_throw, modify, transaction, unless, when,
  for_each, ◌>>=◌, ◌>>◌,
}
use avity_os.ControlPlane.Journal.{
  append_event, append_audit, on_project, find_idempotent, record_idempotent,
}
use avity_os.ControlPlane.Fence.{get_pause_generation}
use avity_os.ControlPlane.Lifecycle.{
  put_project, put_mission, mission_state_text, transition_mission, transition_run,
}
use avity_os.ControlPlane.Pause.State.{
  ProjectPauseState, get_project_pause_state, missions_of, runs_of, PauseStatus, active, resuming,
}
use avity_os.ControlPlane.Pause.{given}

pub record Resumed : Type 0 where
  pub state : Option ProjectPauseState
  pub already_resumed : Bool
  pub resume_planning : Bool
  pub missions_to_resume : List (String × MissionState)

-- A mission's way back.
abbrev pub resume_mission_target : MissionState → MissionState
resume_mission_target MissionState.running = MissionState.ready
resume_mission_target MissionState.assigned = MissionState.ready
resume_mission_target MissionState.retrying = MissionState.ready
resume_mission_target MissionState.proposed = MissionState.proposed
resume_mission_target MissionState.ready = MissionState.ready
resume_mission_target MissionState.result_submitted = MissionState.validating
resume_mission_target MissionState.validating = MissionState.validating
resume_mission_target MissionState.review_required = MissionState.review_required
resume_mission_target MissionState.approved = MissionState.approved
resume_mission_target MissionState.integrated = MissionState.integrated
resume_mission_target MissionState.blocked = MissionState.blocked
resume_mission_target _ = MissionState.ready

abbrev pub project_status_text : ProjectStatus → String
project_status_text ProjectStatus.draft = "draft"
project_status_text ProjectStatus.clarifying = "clarifying"
project_status_text ProjectStatus.planning = "planning"
project_status_text ProjectStatus.active = "active"
project_status_text ProjectStatus.paused = "paused"
project_status_text ProjectStatus.blocked = "blocked"
project_status_text ProjectStatus.completed = "completed"
project_status_text ProjectStatus.archived = "archived"

module _ (host : Host) (at : String) where
  -- One mission of the loop of the resumption, as it was listed before the loop.
  unfoldable pub resume_mission : (actor : String) → String × MissionRow → Action (Unit {0})
  unfolding lookup insert transition_mission
  resume_mission actor (id, mission) = when (mission.state === MissionState.paused) do
    let from_state = or_else mission.paused_from_state MissionState.ready
    transition_mission host at id (resume_mission_target from_state)
        (str_append "project resumed (was " (str_append (mission_state_text from_state) ")")) actor
        none
    current ← find_or_throw (λ s. lookup id s.missions) (not_found id)
    modify (put_mission id (record current { paused_from_state = none; updated_at = at }))

  -- `missionsToResume`
  unfoldable pub missions_to_resume : List (String × MissionRow) → List (String × MissionState)
  missions_to_resume [] = []
  missions_to_resume ((id, mission) ∷ missions) =
      if mission.state === MissionState.paused
      then (id, or_else mission.paused_from_state MissionState.ready) ∷ missions_to_resume missions
      else missions_to_resume missions

  -- `UPDATE project_pauses ... WHERE project_id = ? AND status = 'active'`
  unfoldable pub end_pauses :
      (project_id : String) → List (String × PauseRow) → List (String × PauseRow)
  end_pauses project_id [] = []
  end_pauses project_id ((id, pause) ∷ pauses) =
      (
        id,
        if pause.project_id === project_id && pause.is_active
            then record pause { is_active = false; resumed_at = some at }
            else pause,
      )
      ∷ end_pauses project_id pauses

  abbrev pub resume_key : (project_id key : String) → String
  resume_key project_id key = str_append "resume:" (str_append project_id (str_append ":" key))

  abbrev pub restarts_planning : ProjectStatus → Bool
  restarts_planning previous =
      previous === ProjectStatus.planning
      || previous === ProjectStatus.clarifying
      || previous === ProjectStatus.draft

  -- The transaction's writes, once the project may be resumed.
  unfoldable pub restore_project :
      (id : String)
      → ProjectRow
      → (previous : ProjectStatus) → (actor : String) → (idempotency_key : Option String)
      → List (String × MissionRow)
      → Action (Unit {0})
  unfolding lookup insert for_each resume_mission missions_to_resume end_pauses record_idempotent
      append_event append_audit
  restore_project id project previous actor idempotency_key missions = do
    for_each (resume_mission actor) missions
    modify (
        put_project id (record project {
          status = previous;
          status_before_pause = none;
          paused_reason = none;
          paused_at = none;
          paused_by = none;
          updated_at = at;
        }))
    modify (λ s. record s { project_pauses = end_pauses id s.project_pauses })
    when (given idempotency_key)
        (record_idempotent (resume_key id (or_else idempotency_key "")) "project" id)
    append_event host at (on_project id)
        (project_resumed actor previous (missions_to_resume missions))
    append_event host at (on_project id) (project_status_changed ProjectStatus.paused previous)
    append_audit host at (some id) actor "project.resume" (project_status_text previous)

  unfoldable pub start_resume :
      (id : String)
      → ProjectRow
      → (actor : String) → (idempotency_key : Option String) → Action Resumed
  unfolding includes can_transition_project missions_of restore_project
  start_resume id project actor idempotency_key = do
    let previous = or_else project.status_before_pause ProjectStatus.active
    unless (can_transition_project ProjectStatus.paused previous)
        (throw (illegal (project_error ProjectStatus.paused previous)))
    missions ← gets (missions_of id)
    restore_project id project previous actor idempotency_key missions
    pure (record {
      state = some (record {
        project_id = id;
        status = if previous === ProjectStatus.planning then resuming else active;
        reason = none;
        actor = some actor;
        previous_status = some previous;
        generation = project.pause_generation;
        paused_at = none;
        resumed_at = some at;
        cancelling_run_ids = [];
      });
      already_resumed = false;
      resume_planning = restarts_planning previous;
      missions_to_resume = missions_to_resume missions;
    })

  abbrev pub nothing_to_resume : (id : String) → Action Resumed
  nothing_to_resume id = gets (λ s. record {
    state = get_project_pause_state id s;
    already_resumed = true;
    resume_planning = false;
    missions_to_resume = [];
  })

  unfoldable pub resume_project :
      (id actor : String) → (idempotency_key : Option String) → Action Resumed
  unfolding lookup find_idempotent get_project_pause_state start_resume
  resume_project id actor idempotency_key = transaction do
    project ← find_or_throw (λ s. lookup id s.projects) (not_found id)
    repeated ← gets (λ s.
        given idempotency_key
        && is_some (find_idempotent (resume_key id (or_else idempotency_key "")) s))
    if repeated
        then nothing_to_resume id
        else if not (project.status === ProjectStatus.paused)
        then if given idempotency_key
          then nothing_to_resume id
          else throw (store_conflict Conflict.project_not_paused)
        else start_resume id project actor idempotency_key
