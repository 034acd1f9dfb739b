-- ===== src/Examples/Pauses.antt =====
-- A project with one running mission that is paused and resumed.
use avity_os.Base.{
  String, true, false, ◌≡◌, refl, List, [], ◌∷◌, ◌++◌, none, some, lookup, insert, includes, filter,
  any, string_eq, inl,
}
use avity_os.Contracts.{MissionState, RunState, ProjectStatus, mission_state_eq}
use avity_os.Orchestration.Machines.{
  can_transition_mission, can_transition_run, can_transition_project,
}
use avity_os.ControlPlane.Store.{ProjectRow, MissionRow, RunRow, Store, Host}
use avity_os.ControlPlane.Store.Actions.{
  pure, throw, gets, find_or_throw, transaction, modify, unless, when, for_each, ◌>>=◌, ◌>>◌,
}
use avity_os.ControlPlane.Journal.{
  append_event, append_audit, last_hash, find_idempotent, record_idempotent, verify_audit_chain,
}
use avity_os.ControlPlane.Fence.{
  is_project_paused, is_accepting, assert_project_accepting_work, fenced,
}
use avity_os.ControlPlane.Lifecycle.{
  transition_mission, update_mission_meta, create_run, transition_run,
}
use avity_os.ControlPlane.Pause.{
  begin_project_pause, start_pause, pause_project, pause_mission, cancel_run,
}
use avity_os.ControlPlane.Pause.State.{missions_of, runs_of, get_project_pause_state}
use avity_os.ControlPlane.Resume.{
  resume_project, start_resume, restore_project, resume_mission, missions_to_resume, end_pauses,
}
use avity_os.ControlPlane.Resume.Targets.{resume_mission_target_lem}
use avity_os.ControlPlane.Changes.Log.{moves_of, Reported}
use avity_os.ControlPlane.Changes.Rows.{Became}
use avity_os.ControlPlane.Calls.{Call, pauses_project, resumes_project, after_calls}
use avity_os.ControlPlane.Calls.Moves.{
  missions_move_as_told, ended_missions_stay, SameMissionState, ended_runs_stay,
  cancelling_runs_never_succeed, audit_chain_kept, NotSucceeded, SameState,
}
use avity_os.ControlPlane.Calls.Refusals.{Refused, stale_mission_work_rejected, stale_runs_rejected}

abbrev host : Host
host = record {
  new_id = λ prefix n. prefix;
  sha256 = λ text. text;
  redact = λ text. text;
  redact_event = λ event. event;
}

abbrev cut : String → String
cut text = text

abbrev project : ProjectRow
project = record {
  status = ProjectStatus.active;
  pause_generation = 0;
  status_before_pause = none;
  paused_reason = none;
  paused_at = none;
  paused_by = none;
  updated_at = "0";
}

abbrev mission : MissionRow
mission = record {
  project_id = "p";
  state = MissionState.running;
  state_reason = none;
  paused_from_state = none;
  branch_name = none;
  worktree_path = none;
  baseline_commit = none;
  correction_attempts = 0;
  updated_at = "0";
}

abbrev done_mission : MissionRow
done_mission = record mission { state = MissionState.completed }

abbrev run_in : RunState → RunRow
run_in state = record {
  project_id = "p";
  mission_id = "m";
  provider_id = none;
  model = none;
  worker_id = none;
  state = state;
  exit_reason = none;
  error_category = none;
  started_at = some "0";
  ended_at = none;
  updated_at = "0";
}

abbrev store : Store
store = record {
  projects = ("p", project) ∷ [];
  project_pauses = [];
  missions = ("m", mission) ∷ ("d", done_mission) ∷ [];
  runs =
      ("r", run_in RunState.running)
      ∷ ("c", run_in RunState.cancelling)
      ∷ ("f", run_in RunState.failed)
      ∷ [];
  terminals = [];
  workers = [];
  events = [];
  audit_entries = [];
  idempotency_keys = [];
}

abbrev pause : List (String × Call)
pause = ("1", pauses_project "p" "why" "me" none) ∷ []

abbrev resume : List (String × Call)
resume = ("2", resumes_project "p" "me" none) ∷ []

abbrev both : List (String × Call)
both = pause ++ resume

abbrev resumed_mission : MissionRow
resumed_mission = record mission {
  state = MissionState.ready;
  state_reason = some "project resumed (was running)";
  updated_at = "2";
}

abbrev stopped_run : RunRow
stopped_run = record (run_in RunState.running) { state = RunState.cancelling; updated_at = "1" }

missions_move_as_told_example : Reported "m" mission store (after_calls host cut cut both store)
unfolding lookup
missions_move_as_told_example =
    missions_move_as_told host cut cut both store (λ _. refl) "m" mission refl

ended_missions_stay_example :
    Became SameMissionState "d" done_mission (after_calls host cut cut both store).missions
unfolding lookup
ended_missions_stay_example =
    ended_missions_stay host cut cut both store "d" done_mission refl (inl refl)

ended_runs_stay_example :
    Became SameState "f" (run_in RunState.failed) (after_calls host cut cut both store).runs
unfolding lookup includes
ended_runs_stay_example =
    ended_runs_stay host cut cut both store "f" (run_in RunState.failed) refl refl

cancelling_runs_never_succeed_example :
    Became NotSucceeded "c" (run_in RunState.cancelling) (after_calls host cut cut both store).runs
unfolding lookup
cancelling_runs_never_succeed_example =
    cancelling_runs_never_succeed host cut cut both store "c" (run_in RunState.cancelling) refl refl

audit_chain_kept_example :
    verify_audit_chain host (after_calls host cut cut both store) ≡ verify_audit_chain host store
audit_chain_kept_example = audit_chain_kept host cut cut both store

-- The project is paused once it has been paused, and its rows are these after the resumption.
pause_holds : is_project_paused "p" (after_calls host cut cut pause store) ≡ true
unfolding lookup insert includes filter any for_each after_calls pure throw gets find_or_throw
    transaction modify unless when ◌>>=◌ ◌>>◌ append_event append_audit last_hash find_idempotent
    record_idempotent is_project_paused is_accepting assert_project_accepting_work fenced
    can_transition_mission can_transition_run can_transition_project transition_mission
    transition_run begin_project_pause start_pause pause_project pause_mission cancel_run
    missions_of runs_of get_project_pause_state resume_project start_resume restore_project
    resume_mission missions_to_resume end_pauses
pause_holds = refl

-- The events of the pause and of the resumption.
moves_reported :
    moves_of "m" (after_calls host cut cut both store).events
    ≡ (MissionState.running, MissionState.paused) ∷ (MissionState.paused, MissionState.ready) ∷ []
unfolding moves_of lookup insert includes filter any for_each after_calls pure throw gets
    find_or_throw transaction modify unless when ◌>>=◌ ◌>>◌ append_event append_audit last_hash
    find_idempotent record_idempotent is_project_paused is_accepting assert_project_accepting_work
    fenced can_transition_mission can_transition_run can_transition_project transition_mission
    transition_run begin_project_pause start_pause pause_project pause_mission cancel_run
    missions_of runs_of get_project_pause_state resume_project start_resume restore_project
    resume_mission missions_to_resume end_pauses
moves_reported = refl

mission_resumed :
    lookup "m" (after_calls host cut cut resume (after_calls host cut cut pause store)).missions
    ≡ some resumed_mission
unfolding lookup insert includes filter any for_each after_calls pure throw gets find_or_throw
    transaction modify unless when ◌>>=◌ ◌>>◌ append_event append_audit last_hash find_idempotent
    record_idempotent is_project_paused is_accepting assert_project_accepting_work fenced
    can_transition_mission can_transition_run can_transition_project transition_mission
    transition_run begin_project_pause start_pause pause_project pause_mission cancel_run
    missions_of runs_of get_project_pause_state resume_project start_resume restore_project
    resume_mission missions_to_resume end_pauses
mission_resumed = refl

run_stopped :
    lookup "r" (after_calls host cut cut resume (after_calls host cut cut pause store)).runs
    ≡ some stopped_run
unfolding lookup insert includes filter any for_each after_calls pure throw gets find_or_throw
    transaction modify unless when ◌>>=◌ ◌>>◌ append_event append_audit last_hash find_idempotent
    record_idempotent is_project_paused is_accepting assert_project_accepting_work fenced
    can_transition_mission can_transition_run can_transition_project transition_mission
    transition_run begin_project_pause start_pause pause_project pause_mission cancel_run
    missions_of runs_of get_project_pause_state resume_project start_resume restore_project
    resume_mission missions_to_resume end_pauses
run_stopped = refl

stale_mission_work_rejected_example :
    Refused
      (transition_mission host "3" "m" MissionState.assigned "late" "me" (some 0))
      (after_calls host cut cut resume (after_calls host cut cut pause store))
    × Refused
        (update_mission_meta host "3" "m" (some "late") none none none (some 0))
        (after_calls host cut cut resume (after_calls host cut cut pause store))
unfolding lookup
stale_mission_work_rejected_example =
    stale_mission_work_rejected host cut cut pause resume store "p" project refl refl pause_holds
      "m" resumed_mission mission_resumed refl "3" MissionState.assigned "late" "me" (some "late")
      none none none

stale_runs_rejected_example :
    Refused
      (transition_run host "3" "r" RunState.cancelled none none (some 0))
      (after_calls host cut cut resume (after_calls host cut cut pause store))
    × Refused
        (create_run host "3" "p" "m" none none none (some 0))
        (after_calls host cut cut resume (after_calls host cut cut pause store))
unfolding lookup
stale_runs_rejected_example =
    stale_runs_rejected host cut cut pause resume store "p" project refl refl pause_holds "r"
      stopped_run run_stopped refl "3" RunState.cancelled none none "m" none none none

resume_mission_target_lem_example :
    (can_transition_mission MissionState.paused MissionState.ready ≡ true)
    × (includes
          (MissionState.assigned ∷ MissionState.running ∷ MissionState.retrying
            ∷ MissionState.paused ∷ [])
          MissionState.ready
        ≡ false)
resume_mission_target_lem_example = resume_mission_target_lem MissionState.running
