-- ===== src/ControlPlane/Pause.antt =====
-- services/control-plane/src/store.ts: pausing a project and resuming it. The texts that the
-- source cuts to a length go through `cut_reason` and `cut_detail`, since `slice` counts UTF-16
-- units. The time of a call is `at`.
pub mod State
pub mod Keeping
pub mod Steps
pub mod Cancelling
use avity_os.Base.{
  ℕ, ◌+◌, String, Bool, true, false, not, ◌&&◌, ◌||◌, List, [], ◌∷◌, ◌++◌, map, Option, none, some,
  ◌===◌, if◌then◌else◌, length, lookup, insert, includes, or_else, is_some, filter, any, string_eq,
}
use Prim.Native.String.{◌++◌ as str_append}
use avity_os.Contracts.{
  MissionState, RunState, ProjectStatus, mission_state_eq, run_state_eq, project_status_eq,
}
use avity_os.Orchestration.Machines.{
  can_transition_project, mission_pauseable_states, run_cancellable_on_pause, project_error,
}
use avity_os.ControlPlane.Store.{
  ProjectRow, PauseRow, MissionRow, RunRow, Store, StoreError, not_found, store_conflict, illegal,
  constraint, Conflict, project_status_changed, project_paused, project_resumed, Host,
}
use avity_os.ControlPlane.Store.Actions.{
  Action, Result, ok, err, pure, throw, gets, find_or_throw, modify, transaction, unless, when,
  for_each, ◌>>=◌, ◌>>◌,
}
use avity_os.ControlPlane.Journal.{
  append_event, append_audit, on_project, find_idempotent, record_idempotent,
}
use avity_os.ControlPlane.Fence.{get_pause_generation}
use avity_os.ControlPlane.Lifecycle.{
  put_project, put_mission, mission_state_text, transition_mission, transition_run,
}
use avity_os.ControlPlane.Pause.State.{
  ProjectPauseState, get_project_pause_state, missions_of, runs_of, PauseStatus, active, resuming,
}

pub record Paused : Type 0 where
  pub state : Option ProjectPauseState
  pub run_ids_to_cancel : List String
  pub already_paused : Bool

abbrev pub given : Option String → Bool
given none = false
given (some text) = not (text === "")

abbrev pub has_pause_key : (id key : String) → String × PauseRow → Bool
has_pause_key id key (_, pause) =
    pause.project_id === id && (elim pause.idempotency_key [ none ↦ false | some k ↦ k === key ])

-- The unique index on the project and the key.
abbrev pub is_pause_key_taken : (id : String) → (idempotency_key : Option String) → Store → Bool
is_pause_key_taken id none s = false
is_pause_key_taken id (some key) s = any (has_pause_key id key) s.project_pauses

module _ (host : Host) (cut_reason cut_detail : String → String) (at : String) where
  -- One mission of the loop of the pause, as it was listed before the loop.
  unfoldable pub pause_mission : (reason actor : String) → String × MissionRow → Action (Unit {0})
  unfolding includes lookup insert transition_mission
  pause_mission reason actor (id, mission) =
      when (includes mission_pauseable_states mission.state) do
        current ← find_or_throw (λ s. lookup id s.missions) (not_found id)
        modify (
            put_mission id
              (record current { paused_from_state = some mission.state; updated_at = at }))
        transition_mission host at id MissionState.paused
            (str_append "project paused: " (if reason === "" then "no reason" else reason)) actor
            none

  -- One run of the second loop. A run that is queued goes by way of `starting`.
  unfoldable pub cancel_run : (run_id : String) → Action (Unit {0})
  unfolding lookup transition_run includes
  cancel_run run_id = do
    found ← gets (λ s. lookup run_id s.runs)
    elim found [
      | none ↦ pure tt
      | some run ↦ do
        when (run.state === RunState.queued)
            (transition_run host at run_id RunState.starting none none none)
        current ← find_or_throw (λ s. lookup run_id s.runs) (not_found run_id)
        when (includes run_cancellable_on_pause current.state)
            (transition_run host at run_id RunState.cancelling none none none)
    ]

  -- The transaction's writes, once the project may be paused.
  unfoldable pub pause_project :
      (id : String)
      → ProjectRow
      → (reason actor : String) → (idempotency_key : Option String) → (run_ids : List String)
      → Action (Unit {0})
  unfolding insert for_each pause_mission cancel_run missions_of append_event append_audit
  pause_project id project reason actor idempotency_key run_ids = do
    let kept_reason = cut_reason (host.redact reason)
    modify (
        put_project id (record project {
          status = ProjectStatus.paused;
          pause_generation = project.pause_generation + 1;
          status_before_pause = some project.status;
          paused_reason = some kept_reason;
          paused_at = some at;
          paused_by = some actor;
          updated_at = at;
        }))
    taken ← gets (is_pause_key_taken id idempotency_key)
    unless (not taken) (throw constraint)
    modify (λ s. record s {
      project_pauses =
          s.project_pauses
          ++ (
            host.new_id "pause" (length s.project_pauses),
            record {
              project_id = id;
              is_active = true;
              reason = kept_reason;
              actor = actor;
              previous_status = project.status;
              generation = project.pause_generation + 1;
              idempotency_key = idempotency_key;
              cancelling_run_ids = run_ids;
              created_at = at;
              resumed_at = none;
            },
          )
            ∷ [];
    })
    missions ← gets (missions_of id)
    for_each (pause_mission reason actor) missions
    for_each cancel_run run_ids
    append_event host at (on_project id)
        (project_paused reason actor (project.pause_generation + 1) project.status run_ids)
    append_event host at (on_project id)
        (project_status_changed project.status ProjectStatus.paused)
    append_audit host at (some id) actor "project.pause" (cut_detail reason)

  unfoldable pub start_pause :
      (id : String)
      → ProjectRow
      → (reason actor : String) → (idempotency_key : Option String) → Action Paused
  unfolding includes can_transition_project get_project_pause_state runs_of pause_project
  start_pause id project reason actor idempotency_key = do
    unless (can_transition_project project.status ProjectStatus.paused)
        (throw (illegal (project_error project.status ProjectStatus.paused)))
    run_ids ← gets (λ s. map (λ entry. entry.0) (runs_of id run_cancellable_on_pause s))
    pause_project id project reason actor idempotency_key run_ids
    gets (λ s. record {
      state = get_project_pause_state id s;
      run_ids_to_cancel = run_ids;
      already_paused = false;
    })

  unfoldable pub begin_project_pause :
      (id reason actor : String) → (idempotency_key : Option String) → Action Paused
  unfolding lookup any start_pause get_project_pause_state
  begin_project_pause id reason actor idempotency_key = transaction do
    project ← find_or_throw (λ s. lookup id s.projects) (not_found id)
    repeated ← gets (λ s.
        given idempotency_key
        && any (has_pause_key id (or_else idempotency_key "")) s.project_pauses)
    if repeated || project.status === ProjectStatus.paused
        then gets (λ s. record {
          state = get_project_pause_state id s;
          run_ids_to_cancel = [];
          already_paused = true;
        })
        else start_pause id project reason actor idempotency_key

  -- The last test of `completePausedRunCancellation`, and what comes after its first.
  unfoldable pub end_stopped : (run_id exit_reason : String) → Action (Unit {0})
  unfolding lookup transition_run
  end_stopped run_id exit_reason = do
    last ← gets (λ s. lookup run_id s.runs)
    elim last [
      | none ↦ pure tt
      | some run ↦
          when (run.state === RunState.cancelling)
            (transition_run host at run_id RunState.cancelled (some exit_reason) none none)
    ]

  unfoldable pub stop_now : (run_id exit_reason : String) → Action (Unit {0})
  unfolding lookup includes transition_run end_stopped
  stop_now run_id exit_reason = do
    current ← find_or_throw (λ s. lookup run_id s.runs) (not_found run_id)
    when (includes (RunState.starting ∷ RunState.running ∷ RunState.paused ∷ []) current.state)
        (transition_run host at run_id RunState.cancelling none none none)
    end_stopped run_id exit_reason

  unfoldable pub cancel_now : (run_id exit_reason : String) → RunRow → Action (Unit {0})
  unfolding transition_run stop_now
  cancel_now run_id exit_reason run = do
    when (run.state === RunState.queued)
        (transition_run host at run_id RunState.starting none none none)
    stop_now run_id exit_reason

  -- Called for each run once its provider has been told to cancel.
  unfoldable pub complete_paused_run_cancellation :
      (run_id exit_reason : String) → Action (Unit {0})
  unfolding lookup includes transition_run
  complete_paused_run_cancellation run_id exit_reason = do
    found ← gets (λ s. lookup run_id s.runs)
    elim found [
      | none ↦ pure tt
      | some run ↦
          if run.state === RunState.cancelling
          then transition_run host at run_id RunState.cancelled (some exit_reason) none none
          else when (includes run_cancellable_on_pause run.state)
              (cancel_now run_id exit_reason run)
    ]
