-- ===== src/ControlPlane/Pause/Keeping.antt =====
-- services/control-plane/src/store.ts: the changes that a pause makes, and the cancellation of the
-- runs that it stops.
use avity_os.Base.{
  ◌+◌, String, Bool, true, ◌≡◌, refl, List, [], Option, none, some, ◌===◌, ◌&&◌, ◌||◌, lookup, any,
  includes, or_else, string_eq, arith,
}
use avity_os.Contracts.{MissionState, RunState, ProjectStatus, project_status_eq, run_state_eq}
use avity_os.Orchestration.Machines.{can_transition_project, run_cancellable_on_pause}
use avity_os.ControlPlane.Store.{ProjectRow, MissionRow, RunRow, Store, Host}
use avity_os.ControlPlane.Store.Actions.{gets, when}
use avity_os.ControlPlane.Lifecycle.{transition_run}
use avity_os.ControlPlane.Lifecycle.Keeping.{
  Keeps-transition_mission, Keeps-transition_run, Keeps-append_event, Keeps-append_audit,
}
use avity_os.ControlPlane.Pause.{
  pause_mission, cancel_run, pause_project, start_pause, begin_project_pause, cancel_now, stop_now,
  end_stopped, complete_paused_run_cancellation, given, has_pause_key,
}
use avity_os.ControlPlane.Pause.State.{get_project_pause_state}
use avity_os.ControlPlane.Changes.{mission_noted, project_written, pauses_written, Later}
use avity_os.ControlPlane.Changes.Methods.{
  Keeps, Keeps-then, Keeps-transaction, Keeps-found, Keeps-unless, Keeps-when, Keeps-modify_then,
  Keeps-gets, Keeps-looked, Keeps-pure, Keeps-if, Keeps-option, Keeps-for_each,
}

module _ (host : Host) (cut_reason cut_detail : String → String) (at : String) (writes : Bool) where
  Keeps-pause_mission :
      (reason actor : String) (entry : String × MissionRow) (s : Store)
      → Keeps host writes (pause_mission host cut_reason cut_detail at reason actor entry) s
  unfolding pause_mission
  Keeps-pause_mission reason actor (id, mission) s = Keeps-when host writes _ _ s λ _.
      Keeps-found host writes _ _ _ s λ current found.
        Keeps-modify_then host writes _ _ s (mission_noted id current _ found refl)
          (Keeps-transition_mission host writes at id MissionState.paused _ actor none _)

  Keeps-cancel_run :
      (run_id : String) (s : Store)
      → Keeps host writes (cancel_run host cut_reason cut_detail at run_id) s
  unfolding cancel_run
  Keeps-cancel_run run_id s = Keeps-gets host writes _ _ s (
      Keeps-option host writes _ _ _ s (Keeps-pure host writes _ s) (λ run.
        Keeps-then host writes _ _ s
          (Keeps-when host writes _ _ s
            λ _. Keeps-transition_run host writes at run_id _ none none none s)
          (Keeps-found host writes _ _ _ _ λ current found.
            Keeps-when host writes _ _ _
              λ _. Keeps-transition_run host writes at run_id _ none none none _)))

  Keeps-end_stopped :
      (run_id exit_reason : String) (s : Store)
      → Keeps host writes (end_stopped host cut_reason cut_detail at run_id exit_reason) s
  unfolding end_stopped
  Keeps-end_stopped run_id exit_reason s = Keeps-gets host writes _ _ s (
      Keeps-option host writes _ _ _ s (Keeps-pure host writes _ s) (λ last.
        Keeps-when host writes _ _ s
          λ _. Keeps-transition_run host writes at run_id _ (some exit_reason) none none s))

  Keeps-stop_now :
      (run_id exit_reason : String) (s : Store)
      → Keeps host writes (stop_now host cut_reason cut_detail at run_id exit_reason) s
  unfolding stop_now
  Keeps-stop_now run_id exit_reason s = Keeps-found host writes _ _ _ s λ current found.
      Keeps-then host writes _ _ s
        (Keeps-when host writes _ _ s
          λ _. Keeps-transition_run host writes at run_id _ none none none s)
        (Keeps-end_stopped run_id exit_reason _)

  Keeps-cancel_now :
      (run_id exit_reason : String) (run : RunRow) (s : Store)
      → Keeps host writes (cancel_now host cut_reason cut_detail at run_id exit_reason run) s
  unfolding cancel_now
  Keeps-cancel_now run_id exit_reason run s =
      Keeps-then host writes _ _ s
        (Keeps-when host writes _ _ s
          λ _. Keeps-transition_run host writes at run_id _ none none none s)
        (Keeps-stop_now run_id exit_reason _)

  pub Keeps-complete_paused_run_cancellation :
      (run_id exit_reason : String) (s : Store)
      → Keeps host writes
          (complete_paused_run_cancellation host cut_reason cut_detail at run_id exit_reason)
          s
  unfolding complete_paused_run_cancellation
  Keeps-complete_paused_run_cancellation run_id exit_reason s = Keeps-gets host writes _ _ s (
      Keeps-option host writes (lookup run_id s.runs) _ _ s (Keeps-pure host writes _ s) (λ run.
        Keeps-if host writes (run.state === RunState.cancelling)
          (transition_run host at run_id RunState.cancelled (some exit_reason) none none)
          (when (includes run_cancellable_on_pause run.state)
            (cancel_now host cut_reason cut_detail at run_id exit_reason run))
          s
          (λ _.
            Keeps-transition_run host writes at run_id RunState.cancelled (some exit_reason) none
              none s)
          (λ _. Keeps-when host writes _ _ s λ _. Keeps-cancel_now run_id exit_reason run s)))

module _ (host : Host) (cut_reason cut_detail : String → String) (at : String) where
  Later-raised : (p q : ProjectRow) → q.pause_generation ≡ p.pause_generation + 1 → Later p q
  Later-raised p q raised = record {
    no_lower = omega arith;
    higher_when_paused = λ _ _. omega arith;
  }

  Keeps-pause_project :
      (id : String) (project : ProjectRow) (reason actor : String) (key : Option String)
      (run_ids : List String) (s : Store)
      → lookup id s.projects ≡ some project
      → can_transition_project project.status ProjectStatus.paused ≡ true
      → Keeps host true
          (pause_project host cut_reason cut_detail at id project reason actor key run_ids)
          s
  unfolding pause_project
  Keeps-pause_project id project reason actor key run_ids s found legal =
      Keeps-modify_then host true _ _ s
        (project_written id project _ refl found legal (Later-raised project _ refl))
        (Keeps-gets host true _ _ _ (
          Keeps-unless host true _ _ _ _ λ _. Keeps-modify_then host true _ _ _ (pauses_written _) (
            Keeps-gets host true _ _ _ (
              Keeps-then host true _ _ _
                (Keeps-for_each host true _ _ _
                  (Keeps-pause_mission host cut_reason cut_detail at true reason actor))
                (Keeps-then host true _ _ _
                  (Keeps-for_each host true _ _ _
                    (Keeps-cancel_run host cut_reason cut_detail at true))
                  (Keeps-then host true _ _ _ (Keeps-append_event host true at _ _ _ refl) (
                    Keeps-then host true _ _ _ (Keeps-append_event host true at _ _ _ refl)
                      (Keeps-append_audit host true at _ _ _ _ _))))))))

  Keeps-start_pause :
      (id : String) (project : ProjectRow) (reason actor : String) (key : Option String) (s : Store)
      → lookup id s.projects ≡ some project
      → Keeps host true (start_pause host cut_reason cut_detail at id project reason actor key) s
  unfolding start_pause
  Keeps-start_pause id project reason actor key s found = Keeps-unless host true _ _ _ s λ legal.
      Keeps-gets host true _ _ s (
        Keeps-then host true _ _ s (Keeps-pause_project id project reason actor key _ s found legal)
          (Keeps-looked host true _ _))

  pub Keeps-begin_project_pause :
      (id reason actor : String) (key : Option String) (s : Store)
      → Keeps host true (begin_project_pause host cut_reason cut_detail at id reason actor key) s
  unfolding begin_project_pause
  Keeps-begin_project_pause id reason actor key s = Keeps-transaction host true _ s (
      Keeps-found host true _ _ _ s λ project found. Keeps-gets host true _ _ s (
        Keeps-if host true
          ((given key && any (has_pause_key id (or_else key "")) s.project_pauses)
            || project.status === ProjectStatus.paused)
          (gets (λ t. record {
            state = get_project_pause_state id t;
            run_ids_to_cancel = [];
            already_paused = true;
          }))
          (start_pause host cut_reason cut_detail at id project reason actor key) s
          (λ _. Keeps-looked host true _ s)
          (λ _. Keeps-start_pause id project reason actor key s found)))
