-- ===== src/ControlPlane/Lifecycle/Keeping.antt =====
-- services/control-plane/src/store.ts: the changes that the methods for missions and runs make.
use avity_os.Base.{
  ℕ, String, Bool, true, false, not, ◌≡◌, refl, Option, none, some, ◌===◌, lookup, string_eq,
  Option-cases, Bool-cases, inl, inr, arith, ◌||◌,
}
use avity_os.Contracts.{MissionState, RunState, ProjectStatus, project_status_eq}
use avity_os.ControlPlane.Store.{ProjectRow, Store, StoreError, Event, Scope, Host}
use avity_os.ControlPlane.Store.Actions.{throw, unless, ◌>>◌}
use avity_os.ControlPlane.Journal.{append_event, append_audit}
use avity_os.ControlPlane.Fence.{
  fenced, is_accepting, assert_project_accepting_work, assert_run_acceptable,
}
use avity_os.ControlPlane.Lifecycle.{
  transition_mission, update_mission_meta, create_run, transition_run, set_project_status,
}
use avity_os.ControlPlane.Changes.{
  recorded, event_added, audit_added, mission_moved, mission_noted, run_added, run_moved,
  project_written, Later,
}
use avity_os.ControlPlane.Changes.Methods.{
  Keeps, Keeps-then, Keeps-transaction, Keeps-found, Keeps-checked, Keeps-unless, Keeps-modify_then,
  Keeps-both_then, Keeps-modify, Keeps-gets, Keeps-pure, Keeps-throw, Keeps-does_unless,
}

-- The checks leave the store as it is.
pub assert_project_accepting_work_still :
    (project_id : String) (expected : Option ℕ) (s : Store)
    → (assert_project_accepting_work project_id expected s).1 ≡ s
unfolding assert_project_accepting_work
assert_project_accepting_work_still project_id expected s =
    elim (Option-cases (lookup project_id s.projects)) [
      | inl missing ↦ rw (missing, assert_project_accepting_work) refl
      | inr (row, found) ↦ elim (Bool-cases (is_accepting row expected)) [
        | inl accepting ↦ rw (found, accepting, assert_project_accepting_work) refl
        | inr refusing ↦ rw (found, refusing, assert_project_accepting_work) refl
      ]
    ]

pub fenced_still :
    (project_id : String) (expected : Option ℕ) (s : Store) → (fenced project_id expected s).1 ≡ s
unfolding fenced
fenced_still project_id none s = refl
fenced_still project_id (some generation) s =
    assert_project_accepting_work_still project_id (some generation) s

module _ (host : Host) (writes : Bool) where
  pub Keeps-append_event :
      (at : String) (scope : Scope) (event : Event) (s : Store)
      → recorded event ≡ none
      → Keeps host writes (append_event host at scope event) s
  unfolding append_event
  Keeps-append_event at scope event s other =
      Keeps-modify host writes _ s (event_added at scope event other)

  pub Keeps-append_audit :
      (at : String) (project_id : Option String) (actor action detail : String) (s : Store)
      → Keeps host writes (append_audit host at project_id actor action detail) s
  unfolding append_audit
  Keeps-append_audit at project_id actor action detail s =
      Keeps-modify host writes _ s (audit_added at project_id actor action detail)

  pub Keeps-transition_mission :
      (at id : String) (to : MissionState) (reason actor : String) (expected : Option ℕ) (s : Store)
      → Keeps host writes (transition_mission host at id to reason actor expected) s
  unfolding transition_mission append_event
  Keeps-transition_mission at id to reason actor expected s = Keeps-transaction host writes _ s (
      Keeps-found host writes _ _ _ s λ mission found.
        Keeps-checked host writes _ _ s (fenced_still mission.project_id expected s) (
          Keeps-unless host writes _ _ _ s λ legal.
            Keeps-both_then host writes _ _ _ _ s refl
              (mission_moved at reason id mission _ found legal) (Keeps-append_audit at _ _ _ _ _)))

  pub Keeps-update_mission_meta :
      (at id : String) (branch_name worktree_path baseline_commit : Option String)
      (correction_attempts : Option ℕ) (expected : Option ℕ) (s : Store)
      → Keeps host writes
          (update_mission_meta host at id branch_name worktree_path baseline_commit
            correction_attempts expected)
          s
  unfolding update_mission_meta
  Keeps-update_mission_meta at id branch_name worktree_path baseline_commit correction_attempts
        expected s =
      Keeps-transaction host writes _ s (
        Keeps-found host writes _ _ _ s λ mission found.
          Keeps-checked host writes _ _ s (fenced_still mission.project_id expected s)
            (Keeps-modify host writes _ s (mission_noted id mission _ found refl)))

  negation_true : (b : Bool) → not b ≡ true → b ≡ false
  negation_true b h = ground arith

  pub Keeps-create_run :
      (at project_id mission_id : String) (provider_id model worker_id : Option String)
      (expected : Option ℕ) (s : Store)
      → Keeps host writes
          (create_run host at project_id mission_id provider_id model worker_id expected)
          s
  unfolding create_run
  Keeps-create_run at project_id mission_id provider_id model worker_id expected s =
      Keeps-transaction host writes _ s (
        Keeps-checked host writes _ _ s (assert_project_accepting_work_still project_id expected s)
          (Keeps-gets host writes _ _ s (
            Keeps-gets host writes _ _ s (
              Keeps-unless host writes _ _ _ s λ free.
                Keeps-modify_then host writes _ _ s (run_added _ _ (negation_true _ free) refl) (
                  Keeps-then host writes _ _ _ (Keeps-append_event at _ _ _ refl)
                    (Keeps-pure host writes _ _))))))

  pub Keeps-transition_run :
      (at id : String) (to : RunState) (exit_reason error_category : Option String)
      (expected : Option ℕ) (s : Store)
      → Keeps host writes (transition_run host at id to exit_reason error_category expected) s
  unfolding transition_run
  Keeps-transition_run at id to exit_reason error_category expected s =
      Keeps-transaction host writes _ s (
        Keeps-found host writes _ _ _ s λ run found.
          Keeps-checked host writes _ _ s (fenced_still run.project_id expected s) (
            Keeps-unless host writes _ _ _ s λ legal.
              Keeps-modify_then host writes _ _ s (run_moved id run _ found legal)
                (Keeps-append_event at _ _ _ refl)))

  pub Keeps-assert_run_acceptable :
      (at run_id : String) (expected : Option ℕ) (s : Store)
      → Keeps host writes (assert_run_acceptable host at run_id expected) s
  unfolding assert_run_acceptable
  Keeps-assert_run_acceptable at run_id expected s = Keeps-found host writes _ _ _ s λ run _.
      Keeps-found host writes _ _ _ s
        λ project _. Keeps-then host writes _ _ s (refuses _ _ _ _ s refl) (refuses _ _ _ _ _ refl)
    where
      refuses :
          (b : Bool) (scope : Scope) (event : Event) (e : StoreError) (t : Store)
          → recorded event ≡ none
          → Keeps host writes (unless b (append_event host at scope event >> throw e)) t
      refuses b scope event e t other = Keeps-does_unless host writes b _ t (
          Keeps-then host writes _ _ t (Keeps-append_event at scope event t other)
            (Keeps-throw host writes e _))

-- A status other than paused is written on a project that is not paused.
not_paused :
    (p q : ProjectStatus)
    → not (q === ProjectStatus.paused || p === ProjectStatus.paused) ≡ true
    → (q === ProjectStatus.paused) ≡ false
not_paused p q h = ground arith

pub Later-status :
    (p q : ProjectRow)
    → q.pause_generation ≡ p.pause_generation
    → (q.status === ProjectStatus.paused) ≡ false
    → Later p q
Later-status p q same unpaused = record {
  no_lower = omega arith;
  higher_when_paused = λ _ paused. ground arith;
}

pub Keeps-set_project_status :
    (host : Host) (at id : String) (status : ProjectStatus) (expected : Option ℕ) (s : Store)
    → Keeps host true (set_project_status host at id status expected) s
unfolding set_project_status
Keeps-set_project_status host at id status expected s = Keeps-transaction host true _ s (
    Keeps-found host true _ _ _ s λ project found.
      Keeps-checked host true _ _ s (fenced_still id expected s) (
        Keeps-does_unless host true (project.status === status) _ s (
          Keeps-unless host true _ _ _ s λ apart. Keeps-unless host true _ _ _ s λ legal.
            Keeps-modify_then host true _ _ s
              (project_written id project _ refl found legal
                (Later-status project _ refl (not_paused project.status status apart)))
              (Keeps-append_event host true at _ _ _ refl))))
