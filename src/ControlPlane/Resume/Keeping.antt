-- ===== src/ControlPlane/Resume/Keeping.antt =====
-- services/control-plane/src/store.ts: the changes that a resumption makes.
use avity_os.Base.{
  String, Bool, true, false, not, ◌&&◌, ◌≡◌, refl, sym, subst, ap, ◌∙◌, List, Option, none, some,
  ◌===◌, lookup, is_some, or_else, if◌then◌else◌, string_eq, beq_true, arith,
}
use avity_os.Contracts.{ProjectStatus, project_status_eq}
use avity_os.Orchestration.Machines.{can_transition_project}
use avity_os.ControlPlane.Store.{ProjectRow, MissionRow, Store, Host, store_conflict, Conflict}
use avity_os.ControlPlane.Store.Actions.{for_each, throw}
use avity_os.ControlPlane.Journal.{record_idempotent, find_idempotent}
use avity_os.ControlPlane.Lifecycle.Keeping.{
  Keeps-transition_mission, Keeps-append_event, Keeps-append_audit, Later-status,
}
use avity_os.ControlPlane.Pause.{given}
use avity_os.ControlPlane.Resume.{
  resume_mission, restore_project, start_resume, resume_project, nothing_to_resume, resume_key,
}
use avity_os.ControlPlane.Changes.{
  Change, Changes, still, and_then, event_added, audit_added, mission_moved, run_added, run_moved,
  mission_noted, project_written, pauses_written, key_written, terminals_written, workers_written,
}
use avity_os.ControlPlane.Changes.Methods.{
  Keeps, Keeps-then, Keeps-transaction, Keeps-found, Keeps-unless, Keeps-when, Keeps-modify_then,
  Keeps-gets, Keeps-looked, Keeps-throw, Keeps-modify, Keeps-pure, Keeps-if, Keeps-for_each,
}

module _ (host : Host) where
  -- Changes that do not write the projects.
  same_after_one : {s t : Store} → Change host false s t → t.projects ≡ s.projects
  same_after_one (project_written id p p' writes found legal later) = ground arith
  same_after_one (event_added at scope event other_event) = refl
  same_after_one (audit_added at project_id actor action detail) = refl
  same_after_one (mission_moved at reason id m m' found legal) = refl
  same_after_one (mission_noted id m m' found same) = refl
  same_after_one (run_added id r free queued) = refl
  same_after_one (run_moved id r r' found legal) = refl
  same_after_one (pauses_written pauses) = refl
  same_after_one (key_written keys) = refl
  same_after_one (terminals_written terminals) = refl
  same_after_one (workers_written workers) = refl

  same_projects : {s t : Store} → Changes host false s t → t.projects ≡ s.projects
  same_projects still = refl
  same_projects (and_then before change) = same_after_one change ∙ same_projects before

module _ (host : Host) (at : String) where
  Keeps-resume_mission :
      (writes : Bool) (actor : String) (entry : String × MissionRow) (s : Store)
      → Keeps host writes (resume_mission host at actor entry) s
  unfolding resume_mission
  Keeps-resume_mission writes actor (id, mission) s = Keeps-when host writes _ _ s λ _.
      Keeps-then host writes _ _ s (Keeps-transition_mission host writes at id _ _ actor none s) (
        Keeps-found host writes _ _ _ _
          λ current found. Keeps-modify host writes _ _ (mission_noted id current _ found refl))

  Keeps-record_idempotent :
      (key resource_type resource_id : String) (s : Store)
      → Keeps host true (record_idempotent key resource_type resource_id) s
  unfolding record_idempotent
  Keeps-record_idempotent key resource_type resource_id s =
      Keeps-gets host true _ _ s
        (Keeps-unless host true _ _ _ s λ _. Keeps-modify host true _ s (key_written _))

  -- A project that is paused goes back to a status that is not.
  back_unpaused :
      (status : ProjectStatus)
      → can_transition_project ProjectStatus.paused status ≡ true
      → (status === ProjectStatus.paused) ≡ false
  unfolding can_transition_project
  back_unpaused status legal = ground arith

  Keeps-restore_project :
      (id : String) (project : ProjectRow) (previous : ProjectStatus) (actor : String)
      (key : Option String) (missions : List (String × MissionRow)) (s : Store)
      → lookup id s.projects ≡ some project
      → can_transition_project project.status previous ≡ true
      → (previous === ProjectStatus.paused) ≡ false
      → Keeps host true (restore_project host at id project previous actor key missions) s
  unfolding restore_project
  Keeps-restore_project id project previous actor key missions s found legal unpaused =
      Keeps-then host true _ _ s (Keeps-for_each host true _ _ _ (Keeps-resume_mission true actor))
        (Keeps-modify_then host true _ _ _
          (project_written id project _ refl (still_found ∙ found) legal
            (Later-status project _ refl unpaused))
          (Keeps-modify_then host true _ _ _ (pauses_written _) (
            Keeps-then host true _ _ _
              (Keeps-when host true _ _ _ λ _. Keeps-record_idempotent _ _ _ _)
              (Keeps-then host true _ _ _ (Keeps-append_event host true at _ _ _ refl) (
                Keeps-then host true _ _ _ (Keeps-append_event host true at _ _ _ refl)
                  (Keeps-append_audit host true at _ _ _ _ _))))))
    where
      still_found :
          lookup id (for_each (resume_mission host at actor) missions s).1.projects
          ≡ lookup id s.projects
      still_found = ap (lookup id) (
          same_projects host
            (Keeps-for_each host false (resume_mission host at actor) missions s
              (Keeps-resume_mission false actor)).changes)

  Keeps-start_resume :
      (id : String) (project : ProjectRow) (actor : String) (key : Option String) (s : Store)
      → lookup id s.projects ≡ some project
      → (project.status === ProjectStatus.paused) ≡ true
      → Keeps host true (start_resume host at id project actor key) s
  unfolding start_resume
  Keeps-start_resume id project actor key s found paused = Keeps-unless host true _ _ _ s λ legal.
      Keeps-gets host true _ _ s (
        Keeps-then host true _ _ s
          (Keeps-restore_project id project _ actor key _ s found
            (subst
              (λ p.
                can_transition_project p (or_else project.status_before_pause ProjectStatus.active)
                ≡ true)
              {x = ProjectStatus.paused} (sym (beq_true paused)) legal)
            (back_unpaused _ legal))
          (Keeps-pure host true _ _))

  negation_false : (b : Bool) → not b ≡ false → b ≡ true
  negation_false b h = ground arith

  pub Keeps-resume_project :
      (id actor : String) (key : Option String) (s : Store)
      → Keeps host true (resume_project host at id actor key) s
  unfolding resume_project
  Keeps-resume_project id actor key s = Keeps-transaction host true _ s (
      Keeps-found host true _ _ _ s λ project found. Keeps-gets host true _ _ s (
        Keeps-if host true
          (given key && is_some (find_idempotent (resume_key host at id (or_else key "")) s))
          (nothing_to_resume host at id)
          (if not (project.status === ProjectStatus.paused)
            then if given key
              then nothing_to_resume host at id
              else throw (store_conflict Conflict.project_not_paused)
            else start_resume host at id project actor key)
          s (λ _. Keeps-looked host true _ s)
          (λ _.
            Keeps-if host true (not (project.status === ProjectStatus.paused))
              (if given key
                then nothing_to_resume host at id
                else throw (store_conflict Conflict.project_not_paused))
              (start_resume host at id project actor key) s
              (λ _.
                Keeps-if host true (given key) (nothing_to_resume host at id)
                  (throw (store_conflict Conflict.project_not_paused)) s
                  (λ _. Keeps-looked host true _ s) (λ _. Keeps-throw host true _ s))
              (λ paused.
                Keeps-start_resume id project actor key s found (negation_false _ paused)))))
