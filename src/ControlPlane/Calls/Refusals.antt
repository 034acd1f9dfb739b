-- ===== src/ControlPlane/Calls/Refusals.antt =====
-- services/control-plane/src/store.ts: work that began before a pause, after that pause, also once
-- the project has been resumed.
use avity_os.Base.{
  ℕ, ◌<◌, ◌≤◌, String, true, false, ◌≡◌, refl, ap, subst, sym, ◌∙◌, List, Option, some, ◌===◌,
  lookup, string_eq, nat_eq, arith,
}
use avity_os.Contracts.{MissionState, RunState, ProjectStatus, project_status_eq}
use avity_os.ControlPlane.Store.{
  ProjectRow, MissionRow, RunRow, Store, StoreError, Host, store_conflict, Conflict,
}
use avity_os.ControlPlane.Store.Actions.{Action, ok, err, ◌>>=◌, ◌>>◌, find_or_throw, transaction}
use avity_os.ControlPlane.Fence.{
  is_project_paused, is_accepting, assert_project_accepting_work, fenced,
}
use avity_os.ControlPlane.Lifecycle.{
  transition_mission, update_mission_meta, create_run, transition_run,
}
use avity_os.ControlPlane.Changes.Rows.{Became}
use avity_os.ControlPlane.Changes.Traces.{projects_move}
use avity_os.ControlPlane.Calls.{Call, after_calls, Changes-after_calls}

-- The call throws `project_paused` and leaves the store as it was.
pub record Refused {A : Type 0} (m : Action A) (s : Store) : Type 0 where
  pub refused : m s ≡ (err (store_conflict Conflict.project_paused), s)

module _ {A : Type 0} where
  Refused-transaction : (m : Action A) (s : Store) → Refused m s → Refused (transaction m) s
  unfolding transaction
  Refused-transaction m s h = record { refused = rw (h.refused, transaction) refl }

  Refused-then :
      (m : Action (Unit {0})) (k : Action A) (s : Store) → Refused m s → Refused (m >> k) s
  unfolding ◌>>◌ ◌>>=◌
  Refused-then m k s h = record {
    refused = ap (λ x. elim x.0 [ ok a ↦ k x.1 | err e ↦ (err e, x.1) ]) h.refused;
  }

  Refused-found :
      {B : Type 0} (find : Store → Option B) (e : StoreError) (f : B → Action A) (s : Store) (b : B)
      → find s ≡ some b
      → Refused (f b) s
      → Refused (find_or_throw find e >>= f) s
  unfolding ◌>>=◌ find_or_throw
  Refused-found find e f s b found h = record { refused = rw found h.refused }

fenced_lem :
    (id : String) (g : ℕ) (s : Store)
    → Refused (assert_project_accepting_work id (some g)) s
    → Refused (fenced id (some g)) s
unfolding fenced
fenced_lem id g s h = h

paused_row :
    (id : String) (s : Store) (p : ProjectRow)
    → lookup id s.projects ≡ some p
    → is_project_paused id s ≡ true
    → (p.status === ProjectStatus.paused) ≡ true
unfolding is_project_paused
paused_row id s p found paused = sym status ∙ paused
  where
    status : is_project_paused id s ≡ (p.status === ProjectStatus.paused)
    status = rw (found, is_project_paused) refl

unequal : (a b : ℕ) → b < a → (a === b) ≡ false
unequal a b h = ground arith

refused_generation :
    (q : ProjectRow) (g : ℕ) → g < q.pause_generation → is_accepting q (some g) ≡ false
unfolding is_accepting
refused_generation q g h = ground (arith, unequal q.pause_generation g h)

fence-Refused :
    (id : String) (expected : Option ℕ) (u : Store) (q : ProjectRow)
    → lookup id u.projects ≡ some q
    → is_accepting q expected ≡ false
    → Refused (assert_project_accepting_work id expected) u
unfolding assert_project_accepting_work
fence-Refused id expected u q found refused = record {
  refused = rw (found, refused, assert_project_accepting_work) refl;
}

module _ (host : Host) (u : Store) (g : ℕ) where
  transition_mission-Refused :
      (at id : String) (to : MissionState) (reason actor : String) (m : MissionRow)
      → lookup id u.missions ≡ some m
      → Refused (assert_project_accepting_work m.project_id (some g)) u
      → Refused (transition_mission host at id to reason actor (some g)) u
  unfolding transition_mission
  transition_mission-Refused at id to reason actor m found refusal =
      Refused-transaction _ u
        (Refused-found _ _ _ u m found (Refused-then _ _ u (fenced_lem m.project_id g u refusal)))

  update_mission_meta-Refused :
      (at id : String) (branch_name worktree_path baseline_commit : Option String)
      (correction_attempts : Option ℕ) (m : MissionRow)
      → lookup id u.missions ≡ some m
      → Refused (assert_project_accepting_work m.project_id (some g)) u
      → Refused
          (update_mission_meta host at id branch_name worktree_path baseline_commit
            correction_attempts
            (some g))
          u
  unfolding update_mission_meta
  update_mission_meta-Refused at id branch_name worktree_path baseline_commit correction_attempts m
        found refusal =
      Refused-transaction _ u
        (Refused-found _ _ _ u m found (Refused-then _ _ u (fenced_lem m.project_id g u refusal)))

  transition_run-Refused :
      (at id : String) (to : RunState) (exit_reason error_category : Option String) (r : RunRow)
      → lookup id u.runs ≡ some r
      → Refused (assert_project_accepting_work r.project_id (some g)) u
      → Refused (transition_run host at id to exit_reason error_category (some g)) u
  unfolding transition_run
  transition_run-Refused at id to exit_reason error_category r found refusal =
      Refused-transaction _ u
        (Refused-found _ _ _ u r found (Refused-then _ _ u (fenced_lem r.project_id g u refusal)))

  create_run-Refused :
      (at project_id mission_id : String) (provider_id model worker_id : Option String)
      → Refused (assert_project_accepting_work project_id (some g)) u
      → Refused (create_run host at project_id mission_id provider_id model worker_id (some g)) u
  unfolding create_run
  create_run-Refused at project_id mission_id provider_id model worker_id refusal =
      Refused-transaction _ u (Refused-then _ _ u refusal)

module _ (host : Host) (cut_reason cut_detail : String → String)
    (before after : List (String × Call)) (s : Store) (id : String) (p : ProjectRow)
    (found : lookup id s.projects ≡ some p) (unpaused : (p.status === ProjectStatus.paused) ≡ false)
    (paused : is_project_paused id (after_calls host cut_reason cut_detail before s) ≡ true) where
  abbrev now : Store
  now =
      after_calls host cut_reason cut_detail after (after_calls host cut_reason cut_detail before s)

  -- The project's row now, whose generation has been raised.
  raised : Became (λ a b. a.pause_generation < b.pause_generation) id p now.projects
  raised =
      let middle =
        projects_move host true (Changes-after_calls host cut_reason cut_detail before s) id p
          found in
      let last =
        projects_move host true
          (Changes-after_calls host cut_reason cut_detail after
            (after_calls host cut_reason cut_detail before s))
          id middle.row middle.found in
      let is_paused =
        paused_row id (after_calls host cut_reason cut_detail before s) middle.row middle.found
          paused in
      record {
        row = last.row;
        found = last.found;
        related =
            lt_le (middle.related.higher_when_paused unpaused is_paused) last.related.no_lower;
      }
    where
      lt_le : {a b c : ℕ} → a < b → b ≤ c → a < c
      lt_le h k = omega arith

  pub fence_refuses : Refused (assert_project_accepting_work id (some p.pause_generation)) now
  fence_refuses =
      fence-Refused id (some p.pause_generation) now raised.row raised.found
        (refused_generation raised.row p.pause_generation raised.related)

  -- Work on a mission that began while its project was not paused, and so holds the generation of
  -- that time, is refused for good once the project has been paused, whatever calls of `Call` were made
  -- before, between and since, resumptions included: both `transitionMission` and
  -- `updateMissionMeta` throw `project_paused` and leave the store as it is.
  pub stale_mission_work_rejected :
      (mission_id : String) (m : MissionRow)
      → lookup mission_id now.missions ≡ some m
      → m.project_id ≡ id
      → (at : String) (to : MissionState) (reason actor : String)
        (branch_name worktree_path baseline_commit : Option String) (correction_attempts : Option ℕ)
      → Refused
          (transition_mission host at mission_id to reason actor (some p.pause_generation))
          now
        × Refused
            (update_mission_meta host at mission_id branch_name worktree_path baseline_commit
              correction_attempts
              (some p.pause_generation))
            now
  stale_mission_work_rejected mission_id m there own at to reason actor branch_name worktree_path
        baseline_commit correction_attempts =
      let refusal =
        subst (λ x. Refused (assert_project_accepting_work x (some p.pause_generation)) now)
          (sym own) fence_refuses in
      (
        transition_mission-Refused host now p.pause_generation at mission_id to reason actor m there
            refusal,
        update_mission_meta-Refused host now p.pause_generation at mission_id branch_name
            worktree_path baseline_commit correction_attempts m there refusal,
      )

  -- A run that began while its project was not paused is refused for good once the project has
  -- been paused, whatever calls of `Call` were made before, between and since: `transitionRun` with the
  -- generation of that time throws `project_paused` and leaves the store as it is, and so does
  -- `createRun`.
  pub stale_runs_rejected :
      (run_id : String) (r : RunRow)
      → lookup run_id now.runs ≡ some r
      → r.project_id ≡ id
      → (at : String) (to : RunState) (exit_reason error_category : Option String)
        (mission_id : String) (provider_id model worker_id : Option String)
      → Refused
          (transition_run host at run_id to exit_reason error_category (some p.pause_generation))
          now
        × Refused
            (create_run host at id mission_id provider_id model worker_id (some p.pause_generation))
            now
  stale_runs_rejected run_id r there own at to exit_reason error_category mission_id provider_id
        model worker_id =
      (
        transition_run-Refused host now p.pause_generation at run_id to exit_reason error_category r
            there
            (subst (λ x. Refused (assert_project_accepting_work x (some p.pause_generation)) now)
              (sym own) fence_refuses),
        create_run-Refused host now p.pause_generation at id mission_id provider_id model worker_id
            fence_refuses,
      )
