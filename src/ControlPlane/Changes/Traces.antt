-- ===== src/ControlPlane/Changes/Traces.antt =====
-- services/control-plane/src/store.ts: what the stored rows go through under changes.
use avity_os.Base.{List, String, Bool, true, ◌≡◌, sym, subst, ap, ◌∙◌, some, lookup, string_eq}
use avity_os.Contracts.{project_status_eq}
use avity_os.Orchestration.Machines.{can_transition_mission, can_transition_run}
use avity_os.Orchestration.Machines.Traces.{Trace, start, step, Trace-append}
use avity_os.ControlPlane.Store.{MissionRow, RunRow, ProjectRow, Store, Host}
use avity_os.ControlPlane.Changes.{
  Change, Changes, event_added, audit_added, mission_moved, mission_noted, run_added, run_moved,
  project_written, pauses_written, key_written, terminals_written, workers_written, Later,
}
use avity_os.ControlPlane.Changes.Rows.{
  Became, Became-insert, Became-insert_new, Became-Changes, Later-self, Later-trans,
}

abbrev pub MissionMoves : MissionRow → MissionRow → Type 0
MissionMoves m m' = Trace can_transition_mission m.state m'.state

abbrev pub RunMoves : RunRow → RunRow → Type 0
RunMoves r r' = Trace can_transition_run r.state r'.state

module _ (host : Host) (writes : Bool) where
  unmoved_mission :
      {k : String} {m : MissionRow} {table : List (String × MissionRow)}
      → lookup k table ≡ some m
      → Became MissionMoves k m table
  unmoved_mission {m = m} found = record { row = m; found = found; related = start }

  one_mission :
      (s t : Store)
      → Change host writes s t
      → (k : String) (m : MissionRow) → lookup k s.missions ≡ some m
      → Became MissionMoves k m t.missions
  one_mission s _ (mission_moved at reason id m1 m' other legal) k m found =
      Became-insert MissionMoves k id m m1 m' s.missions found other start (λ same.
        step start (subst (λ x. can_transition_mission x.state m'.state ≡ true) same legal))
  one_mission s _ (mission_noted id m1 m' other kept) k m found =
      Became-insert MissionMoves k id m m1 m' s.missions found other start (λ same.
        subst (Trace can_transition_mission m.state) (sym (kept ∙ ap (λ x. x.state) same)) start)
  one_mission s _ (event_added at scope event other_event) k m found = unmoved_mission found
  one_mission s _ (audit_added at project_id actor action detail) k m found = unmoved_mission found
  one_mission s _ (run_added id r free queued) k m found = unmoved_mission found
  one_mission s _ (run_moved id r r' other legal) k m found = unmoved_mission found
  one_mission s _ (project_written id p p' w other legal later) k m found = unmoved_mission found
  one_mission s _ (pauses_written pauses) k m found = unmoved_mission found
  one_mission s _ (key_written keys) k m found = unmoved_mission found
  one_mission s _ (terminals_written terminals) k m found = unmoved_mission found
  one_mission s _ (workers_written workers) k m found = unmoved_mission found

  pub missions_move :
      {s t : Store}
      → Changes host writes s t
      → (id : String) (m : MissionRow) → lookup id s.missions ≡ some m
      → Became MissionMoves id m t.missions
  missions_move =
      Became-Changes host writes (λ s. s.missions) MissionMoves (λ m. start)
        (λ u v w p q. Trace-append can_transition_mission p q) one_mission

  unmoved_run :
      {k : String} {r : RunRow} {table : List (String × RunRow)}
      → lookup k table ≡ some r
      → Became RunMoves k r table
  unmoved_run {r = r} found = record { row = r; found = found; related = start }

  one_run :
      (s t : Store)
      → Change host writes s t
      → (k : String) (r : RunRow) → lookup k s.runs ≡ some r
      → Became RunMoves k r t.runs
  one_run s _ (run_added id r' free queued) k r found =
      Became-insert_new RunMoves k id r r' s.runs found free start
  one_run s _ (run_moved id r1 r' other legal) k r found =
      Became-insert RunMoves k id r r1 r' s.runs found other start
        (λ same. step start (subst (λ x. can_transition_run x.state r'.state ≡ true) same legal))
  one_run s _ (event_added at scope event other_event) k r found = unmoved_run found
  one_run s _ (audit_added at project_id actor action detail) k r found = unmoved_run found
  one_run s _ (mission_moved at reason id m m' other legal) k r found = unmoved_run found
  one_run s _ (mission_noted id m m' other same) k r found = unmoved_run found
  one_run s _ (project_written id p p' w other legal later) k r found = unmoved_run found
  one_run s _ (pauses_written pauses) k r found = unmoved_run found
  one_run s _ (key_written keys) k r found = unmoved_run found
  one_run s _ (terminals_written terminals) k r found = unmoved_run found
  one_run s _ (workers_written workers) k r found = unmoved_run found

  pub runs_move :
      {s t : Store}
      → Changes host writes s t
      → (id : String) (r : RunRow) → lookup id s.runs ≡ some r
      → Became RunMoves id r t.runs
  runs_move =
      Became-Changes host writes (λ s. s.runs) RunMoves (λ r. start)
        (λ u v w p q. Trace-append can_transition_run p q) one_run

  unmoved_project :
      {k : String} {p : ProjectRow} {table : List (String × ProjectRow)}
      → lookup k table ≡ some p
      → Became Later k p table
  unmoved_project {p = p} found = record { row = p; found = found; related = Later-self p }

  one_project :
      (s t : Store)
      → Change host writes s t
      → (k : String) (p : ProjectRow) → lookup k s.projects ≡ some p
      → Became Later k p t.projects
  one_project s _ (project_written id p1 p' w other legal later) k p found =
      Became-insert Later k id p p1 p' s.projects found other (Later-self p)
        (λ same. subst (λ x. Later x p') same later)
  one_project s _ (event_added at scope event other_event) k p found = unmoved_project found
  one_project s _ (audit_added at project_id actor action detail) k p found = unmoved_project found
  one_project s _ (mission_moved at reason id m m' other legal) k p found = unmoved_project found
  one_project s _ (mission_noted id m m' other same) k p found = unmoved_project found
  one_project s _ (run_added id r free queued) k p found = unmoved_project found
  one_project s _ (run_moved id r r' other legal) k p found = unmoved_project found
  one_project s _ (pauses_written pauses) k p found = unmoved_project found
  one_project s _ (key_written keys) k p found = unmoved_project found
  one_project s _ (terminals_written terminals) k p found = unmoved_project found
  one_project s _ (workers_written workers) k p found = unmoved_project found

  pub projects_move :
      {s t : Store}
      → Changes host writes s t
      → (id : String) (p : ProjectRow) → lookup id s.projects ≡ some p
      → Became Later id p t.projects
  projects_move =
      Became-Changes host writes (λ s. s.projects) Later Later-self Later-trans one_project
