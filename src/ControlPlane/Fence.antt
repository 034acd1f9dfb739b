-- ===== src/ControlPlane/Fence.antt =====
-- services/control-plane/src/store.ts: the fence of a paused project. Each pause raises the
-- project's generation, so that work which began before it is refused, also after the project
-- has been resumed.
use avity_os.Base.{
  ℕ, String, Bool, false, not, ◌||◌, Option, none, some, ◌===◌, if◌then◌else◌, lookup, includes, [],
  ◌∷◌, string_eq, nat_eq,
}
use avity_os.Contracts.{ProjectStatus, RunState, project_status_eq, run_state_eq}
use avity_os.ControlPlane.Store.{
  ProjectRow, Store, not_found, store_conflict, Conflict, run_fenced_generation, run_fenced_state,
  Host,
}
use avity_os.ControlPlane.Store.Actions.{
  Action, ok, err, pure, throw, find_or_throw, unless, ◌>>=◌, ◌>>◌,
}
use avity_os.ControlPlane.Journal.{append_event, on_run}

-- The generation is 0 for a project that is not there.
unfoldable pub get_pause_generation : (project_id : String) → Store → ℕ
unfolding lookup
get_pause_generation project_id s = elim (lookup project_id s.projects) [
  | none ↦ 0
  | some row ↦ row.pause_generation
]

unfoldable pub is_project_paused : (project_id : String) → Store → Bool
unfolding lookup
is_project_paused project_id s = elim (lookup project_id s.projects) [
  | none ↦ false
  | some row ↦ row.status === ProjectStatus.paused
]

-- `expected !== undefined && actual !== expected`
abbrev pub is_stale : (expected : Option ℕ) → (actual : ℕ) → Bool
is_stale none actual = false
is_stale (some generation) actual = not (actual === generation)

unfoldable pub is_accepting : ProjectRow → (expected : Option ℕ) → Bool
is_accepting row expected =
    not (row.status === ProjectStatus.paused || is_stale expected row.pause_generation)

unfoldable pub assert_project_accepting_work :
    (project_id : String) → (expected : Option ℕ) → Action (Unit {0})
unfolding lookup is_accepting
assert_project_accepting_work project_id expected s = elim (lookup project_id s.projects) [
  | none ↦ (err (not_found project_id), s)
  | some row ↦
      if is_accepting row expected
      then (ok tt, s)
      else (err (store_conflict Conflict.project_paused), s)
]

-- The guard of the methods that take an optional generation.
unfoldable pub fenced : (project_id : String) → (expected : Option ℕ) → Action (Unit {0})
unfolding pure assert_project_accepting_work
fenced project_id none = pure tt
fenced project_id (some generation) = assert_project_accepting_work project_id (some generation)

module _ (host : Host) where
  -- `assertRunAcceptable`: a late result is recorded, and then refused. The call is not in a
  -- transaction, so that the record stays.
  unfoldable pub assert_run_acceptable :
      (at run_id : String) → (expected : Option ℕ) → Action (Unit {0})
  unfolding lookup is_accepting append_event includes
  assert_run_acceptable at run_id expected = do
    run ← find_or_throw (λ s. lookup run_id s.runs) (not_found run_id)
    project ← find_or_throw (λ s. lookup run.project_id s.projects) (not_found run.project_id)
    unless (is_accepting project expected) do
      append_event host at (on_run run.project_id run.mission_id run_id)
          (run_fenced_generation expected project.pause_generation)
      throw (store_conflict Conflict.project_paused)
    unless (includes (RunState.running ∷ RunState.starting ∷ RunState.queued ∷ []) run.state) do
      append_event host at (on_run run.project_id run.mission_id run_id)
          (run_fenced_state run.state)
      throw (store_conflict Conflict.conflict)
