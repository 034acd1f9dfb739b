-- ===== src/ControlPlane/Pause/State.antt =====
-- services/control-plane/src/store.ts: the rows of a project, and the state of its pause.
use avity_os.Base.{
  ℕ, String, Bool, false, not, ◌&&◌, List, [], ◌∷◌, map, Option, none, some, ◌===◌, if◌then◌else◌,
  length, ltb, lookup, includes, is_some, filter, string_eq,
}
use avity_os.Contracts.{RunState, ProjectStatus, run_state_eq, project_status_eq}
use avity_os.ControlPlane.Store.{PauseRow, MissionRow, RunRow, Store}
use avity_os.ControlPlane.Fence.{get_pause_generation}

-- `listMissions(projectId)`
unfoldable pub missions_of : (project_id : String) → Store → List (String × MissionRow)
unfolding filter
missions_of project_id s = filter (λ entry. entry.1.project_id === project_id) s.missions

-- `listRuns({ projectId, states })`
unfoldable pub runs_of : (project_id : String) → List RunState → Store → List (String × RunRow)
unfolding filter includes
runs_of project_id states s =
    filter (λ entry. entry.1.project_id === project_id && includes states entry.1.state) s.runs

pub data PauseStatus : Type 0 where
  active pausing paused resuming : PauseStatus

pub record ProjectPauseState : Type 0 where
  pub project_id : String
  pub status : PauseStatus
  pub reason : Option String
  pub actor : Option String
  pub previous_status : Option ProjectStatus
  pub generation : ℕ
  pub paused_at : Option String
  pub resumed_at : Option String
  pub cancelling_run_ids : List String

-- `ORDER BY created_at DESC LIMIT 1`
unfoldable pub latest_pause : (project_id : String) → List (String × PauseRow) → Option PauseRow
latest_pause project_id [] = none
latest_pause project_id ((_, pause) ∷ pauses) =
    let later = latest_pause project_id pauses in
    if is_some later then later else if pause.project_id === project_id then some pause else none

abbrev pub of_pause {ℓ} : {A : Type ℓ} → (PauseRow → Option A) → Option PauseRow → Option A
of_pause field none = none
of_pause field (some pause) = field pause

abbrev pub or_this {ℓ} : {A : Type ℓ} → Option A → Option A → Option A
or_this none other = other
or_this (some a) other = some a

abbrev pub is_resuming : Option PauseRow → Bool
is_resuming none = false
is_resuming (some pause) = not pause.is_active && not (is_some pause.resumed_at)

unfoldable pub get_project_pause_state : (project_id : String) → Store → Option ProjectPauseState
unfolding lookup latest_pause runs_of get_pause_generation
get_project_pause_state project_id s = elim (lookup project_id s.projects) [
  | none ↦ none
  | some project ↦
      let pause = latest_pause project_id s.project_pauses in
      let cancelling = map (λ entry. entry.0) (runs_of project_id (RunState.cancelling ∷ []) s) in
      if project.status === ProjectStatus.paused
      then some (record {
        project_id = project_id;
        status = if ltb 0 (length cancelling) then pausing else paused;
        reason = or_this (of_pause (λ p. some p.reason) pause) project.paused_reason;
        actor = of_pause (λ p. some p.actor) pause;
        previous_status = of_pause (λ p. some p.previous_status) pause;
        generation = project.pause_generation;
        paused_at = of_pause (λ p. some p.created_at) pause;
        resumed_at = of_pause (λ p. p.resumed_at) pause;
        cancelling_run_ids = cancelling;
      })
      else if is_resuming pause
      then some (record {
        project_id = project_id;
        status = resuming;
        reason = of_pause (λ p. some p.reason) pause;
        actor = of_pause (λ p. some p.actor) pause;
        previous_status = of_pause (λ p. some p.previous_status) pause;
        generation = project.pause_generation;
        paused_at = of_pause (λ p. some p.created_at) pause;
        resumed_at = none;
        cancelling_run_ids = [];
      })
      else some (record {
        project_id = project_id;
        status = active;
        reason = none;
        actor = none;
        previous_status = none;
        generation = project.pause_generation;
        paused_at = none;
        resumed_at = of_pause (λ p. p.resumed_at) pause;
        cancelling_run_ids = [];
      })
]
