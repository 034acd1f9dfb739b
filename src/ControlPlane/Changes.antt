-- ===== src/ControlPlane/Changes.antt =====
-- services/control-plane/src/store.ts: what a method of the store may do to its tables, as a
-- relation: each method is a sequence of these changes.
pub mod Methods
pub mod Rows
pub mod Traces
pub mod Audit
pub mod Log
pub mod Reports
use avity_os.Base.{
  ℕ, ◌+◌, ◌≤◌, ◌<◌, ◌≡◌, ◌⊎◌, inl, inr, String, Bool, true, false, List, [], ◌∷◌, ◌++◌, Option,
  none, some, ◌===◌, lookup, insert, string_eq, refl, sym, subst, is_some, if◌then◌else◌,
}
use avity_os.Contracts.{MissionState, RunState, ProjectStatus, project_status_eq}
use avity_os.Orchestration.Machines.{
  can_transition_mission, can_transition_run, can_transition_project,
}
use avity_os.ControlPlane.Store.{
  ProjectRow, PauseRow, MissionRow, RunRow, TerminalRow, WorkerRow, EventRow, Event, Scope,
  mission_state_changed, Store, StoreError, Host,
}
use avity_os.ControlPlane.Store.Actions.{
  Action, Result, ok, err, pure, throw, gets, find_or_throw, modify, transaction, unless, when,
  for_each, ◌>>=◌, ◌>>◌,
}
use avity_os.ControlPlane.Journal.{next_audit_entry, event_row, on_mission}
use avity_os.ControlPlane.Lifecycle.{put_project, put_mission, put_run}

abbrev pub IsPaused : ProjectRow → Type 0
IsPaused p = (p.status === ProjectStatus.paused) ≡ true

abbrev pub IsOpen : ProjectRow → Type 0
IsOpen p = (p.status === ProjectStatus.paused) ≡ false

-- One row of a project after another: the generation does not go down, and goes up when the
-- project is paused.
pub record Later (p q : ProjectRow) : Type 0 where
  pub no_lower : p.pause_generation ≤ q.pause_generation
  pub higher_when_paused : IsOpen p → IsPaused q → p.pause_generation < q.pause_generation

-- The transition of a mission that an event reports.
abbrev pub recorded : Event → Option (MissionState × MissionState)
recorded (mission_state_changed p q reason) = some (p, q)
recorded _ = none

-- A mission moves together with the event that reports it; no other change adds such an event.
-- `writes` tells whether the projects may be written.
module _ (host : Host) (writes : Bool) where
  pub data Change (s : Store) : Store → Type 0 where
    event_added :
        (at : String) (scope : Scope) (event : Event)
        → recorded event ≡ none
        → Change s (record s { events = s.events ++ event_row host at scope event s.events ∷ [] })
    audit_added :
        (at : String) (project_id : Option String) (actor action detail : String)
        → Change s (record s {
          audit_entries =
              s.audit_entries
              ++ next_audit_entry host at project_id actor action detail s.audit_entries ∷ [];
        })
    mission_moved :
        (at reason id : String) (m m' : MissionRow)
        → lookup id s.missions ≡ some m
        → can_transition_mission m.state m'.state ≡ true
        → Change s (record s {
          missions = insert id m' s.missions;
          events =
              s.events
              ++ event_row host at
                  (on_mission m.project_id id)
                  (mission_state_changed m.state m'.state reason)
                  s.events
                ∷ [];
        })
    mission_noted :
        (id : String) (m m' : MissionRow)
        → lookup id s.missions ≡ some m
        → m'.state ≡ m.state
        → Change s (put_mission id m' s)
    run_added :
        (id : String) (r : RunRow)
        → is_some (lookup id s.runs) ≡ false
        → r.state ≡ RunState.queued
        → Change s (put_run id r s)
    run_moved :
        (id : String) (r r' : RunRow)
        → lookup id s.runs ≡ some r
        → can_transition_run r.state r'.state ≡ true
        → Change s (put_run id r' s)
    project_written :
        (id : String) (p p' : ProjectRow)
        → writes ≡ true
        → lookup id s.projects ≡ some p
        → can_transition_project p.status p'.status ≡ true
        → Later p p'
        → Change s (put_project id p' s)
    pauses_written :
        (pauses : List (String × PauseRow)) → Change s (record s { project_pauses = pauses })
    terminals_written :
        (terminals : List (String × TerminalRow)) → Change s (record s { terminals = terminals })
    workers_written :
        (workers : List (String × WorkerRow)) → Change s (record s { workers = workers })
    key_written :
        (keys : List (String × (String × String))) → Change s (record s { idempotency_keys = keys })

  pub data Changes (s : Store) : Store → Type 0 where
    still : Changes s s
    and_then : {t u : Store} → Changes s t → Change t u → Changes s u

  pub Changes-append : {s t u : Store} → Changes s t → Changes t u → Changes s u
  Changes-append before still = before
  Changes-append before (and_then after change) = and_then (Changes-append before after) change
