-- ===== src/ControlPlane/Calls/Moves.antt =====
-- services/control-plane/src/store.ts: what becomes of missions, runs and the audit chain, whatever
-- calls of `Call` are made.
use avity_os.Base.{
  String, true, ◌≡◌, ◌≢◌, subst, ◌⊎◌, List, some, lookup, includes, string_eq, arith,
}
use avity_os.Contracts.{MissionState, mission_state_eq, RunState, run_state_eq}
use avity_os.Orchestration.Machines.{run_terminal_states, can_transition_run}
use avity_os.Orchestration.Machines.Traces.{Trace}
use avity_os.Orchestration.Machines.Missions.{terminal_mission_absorbs}
use avity_os.Orchestration.Machines.Runs.{cancelling_never_succeeds, terminal_run_absorbs}
use avity_os.ControlPlane.Store.{Event, MissionRow, RunRow, Store, Host}
use avity_os.ControlPlane.Journal.{verify_audit_chain}
use avity_os.ControlPlane.Changes.{recorded}
use avity_os.ControlPlane.Changes.Log.{Reported}
use avity_os.ControlPlane.Changes.Reports.{report-Changes}
use avity_os.ControlPlane.Changes.Rows.{Became}
use avity_os.ControlPlane.Changes.Traces.{RunMoves, missions_move, runs_move}
use avity_os.ControlPlane.Changes.Audit.{verify-Changes}
use avity_os.ControlPlane.Calls.{Call, after_calls, Changes-after_calls}

-- The state of a later row is one from which the run cannot be counted as a success.
abbrev pub NotSucceeded : RunRow → RunRow → Type 0
NotSucceeded r r' = r'.state ≢ RunState.succeeded

abbrev pub SameMissionState : MissionRow → MissionRow → Type 0
SameMissionState m m' = m'.state ≡ m.state

abbrev pub SameState : RunRow → RunRow → Type 0
SameState r r' = r'.state ≡ r.state

module _ (host : Host) (cut_reason cut_detail : String → String) (calls : List (String × Call))
    (s : Store) where
  -- A stored mission that is completed or cancelled is still stored and in the same state,
  -- whatever calls of `Call` are made, in whatever order and whether they return or throw: no
  -- pause, resumption or late result takes it up again.
  pub ended_missions_stay :
      (id : String) (m : MissionRow)
      → lookup id s.missions ≡ some m
      → (m.state ≡ MissionState.completed) ⊎ (m.state ≡ MissionState.cancelled)
      → Became SameMissionState id m (after_calls host cut_reason cut_detail calls s).missions
  unfolding includes
  ended_missions_stay id m found over =
      let later =
        missions_move host true (Changes-after_calls host cut_reason cut_detail calls s) id m
          found in
      record {
        row = later.row;
        found = later.found;
        related =
            terminal_mission_absorbs m.state later.row.state (ground (arith, over)) later.related;
      }

  -- What the events that calls of `Call` add report of a stored mission is the whole of what has
  -- become of it, whatever calls are made, in whatever order and whether they return or throw: the
  -- reported transitions are legal, each begins where the one before it ended, and together they
  -- lead from the state that the mission had to the one that it has. What was reported before stays
  -- reported. The redaction of secrets must leave an event's transition as it is.
  pub missions_move_as_told :
      ((event : Event) → recorded (host.redact_event event) ≡ recorded event)
      → (id : String) (m : MissionRow) → lookup id s.missions ≡ some m
      → Reported id m s (after_calls host cut_reason cut_detail calls s)
  missions_move_as_told redacted id m found =
      report-Changes host true redacted id m s
        (Changes-after_calls host cut_reason cut_detail calls s) found

  run_move :
      (id : String) (r : RunRow)
      → lookup id s.runs ≡ some r
      → Became RunMoves id r (after_calls host cut_reason cut_detail calls s).runs
  run_move id r found =
      runs_move host true (Changes-after_calls host cut_reason cut_detail calls s) id r found

  -- A stored run whose state is terminal is still stored and in the same state, whatever calls
  -- of `Call` are made.
  pub ended_runs_stay :
      (id : String) (r : RunRow)
      → lookup id s.runs ≡ some r
      → includes run_terminal_states r.state ≡ true
      → Became SameState id r (after_calls host cut_reason cut_detail calls s).runs
  ended_runs_stay id r found over =
      let later = run_move id r found in
      record {
        row = later.row;
        found = later.found;
        related = terminal_run_absorbs r.state later.row.state over later.related;
      }

  -- A stored run that is being cancelled, as a pause leaves its project's runs, is still stored and
  -- has not succeeded, whatever calls of `Call` are made: no late result turns it into a success.
  pub cancelling_runs_never_succeed :
      (id : String) (r : RunRow)
      → lookup id s.runs ≡ some r
      → r.state ≡ RunState.cancelling
      → Became NotSucceeded id r (after_calls host cut_reason cut_detail calls s).runs
  cancelling_runs_never_succeed id r found stopping =
      let later = run_move id r found in
      record {
        row = later.row;
        found = later.found;
        related = λ success. ends_otherwise later.row.state success (
            cancelling_never_succeeds later.row.state
              (subst (λ q. Trace can_transition_run q later.row.state) stopping later.related));
      }
    where
      ends_otherwise :
          (q : RunState)
          → q ≡ RunState.succeeded
          → (q ≡ RunState.cancelling) ⊎ (q ≡ RunState.cancelled) ⊎ (q ≡ RunState.failed)
          → ⊥
      ends_otherwise q e h = ground arith

  -- Whatever calls of `Call` are made, the hash chain of the audit entries verifies afterwards exactly
  -- if it verified before: every entry that they write is chained to the one before it.
  pub audit_chain_kept :
      verify_audit_chain host (after_calls host cut_reason cut_detail calls s)
      ≡ verify_audit_chain host s
  audit_chain_kept =
      verify-Changes host true (Changes-after_calls host cut_reason cut_detail calls s)
