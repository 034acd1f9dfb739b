-- ===== src/ControlPlane/Leases.antt =====
-- services/control-plane/src/store.ts: the terminals that workers lease. `now` is the time of a
-- call in milliseconds and `at` its text; the lease's token, which is random, is an argument.
pub mod Offers
pub mod Capacity
pub mod Tokens
pub mod Keeping
pub mod Grants
pub mod Offered
use avity_os.Base.{
  ℕ, ◌+◌, ◌-◌, ◌*◌, String, Bool, true, false, not, ◌&&◌, ◌||◌, List, [], ◌∷◌, Option, none, some,
  ◌===◌, if◌then◌else◌, length, ltb, leb, lookup, insert, includes, is_some, filter, find, all, any,
  count_if, string_eq,
}
use avity_os.Contracts.{RunState, ProjectStatus, project_status_eq}
use avity_os.ControlPlane.Store.{
  TerminalRow, WorkerRow, Store, not_found, constraint, lease_fenced, terminal_queued,
  terminal_output, Host, Scope,
}
use avity_os.ControlPlane.Store.Actions.{
  Action, pure, throw, gets, find_or_throw, modify, transaction, unless, for_each, ◌>>=◌, ◌>>◌,
}
use avity_os.ControlPlane.Journal.{append_event, on_project}
use avity_os.ControlPlane.Fence.{assert_project_accepting_work}

-- `state IN ('starting', 'running', 'cancelling')`
abbrev pub is_lease_state : RunState → Bool
is_lease_state RunState.starting = true
is_lease_state RunState.running = true
is_lease_state RunState.cancelling = true
is_lease_state _ = false

-- `state IN ('succeeded', 'failed', 'cancelled', 'timed_out')`
abbrev pub is_over : RunState → Bool
is_over RunState.succeeded = true
is_over RunState.failed = true
is_over RunState.cancelled = true
is_over RunState.timed_out = true
is_over _ = false

abbrev pub is_queued : RunState → Bool
is_queued RunState.queued = true
is_queued _ = false

-- `worker_id = ?`, which NULL does not satisfy.
abbrev pub is_held_by : (worker_id : String) → TerminalRow → Bool
is_held_by worker_id row = elim row.worker_id [ none ↦ false | some holder ↦ holder === worker_id ]

-- A terminal that counts for a worker.
abbrev pub is_active_for : (worker_id : String) → String × TerminalRow → Bool
is_active_for worker_id (_, row) = is_held_by worker_id row && is_lease_state row.state

-- `SELECT COUNT(*)`
unfoldable pub active_count : (worker_id : String) → List (String × TerminalRow) → ℕ
unfolding count_if
active_count worker_id terminals = count_if (is_active_for worker_id) terminals

-- `UPDATE terminal_sessions SET ...`, by what it does to a row.
unfoldable pub update_all :
    (TerminalRow → TerminalRow) → List (String × TerminalRow) → List (String × TerminalRow)
update_all change [] = []
update_all change ((id, row) ∷ rows) = (id, change row) ∷ update_all change rows

abbrev pub has_expired : (now : ℕ) → TerminalRow → Bool
has_expired now row = elim row.lease_expires_at [ none ↦ false | some time ↦ leb time now ]

-- Both statements of `reconcileExpiredTerminalLeases`, on the states that they are for.
abbrev pub expire : (at : String) → TerminalRow → RunState → TerminalRow
expire at row RunState.starting = record row {
  state = RunState.queued;
  worker_id = none;
  lease_expires_at = none;
  lease_token_hash = none;
  updated_at = at;
}
expire at row RunState.running = record row {
  state = RunState.failed;
  exit_code = none;
  lease_expires_at = none;
  lease_token_hash = none;
  updated_at = at;
}
expire at row RunState.cancelling = record row {
  state = RunState.failed;
  exit_code = none;
  lease_expires_at = none;
  lease_token_hash = none;
  updated_at = at;
}
expire at row _ = row

abbrev pub expire_if_due : (now : ℕ) → (at : String) → TerminalRow → TerminalRow
expire_if_due now at row = if has_expired now row then expire at row row.state else row

unfoldable pub reconcile_expired_terminal_leases : (now : ℕ) → (at : String) → Store → Store
unfolding update_all
reconcile_expired_terminal_leases now at s = record s {
  terminals = update_all (expire_if_due now at) s.terminals;
}

-- `CASE WHEN state = 'starting' THEN 'queued' ELSE 'cancelled' END`
abbrev pub state_when_revoked : RunState → RunState
state_when_revoked RunState.starting = RunState.queued
state_when_revoked _ = RunState.cancelled

abbrev pub revoked : (at : String) → TerminalRow → TerminalRow
revoked at row = record row {
  state = state_when_revoked row.state;
  worker_id = none;
  lease_expires_at = none;
  lease_token_hash = none;
  updated_at = at;
}

unfoldable pub revoke_worker_leases : (at worker_id : String) → Store → Store
unfolding update_all
revoke_worker_leases at worker_id s = record s {
  terminals =
      update_all
        (λ row.
          if is_held_by worker_id row && is_lease_state row.state then revoked at row else row)
        s.terminals;
}

abbrev pub is_of_project : (project_id : String) → TerminalRow → Bool
is_of_project project_id row = row.project_id === project_id && is_lease_state row.state

unfoldable pub heartbeat_worker :
    (now : ℕ) → (at worker_id : String) → (lease_seconds : ℕ) → Store → Store
unfolding update_all lookup insert
heartbeat_worker now at worker_id lease_seconds s = record s {
  workers = elim (lookup worker_id s.workers) [
    | none ↦ s.workers
    | some worker ↦
        insert worker_id (record worker { last_heartbeat_at = some now; updated_at = at }) s.workers
  ];
  terminals =
      update_all
        (λ row.
          if is_held_by worker_id row && is_lease_state row.state
          then record row { lease_expires_at = some (now + lease_seconds * 1000); updated_at = at }
          else row)
        s.terminals;
}

module _ (host : Host) where
  unfoldable pub revoke_project_worker_leases : (at project_id : String) → Action (Unit {0})
  unfolding update_all filter append_event for_each
  revoke_project_worker_leases at project_id = transaction do
    affected ← gets (λ s. filter (λ entry. is_of_project project_id entry.1) s.terminals)
    modify (λ s. record s {
      terminals =
          update_all (λ row. if is_of_project project_id row then revoked at row else row)
            s.terminals;
    })
    for_each
        (λ entry.
          append_event host at (on_project project_id) (lease_fenced entry.0 entry.1.worker_id))
        affected

  -- `on_project` with the terminal's run.
  abbrev pub on_terminal : TerminalRow → Scope
  on_terminal row = record {
    project_id = some row.project_id;
    mission_id = none;
    run_id = row.run_id;
  }

  unfoldable pub set_terminal_state :
      (at id : String) → RunState → (exit_code : Option ℕ) → Action (Unit {0})
  unfolding lookup insert append_event
  set_terminal_state at id state exit_code = transaction do
    terminal ← find_or_throw (λ s. lookup id s.terminals) (not_found id)
    modify (λ s. record s {
      terminals =
          insert id
            (record terminal {
              state = state;
              exit_code = exit_code;
              lease_expires_at = if is_over state then none else terminal.lease_expires_at;
              lease_token_hash = if is_over state then none else terminal.lease_token_hash;
              updated_at = at;
            })
            s.terminals;
    })
    append_event host at (on_terminal terminal) (terminal_output id state exit_code)
