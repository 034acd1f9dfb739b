-- ===== src/Examples/Terminals.antt =====
-- A worker with room for one terminal, and two projects, one of them paused.
use avity_os.Base.{
  ◌≤◌, String, true, false, ◌≡◌, refl, [], ◌∷◌, none, some, lookup, includes, find, all, count_if,
  string_eq, beq_false, arith,
}
use avity_os.Contracts.{RunState, ProjectStatus}
use avity_os.ControlPlane.Store.{ProjectRow, TerminalRow, WorkerRow, Store, Host}
use avity_os.ControlPlane.Leases.{
  active_count, update_all, reconcile_expired_terminal_leases, revoke_worker_leases,
  revoke_project_worker_leases,
}
use avity_os.ControlPlane.Leases.Offers.{
  is_offered, has_capabilities, lease_offered, lease_terminal, validate_terminal_lease,
}
use avity_os.ControlPlane.Leases.Capacity.{lease_within_capacity}
use avity_os.ControlPlane.Leases.Tokens.{
  revoked_worker_holds_nothing, revoked_project_holds_nothing, other_projects_keep_leases,
}
use avity_os.ControlPlane.Leases.Offered.{Leasable, leased_token_validates, leased_was_waiting}

abbrev machine : Host
machine = record {
  new_id = λ prefix n. prefix;
  sha256 = λ text. text;
  redact = λ text. text;
  redact_event = λ event. event;
}

abbrev project_in : ProjectStatus → ProjectRow
project_in status = record {
  status = status;
  pause_generation = 0;
  status_before_pause = none;
  paused_reason = none;
  paused_at = none;
  paused_by = none;
  updated_at = "0";
}

abbrev waiting : (project_id : String) → TerminalRow
waiting project_id = record {
  project_id = project_id;
  run_id = none;
  worker_id = none;
  command = "ls" ∷ [];
  cwd = "/";
  state = RunState.queued;
  exit_code = none;
  required_capabilities = "shell" ∷ [];
  lease_expires_at = none;
  lease_token_hash = none;
  lease_attempts = 0;
  updated_at = "0";
}

abbrev running_on : (worker_id project_id : String) → TerminalRow
running_on worker_id project_id = record (waiting project_id) {
  worker_id = some worker_id;
  state = RunState.running;
  lease_expires_at = some 90;
  lease_token_hash = some "secret";
}

abbrev worker : WorkerRow
worker = record {
  is_online = true;
  capabilities = "shell" ∷ [];
  max_concurrent_runs = 1;
  last_heartbeat_at = some 5;
  updated_at = "0";
}

abbrev offers : Store
offers = record {
  projects = ("p", project_in ProjectStatus.active) ∷ ("q", project_in ProjectStatus.paused) ∷ [];
  project_pauses = [];
  missions = [];
  runs = [];
  terminals =
      ("a", waiting "q")
      ∷ ("b", waiting "p")
      ∷ ("c", running_on "v" "q")
      ∷ ("d", running_on "v" "p")
      ∷ [];
  workers = ("w", worker) ∷ [];
  events = [];
  audit_entries = [];
  idempotency_keys = [];
}

lease_within_capacity_example :
    active_count "w" (lease_terminal machine 10 "10" "w" "token" 30 offers).1.terminals ≤ 1
unfolding lookup active_count count_if
lease_within_capacity_example =
    lease_within_capacity machine 10 "10" "w" "token" 30 offers "w" worker refl (omega arith)

-- The terminal of the paused project is passed over.
lease_of_b : (lease_terminal machine 10 "10" "w" "token" 30 offers).0 ≡ some ("b", "token")
unfolding lookup active_count count_if find all includes update_all
    reconcile_expired_terminal_leases is_offered has_capabilities lease_offered lease_terminal
lease_of_b = refl

leased_token_validates_example :
    validate_terminal_lease machine 500 "b" "w" "token"
      (lease_terminal machine 10 "10" "w" "token" 30 offers).1
    ≡ true
leased_token_validates_example =
    leased_token_validates machine 10 "10" "w" "token" 30 offers "b" "token" lease_of_b 500
      (omega arith) refl

leased_was_waiting_example :
    (asking : WorkerRow) × (lookup "w" offers.workers ≡ some asking)
    × Leasable (reconcile_expired_terminal_leases 10 "10" offers) asking "b"
leased_was_waiting_example =
    leased_was_waiting machine 10 "10" "w" "token" 30 offers "b" "token" lease_of_b

revoked_worker_holds_nothing_example :
    validate_terminal_lease machine 50 "c" "v" "secret" (revoke_worker_leases "20" "v" offers)
    ≡ false
revoked_worker_holds_nothing_example =
    revoked_worker_holds_nothing machine "20" "v" offers 50 "c" "secret"

revoked_project_holds_nothing_example :
    validate_terminal_lease machine 50 "c" "v" "secret"
      (revoke_project_worker_leases machine "20" "q" offers).1
    ≡ false
unfolding lookup
revoked_project_holds_nothing_example =
    revoked_project_holds_nothing machine "20" "q" offers "c" (running_on "v" "q") refl refl 50 "v"
      "secret"

other_projects_keep_leases_example :
    lookup "d" (revoke_project_worker_leases machine "20" "q" offers).1.terminals
    ≡ some (running_on "v" "p")
unfolding lookup
other_projects_keep_leases_example =
    other_projects_keep_leases machine "20" "q" offers "d" (running_on "v" "p") refl
      (beq_false refl)
