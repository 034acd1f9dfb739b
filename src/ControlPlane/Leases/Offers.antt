-- ===== src/ControlPlane/Leases/Offers.antt =====
-- services/control-plane/src/store.ts: what makes a terminal and a worker match, the lease itself,
-- and the test of a lease's token.
use avity_os.Base.{
  ℕ, ◌+◌, ◌*◌, String, Bool, false, not, ◌&&◌, List, [], ◌∷◌, Option, none, some, ◌===◌,
  if◌then◌else◌, length, ltb, leb, lookup, insert, includes, is_some, find, all, any, string_eq,
}
use avity_os.Contracts.{RunState, ProjectStatus, project_status_eq}
use avity_os.Policy.{last_segment}
use avity_os.ControlPlane.Store.{TerminalRow, WorkerRow, Store, constraint, terminal_queued, Host}
use avity_os.ControlPlane.Store.Actions.{
  Action, pure, throw, gets, modify, transaction, unless, ◌>>=◌, ◌>>◌,
}
use avity_os.ControlPlane.Journal.{append_event}
use avity_os.ControlPlane.Fence.{assert_project_accepting_work}
use avity_os.ControlPlane.Leases.{
  is_lease_state, is_queued, is_held_by, active_count, reconcile_expired_terminal_leases,
}

-- `command[0]?.split("/").pop() ?? ""`
abbrev pub executable_of : (command : List String) → String
executable_of [] = ""
executable_of (path ∷ _) = last_segment "" path

unfoldable pub command_capabilities : (command : List String) → List String
unfolding last_segment includes
command_capabilities command =
    let executable = executable_of command in
    if executable === "git"
    then "shell" ∷ "git" ∷ []
    else if includes ("node" ∷ "npm" ∷ "npx" ∷ "pnpm" ∷ []) executable
    then "shell" ∷ "node" ∷ []
    else if executable === "swift"
    then "shell" ∷ "swift" ∷ []
    else "shell" ∷ []

-- The capabilities of a worker are a Set in the source.
unfoldable pub has_capabilities : (capabilities required : List String) → Bool
unfolding all includes
has_capabilities capabilities required =
    all (λ capability. includes capabilities capability) required

-- A queued terminal whose project is there and is not paused.
unfoldable pub is_offered : Store → (capabilities : List String) → String × TerminalRow → Bool
unfolding lookup has_capabilities
is_offered s capabilities (_, row) =
    is_queued row.state
    && (elim (lookup row.project_id s.projects) [
      | none ↦ false
      | some project ↦ not (project.status === ProjectStatus.paused)
    ])
    && has_capabilities capabilities row.required_capabilities

-- A worker that is heard of and has room, with the capabilities that are required. The heartbeat
-- is later than `now - window`.
abbrev pub is_available :
    (now window : ℕ) → (required : List String) → Store → String × WorkerRow → Bool
is_available now window required s (id, worker) =
    worker.is_online
    && (elim worker.last_heartbeat_at [ none ↦ false | some time ↦ ltb now (time + window) ])
    && ltb (active_count id s.terminals) worker.max_concurrent_runs
    && has_capabilities worker.capabilities required

unfoldable pub has_available_worker : (now window : ℕ) → (command : List String) → Store → Bool
unfolding any active_count has_capabilities command_capabilities
has_available_worker now window command s =
    any (is_available now window (command_capabilities command) s) s.workers

module _ (host : Host) where
  abbrev pub leased :
      (now : ℕ) → (at worker_id token : String) → (lease_seconds : ℕ) → TerminalRow → TerminalRow
  leased now at worker_id token lease_seconds row = record row {
    state = RunState.starting;
    worker_id = some worker_id;
    lease_expires_at = some (now + lease_seconds * 1000);
    lease_token_hash = some (host.sha256 token);
    lease_attempts = row.lease_attempts + 1;
    updated_at = at;
  }

  -- The terminal that is leased, with the lease's token.
  unfoldable pub lease_offered :
      (now : ℕ)
      → (at worker_id token : String) → (lease_seconds : ℕ) → (capabilities : List String) → Store
      → Option (String × String) × Store
  unfolding find insert is_offered
  lease_offered now at worker_id token lease_seconds capabilities s =
      elim (find (is_offered s capabilities) s.terminals) [
        | none ↦ (none, s)
        | some entry ↦ (
          some (entry.0, token),
          record s {
            terminals =
                insert entry.0 (leased now at worker_id token lease_seconds entry.1) s.terminals;
          },
        )
      ]

  unfoldable pub lease_terminal :
      (now : ℕ)
      → (at worker_id token : String) → (lease_seconds : ℕ) → Store
      → Option (String × String) × Store
  unfolding lookup reconcile_expired_terminal_leases active_count lease_offered
  lease_terminal now at worker_id token lease_seconds s =
      let t = reconcile_expired_terminal_leases now at s in
      elim (lookup worker_id t.workers) [
        | none ↦ (none, t)
        | some worker ↦
            if worker.is_online
              && ltb (active_count worker_id t.terminals) worker.max_concurrent_runs
            then lease_offered now at worker_id token lease_seconds worker.capabilities t
            else (none, t)
      ]

  -- A NULL and an empty text are both falsy.
  abbrev pub is_valid_lease : (now : ℕ) → (worker_id token : String) → TerminalRow → Bool
  is_valid_lease now worker_id token row =
      is_held_by worker_id row
      && (elim row.lease_token_hash [
        | none ↦ false
        | some hash ↦ not (hash === "") && hash === host.sha256 token
      ])
      && (elim row.lease_expires_at [ none ↦ false | some time ↦ not (leb time now) ])
      && is_lease_state row.state

  unfoldable pub validate_terminal_lease : (now : ℕ) → (id worker_id token : String) → Store → Bool
  unfolding lookup
  validate_terminal_lease now id worker_id token s = elim (lookup id s.terminals) [
    | none ↦ false
    | some row ↦ is_valid_lease now worker_id token row
  ]

  abbrev pub queued_terminal :
      (at project_id : String)
      → (run_id : Option String) → (command : List String) → (cwd : String)
      → (required_capabilities : List String) → TerminalRow
  queued_terminal at project_id run_id command cwd required_capabilities = record {
    project_id = project_id;
    run_id = run_id;
    worker_id = none;
    command = command;
    cwd = cwd;
    state = RunState.queued;
    exit_code = none;
    required_capabilities = required_capabilities;
    lease_expires_at = none;
    lease_token_hash = none;
    lease_attempts = 0;
    updated_at = at;
  }

  unfoldable pub create_terminal :
      (at project_id : String)
      → (command : List String) → (cwd : String) → (run_id : Option String)
      → (required_capabilities : Option (List String)) → (expected : Option ℕ) → Action String
  unfolding lookup insert append_event assert_project_accepting_work command_capabilities
  create_terminal at project_id command cwd run_id required_capabilities expected = transaction do
    assert_project_accepting_work project_id expected
    id ← gets (λ s. host.new_id "trm" (length s.terminals))
    taken ← gets (λ s. is_some (lookup id s.terminals))
    unless (not taken) (throw constraint)
    modify (λ s. record s {
      terminals =
          insert id
            (queued_terminal at project_id run_id command cwd (elim required_capabilities [
              | none ↦ command_capabilities command
              | some required ↦ required
            ]))
            s.terminals;
    })
    append_event host at
        (record { project_id = some project_id; mission_id = none; run_id = run_id })
        (terminal_queued id command)
    pure id
