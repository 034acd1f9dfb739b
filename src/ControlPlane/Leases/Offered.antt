-- ===== src/ControlPlane/Leases/Offered.antt =====
-- services/control-plane/src/store.ts: what is leased, and to whom.
use avity_os.Base.{
  ℕ, ◌+◌, ◌*◌, ◌<◌, String, Bool, true, false, not, ◌≡◌, refl, sym, subst, ◌∙◌, List, [], ◌∷◌, In,
  there, Option, none, some, ◌===◌, leb, lookup, insert, find, string_eq, arith, Bool-cases, inl,
  inr, beq_self, lookup-insert_self, &&_split,
}
use avity_os.Contracts.{RunState, ProjectStatus, project_status_eq}
use avity_os.ControlPlane.Store.{ProjectRow, TerminalRow, WorkerRow, Store, Host}
use avity_os.ControlPlane.Fence.{is_project_paused}
use avity_os.ControlPlane.Leases.{is_queued, reconcile_expired_terminal_leases}
use avity_os.ControlPlane.Leases.Offers.{
  is_offered, has_capabilities, leased, lease_terminal, is_valid_lease, validate_terminal_lease,
}
use avity_os.ControlPlane.Leases.Grants.{Given, lease_terminal-Granted, same_value}

-- A terminal that a worker may be given.
pub record Leasable (s : Store) (worker : WorkerRow) (id : String) : Type 0 where
  pub row : TerminalRow
  pub listed : In (id, row) s.terminals
  pub waiting : row.state ≡ RunState.queued
  pub unpaused : is_project_paused row.project_id s ≡ false
  pub able : has_capabilities worker.capabilities row.required_capabilities ≡ true

find-In :
    {A : Type 0} (test : A → Bool) (xs : List A) {a : A}
    → find test xs ≡ some a
    → In a xs × (test a ≡ true)
unfolding find
find-In test [] h = cc
find-In test (x ∷ xs) {a} h = elim (Bool-cases (test x)) [
  | inl passes ↦ first (same_value (sym (rw (passes, find) refl) ∙ h)) passes
  | inr fails ↦
      let (listed, passes) = find-In test xs (sym (rw (fails, find) refl) ∙ h) in
      (there listed, passes)
]
  where
    first : x ≡ a → test x ≡ true → In a (x ∷ xs) × (test a ≡ true)
    first e passes = subst (λ b. In b (x ∷ xs) × (test b ≡ true)) e (In.here, passes)

queued_state : (state : RunState) → is_queued state ≡ true → state ≡ RunState.queued
queued_state RunState.queued h = refl
queued_state _ h = ground arith

unpaused_project :
    (o : Option ProjectRow)
    → (elim o [ none ↦ false | some project ↦ not (project.status === ProjectStatus.paused) ])
      ≡ true
    → (elim o [ none ↦ false | some project ↦ project.status === ProjectStatus.paused ]) ≡ false
unpaused_project none h = refl
unpaused_project (some project) h = ground arith

offered-Leasable :
    (t : Store) (worker : WorkerRow) (entry : String × TerminalRow)
    → In entry t.terminals
    → is_offered t worker.capabilities entry ≡ true
    → Leasable t worker entry.0
unfolding is_offered is_project_paused
offered-Leasable t worker entry listed passes =
    let (front, third) =
      &&_split _ (has_capabilities worker.capabilities entry.1.required_capabilities) passes in
    let (first, second) = &&_split (is_queued entry.1.state) _ front in
    record {
      row = entry.1;
      listed = listed;
      waiting = queued_state entry.1.state first;
      unpaused = unpaused_project (lookup entry.1.project_id t.projects) second;
      able = third;
    }

module _ (host : Host) (now : ℕ) (at worker_id token : String) (lease_seconds : ℕ) where
  validates_of_Given :
      (t u : Store) (capabilities : List String) (id used : String)
      → Given host now at worker_id token lease_seconds t capabilities id used u
      → (later : ℕ) → later < now + lease_seconds * 1000
      → (host.sha256 token === "") ≡ false
      → validate_terminal_lease host later id worker_id used u ≡ true
  unfolding validate_terminal_lease
  validates_of_Given t u capabilities id used given later early nonempty =
      rw (sym given.same_id, sym given.same_token, given.stored)
        (held
          (insert given.entry.0 (leased host now at worker_id token lease_seconds given.entry.1)
            t.terminals)
          (lookup-insert_self given.entry.0
            (leased host now at worker_id token lease_seconds given.entry.1) t.terminals))
    where
      in_time : leb (now + lease_seconds * 1000) later ≡ false
      in_time = ground arith

      valid :
          (worker_id === worker_id) ≡ true
          → (host.sha256 token === host.sha256 token) ≡ true
          → (host.sha256 token === "") ≡ false
          → leb (now + lease_seconds * 1000) later ≡ false
          → is_valid_lease host later worker_id token
              (leased host now at worker_id token lease_seconds given.entry.1)
            ≡ true
      valid a b c d = rw (a, b, c, d) refl

      held :
          (rows : List (String × TerminalRow))
          → lookup given.entry.0 rows
            ≡ some (leased host now at worker_id token lease_seconds given.entry.1)
          → validate_terminal_lease host later given.entry.0 worker_id token
              (record t { terminals = rows })
            ≡ true
      held rows found =
          rw (found, validate_terminal_lease)
            (valid (beq_self worker_id) (beq_self (host.sha256 token)) nonempty in_time)

  -- The token that a lease gives validates for its terminal and its worker until the lease ends,
  -- `lease_seconds` later, if no digest is the empty text.
  pub leased_token_validates :
      (s : Store) (id used : String)
      → (lease_terminal host now at worker_id token lease_seconds s).0 ≡ some (id, used)
      → (later : ℕ) → later < now + lease_seconds * 1000
      → (host.sha256 token === "") ≡ false
      → validate_terminal_lease host later id worker_id used
          (lease_terminal host now at worker_id token lease_seconds s).1
        ≡ true
  leased_token_validates s id used granted later early nonempty =
      let grant =
        lease_terminal-Granted host now at worker_id token lease_seconds s id used granted in
      validates_of_Given (reconcile_expired_terminal_leases now at s)
        (lease_terminal host now at worker_id token lease_seconds s).1 grant.worker.capabilities id
        used grant.given later early nonempty

  -- What a lease gives was a terminal that waited, of a project that was not paused, and that
  -- required no capability that the worker lacks; the worker is a registered one. Terminals whose
  -- lease had expired before they ran count as waiting.
  pub leased_was_waiting :
      (s : Store) (id used : String)
      → (lease_terminal host now at worker_id token lease_seconds s).0 ≡ some (id, used)
      → (worker : WorkerRow) × (lookup worker_id s.workers ≡ some worker)
        × Leasable (reconcile_expired_terminal_leases now at s) worker id
  leased_was_waiting s id used granted =
      let grant =
        lease_terminal-Granted host now at worker_id token lease_seconds s id used granted in
      let t = reconcile_expired_terminal_leases now at s in
      let (listed, passes) =
        find-In (is_offered t grant.worker.capabilities) t.terminals grant.given.found in
      (
        grant.worker,
        grant.known,
        subst (Leasable t grant.worker) grant.given.same_id
            (offered-Leasable t grant.worker grant.given.entry listed passes),
      )
