-- ===== src/ControlPlane/Leases/Grants.antt =====
-- services/control-plane/src/store.ts: how a call of leaseTerminal that gives a lease went.
use avity_os.Base.{
  ℕ, String, true, false, ◌&&◌, ◌≡◌, refl, sym, subst, ◌∙◌, ap, List, none, some, ltb, lookup,
  insert, find, string_eq, Bool-cases, Option-cases, inl, inr,
}
use avity_os.Contracts.{project_status_eq}
use avity_os.ControlPlane.Store.{TerminalRow, WorkerRow, Store, Host}
use avity_os.ControlPlane.Leases.{active_count, reconcile_expired_terminal_leases}
use avity_os.ControlPlane.Leases.Offers.{is_offered, leased, lease_offered, lease_terminal}

pub same_value : {A : Type 0} {a b : A} → some a ≡ some b → a ≡ b
same_value h = cc

no_value : {A : Type 0} {a : A} → none ≡ some a → ⊥
no_value h = cc

module _ (host : Host) (now : ℕ) (at worker_id token : String) (lease_seconds : ℕ) where
  -- A lease that was given: the entry, and the store with its lease.
  pub record Given (s : Store) (capabilities : List String) (id used : String) (t : Store)
      : Type 0 where
    pub entry : String × TerminalRow
    pub found : find (is_offered s capabilities) s.terminals ≡ some entry
    pub same_id : entry.0 ≡ id
    pub same_token : token ≡ used
    pub stored : t ≡ record s {
      terminals =
          insert entry.0 (leased host now at worker_id token lease_seconds entry.1) s.terminals;
    }

  lease_offered-Given :
      (capabilities : List String) (s : Store) (id used : String)
      → (lease_offered host now at worker_id token lease_seconds capabilities s).0 ≡ some (id, used)
      → Given s capabilities id used
          (lease_offered host now at worker_id token lease_seconds capabilities s).1
  unfolding lease_offered
  lease_offered-Given capabilities s id used given =
      elim (Option-cases (find (is_offered s capabilities) s.terminals)) [
        | inl nothing ↦ absurd (no_value (sym (ap (λ x. x.0) (kept nothing)) ∙ given))
        | inr (entry, found) ↦
            let same = same_value (sym (ap (λ x. x.0) (taken entry found)) ∙ given) in
            record {
              entry = entry;
              found = found;
              same_id = ap (λ x. x.0) same;
              same_token = ap (λ x. x.1) same;
              stored = ap (λ x. x.1) (taken entry found);
            }
      ]
    where
      kept :
          find (is_offered s capabilities) s.terminals ≡ none
          → lease_offered host now at worker_id token lease_seconds capabilities s ≡ (none, s)
      kept nothing = rw (nothing, lease_offered) refl

      taken :
          (entry : String × TerminalRow)
          → find (is_offered s capabilities) s.terminals ≡ some entry
          → lease_offered host now at worker_id token lease_seconds capabilities s ≡ (
            some (entry.0, token),
            record s {
              terminals =
                  insert entry.0
                    (leased host now at worker_id token lease_seconds entry.1)
                    s.terminals;
            },
          )
      taken entry found = rw (found, lease_offered) refl

  -- A terminal that was given, and the worker that asked.
  pub record Granted (s : Store) (id used : String) : Type 0 where
    pub worker : WorkerRow
    pub known : lookup worker_id s.workers ≡ some worker
    pub given :
        Given
          (reconcile_expired_terminal_leases now at s)
          worker.capabilities
          id
          used
          (lease_terminal host now at worker_id token lease_seconds s).1

  pub lease_terminal-Granted :
      (s : Store) (id used : String)
      → (lease_terminal host now at worker_id token lease_seconds s).0 ≡ some (id, used)
      → Granted s id used
  unfolding lease_terminal reconcile_expired_terminal_leases
  lease_terminal-Granted s id used granted = elim (Option-cases (lookup worker_id s.workers)) [
    | inl missing ↦ absurd (no_value (sym (ap (λ x. x.0) (unknown missing)) ∙ granted))
    | inr (worker, known) ↦
        elim (Bool-cases (
          worker.is_online
          && ltb (active_count worker_id (reconcile_expired_terminal_leases now at s).terminals)
              worker.max_concurrent_runs)) [
                | inl room ↦ record {
                  worker = worker;
                  known = known;
                  given =
                      subst
                        (λ x.
                          Given (reconcile_expired_terminal_leases now at s) worker.capabilities id
                            used x.1)
                        (sym (asked worker known room))
                        (lease_offered-Given worker.capabilities
                          (reconcile_expired_terminal_leases now at s) id used
                          (ap (λ x. x.0) (sym (asked worker known room)) ∙ granted));
                }
                | inr full ↦
                    absurd (no_value (sym (ap (λ x. x.0) (declined worker known full)) ∙ granted))
              ]
  ]
    where
      t : Store
      t = reconcile_expired_terminal_leases now at s

      unknown :
          lookup worker_id s.workers ≡ none
          → lease_terminal host now at worker_id token lease_seconds s ≡ (none, t)
      unknown missing = rw (missing, lease_terminal) refl

      asked :
          (worker : WorkerRow)
          → lookup worker_id s.workers ≡ some worker
          → (worker.is_online
              && ltb (active_count worker_id t.terminals) worker.max_concurrent_runs)
            ≡ true
          → lease_terminal host now at worker_id token lease_seconds s
            ≡ lease_offered host now at worker_id token lease_seconds worker.capabilities t
      asked worker known room = rw (known, room, lease_terminal) refl

      declined :
          (worker : WorkerRow)
          → lookup worker_id s.workers ≡ some worker
          → (worker.is_online
              && ltb (active_count worker_id t.terminals) worker.max_concurrent_runs)
            ≡ false
          → lease_terminal host now at worker_id token lease_seconds s ≡ (none, t)
      declined worker known full = rw (known, full, lease_terminal) refl
