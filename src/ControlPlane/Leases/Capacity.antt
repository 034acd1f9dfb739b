-- ===== src/ControlPlane/Leases/Capacity.antt =====
-- services/control-plane/src/store.ts: the leases that a worker holds.
use avity_os.Base.{
  ℕ, ◌+◌, ◌≤◌, ◌<◌, String, Bool, true, false, ◌&&◌, ◌≡◌, refl, List, [], ◌∷◌, some, ◌===◌, ltb,
  lookup, insert, find, count_if, string_eq, arith, Bool-cases, Option-cases, inl, inr, ltb→lt,
  beq_true, beq_false, ne→same, &&_split, sym, subst, ◌∙◌, ◌≢◌, ap,
}
use avity_os.Contracts.{RunState}
use avity_os.ControlPlane.Store.{TerminalRow, WorkerRow, Store, Host}
use avity_os.ControlPlane.Leases.{
  is_active_for, active_count, update_all, expire, expire_if_due, has_expired,
  reconcile_expired_terminal_leases,
}
use avity_os.ControlPlane.Leases.Offers.{is_offered, lease_offered, lease_terminal}

-- How many rows of a table pass a test, after a write and after an update of all of them.
module _ {V : Type 0} (test : String × V → Bool) where
  count_if-insert :
      (id : String) (row : V) (rows : List (String × V))
      → count_if test (insert id row rows) ≤ count_if test rows + 1
  unfolding insert count_if
  count_if-insert id row [] = ground arith
  count_if-insert id row ((j, old) ∷ rows) = elim (Bool-cases (j === id)) [
    | inl same ↦ ground arith
    | inr other ↦ ground (arith, count_if-insert id row rows)
  ]

  count_if-insert_other :
      (id : String) (row : V) (rows : List (String × V))
      → test (id, row) ≡ false
      → count_if test (insert id row rows) ≤ count_if test rows
  unfolding insert count_if
  count_if-insert_other id row [] h = ground arith
  count_if-insert_other id row ((j, old) ∷ rows) h = elim (Bool-cases (j === id)) [
    | inl same ↦ ground arith
    | inr other ↦ ground (arith, count_if-insert_other id row rows h)
  ]

count_if-update_all :
    (test : String × TerminalRow → Bool) (change : TerminalRow → TerminalRow)
    → ((id : String) (row : TerminalRow) → test (id, row) ≡ false → test (id, change row) ≡ false)
    → (rows : List (String × TerminalRow))
    → count_if test (update_all change rows) ≤ count_if test rows
unfolding update_all count_if
count_if-update_all test change h [] = omega arith
count_if-update_all test change h ((id, row) ∷ rows) =
    ground (arith, h id row, count_if-update_all test change h rows)

-- An expiry takes terminals from a worker and gives it none.
expire-IsFree :
    (worker_id : String) (now : ℕ) (at : String) (id : String) (row : TerminalRow)
    → is_active_for worker_id (id, row) ≡ false
    → is_active_for worker_id (id, expire_if_due now at row) ≡ false
expire-IsFree worker_id now at id row h = elim (Bool-cases (has_expired now row)) [
  | inl due ↦ rw due (expired row.state refl)
  | inr current ↦ rw current h
]
  where
    expired :
        (state : RunState)
        → row.state ≡ state
        → is_active_for worker_id (id, expire at row state) ≡ false
    expired RunState.starting e = refl
    expired RunState.running e = ground arith
    expired RunState.cancelling e = ground arith
    expired RunState.queued e = h
    expired RunState.succeeded e = h
    expired RunState.failed e = h
    expired RunState.cancelled e = h
    expired RunState.timed_out e = h
    expired RunState.paused e = h

reconcile-active_count :
    (worker_id : String) (now : ℕ) (at : String) (s : Store)
    → active_count worker_id (reconcile_expired_terminal_leases now at s).terminals
      ≤ active_count worker_id s.terminals
unfolding active_count reconcile_expired_terminal_leases
reconcile-active_count worker_id now at s =
    count_if-update_all (is_active_for worker_id) (expire_if_due now at)
      (expire-IsFree worker_id now at) s.terminals

le_trans : {a b c : ℕ} → a ≤ b → b ≤ c → a ≤ c
le_trans h k = omega arith

room_for_one : {a b c : ℕ} → a ≤ b + 1 → b < c → a ≤ c
room_for_one h k = omega arith

same_value : {a b : WorkerRow} → some a ≡ some b → a ≡ b
same_value h = cc

module _ (host : Host) (now : ℕ) (at worker_id token : String) (lease_seconds : ℕ) where
  -- A lease to one worker leaves what another holds, and adds one at most to what that one holds.
  lease_offered-active_count :
      (capabilities : List String) (s : Store)
      → active_count worker_id
          (lease_offered host now at worker_id token lease_seconds capabilities s).1.terminals
        ≤ active_count worker_id s.terminals + 1
  unfolding active_count lease_offered
  lease_offered-active_count capabilities s =
      elim (Option-cases (find (is_offered s capabilities) s.terminals)) [
        | inl nothing ↦ rw (nothing, lease_offered) (omega arith)
        | inr (entry, found) ↦
            rw (found, lease_offered)
              (count_if-insert (is_active_for worker_id) entry.0 _ s.terminals)
      ]

  lease_offered-active_count_other :
      (other : String)
      → worker_id ≢ other
      → (capabilities : List String) (s : Store)
      → active_count other
          (lease_offered host now at worker_id token lease_seconds capabilities s).1.terminals
        ≤ active_count other s.terminals
  unfolding active_count lease_offered
  lease_offered-active_count_other other apart capabilities s =
      elim (Option-cases (find (is_offered s capabilities) s.terminals)) [
        | inl nothing ↦ rw (nothing, lease_offered) (omega arith)
        | inr (entry, found) ↦
            rw (found, lease_offered)
              (count_if-insert_other (is_active_for other) entry.0 _ s.terminals
                (rw (ne→same apart) refl))
      ]

  offered :
      (s : Store) (other : String) (worker : WorkerRow)
      → lookup other s.workers ≡ some worker
      → active_count other s.terminals ≤ worker.max_concurrent_runs
      → (asking : WorkerRow) → lookup worker_id s.workers ≡ some asking
      → (asking.is_online
          && ltb
              (active_count worker_id (reconcile_expired_terminal_leases now at s).terminals)
              asking.max_concurrent_runs)
        ≡ true
      → active_count other
          (lease_offered host now at worker_id token lease_seconds asking.capabilities
            (reconcile_expired_terminal_leases now at s)).1.terminals
        ≤ worker.max_concurrent_runs
  offered s other worker known within asking found room =
      let t = reconcile_expired_terminal_leases now at s in
      elim (Bool-cases (worker_id === other)) [
        | inr apart ↦
            le_trans
              (lease_offered-active_count_other other (beq_false apart) asking.capabilities t)
              (le_trans (reconcile-active_count other now at s) within)
        | inl same ↦
            let equal = beq_true same in
            let below = ltb→lt _ _ (&&_split asking.is_online _ room).1 in
            subst
              (λ i.
                active_count i
                  (lease_offered host now at worker_id token lease_seconds asking.capabilities
                    t).1.terminals
                ≤ worker.max_concurrent_runs)
              equal
              (subst
                (λ w.
                  active_count worker_id
                    (lease_offered host now at worker_id token lease_seconds asking.capabilities
                      t).1.terminals
                  ≤ w.max_concurrent_runs)
                (same_value (sym found ∙ ap (λ i. lookup i s.workers) equal ∙ known))
                (room_for_one (lease_offered-active_count asking.capabilities t) below))
      ]

  -- A lease leaves a worker with no more than its limit if it had no more before, whichever worker
  -- the lease is for: `leaseTerminal` counts the terminals that the worker holds, those whose lease
  -- has expired left out, and gives it another one only below `max_concurrent_runs`.
  pub lease_within_capacity :
      (s : Store) (other : String) (worker : WorkerRow)
      → lookup other s.workers ≡ some worker
      → active_count other s.terminals ≤ worker.max_concurrent_runs
      → active_count other (lease_terminal host now at worker_id token lease_seconds s).1.terminals
        ≤ worker.max_concurrent_runs
  unfolding lease_terminal reconcile_expired_terminal_leases
  lease_within_capacity s other worker known within =
      elim (Option-cases (lookup worker_id s.workers)) [
        | inl missing ↦
            rw (missing, lease_terminal) (le_trans (reconcile-active_count other now at s) within)
        | inr (asking, found) ↦
            elim (Bool-cases (
              asking.is_online
              && ltb (active_count worker_id (reconcile_expired_terminal_leases now at s).terminals)
                  asking.max_concurrent_runs)) [
                    | inr full ↦
                        rw (found, full, lease_terminal)
                          (le_trans (reconcile-active_count other now at s) within)
                    | inl room ↦
                        rw (found, room, lease_terminal)
                          (offered s other worker known within asking found room)
                  ]
      ]
