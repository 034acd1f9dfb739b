-- ===== src/ControlPlane/Leases/Tokens.antt =====
-- services/control-plane/src/store.ts: which token a terminal accepts, after a lease and after a
-- revocation.
use avity_os.Base.{
  ℕ, String, true, false, ◌&&◌, ◌≡◌, ◌≢◌, refl, sym, ◌∙◌, ap, List, [], ◌∷◌, none, some, ◌===◌,
  if◌then◌else◌, lookup, filter, string_eq, arith, Bool-cases, Option-cases, inl, inr, beq_self,
  ne→same,
}
use avity_os.ControlPlane.Store.{TerminalRow, Store, Host, Scope, Event, lease_fenced}
use avity_os.ControlPlane.Store.Actions.{
  Action, ok, pure, gets, modify, transaction, for_each, ◌>>=◌, ◌>>◌,
}
use avity_os.ControlPlane.Journal.{append_event, on_project}
use avity_os.ControlPlane.Leases.{
  is_lease_state, is_held_by, update_all, revoked, is_of_project, revoke_worker_leases,
  revoke_project_worker_leases,
}
use avity_os.ControlPlane.Leases.Offers.{is_valid_lease, validate_terminal_lease}

lookup-update_all :
    (change : TerminalRow → TerminalRow) (id : String) (rows : List (String × TerminalRow))
    → lookup id (update_all change rows)
      ≡ elim (lookup id rows) [ none ↦ none | some row ↦ some (change row) ]
unfolding lookup update_all
lookup-update_all change id [] = refl
lookup-update_all change id ((j, row) ∷ rows) = elim (Bool-cases (j === id)) [
  | inl same ↦ rw same refl
  | inr other ↦ rw other (lookup-update_all change id rows)
]

module _ (host : Host) where
  -- A worker whose leases were revoked has no lease that validates, whatever terminal and token.
  pub revoked_worker_holds_nothing :
      (at worker_id : String) (s : Store) (now : ℕ) (id token : String)
      → validate_terminal_lease host now id worker_id token (revoke_worker_leases at worker_id s)
        ≡ false
  unfolding validate_terminal_lease revoke_worker_leases
  revoked_worker_holds_nothing at worker_id s now id token =
      elim (Option-cases (lookup id s.terminals)) [
        | inl missing ↦
            rw
              (
                lookup-update_all
                    (λ row.
                      if is_held_by worker_id row && is_lease_state row.state
                      then revoked at row
                      else row)
                    id s.terminals,
                missing,
                validate_terminal_lease,
              )
              refl
        | inr (row, found) ↦
            rw
              (
                lookup-update_all
                    (λ row.
                      if is_held_by worker_id row && is_lease_state row.state
                      then revoked at row
                      else row)
                    id s.terminals,
                found,
                validate_terminal_lease,
              )
              (refused row)
      ]
    where
      refused :
          (row : TerminalRow)
          → is_valid_lease host now worker_id token
              (if is_held_by worker_id row && is_lease_state row.state then revoked at row else row)
            ≡ false
      refused row = elim (Bool-cases (is_held_by worker_id row && is_lease_state row.state)) [
        | inl held ↦ rw held refl
        | inr free ↦ rw free (ground arith)
      ]

  -- The events that are written leave the terminals as they are.
  for_each-terminals :
      {A : Type 0} (at : String) (scope : Scope) (event : A → Event) (items : List A) (s : Store)
      → (for_each (λ a. append_event host at scope (event a)) items s) ≡ (
        ok tt,
        record s {
          events = (for_each (λ a. append_event host at scope (event a)) items s).1.events;
        },
      )
  unfolding for_each append_event modify pure ◌>>◌ ◌>>=◌
  for_each-terminals at scope event [] s = refl
  for_each-terminals at scope event (a ∷ items) s = for_each-terminals at scope event items _

  transaction_kept :
      {A : Type 0} (m : Action A) (s : Store) (a : A)
      → (m s).0 ≡ ok a
      → (transaction m s).1 ≡ (m s).1
  unfolding transaction
  transaction_kept m s a h = rw (h, transaction) refl

  abbrev pub unless_of_project : (at project_id : String) → TerminalRow → TerminalRow
  unless_of_project at project_id row = if is_of_project project_id row then revoked at row else row

  revoke-terminals :
      (at project_id : String) (s : Store)
      → (revoke_project_worker_leases host at project_id s).1.terminals
        ≡ update_all (unless_of_project at project_id) s.terminals
  unfolding revoke_project_worker_leases ◌>>=◌ ◌>>◌ gets modify
  revoke-terminals at project_id s =
      ap (λ t. t.terminals) (transaction_kept _ s tt (ap (λ x. x.0) written))
      ∙ ap (λ x. x.1.terminals) written
    where
      affected : List (String × TerminalRow)
      affected = filter (λ entry. is_of_project project_id entry.1) s.terminals

      middle : Store
      middle = record s { terminals = update_all (unless_of_project at project_id) s.terminals }

      written :
          for_each
            (λ entry.
              append_event host at (on_project project_id) (lease_fenced entry.0 entry.1.worker_id))
            affected
            middle
          ≡ (
            ok tt,
            record middle {
              events =
                  (for_each
                    (λ entry.
                      append_event host at
                        (on_project project_id)
                        (lease_fenced entry.0 entry.1.worker_id))
                    affected
                    middle).1.events;
            },
          )
      written =
          for_each-terminals at (on_project project_id)
            (λ entry. lease_fenced entry.0 entry.1.worker_id) affected middle

  lookup-revoke :
      (at project_id : String) (s : Store) (id : String) (row : TerminalRow)
      → lookup id s.terminals ≡ some row
      → lookup id (revoke_project_worker_leases host at project_id s).1.terminals
        ≡ some (unless_of_project at project_id row)
  lookup-revoke at project_id s id row found =
      ap (lookup id) (revoke-terminals at project_id s)
      ∙ lookup-update_all (unless_of_project at project_id) id s.terminals
      ∙ ap (λ o. elim o [ none ↦ none | some r ↦ some (unless_of_project at project_id r) ]) found

  -- Once a project's leases have been revoked, no token validates for a terminal of that project,
  -- whichever worker presents it and whenever, so that a late result of a worker is refused.
  pub revoked_project_holds_nothing :
      (at project_id : String) (s : Store) (id : String) (row : TerminalRow)
      → lookup id s.terminals ≡ some row
      → row.project_id ≡ project_id
      → (now : ℕ) (worker_id token : String)
      → validate_terminal_lease host now id worker_id token
          (revoke_project_worker_leases host at project_id s).1
        ≡ false
  unfolding validate_terminal_lease
  revoked_project_holds_nothing at project_id s id row found own now worker_id token =
      rw (lookup-revoke at project_id s id row found, validate_terminal_lease)
        (elim (Bool-cases (is_lease_state row.state)) [
          | inl running ↦ rw (beq_same own, running) refl
          | inr idle ↦ rw (beq_same own, idle) (ground arith)
        ])
    where
      beq_same : {a b : String} → a ≡ b → (a === b) ≡ true
      beq_same {a} e = ap (λ x. a === x) (sym e) ∙ beq_self a

  -- Revoking the leases of a project changes no terminal of another project, one that the same
  -- worker holds included.
  pub other_projects_keep_leases :
      (at project_id : String) (s : Store) (id : String) (row : TerminalRow)
      → lookup id s.terminals ≡ some row
      → row.project_id ≢ project_id
      → lookup id (revoke_project_worker_leases host at project_id s).1.terminals ≡ some row
  other_projects_keep_leases at project_id s id row found apart =
      rw (lookup-revoke at project_id s id row found, ne→same apart) refl
