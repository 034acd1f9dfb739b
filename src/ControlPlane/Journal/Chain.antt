-- ===== src/ControlPlane/Journal/Chain.antt =====
-- services/control-plane/src/store.ts: the chain of hashes over the audit entries.
use avity_os.Base.{
  String, Bool, true, ◌&&◌, ◌≡◌, refl, List, [], ◌∷◌, ◌++◌, Option, none, some, ◌===◌, string_eq,
  beq_self, arith, Option-cases, inl, inr,
}
use avity_os.ControlPlane.Store.{AuditRow, Store, Host}
use avity_os.ControlPlane.Store.Actions.{modify}
use avity_os.ControlPlane.Journal.{
  digest_of, last_hash, next_audit_entry, append_audit, same_hash, verify_from, verify_audit_chain,
}

module _ (host : Host) where
  -- The hash that the next entry links to.
  last_from : Option String → List AuditRow → Option String
  last_from previous [] = previous
  last_from previous (row ∷ rows) = last_from (some row.entry_hash) rows

  last_from-some :
      (hash : String) (rows : List AuditRow)
      → last_from (some hash) rows
        ≡ elim (last_hash host rows) [ none ↦ some hash | some h ↦ some h ]
  unfolding last_from last_hash
  last_from-some hash [] = refl
  last_from-some hash (row ∷ rows) = elim (Option-cases (last_hash host rows)) [
    | inl nothing ↦ rw (last_from-some row.entry_hash rows, last_hash, nothing) refl
    | inr (h, found) ↦ rw (last_from-some row.entry_hash rows, last_hash, found) refl
  ]

  last_from_lem : (rows : List AuditRow) → last_from none rows ≡ last_hash host rows
  unfolding last_from last_hash
  last_from_lem [] = refl
  last_from_lem (row ∷ rows) = last_from-some row.entry_hash rows

  -- The entry that links to a hash.
  links : Option String → AuditRow → Bool
  links previous r =
      (digest_of host previous r.id r.created_at r.actor r.action r.detail === r.entry_hash)
      && same_hash host r.previous_hash previous

  verify_from-append :
      (previous : Option String) (rows : List AuditRow) (r : AuditRow)
      → verify_from host previous (rows ++ r ∷ [])
        ≡ (verify_from host previous rows && links (last_from previous rows) r)
  unfolding verify_from links last_from
  verify_from-append previous [] r = ground arith
  verify_from-append previous (row ∷ rows) r =
      ground (arith, verify_from-append (some row.entry_hash) rows r)

  same_hash_self : (o : Option String) → same_hash host o o ≡ true
  same_hash_self none = refl
  same_hash_self (some h) = beq_self h

  links-next :
      (at : String) (project_id : Option String) (actor action detail : String)
      (rows : List AuditRow)
      → links (last_hash host rows) (next_audit_entry host at project_id actor action detail rows)
        ≡ true
  unfolding links
  links-next at project_id actor action detail rows =
      let entry = next_audit_entry host at project_id actor action detail rows in
      ground (arith, beq_self entry.entry_hash, same_hash_self (last_hash host rows))

  and_true : (b : Bool) → (b && true) ≡ b
  and_true b = ground arith

  -- An entry that is appended leaves the chain exactly as valid as it was, so that a store whose
  -- entries were all appended verifies.
  pub verify-append_audit :
      (at : String) (project_id : Option String) (actor action detail : String) (s : Store)
      → verify_audit_chain host (append_audit host at project_id actor action detail s).1
        ≡ verify_audit_chain host s
  unfolding verify_audit_chain append_audit modify
  verify-append_audit at project_id actor action detail s =
      let entry = next_audit_entry host at project_id actor action detail s.audit_entries in
      rw
        (
          verify_from-append none s.audit_entries entry,
          last_from_lem s.audit_entries,
          links-next at project_id actor action detail s.audit_entries,
        )
        (and_true (verify_from host none s.audit_entries))
