-- ===== src/ControlPlane/Journal.antt =====
-- services/control-plane/src/store.ts: the events, the audit entries with their hash chain, and the
-- idempotency keys. The listeners that an event is emitted to are not part of the durable state.
pub mod Chain
use avity_os.Base.{
  ℕ, ◌+◌, String, Bool, true, false, not, ◌||◌, List, [], ◌∷◌, ◌++◌, Option, none, some, ◌===◌,
  if◌then◌else◌, length, lookup, or_else, is_some, string_eq,
}
use Prim.Native.String.{◌++◌ as str_append}
use avity_os.ControlPlane.Store.{Event, Scope, EventRow, AuditRow, Store, constraint, Host}
use avity_os.ControlPlane.Store.Actions.{Action, modify, gets, throw, unless, ◌>>=◌, ◌>>◌}

abbrev pub on_project : String → Scope
on_project project_id = record { project_id = some project_id; mission_id = none; run_id = none }

abbrev pub on_mission : (project_id mission_id : String) → Scope
on_mission project_id mission_id = record {
  project_id = some project_id;
  mission_id = some mission_id;
  run_id = none;
}

abbrev pub on_run : (project_id mission_id run_id : String) → Scope
on_run project_id mission_id run_id = record {
  project_id = some project_id;
  mission_id = some mission_id;
  run_id = some run_id;
}

module _ (host : Host) where
  abbrev pub event_row : (at : String) → Scope → Event → List EventRow → EventRow
  event_row at scope event rows = record {
    seq = length rows + 1;
    id = host.new_id "ev" (length rows);
    scope = scope;
    created_at = at;
    event = host.redact_event event;
  }

  -- The time is the argument `at`.
  unfoldable pub append_event : (at : String) → Scope → Event → Action (Unit {0})
  append_event at scope event =
      modify (λ s. record s { events = s.events ++ event_row at scope event s.events ∷ [] })

  -- `${prev ?? ""}|${id}|${createdAt}|${actor}|${action}|${detail}`
  abbrev pub digest_of :
      (previous : Option String) → (id created_at actor action detail : String) → String
  digest_of previous id created_at actor action detail = host.sha256 (
      str_append (or_else previous "") (
        str_append "|" (
          str_append id (
            str_append "|" (
              str_append created_at (
                str_append "|" (
                  str_append actor
                    (str_append "|" (str_append action (str_append "|" detail))))))))))

  -- `ORDER BY rowid DESC LIMIT 1`
  unfoldable pub last_hash : List AuditRow → Option String
  last_hash [] = none
  last_hash (row ∷ rows) = elim (last_hash rows) [
    | none ↦ some row.entry_hash
    | some hash ↦ some hash
  ]

  abbrev pub next_audit_entry :
      (at : String)
      → (project_id : Option String) → (actor action detail : String) → List AuditRow
      → AuditRow
  next_audit_entry at project_id actor action detail rows = record {
    id = host.new_id "aud" (length rows);
    created_at = at;
    project_id = project_id;
    actor = actor;
    action = action;
    detail = host.redact detail;
    entry_hash =
        digest_of (last_hash rows) (host.new_id "aud" (length rows)) at actor action
          (host.redact detail);
    previous_hash = last_hash rows;
  }

  unfoldable pub append_audit :
      (at : String)
      → (project_id : Option String) → (actor action detail : String) → Action (Unit {0})
  unfolding last_hash
  append_audit at project_id actor action detail = modify (λ s. record s {
    audit_entries =
        s.audit_entries ++ next_audit_entry at project_id actor action detail s.audit_entries ∷ [];
  })

  abbrev pub same_hash : Option String → Option String → Bool
  same_hash none none = true
  same_hash (some a) (some b) = a === b
  same_hash _ _ = false

  unfoldable pub verify_from : (previous : Option String) → List AuditRow → Bool
  verify_from previous [] = true
  verify_from previous (r ∷ rows) =
      let rest = verify_from (some r.entry_hash) rows in
      if not (digest_of previous r.id r.created_at r.actor r.action r.detail === r.entry_hash)
        || not (same_hash r.previous_hash previous)
      then false
      else rest

  unfoldable pub verify_audit_chain : Store → Bool
  unfolding verify_from
  verify_audit_chain s = verify_from none s.audit_entries

-- The resource's type and identifier.
unfoldable pub find_idempotent : (key : String) → Store → Option (String × String)
unfolding lookup
find_idempotent key s = lookup key s.idempotency_keys

-- The key is the primary key of its table.
unfoldable pub record_idempotent : (key resource_type resource_id : String) → Action (Unit {0})
unfolding lookup
record_idempotent key resource_type resource_id = do
  taken ← gets (λ s. is_some (lookup key s.idempotency_keys))
  unless (not taken) (throw constraint)
  modify (λ s. record s {
    idempotency_keys = s.idempotency_keys ++ (key, (resource_type, resource_id)) ∷ [];
  })
