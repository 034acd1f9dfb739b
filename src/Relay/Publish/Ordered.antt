-- ===== src/Relay/Publish/Ordered.antt =====
-- services/remote-relay/src/store.ts: the cursors of an inbox ascend, and none is given twice.
use avity_os.Base.{
  ℕ, ◌+◌, ◌≤◌, ◌<◌, String, Bool, List, [], ◌∷◌, ◌++◌, ltb, length, filter, lookup, insert, or_else,
  string_eq, Bool-cases, inl, inr, arith, ◌===◌, All, subst, lookup-insert_self, lookup-insert_ne,
  beq_true, beq_false,
}
use avity_os.Relay.Limits.{Limits, max_safe_integer}
use avity_os.Relay.State.{
  RemoteEncryptedEnvelope, StoredRelayItem, Relay, Platform, Inboxes, inbox_key, unexpired,
  cleanup_inboxes, cleanup,
}
use avity_os.Relay.Publish.{items_at, cursor_at, stored, admit, publish}
use avity_os.Relay.Publish.Room.{publish_cleaned-cases}

-- Cursors above `low`, each above the one before it, and none above `high`.
abbrev pub Ascending : (low high : ℕ) → List StoredRelayItem → Type 0
Ascending low high [] = Unit
Ascending low high (item ∷ items) =
    (low < item.cursor) × (item.cursor ≤ high) × Ascending item.cursor high items

pub Ascending-lower :
    (low lower high : ℕ) (items : List StoredRelayItem)
    → lower ≤ low
    → Ascending low high items
    → Ascending lower high items
Ascending-lower low lower high [] h a = tt
Ascending-lower low lower high (item ∷ items) h a = (omega (arith, a.0), a.1, a.2)

Ascending-raise :
    (low high higher : ℕ) (items : List StoredRelayItem)
    → high ≤ higher
    → Ascending low high items
    → Ascending low higher items
Ascending-raise low high higher [] h a = tt
Ascending-raise low high higher (item ∷ items) h a =
    (a.0, omega (arith, a.1), Ascending-raise item.cursor high higher items h a.2)

pub Ascending-filter :
    (p : StoredRelayItem → Bool) (low high : ℕ) (items : List StoredRelayItem)
    → Ascending low high items
    → Ascending low high (filter p items)
unfolding filter
Ascending-filter p low high [] a = tt
Ascending-filter p low high (item ∷ items) a =
    let rest = Ascending-filter p item.cursor high items a.2 in
    elim (Bool-cases (p item)) [
      | inl kept ↦ rw kept (a.0, a.1, rest)
      | inr dropped ↦
          rw dropped
            (Ascending-lower item.cursor low high (filter p items) (omega (arith, a.0)) rest)
    ]

Ascending-append :
    (low high : ℕ) (items : List StoredRelayItem) (item : StoredRelayItem)
    → low < item.cursor
    → high < item.cursor
    → Ascending low high items
    → Ascending low item.cursor (items ++ item ∷ [])
Ascending-append low high [] item h above a = (h, omega arith, tt)
Ascending-append low high (x ∷ xs) item h above a =
    (a.0, omega (arith, a.1), Ascending-append x.cursor high xs item (omega (arith, a.1)) above a.2)

abbrev pub issued : List (String × ℕ) → String → ℕ
issued states key = or_else (lookup key states) 0

-- The cursors of each inbox ascend up to the last that was given out for it.
abbrev pub InboxAscending : List (String × ℕ) → String × List StoredRelayItem → Type 0
InboxAscending states (key, items) = Ascending 0 (issued states key) items

pub record IsOrdered (r : Relay) : Type 0 where
  pub each_inbox : All (InboxAscending r.cursor_states) r.inboxes
  pub safe_cursors : (key : String) → issued r.cursor_states key ≤ max_safe_integer

pub cleanup-IsOrdered : (now : ℕ) (r : Relay) → IsOrdered r → IsOrdered (cleanup now r)
unfolding cleanup cleanup_inboxes
cleanup-IsOrdered now r o = record {
  each_inbox = go r.inboxes o.each_inbox;
  safe_cursors = o.safe_cursors;
}
  where
    go :
        (m : Inboxes)
        → All (InboxAscending r.cursor_states) m
        → All (InboxAscending r.cursor_states) (cleanup_inboxes now m)
    go [] h = tt
    go ((key, items) ∷ m) h = elim (Bool-cases (ltb 0 (length (filter (unexpired now) items)))) [
      | inl kept ↦ rw kept (Ascending-filter (unexpired now) 0 _ items h.0, go m h.1)
      | inr dropped ↦ rw dropped (go m h.1)
    ]

-- A cursor that is given out raises its inbox's mark and leaves the others'.
issued-insert :
    (states : List (String × ℕ)) (key other : String)
    → issued states other ≤ issued (insert key (issued states key + 1) states) other
issued-insert states key other = elim (Bool-cases (key === other)) [
  | inl same ↦
      subst (λ k. issued states k ≤ issued (insert key (issued states key + 1) states) k)
        (beq_true same) (ground (arith, lookup-insert_self key (issued states key + 1) states))
  | inr differs ↦
      ground (arith, lookup-insert_ne key other (issued states key + 1) states (beq_false differs))
]

pub items_at-Ascending :
    (states : List (String × ℕ)) (key : String) (m : Inboxes)
    → All (InboxAscending states) m
    → Ascending 0 (issued states key) (or_else (lookup key m) [])
unfolding lookup
items_at-Ascending states key [] h = tt
items_at-Ascending states key ((j, items) ∷ m) h = elim (Bool-cases (j === key)) [
  | inl same ↦ rw same (subst (λ k. Ascending 0 (issued states k) items) (beq_true same) h.0)
  | inr other ↦ rw other (items_at-Ascending states key m h.1)
]

All-raised :
    (states higher : List (String × ℕ)) (m : Inboxes)
    → ((other : String) → issued states other ≤ issued higher other)
    → All (InboxAscending states) m
    → All (InboxAscending higher) m
All-raised states higher [] raised h = tt
All-raised states higher ((j, xs) ∷ m) raised h =
    (Ascending-raise 0 _ _ xs (raised j) h.0, All-raised states higher m raised h.1)

-- A new list under one key, and higher marks.
pub insert-Ascending :
    (states higher : List (String × ℕ)) (key : String) (items : List StoredRelayItem) (m : Inboxes)
    → ((other : String) → issued states other ≤ issued higher other)
    → Ascending 0 (issued higher key) items
    → All (InboxAscending states) m
    → All (InboxAscending higher) (insert key items m)
unfolding insert
insert-Ascending states higher key items [] raised new h = (new, tt)
insert-Ascending states higher key items ((j, xs) ∷ m) raised new h =
    elim (Bool-cases (j === key)) [
      | inl same ↦ rw same (new, All-raised states higher m raised h.1)
      | inr other ↦ rw other (
        Ascending-raise 0 _ _ xs (raised j) h.0,
        insert-Ascending states higher key items m raised new h.1,
      )
    ]

module _ (platform : Platform) (l : Limits) where
  admit-IsOrdered :
      (now : ℕ) (r : Relay) (key : String) (e : RemoteEncryptedEnvelope)
      → cursor_at key r + 1 ≤ max_safe_integer
      → IsOrdered r
      → IsOrdered (admit platform l now r key e)
  unfolding admit
  admit-IsOrdered now r key e room o =
      let given = lookup-insert_self key (cursor_at key r + 1) r.cursor_states in
      record {
        each_inbox =
            insert-Ascending r.cursor_states _ key _ r.inboxes (issued-insert r.cursor_states key)
              (rw given (
                Ascending-append 0 (cursor_at key r) (items_at key r)
                  (stored platform l now r key e) (omega arith) (omega arith)
                  (items_at-Ascending r.cursor_states key r.inboxes o.each_inbox)))
              o.each_inbox;
        safe_cursors = λ other. elim (Bool-cases (key === other)) [
          | inl same ↦
              subst (λ k. issued (admit platform l now r key e).cursor_states k ≤ max_safe_integer)
                (beq_true same) (rw given room)
          | inr differs ↦
              rw
                (lookup-insert_ne key other (cursor_at key r + 1) r.cursor_states
                  (beq_false differs))
                (o.safe_cursors other)
        ];
      }

  -- Publishing keeps the cursors of every inbox strictly ascending, none above the last that was
  -- given out for it, and all of them safe integers.
  pub publish-IsOrdered :
      (now : ℕ) (e : RemoteEncryptedEnvelope) (r : Relay)
      → IsOrdered r
      → IsOrdered (publish platform l now e r).1
  unfolding publish
  publish-IsOrdered now e r o =
      let cleaned = cleanup-IsOrdered now r o in
      publish_cleaned-cases platform l now e (cleanup now r) IsOrdered cleaned
        (λ room _. admit-IsOrdered now (cleanup now r) _ e room.cursor_room cleaned)

  -- The last cursor that was given out for an inbox never goes down.
  pub publish-issued :
      (now : ℕ) (e : RemoteEncryptedEnvelope) (r : Relay) (key : String)
      → cursor_at key r ≤ cursor_at key (publish platform l now e r).1
  unfolding publish
  publish-issued now e r key =
      publish_cleaned-cases platform l now e (cleanup now r)
        (λ r'. cursor_at key r ≤ cursor_at key r') (omega arith)
        (λ _ _. issued-insert r.cursor_states (inbox_key e.account_id e.recipient_device_id) key)
