-- ===== src/Relay/Publish/Bounded.antt =====
-- services/remote-relay/src/store.ts: the store never outgrows its limits.
use avity_os.Base.{
  ℕ, ◌≤◌, ◌<◌, ◌≡◌, String, false, List, [], ◌∷◌, ◌++◌, ltb, length, filter, lookup, insert,
  is_some, string_eq, Bool-cases, inl, inr, arith, ◌===◌, length-append, length-filter_le, All,
}
use avity_os.Relay.Limits.{Limits}
use avity_os.Relay.State.{
  RemoteEncryptedEnvelope, StoredRelayItem, Relay, Platform, Inboxes, unexpired, cleanup_inboxes,
  cleanup, bytes, total_items, total_bytes,
}
use avity_os.Relay.Publish.{items_at, stored, admit, publish}
use avity_os.Relay.Publish.Room.{HasRoom, publish_cleaned-cases}
use avity_os.Relay.Publish.Sums.{
  bytes-append, bytes-filter_le, total_items-insert, total_bytes-insert, length-insert,
  length-insert_le, cleanup-total_items_le, cleanup-total_bytes_le, cleanup_seen-length_le,
}

unfoldable pub IsFitting : Limits → String × List StoredRelayItem → Type 0
IsFitting l (key, items) =
    (length items ≤ l.max_items_per_inbox) × (bytes items ≤ l.max_bytes_per_inbox)

pub record IsBounded (l : Limits) (r : Relay) : Type 0 where
  pub each_inbox : All (IsFitting l) r.inboxes
  pub items_bound : total_items r.inboxes ≤ l.max_total_items
  pub bytes_bound : total_bytes r.inboxes ≤ l.max_total_bytes
  pub states_bound : length r.cursor_states ≤ l.max_inbox_states
  pub seen_bound : length r.seen_messages ≤ l.max_seen_messages

pub All-insert :
    (P : String × List StoredRelayItem → Type 0) (key : String) (items : List StoredRelayItem)
    (m : Inboxes)
    → P (key, items)
    → All P m
    → All P (insert key items m)
unfolding insert
All-insert P key items [] h hs = (h, tt)
All-insert P key items ((j, xs) ∷ m) h hs = elim (Bool-cases (j === key)) [
  | inl same ↦ rw same (h, hs.1)
  | inr other ↦ rw other (hs.0, All-insert P key items m h hs.1)
]

cleanup-All :
    (l : Limits) (now : ℕ) (m : Inboxes)
    → All (IsFitting l) m
    → All (IsFitting l) (cleanup_inboxes now m)
unfolding cleanup_inboxes IsFitting
cleanup-All l now [] h = tt
cleanup-All l now ((key, items) ∷ m) h =
    let shorter = length-filter_le (unexpired now) items in
    let smaller = bytes-filter_le (unexpired now) items in
    elim (Bool-cases (ltb 0 (length (filter (unexpired now) items)))) [
      | inl kept ↦ rw kept ((omega (arith, h.0.0), omega (arith, h.0.1)), cleanup-All l now m h.1)
      | inr dropped ↦ rw dropped (cleanup-All l now m h.1)
    ]

pub cleanup-IsBounded :
    (l : Limits) (now : ℕ) (r : Relay) → IsBounded l r → IsBounded l (cleanup now r)
unfolding cleanup
cleanup-IsBounded l now r b = record {
  each_inbox = cleanup-All l now r.inboxes b.each_inbox;
  items_bound = omega (arith, cleanup-total_items_le now r.inboxes, b.items_bound);
  bytes_bound = omega (arith, cleanup-total_bytes_le now r.inboxes, b.bytes_bound);
  states_bound = b.states_bound;
  seen_bound = omega (arith, cleanup_seen-length_le now r.seen_messages, b.seen_bound);
}

-- The Map of the cursors grows by a key that it lacks, for which there is room.
states_lem :
    (limit : ℕ) (key : String) (n : ℕ) (m : List (String × ℕ))
    → (is_some (lookup key m) ≡ false → length m < limit)
    → length m ≤ limit
    → length (insert key n m) ≤ limit
states_lem limit key n m fresh within = elim (Bool-cases (is_some (lookup key m))) [
  | inl known ↦ ground (arith, length-insert key n m, known)
  | inr new ↦ ground (arith, length-insert key n m, new, fresh new)
]

module _ (platform : Platform) (l : Limits) where
  admit-IsBounded :
      (now : ℕ) (r : Relay) (key : String) (e : RemoteEncryptedEnvelope)
      → HasRoom l r key (platform.byte_length (platform.serialize e))
      → IsBounded l r
      → IsBounded l (admit platform l now r key e)
  unfolding admit IsFitting bytes
  admit-IsBounded now r key e room b =
      let item = stored platform l now r key e in
      let longer = length-append (items_at key r) (item ∷ []) in
      let larger = bytes-append (items_at key r) (item ∷ []) in
      record {
        each_inbox =
            All-insert (IsFitting l) key _ r.inboxes
              (omega (arith, room.item_room), omega (arith, room.byte_room)) b.each_inbox;
        items_bound = omega (
          arith,
          room.queue_room,
          total_items-insert key (items_at key r ++ item ∷ []) r.inboxes,
        );
        bytes_bound = omega (
          arith,
          room.queue_bytes_room,
          total_bytes-insert key (items_at key r ++ item ∷ []) r.inboxes,
        );
        states_bound = states_lem _ key _ r.cursor_states room.state_room b.states_bound;
        seen_bound = omega (arith, room.seen_room, length-insert_le e.message_id _ r.seen_messages);
      }

  -- Publishing keeps the number and the bytes of the envelopes, of each inbox and of them all, the
  -- known inboxes and the remembered messages within the limits, whatever its outcome.
  pub publish-IsBounded :
      (now : ℕ) (e : RemoteEncryptedEnvelope) (r : Relay)
      → IsBounded l r
      → IsBounded l (publish platform l now e r).1
  unfolding publish
  publish-IsBounded now e r b =
      let cleaned = cleanup-IsBounded l now r b in
      publish_cleaned-cases platform l now e (cleanup now r) (IsBounded l) cleaned
        (λ room _. admit-IsBounded now (cleanup now r) _ e room cleaned)
