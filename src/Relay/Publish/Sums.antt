-- ===== src/Relay/Publish/Sums.antt =====
-- services/remote-relay/src/store.ts: how the totals of the inboxes change.
use avity_os.Base.{
  ℕ, ◌+◌, ◌≤◌, ◌≡◌, String, Bool, List, [], ◌∷◌, ◌++◌, if◌then◌else◌, length, filter, lookup,
  insert, or_else, is_some, string_eq, arith, length-filter_le,
}
use avity_os.Relay.State.{
  StoredRelayItem, SeenMessage, Inboxes, unexpired, cleanup_inboxes, cleanup_seen, bytes,
  total_items, total_bytes,
}

pub bytes-append : (xs ys : List StoredRelayItem) → bytes (xs ++ ys) ≡ bytes xs + bytes ys
unfolding bytes
bytes-append [] ys = omega arith
bytes-append (x ∷ xs) ys = omega (arith, bytes-append xs ys)

pub bytes-filter_le :
    (p : StoredRelayItem → Bool) (xs : List StoredRelayItem) → bytes (filter p xs) ≤ bytes xs
unfolding bytes filter
bytes-filter_le p [] = omega arith
bytes-filter_le p (x ∷ xs) = ground (arith, bytes-filter_le p xs)

-- The entry that `insert` replaces gives its share back.
pub total_items-insert :
    (key : String) (items : List StoredRelayItem) (m : Inboxes)
    → total_items (insert key items m) + length (or_else (lookup key m) [])
      ≡ total_items m + length items
unfolding total_items insert lookup
total_items-insert key items [] = omega arith
total_items-insert key items ((j, xs) ∷ m) = ground (arith, total_items-insert key items m)

pub total_bytes-insert :
    (key : String) (items : List StoredRelayItem) (m : Inboxes)
    → total_bytes (insert key items m) + bytes (or_else (lookup key m) [])
      ≡ total_bytes m + bytes items
unfolding total_bytes insert lookup bytes
total_bytes-insert key items [] = omega arith
total_bytes-insert key items ((j, xs) ∷ m) = ground (arith, total_bytes-insert key items m)

pub length-insert :
    {V : Type 0} (key : String) (v : V) (m : List (String × V))
    → length (insert key v m) ≡ (if is_some (lookup key m) then length m else length m + 1)
unfolding insert lookup
length-insert key v [] = omega arith
length-insert key v ((j, w) ∷ m) = ground (arith, length-insert key v m)

pub length-insert_le :
    {V : Type 0} (key : String) (v : V) (m : List (String × V))
    → length (insert key v m) ≤ length m + 1
length-insert_le key v m = ground (arith, length-insert key v m)

pub cleanup-total_items_le :
    (now : ℕ) (m : Inboxes) → total_items (cleanup_inboxes now m) ≤ total_items m
unfolding cleanup_inboxes total_items
cleanup-total_items_le now [] = omega arith
cleanup-total_items_le now ((key, items) ∷ m) =
    ground (arith, cleanup-total_items_le now m, length-filter_le (unexpired now) items)

pub cleanup-total_bytes_le :
    (now : ℕ) (m : Inboxes) → total_bytes (cleanup_inboxes now m) ≤ total_bytes m
unfolding cleanup_inboxes total_bytes
cleanup-total_bytes_le now [] = omega arith
cleanup-total_bytes_le now ((key, items) ∷ m) =
    ground (arith, cleanup-total_bytes_le now m, bytes-filter_le (unexpired now) items)

pub cleanup_seen-length_le :
    (now : ℕ) (m : List (String × SeenMessage)) → length (cleanup_seen now m) ≤ length m
unfolding cleanup_seen
cleanup_seen-length_le now [] = omega arith
cleanup_seen-length_le now ((key, seen) ∷ m) = ground (arith, cleanup_seen-length_le now m)
