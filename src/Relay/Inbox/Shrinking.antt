-- ===== src/Relay/Inbox/Shrinking.antt =====
-- services/remote-relay/src/store.ts: `acknowledge` keeps the store within its limits.
use avity_os.Base.{
  ℕ, ◌≤◌, String, [], ◌∷◌, filter, lookup, delete, or_else, string_eq, ◌===◌, Bool-cases, inl, inr,
  arith, All, length-filter_le,
}
use avity_os.Relay.Limits.{Limits}
use avity_os.Relay.State.{Relay, Inboxes, inbox_key, cleanup, bytes, total_items, total_bytes}
use avity_os.Relay.Publish.Sums.{bytes-filter_le, total_items-insert, total_bytes-insert}
use avity_os.Relay.Publish.Bounded.{IsFitting, IsBounded, All-insert, cleanup-IsBounded}
use avity_os.Relay.Inbox.{after, retain, acknowledge}
use avity_os.Relay.Inbox.Removal.{retain-cases, delete-All}

delete-total_items_le : (key : String) (m : Inboxes) → total_items (delete key m) ≤ total_items m
unfolding delete total_items
delete-total_items_le key [] = omega arith
delete-total_items_le key ((j, xs) ∷ m) = ground (arith, delete-total_items_le key m)

delete-total_bytes_le : (key : String) (m : Inboxes) → total_bytes (delete key m) ≤ total_bytes m
unfolding delete total_bytes
delete-total_bytes_le key [] = omega arith
delete-total_bytes_le key ((j, xs) ∷ m) = ground (arith, delete-total_bytes_le key m)

retain-total_items_le :
    (key : String) (through_cursor : ℕ) (m : Inboxes)
    → total_items (retain key through_cursor m) ≤ total_items m
retain-total_items_le key through_cursor m =
    retain-cases (λ m'. total_items m' ≤ total_items m) key through_cursor m
      (omega (
        arith,
        total_items-insert key (filter (after through_cursor) (or_else (lookup key m) [])) m,
        length-filter_le (after through_cursor) (or_else (lookup key m) []),
      ))
      (λ _. delete-total_items_le key m)

retain-total_bytes_le :
    (key : String) (through_cursor : ℕ) (m : Inboxes)
    → total_bytes (retain key through_cursor m) ≤ total_bytes m
retain-total_bytes_le key through_cursor m =
    retain-cases (λ m'. total_bytes m' ≤ total_bytes m) key through_cursor m
      (omega (
        arith,
        total_bytes-insert key (filter (after through_cursor) (or_else (lookup key m) [])) m,
        bytes-filter_le (after through_cursor) (or_else (lookup key m) []),
      ))
      (λ _. delete-total_bytes_le key m)

items_at-IsFitting :
    (l : Limits) (key : String) (m : Inboxes)
    → All (IsFitting l) m
    → IsFitting l (key, or_else (lookup key m) [])
unfolding lookup IsFitting bytes
items_at-IsFitting l key [] h = (omega arith, omega arith)
items_at-IsFitting l key ((j, xs) ∷ m) h = elim (Bool-cases (j === key)) [
  | inl same ↦ rw same h.0
  | inr other ↦ rw other (items_at-IsFitting l key m h.1)
]

retain-All :
    (l : Limits) (key : String) (through_cursor : ℕ) (m : Inboxes)
    → All (IsFitting l) m
    → All (IsFitting l) (retain key through_cursor m)
unfolding IsFitting
retain-All l key through_cursor m h =
    let items = or_else (lookup key m) [] in
    let fits = items_at-IsFitting l key m h in
    retain-cases (All (IsFitting l)) key through_cursor m
      (All-insert (IsFitting l) key _ m
        (
          omega (arith, fits.0, length-filter_le (after through_cursor) items),
          omega (arith, fits.1, bytes-filter_le (after through_cursor) items),
        )
        h)
      (λ _. delete-All (IsFitting l) key m h)

pub acknowledge-IsBounded :
    (l : Limits) (now : ℕ) (account_id device_id : String) (through_cursor : ℕ) (r : Relay)
    → IsBounded l r
    → IsBounded l (acknowledge now account_id device_id through_cursor r).1
unfolding acknowledge
acknowledge-IsBounded l now account_id device_id through_cursor r b =
    let cleaned = cleanup-IsBounded l now r b in
    let key = inbox_key account_id device_id in
    let m = (cleanup now r).inboxes in
    record {
      each_inbox = retain-All l key through_cursor m cleaned.each_inbox;
      items_bound = omega (arith, cleaned.items_bound, retain-total_items_le key through_cursor m);
      bytes_bound = omega (arith, cleaned.bytes_bound, retain-total_bytes_le key through_cursor m);
      states_bound = cleaned.states_bound;
      seen_bound = cleaned.seen_bound;
    }
