-- ===== src/Relay/Publish/Room.antt =====
-- services/remote-relay/src/store.ts: what the guards of `publish` leave room for.
use avity_os.Base.{
  ℕ, ◌+◌, ◌≤◌, ◌<◌, ◌≡◌, String, Bool, false, ◌&&◌, not, Option, none, some, if◌then◌else◌, leb,
  ltb, length, lookup, is_some, string_eq, Bool-cases, Option-cases, inl, inr, arith, ◌===◌,
}
use avity_os.Relay.Limits.{Limits, max_safe_integer}
use avity_os.Relay.State.{
  RemoteEncryptedEnvelope, Platform, inbox_key, Relay, bytes, total_items, total_bytes,
}
use avity_os.Relay.Publish.{
  Capacity, deduplication, inbox_states, inbox_items, inbox_bytes, queue_items, queue_bytes,
  cursors, items_at, cursor_at, refusal, admit, publish_cleaned,
}

-- A guard that was passed.
passed :
    (b : Bool) (c : Capacity) (next : Option Capacity)
    → (if b then some c else next) ≡ none
    → (b ≡ false) × (next ≡ none)
passed b c next h = elim (Bool-cases b) [
  | inl failed ↦ ground (arith, h, failed)
  | inr ok ↦ (ok, rw ok at h)
]

pub record HasRoom (l : Limits) (r : Relay) (key : String) (size : ℕ) : Type 0 where
  pub seen_room : length r.seen_messages < l.max_seen_messages
  pub state_room :
      is_some (lookup key r.cursor_states) ≡ false → length r.cursor_states < l.max_inbox_states
  pub item_room : length (items_at key r) < l.max_items_per_inbox
  pub byte_room : bytes (items_at key r) + size ≤ l.max_bytes_per_inbox
  pub queue_room : total_items r.inboxes < l.max_total_items
  pub queue_bytes_room : total_bytes r.inboxes + size ≤ l.max_total_bytes
  pub cursor_room : cursor_at key r + 1 ≤ max_safe_integer

pub refusal-HasRoom :
    (l : Limits) (r : Relay) (key : String) (size : ℕ)
    → refusal l r key size ≡ none
    → HasRoom l r key size
unfolding refusal
refusal-HasRoom l r key size h =
    let seen = passed (leb l.max_seen_messages (length r.seen_messages)) deduplication _ h in
    let states =
      passed
        (not (is_some (lookup key r.cursor_states))
          && leb l.max_inbox_states (length r.cursor_states))
        inbox_states _ seen.1 in
    let items =
      passed (leb l.max_items_per_inbox (length (items_at key r))) inbox_items _ states.1 in
    let inbox =
      passed (ltb l.max_bytes_per_inbox (bytes (items_at key r) + size)) inbox_bytes _ items.1 in
    let queue = passed (leb l.max_total_items (total_items r.inboxes)) queue_items _ inbox.1 in
    let queued =
      passed (ltb l.max_total_bytes (total_bytes r.inboxes + size)) queue_bytes _ queue.1 in
    let cursor = passed (ltb max_safe_integer (cursor_at key r + 1)) cursors _ queued.1 in
    record {
      seen_room = ground (arith, seen.0);
      state_room = λ fresh. ground (arith, states.0, fresh);
      item_room = ground (arith, items.0);
      byte_room = ground (arith, inbox.0);
      queue_room = ground (arith, queue.0);
      queue_bytes_room = ground (arith, queued.0);
      cursor_room = ground (arith, cursor.0);
    }

-- What holds of the cleaned store and of the store with the envelope, where there is room for it,
-- holds of the store that `publish` leaves.
pub publish_cleaned-cases :
    (platform : Platform) (l : Limits) (now : ℕ) (e : RemoteEncryptedEnvelope) (r : Relay)
    → (P : Relay → Type 0) → P r
    → (HasRoom l r
          (inbox_key e.account_id e.recipient_device_id)
          (platform.byte_length (platform.serialize e))
        → lookup e.message_id r.seen_messages ≡ none
        → P (admit platform l now r (inbox_key e.account_id e.recipient_device_id) e))
    → P (publish_cleaned platform l now e r).1
unfolding publish_cleaned
publish_cleaned-cases platform l now e r P unchanged admitted =
    let key = inbox_key e.account_id e.recipient_device_id in
    let size = platform.byte_length (platform.serialize e) in
    elim (Option-cases (lookup e.message_id r.seen_messages)) [
      | inr (seen, known) ↦
          rw (known, publish_cleaned)
            (elim (Bool-cases (seen.fingerprint === platform.sha256 (platform.serialize e))) [
              | inl same ↦ rw same unchanged
              | inr other ↦ rw other unchanged
            ])
      | inl new ↦
          rw (new, publish_cleaned)
            (elim (Option-cases (refusal l r key size)) [
              | inl room ↦ rw room (admitted (refusal-HasRoom l r key size room) new)
              | inr (full, refused) ↦ rw refused unchanged
            ])
    ]
