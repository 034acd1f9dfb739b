-- ===== src/Relay/Publish.antt =====
-- services/remote-relay/src/store.ts: `publish`. A failed call leaves the store cleaned of what
-- has expired, and otherwise as it was.
pub mod Room
pub mod Sums
pub mod Bounded
pub mod Ordered
pub mod Replay
use avity_os.Base.{
  ℕ, ◌+◌, String, Bool, true, false, not, ◌&&◌, List, [], ◌∷◌, ◌++◌, Option, none, some, ◌===◌,
  if◌then◌else◌, leb, ltb, length, lookup, insert, or_else, is_some, string_eq,
}
use avity_os.Relay.Limits.{Limits, max_safe_integer}
use avity_os.Relay.Waiters.{notify}
use avity_os.Relay.State.{
  RemoteEncryptedEnvelope, StoredRelayItem, SeenMessage, Relay, Platform, inbox_key, cleanup, bytes,
  total_items, total_bytes,
}

pub data Capacity : Type 0 where
  deduplication inbox_states inbox_items inbox_bytes queue_items queue_bytes cursors : Capacity

pub data PublishOutcome : Type 0 where
  published : (message_id accepted_at : String) (duplicate : Bool) → PublishOutcome
  conflict_error : PublishOutcome
  capacity_error : Capacity → PublishOutcome

abbrev pub items_at : String → Relay → List StoredRelayItem
items_at key r = or_else (lookup key r.inboxes) []

abbrev pub cursor_at : String → Relay → ℕ
cursor_at key r = or_else (lookup key r.cursor_states) 0

-- The guards on the store's capacity, in their order: the first that refuses the envelope.
unfoldable pub refusal : Limits → Relay → (key : String) → (size_bytes : ℕ) → Option Capacity
unfolding lookup bytes total_items total_bytes
refusal l r key size =
    if leb l.max_seen_messages (length r.seen_messages)
    then some deduplication
    else if not (is_some (lookup key r.cursor_states))
        && leb l.max_inbox_states (length r.cursor_states)
    then some inbox_states
    else if leb l.max_items_per_inbox (length (items_at key r))
    then some inbox_items
    else if ltb l.max_bytes_per_inbox (bytes (items_at key r) + size)
    then some inbox_bytes
    else if leb l.max_total_items (total_items r.inboxes)
    then some queue_items
    else if ltb l.max_total_bytes (total_bytes r.inboxes + size)
    then some queue_bytes
    else if ltb max_safe_integer (cursor_at key r + 1)
    then some cursors
    else none

module _ (platform : Platform) (l : Limits) where
  abbrev pub stored : ℕ → Relay → (key : String) → RemoteEncryptedEnvelope → StoredRelayItem
  stored now r key e = record {
    cursor = cursor_at key r + 1;
    received_at = platform.to_iso now;
    expires_at = now + l.ttl_ms;
    size_bytes = platform.byte_length (platform.serialize e);
    envelope = e;
  }

  -- What an admitted envelope changes.
  unfoldable pub admit : ℕ → Relay → (key : String) → RemoteEncryptedEnvelope → Relay
  unfolding lookup insert notify
  admit now r key e = record {
    inboxes = insert key (items_at key r ++ stored now r key e ∷ []) r.inboxes;
    cursor_states = insert key (cursor_at key r + 1) r.cursor_states;
    seen_messages =
        insert e.message_id
          (record {
            fingerprint = platform.sha256 (platform.serialize e);
            accepted_at = platform.to_iso now;
            expires_at = now + l.ttl_ms;
          })
          r.seen_messages;
    waiting = notify key r.waiting;
  }

  -- `publish` after its cleanup.
  unfoldable pub publish_cleaned : ℕ → RemoteEncryptedEnvelope → Relay → PublishOutcome × Relay
  unfolding lookup refusal admit
  publish_cleaned now e r =
      let key = inbox_key e.account_id e.recipient_device_id in
      let size = platform.byte_length (platform.serialize e) in
      elim (lookup e.message_id r.seen_messages) [
        | some existing ↦
            if existing.fingerprint === platform.sha256 (platform.serialize e)
            then (published e.message_id existing.accepted_at true, r)
            else (conflict_error, r)
        | none ↦ elim (refusal l r key size) [
          | some full ↦ (capacity_error full, r)
          | none ↦ (published e.message_id (platform.to_iso now) false, admit now r key e)
        ]
      ]

  unfoldable pub publish : ℕ → RemoteEncryptedEnvelope → Relay → PublishOutcome × Relay
  unfolding cleanup publish_cleaned
  publish now e r = publish_cleaned now e (cleanup now r)
