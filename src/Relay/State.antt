-- ===== src/Relay/State.antt =====
-- services/remote-relay/src/store.ts and packages/contracts/src/remote-bridge.ts: what the relay
-- stores, and the removal of what has expired. Times are milliseconds.
use avity_os.Base.{ℕ, ◌+◌, String, Bool, List, [], ◌∷◌, if◌then◌else◌, leb, ltb, length, filter}
use avity_os.Relay.Waiters.{Waiting}
use Prim.Native.String.{◌++◌ as str_append}

pub record RemoteEncryptedEnvelope : Type 0 where
  pub protocol_version : ℕ
  pub message_id : String
  pub account_id : String
  pub sender_device_id : String
  pub recipient_device_id : String
  pub sequence : ℕ
  pub sent_at : String
  pub content_type : String
  pub ephemeral_public_key : String
  pub salt : String
  pub nonce : String
  pub ciphertext : String
  pub auth_tag : String
  pub signature : String

pub record StoredRelayItem : Type 0 where
  pub cursor : ℕ
  pub received_at : String
  pub expires_at : ℕ
  pub size_bytes : ℕ
  pub envelope : RemoteEncryptedEnvelope

pub record SeenMessage : Type 0 where
  pub fingerprint : String
  pub accepted_at : String
  pub expires_at : ℕ

-- The Maps of the store that its messages live in, and the long polls that wait for them.
pub record Relay : Type 0 where
  pub inboxes : List (String × List StoredRelayItem)
  pub cursor_states : List (String × ℕ)
  pub seen_messages : List (String × SeenMessage)
  pub waiting : Waiting

unfoldable pub with_waiting : Waiting → Relay → Relay
with_waiting waiting r = record {
  inboxes = r.inboxes;
  cursor_states = r.cursor_states;
  seen_messages = r.seen_messages;
  waiting = waiting;
}

abbrev pub Inboxes : Type 0
Inboxes = List (String × List StoredRelayItem)

-- `JSON.stringify`, `Buffer.byteLength`, the digest of `node:crypto` and `Date`, which the store
-- calls.
pub record Platform : Type 0 where
  pub serialize : RemoteEncryptedEnvelope → String
  pub byte_length : String → ℕ
  pub sha256 : String → String
  pub to_iso : ℕ → String

abbrev pub inbox_key : (account_id device_id : String) → String
inbox_key account_id device_id = str_append account_id (str_append ":" device_id)

abbrev pub unexpired : ℕ → StoredRelayItem → Bool
unexpired now item = ltb now item.expires_at

unfoldable pub cleanup_inboxes : ℕ → Inboxes → Inboxes
unfolding filter
cleanup_inboxes now [] = []
cleanup_inboxes now ((key, items) ∷ inboxes) =
    let current = filter (unexpired now) items in
    let rest = cleanup_inboxes now inboxes in
    if ltb 0 (length current) then (key, current) ∷ rest else rest

unfoldable pub cleanup_seen : ℕ → List (String × SeenMessage) → List (String × SeenMessage)
cleanup_seen now [] = []
cleanup_seen now ((message_id, seen) ∷ messages) =
    let rest = cleanup_seen now messages in
    if leb seen.expires_at now then rest else (message_id, seen) ∷ rest

unfoldable pub cleanup : ℕ → Relay → Relay
unfolding cleanup_inboxes cleanup_seen
cleanup now r = record {
  inboxes = cleanup_inboxes now r.inboxes;
  cursor_states = r.cursor_states;
  seen_messages = cleanup_seen now r.seen_messages;
  waiting = r.waiting;
}

-- `items.length` and `item.sizeBytes`, added up.
unfoldable pub bytes : List StoredRelayItem → ℕ
bytes [] = 0
bytes (item ∷ items) = item.size_bytes + bytes items

unfoldable pub total_items : Inboxes → ℕ
total_items [] = 0
total_items ((_, items) ∷ inboxes) = length items + total_items inboxes

unfoldable pub total_bytes : Inboxes → ℕ
unfolding bytes
total_bytes [] = 0
total_bytes ((_, items) ∷ inboxes) = bytes items + total_bytes inboxes

pub record Stats : Type 0 where
  pub inboxes : ℕ
  pub queued_envelopes : ℕ

-- `stats`, after its cleanup.
unfoldable pub stats : ℕ → Relay → Stats × Relay
unfolding cleanup total_items
stats now r =
    let cleaned = cleanup now r in
    (
      record { inboxes = length cleaned.inboxes; queued_envelopes = total_items cleaned.inboxes },
      cleaned,
    )
