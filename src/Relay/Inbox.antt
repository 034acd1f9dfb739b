-- ===== src/Relay/Inbox.antt =====
-- services/remote-relay/src/store.ts: `list`, `acknowledge` and `waitForItems`.
pub mod Pages
pub mod Removal
pub mod Shrinking
pub mod Delivery
use avity_os.Base.{
  ℕ, ◌-◌, String, Bool, true, false, not, ◌||◌, List, [], ◌∷◌, map, Option, none, some,
  if◌then◌else◌, leb, ltb, length, filter, take, lookup, insert, delete, or_else, string_eq, ◌===◌,
  nat_eq,
}
use avity_os.Relay.Limits.{Limits}
use avity_os.Relay.Waiters.{start_waiting, finish}
use avity_os.Relay.State.{
  RemoteEncryptedEnvelope, StoredRelayItem, Relay, Inboxes, inbox_key, with_waiting, cleanup,
}

pub record RemoteRelayItem : Type 0 where
  pub cursor : ℕ
  pub received_at : String
  pub envelope : RemoteEncryptedEnvelope

pub record RemoteRelayInbox : Type 0 where
  pub items : List RemoteRelayItem
  pub next_cursor : ℕ

abbrev pub shown : StoredRelayItem → RemoteRelayItem
shown item = record {
  cursor = item.cursor;
  received_at = item.received_at;
  envelope = item.envelope;
}

abbrev pub after : ℕ → StoredRelayItem → Bool
after cursor item = ltb cursor item.cursor

-- `items.at(-1)?.cursor ?? afterCursor`
unfoldable pub last_cursor : ℕ → List RemoteRelayItem → ℕ
last_cursor cursor [] = cursor
last_cursor cursor (item ∷ items) = last_cursor item.cursor items

abbrev pub page_items : (after_cursor limit : ℕ) → List StoredRelayItem → List RemoteRelayItem
page_items after_cursor limit stored = map shown (take limit (filter (after after_cursor) stored))

unfoldable pub page : (stored : List StoredRelayItem) → (after_cursor limit : ℕ) → RemoteRelayInbox
unfolding filter take last_cursor
page stored after_cursor limit =
    let items = page_items after_cursor limit stored in
    record { items = items; next_cursor = last_cursor after_cursor items }

-- `list`. The schema of its result admits 100 items: a longer page is an error.
unfoldable pub list :
    (now : ℕ)
    → (account_id device_id : String) → (after_cursor limit : ℕ) → Relay
    → Option RemoteRelayInbox × Relay
unfolding cleanup lookup page
list now account_id device_id after_cursor limit r =
    let cleaned = cleanup now r in
    let key = inbox_key account_id device_id in
    let result = page (or_else (lookup key cleaned.inboxes) []) after_cursor limit in
    (if leb (length result.items) 100 then some result else none, cleaned)

-- What an acknowledgement leaves of the inboxes.
unfoldable pub retain : String → ℕ → Inboxes → Inboxes
unfolding lookup filter insert delete
retain key through_cursor inboxes =
    let retained = filter (after through_cursor) (or_else (lookup key inboxes) []) in
    if ltb 0 (length retained) then insert key retained inboxes else delete key inboxes

-- `acknowledge`, with the number of the envelopes that it deletes. The schema of its result
-- refuses the cursor 0, after the deletion.
unfoldable pub acknowledge :
    (now : ℕ) → (account_id device_id : String) → (through_cursor : ℕ) → Relay → Option ℕ × Relay
unfolding cleanup lookup filter retain
acknowledge now account_id device_id through_cursor r =
    let cleaned = cleanup now r in
    let key = inbox_key account_id device_id in
    let current = or_else (lookup key cleaned.inboxes) [] in
    let deleted = length current - length (filter (after through_cursor) current) in
    (
      if ltb 0 through_cursor then some deleted else none,
      record {
        inboxes = retain key through_cursor cleaned.inboxes;
        cursor_states = cleaned.cursor_states;
        seen_messages = cleaned.seen_messages;
        waiting = cleaned.waiting;
      },
    )

pub data PollOutcome : Type 0 where
  at_once polling poll_refused poll_error : PollOutcome

unfoldable pub register_poll : Limits → String → Bool → Relay → PollOutcome × Relay
unfolding start_waiting with_waiting
register_poll l key aborted r =
    if leb l.max_waiters r.waiting.waiter_count
    then (poll_refused, r)
    else (polling, with_waiting (start_waiting key aborted r.waiting) r)

-- The timer, or the signal, of a poll. The number of none, or of one that has ended, does nothing.
unfoldable pub end_poll : (waiter : ℕ) → Relay → Relay
unfolding with_waiting finish
end_poll waiter r = with_waiting (finish waiter r.waiting) r

-- `waitForItems`, up to the promise that it waits for.
unfoldable pub wait_for_items :
    Limits
    → (now : ℕ) → (account_id device_id : String) → (after_cursor wait_ms : ℕ) → (aborted : Bool)
    → Relay
    → PollOutcome × Relay
unfolding list register_poll
wait_for_items l now account_id device_id after_cursor wait_ms aborted r =
    if wait_ms === 0
    then (at_once, r)
    else let (found, cleaned) = list now account_id device_id after_cursor 1 r in
      elim found [
        | none ↦ (poll_error, cleaned)
        | some inbox ↦
            if ltb 0 (length inbox.items)
            then (at_once, cleaned)
            else register_poll l (inbox_key account_id device_id) aborted cleaned
      ]
