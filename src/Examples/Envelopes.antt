-- ===== src/Examples/Envelopes.antt =====
-- The store of services/remote-relay/src/store.ts at concrete envelopes, limits and times.
use avity_os.Base.{
  false, ◌≤◌, ℕ, ◌-◌, ◌≡◌, ◌≢◌, refl, String, List, [], ◌∷◌, ◌++◌, none, some, string_eq, length,
  filter, lookup, beq_false, arith,
}
use avity_os.Relay.Limits.{Options, Limits}
use avity_os.Relay.State.{
  RemoteEncryptedEnvelope, StoredRelayItem, Relay, Platform, inbox_key, cleanup,
}
use avity_os.Relay.Publish.{conflict_error, publish, items_at}
use avity_os.Relay.Publish.Bounded.{IsBounded}
use avity_os.Relay.Publish.Ordered.{IsOrdered}
use avity_os.Relay.Publish.Replay.{publish_again}
use avity_os.Relay.Inbox.{after, page, list, acknowledge}
use avity_os.Relay.Inbox.Pages.{page-page}
use avity_os.Relay.Inbox.Delivery.{publish-list}
use avity_os.Relay.Inbox.Removal.{acknowledge_exact}
use avity_os.Relay.Inbox.{wait_for_items, register_poll, end_poll}
use avity_os.Relay.Polls.{polls_within}
use avity_os.Relay.History.{waits, ends, new_relay, publishes, fresh, next, reachable_sound}

abbrev envelope : (message_id ciphertext : String) → RemoteEncryptedEnvelope
envelope message_id ciphertext = record {
  protocol_version = 1;
  message_id = message_id;
  account_id = "acct";
  sender_device_id = "mac";
  recipient_device_id = "phone";
  sequence = 1;
  sent_at = "2026-01-01T00:00:00.000Z";
  content_type = "text";
  ephemeral_public_key = "key";
  salt = "salt";
  nonce = "nonce";
  ciphertext = ciphertext;
  auth_tag = "tag";
  signature = "signature";
}

abbrev platform : Platform
platform = record {
  serialize = λ e. e.ciphertext;
  byte_length = λ _. 400;
  sha256 = λ text. text;
  to_iso = λ _. "2026-01-01T00:00:01.000Z";
}

abbrev defaults : Options
defaults = record {
  ttl_ms = none;
  max_items_per_inbox = some 2;
  max_total_items = none;
  max_bytes_per_inbox = none;
  max_total_bytes = none;
  max_inbox_states = none;
  max_seen_messages = none;
  max_waiters = none;
}

abbrev limits : Limits
limits = record {
  ttl_ms = 604800000;
  max_items_per_inbox = 2;
  max_total_items = 10000;
  max_bytes_per_inbox = 33554432;
  max_total_bytes = 268435456;
  max_inbox_states = 10000;
  max_seen_messages = 100000;
  max_waiters = 1000;
}

abbrev one_queued : Relay
one_queued = (publish platform limits 5000 (envelope "m1" "hello") new_relay).1

reachable_sound_example : IsBounded limits one_queued × IsOrdered one_queued
reachable_sound_example =
    reachable_sound platform limits (next fresh (publishes 5000 (envelope "m1" "hello")))

publish_again_example :
    publish platform limits 6000 (envelope "m1" "other") one_queued
    ≡ (conflict_error, cleanup 6000 one_queued)
unfolding publish new_relay
publish_again_example =
    publish_again platform limits 5000 6000 (envelope "m1" "hello") (envelope "m1" "other")
      new_relay refl (omega arith) refl

publish-list_example : list 7000 "acct" "phone" 0 10 one_queued ≡ (
  some (record {
    items =
        record {
          cursor = 1;
          received_at = "2026-01-01T00:00:01.000Z";
          envelope = envelope "m1" "hello";
        }
        ∷ [];
    next_cursor = 1;
  }),
  cleanup 7000 one_queued,
)
unfolding publish new_relay lookup
publish-list_example =
    publish-list platform limits 5000 7000 9 (envelope "m1" "hello") new_relay
      (reachable_sound platform limits fresh).1 refl (omega arith)

abbrev item : ℕ → StoredRelayItem
item cursor = record {
  cursor = cursor;
  received_at = "2026-01-01T00:00:01.000Z";
  expires_at = 9000;
  size_bytes = 400;
  envelope = envelope "m" "text";
}

abbrev three : List StoredRelayItem
three = item 2 ∷ item 4 ∷ item 5 ∷ []

page-page_example :
    (page three 2 2).items
    ≡ ((page three 2 1).items ++ (page three (page three 2 1).next_cursor 1).items)
page-page_example =
    page-page 0 5 2 1 1 three
      (omega arith, omega arith, (omega arith, omega arith, (omega arith, omega arith, tt)))

other_key : inbox_key "acct" "phone" ≢ "acct:mac"
other_key = beq_false refl

acknowledge_exact_example :
    (items_at (inbox_key "acct" "phone") (acknowledge 7000 "acct" "phone" 1 one_queued).1
      ≡ filter (after 1) (items_at (inbox_key "acct" "phone") (cleanup 7000 one_queued)))
    × (lookup "acct:mac" (acknowledge 7000 "acct" "phone" 1 one_queued).1.inboxes
        ≡ lookup "acct:mac" (cleanup 7000 one_queued).inboxes)
    × ((acknowledge 7000 "acct" "phone" 1 one_queued).0
        ≡ some (
            length (items_at (inbox_key "acct" "phone") (cleanup 7000 one_queued))
            - length (
                items_at
                  (inbox_key "acct" "phone")
                  (acknowledge 7000 "acct" "phone" 1 one_queued).1)))
acknowledge_exact_example =
    acknowledge_exact 7000 "acct" "phone" 1 one_queued "acct:mac" (omega arith) other_key

abbrev two_waiting : Relay
two_waiting =
    (wait_for_items limits 7100 "acct" "phone" 1 30000 false
      (wait_for_items limits 7000 "acct" "phone" 1 30000 false one_queued).1).1

abbrev one_waiting : Relay
one_waiting = end_poll 0 two_waiting

polls_counted : two_waiting.waiting.waiter_count ≡ 2
unfolding wait_for_items publish new_relay register_poll
polls_counted = refl

polls_within_example :
    (length one_waiting.waiting.open_polls ≡ one_waiting.waiting.waiter_count)
    × (one_waiting.waiting.waiter_count ≤ 1000)
polls_within_example = polls_within platform limits (
    next
      (next
        (next (next fresh (publishes 5000 (envelope "m1" "hello")))
          (waits 7000 "acct" "phone" 1 30000 false))
        (waits 7100 "acct" "phone" 1 30000 false))
      (ends 0))
