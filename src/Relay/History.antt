-- ===== src/Relay/History.antt =====
-- services/remote-relay/src/store.ts: the stores that the calls of a relay lead to.
use avity_os.Base.{
  ℕ, String, Bool, [], ◌===◌, leb, ltb, length, nat_eq, lookup, Bool-cases, Option-cases, inl, inr,
  arith,
}
use avity_os.Relay.Limits.{Limits}
use avity_os.Relay.Waiters.{Waiting}
use avity_os.Relay.State.{
  RemoteEncryptedEnvelope, Relay, Platform, inbox_key, with_waiting, cleanup, stats, total_items,
  total_bytes,
}
use avity_os.Relay.Publish.{publish}
use avity_os.Relay.Publish.Bounded.{IsBounded, cleanup-IsBounded, publish-IsBounded}
use avity_os.Relay.Publish.Ordered.{IsOrdered, cleanup-IsOrdered, publish-IsOrdered}
use avity_os.Relay.Inbox.{list, acknowledge, register_poll, wait_for_items, end_poll}
use avity_os.Relay.Inbox.Removal.{acknowledge-IsOrdered}
use avity_os.Relay.Inbox.Shrinking.{acknowledge-IsBounded}

-- The Maps of a new store are empty.
unfoldable pub new_relay : Relay
new_relay = record {
  inboxes = [];
  cursor_states = [];
  seen_messages = [];
  waiting = record { waiters = []; waiter_count = 0; open_polls = []; next_waiter = 0 };
}

module _ (platform : Platform) (l : Limits) where
  -- One call of a store, at any time and with any arguments.
  pub data Step (r : Relay) : Relay → Type 0 where
    publishes : (now : ℕ) (e : RemoteEncryptedEnvelope) → Step r (publish platform l now e r).1
    lists :
        (now : ℕ) (account_id device_id : String) (after_cursor limit : ℕ)
        → Step r (list now account_id device_id after_cursor limit r).1
    acknowledges :
        (now : ℕ) (account_id device_id : String) (through_cursor : ℕ)
        → Step r (acknowledge now account_id device_id through_cursor r).1
    waits :
        (now : ℕ) (account_id device_id : String) (after_cursor wait_ms : ℕ) (aborted : Bool)
        → Step r (wait_for_items l now account_id device_id after_cursor wait_ms aborted r).1
    ends : (waiter : ℕ) → Step r (end_poll waiter r)
    counts : (now : ℕ) → Step r (stats now r).1

  pub data Reachable : Relay → Type 0 where
    fresh : Reachable new_relay
    next : {r s : Relay} → Reachable r → Step r s → Reachable s

  abbrev IsSound : Relay → Type 0
  IsSound r = IsBounded l r × IsOrdered r

  cleanup-IsSound : (now : ℕ) (r : Relay) → IsSound r → IsSound (cleanup now r)
  cleanup-IsSound now r (b, o) = (cleanup-IsBounded l now r b, cleanup-IsOrdered now r o)

  waiting-IsSound : (w : Waiting) (r : Relay) → IsSound r → IsSound (with_waiting w r)
  unfolding with_waiting
  waiting-IsSound w r (b, o) = (
    record {
      each_inbox = b.each_inbox;
      items_bound = b.items_bound;
      bytes_bound = b.bytes_bound;
      states_bound = b.states_bound;
      seen_bound = b.seen_bound;
    },
    record { each_inbox = o.each_inbox; safe_cursors = o.safe_cursors },
  )

  poll-IsSound :
      (key : String) (aborted : Bool) (r : Relay)
      → IsSound r
      → IsSound (register_poll l key aborted r).1
  unfolding register_poll
  poll-IsSound key aborted r h = elim (Bool-cases (leb l.max_waiters r.waiting.waiter_count)) [
    | inl full ↦ rw full h
    | inr room ↦ rw room (waiting-IsSound _ r h)
  ]

  list-IsSound :
      (now : ℕ) (a d : String) (cursor limit : ℕ) (r : Relay)
      → IsSound r
      → IsSound (list now a d cursor limit r).1
  unfolding list
  list-IsSound now a d cursor limit r h = cleanup-IsSound now r h

  wait-IsSound :
      (now : ℕ) (a d : String) (cursor wait_ms : ℕ) (aborted : Bool) (r : Relay)
      → IsSound r
      → IsSound (wait_for_items l now a d cursor wait_ms aborted r).1
  unfolding wait_for_items
  wait-IsSound now a d cursor wait_ms aborted r h =
      let cleaned = list-IsSound now a d cursor 1 r h in
      elim (Bool-cases (wait_ms === 0)) [
        | inl at_once ↦ rw (wait_for_items, at_once) h
        | inr later ↦ elim (Option-cases (list now a d cursor 1 r).0) [
          | inl failed ↦ rw (wait_for_items, later, failed) cleaned
          | inr (inbox, found) ↦ elim (Bool-cases (ltb 0 (length inbox.items))) [
            | inl there_are ↦ rw (wait_for_items, later, found, there_are) cleaned
            | inr none_yet ↦
                rw (wait_for_items, later, found, none_yet)
                  (poll-IsSound (inbox_key a d) aborted _ cleaned)
          ]
        ]
      ]

  Step-IsSound : {r s : Relay} → Step r s → IsSound r → IsSound s
  unfolding stats end_poll
  Step-IsSound {r} (publishes now e) (b, o) =
      (publish-IsBounded platform l now e r b, publish-IsOrdered platform l now e r o)
  Step-IsSound {r} (lists now a d cursor limit) h = list-IsSound now a d cursor limit r h
  Step-IsSound {r} (acknowledges now a d cursor) (b, o) =
      (acknowledge-IsBounded l now a d cursor r b, acknowledge-IsOrdered now a d cursor r o)
  Step-IsSound {r} (waits now a d cursor wait_ms aborted) h =
      wait-IsSound now a d cursor wait_ms aborted r h
  Step-IsSound {r} (ends waiter) h = waiting-IsSound _ r h
  Step-IsSound {r} (counts now) h = cleanup-IsSound now r h

  -- Whatever is called on a new store, in any order, its inboxes, cursors and remembered messages
  -- stay within the limits, and the cursors of every inbox ascend.
  pub reachable_sound : {r : Relay} → Reachable r → IsBounded l r × IsOrdered r
  unfolding new_relay total_items total_bytes lookup
  reachable_sound fresh = (
    record {
      each_inbox = tt;
      items_bound = omega arith;
      bytes_bound = omega arith;
      states_bound = omega arith;
      seen_bound = omega arith;
    },
    record { each_inbox = tt; safe_cursors = λ key. omega arith },
  )
  reachable_sound (next before step) = Step-IsSound step (reachable_sound before)
