-- ===== src/Relay/Polls.antt =====
-- services/remote-relay/src/store.ts: the number of the long polls that wait.
use avity_os.Base.{
  ℕ, ◌+◌, ◌≡◌, ◌≤◌, refl, String, Bool, true, false, List, [], ◌∷◌, some, ◌===◌, leb, ltb, length,
  lookup, length-append, nat_eq, string_eq, Bool-cases, Option-cases, inl, inr, arith,
}
use avity_os.Relay.Limits.{Limits}
use avity_os.Relay.Waiters.{Waiting, close, finish, finish_all, notify, registered, start_waiting}
use avity_os.Relay.State.{Relay, Platform, inbox_key, with_waiting, cleanup, stats}
use avity_os.Relay.Publish.{admit, publish}
use avity_os.Relay.Publish.Room.{publish_cleaned-cases}
use avity_os.Relay.Inbox.{list, acknowledge, register_poll, wait_for_items, end_poll}
use avity_os.Relay.History.{
  new_relay, Step, publishes, lists, acknowledges, waits, ends, counts, Reachable, fresh, next,
}

-- The counter is the number of the polls that wait, and at most a bound.
abbrev IsCounted : ℕ → Waiting → Type 0
IsCounted bound w = (length w.open_polls ≡ w.waiter_count) × (w.waiter_count ≤ bound)

length-close :
    (w : ℕ) (key : String) (polls : List (ℕ × String))
    → lookup w polls ≡ some key
    → length (close w polls) + 1 ≡ length polls
unfolding lookup close
length-close w key [] h = ground arith
length-close w key ((v, k) ∷ polls) h = elim (Bool-cases (v === w)) [
  | inl same ↦ rw same (omega arith)
  | inr other ↦ rw other (omega (arith, length-close w key polls (ground (arith, other))))
]

finish-IsCounted :
    (bound waiter : ℕ) (s : Waiting) → IsCounted bound s → IsCounted bound (finish waiter s)
unfolding finish
finish-IsCounted bound waiter s (c, b) = elim (Option-cases (lookup waiter s.open_polls)) [
  | inl ended ↦ rw (finish, ended) (c, b)
  | inr (key, waits_yet) ↦
      let gone = length-close waiter key s.open_polls waits_yet in
      rw (finish, waits_yet) (omega (arith, gone, c), omega (arith, b))
]

finish_all-IsCounted :
    (bound : ℕ) (ws : List ℕ) (s : Waiting) → IsCounted bound s → IsCounted bound (finish_all ws s)
unfolding finish_all
finish_all-IsCounted bound [] s h = h
finish_all-IsCounted bound (w ∷ ws) s h =
    finish_all-IsCounted bound ws (finish w s) (finish-IsCounted bound w s h)

notify-IsCounted :
    (bound : ℕ) (key : String) (s : Waiting) → IsCounted bound s → IsCounted bound (notify key s)
unfolding notify
notify-IsCounted bound key s h = elim (Option-cases (lookup key s.waiters)) [
  | inl nobody ↦ rw (notify, nobody) h
  | inr (current, some_wait) ↦
      rw (notify, some_wait) (finish_all-IsCounted bound current _ (h.0, h.1))
]

registered-IsCounted :
    (bound : ℕ) (key : String) (s : Waiting)
    → IsCounted bound s
    → leb bound s.waiter_count ≡ false
    → IsCounted bound (registered key s)
unfolding registered
registered-IsCounted bound key s (c, b) room =
    (omega (arith, c, length-append s.open_polls ((s.next_waiter, key) ∷ [])), ground (arith, room))

start_waiting-IsCounted :
    (bound : ℕ) (key : String) (aborted : Bool) (s : Waiting)
    → IsCounted bound s
    → leb bound s.waiter_count ≡ false
    → IsCounted bound (start_waiting key aborted s)
unfolding start_waiting
start_waiting-IsCounted bound key true s h room =
    finish-IsCounted bound s.next_waiter _ (registered-IsCounted bound key s h room)
start_waiting-IsCounted bound key false s h room = registered-IsCounted bound key s h room

module _ (platform : Platform) (l : Limits) where
  abbrev Within : Relay → Type 0
  Within r = IsCounted l.max_waiters r.waiting

  poll-Within :
      (key : String) (aborted : Bool) (r : Relay)
      → Within r
      → Within (register_poll l key aborted r).1
  unfolding register_poll with_waiting
  poll-Within key aborted r h = elim (Bool-cases (leb l.max_waiters r.waiting.waiter_count)) [
    | inl full ↦ rw (register_poll, full) h
    | inr room ↦
        rw (register_poll, room)
          (start_waiting-IsCounted l.max_waiters key aborted r.waiting h room)
  ]

  wait-Within :
      (now : ℕ) (a d : String) (cursor wait_ms : ℕ) (aborted : Bool) (r : Relay)
      → Within r
      → Within (wait_for_items l now a d cursor wait_ms aborted r).1
  unfolding wait_for_items list cleanup
  wait-Within now a d cursor wait_ms aborted r h = elim (Bool-cases (wait_ms === 0)) [
    | inl at_once ↦ rw (wait_for_items, at_once) h
    | inr later ↦ elim (Option-cases (list now a d cursor 1 r).0) [
      | inl failed ↦ rw (wait_for_items, later, failed) h
      | inr (inbox, found) ↦ elim (Bool-cases (ltb 0 (length inbox.items))) [
        | inl there_are ↦ rw (wait_for_items, later, found, there_are) h
        | inr none_yet ↦
            rw (wait_for_items, later, found, none_yet) (poll-Within (inbox_key a d) aborted _ h)
      ]
    ]
  ]

  Step-Within : {r s : Relay} → Step platform l r s → Within r → Within s
  unfolding publish admit list acknowledge end_poll stats cleanup with_waiting
  Step-Within {r} (publishes now e) h =
      publish_cleaned-cases platform l now e (cleanup now r) Within h (λ _ _.
        notify-IsCounted l.max_waiters (inbox_key e.account_id e.recipient_device_id) r.waiting h)
  Step-Within {r} (lists now a d cursor limit) h = h
  Step-Within {r} (acknowledges now a d cursor) h = h
  Step-Within {r} (waits now a d cursor wait_ms aborted) h =
      wait-Within now a d cursor wait_ms aborted r h
  Step-Within {r} (ends waiter) h = finish-IsCounted l.max_waiters waiter r.waiting h
  Step-Within {r} (counts now) h = h

  -- Whatever is called on a new store, in any order, its counter is the number of the long polls
  -- that still wait, and it stays within its limit.
  pub polls_within :
      {r : Relay}
      → Reachable platform l r
      → (length r.waiting.open_polls ≡ r.waiting.waiter_count)
        × (r.waiting.waiter_count ≤ l.max_waiters)
  unfolding new_relay
  polls_within fresh = (refl, omega arith)
  polls_within (next before step) = Step-Within step (polls_within before)
