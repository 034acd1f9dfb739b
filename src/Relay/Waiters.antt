-- ===== src/Relay/Waiters.antt =====
-- services/remote-relay/src/store.ts: the long polls. A waiter is the closure that ends one poll,
-- named by a number. `open_polls` holds the closures whose flag `finished` is not set, each with the
-- key that it has captured: these are the polls whose promise is not resolved.
use avity_os.Base.{
  ℕ, ◌+◌, ◌-◌, String, Bool, not, List, [], ◌∷◌, ◌++◌, none, some, ◌===◌, if◌then◌else◌, length,
  filter, lookup, insert, delete, or_else, nat_eq, string_eq,
}

pub record Waiting : Type 0 where
  pub waiters : List (String × List ℕ)
  pub waiter_count : ℕ
  pub open_polls : List (ℕ × String)
  pub next_waiter : ℕ

-- `current?.delete(finish); if (current?.size === 0) this.waiters.delete(key)`
unfoldable pub remove_waiter : String → ℕ → List (String × List ℕ) → List (String × List ℕ)
unfolding lookup insert delete filter
remove_waiter key waiter waiters = elim (lookup key waiters) [
  | none ↦ waiters
  | some current ↦
      let rest = filter (λ w. not (w === waiter)) current in
      if length rest === 0 then delete key waiters else insert key rest waiters
]

-- The flag of one closure is set: a number names one closure.
unfoldable pub close : ℕ → List (ℕ × String) → List (ℕ × String)
close waiter [] = []
close waiter ((w, key) ∷ polls) =
    let rest = close waiter polls in if w === waiter then polls else (w, key) ∷ rest

-- `finish`: the timer, the abort signal and `notify` all call it. It does nothing when its flag is
-- set, and there is none that was not registered.
unfoldable pub finish : ℕ → Waiting → Waiting
unfolding remove_waiter lookup close
finish waiter s = elim (lookup waiter s.open_polls) [
  | none ↦ s
  | some key ↦ record {
    waiters = remove_waiter key waiter s.waiters;
    waiter_count = s.waiter_count - 1;
    open_polls = close waiter s.open_polls;
    next_waiter = s.next_waiter;
  }
]

unfoldable pub finish_all : List ℕ → Waiting → Waiting
unfolding finish
finish_all [] s = s
finish_all (w ∷ ws) s = finish_all ws (finish w s)

unfoldable pub notify : String → Waiting → Waiting
unfolding finish_all lookup delete
notify key s = elim (lookup key s.waiters) [
  | none ↦ s
  | some current ↦ finish_all current (record {
    waiters = delete key s.waiters;
    waiter_count = s.waiter_count;
    open_polls = s.open_polls;
    next_waiter = s.next_waiter;
  })
]

-- A new closure joins the Set of its key.
unfoldable pub registered : String → Waiting → Waiting
unfolding lookup insert
registered key s = record {
  waiters = insert key (or_else (lookup key s.waiters) [] ++ s.next_waiter ∷ []) s.waiters;
  waiter_count = s.waiter_count + 1;
  open_polls = s.open_polls ++ (s.next_waiter, key) ∷ [];
  next_waiter = s.next_waiter + 1;
}

-- The executor of the promise in `waitForItems`: the poll is registered, and ended at once when
-- its signal is already aborted.
unfoldable pub start_waiting : String → (aborted : Bool) → Waiting → Waiting
unfolding registered finish
start_waiting key aborted s =
    if aborted then finish s.next_waiter (registered key s) else registered key s
