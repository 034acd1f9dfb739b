-- ===== src/Relay/Inbox/Pages.antt =====
-- services/remote-relay/src/store.ts: the pages of `list`, read one after another.
use avity_os.Base.{
  ℕ, zero, suc, ◌+◌, ◌≤◌, ◌≡◌, List, [], ◌∷◌, ◌++◌, map, filter, take, Bool-cases, inl, inr, arith,
  refl, sym, ap, ltb→lt,
}
use avity_os.Relay.State.{StoredRelayItem}
use avity_os.Relay.Publish.Ordered.{Ascending, Ascending-filter}
use avity_os.Relay.Inbox.{shown, after, last_cursor, page_items, page}

-- Everything above a cursor that is below it all, and nothing above one that is not.
pub filter_all :
    (cursor low high : ℕ) (items : List StoredRelayItem)
    → cursor ≤ low
    → Ascending low high items
    → filter (after cursor) items ≡ items
unfolding filter
filter_all cursor low high [] below a = refl
filter_all cursor low high (x ∷ xs) below a =
    ground (arith, filter_all cursor x.cursor high xs (omega (arith, a.0)) a.2, a.0)

pub filter_none :
    (low high : ℕ) (items : List StoredRelayItem)
    → Ascending low high items
    → filter (after high) items ≡ []
unfolding filter
filter_none low high [] a = refl
filter_none low high (x ∷ xs) a = ground (arith, filter_none x.cursor high xs a.2, a.1)

last_cursor_ge :
    (cursor limit low high : ℕ) (items : List StoredRelayItem)
    → cursor ≤ low
    → Ascending low high items
    → cursor ≤ last_cursor cursor (map shown (take limit items))
unfolding last_cursor take
last_cursor_ge cursor zero low high items below a = omega arith
last_cursor_ge cursor (suc n) low high [] below a = omega arith
last_cursor_ge cursor (suc n) low high (x ∷ xs) below a =
    omega (arith, last_cursor_ge x.cursor n x.cursor high xs (omega arith) a.2, a.0)

pub take_none : (n : ℕ) → take {A = StoredRelayItem} n [] ≡ []
unfolding take
take_none zero = refl
take_none (suc n) = refl

filter_drop :
    (cursor : ℕ) (x : StoredRelayItem) (xs : List StoredRelayItem)
    → x.cursor ≤ cursor
    → filter (after cursor) (x ∷ xs) ≡ filter (after cursor) xs
unfolding filter
filter_drop cursor x xs h = ground arith

take_pages :
    (cursor m n low high : ℕ) (items : List StoredRelayItem)
    → cursor ≤ low
    → Ascending low high items
    → map shown (take (m + n) items) ≡ (
        map shown (take m items)
        ++ page_items (last_cursor cursor (map shown (take m items))) n items)
unfolding take last_cursor filter
take_pages cursor zero n low high items below a =
    let none_taken : 0 + n ≡ n = omega arith in
    rw (none_taken, filter_all cursor low high items below a) refl
take_pages cursor (suc m) n low high [] below a =
    let one_more : suc m + n ≡ suc (m + n) = omega arith in rw (one_more, take_none n) refl
take_pages cursor (suc m) n low high (x ∷ xs) below a =
    let one_more : suc m + n ≡ suc (m + n) = omega arith in
    let next = last_cursor x.cursor (map shown (take m xs)) in
    let passed = last_cursor_ge x.cursor m x.cursor high xs (omega arith) a.2 in
    rw (one_more, filter_drop next x xs passed)
      (ap (λ rest. shown x ∷ rest) (take_pages x.cursor m n x.cursor high xs (omega arith) a.2))

filter_twice :
    (low high : ℕ) (items : List StoredRelayItem)
    → low ≤ high
    → filter (after high) (filter (after low) items) ≡ filter (after high) items
unfolding filter
filter_twice low high [] h = refl
filter_twice low high (x ∷ xs) h = ground (arith, filter_twice low high xs h)

Ascending-after :
    (cursor low high : ℕ) (items : List StoredRelayItem)
    → Ascending low high items
    → Ascending cursor high (filter (after cursor) items)
unfolding filter
Ascending-after cursor low high [] a = tt
Ascending-after cursor low high (x ∷ xs) a = elim (Bool-cases (after cursor x)) [
  | inl kept ↦
      rw kept
        (ltb→lt cursor x.cursor kept, a.1, Ascending-filter (after cursor) x.cursor high xs a.2)
  | inr dropped ↦ rw dropped (Ascending-after cursor x.cursor high xs a.2)
]

-- Of an inbox whose cursors ascend, a page of m items and the page of n items that begins at its
-- next cursor are together the page of m + n items: reading on skips nothing and repeats nothing.
pub page-page :
    (low high cursor m n : ℕ) (stored : List StoredRelayItem)
    → Ascending low high stored
    → (page stored cursor (m + n)).items
      ≡ ((page stored cursor m).items ++ (page stored (page stored cursor m).next_cursor n).items)
unfolding page
page-page low high cursor m n stored a =
    let above = Ascending-after cursor low high stored a in
    let rest = filter (after cursor) stored in
    let reached = last_cursor_ge cursor m cursor high rest (omega arith) above in
    rw (sym (filter_twice cursor (last_cursor cursor (map shown (take m rest))) stored reached))
      (take_pages cursor m n cursor high rest (omega arith) above)
