-- ===== src/Relay/Inbox/Removal.antt =====
-- services/remote-relay/src/store.ts: what `acknowledge` removes and what it keeps.
use avity_os.Base.{
  ℕ, ◌-◌, ◌<◌, ◌≡◌, ◌≢◌, String, true, false, List, [], ◌∷◌, some, ltb, length, filter, lookup,
  insert, delete, or_else, string_eq, ◌===◌, Bool-cases, inl, inr, arith, refl, sym, All,
  lookup-insert_self, lookup-insert_ne, lookup-delete_self, lookup-delete_ne,
}
use avity_os.Relay.State.{StoredRelayItem, Relay, Inboxes, inbox_key, cleanup}
use avity_os.Relay.Publish.{items_at}
use avity_os.Relay.Publish.Ordered.{
  Ascending-filter, InboxAscending, IsOrdered, cleanup-IsOrdered, items_at-Ascending,
  insert-Ascending,
}
use avity_os.Relay.Inbox.{after, retain, acknowledge}

-- The two ways in which the Map is written.
pub retain-cases :
    (P : Inboxes → Type 0) (key : String) (through_cursor : ℕ) (m : Inboxes)
    → P (insert key (filter (after through_cursor) (or_else (lookup key m) [])) m)
    → (filter (after through_cursor) (or_else (lookup key m) []) ≡ [] → P (delete key m))
    → P (retain key through_cursor m)
unfolding retain
retain-cases P key through_cursor m kept dropped =
    elim (Bool-cases (ltb 0 (length (filter (after through_cursor) (or_else (lookup key m) []))))) [
      | inl some_left ↦ rw some_left kept
      | inr none_left ↦ rw none_left (dropped (no_items _ none_left))
    ]
  where
    no_items : (xs : List StoredRelayItem) → ltb 0 (length xs) ≡ false → xs ≡ []
    no_items [] h = refl
    no_items (x ∷ xs) h = ground arith

retain_self :
    (key : String) (through_cursor : ℕ) (m : Inboxes)
    → or_else (lookup key (retain key through_cursor m)) []
      ≡ filter (after through_cursor) (or_else (lookup key m) [])
retain_self key through_cursor m =
    retain-cases
      (λ m'. or_else (lookup key m') [] ≡ filter (after through_cursor) (or_else (lookup key m) []))
      key through_cursor m
      (rw (lookup-insert_self key (filter (after through_cursor) (or_else (lookup key m) [])) m)
        refl)
      (λ empty. rw (lookup-delete_self key m) (sym empty))

retain_other :
    (key other : String) (through_cursor : ℕ) (m : Inboxes)
    → key ≢ other
    → lookup other (retain key through_cursor m) ≡ lookup other m
retain_other key other through_cursor m differs =
    retain-cases (λ m'. lookup other m' ≡ lookup other m) key through_cursor m
      (lookup-insert_ne key other _ m differs) (λ _. lookup-delete_ne key other m differs)

-- An acknowledgement through a positive cursor keeps, of the inbox, exactly the unexpired envelopes
-- above that cursor; an inbox with another key changes only by what has expired; and the number
-- that is reported is that of the envelopes removed.
pub acknowledge_exact :
    (now : ℕ) (account_id device_id : String) (through_cursor : ℕ) (r : Relay) (other : String)
    → 0 < through_cursor
    → inbox_key account_id device_id ≢ other
    → (items_at
          (inbox_key account_id device_id)
          (acknowledge now account_id device_id through_cursor r).1
        ≡ filter (after through_cursor) (items_at (inbox_key account_id device_id) (cleanup now r)))
      × (lookup other (acknowledge now account_id device_id through_cursor r).1.inboxes
          ≡ lookup other (cleanup now r).inboxes)
      × ((acknowledge now account_id device_id through_cursor r).0
          ≡ some (
              length (items_at (inbox_key account_id device_id) (cleanup now r))
              - length (
                  items_at
                    (inbox_key account_id device_id)
                    (acknowledge now account_id device_id through_cursor r).1)))
unfolding acknowledge
acknowledge_exact now account_id device_id through_cursor r other positive differs =
    let key = inbox_key account_id device_id in
    let kept = retain_self key through_cursor (cleanup now r).inboxes in
    let above : ltb 0 through_cursor ≡ true = ground (arith, positive) in
    (
      kept,
      retain_other key other through_cursor (cleanup now r).inboxes differs,
      rw (above, kept) refl,
    )

pub delete-All :
    (P : String × List StoredRelayItem → Type 0) (key : String) (m : Inboxes)
    → All P m
    → All P (delete key m)
unfolding delete
delete-All P key [] h = tt
delete-All P key ((j, xs) ∷ m) h = elim (Bool-cases (j === key)) [
  | inl same ↦ rw same (delete-All P key m h.1)
  | inr other ↦ rw other (h.0, delete-All P key m h.1)
]

-- An acknowledgement keeps the cursors of every inbox ascending, and the last that was given out.
pub acknowledge-IsOrdered :
    (now : ℕ) (account_id device_id : String) (through_cursor : ℕ) (r : Relay)
    → IsOrdered r
    → IsOrdered (acknowledge now account_id device_id through_cursor r).1
unfolding acknowledge
acknowledge-IsOrdered now account_id device_id through_cursor r o =
    let key = inbox_key account_id device_id in
    let cleaned = cleanup-IsOrdered now r o in
    let m = (cleanup now r).inboxes in
    record {
      each_inbox =
          retain-cases (All (InboxAscending (cleanup now r).cursor_states)) key through_cursor m
            (insert-Ascending (cleanup now r).cursor_states (cleanup now r).cursor_states key _ m
              (λ _. omega arith)
              (Ascending-filter (after through_cursor) 0 _ _
                (items_at-Ascending _ key m cleaned.each_inbox))
              cleaned.each_inbox)
            (λ _. delete-All _ key m cleaned.each_inbox);
      safe_cursors = cleaned.safe_cursors;
    }
