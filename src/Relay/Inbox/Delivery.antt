-- ===== src/Relay/Inbox/Delivery.antt =====
-- services/remote-relay/src/store.ts: an envelope that `publish` accepts is what `list` shows next.
use avity_os.Base.{
  ℕ, suc, ◌+◌, ◌<◌, ◌≡◌, String, Bool, true, List, [], ◌∷◌, ◌++◌, some, leb, ltb, length, filter,
  take, lookup, insert, string_eq, ◌===◌, Bool-cases, inl, inr, arith, refl, sym, ap, subst,
  beq_self, length-append,
}
use avity_os.Relay.Limits.{Limits}
use avity_os.Relay.State.{
  RemoteEncryptedEnvelope, StoredRelayItem, Relay, Platform, Inboxes, inbox_key, unexpired,
  cleanup_inboxes, cleanup,
}
use avity_os.Relay.Publish.{items_at, cursor_at, stored, admit, publish}
use avity_os.Relay.Publish.Ordered.{
  Ascending, Ascending-filter, IsOrdered, cleanup-IsOrdered, items_at-Ascending,
}
use avity_os.Relay.Publish.Replay.{accepted, publish_cleaned-accepted}
use avity_os.Relay.Inbox.{RemoteRelayInbox, shown, after, last_cursor, page_items, page, list}
use avity_os.Relay.Inbox.Pages.{filter_none, take_none}

filter-append :
    (p : StoredRelayItem → Bool) (xs ys : List StoredRelayItem)
    → filter p (xs ++ ys) ≡ filter p xs ++ filter p ys
unfolding filter
filter-append p [] ys = refl
filter-append p (x ∷ xs) ys = ground (arith, filter-append p xs ys)

filter_last :
    (p : StoredRelayItem → Bool) (xs : List StoredRelayItem) (x : StoredRelayItem)
    → p x ≡ true
    → filter p (xs ++ x ∷ []) ≡ filter p xs ++ x ∷ []
unfolding filter
filter_last p xs x h = rw (filter-append p xs (x ∷ []), h) refl

not_empty : (xs : List StoredRelayItem) (x : StoredRelayItem) → ltb 0 (length (xs ++ x ∷ [])) ≡ true
not_empty xs x = ground (arith, length-append xs (x ∷ []))

-- The list that is inserted survives the cleanup while its last item does.
lookup-cleanup_head :
    (now : ℕ) (key : String) (xs : List StoredRelayItem) (x : StoredRelayItem) (m : Inboxes)
    → unexpired now x ≡ true
    → lookup key (cleanup_inboxes now ((key, xs ++ x ∷ []) ∷ m))
      ≡ some (filter (unexpired now) xs ++ x ∷ [])
unfolding lookup cleanup_inboxes
lookup-cleanup_head now key xs x m h =
    rw
      (
        filter_last (unexpired now) xs x h,
        not_empty (filter (unexpired now) xs) x,
        lookup,
        beq_self key,
      )
      refl

lookup-cleanup_insert :
    (now : ℕ) (key : String) (xs : List StoredRelayItem) (x : StoredRelayItem) (m : Inboxes)
    → unexpired now x ≡ true
    → lookup key (cleanup_inboxes now (insert key (xs ++ x ∷ []) m))
      ≡ some (filter (unexpired now) xs ++ x ∷ [])
unfolding lookup cleanup_inboxes insert
lookup-cleanup_insert now key xs x [] h = lookup-cleanup_head now key xs x [] h
lookup-cleanup_insert now key xs x ((j, ys) ∷ m) h = elim (Bool-cases (j === key)) [
  | inl same ↦ rw same (lookup-cleanup_head now key xs x m h)
  | inr other ↦ rw other (elim (Bool-cases (ltb 0 (length (filter (unexpired now) ys)))) [
    | inl kept ↦ rw (kept, lookup, other) (lookup-cleanup_insert now key xs x m h)
    | inr dropped ↦ rw dropped (lookup-cleanup_insert now key xs x m h)
  ])
]

-- The page after a cursor that is not below the older items has only the newest.
page_newest :
    (low cursor n : ℕ) (xs : List StoredRelayItem) (x : StoredRelayItem)
    → Ascending low cursor xs
    → cursor < x.cursor
    → page (xs ++ x ∷ []) cursor (suc n) ≡ record { items = shown x ∷ []; next_cursor = x.cursor }
unfolding page take last_cursor
page_newest low cursor n xs x a newer =
    let above : after cursor x ≡ true = ground (arith, newer) in
    rw (filter_last (after cursor) xs x above, filter_none low cursor xs a, take_none n) refl

list_lem :
    (now : ℕ) (account_id device_id : String) (cursor limit : ℕ) (r : Relay)
    (items : List StoredRelayItem) (result : RemoteRelayInbox)
    → lookup (inbox_key account_id device_id) (cleanup now r).inboxes ≡ some items
    → page items cursor limit ≡ result
    → leb (length result.items) 100 ≡ true
    → list now account_id device_id cursor limit r ≡ (some result, cleanup now r)
unfolding list page
list_lem now account_id device_id cursor limit r items result found shows short =
    let within : leb (length (page_items cursor limit items)) 100 ≡ true =
      subst (λ p. leb (length p.items) 100 ≡ true) (sym shows) short in
    rw (found, within, shows) refl

module _ (platform : Platform) (l : Limits) where
  -- While an accepted envelope has not expired, its recipient, listing from the cursor that was the
  -- last of its inbox before, finds exactly it, under the next cursor.
  pub publish-list :
      (now later n : ℕ) (e : RemoteEncryptedEnvelope) (r : Relay)
      → IsOrdered r
      → accepted (publish platform l now e r).0 ≡ true
      → later < now + l.ttl_ms
      → list later e.account_id e.recipient_device_id
          (cursor_at (inbox_key e.account_id e.recipient_device_id) r)
          (suc n)
          (publish platform l now e r).1
        ≡ (
          some (record {
            items =
                shown (stored platform l now r (inbox_key e.account_id e.recipient_device_id) e)
                ∷ [];
            next_cursor = cursor_at (inbox_key e.account_id e.recipient_device_id) r + 1;
          }),
          cleanup later (publish platform l now e r).1,
        )
  unfolding publish cleanup admit
  publish-list now later n e r o h early =
      let key = inbox_key e.account_id e.recipient_device_id in
      let cleaned = cleanup now r in
      let item = stored platform l now cleaned key e in
      let admitted = ap (λ o. o.1) (publish_cleaned-accepted platform l now e cleaned h) in
      let ordered = cleanup-IsOrdered now r o in
      let older = items_at-Ascending r.cursor_states key cleaned.inboxes ordered.each_inbox in
      let fresh : unexpired later item ≡ true = ground (arith, early) in
      list_lem later e.account_id e.recipient_device_id (cursor_at key r) (suc n) _
        (filter (unexpired later) (items_at key cleaned) ++ item ∷ []) _
        (rw admitted
          (lookup-cleanup_insert later key (items_at key cleaned) item cleaned.inboxes fresh))
        (page_newest 0 (cursor_at key r) n (filter (unexpired later) (items_at key cleaned)) item
          (Ascending-filter (unexpired later) 0 _ (items_at key cleaned) older) (omega arith))
        refl
