-- ===== src/Relay/Publish/Replay.antt =====
-- services/remote-relay/src/store.ts: what an accepted envelope leads to. Its message identifier is
-- bound to it, and its recipient finds it, until it expires.
use avity_os.Base.{
  ℕ, ◌+◌, ◌<◌, ◌≡◌, String, Bool, true, false, not, List, [], ◌∷◌, some, if◌then◌else◌, lookup,
  insert, string_eq, Bool-cases, Option-cases, inl, inr, arith, ◌===◌, ap, refl, beq_self,
}
use avity_os.Relay.Limits.{Limits}
use avity_os.Relay.State.{
  RemoteEncryptedEnvelope, SeenMessage, Relay, Platform, inbox_key, cleanup_seen, cleanup,
}
use avity_os.Relay.Publish.{
  PublishOutcome, published, conflict_error, admit, refusal, publish_cleaned, publish,
}

-- The call has put the envelope into its inbox.
abbrev pub accepted : PublishOutcome → Bool
accepted (published _ _ duplicate) = not duplicate
accepted _ = false

lookup-cleanup_seen-insert :
    (now : ℕ) (id : String) (seen : SeenMessage) (m : List (String × SeenMessage))
    → now < seen.expires_at
    → lookup id (cleanup_seen now (insert id seen m)) ≡ some seen
unfolding lookup cleanup_seen insert
lookup-cleanup_seen-insert now id seen [] h = ground (arith, beq_self id)
lookup-cleanup_seen-insert now id seen ((j, old) ∷ m) h = elim (Bool-cases (j === id)) [
  | inl same ↦ ground (arith, beq_self id)
  | inr other ↦ ground (arith, lookup-cleanup_seen-insert now id seen m h)
]

module _ (platform : Platform) (l : Limits) where
  pub publish_cleaned-accepted :
      (now : ℕ) (e : RemoteEncryptedEnvelope) (r : Relay)
      → accepted (publish_cleaned platform l now e r).0 ≡ true
      → publish_cleaned platform l now e r ≡ (
        published e.message_id (platform.to_iso now) false,
        admit platform l now r (inbox_key e.account_id e.recipient_device_id) e,
      )
  unfolding publish_cleaned
  publish_cleaned-accepted now e r h =
      let key = inbox_key e.account_id e.recipient_device_id in
      let size = platform.byte_length (platform.serialize e) in
      elim (Option-cases (lookup e.message_id r.seen_messages)) [
        | inr (seen, known) ↦ ground (arith, h, known)
        | inl new ↦ elim (Option-cases (refusal l r key size)) [
          | inl room ↦ ground (arith, h, new, room)
          | inr (full, refused) ↦ ground (arith, h, new, refused)
        ]
      ]

  abbrev binding : ℕ → RemoteEncryptedEnvelope → SeenMessage
  binding now e = record {
    fingerprint = platform.sha256 (platform.serialize e);
    accepted_at = platform.to_iso now;
    expires_at = now + l.ttl_ms;
  }

  publish_known :
      (now : ℕ) (e : RemoteEncryptedEnvelope) (r : Relay) (seen : SeenMessage)
      → lookup e.message_id (cleanup_seen now r.seen_messages) ≡ some seen
      → publish platform l now e r ≡ (
        if seen.fingerprint === platform.sha256 (platform.serialize e)
            then published e.message_id seen.accepted_at true
            else conflict_error,
        cleanup now r,
      )
  unfolding publish publish_cleaned cleanup
  publish_known now e r seen known =
      rw (known, publish_cleaned)
        (elim (Bool-cases (seen.fingerprint === platform.sha256 (platform.serialize e))) [
          | inl agree ↦ rw agree refl
          | inr differ ↦ rw differ refl
        ])

  -- Until it expires, an accepted message identifier is bound to its envelope: publishing an
  -- envelope with the same identifier reports a duplicate, with the time of the first acceptance,
  -- when the digests agree and a conflict when they do not. Either way nothing is queued.
  pub publish_again :
      (now later : ℕ) (e again : RemoteEncryptedEnvelope) (r : Relay)
      → accepted (publish platform l now e r).0 ≡ true
      → later < now + l.ttl_ms
      → again.message_id ≡ e.message_id
      → publish platform l later again (publish platform l now e r).1 ≡ (
        if platform.sha256 (platform.serialize e) === platform.sha256 (platform.serialize again)
            then published again.message_id (platform.to_iso now) true
            else conflict_error,
        cleanup later (publish platform l now e r).1,
      )
  unfolding publish cleanup admit
  publish_again now later e again r h early same =
      let admitted = ap (λ o. o.1) (publish_cleaned-accepted now e (cleanup now r) h) in
      (publish_known later again (publish platform l now e r).1 (binding now e) (
        rw (same, admitted)
          (lookup-cleanup_seen-insert later e.message_id (binding now e)
            (cleanup now r).seen_messages early)))
