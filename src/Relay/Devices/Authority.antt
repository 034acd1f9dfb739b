-- ===== src/Relay/Devices/Authority.antt =====
-- services/remote-relay/src/store.ts: who may read an inbox, through registrations, renewals and
-- revocations.
use avity_os.Base.{
  ℕ, ◌≡◌, String, Bool, true, false, Option, none, some, ◌===◌, lookup, insert, is_some, nat_eq,
  string_eq, Bool-cases, Option-cases, inl, inr, refl, subst, lookup-insert_self, lookup-insert_ne,
  beq_true, beq_false,
}
use avity_os.Relay.State.{inbox_key}
use avity_os.Relay.Devices.{
  RemoteDeviceCertificate, AuthorizedDevice, Devices, Renewal, renewed, refused, unchanged,
  assert_certificate_renewal, key_of, authorize_device, renew, update_device_certificate,
}

-- What the store reads of a device when it authorises: the digest of its token, and whether it
-- is revoked.
unfoldable pub access : Option AuthorizedDevice → Option (String × Bool)
access none = none
access (some device) = some (device.token_hash, is_some device.revoked_at)

unfoldable pub grants : (digest : String) → Option (String × Bool) → Bool
grants digest none = false
grants digest (some (token_hash, true)) = false
grants digest (some (token_hash, false)) = digest === token_hash

module _ (sha256 : String → String) (to_iso : ℕ → String) (get_time : String → Option ℕ) where
  pub authorize_lem :
      (a d token : String) (devices : Devices)
      → authorize_device sha256 to_iso a d token devices
        ≡ grants (sha256 token) (access (lookup (inbox_key a d) devices))
  unfolding authorize_device access grants
  authorize_lem a d token devices = elim (Option-cases (lookup (inbox_key a d) devices)) [
    | inl missing ↦ rw (missing, authorize_device) refl
    | inr (device, found) ↦ elim (Bool-cases (is_some device.revoked_at)) [
      | inl revoked ↦ rw (found, authorize_device, revoked) refl
      | inr usable ↦ rw (found, authorize_device, usable) refl
    ]
  ]

  insert-access :
      (key other : String) (device existing : AuthorizedDevice) (devices : Devices)
      → lookup key devices ≡ some existing
      → access (some device) ≡ access (some existing)
      → access (lookup other (insert key device devices)) ≡ access (lookup other devices)
  insert-access key other device existing devices found same = elim (Bool-cases (key === other)) [
    | inl equal ↦
        subst (λ k. access (lookup k (insert key device devices)) ≡ access (lookup k devices))
          (beq_true equal) (rw (lookup-insert_self key device devices, found) same)
    | inr differs ↦ rw (lookup-insert_ne key other device devices (beq_false differs)) refl
  ]

  renew-access :
      (now : ℕ) (existing : AuthorizedDevice) (next : RemoteDeviceCertificate) (devices : Devices)
      (other : String) (v : Renewal)
      → lookup (key_of next) devices ≡ some existing
      → assert_certificate_renewal get_time existing.certificate next ≡ v
      → access (lookup other (renew get_time to_iso now existing next devices).1)
        ≡ access (lookup other devices)
  unfolding renew access
  renew-access now existing next devices other (refused error) found v = rw (v, renew) refl
  renew-access now existing next devices other unchanged found v = rw (v, renew) refl
  renew-access now existing next devices other renewed found v =
      rw (v, renew) (insert-access (key_of next) other _ existing devices found refl)

  pub update-access :
      (now : ℕ) (next : RemoteDeviceCertificate) (devices : Devices) (other : String)
      → access (lookup other (update_device_certificate get_time to_iso now next devices).1)
        ≡ access (lookup other devices)
  unfolding update_device_certificate
  update-access now next devices other = elim (Option-cases (lookup (key_of next) devices)) [
    | inl missing ↦ rw (missing, update_device_certificate) refl
    | inr (existing, found) ↦ elim (Bool-cases (is_some existing.revoked_at)) [
      | inl revoked ↦ rw (found, revoked, update_device_certificate) refl
      | inr usable ↦
          rw (found, usable, update_device_certificate)
            (renew-access now existing next devices other _ found refl)
    ]
  ]

  -- Renewing a certificate does not change which tokens authorise a device, whatever its outcome.
  pub update-authorize :
      (now : ℕ) (next : RemoteDeviceCertificate) (devices : Devices) (a d token : String)
      → authorize_device sha256 to_iso a d token
          (update_device_certificate get_time to_iso now next devices).1
        ≡ authorize_device sha256 to_iso a d token devices
  update-authorize now next devices a d token =
      rw
        (
          authorize_lem a d token (update_device_certificate get_time to_iso now next devices).1,
          authorize_lem a d token devices,
          update-access now next devices (inbox_key a d),
        )
        refl
