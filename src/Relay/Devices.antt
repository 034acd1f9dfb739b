-- ===== src/Relay/Devices.antt =====
-- services/remote-relay/src/store.ts: the devices that may read an inbox. The state is the Map of
-- the authorised devices, which no other operation of the store reads or writes.
pub mod Authority
pub mod Revocation
use avity_os.Base.{
  ℕ, String, Bool, true, false, not, ◌&&◌, ◌||◌, List, Option, none, some, ◌===◌, if◌then◌else◌,
  leb, lookup, insert, is_some, nat_eq, string_eq,
}
use avity_os.Relay.State.{inbox_key}

pub record RemoteDeviceCertificate : Type 0 where
  pub protocol_version : ℕ
  pub account_id : String
  pub device_id : String
  pub name : String
  pub signing_public_key : String
  pub agreement_public_key : String
  pub issued_at : String
  pub valid_until : String
  pub signature : String

-- The certificate is stored as its JSON text, which is parsed again where it is read: here it is
-- the certificate itself.
pub record AuthorizedDevice : Type 0 where
  pub token_hash : String
  pub certificate : RemoteDeviceCertificate
  pub updated_at : String
  pub revoked_at : Option String

abbrev pub Devices : Type 0
Devices = List (String × AuthorizedDevice)

pub data DeviceStatus : Type 0 where
  active revoked : DeviceStatus

pub record RemoteRelayDeviceRecord : Type 0 where
  pub account_id : String
  pub device_id : String
  pub status : DeviceStatus
  pub updated_at : String

pub data RenewalError : Type 0 where
  identity_changed validity_not_extended certificate_revoked : RenewalError

pub data Renewal : Type 0 where
  unchanged renewed : Renewal
  refused : RenewalError → Renewal

-- `JSON.stringify(previous) === JSON.stringify(next)`: the texts list the same fields in the
-- same order, so they agree when the fields do.
unfoldable pub same_certificate : (previous next : RemoteDeviceCertificate) → Bool
same_certificate p n =
    p.protocol_version === n.protocol_version
    && p.account_id === n.account_id
    && p.device_id === n.device_id
    && p.name === n.name
    && p.signing_public_key === n.signing_public_key
    && p.agreement_public_key === n.agreement_public_key
    && p.issued_at === n.issued_at
    && p.valid_until === n.valid_until
    && p.signature === n.signature

unfoldable pub changes_identity : (previous next : RemoteDeviceCertificate) → Bool
changes_identity p n =
    not (p.account_id === n.account_id)
    || not (p.device_id === n.device_id)
    || not (p.name === n.name)
    || not (p.signing_public_key === n.signing_public_key)
    || not (p.agreement_public_key === n.agreement_public_key)

-- `a <= b` on two times. NaN, the time of an invalid date, is `none`: a comparison with it is false.
-- Times are counted from the year 0, the first that the format of a date has.
abbrev pub time_leb : Option ℕ → Option ℕ → Bool
time_leb (some a) (some b) = leb a b
time_leb _ _ = false

-- `new Date(text).getTime()`, the SHA-256 digest and `Date.prototype.toISOString` are the
-- platform's.
module _ (get_time : String → Option ℕ) where
  unfoldable pub assert_certificate_renewal : (previous next : RemoteDeviceCertificate) → Renewal
  unfolding same_certificate changes_identity
  assert_certificate_renewal p n =
      if same_certificate p n
      then unchanged
      else if changes_identity p n
      then refused identity_changed
      else if time_leb (get_time n.issued_at) (get_time p.issued_at)
          || time_leb (get_time n.valid_until) (get_time p.valid_until)
      then refused validity_not_extended
      else renewed

abbrev pub key_of : RemoteDeviceCertificate → String
key_of c = inbox_key c.account_id c.device_id

module _ (sha256 : String → String) (to_iso : ℕ → String) where
  unfoldable pub register_device :
      (now : ℕ)
      → RemoteDeviceCertificate
      → (access_token : String) → Devices
      → RemoteRelayDeviceRecord × Devices
  unfolding insert
  register_device now certificate access_token devices = (
    record {
      account_id = certificate.account_id;
      device_id = certificate.device_id;
      status = active;
      updated_at = to_iso now;
    },
    insert (key_of certificate)
        (record {
          token_hash = sha256 access_token;
          certificate = certificate;
          updated_at = to_iso now;
          revoked_at = none;
        })
        devices,
  )

  unfoldable pub revoke_device :
      (now : ℕ)
      → (account_id device_id : String) → Devices
      → Option RemoteRelayDeviceRecord × Devices
  unfolding lookup insert
  revoke_device now account_id device_id devices =
      elim (lookup (inbox_key account_id device_id) devices) [
        | none ↦ (none, devices)
        | some existing ↦ (
          some (record {
            account_id = account_id;
            device_id = device_id;
            status = revoked;
            updated_at = to_iso now;
          }),
          insert (inbox_key account_id device_id)
              (record {
                token_hash = existing.token_hash;
                certificate = existing.certificate;
                updated_at = to_iso now;
                revoked_at = some (to_iso now);
              })
              devices,
        )
      ]

  -- `!device || device.revokedAt`, and the digests compared.
  unfoldable pub authorize_device : (account_id device_id access_token : String) → Devices → Bool
  unfolding lookup
  authorize_device account_id device_id access_token devices =
      elim (lookup (inbox_key account_id device_id) devices) [
        | none ↦ false
        | some device ↦
            if is_some device.revoked_at then false else sha256 access_token === device.token_hash
      ]

unfoldable pub is_device_active : (account_id device_id : String) → Devices → Bool
unfolding lookup
is_device_active account_id device_id devices =
    elim (lookup (inbox_key account_id device_id) devices) [
      | none ↦ false
      | some device ↦ not (is_some device.revoked_at)
    ]

pub data UpdateOutcome : Type 0 where
  unknown_device : UpdateOutcome
  update_refused : RenewalError → UpdateOutcome
  updated : RemoteRelayDeviceRecord → UpdateOutcome

abbrev active_record : RemoteDeviceCertificate → String → RemoteRelayDeviceRecord
active_record c updated_at = record {
  account_id = c.account_id;
  device_id = c.device_id;
  status = active;
  updated_at = updated_at;
}

module _ (get_time : String → Option ℕ) (to_iso : ℕ → String) where
  unfoldable pub renew :
      (now : ℕ)
      → (existing : AuthorizedDevice) → RemoteDeviceCertificate
      → Devices
      → UpdateOutcome × Devices
  unfolding insert assert_certificate_renewal
  renew now existing next devices =
      elim (assert_certificate_renewal get_time existing.certificate next) [
        | refused error ↦ (update_refused error, devices)
        | unchanged ↦ (updated (active_record next existing.updated_at), devices)
        | renewed ↦ (
          updated (active_record next (to_iso now)),
          insert (key_of next)
              (record {
                token_hash = existing.token_hash;
                certificate = next;
                updated_at = to_iso now;
                revoked_at = existing.revoked_at;
              })
              devices,
        )
      ]

  unfoldable pub update_device_certificate :
      (now : ℕ) → RemoteDeviceCertificate → Devices → UpdateOutcome × Devices
  unfolding lookup renew
  update_device_certificate now next devices = elim (lookup (key_of next) devices) [
    | none ↦ (unknown_device, devices)
    | some existing ↦
        if is_some existing.revoked_at
        then (update_refused certificate_revoked, devices)
        else renew now existing next devices
  ]
