-- ===== src/Examples/Access.antt =====
-- The devices of services/remote-relay/src/store.ts at concrete certificates and tokens.
use avity_os.Base.{
  Option, none, some, ℕ, ◌≡◌, refl, String, [], ◌∷◌, all, false, if◌then◌else◌, ◌===◌, string_eq,
}
use avity_os.Relay.Devices.{
  RemoteDeviceCertificate, Devices, register_device, revoke_device, authorize_device,
  update_device_certificate,
}
use avity_os.Relay.Devices.Authority.{update-authorize}
use avity_os.Relay.Devices.Revocation.{register, update, make_calls, leaves_out, revocation_lasts}

abbrev certificate : (device_id issued_at valid_until : String) → RemoteDeviceCertificate
certificate device_id issued_at valid_until = record {
  protocol_version = 1;
  account_id = "acct";
  device_id = device_id;
  name = "Phone";
  signing_public_key = "signing";
  agreement_public_key = "agreement";
  issued_at = issued_at;
  valid_until = valid_until;
  signature = "signature";
}

-- Times that compare as the three texts used here do; any other text is no date.
abbrev time_of : String → Option ℕ
time_of text =
    if text === "2026"
    then some 1
    else if text === "2027"
    then some 2
    else if text === "2028"
    then some 3
    else none

abbrev digest : String → String
digest text = text

abbrev iso : ℕ → String
iso _ = "2026-01-01T00:00:01.000Z"

abbrev first : RemoteDeviceCertificate
first = certificate "phone" "2026" "2027"

abbrev second : RemoteDeviceCertificate
second = certificate "phone" "2027" "2028"

abbrev devices : Devices
devices = (register_device digest iso 1000 first "secret" []).1

update-authorize_example :
    authorize_device digest iso "acct" "phone" "secret"
      (update_device_certificate time_of iso 2000 second devices).1
    ≡ authorize_device digest iso "acct" "phone" "secret" devices
update-authorize_example =
    update-authorize digest iso time_of 2000 second devices "acct" "phone" "secret"

revocation_lasts_example :
    authorize_device digest iso "acct" "phone" "secret" (
      make_calls digest iso time_of
        (update 3000 second ∷ register 3000 (certificate "tablet" "2026" "2027") "secret" ∷ [])
        (revoke_device digest iso 2000 "acct" "phone" devices).1)
    ≡ false
unfolding leaves_out all
revocation_lasts_example =
    revocation_lasts digest iso time_of 2000 "acct" "phone" "secret"
      (update 3000 second ∷ register 3000 (certificate "tablet" "2026" "2027") "secret" ∷ [])
      devices refl
