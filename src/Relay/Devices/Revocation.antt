-- ===== src/Relay/Devices/Revocation.antt =====
-- services/remote-relay/src/store.ts: a revoked device stays out until it is registered again.
use avity_os.Base.{
  ℕ, ◌≡◌, String, Bool, true, false, not, List, [], ◌∷◌, Option, none, some, ◌===◌, lookup, all,
  string_eq, Bool-cases, Option-cases, inl, inr, arith, refl, lookup-insert, subst, ◌≢◌,
  if◌then◌else◌, lookup-insert_self, lookup-insert_ne, beq_true, beq_false, &&_split,
}
use avity_os.Relay.State.{inbox_key}
use avity_os.Relay.Devices.{
  RemoteDeviceCertificate, Devices, key_of, register_device, revoke_device, authorize_device,
  update_device_certificate,
}
use avity_os.Relay.Devices.Authority.{access, grants, authorize_lem, update-access}

-- The calls that write the Map of the devices.
pub data DeviceCall : Type 0 where
  register : (now : ℕ) → RemoteDeviceCertificate → (access_token : String) → DeviceCall
  update : (now : ℕ) → RemoteDeviceCertificate → DeviceCall
  revoke : (now : ℕ) → (account_id device_id : String) → DeviceCall

-- The call does not register the device under this key.
unfoldable pub leaves_out : (key : String) → DeviceCall → Bool
leaves_out key (register _ c _) = not (key_of c === key)
leaves_out key _ = true

shut_out : Option (String × Bool) → Bool
shut_out none = true
shut_out (some (_, revoked)) = revoked

shut_out-grants :
    (digest : String) (o : Option (String × Bool)) → shut_out o ≡ true → grants digest o ≡ false
unfolding shut_out grants
shut_out-grants digest none h = refl
shut_out-grants digest (some (token_hash, true)) h = refl
shut_out-grants digest (some (token_hash, false)) h = ground arith

module _ (sha256 : String → String) (to_iso : ℕ → String) (get_time : String → Option ℕ) where
  unfoldable pub make_call : DeviceCall → Devices → Devices
  unfolding register_device update_device_certificate revoke_device
  make_call (register now c token) devices = (register_device sha256 to_iso now c token devices).1
  make_call (update now c) devices = (update_device_certificate get_time to_iso now c devices).1
  make_call (revoke now a d) devices = (revoke_device sha256 to_iso now a d devices).1

  unfoldable pub make_calls : List DeviceCall → Devices → Devices
  unfolding make_call
  make_calls [] devices = devices
  make_calls (c ∷ calls) devices = make_calls calls (make_call c devices)

  revoke-shut_out :
      (now : ℕ) (a d : String) (devices : Devices)
      → shut_out (access (lookup (inbox_key a d) (revoke_device sha256 to_iso now a d devices).1))
        ≡ true
  unfolding revoke_device shut_out access
  revoke-shut_out now a d devices = elim (Option-cases (lookup (inbox_key a d) devices)) [
    | inl missing ↦ rw (missing, revoke_device, missing) refl
    | inr (existing, found) ↦
        rw (found, revoke_device, lookup-insert_self (inbox_key a d) _ devices) refl
  ]

  revoke_other-shut_out :
      (now : ℕ) (a d other : String) (devices : Devices)
      → inbox_key a d ≢ other
      → lookup other (revoke_device sha256 to_iso now a d devices).1 ≡ lookup other devices
  unfolding revoke_device
  revoke_other-shut_out now a d other devices differs =
      elim (Option-cases (lookup (inbox_key a d) devices)) [
        | inl missing ↦ rw (missing, revoke_device) refl
        | inr (existing, found) ↦
            rw (found, revoke_device) (lookup-insert_ne (inbox_key a d) other _ devices differs)
      ]

  call-shut_out :
      (key : String) (c : DeviceCall) (devices : Devices)
      → leaves_out key c ≡ true
      → shut_out (access (lookup key devices)) ≡ true
      → shut_out (access (lookup key (make_call c devices))) ≡ true
  unfolding make_call leaves_out
  call-shut_out key (register now c token) devices elsewhere out =
      let differs : (key_of c === key) ≡ false = ground (arith, elsewhere) in
      rw (lookup-insert_ne (key_of c) key _ devices (beq_false differs)) out
  call-shut_out key (update now c) devices elsewhere out =
      rw (update-access sha256 to_iso get_time now c devices key) out
  call-shut_out key (revoke now a d) devices elsewhere out =
      elim (Bool-cases (inbox_key a d === key)) [
        | inl same ↦
            subst
              (λ k.
                shut_out (access (lookup k (revoke_device sha256 to_iso now a d devices).1)) ≡ true)
              (beq_true same) (revoke-shut_out now a d devices)
        | inr differs ↦ rw (revoke_other-shut_out now a d key devices (beq_false differs)) out
      ]

  calls-shut_out :
      (key : String) (calls : List DeviceCall) (devices : Devices)
      → all (leaves_out key) calls ≡ true
      → shut_out (access (lookup key devices)) ≡ true
      → shut_out (access (lookup key (make_calls calls devices))) ≡ true
  unfolding make_calls all
  calls-shut_out key [] devices elsewhere out = out
  calls-shut_out key (c ∷ calls) devices elsewhere out =
      let (first, rest) = &&_split (leaves_out key c) (all (leaves_out key) calls) elsewhere in
      calls-shut_out key calls (make_call c devices) rest (call-shut_out key c devices first out)

  -- After a revocation no token authorises the device, through any sequence of renewals,
  -- revocations and registrations of devices with another key.
  pub revocation_lasts :
      (now : ℕ) (a d token : String) (calls : List DeviceCall) (devices : Devices)
      → all (leaves_out (inbox_key a d)) calls ≡ true
      → authorize_device sha256 to_iso a d token
          (make_calls calls (revoke_device sha256 to_iso now a d devices).1)
        ≡ false
  revocation_lasts now a d token calls devices elsewhere =
      let after = make_calls calls (revoke_device sha256 to_iso now a d devices).1 in
      rw (authorize_lem sha256 to_iso get_time a d token after) (
        shut_out-grants _ _
          (calls-shut_out (inbox_key a d) calls _ elsewhere (revoke-shut_out now a d devices)))

  -- Registering a device makes exactly the tokens with the digest of the registered one authorise
  -- it, and changes the authority over no inbox with another key.
  pub register-authorize :
      (now : ℕ) (c : RemoteDeviceCertificate) (access_token a d token : String) (devices : Devices)
      → authorize_device sha256 to_iso a d token
          (register_device sha256 to_iso now c access_token devices).1
        ≡ (if key_of c === inbox_key a d
            then sha256 token === sha256 access_token
            else authorize_device sha256 to_iso a d token devices)
  unfolding register_device authorize_device
  register-authorize now c access_token a d token devices =
      elim (Bool-cases (key_of c === inbox_key a d)) [
        | inl same ↦
            rw (authorize_device, lookup-insert (key_of c) (inbox_key a d) _ devices, same) refl
        | inr differs ↦
            rw (authorize_device, lookup-insert (key_of c) (inbox_key a d) _ devices, differs) refl
      ]
