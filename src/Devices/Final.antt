-- ===== src/Devices/Final.antt =====
-- The revocation of a device is final.
use navis.Base.{
  String, ◌≡◌, ◌≢◌, refl, ap, Bool, true, false, not, List, Option, none, some, ◌==◌, string_eq,
  lookup, lookup-insert, is_present, if◌then◌else◌, eq_iff, arith, inl, inr, Bool-cases, All,
}
use navis.Devices.Store.{
  DeviceAuth, DeviceRecord, DeviceKeyRecord, empty_auth, revoke_in_store, revoke_found, revoke_row,
}
use navis.Devices.Flow.{
  AuthPlatform, revoke_device, authenticate_key, AuthenticateResult, authenticated, key_invalid,
  device_revoked, credential, check_parts, check_key, live_device, owned_by,
}
use navis.Devices.Revoked.{
  IsKeyed, IsRevoked, AuthCall, auth_calls, drawn_by, auth_calls-IsKeyed, auth_calls-IsRevoked,
  auth_call, auth_call-Moves, Moves-IsKeyed, call_revoke,
}

abbrev device_of : AuthenticateResult → Option String
device_of (authenticated p d) = some d
device_of key_invalid = none
device_of device_revoked = none

revoke_row-IsRevoked :
    (o : Option String) (d : String) (row : DeviceRecord) (reason : Option String) (now : String)
    (s : DeviceAuth)
    → row.revoked_at ≡ o
    → lookup d s.devices ≡ some row
    → IsRevoked d (revoke_row o row d reason now s).devices
revoke_row-IsRevoked (some at) d row reason now s e h = record {
  row = row;
  there = h;
  revoked = ap is_present e;
}
revoke_row-IsRevoked none d row reason now s e h = record {
  row = record row { revoked_at = some now; revoke_reason = reason };
  there = ground (
    arith,
    lookup-insert d d (record row { revoked_at = some now; revoke_reason = reason }) s.devices,
    eq_iff d d,
  );
  revoked = refl;
}

module _ (z : AuthPlatform) where
  owned-IsRevoked :
      (o : Option DeviceRecord) (d actor : String) (reason : Option String) (now : String)
      (s : DeviceAuth)
      → lookup d s.devices ≡ o
      → owned_by z actor o ≡ true
      → IsRevoked d (revoke_found o d reason now s).devices
  owned-IsRevoked none d actor reason now s e h = absurd (ground (arith, h))
  owned-IsRevoked (some row) d actor reason now s e h =
      revoke_row-IsRevoked row.revoked_at d row reason now s refl e

  revoke_device-IsRevoked :
      (d : String) (reason : Option String) (actor now : String) (s : DeviceAuth)
      → (revoke_device z d reason actor now s).0 ≡ true
      → IsRevoked d (revoke_device z d reason actor now s).1.devices
  unfolding revoke_device revoke_in_store
  revoke_device-IsRevoked d reason actor now s h =
      by_owner (owned_by z actor (lookup d s.devices)) refl h
    where
      by_owner :
          (b : Bool)
          → owned_by z actor (lookup d s.devices) ≡ b
          → (if◌then◌else◌ {A = Bool × DeviceAuth} b
              (true, revoke_in_store d reason now s)
              (false, s)).0
            ≡ true
          → IsRevoked d
              (if◌then◌else◌ {A = Bool × DeviceAuth} b
                (true, revoke_in_store d reason now s)
                (false, s)).1.devices
      by_owner true e g = owned-IsRevoked (lookup d s.devices) d actor reason now s refl e
      by_owner false e g = absurd (ground (arith, g))

  live_device-refused :
      (d k now : String) (s : DeviceAuth)
      → IsKeyed s.devices
      → IsRevoked d s.devices
      → (o : Option DeviceRecord) → lookup k s.devices ≡ o
      → device_of (live_device z o now s).0 ≢ some d
  live_device-refused d k now s keyed g none e h = ground (arith, h)
  live_device-refused d k now s keyed g (some r) e h = elim (Bool-cases (is_present r.revoked_at)) [
    | inl gone ↦ ground (arith, h, gone)
    | inr live ↦ ground (
      arith,
      live,
      g.revoked,
      ap (λ (x : DeviceRecord). is_present x.revoked_at) (same (ground (arith, h, live))),
    )
  ]
    where
      same : r.id ≡ d → g.row ≡ r
      same q = ground (arith, g.there, e, keyed k r e, q)

  if-refused :
      (d : String) (b : Bool) (x y : AuthenticateResult × DeviceAuth)
      → device_of x.0 ≢ some d
      → device_of y.0 ≢ some d
      → device_of (if b then x else y).0 ≢ some d
  if-refused d true x y f g = f
  if-refused d false x y f g = g

  check_key-refused :
      (d secret now : String) (s : DeviceAuth)
      → IsKeyed s.devices
      → IsRevoked d s.devices
      → (o : Option DeviceKeyRecord) → device_of (check_key z o secret now s).0 ≢ some d
  check_key-refused d secret now s keyed g none = λ h. ground (arith, h)
  check_key-refused d secret now s keyed g (some k) =
      if-refused d (not (k.verifier == z.sha256_hex secret)) _ _ (λ h. ground (arith, h))
        (if-refused d (is_present k.revoked_at) _ _ (λ h. ground (arith, h))
          (live_device-refused d k.device_id now s keyed g (lookup k.device_id s.devices) refl))

  check_parts-refused :
      (d now : String) (s : DeviceAuth)
      → IsKeyed s.devices
      → IsRevoked d s.devices
      → (o : Option (String × String)) → device_of (check_parts z o now s).0 ≢ some d
  check_parts-refused d now s keyed g none = λ h. ground (arith, h)
  check_parts-refused d now s keyed g (some (k, secret)) =
      check_key-refused d secret now s keyed g (lookup k s.keys)

  empty-IsKeyed : IsKeyed empty_auth.devices
  unfolding lookup
  empty-IsKeyed k r h = ground (arith, h)

  -- Once a device of a store that calls built from the empty one is revoked, no header authenticates it, whichever calls come later, unless one of them draws its identifier again.
  pub revoke_device-final :
      (earlier later : List AuthCall) (d : String) (reason : Option String) (actor now : String)
      → (revoke_device z d reason actor now (auth_calls z earlier empty_auth)).0 ≡ true
      → All (λ c. drawn_by c ≢ some d) later
      → (header at p : String)
      → (authenticate_key z header at (
          auth_calls z later
            (revoke_device z d reason actor now (auth_calls z earlier empty_auth)).1)).0
        ≢ authenticated p d
  unfolding auth_call authenticate_key
  revoke_device-final earlier later d reason actor now done fresh header at p h =
      check_parts-refused d at last (auth_calls-IsKeyed z later revoked revoked-IsKeyed)
        (auth_calls-IsRevoked z d later revoked revoked-IsKeyed fresh
          (revoke_device-IsRevoked d reason actor now before done))
        (credential header) (ap device_of h)
    where
      before : DeviceAuth
      before = auth_calls z earlier empty_auth

      revoked : DeviceAuth
      revoked = (revoke_device z d reason actor now before).1

      last : DeviceAuth
      last = auth_calls z later revoked

      revoked-IsKeyed : IsKeyed revoked.devices
      revoked-IsKeyed =
          Moves-IsKeyed (auth_call-Moves z (call_revoke d reason actor now) before before-IsKeyed)
            before-IsKeyed
        where
          before-IsKeyed : IsKeyed before.devices
          before-IsKeyed = auth_calls-IsKeyed z earlier empty_auth empty-IsKeyed
