-- ===== src/Devices/Revoked.antt =====
-- A device that is revoked stays revoked, and none of its keys authenticates it.
use navis.Base.{
  String, ◌≡◌, ◌≢◌, refl, sym, subst, ◌∙◌, ap, Bool, true, false, not, ◌||◌, List, [], ◌∷◌, Option,
  none, some, ◌==◌, string_eq, Dict, lookup, insert, lookup-insert, is_present, if◌then◌else◌,
  eq_iff, arith, inl, inr, Bool-cases, All,
}
use navis.Devices.Store.{
  DeviceAuth, DeviceRecord, DeviceKeyRecord, DeviceSessionRecord, change, authorize_device_code,
  DeviceCodeRecord, DeviceCodeStatus, pending, authorized, denied, expired, put_device_code,
  consume_device_code, put_device_session, consume_device_session, put_device, create_key,
  revoke_in_store, touch_device_last_seen, revoke_found, revoke_row,
}
use navis.Devices.Flow.{
  AuthPlatform, SessionTokens, Drawn, request_device_flow, poll_device_token, register_device,
  revoke_device, authenticate_key, credential, check_parts, check_key, live_device,
  register_session, owned_by, poll_found, poll_status, spend_code, open_session, put_until, at_most,
}

-- The row of a key carries the key.
abbrev pub IsKeyed : Dict DeviceRecord → Type 0
IsKeyed devices = (k : String) (r : DeviceRecord) → lookup k devices ≡ some r → r.id ≡ k

-- The device is registered and revoked.
pub record IsRevoked (d : String) (devices : Dict DeviceRecord) : Type 0 where
  pub row : DeviceRecord
  pub there : lookup d devices ≡ some row
  pub revoked : is_present row.revoked_at ≡ true

-- What a call does to the devices: nothing, a device under an identifier that it drew, or a new row
-- for a device, which is revoked where the old one was.
pub data Moves (drawn : Option String) (devices : Dict DeviceRecord)
    : Dict DeviceRecord → Type 0 where
  stays : Moves drawn devices devices
  adds :
      (k : String) (r : DeviceRecord)
      → drawn ≡ some k
      → r.id ≡ k
      → Moves drawn devices (insert k r devices)
  sets :
      (k : String) (old r : DeviceRecord)
      → lookup k devices ≡ some old
      → r.id ≡ k
      → (is_present old.revoked_at ≡ true → is_present r.revoked_at ≡ true)
      → Moves drawn devices (insert k r devices)

insert-IsKeyed :
    (k : String) (r : DeviceRecord) (devices : Dict DeviceRecord)
    → IsKeyed devices
    → r.id ≡ k
    → IsKeyed (insert k r devices)
insert-IsKeyed k r devices keyed e j row h =
    ground (arith, lookup-insert k j r devices, eq_iff k j, keyed j row, e, h)

pub Moves-IsKeyed :
    {drawn : Option String} {devices devices' : Dict DeviceRecord}
    → Moves drawn devices devices'
    → IsKeyed devices
    → IsKeyed devices'
Moves-IsKeyed stays keyed = keyed
Moves-IsKeyed (adds k r q e) keyed = insert-IsKeyed k r _ keyed e
Moves-IsKeyed (sets k old r q e f) keyed = insert-IsKeyed k r _ keyed e

insert-IsRevoked :
    (d k : String) (r : DeviceRecord) (devices : Dict DeviceRecord)
    → IsRevoked d devices
    → ((k == d) ≡ true → is_present r.revoked_at ≡ true)
    → IsRevoked d (insert k r devices)
insert-IsRevoked d k r devices g f = elim (Bool-cases (k == d)) [
  | inl e ↦ record {
    row = r;
    there = ground (arith, lookup-insert k d r devices, e);
    revoked = f e;
  }
  | inr e ↦ record {
    row = g.row;
    there = ground (arith, lookup-insert k d r devices, e, g.there);
    revoked = g.revoked;
  }
]

Moves-IsRevoked :
    (d : String) {drawn : Option String} {devices devices' : Dict DeviceRecord}
    → Moves drawn devices devices'
    → drawn ≢ some d
    → IsRevoked d devices
    → IsRevoked d devices'
Moves-IsRevoked d stays n g = g
Moves-IsRevoked d (adds k r q e) n g =
    insert-IsRevoked d k r _ g (λ same. absurd (n (q ∙ ap some ((eq_iff k d).0 same))))
Moves-IsRevoked d {devices = devices} (sets k old r q e f) n g = insert-IsRevoked d k r _ g (λ same.
    f (
      subst (λ (x : DeviceRecord). is_present x.revoked_at ≡ true)
        (some-injective (sym g.there ∙ ap (λ j. lookup j devices) (sym ((eq_iff k d).0 same)) ∙ q))
        g.revoked))
  where
    some-injective : {a b : DeviceRecord} → some a ≡ some b → a ≡ b
    some-injective h = cc

-- the calls that write
pub data AuthCall : Type 0 where
  call_request : (code user uri now : String) → AuthCall
  call_authorize : (code participant : String) (allowed : Bool) → AuthCall
  call_poll : (code : String) → SessionTokens → (now : String) → AuthCall
  call_register : (token name : String) → Drawn → (now : String) → AuthCall
  call_revoke : (device_id : String) (reason : Option String) (actor now : String) → AuthCall
  call_authenticate : (header now : String) → AuthCall

module _ (z : AuthPlatform) where
  unfoldable pub auth_call : AuthCall → DeviceAuth → DeviceAuth
  auth_call (call_request code user uri now) s = request_device_flow z code user uri now s
  auth_call (call_authorize code participant allowed) s =
      authorize_device_code code participant allowed s
  auth_call (call_poll code t now) s = (poll_device_token z code t now s).1
  auth_call (call_register token name n now) s = (register_device z token name n now s).1
  auth_call (call_revoke d reason actor now) s = (revoke_device z d reason actor now s).1
  auth_call (call_authenticate header now) s = (authenticate_key z header now s).1

  unfoldable pub auth_calls : List AuthCall → DeviceAuth → DeviceAuth
  unfolding auth_call
  auth_calls [] s = s
  auth_calls (c ∷ cs) s = auth_calls cs (auth_call c s)

-- the identifier that a call draws for a device
abbrev pub drawn_by : AuthCall → Option String
drawn_by (call_register token name n now) = some n.device_id
drawn_by _ = none

touch-Moves :
    (drawn : Option String) (id now : String) (devices : Dict DeviceRecord)
    → IsKeyed devices
    → (o : Option DeviceRecord) → lookup id devices ≡ o
    → Moves drawn devices (change id (λ d. record d { last_seen_at = some now }) o devices)
touch-Moves drawn id now devices keyed none e = stays
touch-Moves drawn id now devices keyed (some d) e = sets id d _ e (keyed id d e) (λ h. h)

revoke_found-Moves :
    (drawn : Option String) (id : String) (reason : Option String) (now : String) (s : DeviceAuth)
    → IsKeyed s.devices
    → (o : Option DeviceRecord) → lookup id s.devices ≡ o
    → Moves drawn s.devices (revoke_found o id reason now s).devices
revoke_found-Moves drawn id reason now s keyed none e = stays
revoke_found-Moves drawn id reason now s keyed (some d) e = by_row d.revoked_at
  where
    by_row : (o : Option String) → Moves drawn s.devices (revoke_row o d id reason now s).devices
    by_row (some at) = stays
    by_row none = sets id d _ e (keyed id d e) (λ h. refl)

if-Moves :
    (drawn : Option String) (devices : Dict DeviceRecord) {A : Type 0} (b : Bool)
    (x y : A × DeviceAuth)
    → Moves drawn devices x.1.devices
    → Moves drawn devices y.1.devices
    → Moves drawn devices (if b then x else y).1.devices
if-Moves drawn devices true x y f g = f
if-Moves drawn devices false x y f g = g

live_device-Moves :
    (z : AuthPlatform) (drawn : Option String) (now : String) (s : DeviceAuth)
    → IsKeyed s.devices
    → (o : Option DeviceRecord) → Moves drawn s.devices (live_device z o now s).1.devices
unfolding touch_device_last_seen
live_device-Moves z drawn now s keyed none = stays
live_device-Moves z drawn now s keyed (some d) =
    if-Moves drawn s.devices (is_present d.revoked_at) _ _ stays
      (touch-Moves drawn d.id now s.devices keyed (lookup d.id s.devices) refl)

same-Moves :
    (drawn : Option String) {devices devices' : Dict DeviceRecord}
    → devices' ≡ devices
    → Moves drawn devices devices'
same-Moves drawn {devices = devices} e = subst (Moves drawn devices) (sym e) stays

put_until-devices :
    (o : Option String) (code user uri now : String) (s : DeviceAuth)
    → (put_until o code user uri now s).devices ≡ s.devices
unfolding put_device_code
put_until-devices none code user uri now s = refl
put_until-devices (some e) code user uri now s = refl

open_session-devices :
    (o : Option String) (code p : String) (t : SessionTokens) (now : String) (s : DeviceAuth)
    → (open_session o code p t now s).1.devices ≡ s.devices
unfolding put_device_session consume_device_code
open_session-devices none code p t now s = refl
open_session-devices (some e) code p t now s = refl

module _ (z : AuthPlatform) where
  spend_code-devices :
      (consumed : Option String) (participant : Option String) (r : DeviceCodeRecord)
      (code : String) (t : SessionTokens) (now : String) (s : DeviceAuth)
      → (spend_code z
          (record r { consumed_at = consumed; participant_id = participant })
          code
          t
          now
          s).1.devices
        ≡ s.devices
  spend_code-devices (some c) participant r code t now s = refl
  spend_code-devices none none r code t now s = refl
  spend_code-devices none (some p) r code t now s = open_session-devices _ code p t now s

  poll_status-devices :
      (status : DeviceCodeStatus) (r : DeviceCodeRecord) (code : String) (t : SessionTokens)
      (now : String) (s : DeviceAuth)
      → (poll_status z status r code t now s).1.devices ≡ s.devices
  poll_status-devices pending r code t now s = refl
  poll_status-devices denied r code t now s = refl
  poll_status-devices expired r code t now s = refl
  poll_status-devices authorized r code t now s =
      spend_code-devices r.consumed_at r.participant_id r code t now s

  poll_found-devices :
      (o : Option DeviceCodeRecord) (code : String) (t : SessionTokens) (now : String)
      (s : DeviceAuth)
      → (poll_found z o code t now s).1.devices ≡ s.devices
  poll_found-devices none code t now s = refl
  poll_found-devices (some r) code t now s = poll_status-devices r.status r code t now s

  register_session-Moves :
      (o : Option DeviceSessionRecord) (token name : String) (n : Drawn) (now : String)
      (s : DeviceAuth)
      → Moves (some n.device_id) s.devices (register_session z o token name n now s).1.devices
  unfolding consume_device_session create_key put_device
  register_session-Moves none token name n now s = stays
  register_session-Moves (some r) token name n now s =
      if-Moves (some n.device_id) s.devices
        (is_present r.consumed_at || at_most (z.date_parse r.expires_at) (z.date_parse now)) _ _
        stays (adds n.device_id _ refl refl)

  check_key-Moves :
      (drawn : Option String) (o : Option DeviceKeyRecord) (secret now : String) (s : DeviceAuth)
      → IsKeyed s.devices
      → Moves drawn s.devices (check_key z o secret now s).1.devices
  check_key-Moves drawn none secret now s keyed = stays
  check_key-Moves drawn (some k) secret now s keyed =
      if-Moves drawn s.devices (not (k.verifier == z.sha256_hex secret)) _ _ stays (
        if-Moves drawn s.devices (is_present k.revoked_at) _ _ stays
          (live_device-Moves z drawn now s keyed (lookup k.device_id s.devices)))

  check_parts-Moves :
      (drawn : Option String) (o : Option (String × String)) (now : String) (s : DeviceAuth)
      → IsKeyed s.devices
      → Moves drawn s.devices (check_parts z o now s).1.devices
  check_parts-Moves drawn none now s keyed = stays
  check_parts-Moves drawn (some (k, secret)) now s keyed =
      check_key-Moves drawn (lookup k s.keys) secret now s keyed

  pub auth_call-Moves :
      (c : AuthCall) (s : DeviceAuth)
      → IsKeyed s.devices
      → Moves (drawn_by c) s.devices (auth_call z c s).devices
  unfolding auth_call request_device_flow authorize_device_code poll_device_token register_device
      revoke_device revoke_in_store authenticate_key
  auth_call-Moves (call_request code user uri now) s keyed =
      same-Moves none (put_until-devices _ code user uri now s)
  auth_call-Moves (call_authorize code participant allowed) s keyed = stays
  auth_call-Moves (call_poll code t now) s keyed =
      same-Moves none (poll_found-devices (lookup code s.codes) code t now s)
  auth_call-Moves (call_register token name n now) s keyed =
      register_session-Moves (lookup token s.sessions) token name n now s
  auth_call-Moves (call_revoke d reason actor now) s keyed =
      if-Moves none s.devices (owned_by z actor (lookup d s.devices)) _ _
        (revoke_found-Moves none d reason now s keyed (lookup d s.devices) refl) stays
  auth_call-Moves (call_authenticate header now) s keyed =
      check_parts-Moves none (credential header) now s keyed

  pub auth_calls-IsKeyed :
      (calls : List AuthCall) (s : DeviceAuth)
      → IsKeyed s.devices
      → IsKeyed (auth_calls z calls s).devices
  unfolding auth_calls
  auth_calls-IsKeyed [] s keyed = keyed
  auth_calls-IsKeyed (c ∷ cs) s keyed =
      auth_calls-IsKeyed cs _ (Moves-IsKeyed (auth_call-Moves c s keyed) keyed)

  pub auth_calls-IsRevoked :
      (d : String) (calls : List AuthCall) (s : DeviceAuth)
      → IsKeyed s.devices
      → All (λ c. drawn_by c ≢ some d) calls
      → IsRevoked d s.devices
      → IsRevoked d (auth_calls z calls s).devices
  unfolding auth_calls
  auth_calls-IsRevoked d [] s keyed fresh g = g
  auth_calls-IsRevoked d (c ∷ cs) s keyed (n, fresh) g =
      auth_calls-IsRevoked d cs _ (Moves-IsKeyed moved keyed) fresh (Moves-IsRevoked d moved n g)
    where
      moved : Moves (drawn_by c) s.devices (auth_call z c s).devices
      moved = auth_call-Moves c s keyed
