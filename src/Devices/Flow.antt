-- ===== src/Devices/Flow.antt =====
-- application/src/auth/device-auth-flow.ts: the authorization flow, registration, revocation and the
-- authentication of keys. Random tokens and drawn identifiers are arguments, and the readings of the
-- clock within a call are one.
use Prim.Native.Char.{code}
use navis.Base.{
  ℕ, ◌+◌, ◌*◌, String, Bool, true, false, not, ◌||◌, List, [], ◌∷◌, Option, none, some, ◌==◌,
  nat_eq, string_eq, leb, lookup, is_present, if◌then◌else◌, codes,
}
use navis.Devices.Store.{
  DeviceAuth, DeviceCodeRecord, DeviceCodeStatus, pending, authorized, denied, expired,
  DeviceSessionRecord, DeviceRecord, DeviceKeyRecord, put_device_code, consume_device_code,
  put_device_session, consume_device_session, put_device, create_key, revoke_in_store,
  touch_device_last_seen,
}

-- `Date.parse` (none is NaN), `toISOString` for a date that the engine represents, and SHA-256 in hex.
-- A time is in milliseconds from the earliest date that the engine represents, 8640000000000000
-- before the epoch, so that every date has one.
pub record AuthPlatform : Type 0 where
  pub date_parse : String → Option ℕ
  pub iso_of : ℕ → String
  pub sha256_hex : String → String

-- `Date.parse(a) <= Date.parse(b)`, which is false where one is NaN
abbrev pub at_most : Option ℕ → Option ℕ → Bool
at_most (some a) (some b) = leb a b
at_most _ _ = false

-- twice the span between the epoch and the first date, as the dates end as long after it
abbrev last_time : ℕ
last_time = 2 * 8640000000000000

-- the time that a number of milliseconds later has; none is the throw of `toISOString`
abbrev pub after : AuthPlatform → Option ℕ → ℕ → Option String
after z none wait = none
after z (some t) wait = if leb (t + wait) last_time then some (z.iso_of (t + wait)) else none

-- `DEVICE_CODE_TTL_SECONDS` and `DEVICE_TOKEN_POLL_INTERVAL_SECONDS`
abbrev device_code_ttl_seconds : ℕ
device_code_ttl_seconds = 60 * 15

abbrev device_token_poll_interval_seconds : ℕ
device_token_poll_interval_seconds = 5

abbrev code_row : String → String → String → String → String → DeviceCodeRecord
code_row code user uri expires_at now = record {
  device_code = code;
  participant_id = none;
  user_code = user;
  verification_uri = uri;
  expires_at = expires_at;
  interval_seconds = device_token_poll_interval_seconds;
  status = pending;
  created_at = now;
  consumed_at = none;
}

abbrev pub put_until : Option String → String → String → String → String → DeviceAuth → DeviceAuth
put_until none code user uri now s = s
put_until (some expires_at) code user uri now s =
    put_device_code (code_row code user uri expires_at now) s

pub data PollTokenResult : Type 0 where
  unknown_code : PollTokenResult
  poll_pending : (interval_seconds : ℕ) → PollTokenResult
  poll_denied : PollTokenResult
  poll_expired : PollTokenResult
  poll_authorized : (access_token refresh_token participant_id : String) → PollTokenResult
  poll_threw : PollTokenResult

-- the tokens that a poll draws
pub record SessionTokens : Type 0 where
  pub session : String
  pub access : String
  pub refresh : String

abbrev session_row : String → String → SessionTokens → String → String → DeviceSessionRecord
session_row code participant t expires_at now = record {
  session_token = t.session;
  device_code = code;
  participant_id = participant;
  access_token = t.access;
  refresh_token = some t.refresh;
  expires_at = expires_at;
  consumed_at = none;
  created_at = now;
}

abbrev pub open_session :
    Option String
    → String
    → String
    → SessionTokens
    → String
    → DeviceAuth
    → PollTokenResult × DeviceAuth
open_session none code participant t now s = (poll_threw, s)
open_session (some expires_at) code participant t now s = (
  poll_authorized t.session t.refresh participant,
  consume_device_code code now
      (put_device_session (session_row code participant t expires_at now) s),
)

module _ (z : AuthPlatform) where
  -- `requestDeviceFlow`; the store is as it was where it throws
  unfoldable pub request_device_flow : String → String → String → String → DeviceAuth → DeviceAuth
  unfolding put_device_code
  request_device_flow code user uri now s =
      put_until (after z (z.date_parse now) (device_code_ttl_seconds * 1000)) code user uri now s

  abbrev pub spend_code :
      DeviceCodeRecord → String → SessionTokens → String → DeviceAuth → PollTokenResult × DeviceAuth
  spend_code r code t now s = elim r.consumed_at [
    | some _ ↦ (poll_expired, s)
    | none ↦ elim r.participant_id [
      | none ↦ (poll_denied, s)
      | some p ↦ open_session (after z (z.date_parse now) (3600 * 1000)) code p t now s
    ]
  ]

  abbrev pub poll_status :
      DeviceCodeStatus
      → DeviceCodeRecord
      → String
      → SessionTokens
      → String
      → DeviceAuth
      → PollTokenResult × DeviceAuth
  poll_status pending r code t now s = (
    if at_most (z.date_parse r.expires_at) (z.date_parse now)
        then poll_expired
        else poll_pending r.interval_seconds,
    s,
  )
  poll_status denied r code t now s = (poll_denied, s)
  poll_status expired r code t now s = (poll_expired, s)
  poll_status authorized r code t now s = spend_code r code t now s

  abbrev pub poll_found :
      Option DeviceCodeRecord
      → String
      → SessionTokens
      → String
      → DeviceAuth
      → PollTokenResult × DeviceAuth
  poll_found none code t now s = (unknown_code, s)
  poll_found (some r) code t now s = poll_status r.status r code t now s

  -- `pollDeviceToken`
  unfoldable pub poll_device_token :
      String → SessionTokens → String → DeviceAuth → PollTokenResult × DeviceAuth
  unfolding consume_device_code put_device_session
  poll_device_token code t now s = poll_found (lookup code s.codes) code t now s

-- what a registration draws
pub record Drawn : Type 0 where
  pub device_id : String
  pub key_id : String
  pub secret : String

pub data RegisterResult : Type 0 where
  not_registered : RegisterResult
  registered : (key_id device_id key_secret issued_at : String) → RegisterResult

pub data AuthenticateResult : Type 0 where
  authenticated : (participant_id device_id : String) → AuthenticateResult
  key_invalid : AuthenticateResult
  device_revoked : AuthenticateResult

-- the text before and after the first dot, where there is one
unfoldable pub split_dot : String → Option (String × String)
split_dot String.[] = none
split_dot (String.◌∷◌ c s) =
    let rest = split_dot s in
    if code c == b'.'
    then some (String.[], s)
    else elim rest [ none ↦ none | some (a, b) ↦ some (String.◌∷◌ c a, b) ]

unfoldable pub drop_codes : List ℕ → String → Option String
drop_codes [] s = some s
drop_codes (k ∷ ks) String.[] = none
drop_codes (k ∷ ks) (String.◌∷◌ c s) =
    let rest = drop_codes ks s in if code c == k then rest else none

abbrev key_parts : Option (String × String) → Option (String × String)
key_parts none = none
key_parts (some (k, secret)) = if k == "" then none else some (k, secret)

abbrev token_parts : Option String → Option (String × String)
token_parts none = none
token_parts (some token) = key_parts (split_dot token)

-- the key and the secret of a header `Bearer key.secret`, where the key is not empty
unfoldable pub credential : String → Option (String × String)
unfolding split_dot drop_codes
credential header = token_parts (drop_codes (codes "Bearer ") header)

module _ (z : AuthPlatform) where
  abbrev pub register_session :
      Option DeviceSessionRecord
      → String
      → String
      → Drawn
      → String
      → DeviceAuth
      → RegisterResult × DeviceAuth
  register_session none token name n now s = (not_registered, s)
  register_session (some r) token name n now s =
      if is_present r.consumed_at || at_most (z.date_parse r.expires_at) (z.date_parse now)
      then (not_registered, s)
      else (
        registered n.key_id n.device_id n.secret now,
        consume_device_session token (
            create_key
              (record {
                key_id = n.key_id;
                device_id = n.device_id;
                verifier = z.sha256_hex n.secret;
                revoked_at = none;
                issued_at = now;
              })
              (put_device n.device_id r.participant_id name now s)),
      )

  -- `registerDevice`
  unfoldable pub register_device :
      String → String → Drawn → String → DeviceAuth → RegisterResult × DeviceAuth
  unfolding consume_device_session create_key put_device
  register_device token name n now s = register_session (lookup token s.sessions) token name n now s

  abbrev pub owned_by : String → Option DeviceRecord → Bool
  owned_by actor none = false
  owned_by actor (some d) = d.participant_id == actor

  -- `revokeDevice`
  unfoldable pub revoke_device :
      String → Option String → String → String → DeviceAuth → Bool × DeviceAuth
  unfolding revoke_in_store
  revoke_device device_id reason actor now s =
      if owned_by actor (lookup device_id s.devices)
      then (true, revoke_in_store device_id reason now s)
      else (false, s)

  abbrev pub live_device :
      Option DeviceRecord → String → DeviceAuth → AuthenticateResult × DeviceAuth
  live_device none now s = (device_revoked, s)
  live_device (some d) now s =
      if is_present d.revoked_at
      then (device_revoked, s)
      else (authenticated d.participant_id d.id, touch_device_last_seen d.id now s)

  -- the buffers of two hex texts are equal where the texts are
  abbrev pub check_key :
      Option DeviceKeyRecord → String → String → DeviceAuth → AuthenticateResult × DeviceAuth
  check_key none secret now s = (key_invalid, s)
  check_key (some k) secret now s =
      if not (k.verifier == z.sha256_hex secret)
      then (key_invalid, s)
      else if is_present k.revoked_at
      then (device_revoked, s)
      else live_device (lookup k.device_id s.devices) now s

  abbrev pub check_parts :
      Option (String × String) → String → DeviceAuth → AuthenticateResult × DeviceAuth
  check_parts none now s = (key_invalid, s)
  check_parts (some (k, secret)) now s = check_key (lookup k s.keys) secret now s

  -- `authenticateKey`
  unfoldable pub authenticate_key : String → String → DeviceAuth → AuthenticateResult × DeviceAuth
  unfolding credential touch_device_last_seen
  authenticate_key header now s = check_parts (credential header) now s
