-- ===== src/Devices/Store.antt =====
-- domain/src/ports/device-auth.ts and
-- infrastructure/src/persistence/in-memory/in-memory-device-auth.ts.
use navis.Base.{
  ℕ, String, Bool, not, ◌&&◌, List, [], ◌∷◌, Option, none, some, ◌==◌, string_eq, filter, Dict,
  lookup, insert, values, is_present, if◌then◌else◌,
}

pub data DeviceCodeStatus : Type 0 where
  pending : DeviceCodeStatus
  authorized : DeviceCodeStatus
  denied : DeviceCodeStatus
  expired : DeviceCodeStatus

pub record DeviceCodeRecord : Type 0 where
  pub device_code : String
  pub participant_id : Option String
  pub user_code : String
  pub verification_uri : String
  pub expires_at : String
  pub interval_seconds : ℕ
  pub status : DeviceCodeStatus
  pub created_at : String
  pub consumed_at : Option String

pub record DeviceSessionRecord : Type 0 where
  pub session_token : String
  pub device_code : String
  pub participant_id : String
  pub access_token : String
  pub refresh_token : Option String
  pub expires_at : String
  pub consumed_at : Option String
  pub created_at : String

pub record DeviceRecord : Type 0 where
  pub id : String
  pub participant_id : String
  pub name : String
  pub revoked_at : Option String
  pub revoke_reason : Option String
  pub last_seen_at : Option String
  pub created_at : String

-- the algorithm is always `sha256`
pub record DeviceKeyRecord : Type 0 where
  pub key_id : String
  pub device_id : String
  pub verifier : String
  pub revoked_at : Option String
  pub issued_at : String

pub record DeviceAuth : Type 0 where
  pub codes : Dict DeviceCodeRecord
  pub sessions : Dict DeviceSessionRecord
  pub devices : Dict DeviceRecord
  pub keys : Dict DeviceKeyRecord

abbrev pub empty_auth : DeviceAuth
empty_auth = record { codes = []; sessions = []; devices = []; keys = [] }

unfoldable pub put_device_code : DeviceCodeRecord → DeviceAuth → DeviceAuth
put_device_code r s = record s { codes = insert r.device_code r s.codes }

-- a change of the row of a key, which does nothing where the row is missing
abbrev pub change : {A : Type 0} → String → (A → A) → Option A → Dict A → Dict A
change k f none rows = rows
change k f (some row) rows = insert k (f row) rows

unfoldable pub authorize_device_code : String → String → Bool → DeviceAuth → DeviceAuth
authorize_device_code code participant allowed s = record s {
  codes =
      change code
        (λ r. record r {
          participant_id = some participant;
          status = if allowed then authorized else denied;
        })
        (lookup code s.codes) s.codes;
}

unfoldable pub consume_device_code : String → String → DeviceAuth → DeviceAuth
consume_device_code code at s = record s {
  codes = change code (λ r. record r { consumed_at = some at }) (lookup code s.codes) s.codes;
}

unfoldable pub put_device_session : DeviceSessionRecord → DeviceAuth → DeviceAuth
put_device_session r s = record s { sessions = insert r.session_token r s.sessions }

unfoldable pub consume_device_session : String → DeviceAuth → DeviceAuth
consume_device_session token s = record s {
  sessions =
      change token (λ r. record r { consumed_at = some r.expires_at }) (lookup token s.sessions)
        s.sessions;
}

-- `registerDevice`, with the identifier that `uuidv7()` draws
unfoldable pub put_device : String → String → String → String → DeviceAuth → DeviceAuth
put_device id participant name at s = record s {
  devices =
      insert id
        (record {
          id = id;
          participant_id = participant;
          name = name;
          revoked_at = none;
          revoke_reason = none;
          last_seen_at = none;
          created_at = at;
        })
        s.devices;
}

unfoldable pub list_devices : String → DeviceAuth → List DeviceRecord
list_devices participant s = filter (λ d. d.participant_id == participant) (values s.devices)

-- the keys of a device, stopped where they are not yet
unfoldable pub stop_keys : String → String → Dict DeviceKeyRecord → Dict DeviceKeyRecord
stop_keys device_id at [] = []
stop_keys device_id at ((k, key) ∷ rest) =
    let stopped = stop_keys device_id at rest in
    (
      k,
      if key.device_id == device_id && not (is_present key.revoked_at)
          then record key { revoked_at = some at }
          else key,
    )
    ∷ stopped

abbrev pub revoke_row :
    Option String → DeviceRecord → String → Option String → String → DeviceAuth → DeviceAuth
revoke_row (some _) d device_id reason at s = s
revoke_row none d device_id reason at s = record s {
  devices = insert device_id (record d { revoked_at = some at; revoke_reason = reason }) s.devices;
  keys = stop_keys device_id at s.keys;
}

abbrev pub revoke_found :
    Option DeviceRecord → String → Option String → String → DeviceAuth → DeviceAuth
revoke_found none device_id reason at s = s
revoke_found (some d) device_id reason at s = revoke_row d.revoked_at d device_id reason at s

-- `revokeDevice` of the port
unfoldable pub revoke_in_store : String → Option String → String → DeviceAuth → DeviceAuth
unfolding stop_keys
revoke_in_store device_id reason at s =
    revoke_found (lookup device_id s.devices) device_id reason at s

unfoldable pub create_key : DeviceKeyRecord → DeviceAuth → DeviceAuth
create_key r s = record s { keys = insert r.key_id r s.keys }

unfoldable pub touch_device_last_seen : String → String → DeviceAuth → DeviceAuth
touch_device_last_seen device_id at s = record s {
  devices =
      change device_id (λ d. record d { last_seen_at = some at }) (lookup device_id s.devices)
        s.devices;
}
