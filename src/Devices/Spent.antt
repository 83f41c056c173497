-- ===== src/Devices/Spent.antt =====
-- A session is spent by the registration that it pays for.
use navis.Base.{
  String, ◌≡◌, ◌≢◌, refl, Bool, true, false, ◌||◌, Option, none, some, string_eq, Dict, lookup,
  insert, lookup-insert, is_present, eq_iff, arith,
}
use navis.Devices.Store.{
  DeviceAuth, DeviceSessionRecord, consume_device_session, create_key, put_device,
}
use navis.Devices.Flow.{
  AuthPlatform, Drawn, not_registered, register_device, register_session, at_most,
}

spent-again :
    (z : AuthPlatform) (r : DeviceSessionRecord) (token name : String) (n : Drawn) (now : String)
    (s : DeviceAuth)
    → is_present r.consumed_at ≡ true
    → register_session z (some r) token name n now s ≡ (not_registered, s)
spent-again z r token name n now s h = ground (arith, h)

spend-lookup :
    (r : DeviceSessionRecord) (token : String) (rows : Dict DeviceSessionRecord)
    → lookup token (insert token r rows) ≡ some r
spend-lookup r token rows = ground (arith, lookup-insert token token r rows, eq_iff token token)

register_found-spent :
    (z : AuthPlatform) (o : Option DeviceSessionRecord) (token name name' : String) (n n' : Drawn)
    (now now' : String) (s : DeviceAuth)
    → lookup token s.sessions ≡ o
    → (register_session z o token name n now s).0 ≢ not_registered
    → register_device z token name' n' now' (register_session z o token name n now s).1
      ≡ (not_registered, (register_session z o token name n now s).1)
unfolding register_device consume_device_session create_key put_device
register_found-spent z none token name name' n n' now now' s e h = absurd (h refl)
register_found-spent z (some r) token name name' n n' now now' s e h =
    by_guard (is_present r.consumed_at || at_most (z.date_parse r.expires_at) (z.date_parse now))
      refl
  where
    by_guard :
        (b : Bool)
        → (is_present r.consumed_at || at_most (z.date_parse r.expires_at) (z.date_parse now)) ≡ b
        → register_device z token name' n' now' (register_session z (some r) token name n now s).1
          ≡ (not_registered, (register_session z (some r) token name n now s).1)
    by_guard true g = absurd (h (ground (arith, g)))
    by_guard false g =
        ground (
          arith,
          g,
          e,
          spend-lookup (record r { consumed_at = some r.expires_at }) token s.sessions,
        )

-- A session whose registration succeeds pays for no other: with the same token, the next registration is refused and changes nothing.
pub register_device-spent :
    (z : AuthPlatform) (token name name' : String) (n n' : Drawn) (now now' : String)
    (s : DeviceAuth)
    → (register_device z token name n now s).0 ≢ not_registered
    → register_device z token name' n' now' (register_device z token name n now s).1
      ≡ (not_registered, (register_device z token name n now s).1)
unfolding register_device
register_device-spent z token name name' n n' now now' s =
    register_found-spent z (lookup token s.sessions) token name name' n n' now now' s refl
