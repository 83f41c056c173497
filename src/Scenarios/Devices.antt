-- ===== src/Scenarios/Devices.antt =====
-- A run of the device authorization: a device is registered, its key authenticates it, and it is revoked.
use navis.Base.{
  String, ◌≡◌, ◌≢◌, refl, ap, subst, sym, ◌∙◌, Bool, true, false, List, [], ◌∷◌, Option, none, some,
  ◌==◌, string_eq, if◌then◌else◌, lookup, insert, any, values, arith,
}
use navis.Devices.Store.{DeviceAuth, empty_auth}
use navis.Devices.Flow.{
  AuthPlatform, SessionTokens, Drawn, AuthenticateResult, authenticated, device_revoked,
  authenticate_key, revoke_device,
}
use navis.Devices.Revoked.{
  AuthCall, call_request, call_authorize, call_poll, call_register, call_authenticate, auth_calls,
}
use navis.Devices.Flow.{RegisterResult, not_registered, registered, register_device}
use navis.Devices.Spent.{register_device-spent}
use navis.Devices.Final.{revoke_device-final}

abbrev table : AuthPlatform
table = record {
  date_parse = λ s. if s == "now" then some 0 else some 1000;
  iso_of = λ t. "later";
  sha256_hex = λ s. s;
}

abbrev tokens : SessionTokens
tokens = record { session = "s1"; access = "a1"; refresh = "r1" }

abbrev drawn : String → Drawn
drawn d = record { device_id = d; key_id = "k1"; secret = "secret" }

abbrev enrolment : List AuthCall
enrolment =
    call_request "c1" "bcdf-ghjk" "https://navis" "now"
    ∷ call_authorize "c1" "alice" true
    ∷ call_poll "c1" tokens "now"
    ∷ call_register "s1" "laptop" (drawn "d1") "now"
    ∷ []

abbrev later_calls : List AuthCall
later_calls =
    call_authenticate "Bearer k1.secret" "now" ∷ call_register "s1" "laptop" (drawn "d2") "now" ∷ []

authenticated_before :
    (authenticate_key table "Bearer k1.secret" "now" (auth_calls table enrolment empty_auth)).0
    ≡ authenticated "alice" "d1"
unfolding auth_calls authenticate_key navis.Base.codes lookup navis.Devices.Flow.register_device
    navis.Devices.Flow.poll_device_token navis.Devices.Store.authorize_device_code
    navis.Devices.Flow.request_device_flow insert
authenticated_before = refl

abbrev is_first : Option String → Bool
is_first none = false
is_first (some d) = d == "d1"

revoke_device-final_example :
    (authenticate_key table "Bearer k1.secret" "now" (
      auth_calls table later_calls
        (revoke_device table "d1" none "alice" "now" (auth_calls table enrolment empty_auth)).1)).0
    ≢ authenticated "alice" "d1"
unfolding auth_calls revoke_device lookup navis.Devices.Flow.register_device
    navis.Devices.Flow.poll_device_token navis.Devices.Store.authorize_device_code
    navis.Devices.Flow.request_device_flow insert
revoke_device-final_example =
    revoke_device-final table enrolment later_calls "d1" none "alice" "now" refl
      ((λ h. ground (arith, ap is_first h)), ((λ h. ground (arith, ap is_first h)), tt))
      "Bearer k1.secret" "now" "alice"

-- the enrolment before its registration
abbrev paid : DeviceAuth
paid =
    auth_calls table
      (call_request "c1" "bcdf-ghjk" "https://navis" "now"
        ∷ call_authorize "c1" "alice" true
        ∷ call_poll "c1" tokens "now"
        ∷ [])
      empty_auth

abbrev has_key : RegisterResult → Bool
has_key not_registered = false
has_key (registered k d secret at) = true

paid-has_key : has_key (register_device table "s1" "laptop" (drawn "d1") "now" paid).0 ≡ true
unfolding auth_calls lookup insert navis.Devices.Flow.register_device
    navis.Devices.Flow.poll_device_token navis.Devices.Store.authorize_device_code
    navis.Devices.Flow.request_device_flow
paid-has_key = refl

paid-registers : (register_device table "s1" "laptop" (drawn "d1") "now" paid).0 ≢ not_registered
paid-registers h = subst (λ b. if b then Unit else ⊥) (sym paid-has_key ∙ ap has_key h) tt

register_device-spent_example :
    register_device table "s1" "desktop"
      (drawn "d2")
      "now"
      (register_device table "s1" "laptop" (drawn "d1") "now" paid).1
    ≡ (not_registered, (register_device table "s1" "laptop" (drawn "d1") "now" paid).1)
register_device-spent_example =
    register_device-spent table "s1" "laptop" "desktop" (drawn "d1") (drawn "d2") "now" "now" paid
      paid-registers
