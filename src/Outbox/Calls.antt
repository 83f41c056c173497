-- ===== src/Outbox/Calls.antt =====
-- The outbox under any sequence of calls.
use navis.Base.{ℕ, String, ◌≡◌, refl, List, [], ◌∷◌, Option}
use navis.Base.Results.{Result, done, thrown}
use navis.Outbox.Store.{
  Outbox, OutboxError, OutboxClock, OutboxCaptureInput, empty_outbox, capture, capture_once,
  promote_to_pending, claim_pending, acknowledge, release_sending, park_local_only, quarantine,
}
use navis.Outbox.Sound.{IsSound}
use navis.Outbox.Sound.Calls.{
  claim_pending-IsSound, acknowledge-IsSound, release_sending-IsSound, park_local_only-IsSound,
  quarantine-IsSound,
}
use navis.Outbox.Sound.Numbering.{capture-IsSound, capture_once-IsSound, promote-IsSound}

-- the calls, each with the reading of the clock
pub data OutboxCall : Type 0 where
  call_capture : OutboxCaptureInput → (now : String) → OutboxCall
  call_capture_once : OutboxCaptureInput → (fingerprint session_key now : String) → OutboxCall
  call_promote : (event_id now : String) → OutboxCall
  call_claim : (device_id : String) (limit : ℕ) (due now : String) → OutboxCall
  call_acknowledge : (event_ids : List String) (now : String) → OutboxCall
  call_release : (event_ids : List String) (not_before : Option String) (now : String) → OutboxCall
  call_park : (event_id reason : String) → OutboxCall
  call_quarantine : (event_id reason : String) → OutboxCall

-- the tables after a call that may have thrown
abbrev or_kept : Outbox → Result OutboxError Outbox → Outbox
or_kept o (done o') = o'
or_kept o (thrown e) = o

abbrev or_kept_second : {A : Type 0} → Outbox → Result OutboxError (A × Outbox) → Outbox
or_kept_second o (done (a, o')) = o'
or_kept_second o (thrown e) = o

module _ (c : OutboxClock) (backoff : ℕ → ℕ) where
  unfoldable pub outbox_call : OutboxCall → Outbox → Outbox
  outbox_call (call_capture i now) o = or_kept o (capture i now o)
  outbox_call (call_capture_once i fingerprint session_key now) o =
      or_kept_second o (capture_once i fingerprint session_key now o)
  outbox_call (call_promote event_id now) o = or_kept o (promote_to_pending event_id now o)
  outbox_call (call_claim device_id limit due now) o = (claim_pending device_id limit due now o).1
  outbox_call (call_acknowledge ids now) o = acknowledge ids now o
  outbox_call (call_release ids not_before now) o =
      or_kept_second o (release_sending c backoff ids not_before now o)
  outbox_call (call_park event_id reason) o = or_kept o (park_local_only event_id reason o)
  outbox_call (call_quarantine event_id reason) o = or_kept o (quarantine event_id reason o)

  unfoldable pub outbox_calls : List OutboxCall → Outbox → Outbox
  unfolding outbox_call
  outbox_calls [] o = o
  outbox_calls (k ∷ ks) o = outbox_calls ks (outbox_call k o)

or_kept-IsSound :
    (o : Outbox) (r : Result OutboxError Outbox)
    → IsSound o
    → ((o' : Outbox) → r ≡ done o' → IsSound o')
    → IsSound (or_kept o r)
or_kept-IsSound o (done o') s k = k o' refl
or_kept-IsSound o (thrown e) s k = s

or_kept_second-IsSound :
    {A : Type 0} (o : Outbox) (r : Result OutboxError (A × Outbox))
    → IsSound o
    → ((a : A) (o' : Outbox) → r ≡ done (a, o') → IsSound o')
    → IsSound (or_kept_second o r)
or_kept_second-IsSound o (done (a, o')) s k = k a o' refl
or_kept_second-IsSound o (thrown e) s k = s

outbox_call-IsSound :
    (c : OutboxClock) (backoff : ℕ → ℕ) (k : OutboxCall) (o : Outbox)
    → IsSound o
    → IsSound (outbox_call c backoff k o)
unfolding outbox_call
outbox_call-IsSound c backoff (call_capture i now) o s =
    or_kept-IsSound o _ s (λ o'. capture-IsSound i now o o' s)
outbox_call-IsSound c backoff (call_capture_once i fingerprint session_key now) o s =
    or_kept_second-IsSound o _ s
      (λ b o'. capture_once-IsSound i fingerprint session_key now o o' b s)
outbox_call-IsSound c backoff (call_promote event_id now) o s =
    or_kept-IsSound o _ s (λ o'. promote-IsSound event_id now o o' s)
outbox_call-IsSound c backoff (call_claim device_id limit due now) o s =
    claim_pending-IsSound device_id limit due now o s
outbox_call-IsSound c backoff (call_acknowledge ids now) o s = acknowledge-IsSound ids now o s
outbox_call-IsSound c backoff (call_release ids not_before now) o s =
    or_kept_second-IsSound o _ s
      (λ times o'. release_sending-IsSound c backoff ids not_before now o o' times s)
outbox_call-IsSound c backoff (call_park event_id reason) o s =
    or_kept-IsSound o _ s (λ o'. park_local_only-IsSound event_id reason o o' s)
outbox_call-IsSound c backoff (call_quarantine event_id reason) o s =
    or_kept-IsSound o _ s (λ o'. quarantine-IsSound event_id reason o o' s)

outbox_calls-keep-IsSound :
    (c : OutboxClock) (backoff : ℕ → ℕ) (ks : List OutboxCall) (o : Outbox)
    → IsSound o
    → IsSound (outbox_calls c backoff ks o)
unfolding outbox_calls
outbox_calls-keep-IsSound c backoff [] o s = s
outbox_calls-keep-IsSound c backoff (k ∷ ks) o s =
    outbox_calls-keep-IsSound c backoff ks (outbox_call c backoff k o)
      (outbox_call-IsSound c backoff k o s)

-- After any sequence of calls on the empty outbox, those that throw included, the identifiers of
-- the rows are distinct, a pending or sending row has a sequence number, the numbers of a device are
-- distinct, and none is above the device's counter.
pub outbox_calls-IsSound :
    (c : OutboxClock) (backoff : ℕ → ℕ) (ks : List OutboxCall)
    → IsSound (outbox_calls c backoff ks empty_outbox)
outbox_calls-IsSound c backoff ks =
    outbox_calls-keep-IsSound c backoff ks empty_outbox (record { numbered = tt; apart = tt })
