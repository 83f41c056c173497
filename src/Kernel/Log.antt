-- ===== src/Kernel/Log.antt =====
-- `validateEventLog`, the replay of a whole log, `rebuildProjection`, `verifyIntegrity` and
-- `fromEvents`, each without a snapshot.
pub mod Append
pub mod Load
use navis.Base.{
  ℕ, ◌+◌, String, Bool, true, false, not, ◌&&◌, ◌||◌, Option, none, some, List, [], ◌∷◌, ◌==◌,
  nat_eq, string_eq, any, if◌then◌else◌, Dict,
}
use navis.Schema.Errors.{Fault, invalid_log}
use navis.Schema.Platform.{Platform}
use navis.State.Clock.{ClockSnapshot, advance_clock}
use navis.State.Rows.{Json, Projection, empty_projection}
use navis.State.Events
use navis.State.Events.{EventData, StateEvent, is_state_material, state_event_schema_version}
use navis.State.Payload.{is_payload}
use navis.State.History
use navis.State.History.{verify_event_history}
use navis.State.Replay.{Replay, ok, fault, ◌>>=◌}
use navis.State.Apply.{apply_event}
use navis.Kernel.Core.{Kernel, new_kernel}

-- `validateObservation`, where the kernel was given one: whether it accepts a type and its data.
abbrev pub ObservationValidator : Type 0
ObservationValidator = Option (String → Json → Bool)

abbrev accepts : ObservationValidator → String → Json → Bool
accepts none type payload = false
accepts (some check) type payload = check type payload

-- the variables of the loop of `validateEventLog`
pub record Scan : Type 0 where
  pub registered : List String
  pub version : ℕ

abbrev pub is_registered : List String → String → Bool
is_registered registered id = any (λ j. j == id) registered

abbrev pub knows : List String → Option String → Bool
knows registered none = true
knows registered (some actor) = is_registered registered actor

-- a registration adds its participant, and must not repeat one
abbrev pub register : StateEvent → Scan → EventData → Replay Scan
register e s (Events.participant_registered id type name) =
    if is_registered s.registered id
    then fault (invalid_log "duplicate participant" e.seq)
    else ok (record s { registered = id ∷ s.registered })
register e s _ = ok s

abbrev check : Bool → String → StateEvent → Replay (Unit {0})
check true reason e = ok tt
check false reason e = fault (invalid_log reason e.seq)

module _ (z : Platform) (v : ObservationValidator) where
  -- the payload of a kernel event has its schema, any other goes to the validator
  abbrev pub is_valid_data : EventData → Bool
  is_valid_data (Events.observation type payload) = accepts v type payload
  is_valid_data body = is_payload z body

  -- one round of the loop
  unfoldable pub scan_event : Scan → StateEvent → Replay Scan
  scan_event s e = do
    _ ← check (e.schema_version == state_event_schema_version) "unsupported schema version" e
    _ ← check (is_valid_data e.body) "invalid event data" e
    let version = if is_state_material e.body then s.version + 1 else s.version
    _ ← check (e.state_version == version) "state-version mismatch" e
    _ ← check (knows s.registered e.actor) "actor not registered" e
    register e (record s { version = version }) e.body

  unfoldable pub scan : Scan → List StateEvent → Replay Scan
  scan s [] = ok s
  scan s (e ∷ es) = scan_event s e >>= λ s'. scan s' es

  abbrev pub first_scan : Scan
  first_scan = record { registered = []; version = 0 }

  abbrev integrity : Option ℕ → Replay (Unit {0})
  integrity none = ok tt
  integrity (some seq) = fault (invalid_log "schema or seq violation" seq)

  -- `validateEventLog`
  unfoldable pub validate_event_log : List StateEvent → Replay Scan
  validate_event_log events =
      integrity (verify_event_history z events) >>= λ _. scan first_scan events

-- the fold of a log into a projection
unfoldable pub fold_events : Projection → List StateEvent → Replay Projection
fold_events d [] = ok d
fold_events d (e ∷ es) = apply_event d e >>= λ d'. fold_events d' es

-- the clock that the authorship of a log gives
abbrev pub tick : ClockSnapshot → StateEvent → ClockSnapshot
tick c e = elim e.actor [ none ↦ c | some actor ↦ advance_clock c actor ]

unfoldable pub fold_clock : ClockSnapshot → List StateEvent → ClockSnapshot
fold_clock c [] = c
fold_clock c (e ∷ es) = fold_clock (tick c e) es

module _ (z : Platform) (v : ObservationValidator) where
  -- `rebuildProjection()`
  unfoldable pub rebuild_projection : Kernel → Replay Projection
  rebuild_projection k =
      validate_event_log z v k.history >>= λ _. fold_events empty_projection k.history

  -- the loop of `fromEvents`
  unfoldable pub load_events : Kernel → List StateEvent → Replay Kernel
  load_events k [] = ok k
  load_events k (e ∷ es) = History.append z k.history e >>= λ history.
      apply_event k.draft e >>= λ d.
      load_events (record { history = history; draft = d; causal_clock = tick k.causal_clock e }) es

  -- `fromEvents(events)`
  unfoldable pub from_events : List StateEvent → Replay Kernel
  from_events events = validate_event_log z v events >>= λ _. load_events new_kernel events
