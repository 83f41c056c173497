-- ===== src/Scenarios/Ledgers.antt =====
-- The theorems on the ledger and on the intake of commands, at concrete inputs.
use navis.Base.{
  ℕ, ◌+◌, String, ◌≡◌, refl, List, [], ◌∷◌, ◌++◌, Option, none, some, ◌==◌, string_eq,
  if◌then◌else◌, Bool, true, false,
}
use navis.Base.Results.{Result, done, thrown}
use navis.Schema.Canonical.{Value, str, num, obj, object, sort_value, canonical_json}
use navis.Scenarios.Base.{plain, now, alice, project_one, report, other_id}
use navis.Ledger.Envelope.{
  EventEnvelope, work, permanent, archive_after_snapshot, RetentionClass, is_event_envelope,
}
use navis.Ledger.Store.{
  EventStore, LedgerError, empty_store, append, mark_retention, mark_of, stream, version_conflict,
  Mark,
}
use navis.Ledger.Sound.{IsSound, empty_store-IsSound}
use navis.Ledger.Sound.Marks.{mark_retention-first}
use navis.Ledger.Calls.{
  LedgerCall, append_events, mark_events, ledger_calls, ledger_calls-IsSound, append-append,
  append-stream,
}
use navis.Intake.Inbox.{
  DispatchRequest, ResultValue, value, IntakePlatform, dispatch_command, fresh_response,
  replayed_response, stored_outcome, collision,
}
use navis.Intake.Once.{submissions, dispatch_command-once, dispatch_command-collision}

-- the JSON text of the scenarios keeps every value apart that they use
abbrev pub show : Value → String
show (str s) = s
show (obj o) = "{}"
show v = ""

abbrev envelope : String → ℕ → EventEnvelope
envelope id seq = record {
  event_id = id;
  project_id = project_one;
  seq = seq;
  aggregate_type = "project";
  aggregate_id = project_one;
  aggregate_revision = seq;
  event_type = "work.started";
  event_schema_version = 1;
  occurred_at = now;
  recorded_at = now;
  actor_participant_id = some alice;
  causation_id = none;
  correlation_id = none;
  idempotency_key = none;
  payload = [];
  metadata = ("device_id", str "laptop") ∷ [];
  privacy_class = work;
  state_version = 0;
}

abbrev first_event : EventEnvelope
first_event = envelope report 1

abbrev stored_first : EventStore
stored_first = record {
  streams = (project_one, first_event ∷ []) ∷ [];
  snapshots = [];
  marks = record { project_id = project_one; seq = 1; retention = permanent } ∷ [];
  event_ids = (report, record { project_id = project_one; device_id = some "laptop" }) ∷ [];
}

abbrev two_calls : List LedgerCall
two_calls =
    append_events project_one (first_event ∷ []) 0
    ∷ mark_events project_one 1 9 archive_after_snapshot
    ∷ append_events project_one (envelope other_id 1 ∷ []) 0
    ∷ []

two_calls_test : ledger_calls plain show two_calls empty_store ≡ stored_first
unfolding ledger_calls append navis.Base.Results.◌>>◌ navis.Base.Results.require navis.Base.all
    is_event_envelope navis.Schema.Ids.is_uuidv7 navis.Base.lookup mark_retention
    navis.Ledger.Store.check_batch navis.Base.any navis.Base.insert navis.Ledger.Store.mark_all
    navis.Ledger.Store.own navis.Ledger.Store.to_mark navis.Ledger.Envelope.device_of
    navis.Base.filter mark_of navis.Ledger.Store.mark_permanent navis.Base.find? navis.Base.codes
    navis.Ledger.Calls.ledger_call navis.Ledger.Envelope.event_retention_class
    navis.Ledger.Envelope.is_archivable navis.Ledger.Envelope.is_projection_snapshot
    navis.Ledger.Store.head_seq navis.Ledger.Store.last_seq navis.Ledger.Store.save_snapshot
    navis.Ledger.Store.set_mark navis.Ledger.Store.set_version navis.Schema.Canonical.insert_field
    sort_value navis.Schema.Ids.at_end navis.Schema.Ids.hex_run navis.Schema.Ids.hyphen
    navis.Schema.Ids.is_hex navis.Schema.Ids.is_variant navis.Schema.Ids.is_version
two_calls_test = refl

ledger_calls-IsSound_example : IsSound (ledger_calls plain show two_calls empty_store)
ledger_calls-IsSound_example = ledger_calls-IsSound plain show two_calls

append-append_example :
    append plain project_one (envelope other_id 1 ∷ []) 0 stored_first
    ≡ thrown (version_conflict 0 1)
unfolding append navis.Base.Results.◌>>◌ navis.Base.Results.require navis.Base.all is_event_envelope
    navis.Schema.Ids.is_uuidv7 navis.Base.lookup navis.Ledger.Store.check_batch navis.Base.any
    navis.Base.insert navis.Ledger.Store.mark_permanent navis.Ledger.Store.own
    navis.Ledger.Envelope.event_retention_class navis.Ledger.Envelope.device_of
    navis.Ledger.Store.set_mark
append-append_example =
    append-append plain project_one first_event [] (envelope other_id 1 ∷ []) 0 empty_store
      stored_first empty_store-IsSound refl refl

append-stream_example : stream stored_first project_one ≡ (
    if project_one == project_one
    then stream empty_store project_one ++ first_event ∷ []
    else stream empty_store project_one)
unfolding append navis.Base.Results.◌>>◌ navis.Base.Results.require navis.Base.all is_event_envelope
    navis.Schema.Ids.is_uuidv7 navis.Base.lookup navis.Ledger.Store.check_batch navis.Base.any
    navis.Base.insert navis.Ledger.Store.mark_permanent navis.Ledger.Store.own
    navis.Ledger.Envelope.event_retention_class navis.Ledger.Envelope.device_of
    navis.Ledger.Store.set_mark
append-stream_example =
    append-stream plain project_one project_one (first_event ∷ []) 0 empty_store stored_first refl

mark_retention-first_example : mark_of project_one 1 stored_first.marks ≡ some permanent
unfolding mark_retention navis.Base.Results.◌>>◌ navis.Base.Results.require
    navis.Ledger.Store.to_mark navis.Ledger.Store.mark_all navis.Base.filter navis.Base.lookup
    mark_of
mark_retention-first_example =
    mark_retention-first project_one project_one 1 1 9 archive_after_snapshot permanent stored_first
      stored_first [] refl refl

abbrev intake : IntakePlatform
intake = record {
  stringify = show;
  json_parse = λ t. some (str t);
  sha256_hex = λ t. t;
  utf16_length = λ t. 2;
}

abbrev ask : DispatchRequest
ask = record {
  project_id = project_one;
  idempotency_key = "k1";
  command_type = "work.create";
  payload = str "plan";
}

-- an executor that counts its calls
abbrev echo : Value → ℕ → Option ResultValue × ℕ
echo v n = (some (value v), n + 1)

abbrev other_ask : DispatchRequest
other_ask = record ask { payload = str "other" }

dispatch_command-once_example :
    ((dispatch_command intake ask echo ([], 0)).0 ≡ fresh_response intake (value (str "plan")))
    × ((dispatch_command intake ask echo ([], 0)).1.1 ≡ 1)
    × (dispatch_command intake ask echo
          (submissions intake ((other_ask, echo) ∷ []) (dispatch_command intake ask echo ([], 0)).1)
        ≡ (
          replayed_response intake (stored_outcome intake (value (str "plan"))),
          submissions intake ((other_ask, echo) ∷ []) (dispatch_command intake ask echo ([], 0)).1,
        ))
unfolding navis.Base.is_blank navis.Base.lookup
dispatch_command-once_example =
    dispatch_command-once intake ask echo echo (value (str "plan")) [] 0 1 ((other_ask, echo) ∷ [])
      refl refl refl

dispatch_command-collision_example :
    dispatch_command intake other_ask echo
      (submissions intake ((ask, echo) ∷ []) (dispatch_command intake ask echo ([], 0)).1)
    ≡ (
      thrown collision,
      submissions intake ((ask, echo) ∷ []) (dispatch_command intake ask echo ([], 0)).1,
    )
unfolding navis.Base.is_blank navis.Base.lookup sort_value
dispatch_command-collision_example =
    dispatch_command-collision intake ask other_ask echo echo (value (str "plan")) [] 0 1
      ((ask, echo) ∷ []) refl refl refl refl refl refl
