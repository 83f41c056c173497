-- ===== src/Scenarios/Transport.antt =====
-- The theorems on the way of a captured event into the ledger, at concrete inputs.
use navis.Base.{
  ◌<◌, ℕ, ◌≤◌, ◌==◌, nat_eq, any, map, String, ◌≡◌, refl, arith, List, [], ◌∷◌, length, Option,
  none, some, Bool, true, false, Dict, All, is_present, lookup,
}
use navis.Base.Results.{Result, done, thrown}
use navis.Schema.Canonical.{Value, Members, str, num, obj, object, member, no_more, entries}
use navis.Scenarios.Base.{plain, now, alice, project_one, report, other_id}
use navis.Scenarios.Ledgers.{show}
use navis.Wire.WorkEvent.{
  WireChecks, WorkEventError, encode_canonical_work_event, parse_canonical_work_event,
}
use navis.Wire.Roundtrip.{parse-encode}
use navis.Wire.Receipt.{
  IngestResponse, IngestEventResult, accepted, duplicate, is_accepted, is_duplicate, is_rejected,
  all_different,
}
use navis.Wire.Coherent.{holds, parse_ingest_receipt-lists}
use navis.Ledger.Store.{EventStore, empty_store}
use navis.Ledger.Sound.{empty_store-IsSound}
use navis.Ingest.Batch.{IngestBatchRequest, IngestDeps, IngestEventInput, BatchResponse}
use navis.Ingest.Flow.{ingest_batch}
use navis.Ingest.Resend.{ingest_batch-again}
use navis.Ingest.Outcomes.{range_from, ingest_batch-indices}
use navis.Ingest.Stored.{IsStored, is_acked, ingest_batch-IsStored}
use navis.Outbox.Store.{
  Outbox, OutboxEvent, OutboxClock, OutboxCaptureInput, work_policy, empty_outbox, default_backoff,
  claim_pending, release_sending,
}
use navis.Outbox.Sound.{IsSound}
use navis.Outbox.Calls.{
  OutboxCall, call_capture_once, call_promote, call_claim, outbox_calls, outbox_calls-IsSound,
}
use navis.Outbox.Upload.{HttpResponse, UploadLoopSlice, tick, max_batch}
use navis.Outbox.Kept.{Acknowledges, tick-lost}

abbrev checks : WireChecks
checks = record { unit_interval = λ t. true }

abbrev observed : Members
observed = object (
    ("event_type", str "work.progressed")
    ∷ ("payload", obj (object (("work_id", str report) ∷ [])))
    ∷ ("schema_version", num 1)
    ∷ ("occurred_at", str now)
    ∷ ("project_id", str project_one)
    ∷ ("source_runtime", str "runtime")
    ∷ ("source_session_id", str "session")
    ∷ ("raw_ref", str "log")
    ∷ ("extractor_version", str "1")
    ∷ ("confidence", num 1)
    ∷ ("review_status", str "pending")
    ∷ [])

parse-encode_example :
    (parse_canonical_work_event plain checks (obj (object (entries observed)))
      ≡ done (entries observed))
    × (parse_canonical_work_event plain checks (obj observed) ≡ done (entries observed))
unfolding encode_canonical_work_event navis.Schema.Canonical.get_field object
    navis.Wire.WorkEvent.work_event_schema navis.Wire.WorkEvent.event_type_of
    navis.Wire.WorkEvent.parse_fields navis.Schema.Canonical.field_names
    navis.Wire.WorkEvent.event_shape navis.Wire.WorkEvent.envelope_shape navis.Wire.WorkEvent.pick
    navis.Wire.WorkEvent.parse_object navis.Wire.WorkEvent.payload_shape navis.Schema.Ids.is_uuid
    entries
parse-encode_example = parse-encode plain checks (obj observed) (entries observed) refl

abbrev deps : IngestDeps
deps = record {
  can_capture = none;
  verify_payload_hash = false;
  now = λ n. now;
  stringify = show;
  checks = checks;
}

-- one event that is well formed and one that is not
abbrev batch : IngestBatchRequest
batch = record {
  device_id = "laptop";
  participant_id = some alice;
  events =
      record { event_id = report; causation_id = none; event = obj observed; payload_hash = none }
      ∷ record { event_id = other_id; causation_id = none; event = str "none"; payload_hash = none }
      ∷ [];
}

abbrev or_nothing : {E : Type 0} {A B : Type 0} → A → B → Result E (A × B) → A × B
or_nothing a b (done p) = p
or_nothing a b (thrown e) = (a, b)

abbrev no_answer : BatchResponse
no_answer = record {
  project_id = none;
  receipt = record { accepted_at = []; rejections = []; duplicate_at = []; event_results = [] };
}

abbrev ingested : BatchResponse × EventStore
ingested = or_nothing no_answer empty_store (ingest_batch plain deps batch empty_store)

ingested_test : ingested.0.receipt.accepted_at ≡ 0 ∷ []
unfolding ingest_batch navis.Schema.Canonical.get_field object
    navis.Wire.WorkEvent.work_event_schema navis.Wire.WorkEvent.event_type_of
    navis.Wire.WorkEvent.parse_fields navis.Wire.WorkEvent.pick navis.Wire.WorkEvent.event_shape
    navis.Wire.WorkEvent.parse_object navis.Wire.WorkEvent.payload_shape navis.Schema.Ids.is_uuid
    navis.Wire.WorkEvent.envelope_shape navis.Base.Results.◌>>=◌ navis.Ingest.Flow.project_of
    navis.Ingest.Flow.standing navis.Base.Results.◌>>◌ navis.Base.Results.require navis.Base.insert
    lookup navis.Base.all any navis.Base.filter navis.Base.codes navis.Ingest.Batch.admit
    navis.Ingest.Batch.deny_rest navis.Ingest.Batch.envelope_for navis.Ingest.Batch.envelopes
    navis.Ingest.Batch.outcome_at navis.Ingest.Batch.privacy_class_for
    navis.Ingest.Batch.rejection_at navis.Ingest.Batch.respond navis.Ingest.Batch.results_for
    navis.Ingest.Batch.results_from navis.Ingest.Batch.stored_device navis.Ingest.Batch.triage
    navis.Ingest.Flow.settle navis.Ingest.Flow.store_fresh navis.Ingest.Flow.with_triage
    navis.Ledger.Envelope.device_of navis.Ledger.Envelope.event_retention_class
    navis.Ledger.Envelope.is_archivable navis.Ledger.Envelope.is_event_envelope
    navis.Ledger.Store.append navis.Ledger.Store.check_batch
    navis.Ledger.Store.existing_event_identities navis.Ledger.Store.head_seq
    navis.Ledger.Store.identities_in navis.Ledger.Store.last_seq navis.Ledger.Store.load_events
    navis.Ledger.Store.mark_permanent navis.Ledger.Store.own navis.Ledger.Store.set_mark entries
    navis.Schema.Canonical.field_names navis.Schema.Canonical.insert_field
    navis.Schema.Canonical.sort_value navis.Schema.Ids.at_end navis.Schema.Ids.hex_run
    navis.Schema.Ids.hyphen navis.Schema.Ids.is_hex navis.Schema.Ids.is_uuidv7
    navis.Schema.Ids.is_variant navis.Schema.Ids.is_version navis.Wire.WorkEvent.is_sha256
    navis.Wire.WorkEvent.named parse_canonical_work_event navis.Wire.WorkEvent.parse_versioned
    navis.Wire.WorkEvent.session_privacy_metadata
ingested_test = refl

ingest_batch-again_example :
    (b : BatchResponse) × (ingest_batch plain deps batch ingested.1 ≡ done (b, ingested.1))
    × (b.receipt.accepted_at ≡ [])
    × All
        (λ (i : ℕ). any (λ j. j == i) b.receipt.duplicate_at ≡ true)
        ingested.0.receipt.accepted_at
unfolding ingest_batch navis.Schema.Canonical.get_field object
    navis.Wire.WorkEvent.work_event_schema navis.Wire.WorkEvent.event_type_of
    navis.Wire.WorkEvent.parse_fields navis.Wire.WorkEvent.pick navis.Wire.WorkEvent.event_shape
    navis.Wire.WorkEvent.parse_object navis.Wire.WorkEvent.payload_shape navis.Schema.Ids.is_uuid
    navis.Wire.WorkEvent.envelope_shape navis.Base.Results.◌>>=◌ navis.Ingest.Flow.project_of
    navis.Ingest.Flow.standing navis.Base.Results.◌>>◌ navis.Base.Results.require navis.Base.insert
    lookup navis.Base.all any navis.Base.filter navis.Base.codes navis.Ingest.Batch.admit
    navis.Ingest.Batch.deny_rest navis.Ingest.Batch.envelope_for navis.Ingest.Batch.envelopes
    navis.Ingest.Batch.outcome_at navis.Ingest.Batch.privacy_class_for
    navis.Ingest.Batch.rejection_at navis.Ingest.Batch.respond navis.Ingest.Batch.results_for
    navis.Ingest.Batch.results_from navis.Ingest.Batch.stored_device navis.Ingest.Batch.triage
    navis.Ingest.Flow.settle navis.Ingest.Flow.store_fresh navis.Ingest.Flow.with_triage
    navis.Ledger.Envelope.device_of navis.Ledger.Envelope.event_retention_class
    navis.Ledger.Envelope.is_archivable navis.Ledger.Envelope.is_event_envelope
    navis.Ledger.Store.append navis.Ledger.Store.check_batch
    navis.Ledger.Store.existing_event_identities navis.Ledger.Store.head_seq
    navis.Ledger.Store.identities_in navis.Ledger.Store.last_seq navis.Ledger.Store.load_events
    navis.Ledger.Store.mark_permanent navis.Ledger.Store.own navis.Ledger.Store.set_mark entries
    navis.Schema.Canonical.field_names navis.Schema.Canonical.insert_field
    navis.Schema.Canonical.sort_value navis.Schema.Ids.at_end navis.Schema.Ids.hex_run
    navis.Schema.Ids.hyphen navis.Schema.Ids.is_hex navis.Schema.Ids.is_uuidv7
    navis.Schema.Ids.is_variant navis.Schema.Ids.is_version navis.Wire.WorkEvent.is_sha256
    navis.Wire.WorkEvent.named parse_canonical_work_event navis.Wire.WorkEvent.parse_versioned
    navis.Wire.WorkEvent.session_privacy_metadata
ingest_batch-again_example =
    ingest_batch-again plain deps batch ingested.0 empty_store ingested.1 refl

ingest_batch-indices_example :
    map (λ (e : IngestEventResult). e.index) ingested.0.receipt.event_results ≡ range_from 0 2
unfolding ingest_batch navis.Schema.Canonical.get_field object
    navis.Wire.WorkEvent.work_event_schema navis.Wire.WorkEvent.event_type_of
    navis.Wire.WorkEvent.parse_fields navis.Wire.WorkEvent.pick navis.Wire.WorkEvent.event_shape
    navis.Wire.WorkEvent.parse_object navis.Wire.WorkEvent.payload_shape navis.Schema.Ids.is_uuid
    navis.Wire.WorkEvent.envelope_shape navis.Base.Results.◌>>=◌ navis.Ingest.Flow.project_of
    navis.Ingest.Flow.standing navis.Base.Results.◌>>◌ navis.Base.Results.require navis.Base.insert
    lookup navis.Base.all any navis.Base.filter navis.Base.codes navis.Ingest.Batch.admit
    navis.Ingest.Batch.deny_rest navis.Ingest.Batch.envelope_for navis.Ingest.Batch.envelopes
    navis.Ingest.Batch.outcome_at navis.Ingest.Batch.privacy_class_for
    navis.Ingest.Batch.rejection_at navis.Ingest.Batch.respond navis.Ingest.Batch.results_for
    navis.Ingest.Batch.results_from navis.Ingest.Batch.stored_device navis.Ingest.Batch.triage
    navis.Ingest.Flow.settle navis.Ingest.Flow.store_fresh navis.Ingest.Flow.with_triage
    navis.Ledger.Envelope.device_of navis.Ledger.Envelope.event_retention_class
    navis.Ledger.Envelope.is_archivable navis.Ledger.Envelope.is_event_envelope
    navis.Ledger.Store.append navis.Ledger.Store.check_batch
    navis.Ledger.Store.existing_event_identities navis.Ledger.Store.head_seq
    navis.Ledger.Store.identities_in navis.Ledger.Store.last_seq navis.Ledger.Store.load_events
    navis.Ledger.Store.mark_permanent navis.Ledger.Store.own navis.Ledger.Store.set_mark entries
    navis.Schema.Canonical.field_names navis.Schema.Canonical.insert_field
    navis.Schema.Canonical.sort_value navis.Schema.Ids.at_end navis.Schema.Ids.hex_run
    navis.Schema.Ids.hyphen navis.Schema.Ids.is_hex navis.Schema.Ids.is_uuidv7
    navis.Schema.Ids.is_variant navis.Schema.Ids.is_version navis.Wire.WorkEvent.is_sha256
    navis.Wire.WorkEvent.named parse_canonical_work_event navis.Wire.WorkEvent.parse_versioned
    navis.Wire.WorkEvent.session_privacy_metadata
ingest_batch-indices_example =
    ingest_batch-indices plain deps batch ingested.0 empty_store ingested.1 refl

ingest_batch-IsStored_example :
    All
      (λ (e : IngestEventResult).
        is_acked e.outcome ≡ true → IsStored batch ingested.0.project_id ingested.1 e.index)
      ingested.0.receipt.event_results
unfolding any ingest_batch navis.Schema.Canonical.get_field object
    navis.Wire.WorkEvent.work_event_schema navis.Wire.WorkEvent.event_type_of
    navis.Wire.WorkEvent.parse_fields navis.Wire.WorkEvent.pick navis.Wire.WorkEvent.event_shape
    navis.Wire.WorkEvent.parse_object navis.Wire.WorkEvent.payload_shape navis.Schema.Ids.is_uuid
    navis.Wire.WorkEvent.envelope_shape navis.Base.Results.◌>>=◌ navis.Ingest.Flow.project_of
    navis.Ingest.Flow.standing navis.Base.Results.◌>>◌ navis.Base.insert lookup navis.Base.all
    navis.Base.filter navis.Base.Results.require navis.Base.codes navis.Ingest.Batch.admit
    navis.Ingest.Batch.deny_rest navis.Ingest.Batch.envelope_for navis.Ingest.Batch.envelopes
    navis.Ingest.Batch.outcome_at navis.Ingest.Batch.privacy_class_for
    navis.Ingest.Batch.rejection_at navis.Ingest.Batch.respond navis.Ingest.Batch.results_for
    navis.Ingest.Batch.results_from navis.Ingest.Batch.stored_device navis.Ingest.Batch.triage
    navis.Ingest.Flow.settle navis.Ingest.Flow.store_fresh navis.Ingest.Flow.with_triage
    navis.Ledger.Envelope.device_of navis.Ledger.Envelope.event_retention_class
    navis.Ledger.Envelope.is_archivable navis.Ledger.Envelope.is_event_envelope
    navis.Ledger.Store.append navis.Ledger.Store.check_batch
    navis.Ledger.Store.existing_event_identities navis.Ledger.Store.head_seq
    navis.Ledger.Store.identities_in navis.Ledger.Store.last_seq navis.Ledger.Store.load_events
    navis.Ledger.Store.mark_permanent navis.Ledger.Store.own navis.Ledger.Store.set_mark entries
    navis.Schema.Canonical.field_names navis.Schema.Canonical.insert_field
    navis.Schema.Canonical.sort_value navis.Schema.Ids.at_end navis.Schema.Ids.hex_run
    navis.Schema.Ids.hyphen navis.Schema.Ids.is_hex navis.Schema.Ids.is_uuidv7
    navis.Schema.Ids.is_variant navis.Schema.Ids.is_version navis.Wire.WorkEvent.is_sha256
    navis.Wire.WorkEvent.named parse_canonical_work_event navis.Wire.WorkEvent.parse_versioned
    navis.Wire.WorkEvent.session_privacy_metadata
ingest_batch-IsStored_example =
    ingest_batch-IsStored plain deps batch ingested.0 empty_store ingested.1 empty_store-IsSound
      (refl, (refl, tt)) refl

abbrev clock : OutboxClock
clock = record { time_of = λ t. some 0; iso_of = λ n. now }

abbrev capture_input : OutboxCaptureInput
capture_input = record {
  event_id = report;
  device_id = "laptop";
  project_id = project_one;
  causation_id = none;
  event_type = "work.progressed";
  event_json = "{}";
  privacy_class = work_policy;
}

abbrev to_send : List OutboxCall
to_send =
    call_capture_once capture_input "f1" "s1" now
    ∷ call_promote report now
    ∷ call_capture_once capture_input "f2" "s1" now
    ∷ call_claim "laptop" 5 now now
    ∷ []

outbox_calls-IsSound_example : IsSound (outbox_calls clock default_backoff to_send empty_outbox)
outbox_calls-IsSound_example = outbox_calls-IsSound clock default_backoff to_send

abbrev waiting : Outbox
waiting =
    outbox_calls clock default_backoff
      (call_capture_once capture_input "f1" "s1" now ∷ call_promote report now ∷ []) empty_outbox

-- a sender that reaches nobody
abbrev unreachable : List OutboxEvent → Option HttpResponse
unreachable es = none

abbrev no_slice : UploadLoopSlice
no_slice = record { claimed = []; acked_count = 0; retried = []; next_tick_at = now }

abbrev round : UploadLoopSlice × Outbox
round =
    or_nothing no_slice empty_outbox
      (tick clock default_backoff unreachable "laptop" now now waiting)

-- a service that stores whatever it is sent, for a batch of one event
abbrev reached : List OutboxEvent → Option HttpResponse
reached es = some (record {
  status = 200;
  body = some (record {
    accepted_at = 0 ∷ [];
    rejections = [];
    duplicate_at = [];
    event_results = record { index = 0; outcome = accepted } ∷ [];
  });
  retry_after = none;
})

abbrev good_round : UploadLoopSlice × Outbox
good_round =
    or_nothing no_slice empty_outbox (tick clock default_backoff reached "laptop" now now waiting)

tick-lost_example :
    (r : HttpResponse) × (reached (claim_pending "laptop" max_batch now now waiting).0 ≡ some r)
    × Acknowledges r (claim_pending "laptop" max_batch now now waiting).0 report
unfolding any tick outbox_calls navis.Outbox.Store.promote_to_pending navis.Base.Results.◌>>=◌
    navis.Outbox.Store.capture_once lookup navis.Base.Results.◌>>◌ navis.Base.Results.require
    navis.Wire.Receipt.parse_ingest_receipt navis.Outbox.Store.acknowledge
tick-lost_example =
    tick-lost clock default_backoff reached "laptop" report now now waiting good_round.1
      good_round.0 refl refl refl

abbrev released : List (String × String) × Outbox
released = or_nothing [] empty_outbox (
    release_sending clock default_backoff (report ∷ []) none now
      (claim_pending "laptop" max_batch now now waiting).1)

abbrev two_results : IngestResponse
two_results = record {
  accepted_at = 1 ∷ [];
  rejections = [];
  duplicate_at = 0 ∷ [];
  event_results =
      record { index = 1; outcome = accepted } ∷ record { index = 0; outcome = duplicate } ∷ [];
}

parse_ingest_receipt-lists_example :
    (length two_results.event_results ≡ 2)
    × (all_different (map (λ r. r.index) two_results.event_results) ≡ true)
    × All (λ (e : IngestEventResult). e.index < 2) two_results.event_results
    × All
        (λ (e : IngestEventResult). holds e.index two_results.accepted_at ≡ is_accepted e.outcome)
        two_results.event_results
    × All
        (λ (e : IngestEventResult). holds e.index two_results.duplicate_at ≡ is_duplicate e.outcome)
        two_results.event_results
    × All
        (λ (e : IngestEventResult).
          holds e.index (map (λ r. r.index) two_results.rejections) ≡ is_rejected e.outcome)
        two_results.event_results
unfolding any navis.Wire.Receipt.parse_ingest_receipt
parse_ingest_receipt-lists_example = parse_ingest_receipt-lists two_results 2 refl
