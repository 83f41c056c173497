-- ===== src/Ingest/Batch.antt =====
-- application/src/ingest/ingest-batch.ts: the validation of each event, the project of the batch, the
-- standing of each event in the ledger, the one append and the outcome of each index.
use navis.Base.{
  ℕ, zero, suc, String, Bool, true, false, not, ◌||◌, List, [], ◌∷◌, Option, none, some, ◌+◌, ◌==◌,
  nat_eq, string_eq, is_some_eq, any, Dict, lookup, get_or_else, if◌then◌else◌, colon_join,
}
use navis.Base.Results.{Result, done, thrown}
use navis.Schema.Canonical.{Value, str, obj, null, num, object, entries, canonical_json}
use navis.Schema.Platform.{Platform}
use navis.Wire.WorkEvent.{
  WireChecks, WorkEventError, unsupported_version, schema_violation as violation,
  parse_canonical_work_event,
}
use navis.Wire.Receipt.{
  RejectionToken, schema_version_unsupported, schema_violation, payload_hash_mismatch,
  authorization_denied, IngestRejection, Outcome, accepted, duplicate, rejected, IngestEventResult,
  IngestResponse,
}
use navis.Ledger.Envelope.{EventEnvelope, PrivacyClass, evidence, work, audit}
use navis.Ledger.Store.{EventIdentity}

pub record IngestEventInput : Type 0 where
  pub event_id : String
  pub causation_id : Option String
  pub event : Value
  pub payload_hash : Option String

pub record IngestBatchRequest : Type 0 where
  pub device_id : String
  pub participant_id : Option String
  pub events : List IngestEventInput

-- `IngestBatchDeps` without the store, and what the module takes of its platform
pub record IngestDeps : Type 0 where
  pub can_capture : Option (String → Bool)
  pub verify_payload_hash : Bool
  -- the clock at its n-th reading for a batch
  pub now : ℕ → String
  -- `JSON.stringify`
  pub stringify : Value → String
  pub checks : WireChecks

-- an event that was validated, at its index of the batch
pub record ValidatedEvent : Type 0 where
  pub index : ℕ
  pub input : IngestEventInput
  pub event : Dict Value

-- a text and a number of a parsed event, which its schema requires
abbrev text_in : Option Value → String
text_in (some (str s)) = s
text_in _ = ""

abbrev pub text_of : String → Dict Value → String
text_of k e = text_in (lookup k e)

abbrev number_in : Option Value → ℕ
number_in (some (num n)) = n
number_in _ = 0

abbrev fields_in : Option Value → Dict Value
fields_in (some (obj o)) = entries o
fields_in _ = []

-- `privacyClassFor`
unfoldable pub privacy_class_for : String → PrivacyClass
privacy_class_for t =
    if t == "user.message"
      || t == "agent.message"
      || t == "tool.call.requested"
      || t == "tool.call.result"
      || t == "checkpoint.suggested"
    then audit
    else if t == "evidence.captured"
    then evidence
    else work

-- what the loop over the events collects
pub record Triage : Type 0 where
  pub duplicates : List ℕ
  pub rejections : List IngestRejection
  pub validated : List ValidatedEvent

abbrev refuse : ℕ → RejectionToken → Triage → Triage
refuse i t rest = record rest { rejections = record { index = i; token = t } ∷ rest.rejections }

abbrev repeated : ℕ → Triage → Triage
repeated i rest = record rest { duplicates = i ∷ rest.duplicates }

abbrev keep : ℕ → IngestEventInput → Dict Value → Triage → Triage
keep i input e rest = record rest {
  validated = record { index = i; input = input; event = e } ∷ rest.validated;
}

module _ (z : Platform) (d : IngestDeps) where
  abbrev hash_matches : Dict Value → Option String → Bool
  hash_matches e none = true
  hash_matches e (some claimed) =
      z.sha256_hex (canonical_json d.stringify (obj (object e))) == claimed

  -- the hash check of a parsed event, or the refusal of one that does not parse
  unfoldable pub admit : ℕ → IngestEventInput → Result WorkEventError (Dict Value) → Triage → Triage
  admit i input (thrown (unsupported_version n)) rest = refuse i schema_version_unsupported rest
  admit i input (thrown violation) rest = refuse i schema_violation rest
  admit i input (done e) rest =
      if not d.verify_payload_hash || hash_matches e input.payload_hash
      then keep i input e rest
      else refuse i payload_hash_mismatch rest

  unfoldable pub triage : ℕ → List String → List IngestEventInput → Triage
  unfolding any admit parse_canonical_work_event
  triage i seen [] = record { duplicates = []; rejections = []; validated = [] }
  triage i seen (input ∷ rest) =
      if any (λ id. id == input.event_id) seen
      then repeated i (triage (i + 1) seen rest)
      else admit i input (parse_canonical_work_event z d.checks input.event)
          (triage (i + 1) (input.event_id ∷ seen) rest)

module _ (d : IngestDeps) where
  -- `toEnvelope`, before the schema checks it
  unfoldable pub envelope_for : IngestBatchRequest → ℕ → ℕ → String → ValidatedEvent → EventEnvelope
  unfolding privacy_class_for lookup
  envelope_for r seq state_version recorded_at v = record {
    event_id = v.input.event_id;
    project_id = text_of "project_id" v.event;
    seq = seq;
    aggregate_type = "project";
    aggregate_id = text_of "project_id" v.event;
    aggregate_revision = seq;
    event_type = text_of "event_type" v.event;
    event_schema_version = number_in (lookup "schema_version" v.event);
    occurred_at = text_of "occurred_at" v.event;
    recorded_at = recorded_at;
    actor_participant_id = r.participant_id;
    causation_id = v.input.causation_id;
    correlation_id = none;
    idempotency_key = some (colon_join r.device_id v.input.event_id);
    payload = fields_in (lookup "payload" v.event);
    metadata =
        ("device_id", str r.device_id)
        ∷ ("source_runtime", get_or_else (lookup "source_runtime" v.event) null)
        ∷ ("source_session_id", get_or_else (lookup "source_session_id" v.event) null)
        ∷ ("extractor_version", get_or_else (lookup "extractor_version" v.event) null)
        ∷ ("raw_ref", get_or_else (lookup "raw_ref" v.event) null)
        ∷ ("confidence", get_or_else (lookup "confidence" v.event) null)
        ∷ ("review_status", get_or_else (lookup "review_status" v.event) null)
        ∷ [];
    privacy_class = privacy_class_for (text_of "event_type" v.event);
    state_version = state_version;
  }

  -- the envelopes of the events that are appended, from the sequence number that was reached
  unfoldable pub envelopes :
      IngestBatchRequest → ℕ → ℕ → ℕ → List ValidatedEvent → List EventEnvelope
  unfolding envelope_for
  envelopes r head offset state_version [] = []
  envelopes r head offset state_version (v ∷ vs) =
      envelope_for r (head + offset + 1) state_version (d.now offset) v
      ∷ envelopes r head (offset + 1) state_version vs

-- `storedDevice.get`: the device of a stored identifier, where it is stored; an identifier occurs
-- once among the identities, as they come from the keys of a map
unfoldable pub stored_device : String → List EventIdentity → Option (Option String)
stored_device id [] = none
stored_device id (i ∷ rest) = if i.event_id == id then some i.device_id else stored_device id rest

-- how an event stands to what is stored
pub data Standing : Type 0 where
  fresh : Standing
  own_duplicate : Standing
  foreign : Standing

abbrev pub standing_of : String → Option (Option String) → Standing
standing_of device none = fresh
standing_of device (some known) = if is_some_eq known device then own_duplicate else foreign

abbrev pub is_fresh : Standing → Bool
is_fresh fresh = true
is_fresh _ = false

abbrev pub is_own_duplicate : Standing → Bool
is_own_duplicate own_duplicate = true
is_own_duplicate _ = false

abbrev pub is_foreign : Standing → Bool
is_foreign foreign = true
is_foreign _ = false

abbrev pub reject_with : RejectionToken → ValidatedEvent → IngestRejection
reject_with t v = record { index = v.index; token = t }

-- the last rejection of an index, as later entries of a map replace earlier ones
unfoldable pub rejection_at : ℕ → List IngestRejection → Option IngestRejection
rejection_at i [] = none
rejection_at i (r ∷ rest) = elim (rejection_at i rest) [
  | some later ↦ some later
  | none ↦ if r.index == i then some r else none
]

-- `outcomes.get(index)`
unfoldable pub outcome_at : List ℕ → List IngestRejection → List ℕ → ℕ → Option Outcome
unfolding any rejection_at
outcome_at appended rejections duplicates i = elim (rejection_at i rejections) [
  | some r ↦ some (rejected r)
  | none ↦
      if any (λ j. j == i) duplicates
      then some duplicate
      else if any (λ j. j == i) appended
      then some accepted
      else none
]

abbrev pub with_result : ℕ → Option Outcome → List IngestEventResult → List IngestEventResult
with_result i none rest = rest
with_result i (some o) rest = record { index = i; outcome = o } ∷ rest

-- `resultsFor`, for the indices from `i`, `count` of them
unfoldable pub results_from :
    List ℕ → List IngestRejection → List ℕ → ℕ → ℕ → List IngestEventResult
unfolding outcome_at
results_from appended rejections duplicates i zero = []
results_from appended rejections duplicates i (suc count) =
    with_result i (outcome_at appended rejections duplicates i)
      (results_from appended rejections duplicates (i + 1) count)

unfoldable pub results_for : ℕ → List ℕ → List IngestRejection → List ℕ → List IngestEventResult
unfolding results_from
results_for count appended rejections duplicates =
    results_from appended rejections duplicates 0 count

-- `IngestBatchResponse`
pub record BatchResponse : Type 0 where
  pub project_id : Option String
  pub receipt : IngestResponse

unfoldable pub respond : Option String → ℕ → List ℕ → List IngestRejection → List ℕ → BatchResponse
unfolding results_for
respond project_id count appended rejections duplicates = record {
  project_id = project_id;
  receipt = record {
    accepted_at = appended;
    rejections = rejections;
    duplicate_at = duplicates;
    event_results = results_for count appended rejections duplicates;
  };
}

abbrev pub capture_allowed : Option (String → Bool) → String → Bool
capture_allowed none project_id = true
capture_allowed (some test) project_id = test project_id

-- every index from `i` that has no rejection yet
unfoldable pub deny_rest : List IngestRejection → ℕ → ℕ → List IngestRejection
deny_rest rejections i zero = []
deny_rest rejections i (suc count) =
    let rest = deny_rest rejections (i + 1) count in
    if any (λ r. r.index == i) rejections
    then rest
    else record { index = i; token = authorization_denied } ∷ rest

abbrev pub version_of : List EventEnvelope → ℕ
version_of [] = 0
version_of (e ∷ rest) = e.state_version
