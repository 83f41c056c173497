-- ===== src/Ledger/Envelope.antt =====
-- domain/src/ports/event-store.ts: the envelope of an event, the retention classes, the snapshot.
use navis.Base.{
  ℕ, String, ◌≡◌, refl, Bool, true, false, ◌&&◌, ◌||◌, Option, none, some, ◌==◌, nat_eq, string_eq,
  leb, Dict, lookup,
}
use navis.Schema.Canonical.{Value, str}
use navis.Schema.Ids.{is_uuidv7, optional, max_safe_integer}
use navis.Schema.Platform.{Platform}

pub data PrivacyClass : Type 0 where
  evidence : PrivacyClass
  work : PrivacyClass
  audit : PrivacyClass

-- An optional text that may be null is `none` for both.
pub record EventEnvelope : Type 0 where
  pub event_id : String
  pub project_id : String
  pub seq : ℕ
  pub aggregate_type : String
  pub aggregate_id : String
  pub aggregate_revision : ℕ
  pub event_type : String
  pub event_schema_version : ℕ
  pub occurred_at : String
  pub recorded_at : String
  pub actor_participant_id : Option String
  pub causation_id : Option String
  pub correlation_id : Option String
  pub idempotency_key : Option String
  pub payload : Dict Value
  pub metadata : Dict Value
  pub privacy_class : PrivacyClass
  pub state_version : ℕ

module _ (z : Platform) where
  abbrev is_link : Option String → Bool
  is_link = optional (z.text_between 1 512)

  abbrev is_count : ℕ → Bool
  is_count n = leb 1 n && leb n max_safe_integer

  -- `eventEnvelopeSchema` accepts the envelope.
  unfoldable pub is_event_envelope : EventEnvelope → Bool
  is_event_envelope e =
      is_uuidv7 e.event_id
      && is_uuidv7 e.project_id
      && is_count e.seq
      && z.text_between 1 64 e.aggregate_type
      && is_uuidv7 e.aggregate_id
      && is_count e.aggregate_revision
      && z.text_between 1 128 e.event_type
      && is_count e.event_schema_version
      && z.instant e.occurred_at
      && z.instant e.recorded_at
      && optional is_uuidv7 e.actor_participant_id
      && is_link e.causation_id
      && is_link e.correlation_id
      && is_link e.idempotency_key
      && leb e.state_version max_safe_integer

pub data RetentionClass : Type 0 where
  permanent : RetentionClass
  archive_after_snapshot : RetentionClass

-- `archivableEventTypes.includes`
unfoldable pub is_archivable : String → Bool
is_archivable t = t == "asset.created" || t == "workrun.started" || t == "workrun.transitioned"

abbrev class_of : Bool → RetentionClass
class_of true = archive_after_snapshot
class_of false = permanent

abbrev pub is_permanent : RetentionClass → Bool
is_permanent permanent = true
is_permanent archive_after_snapshot = false

unfoldable pub event_retention_class : String → RetentionClass
unfolding is_archivable
event_retention_class t = class_of (is_archivable t)

-- `ProjectionSnapshot`; its state carries the cursor as a field of its own
pub record ProjectionSnapshot : Type 0 where
  pub state_version : ℕ
  pub seq : ℕ
  pub schema_version : ℕ
  pub state : Value
  pub state_seq : Option ℕ

-- `projectionSnapshotSchema` accepts the snapshot.
unfoldable pub is_projection_snapshot : ProjectionSnapshot → Bool
is_projection_snapshot s =
    leb s.state_version max_safe_integer
    && leb 1 s.seq
    && leb s.seq max_safe_integer
    && leb 1 s.schema_version
    && leb s.schema_version max_safe_integer
    && is_cursor s.state_seq
  where
    is_cursor : Option ℕ → Bool
    is_cursor none = false
    is_cursor (some n) = n == s.seq

abbrev device_text : Option Value → Option String
device_text (some (str d)) = some d
device_text _ = none

-- `deviceOf`: the device that authored a stored event
unfoldable pub device_of : EventEnvelope → Option String
unfolding lookup
device_of e = device_text (lookup "device_id" e.metadata)

event_retention_class_test : event_retention_class "project.created" ≡ permanent
unfolding event_retention_class
event_retention_class_test = refl
