-- ===== src/Wire/WorkEvent.antt =====
-- contracts/src/work-event.ts and wire-primitives.ts: the Canonical Work Event, in its two
-- tolerances. A parse of zod is the value that it returns, or none where it throws; the issues of a
-- refusal are left out. The pair of `event_type` and `payload` is checked by the type's own schema.
use navis.Base.{
  ℕ, String, Bool, true, false, ◌&&◌, ◌||◌, List, [], ◌∷◌, Option, none, some, ◌==◌, string_eq,
  nat_eq, leb, ltb, any, all, Dict, length, codes, if◌then◌else◌,
}
use navis.Base.Results.{Result, done, thrown}
use navis.Schema.Canonical.{Value, Members, obj, str, num, get_field, field_names, object, decimal}
use navis.Schema.Ids.{is_uuid, is_hex, max_safe_integer}
use navis.Schema.Platform.{Platform}

-- What zod tests of a text or of a number that the wire holds.
pub record WireChecks : Type 0 where
  -- `z.number().min(0).max(1)` accepts a number that is no natural number, by its text
  pub unit_interval : String → Bool

-- one field of an object schema: its name, whether it may be absent, and the parse of its value
pub record Field : Type 0 where
  pub name : String
  pub may_lack : Bool
  pub parse : Value → Option Value

abbrev required : String → (Value → Option Value) → Field
required n p = record { name = n; may_lack = false; parse = p }

abbrev maybe : String → (Value → Option Value) → Field
maybe n p = record { name = n; may_lack = true; parse = p }

abbrev pub prepend : String → Option Value → Option (Dict Value) → Option (Dict Value)
prepend k (some v) (some rest) = some ((k, v) ∷ rest)
prepend k _ _ = none

abbrev pub skip_if : Bool → Option (Dict Value) → Option (Dict Value)
skip_if true rest = rest
skip_if false rest = none

-- the declared fields of an object, or none where one is missing or refused
unfoldable pub pick : List Field → Members → Option (Dict Value)
pick [] o = some []
pick (f ∷ fs) o = elim (get_field f.name o) [
  | none ↦ skip_if f.may_lack (pick fs o)
  | some v ↦ prepend f.name (f.parse v) (pick fs o)
]

abbrev pub declared : List Field → String → Bool
declared fs k = any (λ f. f.name == k) fs

-- `z.strictObject` and `z.object`
unfoldable pub parse_fields : Bool → List Field → Members → Option (Dict Value)
unfolding any all
parse_fields true fs o = if all (declared fs) (field_names o) then pick fs o else none
parse_fields false fs o = pick fs o

abbrev pub as_object : Option (Dict Value) → Option Value
as_object none = none
as_object (some d) = some (obj (object d))

unfoldable pub parse_object : Bool → List Field → Value → Option Value
parse_object strict fs (obj o) = as_object (parse_fields strict fs o)
parse_object strict fs _ = none

-- a text that passes a test
abbrev pub text_that : (String → Bool) → Value → Option Value
text_that p (str s) = if p s then some (str s) else none
text_that p _ = none

abbrev pub natural : Value → Option Value
natural (num n) = if leb n max_safe_integer then some (num n) else none
natural _ = none

abbrev pub any_json : Value → Option Value
any_json v = some v

-- `[0-9a-f]{64}`
unfoldable pub is_sha256 : String → Bool
unfolding all is_hex codes
is_sha256 s = length (codes s) == 64 && all is_hex (codes s)

pub data WorkEventType : Type 0 where
  work_started : WorkEventType
  work_progressed : WorkEventType
  work_returned : WorkEventType
  checkpoint_suggested : WorkEventType
  evidence_captured : WorkEventType
  candidate_proposed : WorkEventType
  user_message : WorkEventType
  agent_message : WorkEventType
  tool_call_requested : WorkEventType
  tool_call_result : WorkEventType

abbrev pub event_type_name : WorkEventType → String
event_type_name work_started = "work.started"
event_type_name work_progressed = "work.progressed"
event_type_name work_returned = "work.returned"
event_type_name checkpoint_suggested = "checkpoint.suggested"
event_type_name evidence_captured = "evidence.captured"
event_type_name candidate_proposed = "candidate.proposed"
event_type_name user_message = "user.message"
event_type_name agent_message = "agent.message"
event_type_name tool_call_requested = "tool.call.requested"
event_type_name tool_call_result = "tool.call.result"

abbrev all_types : List WorkEventType
all_types =
    work_started ∷ work_progressed ∷ work_returned ∷ checkpoint_suggested ∷ evidence_captured
    ∷ candidate_proposed ∷ user_message ∷ agent_message ∷ tool_call_requested ∷ tool_call_result
    ∷ []

unfoldable pub named : String → List WorkEventType → Option WorkEventType
named s [] = none
named s (t ∷ ts) = if event_type_name t == s then some t else named s ts

-- `canonicalWorkEventTypeSchema`
unfoldable pub event_type_of : String → Option WorkEventType
unfolding named
event_type_of s = named s all_types

module _ (z : Platform) (w : WireChecks) where
  abbrev pub text_wire : Value → Option Value
  text_wire = text_that (z.text_between 1 65536)

  abbrev pub raw_ref : Value → Option Value
  raw_ref = text_that (z.text_between 1 2048)

  abbrev pub uuid_ref : Value → Option Value
  uuid_ref = text_that is_uuid

  abbrev pub instant_wire : Value → Option Value
  instant_wire = text_that z.instant

  abbrev pub confidence : Value → Option Value
  confidence (num n) = if leb n 1 then some (num n) else none
  confidence (decimal t) = if w.unit_interval t then some (decimal t) else none
  confidence _ = none

  -- `envelopeShape`
  unfoldable pub envelope_shape : List Field
  envelope_shape =
      required "schema_version"
        (λ v. elim v [ num n ↦ if n == 1 then some (num n) else none | _ ↦ none ])
      ∷ required "occurred_at" instant_wire
      ∷ required "project_id" uuid_ref
      ∷ required "source_runtime" (text_that (z.text_between 1 128))
      ∷ required "source_session_id" (text_that (z.text_between 1 128))
      ∷ required "raw_ref" raw_ref
      ∷ required "extractor_version" (text_that (z.text_between 1 64))
      ∷ required "confidence" confidence
      ∷ required "review_status"
          (text_that (λ s. s == "pending" || s == "accepted" || s == "rejected"))
      ∷ []

  unfoldable pub session_privacy_metadata : List Field
  session_privacy_metadata =
      required "char_length" natural
      ∷ required "sha256" (text_that is_sha256)
      ∷ maybe "summary" text_wire
      ∷ []

  abbrev pub message_payload : Bool → List Field
  message_payload strict = required "privacy" (parse_object strict session_privacy_metadata) ∷ []

  abbrev pub tool_payload : Bool → List Field
  tool_payload strict =
      required "privacy" (parse_object strict session_privacy_metadata)
      ∷ required "tool_name" (text_that (z.text_between 1 128))
      ∷ []

  -- the payload schema of each event type
  unfoldable pub payload_shape : Bool → WorkEventType → List Field
  payload_shape strict work_started =
      required "work_id" uuid_ref
      ∷ maybe "title" (text_that (z.text_between 1 256))
      ∷ maybe "direction" text_wire
      ∷ []
  payload_shape strict work_progressed = required "work_id" uuid_ref ∷ maybe "note" text_wire ∷ []
  payload_shape strict work_returned =
      required "work_id" uuid_ref ∷ maybe "equip_id" uuid_ref ∷ maybe "summary" text_wire ∷ []
  payload_shape strict checkpoint_suggested =
      required "reason" text_wire ∷ maybe "checkpoint_id" uuid_ref ∷ []
  payload_shape strict evidence_captured = required "raw_ref" raw_ref ∷ maybe "note" text_wire ∷ []
  payload_shape strict candidate_proposed =
      required "kind" text_wire ∷ maybe "provenance" text_wire ∷ maybe "content" any_json ∷ []
  payload_shape strict user_message = message_payload strict
  payload_shape strict agent_message = message_payload strict
  payload_shape strict tool_call_requested = tool_payload strict
  payload_shape strict tool_call_result = tool_payload strict

  -- the whole event of a type
  unfoldable pub event_shape : Bool → WorkEventType → List Field
  event_shape strict t =
      required "event_type" (text_that (λ s. s == event_type_name t))
      ∷ required "payload" (parse_object strict (payload_shape strict t))
      ∷ envelope_shape

  abbrev pub of_type : Bool → Members → Option WorkEventType → Option (Dict Value)
  of_type strict o none = none
  of_type strict o (some t) = parse_fields strict (event_shape strict t) o

  abbrev pub typed : Bool → Members → Option Value → Option (Dict Value)
  typed strict o (some (str s)) = of_type strict o (event_type_of s)
  typed strict o _ = none

  -- `canonicalWorkEventSchema`, and `canonicalWorkEventStrictSchema` where strict
  unfoldable pub work_event_schema : Bool → Value → Option (Dict Value)
  work_event_schema strict (obj o) = typed strict o (get_field "event_type" o)
  work_event_schema strict _ = none

pub data WorkEventError : Type 0 where
  unsupported_version : ℕ → WorkEventError
  schema_violation : WorkEventError

abbrev pub version_in : Option Value → Option ℕ
version_in (some (num n)) = some n
version_in _ = none

abbrev pub version_claimed : Value → Option ℕ
version_claimed (obj o) = version_in (get_field "schema_version" o)
version_claimed _ = none

abbrev pub too_new : Option ℕ → Option ℕ
too_new none = none
too_new (some n) = if ltb 1 n && leb n max_safe_integer then some n else none

abbrev pub or_violation : Option (Dict Value) → Result WorkEventError (Dict Value)
or_violation none = thrown schema_violation
or_violation (some e) = done e

-- `assertSupportedVersion`, then the parse
unfoldable pub parse_versioned : Option ℕ → Option (Dict Value) → Result WorkEventError (Dict Value)
parse_versioned (some n) parsed = thrown (unsupported_version n)
parse_versioned none parsed = or_violation parsed

module _ (z : Platform) (w : WireChecks) where
  unfoldable pub encode_canonical_work_event : Value → Result WorkEventError (Dict Value)
  unfolding parse_versioned
  encode_canonical_work_event v =
      parse_versioned (too_new (version_claimed v)) (work_event_schema z w true v)

  unfoldable pub parse_canonical_work_event : Value → Result WorkEventError (Dict Value)
  unfolding parse_versioned
  parse_canonical_work_event v =
      parse_versioned (too_new (version_claimed v)) (work_event_schema z w false v)
