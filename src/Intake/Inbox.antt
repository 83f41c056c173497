-- ===== src/Intake/Inbox.antt =====
-- The claims of infrastructure/src/persistence/in-memory/in-memory-command-inbox.ts, and
-- `dispatchCommand` over them. A claim that is written before a throw stays written, so a call gives
-- the state that it leaves whether it returns or throws.
use navis.Base.{
  ℕ, String, Bool, true, false, not, ◌||◌, Option, none, some, ◌==◌, string_eq, ltb, Dict, lookup,
  insert, if◌then◌else◌, is_blank, colon_join,
}
use navis.Base.Results.{Result, done, thrown}
use navis.Schema.Canonical.{Value, str, flag, obj, member, no_more, canonical_json}

pub data CommandStatus : Type 0 where
  applied : CommandStatus
  failed : CommandStatus

-- the terminal record of a submission; its result is canonical JSON
pub record CommandOutcome : Type 0 where
  pub status : CommandStatus
  pub result : String

pub record Claim : Type 0 where
  pub command_type : String
  pub payload_hash : String
  pub outcome : Option CommandOutcome

-- the claims by `${projectId}:${key}`
abbrev pub Inbox : Type 0
Inbox = Dict Claim

pub data InboxError : Type 0 where
  collision : InboxError
  unknown_key : InboxError
  key_required : InboxError
  outcome_exceeds_budget : InboxError
  execution_failed : InboxError
  unparsable_result : InboxError

pub data BeginResult : Type 0 where
  fresh : BeginResult
  replay : CommandOutcome → BeginResult
  processing : BeginResult

abbrev pub resolve : Option CommandOutcome → BeginResult
resolve none = processing
resolve (some o) = replay o

abbrev pub begin_row :
    Option Claim → String → String → String → Inbox → Result InboxError (BeginResult × Inbox)
begin_row none k command_type payload_hash inbox = done (
  fresh,
  insert k (record { command_type = command_type; payload_hash = payload_hash; outcome = none })
      inbox,
)
begin_row (some row) k command_type payload_hash inbox =
    if not (row.payload_hash == payload_hash) || not (row.command_type == command_type)
    then thrown collision
    else done (resolve row.outcome, inbox)

unfoldable pub begin :
    String → String → String → String → Inbox → Result InboxError (BeginResult × Inbox)
begin project_id key command_type payload_hash inbox =
    let k = colon_join project_id key in
    begin_row (lookup k inbox) k command_type payload_hash inbox

abbrev pub complete_outcome :
    Option CommandOutcome → Claim → String → CommandOutcome → Inbox → Result InboxError Inbox
complete_outcome (some _) row k outcome inbox = thrown collision
complete_outcome none row k outcome inbox =
    done (insert k (record row { outcome = some outcome }) inbox)

abbrev pub complete_row : Option Claim → String → CommandOutcome → Inbox → Result InboxError Inbox
complete_row none k outcome inbox = thrown unknown_key
complete_row (some row) k outcome inbox = complete_outcome row.outcome row k outcome inbox

-- one claim, one outcome
unfoldable pub complete : String → String → CommandOutcome → Inbox → Result InboxError Inbox
complete project_id key outcome inbox =
    let k = colon_join project_id key in complete_row (lookup k inbox) k outcome inbox

pub record DispatchRequest : Type 0 where
  pub project_id : String
  pub idempotency_key : String
  pub command_type : String
  pub payload : Value

-- `DispatchResultValue`
pub data ResultValue : Type 0 where
  value : Value → ResultValue
  error : Value → ResultValue

abbrev pub result_json : ResultValue → Value
result_json (value v) = obj (member "ok" (flag true) (member "value" v no_more))
result_json (error e) = obj (member "ok" (flag false) (member "error" e no_more))

abbrev pub status_of : ResultValue → CommandStatus
status_of (value v) = applied
status_of (error e) = failed

-- A response; a stored result is whatever the JSON of the store holds.
pub data DispatchResponse : Type 0 where
  answered : CommandStatus → Value → (replayed : Bool) → DispatchResponse
  in_flight : DispatchResponse

-- the JSON of the engine, the hash of node:crypto and the length of a text in UTF-16 units
pub record IntakePlatform : Type 0 where
  pub stringify : Value → String
  pub json_parse : String → Option Value
  pub sha256_hex : String → String
  pub utf16_length : String → ℕ

-- `OUTCOME_SIZE_BUDGET`
abbrev pub outcome_size_budget : ℕ
outcome_size_budget = 65536

abbrev pub oversize_failure : ResultValue
oversize_failure = error (str "command-outcome-exceeds-intake-budget")

module _ (p : IntakePlatform) where
  -- `hashCommandPayload`
  abbrev pub hash_command_payload : Value → String
  hash_command_payload v = colon_join "sha256" (p.sha256_hex (canonical_json p.stringify v))

  -- the outcome that is stored for a result
  unfoldable pub stored_outcome : ResultValue → CommandOutcome
  stored_outcome r =
      if ltb outcome_size_budget (p.utf16_length (canonical_json p.stringify (result_json r)))
      then record {
        status = failed;
        result = canonical_json p.stringify (result_json oversize_failure);
      }
      else record { status = status_of r; result = canonical_json p.stringify (result_json r) }

  -- the answer of a call that executed
  unfoldable pub fresh_response : ResultValue → Result InboxError DispatchResponse
  fresh_response r =
      if ltb outcome_size_budget (p.utf16_length (canonical_json p.stringify (result_json r)))
      then thrown outcome_exceeds_budget
      else done (answered (status_of r) (result_json r) false)

  abbrev pub parsed : CommandStatus → Option Value → Result InboxError DispatchResponse
  parsed s none = thrown unparsable_result
  parsed s (some v) = done (answered s v true)

  abbrev pub replayed_response : CommandOutcome → Result InboxError DispatchResponse
  replayed_response o = parsed o.status (p.json_parse o.result)

module _ (p : IntakePlatform) {W : Type 0} where
  abbrev pub finish :
      ResultValue
      → Result InboxError Inbox
      → Inbox
      → W
      → Result InboxError DispatchResponse × (Inbox × W)
  finish r (thrown e) claimed w = (thrown e, (claimed, w))
  finish r (done inbox) claimed w = (fresh_response p r, (inbox, w))

  abbrev pub executed :
      DispatchRequest
      → Inbox
      → Option ResultValue × W
      → Result InboxError DispatchResponse × (Inbox × W)
  executed q claimed (none, w) = (thrown execution_failed, (claimed, w))
  executed q claimed (some r, w) =
      finish r (complete q.project_id q.idempotency_key (stored_outcome p r) claimed) claimed w

  abbrev pub after_begin :
      DispatchRequest
      → (Value → W → Option ResultValue × W)
      → Result InboxError (BeginResult × Inbox)
      → Inbox
      → W
      → Result InboxError DispatchResponse × (Inbox × W)
  after_begin q execute (thrown e) inbox w = (thrown e, (inbox, w))
  after_begin q execute (done (replay o, claimed)) inbox w = (replayed_response p o, (claimed, w))
  after_begin q execute (done (processing, claimed)) inbox w = (done in_flight, (claimed, w))
  after_begin q execute (done (fresh, claimed)) inbox w = executed q claimed (execute q.payload w)

  -- `dispatchCommand`; the executor maps the payload and the state of the world to a result, or
  -- throws, and to the world that it leaves
  unfoldable pub dispatch_command :
      DispatchRequest
      → (Value → W → Option ResultValue × W)
      → Inbox × W
      → Result InboxError DispatchResponse × (Inbox × W)
  unfolding is_blank begin complete stored_outcome fresh_response
  dispatch_command q execute (inbox, w) =
      if is_blank q.idempotency_key
      then (thrown key_required, (inbox, w))
      else after_begin q execute
          (begin q.project_id q.idempotency_key q.command_type (hash_command_payload p q.payload)
            inbox)
          inbox w
