-- ===== src/Outbox/Store.antt =====
-- bridge-daemon/src/outbox/ports.ts and sqlite-outbox.ts, over the tables of the migration
-- 0002_outbox.sql. Each call is one transaction: it returns the new tables, or throws and leaves them.
-- Texts are compared in the order of their code points, as SQLite does. The readings of the clock
-- within one call are one.
use Prim.Native.String.{compare}
use Prim.Native.Nat.{Ordering, ◌^◌, min}
use navis.Base.{
  ℕ, zero, suc, String, Bool, true, false, not, ◌&&◌, ◌||◌, List, [], ◌∷◌, ◌++◌, Option, none, some,
  ◌+◌, ◌*◌, max, map, ◌==◌, nat_eq, string_eq, leb, any, filter, find?, Dict, lookup, insert,
  get_or_else, if◌then◌else◌, is_present, Eq,
}
use navis.Base.Results.{Result, done, thrown, ◌>>=◌, ◌>>◌, require}

pub data OutboxState : Type 0 where
  captured : OutboxState
  normalized : OutboxState
  pending : OutboxState
  sending : OutboxState
  acked : OutboxState
  local_only : OutboxState
  quarantined : OutboxState

abbrev rank : OutboxState → ℕ
rank captured = 0
rank normalized = 1
rank pending = 2
rank sending = 3
rank acked = 4
rank local_only = 5
rank quarantined = 6

instance abbrev pub outbox_state_eq : Eq OutboxState
outbox_state_eq = record { beq = λ a b. rank a == rank b }

-- the binding's privacy rule
pub data CapturePolicy : Type 0 where
  local_only_policy : CapturePolicy
  metadata_policy : CapturePolicy
  work_policy : CapturePolicy

pub record OutboxEvent : Type 0 where
  pub event_id : String
  pub device_id : String
  pub project_id : String
  pub state : OutboxState
  pub seq : Option ℕ
  pub causation_id : Option String
  pub event_type : String
  pub captured_at : String
  pub normalized_at : Option String
  pub sending_at : Option String
  pub acked_at : Option String
  pub keep_reason : Option String
  pub retry_count : ℕ
  pub retry_after : Option String
  pub payload_hash : Option String
  pub event_json : String

pub record OutboxCaptureInput : Type 0 where
  pub event_id : String
  pub device_id : String
  pub project_id : String
  pub causation_id : Option String
  pub event_type : String
  pub event_json : String
  pub privacy_class : CapturePolicy

-- a row of `capture_receipts`
pub record CaptureReceipt : Type 0 where
  pub fingerprint : String
  pub captured_at : String

-- the tables
pub record Outbox : Type 0 where
  pub events : List OutboxEvent
  pub sequences : Dict ℕ
  pub receipts : Dict CaptureReceipt
  pub session_heads : Dict String

abbrev pub empty_outbox : Outbox
empty_outbox = record { events = []; sequences = []; receipts = []; session_heads = [] }

pub data OutboxError : Type 0 where
  event_exists : OutboxError
  event_missing : OutboxError
  capture_conflict : OutboxError
  cannot_promote : OutboxState → OutboxError
  cannot_quarantine : OutboxState → OutboxError
  sequence_taken : OutboxError
  invalid_time : OutboxError

-- The clock of the outbox and the dates of the JavaScript engine. A time is in milliseconds from the
-- earliest date that the engine represents, 8640000000000000 before the epoch, so that every date has
-- one.
pub record OutboxClock : Type 0 where
  -- `new Date(text).getTime()`; none is NaN
  pub time_of : String → Option ℕ
  -- `new Date(n).toISOString()`, for a date that the engine represents
  pub iso_of : ℕ → String

-- the time of `new Date(0)`
abbrev pub epoch : ℕ
epoch = 8640000000000000

-- the default of `backoffMs`
unfoldable pub default_backoff : ℕ → ℕ
default_backoff retries = min (500 * 2 ^ min retries 7) 60000

unfoldable pub get : String → Outbox → Option OutboxEvent
unfolding find?
get event_id o = find? (λ e. e.event_id == event_id) o.events

-- `#expectGet`
abbrev pub found : Option OutboxEvent → Result OutboxError OutboxEvent
found none = thrown event_missing
found (some e) = done e

-- `UPDATE outbox_events SET … WHERE event_id = ? AND …`
unfoldable pub update :
    String → (OutboxEvent → Bool) → (OutboxEvent → OutboxEvent) → Outbox → Outbox
update event_id holds set o = record o {
  events = map (λ e. if e.event_id == event_id && holds e then set e else e) o.events;
}

abbrev pub always : OutboxEvent → Bool
always e = true

-- the row that `#captureRecord` inserts
abbrev pub captured_row : OutboxCaptureInput → String → OutboxState → Option String → OutboxEvent
captured_row i now state reason = record {
  event_id = i.event_id;
  device_id = i.device_id;
  project_id = i.project_id;
  state = state;
  seq = none;
  causation_id = i.causation_id;
  event_type = i.event_type;
  captured_at = now;
  normalized_at = none;
  sending_at = none;
  acked_at = none;
  keep_reason = reason;
  retry_count = 0;
  retry_after = none;
  payload_hash = none;
  event_json = i.event_json;
}

abbrev pub row_for : OutboxCaptureInput → String → CapturePolicy → OutboxEvent
row_for i now local_only_policy = captured_row i now local_only (some "privacy-local-only")
row_for i now _ = captured_row i now captured none

-- `capture`, and `#captureRecord`; the primary key refuses a second row of an identifier
unfoldable pub capture : OutboxCaptureInput → String → Outbox → Result OutboxError Outbox
unfolding get
capture i now o = do
  require (not (is_present (get i.event_id o))) event_exists
  done (record o { events = o.events ++ row_for i now i.privacy_class ∷ [] })

abbrev pub with_head : OutboxCaptureInput → Option String → OutboxCaptureInput
with_head i none = i
with_head i (some head) = record i { causation_id = some head }

abbrev pub remembered : OutboxCaptureInput → String → String → String → Outbox → Outbox
remembered i fingerprint session_key now o = record o {
  receipts = insert i.event_id (record { fingerprint = fingerprint; captured_at = now }) o.receipts;
  session_heads = insert session_key i.event_id o.session_heads;
}

-- the rest of `captureOnce`, over the receipt of an earlier capture
unfoldable pub capture_after :
    Option CaptureReceipt
    → OutboxCaptureInput
    → String
    → String
    → String
    → Outbox
    → Result OutboxError (Bool × Outbox)
unfolding capture
capture_after (some prior) i fingerprint session_key now o = do
  require (prior.fingerprint == fingerprint) capture_conflict
  done (true, o)
capture_after none i fingerprint session_key now o = do
  o' ← capture (with_head i (lookup session_key o.session_heads)) now o
  done (false, remembered i fingerprint session_key now o')

unfoldable pub capture_once :
    OutboxCaptureInput → String → String → String → Outbox → Result OutboxError (Bool × Outbox)
unfolding capture_after
capture_once i fingerprint session_key now o =
    capture_after (lookup i.event_id o.receipts) i fingerprint session_key now o

-- the last sequence number that a device was given
abbrev pub counter : Dict ℕ → String → ℕ
counter sequences device_id = get_or_else (lookup device_id sequences) 0

abbrev pub holds_seq : ℕ → Option ℕ → Bool
holds_seq n none = false
holds_seq n (some m) = m == n

abbrev pub promoted : ℕ → String → OutboxEvent → OutboxEvent
promoted n now e = record e {
  state = pending;
  seq = some n;
  normalized_at = some now;
  sending_at = none;
  acked_at = none;
}

-- the sequence number is kept, or drawn with `#nextSeq`; a number that is taken breaks the unique
-- constraint of the table
unfoldable pub promote_row : Option ℕ → OutboxEvent → String → Outbox → Result OutboxError Outbox
unfolding update
promote_row (some n) e now o = done (update e.event_id always (promoted n now) o)
promote_row none e now o = do
  let n = counter o.sequences e.device_id + 1
  require (not (any (λ f. f.device_id == e.device_id && holds_seq n f.seq) o.events)) sequence_taken
  done (
      update e.event_id always (promoted n now)
        (record o { sequences = insert e.device_id n o.sequences }))

unfoldable pub promote_to_pending : String → String → Outbox → Result OutboxError Outbox
unfolding get promote_row
promote_to_pending event_id now o = do
  e ← found (get event_id o)
  require (e.state == captured || e.state == sending) (cannot_promote e.state)
  promote_row e.seq e now o

-- `retry_after IS NULL OR retry_after <= ?`
abbrev due_at : String → Option String → Bool
due_at now none = true
due_at now (some t) = elim (compare t now) [ Ordering.gt ↦ false | _ ↦ true ]

abbrev pub is_due : String → String → OutboxEvent → Bool
is_due device_id now e = e.device_id == device_id && e.state == pending && due_at now e.retry_after

-- `ORDER BY seq ASC`, where no number comes first
abbrev seq_le : Option ℕ → Option ℕ → Bool
seq_le none b = true
seq_le (some a) none = false
seq_le (some a) (some b) = leb a b

unfoldable pub insert_by_seq : OutboxEvent → List OutboxEvent → List OutboxEvent
insert_by_seq e [] = e ∷ []
insert_by_seq e (f ∷ fs) = if seq_le e.seq f.seq then e ∷ f ∷ fs else f ∷ insert_by_seq e fs

unfoldable pub by_seq : List OutboxEvent → List OutboxEvent
unfolding insert_by_seq
by_seq [] = []
by_seq (e ∷ es) = insert_by_seq e (by_seq es)

unfoldable pub take : ℕ → List OutboxEvent → List OutboxEvent
take zero es = []
take (suc n) [] = []
take (suc n) (e ∷ es) = e ∷ take n es

unfoldable pub to_claim : String → ℕ → String → Outbox → List OutboxEvent
unfolding by_seq take filter
to_claim device_id limit due o = take limit (by_seq (filter (is_due device_id due) o.events))

abbrev pub is_in : OutboxState → OutboxEvent → Bool
is_in state e = e.state == state

-- the statement of `claimPending`, for each row in turn
unfoldable pub mark_sending : List OutboxEvent → String → Outbox → Outbox
unfolding update
mark_sending [] now o = o
mark_sending (e ∷ es) now o =
    mark_sending es now (
      update e.event_id (is_in pending) (λ f. record f { state = sending; sending_at = some now })
        o)

-- the rows that are claimed, and the tables; the rows are returned as they are read back
unfoldable pub claim_pending : String → ℕ → String → String → Outbox → List OutboxEvent × Outbox
unfolding to_claim mark_sending
claim_pending device_id limit due now o =
    let claimed = to_claim device_id limit due o in
    (
      map (λ (e : OutboxEvent). record e { state = sending; sending_at = some now }) claimed,
      mark_sending claimed now o,
    )

-- the two statements of `acknowledge`, each over all identifiers
unfoldable pub mark_acked : List String → String → Outbox → Outbox
unfolding update
mark_acked [] now o = o
mark_acked (id ∷ ids) now o =
    mark_acked ids now
      (update id (is_in sending) (λ e. record e { state = acked; acked_at = some now }) o)

unfoldable pub delete_acked : List String → Outbox → Outbox
unfolding filter
delete_acked [] o = o
delete_acked (id ∷ ids) o =
    delete_acked ids
      (record o { events = filter (λ e. not (e.event_id == id && is_in acked e)) o.events })

unfoldable pub acknowledge : List String → String → Outbox → Outbox
unfolding mark_acked delete_acked
acknowledge ids now o = delete_acked ids (mark_acked ids now o)

-- `#retryRow`
abbrev pub retry_count_of : Option OutboxEvent → ℕ
retry_count_of none = 0
retry_count_of (some e) = e.retry_count

-- `Math.max` with NaN is NaN, whose date `toISOString` refuses
abbrev pub parsed_floor : OutboxClock → Option String → Option ℕ
parsed_floor c none = some epoch
parsed_floor c (some t) = c.time_of t

abbrev pub later_of : ℕ → Option ℕ → Option ℕ → Option ℕ
later_of wait (some now) (some floor) = some (max (now + wait) floor)
later_of wait _ _ = none

-- the dates end as long after the epoch as they begin before it
abbrev pub timed : OutboxClock → Option ℕ → Result OutboxError String
timed c none = thrown invalid_time
timed c (some n) = if leb n (2 * epoch) then done (c.iso_of n) else thrown invalid_time

-- `releaseSending`: the retry times by identifier, and the tables
unfoldable pub release_sending :
    OutboxClock
    → (ℕ → ℕ)
    → List String
    → Option String
    → String
    → Outbox
    → Result OutboxError (List (String × String) × Outbox)
unfolding get update
release_sending c backoff [] not_before now o = done ([], o)
release_sending c backoff (id ∷ ids) not_before now o = do
  let wait = backoff (retry_count_of (get id o) + 1)
  next ← timed c (later_of wait (c.time_of now) (parsed_floor c not_before))
  let set = λ (e : OutboxEvent). record e {
    state = pending;
    sending_at = none;
    retry_count = e.retry_count + 1;
    retry_after = some next;
  }
  (times, o') ← release_sending c backoff ids not_before now (update id (is_in sending) set o)
  done ((id, next) ∷ times, o')

-- `parkLocalOnly`
unfoldable pub park_local_only : String → String → Outbox → Result OutboxError Outbox
unfolding get update
park_local_only event_id reason o = do
  e ← found (get event_id o)
  done (
      if e.state == local_only || e.state == quarantined
      then o
      else update event_id always
          (λ f. record f { state = local_only; keep_reason = some reason; seq = none }) o)

unfoldable pub quarantine : String → String → Outbox → Result OutboxError Outbox
unfolding get update
quarantine event_id reason o = do
  e ← found (get event_id o)
  require (not (e.state == captured || e.state == normalized || e.state == pending))
      (cannot_quarantine e.state)
  done (update event_id always (λ f. record f { state = quarantined; keep_reason = some reason }) o)
