-- ===== src/Outbox/Upload.antt =====
-- bridge-daemon/src/outbox/upload-loop.ts: one round of the upload. The message of a transport error
-- is left out of the slice.
use Prim.Native.String.{compare}
use Prim.Native.Nat.{Ordering}
use navis.Base.{
  ℕ, zero, suc, String, ◌&&◌, List, [], ◌∷◌, Option, none, some, nat_eq, leb, ltb, length, map,
  if◌then◌else◌,
}
use navis.Base.Results.{Result, done, ◌>>=◌}
use navis.Wire.Receipt.{
  IngestResponse, IngestEventResult, Outcome, rejected, parse_ingest_receipt, token_text,
}
use navis.Outbox.Store.{
  OutboxEvent, Outbox, OutboxError, OutboxClock, claim_pending, acknowledge, release_sending,
  quarantine,
}

-- `MAX_BATCH`
abbrev pub max_batch : ℕ
max_batch = 50

-- What the sender gives: a failure, or a status with the response that the JSON of the body holds
-- under `data`, none where it is no JSON or not of the response's shape.
pub record HttpResponse : Type 0 where
  pub status : ℕ
  pub body : Option IngestResponse
  pub retry_after : Option String

pub record ParsedReply : Type 0 where
  pub acked : List String
  pub rejections : List (String × String)

unfoldable pub event_at : ℕ → List OutboxEvent → Option OutboxEvent
event_at i [] = none
event_at zero (e ∷ es) = some e
event_at (suc i) (e ∷ es) = event_at i es

abbrev pub file_result : Outcome → OutboxEvent → ParsedReply → ParsedReply
file_result (rejected r) e reply = record reply {
  rejections = (e.event_id, token_text r.token) ∷ reply.rejections;
}
file_result _ e reply = record reply { acked = e.event_id ∷ reply.acked }

abbrev pub filed : Outcome → Option OutboxEvent → Option ParsedReply → Option ParsedReply
filed o (some e) (some reply) = some (file_result o e reply)
filed o _ _ = none

-- the loop over the results; none is the throw that the `catch` takes
unfoldable pub sort_results : List IngestEventResult → List OutboxEvent → Option ParsedReply
unfolding event_at
sort_results [] batch = some (record { acked = []; rejections = [] })
sort_results (r ∷ rs) batch = filed r.outcome (event_at r.index batch) (sort_results rs batch)

-- `parseReply`; none is the transport refusal
unfoldable pub parse_reply : Option IngestResponse → List OutboxEvent → Option ParsedReply
unfolding sort_results
parse_reply none batch = none
parse_reply (some receipt) batch =
    if parse_ingest_receipt receipt (length batch)
    then sort_results receipt.event_results batch
    else none

pub record UploadLoopSlice : Type 0 where
  pub claimed : List OutboxEvent
  pub acked_count : ℕ
  -- the retry time of each released identifier
  pub retried : List (String × String)
  pub next_tick_at : String

-- the first of the times in order
unfoldable pub first_time : String → List (String × String) → String
first_time best [] = best
first_time best ((id, t) ∷ rest) =
    first_time (elim (compare t best) [ Ordering.lt ↦ t | _ ↦ best ]) rest

abbrev first_or : String → List (String × String) → String
first_or fallback [] = fallback
first_or fallback ((id, t) ∷ rest) = first_time t rest

unfoldable pub quarantine_all : List (String × String) → Outbox → Result OutboxError Outbox
unfolding quarantine
quarantine_all [] o = done o
quarantine_all ((id, reason) ∷ rest) o = do o' ← quarantine id reason o; quarantine_all rest o'

-- `if (reply.acked.length > 0)`
abbrev pub acknowledge_some : List String → String → Outbox → Outbox
acknowledge_some [] now o = o
acknowledge_some (id ∷ ids) now o = acknowledge (id ∷ ids) now o

abbrev pub ids_of : List OutboxEvent → List String
ids_of es = map (λ e. e.event_id) es

-- the reply of a response whose status says that it went well
abbrev pub reply_to : Option HttpResponse → List OutboxEvent → Option ParsedReply
reply_to none batch = none
reply_to (some r) batch =
    if leb 200 r.status && ltb r.status 300 then parse_reply r.body batch else none

-- the floor that a refusal by status sets for the retries
abbrev pub not_before_of : Option HttpResponse → Option String
not_before_of none = none
not_before_of (some r) = if leb 200 r.status && ltb r.status 300 then none else r.retry_after

module _ (c : OutboxClock) (backoff : ℕ → ℕ) where
  unfoldable pub settle_reply :
      List OutboxEvent
      → Option HttpResponse
      → Option ParsedReply
      → String
      → String
      → Outbox
      → Result OutboxError (UploadLoopSlice × Outbox)
  unfolding quarantine_all first_time
  settle_reply claimed response none now_iso now o = do
    (times, o') ← release_sending c backoff (ids_of claimed) (not_before_of response) now o
    done (
      record {
        claimed = claimed;
        acked_count = 0;
        retried = times;
        next_tick_at = first_or now_iso times;
      },
      o',
    )
  settle_reply claimed response (some reply) now_iso now o = do
    o' ← quarantine_all reply.rejections (acknowledge_some reply.acked now o)
    done (
      record {
        claimed = claimed;
        acked_count = length reply.acked;
        retried = [];
        next_tick_at = now_iso;
      },
      o',
    )

  unfoldable pub upload :
      List OutboxEvent
      → (List OutboxEvent → Option HttpResponse)
      → String
      → String
      → Outbox
      → Result OutboxError (UploadLoopSlice × Outbox)
  unfolding settle_reply parse_reply
  upload [] send now_iso now o =
      done (record { claimed = []; acked_count = 0; retried = []; next_tick_at = now_iso }, o)
  upload (e ∷ es) send now_iso now o =
      settle_reply (e ∷ es) (send (e ∷ es)) (reply_to (send (e ∷ es)) (e ∷ es)) now_iso now o

  unfoldable pub tick :
      (List OutboxEvent → Option HttpResponse)
      → String
      → String
      → String
      → Outbox
      → Result OutboxError (UploadLoopSlice × Outbox)
  unfolding claim_pending upload
  tick send device_id now_iso now o =
      let (claimed, o') = claim_pending device_id max_batch now_iso now o in
      upload claimed send now_iso now o'
