-- ===== src/Outbox/Kept.antt =====
-- What leaves the outbox: only what a coherent receipt acknowledges.
use navis.Base.{
  ℕ, String, ◌≡◌, refl, sym, subst, ◌∙◌, ap, ◌≤◌, ◌<◌, leb, ltb, length, Bool, true, false, not,
  ◌&&◌, ◌||◌, List, [], ◌∷◌, Option, none, some, ◌==◌, nat_eq, string_eq, any, filter, map,
  if◌then◌else◌, eq_iff, arith, inl, inr, Bool-cases,
}
use navis.Base.Results.{done, ◌>>=◌, ◌>>◌, require, done-injective, >>=-eq-done}
use navis.Outbox.Store.{
  OutboxEvent, Outbox, OutboxClock, pending, sending, acked, quarantined, outbox_state_eq, update,
  always, is_in, mark_sending, claim_pending, mark_acked, delete_acked, acknowledge,
  release_sending, quarantine, to_claim,
}
use navis.Wire.Receipt.{
  IngestResponse, IngestEventResult, Outcome, accepted, duplicate, rejected, is_rejected,
  parse_ingest_receipt,
}
use navis.Outbox.Upload.{
  HttpResponse, ParsedReply, UploadLoopSlice, quarantine_all, acknowledge_some, ids_of, reply_to,
  settle_reply, upload, tick, max_batch, not_before_of, parse_reply, sort_results, filed, event_at,
}

-- The outbox has a row of the identifier.
abbrev pub has : String → Outbox → Bool
has id o = any (λ e. e.event_id == id) o.events

update-has :
    (id key : String) (holds : OutboxEvent → Bool) (set : OutboxEvent → OutboxEvent) (o : Outbox)
    → ((e : OutboxEvent) → (set e).event_id ≡ e.event_id)
    → has id (update key holds set o) ≡ has id o
unfolding update any
update-has id key holds set o k = each o.events
  where
    each :
        (es : List OutboxEvent)
        → any
            (λ e. e.event_id == id)
            (map (λ e. if e.event_id == key && holds e then set e else e) es)
          ≡ any (λ e. e.event_id == id) es
    each [] = refl
    each (e ∷ es) = elim (Bool-cases (e.event_id == key && holds e)) [
      | inl m ↦ rw (m, k e) (ap (λ b. e.event_id == id || b) (each es))
      | inr m ↦ rw m (ap (λ b. e.event_id == id || b) (each es))
    ]

mark_sending-has :
    (id : String) (es : List OutboxEvent) (now : String) (o : Outbox)
    → has id (mark_sending es now o) ≡ has id o
unfolding mark_sending update
mark_sending-has id [] now o = refl
mark_sending-has id (e ∷ es) now o =
    mark_sending-has id es now _ ∙ update-has id e.event_id (is_in pending) _ o (λ f. refl)

mark_acked-has :
    (id : String) (ids : List String) (now : String) (o : Outbox)
    → has id (mark_acked ids now o) ≡ has id o
unfolding mark_acked update
mark_acked-has id [] now o = refl
mark_acked-has id (i ∷ ids) now o =
    mark_acked-has id ids now _ ∙ update-has id i (is_in sending) _ o (λ f. refl)

filter-has :
    (id i : String) (es : List OutboxEvent)
    → (i == id) ≡ false
    → any (λ e. e.event_id == id) (filter (λ e. not (e.event_id == i && is_in acked e)) es)
      ≡ any (λ e. e.event_id == id) es
unfolding any filter
filter-has id i [] h = refl
filter-has id i (e ∷ es) h =
    ground (arith, h, filter-has id i es h, eq_iff e.event_id id, eq_iff e.event_id i, eq_iff i id)

delete_acked-has :
    (id : String) (ids : List String) (o : Outbox)
    → any (λ i. i == id) ids ≡ false
    → has id (delete_acked ids o) ≡ has id o
unfolding delete_acked any
delete_acked-has id [] o h = refl
delete_acked-has id (i ∷ ids) o h =
    delete_acked-has id ids _ (ground (arith, h)) ∙ filter-has id i o.events (ground (arith, h))

acknowledge_some-has :
    (id : String) (ids : List String) (now : String) (o : Outbox)
    → any (λ i. i == id) ids ≡ false
    → has id (acknowledge_some ids now o) ≡ has id o
unfolding acknowledge
acknowledge_some-has id [] now o h = refl
acknowledge_some-has id (i ∷ ids) now o h =
    delete_acked-has id (i ∷ ids) _ h ∙ mark_acked-has id (i ∷ ids) now o

quarantine-has :
    (id key reason : String) (o o' : Outbox)
    → quarantine key reason o ≡ done o'
    → has id o' ≡ has id o
unfolding quarantine ◌>>=◌ ◌>>◌ require
quarantine-has id key reason o o' h =
    let e : o'
        ≡ update key always (λ f. record f { state = quarantined; keep_reason = some reason }) o =
      ground arith in
    ap (has id) e ∙ update-has id key always _ o (λ f. refl)

quarantine_all-has :
    (id : String) (rs : List (String × String)) (o o' : Outbox)
    → quarantine_all rs o ≡ done o'
    → has id o' ≡ has id o
unfolding quarantine_all
quarantine_all-has id [] o o' h = ap (has id) (sym (done-injective _ _ h))
quarantine_all-has id ((key, reason) ∷ rs) o o' h =
    let (o'', first, rest) = >>=-eq-done (quarantine key reason o) _ h in
    quarantine_all-has id rs o'' o' rest ∙ quarantine-has id key reason o o'' first

release_sending-has :
    (id : String) (c : OutboxClock) (backoff : ℕ → ℕ) (ids : List String)
    (not_before : Option String) (now : String) (o o' : Outbox) (times : List (String × String))
    → release_sending c backoff ids not_before now o ≡ done (times, o')
    → has id o' ≡ has id o
unfolding release_sending update
release_sending-has id c backoff [] not_before now o o' times h =
    ap (has id) (ap (λ q. q.1) (sym (done-injective _ _ h)))
release_sending-has id c backoff (i ∷ ids) not_before now o o' times h =
    let (next, timed_at, rest) = >>=-eq-done _ _ h in
    let ((later, o''), released, both) = >>=-eq-done _ _ rest in
    ap (has id) (ap (λ q. q.1) (sym (done-injective _ _ both)))
    ∙ (release_sending-has id c backoff ids not_before now _ o'' later released
        ∙ update-has id i (is_in sending) _ o (λ f. refl))

-- the identifiers that a reply acknowledges
abbrev pub acked_by : Option ParsedReply → List String
acked_by none = []
acked_by (some reply) = reply.acked

module _ (c : OutboxClock) (backoff : ℕ → ℕ) (id now_iso now : String) where
  settle_reply-has :
      (claimed : List OutboxEvent) (response : Option HttpResponse) (reply : Option ParsedReply)
      (o o' : Outbox) (slice : UploadLoopSlice)
      → any (λ i. i == id) (acked_by reply) ≡ false
      → settle_reply c backoff claimed response reply now_iso now o ≡ done (slice, o')
      → has id o' ≡ has id o
  unfolding settle_reply
  settle_reply-has claimed response none o o' slice free h =
      let ((times, o''), released, both) = >>=-eq-done _ _ h in
      ap (has id) (ap (λ q. q.1) (sym (done-injective _ _ both)))
      ∙ release_sending-has id c backoff (ids_of claimed) (not_before_of response) now o o'' times
          released
  settle_reply-has claimed response (some reply) o o' slice free h =
      let (o'', stored, both) = >>=-eq-done _ _ h in
      ap (has id) (ap (λ q. q.1) (sym (done-injective _ _ both)))
      ∙ (quarantine_all-has id reply.rejections _ o'' stored
          ∙ acknowledge_some-has id reply.acked now o free)

  upload-has :
      (claimed : List OutboxEvent) (send : List OutboxEvent → Option HttpResponse) (o o' : Outbox)
      (slice : UploadLoopSlice)
      → any (λ i. i == id) (acked_by (reply_to (send claimed) claimed)) ≡ false
      → upload c backoff claimed send now_iso now o ≡ done (slice, o')
      → has id o' ≡ has id o
  unfolding upload
  upload-has [] send o o' slice free h = ap (has id) (ap (λ q. q.1) (sym (done-injective _ _ h)))
  upload-has (e ∷ es) send o o' slice free h =
      settle_reply-has (e ∷ es) (send (e ∷ es)) _ o o' slice free h

tick-has :
    (c : OutboxClock) (backoff : ℕ → ℕ) (send : List OutboxEvent → Option HttpResponse)
    (device_id id now_iso now : String) (o o' : Outbox) (slice : UploadLoopSlice)
    → any
        (λ i. i == id)
        (acked_by (
          reply_to
            (send (claim_pending device_id max_batch now_iso now o).0)
            (claim_pending device_id max_batch now_iso now o).0))
      ≡ false
    → tick c backoff send device_id now_iso now o ≡ done (slice, o')
    → has id o' ≡ has id o
unfolding tick claim_pending
tick-has c backoff send device_id id now_iso now o o' slice free h =
    upload-has c backoff id now_iso now _ send _ o' slice free h
    ∙ mark_sending-has id (to_claim device_id max_batch now_iso o) now o

abbrev names : String → Option OutboxEvent → Bool
names id none = false
names id (some e) = e.event_id == id

-- a result that is no rejection, for an event of the identifier
abbrev pub result_acks : String → List OutboxEvent → IngestEventResult → Bool
result_acks id batch r = not (is_rejected r.outcome) && names id (event_at r.index batch)

-- The response acknowledges the identifier: its status is good, its body holds a receipt that is
-- coherent for the batch, and the receipt accepts the event of the identifier or knows it as a
-- duplicate.
pub record Acknowledges (response : HttpResponse) (batch : List OutboxEvent) (id : String)
    : Type 0 where
  receipt : IngestResponse
  from_200 : 200 ≤ response.status
  below_300 : response.status < 300
  holds : response.body ≡ some receipt
  coherent : parse_ingest_receipt receipt (length batch) ≡ true
  lists : any (result_acks id batch) receipt.event_results ≡ true

filed-acked :
    (id : String) (o : Outcome) (found : Option OutboxEvent) (rest : Option ParsedReply)
    (reply : ParsedReply) (b : Bool)
    → filed o found rest ≡ some reply
    → any (λ i. i == id) reply.acked ≡ true
    → ((r : ParsedReply) → rest ≡ some r → any (λ i. i == id) r.acked ≡ true → b ≡ true)
    → (not (is_rejected o) && names id found || b) ≡ true
unfolding any
filed-acked id o none rest reply b h a k = cc
filed-acked id o (some e) none reply b h a k = cc
filed-acked id (rejected t) (some e) (some r) reply b h a k =
    k r refl (subst (λ q. any (λ i. i == id) (acked_by q) ≡ true) (sym h) a)
filed-acked id accepted (some e) (some r) reply b h a k =
    let a' : (e.event_id == id || any (λ i. i == id) r.acked) ≡ true =
      subst (λ q. any (λ i. i == id) (acked_by q) ≡ true) (sym h) a in
    ground (arith, a', k r refl)
filed-acked id duplicate (some e) (some r) reply b h a k =
    let a' : (e.event_id == id || any (λ i. i == id) r.acked) ≡ true =
      subst (λ q. any (λ i. i == id) (acked_by q) ≡ true) (sym h) a in
    ground (arith, a', k r refl)

sort_results-acked :
    (id : String) (batch : List OutboxEvent) (rs : List IngestEventResult) (reply : ParsedReply)
    → sort_results rs batch ≡ some reply
    → any (λ i. i == id) reply.acked ≡ true
    → any (result_acks id batch) rs ≡ true
unfolding sort_results any
sort_results-acked id batch [] reply h a =
    subst (λ q. any (λ i. i == id) (acked_by q) ≡ true) (sym h) a
sort_results-acked id batch (r ∷ rs) reply h a =
    filed-acked id r.outcome (event_at r.index batch) (sort_results rs batch) reply _ h a
      (λ reply' e. sort_results-acked id batch rs reply' e)

body-Acknowledges :
    (id : String) (batch : List OutboxEvent) (r : HttpResponse) (body : Option IngestResponse)
    → (leb 200 r.status && ltb r.status 300) ≡ true
    → r.body ≡ body
    → any (λ i. i == id) (acked_by (parse_reply body batch)) ≡ true
    → Acknowledges r batch id
unfolding parse_reply any
body-Acknowledges id batch r none good e a = cc
body-Acknowledges id batch r (some receipt) good e a =
    elim (Bool-cases (parse_ingest_receipt receipt (length batch))) [
      | inr n ↦ absurd (ground (arith, a, n))
      | inl y ↦ record {
        receipt = receipt;
        from_200 = ground (arith, good);
        below_300 = ground (arith, good);
        holds = e;
        coherent = y;
        lists = sorted (sort_results receipt.event_results batch) refl (
            subst
              (λ b.
                any (λ i. i == id)
                  (acked_by (if b then sort_results receipt.event_results batch else none))
                ≡ true)
              y a);
      }
    ]
  where
    sorted :
        (q : Option ParsedReply)
        → sort_results receipt.event_results batch ≡ q
        → any (λ i. i == id) (acked_by q) ≡ true
        → any (result_acks id batch) receipt.event_results ≡ true
    sorted none e a = cc
    sorted (some reply) e a = sort_results-acked id batch receipt.event_results reply e a

reply_to-Acknowledges :
    (id : String) (batch : List OutboxEvent) (response : Option HttpResponse)
    → any (λ i. i == id) (acked_by (reply_to response batch)) ≡ true
    → (r : HttpResponse) × (response ≡ some r) × Acknowledges r batch id
unfolding any
reply_to-Acknowledges id batch none a = cc
reply_to-Acknowledges id batch (some r) a =
    elim (Bool-cases (leb 200 r.status && ltb r.status 300)) [
      | inr n ↦ absurd (ground (arith, a, n))
      | inl y ↦ (
        r,
        refl,
        body-Acknowledges id batch r r.body y refl (
            subst
              (λ b.
                any (λ i. i == id) (acked_by (if b then parse_reply r.body batch else none)) ≡ true)
              y a),
      )
    ]

-- Where a round of the upload leaves no row of an identifier that the outbox had, the sender
-- answered the claimed batch with a response of a status from 200 to 299 that holds a receipt which
-- is coherent for the batch and accepts the event of the identifier or lists it as a duplicate.
pub tick-lost :
    (c : OutboxClock) (backoff : ℕ → ℕ) (send : List OutboxEvent → Option HttpResponse)
    (device_id id now_iso now : String) (o o' : Outbox) (slice : UploadLoopSlice)
    → tick c backoff send device_id now_iso now o ≡ done (slice, o')
    → has id o ≡ true
    → has id o' ≡ false
    → (r : HttpResponse) × (send (claim_pending device_id max_batch now_iso now o).0 ≡ some r)
      × Acknowledges r (claim_pending device_id max_batch now_iso now o).0 id
tick-lost c backoff send device_id id now_iso now o o' slice h had lost =
    let batch = (claim_pending device_id max_batch now_iso now o).0 in
    elim (Bool-cases (any (λ i. i == id) (acked_by (reply_to (send batch) batch)))) [
      | inl y ↦ reply_to-Acknowledges id batch (send batch) y
      | inr n ↦ absurd (
          true-ne-false (
            sym had ∙ sym (tick-has c backoff send device_id id now_iso now o o' slice n h) ∙ lost))
    ]
  where
    true-ne-false : true ≡ false → ⊥
    true-ne-false e = cc
