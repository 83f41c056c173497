-- ===== src/Ingest/Stored.antt =====
-- What a batch reports as accepted or as a duplicate is in the ledger.
pub mod Aligned
use navis.Base.{
  ℕ, zero, suc, String, ◌≡◌, refl, sym, subst, ◌∙◌, ap, ◌+◌, ◌≤◌, Bool, true, false, ◌&&◌, ◌||◌,
  List, [], ◌∷◌, Option, none, some, ◌==◌, nat_eq, string_eq, any, length, Dict, All, All-imp,
  All-filter, All-mp, All-filter-if, is_present, if◌then◌else◌, eq_iff, arith, inl, inr, Bool-cases,
}
use navis.Base.Results.{Result, done, thrown, ◌>>=◌, ◌>>◌, require, done-injective, >>=-eq-done}
use navis.Schema.Canonical.{Value}
use navis.Schema.Platform.{Platform}
use navis.Wire.WorkEvent.{
  WorkEventError, unsupported_version, schema_violation, parse_canonical_work_event,
}
use navis.Wire.Receipt.{
  IngestRejection, IngestEventResult, Outcome, is_accepted, is_duplicate, payload_hash_mismatch,
}
use navis.Ledger.Envelope.{EventEnvelope}
use navis.Ledger.Store.{
  EventStore, Owner, stream, head_seq, append, load_events, identities_in,
  existing_event_identities,
}
use navis.Ledger.Sound.{IsSound, IsBacked, append-IsSound}
use navis.Ingest.Batch.{
  IngestBatchRequest, IngestDeps, IngestEventInput, ValidatedEvent, Triage, triage, admit,
  stored_device, standing_of, own_duplicate, is_own_duplicate, outcome_at, results_from,
  results_for, respond, BatchResponse, capture_allowed, with_result, envelopes, version_of,
}
use navis.Ingest.Flow.{
  answer, project_of, ids_of, standing, fresh_of, own_of, indices, store_fresh, settle, with_triage,
  ingest_batch,
}
use navis.Ingest.Resend.{device_in, IsTakenIn, IsTakenIn-store_fresh, asked_for}
use navis.Ingest.Outcomes.{listed}
use navis.Ingest.Stored.Aligned.{input_from, Unrepeated, IsAligned, IsTriaged, triage-IsTriaged}

abbrev pub is_acked : Outcome → Bool
is_acked o = is_accepted o || is_duplicate o

results_from-outcomes :
    (appended : List ℕ) (rejections : List IngestRejection) (duplicates : List ℕ) (i count : ℕ)
    → All
        (λ (e : IngestEventResult).
          outcome_at appended rejections duplicates e.index ≡ some e.outcome)
        (results_from appended rejections duplicates i count)
unfolding results_from
results_from-outcomes appended rejections duplicates i zero = tt
results_from-outcomes appended rejections duplicates i (suc count) =
    by_outcome (outcome_at appended rejections duplicates i) refl
      (results_from-outcomes appended rejections duplicates (i + 1) count)
  where
    by_outcome :
        (o : Option Outcome)
        → outcome_at appended rejections duplicates i ≡ o
        → All
            (λ (e : IngestEventResult).
              outcome_at appended rejections duplicates e.index ≡ some e.outcome)
            (results_from appended rejections duplicates (i + 1) count)
        → All
            (λ (e : IngestEventResult).
              outcome_at appended rejections duplicates e.index ≡ some e.outcome)
            (with_result i o (results_from appended rejections duplicates (i + 1) count))
    by_outcome none e rest = rest
    by_outcome (some o) e rest = (e, rest)

outcome_at-acked :
    (appended : List ℕ) (rejections : List IngestRejection) (duplicates : List ℕ) (i : ℕ)
    (o : Outcome)
    → outcome_at appended rejections duplicates i ≡ some o
    → is_acked o ≡ true
    → (listed i duplicates || listed i appended) ≡ true
unfolding outcome_at
outcome_at-acked appended rejections duplicates i o h acked = ground (arith, h, acked)

-- a listed index is that of one of the events
pick_listed :
    (P : ValidatedEvent → Type 0) (vs : List ValidatedEvent) (i : ℕ)
    → listed i (indices vs) ≡ true
    → All P vs
    → (v : ValidatedEvent) × (v.index ≡ i) × P v
unfolding any
pick_listed P [] i h a = cc
pick_listed P (v ∷ vs) i h a = elim (Bool-cases (v.index == i)) [
  | inl e ↦ (v, ground (arith, e), a.0)
  | inr e ↦ pick_listed P vs i (ground (arith, e, h)) a.1
]

-- The response names a project, whose stream has an event of the identifier that the event of the
-- request at the index has.
abbrev pub IsStored : IngestBatchRequest → Option String → EventStore → ℕ → Type 0
IsStored r project t i =
    (p : String) × (input : IngestEventInput) × (project ≡ some p)
    × (input_from 0 r.events i ≡ some input)
    × (any (λ (e : EventEnvelope). e.event_id == input.event_id) (stream t p) ≡ true)

device_in-stream :
    (t : EventStore) (p k : String) (wanted : List String) (owners : Dict Owner)
    → is_present (device_in p wanted owners k) ≡ true
    → All (IsBacked t) owners
    → any (λ (e : EventEnvelope). e.event_id == k) (stream t p) ≡ true
unfolding identities_in stored_device
device_in-stream t p k wanted [] h backed = cc
device_in-stream t p k wanted ((id, o) ∷ rest) h (first, backed) =
    elim (Bool-cases (id == k && o.project_id == p)) [
      | inl e ↦
          let same_id : id ≡ k = (eq_iff id k).0 (ground (arith, e)) in
          let same_project : o.project_id ≡ p = (eq_iff o.project_id p).0 (ground (arith, e)) in
          subst (λ i. any (λ (x : EventEnvelope). x.event_id == i) (stream t p) ≡ true) same_id
            (subst (λ j. any (λ (x : EventEnvelope). x.event_id == id) (stream t j) ≡ true)
              same_project first)
      | inr e ↦ device_in-stream t p k wanted rest (ground (arith, h, e)) backed
    ]

-- the acknowledged results of a response are stored
abbrev pub AckedStored : IngestBatchRequest → EventStore → BatchResponse → Type 0
AckedStored r t a =
    All (λ (e : IngestEventResult). is_acked e.outcome ≡ true → IsStored r a.project_id t e.index)
      a.receipt.event_results

respond-AckedStored :
    (r : IngestBatchRequest) (t : EventStore) (p : Option String) (count : ℕ) (appended : List ℕ)
    (rejections : List IngestRejection) (duplicates : List ℕ)
    → ((i : ℕ) → (listed i duplicates || listed i appended) ≡ true → IsStored r p t i)
    → AckedStored r t (respond p count appended rejections duplicates)
unfolding respond results_for
respond-AckedStored r t p count appended rejections duplicates h =
    All-imp _ _ _
      (λ e outcome acked.
        h e.index (outcome_at-acked appended rejections duplicates e.index e.outcome outcome acked))
      (results_from-outcomes appended rejections duplicates 0 count)

module _ (r : IngestBatchRequest) (p : String) (batch : List ValidatedEvent) (s t : EventStore)
    (taken : IsTakenIn s t p r.device_id batch (fresh_of s p r.device_id batch))
    (sound : IsSound t) where
  -- where an event of the batch is at its index and the stream of the project has it
  abbrev IsFound : ValidatedEvent → Type 0
  IsFound v =
      (input_from 0 r.events v.index ≡ some v.input)
      × (any (λ (e : EventEnvelope). e.event_id == v.input.event_id) (stream t p) ≡ true)

  fresh_found :
      (v : ValidatedEvent)
      → standing t p r.device_id batch v ≡ own_duplicate
      → any (λ (e : EventEnvelope). e.event_id == v.input.event_id) (stream t p) ≡ true
  unfolding standing existing_event_identities
  fresh_found v h =
      device_in-stream t p v.input.event_id (ids_of batch) t.event_ids
        (stands (device_in p (ids_of batch) t.event_ids v.input.event_id) h) sound.backed
    where
      stands :
          (o : Option (Option String))
          → standing_of r.device_id o ≡ own_duplicate
          → is_present o ≡ true
      stands none h = cc
      stands (some k) h = refl

  own_found :
      (v : ValidatedEvent)
      → is_own_duplicate (standing s p r.device_id batch v) ≡ true
      → any (λ (e : EventEnvelope). e.event_id == v.input.event_id) (stream t p) ≡ true
  unfolding standing existing_event_identities
  own_found v h =
      device_in-stream t p v.input.event_id (ids_of batch) t.event_ids
        (taken.kept v.input.event_id
          (stands (device_in p (ids_of batch) s.event_ids v.input.event_id) h))
        sound.backed
    where
      stands :
          (o : Option (Option String))
          → is_own_duplicate (standing_of r.device_id o) ≡ true
          → is_present o ≡ true
      stands none h = cc
      stands (some k) h = refl

  found_at : (i : ℕ) (v : ValidatedEvent) → v.index ≡ i → IsFound v → IsStored r (some p) t i
  found_at i v e f = (p, v.input, refl, ap (input_from 0 r.events) (sym e) ∙ f.0, f.1)

  answer-AckedStored :
      (rejections : List IngestRejection)
      → All (IsAligned 0 r.events) batch
      → AckedStored r t (answer r p [] rejections batch s)
  answer-AckedStored rejections aligned =
      respond-AckedStored r t (some p) (length r.events) (indices (fresh_of s p r.device_id batch))
        _ (indices (own_of s p r.device_id batch))
        (λ i h. elim (Bool-cases (listed i (indices (own_of s p r.device_id batch)))) [
          | inl e ↦
              let (v, at, found) = pick_listed IsFound (own_of s p r.device_id batch) i e all_own in
              found_at i v at found
          | inr e ↦
              let (v, at, found) =
                pick_listed IsFound (fresh_of s p r.device_id batch) i (ground (arith, e, h))
                  all_fresh in
              found_at i v at found
        ])
    where
      all_own : All IsFound (own_of s p r.device_id batch)
      all_own =
          All-filter-if _ _ batch (All-imp _ _ batch (λ v a own. (a.0, own_found v own)) aligned)

      all_fresh : All IsFound (fresh_of s p r.device_id batch)
      all_fresh =
          All-mp _ _ (fresh_of s p r.device_id batch)
            (All-filter _ _ batch (All-imp _ _ batch (λ v a own. (a.0, fresh_found v own)) aligned))
            taken.stored

none_acked :
    (r : IngestBatchRequest) (t : EventStore) (p : Option String)
    (rejections : List IngestRejection)
    → AckedStored r t (respond p (length r.events) [] rejections [])
unfolding any
none_acked r t p rejections =
    respond-AckedStored r t p (length r.events) [] rejections [] (λ i h. cc)

store_fresh-IsSound :
    (z : Platform) (d : IngestDeps) (r : IngestBatchRequest) (p : String) (vs : List ValidatedEvent)
    (s t : EventStore)
    → IsSound s
    → store_fresh z d r p vs s ≡ done t
    → IsSound t
unfolding store_fresh ◌>>=◌ ◌>>◌ require
store_fresh-IsSound z d r p [] s t sound h = subst IsSound (done-injective s t h) sound
store_fresh-IsSound z d r p (v ∷ vs) s t sound h =
    let head = head_seq s p in
    let es = envelopes d r head 0 (version_of (load_events s p head)) (v ∷ vs) in
    let stored : append z p es head s ≡ done t = ground arith in
    append-IsSound z p es head s t sound stored

settle-AckedStored :
    (z : Platform) (d : IngestDeps) (r : IngestBatchRequest) (p : String)
    (rejections : List IngestRejection) (batch : List ValidatedEvent) (a : BatchResponse)
    (s t : EventStore)
    → All (IsAligned 0 r.events) batch
    → IsSound s
    → settle z d r p [] rejections batch s ≡ done (a, t)
    → AckedStored r t a
unfolding settle
settle-AckedStored z d r p rejections batch a s t aligned sound h =
    let (t', stored, returned) =
      >>=-eq-done (store_fresh z d r p (fresh_of s p r.device_id batch) s) _ h in
    let both : (answer r p [] rejections batch s, t') ≡ (a, t) = done-injective _ _ returned in
    subst (AckedStored r t) (ap (λ q. q.0) both) (
      answer-AckedStored r p batch s t
        (IsTakenIn-store_fresh z d r p batch s t (fresh_of s p r.device_id batch)
          (All-filter _ _ batch (asked_for batch)) (stored ∙ ap done (ap (λ q. q.1) both)))
        (store_fresh-IsSound z d r p (fresh_of s p r.device_id batch) s t sound
          (stored ∙ ap done (ap (λ q. q.1) both)))
        rejections aligned)

allowed-AckedStored :
    (z : Platform) (d : IngestDeps) (r : IngestBatchRequest) (p : String) (duplicates : List ℕ)
    (rejections denied : List IngestRejection) (batch : List ValidatedEvent) (a : BatchResponse)
    (s t : EventStore) (allowed : Bool)
    → duplicates ≡ []
    → All (IsAligned 0 r.events) batch
    → IsSound s
    → (if allowed
        then settle z d r p duplicates rejections batch s
        else done (respond (some p) (length r.events) [] denied [], s))
      ≡ done (a, t)
    → AckedStored r t a
allowed-AckedStored z d r p duplicates rejections denied batch a s t true e aligned sound h =
    settle-AckedStored z d r p rejections batch a s t aligned sound
      (subst (λ l. settle z d r p l rejections batch s ≡ done (a, t)) e h)
allowed-AckedStored z d r p duplicates rejections denied batch a s t false e aligned sound h =
    subst (AckedStored r t) (ap (λ q. q.0) (done-injective _ _ h)) (none_acked r t (some p) denied)

with_triage-AckedStored :
    (z : Platform) (d : IngestDeps) (r : IngestBatchRequest) (x : Triage) (vs : List ValidatedEvent)
    (a : BatchResponse) (s t : EventStore)
    → IsTriaged 0 r.events x
    → IsSound s
    → with_triage z d r x vs s ≡ done (a, t)
    → AckedStored r t a
unfolding with_triage
with_triage-AckedStored z d r x [] a s t h sound k =
    subst (AckedStored r t) (ap (λ q. q.0) (done-injective _ _ k)) (
      subst (λ l. AckedStored r t (respond none (length r.events) [] x.rejections l))
        (sym h.unrepeated) (none_acked r t none x.rejections))
with_triage-AckedStored z d r x (first ∷ rest) a s t h sound k =
    allowed-AckedStored z d r (project_of first) x.duplicates _ _ _ a s t
      (capture_allowed d.can_capture (project_of first)) h.unrepeated
      (All-filter _ _ x.validated h.aligned) sound k

-- Where the ledger is sound (as it is after any calls), the identifiers of a batch are distinct and
-- the call returns, each result that is accepted or a duplicate is at the index of an event of the
-- request whose identifier is that of an event in the stream, in the ledger that the call leaves, of
-- the project that the response names.
pub ingest_batch-IsStored :
    (z : Platform) (d : IngestDeps) (r : IngestBatchRequest) (a : BatchResponse) (s t : EventStore)
    → IsSound s
    → Unrepeated [] r.events
    → ingest_batch z d r s ≡ done (a, t)
    → All
        (λ (e : IngestEventResult). is_acked e.outcome ≡ true → IsStored r a.project_id t e.index)
        a.receipt.event_results
unfolding ingest_batch
ingest_batch-IsStored z d r a s t sound u h =
    with_triage-AckedStored z d r (triage z d 0 [] r.events) _ a s t
      (triage-IsTriaged z d 0 [] r.events u) sound h
