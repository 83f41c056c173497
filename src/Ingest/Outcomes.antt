-- ===== src/Ingest/Outcomes.antt =====
-- Every index of a batch has one outcome.
use navis.Base.{
  ℕ, Dict, zero, suc, String, ◌≡◌, refl, subst, ap, ◌+◌, ◌<◌, ◌≤◌, Bool, true, false, not, ◌||◌,
  List, [], ◌∷◌, ◌++◌, Option, none, some, ◌==◌, nat_eq, string_eq, any, filter, map, length,
  any-append, is_present, if◌then◌else◌, arith, inl, inr, Bool-cases, ◌⊎◌,
}
use navis.Base.Results.{Result, done, thrown, done-injective, >>=-eq-done}
use navis.Schema.Canonical.{Value}
use navis.Schema.Platform.{Platform}
use navis.Wire.WorkEvent.{
  WorkEventError, unsupported_version, schema_violation, parse_canonical_work_event,
}
use navis.Wire.Receipt.{
  IngestRejection, RejectionToken, IngestEventResult, authorization_denied, ledger_conflict,
}
use navis.Ledger.Store.{EventStore}
use navis.Ingest.Batch.{
  IngestBatchRequest, IngestDeps, IngestEventInput, ValidatedEvent, Triage, triage, admit, Standing,
  is_fresh, is_own_duplicate, is_foreign, reject_with, rejection_at, outcome_at, results_from,
  results_for, respond, BatchResponse, capture_allowed, deny_rest,
}
use navis.Ingest.Flow.{
  answer, project_of, standing, fresh_of, own_of, foreign_of, indices, store_fresh, settle,
  with_triage, ingest_batch, rejections_for, denied_for,
}

-- the numbers from `i` on, `count` of them
unfoldable pub range_from : ℕ → ℕ → List ℕ
range_from i zero = []
range_from i (suc count) = i ∷ range_from (i + 1) count

abbrev pub listed : ℕ → List ℕ → Bool
listed i ns = any (λ j. j == i) ns

abbrev pub refused : ℕ → List IngestRejection → Bool
refused i rs = any (λ (r : IngestRejection). r.index == i) rs

-- the index is in one of the three lists
abbrev Covers : List ℕ → List IngestRejection → List ℕ → ℕ → Type 0
Covers appended rejections duplicates i =
    (listed i duplicates || (refused i rejections || listed i appended)) ≡ true

rejection_at-present :
    (i : ℕ) (rs : List IngestRejection)
    → refused i rs ≡ true
    → is_present (rejection_at i rs) ≡ true
unfolding any rejection_at
rejection_at-present i [] h = cc
rejection_at-present i (r ∷ rs) h = ground (arith, rejection_at-present i rs)

outcome_at-present :
    (appended : List ℕ) (rejections : List IngestRejection) (duplicates : List ℕ) (i : ℕ)
    → Covers appended rejections duplicates i
    → is_present (outcome_at appended rejections duplicates i) ≡ true
unfolding outcome_at
outcome_at-present appended rejections duplicates i h =
    ground (arith, rejection_at-present i rejections)

results_from-indices :
    (appended : List ℕ) (rejections : List IngestRejection) (duplicates : List ℕ) (i count : ℕ)
    → ((j : ℕ) → i ≤ j → j < i + count → Covers appended rejections duplicates j)
    → map (λ (r : IngestEventResult). r.index) (results_from appended rejections duplicates i count)
      ≡ range_from i count
unfolding results_from range_from
results_from-indices appended rejections duplicates i zero h = refl
results_from-indices appended rejections duplicates i (suc count) h = ground (
  arith,
  outcome_at-present appended rejections duplicates i (h i (omega arith) (omega arith)),
  results_from-indices appended rejections duplicates (i + 1) count
      (λ j lo hi. h j (omega arith) (omega arith)),
)

abbrev TriageCovers : Triage → ℕ → Type 0
TriageCovers t i = Covers (indices t.validated) t.rejections t.duplicates i

repeated-Covers :
    (i j : ℕ) (rest : Triage)
    → (i == j) ≡ true ⊎ TriageCovers rest j
    → TriageCovers (record rest { duplicates = i ∷ rest.duplicates }) j
unfolding any
repeated-Covers i j rest (inl e) = ground (arith, e)
repeated-Covers i j rest (inr h) = ground (arith, h)

module _ (z : Platform) (d : IngestDeps) where
  admit-Covers :
      (i j : ℕ) (input : IngestEventInput) (parsed : Result WorkEventError (Dict Value))
      (rest : Triage)
      → (i == j) ≡ true ⊎ TriageCovers rest j
      → TriageCovers (admit z d i input parsed rest) j
  unfolding any admit
  admit-Covers i j input (thrown (unsupported_version n)) rest (inl e) = ground (arith, e)
  admit-Covers i j input (thrown (unsupported_version n)) rest (inr h) = ground (arith, h)
  admit-Covers i j input (thrown schema_violation) rest (inl e) = ground (arith, e)
  admit-Covers i j input (thrown schema_violation) rest (inr h) = ground (arith, h)
  admit-Covers i j input (done e) rest (inl e') = ground (arith, e')
  admit-Covers i j input (done e) rest (inr h) = ground (arith, h)

  triage-Covers :
      (i : ℕ) (seen : List String) (events : List IngestEventInput) (j : ℕ)
      → i ≤ j
      → j < i + length events
      → TriageCovers (triage z d i seen events) j
  unfolding any triage
  triage-Covers i seen [] j lo hi = absurd (omega arith)
  triage-Covers i seen (input ∷ events) j lo hi =
      chosen (any (λ id. id == input.event_id) seen)
        (reached _ (triage-Covers (i + 1) seen events j))
        (reached _ (triage-Covers (i + 1) (input.event_id ∷ seen) events j))
    where
      reached :
          (t : Triage)
          → (i + 1 ≤ j → j < i + 1 + length events → TriageCovers t j)
          → (i == j) ≡ true ⊎ TriageCovers t j
      reached t k = elim (Bool-cases (i == j)) [
        | inl e ↦ inl e
        | inr e ↦ inr (k (ground (arith, e)) (omega arith))
      ]

      chosen :
          (b : Bool)
          → (i == j) ≡ true ⊎ TriageCovers (triage z d (i + 1) seen events) j
          → (i == j) ≡ true ⊎ TriageCovers (triage z d (i + 1) (input.event_id ∷ seen) events) j
          → TriageCovers
              (if b
                then record (triage z d (i + 1) seen events) {
                  duplicates = i ∷ (triage z d (i + 1) seen events).duplicates;
                }
                else admit z d i input
                    (parse_canonical_work_event z d.checks input.event)
                    (triage z d (i + 1) (input.event_id ∷ seen) events))
              j
      chosen true a b = repeated-Covers i j _ a
      chosen false a b = admit-Covers i j input _ _ b

filter-split :
    (test : ValidatedEvent → Bool) (vs : List ValidatedEvent) (i : ℕ)
    → listed i (indices vs)
      ≡ (listed i (indices (filter test vs)) || listed i (indices (filter (λ v. not (test v)) vs)))
unfolding any filter
filter-split test [] i = refl
filter-split test (v ∷ vs) i = ground (arith, filter-split test vs i)

standing-split :
    (test : ValidatedEvent → Standing) (vs : List ValidatedEvent) (i : ℕ)
    → listed i (indices vs) ≡ (
        listed i (indices (filter (λ v. is_fresh (test v)) vs))
        || (listed i (indices (filter (λ v. is_own_duplicate (test v)) vs))
            || listed i (indices (filter (λ v. is_foreign (test v)) vs))))
unfolding any filter
standing-split test [] i = refl
standing-split test (v ∷ vs) i = ground (arith, standing-split test vs i)

refused-map :
    (t : RejectionToken) (vs : List ValidatedEvent) (i : ℕ)
    → refused i (map (reject_with t) vs) ≡ listed i (indices vs)
unfolding any
refused-map t [] i = refl
refused-map t (v ∷ vs) i = ground (arith, refused-map t vs i)

deny_rest-refused :
    (rejections : List IngestRejection) (i count j : ℕ)
    → i ≤ j
    → j < i + count
    → (refused j rejections || refused j (deny_rest rejections i count)) ≡ true
unfolding any deny_rest
deny_rest-refused rejections i zero j lo hi = absurd (omega arith)
deny_rest-refused rejections i (suc count) j lo hi = elim (Bool-cases (i == j)) [
  | inl e ↦ ground (arith, e)
  | inr e ↦
      ground (arith, deny_rest-refused rejections (i + 1) count j (ground (arith, e)) (omega arith))
]

-- the lists of a response cover the indices of the batch
record IsComplete (count : ℕ) (a : BatchResponse) : Type 0 where
  complete : map (λ (r : IngestEventResult). r.index) a.receipt.event_results ≡ range_from 0 count

respond-IsComplete :
    (p : Option String) (count : ℕ) (appended : List ℕ) (rejections : List IngestRejection)
    (duplicates : List ℕ)
    → ((j : ℕ) → j < count → Covers appended rejections duplicates j)
    → IsComplete count (respond p count appended rejections duplicates)
unfolding respond results_for
respond-IsComplete p count appended rejections duplicates h = record {
  complete =
      results_from-indices appended rejections duplicates 0 count (λ j lo hi. h j (omega arith));
}

module _ (r : IngestBatchRequest) (x : Triage)
    (covered : (j : ℕ) → j < length r.events → TriageCovers x j) where
  mismatch-Covers :
      (p : String) (j : ℕ)
      → j < length r.events
      → Covers
          (indices (filter (λ v. project_of v == p) x.validated))
          (rejections_for x p)
          x.duplicates
          j
  mismatch-Covers p j hi =
      let mismatched = filter (λ v. not (project_of v == p)) x.validated in
      ground (
        arith,
        covered j hi,
        any-append (λ (r : IngestRejection). r.index == j) x.rejections
            (map (reject_with authorization_denied) mismatched),
        refused-map authorization_denied mismatched j,
        filter-split (λ v. project_of v == p) x.validated j,
      )

  answer-Covers :
      (p : String) (batch : List ValidatedEvent) (rejections : List IngestRejection)
      (s : EventStore) (j : ℕ)
      → Covers (indices batch) rejections x.duplicates j
      → Covers
          (indices (fresh_of s p r.device_id batch))
          (rejections ++ map (reject_with ledger_conflict) (foreign_of s p r.device_id batch))
          (x.duplicates ++ indices (own_of s p r.device_id batch))
          j
  answer-Covers p batch rejections s j h = ground (
    arith,
    h,
    any-append (λ (r : IngestRejection). r.index == j) rejections
        (map (reject_with ledger_conflict) (foreign_of s p r.device_id batch)),
    any-append (λ i. i == j) x.duplicates (indices (own_of s p r.device_id batch)),
    refused-map ledger_conflict (foreign_of s p r.device_id batch) j,
    standing-split (standing s p r.device_id batch) batch j,
  )

  answer-IsComplete :
      (p : String) (s : EventStore)
      → IsComplete (length r.events) (
          answer r p x.duplicates
            (rejections_for x p)
            (filter (λ v. project_of v == p) x.validated)
            s)
  answer-IsComplete p s = respond-IsComplete (some p) (length r.events) _ _ _ (λ j hi.
      answer-Covers p (filter (λ v. project_of v == p) x.validated) (rejections_for x p) s j
        (mismatch-Covers p j hi))

  denied-IsComplete :
      (p : String)
      → IsComplete (length r.events) (respond (some p) (length r.events) [] (denied_for r x p) [])
  denied-IsComplete p =
      respond-IsComplete (some p) (length r.events) [] (denied_for r x p) []
        (λ j hi. denied-Covers j hi)
    where
      denied-Covers : (j : ℕ) → j < length r.events → Covers [] (denied_for r x p) [] j
      denied-Covers j hi = ground (
        arith,
        deny_rest-refused (rejections_for x p) 0 (length r.events) j (omega arith) (omega arith),
        any-append (λ (r : IngestRejection). r.index == j) (rejections_for x p)
            (deny_rest (rejections_for x p) 0 (length r.events)),
      )

pub settle-answer :
    (z : Platform) (d : IngestDeps) (r : IngestBatchRequest) (p : String) (duplicates : List ℕ)
    (rejections : List IngestRejection) (batch : List ValidatedEvent) (a : BatchResponse)
    (s t : EventStore)
    → settle z d r p duplicates rejections batch s ≡ done (a, t)
    → answer r p duplicates rejections batch s ≡ a
unfolding settle
settle-answer z d r p duplicates rejections batch a s t h =
    ap (λ q. q.0)
      (done-injective _ _
        (>>=-eq-done (store_fresh z d r p (fresh_of s p r.device_id batch) s) _ h).2)

with_triage-IsComplete :
    (z : Platform) (d : IngestDeps) (r : IngestBatchRequest) (x : Triage) (vs : List ValidatedEvent)
    (a : BatchResponse) (s t : EventStore)
    → ((j : ℕ) → j < length r.events → TriageCovers x j)
    → x.validated ≡ vs
    → with_triage z d r x vs s ≡ done (a, t)
    → IsComplete (length r.events) a
unfolding with_triage
with_triage-IsComplete z d r x [] a s t covered e h =
    subst (IsComplete (length r.events)) (ap (λ q. q.0) (done-injective _ _ h)) (
      respond-IsComplete none (length r.events) [] x.rejections x.duplicates
        (λ j hi. subst (λ vs. Covers (indices vs) x.rejections x.duplicates j) e (covered j hi)))
with_triage-IsComplete z d r x (first ∷ rest) a s t covered e h =
    by_capture (capture_allowed d.can_capture (project_of first)) h
  where
    by_capture :
        (b : Bool)
        → (if b
            then settle z d r
                (project_of first)
                x.duplicates
                (rejections_for x (project_of first))
                (filter (λ v. project_of v == project_of first) x.validated)
                s
            else done (
              respond
                  (some (project_of first))
                  (length r.events)
                  []
                  (denied_for r x (project_of first))
                  [],
              s,
            ))
          ≡ done (a, t)
        → IsComplete (length r.events) a
    by_capture true k =
        subst (IsComplete (length r.events)) (settle-answer z d r _ _ _ _ a s t k)
          (answer-IsComplete r x covered (project_of first) s)
    by_capture false k =
        subst (IsComplete (length r.events)) (ap (λ q. q.0) (done-injective _ _ k))
          (denied-IsComplete r x covered (project_of first))

-- A call that returns gives exactly one outcome to each index of the batch, in order.
pub ingest_batch-indices :
    (z : Platform) (d : IngestDeps) (r : IngestBatchRequest) (a : BatchResponse) (s t : EventStore)
    → ingest_batch z d r s ≡ done (a, t)
    → map (λ (e : IngestEventResult). e.index) a.receipt.event_results
      ≡ range_from 0 (length r.events)
unfolding ingest_batch
ingest_batch-indices z d r a s t h =
    (with_triage-IsComplete z d r (triage z d 0 [] r.events) _ a s t
      (λ j hi. triage-Covers z d 0 [] r.events j (omega arith) (omega arith)) refl h).complete
