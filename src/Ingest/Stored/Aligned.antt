-- ===== src/Ingest/Stored/Aligned.antt =====
-- The validation of a batch keeps each event at its index.
use navis.Base.{
  ℕ, String, ◌≡◌, refl, ◌+◌, ◌≤◌, Bool, true, false, List, [], ◌∷◌, Option, none, some, ◌==◌,
  nat_eq, string_eq, any, Dict, All, All-imp, if◌then◌else◌, arith,
}
use navis.Base.Results.{Result, done, thrown}
use navis.Schema.Canonical.{Value}
use navis.Schema.Platform.{Platform}
use navis.Wire.WorkEvent.{
  WorkEventError, unsupported_version, schema_violation, parse_canonical_work_event,
}
use navis.Wire.Receipt.{payload_hash_mismatch}
use navis.Ingest.Batch.{IngestDeps, IngestEventInput, ValidatedEvent, Triage, triage, admit}

-- the event at an index, where the first has the index `i`
unfoldable pub input_from : ℕ → List IngestEventInput → ℕ → Option IngestEventInput
input_from i [] j = none
input_from i (x ∷ xs) j = if i == j then some x else input_from (i + 1) xs j

-- No identifier of the events occurs before it.
abbrev pub Unrepeated : List String → List IngestEventInput → Type 0
Unrepeated seen [] = Unit
Unrepeated seen (x ∷ xs) =
    (any (λ id. id == x.event_id) seen ≡ false) × Unrepeated (x.event_id ∷ seen) xs

-- a validated event is the one at its index
abbrev pub IsAligned : ℕ → List IngestEventInput → ValidatedEvent → Type 0
IsAligned i events v = (input_from i events v.index ≡ some v.input) × (i ≤ v.index)

pub record IsTriaged (i : ℕ) (events : List IngestEventInput) (t : Triage) : Type 0 where
  pub aligned : All (IsAligned i events) t.validated
  pub unrepeated : t.duplicates ≡ []

IsAligned-later :
    (i : ℕ) (x : IngestEventInput) (xs : List IngestEventInput) (v : ValidatedEvent)
    → IsAligned (i + 1) xs v
    → IsAligned i (x ∷ xs) v
unfolding input_from
IsAligned-later i x xs v h = (ground (arith, h.0, h.1), omega (arith, h.1))

module _ (z : Platform) (d : IngestDeps) where
  admit-IsTriaged :
      (i : ℕ) (x : IngestEventInput) (xs : List IngestEventInput)
      (parsed : Result WorkEventError (Dict Value)) (t : Triage)
      → IsTriaged (i + 1) xs t
      → IsTriaged i (x ∷ xs) (admit z d i x parsed t)
  unfolding admit input_from
  admit-IsTriaged i x xs (thrown (unsupported_version n)) t h = record {
    aligned = All-imp _ _ t.validated (IsAligned-later i x xs) h.aligned;
    unrepeated = h.unrepeated;
  }
  admit-IsTriaged i x xs (thrown schema_violation) t h = record {
    aligned = All-imp _ _ t.validated (IsAligned-later i x xs) h.aligned;
    unrepeated = h.unrepeated;
  }
  admit-IsTriaged i x xs (done e) t h =
      let later : All (IsAligned i (x ∷ xs)) t.validated =
        All-imp _ _ t.validated (IsAligned-later i x xs) h.aligned in
      let first : IsAligned i (x ∷ xs) (record { index = i; input = x; event = e }) =
        (ground arith, omega arith) in
      record { aligned = by_hash later first _; unrepeated = ground (arith, h.unrepeated) }
    where
      by_hash :
          All (IsAligned i (x ∷ xs)) t.validated
          → IsAligned i (x ∷ xs) (record { index = i; input = x; event = e })
          → (b : Bool)
          → All
              (IsAligned i (x ∷ xs))
              (if b
                then record t {
                  validated = record { index = i; input = x; event = e } ∷ t.validated;
                }
                else record t {
                  rejections = record { index = i; token = payload_hash_mismatch } ∷ t.rejections;
                }).validated
      by_hash later first true = (first, later)
      by_hash later first false = later

  pub triage-IsTriaged :
      (i : ℕ) (seen : List String) (events : List IngestEventInput)
      → Unrepeated seen events
      → IsTriaged i events (triage z d i seen events)
  unfolding triage
  triage-IsTriaged i seen [] u = record { aligned = tt; unrepeated = refl }
  triage-IsTriaged i seen (x ∷ xs) u = rw u.0 (
      admit-IsTriaged i x xs (parse_canonical_work_event z d.checks x.event) _
        (triage-IsTriaged (i + 1) (x.event_id ∷ seen) xs u.1))
