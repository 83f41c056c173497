-- ===== src/Wire/Coherent.antt =====
-- What the check of a receipt in contracts/src/ingest.ts promises to the daemon that reads it.
use navis.Base.{
  ℕ, ◌≡◌, refl, sym, ap, ◌∙◌, ◌<◌, Bool, true, false, ◌&&◌, ◌||◌, List, [], ◌∷◌, ◌==◌, nat_eq, any,
  all, filter, map, length, All, All-imp, arith, inl, inr, Bool-cases, ltb,
}
use navis.Wire.Receipt.{
  IngestResponse, IngestEventResult, Outcome, is_accepted, is_duplicate, is_rejected,
  insert_in_order, in_order, same, all_different, coherent, parse_ingest_receipt,
}

-- the index is in the list
abbrev pub holds : ℕ → List ℕ → Bool
holds i l = any (λ j. j == i) l

insert_in_order-any :
    (p : ℕ → Bool) (n : ℕ) (l : List ℕ) → any p (insert_in_order n l) ≡ (p n || any p l)
unfolding any insert_in_order
insert_in_order-any p n [] = refl
insert_in_order-any p n (m ∷ ms) = ground (arith, insert_in_order-any p n ms)

in_order-any : (p : ℕ → Bool) (l : List ℕ) → any p (in_order l) ≡ any p l
unfolding any in_order
in_order-any p [] = refl
in_order-any p (n ∷ ns) = ground (arith, insert_in_order-any p n (in_order ns), in_order-any p ns)

same-any : (p : ℕ → Bool) (a b : List ℕ) → same a b ≡ true → any p a ≡ any p b
unfolding any
same-any p [] [] h = refl
same-any p [] (b ∷ bs) h = cc
same-any p (a ∷ as') [] h = cc
same-any p (a ∷ as') (b ∷ bs) h =
    let e : a ≡ b = ground (arith, h) in ground (arith, h, ap p e, same-any p as' bs)

-- a result at the index passes the test
abbrev passes : (Outcome → Bool) → ℕ → List IngestEventResult → Bool
passes test i results = any (λ (r : IngestEventResult). test r.outcome && r.index == i) results

filtered-any :
    (test : Outcome → Bool) (i : ℕ) (results : List IngestEventResult)
    → holds i (map (λ r. r.index) (filter (λ r. test r.outcome) results)) ≡ passes test i results
unfolding any filter
filtered-any test i [] = refl
filtered-any test i (r ∷ rs) = elim (Bool-cases (test r.outcome)) [
  | inl e ↦ rw e (ap (λ b. r.index == i || b) (filtered-any test i rs))
  | inr e ↦ rw e (filtered-any test i rs)
]

coherent-passes :
    (test : Outcome → Bool) (listed : List ℕ) (results : List IngestEventResult) (i : ℕ)
    → coherent test listed results ≡ true
    → holds i listed ≡ passes test i results
coherent-passes test listed results i h =
    sym (in_order-any (λ j. j == i) listed)
    ∙ (sym (same-any (λ j. j == i) _ _ h)
        ∙ (in_order-any (λ j. j == i) (map (λ r. r.index) (filter (λ r. test r.outcome) results))
            ∙ filtered-any test i results))

absent-passes :
    (test : Outcome → Bool) (i : ℕ) (results : List IngestEventResult)
    → holds i (map (λ r. r.index) results) ≡ false
    → passes test i results ≡ false
unfolding any
absent-passes test i [] h = refl
absent-passes test i (r ∷ rs) h = ground (arith, h, absent-passes test i rs)

absent-differs :
    (i : ℕ) (results : List IngestEventResult)
    → holds i (map (λ r. r.index) results) ≡ false
    → All (λ (e : IngestEventResult). (i == e.index) ≡ false) results
unfolding any
absent-differs i [] h = tt
absent-differs i (r ∷ rs) h = (ground (arith, h), absent-differs i rs (ground (arith, h)))

-- Where the indices differ, a result alone decides what passes at its index.
different-passes :
    (test : Outcome → Bool) (results : List IngestEventResult)
    → all_different (map (λ r. r.index) results) ≡ true
    → All (λ (e : IngestEventResult). passes test e.index results ≡ test e.outcome) results
unfolding any all_different
different-passes test [] h = tt
different-passes test (r ∷ rs) h =
    let absent : holds r.index (map (λ q. q.index) rs) ≡ false = ground (arith, h) in
    (
      ground (arith, absent-passes test r.index rs absent),
      both rs (absent-differs r.index rs absent) (different-passes test rs (ground (arith, h))),
    )
  where
    both :
        (es : List IngestEventResult)
        → All (λ (e : IngestEventResult). (r.index == e.index) ≡ false) es
        → All (λ (e : IngestEventResult). passes test e.index rs ≡ test e.outcome) es
        → All
            (λ (e : IngestEventResult).
              (test r.outcome && r.index == e.index || passes test e.index rs) ≡ test e.outcome)
            es
    both [] a b = tt
    both (e ∷ es) a b = (ground (arith, a.0, b.0), both es a.1 b.1)

listed_as :
    (test : Outcome → Bool) (listed : List ℕ) (results : List IngestEventResult)
    → all_different (map (λ r. r.index) results) ≡ true
    → coherent test listed results ≡ true
    → All (λ (e : IngestEventResult). holds e.index listed ≡ test e.outcome) results
listed_as test listed results h c =
    All-imp _ _ results (λ e k. coherent-passes test listed results e.index c ∙ k)
      (different-passes test results h)

within :
    (n : ℕ) (results : List IngestEventResult)
    → all (λ (r : IngestEventResult). ltb r.index n) results ≡ true
    → All (λ (e : IngestEventResult). e.index < n) results
unfolding all
within n [] h = tt
within n (r ∷ rs) h = (ground (arith, h), within n rs (ground (arith, h)))

-- A receipt that passes the check for a batch has a result for each of its events: there are as many
-- results as events, each at an index of the batch, no two at one index, and the index of a result is
-- among the accepted ones, the duplicates or the rejections exactly where that is its outcome.
pub parse_ingest_receipt-lists :
    (receipt : IngestResponse) (n : ℕ)
    → parse_ingest_receipt receipt n ≡ true
    → (length receipt.event_results ≡ n)
      × (all_different (map (λ r. r.index) receipt.event_results) ≡ true)
      × All (λ (e : IngestEventResult). e.index < n) receipt.event_results
      × All
          (λ (e : IngestEventResult). holds e.index receipt.accepted_at ≡ is_accepted e.outcome)
          receipt.event_results
      × All
          (λ (e : IngestEventResult). holds e.index receipt.duplicate_at ≡ is_duplicate e.outcome)
          receipt.event_results
      × All
          (λ (e : IngestEventResult).
            holds e.index (map (λ r. r.index) receipt.rejections) ≡ is_rejected e.outcome)
          receipt.event_results
unfolding parse_ingest_receipt
parse_ingest_receipt-lists receipt n h =
    let results = receipt.event_results in
    let differ : all_different (map (λ r. r.index) results) ≡ true = ground (arith, h) in
    (
      ground (arith, h),
      differ,
      within n results (ground (arith, h)),
      listed_as is_accepted receipt.accepted_at results differ (ground (arith, h)),
      listed_as is_duplicate receipt.duplicate_at results differ (ground (arith, h)),
      listed_as is_rejected (map (λ r. r.index) receipt.rejections) results differ
          (ground (arith, h)),
    )
