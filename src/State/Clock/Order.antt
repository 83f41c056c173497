-- ===== src/State/Clock/Order.antt =====
-- The verdict of two clocks is their pointwise order; a merge is their least upper bound.
use navis.Base.{
  ◌+◌, ◌≤◌, ◌<◌, max, String, ◌≡◌, refl, inl, inr, Bool, true, false, not, ◌&&◌, ◌||◌, List, [],
  ◌∷◌, ◌==◌, string_eq, ltb, if◌then◌else◌, any, filter, lookup, insert, keys, lookup-insert, arith,
  eq_iff, Bool-cases, any-append,
}
use navis.State.Clock.{
  Verdict, ClockSnapshot, component, compare_keys, key_union, compare_clocks, merge_entries,
  merge_clocks, advance_clock,
}

-- `a` has seen more than `b` of the events of `k`
abbrev ahead : ClockSnapshot → ClockSnapshot → String → Bool
ahead a b k = ltb (component b k) (component a k)

abbrev judge : Bool → Bool → Verdict
judge true true = Verdict.concurrent
judge true false = Verdict.dominates
judge false true = Verdict.dominated_by
judge false false = Verdict.equal

compare_keys_lem :
    (a b : ClockSnapshot) (ks : List String) (p q : Bool)
    → (p && q) ≡ false
    → compare_keys a b ks p q ≡ judge (p || any (ahead a b) ks) (q || any (ahead b a) ks)
unfolding compare_keys any
compare_keys_lem a b [] true false h = refl
compare_keys_lem a b [] false true h = refl
compare_keys_lem a b [] false false h = refl
compare_keys_lem a b [] true true h = cc
compare_keys_lem a b (k ∷ ks) p q h = ground (
  arith,
  compare_keys_lem a b ks true q,
  compare_keys_lem a b ks p true,
  compare_keys_lem a b ks p q,
)

-- the pointwise order
infix 50 ◌≼◌
abbrev pub ◌≼◌ : ClockSnapshot → ClockSnapshot → Type 0
a ≼ b = (k : String) → component a k ≤ component b k

any-ahead :
    (a b : ClockSnapshot) (k : String) (ks : List String)
    → any (λ j. j == k) ks ≡ true
    → any (ahead a b) ks ≡ false
    → component a k ≤ component b k
unfolding any
any-ahead a b k [] m h = cc
any-ahead a b k (j ∷ ks) m h = ground (arith, eq_iff j k, any-ahead a b k ks)

any-ahead_some :
    (a b : ClockSnapshot) (ks : List String)
    → any (ahead a b) ks ≡ true
    → (k : String) × (component b k < component a k)
unfolding any
any-ahead_some a b [] h = cc
any-ahead_some a b (j ∷ ks) h = elim (Bool-cases (ahead a b j)) [
  | inl e ↦ (j, ground arith)
  | inr e ↦ any-ahead_some a b ks (ground arith)
]

not-ahead_some :
    (a b : ClockSnapshot) (ks : List String) (k : String)
    → component b k < component a k
    → any (λ j. j == k) ks ≡ true
    → any (ahead a b) ks ≡ true
unfolding any
not-ahead_some a b [] k h m = cc
not-ahead_some a b (j ∷ ks) k h m = ground (arith, eq_iff j k, not-ahead_some a b ks k h)

lookup-keys :
    (c : ClockSnapshot) (k : String) → any (λ j. j == k) (keys c) ≡ false → component c k ≡ 0
unfolding any keys lookup
lookup-keys [] k h = refl
lookup-keys ((j, v) ∷ c) k h = ground (arith, lookup-keys c k)

any-filter :
    (k : String) (p : String → Bool) (ks : List String)
    → any (λ j. j == k) ks ≡ true
    → p k ≡ true
    → any (λ j. j == k) (filter p ks) ≡ true
unfolding any filter
any-filter k p [] m h = cc
any-filter k p (j ∷ ks) m h = ground (arith, eq_iff j k, any-filter k p ks)

-- A component that is not zero on both sides has its key in the union.
key_union_mem :
    (a b : ClockSnapshot) (k : String)
    → any (λ j. j == k) (key_union a b) ≡ false
    → (component a k ≡ 0) × (component b k ≡ 0)
unfolding key_union
key_union_mem a b k h =
    let p = λ (j : String). not (any (λ i. i == j) (keys a)) in
    ground (
      arith,
      any-append (λ j. j == k) (keys a) (filter p (keys b)),
      any-filter k p (keys b),
      lookup-keys a k,
      lookup-keys b k,
    )

-- No component of `a` over the union is ahead exactly when `a` is below `b`.
ahead_le : (a b : ClockSnapshot) → any (ahead a b) (key_union a b) ≡ false → a ≼ b
ahead_le a b h k = ground (arith, any-ahead a b k (key_union a b), key_union_mem a b k)

ahead-ge : (a b : ClockSnapshot) → any (ahead b a) (key_union a b) ≡ false → b ≼ a
ahead-ge a b h k = ground (arith, any-ahead b a k (key_union a b), key_union_mem a b k)

ahead_not_le : (a b : ClockSnapshot) (ks : List String) → any (ahead a b) ks ≡ true → ¬ (a ≼ b)
ahead_not_le a b ks h le = let (k, lt) = any-ahead_some a b ks h in omega (arith, le k)

abbrev pub AsOrdered : ClockSnapshot → ClockSnapshot → Verdict → Type 0
AsOrdered a b Verdict.equal = (a ≼ b) × (b ≼ a)
AsOrdered a b Verdict.dominates = ¬ (a ≼ b) × (b ≼ a)
AsOrdered a b Verdict.dominated_by = (a ≼ b) × ¬ (b ≼ a)
AsOrdered a b Verdict.concurrent = ¬ (a ≼ b) × ¬ (b ≼ a)

-- The verdict that compare_clocks gives is the pointwise order of the two clocks, on all four
-- verdicts: which of the two is below the other, both, or neither.
pub compare_clocks_order : (a b : ClockSnapshot) → AsOrdered a b (compare_clocks a b)
unfolding compare_clocks
compare_clocks_order a b =
    let ks = key_union a b in
    rw (compare_keys_lem a b ks false false refl)
      (go (any (ahead a b) ks) (any (ahead b a) ks) refl refl)
  where
    go :
        (p q : Bool)
        → any (ahead a b) (key_union a b) ≡ p
        → any (ahead b a) (key_union a b) ≡ q
        → AsOrdered a b (judge p q)
    go true true x y = (ahead_not_le a b _ x, ahead_not_le b a _ y)
    go true false x y = (ahead_not_le a b _ x, ahead-ge a b y)
    go false true x y = (ahead_le a b x, ahead_not_le b a _ y)
    go false false x y = (ahead_le a b x, ahead-ge a b y)

-- An advance adds one to the participant's own component and keeps every other.
pub component-advance_clock :
    (c : ClockSnapshot) (id k : String)
    → component (advance_clock c id) k ≡ (if id == k then component c k + 1 else component c k)
unfolding advance_clock
component-advance_clock c id k =
    ground (arith, lookup-insert id k (component c id + 1) c, eq_iff id k)

-- Keys of an object are distinct.
abbrev pub IsDistinct : List String → Type 0
IsDistinct [] = Unit
IsDistinct (k ∷ ks) = (any (λ j. j == k) ks ≡ false) × IsDistinct ks

component-merge_entries :
    (b m : ClockSnapshot) (k : String)
    → IsDistinct (keys b)
    → component (merge_entries m b) k ≡ max (component m k) (component b k)
unfolding merge_entries keys lookup
component-merge_entries [] m k d = omega arith
component-merge_entries ((j, v) ∷ b) m k d =
    let w = max (component m j) v in
    ground (
      arith,
      component-merge_entries b (insert j w m) k d.1,
      lookup-insert j k w m,
      lookup-keys b j d.0,
      eq_iff j k,
    )

-- Over clocks with distinct keys, a merge has at each participant the larger of the two counts.
pub component-merge_clocks :
    (a b : ClockSnapshot) (k : String)
    → IsDistinct (keys b)
    → component (merge_clocks a b) k ≡ max (component a k) (component b k)
unfolding merge_clocks
component-merge_clocks a b k d = component-merge_entries b a k d
