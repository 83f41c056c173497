-- ===== src/State/Clock.antt =====
-- state/vector-clock.ts: per-participant counters of observed events, and their comparison.
pub mod Order
use navis.Base.{
  ℕ, ◌+◌, max, String, Bool, true, false, not, ◌&&◌, ◌||◌, List, [], ◌∷◌, ◌++◌, ◌==◌, string_eq,
  ltb, if◌then◌else◌, get_or_else, any, filter, Dict, lookup, insert, keys,
}

pub data Verdict : Type 0 where
  dominates dominated_by concurrent equal : Verdict

abbrev pub ClockSnapshot : Type 0
ClockSnapshot = Dict ℕ

-- `clock[key] ?? 0`
abbrev pub component : ClockSnapshot → String → ℕ
component c k = get_or_else (lookup k c) 0

-- the `return` after the loop
abbrev pub verdict : Bool → Bool → Verdict
verdict true b_ahead = Verdict.dominates
verdict false true = Verdict.dominated_by
verdict false false = Verdict.equal

-- the loop, which stops when both sides are ahead somewhere
unfoldable pub compare_keys : ClockSnapshot → ClockSnapshot → List String → Bool → Bool → Verdict
compare_keys a b [] a_ahead b_ahead = verdict a_ahead b_ahead
compare_keys a b (k ∷ ks) a_ahead b_ahead =
    let left = component a k in
    let right = component b k in
    let a' = if ltb right left then true else a_ahead in
    let b' = if ltb right left then b_ahead else if ltb left right then true else b_ahead in
    let rest = compare_keys a b ks a' b' in if a' && b' then Verdict.concurrent else rest

-- `new Set([...Object.keys(a), ...Object.keys(b)])`
unfoldable pub key_union : ClockSnapshot → ClockSnapshot → List String
key_union a b = keys a ++ filter (λ k. not (any (λ j. j == k) (keys a))) (keys b)

unfoldable pub compare_clocks : ClockSnapshot → ClockSnapshot → Verdict
compare_clocks a b = compare_keys a b (key_union a b) false false

unfoldable pub merge_entries : ClockSnapshot → List (String × ℕ) → ClockSnapshot
merge_entries merged [] = merged
merge_entries merged ((key, value) ∷ rest) =
    merge_entries (insert key (max (component merged key) value) merged) rest

unfoldable pub merge_clocks : ClockSnapshot → ClockSnapshot → ClockSnapshot
unfolding merge_entries
merge_clocks a b = merge_entries a b

unfoldable pub advance_clock : ClockSnapshot → String → ClockSnapshot
advance_clock clock id = insert id (component clock id + 1) clock
