-- ===== src/Kernel/Asset/Authority.antt =====
-- Which path may decide on a candidate.
use navis.Base.{
  ◌≡◌, subst, Option-cases, Bool-cases, inl, inr, true, false, ◌&&◌, ◌||◌, Option, none, some, ◌==◌,
  lookup, arith,
}
use navis.Schema.Platform.{Platform}
use navis.Schema.Vocabulary.{AssetLifecycle, asset_lifecycle_eq}
use navis.Schema.Asset.{Target, to_state, purged, contested, other, PurgeGate, assert_transition}
use navis.State.Rows.{AssetRow}
use navis.Kernel.Core.{Kernel, ok, ◌>>=◌, ◌>>◌, is_human, guard_preconditions}
use navis.Kernel.Asset.{TransitionAssetCommand, transition_asset, is_state, purge_gate, live_asset}

candidate_eq :
    (l : AssetLifecycle) → (l == AssetLifecycle.candidate) ≡ true → l ≡ AssetLifecycle.candidate
candidate_eq l h = ground arith

-- of the legal moves of a candidate, both are decisions
assert_transition-candidate :
    (to : Target) (gate : Option PurgeGate)
    → assert_transition AssetLifecycle.candidate to gate ≡ none
    → (is_state to AssetLifecycle.active || is_state to AssetLifecycle.rejected) ≡ true
unfolding assert_transition
assert_transition-candidate (to_state l) gate h = ground arith
assert_transition-candidate purged gate h = absurd (ground arith)
assert_transition-candidate contested gate h = absurd (ground arith)
assert_transition-candidate (other t) gate h = absurd (ground arith)

not_candidate :
    (z : Platform) (c : TransitionAssetCommand) (a : AssetRow)
    → assert_transition a.lifecycle c.to (purge_gate z c a) ≡ none
    → (a.lifecycle == AssetLifecycle.candidate
        && (is_state c.to AssetLifecycle.active || is_state c.to AssetLifecycle.rejected))
      ≡ false
    → (a.lifecycle == AssetLifecycle.candidate) ≡ false
not_candidate z c a h g = elim (Bool-cases (a.lifecycle == AssetLifecycle.candidate)) [
  | inr n ↦ n
  | inl p ↦ absurd (
      ground (
        arith,
        p,
        g,
        assert_transition-candidate c.to (purge_gate z c a) (
            subst (λ l. assert_transition l c.to (purge_gate z c a) ≡ none)
              (candidate_eq a.lifecycle p) h),
      ))
]

-- A lifecycle transition that succeeds is on a live asset that is not a candidate, and a human asked
-- for it: a candidate is decided only by an acceptance.
pub transition_asset-decided :
    (z : Platform) (c : TransitionAssetCommand) (k k' : Kernel) (row : Option AssetRow)
    → transition_asset z c k ≡ (ok row, k')
    → (a : AssetRow) × (live_asset k.draft c.asset_id ≡ some a)
      × ((a.lifecycle == AssetLifecycle.candidate) ≡ false)
      × (is_human (lookup c.actor k.draft.participants) ≡ true)
unfolding transition_asset guard_preconditions ◌>>=◌ ◌>>◌
transition_asset-decided z c k k' row h = elim (Option-cases (live_asset k.draft c.asset_id)) [
  | inl n ↦ absurd (ground arith)
  | inr (a, e) ↦ (a, e, not_candidate z c a (ground arith) (ground arith), ground arith)
]
