-- ===== src/Schema/Asset/Lifecycle.antt =====
-- What `assertTransition` lets pass.
use navis.Base.{◌≡◌, refl, true, false, ◌&&◌, ◌||◌, ℕ, Option, none, some, ◌==◌, ltb, arith}
use navis.Schema.Vocabulary.{AssetLifecycle, asset_lifecycle_eq}
use navis.Schema.Asset.{to_state, purged, PurgeGate, too_young, assert_transition}

-- how far a state is on the way of an asset
unfoldable pub stage : AssetLifecycle → ℕ
stage AssetLifecycle.candidate = 0
stage AssetLifecycle.active = 1
stage AssetLifecycle.superseded = 2
stage AssetLifecycle.competitive_superseded = 2
stage AssetLifecycle.deprecated = 2
stage AssetLifecycle.archived = 3
stage AssetLifecycle.rejected = 3

-- A lifecycle transition to a state that passes goes strictly forward by `stage`, but for the
-- reactivation of a competitively superseded asset.
pub assert_transition-stage :
    (from to : AssetLifecycle) (gate : Option PurgeGate)
    → assert_transition from (to_state to) gate ≡ none
    → (ltb (stage from) (stage to)
        || (from == AssetLifecycle.competitive_superseded && to == AssetLifecycle.active))
      ≡ true
unfolding assert_transition stage
assert_transition-stage from to gate h = ground arith

-- A purge that passes is of an archived asset, with a gate that is given, whose age is a number of at
-- least the threshold, and with the double confirmation.
pub assert_transition-purged :
    (from : AssetLifecycle) (gate : Option PurgeGate)
    → assert_transition from purged gate ≡ none
    → (from ≡ AssetLifecycle.archived)
      × ((g : PurgeGate) × (gate ≡ some g)
          × (too_young g.days_archived ≡ false)
          × (g.double_confirmation ≡ true))
unfolding assert_transition
assert_transition-purged from none h = absurd (ground arith)
assert_transition-purged from (some g) h = (ground arith, (g, refl, ground arith, ground arith))
