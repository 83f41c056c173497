-- ===== src/Schema/Asset.antt =====
-- schema/asset.ts: the content rules and the lifecycle table of assets.
pub mod Lifecycle
use navis.Base.{
  ℕ, String, Bool, true, false, not, ◌&&◌, ◌||◌, Option, none, some, List, [], ◌∷◌, ◌==◌, string_eq,
  leb, any, all, length, if◌then◌else◌, is_present, get_or_else, ℤ, pos, ltb_ℤ, codes,
}
use navis.Schema.Vocabulary.{
  AssetKind, AssetScope, AssetLifecycle, AssetContentStorage, asset_lifecycle_eq,
  asset_lifecycle_text, asset_content_storage_eq,
}
use navis.Schema.Platform.{Platform}
use navis.Schema.Ids.{optional, max_safe_integer, is_hex}
use navis.Schema.Errors.{Refusal, illegal_transition, not_enabled, purge_conditions_unmet}

pub record AssetContent : Type 0 where
  pub media_type : String
  pub storage : AssetContentStorage
  pub text : Option String
  pub ref : Option String
  pub size : Option ℕ
  pub sha256 : Option String

-- `z.string().length(64).regex(/^[0-9a-f]{64}$/)`
unfoldable pub is_sha256 : String → Bool
unfolding is_hex codes
is_sha256 s = leb (length (codes s)) 64 && leb 64 (length (codes s)) && all is_hex (codes s)

-- the first refinement: inline content points at nothing, all other content points somewhere
unfoldable pub points_as_stored : AssetContent → Bool
points_as_stored c =
    if c.storage == AssetContentStorage.inline
    then not (is_present c.ref)
    else is_present c.ref && not (is_present c.text)

module _ (z : Platform) where
  -- the second refinement: inline text has the hash that it claims
  unfoldable pub hashes_as_claimed : AssetContent → Bool
  hashes_as_claimed c = optional (λ t. optional (λ h. z.sha256_hex t == h) c.sha256) c.text

  -- `assetContentSchema`
  unfoldable pub is_asset_content : AssetContent → Bool
  unfolding is_sha256 points_as_stored hashes_as_claimed
  is_asset_content c =
      z.text_between 1 255 c.media_type
      && optional (z.text_between 0 65536) c.text
      && optional (z.text_between 1 2048) c.ref
      && optional (λ n. leb n max_safe_integer) c.size
      && optional is_sha256 c.sha256
      && points_as_stored c
      && hashes_as_claimed c

abbrev pub competitive_grace_period_days : ℕ
competitive_grace_period_days = 90

abbrev pub purge_age_threshold_days : ℕ
purge_age_threshold_days = 180

-- `LEGAL_TRANSITIONS`
unfoldable pub legal_transitions : AssetLifecycle → List AssetLifecycle
legal_transitions AssetLifecycle.candidate = AssetLifecycle.active ∷ AssetLifecycle.rejected ∷ []
legal_transitions AssetLifecycle.active =
    AssetLifecycle.superseded ∷ AssetLifecycle.competitive_superseded ∷ AssetLifecycle.deprecated
    ∷ AssetLifecycle.archived ∷ []
legal_transitions AssetLifecycle.superseded = AssetLifecycle.archived ∷ []
legal_transitions AssetLifecycle.competitive_superseded =
    AssetLifecycle.active ∷ AssetLifecycle.archived ∷ []
legal_transitions AssetLifecycle.deprecated = AssetLifecycle.archived ∷ []
legal_transitions AssetLifecycle.archived = []
legal_transitions AssetLifecycle.rejected = []

pub record PurgeGate : Type 0 where
  pub days_archived : Option ℤ  -- `none` is NaN
  pub double_confirmation : Bool

-- What a caller may ask for: a lifecycle state, one of the two outcomes that are none, or any text.
pub data Target : Type 0 where
  to_state : AssetLifecycle → Target
  purged : Target
  contested : Target
  other : String → Target

abbrev pub target_text : Target → String
target_text (to_state l) = asset_lifecycle_text l
target_text purged = "purged"
target_text contested = "contested"
target_text (other s) = s

-- `!Number.isFinite(days) || days < PURGE_AGE_THRESHOLD_DAYS`
abbrev pub too_young : Option ℤ → Bool
too_young none = true
too_young (some d) = ltb_ℤ d (pos purge_age_threshold_days)

abbrev no_gate : PurgeGate
no_gate = record { days_archived = some (pos 0); double_confirmation = false }

-- The error of `assertTransition`, or none.
unfoldable pub assert_transition : AssetLifecycle → Target → Option PurgeGate → Option Refusal
unfolding legal_transitions any
assert_transition from purged gate =
    let g = get_or_else gate no_gate in
    if not (from == AssetLifecycle.archived)
    then some (illegal_transition (asset_lifecycle_text from) "purged" [])
    else if too_young g.days_archived || not g.double_confirmation
    then some
        (purge_conditions_unmet g.days_archived g.double_confirmation purge_age_threshold_days)
    else none
assert_transition from contested gate = some (not_enabled "contested")
assert_transition from (other s) gate = some (illegal_transition (asset_lifecycle_text from) s [])
assert_transition from (to_state to) gate =
    if any (λ l. l == to) (legal_transitions from)
    then none
    else some (illegal_transition (asset_lifecycle_text from) (asset_lifecycle_text to) [])
