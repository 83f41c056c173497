-- ===== src/Kernel/Delivery/Gates.antt =====
-- The gates that a delivery has passed.
use navis.Base.{
  ◌≡◌, refl, Bool, true, false, nat_eq, String, Option, none, List, [], ◌∷◌, lookup, filter, find?,
  length, any, is_present, values, arith,
}
use navis.Schema.Platform.{Platform}
use navis.State.Rows.{DeliveryRow}
use navis.Kernel.Core.{Kernel, ok, ◌>>=◌, ◌>>◌, guard_preconditions}
use navis.Kernel.Delivery.{
  DeliverCommand, deliver, blocks, is_unclosed, is_deliverable, asset_sha256, is_open_status,
  attempts,
}

filter-none {ℓ} :
    {A : Type ℓ} (p : A → Bool) (xs : List A) → length (filter p xs) ≡ 0 → any p xs ≡ false
unfolding filter any
filter-none p [] h = refl
filter-none p (x ∷ xs) h = ground (arith, filter-none p xs)

find?-none {ℓ} : {A : Type ℓ} (p : A → Bool) (xs : List A) → find? p xs ≡ none → any p xs ≡ false
unfolding find? any
find?-none p [] h = refl
find?-none p (x ∷ xs) h = ground (arith, find?-none p xs)

-- A delivery that is returned as done has passed every gate on the kernel that it was asked of: the
-- common preconditions (a known actor, the expected version, an active project), a live active
-- asset with a live accepting record, a content hash, no active hold that blocks the asset, no
-- effect on it that is unknown or executing, and no open attempt to the same target.
pub deliver-gates :
    (z : Platform) (c : DeliverCommand) (fresh : String) (k k' : Kernel) (row : Option DeliveryRow)
    → deliver z c fresh k ≡ (ok row, k')
    → (guard_preconditions c.expected_version "deliver" c.actor none false k ≡ ok tt)
      × (is_deliverable k.draft c.asset_id (lookup c.asset_id k.draft.assets) ≡ true)
      × (is_present (asset_sha256 (lookup c.asset_id k.draft.assets)) ≡ true)
      × (any (blocks c.asset_id) (values k.draft.holds) ≡ false)
      × (any (is_unclosed c.asset_id) (values k.draft.effects) ≡ false)
      × (any
            (λ (d : DeliveryRow). is_open_status d.confirmation_status)
            (attempts k.draft.deliveries c.asset_id c.target_ref)
          ≡ false)
unfolding deliver ◌>>=◌ ◌>>◌
deliver-gates z c fresh k k' row h = (
  ground arith,
  ground arith,
  ground arith,
  filter-none _ (values k.draft.holds) (ground arith),
  filter-none _ (values k.draft.effects) (ground arith),
  find?-none _ (attempts k.draft.deliveries c.asset_id c.target_ref) (ground arith),
)
