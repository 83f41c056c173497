-- ===== src/State/Apply/Total.antt =====
-- When `applyEvent` does not throw.
use navis.Base.{
  ◌≡◌, refl, ◌&&◌, not, Bool, true, false, String, Option, none, some, List, [], ◌∷◌, if◌then◌else◌,
  lookup, Bool-cases, inl, inr, Dict,
}
use navis.State.Rows.{Projection, AssetRow, ProjectRow}
use navis.State.Events
use navis.State.Events.{EventData, StateEvent, AssetSeed, is_kernel_event}
use navis.State.Replay.{Replay, ok, ◌>>=◌, must}
use navis.State.Replay.Rows.{IsThere, modify_ok}
use navis.State.Apply.{fold_data, apply_event}
use navis.State.Apply.Project.{fold_policy_updated, fold_boundary_updated, fold_status_changed}
use navis.State.Apply.Work.{fold_work_redirected, fold_work_status_changed}
use navis.State.Apply.Asset.{
  fold_lifecycle_changed, fold_asset_purged, fold_hold_moved, is_decision, has_verdict, verdict_of,
}
use navis.State.Apply.Effect.{
  fold_return_absorbed, absorb_candidates, fold_effect, fold_delivery_confirmed,
  fold_direction_proposed, fold_direction_resolved,
}
use navis.State.Apply.Runs.{fold_workrun_transitioned, fold_session_opened, fold_session_closed}

-- The rows that the fold of an event changes or reads are there, and a decision on a candidate has
-- its record. Any other event folds in any case.
abbrev pub Foldable : Projection → EventData → Type 0
Foldable d (Events.project_policy_updated actor reason privacy count days) = IsThere d.policy
Foldable d (Events.project_boundary_updated actor reason boundary criteria) = IsThere d.project
Foldable d (Events.project_status_changed actor from to reason) = IsThere d.project
Foldable d (Events.work_redirected id direction reason actor checkpoint) =
    IsThere (lookup id d.works)
Foldable d (Events.work_status_changed id from to reason cause actor) = IsThere (lookup id d.works)
Foldable d (Events.asset_lifecycle_changed id from to reason actor) =
    (a : AssetRow) × (lookup id d.assets ≡ some a)
    × ((is_decision a.lifecycle to && not (has_verdict d.acceptances a.id (verdict_of to))) ≡ false)
Foldable d (Events.asset_purged id reason actor) = IsThere (lookup id d.assets)
Foldable d (Events.hold_moved to m) = IsThere (lookup m.hold_id d.holds)
Foldable d (Events.return_absorbed id actor candidates effects judgment) = IsThere d.project
Foldable d (Events.effect_closed id outcome actor reason) = IsThere (lookup id d.effects)
Foldable d (Events.effect_cancel_recorded id actor reason) = IsThere (lookup id d.effects)
Foldable d (Events.effect_execution_begun id actor) = IsThere (lookup id d.effects)
Foldable d (Events.effect_execution_reset id actor reason attempts_next) =
    IsThere (lookup id d.effects)
Foldable d (Events.delivery_confirmed id outcome confirmed_by actor feedback) =
    IsThere (lookup id d.deliveries)
Foldable d (Events.direction_proposed id title detail) = IsThere d.project
Foldable d (Events.direction_resolved id resolution reason) =
    IsThere (lookup id d.intended_directions)
Foldable d (Events.workrun_transitioned t) = IsThere (lookup t.run_id d.work_runs)
Foldable d (Events.intervention_session_opened run_id id mode revision consent) =
    IsThere (lookup run_id d.work_runs)
Foldable d (Events.intervention_session_closed run_id id was_takeover revision consent) =
    IsThere (lookup run_id d.work_runs)
Foldable d _ = Unit

absorb_candidates_ok :
    (p : ProjectRow) (at : String) (seeds : List AssetSeed) (assets : Dict AssetRow)
    → (assets' : Dict AssetRow) × (absorb_candidates (some p) at seeds assets ≡ ok assets')
unfolding absorb_candidates
absorb_candidates_ok p at [] assets = (assets, refl)
absorb_candidates_ok p at (seed ∷ seeds) assets = absorb_candidates_ok p at seeds _

absorb_ok :
    (o : Option ProjectRow) (at : String) (seeds : List AssetSeed) (assets : Dict AssetRow)
    → IsThere o
    → (assets' : Dict AssetRow) × (absorb_candidates o at seeds assets ≡ ok assets')
absorb_ok none at seeds assets h = cc
absorb_ok (some p) at seeds assets h = absorb_candidates_ok p at seeds assets

-- the value of a chain whose first part has one
abbrev pub Returns {ℓ} : {A : Type ℓ} → Replay A → Type ℓ
Returns {A = A} m = (a : A) × (m ≡ ok a)

bind_ok {ℓ κ} :
    {A : Type ℓ} {B : Type κ} (m : Replay A) (f : A → B) → Returns m → Returns (m >>= λ a. ok (f a))
bind_ok m f (a, e) = (f a, rw e)

must_ok {ℓ κ} :
    {A : Type ℓ} {B : Type κ} (o : Option A) (what : String) (f : A → Replay B)
    → IsThere o
    → ((a : A) → Returns (f a))
    → Returns (must o what >>= f)
must_ok none what f h r = cc
must_ok (some a) what f h r = r a

lookup_ok {ℓ κ} :
    {A : Type ℓ} {B : Type κ} (o : Option A) (a : A) (what : String) (f : A → Replay B)
    → o ≡ some a
    → Returns (f a)
    → Returns (must o what >>= f)
lookup_ok o a what f s (b, e) = (b, rw s e)

else_ok {ℓ} :
    {A : Type ℓ} (b : Bool) (m n : Replay A) → b ≡ false → Returns n → Returns (if b then m else n)
else_ok b m n h (a, e) = (a, rw h e)

then_ok {ℓ} :
    {A : Type ℓ} (b : Bool) (m n : Replay A) → b ≡ true → Returns m → Returns (if b then m else n)
then_ok b m n h (a, e) = (a, rw h e)

fold_data_ok :
    (d : Projection) (e : StateEvent) (b : EventData) → Foldable d b → Returns (fold_data d e b)
unfolding fold_data fold_policy_updated fold_boundary_updated fold_status_changed
    fold_work_redirected fold_work_status_changed fold_lifecycle_changed fold_asset_purged
    fold_hold_moved fold_return_absorbed fold_effect fold_delivery_confirmed fold_direction_proposed
    fold_direction_resolved fold_workrun_transitioned fold_session_opened fold_session_closed
fold_data_ok d e (Events.project_policy_updated actor reason privacy count days) h =
    must_ok d.policy _ _ h (λ p. (_, refl))
fold_data_ok d e (Events.project_boundary_updated actor reason boundary criteria) h =
    must_ok d.project _ _ h (λ p. (_, refl))
fold_data_ok d e (Events.project_status_changed actor from to reason) h =
    must_ok d.project _ _ h (λ p. (_, refl))
fold_data_ok d e (Events.work_redirected id direction reason actor checkpoint) h =
    bind_ok _ _ (modify_ok _ id _ d.works h)
fold_data_ok d e (Events.work_status_changed id from to reason cause actor) h =
    bind_ok _ _ (modify_ok _ id _ d.works h)
fold_data_ok d e (Events.asset_lifecycle_changed id from to reason actor) (a, s, g) =
    lookup_ok (lookup id d.assets) a _ _ s (else_ok _ _ _ g (_, refl))
fold_data_ok d e (Events.asset_purged id reason actor) h = bind_ok _ _ (modify_ok _ id _ d.assets h)
fold_data_ok d e (Events.hold_moved to m) h = bind_ok _ _ (modify_ok _ m.hold_id _ d.holds h)
fold_data_ok d e (Events.return_absorbed id actor candidates effects judgment) h =
    bind_ok _ _ (absorb_ok d.project e.at candidates d.assets h)
fold_data_ok d e (Events.effect_closed id outcome actor reason) h =
    bind_ok _ _ (modify_ok _ id _ d.effects h)
fold_data_ok d e (Events.effect_cancel_recorded id actor reason) h =
    bind_ok _ _ (modify_ok _ id _ d.effects h)
fold_data_ok d e (Events.effect_execution_begun id actor) h =
    bind_ok _ _ (modify_ok _ id _ d.effects h)
fold_data_ok d e (Events.effect_execution_reset id actor reason attempts_next) h =
    bind_ok _ _ (modify_ok _ id _ d.effects h)
fold_data_ok d e (Events.delivery_confirmed id outcome confirmed_by actor feedback) h =
    bind_ok _ _ (modify_ok _ id _ d.deliveries h)
fold_data_ok d e (Events.direction_proposed id title detail) h =
    must_ok d.project _ _ h (λ p. (_, refl))
fold_data_ok d e (Events.direction_resolved id resolution reason) h =
    bind_ok _ _ (modify_ok _ id _ d.intended_directions h)
fold_data_ok d e (Events.workrun_transitioned t) h =
    must_ok (lookup t.run_id d.work_runs) _ _ h (λ p. (_, refl))
fold_data_ok d e (Events.intervention_session_opened run_id id mode revision consent) h =
    bind_ok _ _ (modify_ok _ run_id _ d.work_runs h)
fold_data_ok d e (Events.intervention_session_closed run_id id was_takeover revision consent) h =
    bind_ok _ _ (modify_ok _ run_id _ d.work_runs h)
fold_data_ok d e _ h = (_, refl)

pub apply_event_ok :
    (d : Projection) (e : StateEvent) → Foldable d e.body → Returns (apply_event d e)
unfolding apply_event
apply_event_ok d e h = elim (Bool-cases (is_kernel_event e.body)) [
  | inl t ↦ then_ok _ _ _ t (bind_ok _ _ (fold_data_ok d e e.body h))
  | inr n ↦ else_ok _ _ _ n (_, refl)
]
