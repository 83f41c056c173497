-- ===== src/State/Apply/Effect.antt =====
-- The cases of `applyEvent` for returns, effects, deliveries and directions.
use navis.Base.{
  ℕ, String, true, Option, none, some, List, [], ◌∷◌, string_eq, if◌then◌else◌, get_or_else,
  is_present, Dict, insert,
}
use navis.Schema.Vocabulary.{AssetLifecycle, asset_lifecycle_eq, AssetScope, acceptance_result_eq}
use navis.Schema.Ledgers.{EffectStatus, equip_status_eq, DeliveryStatus, DirectionStatus}
use navis.State.Rows.{
  ProjectRow, AssetRow, EffectRow, DeliveryRow, IntendedDirectionRow, Projection,
}
use navis.State.Events.{AssetSeed, EffectSeed, DeliveryRecorded, StateEvent}
use navis.State.Replay.{Replay, ok, ◌>>=◌, must, modify}

abbrev pub new_effect : String → Option String → Option String → Option String → String → EffectRow
new_effect id intent_key asset_ref description at = record {
  id = id;
  intent_key = intent_key;
  asset_ref = asset_ref;
  description = description;
  status = EffectStatus.unknown;
  execution_attempts = none;
  closed_at = none;
  late_cancel_received = none;
  created_at = at;
  updated = none;
  deleted_at = none;
}

abbrev pub candidate_row : AssetSeed → AssetScope → Option String → String → AssetRow
candidate_row seed scope project_id at = record {
  id = seed.id;
  kind = seed.kind;
  scope = scope;
  project_id = project_id;
  lifecycle = AssetLifecycle.candidate;
  provenance = seed.provenance;
  content = seed.content;
  valid_from = none;
  valid_to = none;
  archived_at = none;
  competitive_superseded_at = none;
  created_at = at;
  updated = none;
  deleted_at = none;
}

-- the loop over the candidates, which reads the project in each round
unfoldable pub absorb_candidates :
    Option ProjectRow → String → List AssetSeed → Dict AssetRow → Replay (Dict AssetRow)
absorb_candidates project at [] assets = ok assets
absorb_candidates none at (seed ∷ seeds) assets = must none "project"
absorb_candidates (some p) at (seed ∷ seeds) assets =
    absorb_candidates (some p) at seeds
      (insert seed.id (candidate_row seed AssetScope.project (some p.id) at) assets)

unfoldable pub absorb_effects : String → List EffectSeed → Dict EffectRow → Dict EffectRow
absorb_effects at [] effects = effects
absorb_effects at (seed ∷ seeds) effects =
    absorb_effects at seeds
      (insert seed.id (new_effect seed.id none seed.asset_ref seed.description at) effects)

unfoldable pub fold_return_absorbed :
    Projection → StateEvent → List AssetSeed → List EffectSeed → Replay Projection
unfolding absorb_candidates absorb_effects
fold_return_absorbed d e candidates effects = do
  assets ← absorb_candidates d.project e.at candidates d.assets
  ok (record d { assets = assets; effects = absorb_effects e.at effects d.effects })

-- `effect.recorded`, and `effect.intent_recorded` with its key
unfoldable pub fold_effect_recorded :
    Projection → StateEvent → String → Option String → Option String → Option String → Projection
fold_effect_recorded d e id intent_key asset_ref description = record d {
  effects = insert id (new_effect id intent_key asset_ref description e.at) d.effects;
}

abbrev pub closed_effect : EffectStatus → String → EffectRow → EffectRow
closed_effect outcome at ef = record ef { status = outcome; closed_at = some at }

abbrev pub cancelled_effect : EffectRow → EffectRow
cancelled_effect ef = record ef { late_cancel_received = some true }

abbrev pub begun_effect : EffectRow → EffectRow
begun_effect ef = record ef { status = EffectStatus.executing }

abbrev pub reset_effect : ℕ → EffectRow → EffectRow
reset_effect attempts_next ef = record ef {
  status = EffectStatus.unknown;
  execution_attempts = some attempts_next;
}

-- the four cases that change the row of an effect
unfoldable pub fold_effect : Projection → String → (EffectRow → EffectRow) → Replay Projection
unfolding modify
fold_effect d effect_id f = do
  effects ← modify "effect" effect_id f d.effects
  ok (record d { effects = effects })

unfoldable pub fold_delivery_recorded : Projection → StateEvent → DeliveryRecorded → Projection
fold_delivery_recorded d e r = record d {
  deliveries =
      insert r.delivery_id
        (record {
          id = r.delivery_id;
          asset_id = r.asset_id;
          target_ref = r.target_ref;
          target_type = r.target_type;
          dispatched_at = e.at;
          version = r.version;
          attempt_no = r.attempt_no;
          delivered_by = r.delivered_by;
          confirmation_status = DeliveryStatus.delivered;
          confirmed_by = none;
          confirmed_at = none;
          feedback = none;
          created_at = e.at;
          updated = none;
          deleted_at = none;
        })
        d.deliveries;
}

unfoldable pub fold_delivery_confirmed :
    Projection → StateEvent → String → DeliveryStatus → String → Option String → Replay Projection
unfolding modify
fold_delivery_confirmed d e id outcome confirmed_by feedback = do
  deliveries ←
      modify "delivery" id
        (λ (dl : DeliveryRow). record dl {
          confirmation_status = outcome;
          confirmed_by = some confirmed_by;
          confirmed_at = some e.at;
          feedback = if is_present feedback then feedback else dl.feedback;
        })
        d.deliveries
  ok (record d { deliveries = deliveries })

unfoldable pub fold_direction_proposed :
    Projection → StateEvent → String → String → Option String → Replay Projection
fold_direction_proposed d e id title detail = do
  p ← must d.project "project"
  ok (record d {
    intended_directions =
        insert id
          (record {
            id = id;
            project_id = p.id;
            title = title;
            detail = detail;
            status = DirectionStatus.proposed;
            proposed_by = get_or_else e.actor "";
            proposed_at = e.at;
            resolved_by = none;
            resolved_at = none;
            resolution_reason = none;
            created_at = e.at;
            updated = none;
            deleted_at = none;
          })
          d.intended_directions;
  })

unfoldable pub fold_direction_resolved :
    Projection → StateEvent → String → DirectionStatus → String → Replay Projection
unfolding modify
fold_direction_resolved d e id resolution reason = do
  directions ←
      modify "direction" id
        (λ (dir : IntendedDirectionRow). record dir {
          status = resolution;
          resolved_by = if is_present e.actor then e.actor else dir.resolved_by;
          resolved_at = some e.at;
          resolution_reason = some reason;
        })
        d.intended_directions
  ok (record d { intended_directions = directions })
