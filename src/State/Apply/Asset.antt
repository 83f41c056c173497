-- ===== src/State/Apply/Asset.antt =====
-- The cases of `applyEvent` for assets, acceptances and holds.
use navis.Base.{
  String, Bool, not, ◌&&◌, ◌||◌, Option, none, some, List, ◌==◌, string_eq, any, if◌then◌else◌,
  Dict, lookup, insert, values,
}
use navis.Schema.Vocabulary.{
  AssetLifecycle, asset_lifecycle_eq, AcceptanceResult, acceptance_result_eq,
}
use navis.Schema.Ledgers.{HoldStatus, equip_status_eq}
use navis.Schema.Errors.{no_acceptance_record}
use navis.State.Rows.{AssetRow, HoldRow, AcceptanceRow, Projection, Json}
use navis.State.Events.{AssetSeed, HoldRegistered, HoldMoved, StateEvent}
use navis.State.Apply.Effect.{candidate_row}
use navis.State.Replay.{Replay, ok, fault, ◌>>=◌, must, modify}

unfoldable pub fold_asset_created : Projection → StateEvent → AssetSeed → Projection
fold_asset_created d e seed =
    let row = candidate_row seed seed.scope seed.project_id e.at in
    record d {
      assets =
          insert seed.id (record row { valid_from = seed.valid_from; valid_to = seed.valid_to })
            d.assets;
    }

-- some acceptance of the asset has this result
unfoldable pub has_verdict : Dict AcceptanceRow → String → AcceptanceResult → Bool
has_verdict acceptances asset_id result =
    any (λ r. r.asset_id == asset_id && r.result == result) (values acceptances)

abbrev pub is_decision : AssetLifecycle → AssetLifecycle → Bool
is_decision from to =
    from == AssetLifecycle.candidate
    && (to == AssetLifecycle.active || to == AssetLifecycle.rejected)

abbrev pub verdict_of : AssetLifecycle → AcceptanceResult
verdict_of AssetLifecycle.active = AcceptanceResult.accepted
verdict_of _ = AcceptanceResult.rejected

abbrev pub moved_asset : AssetRow → AssetLifecycle → String → AssetRow
moved_asset a to at = record a {
  lifecycle = to;
  archived_at = if to == AssetLifecycle.archived then some at else a.archived_at;
  competitive_superseded_at = if to == AssetLifecycle.competitive_superseded then some at else none;
}

unfoldable pub fold_lifecycle_changed :
    Projection → StateEvent → String → AssetLifecycle → Replay Projection
fold_lifecycle_changed d e asset_id to = do
  a ← must (lookup asset_id d.assets) "asset"
  let moved = ok (record d { assets = insert asset_id (moved_asset a to e.at) d.assets })
  if is_decision a.lifecycle to && not (has_verdict d.acceptances a.id (verdict_of to))
      then fault no_acceptance_record
      else moved

unfoldable pub fold_asset_purged : Projection → StateEvent → String → Replay Projection
unfolding modify
fold_asset_purged d e asset_id = do
  assets ← modify "asset" asset_id (λ (a : AssetRow). record a { deleted_at = some e.at }) d.assets
  ok (record d { assets = assets })

unfoldable pub fold_acceptance_recorded :
    Projection
    → StateEvent
    → String
    → String
    → AcceptanceResult
    → Option String
    → Json
    → Option (List String)
    → String
    → Projection
fold_acceptance_recorded d e id asset_id result rationale criteria evidence actor = record d {
  acceptances =
      insert id
        (record {
          id = id;
          asset_id = asset_id;
          result = result;
          rationale = rationale;
          criteria_snapshot = criteria;
          evidence_refs = evidence;
          actor = actor;
          created_at = e.at;
          deleted_at = none;
        })
        d.acceptances;
}

unfoldable pub fold_hold_registered : Projection → StateEvent → HoldRegistered → Projection
fold_hold_registered d e h = record d {
  holds =
      insert h.hold_id
        (record {
          id = h.hold_id;
          project_id = h.project_id;
          kind = h.kind;
          severity = h.severity;
          status = h.initial_status;
          blocks_delivery = h.blocks_delivery;
          statement = h.statement;
          source_event_ids = h.source_event_ids;
          registered_during_work = h.registered_during_work;
          asset_refs = h.asset_refs;
          registered_by = h.registered_by;
          applicability = h.applicability;
          created_at = e.at;
          updated = none;
          deleted_at = none;
        })
        d.holds;
}

unfoldable pub fold_hold_moved : Projection → HoldStatus → HoldMoved → Replay Projection
unfolding modify
fold_hold_moved d to m = do
  holds ← modify "hold" m.hold_id (λ (h : HoldRow). record h { status = to }) d.holds
  ok (record d { holds = holds })
