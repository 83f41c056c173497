-- ===== src/State/Apply.antt =====
-- `applyEvent` of state/project-state-kernel.ts: the one path that writes the projection. The cases
-- of its first `switch` are in the children; `fold_data` is the switch, `touch_row` the second one.
pub mod Project
pub mod Work
pub mod Asset
pub mod Effect
pub mod Runs
pub mod Total
pub mod Frame
use navis.Base.{
  ℕ, ◌+◌, String, Bool, true, false, not, ◌&&◌, ◌||◌, Option, none, some, List, [], ◌∷◌, ◌++◌, ◌==◌,
  string_eq, any, ltb, if◌then◌else◌, get_or_else, is_present, Dict, lookup, insert, values, map,
}
use navis.Schema.Vocabulary.{
  ParticipantType, ProjectStatus, CapturePrivacy, WorkStatus, AssetLifecycle, asset_lifecycle_eq,
  AssetScope, AcceptanceResult, acceptance_result_eq,
}
use navis.Schema.Ledgers.{
  HoldStatus, EffectStatus, EquipStatus, equip_status_eq, DeliveryStatus, DirectionStatus,
  WorkRunStatus, InterventionMode, ConsentStatus,
}
use navis.Schema.Errors.{Fault, no_acceptance_record}
use navis.State.Clock.{ClockSnapshot}
use navis.State.Intervention.{strongest_active_mode}
use navis.State.Rows.{
  Stamp, ParticipantRow, ProjectRow, PolicyRow, WorkRow, AssetRow, HoldRow, AcceptanceRow,
  CheckpointRow, EquipRow, EffectRow, DeliveryRow, WorkRunRow, RunSessionRow, IntendedDirectionRow,
  Projection, Json,
}
use navis.State.Events.{
  AssetSeed, EffectSeed, HoldRegistered, HoldMoved, DeliveryRecorded, RunTransitioned,
  CheckpointPayload, EventData, StateEvent, is_kernel_event, is_state_material,
}
use navis.State.Replay.{Replay, ok, fault, ◌>>=◌, must, modify, touch}
use navis.State.Events
use Project.{
  fold_participant_registered, fold_project_created, fold_policy_updated, fold_boundary_updated,
  fold_status_changed,
}
use Work.{fold_work_created, fold_work_redirected, fold_work_status_changed, fold_equip_issued}
use Asset.{
  fold_asset_created, fold_lifecycle_changed, fold_asset_purged, fold_acceptance_recorded,
  fold_hold_registered, fold_hold_moved,
}
use Effect.{
  fold_return_absorbed, fold_effect_recorded, fold_effect, closed_effect, cancelled_effect,
  begun_effect, reset_effect, fold_delivery_recorded, fold_delivery_confirmed,
  fold_direction_proposed, fold_direction_resolved,
}
use Runs.{fold_workrun_started, fold_workrun_transitioned, fold_session_opened, fold_session_closed}

unfoldable pub fold_data : Projection → StateEvent → EventData → Replay Projection
fold_data d e (Events.participant_registered id type name) =
    ok (fold_participant_registered d e id type name)
fold_data d e (Events.project_created id title purpose boundary criteria) =
    ok (fold_project_created d e id title purpose boundary criteria)
fold_data d e (Events.project_policy_updated actor reason privacy count days) =
    fold_policy_updated d e privacy count days
fold_data d e (Events.project_boundary_updated actor reason boundary criteria) =
    fold_boundary_updated d e boundary criteria
fold_data d e (Events.project_status_changed actor from to reason) = fold_status_changed d to
fold_data d e (Events.work_created id project_id title reason direction criteria depends_on actor) =
    ok (fold_work_created d e id project_id title direction criteria depends_on)
fold_data d e (Events.work_redirected id direction reason actor checkpoint) =
    fold_work_redirected d e id direction checkpoint
fold_data d e (Events.work_status_changed id from to reason cause actor) =
    fold_work_status_changed d id to
fold_data d e (Events.asset_created seed actor) = ok (fold_asset_created d e seed)
fold_data d e (Events.asset_lifecycle_changed id from to reason actor) =
    fold_lifecycle_changed d e id to
fold_data d e (Events.asset_purged id reason actor) = fold_asset_purged d e id
fold_data d e (Events.acceptance_recorded id asset_id result rationale criteria evidence actor) =
    ok (fold_acceptance_recorded d e id asset_id result rationale criteria evidence actor)
fold_data d e (Events.hold_registered h) = ok (fold_hold_registered d e h)
fold_data d e (Events.hold_moved to m) = fold_hold_moved d to m
fold_data d e (Events.checkpoint_created id) = ok d
fold_data d e (Events.equip_issued id version actor work_id participant_id snapshot actions) =
    ok (fold_equip_issued d e id work_id participant_id snapshot)
fold_data d e (Events.equip_budget_exceeded work_id participant_id count length budget actor) = ok d
fold_data d e (Events.return_rejected id actor version status current cs es judgment) = ok d
fold_data d e (Events.return_conflict_marked actor context clock) = ok d
fold_data d e (Events.return_absorbed id actor candidates effects judgment) =
    fold_return_absorbed d e candidates effects
fold_data d e (Events.effect_recorded id actor asset_ref description) =
    ok (fold_effect_recorded d e id none asset_ref description)
fold_data d e (Events.effect_intent_recorded id key actor asset_ref description) =
    ok (fold_effect_recorded d e id (some key) asset_ref description)
fold_data d e (Events.effect_closed id outcome actor reason) =
    fold_effect d id (closed_effect outcome e.at)
fold_data d e (Events.effect_cancel_recorded id actor reason) = fold_effect d id cancelled_effect
fold_data d e (Events.effect_execution_begun id actor) = fold_effect d id begun_effect
fold_data d e (Events.effect_execution_reset id actor reason attempts_next) =
    fold_effect d id (reset_effect attempts_next)
fold_data d e (Events.delivery_recorded r) = ok (fold_delivery_recorded d e r)
fold_data d e (Events.delivery_confirmed id outcome confirmed_by actor feedback) =
    fold_delivery_confirmed d e id outcome confirmed_by feedback
fold_data d e (Events.direction_proposed id title detail) =
    fold_direction_proposed d e id title detail
fold_data d e (Events.direction_resolved id resolution reason) =
    fold_direction_resolved d e id resolution reason
fold_data d e (Events.workrun_started id work_id parent attempt refs) =
    ok (fold_workrun_started d e id work_id parent attempt refs)
fold_data d e (Events.workrun_transitioned t) = fold_workrun_transitioned d e t
fold_data d e (Events.intervention_session_opened run_id id mode revision consent) =
    fold_session_opened d e run_id id mode revision consent
fold_data d e (Events.intervention_session_closed run_id id was_takeover revision consent) =
    fold_session_closed d e run_id id was_takeover revision consent
fold_data d e (Events.observation type payload) = ok d

abbrev pub stamp : StateEvent → Option Stamp
stamp e = some (record { at = e.at; actor = e.actor })

abbrev stamped_project : StateEvent → ProjectRow → ProjectRow
stamped_project e p = record p {
  current_state_version =
      if is_state_material e.body then e.state_version else p.current_state_version;
  updated = stamp e;
}

-- version and time of the project
unfoldable pub stamp_project : StateEvent → Option ProjectRow → Option ProjectRow
unfolding is_state_material
stamp_project e none = none
stamp_project e (some p) = some (stamped_project e p)

abbrev touch_work : StateEvent → String → Projection → Projection
touch_work e id d = record d {
  works = touch id (λ (r : WorkRow). record r { updated = stamp e }) d.works;
}

abbrev touch_asset : StateEvent → String → Projection → Projection
touch_asset e id d = record d {
  assets = touch id (λ (r : AssetRow). record r { updated = stamp e }) d.assets;
}

abbrev touch_hold : StateEvent → String → Projection → Projection
touch_hold e id d = record d {
  holds = touch id (λ (r : HoldRow). record r { updated = stamp e }) d.holds;
}

abbrev touch_effect : StateEvent → String → Projection → Projection
touch_effect e id d = record d {
  effects = touch id (λ (r : EffectRow). record r { updated = stamp e }) d.effects;
}

abbrev touch_delivery : StateEvent → String → Projection → Projection
touch_delivery e id d = record d {
  deliveries = touch id (λ (r : DeliveryRow). record r { updated = stamp e }) d.deliveries;
}

abbrev touch_run : StateEvent → String → Projection → Projection
touch_run e id d = record d {
  work_runs = touch id (λ (r : WorkRunRow). record r { updated = stamp e }) d.work_runs;
}

abbrev touch_direction : StateEvent → String → Projection → Projection
touch_direction e id d = record d {
  intended_directions =
      touch id (λ (r : IntendedDirectionRow). record r { updated = stamp e }) d.intended_directions;
}

unfoldable pub touch_row : StateEvent → EventData → Projection → Projection
unfolding touch
touch_row e (Events.work_created id project_id title reason direction criteria depends_on actor) d =
    touch_work e id d
touch_row e (Events.work_redirected id direction reason actor checkpoint) d = touch_work e id d
touch_row e (Events.work_status_changed id from to reason cause actor) d = touch_work e id d
touch_row e (Events.asset_created seed actor) d = touch_asset e seed.id d
touch_row e (Events.asset_lifecycle_changed id from to reason actor) d = touch_asset e id d
touch_row e (Events.asset_purged id reason actor) d = touch_asset e id d
touch_row e (Events.hold_registered h) d = touch_hold e h.hold_id d
touch_row e (Events.hold_moved to m) d = touch_hold e m.hold_id d
touch_row e (Events.effect_recorded id actor asset_ref description) d = touch_effect e id d
touch_row e (Events.effect_intent_recorded id key actor asset_ref description) d =
    touch_effect e id d
touch_row e (Events.effect_closed id outcome actor reason) d = touch_effect e id d
touch_row e (Events.effect_cancel_recorded id actor reason) d = touch_effect e id d
touch_row e (Events.effect_execution_begun id actor) d = touch_effect e id d
touch_row e (Events.effect_execution_reset id actor reason attempts_next) d = touch_effect e id d
touch_row e (Events.delivery_recorded r) d = touch_delivery e r.delivery_id d
touch_row e (Events.delivery_confirmed id outcome confirmed_by actor feedback) d =
    touch_delivery e id d
touch_row e (Events.workrun_started id work_id parent attempt refs) d = touch_run e id d
touch_row e (Events.workrun_transitioned t) d = touch_run e t.run_id d
touch_row e (Events.intervention_session_opened id sid mode revision consent) d = touch_run e id d
touch_row e (Events.intervention_session_closed id sid was_takeover revision consent) d =
    touch_run e id d
touch_row e (Events.direction_proposed id title detail) d = touch_direction e id d
touch_row e (Events.direction_resolved id resolution reason) d = touch_direction e id d
touch_row e _ d = d

-- The whole of `applyEvent`. What it throws, it throws before it writes.
unfoldable pub apply_event : Projection → StateEvent → Replay Projection
unfolding fold_data stamp_project touch_row is_kernel_event
apply_event d e =
    let folded = do
      d' ← fold_data d e e.body
      ok (touch_row e e.body (record d' { seq = e.seq; project = stamp_project e d'.project }))
    in if is_kernel_event e.body then folded else ok (record d { seq = e.seq })
