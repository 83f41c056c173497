-- ===== src/Kernel/Delivery.antt =====
-- The commands `deliver` and `confirmDelivery`.
pub mod Gates
use Prim.Native.String
use navis.Base.{
  ℕ, zero, suc, ◌+◌, String, Bool, true, false, not, ◌&&◌, ◌||◌, Option, none, some, List, [], ◌∷◌,
  ◌++◌, ◌==◌, nat_eq, string_eq, is_some_eq, any, all, filter, find?, length, map, if◌then◌else◌,
  is_present, get_or_else, is_blank, trim, Dict, lookup, values, leb, ltb, ltb_ℤ, ℤ, pos,
}
use navis.Schema.Vocabulary.{
  ParticipantType, participant_type_eq, ProjectStatus, project_status_eq, project_status_text,
  CapturePrivacy, WorkStatus, work_status_eq, work_status_text, AssetKind, asset_kind_eq,
  AssetScope, asset_scope_eq, AssetLifecycle, asset_lifecycle_eq, asset_lifecycle_text,
  AcceptanceResult, acceptance_result_eq,
}
use navis.Schema.Ledgers.{
  HoldStatus, hold_status_eq, hold_status_text, EffectStatus, effect_status_eq, effect_status_text,
  EquipStatus, equip_status_eq, equip_status_text, DeliveryStatus, delivery_status_eq,
  delivery_status_text, DirectionStatus, direction_status_eq, WorkRunStatus, work_run_status_eq,
  InterventionMode, intervention_mode_eq, ConsentStatus, consent_status_eq,
}
use navis.Schema.Errors.{
  text, texts, num, days, Detail, Details, Refusal, because, Fault, forbidden, rationale_required,
  version_conflict, project_not_active, blocking_hold, illegal_transition, unaccepted_artifact,
  unknown_effect_unclosed, open_attempt_exists, equip_budget_exceeded, causal_context_invalid,
  causal_actor_unregistered, missing,
}
use navis.Schema.Platform.{Platform}
use navis.Schema.Ids.{
  optional, is_uuidv7, is_uuidv7_list, is_text, is_criteria, is_refs, max_safe_integer,
}
use navis.Schema.Asset.{
  AssetContent, PurgeGate, Target, to_state, purged, contested, other, target_text,
  assert_transition, competitive_grace_period_days, is_asset_content,
}
use navis.Schema.WorkRun.{assert_work_run_transition}
use navis.State.Clock.{ClockSnapshot, Verdict, compare_clocks}
use navis.State.Intervention.{
  check_takeover_opening, check_close_authority, initial_consent, check_terminal_consent,
  ConsentClose,
}
use navis.State.Rows.{
  Json, ParticipantRow, ProjectRow, PolicyRow, WorkRow, AssetRow, HoldRow, AcceptanceRow,
  DeliveryRow, EffectRow, EquipRow, RunSessionRow, WorkRunRow, IntendedDirectionRow, Projection,
  alive,
}
use navis.State.Events
use navis.State.Events.{
  AssetSeed, EffectSeed, HoldRegistered, HoldMoved, CausalJudgment, CheckpointPayload,
  DeliveryRecorded, RunTransitioned, EventData, StateEvent,
}
use navis.State.Payload.{
  is_candidate, is_hold_kind, is_hold_severity, is_target_type, is_clock_snapshot, is_effect_seed,
}
use navis.Kernel.Core.{
  Kernel, Outcome, ok, refused, threw, ◌>>=◌, ◌>>◌, guard, refuse_if, need, Exec, then_run, run,
  state_version, append, append_then, invalid_fields, whitespace_only, is_blank_reason, any_blank,
  guard_preconditions, require_known_actor, is_human, require_human, require_project,
  blocking_hold_ids, days_between, live_row,
}

pub record DeliverCommand : Type 0 where
  pub actor : String
  pub at : String
  pub asset_id : String
  pub target_ref : String
  pub target_type : String
  pub expected_version : ℕ

pub record ConfirmDeliveryCommand : Type 0 where
  pub actor : String
  pub at : String
  pub delivery_id : String
  -- whether the outcome is `confirmed`; the other value is `rejected`
  pub confirmed : Bool
  pub feedback : Option String
  pub expected_version : ℕ

-- some live acceptance of the asset accepts it
unfoldable pub is_accepted : Dict AcceptanceRow → String → Bool
is_accepted acceptances id =
    any
      (λ (r : AcceptanceRow).
        alive r.deleted_at && r.asset_id == id && r.result == AcceptanceResult.accepted)
      (values acceptances)

abbrev pub is_deliverable : Projection → String → Option AssetRow → Bool
is_deliverable d id none = false
is_deliverable d id (some a) =
    alive a.deleted_at && a.lifecycle == AssetLifecycle.active && is_accepted d.acceptances id

abbrev lifecycle_of : Option AssetRow → String
lifecycle_of none = "unknown"
lifecycle_of (some a) = asset_lifecycle_text a.lifecycle

abbrev sha256_of : Option AssetContent → Option String
sha256_of none = none
sha256_of (some content) = content.sha256

abbrev pub asset_sha256 : Option AssetRow → Option String
asset_sha256 none = none
asset_sha256 (some a) = sha256_of a.content

abbrev pub blocks : String → HoldRow → Bool
blocks id h =
    alive h.deleted_at
    && h.status == HoldStatus.active
    && h.blocks_delivery
    && any (λ r. r == id) (get_or_else h.asset_refs [])

abbrev pub is_unclosed : String → EffectRow → Bool
is_unclosed id ef =
    alive ef.deleted_at
    && (ef.status == EffectStatus.unknown || ef.status == EffectStatus.executing)
    && is_some_eq ef.asset_ref id

abbrev pub is_attempt : String → String → DeliveryRow → Bool
is_attempt id target d = alive d.deleted_at && d.asset_id == id && d.target_ref == target

abbrev pub is_open_status : DeliveryStatus → Bool
is_open_status s = s == DeliveryStatus.delivered || s == DeliveryStatus.pending

-- `prior`
unfoldable pub attempts : Dict DeliveryRow → String → String → List DeliveryRow
attempts deliveries id target = filter (is_attempt id target) (values deliveries)

abbrev refuse_open : DeliverCommand → Option DeliveryRow → Outcome (Unit {0})
refuse_open c none = ok tt
refuse_open c (some open') = refused (open_attempt_exists c.asset_id c.target_ref open'.attempt_no)

module _ (z : Platform) where
  abbrev delivery_event : DeliverCommand → String → String → ℕ → EventData
  delivery_event c fresh sha256 attempt_no = Events.delivery_recorded (record {
    delivery_id = fresh;
    asset_id = c.asset_id;
    target_ref = c.target_ref;
    target_type = c.target_type;
    version = sha256;
    attempt_no = attempt_no;
    delivered_by = c.actor;
    actor = c.actor;
  })

  unfoldable pub deliver : DeliverCommand → String → Exec (Option DeliveryRow)
  deliver c fresh k =
      run
        (do
          guard_preconditions c.expected_version "deliver" c.actor none false k
          invalid_fields "deliver" (
              ("at", z.instant c.at)
              ∷ ("asset_id", is_uuidv7 c.asset_id)
              ∷ ("target_ref", z.text_between 1 512 c.target_ref)
              ∷ ("target_type", is_target_type c.target_type)
              ∷ [])
          whitespace_only "deliver" (("target_ref", is_blank c.target_ref) ∷ [])
          let a = lookup c.asset_id k.draft.assets
          guard (is_deliverable k.draft c.asset_id a)
              (unaccepted_artifact c.asset_id (lifecycle_of a))
          sha256 ← need (asset_sha256 a) (
              forbidden "deliver"
                (("reason", text "missing-content-sha256") ∷ ("asset_id", text c.asset_id) ∷ []))
          let blocking = filter (blocks c.asset_id) (values k.draft.holds)
          guard (length blocking == 0) (blocking_hold (map (λ (h : HoldRow). h.id) blocking))
          let unclosed = filter (is_unclosed c.asset_id) (values k.draft.effects)
          guard (length unclosed == 0)
              (unknown_effect_unclosed (map (λ (ef : EffectRow). ef.id) unclosed))
          let prior = attempts k.draft.deliveries c.asset_id c.target_ref
          refuse_open c (find? (λ (d : DeliveryRow). is_open_status d.confirmation_status) prior)
          ok (
              append_then z (delivery_event c fresh sha256 (length prior + 1)) c.at (some c.actor)
                (λ d. lookup fresh d.deliveries)))
        k

  abbrev pub answer : Bool → DeliveryStatus
  answer confirmed = if confirmed then DeliveryStatus.confirmed else DeliveryStatus.rejected

  unfoldable pub confirm_delivery : ConfirmDeliveryCommand → Exec (Option DeliveryRow)
  confirm_delivery c k =
      run
        (do
          guard_preconditions c.expected_version "confirm_delivery" c.actor none false k
          invalid_fields "confirm_delivery" (
              ("at", z.instant c.at)
              ∷ ("delivery_id", is_uuidv7 c.delivery_id)
              ∷ ("feedback", optional (is_text z) c.feedback)
              ∷ [])
          dl ←
              need
                (live_row (λ (d : DeliveryRow). d.deleted_at)
                  (lookup c.delivery_id k.draft.deliveries))
                (forbidden "confirm_delivery" (because "delivery-not-found"))
          guard (is_open_status dl.confirmation_status) (
              forbidden "confirm_delivery" (
                ("reason", text "delivery-already-terminal")
                ∷ ("status", text (delivery_status_text dl.confirmation_status))
                ∷ []))
          ok (
              append_then z
                (Events.delivery_confirmed c.delivery_id (answer c.confirmed) c.actor c.actor
                  c.feedback)
                c.at (some c.actor) (λ d. lookup c.delivery_id d.deliveries)))
        k
