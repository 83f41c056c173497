-- ===== src/Kernel/Effect.antt =====
-- The commands of the effect ledger: `recordEffect`, `recordEffectIntent`, `beginEffectExecution`,
-- `resetEffectExecution`, `closeEffect` and `cancelEffectLate`.
pub mod Terminal
pub mod Intent
use Prim.Native.String
use navis.Base.{
  ℕ, zero, suc, ◌+◌, String, Bool, true, false, not, ◌&&◌, ◌||◌, Option, none, some, List, [], ◌∷◌,
  ◌++◌, ◌==◌, nat_eq, string_eq, is_some_eq, any, all, filter, find?, length, map, if◌then◌else◌,
  is_present, get_or_else, is_blank, trim, Dict, lookup, values, leb, ltb, ltb_ℤ, ℤ, pos,
}
use navis.Schema.Vocabulary.{
  ParticipantType, participant_type_eq, ProjectStatus, project_status_eq, project_status_text,
  CapturePrivacy, WorkStatus, work_status_eq, work_status_text, AssetKind, asset_kind_eq,
  AssetScope, asset_scope_eq, AssetLifecycle, asset_lifecycle_eq, asset_lifecycle_text,
  AcceptanceResult, acceptance_result_eq,
}
use navis.Schema.Ledgers.{
  HoldStatus, hold_status_eq, hold_status_text, EffectStatus, effect_status_eq, effect_status_text,
  EquipStatus, equip_status_eq, equip_status_text, DeliveryStatus, delivery_status_eq,
  delivery_status_text, DirectionStatus, direction_status_eq, WorkRunStatus, work_run_status_eq,
  InterventionMode, intervention_mode_eq, ConsentStatus, consent_status_eq,
}
use navis.Schema.Errors.{
  text, texts, num, days, Detail, Details, Refusal, because, Fault, forbidden, rationale_required,
  version_conflict, project_not_active, blocking_hold, illegal_transition, unaccepted_artifact,
  unknown_effect_unclosed, open_attempt_exists, equip_budget_exceeded, causal_context_invalid,
  causal_actor_unregistered, missing,
}
use navis.Schema.Platform.{Platform}
use navis.Schema.Ids.{
  optional, is_uuidv7, is_uuidv7_list, is_text, is_criteria, is_refs, max_safe_integer,
}
use navis.Schema.Asset.{
  AssetContent, PurgeGate, Target, to_state, purged, contested, other, target_text,
  assert_transition, competitive_grace_period_days, is_asset_content,
}
use navis.Schema.WorkRun.{assert_work_run_transition}
use navis.State.Clock.{ClockSnapshot, Verdict, compare_clocks}
use navis.State.Intervention.{
  check_takeover_opening, check_close_authority, initial_consent, check_terminal_consent,
  ConsentClose,
}
use navis.State.Rows.{
  Json, ParticipantRow, ProjectRow, PolicyRow, WorkRow, AssetRow, HoldRow, AcceptanceRow,
  DeliveryRow, EffectRow, EquipRow, RunSessionRow, WorkRunRow, IntendedDirectionRow, Projection,
  alive,
}
use navis.State.Events
use navis.State.Events.{
  AssetSeed, EffectSeed, HoldRegistered, HoldMoved, CausalJudgment, CheckpointPayload,
  DeliveryRecorded, RunTransitioned, EventData, StateEvent,
}
use navis.State.Payload.{
  is_candidate, is_hold_kind, is_hold_severity, is_target_type, is_clock_snapshot, is_effect_seed,
}
use navis.Kernel.Core.{
  Kernel, Outcome, ok, refused, threw, ◌>>=◌, ◌>>◌, guard, refuse_if, need, Exec, then_run, run,
  state_version, append, append_then, invalid_fields, whitespace_only, is_blank_reason, any_blank,
  guard_preconditions, require_known_actor, is_human, require_human, require_project,
  blocking_hold_ids, days_between, live_row,
}

pub record RecordEffectCommand : Type 0 where
  pub actor : String
  pub at : String
  pub asset_ref : Option String
  pub description : Option String
  pub expected_version : ℕ

pub record BeginEffectExecutionCommand : Type 0 where
  pub actor : String
  pub at : String
  pub effect_id : String
  pub expected_version : ℕ

pub record ResetEffectExecutionCommand : Type 0 where
  pub actor : String
  pub at : String
  pub effect_id : String
  pub reason : String
  pub expected_version : ℕ

pub record CloseEffectCommand : Type 0 where
  pub actor : String
  pub at : String
  pub effect_id : String
  -- whether the outcome is `confirmed`; the other value is `failed`
  pub confirmed : Bool
  pub reason : Option String
  pub expected_version : ℕ

pub record RecordEffectIntentCommand : Type 0 where
  pub actor : String
  pub at : String
  pub intent_key : String
  pub asset_ref : Option String
  pub description : Option String
  pub expected_version : ℕ

pub record CancelEffectLateCommand : Type 0 where
  pub actor : String
  pub at : String
  pub effect_id : String
  pub reason : Option String
  pub expected_version : ℕ

abbrev pub live_effect : Projection → String → Option EffectRow
live_effect d id = live_row (λ (ef : EffectRow). ef.deleted_at) (lookup id d.effects)

abbrev pub is_cancelled : EffectRow → Bool
is_cancelled ef = get_or_else ef.late_cancel_received false

abbrev pub outcome_of : Bool → EffectStatus
outcome_of confirmed = if confirmed then EffectStatus.confirmed else EffectStatus.failed

abbrev status_details : String → EffectStatus → Details
status_details reason status =
    ("reason", text reason) ∷ ("status", text (effect_status_text status)) ∷ []

-- the row that an intent key is bound to
unfoldable pub find_intent : Dict EffectRow → String → Option EffectRow
find_intent effects key =
    find? (λ (ef : EffectRow). alive ef.deleted_at && is_some_eq ef.intent_key key) (values effects)

module _ (z : Platform) where
  unfoldable pub record_effect : RecordEffectCommand → String → Exec (Option EffectRow)
  record_effect c fresh k =
      run
        (do
          guard_preconditions c.expected_version "record_effect" c.actor none false k
          invalid_fields "record_effect" (
              ("at", z.instant c.at)
              ∷ ("asset_ref", optional is_uuidv7 c.asset_ref)
              ∷ ("description", optional (is_text z) c.description)
              ∷ [])
          ok (
              append_then z (Events.effect_recorded fresh c.actor c.asset_ref c.description) c.at
                (some c.actor) (λ d. lookup fresh d.effects)))
        k

  unfoldable pub begin_effect_execution : BeginEffectExecutionCommand → Exec (Option EffectRow)
  begin_effect_execution c k =
      run
        (do
          guard_preconditions c.expected_version "begin_effect_execution" c.actor none false k
          invalid_fields "begin_effect_execution"
              (("at", z.instant c.at) ∷ ("effect_id", is_uuidv7 c.effect_id) ∷ [])
          ef ←
              need (live_effect k.draft c.effect_id)
                (forbidden "begin_effect_execution" (because "effect-not-found"))
          guard (ef.status == EffectStatus.unknown)
              (forbidden "begin_effect_execution" (status_details "effect-not-unknown" ef.status))
          ok (
              append_then z (Events.effect_execution_begun c.effect_id c.actor) c.at (some c.actor)
                (λ d. lookup c.effect_id d.effects)))
        k

  unfoldable pub reset_effect_execution : ResetEffectExecutionCommand → Exec (Option EffectRow)
  reset_effect_execution c k =
      run
        (do
          guard_preconditions c.expected_version "reset_effect_execution" c.actor none false k
          invalid_fields "reset_effect_execution" (
              ("at", z.instant c.at)
              ∷ ("effect_id", is_uuidv7 c.effect_id)
              ∷ ("reason", is_text z c.reason)
              ∷ [])
          ef ←
              need (live_effect k.draft c.effect_id)
                (forbidden "reset_effect_execution" (because "effect-not-found"))
          guard (ef.status == EffectStatus.executing)
              (forbidden "reset_effect_execution" (status_details "effect-not-executing" ef.status))
          ok (
              append_then z
                (Events.effect_execution_reset c.effect_id c.actor c.reason
                  (get_or_else ef.execution_attempts 0 + 1))
                c.at (some c.actor) (λ d. lookup c.effect_id d.effects)))
        k

  unfoldable pub close_effect : CloseEffectCommand → Exec (Option EffectRow)
  close_effect c k =
      run
        (do
          guard_preconditions c.expected_version "close_effect" c.actor none false k
          invalid_fields "close_effect" (
              ("at", z.instant c.at)
              ∷ ("effect_id", is_uuidv7 c.effect_id)
              ∷ ("reason", optional (is_text z) c.reason)
              ∷ [])
          ef ←
              need (live_effect k.draft c.effect_id)
                (forbidden "close_effect" (because "effect-not-found"))
          refuse_if (ef.status == EffectStatus.unknown)
              (forbidden "close_effect" (because "effect-not-executing"))
          refuse_if (ef.status == EffectStatus.confirmed || ef.status == EffectStatus.failed)
              (forbidden "close_effect" (status_details "effect-already-closed" ef.status))
          refuse_if (is_cancelled ef && c.confirmed)
              (forbidden "close_effect" (because "effect-cancelled"))
          ok (
              append_then z
                (Events.effect_closed c.effect_id (outcome_of c.confirmed) c.actor c.reason) c.at
                (some c.actor) (λ d. lookup c.effect_id d.effects)))
        k

  abbrev pub intent_act :
      RecordEffectIntentCommand → String → Option EffectRow → Outcome (Exec (Option EffectRow))
  intent_act c fresh none = ok (
      append_then z
        (Events.effect_intent_recorded fresh c.intent_key c.actor c.asset_ref c.description) c.at
        (some c.actor) (λ d. lookup fresh d.effects))
  intent_act c fresh (some existing) =
      if existing.status == EffectStatus.unknown
      then ok (λ k. (ok (some existing), k))
      else refused (
          forbidden "record_effect_intent" (
            ("reason", text "intent-key-already-closed")
            ∷ ("effect_id", text existing.id)
            ∷ ("status", text (effect_status_text existing.status))
            ∷ []))

  unfoldable pub record_effect_intent : RecordEffectIntentCommand → String → Exec (Option EffectRow)
  record_effect_intent c fresh k =
      run
        (do
          guard_preconditions c.expected_version "record_effect_intent" c.actor none false k
          invalid_fields "record_effect_intent" (
              ("at", z.instant c.at)
              ∷ ("intent_key", z.text_between 1 512 c.intent_key)
              ∷ ("asset_ref", optional is_uuidv7 c.asset_ref)
              ∷ ("description", optional (is_text z) c.description)
              ∷ [])
          intent_act c fresh (find_intent k.draft.effects c.intent_key))
        k

  unfoldable pub cancel_effect_late : CancelEffectLateCommand → Exec (Option EffectRow)
  cancel_effect_late c k =
      run
        (do
          guard_preconditions c.expected_version "cancel_effect_late" c.actor c.reason false k
          invalid_fields "cancel_effect_late" (
              ("at", z.instant c.at)
              ∷ ("effect_id", is_uuidv7 c.effect_id)
              ∷ ("reason", optional (is_text z) c.reason)
              ∷ [])
          ef ←
              need (live_effect k.draft c.effect_id)
                (forbidden "cancel_effect_late" (because "effect-not-found"))
          refuse_if (ef.status == EffectStatus.confirmed || ef.status == EffectStatus.failed)
              (forbidden "cancel_effect_late" (status_details "effect-already-closed" ef.status))
          refuse_if (is_cancelled ef)
              (forbidden "cancel_effect_late" (because "late-cancel-already-recorded"))
          ok (
              append_then z (Events.effect_cancel_recorded c.effect_id c.actor c.reason) c.at
                (some c.actor) (λ d. lookup c.effect_id d.effects)))
        k
