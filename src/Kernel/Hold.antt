-- ===== src/Kernel/Hold.antt =====
-- The commands `registerHold` and `transitionHold`, and the table of hold transitions.
pub mod Authority
use Prim.Native.String
use navis.Base.{
  ℕ, zero, suc, ◌+◌, String, Bool, true, false, not, ◌&&◌, ◌||◌, Option, none, some, List, [], ◌∷◌,
  ◌++◌, ◌==◌, nat_eq, string_eq, is_some_eq, any, all, filter, find?, length, map, if◌then◌else◌,
  is_present, get_or_else, is_blank, trim, Dict, lookup, values, leb, ltb, ltb_ℤ, ℤ, pos,
}
use navis.Schema.Vocabulary.{
  ParticipantType, participant_type_eq, ProjectStatus, project_status_eq, project_status_text,
  CapturePrivacy, WorkStatus, work_status_eq, work_status_text, AssetKind, asset_kind_eq,
  AssetScope, asset_scope_eq, AssetLifecycle, asset_lifecycle_eq, asset_lifecycle_text,
  AcceptanceResult, acceptance_result_eq,
}
use navis.Schema.Ledgers.{
  HoldStatus, hold_status_eq, hold_status_text, EffectStatus, effect_status_eq, effect_status_text,
  EquipStatus, equip_status_eq, equip_status_text, DeliveryStatus, delivery_status_eq,
  delivery_status_text, DirectionStatus, direction_status_eq, WorkRunStatus, work_run_status_eq,
  InterventionMode, intervention_mode_eq, ConsentStatus, consent_status_eq,
}
use navis.Schema.Errors.{
  text, texts, num, days, Detail, Details, Refusal, because, Fault, forbidden, rationale_required,
  version_conflict, project_not_active, blocking_hold, illegal_transition, unaccepted_artifact,
  unknown_effect_unclosed, open_attempt_exists, equip_budget_exceeded, causal_context_invalid,
  causal_actor_unregistered, missing,
}
use navis.Schema.Platform.{Platform}
use navis.Schema.Ids.{
  optional, is_uuidv7, is_uuidv7_list, is_text, is_criteria, is_refs, max_safe_integer,
}
use navis.Schema.Asset.{
  AssetContent, PurgeGate, Target, to_state, purged, contested, other, target_text,
  assert_transition, competitive_grace_period_days, is_asset_content,
}
use navis.Schema.WorkRun.{assert_work_run_transition}
use navis.State.Clock.{ClockSnapshot, Verdict, compare_clocks}
use navis.State.Intervention.{
  check_takeover_opening, check_close_authority, initial_consent, check_terminal_consent,
  ConsentClose,
}
use navis.State.Rows.{
  Json, ParticipantRow, ProjectRow, PolicyRow, WorkRow, AssetRow, HoldRow, AcceptanceRow,
  DeliveryRow, EffectRow, EquipRow, RunSessionRow, WorkRunRow, IntendedDirectionRow, Projection,
  alive,
}
use navis.State.Events
use navis.State.Events.{
  AssetSeed, EffectSeed, HoldRegistered, HoldMoved, CausalJudgment, CheckpointPayload,
  DeliveryRecorded, RunTransitioned, EventData, StateEvent,
}
use navis.State.Payload.{
  is_candidate, is_hold_kind, is_hold_severity, is_target_type, is_clock_snapshot, is_effect_seed,
}
use navis.Kernel.Core.{
  Kernel, Outcome, ok, refused, threw, ◌>>=◌, ◌>>◌, guard, refuse_if, need, Exec, then_run, run,
  state_version, append, append_then, invalid_fields, whitespace_only, is_blank_reason, any_blank,
  guard_preconditions, require_known_actor, is_human, require_human, require_project,
  blocking_hold_ids, days_between, live_row,
}

pub record RegisterHoldCommand : Type 0 where
  pub actor : String
  pub at : String
  pub kind : String
  pub severity : String
  pub statement : String
  pub blocks_delivery : Option Bool
  pub asset_refs : Option (List String)
  pub registered_during_work : Option String
  pub expected_version : ℕ

pub record TransitionHoldCommand : Type 0 where
  pub actor : String
  pub at : String
  pub hold_id : String
  pub to : HoldStatus
  pub reason : Option String
  pub expected_version : ℕ

pub record HoldRule : Type 0 where
  pub to : HoldStatus
  pub human_only : Bool
  pub reason_required : Bool

abbrev rule : HoldStatus → Bool → Bool → HoldRule
rule to human_only reason_required = record {
  to = to;
  human_only = human_only;
  reason_required = reason_required;
}

-- `HOLD_TRANSITIONS`
unfoldable pub hold_transitions : HoldStatus → List HoldRule
hold_transitions HoldStatus.registered = rule HoldStatus.active true false ∷ []
hold_transitions HoldStatus.active =
    rule HoldStatus.resolved false false
    ∷ rule HoldStatus.accepted false false
    ∷ rule HoldStatus.dormant false false
    ∷ rule HoldStatus.invalidated false false
    ∷ []
hold_transitions HoldStatus.dormant =
    rule HoldStatus.active true true ∷ rule HoldStatus.invalidated false false ∷ []
hold_transitions HoldStatus.invalidated = rule HoldStatus.active true true ∷ []
hold_transitions HoldStatus.accepted = rule HoldStatus.active true true ∷ []
hold_transitions HoldStatus.resolved = rule HoldStatus.active true true ∷ []

unfoldable pub find_rule : HoldStatus → HoldStatus → Option HoldRule
unfolding hold_transitions find?
find_rule from to = find? (λ (t : HoldRule). t.to == to) (hold_transitions from)

abbrev pub live_hold : Projection → String → Option HoldRow
live_hold d id = live_row (λ (h : HoldRow). h.deleted_at) (lookup id d.holds)

abbrev pub is_live_asset : Option AssetRow → Bool
is_live_asset none = false
is_live_asset (some a) = alive a.deleted_at

-- the loop over the assets that the hold names
unfoldable pub check_assets : Projection → List String → Outcome (Unit {0})
check_assets d [] = ok tt
check_assets d (id ∷ ids) =
    let rest = check_assets d ids in
    if is_live_asset (lookup id d.assets)
    then rest
    else refused (
        forbidden "register_hold" (("reason", text "asset-not-found") ∷ ("asset_id", text id) ∷ []))

-- A hold that an agent raises is only proposed.
abbrev pub initial_status : Option ParticipantRow → HoldStatus
initial_status actor = if is_human actor then HoldStatus.active else HoldStatus.registered

abbrev pub lacks_text : Option String → Bool
lacks_text none = true
lacks_text (some r) = is_blank r

module _ (z : Platform) where
  abbrev registration : RegisterHoldCommand → String → String → HoldStatus → EventData
  registration c fresh project_id status = Events.hold_registered (record {
    hold_id = fresh;
    project_id = project_id;
    kind = c.kind;
    severity = c.severity;
    initial_status = status;
    blocks_delivery = get_or_else c.blocks_delivery false;
    statement = c.statement;
    asset_refs = c.asset_refs;
    source_event_ids = none;
    registered_during_work = c.registered_during_work;
    applicability = none;
    actor = c.actor;
    registered_by = c.actor;
  })

  unfoldable pub register_hold : RegisterHoldCommand → String → Exec (Option HoldRow)
  register_hold c fresh k =
      run
        (do
          guard_preconditions c.expected_version "register_hold" c.actor none false k
          refuse_if (is_blank c.statement) (rationale_required "register_hold")
          invalid_fields "register_hold" (
              ("at", z.instant c.at)
              ∷ ("kind", is_hold_kind c.kind)
              ∷ ("severity", is_hold_severity c.severity)
              ∷ ("statement", is_text z c.statement)
              ∷ ("asset_refs", optional is_uuidv7_list c.asset_refs)
              ∷ ("registered_during_work", optional is_uuidv7 c.registered_during_work)
              ∷ [])
          p ← require_project k
          check_assets k.draft (get_or_else c.asset_refs [])
          ok (
              append_then z
                (registration c fresh p.id (initial_status (lookup c.actor k.draft.participants)))
                c.at (some c.actor) (λ d. lookup fresh d.holds)))
        k

  abbrev hold_move : TransitionHoldCommand → HoldStatus → HoldMoved
  hold_move c from = record {
    hold_id = c.hold_id;
    from = from;
    actor = c.actor;
    reason = c.reason;
    cause = none;
  }

  unfoldable pub transition_hold : TransitionHoldCommand → Exec (Option HoldRow)
  transition_hold c k =
      run
        (do
          guard_preconditions c.expected_version "transition_hold" c.actor none false k
          invalid_fields "transition_hold" (
              ("at", z.instant c.at)
              ∷ ("hold_id", is_uuidv7 c.hold_id)
              ∷ ("reason", optional (is_text z) c.reason)
              ∷ [])
          h ←
              need (live_hold k.draft c.hold_id)
                (forbidden "transition_hold" (because "hold-not-found"))
          r ← need (find_rule h.status c.to) (
              forbidden "transition_hold" (
                ("from", text (hold_status_text h.status))
                ∷ ("to", text (hold_status_text c.to))
                ∷ ("reason", text "illegal-hold-transition")
                ∷ []))
          (if r.human_only then require_human "transition_hold" c.actor k else ok tt)
          refuse_if (r.reason_required && lacks_text c.reason)
              (rationale_required "transition_hold")
          ok (
              append_then z (Events.hold_moved c.to (hold_move c h.status)) c.at (some c.actor)
                (λ d. lookup c.hold_id d.holds)))
        k
