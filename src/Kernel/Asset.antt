-- ===== src/Kernel/Asset.antt =====
-- The commands `createAsset`, `transitionAsset` and `acceptAsset`.
pub mod Authority
use Prim.Native.String
use navis.Base.{
  ℕ, zero, suc, ◌+◌, String, Bool, true, false, not, ◌&&◌, ◌||◌, Option, none, some, List, [], ◌∷◌,
  ◌++◌, ◌==◌, nat_eq, string_eq, is_some_eq, any, all, filter, find?, length, map, if◌then◌else◌,
  is_present, get_or_else, is_blank, trim, Dict, lookup, values, leb, ltb, ltb_ℤ, ℤ, pos,
}
use navis.Schema.Vocabulary.{
  ParticipantType, participant_type_eq, ProjectStatus, project_status_eq, project_status_text,
  CapturePrivacy, WorkStatus, work_status_eq, work_status_text, AssetKind, asset_kind_eq,
  AssetScope, asset_scope_eq, AssetLifecycle, asset_lifecycle_eq, asset_lifecycle_text,
  AcceptanceResult, acceptance_result_eq,
}
use navis.Schema.Ledgers.{
  HoldStatus, hold_status_eq, hold_status_text, EffectStatus, effect_status_eq, effect_status_text,
  EquipStatus, equip_status_eq, equip_status_text, DeliveryStatus, delivery_status_eq,
  delivery_status_text, DirectionStatus, direction_status_eq, WorkRunStatus, work_run_status_eq,
  InterventionMode, intervention_mode_eq, ConsentStatus, consent_status_eq,
}
use navis.Schema.Errors.{
  text, texts, num, days, Detail, Details, Refusal, because, Fault, forbidden, rationale_required,
  version_conflict, project_not_active, blocking_hold, illegal_transition, unaccepted_artifact,
  unknown_effect_unclosed, open_attempt_exists, equip_budget_exceeded, causal_context_invalid,
  causal_actor_unregistered, missing,
}
use navis.Schema.Platform.{Platform}
use navis.Schema.Ids.{
  optional, is_uuidv7, is_uuidv7_list, is_text, is_criteria, is_refs, max_safe_integer,
}
use navis.Schema.Asset.{
  AssetContent, PurgeGate, Target, to_state, purged, contested, other, target_text,
  assert_transition, competitive_grace_period_days, is_asset_content,
}
use navis.Schema.WorkRun.{assert_work_run_transition}
use navis.State.Clock.{ClockSnapshot, Verdict, compare_clocks}
use navis.State.Intervention.{
  check_takeover_opening, check_close_authority, initial_consent, check_terminal_consent,
  ConsentClose,
}
use navis.State.Rows.{
  Json, ParticipantRow, ProjectRow, PolicyRow, WorkRow, AssetRow, HoldRow, AcceptanceRow,
  DeliveryRow, EffectRow, EquipRow, RunSessionRow, WorkRunRow, IntendedDirectionRow, Projection,
  alive,
}
use navis.State.Events
use navis.State.Events.{
  AssetSeed, EffectSeed, HoldRegistered, HoldMoved, CausalJudgment, CheckpointPayload,
  DeliveryRecorded, RunTransitioned, EventData, StateEvent,
}
use navis.State.Payload.{
  is_candidate, is_hold_kind, is_hold_severity, is_target_type, is_clock_snapshot, is_effect_seed,
}
use navis.Kernel.Core.{
  Kernel, Outcome, ok, refused, threw, ◌>>=◌, ◌>>◌, guard, refuse_if, need, Exec, then_run, run,
  state_version, append, append_then, invalid_fields, whitespace_only, is_blank_reason, any_blank,
  guard_preconditions, require_known_actor, is_human, require_human, require_project,
  blocking_hold_ids, days_between, live_row,
}

pub record CreateAssetCommand : Type 0 where
  pub actor : String
  pub at : String
  pub kind : AssetKind
  pub scope : AssetScope
  pub project_id : Option String
  pub provenance : Option String
  pub content : Option AssetContent
  pub expected_version : ℕ

pub record TransitionAssetCommand : Type 0 where
  pub actor : String
  pub at : String
  pub asset_id : String
  pub to : Target
  pub reason : String
  pub double_confirmation : Option Bool
  pub expected_version : ℕ

-- `rationale` may be null, which is not the same as absent
pub data Rationale : Type 0 where
  absent null : Rationale
  written : String → Rationale

pub record AcceptAssetCommand : Type 0 where
  pub actor : String
  pub at : String
  pub asset_id : String
  pub result : AcceptanceResult
  pub rationale : Rationale
  pub criteria_snapshot : Json
  pub evidence_refs : Option (List String)
  pub expected_version : ℕ

abbrev pub live_asset : Projection → String → Option AssetRow
live_asset d id = live_row (λ (a : AssetRow). a.deleted_at) (lookup id d.assets)

-- `z.union([assetLifecycle, z.literal('purged')])`
abbrev pub is_target : Target → Bool
is_target (to_state l) = true
is_target purged = true
is_target _ = false

abbrev pub is_state : Target → AssetLifecycle → Bool
is_state (to_state l) m = l == m
is_state _ m = false

abbrev pub is_purged : Target → Bool
is_purged purged = true
is_purged _ = false

-- `days > COMPETITIVE_GRACE_PERIOD_DAYS`, which NaN fails
abbrev pub exceeds_grace : Option ℤ → Bool
exceeds_grace none = false
exceeds_grace (some d) = ltb_ℤ (pos competitive_grace_period_days) d

abbrev pub no_error : Option Refusal → Outcome (Unit {0})
no_error none = ok tt
no_error (some r) = refused r

abbrev grace_details : Option ℤ → Details
grace_details d = ("grace_days", num competitive_grace_period_days) ∷ ("days_elapsed", days d) ∷ []

abbrev is_rationale : Platform → Rationale → Bool
is_rationale z (written r) = is_text z r
is_rationale z _ = true

-- no text that is not blank
abbrev pub lacks_reason : Rationale → Bool
lacks_reason (written r) = is_blank r
lacks_reason _ = true

abbrev pub needs_reason : AcceptanceResult → Bool
needs_reason r = r == AcceptanceResult.rejected || r == AcceptanceResult.conditional

abbrev pub text_of : Rationale → Option String
text_of (written r) = some r
text_of _ = none

abbrev pub is_evidence : Option AssetRow → Bool
is_evidence none = false
is_evidence (some a) = alive a.deleted_at && a.kind == AssetKind.evidence

-- the loop over the evidence
unfoldable pub check_evidence : Projection → List String → Outcome (Unit {0})
check_evidence d [] = ok tt
check_evidence d (id ∷ ids) =
    let rest = check_evidence d ids in
    if is_evidence (lookup id d.assets)
    then rest
    else refused (
        forbidden "accept_asset"
          (("reason", text "evidence-not-found") ∷ ("evidence_id", text id) ∷ []))

abbrev seed_of : CreateAssetCommand → String → String → AssetSeed
seed_of c fresh project_id = record {
  id = fresh;
  kind = c.kind;
  scope = c.scope;
  project_id = if c.scope == AssetScope.organization then none else some project_id;
  provenance = c.provenance;
  content = c.content;
  valid_from = none;
  valid_to = none;
  created_at = c.at;
}

module _ (z : Platform) where
  -- the paths of the issues are zod's, and left out of the details
  unfoldable pub create_asset : CreateAssetCommand → String → Exec (Option AssetRow)
  create_asset c fresh k =
      run
        (do
          guard_preconditions c.expected_version "create_asset" c.actor none false k
          invalid_fields "create_asset"
              (("at", z.instant c.at) ∷ ("project_id", optional is_uuidv7 c.project_id) ∷ [])
          p ← require_project k
          guard (optional (λ id. id == p.id) c.project_id)
              (forbidden "create_asset" (because "project-mismatch"))
          guard (is_candidate z (seed_of c fresh p.id))
              (forbidden "create_asset" (because "invalid-asset"))
          ok (
              append_then z (Events.asset_created (seed_of c fresh p.id) c.actor) c.at
                (some c.actor) (λ d. lookup fresh d.assets)))
        k

  -- the window in which a superseded competitor may be reactivated
  unfoldable pub check_grace : TransitionAssetCommand → AssetRow → Outcome (Unit {0})
  check_grace c a =
      if is_state c.to AssetLifecycle.active && a.lifecycle == AssetLifecycle.competitive_superseded
      then (elim a.competitive_superseded_at [
        | none ↦ threw (missing "superseded-at")
        | some since ↦ refuse_if (exceeds_grace (days_between z since c.at)) (
            illegal_transition (asset_lifecycle_text a.lifecycle) (target_text c.to)
              (grace_details (days_between z since c.at)))
      ])
      else ok tt

  abbrev days_archived : TransitionAssetCommand → Option String → Option ℤ
  days_archived c none = some (pos 0)
  days_archived c (some since) = days_between z since c.at

  abbrev pub purge_gate : TransitionAssetCommand → AssetRow → Option PurgeGate
  purge_gate c a =
      if is_purged c.to
      then some (record {
        days_archived = days_archived c a.archived_at;
        double_confirmation = get_or_else c.double_confirmation false;
      })
      else none

  -- `asset.purged`, or `asset.lifecycle_changed`; the guards leave no other target
  abbrev pub event_to : TransitionAssetCommand → AssetRow → Target → Outcome EventData
  event_to c a purged = ok (Events.asset_purged c.asset_id c.reason c.actor)
  event_to c a (to_state l) =
      ok (Events.asset_lifecycle_changed c.asset_id a.lifecycle l (some c.reason) (some c.actor))
  event_to c a _ = threw Fault.invalid_payload

  unfoldable pub transition_asset : TransitionAssetCommand → Exec (Option AssetRow)
  transition_asset c k =
      run
        (do
          guard_preconditions c.expected_version "transition_asset" c.actor (some c.reason) true k
          invalid_fields "transition_asset" (
              ("at", z.instant c.at)
              ∷ ("asset_id", is_uuidv7 c.asset_id)
              ∷ ("to", is_target c.to)
              ∷ [])
          a ←
              need (live_asset k.draft c.asset_id)
                (forbidden "transition_asset" (because "asset-not-found"))
          refuse_if
              (a.lifecycle == AssetLifecycle.candidate
                && (is_state c.to AssetLifecycle.active || is_state c.to AssetLifecycle.rejected))
              (forbidden "transition_asset" (because "acceptance-required"))
          check_grace c a
          no_error (assert_transition a.lifecycle c.to (purge_gate c a))
          event ← event_to c a c.to
          ok (append_then z event c.at (some c.actor) (λ d. lookup c.asset_id d.assets)))
        k

  abbrev pub decide : AcceptAssetCommand → AssetLifecycle → String → Exec (Unit {0})
  decide c to reason =
      append z
        (Events.asset_lifecycle_changed c.asset_id AssetLifecycle.candidate to (some reason)
          (some c.actor))
        c.at (some c.actor)

  -- the lifecycle change that the verdict implies
  unfoldable pub apply_verdict : AcceptAssetCommand → AcceptanceResult → Exec (Unit {0})
  apply_verdict c AcceptanceResult.accepted k = decide c AssetLifecycle.active "accepted" k
  apply_verdict c AcceptanceResult.rejected k =
      decide c AssetLifecycle.rejected (get_or_else (text_of c.rationale) "") k
  apply_verdict c AcceptanceResult.conditional k = (ok tt, k)

  abbrev acceptance_event : AcceptAssetCommand → String → EventData
  acceptance_event c fresh =
      Events.acceptance_recorded fresh c.asset_id c.result (text_of c.rationale) c.criteria_snapshot
        c.evidence_refs c.actor

  -- A null rationale is sent on in the payload, whose schema refuses it: the append throws.
  unfoldable pub record_acceptance : AcceptAssetCommand → String → Rationale → Exec (Unit {0})
  record_acceptance c fresh null k = (threw Fault.invalid_payload, k)
  record_acceptance c fresh _ k = append z (acceptance_event c fresh) c.at (some c.actor) k

  abbrev pub accept_act : AcceptAssetCommand → String → Exec (Option AssetRow × String)
  accept_act c fresh k = then_run (record_acceptance c fresh c.rationale k) (λ k'.
      then_run (apply_verdict c c.result k')
        (λ l. (ok (lookup c.asset_id l.draft.assets, fresh), l)))

  unfoldable pub accept_asset : AcceptAssetCommand → String → Exec (Option AssetRow × String)
  accept_asset c fresh k =
      run
        (do
          guard_preconditions c.expected_version "accept_asset" c.actor none true k
          invalid_fields "accept_asset" (
              ("at", z.instant c.at)
              ∷ ("asset_id", is_uuidv7 c.asset_id)
              ∷ ("rationale", is_rationale z c.rationale)
              ∷ ("evidence_refs", optional is_uuidv7_list c.evidence_refs)
              ∷ [])
          a ←
              need (live_asset k.draft c.asset_id)
                (forbidden "accept_asset" (because "asset-not-found"))
          refuse_if (needs_reason c.result && lacks_reason c.rationale)
              (rationale_required "accept_asset")
          guard (a.lifecycle == AssetLifecycle.candidate) (
              forbidden "accept_asset" (
                ("reason", text "asset-not-candidate")
                ∷ ("lifecycle", text (asset_lifecycle_text a.lifecycle))
                ∷ []))
          check_evidence k.draft (get_or_else c.evidence_refs [])
          ok (accept_act c fresh))
        k
