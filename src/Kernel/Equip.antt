-- ===== src/Kernel/Equip.antt =====
-- The command `issueEquip`, what it derives from the projection, and the read surface of the kernel.
use navis.Base.{
  ℕ, String, Bool, true, false, not, ◌&&◌, ◌||◌, Option, none, some, List, [], ◌∷◌, ◌==◌, nat_eq,
  string_eq, is_some_eq, all, filter, length, map, if◌then◌else◌, get_or_else, Dict, lookup, values,
  leb, ltb,
}
use navis.Schema.Vocabulary.{
  participant_type_eq, project_status_eq, WorkStatus, work_status_eq, asset_kind_eq, AssetScope,
  asset_scope_eq, AssetLifecycle, asset_lifecycle_eq, acceptance_result_eq,
}
use navis.Schema.Ledgers.{
  HoldStatus, hold_status_eq, EffectStatus, effect_status_eq, equip_status_eq, delivery_status_eq,
  direction_status_eq, work_run_status_eq, intervention_mode_eq, consent_status_eq,
}
use navis.Schema.Errors.{text, forbidden, equip_budget_exceeded}
use navis.Schema.Platform.{Platform}
use navis.Schema.Ids.{optional, is_uuidv7}
use navis.State.Clock.{ClockSnapshot}
use navis.State.Rows.{ProjectRow, WorkRow, AssetRow, HoldRow, EffectRow, Projection, alive}
use navis.State.Events
use navis.State.Events.{
  AssetSeed, EffectSeed, HoldRegistered, HoldMoved, CausalJudgment, CheckpointPayload,
  DeliveryRecorded, RunTransitioned, EventData, StateEvent,
}
use navis.Kernel.Core.{
  Kernel, Outcome, ok, refused, ◌>>◌, guard, Exec, then_run, run, state_version, append,
  append_then, invalid_fields, guard_preconditions, require_known_actor,
}

pub record IssueEquipCommand : Type 0 where
  pub actor : String
  pub at : String
  pub work_id : Option String
  pub participant_id : Option String
  pub allowed_actions : Option (List String)
  pub expected_version : ℕ

-- `EQUIP_SIZE_BUDGET`
abbrev pub equip_size_budget : ℕ
equip_size_budget = 65536

-- the derived contract that is handed to the caller, always `active`
pub record IssuedEquip : Type 0 where
  pub id : String
  pub work_id : Option String
  pub participant_id : String
  pub state_version : ℕ
  pub causal_snapshot : ClockSnapshot
  pub issued_at : String
  pub verified_facts : List String
  pub active_assets : List String
  pub active_holds : List String
  pub boundary : Option String
  pub acceptance_criteria : Option (List String)
  pub allowed_actions : Option (List String)

-- state/scope-visibility.ts
unfoldable pub scope_visible_for_project : AssetScope → Bool
scope_visible_for_project scope = scope == AssetScope.project

abbrev is_visible : AssetRow → Bool
is_visible a = alive a.deleted_at && scope_visible_for_project a.scope

unfoldable pub verified_facts : Dict AssetRow → List String
unfolding scope_visible_for_project
verified_facts assets =
    map (λ (a : AssetRow). a.id)
      (filter (λ a. is_visible a && a.lifecycle == AssetLifecycle.active) (values assets))

unfoldable pub active_assets : Dict AssetRow → List String
unfolding scope_visible_for_project
active_assets assets =
    map (λ (a : AssetRow). a.id)
      (filter
        (λ a.
          is_visible a
          && (a.lifecycle == AssetLifecycle.active || a.lifecycle == AssetLifecycle.candidate))
        (values assets))

-- a hold of no work, or of the equip's own work
abbrev pub binds : Option String → Option String → Bool
binds work_id none = true
binds work_id (some w) = is_some_eq work_id w

unfoldable pub active_holds : Option String → Dict HoldRow → List String
active_holds work_id holds =
    map (λ (h : HoldRow). h.id)
      (filter
        (λ h.
          alive h.deleted_at
          && h.status == HoldStatus.active
          && binds work_id h.registered_during_work)
        (values holds))

-- `listAssets`, `getAssetById`, `listPendingEffects` and `listExecutingEffects`
unfoldable pub list_assets : Kernel → List AssetRow
unfolding scope_visible_for_project
list_assets k = filter is_visible (values k.draft.assets)

abbrev visible_asset : Option AssetRow → Option AssetRow
visible_asset none = none
visible_asset (some a) = if is_visible a then some a else none

unfoldable pub get_asset_by_id : Kernel → String → Option AssetRow
unfolding scope_visible_for_project
get_asset_by_id k id = visible_asset (lookup id k.draft.assets)

unfoldable pub list_pending_effects : Kernel → List EffectRow
list_pending_effects k =
    filter (λ (e : EffectRow). alive e.deleted_at && e.status == EffectStatus.unknown)
      (values k.draft.effects)

unfoldable pub list_executing_effects : Kernel → List EffectRow
list_executing_effects k =
    filter (λ (e : EffectRow). alive e.deleted_at && e.status == EffectStatus.executing)
      (values k.draft.effects)

abbrev pub is_equippable : Option WorkRow → Bool
is_equippable none = false
is_equippable (some w) = alive w.deleted_at && not (w.status == WorkStatus.cancelled)

-- `if (cmd.work_id !== undefined) { … }`
unfoldable pub check_work : Option String → Kernel → Outcome (Unit {0})
check_work none k = ok tt
check_work (some id) k =
    guard (is_equippable (lookup id k.draft.works))
      (forbidden "issue_equip" (("reason", text "work-not-found") ∷ ("work_id", text id) ∷ []))

abbrev boundary_of : Option ProjectRow → Option String
boundary_of none = none
boundary_of (some p) = p.boundary

abbrev criteria_of : Option ProjectRow → Option (List String)
criteria_of none = none
criteria_of (some p) = p.acceptance_criteria

-- the contract, read after the event was folded
unfoldable pub issued : IssueEquipCommand → String → String → Kernel → Projection → IssuedEquip
issued c fresh participant_id k d = record {
  id = fresh;
  work_id = c.work_id;
  participant_id = participant_id;
  state_version = state_version k;
  causal_snapshot = k.causal_clock;
  issued_at = c.at;
  verified_facts = verified_facts k.draft.assets;
  active_assets = active_assets d.assets;
  active_holds = active_holds c.work_id d.holds;
  boundary = boundary_of d.project;
  acceptance_criteria = criteria_of d.project;
  allowed_actions = c.allowed_actions;
}

module _ (z : Platform) where
  -- too many facts: the diagnostics are appended, and the command is refused
  abbrev pub over_budget : IssueEquipCommand → String → Exec IssuedEquip
  over_budget c participant_id k =
      let facts = verified_facts k.draft.assets in
      let size = z.encoded_length facts in
      then_run
        (append z
          (Events.equip_budget_exceeded c.work_id participant_id (length facts) size
            equip_size_budget c.actor)
          c.at (some c.actor) k)
        (λ l. (refused (equip_budget_exceeded (length facts) size equip_size_budget), l))

  abbrev pub issue : IssueEquipCommand → String → String → Exec IssuedEquip
  issue c fresh participant_id k =
      append_then z
        (Events.equip_issued fresh (state_version k) c.actor c.work_id participant_id
          (some k.causal_clock) c.allowed_actions)
        c.at (some c.actor) (issued c fresh participant_id k) k

  unfoldable pub issue_equip : IssueEquipCommand → String → Exec IssuedEquip
  issue_equip c fresh k =
      run
        (do
          guard_preconditions c.expected_version "issue_equip" c.actor none false k
          invalid_fields "issue_equip" (
              ("at", z.instant c.at)
              ∷ ("work_id", optional is_uuidv7 c.work_id)
              ∷ ("participant_id", optional is_uuidv7 c.participant_id)
              ∷ (
                "allowed_actions",
                optional (λ as'. leb (length as') 100 && all (z.text_between 1 128) as')
                    c.allowed_actions,
              )
              ∷ [])
          check_work c.work_id k
          let participant_id = get_or_else c.participant_id c.actor
          require_known_actor "issue_equip" participant_id k
          ok (
              if ltb equip_size_budget (z.encoded_length (verified_facts k.draft.assets))
              then over_budget c participant_id
              else issue c fresh participant_id))
        k
