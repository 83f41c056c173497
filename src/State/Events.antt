-- ===== src/State/Events.antt =====
-- state/events.ts and state/event-data.ts: the kernel's events. The payload of each event type is a
-- constructor with the fields of its schema; every other type is an observation.
use navis.Base.{ℕ, String, Bool, true, false, Option, List, Dict}
use navis.Schema.Vocabulary.{
  ParticipantType, ProjectStatus, CapturePrivacy, WorkStatus, AssetKind, AssetScope, AssetLifecycle,
  AcceptanceResult,
}
use navis.Schema.Ledgers.{
  HoldStatus, EffectStatus, DeliveryStatus, DirectionStatus, WorkRunStatus, InterventionMode,
  ConsentStatus,
}
use navis.Schema.Asset.{AssetContent}
use navis.State.Clock.{ClockSnapshot, Verdict}
use navis.State.Rows.{Json}

pub record CheckpointPayload : Type 0 where
  pub id : String
  pub run_id : Option String
  pub reason : Option String
  pub position : Option Json
  pub resume_ref : Option (Dict String)

-- `candidateAsset`: an asset of lifecycle `candidate`
pub record AssetSeed : Type 0 where
  pub id : String
  pub kind : AssetKind
  pub scope : AssetScope
  pub project_id : Option String
  pub provenance : Option String
  pub content : Option AssetContent
  pub valid_from : Option String
  pub valid_to : Option String
  pub created_at : String

pub record EffectSeed : Type 0 where
  pub id : String
  pub asset_ref : Option String
  pub description : Option String

pub record HoldRegistered : Type 0 where
  pub hold_id : String
  pub project_id : String
  pub kind : String
  pub severity : String
  pub initial_status : HoldStatus
  pub blocks_delivery : Bool
  pub statement : String
  pub asset_refs : Option (List String)
  pub source_event_ids : Option (List String)
  pub registered_during_work : Option String
  pub applicability : Option String
  pub actor : String
  pub registered_by : String

-- the payload that the five hold transitions share; `to` is the event's type
pub record HoldMoved : Type 0 where
  pub hold_id : String
  pub from : HoldStatus
  pub actor : String
  pub reason : Option String
  pub cause : Option String

pub record CausalJudgment : Type 0 where
  pub verdict : Option Verdict
  pub causal_context : Option ClockSnapshot
  pub authoritative_clock : Option ClockSnapshot

pub record DeliveryRecorded : Type 0 where
  pub delivery_id : String
  pub asset_id : String
  pub target_ref : String
  pub target_type : String
  pub version : String
  pub attempt_no : ℕ
  pub delivered_by : String
  pub actor : String

pub record RunTransitioned : Type 0 where
  pub run_id : String
  pub from : WorkRunStatus
  pub to : WorkRunStatus
  pub reason : String
  pub run_revision : ℕ
  pub resume : Bool
  pub input_provided : Option String
  pub approval_result : Option String
  pub resume_checkpoint_id : Option String
  pub checkpoint : Option CheckpointPayload

pub data EventData : Type 0 where
  participant_registered :
      (participant_id : String) (type : ParticipantType) (display_name : Option String) → EventData
  project_created :
      (project_id title : String) (purpose boundary : Option String)
      (acceptance_criteria : Option (List String))
      → EventData
  project_boundary_updated :
      (actor reason : String) (boundary : Option String)
      (acceptance_criteria : Option (List String))
      → EventData
  project_policy_updated :
      (actor reason : String) (capture_privacy : Option CapturePrivacy)
      (event_count_window time_window_days : Option ℕ)
      → EventData
  project_status_changed : (actor : String) (from to : ProjectStatus) (reason : String) → EventData
  work_created :
      (work_id project_id title reason : String) (direction : Option String)
      (acceptance_criteria depends_on : Option (List String)) (actor : String)
      → EventData
  work_redirected :
      (work_id direction : String) (reason actor : Option String)
      (checkpoint : Option CheckpointPayload)
      → EventData
  work_status_changed :
      (work_id : String) (from to : WorkStatus) (reason cause actor : Option String) → EventData
  asset_created : (asset : AssetSeed) (actor : String) → EventData
  asset_lifecycle_changed :
      (asset_id : String) (from to : AssetLifecycle) (reason actor : Option String) → EventData
  asset_purged : (asset_id reason actor : String) → EventData
  acceptance_recorded :
      (acceptance_id asset_id : String) (result : AcceptanceResult) (rationale : Option String)
      (criteria_snapshot : Json) (evidence_refs : Option (List String)) (actor : String)
      → EventData
  hold_registered : HoldRegistered → EventData
  hold_moved : (to : HoldStatus) → HoldMoved → EventData
  checkpoint_created : (id : String) → EventData
  equip_issued :
      (equip_id : String) (state_version : ℕ) (actor : String) (work_id : Option String)
      (participant_id : String) (causal_snapshot : Option ClockSnapshot)
      (allowed_actions : Option (List String))
      → EventData
  equip_budget_exceeded :
      (work_id : Option String) (participant_id : String) (fact_count serialized_length budget : ℕ)
      (actor : String)
      → EventData
  return_absorbed :
      (equip_id actor : String) (candidates : List AssetSeed) (effects : List EffectSeed)
      → CausalJudgment
      → EventData
  return_rejected :
      (equip_id actor : String) (equip_state_version : Option ℕ) (equip_status : String)
      (current_state_version candidate_count effect_count : ℕ)
      → CausalJudgment
      → EventData
  return_conflict_marked :
      (return_actor : String) (causal_context authoritative_clock : ClockSnapshot) → EventData
  effect_recorded : (effect_id actor : String) (asset_ref description : Option String) → EventData
  effect_intent_recorded :
      (effect_id intent_key actor : String) (asset_ref description : Option String) → EventData
  effect_closed :
      (effect_id : String) (outcome : EffectStatus) (actor : String) (reason : Option String)
      → EventData
  effect_cancel_recorded : (effect_id actor : String) (reason : Option String) → EventData
  effect_execution_begun : (effect_id actor : String) → EventData
  effect_execution_reset : (effect_id actor reason : String) (attempts_next : ℕ) → EventData
  delivery_recorded : DeliveryRecorded → EventData
  delivery_confirmed :
      (delivery_id : String) (outcome : DeliveryStatus) (confirmed_by actor : String)
      (feedback : Option String)
      → EventData
  direction_proposed : (direction_id title : String) (detail : Option String) → EventData
  direction_resolved :
      (direction_id : String) (resolution : DirectionStatus) (resolution_reason : String)
      → EventData
  workrun_started :
      (run_id work_id : String) (parent_run_id : Option String) (attempt : ℕ)
      (execution_refs : Option (Dict String))
      → EventData
  workrun_transitioned : RunTransitioned → EventData
  intervention_session_opened :
      (run_id session_id : String) (mode : InterventionMode) (run_revision : ℕ)
      (consent_status : Option ConsentStatus)
      → EventData
  intervention_session_closed :
      (run_id session_id : String) (was_takeover : Bool) (run_revision : ℕ)
      (consent_status : Option ConsentStatus)
      → EventData
  observation : (type : String) (payload : Json) → EventData

-- `StateEvent`; the type and the payload are one value
pub record StateEvent : Type 0 where
  pub seq : ℕ
  pub body : EventData
  pub actor : Option String
  pub at : String
  pub state_version : ℕ
  pub schema_version : ℕ

-- `STATE_EVENT_SCHEMA_VERSION`
abbrev pub state_event_schema_version : ℕ
state_event_schema_version = 1

-- `KERNEL_EVENT_TYPES.includes(type)`
unfoldable pub is_kernel_event : EventData → Bool
is_kernel_event (observation type payload) = false
is_kernel_event _ = true

-- `isStateMaterialEvent`
unfoldable pub is_state_material : EventData → Bool
is_state_material (project_boundary_updated actor reason boundary criteria) = true
is_state_material (project_status_changed actor from to reason) = true
is_state_material _ = false
