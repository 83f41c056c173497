-- ===== src/State/Rows.antt =====
-- state/projection.ts and the mutable draft of state/project-state-kernel.ts: the rows of the
-- replay cache. A row's `updated_at` and `updated_by` are always written together: `updated`.
use navis.Base.{ℕ, String, Bool, not, Option, none, some, List, [], Dict, is_present}
use navis.Schema.Vocabulary.{
  ParticipantType, ProjectStatus, CapturePrivacy, WorkStatus, AssetKind, AssetScope, AssetLifecycle,
  AcceptanceResult,
}
use navis.Schema.Ledgers.{
  HoldStatus, EffectStatus, EquipStatus, DeliveryStatus, DirectionStatus, WorkRunStatus,
  InterventionMode, ConsentStatus,
}
use navis.Schema.Asset.{AssetContent}
use navis.State.Clock.{ClockSnapshot}

-- A JSON value: one that the kernel carries and never looks into, by its text, or an object, whose
-- fields the kernel builds or checks, with each value by its text.
pub data Json : Type 0 where
  opaque : String → Json
  fields : List (String × String) → Json

-- `updated_at` and `updated_by`, which is null for an event with no actor
pub record Stamp : Type 0 where
  pub at : String
  pub actor : Option String

pub record ParticipantRow : Type 0 where
  pub id : String
  pub project_id : Option String
  pub type : ParticipantType
  pub display_name : Option String
  pub role : Option String
  pub created_at : String

pub record ProjectRow : Type 0 where
  pub id : String
  pub title : String
  pub purpose : Option String
  pub boundary : Option String
  pub acceptance_criteria : Option (List String)
  pub status : ProjectStatus
  pub current_state_version : ℕ
  pub created_at : String
  pub updated : Option Stamp

-- the time window in whole days
pub record PolicyRow : Type 0 where
  pub capture_privacy : CapturePrivacy
  pub event_count_window : ℕ
  pub time_window_days : ℕ
  pub updated : Option Stamp

pub record WorkRow : Type 0 where
  pub id : String
  pub project_id : String
  pub title : String
  pub status : WorkStatus
  pub direction : Option String
  pub acceptance_criteria : Option (List String)
  pub depends_on : Option (List String)
  pub aggregate_revision : ℕ
  pub created_at : String
  pub updated : Option Stamp
  pub deleted_at : Option String

pub record AssetRow : Type 0 where
  pub id : String
  pub kind : AssetKind
  pub scope : AssetScope
  pub project_id : Option String
  pub lifecycle : AssetLifecycle
  pub provenance : Option String
  pub content : Option AssetContent
  pub valid_from : Option String
  pub valid_to : Option String
  pub archived_at : Option String
  pub competitive_superseded_at : Option String
  pub created_at : String
  pub updated : Option Stamp
  pub deleted_at : Option String

-- `kind`, `severity` and `fowler_quadrant` are texts that their schemas have accepted
pub record HoldRow : Type 0 where
  pub id : String
  pub project_id : String
  pub kind : String
  pub severity : String
  pub status : HoldStatus
  pub blocks_delivery : Bool
  pub statement : String
  pub source_event_ids : Option (List String)
  pub registered_during_work : Option String
  pub asset_refs : Option (List String)
  pub registered_by : String
  pub applicability : Option String
  pub created_at : String
  pub updated : Option Stamp
  pub deleted_at : Option String

pub record AcceptanceRow : Type 0 where
  pub id : String
  pub asset_id : String
  pub result : AcceptanceResult
  pub rationale : Option String
  pub criteria_snapshot : Json
  pub evidence_refs : Option (List String)
  pub actor : String
  pub created_at : String
  pub deleted_at : Option String

pub record CheckpointRow : Type 0 where
  pub id : String
  pub work_id : String
  pub run_id : Option String
  pub reason : Option String
  pub captured_at : String
  pub state_version : ℕ
  pub position : Option Json
  pub resume_ref : Option (Dict String)

pub record DeliveryRow : Type 0 where
  pub id : String
  pub asset_id : String
  pub target_ref : String
  pub target_type : String
  pub dispatched_at : String
  pub version : String
  pub attempt_no : ℕ
  pub delivered_by : String
  pub confirmation_status : DeliveryStatus
  pub confirmed_by : Option String
  pub confirmed_at : Option String
  pub feedback : Option String
  pub created_at : String
  pub updated : Option Stamp
  pub deleted_at : Option String

pub record EffectRow : Type 0 where
  pub id : String
  pub intent_key : Option String
  pub asset_ref : Option String
  pub description : Option String
  pub status : EffectStatus
  pub execution_attempts : Option ℕ
  pub closed_at : Option String
  pub late_cancel_received : Option Bool
  pub created_at : String
  pub updated : Option Stamp
  pub deleted_at : Option String

pub record EquipRow : Type 0 where
  pub id : String
  pub work_id : Option String
  pub participant_id : Option String
  pub state_version : ℕ
  pub causal_snapshot : Option ClockSnapshot
  pub status : EquipStatus
  pub created_at : String

pub record RunSessionRow : Type 0 where
  pub session_id : String
  pub participant_id : String
  pub mode : InterventionMode
  pub started_at : String
  pub ended_at : Option String
  pub consent_status : Option ConsentStatus

pub record WorkRunRow : Type 0 where
  pub id : String
  pub work_id : String
  pub parent_run_id : Option String
  pub status : WorkRunStatus
  pub run_revision : ℕ
  pub re_equip_required : Option Bool
  pub intervention_mode : Option InterventionMode
  pub intervention_sessions : List RunSessionRow
  pub checkpoint_id : Option String
  pub input_state_version : ℕ
  pub attempt : Option ℕ
  pub execution_refs : Option (Dict String)
  pub created_at : String
  pub updated : Option Stamp
  pub deleted_at : Option String

pub record IntendedDirectionRow : Type 0 where
  pub id : String
  pub project_id : String
  pub title : String
  pub detail : Option String
  pub status : DirectionStatus
  pub proposed_by : String
  pub proposed_at : String
  pub resolved_by : Option String
  pub resolved_at : Option String
  pub resolution_reason : Option String
  pub created_at : String
  pub updated : Option Stamp
  pub deleted_at : Option String

-- `MutableProjection`
pub record Projection : Type 0 where
  pub seq : ℕ
  pub project : Option ProjectRow
  pub policy : Option PolicyRow
  pub participants : Dict ParticipantRow
  pub works : Dict WorkRow
  pub assets : Dict AssetRow
  pub holds : Dict HoldRow
  pub acceptances : Dict AcceptanceRow
  pub checkpoints : Dict CheckpointRow
  pub deliveries : Dict DeliveryRow
  pub effects : Dict EffectRow
  pub equips : Dict EquipRow
  pub work_runs : Dict WorkRunRow
  pub intended_directions : Dict IntendedDirectionRow

-- `emptyProjection`
abbrev pub empty_projection : Projection
empty_projection = record {
  seq = 0;
  project = none;
  policy = none;
  participants = [];
  works = [];
  assets = [];
  holds = [];
  acceptances = [];
  checkpoints = [];
  deliveries = [];
  effects = [];
  equips = [];
  work_runs = [];
  intended_directions = [];
}

-- `alive` of a row with this `deleted_at`
abbrev pub alive : Option String → Bool
alive deleted_at = not (is_present deleted_at)

-- the version that the row of the project carries, 0 where there is none
abbrev pub version_of : Option ProjectRow → ℕ
version_of none = 0
version_of (some p) = p.current_state_version
