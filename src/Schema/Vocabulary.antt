-- ===== src/Schema/Vocabulary.antt =====
-- schema/{participant, project, work, asset, acceptance}.ts: the closed vocabularies.
-- Each value is a text in the source; here `==` compares the places in the list of values.
use Prim.Native.Nat.{ℕ}
use Prim.Native.String.{String}
use navis.Base.{Eq, ◌==◌, nat_eq}

pub data ParticipantType : Type 0 where
  human agent : ParticipantType

pub data ProjectStatus : Type 0 where
  active paused completed archived : ProjectStatus

pub data CapturePrivacy : Type 0 where
  local_only metadata : CapturePrivacy

pub data WorkStatus : Type 0 where
  planned in_progress blocked completed cancelled : WorkStatus

pub data AssetKind : Type 0 where
  context knowledge experience skill artifact evidence template : AssetKind

pub data AssetScope : Type 0 where
  participant session task project organization : AssetScope

pub data AssetLifecycle : Type 0 where
  candidate active superseded competitive_superseded deprecated archived rejected : AssetLifecycle

pub data AssetContentStorage : Type 0 where
  inline object_ref local_ref external_ref : AssetContentStorage

pub data AcceptanceResult : Type 0 where
  accepted rejected conditional : AcceptanceResult

-- The text of a value, as error details carry it.
abbrev pub participant_type_text : ParticipantType → String
participant_type_text ParticipantType.human = "human"
participant_type_text ParticipantType.agent = "agent"

abbrev participant_type_place : ParticipantType → ℕ
participant_type_place ParticipantType.human = 0
participant_type_place ParticipantType.agent = 1

instance abbrev pub participant_type_eq : Eq ParticipantType
participant_type_eq = record { beq = λ a b. participant_type_place a == participant_type_place b }

-- The text of a value, as error details carry it.
abbrev pub project_status_text : ProjectStatus → String
project_status_text ProjectStatus.active = "active"
project_status_text ProjectStatus.paused = "paused"
project_status_text ProjectStatus.completed = "completed"
project_status_text ProjectStatus.archived = "archived"

abbrev project_status_place : ProjectStatus → ℕ
project_status_place ProjectStatus.active = 0
project_status_place ProjectStatus.paused = 1
project_status_place ProjectStatus.completed = 2
project_status_place ProjectStatus.archived = 3

instance abbrev pub project_status_eq : Eq ProjectStatus
project_status_eq = record { beq = λ a b. project_status_place a == project_status_place b }

abbrev capture_privacy_place : CapturePrivacy → ℕ
capture_privacy_place CapturePrivacy.local_only = 0
capture_privacy_place CapturePrivacy.metadata = 1

instance abbrev pub capture_privacy_eq : Eq CapturePrivacy
capture_privacy_eq = record { beq = λ a b. capture_privacy_place a == capture_privacy_place b }

-- The text of a value, as error details carry it.
abbrev pub work_status_text : WorkStatus → String
work_status_text WorkStatus.planned = "planned"
work_status_text WorkStatus.in_progress = "in_progress"
work_status_text WorkStatus.blocked = "blocked"
work_status_text WorkStatus.completed = "completed"
work_status_text WorkStatus.cancelled = "cancelled"

abbrev work_status_place : WorkStatus → ℕ
work_status_place WorkStatus.planned = 0
work_status_place WorkStatus.in_progress = 1
work_status_place WorkStatus.blocked = 2
work_status_place WorkStatus.completed = 3
work_status_place WorkStatus.cancelled = 4

instance abbrev pub work_status_eq : Eq WorkStatus
work_status_eq = record { beq = λ a b. work_status_place a == work_status_place b }

abbrev asset_kind_place : AssetKind → ℕ
asset_kind_place AssetKind.context = 0
asset_kind_place AssetKind.knowledge = 1
asset_kind_place AssetKind.experience = 2
asset_kind_place AssetKind.skill = 3
asset_kind_place AssetKind.artifact = 4
asset_kind_place AssetKind.evidence = 5
asset_kind_place AssetKind.template = 6

instance abbrev pub asset_kind_eq : Eq AssetKind
asset_kind_eq = record { beq = λ a b. asset_kind_place a == asset_kind_place b }

abbrev asset_scope_place : AssetScope → ℕ
asset_scope_place AssetScope.participant = 0
asset_scope_place AssetScope.session = 1
asset_scope_place AssetScope.task = 2
asset_scope_place AssetScope.project = 3
asset_scope_place AssetScope.organization = 4

instance abbrev pub asset_scope_eq : Eq AssetScope
asset_scope_eq = record { beq = λ a b. asset_scope_place a == asset_scope_place b }

-- The text of a value, as error details carry it.
abbrev pub asset_lifecycle_text : AssetLifecycle → String
asset_lifecycle_text AssetLifecycle.candidate = "candidate"
asset_lifecycle_text AssetLifecycle.active = "active"
asset_lifecycle_text AssetLifecycle.superseded = "superseded"
asset_lifecycle_text AssetLifecycle.competitive_superseded = "competitive_superseded"
asset_lifecycle_text AssetLifecycle.deprecated = "deprecated"
asset_lifecycle_text AssetLifecycle.archived = "archived"
asset_lifecycle_text AssetLifecycle.rejected = "rejected"

abbrev asset_lifecycle_place : AssetLifecycle → ℕ
asset_lifecycle_place AssetLifecycle.candidate = 0
asset_lifecycle_place AssetLifecycle.active = 1
asset_lifecycle_place AssetLifecycle.superseded = 2
asset_lifecycle_place AssetLifecycle.competitive_superseded = 3
asset_lifecycle_place AssetLifecycle.deprecated = 4
asset_lifecycle_place AssetLifecycle.archived = 5
asset_lifecycle_place AssetLifecycle.rejected = 6

instance abbrev pub asset_lifecycle_eq : Eq AssetLifecycle
asset_lifecycle_eq = record { beq = λ a b. asset_lifecycle_place a == asset_lifecycle_place b }

abbrev asset_content_storage_place : AssetContentStorage → ℕ
asset_content_storage_place AssetContentStorage.inline = 0
asset_content_storage_place AssetContentStorage.object_ref = 1
asset_content_storage_place AssetContentStorage.local_ref = 2
asset_content_storage_place AssetContentStorage.external_ref = 3

instance abbrev pub asset_content_storage_eq : Eq AssetContentStorage
asset_content_storage_eq = record {
  beq = λ a b. asset_content_storage_place a == asset_content_storage_place b;
}

abbrev acceptance_result_place : AcceptanceResult → ℕ
acceptance_result_place AcceptanceResult.accepted = 0
acceptance_result_place AcceptanceResult.rejected = 1
acceptance_result_place AcceptanceResult.conditional = 2

instance abbrev pub acceptance_result_eq : Eq AcceptanceResult
acceptance_result_eq = record {
  beq = λ a b. acceptance_result_place a == acceptance_result_place b;
}
