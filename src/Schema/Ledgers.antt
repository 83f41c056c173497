-- ===== src/Schema/Ledgers.antt =====
-- schema/{hold, delivery, intended-direction, workrun}.ts and state/projection.ts: the closed
-- vocabularies of the ledgers.
-- Each value is a text in the source; here `==` compares the places in the list of values.
use Prim.Native.Nat.{ℕ}
use Prim.Native.String.{String}
use navis.Base.{Eq, ◌==◌, nat_eq}

pub data HoldStatus : Type 0 where
  registered active resolved accepted dormant invalidated : HoldStatus

pub data EffectStatus : Type 0 where
  unknown executing confirmed failed : EffectStatus

pub data EquipStatus : Type 0 where
  active stale : EquipStatus

pub data DeliveryStatus : Type 0 where
  delivered confirmed rejected pending : DeliveryStatus

pub data DirectionStatus : Type 0 where
  proposed confirmed discarded : DirectionStatus

pub data WorkRunStatus : Type 0 where
  ready running waiting_input waiting_approval paused cancelling cancelled failed completed :
      WorkRunStatus

pub data InterventionMode : Type 0 where
  observe assist takeover : InterventionMode

pub data ConsentStatus : Type 0 where
  granted denied pending : ConsentStatus

-- The text of a value, as error details carry it.
abbrev pub hold_status_text : HoldStatus → String
hold_status_text HoldStatus.registered = "registered"
hold_status_text HoldStatus.active = "active"
hold_status_text HoldStatus.resolved = "resolved"
hold_status_text HoldStatus.accepted = "accepted"
hold_status_text HoldStatus.dormant = "dormant"
hold_status_text HoldStatus.invalidated = "invalidated"

abbrev hold_status_place : HoldStatus → ℕ
hold_status_place HoldStatus.registered = 0
hold_status_place HoldStatus.active = 1
hold_status_place HoldStatus.resolved = 2
hold_status_place HoldStatus.accepted = 3
hold_status_place HoldStatus.dormant = 4
hold_status_place HoldStatus.invalidated = 5

instance abbrev pub hold_status_eq : Eq HoldStatus
hold_status_eq = record { beq = λ a b. hold_status_place a == hold_status_place b }

-- The text of a value, as error details carry it.
abbrev pub effect_status_text : EffectStatus → String
effect_status_text EffectStatus.unknown = "unknown"
effect_status_text EffectStatus.executing = "executing"
effect_status_text EffectStatus.confirmed = "confirmed"
effect_status_text EffectStatus.failed = "failed"

abbrev effect_status_place : EffectStatus → ℕ
effect_status_place EffectStatus.unknown = 0
effect_status_place EffectStatus.executing = 1
effect_status_place EffectStatus.confirmed = 2
effect_status_place EffectStatus.failed = 3

instance abbrev pub effect_status_eq : Eq EffectStatus
effect_status_eq = record { beq = λ a b. effect_status_place a == effect_status_place b }

-- The text of a value, as error details carry it.
abbrev pub equip_status_text : EquipStatus → String
equip_status_text EquipStatus.active = "active"
equip_status_text EquipStatus.stale = "stale"

abbrev equip_status_place : EquipStatus → ℕ
equip_status_place EquipStatus.active = 0
equip_status_place EquipStatus.stale = 1

instance abbrev pub equip_status_eq : Eq EquipStatus
equip_status_eq = record { beq = λ a b. equip_status_place a == equip_status_place b }

-- The text of a value, as error details carry it.
abbrev pub delivery_status_text : DeliveryStatus → String
delivery_status_text DeliveryStatus.delivered = "delivered"
delivery_status_text DeliveryStatus.confirmed = "confirmed"
delivery_status_text DeliveryStatus.rejected = "rejected"
delivery_status_text DeliveryStatus.pending = "pending"

abbrev delivery_status_place : DeliveryStatus → ℕ
delivery_status_place DeliveryStatus.delivered = 0
delivery_status_place DeliveryStatus.confirmed = 1
delivery_status_place DeliveryStatus.rejected = 2
delivery_status_place DeliveryStatus.pending = 3

instance abbrev pub delivery_status_eq : Eq DeliveryStatus
delivery_status_eq = record { beq = λ a b. delivery_status_place a == delivery_status_place b }

abbrev direction_status_place : DirectionStatus → ℕ
direction_status_place DirectionStatus.proposed = 0
direction_status_place DirectionStatus.confirmed = 1
direction_status_place DirectionStatus.discarded = 2

instance abbrev pub direction_status_eq : Eq DirectionStatus
direction_status_eq = record { beq = λ a b. direction_status_place a == direction_status_place b }

-- The text of a value, as error details carry it.
abbrev pub work_run_status_text : WorkRunStatus → String
work_run_status_text WorkRunStatus.ready = "ready"
work_run_status_text WorkRunStatus.running = "running"
work_run_status_text WorkRunStatus.waiting_input = "waiting_input"
work_run_status_text WorkRunStatus.waiting_approval = "waiting_approval"
work_run_status_text WorkRunStatus.paused = "paused"
work_run_status_text WorkRunStatus.cancelling = "cancelling"
work_run_status_text WorkRunStatus.cancelled = "cancelled"
work_run_status_text WorkRunStatus.failed = "failed"
work_run_status_text WorkRunStatus.completed = "completed"

abbrev work_run_status_place : WorkRunStatus → ℕ
work_run_status_place WorkRunStatus.ready = 0
work_run_status_place WorkRunStatus.running = 1
work_run_status_place WorkRunStatus.waiting_input = 2
work_run_status_place WorkRunStatus.waiting_approval = 3
work_run_status_place WorkRunStatus.paused = 4
work_run_status_place WorkRunStatus.cancelling = 5
work_run_status_place WorkRunStatus.cancelled = 6
work_run_status_place WorkRunStatus.failed = 7
work_run_status_place WorkRunStatus.completed = 8

instance abbrev pub work_run_status_eq : Eq WorkRunStatus
work_run_status_eq = record { beq = λ a b. work_run_status_place a == work_run_status_place b }

abbrev intervention_mode_place : InterventionMode → ℕ
intervention_mode_place InterventionMode.observe = 0
intervention_mode_place InterventionMode.assist = 1
intervention_mode_place InterventionMode.takeover = 2

instance abbrev pub intervention_mode_eq : Eq InterventionMode
intervention_mode_eq = record {
  beq = λ a b. intervention_mode_place a == intervention_mode_place b;
}

abbrev consent_status_place : ConsentStatus → ℕ
consent_status_place ConsentStatus.granted = 0
consent_status_place ConsentStatus.denied = 1
consent_status_place ConsentStatus.pending = 2

instance abbrev pub consent_status_eq : Eq ConsentStatus
consent_status_eq = record { beq = λ a b. consent_status_place a == consent_status_place b }
