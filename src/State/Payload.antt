-- ===== src/State/Payload.antt =====
-- state/event-data.ts and the envelope of state/events.ts: what a payload and an event must be to
-- enter the history. Fields whose type is a closed vocabulary, and JSON values, need no test.
use navis.Base.{
  String, Bool, true, false, not, ◌&&◌, ◌||◌, [], ◌∷◌, ◌==◌, string_eq, all, any, length, ltb, leb,
  is_present,
}
use navis.Schema.Vocabulary.{AssetScope, asset_scope_eq, AcceptanceResult, acceptance_result_eq}
use navis.Schema.Ledgers.{
  hold_status_eq, HoldStatus, EffectStatus, effect_status_eq, DeliveryStatus, delivery_status_eq,
  DirectionStatus, direction_status_eq, ConsentStatus, consent_status_eq,
}
use navis.Schema.Platform.{Platform}
use navis.Schema.Ids.{
  optional, is_uuid, is_uuidv7, is_uuidv7_list, is_text, is_criteria, is_refs, is_count,
  max_safe_integer,
}
use navis.Schema.Asset.{is_sha256, is_asset_content}
use navis.State.Clock.{ClockSnapshot}
use navis.State.Events
use navis.State.Events.{
  CheckpointPayload, AssetSeed, EffectSeed, HoldRegistered, HoldMoved, CausalJudgment,
  DeliveryRecorded, RunTransitioned, EventData, StateEvent,
}

-- `holdKindSchema` and `holdSeveritySchema`
unfoldable pub is_hold_kind : String → Bool
is_hold_kind s =
    any (λ v. v == s)
      ("bug" ∷ "tech_debt" ∷ "deferred_decision" ∷ "unvalidated_assumption" ∷ "known_risk"
        ∷ "skipped_edge_case" ∷ [])

unfoldable pub is_hold_severity : String → Bool
is_hold_severity s = any (λ v. v == s) ("critical" ∷ "high" ∷ "medium" ∷ "low" ∷ "info" ∷ [])

-- `deliveryTargetTypeSchema`
unfoldable pub is_target_type : String → Bool
is_target_type s =
    any (λ v. v == s)
      ("staging" ∷ "production" ∷ "customer_confirmation" ∷ "business_process" ∷ "external_system"
        ∷ [])

-- `causalClockSnapshotSchema`
unfoldable pub is_clock_snapshot : ClockSnapshot → Bool
is_clock_snapshot c = all (λ p. is_uuid p.0 && ltb 0 p.1 && leb p.1 max_safe_integer) c

module _ (z : Platform) where
  unfoldable pub is_checkpoint : CheckpointPayload → Bool
  is_checkpoint c =
      is_uuidv7 c.id
      && optional is_uuidv7 c.run_id
      && optional (is_text z) c.reason
      && optional (is_refs z) c.resume_ref

  -- `candidateAsset`
  unfoldable pub is_candidate : AssetSeed → Bool
  is_candidate a =
      is_uuid a.id
      && z.instant a.created_at
      && optional is_uuid a.project_id
      && optional (is_text z) a.provenance
      && optional (is_asset_content z) a.content
      && optional z.instant a.valid_from
      && optional z.instant a.valid_to
      && (a.scope == AssetScope.organization || is_present a.project_id)

  unfoldable pub is_effect_seed : EffectSeed → Bool
  is_effect_seed s =
      is_uuidv7 s.id && optional is_uuidv7 s.asset_ref && optional (is_text z) s.description

  unfoldable pub is_hold_registered : HoldRegistered → Bool
  unfolding is_hold_kind is_hold_severity
  is_hold_registered h =
      is_uuidv7 h.hold_id
      && is_uuidv7 h.project_id
      && is_hold_kind h.kind
      && is_hold_severity h.severity
      && is_text z h.statement
      && optional is_uuidv7_list h.asset_refs
      && optional (λ ids. leb (length ids) 100 && all (z.text_between 1 128) ids) h.source_event_ids
      && optional is_uuidv7 h.registered_during_work
      && optional (is_text z) h.applicability
      && is_uuidv7 h.actor
      && is_uuidv7 h.registered_by

  unfoldable pub is_judgment : CausalJudgment → Bool
  unfolding is_clock_snapshot
  is_judgment j =
      optional is_clock_snapshot j.causal_context
      && optional is_clock_snapshot j.authoritative_clock

  unfoldable pub is_delivery : DeliveryRecorded → Bool
  unfolding is_target_type
  is_delivery d =
      is_uuidv7 d.delivery_id
      && is_uuidv7 d.asset_id
      && z.text_between 1 512 d.target_ref
      && is_target_type d.target_type
      && is_sha256 d.version
      && ltb 0 d.attempt_no
      && leb d.attempt_no 1000
      && is_uuidv7 d.delivered_by
      && is_uuidv7 d.actor

  unfoldable pub is_run_transition : RunTransitioned → Bool
  unfolding is_checkpoint
  is_run_transition t =
      is_uuidv7 t.run_id
      && is_text z t.reason
      && ltb 0 t.run_revision
      && optional (is_text z) t.input_provided
      && optional (is_text z) t.approval_result
      && optional is_uuidv7 t.resume_checkpoint_id
      && optional is_checkpoint t.checkpoint

  -- `parseEventData` does not throw. An observation has no schema there.
  unfoldable pub is_payload : EventData → Bool
  unfolding is_checkpoint is_candidate is_effect_seed is_hold_registered is_judgment is_delivery
      is_run_transition
  is_payload (Events.participant_registered id type name) =
      is_uuidv7 id && optional (z.text_between 1 256) name
  is_payload (Events.project_created id title purpose boundary criteria) =
      is_uuidv7 id
      && z.text_between 1 256 title
      && optional (is_text z) purpose
      && optional (is_text z) boundary
      && optional (is_criteria z) criteria
  is_payload (Events.project_policy_updated actor reason privacy count days) =
      is_uuidv7 actor
      && is_text z reason
      && optional is_count count
      && optional (ltb 0) days
      && (is_present count || is_present days || is_present privacy)
  is_payload (Events.project_boundary_updated actor reason boundary criteria) =
      is_uuidv7 actor
      && is_text z reason
      && optional (is_text z) boundary
      && optional (is_criteria z) criteria
      && (is_present boundary || is_present criteria)
  is_payload (Events.project_status_changed actor from to reason) =
      is_uuidv7 actor && is_text z reason
  is_payload (Events.work_created id project_id title reason direction criteria depends_on actor) =
      is_uuidv7 id
      && is_uuidv7 project_id
      && z.text_between 1 256 title
      && is_text z reason
      && optional (is_text z) direction
      && optional (is_criteria z) criteria
      && optional is_uuidv7_list depends_on
      && is_uuidv7 actor
  is_payload (Events.work_redirected id direction reason actor checkpoint) =
      is_uuidv7 id
      && is_text z direction
      && optional (is_text z) reason
      && optional is_uuidv7 actor
      && optional is_checkpoint checkpoint
  is_payload (Events.work_status_changed id from to reason cause actor) =
      is_uuidv7 id
      && optional (is_text z) reason
      && optional (z.text_between 1 128) cause
      && optional is_uuidv7 actor
  is_payload (Events.asset_created asset actor) = is_candidate asset && is_uuidv7 actor
  is_payload (Events.asset_lifecycle_changed id from to reason actor) =
      is_uuidv7 id && optional (is_text z) reason && optional is_uuidv7 actor
  is_payload (Events.asset_purged id reason actor) =
      is_uuidv7 id && is_text z reason && is_uuidv7 actor
  is_payload (Events.acceptance_recorded id asset_id result rationale criteria evidence actor) =
      is_uuidv7 id
      && is_uuidv7 asset_id
      && optional (is_text z) rationale
      && optional is_uuidv7_list evidence
      && is_uuidv7 actor
      && (result == AcceptanceResult.accepted || is_present rationale)
  is_payload (Events.hold_registered h) = is_hold_registered h
  -- `hold.registered` has another payload
  is_payload (Events.hold_moved to m) =
      not (to == HoldStatus.registered)
      && is_uuidv7 m.hold_id
      && is_uuidv7 m.actor
      && optional (is_text z) m.reason
      && optional (z.text_between 1 128) m.cause
  is_payload (Events.checkpoint_created id) = is_uuidv7 id
  is_payload (Events.equip_issued id version actor work_id participant_id snapshot actions) =
      is_uuidv7 id
      && leb version max_safe_integer
      && is_uuidv7 actor
      && optional is_uuidv7 work_id
      && is_uuidv7 participant_id
      && optional is_clock_snapshot snapshot
      && optional (λ as'. leb (length as') 100 && all (z.text_between 1 128) as') actions
  is_payload (Events.equip_budget_exceeded work_id participant_id count length budget actor) =
      optional is_uuidv7 work_id && is_uuidv7 participant_id && ltb 0 budget && is_uuidv7 actor
  is_payload (Events.return_absorbed id actor candidates effects judgment) =
      is_uuidv7 id
      && is_uuidv7 actor
      && leb (length candidates) 100
      && all is_candidate candidates
      && leb (length effects) 100
      && all is_effect_seed effects
      && is_judgment judgment
  is_payload (Events.return_rejected id actor version status current cs es judgment) =
      is_uuidv7 id
      && is_uuidv7 actor
      && optional (λ v. leb v max_safe_integer) version
      && z.text_between 1 64 status
      && leb current max_safe_integer
      && is_judgment judgment
  is_payload (Events.return_conflict_marked actor context clock) =
      is_uuidv7 actor && is_clock_snapshot context && is_clock_snapshot clock
  is_payload (Events.effect_recorded id actor asset_ref description) =
      is_uuidv7 id
      && is_uuidv7 actor
      && optional is_uuidv7 asset_ref
      && optional (is_text z) description
  is_payload (Events.effect_intent_recorded id key actor asset_ref description) =
      is_uuidv7 id
      && z.text_between 1 512 key
      && is_uuidv7 actor
      && optional is_uuidv7 asset_ref
      && optional (is_text z) description
  is_payload (Events.effect_closed id outcome actor reason) =
      is_uuidv7 id
      && (outcome == EffectStatus.confirmed || outcome == EffectStatus.failed)
      && is_uuidv7 actor
      && optional (is_text z) reason
  is_payload (Events.effect_cancel_recorded id actor reason) =
      is_uuidv7 id && is_uuidv7 actor && optional (is_text z) reason
  is_payload (Events.effect_execution_begun id actor) = is_uuidv7 id && is_uuidv7 actor
  is_payload (Events.effect_execution_reset id actor reason attempts_next) =
      is_uuidv7 id && is_uuidv7 actor && is_text z reason && ltb 0 attempts_next
  is_payload (Events.delivery_recorded r) = is_delivery r
  is_payload (Events.delivery_confirmed id outcome confirmed_by actor feedback) =
      is_uuidv7 id
      && (outcome == DeliveryStatus.confirmed || outcome == DeliveryStatus.rejected)
      && is_uuidv7 confirmed_by
      && is_uuidv7 actor
      && optional (is_text z) feedback
  is_payload (Events.direction_proposed id title detail) =
      is_uuidv7 id && z.text_between 1 256 title && optional (z.text_between 1 4096) detail
  is_payload (Events.direction_resolved id resolution reason) =
      is_uuidv7 id && not (resolution == DirectionStatus.proposed) && z.text_between 1 4096 reason
  is_payload (Events.workrun_started id work_id parent attempt refs) =
      is_uuidv7 id
      && is_uuidv7 work_id
      && optional is_uuidv7 parent
      && ltb 0 attempt
      && leb attempt 1000
      && optional (is_refs z) refs
  is_payload (Events.workrun_transitioned t) = is_run_transition t
  is_payload (Events.intervention_session_opened run_id id mode revision consent) =
      is_uuidv7 run_id
      && z.text_between 1 128 id
      && ltb 0 revision
      && optional (λ c. c == ConsentStatus.pending) consent
  is_payload (Events.intervention_session_closed run_id id was_takeover revision consent) =
      is_uuidv7 run_id
      && z.text_between 1 128 id
      && ltb 0 revision
      && optional (λ c. not (c == ConsentStatus.pending)) consent
  is_payload (Events.observation type payload) = false

  -- `z.string().min(1).max(128)` of the type; those of the kernel's own events are fixed texts
  abbrev pub is_type : EventData → Bool
  is_type (Events.observation type payload) = z.text_between 1 128 type
  is_type _ = true

  -- `stateEventSchema`
  unfoldable pub is_envelope : StateEvent → Bool
  is_envelope e =
      ltb 0 e.seq
      && is_type e.body
      && optional (z.text_between 1 512) e.actor
      && z.instant e.at
      && ltb 0 e.schema_version
