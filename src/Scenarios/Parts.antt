-- ===== src/Scenarios/Parts.antt =====
-- The theorems on single commands, at a project with one participant and one asset.
use navis.Base.{
  ◌≡◌, refl, ℕ, ◌+◌, ◌==◌, ◌&&◌, ◌||◌, string_eq, String, Bool, true, false, Option, none, some,
  List, [], ◌∷◌, ◌++◌, any, values, lookup, is_present, leb, ltb, if◌then◌else◌,
}
use navis.Schema.Vocabulary.{
  ParticipantType, ProjectStatus, AssetKind, AssetScope, AssetLifecycle, asset_lifecycle_eq,
  AcceptanceResult,
}
use navis.Schema.Ledgers.{HoldStatus, EffectStatus}
use navis.Schema.Asset.{AssetContent, Target}
use navis.State.Rows.{
  ParticipantRow, ProjectRow, AssetRow, HoldRow, EffectRow, DeliveryRow, AcceptanceRow,
  empty_projection, Json,
}
use navis.State.History
use navis.Schema.Vocabulary.{AssetContentStorage}
use navis.Kernel.Core.{Kernel, Outcome, guard_preconditions, is_human}
use navis.Kernel.Delivery.{
  DeliverCommand, deliver, blocks, is_unclosed, is_deliverable, asset_sha256, is_open_status,
  attempts,
}
use navis.Kernel.Delivery.Gates.{deliver-gates}
use navis.Kernel.Hold.{TransitionHoldCommand, transition_hold}
use navis.Kernel.Hold.Authority.{transition_hold-human}
use navis.Kernel.Asset.{
  TransitionAssetCommand, transition_asset, AcceptAssetCommand, accept_asset, Rationale, live_asset,
}
use navis.Kernel.Asset.Authority.{transition_asset-decided}
use navis.Kernel.Effect.{
  CloseEffectCommand, close_effect, live_effect, is_cancelled, RecordEffectIntentCommand,
  record_effect_intent, find_intent,
}
use navis.Kernel.Effect.Terminal.{close_effect-executing}
use navis.Kernel.Effect.Intent.{record_effect_intent-again}
use navis.Scenarios.Base.{plain, now, alice, project_one, report, other_id}

abbrev alice_row : ParticipantRow
alice_row = record {
  id = alice;
  project_id = none;
  type = ParticipantType.human;
  display_name = none;
  role = none;
  created_at = now;
}

abbrev project_row : ProjectRow
project_row = record {
  id = project_one;
  title = "one";
  purpose = none;
  boundary = none;
  acceptance_criteria = none;
  status = ProjectStatus.active;
  current_state_version = 0;
  created_at = now;
  updated = none;
}

abbrev asset_row : AssetLifecycle → AssetRow
asset_row l = record {
  id = report;
  kind = AssetKind.artifact;
  scope = AssetScope.project;
  project_id = some project_one;
  lifecycle = l;
  provenance = none;
  content = some (record {
    media_type = "text/plain";
    storage = AssetContentStorage.inline;
    text = some "report";
    ref = none;
    size = none;
    sha256 = some "0123456789abcdef0123456789abcdef0123456789abcdef0123456789abcdef";
  });
  valid_from = none;
  valid_to = none;
  archived_at = none;
  competitive_superseded_at = none;
  created_at = now;
  updated = none;
  deleted_at = none;
}

abbrev hold_row : HoldRow
hold_row = record {
  id = other_id;
  project_id = project_one;
  kind = "risk";
  severity = "low";
  status = HoldStatus.registered;
  blocks_delivery = true;
  statement = "wait";
  source_event_ids = none;
  registered_during_work = none;
  asset_refs = none;
  registered_by = alice;
  applicability = none;
  created_at = now;
  updated = none;
  deleted_at = none;
}

abbrev effect_row : EffectStatus → EffectRow
effect_row s = record {
  id = other_id;
  intent_key = some "mail";
  asset_ref = none;
  description = none;
  status = s;
  execution_attempts = none;
  closed_at = none;
  late_cancel_received = none;
  created_at = now;
  updated = none;
  deleted_at = none;
}

abbrev acceptance_row : AcceptanceRow
acceptance_row = record {
  id = project_one;
  asset_id = report;
  result = AcceptanceResult.accepted;
  rationale = none;
  criteria_snapshot = Json.opaque "[]";
  evidence_refs = none;
  actor = alice;
  created_at = now;
  deleted_at = none;
}

abbrev kernel_with : AssetLifecycle → EffectStatus → Kernel
kernel_with l s = record {
  history = [];
  draft = record empty_projection {
    project = some project_row;
    participants = (alice, alice_row) ∷ [];
    assets = (report, asset_row l) ∷ [];
    holds = (other_id, hold_row) ∷ [];
    acceptances = (project_one, acceptance_row) ∷ [];
    effects = (other_id, effect_row s) ∷ [];
  };
  causal_clock = [];
}

abbrev pub ready : Kernel
ready = kernel_with AssetLifecycle.active EffectStatus.executing

abbrev deliver_command : DeliverCommand
deliver_command = record {
  actor = alice;
  at = now;
  asset_id = report;
  target_ref = "desk";
  target_type = "staging";
  expected_version = 0;
}

abbrev deliver_kernel : Kernel
deliver_kernel = (deliver plain deliver_command other_id ready).1

deliver_runs :
    deliver plain deliver_command other_id ready
    ≡ (Outcome.ok (lookup other_id deliver_kernel.draft.deliveries), deliver_kernel)
unfolding navis.Schema.Asset.is_sha256 navis.Kernel.Delivery.is_accepted
    navis.Kernel.Delivery.deliver navis.Kernel.Delivery.attempts navis.State.Payload.is_target_type
    navis.State.Apply.Effect.fold_delivery_recorded navis.Kernel.Core.◌>>◌ navis.Kernel.Core.◌>>=◌
    navis.Kernel.Core.invalid_fields navis.Base.filter navis.Schema.Ids.is_uuidv7 navis.Base.lookup
    navis.Base.insert navis.Kernel.Core.append navis.State.Payload.is_payload History.append
    navis.State.Payload.is_envelope History.current_seq History.head navis.State.Apply.apply_event
    navis.Kernel.Core.whitespace_only navis.Base.is_blank navis.Base.trim navis.Base.trim_start
    navis.Base.trim_end navis.Base.any navis.Base.all navis.Kernel.Core.guard_preconditions
    navis.Kernel.Core.require_human navis.Base.values navis.Base.find? navis.Schema.Ids.is_uuid
deliver_runs = refl

deliver-gates_example :
    (guard_preconditions 0 "deliver" alice none false ready ≡ Outcome.ok tt)
    × (is_deliverable ready.draft report (lookup report ready.draft.assets) ≡ true)
    × (is_present (asset_sha256 (lookup report ready.draft.assets)) ≡ true)
    × (any (blocks report) (values ready.draft.holds) ≡ false)
    × (any (is_unclosed report) (values ready.draft.effects) ≡ false)
    × (any
          (λ (d : DeliveryRow). is_open_status d.confirmation_status)
          (attempts ready.draft.deliveries report "desk")
        ≡ false)
deliver-gates_example =
    deliver-gates plain deliver_command other_id ready deliver_kernel
      (lookup other_id deliver_kernel.draft.deliveries) deliver_runs

abbrev transition_hold_command : TransitionHoldCommand
transition_hold_command = record {
  actor = alice;
  at = now;
  hold_id = other_id;
  to = HoldStatus.active;
  reason = none;
  expected_version = 0;
}

abbrev transition_hold_kernel : Kernel
transition_hold_kernel = (transition_hold plain transition_hold_command ready).1

transition_hold_runs :
    transition_hold plain transition_hold_command ready
    ≡ (Outcome.ok (lookup other_id transition_hold_kernel.draft.holds), transition_hold_kernel)
unfolding navis.Kernel.Hold.transition_hold navis.Kernel.Hold.find_rule
    navis.State.Apply.Asset.fold_hold_moved navis.Kernel.Core.◌>>◌ navis.Kernel.Core.◌>>=◌
    navis.Kernel.Core.invalid_fields navis.Base.filter navis.Schema.Ids.is_uuidv7 navis.Base.lookup
    navis.Base.insert navis.Kernel.Core.append navis.State.Payload.is_payload History.append
    navis.State.Payload.is_envelope History.current_seq History.head navis.State.Apply.apply_event
    navis.Kernel.Core.whitespace_only navis.Base.is_blank navis.Base.trim navis.Base.trim_start
    navis.Base.trim_end navis.Base.any navis.Base.all navis.Kernel.Core.guard_preconditions
    navis.Kernel.Core.require_human navis.Base.values navis.Base.find? navis.Schema.Ids.is_uuid
transition_hold_runs = refl

transition_hold-human_example : is_human (lookup alice ready.draft.participants) ≡ true
transition_hold-human_example =
    transition_hold-human plain transition_hold_command ready transition_hold_kernel
      (lookup other_id transition_hold_kernel.draft.holds) transition_hold_runs refl

abbrev transition_asset_command : TransitionAssetCommand
transition_asset_command = record {
  actor = alice;
  at = now;
  asset_id = report;
  to = Target.to_state AssetLifecycle.deprecated;
  reason = "old";
  double_confirmation = none;
  expected_version = 0;
}

abbrev transition_asset_kernel : Kernel
transition_asset_kernel = (transition_asset plain transition_asset_command ready).1

transition_asset_runs :
    transition_asset plain transition_asset_command ready
    ≡ (Outcome.ok (lookup report transition_asset_kernel.draft.assets), transition_asset_kernel)
unfolding navis.Kernel.Asset.transition_asset navis.Kernel.Asset.check_grace
    navis.Schema.Asset.assert_transition navis.State.Apply.Asset.fold_lifecycle_changed
    navis.Kernel.Core.◌>>◌ navis.Kernel.Core.◌>>=◌ navis.Kernel.Core.invalid_fields
    navis.Base.filter navis.Schema.Ids.is_uuidv7 navis.Base.lookup navis.Base.insert
    navis.Kernel.Core.append navis.State.Payload.is_payload History.append
    navis.State.Payload.is_envelope History.current_seq History.head navis.State.Apply.apply_event
    navis.Kernel.Core.whitespace_only navis.Base.is_blank navis.Base.trim navis.Base.trim_start
    navis.Base.trim_end navis.Base.any navis.Base.all navis.Kernel.Core.guard_preconditions
    navis.Kernel.Core.require_human navis.Base.values navis.Base.find? navis.Schema.Ids.is_uuid
transition_asset_runs = refl

transition_asset-decided_example :
    (a : AssetRow) × (live_asset ready.draft report ≡ some a)
    × ((a.lifecycle == AssetLifecycle.candidate) ≡ false)
    × (is_human (lookup alice ready.draft.participants) ≡ true)
transition_asset-decided_example =
    transition_asset-decided plain transition_asset_command ready transition_asset_kernel
      (lookup report transition_asset_kernel.draft.assets) transition_asset_runs

abbrev close_effect_command : CloseEffectCommand
close_effect_command = record {
  actor = alice;
  at = now;
  effect_id = other_id;
  confirmed = true;
  reason = none;
  expected_version = 0;
}

abbrev close_effect_kernel : Kernel
close_effect_kernel = (close_effect plain close_effect_command ready).1

close_effect_runs :
    close_effect plain close_effect_command ready
    ≡ (Outcome.ok (lookup other_id close_effect_kernel.draft.effects), close_effect_kernel)
unfolding navis.Kernel.Effect.close_effect navis.State.Apply.Effect.fold_effect
    navis.Kernel.Core.◌>>◌ navis.Kernel.Core.◌>>=◌ navis.Kernel.Core.invalid_fields
    navis.Base.filter navis.Schema.Ids.is_uuidv7 navis.Base.lookup navis.Base.insert
    navis.Kernel.Core.append navis.State.Payload.is_payload History.append
    navis.State.Payload.is_envelope History.current_seq History.head navis.State.Apply.apply_event
    navis.Kernel.Core.whitespace_only navis.Base.is_blank navis.Base.trim navis.Base.trim_start
    navis.Base.trim_end navis.Base.any navis.Base.all navis.Kernel.Core.guard_preconditions
    navis.Kernel.Core.require_human navis.Base.values navis.Base.find? navis.Schema.Ids.is_uuid
close_effect_runs = refl

close_effect-executing_example :
    (ef : EffectRow) × (live_effect ready.draft other_id ≡ some ef)
    × (ef.status ≡ EffectStatus.executing)
    × ((is_cancelled ef && true) ≡ false)
close_effect-executing_example =
    close_effect-executing plain close_effect_command ready close_effect_kernel
      (lookup other_id close_effect_kernel.draft.effects) close_effect_runs

abbrev accept_command : AcceptAssetCommand
accept_command = record {
  actor = alice;
  at = now;
  asset_id = report;
  result = AcceptanceResult.conditional;
  rationale = Rationale.written "not yet";
  criteria_snapshot = Json.opaque "[]";
  evidence_refs = none;
  expected_version = 0;
}

abbrev candidate : Kernel
candidate = kernel_with AssetLifecycle.candidate EffectStatus.unknown

abbrev accept_kernel : Kernel
accept_kernel = (accept_asset plain accept_command other_id candidate).1

accept_runs :
    accept_asset plain accept_command other_id candidate
    ≡ (Outcome.ok (lookup report accept_kernel.draft.assets, other_id), accept_kernel)
unfolding navis.Kernel.Asset.accept_asset navis.Kernel.Asset.record_acceptance
    navis.Kernel.Asset.apply_verdict navis.Kernel.Asset.check_evidence
    navis.State.Apply.Asset.fold_acceptance_recorded navis.Kernel.Core.◌>>◌ navis.Kernel.Core.◌>>=◌
    navis.Kernel.Core.invalid_fields navis.Base.filter navis.Schema.Ids.is_uuidv7 navis.Base.lookup
    navis.Base.insert navis.Kernel.Core.append navis.State.Payload.is_payload History.append
    navis.State.Payload.is_envelope History.current_seq History.head navis.State.Apply.apply_event
    navis.Kernel.Core.whitespace_only navis.Base.is_blank navis.Base.trim navis.Base.trim_start
    navis.Base.trim_end navis.Base.any navis.Base.all navis.Kernel.Core.guard_preconditions
    navis.Kernel.Core.require_human navis.Base.values navis.Base.find? navis.Schema.Ids.is_uuid
accept_runs = refl

abbrev intent_command : RecordEffectIntentCommand
intent_command = record {
  actor = alice;
  at = now;
  intent_key = "mail";
  asset_ref = none;
  description = none;
  expected_version = 0;
}

intent_runs :
    record_effect_intent plain intent_command report candidate
    ≡ (Outcome.ok (some (effect_row EffectStatus.unknown)), candidate)
unfolding navis.Kernel.Effect.record_effect_intent navis.Kernel.Effect.find_intent
    navis.Kernel.Core.◌>>◌ navis.Kernel.Core.◌>>=◌ navis.Kernel.Core.invalid_fields
    navis.Base.filter navis.Schema.Ids.is_uuidv7 navis.Base.lookup navis.Base.insert
    navis.Kernel.Core.append navis.State.Payload.is_payload History.append
    navis.State.Payload.is_envelope History.current_seq History.head navis.State.Apply.apply_event
    navis.Kernel.Core.whitespace_only navis.Base.is_blank navis.Base.trim navis.Base.trim_start
    navis.Base.trim_end navis.Base.any navis.Base.all navis.Kernel.Core.guard_preconditions
    navis.Kernel.Core.require_human navis.Base.values navis.Base.find? navis.Schema.Ids.is_uuid
intent_runs = refl

intent_runs_again :
    record_effect_intent plain intent_command other_id candidate
    ≡ (Outcome.ok (some (effect_row EffectStatus.unknown)), candidate)
unfolding navis.Kernel.Effect.record_effect_intent navis.Kernel.Effect.find_intent
    navis.Kernel.Core.◌>>◌ navis.Kernel.Core.◌>>=◌ navis.Kernel.Core.invalid_fields
    navis.Base.filter navis.Schema.Ids.is_uuidv7 navis.Base.lookup navis.Base.insert
    navis.Kernel.Core.append navis.State.Payload.is_payload History.append
    navis.State.Payload.is_envelope History.current_seq History.head navis.State.Apply.apply_event
    navis.Kernel.Core.whitespace_only navis.Base.is_blank navis.Base.trim navis.Base.trim_start
    navis.Base.trim_end navis.Base.any navis.Base.all navis.Kernel.Core.guard_preconditions
    navis.Kernel.Core.require_human navis.Base.values navis.Base.find? navis.Schema.Ids.is_uuid
intent_runs_again = refl

record_effect_intent-again_example :
    (row : EffectRow) × (some (effect_row EffectStatus.unknown) ≡ some row)
    × (row.intent_key ≡ some "mail")
    × (row.deleted_at ≡ none)
    × (row.status ≡ EffectStatus.unknown)
    × (some (effect_row EffectStatus.unknown) ≡ some row)
    × (candidate ≡ candidate)
record_effect_intent-again_example =
    record_effect_intent-again plain intent_command intent_command report other_id candidate
      candidate candidate (some (effect_row EffectStatus.unknown))
      (some (effect_row EffectStatus.unknown)) refl intent_runs intent_runs_again
