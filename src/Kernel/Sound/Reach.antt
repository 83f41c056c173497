-- ===== src/Kernel/Sound/Reach.antt =====
-- The kernels that a sequence of commands reaches, where none of them throws.
use navis.Base.{◌≡◌, Bool, true, false, ℕ, String}
use navis.Schema.Platform.{Platform}
use navis.Schema.Errors.{Refusal, Fault}
use navis.State.Replay
use navis.Kernel.Core.{Kernel, new_kernel, Outcome}
use navis.Kernel.Log.{ObservationValidator, rebuild_projection, from_events}
use navis.Kernel.Sound.{
  IsSound, new_kernel-IsSound, IsSound-rebuild_projection, IsSound-from_events,
}
use navis.Kernel.Sound.Steps.{Leaves}
use navis.Kernel.Project
use navis.Kernel.Project.{
  RegisterParticipantCommand, CreateProjectCommand, UpdateBoundaryCommand, UpdatePolicyCommand,
  SetProjectStatusCommand,
}
use navis.Kernel.Work
use navis.Kernel.Work.{CreateWorkCommand, CancelWorkCommand, RedirectWorkCommand}
use navis.Kernel.Asset
use navis.Kernel.Asset.{CreateAssetCommand, TransitionAssetCommand, AcceptAssetCommand}
use navis.Kernel.Hold
use navis.Kernel.Hold.{RegisterHoldCommand, TransitionHoldCommand}
use navis.Kernel.Effect
use navis.Kernel.Effect.{
  RecordEffectCommand, RecordEffectIntentCommand, BeginEffectExecutionCommand,
  ResetEffectExecutionCommand, CloseEffectCommand, CancelEffectLateCommand,
}
use navis.Kernel.Delivery
use navis.Kernel.Delivery.{DeliverCommand, ConfirmDeliveryCommand}
use navis.Kernel.Direction
use navis.Kernel.Direction.{ProposeDirectionCommand, ResolveDirectionCommand}
use navis.Kernel.Equip
use navis.Kernel.Equip.{IssueEquipCommand}
use navis.Kernel.Return
use navis.Kernel.Return.{SubmitReturnCommand}
use navis.Kernel.Run
use navis.Kernel.Run.{StartRunCommand, TransitionRunCommand}
use navis.Kernel.Intervention
use navis.Kernel.Intervention.{OpenInterventionCommand, CloseInterventionCommand}
use navis.Kernel.Sound.Commands.{
  update_boundary-IsSound, update_policy-IsSound, create_work-IsSound, cancel_work-IsSound,
  redirect_work-IsSound, create_asset-IsSound, register_hold-IsSound, transition_hold-IsSound,
  record_effect-IsSound, begin_effect_execution-IsSound, reset_effect_execution-IsSound,
  close_effect-IsSound, cancel_effect_late-IsSound, deliver-IsSound, confirm_delivery-IsSound,
  propose_direction-IsSound, resolve_direction-IsSound, start_run-IsSound, transition_run-IsSound,
  open_intervention-IsSound, close_intervention-IsSound,
}
use navis.Kernel.Sound.Chains.{
  register_participant-IsSound, create_project-IsSound, set_project_status-IsSound,
  transition_asset-IsSound, accept_asset-IsSound, record_effect_intent-IsSound, issue_equip-IsSound,
  submit_return-IsSound,
}

-- the public commands of the kernel, each with the identifiers it draws
pub data Command : Type 0 where
  register_participant : RegisterParticipantCommand → Command
  create_project : CreateProjectCommand → String → Command
  update_boundary : UpdateBoundaryCommand → Command
  update_policy : UpdatePolicyCommand → Command
  set_project_status : SetProjectStatusCommand → Command
  create_work : CreateWorkCommand → String → Command
  cancel_work : CancelWorkCommand → Command
  redirect_work : RedirectWorkCommand → String → Command
  create_asset : CreateAssetCommand → String → Command
  transition_asset : TransitionAssetCommand → Command
  accept_asset : AcceptAssetCommand → String → Command
  register_hold : RegisterHoldCommand → String → Command
  transition_hold : TransitionHoldCommand → Command
  record_effect : RecordEffectCommand → String → Command
  record_effect_intent : RecordEffectIntentCommand → String → Command
  begin_effect_execution : BeginEffectExecutionCommand → Command
  reset_effect_execution : ResetEffectExecutionCommand → Command
  close_effect : CloseEffectCommand → Command
  cancel_effect_late : CancelEffectLateCommand → Command
  deliver : DeliverCommand → String → Command
  confirm_delivery : ConfirmDeliveryCommand → Command
  propose_direction : ProposeDirectionCommand → Command
  resolve_direction : ResolveDirectionCommand → Command
  issue_equip : IssueEquipCommand → String → Command
  submit_return : SubmitReturnCommand → (ℕ → String) → Command
  start_run : StartRunCommand → Command
  transition_run : TransitionRunCommand → String → Command
  open_intervention : OpenInterventionCommand → Command
  close_intervention : CloseInterventionCommand → Command

-- how a command ended, without its value
pub data Reply : Type 0 where
  done : Reply
  refused : Refusal → Reply
  threw : Fault → Reply

abbrev pub has_thrown : Reply → Bool
has_thrown (threw e) = true
has_thrown _ = false

abbrev pub has_refused : Reply → Bool
has_refused (refused r) = true
has_refused _ = false

abbrev pub outcome : {A : Type 0} → Outcome A × Kernel → Reply × Kernel
outcome (Outcome.ok a, k) = (done, k)
outcome (Outcome.refused r, k) = (refused r, k)
outcome (Outcome.threw e, k) = (threw e, k)

-- how a command ends, and the kernel that it leaves
unfoldable pub execute : Platform → Command → Kernel → Reply × Kernel
execute z (Command.register_participant c) k = outcome (Project.register_participant z c k)
execute z (Command.create_project c fresh) k = outcome (Project.create_project z c fresh k)
execute z (Command.update_boundary c) k = outcome (Project.update_boundary z c k)
execute z (Command.update_policy c) k = outcome (Project.update_policy z c k)
execute z (Command.set_project_status c) k = outcome (Project.set_project_status z c k)
execute z (Command.create_work c fresh) k = outcome (Work.create_work z c fresh k)
execute z (Command.cancel_work c) k = outcome (Work.cancel_work z c k)
execute z (Command.redirect_work c fresh) k = outcome (Work.redirect_work z c fresh k)
execute z (Command.create_asset c fresh) k = outcome (Asset.create_asset z c fresh k)
execute z (Command.transition_asset c) k = outcome (Asset.transition_asset z c k)
execute z (Command.accept_asset c fresh) k = outcome (Asset.accept_asset z c fresh k)
execute z (Command.register_hold c fresh) k = outcome (Hold.register_hold z c fresh k)
execute z (Command.transition_hold c) k = outcome (Hold.transition_hold z c k)
execute z (Command.record_effect c fresh) k = outcome (Effect.record_effect z c fresh k)
execute z (Command.record_effect_intent c fresh) k =
    outcome (Effect.record_effect_intent z c fresh k)
execute z (Command.begin_effect_execution c) k = outcome (Effect.begin_effect_execution z c k)
execute z (Command.reset_effect_execution c) k = outcome (Effect.reset_effect_execution z c k)
execute z (Command.close_effect c) k = outcome (Effect.close_effect z c k)
execute z (Command.cancel_effect_late c) k = outcome (Effect.cancel_effect_late z c k)
execute z (Command.deliver c fresh) k = outcome (Delivery.deliver z c fresh k)
execute z (Command.confirm_delivery c) k = outcome (Delivery.confirm_delivery z c k)
execute z (Command.propose_direction c) k = outcome (Direction.propose_direction z c k)
execute z (Command.resolve_direction c) k = outcome (Direction.resolve_direction z c k)
execute z (Command.issue_equip c fresh) k = outcome (Equip.issue_equip z c fresh k)
execute z (Command.submit_return c fresh) k = outcome (Return.submit_return z c fresh k)
execute z (Command.start_run c) k = outcome (Run.start_run z c k)
execute z (Command.transition_run c fresh) k = outcome (Run.transition_run z c fresh k)
execute z (Command.open_intervention c) k = outcome (Intervention.open_intervention z c k)
execute z (Command.close_intervention c) k = outcome (Intervention.close_intervention z c k)

-- a kernel that starts new and executes commands, none of which throws
pub data Reachable (z : Platform) : Kernel → Type 0 where
  start : Reachable z new_kernel
  next :
      (c : Command) (k : Kernel)
      → Reachable z k
      → has_thrown (execute z c k).0 ≡ false
      → Reachable z (execute z c k).1

module _ (z : Platform) (v : ObservationValidator) where
  outcome-IsSound :
      {A : Type 0} (r : Outcome A × Kernel)
      → Leaves z v r
      → has_thrown (outcome r).0 ≡ false
      → IsSound z v (outcome r).1
  outcome-IsSound (Outcome.ok a, k) h = h.sound
  outcome-IsSound (Outcome.refused r, k) h = h.sound
  outcome-IsSound (Outcome.threw e, k) h = λ q. cc

  pub execute-IsSound :
      (c : Command) (k : Kernel)
      → IsSound z v k
      → has_thrown (execute z c k).0 ≡ false
      → IsSound z v (execute z c k).1
  unfolding execute
  execute-IsSound (Command.register_participant c) k i =
      outcome-IsSound _ (register_participant-IsSound z v c k i)
  execute-IsSound (Command.create_project c fresh) k i =
      outcome-IsSound _ (create_project-IsSound z v c fresh k i)
  execute-IsSound (Command.update_boundary c) k i =
      outcome-IsSound _ (update_boundary-IsSound z v c k i)
  execute-IsSound (Command.update_policy c) k i =
      outcome-IsSound _ (update_policy-IsSound z v c k i)
  execute-IsSound (Command.set_project_status c) k i =
      outcome-IsSound _ (set_project_status-IsSound z v c k i)
  execute-IsSound (Command.create_work c fresh) k i =
      outcome-IsSound _ (create_work-IsSound z v c fresh k i)
  execute-IsSound (Command.cancel_work c) k i = outcome-IsSound _ (cancel_work-IsSound z v c k i)
  execute-IsSound (Command.redirect_work c fresh) k i =
      outcome-IsSound _ (redirect_work-IsSound z v c fresh k i)
  execute-IsSound (Command.create_asset c fresh) k i =
      outcome-IsSound _ (create_asset-IsSound z v c fresh k i)
  execute-IsSound (Command.transition_asset c) k i =
      outcome-IsSound _ (transition_asset-IsSound z v c k i)
  execute-IsSound (Command.accept_asset c fresh) k i =
      outcome-IsSound _ (accept_asset-IsSound z v c fresh k i)
  execute-IsSound (Command.register_hold c fresh) k i =
      outcome-IsSound _ (register_hold-IsSound z v c fresh k i)
  execute-IsSound (Command.transition_hold c) k i =
      outcome-IsSound _ (transition_hold-IsSound z v c k i)
  execute-IsSound (Command.record_effect c fresh) k i =
      outcome-IsSound _ (record_effect-IsSound z v c fresh k i)
  execute-IsSound (Command.record_effect_intent c fresh) k i =
      outcome-IsSound _ (record_effect_intent-IsSound z v c fresh k i)
  execute-IsSound (Command.begin_effect_execution c) k i =
      outcome-IsSound _ (begin_effect_execution-IsSound z v c k i)
  execute-IsSound (Command.reset_effect_execution c) k i =
      outcome-IsSound _ (reset_effect_execution-IsSound z v c k i)
  execute-IsSound (Command.close_effect c) k i = outcome-IsSound _ (close_effect-IsSound z v c k i)
  execute-IsSound (Command.cancel_effect_late c) k i =
      outcome-IsSound _ (cancel_effect_late-IsSound z v c k i)
  execute-IsSound (Command.deliver c fresh) k i =
      outcome-IsSound _ (deliver-IsSound z v c fresh k i)
  execute-IsSound (Command.confirm_delivery c) k i =
      outcome-IsSound _ (confirm_delivery-IsSound z v c k i)
  execute-IsSound (Command.propose_direction c) k i =
      outcome-IsSound _ (propose_direction-IsSound z v c k i)
  execute-IsSound (Command.resolve_direction c) k i =
      outcome-IsSound _ (resolve_direction-IsSound z v c k i)
  execute-IsSound (Command.issue_equip c fresh) k i =
      outcome-IsSound _ (issue_equip-IsSound z v c fresh k i)
  execute-IsSound (Command.submit_return c fresh) k i =
      outcome-IsSound _ (submit_return-IsSound z v c fresh k i)
  execute-IsSound (Command.start_run c) k i = outcome-IsSound _ (start_run-IsSound z v c k i)
  execute-IsSound (Command.transition_run c fresh) k i =
      outcome-IsSound _ (transition_run-IsSound z v c fresh k i)
  execute-IsSound (Command.open_intervention c) k i =
      outcome-IsSound _ (open_intervention-IsSound z v c k i)
  execute-IsSound (Command.close_intervention c) k i =
      outcome-IsSound _ (close_intervention-IsSound z v c k i)

  pub Reachable-IsSound : (k : Kernel) → Reachable z k → IsSound z v k
  Reachable-IsSound _ start = new_kernel-IsSound z v
  Reachable-IsSound _ (next c k r h) = execute-IsSound c k (Reachable-IsSound k r) h

  -- On a kernel that commands reach from the new one, none of them throwing, `rebuildProjection`
  -- accepts the log and replays it to exactly the live projection, with any observation validator.
  pub Reachable-rebuild_projection :
      (k : Kernel) → Reachable z k → rebuild_projection z v k ≡ Replay.ok k.draft
  Reachable-rebuild_projection k r = IsSound-rebuild_projection z v k (Reachable-IsSound k r)

  -- `fromEvents` of the log of a kernel that commands reach from the new one, none of them throwing,
  -- gives back that kernel: its history, its projection and its causal clock.
  pub Reachable-from_events : (k : Kernel) → Reachable z k → from_events z v k.history ≡ Replay.ok k
  Reachable-from_events k r = IsSound-from_events z v k (Reachable-IsSound k r)
