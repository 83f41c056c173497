-- ===== src/Kernel/Sound/Commands.antt =====
-- Every command that ends in one append leaves a sound kernel sound.
use navis.Base.{refl, String}
use navis.Schema.Platform.{Platform}
use navis.Kernel.Core.{Kernel}
use navis.Kernel.Log.{ObservationValidator}
use navis.Kernel.Sound.{IsSound}
use navis.Kernel.Sound.Steps.{
  Leaves, run-Leaves, pass, skip, guard_preconditions-Keeps, require_known_actor-Keeps,
  require_human-Keeps, append_then-Keeps, Known-MayAppend,
}
use navis.Kernel.Work.{
  create_work, CreateWorkCommand, cancel_work, CancelWorkCommand, redirect_work,
  RedirectWorkCommand,
}
use navis.Kernel.Hold.{register_hold, RegisterHoldCommand, transition_hold, TransitionHoldCommand}
use navis.Kernel.Asset.{create_asset, CreateAssetCommand}
use navis.Kernel.Effect.{
  record_effect, RecordEffectCommand, begin_effect_execution, BeginEffectExecutionCommand,
  reset_effect_execution, ResetEffectExecutionCommand, close_effect, CloseEffectCommand,
  cancel_effect_late, CancelEffectLateCommand,
}
use navis.Kernel.Delivery.{deliver, DeliverCommand, confirm_delivery, ConfirmDeliveryCommand}
use navis.Kernel.Project.{
  update_boundary, UpdateBoundaryCommand, update_policy, UpdatePolicyCommand,
}
use navis.Kernel.Direction.{
  propose_direction, ProposeDirectionCommand, resolve_direction, ResolveDirectionCommand,
}
use navis.Kernel.Run.{start_run, StartRunCommand, transition_run, TransitionRunCommand}
use navis.Kernel.Intervention.{
  open_intervention, OpenInterventionCommand, close_intervention, CloseInterventionCommand,
}

module _ (z : Platform) (v : ObservationValidator) where
  pub create_work-IsSound :
      (c : CreateWorkCommand) (fresh : String) (k : Kernel)
      → IsSound z v k
      → Leaves z v (create_work z c fresh k)
  unfolding create_work
  create_work-IsSound c fresh k i = run-Leaves z v k _ (
      guard_preconditions-Keeps z v _ c.actor k i
        (λ known. skip z v k _ _ i (
          skip z v k _ _ i (
            pass z v k _ _ i (λ _.
              append_then-Keeps z v k _ c.at _ _ i
                (Known-MayAppend k _ c.actor (λ _. refl) tt known)))))
        _ _ _ _)

  pub cancel_work-IsSound :
      (c : CancelWorkCommand) (k : Kernel) → IsSound z v k → Leaves z v (cancel_work z c k)
  unfolding cancel_work
  cancel_work-IsSound c k i = run-Leaves z v k _ (
      guard_preconditions-Keeps z v _ c.actor k i
        (λ known. skip z v k _ _ i (
          pass z v k _ _ i (λ _. skip z v k _ _ i (
            append_then-Keeps z v k _ c.at _ _ i
              (Known-MayAppend k _ c.actor (λ _. refl) tt known)))))
        _ _ _ _)

  pub redirect_work-IsSound :
      (c : RedirectWorkCommand) (fresh : String) (k : Kernel)
      → IsSound z v k
      → Leaves z v (redirect_work z c fresh k)
  unfolding redirect_work
  redirect_work-IsSound c fresh k i = run-Leaves z v k _ (
      guard_preconditions-Keeps z v _ c.actor k i
        (λ known. skip z v k _ _ i (
          skip z v k _ _ i (
            pass z v k _ _ i (λ _.
              append_then-Keeps z v k _ c.at _ _ i
                (Known-MayAppend k _ c.actor (λ _. refl) tt known)))))
        _ _ _ _)

  pub register_hold-IsSound :
      (c : RegisterHoldCommand) (fresh : String) (k : Kernel)
      → IsSound z v k
      → Leaves z v (register_hold z c fresh k)
  unfolding register_hold
  register_hold-IsSound c fresh k i = run-Leaves z v k _ (
      guard_preconditions-Keeps z v _ c.actor k i
        (λ known. skip z v k _ _ i (
          skip z v k _ _ i (
            pass z v k _ _ i (λ _. skip z v k _ _ i (
              append_then-Keeps z v k _ c.at _ _ i
                (Known-MayAppend k _ c.actor (λ _. refl) tt known))))))
        _ _ _ _)

  pub transition_hold-IsSound :
      (c : TransitionHoldCommand) (k : Kernel) → IsSound z v k → Leaves z v (transition_hold z c k)
  unfolding transition_hold
  transition_hold-IsSound c k i = run-Leaves z v k _ (
      guard_preconditions-Keeps z v _ c.actor k i
        (λ known. skip z v k _ _ i (
          pass z v k _ _ i (λ _. pass z v k _ _ i (λ _. skip z v k _ _ i (
            skip z v k _ _ i (
              append_then-Keeps z v k _ c.at _ _ i
                (Known-MayAppend k _ c.actor (λ _. refl) tt known)))))))
        _ _ _ _)

  pub create_asset-IsSound :
      (c : CreateAssetCommand) (fresh : String) (k : Kernel)
      → IsSound z v k
      → Leaves z v (create_asset z c fresh k)
  unfolding create_asset
  create_asset-IsSound c fresh k i = run-Leaves z v k _ (
      guard_preconditions-Keeps z v _ c.actor k i
        (λ known. skip z v k _ _ i (
          pass z v k _ _ i (λ _. skip z v k _ _ i (
            skip z v k _ _ i (
              append_then-Keeps z v k _ c.at _ _ i
                (Known-MayAppend k _ c.actor (λ _. refl) tt known))))))
        _ _ _ _)

  pub record_effect-IsSound :
      (c : RecordEffectCommand) (fresh : String) (k : Kernel)
      → IsSound z v k
      → Leaves z v (record_effect z c fresh k)
  unfolding record_effect
  record_effect-IsSound c fresh k i = run-Leaves z v k _ (
      guard_preconditions-Keeps z v _ c.actor k i
        (λ known.
          skip z v k _ _ i (
            append_then-Keeps z v k _ c.at _ _ i
              (Known-MayAppend k _ c.actor (λ _. refl) tt known)))
        _ _ _ _)

  pub begin_effect_execution-IsSound :
      (c : BeginEffectExecutionCommand) (k : Kernel)
      → IsSound z v k
      → Leaves z v (begin_effect_execution z c k)
  unfolding begin_effect_execution
  begin_effect_execution-IsSound c k i = run-Leaves z v k _ (
      guard_preconditions-Keeps z v _ c.actor k i
        (λ known. skip z v k _ _ i (
          pass z v k _ _ i (λ _. skip z v k _ _ i (
            append_then-Keeps z v k _ c.at _ _ i
              (Known-MayAppend k _ c.actor (λ _. refl) tt known)))))
        _ _ _ _)

  pub reset_effect_execution-IsSound :
      (c : ResetEffectExecutionCommand) (k : Kernel)
      → IsSound z v k
      → Leaves z v (reset_effect_execution z c k)
  unfolding reset_effect_execution
  reset_effect_execution-IsSound c k i = run-Leaves z v k _ (
      guard_preconditions-Keeps z v _ c.actor k i
        (λ known. skip z v k _ _ i (
          pass z v k _ _ i (λ _. skip z v k _ _ i (
            append_then-Keeps z v k _ c.at _ _ i
              (Known-MayAppend k _ c.actor (λ _. refl) tt known)))))
        _ _ _ _)

  pub close_effect-IsSound :
      (c : CloseEffectCommand) (k : Kernel) → IsSound z v k → Leaves z v (close_effect z c k)
  unfolding close_effect
  close_effect-IsSound c k i = run-Leaves z v k _ (
      guard_preconditions-Keeps z v _ c.actor k i
        (λ known. skip z v k _ _ i (
          pass z v k _ _ i (λ _. skip z v k _ _ i (
            skip z v k _ _ i (
              skip z v k _ _ i (
                append_then-Keeps z v k _ c.at _ _ i
                  (Known-MayAppend k _ c.actor (λ _. refl) tt known)))))))
        _ _ _ _)

  pub cancel_effect_late-IsSound :
      (c : CancelEffectLateCommand) (k : Kernel)
      → IsSound z v k
      → Leaves z v (cancel_effect_late z c k)
  unfolding cancel_effect_late
  cancel_effect_late-IsSound c k i = run-Leaves z v k _ (
      guard_preconditions-Keeps z v _ c.actor k i
        (λ known. skip z v k _ _ i (
          pass z v k _ _ i (λ _. skip z v k _ _ i (
            skip z v k _ _ i (
              append_then-Keeps z v k _ c.at _ _ i
                (Known-MayAppend k _ c.actor (λ _. refl) tt known))))))
        _ _ _ _)

  pub deliver-IsSound :
      (c : DeliverCommand) (fresh : String) (k : Kernel)
      → IsSound z v k
      → Leaves z v (deliver z c fresh k)
  unfolding deliver
  deliver-IsSound c fresh k i = run-Leaves z v k _ (
      guard_preconditions-Keeps z v _ c.actor k i
        (λ known. skip z v k _ _ i (
          skip z v k _ _ i (
            skip z v k _ _ i (
              pass z v k _ _ i (λ _. skip z v k _ _ i (
                skip z v k _ _ i (
                  skip z v k _ _ i (
                    append_then-Keeps z v k _ c.at _ _ i
                      (Known-MayAppend k _ c.actor (λ _. refl) tt known)))))))))
        _ _ _ _)

  pub confirm_delivery-IsSound :
      (c : ConfirmDeliveryCommand) (k : Kernel)
      → IsSound z v k
      → Leaves z v (confirm_delivery z c k)
  unfolding confirm_delivery
  confirm_delivery-IsSound c k i = run-Leaves z v k _ (
      guard_preconditions-Keeps z v _ c.actor k i
        (λ known. skip z v k _ _ i (
          pass z v k _ _ i (λ _. skip z v k _ _ i (
            append_then-Keeps z v k _ c.at _ _ i
              (Known-MayAppend k _ c.actor (λ _. refl) tt known)))))
        _ _ _ _)

  pub update_boundary-IsSound :
      (c : UpdateBoundaryCommand) (k : Kernel) → IsSound z v k → Leaves z v (update_boundary z c k)
  unfolding update_boundary
  update_boundary-IsSound c k i = run-Leaves z v k _ (
      guard_preconditions-Keeps z v _ c.actor k i
        (λ known. skip z v k _ _ i (
          skip z v k _ _ i (
            append_then-Keeps z v k _ c.at _ _ i
              (Known-MayAppend k _ c.actor (λ _. refl) tt known))))
        _ _ _ _)

  pub update_policy-IsSound :
      (c : UpdatePolicyCommand) (k : Kernel) → IsSound z v k → Leaves z v (update_policy z c k)
  unfolding update_policy
  update_policy-IsSound c k i = run-Leaves z v k _ (
      guard_preconditions-Keeps z v _ c.actor k i
        (λ known. skip z v k _ _ i (
          skip z v k _ _ i (
            append_then-Keeps z v k _ c.at _ _ i
              (Known-MayAppend k _ c.actor (λ _. refl) tt known))))
        _ _ _ _)

  pub propose_direction-IsSound :
      (c : ProposeDirectionCommand) (k : Kernel)
      → IsSound z v k
      → Leaves z v (propose_direction z c k)
  unfolding propose_direction
  propose_direction-IsSound c k i = run-Leaves z v k _ (
      require_known_actor-Keeps z v _ c.actor k i
        (λ known. pass z v k _ _ i (λ _. skip z v k _ _ i (
          skip z v k _ _ i (
            skip z v k _ _ i (
              skip z v k _ _ i (
                append_then-Keeps z v k _ c.at _ _ i
                  (Known-MayAppend k _ c.actor (λ _. refl) tt known)))))))
        _)

  pub resolve_direction-IsSound :
      (c : ResolveDirectionCommand) (k : Kernel)
      → IsSound z v k
      → Leaves z v (resolve_direction z c k)
  unfolding resolve_direction
  resolve_direction-IsSound c k i = run-Leaves z v k _ (
      require_human-Keeps z v _ c.actor k i
        (λ known. skip z v k _ _ i (
          pass z v k _ _ i (λ _. skip z v k _ _ i (
            skip z v k _ _ i (
              skip z v k _ _ i (
                append_then-Keeps z v k _ c.at _ _ i
                  (Known-MayAppend k _ c.actor (λ _. refl) tt known)))))))
        _)

  pub start_run-IsSound :
      (c : StartRunCommand) (k : Kernel) → IsSound z v k → Leaves z v (start_run z c k)
  unfolding start_run
  start_run-IsSound c k i = run-Leaves z v k _ (
      require_known_actor-Keeps z v _ c.actor k i
        (λ known. skip z v k _ _ i (
          skip z v k _ _ i (
            skip z v k _ _ i (
              skip z v k _ _ i (
                pass z v k _ _ i (λ _. skip z v k _ _ i (
                  skip z v k _ _ i (
                    pass z v k _ _ i (λ _.
                      append_then-Keeps z v k _ c.at _ _ i
                        (Known-MayAppend k _ c.actor (λ _. refl) tt known))))))))))
        _)

  pub transition_run-IsSound :
      (c : TransitionRunCommand) (fresh : String) (k : Kernel)
      → IsSound z v k
      → Leaves z v (transition_run z c fresh k)
  unfolding transition_run
  transition_run-IsSound c fresh k i = run-Leaves z v k _ (
      require_known_actor-Keeps z v _ c.actor k i
        (λ known. pass z v k _ _ i (λ _. skip z v k _ _ i (
          skip z v k _ _ i (
            skip z v k _ _ i (
              skip z v k _ _ i (
                skip z v k _ _ i (
                  skip z v k _ _ i (
                    skip z v k _ _ i (
                      append_then-Keeps z v k _ c.at _ _ i
                        (Known-MayAppend k _ c.actor (λ _. refl) tt known))))))))))
        _)

  pub open_intervention-IsSound :
      (c : OpenInterventionCommand) (k : Kernel)
      → IsSound z v k
      → Leaves z v (open_intervention z c k)
  unfolding open_intervention
  open_intervention-IsSound c k i = run-Leaves z v k _ (
      pass z v k _ _ i (λ _.
        require_known_actor-Keeps z v _ c.actor k i
          (λ known. skip z v k _ _ i (
            skip z v k _ _ i (
              skip z v k _ _ i (
                skip z v k _ _ i (
                  skip z v k _ _ i (
                    append_then-Keeps z v k _ c.at _ _ i
                      (Known-MayAppend k _ c.actor (λ _. refl) tt known)))))))
          _))

  pub close_intervention-IsSound :
      (c : CloseInterventionCommand) (k : Kernel)
      → IsSound z v k
      → Leaves z v (close_intervention z c k)
  unfolding close_intervention
  close_intervention-IsSound c k i = run-Leaves z v k _ (
      pass z v k _ _ i (λ _.
        require_known_actor-Keeps z v _ c.actor k i
          (λ known. skip z v k _ _ i (
            skip z v k _ _ i (
              skip z v k _ _ i (
                pass z v k _ _ i (λ _. skip z v k _ _ i (
                  pass z v k _ _ i (λ _.
                    append_then-Keeps z v k _ c.at _ _ i
                      (Known-MayAppend k _ c.actor (λ _. refl) tt known))))))))
          _))
