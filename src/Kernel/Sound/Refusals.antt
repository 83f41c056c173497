-- ===== src/Kernel/Sound/Refusals.antt =====
-- A command that refuses writes nothing, but for the two that record their refusal.
use navis.Base.{
  ◌≡◌, refl, arith, Bool, true, false, String, Option, none, some, List, [], ◌∷◌, if◌then◌else◌,
  ◌==◌, string_eq, values,
}
use navis.Schema.Platform.{Platform}
use navis.Schema.Vocabulary.{ProjectStatus, project_status_eq, AcceptanceResult}
use navis.Schema.Ledgers.{EffectStatus, effect_status_eq}
use navis.State.Rows.{Projection, WorkRow, HoldRow, EffectRow}
use navis.State.Events.{EventData}
use navis.Kernel.Core.{
  Kernel, Outcome, ok, refused, threw, ◌>>=◌, ◌>>◌, Exec, then_run, run, append, append_then,
}
use navis.Kernel.Sound.Steps.{append-not_refused}
use navis.Kernel.Sound.Reach.{Command, execute, has_refused, outcome}
use navis.Kernel.Project.{
  register_participant, RegisterParticipantCommand, create_project, CreateProjectCommand,
  update_boundary, UpdateBoundaryCommand, update_policy, UpdatePolicyCommand, set_project_status,
  SetProjectStatusCommand, cancel_works, invalidate_holds, archive_closure, status_append,
}
use navis.Kernel.Work.{
  create_work, CreateWorkCommand, cancel_work, CancelWorkCommand, redirect_work,
  RedirectWorkCommand,
}
use navis.Kernel.Asset.{
  create_asset, CreateAssetCommand, transition_asset, TransitionAssetCommand, accept_asset,
  AcceptAssetCommand, record_acceptance, apply_verdict, accept_act, Rationale,
}
use navis.Kernel.Hold.{register_hold, RegisterHoldCommand, transition_hold, TransitionHoldCommand}
use navis.Kernel.Effect.{
  record_effect, RecordEffectCommand, record_effect_intent, RecordEffectIntentCommand,
  begin_effect_execution, BeginEffectExecutionCommand, reset_effect_execution,
  ResetEffectExecutionCommand, close_effect, CloseEffectCommand, cancel_effect_late,
  CancelEffectLateCommand, intent_act, find_intent,
}
use navis.Kernel.Delivery.{deliver, DeliverCommand, confirm_delivery, ConfirmDeliveryCommand}
use navis.Kernel.Direction.{
  propose_direction, ProposeDirectionCommand, resolve_direction, ResolveDirectionCommand,
}
use navis.Kernel.Run.{start_run, StartRunCommand, transition_run, TransitionRunCommand}
use navis.Kernel.Intervention.{
  open_intervention, OpenInterventionCommand, close_intervention, CloseInterventionCommand,
}

-- the commands that write before they refuse
abbrev pub records_refusal : Command → Bool
records_refusal (Command.issue_equip c fresh) = true
records_refusal (Command.submit_return c fresh) = true
records_refusal _ = false

-- a step that ends in no refusal
record Never {A : Type 0} (r : Outcome A × Kernel) : Type 0 where
  pub never : has_refused (outcome r).0 ≡ false

-- a step that, where it refuses, leaves the kernel as it was
record Quiet {A : Type 0} (k : Kernel) (r : Outcome A × Kernel) : Type 0 where
  pub quiet : has_refused (outcome r).0 ≡ true → (outcome r).1 ≡ k

-- a chain of guards that is quiet when it is run
record Guarded {A : Type 0} (k : Kernel) (o : Outcome (Exec A)) : Type 0 where
  pub guarded : Quiet k (run o k)

pass {ℓ} :
    {A : Type 0} {X : Type ℓ} (k : Kernel) (m : Outcome X) (f : X → Outcome (Exec A))
    → ((x : X) → Guarded k (f x))
    → Guarded k (m >>= f)
unfolding ◌>>=◌
pass k (ok x) f h = h x
pass k (refused r) f h = record { guarded = record { quiet = λ _. refl } }
pass k (threw e) f h = record { guarded = record { quiet = λ q. cc } }

skip :
    {A : Type 0} (k : Kernel) (m : Outcome (Unit {0})) (n : Outcome (Exec A))
    → Guarded k n
    → Guarded k (m >> n)
unfolding ◌>>◌
skip k m n h = pass k m (λ _. n) (λ _. h)

act_go : {A : Type 0} (k : Kernel) (r : Outcome A × Kernel) → Never r → Quiet k r
act_go k (ok a, l) h = record { quiet = λ q. cc }
act_go k (refused r, l) h = record { quiet = λ q. absurd (ground (arith, h.never)) }
act_go k (threw e, l) h = record { quiet = λ q. cc }

act : {A : Type 0} (k : Kernel) (m : Exec A) → Never (m k) → Guarded k (ok m)
act k m h = record { guarded = act_go k (m k) h }

append-Never :
    (z : Platform) (k : Kernel) (body : EventData) (at : String) (actor : Option String)
    → Never (append z body at actor k)
append-Never z k body at actor = go (append z body at actor k) refl
  where
    go : (r : Outcome (Unit {0}) × Kernel) → append z body at actor k ≡ r → Never r
    go (ok _, l) e = record { never = refl }
    go (refused r, l) e = absurd (append-not_refused z k l body at actor r e)
    go (threw f, l) e = record { never = refl }

then_run-Never :
    {A : Type 0} (r : Outcome (Unit {0}) × Kernel) (m : Exec A)
    → Never r
    → ((l : Kernel) → Never (m l))
    → Never (then_run r m)
then_run-Never (ok _, l) m h g = g l
then_run-Never (refused r, l) m h g = absurd (ground (arith, h.never))
then_run-Never (threw e, l) m h g = record { never = refl }

append_then-Guarded :
    (z : Platform) {A : Type 0} (k : Kernel) (body : EventData) (at : String)
    (actor : Option String) (read : Projection → A)
    → Guarded k (ok (append_then z body at actor read))
append_then-Guarded z k body at actor read = act k (append_then z body at actor read) (
    then_run-Never (append z body at actor k) _ (append-Never z k body at actor)
      (λ l. record { never = refl }))

if-Never :
    {A : Type 0} (b : Bool) (m n : Outcome A × Kernel)
    → Never m
    → Never n
    → Never (if b then m else n)
if-Never true m n x y = x
if-Never false m n x y = y

if-Guarded :
    {A : Type 0} (k : Kernel) (b : Bool) (m n : Outcome (Exec A))
    → Guarded k m
    → Guarded k n
    → Guarded k (if b then m else n)
if-Guarded k true m n x y = x
if-Guarded k false m n x y = y

module _ (z : Platform) where
  cancel_works-Never :
      (c : SetProjectStatusCommand) (cause : String) (ws : List WorkRow) (k : Kernel)
      → Never (cancel_works z c cause ws k)
  unfolding cancel_works
  cancel_works-Never c cause [] k = record { never = refl }
  cancel_works-Never c cause (w ∷ ws) k =
      if-Never _ _ _ (cancel_works-Never c cause ws k)
        (then_run-Never _ _ (append-Never z k _ c.at _) (cancel_works-Never c cause ws))

  invalidate_holds-Never :
      (c : SetProjectStatusCommand) (cause : String) (hs : List HoldRow) (k : Kernel)
      → Never (invalidate_holds z c cause hs k)
  unfolding invalidate_holds
  invalidate_holds-Never c cause [] k = record { never = refl }
  invalidate_holds-Never c cause (h ∷ hs) k =
      if-Never _ _ _ (invalidate_holds-Never c cause hs k)
        (then_run-Never _ _ (append-Never z k _ c.at _) (invalidate_holds-Never c cause hs))

  status_act-Never :
      (c : SetProjectStatusCommand) (from : ProjectStatus) (b : Bool) (k : Kernel)
      → Never (
          if b
          then then_run (archive_closure z c k) (status_append z c from)
          else status_append z c from k)
  unfolding archive_closure
  status_act-Never c from true k =
      then_run-Never _ _
        (then_run-Never _ _ (cancel_works-Never c _ (values k.draft.works) k)
          (λ l. invalidate_holds-Never c _ (values l.draft.holds) l))
        (λ l. then_run-Never _ _ (append-Never z l _ c.at _) (λ m. record { never = refl }))
  status_act-Never c from false k =
      then_run-Never _ _ (append-Never z k _ c.at _) (λ m. record { never = refl })

  record_acceptance-Never :
      (c : AcceptAssetCommand) (fresh : String) (r : Rationale) (k : Kernel)
      → Never (record_acceptance z c fresh r k)
  unfolding record_acceptance
  record_acceptance-Never c fresh Rationale.null k = record { never = refl }
  record_acceptance-Never c fresh Rationale.absent k = append-Never z k _ c.at _
  record_acceptance-Never c fresh (Rationale.written t) k = append-Never z k _ c.at _

  apply_verdict-Never :
      (c : AcceptAssetCommand) (r : AcceptanceResult) (k : Kernel) → Never (apply_verdict z c r k)
  unfolding apply_verdict
  apply_verdict-Never c AcceptanceResult.accepted k = append-Never z k _ c.at _
  apply_verdict-Never c AcceptanceResult.rejected k = append-Never z k _ c.at _
  apply_verdict-Never c AcceptanceResult.conditional k = record { never = refl }

  accept_act-Never :
      (c : AcceptAssetCommand) (fresh : String) (k : Kernel) → Never (accept_act z c fresh k)
  accept_act-Never c fresh k =
      then_run-Never _ _ (record_acceptance-Never c fresh c.rationale k)
        (λ l. then_run-Never _ _ (apply_verdict-Never c c.result l) (λ m. record { never = refl }))

  intent-Guarded :
      (c : RecordEffectIntentCommand) (fresh : String) (k : Kernel) (found : Option EffectRow)
      → Guarded k (intent_act z c fresh found)
  intent-Guarded c fresh k none = append_then-Guarded z k _ c.at _ _
  intent-Guarded c fresh k (some row) =
      if-Guarded k (row.status == EffectStatus.unknown) _ _
        (act k (λ l. (ok (some row), l)) (record { never = refl }))
        (record { guarded = record { quiet = λ _. refl } })

  register_participant-Quiet :
      (c : RegisterParticipantCommand) (k : Kernel) → Quiet k (register_participant z c k)
  unfolding register_participant
  register_participant-Quiet c k =
      (skip k _ _ (skip k _ _ (append_then-Guarded z k _ c.at _ _))).guarded

  create_project-Quiet :
      (c : CreateProjectCommand) (fresh : String) (k : Kernel)
      → Quiet k (create_project z c fresh k)
  unfolding create_project
  create_project-Quiet c fresh k =
      (skip k _ _
        (skip k _ _ (skip k _ _ (skip k _ _ (append_then-Guarded z k _ c.at _ _))))).guarded

  update_boundary-Quiet : (c : UpdateBoundaryCommand) (k : Kernel) → Quiet k (update_boundary z c k)
  unfolding update_boundary
  update_boundary-Quiet c k =
      (skip k _ _ (skip k _ _ (skip k _ _ (append_then-Guarded z k _ c.at _ _)))).guarded

  update_policy-Quiet : (c : UpdatePolicyCommand) (k : Kernel) → Quiet k (update_policy z c k)
  unfolding update_policy
  update_policy-Quiet c k =
      (skip k _ _ (skip k _ _ (skip k _ _ (append_then-Guarded z k _ c.at _ _)))).guarded

  set_project_status-Quiet :
      (c : SetProjectStatusCommand) (k : Kernel) → Quiet k (set_project_status z c k)
  unfolding set_project_status
  set_project_status-Quiet c k =
      (skip k _ _ (
        skip k _ _ (
          skip k _ _ (
            pass k _ _ (λ p. skip k _ _ (
              skip k _ _ (
                skip k _ _ (
                  act k _
                    (status_act-Never c p.status (c.to == ProjectStatus.archived) k))))))))).guarded

  create_work-Quiet :
      (c : CreateWorkCommand) (fresh : String) (k : Kernel) → Quiet k (create_work z c fresh k)
  unfolding create_work
  create_work-Quiet c fresh k =
      (skip k _ _
        (skip k _ _ (skip k _ _ (pass k _ _ (λ _. append_then-Guarded z k _ c.at _ _))))).guarded

  cancel_work-Quiet : (c : CancelWorkCommand) (k : Kernel) → Quiet k (cancel_work z c k)
  unfolding cancel_work
  cancel_work-Quiet c k =
      (skip k _ _
        (skip k _ _ (pass k _ _ (λ _. skip k _ _ (append_then-Guarded z k _ c.at _ _))))).guarded

  redirect_work-Quiet :
      (c : RedirectWorkCommand) (fresh : String) (k : Kernel) → Quiet k (redirect_work z c fresh k)
  unfolding redirect_work
  redirect_work-Quiet c fresh k =
      (skip k _ _
        (skip k _ _ (skip k _ _ (pass k _ _ (λ _. append_then-Guarded z k _ c.at _ _))))).guarded

  create_asset-Quiet :
      (c : CreateAssetCommand) (fresh : String) (k : Kernel) → Quiet k (create_asset z c fresh k)
  unfolding create_asset
  create_asset-Quiet c fresh k =
      (skip k _ _ (
        skip k _ _
          (pass k _ _ (λ _. skip k _ _ (skip k _ _ (append_then-Guarded z k _ c.at _ _)))))).guarded

  transition_asset-Quiet :
      (c : TransitionAssetCommand) (k : Kernel) → Quiet k (transition_asset z c k)
  unfolding transition_asset
  transition_asset-Quiet c k =
      (skip k _ _ (
        skip k _ _ (
          pass k _ _ (λ e. skip k _ _ (
            skip k _ _
              (skip k _ _ (pass k _ _ (λ e. append_then-Guarded z k e c.at _ _)))))))).guarded

  accept_asset-Quiet :
      (c : AcceptAssetCommand) (fresh : String) (k : Kernel) → Quiet k (accept_asset z c fresh k)
  unfolding accept_asset
  accept_asset-Quiet c fresh k =
      (skip k _ _ (
        skip k _ _ (
          pass k _ _ (λ _. skip k _ _ (
            skip k _ _
              (skip k _ _ (act k (accept_act z c fresh) (accept_act-Never c fresh k)))))))).guarded

  register_hold-Quiet :
      (c : RegisterHoldCommand) (fresh : String) (k : Kernel) → Quiet k (register_hold z c fresh k)
  unfolding register_hold
  register_hold-Quiet c fresh k =
      (skip k _ _ (
        skip k _ _
          (skip k _ _ (pass k _ _ (λ _. skip k _ _ (append_then-Guarded z k _ c.at _ _)))))).guarded

  transition_hold-Quiet : (c : TransitionHoldCommand) (k : Kernel) → Quiet k (transition_hold z c k)
  unfolding transition_hold
  transition_hold-Quiet c k =
      (skip k _ _ (
        skip k _ _ (
          pass k _ _ (λ _.
            pass k _ _
              (λ _. skip k _ _ (skip k _ _ (append_then-Guarded z k _ c.at _ _))))))).guarded

  record_effect-Quiet :
      (c : RecordEffectCommand) (fresh : String) (k : Kernel) → Quiet k (record_effect z c fresh k)
  unfolding record_effect
  record_effect-Quiet c fresh k =
      (skip k _ _ (skip k _ _ (append_then-Guarded z k _ c.at _ _))).guarded

  record_effect_intent-Quiet :
      (c : RecordEffectIntentCommand) (fresh : String) (k : Kernel)
      → Quiet k (record_effect_intent z c fresh k)
  unfolding record_effect_intent
  record_effect_intent-Quiet c fresh k =
      (skip k _ _
        (skip k _ _ (intent-Guarded c fresh k (find_intent k.draft.effects c.intent_key)))).guarded

  begin_effect_execution-Quiet :
      (c : BeginEffectExecutionCommand) (k : Kernel) → Quiet k (begin_effect_execution z c k)
  unfolding begin_effect_execution
  begin_effect_execution-Quiet c k =
      (skip k _ _
        (skip k _ _ (pass k _ _ (λ _. skip k _ _ (append_then-Guarded z k _ c.at _ _))))).guarded

  reset_effect_execution-Quiet :
      (c : ResetEffectExecutionCommand) (k : Kernel) → Quiet k (reset_effect_execution z c k)
  unfolding reset_effect_execution
  reset_effect_execution-Quiet c k =
      (skip k _ _
        (skip k _ _ (pass k _ _ (λ _. skip k _ _ (append_then-Guarded z k _ c.at _ _))))).guarded

  close_effect-Quiet : (c : CloseEffectCommand) (k : Kernel) → Quiet k (close_effect z c k)
  unfolding close_effect
  close_effect-Quiet c k =
      (skip k _ _ (
        skip k _ _ (
          pass k _ _ (λ _.
            skip k _ _ (skip k _ _ (skip k _ _ (append_then-Guarded z k _ c.at _ _))))))).guarded

  cancel_effect_late-Quiet :
      (c : CancelEffectLateCommand) (k : Kernel) → Quiet k (cancel_effect_late z c k)
  unfolding cancel_effect_late
  cancel_effect_late-Quiet c k =
      (skip k _ _ (
        skip k _ _
          (pass k _ _ (λ _. skip k _ _ (skip k _ _ (append_then-Guarded z k _ c.at _ _)))))).guarded

  deliver-Quiet : (c : DeliverCommand) (fresh : String) (k : Kernel) → Quiet k (deliver z c fresh k)
  unfolding deliver
  deliver-Quiet c fresh k =
      (skip k _ _ (
        skip k _ _ (
          skip k _ _ (
            skip k _ _ (
              pass k _ _ (λ _.
                skip k _ _
                  (skip k _ _ (skip k _ _ (append_then-Guarded z k _ c.at _ _))))))))).guarded

  confirm_delivery-Quiet :
      (c : ConfirmDeliveryCommand) (k : Kernel) → Quiet k (confirm_delivery z c k)
  unfolding confirm_delivery
  confirm_delivery-Quiet c k =
      (skip k _ _
        (skip k _ _ (pass k _ _ (λ _. skip k _ _ (append_then-Guarded z k _ c.at _ _))))).guarded

  propose_direction-Quiet :
      (c : ProposeDirectionCommand) (k : Kernel) → Quiet k (propose_direction z c k)
  unfolding propose_direction
  propose_direction-Quiet c k =
      (skip k _ _ (
        pass k _ _ (λ _.
          skip k _ _
            (skip k _ _ (skip k _ _ (skip k _ _ (append_then-Guarded z k _ c.at _ _))))))).guarded

  resolve_direction-Quiet :
      (c : ResolveDirectionCommand) (k : Kernel) → Quiet k (resolve_direction z c k)
  unfolding resolve_direction
  resolve_direction-Quiet c k =
      (skip k _ _ (
        skip k _ _ (
          pass k _ _ (λ _.
            skip k _ _ (skip k _ _ (skip k _ _ (append_then-Guarded z k _ c.at _ _))))))).guarded

  start_run-Quiet : (c : StartRunCommand) (k : Kernel) → Quiet k (start_run z c k)
  unfolding start_run
  start_run-Quiet c k =
      (skip k _ _ (
        skip k _ _ (
          skip k _ _ (
            skip k _ _ (
              skip k _ _ (
                pass k _ _ (λ _.
                  skip k _ _ (
                    skip k _ _
                      (pass k _ _ (λ _. append_then-Guarded z k _ c.at _ _)))))))))).guarded

  transition_run-Quiet :
      (c : TransitionRunCommand) (fresh : String) (k : Kernel)
      → Quiet k (transition_run z c fresh k)
  unfolding transition_run
  transition_run-Quiet c fresh k =
      (skip k _ _ (
        pass k _ _ (λ _. skip k _ _ (
          skip k _ _ (
            skip k _ _ (
              skip k _ _ (
                skip k _ _
                  (skip k _ _ (skip k _ _ (append_then-Guarded z k _ c.at _ _)))))))))).guarded

  open_intervention-Quiet :
      (c : OpenInterventionCommand) (k : Kernel) → Quiet k (open_intervention z c k)
  unfolding open_intervention
  open_intervention-Quiet c k =
      (pass k _ _ (λ _. skip k _ _ (
        skip k _ _ (
          skip k _ _
            (skip k _ _ (skip k _ _ (skip k _ _ (append_then-Guarded z k _ c.at _ _)))))))).guarded

  close_intervention-Quiet :
      (c : CloseInterventionCommand) (k : Kernel) → Quiet k (close_intervention z c k)
  unfolding close_intervention
  close_intervention-Quiet c k =
      (pass k _ _ (λ _. skip k _ _ (
        skip k _ _ (
          skip k _ _ (
            skip k _ _ (
              pass k _ _ (λ _.
                skip k _ _ (pass k _ _ (λ _. append_then-Guarded z k _ c.at _ _))))))))).guarded

  -- A command that refuses leaves the kernel as it was, history, projection and clock: every command
  -- but `issueEquip` and `submitReturn`, which record the refusal.
  pub execute-refused :
      (c : Command) (k : Kernel)
      → records_refusal c ≡ false
      → has_refused (execute z c k).0 ≡ true
      → (execute z c k).1 ≡ k
  unfolding execute
  execute-refused (Command.register_participant c) k s h = (register_participant-Quiet c k).quiet h
  execute-refused (Command.create_project c fresh) k s h = (create_project-Quiet c fresh k).quiet h
  execute-refused (Command.update_boundary c) k s h = (update_boundary-Quiet c k).quiet h
  execute-refused (Command.update_policy c) k s h = (update_policy-Quiet c k).quiet h
  execute-refused (Command.set_project_status c) k s h = (set_project_status-Quiet c k).quiet h
  execute-refused (Command.create_work c fresh) k s h = (create_work-Quiet c fresh k).quiet h
  execute-refused (Command.cancel_work c) k s h = (cancel_work-Quiet c k).quiet h
  execute-refused (Command.redirect_work c fresh) k s h = (redirect_work-Quiet c fresh k).quiet h
  execute-refused (Command.create_asset c fresh) k s h = (create_asset-Quiet c fresh k).quiet h
  execute-refused (Command.transition_asset c) k s h = (transition_asset-Quiet c k).quiet h
  execute-refused (Command.accept_asset c fresh) k s h = (accept_asset-Quiet c fresh k).quiet h
  execute-refused (Command.register_hold c fresh) k s h = (register_hold-Quiet c fresh k).quiet h
  execute-refused (Command.transition_hold c) k s h = (transition_hold-Quiet c k).quiet h
  execute-refused (Command.record_effect c fresh) k s h = (record_effect-Quiet c fresh k).quiet h
  execute-refused (Command.record_effect_intent c fresh) k s h =
      (record_effect_intent-Quiet c fresh k).quiet h
  execute-refused (Command.begin_effect_execution c) k s h =
      (begin_effect_execution-Quiet c k).quiet h
  execute-refused (Command.reset_effect_execution c) k s h =
      (reset_effect_execution-Quiet c k).quiet h
  execute-refused (Command.close_effect c) k s h = (close_effect-Quiet c k).quiet h
  execute-refused (Command.cancel_effect_late c) k s h = (cancel_effect_late-Quiet c k).quiet h
  execute-refused (Command.deliver c fresh) k s h = (deliver-Quiet c fresh k).quiet h
  execute-refused (Command.confirm_delivery c) k s h = (confirm_delivery-Quiet c k).quiet h
  execute-refused (Command.propose_direction c) k s h = (propose_direction-Quiet c k).quiet h
  execute-refused (Command.resolve_direction c) k s h = (resolve_direction-Quiet c k).quiet h
  execute-refused (Command.issue_equip c fresh) k s h = cc
  execute-refused (Command.submit_return c fresh) k s h = cc
  execute-refused (Command.start_run c) k s h = (start_run-Quiet c k).quiet h
  execute-refused (Command.transition_run c fresh) k s h = (transition_run-Quiet c fresh k).quiet h
  execute-refused (Command.open_intervention c) k s h = (open_intervention-Quiet c k).quiet h
  execute-refused (Command.close_intervention c) k s h = (close_intervention-Quiet c k).quiet h
