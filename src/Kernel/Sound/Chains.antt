-- ===== src/Kernel/Sound/Chains.antt =====
-- The commands with a first registration, with more than one append, or with an append on two
-- paths leave a sound kernel sound.
use navis.Base.{
  ◌≡◌, refl, ap, subst, true, false, Bool, ◌==◌, ltb, string_eq, nat_eq, eq_iff, ℕ, String, Option,
  none, some, List, [], ◌∷◌, lookup, arith, if◌then◌else◌, get_or_else, values,
}
use navis.Schema.Platform.{Platform}
use navis.Schema.Vocabulary.{ProjectStatus, project_status_eq, AcceptanceResult}
use navis.Schema.Ledgers.{EffectStatus, effect_status_eq}
use navis.Schema.Errors.{Refusal}
use navis.Schema.Asset.{Target}
use navis.State.Rows.{Projection, WorkRow, HoldRow, EffectRow, AssetRow, EquipRow}
use navis.State.Events.{EventData, AssetSeed, EffectSeed}
use navis.State.Apply.Frame.{registers, IsFirst, apply_event-participants}
use navis.Kernel.Core.{
  Kernel, Outcome, ok, refused, threw, ◌>>◌, refuse_if, Exec, then_run, append, next_event,
  state_version,
}
use navis.Kernel.Asset.{accept_act}
use navis.Kernel.Project.{status_append}
use navis.Kernel.Return.{is_concurrent}
use navis.Kernel.Log.{ObservationValidator}
use navis.Kernel.Sound.{IsSound, MayAppend, append-IsWritten, append-IsSound}
use navis.Kernel.Sound.Steps.{
  Leaves, Keeps, Known, is_thrown, append-not_refused, run-Leaves, pass, skip, bind-Keeps,
  guard-Keeps, act-Keeps, append-Leaves, then_run-Leaves, append_then-Leaves, refused-Leaves,
  guard_preconditions-Keeps, require_known_actor-Keeps, require_human-Keeps, append_then-Keeps,
  Known-MayAppend,
}
use navis.Kernel.Project.{
  register_participant, RegisterParticipantCommand, create_project, CreateProjectCommand,
  set_project_status, SetProjectStatusCommand, archive_closure, cancel_works, invalidate_holds,
}
use navis.Kernel.Effect.{record_effect_intent, RecordEffectIntentCommand, find_intent, intent_act}
use navis.Kernel.Asset.{
  transition_asset, TransitionAssetCommand, accept_asset, AcceptAssetCommand, record_acceptance,
  apply_verdict, Rationale, event_to,
}
use navis.Kernel.Equip.{
  issue_equip, IssueEquipCommand, over_budget, issue, equip_size_budget, verified_facts,
}
use navis.Kernel.Return.{
  submit_return, SubmitReturnCommand, Judged, is_stale, reject, mark, absorb, accept_return,
}

if-Keeps :
    (z : Platform) (v : ObservationValidator) {A : Type 0} (k : Kernel) (b : Bool)
    (m n : Outcome (Exec A))
    → Keeps z v k m
    → Keeps z v k n
    → Keeps z v k (if b then m else n)
if-Keeps z v k true m n x y = x
if-Keeps z v k false m n x y = y

if-Leaves :
    (z : Platform) (v : ObservationValidator) {A : Type 0} (b : Bool) (m n : Outcome A × Kernel)
    → Leaves z v m
    → Leaves z v n
    → Leaves z v (if b then m else n)
if-Leaves z v true m n x y = x
if-Leaves z v false m n x y = y

append-Known :
    (z : Platform) (k k' : Kernel) (body : EventData) (at : String) (actor : Option String)
    (who : String)
    → append z body at actor k ≡ (ok tt, k')
    → Known k who
    → Known k' who
append-Known z k k' body at actor who e h = ground (
  arith,
  h,
  apply_event-participants k.draft k'.draft (next_event k body at actor) who
      ((append-IsWritten z k k' body at actor e).folded),
)

refused-Keeps :
    (z : Platform) (v : ObservationValidator) {A : Type 0} (k : Kernel) (r : Refusal)
    → IsSound z v k
    → Keeps z v {A = A} k (refused r)
refused-Keeps z v k r i = record { kept = refused-Leaves z v k r i }

fresh-Keeps :
    (z : Platform) (v : ObservationValidator) {A : Type 0} (k : Kernel) (b : Bool) (r : Refusal)
    (n : Outcome (Exec A))
    → IsSound z v k
    → (b ≡ false → Keeps z v k n)
    → Keeps z v k (refuse_if b r >> n)
fresh-Keeps z v k b r n i h = guard-Keeps z v k (refuse_if b r) n i (λ e. h (ground arith))

-- an event that registers nobody and creates no project
abbrev IsPlain : Projection → EventData → Type 0
IsPlain d b = ((who : String) → registers b who ≡ false) × IsFirst d b

unwrap : EventData → Outcome EventData → EventData
unwrap b (ok a) = a
unwrap b _ = b

event_to-IsPlain :
    (z : Platform) (c : TransitionAssetCommand) (a : AssetRow) (to : Target) (event : EventData)
    (d : Projection)
    → event_to z c a to ≡ ok event
    → IsPlain d event
unfolding unwrap
event_to-IsPlain z c a (Target.to_state l) event d e =
    subst (IsPlain d) (ap (unwrap event) e) ((λ _. refl), tt)
event_to-IsPlain z c a Target.purged event d e =
    subst (IsPlain d) (ap (unwrap event) e) ((λ _. refl), tt)
event_to-IsPlain z c a Target.contested event d e = cc
event_to-IsPlain z c a (Target.other t) event d e = cc

module _ (z : Platform) (v : ObservationValidator) where
  intent-Keeps :
      (c : RecordEffectIntentCommand) (fresh : String) (k : Kernel) (found : Option EffectRow)
      → IsSound z v k
      → Known k c.actor
      → Keeps z v k (intent_act z c fresh found)
  intent-Keeps c fresh k none i known =
      append_then-Keeps z v k _ c.at _ _ i (Known-MayAppend k _ c.actor (λ _. refl) tt known)
  intent-Keeps c fresh k (some row) i known =
      if-Keeps z v k (row.status == EffectStatus.unknown) _ _
        (act-Keeps z v k (λ l. (ok (some row), l)) (record { sound = λ _. i }))
        (refused-Keeps z v k _ i)

  pub record_effect_intent-IsSound :
      (c : RecordEffectIntentCommand) (fresh : String) (k : Kernel)
      → IsSound z v k
      → Leaves z v (record_effect_intent z c fresh k)
  unfolding record_effect_intent
  record_effect_intent-IsSound c fresh k i = run-Leaves z v k _ (
      guard_preconditions-Keeps z v _ c.actor k i
        (λ known.
          skip z v k _ _ i
            (intent-Keeps c fresh k (find_intent k.draft.effects c.intent_key) i known))
        _ _ _ _)

  pub register_participant-IsSound :
      (c : RegisterParticipantCommand) (k : Kernel)
      → IsSound z v k
      → Leaves z v (register_participant z c k)
  unfolding register_participant
  register_participant-IsSound c k i = run-Leaves z v k _ (
      skip z v k _ _ i (
        fresh-Keeps z v k _ _ _ i (λ new. append_then-Keeps z v k _ c.at none _ i (record {
          known = λ who e. cc;
          fresh = λ who e. ground (arith, eq_iff c.participant_id who, new);
          first = tt;
        }))))

  pub create_project-IsSound :
      (c : CreateProjectCommand) (fresh : String) (k : Kernel)
      → IsSound z v k
      → Leaves z v (create_project z c fresh k)
  unfolding create_project
  create_project-IsSound c fresh k i = run-Leaves z v k _ (
      skip z v k _ _ i (
        skip z v k _ _ i (
          fresh-Keeps z v k _ _ _ i (λ new.
            require_known_actor-Keeps z v _ c.actor k i
              (λ known.
                append_then-Keeps z v k _ c.at _ _ i
                  (Known-MayAppend k _ c.actor (λ _. refl) (ground (arith, new)) known))
              _))))

  pub transition_asset-IsSound :
      (c : TransitionAssetCommand) (k : Kernel)
      → IsSound z v k
      → Leaves z v (transition_asset z c k)
  unfolding transition_asset
  transition_asset-IsSound c k i = run-Leaves z v k _ (
      guard_preconditions-Keeps z v _ c.actor k i
        (λ known. skip z v k _ _ i (
          pass z v k _ _ i (λ a. skip z v k _ _ i (
            skip z v k _ _ i (
              skip z v k _ _ i (
                bind-Keeps z v k _ _ i (λ event e. append_then-Keeps z v k event c.at _ _ i (
                  Known-MayAppend k event c.actor (event_to-IsPlain z c a c.to event k.draft e).0
                    (event_to-IsPlain z c a c.to event k.draft e).1 known))))))))
        _ _ _ _)

  budget-Leaves :
      (c : IssueEquipCommand) (fresh participant_id : String) (k : Kernel) (b : Bool)
      → IsSound z v k
      → Known k c.actor
      → Leaves z v
          ((if b then over_budget z c participant_id else issue z c fresh participant_id) k)
  budget-Leaves c fresh participant_id k true i known =
      then_run-Leaves z v _ _
        (append-Leaves z v k _ c.at _ i (Known-MayAppend k _ c.actor (λ _. refl) tt known))
        (λ l _ i'. refused-Leaves z v l _ i')
  budget-Leaves c fresh participant_id k false i known =
      append_then-Leaves z v k _ c.at _ _ i (Known-MayAppend k _ c.actor (λ _. refl) tt known)

  -- the kernel that is left is sound and still knows the actor, unless the code threw
  record LeavesKnown {A : Type 0} (who : String) (r : Outcome A × Kernel) : Type 0 where
    pub sound : is_thrown r.0 ≡ false → IsSound z v r.1
    pub known : is_thrown r.0 ≡ false → Known r.1 who

  if-LeavesKnown :
      {A : Type 0} (who : String) (b : Bool) (m n : Outcome A × Kernel)
      → LeavesKnown who m
      → LeavesKnown who n
      → LeavesKnown who (if b then m else n)
  if-LeavesKnown who true m n x y = x
  if-LeavesKnown who false m n x y = y

  append-LeavesKnown :
      (k : Kernel) (body : EventData) (at who : String)
      → IsSound z v k
      → MayAppend k body (some who)
      → Known k who
      → LeavesKnown who (append z body at (some who) k)
  append-LeavesKnown k body at who i may known = go (append z body at (some who) k) refl
    where
      go : (r : Outcome (Unit {0}) × Kernel) → append z body at (some who) k ≡ r → LeavesKnown who r
      go (ok _, l) e = record {
        sound = λ _. append-IsSound z v k l body at (some who) i may e;
        known = λ _. append-Known z k l body at (some who) who e known;
      }
      go (refused r, l) e = absurd (append-not_refused z k l body at (some who) r e)
      go (threw e, l) q = record { sound = λ p. cc; known = λ p. cc }

  then_run-LeavesKnown :
      {A : Type 0} (who : String) (r : Outcome (Unit {0}) × Kernel) (m : Exec A)
      → LeavesKnown who r
      → ((l : Kernel) → IsSound z v l → Known l who → LeavesKnown who (m l))
      → LeavesKnown who (then_run r m)
  then_run-LeavesKnown who (ok _, l) m s h = h l (s.sound refl) (s.known refl)
  then_run-LeavesKnown who (refused r, l) m s h = record {
    sound = λ _. s.sound refl;
    known = λ _. s.known refl;
  }
  then_run-LeavesKnown who (threw e, l) m s h = record { sound = λ q. cc; known = λ q. cc }

  -- an append, and what follows it
  then_append :
      {A : Type 0} (k : Kernel) (body : EventData) (at who : String) (m : Exec A)
      → IsSound z v k
      → MayAppend k body (some who)
      → Known k who
      → ((l : Kernel) → IsSound z v l → Known l who → LeavesKnown who (m l))
      → LeavesKnown who (then_run (append z body at (some who) k) m)
  then_append k body at who m i may known h =
      then_run-LeavesKnown who _ m (append-LeavesKnown k body at who i may known) h

  -- what leaves a sound kernel that knows the actor leaves a sound kernel
  forget : {A : Type 0} (who : String) (r : Outcome A × Kernel) → LeavesKnown who r → Leaves z v r
  forget who r h = record { sound = h.sound }

  pub issue_equip-IsSound :
      (c : IssueEquipCommand) (fresh : String) (k : Kernel)
      → IsSound z v k
      → Leaves z v (issue_equip z c fresh k)
  unfolding issue_equip
  issue_equip-IsSound c fresh k i = run-Leaves z v k _ (
      guard_preconditions-Keeps z v _ c.actor k i
        (λ known. skip z v k _ _ i (
          skip z v k _ _ i (
            skip z v k _ _ i (
              act-Keeps z v k _ (
                budget-Leaves c fresh (get_or_else c.participant_id c.actor) k
                  (ltb equip_size_budget (z.encoded_length (verified_facts k.draft.assets))) i
                  known)))))
        _ _ _ _)

  cancel_works-Leaves :
      (c : SetProjectStatusCommand) (cause : String) (ws : List WorkRow) (k : Kernel)
      → IsSound z v k
      → Known k c.actor
      → LeavesKnown c.actor (cancel_works z c cause ws k)
  unfolding cancel_works
  cancel_works-Leaves c cause [] k i known = record { sound = λ _. i; known = λ _. known }
  cancel_works-Leaves c cause (w ∷ ws) k i known =
      if-LeavesKnown c.actor _ _ _ (cancel_works-Leaves c cause ws k i known) (
        then_append k _ c.at c.actor _ i (Known-MayAppend k _ c.actor (λ _. refl) tt known) known
          (cancel_works-Leaves c cause ws))

  invalidate_holds-Leaves :
      (c : SetProjectStatusCommand) (cause : String) (hs : List HoldRow) (k : Kernel)
      → IsSound z v k
      → Known k c.actor
      → LeavesKnown c.actor (invalidate_holds z c cause hs k)
  unfolding invalidate_holds
  invalidate_holds-Leaves c cause [] k i known = record { sound = λ _. i; known = λ _. known }
  invalidate_holds-Leaves c cause (h ∷ hs) k i known =
      if-LeavesKnown c.actor _ _ _ (invalidate_holds-Leaves c cause hs k i known) (
        then_append k _ c.at c.actor _ i (Known-MayAppend k _ c.actor (λ _. refl) tt known) known
          (invalidate_holds-Leaves c cause hs))

  archive_closure-Leaves :
      (c : SetProjectStatusCommand) (k : Kernel)
      → IsSound z v k
      → Known k c.actor
      → LeavesKnown c.actor (archive_closure z c k)
  unfolding archive_closure
  archive_closure-Leaves c k i known =
      then_run-LeavesKnown c.actor _ _ (cancel_works-Leaves c _ (values k.draft.works) k i known)
        (λ l i' known'. invalidate_holds-Leaves c _ (values l.draft.holds) l i' known')

  status_act-Leaves :
      (c : SetProjectStatusCommand) (from : ProjectStatus) (b : Bool) (k : Kernel)
      → IsSound z v k
      → Known k c.actor
      → Leaves z v (
          if b
          then then_run (archive_closure z c k) (status_append z c from)
          else status_append z c from k)
  status_act-Leaves c from true k i known = forget c.actor _ (
      then_run-LeavesKnown c.actor _ _ (archive_closure-Leaves c k i known) (λ l i' known'.
        then_append l _ c.at c.actor _ i' (Known-MayAppend l _ c.actor (λ _. refl) tt known') known'
          (λ m i2 known2. record { sound = λ _. i2; known = λ _. known2 })))
  status_act-Leaves c from false k i known =
      append_then-Leaves z v k _ c.at _ _ i (Known-MayAppend k _ c.actor (λ _. refl) tt known)

  pub set_project_status-IsSound :
      (c : SetProjectStatusCommand) (k : Kernel)
      → IsSound z v k
      → Leaves z v (set_project_status z c k)
  unfolding set_project_status
  set_project_status-IsSound c k i = run-Leaves z v k _ (
      require_human-Keeps z v _ c.actor k i
        (λ known. skip z v k _ _ i (
          skip z v k _ _ i (
            pass z v k _ _ i (λ p. skip z v k _ _ i (
              skip z v k _ _ i (
                skip z v k _ _ i (
                  act-Keeps z v k _
                    (status_act-Leaves c p.status (c.to == ProjectStatus.archived) k i known))))))))
        _)

  record_acceptance-Leaves :
      (c : AcceptAssetCommand) (fresh : String) (r : Rationale) (k : Kernel)
      → IsSound z v k
      → Known k c.actor
      → LeavesKnown c.actor (record_acceptance z c fresh r k)
  unfolding record_acceptance
  record_acceptance-Leaves c fresh Rationale.null k i known = record {
    sound = λ q. cc;
    known = λ q. cc;
  }
  record_acceptance-Leaves c fresh Rationale.absent k i known =
      append-LeavesKnown k _ c.at c.actor i (Known-MayAppend k _ c.actor (λ _. refl) tt known) known
  record_acceptance-Leaves c fresh (Rationale.written t) k i known =
      append-LeavesKnown k _ c.at c.actor i (Known-MayAppend k _ c.actor (λ _. refl) tt known) known

  apply_verdict-Leaves :
      (c : AcceptAssetCommand) (r : AcceptanceResult) (k : Kernel)
      → IsSound z v k
      → Known k c.actor
      → LeavesKnown c.actor (apply_verdict z c r k)
  unfolding apply_verdict
  apply_verdict-Leaves c AcceptanceResult.accepted k i known =
      append-LeavesKnown k _ c.at c.actor i (Known-MayAppend k _ c.actor (λ _. refl) tt known) known
  apply_verdict-Leaves c AcceptanceResult.rejected k i known =
      append-LeavesKnown k _ c.at c.actor i (Known-MayAppend k _ c.actor (λ _. refl) tt known) known
  apply_verdict-Leaves c AcceptanceResult.conditional k i known = record {
    sound = λ _. i;
    known = λ _. known;
  }

  accept_act-Leaves :
      (c : AcceptAssetCommand) (fresh : String) (k : Kernel)
      → IsSound z v k
      → Known k c.actor
      → Leaves z v (accept_act z c fresh k)
  accept_act-Leaves c fresh k i known = forget c.actor _ (
      then_run-LeavesKnown c.actor _ _ (record_acceptance-Leaves c fresh c.rationale k i known)
        (λ l i' known'.
          then_run-LeavesKnown c.actor _ _ (apply_verdict-Leaves c c.result l i' known')
            (λ m i2 known2. record { sound = λ _. i2; known = λ _. known2 })))

  pub accept_asset-IsSound :
      (c : AcceptAssetCommand) (fresh : String) (k : Kernel)
      → IsSound z v k
      → Leaves z v (accept_asset z c fresh k)
  unfolding accept_asset
  accept_asset-IsSound c fresh k i = run-Leaves z v k _ (
      guard_preconditions-Keeps z v _ c.actor k i
        (λ known. skip z v k _ _ i (
          pass z v k _ _ i (λ a. skip z v k _ _ i (
            skip z v k _ _ i (
              skip z v k _ _ i
                (act-Keeps z v k (accept_act z c fresh) (accept_act-Leaves c fresh k i known)))))))
        _ _ _ _)

  mark-Leaves :
      (c : SubmitReturnCommand) (j : Judged) (k : Kernel)
      → IsSound z v k
      → Known k c.actor
      → LeavesKnown c.actor (mark z c j k)
  mark-Leaves c j k i known =
      if-LeavesKnown c.actor (is_concurrent j.verdict) _ _
        (append-LeavesKnown k _ c.at c.actor i (Known-MayAppend k _ c.actor (λ _. refl) tt known)
          known)
        (record { sound = λ _. i; known = λ _. known })

  reject-Keeps :
      (c : SubmitReturnCommand) (j : Judged) (e : Option EquipRow) (k : Kernel)
      → IsSound z v k
      → Known k c.actor
      → Keeps z v k (ok (reject z c j e))
  reject-Keeps c j e k i known = act-Keeps z v k (reject z c j e) (
      then_run-Leaves z v _ _
        (append-Leaves z v k _ c.at _ i (Known-MayAppend k _ c.actor (λ _. refl) tt known))
        (λ l _ i'. refused-Leaves z v l _ i'))

  absorb-Keeps :
      (c : SubmitReturnCommand) (j : Judged) (candidates : List AssetSeed)
      (effects : List EffectSeed) (k : Kernel)
      → IsSound z v k
      → Known k c.actor
      → Keeps z v k (ok (absorb z c j candidates effects))
  absorb-Keeps c j candidates effects k i known =
      act-Keeps z v k (absorb z c j candidates effects) (
        forget c.actor _ (
          then_append k _ c.at c.actor _ i (Known-MayAppend k _ c.actor (λ _. refl) tt known) known
            (λ l i' known'.
              then_run-LeavesKnown c.actor _ _ (mark-Leaves c j l i' known')
                (λ m i2 known2. record { sound = λ _. i2; known = λ _. known2 }))))

  accept_return-Keeps :
      (c : SubmitReturnCommand) (fresh : ℕ → String) (j : Judged) (k : Kernel)
      → IsSound z v k
      → Known k c.actor
      → Keeps z v k (accept_return z c fresh j k)
  accept_return-Keeps c fresh j k i known =
      skip z v k _ _ i (pass z v k _ _ i (λ p. skip z v k _ _ i (absorb-Keeps c j _ _ k i known)))

  pub submit_return-IsSound :
      (c : SubmitReturnCommand) (fresh : ℕ → String) (k : Kernel)
      → IsSound z v k
      → Leaves z v (submit_return z c fresh k)
  unfolding submit_return
  submit_return-IsSound c fresh k i = run-Leaves z v k _ (
      guard_preconditions-Keeps z v _ c.actor k i
        (λ known. skip z v k _ _ i (
          pass z v k _ _ i (λ j. skip z v k _ _ i (
            if-Keeps z v k (is_stale (lookup c.equip_id k.draft.equips) (state_version k)) _ _
              (reject-Keeps c j _ k i known) (accept_return-Keeps c fresh j k i known)))))
        _ _ _ _)
