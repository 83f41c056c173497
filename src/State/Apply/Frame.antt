-- ===== src/State/Apply/Frame.antt =====
-- What `applyEvent` keeps of the projection, and how it moves the version of the project.
use navis.Base.{
  ◌≡◌, refl, sym, ap, ◌∙◌, ◌||◌, Bool, true, false, ◌==◌, string_eq, String, Option, none,
  if◌then◌else◌, is_present, lookup, arith, Bool-cases, inl, inr,
}
use navis.State.Rows.{Projection, ProjectRow, version_of}
use navis.State.Events
use navis.State.Events.{EventData, StateEvent, is_kernel_event, is_state_material}
use navis.State.Replay.{Replay, ok, fault, ◌>>=◌}
use navis.State.Replay.Rows.{IsThere-insert}
use navis.State.Apply.{fold_data, apply_event, touch_row, stamp_project}
use navis.State.Apply.Project.{
  fold_participant_registered, fold_project_created, fold_policy_updated, fold_boundary_updated,
  fold_status_changed,
}
use navis.State.Apply.Work.{
  fold_work_created, fold_work_redirected, fold_work_status_changed, fold_equip_issued,
}
use navis.State.Apply.Asset.{
  fold_asset_created, fold_lifecycle_changed, fold_asset_purged, fold_acceptance_recorded,
  fold_hold_registered, fold_hold_moved,
}
use navis.State.Apply.Effect.{
  fold_return_absorbed, fold_effect_recorded, fold_effect, fold_delivery_recorded,
  fold_delivery_confirmed, fold_direction_proposed, fold_direction_resolved,
}
use navis.State.Apply.Runs.{
  fold_workrun_started, fold_workrun_transitioned, fold_session_opened, fold_session_closed,
}

bind-eq-ok {ℓ κ} :
    {A : Type ℓ} {B : Type κ} (m : Replay A) (f : A → B) (b : B)
    → (m >>= λ a. ok (f a)) ≡ ok b
    → (a : A) × (m ≡ ok a) × (f a ≡ b)
bind-eq-ok (ok a) f b h = (a, refl, ground arith)
bind-eq-ok (fault e) f b h = cc

abbrev pub registers : EventData → String → Bool
registers (Events.participant_registered id type name) who = id == who
registers _ who = false

-- whether a participant is registered in what a fold gives
abbrev is_known : String → Replay Projection → Bool
is_known who (fault f) = false
is_known who (ok d) = is_present (lookup who d.participants)

-- the participants after a fold
fold_data-participants :
    (d d' : Projection) (e : StateEvent) (b : EventData) (who : String)
    → fold_data d e b ≡ ok d'
    → is_present (lookup who d'.participants)
      ≡ (registers b who || is_present (lookup who d.participants))
unfolding fold_data fold_participant_registered fold_project_created fold_policy_updated
    fold_boundary_updated fold_status_changed fold_work_created fold_work_redirected
    fold_work_status_changed fold_equip_issued fold_asset_created fold_lifecycle_changed
    fold_asset_purged fold_acceptance_recorded fold_hold_registered fold_hold_moved
    fold_return_absorbed fold_effect_recorded fold_effect fold_delivery_recorded
    fold_delivery_confirmed fold_direction_proposed fold_direction_resolved fold_workrun_started
    fold_workrun_transitioned fold_session_opened fold_session_closed
fold_data-participants d d' e (Events.participant_registered id type name) who h =
    ap (is_known who) (sym h) ∙ IsThere-insert id who _ d.participants
fold_data-participants d d' e (Events.hold_moved to m) who h = ground arith
fold_data-participants d d' e (Events.asset_lifecycle_changed id from to reason actor) who h =
    ground arith
fold_data-participants d d' e _ who h = ground arith

-- no event but the first of a project writes its version in the fold itself
abbrev pub IsFirst : Projection → EventData → Type 0
IsFirst d (Events.project_created id title purpose boundary criteria) = d.project ≡ none
IsFirst d _ = Unit

fold_data-version :
    (d d' : Projection) (e : StateEvent) (b : EventData)
    → IsFirst d b
    → fold_data d e b ≡ ok d'
    → version_of d'.project ≡ version_of d.project
unfolding fold_data fold_participant_registered fold_project_created fold_policy_updated
    fold_boundary_updated fold_status_changed fold_work_created fold_work_redirected
    fold_work_status_changed fold_equip_issued fold_asset_created fold_lifecycle_changed
    fold_asset_purged fold_acceptance_recorded fold_hold_registered fold_hold_moved
    fold_return_absorbed fold_effect_recorded fold_effect fold_delivery_recorded
    fold_delivery_confirmed fold_direction_proposed fold_direction_resolved fold_workrun_started
    fold_workrun_transitioned fold_session_opened fold_session_closed
fold_data-version d d' e (Events.hold_moved to m) f h = ground arith
fold_data-version d d' e (Events.asset_lifecycle_changed id from to reason actor) f h = ground arith
fold_data-version d d' e _ f h = ground arith

-- a material event is folded only where there is a project
fold_data-material :
    (d d' : Projection) (e : StateEvent) (b : EventData)
    → is_state_material b ≡ true
    → fold_data d e b ≡ ok d'
    → is_present d'.project ≡ true
unfolding fold_data fold_participant_registered fold_project_created fold_policy_updated
    fold_boundary_updated fold_status_changed fold_work_created fold_work_redirected
    fold_work_status_changed fold_equip_issued fold_asset_created fold_lifecycle_changed
    fold_asset_purged fold_acceptance_recorded fold_hold_registered fold_hold_moved
    fold_return_absorbed fold_effect_recorded fold_effect fold_delivery_recorded
    fold_delivery_confirmed fold_direction_proposed fold_direction_resolved fold_workrun_started
    fold_workrun_transitioned fold_session_opened fold_session_closed is_state_material
fold_data-material d d' e (Events.hold_moved to m) f h = ground arith
fold_data-material d d' e (Events.asset_lifecycle_changed id from to reason actor) f h =
    ground arith
fold_data-material d d' e _ f h = ground arith

touch_row-participants :
    (d : Projection) (e : StateEvent) (b : EventData)
    → (touch_row e b d).participants ≡ d.participants
unfolding touch_row
touch_row-participants d e _ = ground arith

touch_row-project :
    (d : Projection) (e : StateEvent) (b : EventData) → (touch_row e b d).project ≡ d.project
unfolding touch_row
touch_row-project d e _ = ground arith

-- where an event is folded, its case of the switch gave a value
pub apply_event-eq-ok :
    (d d' : Projection) (e : StateEvent)
    → is_kernel_event e.body ≡ true
    → apply_event d e ≡ ok d'
    → (d1 : Projection) × (fold_data d e e.body ≡ ok d1)
      × (touch_row e e.body (record d1 { seq = e.seq; project = stamp_project e d1.project }) ≡ d')
unfolding apply_event
apply_event-eq-ok d d' e t h = bind-eq-ok (fold_data d e e.body) _ d' (rw t at h)

-- an observation moves only the sequence number
pub apply_event-observation :
    (d d' : Projection) (e : StateEvent)
    → is_kernel_event e.body ≡ false
    → apply_event d e ≡ ok d'
    → record d { seq = e.seq } ≡ d'
unfolding apply_event
apply_event-observation d d' e n h = ground (arith, rw n at h)

registers-observation :
    (b : EventData) (who : String) → is_kernel_event b ≡ false → registers b who ≡ false
unfolding is_kernel_event
registers-observation _ who h = ground arith

is_state_material-observation :
    (b : EventData) → is_kernel_event b ≡ false → is_state_material b ≡ false
unfolding is_kernel_event is_state_material
is_state_material-observation _ h = ground arith

-- After an event was folded, exactly the participants of before are known, and the one that the event
-- registers.
pub apply_event-participants :
    (d d' : Projection) (e : StateEvent) (who : String)
    → apply_event d e ≡ ok d'
    → is_present (lookup who d'.participants)
      ≡ (registers e.body who || is_present (lookup who d.participants))
apply_event-participants d d' e who h = elim (Bool-cases (is_kernel_event e.body)) [
  | inl t ↦
      let (d1, f, q) = apply_event-eq-ok d d' e t h in
      rw (← q, touch_row-participants) (fold_data-participants d d1 e e.body who f)
  | inr n ↦ rw (← apply_event-observation d d' e n h, registers-observation e.body who n) refl
]

stamp_project-version :
    (e : StateEvent) (o : Option ProjectRow)
    → (is_state_material e.body ≡ true → is_present o ≡ true)
    → version_of (stamp_project e o)
      ≡ (if is_state_material e.body then e.state_version else version_of o)
unfolding stamp_project
stamp_project-version e o m = ground (arith, m)

-- Where an event was folded, and it does not create a second project, the version of the project is
-- the one that the event carries if the event is material, and is unchanged if not.
pub apply_event-version :
    (d d' : Projection) (e : StateEvent)
    → IsFirst d e.body
    → apply_event d e ≡ ok d'
    → version_of d'.project
      ≡ (if is_state_material e.body then e.state_version else version_of d.project)
apply_event-version d d' e first h = elim (Bool-cases (is_kernel_event e.body)) [
  | inl t ↦
      let (d1, f, q) = apply_event-eq-ok d d' e t h in
      rw (← q, touch_row-project, ← fold_data-version d d1 e e.body first f)
        (stamp_project-version e d1.project (λ m. fold_data-material d d1 e e.body m f))
  | inr n ↦ rw (← apply_event-observation d d' e n h, is_state_material-observation e.body n) refl
]
