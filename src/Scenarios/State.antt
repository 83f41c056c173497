-- ===== src/Scenarios/State.antt =====
-- The theorems on the state and the schemas, at concrete inputs.
use navis.Base.{
  ◌≡◌, refl, ℕ, ◌+◌, ◌==◌, ◌&&◌, ◌||◌, string_eq, String, Bool, true, false, Option, none, some,
  List, [], ◌∷◌, ◌++◌, any, lookup, is_present, leb, ltb, max, keys, if◌then◌else◌, pos,
}
use navis.Schema.Vocabulary.{ParticipantType, AssetLifecycle, asset_lifecycle_eq, ProjectStatus}
use navis.Schema.Ledgers.{InterventionMode}
use navis.Schema.Asset.{PurgeGate, too_young, assert_transition, purged, to_state}
use navis.Schema.Asset.Lifecycle.{stage, assert_transition-stage, assert_transition-purged}
use navis.State.Clock.{ClockSnapshot, component, advance_clock, merge_clocks, compare_clocks}
use navis.State.Clock.Order.{
  AsOrdered, IsDistinct, compare_clocks_order, component-advance_clock, component-merge_clocks,
}
use navis.State.Rows.{RunSessionRow, Projection, ProjectRow, empty_projection, version_of}
use navis.State.Intervention.{active_sessions, strongest_active_mode, check_takeover_opening}
use navis.State.Intervention.Takeover.{
  is_takeover, open_takeovers, check_takeover_opening-exclusive, strongest_active_mode-takeover,
  strongest_active_mode-none,
}
use navis.State.Events
use navis.State.Events.{EventData, StateEvent, is_state_material}
use navis.State.History
use navis.State.Apply.{apply_event}
use navis.State.Apply.Total.{apply_event_ok}
use navis.State.Apply.Frame.{registers, apply_event-participants, apply_event-version}
use navis.Kernel.Core.{Kernel, new_kernel, Outcome, append}
use navis.Kernel.Sound.{IsSound, MayAppend, new_kernel-IsSound, append-IsSound}
use navis.Scenarios.Base.{plain, now, alice, project_one}

abbrev session : InterventionMode → RunSessionRow
session m = record {
  session_id = "s";
  participant_id = alice;
  mode = m;
  started_at = now;
  ended_at = none;
  consent_status = none;
}

abbrev watching : List RunSessionRow
watching = session InterventionMode.observe ∷ []

abbrev old_enough : PurgeGate
old_enough = record { days_archived = some (pos 200); double_confirmation = true }

abbrev b : String
b = "b"

abbrev left : ClockSnapshot
left = ("a", 2) ∷ ("b", 1) ∷ []

abbrev right : ClockSnapshot
right = ("b", 3) ∷ []

abbrev project_row : ProjectRow
project_row = record {
  id = project_one;
  title = "one";
  purpose = none;
  boundary = none;
  acceptance_criteria = none;
  status = ProjectStatus.active;
  current_state_version = 0;
  created_at = now;
  updated = none;
}

abbrev projection : Projection
projection = record empty_projection { project = some project_row }

abbrev status_event : StateEvent
status_event = record {
  seq = 1;
  body = Events.project_status_changed alice ProjectStatus.active ProjectStatus.paused "rest";
  actor = none;
  at = now;
  state_version = 1;
  schema_version = 1;
}

abbrev register_event : StateEvent
register_event = record status_event {
  body = Events.participant_registered alice ParticipantType.human none;
  state_version = 0;
}

alice_is_new : lookup alice projection.participants ≡ none
unfolding lookup
alice_is_new = refl

abbrev registered : Projection
registered = (apply_event_ok projection register_event tt).0

abbrev paused : Projection
paused = (apply_event_ok projection status_event refl).0

abbrev register_body : EventData
register_body = Events.participant_registered alice ParticipantType.human none

abbrev appended : Kernel
appended = (append plain register_body now none new_kernel).1

-- the hypotheses of the runs below
watching_opens : check_takeover_opening watching alice ≡ none
unfolding check_takeover_opening navis.Base.any navis.Base.filter
watching_opens = refl

none_active : strongest_active_mode [] ≡ none
unfolding strongest_active_mode navis.Base.any navis.Base.filter
none_active = refl

archive_passes :
    assert_transition AssetLifecycle.active (to_state AssetLifecycle.archived) none ≡ none
unfolding assert_transition
archive_passes = refl

purge_passes : assert_transition AssetLifecycle.archived purged (some old_enough) ≡ none
unfolding assert_transition
purge_passes = refl

right-IsDistinct : IsDistinct (keys right)
unfolding navis.Base.keys navis.Base.any
right-IsDistinct = (refl, tt)

may : MayAppend new_kernel register_body none
unfolding navis.Base.lookup
may = record { known = λ who e. cc; fresh = λ who e. refl; first = tt }

append_runs : append plain register_body now none new_kernel ≡ (Outcome.ok tt, appended)
unfolding navis.Kernel.Core.◌>>◌ navis.Kernel.Core.◌>>=◌ navis.Kernel.Core.invalid_fields
    navis.Base.filter navis.Schema.Ids.is_uuidv7 navis.Base.lookup navis.Base.insert
    navis.Kernel.Core.append navis.State.Payload.is_payload History.append
    navis.State.Payload.is_envelope History.current_seq History.head navis.State.Apply.apply_event
    navis.Kernel.Core.whitespace_only navis.Base.is_blank navis.Base.trim navis.Base.trim_start
    navis.Base.trim_end navis.Base.any navis.Base.all
    navis.State.Apply.Project.fold_participant_registered
append_runs = refl

check_takeover_opening-exclusive_example :
    leb (open_takeovers (watching ++ session InterventionMode.takeover ∷ [])) 1 ≡ true
check_takeover_opening-exclusive_example =
    check_takeover_opening-exclusive watching alice (session InterventionMode.takeover)
      watching_opens

strongest_active_mode-takeover_example :
    (any is_takeover (active_sessions watching) ≡ true
      → strongest_active_mode watching ≡ some InterventionMode.takeover)
    × (strongest_active_mode watching ≡ some InterventionMode.takeover
        → any is_takeover (active_sessions watching) ≡ true)
strongest_active_mode-takeover_example = strongest_active_mode-takeover watching

strongest_active_mode-none_example : active_sessions [] ≡ []
strongest_active_mode-none_example = strongest_active_mode-none [] none_active

assert_transition-stage_example :
    (ltb (stage AssetLifecycle.active) (stage AssetLifecycle.archived)
      || (AssetLifecycle.active == AssetLifecycle.competitive_superseded
          && AssetLifecycle.archived == AssetLifecycle.active))
    ≡ true
assert_transition-stage_example =
    assert_transition-stage AssetLifecycle.active AssetLifecycle.archived none archive_passes

assert_transition-purged_example :
    (AssetLifecycle.archived ≡ AssetLifecycle.archived)
    × ((g : PurgeGate) × (some old_enough ≡ some g)
        × (too_young g.days_archived ≡ false)
        × (g.double_confirmation ≡ true))
assert_transition-purged_example =
    assert_transition-purged AssetLifecycle.archived (some old_enough) purge_passes

compare_clocks_order_example : AsOrdered left right (compare_clocks left right)
compare_clocks_order_example = compare_clocks_order left right

component-advance_clock_example :
    component (advance_clock left b) "a"
    ≡ (if b == "a" then component left "a" + 1 else component left "a")
component-advance_clock_example = component-advance_clock left b "a"

component-merge_clocks_example :
    component (merge_clocks left right) "b" ≡ max (component left "b") (component right "b")
component-merge_clocks_example = component-merge_clocks left right "b" right-IsDistinct

apply_event-participants_example :
    is_present (lookup alice registered.participants)
    ≡ (registers register_event.body alice || is_present (lookup alice projection.participants))
apply_event-participants_example =
    apply_event-participants projection registered register_event alice
      (apply_event_ok projection register_event tt).1

apply_event-version_example :
    version_of paused.project
    ≡ (if is_state_material status_event.body then 1 else version_of projection.project)
apply_event-version_example =
    apply_event-version projection paused status_event tt
      (apply_event_ok projection status_event refl).1

append-IsSound_example : IsSound plain none appended
append-IsSound_example =
    append-IsSound plain none new_kernel appended register_body now none
      (new_kernel-IsSound plain none) may append_runs
