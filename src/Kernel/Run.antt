-- ===== src/Kernel/Run.antt =====
-- The commands `startRun` and `transitionRun`, and the gate that a resumed run must pass.
pub mod Legal
use navis.Base.{
  ℕ, ◌+◌, String, Bool, true, false, not, ◌&&◌, ◌||◌, Option, none, some, List, [], ◌∷◌, ◌==◌,
  nat_eq, string_eq, is_some_eq, any, all, if◌then◌else◌, is_present, get_or_else, is_blank, Dict,
  lookup, ltb,
}
use navis.Schema.Vocabulary.{
  participant_type_eq, ProjectStatus, project_status_eq, project_status_text, WorkStatus,
  work_status_eq, asset_kind_eq, asset_scope_eq, asset_lifecycle_eq, acceptance_result_eq,
}
use navis.Schema.Ledgers.{
  hold_status_eq, effect_status_eq, EquipStatus, equip_status_eq, delivery_status_eq,
  direction_status_eq, WorkRunStatus, work_run_status_eq, intervention_mode_eq, consent_status_eq,
}
use navis.Schema.Errors.{
  Refusal, because, forbidden, rationale_required, version_conflict, project_not_active,
}
use navis.Schema.Platform.{Platform}
use navis.Schema.Ids.{optional, is_uuidv7, is_text, is_refs}
use navis.Schema.WorkRun.{assert_work_run_transition}
use navis.State.Rows.{Json, ProjectRow, WorkRow, EquipRow, WorkRunRow, Projection, alive}
use navis.State.Events
use navis.State.Events.{
  AssetSeed, EffectSeed, HoldRegistered, HoldMoved, CausalJudgment, CheckpointPayload,
  DeliveryRecorded, RunTransitioned, EventData, StateEvent,
}
use navis.Kernel.Core.{
  Kernel, Outcome, ok, refused, ◌>>=◌, ◌>>◌, guard, refuse_if, need, Exec, run, state_version,
  append_then, invalid_fields, require_known_actor, require_human, live_row,
}

pub record StartRunCommand : Type 0 where
  pub actor : String
  pub at : String
  pub run_id : String
  pub work_id : String
  pub equip_id : String
  pub parent_run_id : Option String
  pub execution_refs : Option (Dict String)
  pub expected_version : ℕ

pub record TransitionRunCommand : Type 0 where
  pub actor : String
  pub at : String
  pub run_id : String
  pub to : WorkRunStatus
  pub reason : String
  pub expected_version : ℕ
  pub run_revision : ℕ
  pub equip_id : Option String
  pub input_provided : Option String
  pub approval_result : Option String
  pub resume_checkpoint_id : Option String
  pub checkpoint_reason : Option String
  pub checkpoint_position : Option (Dict String)
  pub checkpoint_resume_ref : Option (Dict String)

-- `z.record(z.string().min(1).max(128), z.json())`; the values are JSON by their type
abbrev is_position : Platform → Dict String → Bool
is_position z position = all (λ f. z.text_between 1 128 f.0) position

abbrev position_json : Option (Dict String) → Option Json
position_json none = none
position_json (some position) = some (Json.fields position)

abbrev pub live_run : Projection → String → Option WorkRunRow
live_run d id = live_row (λ (r : WorkRunRow). r.deleted_at) (lookup id d.work_runs)

-- `#requireRun`
abbrev pub require_run : String → String → Kernel → Outcome WorkRunRow
require_run id action k = need (live_run k.draft id) (forbidden action (because "run-not-found"))

abbrev pub is_active_project : Option ProjectRow → Bool
is_active_project none = false
is_active_project (some p) = p.status == ProjectStatus.active

abbrev status_text : Option ProjectRow → String
status_text none = "archived"
status_text (some p) = project_status_text p.status

abbrev pub is_open_work : Option WorkRow → Bool
is_open_work none = false
is_open_work (some w) =
    alive w.deleted_at
    && not (w.status == WorkStatus.cancelled)
    && not (w.status == WorkStatus.completed)

-- an equip that is active at this version
abbrev pub current_equip : ℕ → Option EquipRow → Option EquipRow
current_equip version none = none
current_equip version (some e) =
    if e.status == EquipStatus.active && e.state_version == version then some e else none

-- the equip is its holder's, and for this work or for any
abbrev pub check_equip : String → EquipRow → String → String → Outcome (Unit {0})
check_equip action e actor work_id = do
  guard (is_some_eq e.participant_id actor) (forbidden action (because "foreign-equip"))
  guard (optional (λ w. w == work_id) e.work_id) (forbidden action (because "foreign-work-equip"))

abbrev pub is_retryable : WorkRunStatus → Bool
is_retryable s = s == WorkRunStatus.cancelled || s == WorkRunStatus.failed

abbrev parent_of : String → Option WorkRunRow → Option WorkRunRow
parent_of work_id none = none
parent_of work_id (some parent) = if parent.work_id == work_id then some parent else none

-- the attempt number of a run, from its parent
unfoldable pub next_attempt : StartRunCommand → Kernel → Outcome ℕ
next_attempt c k = elim c.parent_run_id [
  | none ↦ ok 1
  | some id ↦ do
    parent ←
        need (parent_of c.work_id (lookup id k.draft.work_runs))
          (forbidden "start_run" (because "parent-run-invalid"))
    guard (is_retryable parent.status) (forbidden "start_run" (because "parent-run-not-terminal"))
    ok (get_or_else parent.attempt 1 + 1)
]

-- `intervention.session_closed` of a takeover of this run
abbrev is_release : String → StateEvent → Bool
is_release run_id e = elim e.body [
  | Events.intervention_session_closed id session was_takeover revision consent ↦
      id == run_id && was_takeover
  | _ ↦ false
]

-- the sequence number of the last release, from the one found so far
unfoldable pub last_release : String → Option ℕ → List StateEvent → Option ℕ
last_release run_id found [] = found
last_release run_id found (e ∷ es) =
    last_release run_id (if is_release run_id e then some e.seq else found) es

abbrev is_issue : String → StateEvent → Bool
is_issue equip_id e = elim e.body [
  | Events.equip_issued id version actor work participant snapshot actions ↦ id == equip_id
  | _ ↦ false
]

-- the equip was issued after the last release of a takeover
unfoldable pub is_fresh : String → String → List StateEvent → Bool
unfolding last_release any
is_fresh run_id equip_id history = elim (last_release run_id none history) [
  | none ↦ true
  | some seq ↦ any (λ e. is_issue equip_id e && ltb seq e.seq) history
]

-- `#checkReEquipGate`
unfoldable pub check_re_equip_gate : WorkRunRow → TransitionRunCommand → Kernel → Outcome (Unit {0})
check_re_equip_gate run c k =
    if not (get_or_else run.re_equip_required false) && run.input_state_version == state_version k
    then ok tt
    else do
      id ← need c.equip_id (forbidden "transition_run" (because "re-equip-required"))
      e ←
          need (current_equip (state_version k) (lookup id k.draft.equips))
            (forbidden "transition_run" (because "stale-equip"))
      check_equip "transition_run" e c.actor run.work_id
      guard (is_fresh run.id e.id k.history) (forbidden "transition_run" (because "stale-equip"))

abbrev pub is_resuming : WorkRunStatus → WorkRunStatus → Bool
is_resuming from to =
    (from == WorkRunStatus.waiting_input && to == WorkRunStatus.running)
    || (from == WorkRunStatus.waiting_approval && to == WorkRunStatus.running)
    || (from == WorkRunStatus.paused && to == WorkRunStatus.running)

-- what each of the three resuming transitions must bring
unfoldable pub check_evidence : WorkRunRow → TransitionRunCommand → Kernel → Outcome (Unit {0})
check_evidence run c k = if not (is_resuming run.status c.to) then ok tt else (elim run.status [
  | WorkRunStatus.waiting_input ↦
      guard (is_present c.input_provided)
        (forbidden "transition_run" (because "input-evidence-required"))
  | WorkRunStatus.waiting_approval ↦ do
    guard (is_present c.approval_result)
        (forbidden "transition_run" (because "approval-evidence-required"))
    require_human "transition_run" c.actor k
  | _ ↦ do
    id ←
        need c.resume_checkpoint_id
          (forbidden "transition_run" (because "resume-checkpoint-required"))
    guard (is_some_eq run.checkpoint_id id)
        (forbidden "transition_run" (because "resume-checkpoint-mismatch"))
])

module _ (z : Platform) where
  unfoldable pub start_run : StartRunCommand → Exec (Option WorkRunRow)
  start_run c k =
      run
        (do
          require_known_actor "start_run" c.actor k
          guard (is_active_project k.draft.project)
              (project_not_active (status_text k.draft.project) "start_run")
          guard (c.expected_version == state_version k)
              (version_conflict c.expected_version (state_version k))
          guard (is_open_work (lookup c.work_id k.draft.works))
              (forbidden "start_run" (because "work-closed"))
          refuse_if (is_present (lookup c.run_id k.draft.work_runs))
              (forbidden "start_run" (because "run-exists"))
          e ←
              need (current_equip (state_version k) (lookup c.equip_id k.draft.equips))
                (forbidden "start_run" (because "stale-equip"))
          check_equip "start_run" e c.actor c.work_id
          invalid_fields "start_run" (
              ("actor", is_uuidv7 c.actor)
              ∷ ("at", z.instant c.at)
              ∷ ("run_id", is_uuidv7 c.run_id)
              ∷ ("work_id", is_uuidv7 c.work_id)
              ∷ ("equip_id", is_uuidv7 c.equip_id)
              ∷ ("parent_run_id", optional is_uuidv7 c.parent_run_id)
              ∷ ("execution_refs", optional (is_refs z) c.execution_refs)
              ∷ [])
          attempt ← next_attempt c k
          ok (
              append_then z
                (Events.workrun_started c.run_id c.work_id c.parent_run_id attempt c.execution_refs)
                c.at (some c.actor) (λ d. lookup c.run_id d.work_runs)))
        k

  abbrev checkpoint_payload : TransitionRunCommand → String → Option CheckpointPayload
  checkpoint_payload c fresh =
      if c.to == WorkRunStatus.paused
      then some (record {
        id = fresh;
        run_id = some c.run_id;
        reason = c.checkpoint_reason;
        position = position_json c.checkpoint_position;
        resume_ref = c.checkpoint_resume_ref;
      })
      else none

  abbrev run_transition : TransitionRunCommand → String → WorkRunRow → RunTransitioned
  run_transition c fresh r = record {
    run_id = c.run_id;
    from = r.status;
    to = c.to;
    reason = c.reason;
    run_revision = r.run_revision + 1;
    resume = is_resuming r.status c.to;
    input_provided = c.input_provided;
    approval_result = c.approval_result;
    resume_checkpoint_id = c.resume_checkpoint_id;
    checkpoint = checkpoint_payload c fresh;
  }

  abbrev legal_pair : Option Refusal → Outcome (Unit {0})
  legal_pair none = ok tt
  legal_pair (some r) = refused r

  unfoldable pub transition_run : TransitionRunCommand → String → Exec (Option WorkRunRow)
  transition_run c fresh k =
      run
        (do
          require_known_actor "transition_run" c.actor k
          r ← require_run c.run_id "transition_run" k
          legal_pair (assert_work_run_transition r.status c.to)
          guard (r.run_revision == c.run_revision) (version_conflict c.run_revision r.run_revision)
          guard (state_version k == c.expected_version)
              (version_conflict c.expected_version (state_version k))
          refuse_if (is_blank c.reason) (rationale_required "transition_run")
          (if is_resuming r.status c.to then check_re_equip_gate r c k else ok tt)
          check_evidence r c k
          invalid_fields "transition_run" (
              ("actor", is_uuidv7 c.actor)
              ∷ ("at", z.instant c.at)
              ∷ ("run_id", is_uuidv7 c.run_id)
              ∷ ("reason", is_text z c.reason)
              ∷ ("equip_id", optional is_uuidv7 c.equip_id)
              ∷ ("input_provided", optional (is_text z) c.input_provided)
              ∷ ("approval_result", optional (is_text z) c.approval_result)
              ∷ ("resume_checkpoint_id", optional is_uuidv7 c.resume_checkpoint_id)
              ∷ ("checkpoint_reason", optional (is_text z) c.checkpoint_reason)
              ∷ ("checkpoint_position", optional (is_position z) c.checkpoint_position)
              ∷ ("checkpoint_resume_ref", optional (is_refs z) c.checkpoint_resume_ref)
              ∷ [])
          ok (
              append_then z (Events.workrun_transitioned (run_transition c fresh r)) c.at
                (some c.actor) (λ d. lookup c.run_id d.work_runs)))
        k
