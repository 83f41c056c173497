-- ===== src/Kernel/Project.antt =====
-- The commands `registerParticipant`, `createProject`, `updateBoundary`, `updatePolicy` and
-- `setProjectStatus`. The identifier that `uuidv7()` yields is an argument, `fresh`.
use Prim.Native.String.{◌++◌ as concat}
use navis.Base.{
  ℕ, String, Bool, true, not, ◌&&◌, ◌||◌, Option, none, some, List, [], ◌∷◌, ◌==◌, nat_eq,
  string_eq, any, length, if◌then◌else◌, is_present, get_or_else, is_blank, lookup, values, leb,
  ltb,
}
use navis.Schema.Vocabulary.{
  ParticipantType, participant_type_eq, ProjectStatus, project_status_eq, project_status_text,
  CapturePrivacy, WorkStatus, work_status_eq, asset_kind_eq, asset_scope_eq, asset_lifecycle_eq,
  acceptance_result_eq,
}
use navis.Schema.Ledgers.{
  HoldStatus, hold_status_eq, effect_status_eq, equip_status_eq, delivery_status_eq,
  direction_status_eq, work_run_status_eq, intervention_mode_eq, consent_status_eq,
}
use navis.Schema.Errors.{
  text, because, forbidden, rationale_required, version_conflict, blocking_hold,
}
use navis.Schema.Platform.{Platform}
use navis.Schema.Ids.{is_count, optional, is_uuidv7, is_text, is_criteria, max_safe_integer}
use navis.State.Rows.{ParticipantRow, ProjectRow, PolicyRow, WorkRow, HoldRow, alive}
use navis.State.Events
use navis.State.Events.{
  AssetSeed, EffectSeed, HoldRegistered, HoldMoved, CausalJudgment, CheckpointPayload,
  DeliveryRecorded, RunTransitioned, EventData, StateEvent,
}
use navis.Kernel.Core.{
  ok, ◌>>=◌, ◌>>◌, guard, refuse_if, need, Exec, then_run, run, state_version, append, append_then,
  invalid_fields, whitespace_only, is_blank_reason, any_blank, guard_preconditions,
  require_known_actor, require_human, blocking_hold_ids,
}

pub record RegisterParticipantCommand : Type 0 where
  pub participant_id : String
  pub type : ParticipantType
  pub display_name : Option String
  pub at : String

pub record CreateProjectCommand : Type 0 where
  pub project_id : Option String
  pub actor : String
  pub at : String
  pub title : String
  pub purpose : Option String
  pub boundary : Option String
  pub acceptance_criteria : Option (List String)
  pub expected_version : ℕ

pub record UpdateBoundaryCommand : Type 0 where
  pub actor : String
  pub at : String
  pub reason : String
  pub boundary : Option String
  pub acceptance_criteria : Option (List String)
  pub expected_version : ℕ

pub record UpdatePolicyCommand : Type 0 where
  pub capture_privacy : Option CapturePrivacy
  pub actor : String
  pub at : String
  pub reason : String
  pub event_count_window : Option ℕ
  pub time_window_days : Option ℕ
  pub expected_version : ℕ

pub record SetProjectStatusCommand : Type 0 where
  pub actor : String
  pub at : String
  pub reason : String
  pub to : ProjectStatus
  pub expected_version : ℕ

-- `legal` of `setProjectStatus`
unfoldable pub legal_status : ProjectStatus → List ProjectStatus
legal_status ProjectStatus.active =
    ProjectStatus.paused ∷ ProjectStatus.completed ∷ ProjectStatus.archived ∷ []
legal_status ProjectStatus.paused = ProjectStatus.active ∷ ProjectStatus.archived ∷ []
legal_status ProjectStatus.completed = []
legal_status ProjectStatus.archived = []

abbrev pub is_closed_work : WorkStatus → Bool
is_closed_work s = s == WorkStatus.completed || s == WorkStatus.cancelled

abbrev pub is_outstanding : HoldStatus → Bool
is_outstanding s = s == HoldStatus.registered || s == HoldStatus.active

module _ (z : Platform) where
  unfoldable pub register_participant : RegisterParticipantCommand → Exec (Option ParticipantRow)
  register_participant c k =
      run
        (do
          invalid_fields "register_participant" (
              ("participant_id", is_uuidv7 c.participant_id)
              ∷ ("display_name", optional (z.text_between 1 256) c.display_name)
              ∷ ("at", z.instant c.at)
              ∷ [])
          refuse_if (is_present (lookup c.participant_id k.draft.participants))
              (forbidden "register_participant" (because "participant-exists"))
          ok (
              append_then z (Events.participant_registered c.participant_id c.type c.display_name)
                c.at none (λ d. lookup c.participant_id d.participants)))
        k

  unfoldable pub create_project : CreateProjectCommand → String → Exec (Option ProjectRow)
  create_project c fresh k =
      run
        (do
          invalid_fields "create_project" (
              ("actor", is_uuidv7 c.actor)
              ∷ ("at", z.instant c.at)
              ∷ ("project_id", optional is_uuidv7 c.project_id)
              ∷ ("title", z.text_between 1 256 c.title)
              ∷ ("purpose", optional (is_text z) c.purpose)
              ∷ ("boundary", optional (is_text z) c.boundary)
              ∷ ("acceptance_criteria", optional (is_criteria z) c.acceptance_criteria)
              ∷ ("expected_version", leb c.expected_version max_safe_integer)
              ∷ [])
          whitespace_only "create_project" (
              ("title", is_blank c.title)
              ∷ ("purpose", is_blank_reason c.purpose)
              ∷ ("boundary", is_blank_reason c.boundary)
              ∷ ("acceptance_criteria", any_blank c.acceptance_criteria)
              ∷ [])
          refuse_if (is_present k.draft.project || not (c.expected_version == 0))
              (version_conflict c.expected_version (state_version k))
          require_known_actor "create_project" c.actor k
          ok (
              append_then z
                (Events.project_created (get_or_else c.project_id fresh) c.title c.purpose
                  c.boundary c.acceptance_criteria)
                c.at (some c.actor) (λ d. d.project)))
        k

  unfoldable pub update_boundary : UpdateBoundaryCommand → Exec (Option ProjectRow)
  update_boundary c k =
      run
        (do
          guard_preconditions c.expected_version "update_boundary" c.actor (some c.reason) true k
          invalid_fields "update_boundary" (
              ("at", z.instant c.at)
              ∷ ("boundary", optional (is_text z) c.boundary)
              ∷ ("acceptance_criteria", optional (is_criteria z) c.acceptance_criteria)
              ∷ [])
          guard (is_present c.boundary || is_present c.acceptance_criteria)
              (forbidden "update_boundary" (because "no-op"))
          ok (
              append_then z
                (Events.project_boundary_updated c.actor c.reason c.boundary c.acceptance_criteria)
                c.at (some c.actor) (λ d. d.project)))
        k

  unfoldable pub update_policy : UpdatePolicyCommand → Exec (Option PolicyRow)
  update_policy c k =
      run
        (do
          guard_preconditions c.expected_version "update_policy" c.actor (some c.reason) true k
          invalid_fields "update_policy" (
              ("at", z.instant c.at)
              ∷ ("event_count_window", optional is_count c.event_count_window)
              ∷ ("time_window_days", optional (ltb 0) c.time_window_days)
              ∷ [])
          guard
              (is_present c.event_count_window
                || is_present c.time_window_days
                || is_present c.capture_privacy)
              (forbidden "update_policy" (because "no-op"))
          ok (
              append_then z
                (Events.project_policy_updated c.actor c.reason c.capture_privacy
                  c.event_count_window c.time_window_days)
                c.at (some c.actor) (λ d. d.policy)))
        k

  -- the loop of the closure over the works
  unfoldable pub cancel_works : SetProjectStatusCommand → String → List WorkRow → Exec (Unit {0})
  cancel_works c cause [] k = (ok tt, k)
  cancel_works c cause (w ∷ ws) k =
      let rest = cancel_works c cause ws in
      if not (alive w.deleted_at) || is_closed_work w.status
      then rest k
      else then_run
          (append z
            (Events.work_status_changed w.id w.status WorkStatus.cancelled (some cause)
              (some "project_archived") (some c.actor))
            c.at (some c.actor) k)
          rest

  -- the loop of the closure over the holds
  unfoldable pub invalidate_holds :
      SetProjectStatusCommand → String → List HoldRow → Exec (Unit {0})
  invalidate_holds c cause [] k = (ok tt, k)
  invalidate_holds c cause (h ∷ hs) k =
      let rest = invalidate_holds c cause hs in
      if not (alive h.deleted_at) || not (is_outstanding h.status)
      then rest k
      else then_run
          (append z
            (Events.hold_moved HoldStatus.invalidated (record {
              hold_id = h.id;
              from = h.status;
              actor = c.actor;
              reason = some cause;
              cause = some "project_archived";
            }))
            c.at (some c.actor) k)
          rest

  -- the closure of an archived project: works first, then holds
  unfoldable pub archive_closure : SetProjectStatusCommand → Exec (Unit {0})
  archive_closure c k =
      let cause = concat "project archive: " c.reason in
      then_run (cancel_works c cause (values k.draft.works) k)
        (λ k'. invalidate_holds c cause (values k'.draft.holds) k')

  abbrev pub status_append : SetProjectStatusCommand → ProjectStatus → Exec (Option ProjectRow)
  status_append c from =
      append_then z (Events.project_status_changed c.actor from c.to c.reason) c.at (some c.actor)
        (λ d. d.project)

  abbrev pub status_act : SetProjectStatusCommand → ProjectStatus → Exec (Option ProjectRow)
  status_act c from k =
      if c.to == ProjectStatus.archived
      then then_run (archive_closure c k) (status_append c from)
      else status_append c from k

  unfoldable pub set_project_status : SetProjectStatusCommand → Exec (Option ProjectRow)
  set_project_status c k =
      run
        (do
          require_human "set_project_status" c.actor k
          invalid_fields "set_project_status" (
              ("actor", is_uuidv7 c.actor)
              ∷ ("at", z.instant c.at)
              ∷ ("expected_version", leb c.expected_version max_safe_integer)
              ∷ [])
          refuse_if (is_blank c.reason) (rationale_required "set_project_status")
          p ← need k.draft.project (version_conflict c.expected_version 0)
          guard (p.current_state_version == c.expected_version)
              (version_conflict c.expected_version p.current_state_version)
          guard (any (λ s. s == c.to) (legal_status p.status)) (
              forbidden "set_project_status" (
                ("from", text (project_status_text p.status))
                ∷ ("to", text (project_status_text c.to))
                ∷ ("reason", text "illegal-status-transition")
                ∷ []))
          refuse_if
              (c.to == ProjectStatus.completed && ltb 0 (length (blocking_hold_ids k.draft.holds)))
              (blocking_hold (blocking_hold_ids k.draft.holds))
          ok (status_act c p.status))
        k
