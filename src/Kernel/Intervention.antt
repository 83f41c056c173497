-- ===== src/Kernel/Intervention.antt =====
-- The commands `openIntervention` and `closeIntervention`.
use navis.Base.{
  ℕ, ◌+◌, String, Bool, false, Option, none, some, [], ◌∷◌, ◌==◌, nat_eq, string_eq, any, find?,
  if◌then◌else◌, is_present, lookup,
}
use navis.Schema.Vocabulary.{
  participant_type_eq, project_status_eq, work_status_eq, asset_kind_eq, asset_scope_eq,
  asset_lifecycle_eq, acceptance_result_eq,
}
use navis.Schema.Ledgers.{
  hold_status_eq, effect_status_eq, equip_status_eq, delivery_status_eq, direction_status_eq,
  work_run_status_eq, InterventionMode, intervention_mode_eq, ConsentStatus, consent_status_eq,
}
use navis.Schema.Errors.{because, forbidden, version_conflict}
use navis.Schema.Platform.{Platform}
use navis.Schema.Ids.{is_uuidv7}
use navis.State.Intervention.{
  check_takeover_opening, check_close_authority, initial_consent, check_terminal_consent,
  ConsentClose,
}
use navis.State.Rows.{ProjectRow, RunSessionRow, WorkRunRow}
use navis.State.Events
use navis.State.Events.{
  AssetSeed, EffectSeed, HoldRegistered, HoldMoved, CausalJudgment, CheckpointPayload,
  DeliveryRecorded, RunTransitioned, EventData, StateEvent,
}
use navis.Kernel.Core.{
  Outcome, ok, refused, ◌>>=◌, ◌>>◌, guard, refuse_if, need, Exec, run, state_version, append_then,
  invalid_fields, require_known_actor, is_human,
}
use navis.Kernel.Run.{require_run}

pub record OpenInterventionCommand : Type 0 where
  pub actor : String
  pub at : String
  pub run_id : String
  pub session_id : String
  pub mode : InterventionMode
  pub expected_version : ℕ
  pub run_revision : ℕ

pub record CloseInterventionCommand : Type 0 where
  pub actor : String
  pub at : String
  pub run_id : String
  pub session_id : String
  pub consent_status : Option ConsentStatus
  pub expected_version : ℕ
  pub run_revision : ℕ

-- `this.#draft.project?.current_state_version !== expected`
abbrev is_version : ℕ → Option ProjectRow → Bool
is_version expected none = false
is_version expected (some p) = p.current_state_version == expected

abbrev permit : String → Option String → Outcome (Unit {0})
permit action none = ok tt
permit action (some reason) = refused (forbidden action (because reason))

-- the session of this name, where it has not ended
abbrev open_session_of : Option RunSessionRow → Option RunSessionRow
open_session_of none = none
open_session_of (some s) = if is_present s.ended_at then none else some s

abbrev closing_consent : ConsentClose → Outcome (Option ConsentStatus)
closing_consent (ConsentClose.consent c) = ok c
closing_consent (ConsentClose.refused_consent reason) =
    refused (forbidden "close_intervention" (because reason))

-- only a takeover is exclusive and needs presence
abbrev pub check_opening : OpenInterventionCommand → WorkRunRow → Outcome (Unit {0})
check_opening c r =
    if c.mode == InterventionMode.takeover
    then permit "open_intervention" (check_takeover_opening r.intervention_sessions c.actor)
    else ok tt

module _ (z : Platform) where
  unfoldable pub open_intervention : OpenInterventionCommand → Exec (Option WorkRunRow)
  open_intervention c k =
      run
        (do
          r ← require_run c.run_id "open_intervention" k
          require_known_actor "open_intervention" c.actor k
          invalid_fields "open_intervention" (
              ("actor", is_uuidv7 c.actor)
              ∷ ("at", z.instant c.at)
              ∷ ("run_id", is_uuidv7 c.run_id)
              ∷ ("session_id", z.text_between 1 128 c.session_id)
              ∷ [])
          refuse_if
              (any (λ (s : RunSessionRow). s.session_id == c.session_id) r.intervention_sessions)
              (forbidden "open_intervention" (because "session-exists"))
          guard (r.run_revision == c.run_revision) (version_conflict c.run_revision r.run_revision)
          guard (is_version c.expected_version k.draft.project)
              (version_conflict c.expected_version (state_version k))
          check_opening c r
          ok (
              append_then z
                (Events.intervention_session_opened c.run_id c.session_id c.mode
                  (r.run_revision + 1) (initial_consent c.mode))
                c.at (some c.actor) (λ d. lookup c.run_id d.work_runs)))
        k

  unfoldable pub close_intervention : CloseInterventionCommand → Exec (Option WorkRunRow)
  close_intervention c k =
      run
        (do
          r ← require_run c.run_id "close_intervention" k
          require_known_actor "close_intervention" c.actor k
          invalid_fields "close_intervention" (
              ("actor", is_uuidv7 c.actor)
              ∷ ("at", z.instant c.at)
              ∷ ("run_id", is_uuidv7 c.run_id)
              ∷ ("session_id", z.text_between 1 128 c.session_id)
              ∷ [])
          guard (r.run_revision == c.run_revision) (version_conflict c.run_revision r.run_revision)
          guard (is_version c.expected_version k.draft.project)
              (version_conflict c.expected_version (state_version k))
          s ←
              need
                (open_session_of (
                  find? (λ (s : RunSessionRow). s.session_id == c.session_id)
                    r.intervention_sessions))
                (forbidden "close_intervention" (because "session-not-found"))
          permit "close_intervention"
              (check_close_authority s c.actor (is_human (lookup c.actor k.draft.participants)))
          consent ← closing_consent (check_terminal_consent s.mode c.consent_status)
          ok (
              append_then z
                (Events.intervention_session_closed c.run_id c.session_id
                  (s.mode == InterventionMode.takeover) (r.run_revision + 1) consent)
                c.at (some c.actor) (λ d. lookup c.run_id d.work_runs)))
        k
