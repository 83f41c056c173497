-- ===== src/Kernel/Work.antt =====
-- The commands `createWork`, `cancelWork` and `redirectWork`.
use navis.Base.{
  ℕ, String, Bool, true, ◌||◌, Option, none, some, [], ◌∷◌, ◌==◌, nat_eq, string_eq, if◌then◌else◌,
  get_or_else, is_blank, lookup,
}
use navis.Schema.Vocabulary.{
  participant_type_eq, project_status_eq, WorkStatus, work_status_eq, work_status_text,
  asset_kind_eq, asset_scope_eq, asset_lifecycle_eq, acceptance_result_eq,
}
use navis.Schema.Ledgers.{
  hold_status_eq, effect_status_eq, equip_status_eq, delivery_status_eq, direction_status_eq,
  work_run_status_eq, intervention_mode_eq, consent_status_eq,
}
use navis.Schema.Errors.{text, because, forbidden}
use navis.Schema.Platform.{Platform}
use navis.Schema.Ids.{optional, is_uuidv7, is_text}
use navis.State.Rows.{Json, WorkRow, Projection}
use navis.State.Events
use navis.State.Events.{
  AssetSeed, EffectSeed, HoldRegistered, HoldMoved, CausalJudgment, CheckpointPayload,
  DeliveryRecorded, RunTransitioned, EventData, StateEvent,
}
use navis.Kernel.Core.{
  ok, ◌>>=◌, ◌>>◌, refuse_if, need, Exec, run, append_then, invalid_fields, whitespace_only,
  is_blank_reason, guard_preconditions, require_project, live_row,
}

pub record CreateWorkCommand : Type 0 where
  pub actor : String
  pub at : String
  pub reason : String
  pub title : String
  pub direction : Option String
  pub expected_version : ℕ

pub record CancelWorkCommand : Type 0 where
  pub actor : String
  pub at : String
  pub reason : String
  pub work_id : String
  pub expected_version : ℕ

pub record RedirectWorkCommand : Type 0 where
  pub actor : String
  pub at : String
  pub reason : String
  pub work_id : String
  pub direction : String
  pub create_checkpoint : Option Bool
  pub expected_version : ℕ

abbrev pub live_work : Projection → String → Option WorkRow
live_work d id = live_row (λ (w : WorkRow). w.deleted_at) (lookup id d.works)

module _ (z : Platform) where
  unfoldable pub create_work : CreateWorkCommand → String → Exec (Option WorkRow)
  create_work c fresh k =
      run
        (do
          guard_preconditions c.expected_version "create_work" c.actor (some c.reason) true k
          invalid_fields "create_work" (
              ("at", z.instant c.at)
              ∷ ("title", z.text_between 1 256 c.title)
              ∷ ("direction", optional (is_text z) c.direction)
              ∷ [])
          whitespace_only "create_work" (
              ("title", is_blank c.title)
              ∷ ("reason", is_blank c.reason)
              ∷ ("direction", is_blank_reason c.direction)
              ∷ [])
          p ← require_project k
          ok (
              append_then z
                (Events.work_created fresh p.id c.title c.reason c.direction none none c.actor) c.at
                (some c.actor) (λ d. lookup fresh d.works)))
        k

  unfoldable pub cancel_work : CancelWorkCommand → Exec (Option WorkRow)
  cancel_work c k =
      run
        (do
          guard_preconditions c.expected_version "cancel_work" c.actor (some c.reason) true k
          invalid_fields "cancel_work"
              (("at", z.instant c.at) ∷ ("work_id", is_uuidv7 c.work_id) ∷ [])
          w ←
              need (live_work k.draft c.work_id)
                (forbidden "cancel_work" (because "work-not-found"))
          refuse_if (w.status == WorkStatus.completed || w.status == WorkStatus.cancelled) (
              forbidden "cancel_work" (
                ("reason", text "work-already-terminal")
                ∷ ("status", text (work_status_text w.status))
                ∷ []))
          ok (
              append_then z
                (Events.work_status_changed c.work_id w.status WorkStatus.cancelled (some c.reason)
                  none (some c.actor))
                c.at (some c.actor) (λ d. lookup c.work_id d.works)))
        k

  abbrev redirect_payload : RedirectWorkCommand → String → Option CheckpointPayload
  redirect_payload c fresh =
      if get_or_else c.create_checkpoint true
      then some (record {
        id = fresh;
        run_id = none;
        reason = some c.reason;
        position =
            some (Json.fields (("work_id", c.work_id) ∷ ("redirected_to", c.direction) ∷ []));
        resume_ref = none;
      })
      else none

  unfoldable pub redirect_work : RedirectWorkCommand → String → Exec (Option WorkRow)
  redirect_work c fresh k =
      run
        (do
          guard_preconditions c.expected_version "redirect_work" c.actor (some c.reason) true k
          invalid_fields "redirect_work" (
              ("at", z.instant c.at)
              ∷ ("work_id", is_uuidv7 c.work_id)
              ∷ ("direction", is_text z c.direction)
              ∷ [])
          whitespace_only "redirect_work" (("direction", is_blank c.direction) ∷ [])
          w ←
              need (live_work k.draft c.work_id)
                (forbidden "redirect_work" (because "work-not-found"))
          ok (
              append_then z
                (Events.work_redirected c.work_id c.direction (some c.reason) (some c.actor)
                  (redirect_payload c fresh))
                c.at (some c.actor) (λ d. lookup c.work_id d.works)))
        k
