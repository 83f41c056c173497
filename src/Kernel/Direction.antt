-- ===== src/Kernel/Direction.antt =====
-- The commands `proposeDirection` and `resolveDirection`.
use navis.Base.{
  ℕ, String, Bool, ◌||◌, Option, some, [], ◌∷◌, ◌==◌, nat_eq, string_eq, if◌then◌else◌, is_present,
  is_blank, trim, lookup,
}
use navis.Schema.Vocabulary.{
  participant_type_eq, ProjectStatus, project_status_eq, project_status_text, work_status_eq,
  asset_kind_eq, asset_scope_eq, asset_lifecycle_eq, acceptance_result_eq,
}
use navis.Schema.Ledgers.{
  hold_status_eq, effect_status_eq, equip_status_eq, delivery_status_eq, DirectionStatus,
  direction_status_eq, work_run_status_eq, intervention_mode_eq, consent_status_eq,
}
use navis.Schema.Errors.{
  because, forbidden, rationale_required, version_conflict, project_not_active,
}
use navis.Schema.Platform.{Platform}
use navis.Schema.Ids.{optional, is_uuidv7}
use navis.State.Rows.{IntendedDirectionRow, Projection}
use navis.State.Events
use navis.State.Events.{
  AssetSeed, EffectSeed, HoldRegistered, HoldMoved, CausalJudgment, CheckpointPayload,
  DeliveryRecorded, RunTransitioned, EventData, StateEvent,
}
use navis.Kernel.Core.{
  ok, ◌>>=◌, ◌>>◌, guard, refuse_if, need, Exec, run, state_version, append_then, invalid_fields,
  require_known_actor, require_human, live_row,
}

pub record ProposeDirectionCommand : Type 0 where
  pub actor : String
  pub at : String
  pub direction_id : String
  pub title : String
  pub detail : Option String

pub record ResolveDirectionCommand : Type 0 where
  pub actor : String
  pub at : String
  pub direction_id : String
  -- whether the resolution is `confirmed`; the other value is `discarded`
  pub confirmed : Bool
  pub resolution_reason : String
  pub expected_version : ℕ

abbrev is_terminal_project : ProjectStatus → Bool
is_terminal_project s = s == ProjectStatus.completed || s == ProjectStatus.archived

abbrev pub resolution : Bool → DirectionStatus
resolution confirmed = if confirmed then DirectionStatus.confirmed else DirectionStatus.discarded

abbrev pub live_direction : Projection → String → Option IntendedDirectionRow
live_direction d id =
    live_row (λ (r : IntendedDirectionRow). r.deleted_at) (lookup id d.intended_directions)

module _ (z : Platform) where
  unfoldable pub propose_direction : ProposeDirectionCommand → Exec (Option IntendedDirectionRow)
  propose_direction c k =
      run
        (do
          require_known_actor "propose_direction" c.actor k
          p ← need k.draft.project (forbidden "propose_direction" (because "no-project"))
          refuse_if (is_terminal_project p.status)
              (project_not_active (project_status_text p.status) "propose_direction")
          refuse_if (is_blank c.title) (forbidden "propose_direction" (because "title-length"))
          invalid_fields "propose_direction" (
              ("actor", is_uuidv7 c.actor)
              ∷ ("at", z.instant c.at)
              ∷ ("direction_id", is_uuidv7 c.direction_id)
              ∷ ("title", z.text_between 1 256 c.title)
              ∷ ("detail", optional (z.text_between 1 4096) c.detail)
              ∷ [])
          refuse_if (is_present (lookup c.direction_id k.draft.intended_directions))
              (forbidden "propose_direction" (because "direction-exists"))
          ok (
              append_then z (Events.direction_proposed c.direction_id (trim c.title) c.detail) c.at
                (some c.actor) (λ d. lookup c.direction_id d.intended_directions)))
        k

  unfoldable pub resolve_direction : ResolveDirectionCommand → Exec (Option IntendedDirectionRow)
  resolve_direction c k =
      run
        (do
          require_human "resolve_direction" c.actor k
          invalid_fields "resolve_direction" (
              ("actor", is_uuidv7 c.actor)
              ∷ ("at", z.instant c.at)
              ∷ ("direction_id", is_uuidv7 c.direction_id)
              ∷ ("resolution_reason", z.text_between 1 4096 c.resolution_reason)
              ∷ [])
          dir ←
              need (live_direction k.draft c.direction_id)
                (forbidden "resolve_direction" (because "direction-not-found"))
          guard (dir.status == DirectionStatus.proposed)
              (forbidden "resolve_direction" (because "already-resolved"))
          refuse_if (is_blank c.resolution_reason) (rationale_required "resolve_direction")
          guard (state_version k == c.expected_version)
              (version_conflict c.expected_version (state_version k))
          ok (
              append_then z
                (Events.direction_resolved c.direction_id (resolution c.confirmed)
                  c.resolution_reason)
                c.at (some c.actor) (λ d. lookup c.direction_id d.intended_directions)))
        k
