-- ===== src/State/Apply/Project.antt =====
-- The cases of `applyEvent` for participants, the project, its policy and its boundary.
use navis.Base.{
  ℕ, String, ◌&&◌, Option, none, some, List, [], ◌∷◌, ◌==◌, string_eq, ltb, if◌then◌else◌,
  get_or_else, is_present, Dict, insert,
}
use navis.Schema.Vocabulary.{
  ParticipantType, ProjectStatus, CapturePrivacy, asset_lifecycle_eq, acceptance_result_eq,
}
use navis.Schema.Ledgers.{EquipStatus, equip_status_eq}
use navis.State.Rows.{PolicyRow, EquipRow, Projection}
use navis.State.Events.{StateEvent}
use navis.State.Replay.{Replay, ok, ◌>>=◌, must}

-- `capture_privacy`, `event_count_window` and `time_window_days` of a new project
abbrev first_policy : StateEvent → PolicyRow
first_policy e = record {
  capture_privacy = CapturePrivacy.metadata;
  event_count_window = 500;
  time_window_days = 7;
  updated = some (record { at = e.at; actor = e.actor });
}

unfoldable pub fold_participant_registered :
    Projection → StateEvent → String → ParticipantType → Option String → Projection
fold_participant_registered d e id type display_name = record d {
  participants =
      insert id
        (record {
          id = id;
          project_id = none;
          type = type;
          display_name = display_name;
          role = none;
          created_at = e.at;
        })
        d.participants;
}

unfoldable pub fold_project_created :
    Projection
    → StateEvent
    → String
    → String
    → Option String
    → Option String
    → Option (List String)
    → Projection
fold_project_created d e project_id title purpose boundary criteria = record d {
  project = some (record {
    id = project_id;
    title = title;
    purpose = purpose;
    boundary = boundary;
    acceptance_criteria = criteria;
    status = ProjectStatus.active;
    current_state_version = 0;
    created_at = e.at;
    updated = none;
  });
  policy = some (first_policy e);
}

unfoldable pub fold_policy_updated :
    Projection → StateEvent → Option CapturePrivacy → Option ℕ → Option ℕ → Replay Projection
fold_policy_updated d e privacy count days = do
  policy ← must d.policy "policy row"
  ok (record d {
    policy = some (record {
      capture_privacy = get_or_else privacy policy.capture_privacy;
      event_count_window = get_or_else count policy.event_count_window;
      time_window_days = get_or_else days policy.time_window_days;
      updated = some (record { at = e.at; actor = e.actor });
    });
  })

-- an equip bound to an older version goes stale
abbrev pub invalidate : ℕ → EquipRow → EquipRow
invalidate version equip =
    if equip.status == EquipStatus.active && ltb equip.state_version version
    then record equip { status = EquipStatus.stale }
    else equip

unfoldable pub invalidate_all : ℕ → Dict EquipRow → Dict EquipRow
invalidate_all version [] = []
invalidate_all version ((id, equip) ∷ rest) =
    (id, invalidate version equip) ∷ invalidate_all version rest

unfoldable pub fold_boundary_updated :
    Projection → StateEvent → Option String → Option (List String) → Replay Projection
unfolding invalidate_all
fold_boundary_updated d e boundary criteria = do
  p ← must d.project "project"
  let p' = record p {
    boundary = if is_present boundary then boundary else p.boundary;
    acceptance_criteria = if is_present criteria then criteria else p.acceptance_criteria;
  }
  ok (record d { project = some p'; equips = invalidate_all e.state_version d.equips })

unfoldable pub fold_status_changed : Projection → ProjectStatus → Replay Projection
fold_status_changed d to = do
  p ← must d.project "project"
  ok (record d { project = some (record p { status = to }) })
