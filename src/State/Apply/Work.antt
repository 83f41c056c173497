-- ===== src/State/Apply/Work.antt =====
-- The cases of `applyEvent` for works, equips, returns, effects, deliveries and directions.
use navis.Base.{◌+◌, String, Option, none, some, List, string_eq, Dict, insert}
use navis.Schema.Vocabulary.{WorkStatus, asset_lifecycle_eq, acceptance_result_eq}
use navis.Schema.Ledgers.{EquipStatus, equip_status_eq}
use navis.State.Clock.{ClockSnapshot}
use navis.State.Rows.{WorkRow, CheckpointRow, Projection}
use navis.State.Events.{CheckpointPayload, StateEvent}
use navis.State.Replay.{Replay, ok, ◌>>=◌, modify}

unfoldable pub fold_work_created :
    Projection
    → StateEvent
    → String
    → String
    → String
    → Option String
    → Option (List String)
    → Option (List String)
    → Projection
fold_work_created d e work_id project_id title direction criteria depends_on = record d {
  works =
      insert work_id
        (record {
          id = work_id;
          project_id = project_id;
          title = title;
          status = WorkStatus.planned;
          direction = direction;
          acceptance_criteria = criteria;
          depends_on = depends_on;
          aggregate_revision = 1;
          created_at = e.at;
          updated = none;
          deleted_at = none;
        })
        d.works;
}

-- the checkpoint of a redirection, which the event carries or leaves out
unfoldable pub redirect_checkpoint :
    Dict CheckpointRow → StateEvent → String → Option CheckpointPayload → Dict CheckpointRow
redirect_checkpoint checkpoints e work_id none = checkpoints
redirect_checkpoint checkpoints e work_id (some cp) =
    insert cp.id
      (record {
        id = cp.id;
        work_id = work_id;
        run_id = none;
        reason = cp.reason;
        captured_at = e.at;
        state_version = e.state_version;
        position = cp.position;
        resume_ref = none;
      })
      checkpoints

unfoldable pub fold_work_redirected :
    Projection → StateEvent → String → String → Option CheckpointPayload → Replay Projection
unfolding modify redirect_checkpoint
fold_work_redirected d e work_id direction checkpoint = do
  works ←
      modify "work" work_id
        (λ (w : WorkRow). record w {
          direction = some direction;
          aggregate_revision = w.aggregate_revision + 1;
        })
        d.works
  ok (record d {
    works = works;
    checkpoints = redirect_checkpoint d.checkpoints e work_id checkpoint;
  })

unfoldable pub fold_work_status_changed : Projection → String → WorkStatus → Replay Projection
unfolding modify
fold_work_status_changed d work_id to = do
  works ←
      modify "work" work_id
        (λ (w : WorkRow). record w { status = to; aggregate_revision = w.aggregate_revision + 1 })
        d.works
  ok (record d { works = works })

unfoldable pub fold_equip_issued :
    Projection → StateEvent → String → Option String → String → Option ClockSnapshot → Projection
fold_equip_issued d e equip_id work_id participant_id causal_snapshot = record d {
  equips =
      insert equip_id
        (record {
          id = equip_id;
          work_id = work_id;
          participant_id = some participant_id;
          state_version = e.state_version;
          causal_snapshot = causal_snapshot;
          status = EquipStatus.active;
          created_at = e.at;
        })
        d.equips;
}
