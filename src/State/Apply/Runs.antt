-- ===== src/State/Apply/Runs.antt =====
-- The cases of `applyEvent` for work runs and intervention sessions.
use navis.Base.{
  ℕ, String, Bool, true, false, Option, none, some, List, [], ◌∷◌, ◌++◌, ◌==◌, string_eq,
  if◌then◌else◌, get_or_else, is_present, Dict, lookup, insert,
}
use navis.Schema.Vocabulary.{asset_lifecycle_eq, acceptance_result_eq}
use navis.Schema.Ledgers.{equip_status_eq, WorkRunStatus, InterventionMode, ConsentStatus}
use navis.State.Intervention.{strongest_active_mode}
use navis.State.Rows.{CheckpointRow, WorkRunRow, RunSessionRow, Projection}
use navis.State.Events.{RunTransitioned, CheckpointPayload, StateEvent}
use navis.State.Replay.{Replay, ok, ◌>>=◌, must, modify}

unfoldable pub fold_workrun_started :
    Projection
    → StateEvent
    → String
    → String
    → Option String
    → ℕ
    → Option (Dict String)
    → Projection
fold_workrun_started d e run_id work_id parent attempt refs = record d {
  work_runs =
      insert run_id
        (record {
          id = run_id;
          work_id = work_id;
          parent_run_id = parent;
          status = WorkRunStatus.running;
          run_revision = 1;
          re_equip_required = none;
          intervention_mode = none;
          intervention_sessions = [];
          checkpoint_id = none;
          input_state_version = e.state_version;
          attempt = some attempt;
          execution_refs = refs;
          created_at = e.at;
          updated = none;
          deleted_at = none;
        })
        d.work_runs;
}

unfoldable pub run_checkpoint :
    Dict CheckpointRow → StateEvent → String → Option CheckpointPayload → Dict CheckpointRow
run_checkpoint checkpoints e work_id none = checkpoints
run_checkpoint checkpoints e work_id (some cp) =
    insert cp.id
      (record {
        id = cp.id;
        work_id = work_id;
        run_id = cp.run_id;
        reason = cp.reason;
        captured_at = e.at;
        state_version = e.state_version;
        position = cp.position;
        resume_ref = cp.resume_ref;
      })
      checkpoints

-- the checkpoint that the event creates, then the one that it resumes from
abbrev pub checkpoint_id_after :
    Option String → Option CheckpointPayload → Option String → Option String
checkpoint_id_after old checkpoint (some resume) = some resume
checkpoint_id_after old (some cp) none = some cp.id
checkpoint_id_after old none none = old

abbrev pub clears_flag : Option Bool → Bool → Option Bool
clears_flag (some true) true = some false
clears_flag flag resume = flag

abbrev pub moved_run : RunTransitioned → WorkRunRow → WorkRunRow
moved_run t run = record run {
  status = t.to;
  run_revision = t.run_revision;
  checkpoint_id = checkpoint_id_after run.checkpoint_id t.checkpoint t.resume_checkpoint_id;
  re_equip_required = clears_flag run.re_equip_required t.resume;
}

unfoldable pub fold_workrun_transitioned :
    Projection → StateEvent → RunTransitioned → Replay Projection
unfolding run_checkpoint
fold_workrun_transitioned d e t = do
  run ← must (lookup t.run_id d.work_runs) "work run"
  ok (record d {
    work_runs = insert t.run_id (moved_run t run) d.work_runs;
    checkpoints = run_checkpoint d.checkpoints e run.work_id t.checkpoint;
  })

-- The payload has no `participant_id`, so an event with no actor would leave it undefined; here "".
abbrev pub opened_session :
    StateEvent → String → InterventionMode → Option ConsentStatus → RunSessionRow
opened_session e session_id mode consent = record {
  session_id = session_id;
  participant_id = get_or_else e.actor "";
  mode = mode;
  started_at = e.at;
  ended_at = none;
  consent_status = consent;
}

-- `if (top !== undefined) run.intervention_mode = top`
unfoldable pub open_session : RunSessionRow → ℕ → WorkRunRow → WorkRunRow
unfolding strongest_active_mode
open_session session revision run =
    let sessions = run.intervention_sessions ++ session ∷ [] in
    let top = strongest_active_mode sessions in
    record run {
      intervention_sessions = sessions;
      run_revision = revision;
      intervention_mode = if is_present top then top else run.intervention_mode;
    }

unfoldable pub fold_session_opened :
    Projection
    → StateEvent
    → String
    → String
    → InterventionMode
    → ℕ
    → Option ConsentStatus
    → Replay Projection
unfolding modify open_session
fold_session_opened d e run_id session_id mode revision consent = do
  runs ←
      modify "work run" run_id (open_session (opened_session e session_id mode consent) revision)
        d.work_runs
  ok (record d { work_runs = runs })

abbrev pub end_session : String → String → Option ConsentStatus → RunSessionRow → RunSessionRow
end_session session_id at consent x =
    if x.session_id == session_id
    then record x {
      ended_at = some at;
      consent_status = if is_present consent then consent else x.consent_status;
    }
    else x

unfoldable pub end_sessions :
    String → String → Option ConsentStatus → List RunSessionRow → List RunSessionRow
end_sessions session_id at consent [] = []
end_sessions session_id at consent (x ∷ xs) =
    end_session session_id at consent x ∷ end_sessions session_id at consent xs

unfoldable pub close_session :
    String → String → Option ConsentStatus → Bool → ℕ → WorkRunRow → WorkRunRow
unfolding end_sessions strongest_active_mode
close_session session_id at consent was_takeover revision run =
    let sessions = end_sessions session_id at consent run.intervention_sessions in
    record run {
      intervention_sessions = sessions;
      intervention_mode = strongest_active_mode sessions;
      run_revision = revision;
      re_equip_required = if was_takeover then some true else run.re_equip_required;
    }

unfoldable pub fold_session_closed :
    Projection → StateEvent → String → String → Bool → ℕ → Option ConsentStatus → Replay Projection
unfolding modify close_session
fold_session_closed d e run_id session_id was_takeover revision consent = do
  runs ←
      modify "work run" run_id (close_session session_id e.at consent was_takeover revision)
        d.work_runs
  ok (record d { work_runs = runs })
