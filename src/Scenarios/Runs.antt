-- ===== src/Scenarios/Runs.antt =====
-- A work run that waits for approval, and a human who approves it.
use navis.Base.{
  ◌≡◌, refl, Bool, true, false, not, ◌&&◌, ◌==◌, String, Option, none, some, List, [], ◌∷◌, lookup,
}
use navis.Schema.Ledgers.{WorkRunStatus, work_run_status_eq}
use navis.State.Rows.{WorkRunRow}
use navis.State.History
use navis.Kernel.Core.{Kernel, Outcome, is_human}
use navis.Kernel.Run.{TransitionRunCommand, transition_run, live_run}
use navis.Kernel.Run.Legal.{is_ended, transition_run-legal}
use navis.Scenarios.Base.{plain, now, alice, project_one, report, other_id}
use navis.Scenarios.Parts.{ready}

abbrev waiting_run : WorkRunRow
waiting_run = record {
  id = report;
  work_id = project_one;
  parent_run_id = none;
  status = WorkRunStatus.waiting_approval;
  run_revision = 1;
  re_equip_required = none;
  intervention_mode = none;
  intervention_sessions = [];
  checkpoint_id = none;
  input_state_version = 0;
  attempt = none;
  execution_refs = none;
  created_at = now;
  updated = none;
  deleted_at = none;
}

abbrev waiting : Kernel
waiting = record ready { draft = record ready.draft { work_runs = (report, waiting_run) ∷ [] } }

abbrev approve : TransitionRunCommand
approve = record {
  actor = alice;
  at = now;
  run_id = report;
  to = WorkRunStatus.running;
  reason = "approved";
  run_revision = 1;
  equip_id = none;
  input_provided = none;
  approval_result = some "yes";
  resume_checkpoint_id = none;
  checkpoint_reason = none;
  checkpoint_position = none;
  checkpoint_resume_ref = none;
  expected_version = 0;
}

abbrev approved : Kernel
approved = (transition_run plain approve other_id waiting).1

approve_runs :
    transition_run plain approve other_id waiting
    ≡ (Outcome.ok (lookup report approved.draft.work_runs), approved)
unfolding navis.Kernel.Run.transition_run navis.Kernel.Run.check_evidence
    navis.Kernel.Run.check_re_equip_gate navis.Schema.WorkRun.assert_work_run_transition
    navis.Kernel.Core.require_known_actor navis.Kernel.Core.require_human
    navis.State.Apply.Runs.fold_workrun_transitioned navis.Kernel.Core.◌>>◌ navis.Kernel.Core.◌>>=◌
    navis.Kernel.Core.invalid_fields navis.Base.filter navis.Schema.Ids.is_uuidv7 navis.Base.lookup
    navis.Base.insert navis.Kernel.Core.append navis.State.Payload.is_payload History.append
    navis.State.Payload.is_envelope History.current_seq History.head navis.State.Apply.apply_event
    navis.Kernel.Core.whitespace_only navis.Base.is_blank navis.Base.trim navis.Base.trim_start
    navis.Base.trim_end navis.Base.any navis.Base.all
approve_runs = refl

transition_run-legal_example :
    (r : WorkRunRow) × (live_run waiting.draft report ≡ some r)
    × (r.run_revision ≡ 1)
    × (is_ended r.status ≡ false)
    × ((r.status == WorkRunStatus.cancelling
          && not (WorkRunStatus.running == WorkRunStatus.cancelled))
        ≡ false)
    × ((r.status == WorkRunStatus.waiting_approval
          && WorkRunStatus.running == WorkRunStatus.running
          && not (is_human (lookup alice waiting.draft.participants)))
        ≡ false)
transition_run-legal_example =
    transition_run-legal plain approve other_id waiting approved
      (lookup report approved.draft.work_runs) approve_runs
