-- ===== src/Schema/WorkRun.antt =====
-- schema/workrun.ts: the legal pairs of a work run.
use navis.Base.{Option, none, some, List, [], ◌∷◌, ◌==◌, any, if◌then◌else◌}
use navis.Schema.Ledgers.{WorkRunStatus, work_run_status_eq, work_run_status_text}
use navis.Schema.Errors.{Refusal, illegal_transition}

-- `LEGAL_RUN_TRANSITIONS`
unfoldable pub legal_run_transitions : WorkRunStatus → List WorkRunStatus
legal_run_transitions WorkRunStatus.ready = WorkRunStatus.running ∷ []
legal_run_transitions WorkRunStatus.running =
    WorkRunStatus.waiting_input ∷ WorkRunStatus.waiting_approval ∷ WorkRunStatus.paused
    ∷ WorkRunStatus.cancelling ∷ WorkRunStatus.completed ∷ WorkRunStatus.failed ∷ []
legal_run_transitions WorkRunStatus.waiting_input =
    WorkRunStatus.running ∷ WorkRunStatus.paused ∷ WorkRunStatus.cancelling ∷ []
legal_run_transitions WorkRunStatus.waiting_approval =
    WorkRunStatus.running ∷ WorkRunStatus.paused ∷ WorkRunStatus.cancelling ∷ []
legal_run_transitions WorkRunStatus.paused = WorkRunStatus.running ∷ WorkRunStatus.cancelling ∷ []
legal_run_transitions WorkRunStatus.cancelling = WorkRunStatus.cancelled ∷ []
legal_run_transitions WorkRunStatus.cancelled = []
legal_run_transitions WorkRunStatus.failed = []
legal_run_transitions WorkRunStatus.completed = []

-- The error of `assertWorkRunTransition`, or none.
unfoldable pub assert_work_run_transition : WorkRunStatus → WorkRunStatus → Option Refusal
unfolding legal_run_transitions any
assert_work_run_transition from to =
    if any (λ s. s == to) (legal_run_transitions from)
    then none
    else some (illegal_transition (work_run_status_text from) (work_run_status_text to) [])
