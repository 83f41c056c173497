-- ===== src/Kernel/Run/Legal.antt =====
-- When a work run moves.
use navis.Base.{
  ◌≡◌, Option-cases, inl, inr, Bool, false, not, ◌&&◌, ◌||◌, ◌==◌, nat_eq, String, Option, none,
  some, lookup, arith,
}
use navis.Schema.Platform.{Platform}
use navis.Schema.Ledgers.{WorkRunStatus, work_run_status_eq}
use navis.Schema.WorkRun.{assert_work_run_transition}
use navis.State.Rows.{WorkRunRow}
use navis.Kernel.Core.{Kernel, ok, ◌>>=◌, ◌>>◌, is_human, require_human}
use navis.Kernel.Run.{TransitionRunCommand, transition_run, live_run, check_evidence}

abbrev pub is_ended : WorkRunStatus → Bool
is_ended s =
    s == WorkRunStatus.completed || s == WorkRunStatus.failed || s == WorkRunStatus.cancelled

not_ended :
    (from to : WorkRunStatus)
    → assert_work_run_transition from to ≡ none
    → (is_ended from ≡ false)
      × ((from == WorkRunStatus.cancelling && not (to == WorkRunStatus.cancelled)) ≡ false)
unfolding assert_work_run_transition
not_ended from to h = (ground arith, ground arith)

-- A work run that is moved was live, at the revision that the command expects, and had not ended; one
-- that was cancelling is moved only to cancelled; and only a human approves one that waits for
-- approval.
pub transition_run-legal :
    (z : Platform) (c : TransitionRunCommand) (fresh : String) (k k' : Kernel)
    (row : Option WorkRunRow)
    → transition_run z c fresh k ≡ (ok row, k')
    → (r : WorkRunRow) × (live_run k.draft c.run_id ≡ some r)
      × (r.run_revision ≡ c.run_revision)
      × (is_ended r.status ≡ false)
      × ((r.status == WorkRunStatus.cancelling && not (c.to == WorkRunStatus.cancelled)) ≡ false)
      × ((r.status == WorkRunStatus.waiting_approval
            && c.to == WorkRunStatus.running
            && not (is_human (lookup c.actor k.draft.participants)))
          ≡ false)
unfolding transition_run check_evidence require_human ◌>>=◌ ◌>>◌
transition_run-legal z c fresh k k' row h = elim (Option-cases (live_run k.draft c.run_id)) [
  | inl n ↦ absurd (ground arith)
  | inr (r, e) ↦ (
    r,
    e,
    ground arith,
    (not_ended r.status c.to (ground arith)).0,
    (not_ended r.status c.to (ground arith)).1,
    ground arith,
  )
]
