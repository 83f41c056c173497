-- ===== src/Kernel/Hold/Authority.antt =====
-- Who may activate a hold.
use navis.Base.{◌≡◌, subst, Option-cases, inl, inr, true, Option, some, lookup, arith}
use navis.Schema.Platform.{Platform}
use navis.Schema.Ledgers.{HoldStatus, hold_status_eq}
use navis.State.Rows.{HoldRow}
use navis.Kernel.Core.{Kernel, ok, ◌>>=◌, ◌>>◌, is_human, require_human}
use navis.Kernel.Hold.{TransitionHoldCommand, transition_hold, HoldRule, find_rule, live_hold}

find_rule-active :
    (from : HoldStatus) (r : HoldRule)
    → find_rule from HoldStatus.active ≡ some r
    → r.human_only ≡ true
unfolding find_rule
find_rule-active from r h = ground arith

-- A hold that a transition moves to active, from any state, was moved by a registered human.
pub transition_hold-human :
    (z : Platform) (c : TransitionHoldCommand) (k k' : Kernel) (row : Option HoldRow)
    → transition_hold z c k ≡ (ok row, k')
    → c.to ≡ HoldStatus.active
    → is_human (lookup c.actor k.draft.participants) ≡ true
unfolding transition_hold ◌>>=◌ ◌>>◌ require_human
transition_hold-human z c k k' row h t = elim (Option-cases (live_hold k.draft c.hold_id)) [
  | inl n ↦ absurd (ground arith)
  | inr (hold, e) ↦ elim (Option-cases (find_rule hold.status c.to)) [
    | inl n ↦ absurd (ground arith)
    | inr (r, f) ↦ ground (
      arith,
      find_rule-active hold.status r (subst (λ to. find_rule hold.status to ≡ some r) t f),
    )
  ]
]
