-- ===== src/Kernel/Effect/Terminal.antt =====
-- When an effect may be closed, and what an intent key is bound to.
use navis.Base.{◌≡◌, Option-cases, inl, inr, false, ◌&&◌, String, Option, some, arith}
use navis.Schema.Platform.{Platform}
use navis.Schema.Ledgers.{EffectStatus, effect_status_eq}
use navis.State.Rows.{EffectRow}
use navis.Kernel.Core.{Kernel, ok, ◌>>=◌, ◌>>◌}
use navis.Kernel.Effect.{
  CloseEffectCommand, close_effect, live_effect, is_cancelled, RecordEffectIntentCommand,
  record_effect_intent, find_intent,
}

-- An effect that is closed was live and executing, and one with a late cancellation is not confirmed.
pub close_effect-executing :
    (z : Platform) (c : CloseEffectCommand) (k k' : Kernel) (row : Option EffectRow)
    → close_effect z c k ≡ (ok row, k')
    → (ef : EffectRow) × (live_effect k.draft c.effect_id ≡ some ef)
      × (ef.status ≡ EffectStatus.executing)
      × ((is_cancelled ef && c.confirmed) ≡ false)
unfolding close_effect ◌>>=◌ ◌>>◌
close_effect-executing z c k k' row h = elim (Option-cases (live_effect k.draft c.effect_id)) [
  | inl n ↦ absurd (ground arith)
  | inr (ef, e) ↦ (ef, e, ground arith, ground arith)
]

pub record_effect_intent-bound :
    (z : Platform) (c : RecordEffectIntentCommand) (fresh : String) (k k' : Kernel)
    (row : Option EffectRow) (existing : EffectRow)
    → find_intent k.draft.effects c.intent_key ≡ some existing
    → record_effect_intent z c fresh k ≡ (ok row, k')
    → (k ≡ k') × (row ≡ some existing) × (existing.status ≡ EffectStatus.unknown)
unfolding record_effect_intent ◌>>=◌ ◌>>◌
record_effect_intent-bound z c fresh k k' row existing e h =
    (ground arith, ground arith, ground arith)
