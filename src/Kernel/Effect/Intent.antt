-- ===== src/Kernel/Effect/Intent.antt =====
-- An intent key is recorded once: `recordEffectIntent` again, over the effect that it recorded.
use navis.Base.{
  String, ◌≡◌, refl, sym, subst, ◌∙◌, ap, Bool, true, false, ◌&&◌, Option, none, some, List, [],
  ◌∷◌, string_eq, Dict, lookup, insert, values, find?, is_some_eq, lookup-insert_self, Bool-cases,
  inl, inr, eq_iff, eq_refl, arith, if◌then◌else◌,
}
use navis.Schema.Platform.{Platform}
use navis.Schema.Ledgers.{EffectStatus, effect_status_eq}
use navis.State.Rows.{EffectRow, alive, Projection}
use navis.State.Events
use navis.State.Payload.{is_payload}
use navis.Schema.Errors.{invalid_payload}
use navis.State.Events.{EventData, StateEvent, is_kernel_event}
use navis.State.History
use navis.State.Replay
use navis.State.Replay.{touch}
use navis.State.Apply.{apply_event, stamp}
use navis.State.Apply.Effect.{new_effect}
use navis.Kernel.Core.{
  Kernel, Outcome, ok, refused, threw, append, then_run, next_event, extend, ◌>>=◌, ◌>>◌,
}
use navis.Kernel.Effect.{RecordEffectIntentCommand, record_effect_intent, find_intent}
use navis.Kernel.Effect.Terminal.{record_effect_intent-bound}

-- a live row that carries the key
abbrev pub carries : String → EffectRow → Bool
carries key ef = alive ef.deleted_at && is_some_eq ef.intent_key key

find_intent-carries :
    (key : String) (effects : Dict EffectRow) (row : EffectRow)
    → find_intent effects key ≡ some row
    → carries key row ≡ true
unfolding find_intent find? values
find_intent-carries key [] row h = cc
find_intent-carries key ((id, ef) ∷ rest) row h = elim (Bool-cases (carries key ef)) [
  | inl e ↦
      let same : some ef ≡ some row = ground (arith, e, h) in
      subst (λ (o : Option EffectRow). elim o [ none ↦ true | some r ↦ carries key r ] ≡ true) same
        e
  | inr e ↦ find_intent-carries key rest row (ground (arith, e, h))
]

find_intent-insert :
    (key id : String) (effects : Dict EffectRow) (row : EffectRow)
    → find_intent effects key ≡ none
    → carries key row ≡ true
    → find_intent (insert id row effects) key ≡ some row
unfolding find_intent find? values insert
find_intent-insert key id [] row h c = ground (arith, c)
find_intent-insert key id ((j, ef) ∷ rest) row h c =
    ground (arith, c, h, find_intent-insert key id rest row)

touch-insert :
    (id : String) (f : EffectRow → EffectRow) (row : EffectRow) (effects : Dict EffectRow)
    → touch id f (insert id row effects) ≡ insert id (f row) effects
unfolding touch insert lookup
touch-insert id f row [] = ground (arith, eq_refl id)
touch-insert id f row ((j, ef) ∷ rest) = ground (arith, eq_refl id, touch-insert id f row rest)

append-intent :
    (z : Platform) (c : RecordEffectIntentCommand) (fresh : String) (k k' : Kernel) (u : Unit {0})
    → append z
        (Events.effect_intent_recorded fresh c.intent_key c.actor c.asset_ref c.description)
        c.at
        (some c.actor)
        k
      ≡ (ok u, k')
    → (row : EffectRow) × (k'.draft.effects ≡ insert fresh row k.draft.effects)
      × (carries c.intent_key row ≡ true)
      × (row.status ≡ EffectStatus.unknown)
unfolding append apply_event insert navis.State.Apply.Effect.fold_effect_recorded
append-intent z c fresh k k' u h =
    by_guards (is_payload z body) (History.append z k.history event) h
  where
    body : EventData
    body = Events.effect_intent_recorded fresh c.intent_key c.actor c.asset_ref c.description

    event : StateEvent
    event = next_event k body c.at (some c.actor)

    by_guards :
        (b : Bool) (history : Replay.Replay (List StateEvent))
        → (if b then extend k event history else (threw invalid_payload, k)) ≡ (ok u, k')
        → (row : EffectRow) × (k'.draft.effects ≡ insert fresh row k.draft.effects)
          × (carries c.intent_key row ≡ true)
          × (row.status ≡ EffectStatus.unknown)
    by_guards false history h = cc
    by_guards true (Replay.fault f) h = cc
    by_guards true (Replay.ok history) h =
        let set = λ (r : EffectRow). record r { updated = stamp event } in
        let first = new_effect fresh (some c.intent_key) c.asset_ref c.description c.at in
        (
          set first,
          ap (λ (q : Outcome (Unit {0}) × Kernel). q.1.draft.effects) (sym h)
              ∙ touch-insert fresh set first k.draft.effects,
          rw (eq_refl c.intent_key) refl,
          refl,
        )

then_run-ok :
    {A : Type 0} (written : Outcome (Unit {0}) × Kernel) (read : Projection → A) (a : A)
    (k' : Kernel)
    → then_run written (λ k. (ok (read k.draft), k)) ≡ (ok a, k')
    → (u : Unit {0}) × (written ≡ (ok u, k')) × (read k'.draft ≡ a)
then_run-ok (ok u, k) read a k' h = (u, ground (arith, h), ground (arith, h))
then_run-ok (refused r, k) read a k' h = cc
then_run-ok (threw f, k) read a k' h = cc

-- the write of a call whose key is new
abbrev write_intent :
    Platform → RecordEffectIntentCommand → String → Kernel → Outcome (Unit {0}) × Kernel
write_intent z c fresh k =
    append z (Events.effect_intent_recorded fresh c.intent_key c.actor c.asset_ref c.description)
      c.at (some c.actor) k

record_effect_intent-writes :
    (z : Platform) (c : RecordEffectIntentCommand) (fresh : String) (k k' : Kernel)
    (first : Option EffectRow)
    → find_intent k.draft.effects c.intent_key ≡ none
    → record_effect_intent z c fresh k ≡ (ok first, k')
    → then_run (write_intent z c fresh k) (λ l. (ok (lookup fresh l.draft.effects), l))
      ≡ (ok first, k')
unfolding record_effect_intent ◌>>=◌ ◌>>◌
record_effect_intent-writes z c fresh k k' first e h = ground (arith, h, e)

-- the row that a successful call gives, and what the kernel then finds under its key
record Recorded (key : String) (first : Option EffectRow) (k' : Kernel) : Type 0 where
  row : EffectRow
  given : first ≡ some row
  carried : carries key row ≡ true
  status : row.status ≡ EffectStatus.unknown
  found : find_intent k'.draft.effects key ≡ some row

written-Recorded :
    (key fresh : String) (effects : Dict EffectRow) (row : EffectRow) (first : Option EffectRow)
    (k' : Kernel)
    → find_intent effects key ≡ none
    → k'.draft.effects ≡ insert fresh row effects
    → carries key row ≡ true
    → row.status ≡ EffectStatus.unknown
    → lookup fresh k'.draft.effects ≡ first
    → Recorded key first k'
written-Recorded key fresh effects row first k' e same carried status read = record {
  row = row;
  given = sym read ∙ (ap (lookup fresh) same ∙ lookup-insert_self fresh row effects);
  carried = carried;
  status = status;
  found = ap (λ m. find_intent m key) same ∙ find_intent-insert key fresh effects row e carried;
}

record_effect_intent-Recorded :
    (z : Platform) (c : RecordEffectIntentCommand) (fresh : String) (k k' : Kernel)
    (first : Option EffectRow)
    → record_effect_intent z c fresh k ≡ (ok first, k')
    → Recorded c.intent_key first k'
record_effect_intent-Recorded z c fresh k k' first h =
    by_found (find_intent k.draft.effects c.intent_key) refl
  where
    by_found :
        (o : Option EffectRow)
        → find_intent k.draft.effects c.intent_key ≡ o
        → Recorded c.intent_key first k'
    by_found (some row) e =
        let (same, given, status) = record_effect_intent-bound z c fresh k k' first row e h in
        record {
          row = row;
          given = given;
          carried = find_intent-carries c.intent_key k.draft.effects row e;
          status = status;
          found = ap (λ (q : Kernel). find_intent q.draft.effects c.intent_key) (sym same) ∙ e;
        }
    by_found none e =
        let (u, written, read) =
          then_run-ok (write_intent z c fresh k) (λ d. lookup fresh d.effects) first k'
            (record_effect_intent-writes z c fresh k k' first e h) in
        let (row, effects, carried, status) = append-intent z c fresh k k' u written in
        written-Recorded c.intent_key fresh k.draft.effects row first k' e effects carried status
          read

-- A call of `recordEffectIntent` that succeeds returns a live row that carries its key and is
-- unknown. Another call with the same key on the kernel that it leaves, whatever its other fields,
-- can only succeed with that very row, and writes nothing.
pub record_effect_intent-again :
    (z : Platform) (c again : RecordEffectIntentCommand) (fresh other : String) (k k' k'' : Kernel)
    (first second : Option EffectRow)
    → again.intent_key ≡ c.intent_key
    → record_effect_intent z c fresh k ≡ (ok first, k')
    → record_effect_intent z again other k' ≡ (ok second, k'')
    → (row : EffectRow) × (first ≡ some row)
      × (row.intent_key ≡ some c.intent_key)
      × (row.deleted_at ≡ none)
      × (row.status ≡ EffectStatus.unknown)
      × (second ≡ some row)
      × (k'' ≡ k')
record_effect_intent-again z c again fresh other k k' k'' first second key h g =
    let r = record_effect_intent-Recorded z c fresh k k' first h in
    let (same, returned, _) =
      record_effect_intent-bound z again other k' k'' second r.row
        (ap (find_intent k'.draft.effects) key ∙ r.found) g in
    (
      r.row,
      r.given,
      carried-key _ r.row.intent_key r.carried,
      carried-alive r.row.deleted_at _ r.carried,
      r.status,
      returned,
      sym same,
    )
  where
    carried-key :
        (b : Bool) (o : Option String)
        → (b && is_some_eq o c.intent_key) ≡ true
        → o ≡ some c.intent_key
    carried-key b none h = ground (arith, h)
    carried-key b (some s) h = ap some ((eq_iff s c.intent_key).0 (ground (arith, h)))

    carried-alive : (o : Option String) (b : Bool) → (alive o && b) ≡ true → o ≡ none
    carried-alive none b h = refl
    carried-alive (some s) b h = cc
