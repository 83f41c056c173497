-- ===== src/Kernel/Core.antt =====
-- The kernel's state, the outcome of a command, `#append`, and the guards that commands share.
use navis.Base.{
  any, ℕ, ◌+◌, String, Bool, true, false, not, ◌&&◌, ◌||◌, Option, none, some, List, [], ◌∷◌, ◌==◌,
  nat_eq, string_eq, filter, map, if◌then◌else◌, is_present, is_blank, Dict, lookup, values, ℤ,
  ◌-ℤ◌, floor_div,
}
use navis.Schema.Vocabulary.{
  ParticipantType, participant_type_eq, participant_type_text, ProjectStatus, project_status_eq,
  project_status_text,
}
use navis.Schema.Ledgers.{HoldStatus, hold_status_eq}
use navis.Schema.Errors.{
  text, texts, Refusal, because, Fault, forbidden, rationale_required, version_conflict,
  project_not_active, invalid_payload,
}
use navis.Schema.Platform.{Platform}
use navis.State.Clock.{ClockSnapshot, advance_clock}
use navis.State.Rows.{
  ParticipantRow, ProjectRow, HoldRow, Projection, empty_projection, alive, version_of,
}
use navis.State.Events.{EventData, StateEvent, is_state_material, state_event_schema_version}
use navis.State.Payload.{is_payload}
use navis.State.History
use navis.State.History.{current_seq}
use navis.State.Replay
use navis.State.Apply.{apply_event}

-- The fields of `ProjectStateKernel`, but for the cached view of the projection.
pub record Kernel : Type 0 where
  pub history : List StateEvent
  pub draft : Projection
  pub causal_clock : ClockSnapshot

abbrev pub new_kernel : Kernel
new_kernel = record { history = []; draft = empty_projection; causal_clock = [] }

-- What a command does: it returns a value, it returns a refusal, or it throws.
pub data Outcome {ℓ} (A : Type ℓ) : Type ℓ where
  ok : A → Outcome A
  refused : Refusal → Outcome A
  threw : Fault → Outcome A

infixl 5 ◌>>=◌ ◌>>◌
unfoldable pub ◌>>=◌ {ℓ κ} : {A : Type ℓ} {B : Type κ} → Outcome A → (A → Outcome B) → Outcome B
ok a >>= f = f a
refused r >>= f = refused r
threw e >>= f = threw e

unfoldable pub ◌>>◌ {ℓ} : {B : Type ℓ} → Outcome (Unit {0}) → Outcome B → Outcome B
m >> n = m >>= λ _. n

-- `if (!b) return { ok: false, error: r }`
abbrev pub guard : Bool → Refusal → Outcome (Unit {0})
guard true r = ok tt
guard false r = refused r

-- `if (b) return { ok: false, error: r }`
abbrev pub refuse_if : Bool → Refusal → Outcome (Unit {0})
refuse_if false r = ok tt
refuse_if true r = refused r

-- the value that is there, or a refusal
abbrev pub need {ℓ} : {A : Type ℓ} → Option A → Refusal → Outcome A
need none r = refused r
need (some a) r = ok a

-- A step that may write the kernel. What was written before a throw stays written.
abbrev pub Exec : Type 0 → Type 0
Exec A = Kernel → Outcome A × Kernel

abbrev pub then_run {ℓ} : {A : Type 0} → Outcome (Unit {ℓ}) × Kernel → Exec A → Outcome A × Kernel
then_run (ok _, k) m = m k
then_run (refused r, k) m = (refused r, k)
then_run (threw e, k) m = (threw e, k)

-- A command decides by reading the kernel, and then writes.
abbrev pub run : {A : Type 0} → Outcome (Exec A) → Exec A
run (ok act) k = act k
run (refused r) k = (refused r, k)
run (threw e) k = (threw e, k)

-- `stateVersion`
abbrev pub state_version : Kernel → ℕ
state_version k = version_of k.draft.project

-- the envelope that `#append` builds
abbrev pub next_event : Kernel → EventData → String → Option String → StateEvent
next_event k data' at actor = record {
  seq = current_seq k.history + 1;
  body = data';
  actor = actor;
  at = at;
  state_version = if is_state_material data' then state_version k + 1 else state_version k;
  schema_version = state_event_schema_version;
}

abbrev advance : Option String → ClockSnapshot → ClockSnapshot
advance none c = c
advance (some actor) c = advance_clock c actor

abbrev pub fold_live : Kernel → StateEvent → List StateEvent → Outcome (Unit {0}) × Kernel
fold_live k e history = elim (apply_event k.draft e) [
  | Replay.ok d ↦ (
    ok tt,
    record { history = history; draft = d; causal_clock = advance e.actor k.causal_clock },
  )
  | Replay.fault f ↦ (threw f, record k { history = history })
]

abbrev pub extend :
    Kernel → StateEvent → Replay.Replay (List StateEvent) → Outcome (Unit {0}) × Kernel
extend k e (Replay.ok history) = fold_live k e history
extend k e (Replay.fault f) = (threw f, k)

module _ (z : Platform) where
  -- `#append`: the payload is checked, the event enters the history, and is folded.
  unfoldable pub append : EventData → String → Option String → Exec (Unit {0})
  append body at actor k =
      let e = next_event k body at actor in
      if is_payload z body
      then extend k e (History.append z k.history e)
      else (threw invalid_payload, k)

  -- `append`, then what is read of the new draft
  abbrev pub append_then :
      {A : Type 0} → EventData → String → Option String → (Projection → A) → Exec A
  append_then body at actor read k =
      then_run (append body at actor k) (λ k'. (ok (read k'.draft), k'))

-- `invalidFields`: the names of the fields whose schema refuses them.
unfoldable pub invalid_fields : String → List (String × Bool) → Outcome (Unit {0})
invalid_fields action checks = elim (filter (λ c. not c.1) checks) [
  | [] ↦ ok tt
  | c ∷ cs ↦ refused (
      forbidden action
        (("reason", text "invalid-fields") ∷ ("fields", texts (map (λ d. d.0) (c ∷ cs))) ∷ []))
]

-- `whitespaceOnlyTextField`: the first of the fields that holds a blank text is refused.
unfoldable pub whitespace_only : String → List (String × Bool) → Outcome (Unit {0})
whitespace_only action [] = ok tt
whitespace_only action ((name, blank) ∷ rest) =
    let next = whitespace_only action rest in
    if blank
    then refused
        (forbidden action (("reason", text "invalid-fields") ∷ ("fields", texts (name ∷ [])) ∷ []))
    else next

abbrev pub any_blank : Option (List String) → Bool
any_blank none = false
any_blank (some items) = any is_blank items

abbrev pub needs_active : String → Bool
needs_active action =
    action == "update_boundary"
    || action == "issue_equip"
    || action == "submit_return"
    || action == "deliver"

abbrev pub is_blank_reason : Option String → Bool
is_blank_reason none = false
is_blank_reason (some r) = is_blank r

-- `#guardPreconditions`
unfoldable pub guard_preconditions :
    ℕ → String → String → Option String → Bool → Kernel → Outcome (Unit {0})
guard_preconditions expected action actor reason human_only k = do
  participant ←
      need (lookup actor k.draft.participants) (forbidden action (because "unknown-actor"))
  p ← need k.draft.project (version_conflict expected 0)
  guard (p.current_state_version == expected) (version_conflict expected p.current_state_version)
  refuse_if (needs_active action && not (p.status == ProjectStatus.active))
      (project_not_active (project_status_text p.status) action)
  refuse_if (human_only && not (participant.type == ParticipantType.human))
      (forbidden action (("actor_kind", text (participant_type_text participant.type)) ∷ []))
  refuse_if (is_blank_reason reason) (rationale_required action)

-- `#requireKnownActor`
unfoldable pub require_known_actor : String → String → Kernel → Outcome (Unit {0})
require_known_actor action actor k =
    guard (is_present (lookup actor k.draft.participants))
      (forbidden action (because "unknown-actor"))

abbrev pub is_human : Option ParticipantRow → Bool
is_human none = false
is_human (some p) = p.type == ParticipantType.human

abbrev actor_kind : Option ParticipantRow → String
actor_kind none = "unknown"
actor_kind (some p) = participant_type_text p.type

-- `#requireHuman`
unfoldable pub require_human : String → String → Kernel → Outcome (Unit {0})
require_human action actor k =
    let participant = lookup actor k.draft.participants in
    guard (is_human participant)
      (forbidden action (("actor_kind", text (actor_kind participant)) ∷ []))

-- `#requireProject` throws where there is no project.
abbrev pub require_project : Kernel → Outcome ProjectRow
require_project k = elim k.draft.project [ none ↦ threw (Fault.missing "project") | some p ↦ ok p ]

-- `#blockingHoldIds`
unfoldable pub blocking_hold_ids : Dict HoldRow → List String
blocking_hold_ids holds =
    map (λ (h : HoldRow). h.id)
      (filter (λ h. alive h.deleted_at && h.status == HoldStatus.active && h.blocks_delivery)
        (values holds))

-- `#daysBetween`; NaN propagates.
abbrev days_from : Option ℤ → Option ℤ → Option ℤ
days_from (some a) (some b) = some (floor_div (b -ℤ a) 86400000)
days_from _ _ = none

unfoldable pub days_between : Platform → String → String → Option ℤ
days_between z from to = days_from (z.date_parse from) (z.date_parse to)

-- A row of the draft that is there and not deleted.
abbrev pub live_row {ℓ} : {A : Type ℓ} → (A → Option String) → Option A → Option A
live_row deleted_at none = none
live_row deleted_at (some a) = if alive (deleted_at a) then some a else none
