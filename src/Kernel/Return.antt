-- ===== src/Kernel/Return.antt =====
-- The command `submitReturn`.
use navis.Base.{
  ℕ, ◌+◌, String, Bool, true, false, not, ◌&&◌, ◌||◌, Option, none, some, List, [], ◌∷◌, ◌==◌,
  nat_eq, string_eq, is_some_eq, all, length, if◌then◌else◌, is_present, get_or_else, Dict, lookup,
}
use navis.Schema.Vocabulary.{
  participant_type_eq, project_status_eq, work_status_eq, AssetKind, asset_kind_eq, AssetScope,
  asset_scope_eq, asset_lifecycle_eq, acceptance_result_eq,
}
use navis.Schema.Ledgers.{
  hold_status_eq, effect_status_eq, EquipStatus, equip_status_eq, equip_status_text,
  delivery_status_eq, direction_status_eq, work_run_status_eq, intervention_mode_eq,
  consent_status_eq,
}
use navis.Schema.Errors.{
  because, forbidden, version_conflict, causal_context_invalid, causal_actor_unregistered,
}
use navis.Schema.Platform.{Platform}
use navis.Schema.Ids.{optional, is_uuidv7, is_text}
use navis.Schema.Asset.{AssetContent, is_asset_content}
use navis.State.Clock.{ClockSnapshot, Verdict, compare_clocks}
use navis.State.Rows.{ParticipantRow, EquipRow}
use navis.State.Events
use navis.State.Events.{
  AssetSeed, EffectSeed, HoldRegistered, HoldMoved, CausalJudgment, CheckpointPayload,
  DeliveryRecorded, RunTransitioned, EventData, StateEvent,
}
use navis.State.Payload.{is_clock_snapshot}
use navis.Kernel.Core.{
  Kernel, Outcome, ok, refused, ◌>>=◌, ◌>>◌, guard, refuse_if, Exec, then_run, run, state_version,
  append, invalid_fields, guard_preconditions, require_project,
}

-- A candidate as the caller gives it, once its shape has been read.
pub record CandidateSeed : Type 0 where
  pub kind : AssetKind
  pub provenance : Option String
  pub content : Option AssetContent

pub record ReturnEffectSeed : Type 0 where
  pub asset_ref : Option String
  pub description : Option String

pub record SubmitReturnCommand : Type 0 where
  pub actor : String
  pub at : String
  pub equip_id : String
  pub candidates : List CandidateSeed
  pub effects : List ReturnEffectSeed
  pub causal_context : Option ClockSnapshot
  pub expected_version : ℕ

-- what a return was judged against, and the judgment
pub record Judged : Type 0 where
  pub verdict : Option Verdict
  pub context : Option ClockSnapshot

unfoldable pub check_keys : Dict ParticipantRow → ClockSnapshot → Outcome (Unit {0})
check_keys participants [] = ok tt
check_keys participants ((key, n) ∷ rest) =
    let next = check_keys participants rest in
    if is_present (lookup key participants) then next else refused (causal_actor_unregistered key)

-- a malformed or foreign context is refused before anything is appended
unfoldable pub judge_context : Option ClockSnapshot → Kernel → Outcome Judged
unfolding check_keys
judge_context none k = ok (record { verdict = none; context = none })
judge_context (some context) k = do
  guard (is_clock_snapshot context) (causal_context_invalid "malformed snapshot")
  check_keys k.draft.participants context
  ok (record { verdict = some (compare_clocks context k.causal_clock); context = some context })

abbrev judgment : Judged → ClockSnapshot → CausalJudgment
judgment j clock = record {
  verdict = j.verdict;
  causal_context = j.context;
  authoritative_clock = if is_present j.verdict then some clock else none;
}

abbrev is_foreign : Option EquipRow → String → Bool
is_foreign none actor = false
is_foreign (some e) actor = not (is_some_eq e.participant_id actor)

-- `equip?.status !== 'active' || equip.state_version !== current`
abbrev pub is_stale : Option EquipRow → ℕ → Bool
is_stale none current = true
is_stale (some e) current = not (e.status == EquipStatus.active) || not (e.state_version == current)

abbrev version_of_equip : Option EquipRow → Option ℕ
version_of_equip none = none
version_of_equip (some e) = some e.state_version

abbrev status_of_equip : Option EquipRow → String
status_of_equip none = "unknown-equip"
status_of_equip (some e) = equip_status_text e.status

-- the loop over the candidates; `fresh n` is the identifier of the n-th
unfoldable pub make_candidates :
    String → String → (ℕ → String) → ℕ → List CandidateSeed → List AssetSeed
make_candidates at project_id fresh n [] = []
make_candidates at project_id fresh n (seed ∷ seeds) =
    record {
      id = fresh n;
      kind = seed.kind;
      scope = AssetScope.project;
      project_id = some project_id;
      provenance = seed.provenance;
      content = seed.content;
      valid_from = none;
      valid_to = none;
      created_at = at;
    }
    ∷ make_candidates at project_id fresh (n + 1) seeds

unfoldable pub make_effects : (ℕ → String) → ℕ → List ReturnEffectSeed → List EffectSeed
make_effects fresh n [] = []
make_effects fresh n (seed ∷ seeds) =
    record { id = fresh n; asset_ref = seed.asset_ref; description = seed.description }
    ∷ make_effects fresh (n + 1) seeds

abbrev pub is_concurrent : Option Verdict → Bool
is_concurrent (some Verdict.concurrent) = true
is_concurrent _ = false

module _ (z : Platform) where
  abbrev is_candidate_seed : CandidateSeed → Bool
  is_candidate_seed s = optional (is_text z) s.provenance && optional (is_asset_content z) s.content

  abbrev is_return_effect : ReturnEffectSeed → Bool
  is_return_effect s = optional is_uuidv7 s.asset_ref && optional (is_text z) s.description

  -- the whole return is rejected: the rejection is recorded, and nothing else
  abbrev pub reject : SubmitReturnCommand → Judged → Option EquipRow → Exec (ℕ × ℕ)
  reject c j equip k =
      let current = state_version k in
      then_run
        (append z
          (Events.return_rejected c.equip_id c.actor (version_of_equip equip)
            (status_of_equip equip) current (length c.candidates) (length c.effects)
            (judgment j k.causal_clock))
          c.at (some c.actor) k)
        (λ l.
          (refused (version_conflict (get_or_else (version_of_equip equip) current) current), l))

  -- a concurrent observation is marked for review after it was absorbed
  abbrev pub mark : SubmitReturnCommand → Judged → Exec (Unit {0})
  mark c j k =
      if is_concurrent j.verdict
      then append z
          (Events.return_conflict_marked c.actor (get_or_else j.context []) k.causal_clock) c.at
          (some c.actor) k
      else (ok tt, k)

  abbrev pub absorb : SubmitReturnCommand → Judged → List AssetSeed → List EffectSeed → Exec (ℕ × ℕ)
  absorb c j candidates effects k =
      then_run
        (append z
          (Events.return_absorbed c.equip_id c.actor candidates effects (judgment j k.causal_clock))
          c.at (some c.actor) k)
        (λ l. then_run (mark c j l) (λ m. (ok (length candidates, length effects), m)))

  abbrev pub accept_return :
      SubmitReturnCommand → (ℕ → String) → Judged → Kernel → Outcome (Exec (ℕ × ℕ))
  accept_return c fresh j k = do
    guard (all is_candidate_seed c.candidates)
        (forbidden "submit_return" (because "invalid-candidate"))
    p ← (if length c.candidates == 0 then ok "" else (do p ← require_project k; ok p.id))
    guard (all is_return_effect c.effects) (forbidden "submit_return" (because "invalid-effects"))
    ok (
        absorb c j (make_candidates c.at p fresh 0 c.candidates)
          (make_effects fresh (length c.candidates) c.effects))

  unfoldable pub submit_return : SubmitReturnCommand → (ℕ → String) → Exec (ℕ × ℕ)
  submit_return c fresh k =
      run
        (do
          guard_preconditions c.expected_version "submit_return" c.actor none false k
          invalid_fields "submit_return"
              (("at", z.instant c.at) ∷ ("equip_id", is_uuidv7 c.equip_id) ∷ [])
          j ← judge_context c.causal_context k
          let equip = lookup c.equip_id k.draft.equips
          refuse_if (is_foreign equip c.actor) (forbidden "submit_return" (because "foreign-equip"))
          (if is_stale equip (state_version k)
              then ok (reject c j equip)
              else accept_return c fresh j k))
        k
