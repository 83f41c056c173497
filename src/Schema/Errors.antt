-- ===== src/Schema/Errors.antt =====
-- errors/kernel.ts and errors/schema.ts: the refusals that commands return, with their details.
use navis.Base.{ℕ, String, Bool, Option, List, [], ◌∷◌, ℤ}

-- The values that error details hold; `days` may be NaN.
pub data Detail : Type 0 where
  text : String → Detail
  texts : List String → Detail
  num : ℕ → Detail
  days : Option ℤ → Detail
  flag : Bool → Detail

abbrev pub Details : Type 0
Details = List (String × Detail)

pub data Refusal : Type 0 where
  forbidden : String → Details → Refusal
  rationale_required : String → Refusal
  version_conflict : ℕ → ℕ → Refusal
  equip_budget_exceeded : ℕ → ℕ → ℕ → Refusal
  unaccepted_artifact : String → String → Refusal
  blocking_hold : List String → Refusal
  unknown_effect_unclosed : List String → Refusal
  project_not_active : String → String → Refusal
  open_attempt_exists : String → String → ℕ → Refusal
  causal_context_invalid : String → Refusal
  causal_actor_unregistered : String → Refusal
  -- `schema/illegal-transition`, with what a caller adds to its details
  illegal_transition : String → String → Details → Refusal
  not_enabled : String → Refusal
  purge_conditions_unmet : Option ℤ → Bool → ℕ → Refusal

-- `{ reason: r }`
abbrev pub because : String → Details
because r = ("reason", text r) ∷ []

-- What is thrown rather than returned: a payload that `parseEventData` refuses, an envelope that
-- the history refuses, a replay that finds no row, a decision with no acceptance record, a log or
-- an observation that is refused.
pub data Fault : Type 0 where
  invalid_payload : Fault
  invalid_envelope : Fault
  missing : String → Fault
  no_acceptance_record : Fault
  invalid_log : String → ℕ → Fault
