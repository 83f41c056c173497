-- ===== src/State/Intervention.antt =====
-- state/intervention.ts: the rules of the intervention sessions on a run.
pub mod Takeover
use navis.Base.{
  String, Bool, true, false, not, Option, none, some, List, [], ◌∷◌, ◌==◌, string_eq, any, filter,
  find?, if◌then◌else◌, is_present,
}
use navis.Schema.Ledgers.{InterventionMode, intervention_mode_eq, ConsentStatus}
use navis.State.Rows.{RunSessionRow}

abbrev pub is_open : RunSessionRow → Bool
is_open s = not (is_present s.ended_at)

unfoldable pub active_sessions : List RunSessionRow → List RunSessionRow
active_sessions sessions = filter is_open sessions

abbrev pub mode_strength : List InterventionMode
mode_strength = InterventionMode.takeover ∷ InterventionMode.assist ∷ InterventionMode.observe ∷ []

unfoldable pub strongest_active_mode : List RunSessionRow → Option InterventionMode
unfolding active_sessions find?
strongest_active_mode sessions =
    find? (λ m. any (λ s. s.mode == m) (active_sessions sessions)) mode_strength

-- The reason of the refusal, or none.
unfoldable pub check_takeover_opening : List RunSessionRow → String → Option String
unfolding active_sessions
check_takeover_opening sessions participant_id =
    let active = active_sessions sessions in
    if any (λ s. s.mode == InterventionMode.takeover) active
    then some "takeover-held"
    else if not (any (λ s. s.participant_id == participant_id) active)
    then some "presence-required"
    else none

unfoldable pub check_close_authority : RunSessionRow → String → Bool → Option String
check_close_authority session actor actor_is_human =
    if session.participant_id == actor
    then none
    else if actor_is_human
    then none
    else some "close-not-permitted"

unfoldable pub initial_consent : InterventionMode → Option ConsentStatus
initial_consent InterventionMode.observe = none
initial_consent mode = some ConsentStatus.pending

pub data ConsentClose : Type 0 where
  consent : Option ConsentStatus → ConsentClose
  refused_consent : String → ConsentClose

-- A terminal consent is `granted` or `denied`.
unfoldable pub terminal : Option ConsentStatus → ConsentClose
terminal none = ConsentClose.refused_consent "consent-required"
terminal (some ConsentStatus.pending) = ConsentClose.refused_consent "consent-required"
terminal (some c) = ConsentClose.consent (some c)

unfoldable pub check_terminal_consent : InterventionMode → Option ConsentStatus → ConsentClose
unfolding terminal
check_terminal_consent InterventionMode.observe none = ConsentClose.consent none
check_terminal_consent InterventionMode.observe (some c) =
    ConsentClose.refused_consent "consent-not-applicable"
check_terminal_consent mode c = terminal c
