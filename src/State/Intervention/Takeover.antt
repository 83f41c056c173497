-- ===== src/State/Intervention/Takeover.antt =====
-- A takeover is exclusive, and needs a session that is open.
use navis.Base.{
  ◌≡◌, refl, Bool, true, false, ℕ, String, none, some, List, [], ◌∷◌, ◌++◌, ◌==◌, string_eq, any,
  leb, filter, find?, length, arith,
}
use navis.Schema.Ledgers.{InterventionMode, intervention_mode_eq}
use navis.State.Rows.{RunSessionRow}
use navis.State.Intervention.{active_sessions, strongest_active_mode, check_takeover_opening}

abbrev pub is_takeover : RunSessionRow → Bool
is_takeover s = s.mode == InterventionMode.takeover

-- the open takeovers of a run
unfoldable pub open_takeovers : List RunSessionRow → ℕ
open_takeovers sessions = length (filter is_takeover (active_sessions sessions))

filter-append {ℓ} :
    {A : Type ℓ} (p : A → Bool) (xs ys : List A) → filter p (xs ++ ys) ≡ filter p xs ++ filter p ys
unfolding filter
filter-append p [] ys = refl
filter-append p (x ∷ xs) ys = ground (arith, filter-append p xs ys)

filter-empty {ℓ} : {A : Type ℓ} (p : A → Bool) (xs : List A) → any p xs ≡ false → filter p xs ≡ []
unfolding filter any
filter-empty p [] h = refl
filter-empty p (x ∷ xs) h = ground (arith, filter-empty p xs)

last_filter {ℓ} :
    {A : Type ℓ} (p q : A → Bool) (x : A) → leb (length (filter p (filter q (x ∷ [])))) 1 ≡ true
unfolding filter
last_filter p q x = ground arith

none_left :
    (ss : List RunSessionRow)
    → any (λ (s : RunSessionRow). s.mode == InterventionMode.takeover) ss ≡ false
    → any (λ (s : RunSessionRow). s.mode == InterventionMode.assist) ss ≡ false
    → any (λ (s : RunSessionRow). s.mode == InterventionMode.observe) ss ≡ false
    → ss ≡ []
unfolding any
none_left [] a b c = refl
none_left (s ∷ ss) a b c = absurd (ground arith)

-- Where `checkTakeoverOpening` does not refuse, the sessions have at most one open takeover after any
-- one session is added.
pub check_takeover_opening-exclusive :
    (sessions : List RunSessionRow) (who : String) (s : RunSessionRow)
    → check_takeover_opening sessions who ≡ none
    → leb (open_takeovers (sessions ++ s ∷ [])) 1 ≡ true
unfolding check_takeover_opening open_takeovers active_sessions
check_takeover_opening-exclusive sessions who s h =
    rw
      (
        filter-append,
        filter-append,
        filter-empty is_takeover (active_sessions sessions) (ground arith),
      )
      (last_filter is_takeover _ s)

-- The strongest mode is takeover exactly where an open session is a takeover.
pub strongest_active_mode-takeover :
    (sessions : List RunSessionRow)
    → (any is_takeover (active_sessions sessions) ≡ true
        → strongest_active_mode sessions ≡ some InterventionMode.takeover)
      × (strongest_active_mode sessions ≡ some InterventionMode.takeover
          → any is_takeover (active_sessions sessions) ≡ true)
unfolding strongest_active_mode find?
strongest_active_mode-takeover sessions = ((λ h. ground arith), (λ h. ground arith))

-- Where there is no strongest mode, no session is open.
pub strongest_active_mode-none :
    (sessions : List RunSessionRow)
    → strongest_active_mode sessions ≡ none
    → active_sessions sessions ≡ []
unfolding strongest_active_mode find?
strongest_active_mode-none sessions h =
    none_left (active_sessions sessions) (ground arith) (ground arith) (ground arith)
