-- ===== src/Kernel/Log/Append.antt =====
-- How the passes over a log treat an event that comes last.
use navis.Base.{◌≡◌, refl, sym, ◌∙◌, true, ℕ, ◌+◌, ◌==◌, nat_eq, none, List, [], ◌∷◌, ◌++◌, arith}
use navis.Schema.Platform.{Platform}
use navis.State.Clock.{ClockSnapshot}
use navis.State.Rows.{Projection}
use navis.State.Events.{StateEvent}
use navis.State.Payload.{is_envelope}
use navis.State.History
use navis.State.History.{head, current_seq, verify_from, verify_event_history}
use navis.State.Replay.{Replay, ok, fault, ◌>>=◌}
use navis.State.Apply.{apply_event}
use navis.Kernel.Log.{ObservationValidator, Scan, scan_event, scan, fold_events, tick, fold_clock}

bind-ok {ℓ} : {A : Type ℓ} (m : Replay A) → (m >>= λ a. ok a) ≡ m
bind-ok (ok a) = refl
bind-ok (fault e) = refl

bind-bind {ℓ κ μ} :
    {A : Type ℓ} {B : Type κ} {C : Type μ} (m : Replay A) (f : A → Replay B) (g : B → Replay C)
    → (m >>= f >>= g) ≡ (m >>= λ a. f a >>= g)
bind-bind (ok a) f g = refl
bind-bind (fault e) f g = refl

bind-ext {ℓ κ} :
    {A : Type ℓ} {B : Type κ} (m : Replay A) (f g : A → Replay B)
    → ((a : A) → f a ≡ g a)
    → (m >>= f) ≡ (m >>= g)
bind-ext (ok a) f g h = h a
bind-ext (fault e) f g h = refl

pub fold_events-append :
    (d : Projection) (es : List StateEvent) (e : StateEvent)
    → fold_events d (es ++ e ∷ []) ≡ (fold_events d es >>= λ d'. apply_event d' e)
unfolding fold_events
fold_events-append d [] e = bind-ok (apply_event d e)
fold_events-append d (f ∷ es) e =
    bind-ext (apply_event d f) _ _ (λ d'. fold_events-append d' es e)
    ∙ sym (bind-bind (apply_event d f) _ _)

pub fold_clock-append :
    (c : ClockSnapshot) (es : List StateEvent) (e : StateEvent)
    → fold_clock c (es ++ e ∷ []) ≡ tick (fold_clock c es) e
unfolding fold_clock
fold_clock-append c [] e = refl
fold_clock-append c (f ∷ es) e = fold_clock-append (tick c f) es e

module _ (z : Platform) (v : ObservationValidator) where
  pub scan-append :
      (s : Scan) (es : List StateEvent) (e : StateEvent)
      → scan z v s (es ++ e ∷ []) ≡ (scan z v s es >>= λ s'. scan_event z v s' e)
  unfolding scan
  scan-append s [] e = bind-ok (scan_event z v s e)
  scan-append s (f ∷ es) e =
      bind-ext (scan_event z v s f) _ _ (λ s'. scan-append s' es e)
      ∙ sym (bind-bind (scan_event z v s f) _ _)

-- the sequence number that a pass from `n` has reached
last_from : ℕ → List StateEvent → ℕ
last_from n [] = n
last_from n (e ∷ es) = last_from e.seq es

last_from-head :
    (e : StateEvent) (es : List StateEvent) (n : ℕ) → last_from n (e ∷ es) ≡ current_seq (e ∷ es)
unfolding last_from current_seq head
last_from-head e [] n = refl
last_from-head e (f ∷ es) n = last_from-head f es e.seq

last_from-current_seq : (es : List StateEvent) → last_from 0 es ≡ current_seq es
unfolding last_from current_seq head
last_from-current_seq [] = refl
last_from-current_seq (e ∷ es) = last_from-head e es 0

module _ (z : Platform) where
  verify_from-append :
      (n : ℕ) (es : List StateEvent) (e : StateEvent)
      → verify_from z n es ≡ none
      → is_envelope z e ≡ true
      → (e.seq == last_from n es + 1) ≡ true
      → verify_from z n (es ++ e ∷ []) ≡ none
  unfolding verify_from last_from
  verify_from-append n [] e h i q = rw (i, q) refl
  verify_from-append n (f ∷ es) e h i q = ground (arith, verify_from-append f.seq es e)

  -- What the history appends keeps it gapless and its envelopes valid.
  pub append-verify_event_history :
      (es es' : List StateEvent) (e : StateEvent)
      → verify_event_history z es ≡ none
      → History.append z es e ≡ ok es'
      → (es ++ e ∷ [] ≡ es') × (verify_event_history z es' ≡ none)
  unfolding verify_event_history History.append
  append-verify_event_history es es' e h a =
      ground (arith, last_from-current_seq es, verify_from-append 0 es e)
