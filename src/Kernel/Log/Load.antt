-- ===== src/Kernel/Log/Load.antt =====
-- The loop of `fromEvents` loads what the pass over the sequence and the fold accept.
use navis.Base.{◌≡◌, refl, ap, ◌∙◌, nat_eq, none, List, [], ◌∷◌, ◌++◌, arith}
use navis.Schema.Platform.{Platform}
use navis.State.Rows.{Projection}
use navis.State.Events.{StateEvent}
use navis.State.History
use navis.State.History.{head, current_seq, verify_from}
use navis.State.Replay.{Replay, ok, fault, ◌>>=◌}
use navis.State.Apply.{apply_event}
use navis.Kernel.Core.{Kernel}
use navis.Kernel.Log.{ObservationValidator, load_events, fold_events, fold_clock, tick}

bind-eq {ℓ κ} :
    {A : Type ℓ} {B : Type κ} (m : Replay A) (f : A → Replay B) (b : B)
    → (m >>= f) ≡ ok b
    → (a : A) × (m ≡ ok a) × (f a ≡ ok b)
bind-eq (ok a) f b h = (a, refl, h)
bind-eq (fault e) f b h = cc

append_assoc {ℓ} :
    {A : Type ℓ} (xs : List A) (y : A) (zs : List A) → (xs ++ y ∷ []) ++ zs ≡ xs ++ y ∷ zs
append_assoc [] y zs = refl
append_assoc (x ∷ xs) y zs = ap (λ l. x ∷ l) (append_assoc xs y zs)

append_nil {ℓ} : {A : Type ℓ} (xs : List A) → xs ++ [] ≡ xs
append_nil [] = refl
append_nil (x ∷ xs) = ap (λ l. x ∷ l) (append_nil xs)

current_seq-append : (es : List StateEvent) (e : StateEvent) → current_seq (es ++ e ∷ []) ≡ e.seq
unfolding current_seq head
current_seq-append [] e = refl
current_seq-append (f ∷ []) e = refl
current_seq-append (f ∷ g ∷ es) e = current_seq-append (g ∷ es) e

module _ (z : Platform) (v : ObservationValidator) where
  accepted :
      (h es : List StateEvent) (e : StateEvent)
      → verify_from z (current_seq h) (e ∷ es) ≡ none
      → (History.append z h e ≡ ok (h ++ e ∷ []))
        × (verify_from z (current_seq (h ++ e ∷ [])) es ≡ none)
  unfolding verify_from History.append
  accepted h es e g = (ground arith, rw (current_seq-append h e) (ground arith))

  pub load_events_lem :
      (k : Kernel) (es : List StateEvent) (d : Projection)
      → verify_from z (current_seq k.history) es ≡ none
      → fold_events k.draft es ≡ ok d
      → load_events z v k es
        ≡ ok (record {
          history = k.history ++ es;
          draft = d;
          causal_clock = fold_clock k.causal_clock es;
        })
  unfolding load_events fold_events fold_clock
  load_events_lem k [] d g h = ground (arith, append_nil k.history)
  load_events_lem k (e ∷ es) d g h =
      let (taken, rest) = accepted k.history es e g in
      let (d', folded, after) = bind-eq (apply_event k.draft e) _ d h in
      rw (taken, folded)
        (load_events_lem
            (record {
              history = k.history ++ e ∷ [];
              draft = d';
              causal_clock = tick k.causal_clock e;
            })
            es d rest after
          ∙ ap
              (λ l. ok (record {
                history = l;
                draft = d;
                causal_clock = fold_clock k.causal_clock (e ∷ es);
              }))
              (append_assoc k.history e es))
