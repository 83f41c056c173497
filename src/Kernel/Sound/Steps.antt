-- ===== src/Kernel/Sound/Steps.antt =====
-- The rules by which a command, a chain of guards before one append, keeps the kernel sound.
use navis.Base.{◌≡◌, refl, Bool, true, false, ℕ, String, Option, some, is_present, lookup, arith}
use navis.Schema.Errors.{Refusal, Fault}
use navis.Schema.Platform.{Platform}
use navis.State.Rows.{Projection}
use navis.State.Events.{EventData}
use navis.State.Apply.Frame.{registers, IsFirst}
use navis.Kernel.Core.{
  Kernel, Outcome, ok, refused, threw, ◌>>=◌, ◌>>◌, Exec, then_run, run, append, append_then,
  guard_preconditions, require_known_actor, require_human,
}
use navis.Kernel.Log.{ObservationValidator}
use navis.Kernel.Sound.{IsSound, MayAppend, append-IsSound}

abbrev pub is_thrown {ℓ} : {A : Type ℓ} → Outcome A → Bool
is_thrown (threw e) = true
is_thrown _ = false

abbrev pub Known : Kernel → String → Type 0
Known k who = is_present (lookup who k.draft.participants) ≡ true

pub append-not_refused :
    (z : Platform) (k k' : Kernel) (body : EventData) (at : String) (actor : Option String)
    (r : Refusal)
    → append z body at actor k ≡ (refused r, k')
    → ⊥
unfolding append
append-not_refused z k k' body at actor r e = ground arith

guard_preconditions-Known :
    (expected : ℕ) (action actor : String) (reason : Option String) (human : Bool) (k : Kernel)
    (u : Unit {0})
    → guard_preconditions expected action actor reason human k ≡ ok u
    → Known k actor
unfolding guard_preconditions ◌>>=◌ ◌>>◌
guard_preconditions-Known expected action actor reason human k u e = ground arith

require_known_actor-Known :
    (action actor : String) (k : Kernel) (u : Unit {0})
    → require_known_actor action actor k ≡ ok u
    → Known k actor
unfolding require_known_actor
require_known_actor-Known action actor k u e = ground arith

require_human-Known :
    (action actor : String) (k : Kernel) (u : Unit {0})
    → require_human action actor k ≡ ok u
    → Known k actor
unfolding require_human
require_human-Known action actor k u e = ground arith

pub Known-MayAppend :
    (k : Kernel) (body : EventData) (actor : String)
    → ((who : String) → registers body who ≡ false)
    → IsFirst k.draft body
    → Known k actor
    → MayAppend k body (some actor)
Known-MayAppend k body actor n f h = record {
  known = λ who e. ground arith;
  fresh = λ who e. absurd (ground (arith, n who));
  first = f;
}

module _ (z : Platform) (v : ObservationValidator) where
  -- the kernel that is left is sound, unless the code threw
  pub record Leaves {A : Type 0} (r : Outcome A × Kernel) : Type 0 where
    pub sound : is_thrown r.0 ≡ false → IsSound z v r.1

  -- what a chain of guards decides to do leaves a sound kernel
  pub record Keeps {A : Type 0} (k : Kernel) (o : Outcome (Exec A)) : Type 0 where
    pub kept : Leaves (run o k)

  pub refused-Leaves :
      {A : Type 0} (k : Kernel) (r : Refusal) → IsSound z v k → Leaves {A = A} (refused r, k)
  refused-Leaves k r i = record { sound = λ _. i }

  pub threw-Leaves : {A : Type 0} (k : Kernel) (e : Fault) → Leaves {A = A} (threw e, k)
  threw-Leaves k e = record { sound = λ q. cc }

  pub run-Leaves : {A : Type 0} (k : Kernel) (o : Outcome (Exec A)) → Keeps k o → Leaves (run o k)
  run-Leaves k o h = h.kept

  pub bind-Keeps {ℓ} :
      {A : Type 0} {X : Type ℓ} (k : Kernel) (m : Outcome X) (f : X → Outcome (Exec A))
      → IsSound z v k
      → ((x : X) → m ≡ ok x → Keeps k (f x))
      → Keeps k (m >>= f)
  unfolding ◌>>=◌
  bind-Keeps k (ok x) f i h = h x refl
  bind-Keeps k (refused r) f i h = record { kept = refused-Leaves k r i }
  bind-Keeps k (threw e) f i h = record { kept = threw-Leaves k e }

  pub pass {ℓ} :
      {A : Type 0} {X : Type ℓ} (k : Kernel) (m : Outcome X) (f : X → Outcome (Exec A))
      → IsSound z v k
      → ((x : X) → Keeps k (f x))
      → Keeps k (m >>= f)
  pass k m f i h = bind-Keeps k m f i (λ x _. h x)

  pub guard-Keeps :
      {A : Type 0} (k : Kernel) (m : Outcome (Unit {0})) (n : Outcome (Exec A))
      → IsSound z v k
      → (m ≡ ok tt → Keeps k n)
      → Keeps k (m >> n)
  unfolding ◌>>◌
  guard-Keeps k m n i h = bind-Keeps k m (λ _. n) i (λ x e. h e)

  -- a guard of which nothing more is used
  pub skip :
      {A : Type 0} (k : Kernel) (m : Outcome (Unit {0})) (n : Outcome (Exec A))
      → IsSound z v k
      → Keeps k n
      → Keeps k (m >> n)
  skip k m n i h = guard-Keeps k m n i (λ _. h)

  pub append-Leaves :
      (k : Kernel) (body : EventData) (at : String) (actor : Option String)
      → IsSound z v k
      → MayAppend k body actor
      → Leaves (append z body at actor k)
  append-Leaves k body at actor i m = go (append z body at actor k) refl
    where
      go : (r : Outcome (Unit {0}) × Kernel) → append z body at actor k ≡ r → Leaves r
      go (ok _, k') e = record { sound = λ _. append-IsSound z v k k' body at actor i m e }
      go (refused r, k') e = absurd (append-not_refused z k k' body at actor r e)
      go (threw r, k') e = threw-Leaves k' r

  pub then_run-Leaves :
      {A : Type 0} (r : Outcome (Unit {0}) × Kernel) (m : Exec A)
      → Leaves r
      → ((k' : Kernel) → r ≡ (ok tt, k') → IsSound z v k' → Leaves (m k'))
      → Leaves (then_run r m)
  then_run-Leaves (ok _, k) m l h = h k refl (l.sound refl)
  then_run-Leaves (refused r, k) m l h = refused-Leaves k r (l.sound refl)
  then_run-Leaves (threw e, k) m l h = threw-Leaves k e

  -- the append that ends a chain
  pub append_then-Leaves :
      {A : Type 0} (k : Kernel) (body : EventData) (at : String) (actor : Option String)
      (read : Projection → A)
      → IsSound z v k
      → MayAppend k body actor
      → Leaves (append_then z body at actor read k)
  append_then-Leaves k body at actor read i m =
      then_run-Leaves (append z body at actor k) (λ k'. (ok (read k'.draft), k'))
        (append-Leaves k body at actor i m) (λ k' _ i'. record { sound = λ _. i' })

  pub act-Keeps : {A : Type 0} (k : Kernel) (m : Exec A) → Leaves (m k) → Keeps k (ok m)
  act-Keeps k m l = record { kept = l }

  pub append_then-Keeps :
      {A : Type 0} (k : Kernel) (body : EventData) (at : String) (actor : Option String)
      (read : Projection → A)
      → IsSound z v k
      → MayAppend k body actor
      → Keeps k (ok (append_then z body at actor read))
  append_then-Keeps k body at actor read i m =
      act-Keeps k (append_then z body at actor read) (append_then-Leaves k body at actor read i m)

  -- the guards that tell who the actor is
  module _ {A : Type 0} (n : Outcome (Exec A)) (actor : String) (k : Kernel) (i : IsSound z v k)
      (h : Known k actor → Keeps k n) where
    pub guard_preconditions-Keeps :
        (expected : ℕ) (action : String) (reason : Option String) (human : Bool)
        → Keeps k (guard_preconditions expected action actor reason human k >> n)
    guard_preconditions-Keeps expected action reason human =
        guard-Keeps k _ n i
          (λ e. h (guard_preconditions-Known expected action actor reason human k tt e))

    pub require_known_actor-Keeps :
        (action : String) → Keeps k (require_known_actor action actor k >> n)
    require_known_actor-Keeps action =
        guard-Keeps k _ n i (λ e. h (require_known_actor-Known action actor k tt e))

    pub require_human-Keeps : (action : String) → Keeps k (require_human action actor k >> n)
    require_human-Keeps action =
        guard-Keeps k _ n i (λ e. h (require_human-Known action actor k tt e))
