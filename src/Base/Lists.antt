-- ===== src/Base/Lists.antt =====
-- The array methods of the source, over lists and native numbers.
use Prim.Native.Nat.{ℕ, suc, ◌+◌}
use mathlib.Core.Path.{◌≡◌, refl, subst, sym, ap, ◌∙◌}
use mathlib.Core.Logic.{inl, inr}
use mathlib.Core.Bool.{Bool, true, false, ◌&&◌, ◌||◌, or-true}
use mathlib.Core.Option.{Option, none, some}
use mathlib.Core.List.{List, [], ◌∷◌, ◌++◌, map}
use native.Mathlib.Omega.{arith}
use navis.Base.Tests.{if◌then◌else◌, Bool-cases}

-- A fact about each member of a list.
abbrev pub All {ℓ κ} : {A : Type ℓ} → (A → Type κ) → List A → Type κ
All P [] = Unit
All P (x ∷ xs) = P x × All P xs

pub All-append {ℓ κ} :
    {A : Type ℓ} (P : A → Type κ) (xs ys : List A) → All P xs → All P ys → All P (xs ++ ys)
All-append P [] ys hx hy = hy
All-append P (x ∷ xs) ys hx hy = (hx.0, All-append P xs ys hx.1 hy)

pub All-imp {ℓ κ μ} :
    {A : Type ℓ} (P : A → Type κ) (Q : A → Type μ) (xs : List A)
    → ((a : A) → P a → Q a)
    → All P xs
    → All Q xs
All-imp P Q [] f h = tt
All-imp P Q (x ∷ xs) f h = (f x h.0, All-imp P Q xs f h.1)

pub All-map {ℓ κ μ} :
    {A : Type ℓ} {B : Type κ} (P : B → Type μ) (f : A → B) (xs : List A)
    → All (λ a. P (f a)) xs
    → All P (map f xs)
All-map P f [] h = tt
All-map P f (x ∷ xs) h = (h.0, All-map P f xs h.1)

pub All-mp {ℓ κ μ} :
    {A : Type ℓ} (P : A → Type κ) (Q : A → Type μ) (xs : List A)
    → All (λ a. P a → Q a) xs
    → All P xs
    → All Q xs
All-mp P Q [] f h = tt
All-mp P Q (x ∷ xs) f h = (f.0 h.0, All-mp P Q xs f.1 h.1)

module _ {ℓ} {A : Type ℓ} where
  abbrev pub length : List A → ℕ
  length [] = 0
  length (x ∷ xs) = suc (length xs)

  -- `some` of the source
  unfoldable pub any : (A → Bool) → List A → Bool
  any p [] = false
  any p (x ∷ xs) = p x || any p xs

  -- `every` of the source
  unfoldable pub all : (A → Bool) → List A → Bool
  all p [] = true
  all p (x ∷ xs) = p x && all p xs

  unfoldable pub filter : (A → Bool) → List A → List A
  filter p [] = []
  filter p (x ∷ xs) = let rest = filter p xs in if p x then x ∷ rest else rest

  -- `find` of the source
  unfoldable pub find? : (A → Bool) → List A → Option A
  find? p [] = none
  find? p (x ∷ xs) = let rest = find? p xs in if p x then some x else rest

  pub length-append : (xs ys : List A) → length (xs ++ ys) ≡ length xs + length ys
  length-append [] ys = omega arith
  length-append (x ∷ xs) ys = omega (arith, length-append xs ys)

  pub any-append : (p : A → Bool) (xs ys : List A) → any p (xs ++ ys) ≡ (any p xs || any p ys)
  unfolding any
  any-append p [] ys = refl
  any-append p (x ∷ xs) ys = ground (arith, any-append p xs ys)

-- What the test guarantees holds of the images of what passes it.
pub All-map-filter {ℓ κ μ} :
    {A : Type ℓ} {B : Type κ} (P : B → Type μ) (f : A → B) (test : A → Bool) (xs : List A)
    → ((a : A) → test a ≡ true → P (f a))
    → All P (map f (filter test xs))
unfolding filter
All-map-filter P f test [] h = tt
All-map-filter P f test (x ∷ xs) h = elim (Bool-cases (test x)) [
  | inl e ↦ rw e (h x e, All-map-filter P f test xs h)
  | inr e ↦ rw e (All-map-filter P f test xs h)
]

pub filter-none {ℓ} :
    {A : Type ℓ} (test : A → Bool) (xs : List A)
    → All (λ a. test a ≡ false) xs
    → filter test xs ≡ []
unfolding filter
filter-none test [] h = refl
filter-none test (x ∷ xs) h = rw h.0 (filter-none test xs h.1)

-- A fact about what passes a test, as a fact about the whole list.
pub All-of-filter {ℓ κ} :
    {A : Type ℓ} (P : A → Type κ) (test : A → Bool) (xs : List A)
    → All P (filter test xs)
    → All (λ a. test a ≡ true → P a) xs
unfolding filter
All-of-filter P test [] h = tt
All-of-filter P test (x ∷ xs) h = elim (Bool-cases (test x)) [
  | inl e ↦
      let both : All P (x ∷ filter test xs) =
        subst (λ b. All P (if b then x ∷ filter test xs else filter test xs)) e h in
      (λ _. both.0, All-of-filter P test xs both.1)
  | inr e ↦
      let rest : All P (filter test xs) =
        subst (λ b. All P (if b then x ∷ filter test xs else filter test xs)) e h in
      (λ t. absurd (true-ne-false (sym t ∙ e)), All-of-filter P test xs rest)
]
  where
    true-ne-false : true ≡ false → ⊥
    true-ne-false e = cc

-- What holds of the members that pass a test holds of what passes it.
pub All-filter-if {ℓ κ} :
    {A : Type ℓ} (P : A → Type κ) (test : A → Bool) (xs : List A)
    → All (λ a. test a ≡ true → P a) xs
    → All P (filter test xs)
unfolding filter
All-filter-if P test [] h = tt
All-filter-if P test (x ∷ xs) h = elim (Bool-cases (test x)) [
  | inl e ↦ rw e (h.0 e, All-filter-if P test xs h.1)
  | inr e ↦ rw e (All-filter-if P test xs h.1)
]

pub All-filter {ℓ κ} :
    {A : Type ℓ} (P : A → Type κ) (test : A → Bool) (xs : List A)
    → All P xs
    → All P (filter test xs)
unfolding filter
All-filter P test [] h = tt
All-filter P test (x ∷ xs) h = elim (Bool-cases (test x)) [
  | inl e ↦ rw e (h.0, All-filter P test xs h.1)
  | inr e ↦ rw e (All-filter P test xs h.1)
]

-- What passes a test is found, by an image, among the images of what passes it.
pub any-map-filter {ℓ κ} :
    {A : Type ℓ} {B : Type κ} (eq : B → B → Bool) (f : A → B) (test : A → Bool) (xs : List A)
    → ((b : B) → eq b b ≡ true)
    → All (λ a. test a ≡ true → any (λ b. eq b (f a)) (map f (filter test xs)) ≡ true) xs
unfolding filter any
any-map-filter eq f test [] eq_self = tt
any-map-filter eq f test (x ∷ xs) eq_self = (
  λ h. rw h (ap (λ b. b || any (λ c. eq c (f x)) (map f (filter test xs))) (eq_self (f x))),
  All-imp _ _ xs (λ a ih h. later (test x) a (ih h)) (any-map-filter eq f test xs eq_self),
)
  where
    later :
        (b : Bool) (a : _)
        → any (λ c. eq c (f a)) (map f (filter test xs)) ≡ true
        → any (λ c. eq c (f a)) (map f (if b then x ∷ filter test xs else filter test xs)) ≡ true
    later true a h = rw (h, or-true)
    later false a h = h
