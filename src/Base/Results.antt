-- ===== src/Base/Results.antt =====
-- A call that returns a value or throws, where nothing that it wrote stays written.
use mathlib.Core.Path.{◌≡◌, refl}
use mathlib.Core.Bool.{Bool, true, false}

pub data Result {ℓ} (E : Type 0) (A : Type ℓ) : Type ℓ where
  done : A → Result E A
  thrown : E → Result E A

module _ {E : Type 0} where
  infixl 5 ◌>>=◌ ◌>>◌
  unfoldable pub ◌>>=◌ {ℓ κ} :
      {A : Type ℓ} {B : Type κ} → Result E A → (A → Result E B) → Result E B
  done a >>= f = f a
  thrown e >>= f = thrown e

  unfoldable pub ◌>>◌ {ℓ} : {B : Type ℓ} → Result E (Unit {0}) → Result E B → Result E B
  done _ >> k = k
  thrown e >> k = thrown e

  -- `if (!b) throw e`
  unfoldable pub require : Bool → E → Result E (Unit {0})
  require true e = done tt
  require false e = thrown e

  pub done-injective {ℓ} : {A : Type ℓ} (a b : A) → ◌≡◌ {A = Result E A} (done a) (done b) → a ≡ b
  done-injective a b h = cc

  pub thrown-ne-done {ℓ} :
      {A : Type ℓ} {a : A} {e : E} → ◌≡◌ {A = Result E A} (thrown e) (done a) → ⊥
  thrown-ne-done h = cc

  pub >>=-eq-done {ℓ κ} :
      {A : Type ℓ} {B : Type κ} (m : Result E A) (f : A → Result E B) {b : B}
      → (m >>= f) ≡ done b
      → (a : A) × (m ≡ done a) × (f a ≡ done b)
  unfolding ◌>>=◌
  >>=-eq-done (done a) f h = (a, refl, h)
  >>=-eq-done (thrown e) f h = cc
