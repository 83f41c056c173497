-- ===== src/State/Replay.antt =====
-- The result of folding an event: the new projection, or what the applier throws.
pub mod Rows
use navis.Base.{String, Option, none, some, Dict, lookup, insert}
use navis.Schema.Errors.{Fault, missing}

pub data Replay {ℓ} (A : Type ℓ) : Type ℓ where
  ok : A → Replay A
  fault : Fault → Replay A

infixl 5 ◌>>=◌
abbrev pub ◌>>=◌ {ℓ κ} : {A : Type ℓ} {B : Type κ} → Replay A → (A → Replay B) → Replay B
ok a >>= f = f a
fault e >>= f = fault e

-- `must`: a row that a later event touches must exist.
abbrev pub must {ℓ} : {A : Type ℓ} → Option A → String → Replay A
must none what = fault (missing what)
must (some a) what = ok a

-- a change in place of the row of a key
unfoldable pub modify {ℓ} : {A : Type ℓ} → String → String → (A → A) → Dict A → Replay (Dict A)
modify what id f rows = do row ← must (lookup id rows) what; ok (insert id (f row) rows)

-- `touch` of a row, which does nothing where the row is missing
unfoldable pub touch {ℓ} : {A : Type ℓ} → String → (A → A) → Dict A → Dict A
touch id f rows = elim (lookup id rows) [ none ↦ rows | some row ↦ insert id (f row) rows ]
