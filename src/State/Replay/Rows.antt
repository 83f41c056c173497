-- ===== src/State/Replay/Rows.antt =====
-- What a change of one row keeps of the other rows, and when it succeeds.
use navis.Base.{
  All-imp, subst, String, ◌≡◌, sym, ◌∙◌, true, ◌||◌, Option, some, [], ◌∷◌, ◌==◌, string_eq,
  is_present, Dict, lookup, insert, values, lookup-insert, arith, eq_iff, All, Option-cases,
  Bool-cases, inl, inr,
}
use navis.State.Replay.{ok, modify, touch}

abbrev pub IsThere {ℓ} : {A : Type ℓ} → Option A → Type 0
IsThere o = is_present o ≡ true

-- every row stands under its own identifier
abbrev pub IsKeyed {ℓ} : {A : Type ℓ} → (A → String) → Dict A → Type 0
IsKeyed id rows = All (λ p. p.0 ≡ id p.1) rows

module _ {ℓ} {A : Type ℓ} where
  pub insert-IsKeyed :
      (id : A → String) (k : String) (v : A) (rows : Dict A)
      → IsKeyed id rows
      → k ≡ id v
      → IsKeyed id (insert k v rows)
  unfolding insert
  insert-IsKeyed id k v [] h e = (e, tt)
  insert-IsKeyed id k v ((j, w) ∷ rows) h e = elim (Bool-cases (j == k)) [
    | inl p ↦ rw p ((eq_iff j k).0 p ∙ e, h.1)
    | inr p ↦ rw p (h.0, insert-IsKeyed id k v rows h.1 e)
  ]

  pub lookup-IsKeyed :
      (id : A → String) (k : String) (v : A) (rows : Dict A)
      → IsKeyed id rows
      → lookup k rows ≡ some v
      → k ≡ id v
  unfolding lookup
  lookup-IsKeyed id k v [] h e = cc
  lookup-IsKeyed id k v ((j, w) ∷ rows) h e =
      ground (arith, eq_iff j k, h.0, lookup-IsKeyed id k v rows h.1)

  pub touch-IsKeyed :
      (id : A → String) (k : String) (f : A → A) (rows : Dict A)
      → IsKeyed id rows
      → ((a : A) → id (f a) ≡ id a)
      → IsKeyed id (touch k f rows)
  unfolding touch
  touch-IsKeyed id k f rows h keeps = elim (Option-cases (lookup k rows)) [
    | inl e ↦ rw (e, touch) h
    | inr (a, e) ↦
        rw (e, touch)
          (insert-IsKeyed id k (f a) rows h (lookup-IsKeyed id k a rows h e ∙ sym (keeps a)))
  ]

  pub modify-eq-ok :
      (what k : String) (f : A → A) (rows rows' : Dict A)
      → modify what k f rows ≡ ok rows'
      → (a : A) × (lookup k rows ≡ some a) × (insert k (f a) rows ≡ rows')
  unfolding modify
  modify-eq-ok what k f rows rows' e = elim (Option-cases (lookup k rows)) [
    | inl n ↦ absurd (ground arith)
    | inr (a, s) ↦ (a, s, ground arith)
  ]

  pub modify-IsKeyed :
      (id : A → String) (what k : String) (f : A → A) (rows rows' : Dict A)
      → IsKeyed id rows
      → ((a : A) → id (f a) ≡ id a)
      → modify what k f rows ≡ ok rows'
      → IsKeyed id rows'
  modify-IsKeyed id what k f rows rows' h keeps e =
      let (a, s, q) = modify-eq-ok what k f rows rows' e in
      subst (IsKeyed id) q
        (insert-IsKeyed id k (f a) rows h (lookup-IsKeyed id k a rows h s ∙ sym (keeps a)))

  pub IsThere-insert :
      (k j : String) (v : A) (rows : Dict A)
      → is_present (lookup j (insert k v rows)) ≡ (k == j || is_present (lookup j rows))
  IsThere-insert k j v rows = ground (arith, lookup-insert k j v rows)

  pub IsThere-touch :
      (k j : String) (f : A → A) (rows : Dict A)
      → is_present (lookup j (touch k f rows)) ≡ is_present (lookup j rows)
  unfolding touch
  IsThere-touch k j f rows = elim (Option-cases (lookup k rows)) [
    | inl e ↦ rw (e, touch)
    | inr (a, e) ↦ rw (e, touch) (ground (arith, e, eq_iff k j, lookup-insert k j (f a) rows))
  ]

  pub modify_ok :
      (what k : String) (f : A → A) (rows : Dict A)
      → IsThere (lookup k rows)
      → (rows' : Dict A) × (modify what k f rows ≡ ok rows')
  unfolding modify
  modify_ok what k f rows h = elim (Option-cases (lookup k rows)) [
    | inl e ↦ absurd (ground arith)
    | inr (a, e) ↦ (insert k (f a) rows, ground arith)
  ]

  pub IsThere-modify :
      (what k j : String) (f : A → A) (rows rows' : Dict A)
      → modify what k f rows ≡ ok rows'
      → is_present (lookup j rows') ≡ is_present (lookup j rows)
  IsThere-modify what k j f rows rows' e =
      let (a, s, q) = modify-eq-ok what k f rows rows' e in
      rw (← q) (ground (arith, s, eq_iff k j, lookup-insert k j (f a) rows))

  -- each value is found under its identifier
  pub values-IsKeyed :
      (id : A → String) (rows : Dict A)
      → IsKeyed id rows
      → All (λ a. IsThere (lookup (id a) rows)) (values rows)
  unfolding values lookup
  values-IsKeyed id [] h = tt
  values-IsKeyed id ((k, v) ∷ rows) h = (
    ground (arith, eq_iff k (id v), h.0),
    All-imp (λ a. IsThere (lookup (id a) rows)) (λ a. IsThere (lookup (id a) ((k, v) ∷ rows)))
        (values rows) (λ a p. ground arith) (values-IsKeyed id rows h.1),
  )
