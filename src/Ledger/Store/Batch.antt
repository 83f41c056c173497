-- ===== src/Ledger/Store/Batch.antt =====
-- What the checks of `append` leave of a batch, and what its loop writes.
use navis.Base.{
  ℕ, String, ◌≡◌, ◌≢◌, refl, subst, ◌∙◌, ap, false, List, [], ◌∷◌, ◌++◌, none, some, ◌+◌, ◌==◌,
  string_eq, nat_eq, any, Dict, lookup, insert, lookup-insert, lookup-insert_self, All, All-append,
  All-imp, length, eq_iff, arith,
}
use navis.Base.Results.{done, ◌>>=◌, ◌>>◌, require}
use navis.Ledger.Envelope.{EventEnvelope, device_of}
use navis.Ledger.Store.{Owner, check_batch, own, last_seq}

-- The sequence numbers count on from `n`.
abbrev pub Gapless : ℕ → List EventEnvelope → Type 0
Gapless n [] = Unit
Gapless n (e ∷ rest) = (e.seq ≡ n + 1) × Gapless (n + 1) rest

-- No two events have one identifier.
abbrev pub Distinct : List EventEnvelope → Type 0
Distinct [] = Unit
Distinct (e ∷ rest) = All (λ (f : EventEnvelope). f.event_id ≢ e.event_id) rest × Distinct rest

abbrev pub owner_of : String → EventEnvelope → Owner
owner_of project_id e = record { project_id = project_id; device_id = device_of e }

-- The event is of the project, and its identifier is recorded as such.
pub record IsOwned (owners : Dict Owner) (project_id : String) (e : EventEnvelope) : Type 0 where
  pub claims : e.project_id ≡ project_id
  pub recorded : lookup e.event_id owners ≡ some (owner_of project_id e)

-- an event of a checked batch
pub record IsNew (owners : Dict Owner) (project_id : String) (prior : List String)
    (e : EventEnvelope) : Type 0 where
  pub claims : e.project_id ≡ project_id
  pub free : lookup e.event_id owners ≡ none
  pub unseen : any (λ id. id == e.event_id) prior ≡ false

pub Gapless-append :
    (n : ℕ) (xs ys : List EventEnvelope)
    → Gapless n xs
    → Gapless (n + length xs) ys
    → Gapless n (xs ++ ys)
Gapless-append n [] ys hx hy = subst (λ k. Gapless k ys) (omega arith) hy
Gapless-append n (x ∷ xs) ys hx hy =
    (hx.0, Gapless-append (n + 1) xs ys hx.1 (subst (λ k. Gapless k ys) (omega arith) hy))

pub last_seq-Gapless :
    (n : ℕ) (xs : List EventEnvelope) → Gapless n xs → last_seq n xs ≡ n + length xs
unfolding last_seq
last_seq-Gapless n [] h = omega arith
last_seq-Gapless n (x ∷ xs) h =
    ap (λ k. last_seq k xs) h.0 ∙ last_seq-Gapless (n + 1) xs h.1 ∙ omega arith

pub Distinct-append :
    (xs ys : List EventEnvelope)
    → Distinct xs
    → Distinct ys
    → All (λ (x : EventEnvelope). All (λ (y : EventEnvelope). y.event_id ≢ x.event_id) ys) xs
    → Distinct (xs ++ ys)
Distinct-append [] ys hx hy h = hy
Distinct-append (x ∷ xs) ys hx hy h =
    (All-append _ xs ys hx.0 h.0, Distinct-append xs ys hx.1 hy h.1)

pub record Checked (owners : Dict Owner) (p : String) (n : ℕ) (prior : List String)
    (es : List EventEnvelope) : Type 0 where
  pub gapless : Gapless n es
  pub fresh : All (IsNew owners p prior) es
  pub distinct : Distinct es

later_differs :
    (owners : Dict Owner) (p : String) (prior : List String) (e f : EventEnvelope)
    → IsNew owners p (e.event_id ∷ prior) f
    → f.event_id ≢ e.event_id
unfolding any
later_differs owners p prior e f h = ground (arith, h.unseen, eq_iff e.event_id f.event_id)

later_fresh :
    (owners : Dict Owner) (p : String) (prior : List String) (e f : EventEnvelope)
    → IsNew owners p (e.event_id ∷ prior) f
    → IsNew owners p prior f
unfolding any
later_fresh owners p prior e f h = record {
  claims = h.claims;
  free = h.free;
  unseen = ground (arith, h.unseen);
}

-- one round of the checks
check_batch-element :
    (owners : Dict Owner) (p : String) (n : ℕ) (prior : List String) (e : EventEnvelope)
    (es : List EventEnvelope) (u : Unit {0})
    → check_batch owners p n prior (e ∷ es) ≡ done u
    → (e.seq ≡ n + 1)
      × (check_batch owners p (n + 1) (e.event_id ∷ prior) es ≡ done u)
      × (e.project_id ≡ p)
      × (lookup e.event_id owners ≡ none)
      × (any (λ id. id == e.event_id) prior ≡ false)
unfolding check_batch ◌>>=◌ ◌>>◌ require
check_batch-element owners p n prior e es u h = (
  ground (arith, eq_iff e.project_id p),
  ground (arith, eq_iff e.project_id p),
  ground (arith, eq_iff e.project_id p),
  ground (arith, eq_iff e.project_id p),
  ground (arith, eq_iff e.project_id p),
)

pub check_batch-Checked :
    (owners : Dict Owner) (p : String) (n : ℕ) (prior : List String) (es : List EventEnvelope)
    (u : Unit {0})
    → check_batch owners p n prior es ≡ done u
    → Checked owners p n prior es
check_batch-Checked owners p n prior [] u h = record { gapless = tt; fresh = tt; distinct = tt }
check_batch-Checked owners p n prior (e ∷ es) u h =
    let c = check_batch-element owners p n prior e es u h in
    let rest = check_batch-Checked owners p (n + 1) (e.event_id ∷ prior) es u c.1 in
    record {
      gapless = (c.0, rest.gapless);
      fresh = (
        record { claims = c.2; free = c.3; unseen = c.4 },
        All-imp _ _ es (later_fresh owners p prior e) rest.fresh,
      );
      distinct = (All-imp _ _ es (later_differs owners p prior e) rest.fresh, rest.distinct);
    }

-- What `own` leaves of an identifier that no event of the batch has.
pub own-other :
    (p k : String) (es : List EventEnvelope) (owners : Dict Owner)
    → All (λ (e : EventEnvelope). e.event_id ≢ k) es
    → lookup k (own p es owners) ≡ lookup k owners
unfolding own
own-other p k [] owners h = refl
own-other p k (e ∷ es) owners h =
    own-other p k es (insert e.event_id (owner_of p e) owners) h.1
    ∙ ground (arith, lookup-insert e.event_id k (owner_of p e) owners, eq_iff e.event_id k, h.0)

pub own-members :
    (p : String) (es : List EventEnvelope) (owners : Dict Owner)
    → Distinct es
    → All (λ (e : EventEnvelope). lookup e.event_id (own p es owners) ≡ some (owner_of p e)) es
unfolding own
own-members p [] owners d = tt
own-members p (e ∷ es) owners d =
    let next = insert e.event_id (owner_of p e) owners in
    (
      own-other p e.event_id es next d.0 ∙ lookup-insert_self e.event_id (owner_of p e) owners,
      own-members p es next d.1,
    )
