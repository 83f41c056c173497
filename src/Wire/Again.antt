-- ===== src/Wire/Again.antt =====
-- What an object schema of contracts/src/work-event.ts parses, it parses again to the same.
use navis.Base.{
  String, ◌≡◌, refl, sym, subst, ◌∙◌, ap, Bool, true, false, List, [], ◌∷◌, Option, none, some,
  ◌==◌, string_eq, Dict, arith, All, All-imp, eq_iff, eq_refl, any, not, ◌&&◌, inl, inr, Bool-cases,
}
use navis.Schema.Canonical.{Value, Members, obj, member, str, object, get_field}
use navis.Wire.WorkEvent.{
  Field, prepend, skip_if, pick, parse_fields, as_object, parse_object, text_that,
}

-- The parser gives back what it accepts.
abbrev pub Keeps : (Value → Option Value) → Type 0
Keeps p = (v r : Value) → p v ≡ some r → r ≡ v

-- What the parser gives, it accepts and keeps.
abbrev pub Steady : (Value → Option Value) → Type 0
Steady p = (v r : Value) → p v ≡ some r → p r ≡ some r

pub Keeps-Steady : (p : Value → Option Value) → Keeps p → Steady p
Keeps-Steady p k v r h = ap p (k v r h) ∙ h

-- The fields have different names, and steady parsers.
abbrev pub AreSteady : List Field → Type 0
AreSteady [] = Unit
AreSteady (f ∷ fs) =
    Steady f.parse × All (λ (g : Field). (f.name == g.name) ≡ false) fs × AreSteady fs

-- the step of `pick`, over the value that the object has for the field
abbrev step : Field → Option Value → Option (Dict Value) → Option (Dict Value)
step f none rest = skip_if f.may_lack rest
step f (some v) rest = prepend f.name (f.parse v) rest

pick-step :
    (f : Field) (fs : List Field) (o : Members) (found : Option Value) (rest : Option (Dict Value))
    → get_field f.name o ≡ found
    → pick fs o ≡ rest
    → pick (f ∷ fs) o ≡ step f found rest
unfolding pick
pick-step f fs o none rest e h = ground (arith, e, h)
pick-step f fs o (some v) rest e h = ground (arith, e, h)

-- how a field enters the fields that are picked
data Picked (f : Field) (fs : List Field) (o : Members) (d : Dict Value) : Type 0 where
  lacks : get_field f.name o ≡ none → f.may_lack ≡ true → pick fs o ≡ some d → Picked f fs o d
  takes :
      (v r : Value) (rest : Dict Value)
      → get_field f.name o ≡ some v
      → f.parse v ≡ some r
      → pick fs o ≡ some rest
      → d ≡ (f.name, r) ∷ rest
      → Picked f fs o d

skip_if-some :
    (b : Bool) (m : Option (Dict Value)) (d : Dict Value)
    → skip_if b m ≡ some d
    → (b ≡ true) × (m ≡ some d)
skip_if-some true m d h = (refl, h)
skip_if-some false m d h = cc

prepend-some :
    (k : String) (a : Option Value) (m : Option (Dict Value)) (d : Dict Value)
    → prepend k a m ≡ some d
    → (r : Value) × (rest : Dict Value) × (a ≡ some r) × (m ≡ some rest) × (d ≡ (k, r) ∷ rest)
prepend-some k none m d h = cc
prepend-some k (some r) none d h = cc
prepend-some k (some r) (some rest) d h = (r, rest, refl, refl, cc)

pick-Picked :
    (f : Field) (fs : List Field) (o : Members) (d : Dict Value)
    → pick (f ∷ fs) o ≡ some d
    → Picked f fs o d
unfolding pick
pick-Picked f fs o d h = by_value (get_field f.name o) refl h
  where
    by_value :
        (found : Option Value)
        → get_field f.name o ≡ found
        → elim found [
          | none ↦ skip_if f.may_lack (pick fs o)
          | some v ↦ prepend f.name (f.parse v) (pick fs o)
        ]
          ≡ some d
        → Picked f fs o d
    by_value none e k = let (b, m) = skip_if-some f.may_lack (pick fs o) d k in lacks e b m
    by_value (some v) e k =
        let (r, rest, parsed, picked, same) = prepend-some f.name (f.parse v) (pick fs o) d k in
        takes v r rest e parsed picked same

-- A name that no field has is none of the picked ones.
pick-other :
    (k : String) (fs : List Field) (o : Members) (d : Dict Value)
    → All (λ (g : Field). (k == g.name) ≡ false) fs
    → pick fs o ≡ some d
    → get_field k (object d) ≡ none
unfolding pick get_field object
pick-other k [] o d free h = ground (arith, h)
pick-other k (f ∷ fs) o d free h = elim (pick-Picked f fs o d h) [
  | lacks e b m ↦ pick-other k fs o d free.1 m
  | takes v r rest e parsed picked same ↦
      ap (λ q. get_field k (object q)) same
      ∙ ground
          (arith, free.0, eq_iff k f.name, eq_iff f.name k, pick-other k fs o rest free.1 picked)
]

-- The picked fields depend on the values of the fields alone.
pick-same :
    (fs : List Field) (o o' : Members)
    → All (λ (g : Field). get_field g.name o ≡ get_field g.name o') fs
    → pick fs o ≡ pick fs o'
unfolding pick
pick-same [] o o' h = refl
pick-same (f ∷ fs) o o' h =
    pick-step f fs o _ _ h.0 (pick-same fs o o' h.1) ∙ sym (pick-step f fs o' _ _ refl refl)

get_field-later :
    (k : String) (v : Value) (o : Members) (fs : List Field)
    → All (λ (g : Field). (k == g.name) ≡ false) fs
    → All (λ (g : Field). get_field g.name (member k v o) ≡ get_field g.name o) fs
unfolding get_field
get_field-later k v o fs h = All-imp _ _ fs (λ g e. rw e refl) h

pub pick-again :
    (fs : List Field) (o : Members) (d : Dict Value)
    → AreSteady fs
    → pick fs o ≡ some d
    → pick fs (object d) ≡ some d
unfolding pick get_field object
pick-again [] o d steady h = h
pick-again (f ∷ fs) o d steady h = elim (pick-Picked f fs o d h) [
  | lacks e b m ↦
      pick-step f fs (object d) none (some d) (pick-other f.name fs o d steady.1 m)
        (pick-again fs o d steady.2 m)
      ∙ ap (λ l. skip_if l (some d)) b
  | takes v r rest e parsed picked same ↦
      subst (λ q. pick (f ∷ fs) (object q) ≡ some q) (sym same)
        (pick-step f fs (member f.name r (object rest)) (some r) (some rest)
            (rw (eq_refl f.name) refl)
            (pick-same fs (member f.name r (object rest)) (object rest)
                (get_field-later f.name r (object rest) fs steady.1)
              ∙ pick-again fs o rest steady.2 picked)
          ∙ ap (λ q. prepend f.name q (some rest)) (steady.0 v r parsed))
]

-- The value of a field whose parser keeps what it accepts is the one that the object had.
pub pick-kept :
    (fs : List Field) (o : Members) (d : Dict Value)
    → AreSteady fs
    → pick fs o ≡ some d
    → All (λ (g : Field). Keeps g.parse → get_field g.name (object d) ≡ get_field g.name o) fs
unfolding get_field object
pick-kept [] o d steady h = tt
pick-kept (f ∷ fs) o d steady h = elim (pick-Picked f fs o d h) [
  | lacks e b m ↦ (λ _. pick-other f.name fs o d steady.1 m ∙ sym e, pick-kept fs o d steady.2 m)
  | takes v r rest e parsed picked same ↦
      subst
        (λ q.
          All (λ (g : Field). Keeps g.parse → get_field g.name (object q) ≡ get_field g.name o)
            (f ∷ fs))
        (sym same)
        (
          λ keeps. rw (eq_refl f.name) (ap some (keeps v r parsed) ∙ sym e),
          later fs rest r (get_field-later f.name r (object rest) fs steady.1)
              (pick-kept fs o rest steady.2 picked),
        )
]
  where
    later :
        (gs : List Field) (rest : Dict Value) (r : Value)
        → All
            (λ (g : Field).
              get_field g.name (member f.name r (object rest)) ≡ get_field g.name (object rest))
            gs
        → All
            (λ (g : Field). Keeps g.parse → get_field g.name (object rest) ≡ get_field g.name o)
            gs
        → All
            (λ (g : Field).
              Keeps g.parse → get_field g.name (member f.name r (object rest)) ≡ get_field g.name o)
            gs
    later [] rest r a b = tt
    later (g ∷ gs) rest r a b = (λ keeps. a.0 ∙ b.0 keeps, later gs rest r a.1 b.1)

pub text_that-Keeps : (p : String → Bool) → Keeps (text_that p)
text_that-Keeps p (str s) r h = elim (Bool-cases (p s)) [
  | inl e ↦ ground (arith, h, e)
  | inr e ↦ absurd (ground (arith, h, e))
]
text_that-Keeps p v r h = cc

pub parse_object-Steady : (fs : List Field) → AreSteady fs → Steady (parse_object false fs)
unfolding parse_object parse_fields
parse_object-Steady fs steady (obj o) r h = by_fields (pick fs o) refl h
  where
    by_fields :
        (q : Option (Dict Value))
        → pick fs o ≡ q
        → as_object q ≡ some r
        → parse_object false fs r ≡ some r
    by_fields none e k = cc
    by_fields (some d) e k =
        let same : obj (object d) ≡ r = some-injective k in
        subst (λ x. parse_object false fs x ≡ some x) same
          (ap as_object (pick-again fs o d steady e))
      where
        some-injective : {a b : Value} → some a ≡ some b → a ≡ b
        some-injective h = cc
parse_object-Steady fs steady v r h = cc

-- whether the fields have different names
unfoldable pub differ : List Field → Bool
unfolding any
differ [] = true
differ (f ∷ fs) = not (any (λ g. f.name == g.name) fs) && differ fs

none_of :
    (k : String) (fs : List Field)
    → any (λ (g : Field). k == g.name) fs ≡ false
    → All (λ (g : Field). (k == g.name) ≡ false) fs
unfolding any
none_of k [] h = tt
none_of k (f ∷ fs) h = (ground (arith, h), none_of k fs (ground (arith, h)))

pub differ-AreSteady :
    (fs : List Field) → differ fs ≡ true → All (λ (f : Field). Steady f.parse) fs → AreSteady fs
unfolding differ
differ-AreSteady [] h steady = tt
differ-AreSteady (f ∷ fs) h steady = (
  steady.0,
  none_of f.name fs (ground (arith, h)),
  differ-AreSteady fs (ground (arith, h)) steady.1,
)
