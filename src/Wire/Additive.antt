-- ===== src/Wire/Additive.antt =====
-- The two tolerances of contracts/src/work-event.ts: what a producer may emit, a consumer reads.
use navis.Base.{
  String, ◌≡◌, refl, subst, Bool, true, false, List, [], ◌∷◌, Option, none, some, Dict, arith,
}
use navis.Base.Results.{done}
use navis.Schema.Canonical.{Value, Members, obj, get_field, str}
use navis.Schema.Platform.{Platform}
use navis.Wire.WorkEvent.{
  WireChecks, Field, prepend, skip_if, pick, parse_fields, as_object, parse_object, WorkEventType,
  user_message, agent_message, tool_call_requested, tool_call_result, event_type_of, envelope_shape,
  session_privacy_metadata, message_payload, tool_payload, payload_shape, event_shape, of_type,
  typed, work_event_schema, encode_canonical_work_event, parse_canonical_work_event,
}

-- `b` is what `a` is, where `a` is at all.
abbrev Within {ℓ} : {A : Type ℓ} → Option A → Option A → Type ℓ
Within {A} a b = (r : A) → a ≡ some r → b ≡ some r

-- Field by field, the second list reads at least what the first reads.
abbrev Covers : List Field → List Field → Type 0
Covers [] [] = Unit
Covers [] (g ∷ gs) = ⊥
Covers (f ∷ fs) [] = ⊥
Covers (f ∷ fs) (g ∷ gs) =
    (f.name ≡ g.name)
    × (f.may_lack ≡ g.may_lack)
    × ((v : Value) → Within (f.parse v) (g.parse v))
    × Covers fs gs

pub Covers-refl : (fs : List Field) → Covers fs fs
Covers-refl [] = tt
Covers-refl (f ∷ fs) = (refl, refl, λ v r h. h, Covers-refl fs)

prepend-Within :
    (k : String) (a x : Option Value) (b y : Option (Dict Value))
    → Within a x
    → Within b y
    → Within (prepend k a b) (prepend k x y)
prepend-Within k none x b y ha hb r h = cc
prepend-Within k (some v) x none y ha hb r h = cc
prepend-Within k (some v) x (some d) y ha hb r h = rw (ha v refl, hb d refl) h

skip_if-Within :
    (m n : Bool) (b y : Option (Dict Value))
    → m ≡ n
    → Within b y
    → Within (skip_if m b) (skip_if n y)
skip_if-Within true true b y e h r k = h r k
skip_if-Within false false b y e h r k = k
skip_if-Within true false b y e h r k = cc
skip_if-Within false true b y e h r k = cc

-- one field, over the value that the object has for it
pick-element :
    (f g : Field) (found : Option Value) (b y : Option (Dict Value))
    → f.name ≡ g.name
    → f.may_lack ≡ g.may_lack
    → ((v : Value) → Within (f.parse v) (g.parse v))
    → Within b y
    → Within
        (elim found [ none ↦ skip_if f.may_lack b | some v ↦ prepend f.name (f.parse v) b ])
        (elim found [ none ↦ skip_if g.may_lack y | some v ↦ prepend g.name (g.parse v) y ])
pick-element f g none b y name lack parse h = skip_if-Within f.may_lack g.may_lack b y lack h
pick-element f g (some v) b y name lack parse h =
    subst (λ k. Within (prepend f.name (f.parse v) b) (prepend k (g.parse v) y)) name
      (prepend-Within f.name (f.parse v) (g.parse v) b y (parse v) h)

pick-Within : (fs gs : List Field) (o : Members) → Covers fs gs → Within (pick fs o) (pick gs o)
unfolding pick
pick-Within [] [] o c r h = h
pick-Within [] (g ∷ gs) o c r h = absurd c
pick-Within (f ∷ fs) [] o c r h = absurd c
pick-Within (f ∷ fs) (g ∷ gs) o c r h =
    subst
      (λ k.
        Within
          (elim (get_field f.name o) [
            | none ↦ skip_if f.may_lack (pick fs o)
            | some v ↦ prepend f.name (f.parse v) (pick fs o)
          ])
          (elim (get_field k o) [
            | none ↦ skip_if g.may_lack (pick gs o)
            | some v ↦ prepend g.name (g.parse v) (pick gs o)
          ]))
      c.0
      (pick-element f g (get_field f.name o) (pick fs o) (pick gs o) c.0 c.1 c.2
        (pick-Within fs gs o c.3))
      r h

parse_fields-Within :
    (fs gs : List Field) (o : Members)
    → Covers fs gs
    → Within (parse_fields true fs o) (parse_fields false gs o)
unfolding parse_fields
parse_fields-Within fs gs o c r h = pick-Within fs gs o c r (ground arith)

as_object-Within : (a b : Option (Dict Value)) → Within a b → Within (as_object a) (as_object b)
as_object-Within none b h r k = cc
as_object-Within (some d) b h r k = rw (h d refl) k

parse_object-Within :
    (fs gs : List Field)
    → Covers fs gs
    → (v : Value) → Within (parse_object true fs v) (parse_object false gs v)
unfolding parse_object
parse_object-Within fs gs c (obj o) r h =
    as_object-Within (parse_fields true fs o) (parse_fields false gs o)
      (parse_fields-Within fs gs o c) r h
parse_object-Within fs gs c v r h = cc

module _ (z : Platform) (w : WireChecks) where
  message_payload-Covers : Covers (message_payload z w true) (message_payload z w false)
  message_payload-Covers =
      (refl, refl, parse_object-Within _ _ (Covers-refl (session_privacy_metadata z w)), tt)

  tool_payload-Covers : Covers (tool_payload z w true) (tool_payload z w false)
  tool_payload-Covers = (
    refl,
    refl,
    parse_object-Within _ _ (Covers-refl (session_privacy_metadata z w)),
    (refl, refl, λ v r h. h, tt),
  )

  payload_shape-Covers :
      (t : WorkEventType) → Covers (payload_shape z w true t) (payload_shape z w false t)
  unfolding payload_shape
  payload_shape-Covers user_message = message_payload-Covers
  payload_shape-Covers agent_message = message_payload-Covers
  payload_shape-Covers tool_call_requested = tool_payload-Covers
  payload_shape-Covers tool_call_result = tool_payload-Covers
  payload_shape-Covers t = Covers-refl (payload_shape z w true t)

  event_shape-Covers :
      (t : WorkEventType) → Covers (event_shape z w true t) (event_shape z w false t)
  unfolding event_shape
  event_shape-Covers t = (
    refl,
    refl,
    λ v r h. h,
    (
      refl,
      refl,
      parse_object-Within _ _ (payload_shape-Covers t),
      Covers-refl (envelope_shape z w),
    ),
  )

  of_type-Within :
      (o : Members) (t : Option WorkEventType)
      → Within (of_type z w true o t) (of_type z w false o t)
  of_type-Within o none r h = h
  of_type-Within o (some t) r h = parse_fields-Within _ _ o (event_shape-Covers t) r h

  typed-Within :
      (o : Members) (v : Option Value) → Within (typed z w true o v) (typed z w false o v)
  typed-Within o (some (str s)) r h = of_type-Within o (event_type_of s) r h
  typed-Within o v r h = cc

  work_event_schema-Within :
      (v : Value) → Within (work_event_schema z w true v) (work_event_schema z w false v)
  unfolding work_event_schema
  work_event_schema-Within (obj o) r h = typed-Within o (get_field "event_type" o) r h
  work_event_schema-Within v r h = cc

pub parse_same :
    (z : Platform) (w : WireChecks) (v : Value) (e : Dict Value)
    → encode_canonical_work_event z w v ≡ done e
    → parse_canonical_work_event z w v ≡ done e
unfolding encode_canonical_work_event parse_canonical_work_event
parse_same z w v e h = ground (arith, work_event_schema-Within z w v e)
