-- ===== src/Wire/Roundtrip.antt =====
-- The round trip of contracts/src/work-event.ts: a consumer parses what a producer encoded.
use navis.Base.{
  ℕ, String, ◌≡◌, refl, sym, subst, ◌∙◌, ap, Bool, false, Option, none, some, Dict, arith, All, inl,
  inr, Bool-cases, ◌==◌, nat_eq, string_eq, leb, if◌then◌else◌,
}
use navis.Base.Results.{done, done-injective}
use navis.Schema.Canonical.{Value, Members, obj, num, str, decimal, object, get_field}
use navis.Schema.Platform.{Platform}
use navis.Schema.Ids.{max_safe_integer}
use navis.Wire.WorkEvent.{
  WireChecks, Field, pick, parse_object, WorkEventType, work_started, work_progressed,
  work_returned, checkpoint_suggested, evidence_captured, candidate_proposed, user_message,
  agent_message, tool_call_requested, tool_call_result, event_type_of, envelope_shape,
  session_privacy_metadata, payload_shape, event_shape, of_type, typed, work_event_schema,
  encode_canonical_work_event, parse_canonical_work_event, text_that, natural, any_json, confidence,
  or_violation, version_claimed, too_new, parse_versioned, version_in, parse_fields,
}
use navis.Wire.Again.{
  Keeps, Steady, Keeps-Steady, AreSteady, differ, differ-AreSteady, pick-again, pick-kept,
  text_that-Keeps, parse_object-Steady,
}
use navis.Wire.Additive.{parse_same}

text_that-Steady : (p : String → Bool) → Steady (text_that p)
text_that-Steady p = Keeps-Steady (text_that p) (text_that-Keeps p)

natural-Keeps : Keeps natural
natural-Keeps (num n) r h = elim (Bool-cases (leb n max_safe_integer)) [
  | inl e ↦ ground (arith, h, e)
  | inr e ↦ absurd (ground (arith, h, e))
]
natural-Keeps v r h = cc

any_json-Keeps : Keeps any_json
any_json-Keeps v r h = cc

module _ (z : Platform) (w : WireChecks) where
  confidence-Keeps : Keeps (confidence z w)
  confidence-Keeps (num n) r h = elim (Bool-cases (leb n 1)) [
    | inl e ↦ ground (arith, h, e)
    | inr e ↦ absurd (ground (arith, h, e))
  ]
  confidence-Keeps (decimal t) r h = elim (Bool-cases (w.unit_interval t)) [
    | inl e ↦ ground (arith, h, e)
    | inr e ↦ absurd (ground (arith, h, e))
  ]
  confidence-Keeps v r h = cc

  schema_version-Keeps :
      Keeps (λ v. elim v [ num n ↦ if n == 1 then some (num n) else none | _ ↦ none ])
  schema_version-Keeps (num n) r h = elim (Bool-cases (n == 1)) [
    | inl e ↦ ground (arith, h, e)
    | inr e ↦ absurd (ground (arith, h, e))
  ]
  schema_version-Keeps v r h = cc

  envelope_shape-Steady : All (λ (f : Field). Steady f.parse) (envelope_shape z w)
  unfolding envelope_shape
  envelope_shape-Steady = (
    Keeps-Steady _ schema_version-Keeps,
    (
      text_that-Steady _,
      (
        text_that-Steady _,
        (
          text_that-Steady _,
          (
            text_that-Steady _,
            (
              text_that-Steady _,
              (text_that-Steady _, (Keeps-Steady _ confidence-Keeps, (text_that-Steady _, tt))),
            ),
          ),
        ),
      ),
    ),
  )

  privacy-Steady : Steady (parse_object false (session_privacy_metadata z w))
  unfolding session_privacy_metadata differ
  privacy-Steady = parse_object-Steady (session_privacy_metadata z w) (
      differ-AreSteady (session_privacy_metadata z w) refl
        (Keeps-Steady _ natural-Keeps, (text_that-Steady _, (text_that-Steady _, tt))))

  payload_shape-Steady : (t : WorkEventType) → AreSteady (payload_shape z w false t)
  unfolding payload_shape differ
  payload_shape-Steady work_started =
      differ-AreSteady (payload_shape z w false work_started) refl
        (text_that-Steady _, (text_that-Steady _, (text_that-Steady _, tt)))
  payload_shape-Steady work_progressed =
      differ-AreSteady (payload_shape z w false work_progressed) refl
        (text_that-Steady _, (text_that-Steady _, tt))
  payload_shape-Steady work_returned =
      differ-AreSteady (payload_shape z w false work_returned) refl
        (text_that-Steady _, (text_that-Steady _, (text_that-Steady _, tt)))
  payload_shape-Steady checkpoint_suggested =
      differ-AreSteady (payload_shape z w false checkpoint_suggested) refl
        (text_that-Steady _, (text_that-Steady _, tt))
  payload_shape-Steady evidence_captured =
      differ-AreSteady (payload_shape z w false evidence_captured) refl
        (text_that-Steady _, (text_that-Steady _, tt))
  payload_shape-Steady candidate_proposed =
      differ-AreSteady (payload_shape z w false candidate_proposed) refl
        (text_that-Steady _, (text_that-Steady _, (Keeps-Steady any_json any_json-Keeps, tt)))
  payload_shape-Steady user_message =
      differ-AreSteady (payload_shape z w false user_message) refl (privacy-Steady, tt)
  payload_shape-Steady agent_message =
      differ-AreSteady (payload_shape z w false agent_message) refl (privacy-Steady, tt)
  payload_shape-Steady tool_call_requested =
      differ-AreSteady (payload_shape z w false tool_call_requested) refl
        (privacy-Steady, (text_that-Steady _, tt))
  payload_shape-Steady tool_call_result =
      differ-AreSteady (payload_shape z w false tool_call_result) refl
        (privacy-Steady, (text_that-Steady _, tt))

  event_shape-Steady : (t : WorkEventType) → AreSteady (event_shape z w false t)
  unfolding event_shape envelope_shape differ
  event_shape-Steady t = differ-AreSteady (event_shape z w false t) refl (
    text_that-Steady _,
    (
      parse_object-Steady (payload_shape z w false t) (payload_shape-Steady t),
      envelope_shape-Steady,
    ),
  )

  -- the type and the version of what is picked are those of the object
  event_type-kept :
      (t : WorkEventType) (o : Members) (e : Dict Value)
      → pick (event_shape z w false t) o ≡ some e
      → (get_field "event_type" (object e) ≡ get_field "event_type" o)
        × (get_field "schema_version" (object e) ≡ get_field "schema_version" o)
  unfolding event_shape envelope_shape
  event_type-kept t o e h =
      let kept = pick-kept (event_shape z w false t) o e (event_shape-Steady t) h in
      (kept.0 (text_that-Keeps _), kept.1.1.0 schema_version-Keeps)

  of_type-again :
      (o : Members) (t : Option WorkEventType) (e : Dict Value)
      → of_type z w false o t ≡ some e
      → (of_type z w false (object e) t ≡ some e)
        × (get_field "event_type" (object e) ≡ get_field "event_type" o)
        × (get_field "schema_version" (object e) ≡ get_field "schema_version" o)
  unfolding parse_fields
  of_type-again o none e h = cc
  of_type-again o (some t) e h =
      let kept = event_type-kept t o e h in
      (pick-again (event_shape z w false t) o e (event_shape-Steady t) h, kept.0, kept.1)

  typed-again :
      (o : Members) (v : Option Value) (e : Dict Value)
      → get_field "event_type" o ≡ v
      → typed z w false o v ≡ some e
      → (typed z w false (object e) (get_field "event_type" (object e)) ≡ some e)
        × (get_field "schema_version" (object e) ≡ get_field "schema_version" o)
  typed-again o (some (str s)) e found h =
      let (again, type, version) = of_type-again o (event_type_of s) e h in
      (subst (λ v. typed z w false (object e) v ≡ some e) (sym (type ∙ found)) again, version)
  typed-again o v e found h = cc

  schema-again :
      (v : Value) (e : Dict Value)
      → work_event_schema z w false v ≡ some e
      → (work_event_schema z w false (obj (object e)) ≡ some e)
        × (version_claimed (obj (object e)) ≡ version_claimed v)
  unfolding work_event_schema
  schema-again (obj o) e h =
      let (again, version) = typed-again o (get_field "event_type" o) e refl h in
      (again, ap version_in version)
  schema-again v e h = cc

  parse-again :
      (v : Value) (e : Dict Value)
      → parse_canonical_work_event z w v ≡ done e
      → parse_canonical_work_event z w (obj (object e)) ≡ done e
  unfolding parse_canonical_work_event parse_versioned
  parse-again v e h =
      by_version (too_new (version_claimed v)) (work_event_schema z w false v) refl refl h
    where
      by_version :
          (too : Option ℕ) (parsed : Option (Dict Value))
          → too_new (version_claimed v) ≡ too
          → work_event_schema z w false v ≡ parsed
          → parse_versioned too parsed ≡ done e
          → parse_versioned
              (too_new (version_claimed (obj (object e))))
              (work_event_schema z w false (obj (object e)))
            ≡ done e
      by_version (some n) parsed a b k = cc
      by_version none none a b k = cc
      by_version none (some d) a b k =
          let (again, version) = schema-again v e (b ∙ ap some (done-injective d e k)) in
          ap (λ c. parse_versioned (too_new c) (work_event_schema z w false (obj (object e))))
            version
          ∙ (ap (λ c. parse_versioned c (work_event_schema z w false (obj (object e)))) a
              ∙ ap or_violation again)

-- What a producer encodes, a consumer parses to the same event, and what a producer may encode as it
-- was given, a consumer parses to that event too.
pub parse-encode :
    (z : Platform) (w : WireChecks) (v : Value) (e : Dict Value)
    → encode_canonical_work_event z w v ≡ done e
    → (parse_canonical_work_event z w (obj (object e)) ≡ done e)
      × (parse_canonical_work_event z w v ≡ done e)
parse-encode z w v e h = let same = parse_same z w v e h in (parse-again z w v e same, same)
