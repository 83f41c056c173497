-- ===== src/Outbox/Sound/Numbering.antt =====
-- The sequence numbers of sqlite-outbox.ts: a capture has none, and a promotion draws a fresh one.
use navis.Base.{
  ℕ, String, ◌≡◌, ◌≢◌, refl, sym, subst, ◌∙◌, ap, ◌+◌, ◌≤◌, Bool, true, false, ◌&&◌, List, [], ◌∷◌,
  ◌++◌, Option, none, some, ◌==◌, nat_eq, string_eq, find?, map, Dict, lookup, insert,
  lookup-insert, if◌then◌else◌, eq_iff, arith, inl, inr, Bool-cases, All, All-imp, All-map,
  All-append, ◌⊎◌,
}
use native.Mathlib.Nat.{le_trans}
use navis.Base.Results.{done, ◌>>=◌, ◌>>◌, require, done-injective, >>=-eq-done}
use navis.Outbox.Store.{
  outbox_state_eq, OutboxEvent, Outbox, OutboxCaptureInput, counter, update, capture, capture_once,
  promote_row, promote_to_pending, found, get, always, row_for, CapturePolicy, local_only_policy,
  with_head, CaptureReceipt, capture_after, promoted,
}
use navis.Outbox.Sound.{is_outgoing, IsNumbered, IsApart, Apart, IsSound, Apart-map}

-- no row has the identifier
get-none :
    (id : String) (es : List OutboxEvent)
    → find? (λ e. e.event_id == id) es ≡ none
    → All (λ (e : OutboxEvent). e.event_id ≢ id) es
unfolding find?
get-none id [] h = tt
get-none id (e ∷ es) h =
    (λ same. ground (arith, eq_iff e.event_id id, h, same), get-none id es (ground (arith, h)))

Apart-snoc :
    (es : List OutboxEvent) (f : OutboxEvent)
    → Apart es
    → All (λ (e : OutboxEvent). IsApart e f) es
    → Apart (es ++ f ∷ [])
Apart-snoc [] f h a = (tt, tt)
Apart-snoc (e ∷ es) f h a = (All-append _ es (f ∷ []) h.0 (a.0, tt), Apart-snoc es f h.1 a.1)

-- a row as it is captured
record IsCaptured (id : String) (f : OutboxEvent) : Type 0 where
  key : f.event_id ≡ id
  unnumbered : f.seq ≡ none
  waiting : is_outgoing f.state ≡ false

row_for-IsCaptured :
    (i : OutboxCaptureInput) (now : String) (p : CapturePolicy)
    → IsCaptured i.event_id (row_for i now p)
row_for-IsCaptured i now local_only_policy = record {
  key = refl;
  unnumbered = refl;
  waiting = refl;
}
row_for-IsCaptured i now p = record { key = refl; unnumbered = refl; waiting = refl }

captured-IsSound :
    (id : String) (f : OutboxEvent) (o : Outbox)
    → IsSound o
    → get id o ≡ none
    → IsCaptured id f
    → IsSound (record o { events = o.events ++ f ∷ [] })
unfolding get
captured-IsSound id f o s fresh c = record {
  numbered =
      All-append _ o.events (f ∷ []) s.numbered
        (record { drawn = λ n e. cc (e, c.unnumbered); ready = λ e. cc (e, c.waiting) }, tt);
  apart = Apart-snoc o.events f s.apart (
      All-imp _ _ o.events
        (λ e differs. record {
          ids = λ same. differs (sym same ∙ c.key);
          seqs = λ n a b. cc (b, c.unnumbered);
        })
        (get-none id o.events fresh));
}

capture-eq-done :
    (i : OutboxCaptureInput) (now : String) (o o' : Outbox)
    → capture i now o ≡ done o'
    → (get i.event_id o ≡ none)
      × (o' ≡ record o { events = o.events ++ row_for i now i.privacy_class ∷ [] })
unfolding capture ◌>>=◌ ◌>>◌ require
capture-eq-done i now o o' h = (ground arith, ground arith)

pub capture-IsSound :
    (i : OutboxCaptureInput) (now : String) (o o' : Outbox)
    → IsSound o
    → capture i now o ≡ done o'
    → IsSound o'
capture-IsSound i now o o' s h =
    let c = capture-eq-done i now o o' h in
    subst IsSound (sym c.1)
      (captured-IsSound i.event_id _ o s c.0 (row_for-IsCaptured i now i.privacy_class))

pub capture_once-IsSound :
    (i : OutboxCaptureInput) (fingerprint session_key now : String) (o o' : Outbox) (b : Bool)
    → IsSound o
    → capture_once i fingerprint session_key now o ≡ done (b, o')
    → IsSound o'
unfolding capture_once capture_after ◌>>◌ require
capture_once-IsSound i fingerprint session_key now o o' b s h =
    after (lookup i.event_id o.receipts) h
  where
    after :
        (prior : Option CaptureReceipt)
        → capture_after prior i fingerprint session_key now o ≡ done (b, o')
        → IsSound o'
    after (some prior) k = subst IsSound (ground (arith, k)) s
    after none k =
        let (o'', stored, both) = >>=-eq-done _ _ k in
        let s'' =
          capture-IsSound (with_head i (lookup session_key o.session_heads)) now o o'' s stored in
        subst IsSound (ap (λ q. q.1) (done-injective _ _ both))
          (record { numbered = s''.numbered; apart = s''.apart })

-- The row that a key finds is the only row of the key.
get-only :
    (id : String) (es : List OutboxEvent) (e : OutboxEvent)
    → Apart es
    → find? (λ f. f.event_id == id) es ≡ some e
    → All (λ (f : OutboxEvent). (f.event_id == id) ≡ true → f ≡ e) es
unfolding find?
get-only id [] e a h = tt
get-only id (x ∷ es) e a h = elim (Bool-cases (x.event_id == id)) [
  | inl m ↦
      let head : x ≡ e = ground (arith, m, h) in
      (
        λ _. head,
        All-imp _ _ es
            (λ f apart m'.
              absurd (apart.ids ((eq_iff f.event_id id).0 m' ∙ sym ((eq_iff x.event_id id).0 m))))
            a.0,
      )
  | inr m ↦ (λ m'. cc (m, m'), get-only id es e a.1 (ground (arith, m, h)))
]

-- The table with a row moved to pending under a number that no other row of the device has.
module _ (e : OutboxEvent) (n : ℕ) (now : String) (o : Outbox) (sequences : Dict ℕ)
    (sound : IsSound o)
    (only : All (λ (f : OutboxEvent). (f.event_id == e.event_id) ≡ true → f ≡ e) o.events)
    (grows : (d : String) → counter o.sequences d ≤ counter sequences d)
    (reached : n ≤ counter sequences e.device_id)
    (free : (f : OutboxEvent)
      → IsNumbered o.sequences f
      → IsApart e f ⊎ IsApart f e
      → f.seq ≡ some n
      → f.device_id ≢ e.device_id) where
  abbrev moved : OutboxEvent → OutboxEvent
  moved f = if f.event_id == e.event_id && always f then promoted n now f else f

  abbrev InTable : OutboxEvent → Type 0
  InTable f = IsNumbered o.sequences f × ((f.event_id == e.event_id) ≡ true → f ≡ e)

  moved-IsNumbered : (f : OutboxEvent) → InTable f → IsNumbered sequences (moved f)
  moved-IsNumbered f t = elim (Bool-cases (f.event_id == e.event_id)) [
    | inl m ↦ rw m (record {
      drawn = λ k q.
          subst (λ d. k ≤ counter sequences d) (ap (λ x. x.device_id) (sym (t.1 m)))
            (subst (λ x. x ≤ counter sequences e.device_id) (ground (arith, q)) reached);
      ready = λ _. refl;
    })
    | inr m ↦
        rw m (record {
          drawn = λ k q. le_trans (t.0.drawn k q) (grows f.device_id);
          ready = t.0.ready;
        })
  ]

  moved-IsApart :
      (a b : OutboxEvent) → InTable a → InTable b → IsApart a b → IsApart (moved a) (moved b)
  moved-IsApart a b ta tb h = elim (Bool-cases (a.event_id == e.event_id)) [
    | inl m ↦ elim (Bool-cases (b.event_id == e.event_id)) [
      | inl m' ↦
          absurd (h.ids (ap (λ x. x.event_id) (tb.1 m') ∙ ap (λ x. x.event_id) (sym (ta.1 m))))
      | inr m' ↦
          rw (m, m')
            (record {
              ids = h.ids;
              seqs = λ k q r d.
                  free b tb.0 (inl (subst (λ x. IsApart x b) (ta.1 m) h)) (r ∙ sym q)
                    (sym d ∙ ap (λ x. x.device_id) (ta.1 m));
            })
    ]
    | inr m ↦ elim (Bool-cases (b.event_id == e.event_id)) [
      | inl m' ↦
          rw (m, m')
            (record {
              ids = h.ids;
              seqs = λ k q r d.
                  free a ta.0 (inr (subst (λ x. IsApart a x) (tb.1 m') h)) (q ∙ sym r)
                    (d ∙ ap (λ x. x.device_id) (tb.1 m'));
            })
      | inr m' ↦ rw (m, m') h
    ]
  ]

  moved-IsSound : IsSound (record o { events = map moved o.events; sequences = sequences })
  moved-IsSound =
      let table : All InTable o.events = both o.events sound.numbered only in
      record {
        numbered = All-map _ moved o.events (All-imp _ _ o.events moved-IsNumbered table);
        apart = Apart-map {P = InTable} moved o.events moved-IsApart table sound.apart;
      }
    where
      both :
          (es : List OutboxEvent)
          → All (IsNumbered o.sequences) es
          → All (λ (f : OutboxEvent). (f.event_id == e.event_id) ≡ true → f ≡ e) es
          → All InTable es
      both [] a b = tt
      both (x ∷ xs) a b = ((a.0, b.0), both xs a.1 b.1)

-- What holds of every row holds of the row that is found, which has the key that was asked for.
get-holds :
    (P : OutboxEvent → Type 0) (id : String) (es : List OutboxEvent) (e : OutboxEvent)
    → All P es
    → find? (λ f. f.event_id == id) es ≡ some e
    → P e × (e.event_id ≡ id)
unfolding find?
get-holds P id [] e a h = cc
get-holds P id (x ∷ es) e a h = elim (Bool-cases (x.event_id == id)) [
  | inl m ↦
      let head : x ≡ e = ground (arith, m, h) in
      (subst P head a.0, ap (λ f. f.event_id) (sym head) ∙ (eq_iff x.event_id id).0 m)
  | inr m ↦ get-holds P id es e a.1 (ground (arith, m, h))
]

promote_row-IsSound :
    (number : Option ℕ) (e : OutboxEvent) (now : String) (o o' : Outbox)
    → IsSound o
    → IsNumbered o.sequences e
    → All (λ (f : OutboxEvent). (f.event_id == e.event_id) ≡ true → f ≡ e) o.events
    → e.seq ≡ number
    → promote_row number e now o ≡ done o'
    → IsSound o'
unfolding promote_row update ◌>>◌ require
promote_row-IsSound (some n) e now o o' s i only q h = subst IsSound (done-injective _ _ h) (
    moved-IsSound e n now o o.sequences s only (λ d. omega arith) (i.drawn n q)
      (λ f numbered apart r same. elim apart [
        | inl a ↦ a.seqs n q r (sym same)
        | inr a ↦ a.seqs n r q same
      ]))
promote_row-IsSound none e now o o' s i only q h =
    let n = counter o.sequences e.device_id + 1 in
    subst IsSound (ground (arith, h)) (
      moved-IsSound e n now o (insert e.device_id n o.sequences) s only
        (λ d. ground (arith, lookup-insert e.device_id d n o.sequences, eq_iff e.device_id d))
        (ground (
          arith,
          lookup-insert e.device_id e.device_id n o.sequences,
          eq_iff e.device_id e.device_id,
        ))
        (λ f numbered apart r same.
          absurd (omega (arith, numbered.drawn n r, ap (counter o.sequences) same))))

promote-eq-done :
    (event_id now : String) (o o' : Outbox)
    → promote_to_pending event_id now o ≡ done o'
    → (e : OutboxEvent) × (get event_id o ≡ some e) × (promote_row e.seq e now o ≡ done o')
unfolding promote_to_pending ◌>>◌ require
promote-eq-done event_id now o o' h =
    let (e, found_at, rest) = >>=-eq-done (found (get event_id o)) _ h in
    (e, ground (arith, found_at), ground (arith, rest))

pub promote-IsSound :
    (event_id now : String) (o o' : Outbox)
    → IsSound o
    → promote_to_pending event_id now o ≡ done o'
    → IsSound o'
unfolding get
promote-IsSound event_id now o o' s h =
    let (e, at, moved_to) = promote-eq-done event_id now o o' h in
    let held = get-holds (IsNumbered o.sequences) event_id o.events e s.numbered at in
    promote_row-IsSound e.seq e now o o' s held.0
      (All-imp _ _ o.events (λ f same m. same (subst (λ k. (f.event_id == k) ≡ true) held.1 m))
        (get-only event_id o.events e s.apart at))
      refl moved_to
