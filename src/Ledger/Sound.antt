-- ===== src/Ledger/Sound.antt =====
-- The invariant of the ledger: what every call of in-memory-event-store.ts keeps.
pub mod Marks
use navis.Base.{
  ℕ, String, ◌≡◌, ◌≢◌, refl, sym, subst, ◌∙◌, ap, Bool, true, false, List, [], ◌∷◌, ◌++◌, Option,
  none, some, ◌==◌, string_eq, nat_eq, all, any, any-append, eq_refl, Dict, lookup, insert,
  lookup-insert, All, All-append, All-imp, length, get_or_else, if◌then◌else◌, eq_iff, arith, inl,
  inr, Bool-cases, map,
}
use navis.Base.Results.{Result, done, thrown, ◌>>=◌, ◌>>◌, require}
use navis.Schema.Canonical.{Value}
use navis.Schema.Platform.{Platform}
use navis.Ledger.Envelope.{
  EventEnvelope, is_event_envelope, RetentionClass, permanent, is_permanent, event_retention_class,
  ProjectionSnapshot, device_of,
}
use navis.Ledger.Store.{
  EventStore, LedgerError, Owner, stream, empty_store, head_seq, append, check_batch, own,
  mark_permanent, mark_of, mark_retention, save_snapshot,
}
use navis.Ledger.Store.Batch.{
  Gapless, Gapless-append, last_seq-Gapless, Distinct, Distinct-append, IsOwned, IsNew, Checked,
  check_batch-Checked, own-other, own-members, owner_of,
}
use navis.Ledger.Sound.Marks.{
  IsSettled, mark_permanent-keeps, mark_permanent-members, mark_retention-first,
  mark_retention-streams,
}

-- An identifier that is recorded for a project is that of an event in its stream.
abbrev pub IsBacked : EventStore → String × Owner → Type 0
IsBacked s (id, owner) =
    any (λ (e : EventEnvelope). e.event_id == id) (stream s owner.project_id) ≡ true

pub record IsSound (s : EventStore) : Type 0 where
  pub gapless : (p : String) → Gapless 0 (stream s p)
  pub distinct : (p : String) → Distinct (stream s p)
  pub owned : (p : String) → All (IsOwned s.event_ids p) (stream s p)
  pub settled : (p : String) → All (IsSettled s.marks p) (stream s p)
  pub backed : All (IsBacked s) s.event_ids

pub empty_store-IsSound : IsSound empty_store
unfolding lookup
empty_store-IsSound = record {
  gapless = λ p. tt;
  distinct = λ p. tt;
  owned = λ p. tt;
  settled = λ p. tt;
  backed = tt;
}

insert-All :
    (P : String × Owner → Type 0) (k : String) (o : Owner) (owners : Dict Owner)
    → P (k, o)
    → All P owners
    → All P (insert k o owners)
unfolding insert
insert-All P k o [] h rest = (h, tt)
insert-All P k o ((j, old) ∷ owners) h (first, rest) = elim (Bool-cases (j == k)) [
  | inl e ↦ rw e (subst (λ i. P (i, o)) (sym ((eq_iff j k).0 e)) h, rest)
  | inr e ↦ rw e (first, insert-All P k o owners h rest)
]

own-All :
    (P : String × Owner → Type 0) (p : String) (es : List EventEnvelope) (owners : Dict Owner)
    → All (λ (e : EventEnvelope). P (e.event_id, owner_of p e)) es
    → All P owners
    → All P (own p es owners)
unfolding own
own-All P p [] owners h rest = rest
own-All P p (e ∷ es) owners h rest =
    own-All P p es _ h.1 (insert-All P e.event_id (owner_of p e) owners h.0 rest)

members-any :
    (es : List EventEnvelope)
    → All
        (λ (e : EventEnvelope). any (λ (x : EventEnvelope). x.event_id == e.event_id) es ≡ true)
        es
unfolding any
members-any [] = tt
members-any (e ∷ es) =
    (ground (arith, eq_refl e.event_id), All-imp _ _ es (λ x h. ground (arith, h)) (members-any es))

-- the store after an append
abbrev pub appended : String → List EventEnvelope → EventStore → EventStore
appended p es s = record s {
  streams = insert p (stream s p ++ es) s.streams;
  event_ids = own p es s.event_ids;
  marks = mark_permanent p es s.marks;
}

pub append-eq-done :
    (z : Platform) (p : String) (es : List EventEnvelope) (n : ℕ) (s t : EventStore)
    → append z p es n s ≡ done t
    → (all (is_event_envelope z) es ≡ true)
      × (head_seq s p ≡ n)
      × (check_batch s.event_ids p n [] es ≡ done tt)
      × (t ≡ appended p es s)
unfolding append ◌>>=◌ ◌>>◌ require
append-eq-done z p es n s t h = (ground arith, ground arith, ground arith, ground arith)

-- the streams after an append
pub stream-appended :
    (p q : String) (es : List EventEnvelope) (s : EventStore)
    → stream (appended p es s) q ≡ (if p == q then stream s q ++ es else stream s q)
stream-appended p q es s =
    ground (arith, lookup-insert p q (stream s p ++ es) s.streams, eq_iff p q)

module _ (z : Platform) (p : String) (es : List EventEnvelope) (n : ℕ) (s : EventStore)
    (sound : IsSound s) (valid : all (is_event_envelope z) es ≡ true) (at_head : head_seq s p ≡ n)
    (checked : Checked s.event_ids p n [] es) where
  -- a property of the streams, shown for the stream that grows and for the others
  per_stream :
      (P : String → List EventEnvelope → Type 0)
      → P p (stream s p ++ es)
      → ((q : String) → P q (stream s q))
      → (q : String) → P q (stream (appended p es s) q)
  per_stream P grown same q = elim (Bool-cases (p == q)) [
    | inl e ↦
        subst (λ r. P r (stream (appended p es s) r)) ((eq_iff p q).0 e)
          (subst (P p) (sym (grown_stream)) grown)
    | inr e ↦ subst (P q) (sym (stream-appended p q es s ∙ rw e)) (same q)
  ]
    where
      grown_stream : stream (appended p es s) p ≡ stream s p ++ es
      grown_stream = ground (arith, stream-appended p p es s, eq_iff p p)

  grown-Gapless : Gapless 0 (stream s p ++ es)
  unfolding head_seq
  grown-Gapless = Gapless-append 0 (stream s p) es (sound.gapless p) (
      subst (λ k. Gapless k es) (sym at_head ∙ last_seq-Gapless 0 (stream s p) (sound.gapless p))
        checked.gapless)

  -- an owned event is none of the batch
  foreign :
      (q : String) (x : EventEnvelope)
      → IsOwned s.event_ids q x
      → All (λ (y : EventEnvelope). y.event_id ≢ x.event_id) es
  foreign q x own =
      All-imp _ _ es
        (λ y new same. cc (own.recorded, new.free, ap (λ k. lookup k s.event_ids) same))
        checked.fresh

  kept :
      (q : String) (x : EventEnvelope)
      → IsOwned s.event_ids q x
      → IsOwned (appended p es s).event_ids q x
  kept q x own = record {
    claims = own.claims;
    recorded = own-other p x.event_id es s.event_ids (foreign q x own) ∙ own.recorded;
  }

  joined : All (IsOwned (appended p es s).event_ids p) es
  joined =
      All-zip es
        (All-imp _ (λ (y : EventEnvelope). y.project_id ≡ p) es (λ y new. new.claims) checked.fresh)
        (own-members p es s.event_ids checked.distinct)
    where
      All-zip :
          (ys : List EventEnvelope)
          → All (λ (y : EventEnvelope). y.project_id ≡ p) ys
          → All
              (λ (y : EventEnvelope).
                lookup y.event_id (own p es s.event_ids) ≡ some (owner_of p y))
              ys
          → All (IsOwned (own p es s.event_ids) p) ys
      All-zip [] a b = tt
      All-zip (y ∷ ys) a b = (record { claims = a.0; recorded = b.0 }, All-zip ys a.1 b.1)

  stream-IsSettled : (q : String) → All (IsSettled (appended p es s).marks q) (stream s q)
  stream-IsSettled q =
      All-imp _ _ (stream s q)
        (λ x h. record { settled = λ c. mark_permanent-keeps p q x.seq es s.marks (h.settled c) })
        (sound.settled q)

  -- what a stream has, it has after the append
  still_there :
      (q id : String)
      → any (λ (e : EventEnvelope). e.event_id == id) (stream s q) ≡ true
      → any (λ (e : EventEnvelope). e.event_id == id) (stream (appended p es s) q) ≡ true
  still_there q id h = elim (Bool-cases (p == q)) [
    | inl e ↦ ground (
      arith,
      stream-appended p q es s,
      e,
      h,
      any-append (λ (x : EventEnvelope). x.event_id == id) (stream s q) es,
    )
    | inr e ↦ ground (arith, stream-appended p q es s, e, h)
  ]

  there_now :
      (id : String)
      → any (λ (e : EventEnvelope). e.event_id == id) es ≡ true
      → any (λ (e : EventEnvelope). e.event_id == id) (stream (appended p es s) p) ≡ true
  there_now id h = ground (
    arith,
    stream-appended p p es s,
    eq_refl p,
    h,
    any-append (λ (x : EventEnvelope). x.event_id == id) (stream s p) es,
  )

  appended-IsSound : IsSound (appended p es s)
  appended-IsSound = record {
    gapless = per_stream (λ q xs. Gapless 0 xs) grown-Gapless sound.gapless;
    distinct =
        per_stream (λ q xs. Distinct xs)
          (Distinct-append (stream s p) es (sound.distinct p) checked.distinct
            (All-imp _ _ (stream s p) (foreign p) (sound.owned p)))
          sound.distinct;
    owned =
        per_stream (λ q xs. All (IsOwned (appended p es s).event_ids q) xs)
          (All-append _ (stream s p) es (All-imp _ _ (stream s p) (kept p) (sound.owned p)) joined)
          (λ q. All-imp _ _ (stream s q) (kept q) (sound.owned q));
    settled =
        per_stream (λ q xs. All (IsSettled (appended p es s).marks q) xs)
          (All-append _ (stream s p) es (stream-IsSettled p) (mark_permanent-members p es s.marks))
          stream-IsSettled;
    backed =
        own-All (IsBacked (appended p es s)) p es s.event_ids
          (All-imp _ _ es (λ e h. there_now e.event_id h) (members-any es))
          (All-imp _ _ s.event_ids (λ q h. still_there q.1.project_id q.0 h) sound.backed);
  }

pub append-IsSound :
    (z : Platform) (p : String) (es : List EventEnvelope) (n : ℕ) (s t : EventStore)
    → IsSound s
    → append z p es n s ≡ done t
    → IsSound t
append-IsSound z p es n s t sound h =
    let a = append-eq-done z p es n s t h in
    subst IsSound (sym a.3)
      (appended-IsSound z p es n s sound a.0 a.1 (check_batch-Checked s.event_ids p n [] es tt a.2))

-- a store with other marks, where none of those that were there is lost
remarked-IsSound :
    (s t : EventStore)
    → t.streams ≡ s.streams
    → t.event_ids ≡ s.event_ids
    → ((q : String) (k : ℕ)
        → mark_of q k s.marks ≡ some permanent
        → mark_of q k t.marks ≡ some permanent)
    → IsSound s
    → IsSound t
remarked-IsSound s t same ids keep sound = record {
  gapless = λ q. subst (λ d. Gapless 0 (get_or_else (lookup q d) [])) (sym same) (sound.gapless q);
  distinct = λ q. subst (λ d. Distinct (get_or_else (lookup q d) [])) (sym same) (sound.distinct q);
  owned = λ q.
      subst (λ o. All (IsOwned o q) (stream t q)) (sym ids)
        (subst (λ d. All (IsOwned s.event_ids q) (get_or_else (lookup q d) [])) (sym same)
          (sound.owned q));
  settled = λ q.
      subst (λ d. All (IsSettled t.marks q) (get_or_else (lookup q d) [])) (sym same)
        (All-imp _ _ (stream s q) (λ x h. record { settled = λ c. keep q x.seq (h.settled c) })
          (sound.settled q));
  backed = subst (All (IsBacked t)) (sym ids) (
      All-imp _ _ s.event_ids
        (λ q h.
          subst
            (λ d.
              any (λ (e : EventEnvelope). e.event_id == q.0)
                (get_or_else (lookup q.1.project_id d) [])
              ≡ true)
            (sym same) h)
        sound.backed);
}

save_snapshot-frame :
    (stringify : Value → String) (p : String) (v : ProjectionSnapshot) (s t : EventStore)
    → save_snapshot stringify p v s ≡ done t
    → (t.streams ≡ s.streams) × (t.event_ids ≡ s.event_ids) × (t.marks ≡ s.marks)
unfolding save_snapshot ◌>>=◌ ◌>>◌ require
save_snapshot-frame stringify p v s t h = (ground arith, ground arith, ground arith)

pub mark_retention-IsSound :
    (p : String) (from to : ℕ) (c : RetentionClass) (s t : EventStore) (seqs : List ℕ)
    → IsSound s
    → mark_retention p from to c s ≡ done (seqs, t)
    → IsSound t
mark_retention-IsSound p from to c s t seqs sound h =
    let same = mark_retention-streams p from to c s t seqs h in
    remarked-IsSound s t same.0 same.1
      (λ q k. mark_retention-first p q k from to c permanent s t seqs h) sound

pub save_snapshot-IsSound :
    (stringify : Value → String) (p : String) (v : ProjectionSnapshot) (s t : EventStore)
    → IsSound s
    → save_snapshot stringify p v s ≡ done t
    → IsSound t
save_snapshot-IsSound stringify p v s t sound h =
    let same = save_snapshot-frame stringify p v s t h in
    remarked-IsSound s t same.0 same.1 (λ q k m. ap (λ ms. mark_of q k ms) same.2 ∙ m) sound
