-- ===== src/Ledger/Sound/Marks.antt =====
-- The retention marks of the ledger: the first classification of an event stays.
use navis.Base.{
  ℕ, String, ◌≡◌, refl, subst, ◌∙◌, ap, Bool, true, false, ◌&&◌, List, [], ◌∷◌, some, ◌==◌,
  string_eq, nat_eq, ltb, All, All-imp, All-map-filter, max, if◌then◌else◌, eq_iff, arith,
  is_present,
}
use navis.Base.Results.{done, ◌>>=◌, ◌>>◌, require}
use navis.Ledger.Envelope.{
  EventEnvelope, RetentionClass, permanent, is_permanent, event_retention_class,
}
use navis.Ledger.Store.{
  EventStore, Mark, mark_of, set_mark, mark_permanent, mark_all, to_mark, mark_retention, stream,
}

-- An event of a permanent class carries the permanent mark.
pub record IsSettled (ms : List Mark) (p : String) (e : EventEnvelope) : Type 0 where
  pub settled :
      is_permanent (event_retention_class e.event_type) ≡ true → mark_of p e.seq ms ≡ some permanent

pub mark_of-set_mark :
    (p q : String) (i j : ℕ) (c : RetentionClass) (ms : List Mark)
    → mark_of q j (set_mark p i c ms) ≡ (if p == q && i == j then some c else mark_of q j ms)
unfolding mark_of set_mark
mark_of-set_mark p q i j c [] = refl
mark_of-set_mark p q i j c (m ∷ ms) =
    ground (
      arith,
      mark_of-set_mark p q i j c ms,
      eq_iff p q,
      eq_iff m.project_id p,
      eq_iff m.project_id q,
    )

pub mark_permanent-keeps :
    (p q : String) (k : ℕ) (es : List EventEnvelope) (ms : List Mark)
    → mark_of q k ms ≡ some permanent
    → mark_of q k (mark_permanent p es ms) ≡ some permanent
unfolding mark_permanent
mark_permanent-keeps p q k [] ms h = h
mark_permanent-keeps p q k (e ∷ es) ms h =
    mark_permanent-keeps p q k es _ (ground (arith, mark_of-set_mark p q e.seq k permanent ms))

pub mark_permanent-members :
    (p : String) (es : List EventEnvelope) (ms : List Mark)
    → All (IsSettled (mark_permanent p es ms) p) es
unfolding mark_permanent
mark_permanent-members p [] ms = tt
mark_permanent-members p (e ∷ es) ms = (
  record {
    settled = λ h.
        mark_permanent-keeps p p e.seq es _
          (ground (arith, h, mark_of-set_mark p p e.seq e.seq permanent ms, eq_iff p p));
  },
  mark_permanent-members p es _,
)

mark_all-other :
    (p q : String) (k : ℕ) (c : RetentionClass) (seqs : List ℕ) (ms : List Mark)
    → All (λ (i : ℕ). (p == q && i == k) ≡ false) seqs
    → mark_of q k (mark_all p c seqs ms) ≡ mark_of q k ms
unfolding mark_all
mark_all-other p q k c [] ms h = refl
mark_all-other p q k c (i ∷ seqs) ms h =
    mark_all-other p q k c seqs (set_mark p i c ms) h.1 ∙ (mark_of-set_mark p q i k c ms ∙ rw h.0)

-- What a call marks had no mark.
to_mark-unmarked :
    (p : String) (lo hi : ℕ) (c : RetentionClass) (ms : List Mark) (es : List EventEnvelope)
    → All (λ (i : ℕ). is_present (mark_of p i ms) ≡ false) (to_mark p lo hi c ms es)
unfolding to_mark
to_mark-unmarked p lo hi c ms es = All-map-filter _ _ _ es λ e h. ground arith

mark_retention-marks :
    (p : String) (from to : ℕ) (c : RetentionClass) (s t : EventStore) (seqs : List ℕ)
    → mark_retention p from to c s ≡ done (seqs, t)
    → (t ≡ record s { marks = mark_all p c seqs s.marks })
      × All (λ (i : ℕ). is_present (mark_of p i s.marks) ≡ false) seqs
unfolding mark_retention ◌>>=◌ ◌>>◌ require
mark_retention-marks p from to c s t seqs h = (
  ground arith,
  subst (λ l. All (λ (i : ℕ). is_present (mark_of p i s.marks) ≡ false) l) (marked_now)
      (chosen (ltb to (max 1 from))),
)
  where
    chosen :
        (b : Bool)
        → All
            (λ (i : ℕ). is_present (mark_of p i s.marks) ≡ false)
            (if b then [] else to_mark p (max 1 from) to c s.marks (stream s p))
    chosen true = tt
    chosen false = to_mark-unmarked p (max 1 from) to c s.marks (stream s p)

    marked_now :
        (if ltb to (max 1 from) then [] else to_mark p (max 1 from) to c s.marks (stream s p))
        ≡ seqs
    marked_now = ground arith

pub mark_retention-streams :
    (p : String) (from to : ℕ) (c : RetentionClass) (s t : EventStore) (seqs : List ℕ)
    → mark_retention p from to c s ≡ done (seqs, t)
    → (t.streams ≡ s.streams) × (t.event_ids ≡ s.event_ids) × (t.snapshots ≡ s.snapshots)
unfolding mark_retention ◌>>=◌ ◌>>◌ require
mark_retention-streams p from to c s t seqs h = (ground arith, ground arith, ground arith)

unmarked_differs :
    (p q : String) (k i : ℕ) (c : RetentionClass) (ms : List Mark)
    → mark_of q k ms ≡ some c
    → is_present (mark_of p i ms) ≡ false
    → (p == q && i == k) ≡ false
unmarked_differs p q k i c ms h free = ground (arith, eq_iff p q)

-- A mark that is there stays, whatever range is marked with whatever class.
pub mark_retention-first :
    (p q : String) (k from to : ℕ) (c d : RetentionClass) (s t : EventStore) (seqs : List ℕ)
    → mark_retention p from to c s ≡ done (seqs, t)
    → mark_of q k s.marks ≡ some d
    → mark_of q k t.marks ≡ some d
mark_retention-first p q k from to c d s t seqs h there =
    let m = mark_retention-marks p from to c s t seqs h in
    ap (λ (u : EventStore). mark_of q k u.marks) m.0
    ∙ (mark_all-other p q k c seqs s.marks
          (All-imp _ _ seqs (λ i free. unmarked_differs p q k i d s.marks there free) m.1)
        ∙ there)
