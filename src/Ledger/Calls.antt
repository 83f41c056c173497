-- ===== src/Ledger/Calls.antt =====
-- The ledger under any sequence of calls, and what its guards promise to its callers.
use navis.Base.{
  ℕ, String, ◌≡◌, refl, ◌∙◌, ap, true, List, [], ◌∷◌, ◌++◌, ◌==◌, string_eq, ◌+◌, suc, length,
  length-append, ◌<◌, all, if◌then◌else◌, eq_iff, arith,
}
use navis.Base.Results.{Result, done, thrown, ◌>>=◌, ◌>>◌, require}
use navis.Schema.Canonical.{Value}
use navis.Schema.Platform.{Platform}
use navis.Ledger.Envelope.{EventEnvelope, RetentionClass, ProjectionSnapshot, is_event_envelope}
use navis.Ledger.Store.{
  EventStore, LedgerError, stream, empty_store, head_seq, append, mark_retention, save_snapshot,
  version_conflict,
}
use navis.Ledger.Store.Batch.{last_seq-Gapless}
use navis.Ledger.Sound.{
  IsSound, append-IsSound, mark_retention-IsSound, save_snapshot-IsSound, empty_store-IsSound,
  append-eq-done, stream-appended,
}

-- the calls that write
pub data LedgerCall : Type 0 where
  append_events :
      (project_id : String) (events : List EventEnvelope) (expected_seq : ℕ) → LedgerCall
  mark_events :
      (project_id : String) (from_seq to_seq : ℕ) (retention : RetentionClass) → LedgerCall
  snapshot : (project_id : String) → ProjectionSnapshot → LedgerCall

-- the store after a call that may have thrown
abbrev or_kept : EventStore → Result LedgerError EventStore → EventStore
or_kept s (done t) = t
or_kept s (thrown e) = s

abbrev or_kept_second : EventStore → Result LedgerError (List ℕ × EventStore) → EventStore
or_kept_second s (done (seqs, t)) = t
or_kept_second s (thrown e) = s

module _ (z : Platform) (stringify : Value → String) where
  unfoldable pub ledger_call : LedgerCall → EventStore → EventStore
  ledger_call (append_events p es n) s = or_kept s (append z p es n s)
  ledger_call (mark_events p from to c) s = or_kept_second s (mark_retention p from to c s)
  ledger_call (snapshot p v) s = or_kept s (save_snapshot stringify p v s)

  unfoldable pub ledger_calls : List LedgerCall → EventStore → EventStore
  unfolding ledger_call
  ledger_calls [] s = s
  ledger_calls (c ∷ cs) s = ledger_calls cs (ledger_call c s)

or_kept-IsSound :
    (s : EventStore) (r : Result LedgerError EventStore)
    → IsSound s
    → ((t : EventStore) → r ≡ done t → IsSound t)
    → IsSound (or_kept s r)
or_kept-IsSound s (done t) h k = k t refl
or_kept-IsSound s (thrown e) h k = h

or_kept_second-IsSound :
    (s : EventStore) (r : Result LedgerError (List ℕ × EventStore))
    → IsSound s
    → ((seqs : List ℕ) (t : EventStore) → r ≡ done (seqs, t) → IsSound t)
    → IsSound (or_kept_second s r)
or_kept_second-IsSound s (done (seqs, t)) h k = k seqs t refl
or_kept_second-IsSound s (thrown e) h k = h

ledger_call-IsSound :
    (z : Platform) (stringify : Value → String) (c : LedgerCall) (s : EventStore)
    → IsSound s
    → IsSound (ledger_call z stringify c s)
unfolding ledger_call
ledger_call-IsSound z stringify (append_events p es n) s h =
    or_kept-IsSound s _ h (λ t. append-IsSound z p es n s t h)
ledger_call-IsSound z stringify (mark_events p from to c) s h =
    or_kept_second-IsSound s _ h (λ seqs t. mark_retention-IsSound p from to c s t seqs h)
ledger_call-IsSound z stringify (snapshot p v) s h =
    or_kept-IsSound s _ h (λ t. save_snapshot-IsSound stringify p v s t h)

ledger_calls-keep-IsSound :
    (z : Platform) (stringify : Value → String) (cs : List LedgerCall) (s : EventStore)
    → IsSound s
    → IsSound (ledger_calls z stringify cs s)
unfolding ledger_calls
ledger_calls-keep-IsSound z stringify [] s h = h
ledger_calls-keep-IsSound z stringify (c ∷ cs) s h =
    ledger_calls-keep-IsSound z stringify cs (ledger_call z stringify c s)
      (ledger_call-IsSound z stringify c s h)

-- After any sequence of calls on the empty ledger, those that throw included, every stream counts
-- from one without a gap, its events are of its project, their identifiers are distinct and
-- recorded as its own with the device of each, each identifier that is recorded for a project is that
-- of an event in its stream, and each event of a permanent class carries the
-- permanent mark.
pub ledger_calls-IsSound :
    (z : Platform) (stringify : Value → String) (cs : List LedgerCall)
    → IsSound (ledger_calls z stringify cs empty_store)
ledger_calls-IsSound z stringify cs =
    ledger_calls-keep-IsSound z stringify cs empty_store empty_store-IsSound

-- An append that returns extends the stream of its project by the batch and keeps every other
-- stream.
pub append-stream :
    (z : Platform) (p q : String) (es : List EventEnvelope) (n : ℕ) (s t : EventStore)
    → append z p es n s ≡ done t
    → stream t q ≡ (if p == q then stream s q ++ es else stream s q)
append-stream z p q es n s t h =
    ap (λ (u : EventStore). stream u q) (append-eq-done z p es n s t h).3 ∙ stream-appended p q es s

head_seq-append :
    (z : Platform) (p : String) (es : List EventEnvelope) (n : ℕ) (s t : EventStore)
    → IsSound s
    → append z p es n s ≡ done t
    → head_seq t p ≡ n + length es
unfolding head_seq
head_seq-append z p es n s t sound h =
    let before = last_seq-Gapless 0 (stream s p) (sound.gapless p) in
    let after = last_seq-Gapless 0 (stream t p) ((append-IsSound z p es n s t sound h).gapless p) in
    let grown : stream t p ≡ stream s p ++ es =
      ground (arith, append-stream z p p es n s t h, eq_iff p p) in
    after
    ∙ omega (
      arith,
      ap length grown,
      length-append (stream s p) es,
      before,
      (append-eq-done z p es n s t h).1,
    )

append-behind :
    (z : Platform) (p : String) (fs : List EventEnvelope) (n m : ℕ) (t : EventStore)
    → head_seq t p ≡ m
    → n < m
    → all (is_event_envelope z) fs ≡ true
    → append z p fs n t ≡ thrown (version_conflict n m)
unfolding append ◌>>=◌ ◌>>◌ require
append-behind z p fs n m t h lt valid = ground arith

-- In a sound ledger, once a batch that is not empty was appended at a sequence number, another
-- append of valid envelopes to the project at that number throws the version conflict, with the new
-- head.
pub append-append :
    (z : Platform) (p : String) (e : EventEnvelope) (es fs : List EventEnvelope) (n : ℕ)
    (s t : EventStore)
    → IsSound s
    → append z p (e ∷ es) n s ≡ done t
    → all (is_event_envelope z) fs ≡ true
    → append z p fs n t ≡ thrown (version_conflict n (n + suc (length es)))
append-append z p e es fs n s t sound h valid =
    append-behind z p fs n (n + suc (length es)) t (head_seq-append z p (e ∷ es) n s t sound h)
      (omega arith) valid
