-- ===== src/Outbox/Sound.antt =====
-- The invariant of the outbox: identifiers are distinct, a row on its way to the service has a
-- sequence number, and the numbers of a device are distinct and were drawn from its counter.
pub mod Calls
pub mod Numbering
use navis.Base.{
  ℕ, zero, suc, String, ◌≡◌, ◌≢◌, refl, sym, subst, ◌∙◌, ap, ◌+◌, ◌≤◌, Bool, true, false, not, ◌&&◌,
  ◌||◌, List, [], ◌∷◌, ◌++◌, Option, none, some, ◌==◌, nat_eq, string_eq, any, filter, find?, map,
  Dict, lookup, insert, lookup-insert, get_or_else, is_present, if◌then◌else◌, eq_iff, arith, inl,
  inr, Bool-cases, All, All-imp, All-map, All-append, All-filter, get_or_else,
}
use navis.Base.Results.{Result, done, thrown, ◌>>=◌, ◌>>◌, require, done-injective, >>=-eq-done}
use navis.Outbox.Store.{
  OutboxState, captured, normalized, pending, sending, acked, local_only, quarantined,
  outbox_state_eq, OutboxEvent, Outbox, OutboxCaptureInput, OutboxError, counter, update, capture,
  capture_once, promote_row, promote_to_pending, found, get, always, is_in, mark_sending,
  claim_pending, mark_acked, delete_acked, acknowledge, release_sending, park_local_only,
  quarantine, OutboxClock, to_claim, row_for, CapturePolicy, local_only_policy, metadata_policy,
  work_policy, with_head, CaptureReceipt, capture_after, promoted, holds_seq,
}

-- `pending` or `sending`
abbrev pub is_outgoing : OutboxState → Bool
is_outgoing pending = true
is_outgoing sending = true
is_outgoing _ = false

pub record IsNumbered (sequences : Dict ℕ) (e : OutboxEvent) : Type 0 where
  pub drawn : (n : ℕ) → e.seq ≡ some n → n ≤ counter sequences e.device_id
  pub ready : is_outgoing e.state ≡ true → is_present e.seq ≡ true

-- two rows of the table
pub record IsApart (e f : OutboxEvent) : Type 0 where
  pub ids : f.event_id ≢ e.event_id
  pub seqs : (n : ℕ) → e.seq ≡ some n → f.seq ≡ some n → e.device_id ≢ f.device_id

abbrev pub Apart : List OutboxEvent → Type 0
Apart [] = Unit
Apart (e ∷ es) = All (IsApart e) es × Apart es

pub record IsSound (o : Outbox) : Type 0 where
  pub numbered : All (IsNumbered o.sequences) o.events
  pub apart : Apart o.events

-- A change of single rows that keeps what makes them apart.
Apart-map :
    {P : OutboxEvent → Type 0} (f : OutboxEvent → OutboxEvent) (es : List OutboxEvent)
    → ((a b : OutboxEvent) → P a → P b → IsApart a b → IsApart (f a) (f b))
    → All P es
    → Apart es
    → Apart (map f es)
Apart-map f [] k p h = tt
Apart-map {P} f (e ∷ es) k p h = (All-map _ f es (each es p.1 h.0), Apart-map f es k p.1 h.1)
  where
    each :
        (xs : List OutboxEvent) → All P xs → All (IsApart e) xs → All (λ x. IsApart (f e) (f x)) xs
    each [] q a = tt
    each (x ∷ xs) q a = (k e x p.0 q.0 a.0, each xs q.1 a.1)

-- A setter that leaves the key, and leaves the number or drops it.
pub record Keeps (sequences : Dict ℕ) (holds : OutboxEvent → Bool) (set : OutboxEvent → OutboxEvent)
    : Type 0 where
  pub id : (e : OutboxEvent) → (set e).event_id ≡ e.event_id
  pub device : (e : OutboxEvent) → (set e).device_id ≡ e.device_id
  pub seq : (e : OutboxEvent) (n : ℕ) → (set e).seq ≡ some n → e.seq ≡ some n
  pub ready :
      (e : OutboxEvent)
      → holds e ≡ true
      → IsNumbered sequences e
      → is_outgoing (set e).state ≡ true
      → is_present (set e).seq ≡ true

module _ (key : String) (holds : OutboxEvent → Bool) (set : OutboxEvent → OutboxEvent)
    (sequences : Dict ℕ) (k : Keeps sequences holds set) where
  set-IsNumbered :
      (e : OutboxEvent) → holds e ≡ true → IsNumbered sequences e → IsNumbered sequences (set e)
  set-IsNumbered e h i = record {
    drawn =
        λ n s. subst (λ d. n ≤ counter sequences d) (sym (k.device e)) (i.drawn n (k.seq e n s));
    ready = k.ready e h i;
  }

  abbrev row_set : OutboxEvent → OutboxEvent
  row_set e = if e.event_id == key && holds e then set e else e

  row_set-IsNumbered : (e : OutboxEvent) → IsNumbered sequences e → IsNumbered sequences (row_set e)
  row_set-IsNumbered e i = elim (Bool-cases (e.event_id == key && holds e)) [
    | inl m ↦ rw m (set-IsNumbered e (ground arith) i)
    | inr m ↦ rw m i
  ]

  row_set-fields :
      (e : OutboxEvent)
      → ((row_set e).event_id ≡ e.event_id)
        × ((row_set e).device_id ≡ e.device_id)
        × ((n : ℕ) → (row_set e).seq ≡ some n → e.seq ≡ some n)
  row_set-fields e = elim (Bool-cases (e.event_id == key && holds e)) [
    | inl m ↦ rw m (k.id e, k.device e, k.seq e)
    | inr m ↦ rw m (refl, refl, λ n h. h)
  ]

  row_set-IsApart : (a b : OutboxEvent) → IsApart a b → IsApart (row_set a) (row_set b)
  row_set-IsApart a b h =
      let x = row_set-fields a in
      let y = row_set-fields b in
      record {
        ids = λ e. h.ids (sym y.0 ∙ e ∙ x.0);
        seqs = λ n s t e. h.seqs n (x.2 n s) (y.2 n t) (sym x.1 ∙ e ∙ y.1);
      }

pub update-IsSound :
    (key : String) (holds : OutboxEvent → Bool) (set : OutboxEvent → OutboxEvent) (o : Outbox)
    → Keeps o.sequences holds set
    → IsSound o
    → IsSound (update key holds set o)
unfolding update
update-IsSound key holds set o k s = record {
  numbered =
      All-map _ _ o.events
        (All-imp _ _ o.events (row_set-IsNumbered key holds set o.sequences k) s.numbered);
  apart =
      Apart-map {P = IsNumbered o.sequences} _ o.events
        (λ a b _ _. row_set-IsApart key holds set o.sequences k a b) s.numbered s.apart;
}

pub Apart-filter : (p : OutboxEvent → Bool) (es : List OutboxEvent) → Apart es → Apart (filter p es)
unfolding filter
Apart-filter p [] h = tt
Apart-filter p (e ∷ es) h = elim (Bool-cases (p e)) [
  | inl m ↦ rw m (All-filter _ p es h.0, Apart-filter p es h.1)
  | inr m ↦ rw m (Apart-filter p es h.1)
]
