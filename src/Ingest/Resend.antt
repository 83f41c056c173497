-- ===== src/Ingest/Resend.antt =====
-- Sending a batch again: what the ledger has stored is not stored twice.
use navis.Base.{
  ℕ, String, ◌≡◌, refl, sym, subst, ◌∙◌, ap, Bool, true, false, not, ◌||◌, List, [], ◌∷◌, ◌++◌,
  Option, none, ◌+◌, some, ◌==◌, nat_eq, string_eq, any, length, Dict, lookup, insert, All, All-imp,
  All-map, All-mp, All-filter, All-of-filter, filter-none, any-map-filter, any-append, is_present,
  if◌then◌else◌, eq_iff, eq_refl, arith, inl, inr, Bool-cases,
}
use mathlib.Core.Bool.{or-true}
use navis.Base.Results.{done, ◌>>=◌, ◌>>◌, require, done-injective, >>=-eq-done}
use navis.Schema.Platform.{Platform}
use navis.Wire.Receipt.{IngestRejection}
use navis.Ledger.Envelope.{EventEnvelope, device_of}
use navis.Ledger.Store.{
  EventStore, Owner, own, append, identities_in, existing_event_identities, head_seq, load_events,
}
use navis.Ledger.Store.Batch.{check_batch-Checked, own-members, owner_of}
use navis.Ledger.Sound.{append-eq-done}
use navis.Ingest.Batch.{
  IngestBatchRequest, IngestDeps, ValidatedEvent, Triage, triage, envelopes, envelope_for,
  stored_device, standing_of, own_duplicate, is_fresh, is_own_duplicate, respond, BatchResponse,
  capture_allowed, version_of,
}
use navis.Ingest.Flow.{
  answer, project_of, ids_of, standing, fresh_of, own_of, indices, store_fresh, settle, with_triage,
  ingest_batch,
}

-- the device of an identifier that is asked for, among the owners
abbrev pub device_in : String → List String → Dict Owner → String → Option (Option String)
device_in p wanted owners k = stored_device k (identities_in p wanted owners)

device_in-lookup :
    (p k : String) (wanted : List String) (owners : Dict Owner) (device : Option String)
    → lookup k owners ≡ some (record { project_id = p; device_id = device })
    → any (λ w. w == k) wanted ≡ true
    → device_in p wanted owners k ≡ some device
unfolding lookup identities_in stored_device
device_in-lookup p k wanted [] device h asked = cc
device_in-lookup p k wanted ((id, o) ∷ rest) device h asked =
    ground (arith, device_in-lookup p k wanted rest device, eq_iff id k, eq_iff o.project_id p)

device_in-insert :
    (p k id : String) (wanted : List String) (owners : Dict Owner) (device : Option String)
    → is_present (device_in p wanted owners k) ≡ true
    → is_present
        (device_in p wanted (insert id (record { project_id = p; device_id = device }) owners) k)
      ≡ true
unfolding insert identities_in stored_device
device_in-insert p k id wanted [] device h = cc
device_in-insert p k id wanted ((j, o) ∷ rest) device h = ground (
  arith,
  device_in-insert p k id wanted rest device,
  eq_iff j k,
  eq_iff j id,
  eq_iff o.project_id p,
  eq_iff p p,
)

device_in-own :
    (p k : String) (wanted : List String) (es : List EventEnvelope) (owners : Dict Owner)
    → is_present (device_in p wanted owners k) ≡ true
    → is_present (device_in p wanted (own p es owners) k) ≡ true
unfolding own
device_in-own p k wanted [] owners h = h
device_in-own p k wanted (e ∷ es) owners h =
    device_in-own p k wanted es _ (device_in-insert p k e.event_id wanted owners (device_of e) h)

pub asked_for :
    (batch : List ValidatedEvent)
    → All (λ (v : ValidatedEvent). any (λ w. w == v.input.event_id) (ids_of batch) ≡ true) batch
unfolding any
asked_for [] = tt
asked_for (x ∷ xs) = (
  ground (arith, eq_refl x.input.event_id),
  All-imp _ _ xs (λ v h. ground (arith, h)) (asked_for xs),
)

envelopes-All :
    (d : IngestDeps) (r : IngestBatchRequest) (head offset version : ℕ) (P : EventEnvelope → Type 0)
    (Q : ValidatedEvent → Type 0)
    → ((seq version' : ℕ) (at : String) (v : ValidatedEvent)
        → P (envelope_for d r seq version' at v)
        → Q v)
    → (vs : List ValidatedEvent) → All P (envelopes d r head offset version vs)
    → All Q vs
unfolding envelopes
envelopes-All d r head offset version P Q k [] h = tt
envelopes-All d r head offset version P Q k (v ∷ vs) h =
    (k _ _ _ v h.0, envelopes-All d r head (offset + 1) version P Q k vs h.1)

pub is_fresh-standing_of :
    (device : String) (o : Option (Option String))
    → is_fresh (standing_of device o) ≡ not (is_present o)
is_fresh-standing_of device none = refl
is_fresh-standing_of device (some known) = ground arith

-- What a batch finds in a ledger that took in its events.
pub record IsTakenIn (s t : EventStore) (p device : String) (batch fresh_ones : List ValidatedEvent)
    : Type 0 where
  pub stored : All (λ (v : ValidatedEvent). standing t p device batch v ≡ own_duplicate) fresh_ones
  pub kept :
      (k : String)
      → is_present (device_in p (ids_of batch) s.event_ids k) ≡ true
      → is_present (device_in p (ids_of batch) t.event_ids k) ≡ true

module _ (z : Platform) (d : IngestDeps) (r : IngestBatchRequest) (p : String)
    (batch : List ValidatedEvent) (s t : EventStore) where
  standing_stored :
      (v : ValidatedEvent)
      → lookup v.input.event_id t.event_ids
        ≡ some (record { project_id = p; device_id = some r.device_id })
      → any (λ w. w == v.input.event_id) (ids_of batch) ≡ true
      → standing t p r.device_id batch v ≡ own_duplicate
  unfolding standing existing_event_identities
  standing_stored v h asked =
      ap (standing_of r.device_id)
        (device_in-lookup p v.input.event_id (ids_of batch) t.event_ids (some r.device_id) h asked)
      ∙ rw (eq_refl r.device_id)

  stored_by_append :
      (head version : ℕ) (vs : List ValidatedEvent)
      → All (λ (v : ValidatedEvent). any (λ w. w == v.input.event_id) (ids_of batch) ≡ true) vs
      → append z p (envelopes d r head 0 version vs) head s ≡ done t
      → All (λ (v : ValidatedEvent). standing t p r.device_id batch v ≡ own_duplicate) vs
  unfolding envelope_for device_of lookup
  stored_by_append head version vs asked h =
      let es : List EventEnvelope = envelopes d r head 0 version vs in
      let a = append-eq-done z p es head s t h in
      let recorded =
        own-members p es s.event_ids
          (check_batch-Checked s.event_ids p head [] es tt a.2).distinct in
      All-mp _ _ vs
        (envelopes-All d r head 0 version
          (λ e. lookup e.event_id (own p es s.event_ids) ≡ some (owner_of p e))
          (λ v.
            any (λ w. w == v.input.event_id) (ids_of batch) ≡ true
            → standing t p r.device_id batch v ≡ own_duplicate)
          (λ seq version' at v found.
            standing_stored v
              (ap (λ (u : EventStore). lookup v.input.event_id u.event_ids) a.3 ∙ found))
          vs recorded)
        asked

  pub IsTakenIn-store_fresh :
      (vs : List ValidatedEvent)
      → All (λ (v : ValidatedEvent). any (λ w. w == v.input.event_id) (ids_of batch) ≡ true) vs
      → store_fresh z d r p vs s ≡ done t
      → IsTakenIn s t p r.device_id batch vs
  unfolding store_fresh ◌>>=◌ ◌>>◌ require
  IsTakenIn-store_fresh [] asked h = record {
    stored = tt;
    kept = λ k present.
        subst (λ (u : EventStore). is_present (device_in p (ids_of batch) u.event_ids k) ≡ true)
          (done-injective s t h) present;
  }
  IsTakenIn-store_fresh (v ∷ vs) asked h =
      let head = head_seq s p in
      let version = version_of (load_events s p head) in
      let h' : append z p (envelopes d r head 0 version (v ∷ vs)) head s ≡ done t = ground arith in
      record {
        stored = stored_by_append head version (v ∷ vs) asked h';
        kept = λ k present.
            subst (λ (u : EventStore). is_present (device_in p (ids_of batch) u.event_ids k) ≡ true)
              (sym (append-eq-done z p _ head s t h').3)
              (device_in-own p k (ids_of batch) (envelopes d r head 0 version (v ∷ vs)) s.event_ids
                present);
      }

  not_fresh :
      (v : ValidatedEvent)
      → ((k : String)
          → is_present (device_in p (ids_of batch) s.event_ids k) ≡ true
          → is_present (device_in p (ids_of batch) t.event_ids k) ≡ true)
      → (is_fresh (standing s p r.device_id batch v) ≡ true
          → standing t p r.device_id batch v ≡ own_duplicate)
      → is_fresh (standing t p r.device_id batch v) ≡ false
  unfolding standing existing_event_identities
  not_fresh v kept k = elim (Bool-cases (is_fresh (standing s p r.device_id batch v))) [
    | inl e ↦ ap is_fresh (k e)
    | inr e ↦
        is_fresh-standing_of r.device_id (device_in p (ids_of batch) t.event_ids v.input.event_id)
        ∙ ap not (
            kept v.input.event_id (
              not-false (
                sym (
                  is_fresh-standing_of r.device_id
                    (device_in p (ids_of batch) s.event_ids v.input.event_id))
                ∙ e)))
  ]
    where
      not-false : {b : Bool} → not b ≡ false → b ≡ true
      not-false {b} h = ground arith

  -- Nothing of the batch is fresh in the ledger that took it in.
  fresh_of-again :
      IsTakenIn s t p r.device_id batch (fresh_of s p r.device_id batch)
      → fresh_of t p r.device_id batch ≡ []
  fresh_of-again taken = filter-none _ batch (
      All-imp _ _ batch (λ v k. not_fresh v taken.kept k)
        (All-of-filter (λ (v : ValidatedEvent). standing t p r.device_id batch v ≡ own_duplicate)
          (λ v. is_fresh (standing s p r.device_id batch v)) batch taken.stored))

-- The index of each event that is its device's own is listed.
own_listed :
    (t : EventStore) (p device : String) (batch : List ValidatedEvent) (first : List ℕ)
    → All
        (λ (v : ValidatedEvent).
          standing t p device batch v ≡ own_duplicate
          → any (λ j. j == v.index) (first ++ indices (own_of t p device batch)) ≡ true)
        batch
own_listed t p device batch first =
    All-imp _ _ batch
      (λ v found stored.
        any-append (λ j. j == v.index) first (indices (own_of t p device batch))
        ∙ (ap (λ b. any (λ j. j == v.index) first || b) (found (ap is_own_duplicate stored))
            ∙ or-true _))
      (any-map-filter (λ (a b : ℕ). a == b) (λ (v : ValidatedEvent). v.index)
        (λ v. is_own_duplicate (standing t p device batch v)) batch (λ b. ground arith))

nothing_to_store :
    (z : Platform) (d : IngestDeps) (r : IngestBatchRequest) (p : String) (duplicates : List ℕ)
    (rejections : List IngestRejection) (batch : List ValidatedEvent) (t : EventStore)
    → fresh_of t p r.device_id batch ≡ []
    → settle z d r p duplicates rejections batch t
      ≡ done (answer r p duplicates rejections batch t, t)
unfolding settle store_fresh ◌>>=◌
nothing_to_store z d r p duplicates rejections batch t e =
    ap (λ vs. store_fresh z d r p vs t >>= λ u. done (answer r p duplicates rejections batch t, u))
      e

settled_again :
    (z : Platform) (d : IngestDeps) (r : IngestBatchRequest) (p : String) (duplicates : List ℕ)
    (rejections : List IngestRejection) (batch : List ValidatedEvent) (a : BatchResponse)
    (s t : EventStore)
    → settle z d r p duplicates rejections batch s ≡ done (a, t)
    → (b : BatchResponse) × (settle z d r p duplicates rejections batch t ≡ done (b, t))
      × (b.receipt.accepted_at ≡ [])
      × All (λ (i : ℕ). any (λ j. j == i) b.receipt.duplicate_at ≡ true) a.receipt.accepted_at
unfolding settle respond
settled_again z d r p duplicates rejections batch a s t h =
    let (t', stored, returned) =
      >>=-eq-done (store_fresh z d r p (fresh_of s p r.device_id batch) s) _ h in
    let both : (answer r p duplicates rejections batch s, t') ≡ (a, t) =
      done-injective _ _ returned in
    let stored_t : store_fresh z d r p (fresh_of s p r.device_id batch) s ≡ done t =
      stored ∙ ap done (ap (λ q. q.1) both) in
    let taken =
      IsTakenIn-store_fresh z d r p batch s t (fresh_of s p r.device_id batch)
        (All-filter _ _ batch (asked_for batch)) stored_t in
    let none_fresh = fresh_of-again z d r p batch s t taken in
    (
      answer r p duplicates rejections batch t,
      nothing_to_store z d r p duplicates rejections batch t none_fresh,
      ap indices none_fresh,
      subst
          (λ (l : List ℕ).
            All
              (λ (i : ℕ).
                any (λ j. j == i) (duplicates ++ indices (own_of t p r.device_id batch)) ≡ true)
              l)
          (ap (λ q. q.0.receipt.accepted_at) both)
          (All-map _ (λ (v : ValidatedEvent). v.index) (fresh_of s p r.device_id batch)
            (All-mp _ _ (fresh_of s p r.device_id batch)
              (All-filter _ _ batch (own_listed t p r.device_id batch duplicates)) taken.stored)),
    )

-- what the call of a denied or an allowed batch returns, called again
allowed_again :
    (z : Platform) (d : IngestDeps) (r : IngestBatchRequest) (p : String) (duplicates : List ℕ)
    (rejections : List IngestRejection) (batch : List ValidatedEvent) (denied a : BatchResponse)
    (s t : EventStore) (allowed : Bool)
    → denied.receipt.accepted_at ≡ []
    → (if allowed then settle z d r p duplicates rejections batch s else done (denied, s))
      ≡ done (a, t)
    → (b : BatchResponse) × ((if allowed
          then settle z d r p duplicates rejections batch t
          else done (denied, t))
        ≡ done (b, t))
      × (b.receipt.accepted_at ≡ [])
      × All (λ (i : ℕ). any (λ j. j == i) b.receipt.duplicate_at ≡ true) a.receipt.accepted_at
allowed_again z d r p duplicates rejections batch denied a s t true e h =
    settled_again z d r p duplicates rejections batch a s t h
allowed_again z d r p duplicates rejections batch denied a s t false e h =
    let both = done-injective _ _ h in
    (
      denied,
      refl,
      e,
      subst
          (λ (l : List ℕ). All (λ (i : ℕ). any (λ j. j == i) denied.receipt.duplicate_at ≡ true) l)
          (sym e ∙ ap (λ q. q.0.receipt.accepted_at) both) tt,
    )

with_triage-again :
    (z : Platform) (d : IngestDeps) (r : IngestBatchRequest) (x : Triage) (vs : List ValidatedEvent)
    (a : BatchResponse) (s t : EventStore)
    → with_triage z d r x vs s ≡ done (a, t)
    → (b : BatchResponse) × (with_triage z d r x vs t ≡ done (b, t))
      × (b.receipt.accepted_at ≡ [])
      × All (λ (i : ℕ). any (λ j. j == i) b.receipt.duplicate_at ≡ true) a.receipt.accepted_at
unfolding with_triage respond
with_triage-again z d r x [] a s t h =
    let both = done-injective _ _ h in
    let b = respond none (length r.events) [] x.rejections x.duplicates in
    (
      b,
      refl,
      refl,
      subst (λ (l : List ℕ). All (λ (i : ℕ). any (λ j. j == i) b.receipt.duplicate_at ≡ true) l)
          (ap (λ q. q.0.receipt.accepted_at) both) tt,
    )
with_triage-again z d r x (first ∷ rest) a s t h =
    allowed_again z d r (project_of first) x.duplicates _ _ _ a s t
      (capture_allowed d.can_capture (project_of first)) refl h

-- A batch that is sent again after a call that returned, to the ledger that the call left, returns
-- too, writes nothing and accepts nothing, and lists each index that was accepted as a duplicate.
pub ingest_batch-again :
    (z : Platform) (d : IngestDeps) (r : IngestBatchRequest) (a : BatchResponse) (s t : EventStore)
    → ingest_batch z d r s ≡ done (a, t)
    → (b : BatchResponse) × (ingest_batch z d r t ≡ done (b, t))
      × (b.receipt.accepted_at ≡ [])
      × All (λ (i : ℕ). any (λ j. j == i) b.receipt.duplicate_at ≡ true) a.receipt.accepted_at
unfolding ingest_batch
ingest_batch-again z d r a s t h =
    with_triage-again z d r (triage z d 0 [] r.events) (triage z d 0 [] r.events).validated a s t h
