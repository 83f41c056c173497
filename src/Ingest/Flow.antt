-- ===== src/Ingest/Flow.antt =====
-- application/src/ingest/ingest-batch.ts: `ingestBatch` over the ledger. A throw leaves the ledger as
-- it was, as every write is in the one append.
use navis.Base.{
  ℕ, String, not, List, [], ◌∷◌, ◌++◌, none, some, ◌==◌, nat_eq, string_eq, all, filter, map,
  length, if◌then◌else◌,
}
use navis.Base.Results.{Result, done, ◌>>=◌, ◌>>◌, require}
use navis.Schema.Platform.{Platform}
use navis.Wire.Receipt.{IngestRejection, authorization_denied, ledger_conflict}
use navis.Ledger.Envelope.{is_event_envelope}
use navis.Ledger.Store.{
  EventStore, LedgerError, invalid_envelope, append, head_seq, load_events,
  existing_event_identities,
}
use navis.Ingest.Batch.{
  IngestBatchRequest, IngestDeps, ValidatedEvent, Triage, triage, envelopes, text_of, stored_device,
  standing_of, Standing, is_fresh, is_own_duplicate, is_foreign, reject_with, respond,
  BatchResponse, capture_allowed, deny_rest, version_of,
}

unfoldable pub project_of : ValidatedEvent → String
project_of v = text_of "project_id" v.event

abbrev pub ids_of : List ValidatedEvent → List String
ids_of vs = map (λ v. v.input.event_id) vs

-- how an event of a batch stands to the ledger
unfoldable pub standing :
    EventStore → String → String → List ValidatedEvent → ValidatedEvent → Standing
unfolding existing_event_identities stored_device
standing s p device batch v =
    standing_of device
      (stored_device v.input.event_id (existing_event_identities s p (ids_of batch)))

-- the events that the ledger does not have, those that this device stored, and those of another
abbrev pub fresh_of : EventStore → String → String → List ValidatedEvent → List ValidatedEvent
fresh_of s p device batch = filter (λ v. is_fresh (standing s p device batch v)) batch

abbrev pub own_of : EventStore → String → String → List ValidatedEvent → List ValidatedEvent
own_of s p device batch = filter (λ v. is_own_duplicate (standing s p device batch v)) batch

abbrev pub foreign_of : EventStore → String → String → List ValidatedEvent → List ValidatedEvent
foreign_of s p device batch = filter (λ v. is_foreign (standing s p device batch v)) batch

abbrev pub indices : List ValidatedEvent → List ℕ
indices vs = map (λ v. v.index) vs

-- the response to a batch that was looked up
abbrev pub answer :
    IngestBatchRequest
    → String
    → List ℕ
    → List IngestRejection
    → List ValidatedEvent
    → EventStore
    → BatchResponse
answer r p duplicates rejections to_append s =
    respond (some p) (length r.events) (indices (fresh_of s p r.device_id to_append))
      (rejections ++ map (reject_with ledger_conflict) (foreign_of s p r.device_id to_append))
      (duplicates ++ indices (own_of s p r.device_id to_append))

-- the rejections once the project is known
abbrev pub rejections_for : Triage → String → List IngestRejection
rejections_for t p =
    t.rejections
    ++ map (reject_with authorization_denied) (filter (λ v. not (project_of v == p)) t.validated)

abbrev pub denied_for : IngestBatchRequest → Triage → String → List IngestRejection
denied_for r t p = rejections_for t p ++ deny_rest (rejections_for t p) 0 (length r.events)

module _ (z : Platform) (d : IngestDeps) where
  -- the append of the events that the ledger does not have
  unfoldable pub store_fresh :
      IngestBatchRequest → String → List ValidatedEvent → EventStore → Result LedgerError EventStore
  unfolding envelopes append head_seq load_events
  store_fresh r p [] s = done s
  store_fresh r p (v ∷ vs) s = do
    let head = head_seq s p
    let es = envelopes d r head 0 (version_of (load_events s p head)) (v ∷ vs)
    require (all (is_event_envelope z) es) invalid_envelope
    append z p es head s

  -- from the look into the ledger on
  unfoldable pub settle :
      IngestBatchRequest
      → String
      → List ℕ
      → List IngestRejection
      → List ValidatedEvent
      → EventStore
      → Result LedgerError (BatchResponse × EventStore)
  unfolding store_fresh
  settle r p duplicates rejections to_append s = do
    t ← store_fresh r p (fresh_of s p r.device_id to_append) s
    done (answer r p duplicates rejections to_append s, t)

  unfoldable pub with_triage :
      IngestBatchRequest
      → Triage
      → List ValidatedEvent
      → EventStore
      → Result LedgerError (BatchResponse × EventStore)
  unfolding settle
  with_triage r t [] s = done (respond none (length r.events) [] t.rejections t.duplicates, s)
  with_triage r t (first ∷ rest) s =
      let p = project_of first in
      if capture_allowed d.can_capture p
      then settle r p t.duplicates (rejections_for t p)
          (filter (λ v. project_of v == p) t.validated) s
      else done (respond (some p) (length r.events) [] (denied_for r t p) [], s)

  unfoldable pub ingest_batch :
      IngestBatchRequest → EventStore → Result LedgerError (BatchResponse × EventStore)
  unfolding triage with_triage
  ingest_batch r s = let t = triage z d 0 [] r.events in with_triage r t t.validated s
