-- ===== src/Wire/Receipt.antt =====
-- contracts/src/ingest.ts: the outcomes of a batch and the check of a receipt. The detail and the path
-- of a rejection are prose, and are left out.
use navis.Base.{
  ℕ, String, Bool, true, false, not, ◌&&◌, List, [], ◌∷◌, Option, none, some, ◌==◌, nat_eq,
  string_eq, leb, ltb, any, all, find?, filter, map, length, if◌then◌else◌,
}

pub data RejectionToken : Type 0 where
  schema_version_unsupported : RejectionToken
  schema_violation : RejectionToken
  payload_hash_mismatch : RejectionToken
  authorization_denied : RejectionToken
  ledger_conflict : RejectionToken

-- `ingestRejectionTokens`
abbrev pub token_text : RejectionToken → String
token_text schema_version_unsupported = "ingest/schema-version-unsupported"
token_text schema_violation = "ingest/schema-violation"
token_text payload_hash_mismatch = "ingest/payload-hash-mismatch"
token_text authorization_denied = "ingest/authorization-denied"
token_text ledger_conflict = "ingest/ledger-conflict"

pub record IngestRejection : Type 0 where
  pub index : ℕ
  pub token : RejectionToken

pub data Outcome : Type 0 where
  accepted : Outcome
  duplicate : Outcome
  rejected : IngestRejection → Outcome

pub record IngestEventResult : Type 0 where
  pub index : ℕ
  pub outcome : Outcome

-- the parts of an `IngestResponse` that a receipt is checked for
pub record IngestResponse : Type 0 where
  pub accepted_at : List ℕ
  pub rejections : List IngestRejection
  pub duplicate_at : List ℕ
  pub event_results : List IngestEventResult

abbrev pub is_accepted : Outcome → Bool
is_accepted accepted = true
is_accepted _ = false

abbrev pub is_duplicate : Outcome → Bool
is_duplicate duplicate = true
is_duplicate _ = false

abbrev pub is_rejected : Outcome → Bool
is_rejected (rejected r) = true
is_rejected _ = false

-- an insertion sort, for `sort((a, b) => a - b)`
unfoldable pub insert_in_order : ℕ → List ℕ → List ℕ
insert_in_order n [] = n ∷ []
insert_in_order n (m ∷ ms) = if leb n m then n ∷ m ∷ ms else m ∷ insert_in_order n ms

unfoldable pub in_order : List ℕ → List ℕ
unfolding insert_in_order
in_order [] = []
in_order (n ∷ ns) = insert_in_order n (in_order ns)

abbrev pub same : List ℕ → List ℕ → Bool
same [] [] = true
same (a ∷ as') (b ∷ bs) = a == b && same as' bs
same _ _ = false

-- `new Set(…).size` is the length of the list
unfoldable pub all_different : List ℕ → Bool
unfolding any
all_different [] = true
all_different (n ∷ ns) = not (any (λ m. m == n) ns) && all_different ns

abbrev pub coherent : (Outcome → Bool) → List ℕ → List IngestEventResult → Bool
coherent test listed results =
    same (in_order (map (λ r. r.index) (filter (λ r. test r.outcome) results))) (in_order listed)

-- the rejection that a result carries is the one that the receipt lists first for its index
abbrev names_token : RejectionToken → Option IngestRejection → Bool
names_token t none = false
names_token t (some r) = token_text r.token == token_text t

abbrev pub rejection_agrees : List IngestRejection → ℕ → Outcome → Bool
rejection_agrees listed i (rejected r) =
    r.index == i && names_token r.token (find? (λ l. l.index == i) listed)
rejection_agrees listed i _ = true

-- `parseIngestReceipt` accepts the response for a batch of a length.
unfoldable pub parse_ingest_receipt : IngestResponse → ℕ → Bool
unfolding any all find? filter all_different in_order
parse_ingest_receipt receipt batch_length =
    let results = receipt.event_results in
    length results == batch_length
    && all_different (map (λ r. r.index) results)
    && all (λ r. ltb r.index batch_length) results
    && coherent is_accepted receipt.accepted_at results
    && coherent is_duplicate receipt.duplicate_at results
    && coherent is_rejected (map (λ r. r.index) receipt.rejections) results
    && all (λ r. rejection_agrees receipt.rejections r.index r.outcome) results
