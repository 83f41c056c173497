-- ===== src/Intake/Once.antt =====
-- A submission executes once, whatever is submitted after it.
use navis.Base.{
  String, ◌≡◌, refl, ◌∙◌, ap, false, ◌&&◌, List, [], ◌∷◌, Option, none, some, ◌==◌, string_eq,
  lookup, insert, lookup-insert, lookup-insert_self, is_blank, colon_join, eq_iff, eq_refl, arith,
  inl, inr, Bool-cases,
}
use navis.Base.Results.{Result, done, thrown}
use navis.Schema.Canonical.{Value}
use navis.Intake.Inbox.{
  CommandOutcome, Claim, Inbox, InboxError, collision, BeginResult, fresh, replay, processing,
  begin, begin_row, complete, complete_row, complete_outcome, DispatchRequest, ResultValue,
  IntakePlatform, hash_command_payload, stored_outcome, fresh_response, replayed_response, finish,
  executed, after_begin, dispatch_command,
}

abbrev pub claim_key : DispatchRequest → String
claim_key q = colon_join q.project_id q.idempotency_key

-- the claim of a request that finished with an outcome
abbrev pub settled_claim : IntakePlatform → DispatchRequest → CommandOutcome → Claim
settled_claim p q o = record {
  command_type = q.command_type;
  payload_hash = hash_command_payload p q.payload;
  outcome = some o;
}

-- a submission with the executor that it came with
abbrev pub Submission : Type 0 → Type 0
Submission W = DispatchRequest × (Value → W → Option ResultValue × W)

unfoldable pub submissions :
    {W : Type 0} → IntakePlatform → List (Submission W) → Inbox × W → Inbox × W
submissions p [] s = s
submissions p ((q, execute) ∷ rest) s = submissions p rest (dispatch_command p q execute s).1

complete_outcome-keeps :
    (k j : String) (claim row : Claim) (o o' : CommandOutcome) (inbox inbox' : Inbox)
    → lookup k inbox ≡ some claim
    → claim.outcome ≡ some o
    → lookup j inbox ≡ some row
    → (finished : Option CommandOutcome) → row.outcome ≡ finished
    → complete_outcome finished row j o' inbox ≡ done inbox'
    → lookup k inbox' ≡ some claim
complete_outcome-keeps k j claim row o o' inbox inbox' there settled e (some _) q h = cc
complete_outcome-keeps k j claim row o o' inbox inbox' there settled e none q h =
    ground (arith, lookup-insert j k (record row { outcome = some o' }) inbox, eq_iff j k)

complete_row-keeps :
    (k j : String) (claim : Claim) (o o' : CommandOutcome) (inbox inbox' : Inbox)
    → lookup k inbox ≡ some claim
    → claim.outcome ≡ some o
    → complete_row (lookup j inbox) j o' inbox ≡ done inbox'
    → lookup k inbox' ≡ some claim
complete_row-keeps k j claim o o' inbox inbox' there settled h = by_row (lookup j inbox) refl h
  where
    by_row :
        (row : Option Claim)
        → lookup j inbox ≡ row
        → complete_row row j o' inbox ≡ done inbox'
        → lookup k inbox' ≡ some claim
    by_row none e h = cc
    by_row (some row) e h =
        complete_outcome-keeps k j claim row o o' inbox inbox' there settled e row.outcome refl h

begin_row-keeps :
    (k j type hash : String) (claim : Claim) (inbox claimed : Inbox) (b : BeginResult)
    → lookup k inbox ≡ some claim
    → begin_row (lookup j inbox) j type hash inbox ≡ done (b, claimed)
    → lookup k claimed ≡ some claim
begin_row-keeps k j type hash claim inbox claimed b there h = by_row (lookup j inbox) refl h
  where
    by_row :
        (row : Option Claim)
        → lookup j inbox ≡ row
        → begin_row row j type hash inbox ≡ done (b, claimed)
        → lookup k claimed ≡ some claim
    by_row none e h = ground (
      arith,
      there,
      e,
      h,
      lookup-insert j k (record { command_type = type; payload_hash = hash; outcome = none }) inbox,
      eq_iff j k,
    )
    by_row (some row) e h = ground (arith, there, h)

module _ (p : IntakePlatform) {W : Type 0} (k : String) (claim : Claim) (o : CommandOutcome)
    (settled : claim.outcome ≡ some o) where
  finish-keeps :
      (r : ResultValue) (res : Result InboxError Inbox) (claimed : Inbox) (w : W)
      → lookup k claimed ≡ some claim
      → ((inbox : Inbox) → res ≡ done inbox → lookup k inbox ≡ some claim)
      → lookup k (finish p r res claimed w).1.0 ≡ some claim
  finish-keeps r (thrown e) claimed w there keep = there
  finish-keeps r (done inbox) claimed w there keep = keep inbox refl

  executed-keeps :
      (q : DispatchRequest) (claimed : Inbox) (result : Option ResultValue × W)
      → lookup k claimed ≡ some claim
      → lookup k (executed p q claimed result).1.0 ≡ some claim
  unfolding complete
  executed-keeps q claimed (none, w) there = there
  executed-keeps q claimed (some r, w) there = finish-keeps r _ claimed w there (λ inbox h.
      complete_row-keeps k (claim_key q) claim o (stored_outcome p r) claimed inbox there settled h)

  after_begin-keeps :
      (q : DispatchRequest) (execute : Value → W → Option ResultValue × W)
      (b : Result InboxError (BeginResult × Inbox)) (inbox : Inbox) (w : W)
      → lookup k inbox ≡ some claim
      → ((br : BeginResult) (claimed : Inbox)
          → b ≡ done (br, claimed)
          → lookup k claimed ≡ some claim)
      → lookup k (after_begin p q execute b inbox w).1.0 ≡ some claim
  after_begin-keeps q execute (thrown e) inbox w there keep = there
  after_begin-keeps q execute (done (replay o', claimed)) inbox w there keep = keep _ claimed refl
  after_begin-keeps q execute (done (processing, claimed)) inbox w there keep = keep _ claimed refl
  after_begin-keeps q execute (done (fresh, claimed)) inbox w there keep =
      executed-keeps q claimed (execute q.payload w) (keep _ claimed refl)

  dispatch_command-keeps :
      (q : DispatchRequest) (execute : Value → W → Option ResultValue × W) (inbox : Inbox) (w : W)
      → lookup k inbox ≡ some claim
      → lookup k (dispatch_command p q execute (inbox, w)).1.0 ≡ some claim
  unfolding dispatch_command begin
  dispatch_command-keeps q execute inbox w there = elim (Bool-cases (is_blank q.idempotency_key)) [
    | inl e ↦ rw e there
    | inr e ↦ rw e (
        after_begin-keeps q execute _ inbox w there (λ br claimed h.
          begin_row-keeps k (claim_key q) q.command_type (hash_command_payload p q.payload) claim
            inbox claimed br there h))
  ]

  submissions-keep :
      (rest : List (Submission W)) (s : Inbox × W)
      → lookup k s.0 ≡ some claim
      → lookup k (submissions p rest s).0 ≡ some claim
  unfolding submissions
  submissions-keep [] s there = there
  submissions-keep ((q, execute) ∷ rest) (inbox, w) there =
      submissions-keep rest (dispatch_command p q execute (inbox, w)).1
        (dispatch_command-keeps q execute inbox w there)

-- the claim that a submission writes before it executes
abbrev open_claim : IntakePlatform → DispatchRequest → Claim
open_claim p q = record {
  command_type = q.command_type;
  payload_hash = hash_command_payload p q.payload;
  outcome = none;
}

module _ (p : IntakePlatform) {W : Type 0} (q : DispatchRequest)
    (keyed : is_blank q.idempotency_key ≡ false) where
  dispatch_command-settled :
      (execute : Value → W → Option ResultValue × W) (o : CommandOutcome) (inbox : Inbox) (w : W)
      → lookup (claim_key q) inbox ≡ some (settled_claim p q o)
      → dispatch_command p q execute (inbox, w) ≡ (replayed_response p o, (inbox, w))
  unfolding dispatch_command begin
  dispatch_command-settled execute o inbox w there =
      rw (keyed, there, eq_refl q.command_type, eq_refl (hash_command_payload p q.payload))

  dispatch_command-fresh :
      (execute : Value → W → Option ResultValue × W) (r : ResultValue) (inbox : Inbox) (w w' : W)
      → lookup (claim_key q) inbox ≡ none
      → execute q.payload w ≡ (some r, w')
      → dispatch_command p q execute (inbox, w) ≡ (
        fresh_response p r,
        (
          insert
              (claim_key q)
              (settled_claim p q (stored_outcome p r))
              (insert (claim_key q) (open_claim p q) inbox),
          w',
        ),
      )
  unfolding dispatch_command begin complete
  dispatch_command-fresh execute r inbox w w' there ran =
      rw (keyed, there, ran, lookup-insert_self (claim_key q) (open_claim p q) inbox)

-- A submission whose key is new and whose executor gives a result answers with that result, or
-- throws where its text is too long. Whatever is submitted after it, with whatever executors, the
-- same submission then gives the stored outcome, and neither the inbox nor the world changes: its
-- executor is not called again.
pub dispatch_command-once :
    {W : Type 0} (p : IntakePlatform) (q : DispatchRequest)
    (execute again : Value → W → Option ResultValue × W) (r : ResultValue) (inbox : Inbox)
    (w w' : W) (later : List (Submission W))
    → is_blank q.idempotency_key ≡ false
    → lookup (claim_key q) inbox ≡ none
    → execute q.payload w ≡ (some r, w')
    → ((dispatch_command p q execute (inbox, w)).0 ≡ fresh_response p r)
      × ((dispatch_command p q execute (inbox, w)).1.1 ≡ w')
      × (dispatch_command p q again
            (submissions p later (dispatch_command p q execute (inbox, w)).1)
          ≡ (
            replayed_response p (stored_outcome p r),
            submissions p later (dispatch_command p q execute (inbox, w)).1,
          ))
dispatch_command-once p q execute again r inbox w w' later keyed there ran =
    let first = dispatch_command-fresh p q keyed execute r inbox w w' there ran in
    let claim = settled_claim p q (stored_outcome p r) in
    let stored : lookup (claim_key q) (dispatch_command p q execute (inbox, w)).1.0 ≡ some claim =
      ap (λ d. lookup (claim_key q) d.1.0) first ∙ lookup-insert_self (claim_key q) claim _ in
    let state = submissions p later (dispatch_command p q execute (inbox, w)).1 in
    (
      ap (λ d. d.0) first,
      ap (λ d. d.1.1) first,
      dispatch_command-settled p q keyed again (stored_outcome p r) state.0 state.1
          (submissions-keep p (claim_key q) claim (stored_outcome p r) refl later _ stored),
    )

claimed-collision :
    {W : Type 0} (p : IntakePlatform) (q : DispatchRequest)
    (execute : Value → W → Option ResultValue × W) (claim : Claim) (inbox : Inbox) (w : W)
    → is_blank q.idempotency_key ≡ false
    → lookup (claim_key q) inbox ≡ some claim
    → (claim.payload_hash == hash_command_payload p q.payload
        && claim.command_type == q.command_type)
      ≡ false
    → dispatch_command p q execute (inbox, w) ≡ (thrown collision, (inbox, w))
unfolding dispatch_command begin
claimed-collision p q execute claim inbox w keyed there differs = rw (keyed, there) (ground arith)

-- After a submission whose key is new and whose executor gives a result, and whatever is submitted
-- after it with whatever executors, a submission under the same key of the same project with another
-- command type, or with a payload of another fingerprint, throws the collision, and neither the inbox
-- nor the world changes: its executor is not called.
pub dispatch_command-collision :
    {W : Type 0} (p : IntakePlatform) (q other : DispatchRequest)
    (execute again : Value → W → Option ResultValue × W) (r : ResultValue) (inbox : Inbox)
    (w w' : W) (later : List (Submission W))
    → is_blank q.idempotency_key ≡ false
    → lookup (claim_key q) inbox ≡ none
    → execute q.payload w ≡ (some r, w')
    → other.project_id ≡ q.project_id
    → other.idempotency_key ≡ q.idempotency_key
    → (hash_command_payload p q.payload == hash_command_payload p other.payload
        && q.command_type == other.command_type)
      ≡ false
    → dispatch_command p other again
        (submissions p later (dispatch_command p q execute (inbox, w)).1)
      ≡ (thrown collision, submissions p later (dispatch_command p q execute (inbox, w)).1)
dispatch_command-collision p q other execute again r inbox w w' later keyed there ran project key
      differs =
    let claim = settled_claim p q (stored_outcome p r) in
    let stored : lookup (claim_key q) (dispatch_command p q execute (inbox, w)).1.0 ≡ some claim =
      ap (λ d. lookup (claim_key q) d.1.0)
        (dispatch_command-fresh p q keyed execute r inbox w w' there ran)
      ∙ lookup-insert_self (claim_key q) claim _ in
    let state = submissions p later (dispatch_command p q execute (inbox, w)).1 in
    let same : claim_key other ≡ claim_key q =
      ap (λ i. colon_join i other.idempotency_key) project ∙ ap (colon_join q.project_id) key in
    claimed-collision p other again claim state.0 state.1 (ap is_blank key ∙ keyed)
      (ap (λ j. lookup j state.0) same
        ∙ submissions-keep p (claim_key q) claim (stored_outcome p r) refl later _ stored)
      differs
