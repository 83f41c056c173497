-- ===== src/Ledger/Store.antt =====
-- infrastructure/src/persistence/in-memory/in-memory-event-store.ts: the ledger of every project,
-- its snapshots, its retention marks and the owners of its event identifiers. A call throws before
-- it writes anything, so a throw carries no store. Sequence arguments are natural numbers.
pub mod Batch
use navis.Base.{
  ℕ, zero, suc, String, ◌≡◌, Bool, true, false, not, ◌&&◌, ◌||◌, List, [], ◌∷◌, ◌++◌, Option, none,
  some, ◌+◌, max, map, ◌==◌, nat_eq, string_eq, leb, ltb, any, all, filter, find?, Dict, lookup,
  insert, get_or_else, if◌then◌else◌, is_present,
}
use navis.Base.Results.{Result, done, thrown, ◌>>=◌, ◌>>◌, require}
use navis.Schema.Canonical.{Value, canonical_equals}
use navis.Schema.Ids.{max_safe_integer}
use navis.Schema.Platform.{Platform}
use navis.Ledger.Envelope.{
  EventEnvelope, is_event_envelope, RetentionClass, permanent, archive_after_snapshot, is_permanent,
  event_retention_class, is_archivable, ProjectionSnapshot, is_projection_snapshot, device_of,
}

pub data LedgerError : Type 0 where
  invalid_envelope : LedgerError
  version_conflict : (expected actual : ℕ) → LedgerError
  event_version_conflict : (seq : ℕ) → LedgerError
  envelope_project_mismatch : (claimed project_id : String) → LedgerError
  event_id_conflict : String → LedgerError
  invalid_snapshot : LedgerError
  snapshot_not_committed : LedgerError
  snapshot_content_conflict : LedgerError
  invalid_retention_range : LedgerError

-- what `eventIds` holds of an event
pub record Owner : Type 0 where
  pub project_id : String
  pub device_id : Option String

-- an entry of `marks`; the pair of project and sequence number is its key
pub record Mark : Type 0 where
  pub project_id : String
  pub seq : ℕ
  pub retention : RetentionClass

pub record EventStore : Type 0 where
  pub streams : Dict (List EventEnvelope)
  pub snapshots : Dict (List ProjectionSnapshot)
  pub marks : List Mark
  pub event_ids : Dict Owner

abbrev pub empty_store : EventStore
empty_store = record { streams = []; snapshots = []; marks = []; event_ids = [] }

-- `this.streams.get(projectId) ?? []`
abbrev pub stream : EventStore → String → List EventEnvelope
stream s project_id = get_or_else (lookup project_id s.streams) []

-- the sequence number of the last event, or what stands for an empty stream
unfoldable pub last_seq : ℕ → List EventEnvelope → ℕ
last_seq n [] = n
last_seq n (e ∷ rest) = last_seq e.seq rest

unfoldable pub head_seq : EventStore → String → ℕ
unfolding last_seq
head_seq s project_id = last_seq 0 (stream s project_id)

unfoldable pub load_events : EventStore → String → ℕ → List EventEnvelope
unfolding filter
load_events s project_id from_seq = filter (λ e. leb from_seq e.seq) (stream s project_id)

abbrev pub marked : String → ℕ → Mark → Bool
marked project_id seq m = m.project_id == project_id && m.seq == seq

-- `marks.get` and `marks.set`
unfoldable pub mark_of : String → ℕ → List Mark → Option RetentionClass
mark_of project_id seq [] = none
mark_of project_id seq (m ∷ ms) =
    if marked project_id seq m then some m.retention else mark_of project_id seq ms

unfoldable pub set_mark : String → ℕ → RetentionClass → List Mark → List Mark
set_mark project_id seq c [] = record { project_id = project_id; seq = seq; retention = c } ∷ []
set_mark project_id seq c (m ∷ ms) =
    if marked project_id seq m
    then record m { retention = c } ∷ ms
    else m ∷ set_mark project_id seq c ms

-- The checks of a batch, over the identifiers of its earlier events. `reached` is the sequence
-- number before the event.
unfoldable pub check_batch :
    Dict Owner → String → ℕ → List String → List EventEnvelope → Result LedgerError (Unit {0})
check_batch owners project_id reached prior [] = done tt
check_batch owners project_id reached prior (e ∷ rest) = do
  require (e.seq == reached + 1) (event_version_conflict e.seq)
  require (e.project_id == project_id) (envelope_project_mismatch e.project_id project_id)
  require (not (is_present (lookup e.event_id owners)) && not (any (λ id. id == e.event_id) prior))
      (event_id_conflict e.event_id)
  check_batch owners project_id (reached + 1) (e.event_id ∷ prior) rest

-- the loop that stores a checked batch
unfoldable pub own : String → List EventEnvelope → Dict Owner → Dict Owner
own project_id [] owners = owners
own project_id (e ∷ rest) owners =
    own project_id rest
      (insert e.event_id (record { project_id = project_id; device_id = device_of e }) owners)

unfoldable pub mark_permanent : String → List EventEnvelope → List Mark → List Mark
mark_permanent project_id [] ms = ms
mark_permanent project_id (e ∷ rest) ms = mark_permanent project_id rest (
    if is_permanent (event_retention_class e.event_type)
    then set_mark project_id e.seq permanent ms
    else ms)

module _ (z : Platform) where
  unfoldable pub append :
      String → List EventEnvelope → ℕ → EventStore → Result LedgerError EventStore
  unfolding head_seq
  append project_id events expected_seq s = do
    require (all (is_event_envelope z) events) invalid_envelope
    let head = head_seq s project_id
    require (head == expected_seq) (version_conflict expected_seq head)
    check_batch s.event_ids project_id head [] events
    done (record s {
      streams = insert project_id (stream s project_id ++ events) s.streams;
      event_ids = own project_id events s.event_ids;
      marks = mark_permanent project_id events s.marks;
    })

unfoldable pub mark_all : String → RetentionClass → List ℕ → List Mark → List Mark
mark_all project_id c [] ms = ms
mark_all project_id c (seq ∷ rest) ms = mark_all project_id c rest (set_mark project_id seq c ms)

-- the events of a range that a call of `markRetention` marks
unfoldable pub to_mark : String → ℕ → ℕ → RetentionClass → List Mark → List EventEnvelope → List ℕ
to_mark project_id lo hi c ms events =
    map (λ e. e.seq)
      (filter
        (λ e.
          leb lo e.seq
          && leb e.seq hi
          && not (is_present (mark_of project_id e.seq ms))
          && (is_permanent c || not (is_permanent (event_retention_class e.event_type))))
        events)

unfoldable pub mark_retention :
    String → ℕ → ℕ → RetentionClass → EventStore → Result LedgerError (List ℕ × EventStore)
mark_retention project_id from_seq to_seq c s = do
  require (leb from_seq max_safe_integer && leb to_seq max_safe_integer) invalid_retention_range
  let lo = max 1 from_seq
  let seqs =
      if ltb to_seq lo then [] else to_mark project_id lo to_seq c s.marks (stream s project_id)
  done (seqs, record s { marks = mark_all project_id c seqs s.marks })

-- `versions.get` and `versions.set`
unfoldable pub set_version : ProjectionSnapshot → List ProjectionSnapshot → List ProjectionSnapshot
set_version v [] = v ∷ []
set_version v (w ∷ rest) = if w.seq == v.seq then v ∷ rest else w ∷ set_version v rest

-- `loadSnapshot`: the snapshot with the highest sequence number
unfoldable pub latest :
    Option ProjectionSnapshot → List ProjectionSnapshot → Option ProjectionSnapshot
latest best [] = best
latest none (v ∷ rest) = latest (some v) rest
latest (some b) (v ∷ rest) = latest (some (if ltb b.seq v.seq then v else b)) rest

unfoldable pub load_snapshot : EventStore → String → Option ProjectionSnapshot
unfolding latest
load_snapshot s project_id = latest none (get_or_else (lookup project_id s.snapshots) [])

-- the snapshots differ under their canonical form
abbrev conflicts : (Value → String) → ProjectionSnapshot → Option ProjectionSnapshot → Bool
conflicts stringify v none = false
conflicts stringify v (some w) = not (
    w.state_version == v.state_version
    && w.schema_version == v.schema_version
    && canonical_equals stringify w.state v.state)

abbrev is_committed : ProjectionSnapshot → Option EventEnvelope → Bool
is_committed v none = false
is_committed v (some e) = e.state_version == v.state_version

unfoldable pub save_snapshot :
    (Value → String) → String → ProjectionSnapshot → EventStore → Result LedgerError EventStore
save_snapshot stringify project_id v s = do
  require (is_projection_snapshot v) invalid_snapshot
  require (is_committed v (find? (λ e. e.seq == v.seq) (stream s project_id)))
      snapshot_not_committed
  let versions = get_or_else (lookup project_id s.snapshots) []
  require (not (conflicts stringify v (find? (λ w. w.seq == v.seq) versions)))
      snapshot_content_conflict
  done (record s { snapshots = insert project_id (set_version v versions) s.snapshots })

pub record EventIdentity : Type 0 where
  pub event_id : String
  pub device_id : Option String

-- `existingEventIdentities`, over the entries of `eventIds`
unfoldable pub identities_in : String → List String → Dict Owner → List EventIdentity
identities_in project_id wanted [] = []
identities_in project_id wanted ((id, o) ∷ rest) =
    let found = identities_in project_id wanted rest in
    if o.project_id == project_id && any (λ w. w == id) wanted
    then record { event_id = id; device_id = o.device_id } ∷ found
    else found

unfoldable pub existing_event_identities : EventStore → String → List String → List EventIdentity
unfolding identities_in
existing_event_identities s project_id wanted = identities_in project_id wanted s.event_ids
