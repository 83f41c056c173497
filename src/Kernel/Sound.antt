-- ===== src/Kernel/Sound.antt =====
-- A kernel is sound where its live projection and its clock are what a replay of its log gives,
-- and its log is one that `validateEventLog` accepts. What `#append` keeps of that, and what
-- `rebuildProjection` and `fromEvents` give for it.
pub mod Steps
pub mod Commands
pub mod Chains
pub mod Reach
pub mod Refusals
use navis.Base.{
  ◌≡◌, refl, sym, ap, ◌∙◌, Bool, true, false, not, ◌&&◌, ◌||◌, ℕ, ◌+◌, ◌==◌, nat_eq, string_eq,
  eq_iff, eq_refl, String, Option, none, some, List, [], ◌∷◌, ◌++◌, any, is_present, lookup,
  if◌then◌else◌, arith, Bool-cases, inl, inr,
}
use navis.Schema.Platform.{Platform}
use navis.State.Clock.{ClockSnapshot, advance_clock}
use navis.State.Rows.{Projection, empty_projection, version_of}
use navis.State.Events
use navis.State.Events.{
  EventData, StateEvent, is_kernel_event, is_state_material, state_event_schema_version,
}
use navis.State.Payload.{is_payload}
use navis.State.History
use navis.State.History.{verify_event_history}
use navis.State.Replay
use navis.State.Replay.{◌>>=◌}
use navis.State.Apply.{apply_event}
use navis.State.Apply.Frame.{registers, IsFirst, apply_event-participants, apply_event-version}
use navis.Kernel.Core.{Kernel, new_kernel, Outcome, append, next_event, state_version}
use navis.Kernel.Log.{
  ObservationValidator, Scan, scan_event, scan, first_scan, is_registered, knows, register,
  is_valid_data, validate_event_log, fold_events, tick, fold_clock, rebuild_projection, load_events,
  from_events,
}
use navis.Kernel.Log.Load.{load_events_lem}
use navis.Kernel.Log.Append.{
  append-verify_event_history, scan-append, fold_events-append, fold_clock-append,
}

-- what the pass over the log has gathered agrees with the projection
pub record Agrees (s : Scan) (d : Projection) : Type 0 where
  pub same_version : s.version ≡ version_of d.project
  pub same_participants :
      (who : String) → is_registered s.registered who ≡ is_present (lookup who d.participants)

pub record IsSound (z : Platform) (v : ObservationValidator) (k : Kernel) : Type 0 where
  pub gapless : verify_event_history z k.history ≡ none
  pub reached : Scan
  pub scanned : scan z v (first_scan z v) k.history ≡ Replay.ok reached
  pub agrees : Agrees reached k.draft
  pub replayed : fold_events empty_projection k.history ≡ Replay.ok k.draft
  pub clocked : fold_clock [] k.history ≡ k.causal_clock

-- what a command owes when it appends: a known author, a participant that is new, the first project
pub record MayAppend (k : Kernel) (body : EventData) (actor : Option String) : Type 0 where
  pub known :
      (who : String) → actor ≡ some who → is_present (lookup who k.draft.participants) ≡ true
  pub fresh :
      (who : String)
      → registers body who ≡ true
      → is_present (lookup who k.draft.participants) ≡ false
  pub first : IsFirst k.draft body

-- what an append that does not throw has written
pub record IsWritten (z : Platform) (k k' : Kernel) (e : StateEvent) : Type 0 where
  pub payload : is_payload z e.body ≡ true
  pub logged : History.append z k.history e ≡ Replay.ok k'.history
  pub folded : apply_event k.draft e ≡ Replay.ok k'.draft
  pub ticked : tick k.causal_clock e ≡ k'.causal_clock

append-IsWritten :
    (z : Platform) (k k' : Kernel) (body : EventData) (at : String) (actor : Option String)
    → append z body at actor k ≡ (Outcome.ok tt, k')
    → IsWritten z k k' (next_event k body at actor)
unfolding append
append-IsWritten z k k' body at actor h = record {
  payload = ground arith;
  logged = ground arith;
  folded = ground arith;
  ticked = ground arith;
}

-- the registration that the pass over the log makes
record Registered (s s' : Scan) (b : EventData) : Type 0 where
  pub version : s'.version ≡ s.version
  pub registered :
      (who : String)
      → is_registered s'.registered who ≡ (registers b who || is_registered s.registered who)

register_ok :
    (e : StateEvent) (s : Scan) (b : EventData)
    → ((who : String) → registers b who ≡ true → is_registered s.registered who ≡ false)
    → (s' : Scan) × (register e s b ≡ Replay.ok s') × Registered s s' b
unfolding any
register_ok e s (Events.participant_registered id type name) h = (
  record s { registered = id ∷ s.registered },
  rw (h id (eq_refl id)) refl,
  record { version = refl; registered = λ who. refl },
)
register_ok e s (Events.hold_moved to m) h =
    (s, refl, record { version = refl; registered = λ who. refl })
register_ok e s (Events.observation type payload) h =
    (s, refl, record { version = refl; registered = λ who. refl })
register_ok e s _ h = (s, refl, record { version = refl; registered = λ who. refl })

is_valid_data-kernel :
    (z : Platform) (v : ObservationValidator) (b : EventData)
    → is_payload z b ≡ true
    → is_valid_data z v b ≡ true
unfolding is_payload
is_valid_data-kernel z v (Events.observation type payload) h = cc
is_valid_data-kernel z v _ h = h

knows-registered :
    (s : Scan) (d : Projection) (actor : Option String)
    → Agrees s d
    → ((who : String) → actor ≡ some who → is_present (lookup who d.participants) ≡ true)
    → knows s.registered actor ≡ true
knows-registered s d none g h = refl
knows-registered s d (some who) g h = g.same_participants who ∙ h who refl

-- what the pass does with an event whose checks hold
scan_event_ok :
    (z : Platform) (v : ObservationValidator) (s : Scan) (e : StateEvent)
    → (e.schema_version == state_event_schema_version) ≡ true
    → is_valid_data z v e.body ≡ true
    → (e.state_version == (if is_state_material e.body then s.version + 1 else s.version)) ≡ true
    → knows s.registered e.actor ≡ true
    → scan_event z v s e
      ≡ register e
          (record s { version = if is_state_material e.body then s.version + 1 else s.version })
          e.body
unfolding scan_event
scan_event_ok z v s e a b c d = rw (a, b, c, d) refl

version_lem :
    (k k' : Kernel) (e : StateEvent) (s : Scan)
    → IsFirst k.draft e.body
    → apply_event k.draft e ≡ Replay.ok k'.draft
    → e.state_version ≡ (if is_state_material e.body then state_version k + 1 else state_version k)
    → s.version ≡ version_of k.draft.project
    → (if is_state_material e.body then s.version + 1 else s.version) ≡ version_of k'.draft.project
version_lem k k' e s first h q g =
    rw (apply_event-version k.draft k'.draft e first h, q, g) (ground arith)

Agrees-scan_event :
    (z : Platform) (v : ObservationValidator) (k k' : Kernel) (body : EventData) (at : String)
    (actor : Option String) (s : Scan)
    → MayAppend k body actor
    → IsWritten z k k' (next_event k body at actor)
    → Agrees s k.draft
    → (s' : Scan) × (scan_event z v s (next_event k body at actor) ≡ Replay.ok s')
      × Agrees s' k'.draft
Agrees-scan_event z v k k' body at actor s m w g =
    let e = next_event k body at actor in
    let version = if is_state_material body then s.version + 1 else s.version in
    let (s', r, q) =
      register_ok e (record s { version = version }) body
        (λ who h. g.same_participants who ∙ m.fresh who h) in
    (
      s',
      scan_event_ok z v s e refl (is_valid_data-kernel z v body w.payload)
            (ground (arith, g.same_version)) (knows-registered s k.draft actor g m.known)
          ∙ r,
      record {
        same_version = q.version ∙ version_lem k k' e s m.first w.folded refl g.same_version;
        same_participants = λ who.
            q.registered who
            ∙ ap (λ b. registers body who || b) (g.same_participants who)
            ∙ sym (apply_event-participants k.draft k'.draft e who w.folded);
      },
    )

-- An append that returns leaves a sound kernel sound, where its author is registered, a participant
-- that it registers is new, and a project that it creates is the first.
pub append-IsSound :
    (z : Platform) (v : ObservationValidator) (k k' : Kernel) (body : EventData) (at : String)
    (actor : Option String)
    → IsSound z v k
    → MayAppend k body actor
    → append z body at actor k ≡ (Outcome.ok tt, k')
    → IsSound z v k'
append-IsSound z v k k' body at actor i m h =
    let e = next_event k body at actor in
    let w = append-IsWritten z k k' body at actor h in
    let (same, gapless) = append-verify_event_history z k.history k'.history e i.gapless w.logged in
    let (s', scanned, agrees) = Agrees-scan_event z v k k' body at actor i.reached m w i.agrees in
    record {
      gapless = gapless;
      reached = s';
      scanned = rw (← same, scan-append, i.scanned) scanned;
      agrees = agrees;
      replayed = rw (← same, fold_events-append, i.replayed) w.folded;
      clocked = rw (← same, fold_clock-append) (ap (λ c. tick c e) i.clocked ∙ w.ticked);
    }

pub new_kernel-IsSound : (z : Platform) (v : ObservationValidator) → IsSound z v new_kernel
unfolding verify_event_history scan fold_events fold_clock any lookup
new_kernel-IsSound z v = record {
  gapless = refl;
  reached = first_scan z v;
  scanned = refl;
  agrees = record { same_version = refl; same_participants = λ who. refl };
  replayed = refl;
  clocked = refl;
}

IsSound-validate_event_log :
    (z : Platform) (v : ObservationValidator) (k : Kernel)
    → (i : IsSound z v k) → validate_event_log z v k.history ≡ Replay.ok i.reached
unfolding validate_event_log
IsSound-validate_event_log z v k i = rw i.gapless i.scanned

-- The live projection of a sound kernel is the one that `rebuildProjection` replays.
pub IsSound-rebuild_projection :
    (z : Platform) (v : ObservationValidator) (k : Kernel)
    → IsSound z v k
    → rebuild_projection z v k ≡ Replay.ok k.draft
unfolding rebuild_projection
IsSound-rebuild_projection z v k i = rw (IsSound-validate_event_log z v k i) i.replayed

-- `fromEvents` loads the log of a sound kernel to that kernel.
pub IsSound-from_events :
    (z : Platform) (v : ObservationValidator) (k : Kernel)
    → IsSound z v k
    → from_events z v k.history ≡ Replay.ok k
unfolding from_events verify_event_history History.current_seq
IsSound-from_events z v k i =
    rw
      (
        IsSound-validate_event_log z v k i,
        load_events_lem z v new_kernel k.history k.draft i.gapless i.replayed,
        i.clocked,
      )
      refl
