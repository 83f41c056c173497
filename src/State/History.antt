-- ===== src/State/History.antt =====
-- state/event-history.ts: the append-only, gapless sequence of events.
use navis.Base.{ℕ, ◌+◌, ◌&&◌, Option, none, some, List, [], ◌∷◌, ◌++◌, ◌==◌, nat_eq, if◌then◌else◌}
use navis.Schema.Errors.{invalid_envelope, invalid_log}
use navis.Schema.Platform.{Platform}
use navis.State.Events.{StateEvent}
use navis.State.Payload.{is_envelope}
use navis.State.Replay.{Replay, ok, fault}

-- `head`
unfoldable pub head : List StateEvent → Option StateEvent
head [] = none
head (e ∷ []) = some e
head (e ∷ f ∷ rest) = head (f ∷ rest)

abbrev seq_of : Option StateEvent → ℕ
seq_of none = 0
seq_of (some e) = e.seq

-- `currentSeq`
unfoldable pub current_seq : List StateEvent → ℕ
unfolding head
current_seq events = seq_of (head events)

module _ (z : Platform) where
  -- `verifyEventHistory`, from the sequence number that was reached
  unfoldable pub verify_from : ℕ → List StateEvent → Option ℕ
  verify_from expected [] = none
  verify_from expected (e ∷ rest) =
      let next = verify_from e.seq rest in
      if is_envelope z e && e.seq == expected + 1 then next else some e.seq

  -- The sequence number of the first violation, or none.
  unfoldable pub verify_event_history : List StateEvent → Option ℕ
  unfolding verify_from
  verify_event_history events = verify_from 0 events

  unfoldable pub append : List StateEvent → StateEvent → Replay (List StateEvent)
  append events e =
      if is_envelope z e
      then if e.seq == current_seq events + 1
        then ok (events ++ e ∷ [])
        else fault (invalid_log "version-conflict" e.seq)
      else fault invalid_envelope
