-- ===== src/Outbox/Backoff.antt =====
-- The retry times of bridge-daemon/src/outbox/sqlite-outbox.ts.
use navis.Base.{ℕ, ◌≤◌, ◌+◌, max, String, ◌≡◌, Option, some}
use navis.Outbox.Store.{OutboxClock, Outbox, parsed_floor}

-- A retry time: it is at least half a second after the reading of the clock and not before the floor,
-- and at most a minute after the reading, or the floor where that is later. The floor is the time of
-- the `Retry-After`, or the epoch where there is none.
pub record IsRetryTime (c : OutboxClock) (not_before : Option String) (now text : String)
    : Type 0 where
  read : ℕ
  floor : ℕ
  time : ℕ
  of_now : c.time_of now ≡ some read
  of_floor : parsed_floor c not_before ≡ some floor
  written : text ≡ c.iso_of time
  half_a_second : read + 500 ≤ time
  no_sooner : floor ≤ time
  no_later : time ≤ max (read + 60000) floor
