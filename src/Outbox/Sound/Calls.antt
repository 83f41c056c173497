-- ===== src/Outbox/Sound/Calls.antt =====
-- What every call of sqlite-outbox.ts keeps of the outbox.
use navis.Base.{
  ℕ, String, ◌≡◌, refl, sym, subst, ap, ◌||◌, List, [], ◌∷◌, Option, none, some, ◌==◌, nat_eq,
  string_eq, if◌then◌else◌, arith, inl, inr, Bool-cases, All-filter, ◌⊎◌,
}
use navis.Base.Results.{done, ◌>>=◌, ◌>>◌, require, done-injective, >>=-eq-done}
use navis.Outbox.Store.{
  pending, sending, local_only, quarantined, outbox_state_eq, OutboxEvent, Outbox, update, found,
  get, always, is_in, mark_sending, claim_pending, mark_acked, delete_acked, acknowledge,
  release_sending, park_local_only, quarantine, OutboxClock, to_claim,
}
use navis.Outbox.Sound.{IsSound, update-IsSound, Apart-filter}

mark_sending-IsSound :
    (es : List OutboxEvent) (now : String) (o : Outbox)
    → IsSound o
    → IsSound (mark_sending es now o)
unfolding mark_sending update
mark_sending-IsSound [] now o s = s
mark_sending-IsSound (e ∷ es) now o s = mark_sending-IsSound es now _ (
    update-IsSound e.event_id (is_in pending) _ o
      (record {
        id = λ f. refl;
        device = λ f. refl;
        seq = λ f n h. h;
        ready = λ f h i _. i.ready (ground arith);
      })
      s)

pub claim_pending-IsSound :
    (device_id : String) (limit : ℕ) (due now : String) (o : Outbox)
    → IsSound o
    → IsSound (claim_pending device_id limit due now o).1
unfolding claim_pending
claim_pending-IsSound device_id limit due now o s =
    mark_sending-IsSound (to_claim device_id limit due o) now o s

mark_acked-IsSound :
    (ids : List String) (now : String) (o : Outbox) → IsSound o → IsSound (mark_acked ids now o)
unfolding mark_acked update
mark_acked-IsSound [] now o s = s
mark_acked-IsSound (id ∷ ids) now o s = mark_acked-IsSound ids now _ (
    update-IsSound id (is_in sending) _ o
      (record { id = λ f. refl; device = λ f. refl; seq = λ f n h. h; ready = λ f h i out. cc }) s)

delete_acked-IsSound : (ids : List String) (o : Outbox) → IsSound o → IsSound (delete_acked ids o)
unfolding delete_acked
delete_acked-IsSound [] o s = s
delete_acked-IsSound (id ∷ ids) o s = delete_acked-IsSound ids _ (record {
  numbered = All-filter _ _ o.events s.numbered;
  apart = Apart-filter _ o.events s.apart;
})

pub acknowledge-IsSound :
    (ids : List String) (now : String) (o : Outbox) → IsSound o → IsSound (acknowledge ids now o)
unfolding acknowledge
acknowledge-IsSound ids now o s = delete_acked-IsSound ids _ (mark_acked-IsSound ids now o s)

quarantine-eq-done :
    (event_id reason : String) (o o' : Outbox)
    → quarantine event_id reason o ≡ done o'
    → o'
      ≡ update event_id always (λ f. record f { state = quarantined; keep_reason = some reason }) o
unfolding quarantine ◌>>=◌ ◌>>◌ require
quarantine-eq-done event_id reason o o' h = ground arith

pub quarantine-IsSound :
    (event_id reason : String) (o o' : Outbox)
    → IsSound o
    → quarantine event_id reason o ≡ done o'
    → IsSound o'
unfolding update
quarantine-IsSound event_id reason o o' s h =
    subst IsSound (sym (quarantine-eq-done event_id reason o o' h)) (
      update-IsSound event_id always _ o
        (record { id = λ f. refl; device = λ f. refl; seq = λ f n h. h; ready = λ f h i out. cc })
        s)

park_local_only-eq-done :
    (event_id reason : String) (o o' : Outbox)
    → park_local_only event_id reason o ≡ done o'
    → (o' ≡ o)
      ⊎ (o'
          ≡ update event_id always
              (λ f. record f { state = local_only; keep_reason = some reason; seq = none })
              o)
unfolding park_local_only ◌>>=◌ ◌>>◌ require
park_local_only-eq-done event_id reason o o' h = by_found (get event_id o) h
  where
    by_found :
        (f : Option OutboxEvent)
        → (found f >>= λ e. done (
            if e.state == local_only || e.state == quarantined
            then o
            else update event_id always
                (λ f. record f { state = local_only; keep_reason = some reason; seq = none })
                o))
          ≡ done o'
        → (o' ≡ o)
          ⊎ (o'
              ≡ update event_id always
                  (λ f. record f { state = local_only; keep_reason = some reason; seq = none })
                  o)
    by_found none h = cc
    by_found (some e) h = elim (Bool-cases (e.state == local_only || e.state == quarantined)) [
      | inl m ↦ inl (ground (arith, m, h))
      | inr m ↦ inr (ground (arith, m, h))
    ]

pub park_local_only-IsSound :
    (event_id reason : String) (o o' : Outbox)
    → IsSound o
    → park_local_only event_id reason o ≡ done o'
    → IsSound o'
unfolding update
park_local_only-IsSound event_id reason o o' s h =
    elim (park_local_only-eq-done event_id reason o o' h) [
      | inl same ↦ subst IsSound (sym same) s
      | inr parked ↦ subst IsSound (sym parked) (
          update-IsSound event_id always _ o
            (record {
              id = λ f. refl;
              device = λ f. refl;
              seq = λ f n h. cc;
              ready = λ f h i out. cc;
            })
            s)
    ]

pub release_sending-IsSound :
    (c : OutboxClock) (backoff : ℕ → ℕ) (ids : List String) (not_before : Option String)
    (now : String) (o o' : Outbox) (times : List (String × String))
    → IsSound o
    → release_sending c backoff ids not_before now o ≡ done (times, o')
    → IsSound o'
unfolding release_sending update
release_sending-IsSound c backoff [] not_before now o o' times s h =
    subst IsSound (ap (λ q. q.1) (done-injective _ _ h)) s
release_sending-IsSound c backoff (id ∷ ids) not_before now o o' times s h =
    let (next, timed_at, rest) = >>=-eq-done _ _ h in
    let ((later, o''), released, both) = >>=-eq-done _ _ rest in
    subst IsSound (ap (λ q. q.1) (done-injective _ _ both)) (
      release_sending-IsSound c backoff ids not_before now _ o'' later
        (update-IsSound id (is_in sending) _ o
          (record {
            id = λ f. refl;
            device = λ f. refl;
            seq = λ f n h. h;
            ready = λ f h i _. i.ready (ground arith);
          })
          s)
        released)
