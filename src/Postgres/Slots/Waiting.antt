-- ===== src/Postgres/Slots/Waiting.antt =====
-- dev_orchestrator/v8/store_pg.py: the loop of `acquire_ai_slot`.
use async_native_ai_orchestr.Prelude.{
  ℕ, ◌+◌, ◌≡◌, refl, ap, Bool, true, false, List, [], ◌∷◌, Option, none, some, leb, any, is_some,
  Bool-cases, inl, inr, ◌⊎◌,
}
use async_native_ai_orchestr.Prelude.Dict.{Dict, put}
use async_native_ai_orchestr.Result.{Result, ok, err}
use async_native_ai_orchestr.Store.Jobs.{seconds}
use async_native_ai_orchestr.Store.Records.{AiSlot}
use async_native_ai_orchestr.Postgres.Slots.{
  SlotRequest, Round, has_room_in, slot_for, at_provider_count, at_run_count, at_insert,
  acquire_round, wait_for_slot, acquire_ai_slot, timed_out,
}

-- Whether the counts of the round found room.
abbrev pub finds_room : SlotRequest → Round → Dict AiSlot → Bool
finds_room q r m =
    has_room_in q (at_provider_count r.now r.overlap m) (at_run_count r.now r.overlap m)

abbrev pub slot_of : SlotRequest → Round → AiSlot
slot_of q r = slot_for q r.slot_id r.now

-- The result of a round is a slot exactly if there was room.
acquire_round-found :
    (q : SlotRequest) (r : Round) (m : Dict AiSlot)
    → finds_room q r m ≡ true
    → acquire_round q r.slot_id r.now r.overlap m
      ≡ (some (slot_of q r), put r.slot_id (slot_of q r) (at_insert r.now r.overlap m))
unfolding acquire_round
acquire_round-found q r m room = rw room refl

acquire_round-none :
    (q : SlotRequest) (r : Round) (m : Dict AiSlot)
    → finds_room q r m ≡ false
    → acquire_round q r.slot_id r.now r.overlap m ≡ (none, at_insert r.now r.overlap m)
unfolding acquire_round
acquire_round-none q r m full = rw full refl

-- The table that the next round meets.
abbrev pub after : Round → Dict AiSlot → Dict AiSlot
after r m = r.others (at_insert r.now r.overlap m)

-- From a table through the rounds in which the caller waits: no room, and the deadline is not reached.
pub data Waits (q : SlotRequest) (deadline : ℕ)
    : List Round → Dict AiSlot → List Round → Dict AiSlot → Type 0 where
  here : {rs : List Round} {m : Dict AiSlot} → Waits q deadline rs m rs m
  sleeps :
      {r : Round} {rs ts : List Round} {m n : Dict AiSlot}
      → finds_room q r m ≡ false
      → leb deadline r.monotonic ≡ false
      → Waits q deadline rs (after r m) ts n
      → Waits q deadline (r ∷ rs) m ts n

-- How the round in which the wait ends answers.
abbrev pub EndsIn :
    SlotRequest
    → (deadline : ℕ) → List Round
    → Dict AiSlot
    → Option (Result AiSlot) × Dict AiSlot
    → Type 0
EndsIn q deadline [] n done = done ≡ (none, n)
EndsIn q deadline (r ∷ rs) n done =
    ((finds_room q r n ≡ true)
      × (done
          ≡ (some (ok (slot_of q r)), put r.slot_id (slot_of q r) (at_insert r.now r.overlap n))))
    ⊎ ((finds_room q r n ≡ false)
        × (leb deadline r.monotonic ≡ true)
        × (done ≡ (some (err timed_out), at_insert r.now r.overlap n)))

abbrev pub IsOutcome :
    SlotRequest
    → (deadline : ℕ) → List Round
    → Dict AiSlot
    → Option (Result AiSlot) × Dict AiSlot
    → Type 0
IsOutcome q deadline rounds m done =
    (ts : List Round) × (n : Dict AiSlot) × Waits q deadline rounds m ts n
    × EndsIn q deadline ts n done

wait_for_slot-IsOutcome :
    (q : SlotRequest) (deadline : ℕ) (rounds : List Round) (m : Dict AiSlot)
    → IsOutcome q deadline rounds m (wait_for_slot q deadline rounds m)
unfolding wait_for_slot
wait_for_slot-IsOutcome q deadline [] m = ([], m, here, refl)
wait_for_slot-IsOutcome q deadline (r ∷ rs) m = elim (Bool-cases (finds_room q r m)) [
  | inl room ↦
      let e = acquire_round-found q r m room in
      rw (wait_for_slot, ap (λ p. p.0) e, ap (λ p. p.1) e) (r ∷ rs, m, here, inl (room, refl))
  | inr full ↦
      let e = acquire_round-none q r m full in
      rw (wait_for_slot, ap (λ p. p.0) e, ap (λ p. p.1) e)
        (elim (Bool-cases (leb deadline r.monotonic)) [
          | inl late ↦ rw late (r ∷ rs, m, here, inr (full, late, refl))
          | inr early ↦
              let (ts, n, waited, ended) = wait_for_slot-IsOutcome q deadline rs (after r m) in
              rw early (ts, n, sleeps full early waited, ended)
        ])
]

-- Whatever the other callers commit while its transactions run and while it sleeps, `acquire_ai_slot`
-- waits through the rounds in which a count finds no room and the deadline is not reached, and ends in
-- the first other one: with the slot of that round, which it stores, if its two counts found the
-- provider and the run below their limits, and else with the time-out, the deadline being past.
pub acquire_ai_slot-IsOutcome :
    (q : SlotRequest) (start : ℕ) (rounds : List Round) (m : Dict AiSlot)
    → IsOutcome q (start + seconds q.wait_seconds) rounds m (acquire_ai_slot q start rounds m)
unfolding acquire_ai_slot
acquire_ai_slot-IsOutcome q start rounds m =
    wait_for_slot-IsOutcome q (start + seconds q.wait_seconds) rounds m

wait_for_slot-is_some :
    (q : SlotRequest) (deadline : ℕ) (rounds : List Round) (m : Dict AiSlot)
    → any (λ r. leb deadline r.monotonic) rounds ≡ true
    → is_some (wait_for_slot q deadline rounds m).0 ≡ true
unfolding wait_for_slot
wait_for_slot-is_some q deadline [] m h = absurd (cc)
wait_for_slot-is_some q deadline (r ∷ rs) m h = elim (Bool-cases (finds_room q r m)) [
  | inl room ↦ let e = acquire_round-found q r m room in rw (wait_for_slot, ap (λ p. p.0) e) refl
  | inr full ↦
      let e = acquire_round-none q r m full in
      rw (wait_for_slot, ap (λ p. p.0) e, ap (λ p. p.1) e)
        (elim (Bool-cases (leb deadline r.monotonic)) [
          | inl late ↦ rw late refl
          | inr early ↦ rw early (wait_for_slot-is_some q deadline rs (after r m) (rw early at h))
        ])
]

-- The loop of `acquire_ai_slot` ends: as soon as the clock passes the deadline in one of its rounds,
-- and whatever the other callers do, it has returned a slot or raised.
pub acquire_ai_slot-is_some :
    (q : SlotRequest) (start : ℕ) (rounds : List Round) (m : Dict AiSlot)
    → any (λ r. leb (start + seconds q.wait_seconds) r.monotonic) rounds ≡ true
    → is_some (acquire_ai_slot q start rounds m).0 ≡ true
unfolding acquire_ai_slot
acquire_ai_slot-is_some q start rounds m h =
    wait_for_slot-is_some q (start + seconds q.wait_seconds) rounds m h
