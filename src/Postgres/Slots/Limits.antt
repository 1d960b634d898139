-- ===== src/Postgres/Slots/Limits.antt =====
-- dev_orchestrator/v8/store_pg.py: how many slots are active at once.
use async_native_ai_orchestr.Prelude.{
  ℕ, ◌+◌, max, String, ◌≡◌, ◌≤◌, refl, Bool, false, List, [], ◌∷◌, Option, some, arith, if_both,
  Option-cases, Bool-cases, inl, inr, All, if◌then◌else◌, eq_iff,
}
use async_native_ai_orchestr.Prelude.Dict.{Dict, get, put}
use async_native_ai_orchestr.Store.Records.{AiSlot, released}
use async_native_ai_orchestr.Store.Shelves.{is_active_slot}
use async_native_ai_orchestr.Postgres.Slots.{
  SlotRequest, expire_stale, expire, is_stale, count_slots, of_provider, of_run, has_room, slot_for,
  acquire_round, alone, release_ai_slot,
}

-- A transaction on the table, with its time.
pub data SlotOp : Type 0 where
  acquires : SlotRequest → (slot_id : String) (now : ℕ) → SlotOp
  releases : (slot_id : String) (now : ℕ) → SlotOp

unfoldable pub step : Dict AiSlot → SlotOp → Dict AiSlot
step m (acquires q slot_id now) = (acquire_round q slot_id now alone m).1
step m (releases slot_id now) = release_ai_slot slot_id now m

abbrev pub run : Dict AiSlot → List SlotOp → Dict AiSlot
run m [] = m
run m (o ∷ os) = run (step m o) os

-- A test that no slot passes after it has expired or been released.
abbrev OnlyActive : (AiSlot → Bool) → Type 0
OnlyActive p = (s : AiSlot) → is_active_slot s.status ≡ false → p s ≡ false

module _ (p : AiSlot → Bool) where
  count_slots-put_le :
      (k : String) (s : AiSlot) (m : Dict AiSlot)
      → count_slots p (put k s m) ≤ count_slots p m + (if p s then 1 else 0)
  unfolding count_slots put
  count_slots-put_le k s [] = ground arith
  count_slots-put_le k s ((i, w) ∷ m) = ground (arith, count_slots-put_le k s m)

  count_slots-put_off_le :
      (k : String) (s : AiSlot) (m : Dict AiSlot)
      → p s ≡ false
      → count_slots p (put k s m) ≤ count_slots p m
  count_slots-put_off_le k s m h = ground (arith, count_slots-put_le k s m)

  count_slots-expire_stale_le :
      (now : ℕ) (m : Dict AiSlot)
      → OnlyActive p
      → count_slots p (expire_stale now m) ≤ count_slots p m
  unfolding count_slots expire_stale
  count_slots-expire_stale_le now [] h = omega arith
  count_slots-expire_stale_le now ((k, s) ∷ m) h =
      let rest = count_slots-expire_stale_le now m h in
      elim (Bool-cases (is_stale now s)) [
        | inl late ↦ let off = h (expire now s) refl in rw (late, off) (ground arith)
        | inr fresh ↦ rw fresh (ground arith)
      ]

  release_ai_slot-le :
      (k : String) (now : ℕ) (m : Dict AiSlot)
      → OnlyActive p
      → count_slots p (release_ai_slot k now m) ≤ count_slots p m
  unfolding release_ai_slot
  release_ai_slot-le k now m h = elim (Option-cases (get k m)) [
    | inl e ↦ rw (e, release_ai_slot) (omega arith)
    | inr (s, e) ↦
        let off = record s { status = released; released_at = some now } in
        rw (e, release_ai_slot) (count_slots-put_off_le k off m (h off refl))
  ]

of_provider-OnlyActive : (provider : String) → OnlyActive (of_provider provider)
of_provider-OnlyActive provider s h = ground arith

of_run-OnlyActive : (run_id : String) → OnlyActive (of_run run_id)
of_run-OnlyActive run_id s h = ground arith

-- The limits on active slots, for every provider and every run.
module _ (provider_limit run_limit : ℕ) where
  pub record IsWithinLimits (m : Dict AiSlot) : Type 0 where
    pub providers :
        (provider : String) → count_slots (of_provider provider) m ≤ max 1 provider_limit
    pub runs : (run_id : String) → count_slots (of_run run_id) m ≤ max 1 run_limit

  -- All callers share the two limits.
  abbrev pub AsksWithin : SlotOp → Type 0
  AsksWithin (acquires q slot_id now) =
      (q.provider_limit ≡ provider_limit) × (q.run_limit ≡ run_limit)
  AsksWithin (releases slot_id now) = Unit

  module _ (m : Dict AiSlot) (v : IsWithinLimits m) where
    acquire_round-IsWithinLimits :
        (q : SlotRequest) (slot_id : String) (now : ℕ)
        → q.provider_limit ≡ provider_limit
        → q.run_limit ≡ run_limit
        → IsWithinLimits (acquire_round q slot_id now alone m).1
    unfolding acquire_round
    acquire_round-IsWithinLimits q slot_id now pl rl =
        let m₁ = expire_stale now m in
        let s = slot_for q slot_id now in
        let kept_p : (p : String) → count_slots (of_provider p) m₁ ≤ max 1 provider_limit = λ p.
          ground (
            arith,
            v.providers p,
            count_slots-expire_stale_le (of_provider p) now m (of_provider-OnlyActive p),
          ) in
        let kept_r : (i : String) → count_slots (of_run i) m₁ ≤ max 1 run_limit = λ i.
          ground
            (arith, v.runs i, count_slots-expire_stale_le (of_run i) now m (of_run-OnlyActive i)) in
        if_both {A = Option AiSlot × Dict AiSlot} (λ r. IsWithinLimits r.1) (has_room q m₁)
          (λ room. record {
            providers = λ p. ground (
              arith,
              eq_iff q.provider p,
              kept_p p,
              count_slots-put_le (of_provider p) slot_id s m₁,
            );
            runs = λ i.
                ground
                  (arith, eq_iff q.run_id i, kept_r i, count_slots-put_le (of_run i) slot_id s m₁);
          })
          (λ _. record { providers = kept_p; runs = kept_r })

    step-IsWithinLimits : (o : SlotOp) → AsksWithin o → IsWithinLimits (step m o)
    unfolding step
    step-IsWithinLimits (acquires q slot_id now) (pl, rl) =
        acquire_round-IsWithinLimits q slot_id now pl rl
    step-IsWithinLimits (releases slot_id now) ok = record {
      providers = λ p. ground (
        arith,
        v.providers p,
        release_ai_slot-le (of_provider p) slot_id now m (of_provider-OnlyActive p),
      );
      runs = λ i.
          ground
            (arith, v.runs i, release_ai_slot-le (of_run i) slot_id now m (of_run-OnlyActive i));
    }

-- As long as no two transactions overlap, which the code does not see to, and all callers share the two
-- limits: in whatever order the transactions that acquire and release slots come, no provider has more active slots than the provider's limit and no run more than
-- the run's, where a limit below 1 counts as 1.
pub run-IsWithinLimits :
    (provider_limit run_limit : ℕ) (m : Dict AiSlot) (os : List SlotOp)
    → IsWithinLimits provider_limit run_limit m
    → All (AsksWithin provider_limit run_limit) os
    → IsWithinLimits provider_limit run_limit (run m os)
run-IsWithinLimits pl rl m [] v ok = v
run-IsWithinLimits pl rl m (o ∷ os) v (h, hs) =
    run-IsWithinLimits pl rl (step m o) os (step-IsWithinLimits pl rl m v o h) hs
