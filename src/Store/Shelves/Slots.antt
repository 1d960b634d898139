-- ===== src/Store/Shelves/Slots.antt =====
-- dev_orchestrator/v8/store_memory.py: what is listed after a slot is acquired and released.
use async_native_ai_orchestr.Prelude.{
  ℕ, ◌+◌, String, ◌≡◌, refl, ap, true, false, List, [], ◌∷◌, none, some, arith, keep, length,
}
use async_native_ai_orchestr.Prelude.Dict.{Dict, get, put, values, get-put_self}
use async_native_ai_orchestr.Store.Records.{AiSlot, released}
use async_native_ai_orchestr.Store.Memory.{InMemoryStore}
use async_native_ai_orchestr.Store.Shelves.{
  acquire_ai_slot, release_ai_slot, list_active_ai_slots, is_active_slot, new_slot, of_run,
}

-- How many slots are listed as active.
abbrev pub count_active : Dict AiSlot → ℕ
count_active m = length (keep (λ x. is_active_slot x.status) (values m))

pub count_active-put_fresh :
    (k : String) (a : AiSlot) (m : Dict AiSlot)
    → get k m ≡ none
    → is_active_slot a.status ≡ true
    → count_active (put k a m) ≡ count_active m + 1
unfolding get put
count_active-put_fresh k a [] e h = ground arith
count_active-put_fresh k a ((i, b) ∷ m) e h = ground (arith, count_active-put_fresh k a m)

pub count_active-put_off :
    (k : String) (a b : AiSlot) (m : Dict AiSlot)
    → get k m ≡ some b
    → is_active_slot b.status ≡ true
    → is_active_slot a.status ≡ false
    → count_active (put k a m) + 1 ≡ count_active m
unfolding get put
count_active-put_off k a b [] e h o = cc
count_active-put_off k a b ((i, c) ∷ m) e h o = ground (arith, count_active-put_off k a b m)

count_active-put-put :
    (k : String) (a b : AiSlot) (m : Dict AiSlot)
    → get k m ≡ none
    → is_active_slot a.status ≡ true
    → is_active_slot b.status ≡ false
    → count_active (put k b (put k a m)) ≡ count_active m
count_active-put-put k a b m e h o = ground (
  arith,
  count_active-put_fresh k a m e h,
  count_active-put_off k b a (put k a m) (get-put_self k a m) h o,
)

keep-all : (xs : List AiSlot) → keep (λ x. of_run none x.run_id) xs ≡ xs
keep-all [] = refl
keep-all (x ∷ xs) = ground (arith, keep-all xs)

listed : (s : InMemoryStore) → length (list_active_ai_slots s none) ≡ count_active s.ai_slots
unfolding list_active_ai_slots
listed s = ap length (keep-all (keep (λ x. is_active_slot x.status) (values s.ai_slots)))

-- Under a new identifier, `acquire_ai_slot` always adds one active slot, whatever the limits of the
-- provider and of the run are and however many slots are active, and its release takes that one away.
pub acquire_ai_slot-release_ai_slot :
    (s : InMemoryStore) (id t r p a k : String) (pl rl ws ls now later : ℕ)
    → get id s.ai_slots ≡ none
    → let s₁ = (acquire_ai_slot s id t r p a k pl rl ws ls now).1 in
      (length (list_active_ai_slots s₁ none) ≡ length (list_active_ai_slots s none) + 1)
      × (length (list_active_ai_slots (release_ai_slot s₁ id later) none)
          ≡ length (list_active_ai_slots s none))
unfolding acquire_ai_slot release_ai_slot list_active_ai_slots
acquire_ai_slot-release_ai_slot s id t r p a k pl rl ws ls now later e =
    let slot = new_slot id t r p a k ls now in
    let off = record slot { status = released; released_at = some later } in
    let s₁ = record s { ai_slots = put id slot s.ai_slots } in
    let s₂ = record s { ai_slots = put id off (put id slot s.ai_slots) } in
    (
      rw (listed s₁, listed s) (count_active-put_fresh id slot s.ai_slots e refl),
      rw (get-put_self id slot s.ai_slots, release_ai_slot, listed s₂, listed s)
          (count_active-put-put id slot off s.ai_slots e refl refl),
    )
