-- ===== src/Scheduler/Memory.antt =====
-- dev_orchestrator/v8/scheduler.py with dev_orchestrator/v8/store_memory.py: the in-memory store under the
-- scheduler.
use async_native_ai_orchestr.Prelude.{
  ℕ, ◌+◌, String, ◌≡◌, refl, Bool, true, false, not, ◌&&◌, [], ◌∷◌, Option, none, some, arith,
  str_eq, is_some, Option-cases, inl, inr, ap, sym,
}
use async_native_ai_orchestr.Prelude.Dict.{Dict, get, put, get-put_self}
use async_native_ai_orchestr.Store.Records.{AiSlot, AgentRun, released}
use async_native_ai_orchestr.Store.Memory.{InMemoryStore}
use async_native_ai_orchestr.Store.Shelves.{
  acquire_ai_slot, release_ai_slot, record_agent_run, is_active_slot, new_slot,
}
use async_native_ai_orchestr.Store.Shelves.Slots.{
  count_active, count_active-put_fresh, count_active-put_off,
}
use async_native_ai_orchestr.Postgres.Slots.{SlotRequest}
use async_native_ai_orchestr.Scheduler.{SlotStore, gets, faults, interrupted, StoreFault}
use async_native_ai_orchestr.Scheduler.Release.{SlotLaws}

-- The two methods on providers assign to fields that `ProviderState` does not have, so they raise before
-- they store anything.
abbrev pub memory_store : SlotStore InMemoryStore
memory_store = record {
  acquire_ai_slot = λ q id now s.
      let (slot, s') =
        acquire_ai_slot s id q.tenant_id q.run_id q.provider q.agent_run_id q.task_kind
          q.provider_limit q.run_limit q.wait_seconds q.lease_seconds now in
      (gets slot, s');
  release_ai_slot = λ id now s. release_ai_slot s id now;
  record_agent_run = λ a s. record_agent_run s a;
  record_provider_success = λ p s. s;
  record_provider_failure = λ p e k s. s;
}

abbrev pub is_on : Option AiSlot → Bool
is_on none = false
is_on (some s) = is_active_slot s.status

abbrev pub is_active_in : String → Dict AiSlot → Bool
is_active_in id m = is_on (get id m)

abbrev pub is_new_in : String → Dict AiSlot → Bool
is_new_in id m = not (is_some (get id m)) && not (str_eq id "")

count_active-put_idle :
    (k : String) (a b : AiSlot) (m : Dict AiSlot)
    → get k m ≡ some b
    → is_active_slot b.status ≡ false
    → is_active_slot a.status ≡ false
    → count_active (put k a m) ≡ count_active m
unfolding get put
count_active-put_idle k a b [] e h o = cc
count_active-put_idle k a b ((i, c) ∷ m) e h o = ground (arith, count_active-put_idle k a b m)

abbrev off : ℕ → AiSlot → AiSlot
off now s = record s { status = released; released_at = some now }

pub release_ai_slot-count :
    (id : String) (now : ℕ) (s : InMemoryStore)
    → is_active_in id s.ai_slots ≡ true
    → (count_active (release_ai_slot s id now).ai_slots + 1 ≡ count_active s.ai_slots)
      × (is_active_in id (release_ai_slot s id now).ai_slots ≡ false)
unfolding release_ai_slot
release_ai_slot-count id now s held = elim (Option-cases (get id s.ai_slots)) [
  | inl e ↦ absurd (cc)
  | inr (slot, e) ↦
      let active_now : is_active_slot slot.status ≡ true = rw (e, is_active_in) at held in
      rw (e, release_ai_slot)
        (
          count_active-put_off id (off now slot) slot s.ai_slots e active_now refl,
          ap is_on (get-put_self id (off now slot) s.ai_slots),
        )
]

pub release_ai_slot-count_again :
    (id : String) (now : ℕ) (s : InMemoryStore)
    → is_active_in id s.ai_slots ≡ false
    → count_active (release_ai_slot s id now).ai_slots ≡ count_active s.ai_slots
unfolding release_ai_slot
release_ai_slot-count_again id now s free = elim (Option-cases (get id s.ai_slots)) [
  | inl e ↦ rw (e, release_ai_slot) refl
  | inr (slot, e) ↦
      let idle_now : is_active_slot slot.status ≡ false = rw (e, is_active_in) at free in
      rw (e, release_ai_slot)
        (count_active-put_idle id (off now slot) slot s.ai_slots e idle_now refl)
]

gets-injective : (a b : AiSlot) → gets a ≡ gets b → a ≡ b
gets-injective a b e = cc

pub acquire_ai_slot-never_faults :
    (q : SlotRequest) (id : String) (now : ℕ) (s s' : InMemoryStore) (f : StoreFault)
    → memory_store.acquire_ai_slot q id now s ≡ (faults f, s')
    → count_active s'.ai_slots ≡ count_active s.ai_slots
acquire_ai_slot-never_faults q id now s s' f e = absurd (cc)

pub acquire_ai_slot-never_interrupted :
    (q : SlotRequest) (id : String) (now : ℕ) (s s' : InMemoryStore)
    → memory_store.acquire_ai_slot q id now s ≡ (interrupted, s')
    → count_active s'.ai_slots ≡ count_active s.ai_slots
acquire_ai_slot-never_interrupted q id now s s' e = absurd (cc)

pub acquire_ai_slot-count :
    (q : SlotRequest) (id : String) (now : ℕ) (s s' : InMemoryStore) (slot : AiSlot)
    → is_new_in id s.ai_slots ≡ true
    → memory_store.acquire_ai_slot q id now s ≡ (gets slot, s')
    → (count_active s'.ai_slots ≡ count_active s.ai_slots + 1)
      × (is_active_in slot.id s'.ai_slots ≡ true)
      × (str_eq slot.id "" ≡ false)
unfolding acquire_ai_slot
acquire_ai_slot-count q id now s s' slot new e =
    let made =
      new_slot id q.tenant_id q.run_id q.provider q.agent_run_id q.task_kind q.lease_seconds now in
    let stored = ap (λ r. r.1) e in
    let same = gets-injective made slot (ap (λ r. r.0) e) in
    let fresh : get id s.ai_slots ≡ none = elim (Option-cases (get id s.ai_slots)) [
      | inl e' ↦ e'
      | inr (b, e') ↦ absurd (ground arith)
    ] in
    let named : str_eq id "" ≡ false = ground arith in
    rw (sym stored, sym same)
      (
        count_active-put_fresh id made s.ai_slots fresh refl,
        ap is_on (get-put_self id made s.ai_slots),
        named,
      )

pub recorded :
    (a : AgentRun) (s : InMemoryStore)
    → count_active (record_agent_run s a).ai_slots ≡ count_active s.ai_slots
unfolding record_agent_run
recorded a s = refl

abbrev pub memory_laws : SlotLaws memory_store
memory_laws = record {
  count = λ s. count_active s.ai_slots;
  holds = λ id s. is_active_in id s.ai_slots;
  is_new = λ id s. is_new_in id s.ai_slots;
  acquired = acquire_ai_slot-count;
  faulted = acquire_ai_slot-never_faults;
  interrupted_at = acquire_ai_slot-never_interrupted;
  released = release_ai_slot-count;
  released_again = release_ai_slot-count_again;
  count-record_agent_run = λ a s. recorded a s;
  count-record_provider_success = λ p s. refl;
  holds-record_provider_success = λ id p s. refl;
  count-record_provider_failure = λ p e k s. refl;
  holds-record_provider_failure = λ id p e k s. refl;
}
