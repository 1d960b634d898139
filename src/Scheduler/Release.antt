-- ===== src/Scheduler/Release.antt =====
-- dev_orchestrator/v8/scheduler.py: that every slot is released. `SlotLaws` is what the scheduler relies on
-- in its store; the in-memory store has it.
use async_native_ai_orchestr.Prelude.{
  ℕ, ◌+◌, String, ◌≡◌, refl, ◌∙◌, Bool, true, false, arith, str_eq, if_both,
}
use async_native_ai_orchestr.Errors.{classify_error, llm_error}
use async_native_ai_orchestr.Breaker.{allow_request, run}
use async_native_ai_orchestr.Store.Records.{AiSlot, AgentRun}
use async_native_ai_orchestr.Postgres.Slots.{SlotRequest}
use async_native_ai_orchestr.Scheduler.{
  AiSchedulerLimits, CallArgs, StoreFault, Acquired, gets, faults, interrupted, SlotStore,
  Externals, ChatOutcome, answers, raises_llm_error, raises_other, is_cancelled, Wait,
  cancelled_at_global, cancelled_later, enters, Attempt, SchedulerState, CallEnd, safe_release_slot,
  get_run_sem, get_provider_sem,
}
use async_native_ai_orchestr.Scheduler.Calls.{
  execute_call, release_if_raised, within_semaphores, after_acquire, call_once, message_content,
  slot_request,
}

pub record SlotLaws {S : Type 0} (store : SlotStore S) : Type 0 where
  -- How many slots are active, whether the slot is, and whether an identifier is a new one.
  pub count : S → ℕ
  pub holds : String → S → Bool
  pub is_new : String → S → Bool
  pub acquired :
      (q : SlotRequest) (id : String) (now : ℕ) (s s' : S) (slot : AiSlot)
      → is_new id s ≡ true
      → store.acquire_ai_slot q id now s ≡ (gets slot, s')
      → (count s' ≡ count s + 1) × (holds slot.id s' ≡ true) × (str_eq slot.id "" ≡ false)
  pub faulted :
      (q : SlotRequest) (id : String) (now : ℕ) (s s' : S) (f : StoreFault)
      → store.acquire_ai_slot q id now s ≡ (faults f, s')
      → count s' ≡ count s
  -- The transaction of a wait that is cancelled is rolled back.
  pub interrupted_at :
      (q : SlotRequest) (id : String) (now : ℕ) (s s' : S)
      → store.acquire_ai_slot q id now s ≡ (interrupted, s')
      → count s' ≡ count s
  pub released :
      (id : String) (now : ℕ) (s : S)
      → holds id s ≡ true
      → (count (store.release_ai_slot id now s) + 1 ≡ count s)
        × (holds id (store.release_ai_slot id now s) ≡ false)
  pub released_again :
      (id : String) (now : ℕ) (s : S)
      → holds id s ≡ false
      → count (store.release_ai_slot id now s) ≡ count s
  pub count-record_agent_run : (a : AgentRun) (s : S) → count (store.record_agent_run a s) ≡ count s
  pub count-record_provider_success :
      (p : String) (s : S) → count (store.record_provider_success p s) ≡ count s
  pub holds-record_provider_success :
      (id p : String) (s : S) → holds id (store.record_provider_success p s) ≡ holds id s
  pub count-record_provider_failure :
      (p e k : String) (s : S) → count (store.record_provider_failure p e k s) ≡ count s
  pub holds-record_provider_failure :
      (id p e k : String) (s : S) → holds id (store.record_provider_failure p e k s) ≡ holds id s

module _ {S : Type 0} (x : Externals) (limits : AiSchedulerLimits) (store : SlotStore S)
    (laws : SlotLaws store) (provider model : String) where
  safe_release-count :
      (id : String) (now : ℕ) (s : S)
      → str_eq id "" ≡ false
      → laws.holds id s ≡ true
      → (laws.count (safe_release_slot store id now s) + 1 ≡ laws.count s)
        × (laws.holds id (safe_release_slot store id now s) ≡ false)
  unfolding safe_release_slot
  safe_release-count id now s named held = rw named (laws.released id now s held)

  safe_release-again :
      (id : String) (now : ℕ) (s : S)
      → str_eq id "" ≡ false
      → laws.holds id s ≡ false
      → laws.count (safe_release_slot store id now s) ≡ laws.count s
  unfolding safe_release_slot
  safe_release-again id now s named free = rw named (laws.released_again id now s free)

  -- The slot is active before `_execute_call`, and not after the exception handler of `_call_once`.
  execute_call-count :
      (q : CallArgs) (e : Attempt) (content id : String) (o : ChatOutcome) (st : SchedulerState S)
      → str_eq id "" ≡ false
      → laws.holds id st.store ≡ true
      → laws.count
            (release_if_raised store id e.ended_at
              (execute_call x limits store provider model q e content id o st)).1.store
          + 1
        ≡ laws.count st.store
  unfolding release_if_raised execute_call
  execute_call-count q e content id (answers raw) st named held =
      let s = store.record_provider_success provider st.store in
      let held' = laws.holds-record_provider_success id provider st.store ∙ held in
      let released = (safe_release-count id e.ended_at s named held').0 in
      rw (laws.count-record_agent_run)
        (released ∙ laws.count-record_provider_success provider st.store)
  execute_call-count q e content id (raises_llm_error code text) st named held =
      let kind = (classify_error (llm_error code text)).error_kind in
      let s = store.record_provider_failure provider text kind st.store in
      let held' = laws.holds-record_provider_failure id provider text kind st.store ∙ held in
      (safe_release-count id e.ended_at s named held').0
      ∙ laws.count-record_provider_failure provider text kind st.store
  execute_call-count q e content id (raises_other r) st named held =
      let (released, free) = safe_release-count id e.ended_at st.store named held in
      rw
        (safe_release-again id e.ended_at (safe_release_slot store id e.ended_at st.store) named
          free)
        released
  execute_call-count q e content id is_cancelled st named held =
      (safe_release-count id e.ended_at st.store named held).0

  -- The slot is active before the semaphores, and not after the exception handler of `_call_once`.
  within_semaphores-count :
      (q : CallArgs) (e : Attempt) (content id : String) (w : Wait) (st : SchedulerState S)
      → str_eq id "" ≡ false
      → laws.holds id st.store ≡ true
      → laws.count
            (release_if_raised store id e.ended_at
              (within_semaphores x limits store provider model q e content id w st)).1.store
          + 1
        ≡ laws.count st.store
  unfolding release_if_raised within_semaphores get_run_sem get_provider_sem
  within_semaphores-count q e content id cancelled_at_global st named held =
      (safe_release-count id e.ended_at st.store named held).0
  within_semaphores-count q e content id cancelled_later st named held =
      (safe_release-count id e.ended_at st.store named held).0
  within_semaphores-count q e content id enters st named held =
      execute_call-count q e content id (e.chat q.system_prompt content q.budget)
        (get_run_sem limits q.run_id (get_provider_sem limits provider st)) named held

  after_acquire-count :
      (q : CallArgs) (e : Attempt) (a : Acquired) (st : SchedulerState S) (s' : S)
      → laws.is_new e.slot_id st.store ≡ true
      → store.acquire_ai_slot
          (slot_request x limits store provider model q e)
          e.slot_id
          e.acquired_at
          st.store
        ≡ (a, s')
      → laws.count
          (after_acquire x limits store provider model q e a (record st { store = s' })).1.store
        ≡ laws.count st.store
  unfolding after_acquire
  after_acquire-count q e (gets slot) st s' new got =
      let (one_more, held, named) =
        laws.acquired (slot_request x limits store provider model q e) e.slot_id e.acquired_at
          st.store s' slot new got in
      let back =
        within_semaphores-count q e (message_content x limits store provider model q) slot.id e.wait
          (record st { store = s' }) named held in
      omega arith
  after_acquire-count q e (faults f) st s' new got =
      laws.faulted (slot_request x limits store provider model q e) e.slot_id e.acquired_at st.store
        s' f got
  after_acquire-count q e interrupted st s' new got =
      laws.interrupted_at (slot_request x limits store provider model q e) e.slot_id e.acquired_at
        st.store s' got

  -- Every way in which `_call_once` can end, that is a success, a failure of any kind, an exception or
  -- a cancellation, leaves as many slots active as there were, in a store that has the laws and makes
  -- slots under new identifiers.
  pub call_once-count :
      (q : CallArgs) (e : Attempt) (st : SchedulerState S)
      → laws.is_new e.slot_id st.store ≡ true
      → laws.count (call_once x limits store provider model q e st).1.store ≡ laws.count st.store
  unfolding call_once
  call_once-count q e st new =
      let r = allow_request st.breaker provider e.asked_at in
      let st₁ = record st { breaker = run r.1 e.meanwhile } in
      let a =
        store.acquire_ai_slot (slot_request x limits store provider model q e) e.slot_id
          e.acquired_at st.store in
      if_both {A = CallEnd × SchedulerState S} (λ d. laws.count d.1.store ≡ laws.count st.store) r.0
        (λ _. after_acquire-count q e a.0 st₁ a.1 new refl) (λ _. refl)
