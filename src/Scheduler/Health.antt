-- ===== src/Scheduler/Health.antt =====
-- dev_orchestrator/v8/scheduler.py: what a call leaves in the circuit breaker.
use async_native_ai_orchestr.Prelude.{
  ℕ, String, ◌≡◌, refl, ap, Bool, true, false, List, All, if_both,
}
use async_native_ai_orchestr.Errors.{classify_error, other_exception}
use async_native_ai_orchestr.Models.Status.{healthy, half_open}
use async_native_ai_orchestr.Breaker.{
  ProviderCircuitBreaker, allow_request, record_failure, ensure_state, in_flight, succeed, Call,
  run,
}
use async_native_ai_orchestr.Breaker.Probe.{
  Quiet, ask_free, run-IsHalfOpen, run-allow_request_refused,
}
use async_native_ai_orchestr.Breaker.Trip.{record_failure-run-allow_request, record_success-state}
use async_native_ai_orchestr.Scheduler.{
  AiSchedulerLimits, CallArgs, StoreFault, Acquired, gets, faults, interrupted, SlotStore,
  Externals, ChatOutcome, answers, raises_llm_error, raises_other, is_cancelled, Wait,
  cancelled_at_global, cancelled_later, enters, Attempt, SchedulerState, CallEnd, returns, raises,
  cancelled, failure, get_run_sem, get_provider_sem,
}
use async_native_ai_orchestr.Scheduler.Calls.{
  execute_call, release_if_raised, within_semaphores, after_acquire, call_once, message_content,
  slot_request,
}

-- The result of a call that an open circuit refuses.
abbrev pub refusal : CallArgs × Attempt → CallEnd
refusal (q, e) = returns (failure q e.agent_run_id 0 "circuit breaker open" "circuit_open" true)

-- An exception or a cancellation.
abbrev pub has_raised : CallEnd → Bool
has_raised (returns r) = false
has_raised (raises r) = true
has_raised cancelled = true

abbrev pub is_success : CallEnd → Bool
is_success (returns r) = r.is_ok
is_success (raises r) = false
is_success cancelled = false

module _ {S : Type 0} (x : Externals) (limits : AiSchedulerLimits) (store : SlotStore S)
    (provider model : String) where
  call_once-refused :
      (q : CallArgs) (e : Attempt) (st : SchedulerState S)
      → (allow_request st.breaker provider e.asked_at).0 ≡ false
      → call_once x limits store provider model q e st
        ≡ (refusal (q, e), record st { breaker = (allow_request st.breaker provider e.asked_at).1 })
  unfolding call_once
  call_once-refused q e st refused = rw refused refl

  -- Every attempt in a later state is refused: one whose breaker is the given one after calls that
  -- record no outcome for the provider and do not reset it.
  abbrev IsRefusedAfter : ProviderCircuitBreaker → Type 0
  IsRefusedAfter cb =
      (cs : List Call) (q : CallArgs) (e : Attempt) (u : SchedulerState S)
      → All (Quiet provider) cs
      → u.breaker ≡ run cb cs
      → (call_once x limits store provider model q e u).0 ≡ refusal (q, e)

  refused_after :
      (cb : ProviderCircuitBreaker)
      → ((cs : List Call) (later : ℕ)
          → All (Quiet provider) cs
          → (allow_request (run cb cs) provider later).0 ≡ false)
      → IsRefusedAfter cb
  refused_after cb h cs q e u quiet same =
      let refused : (allow_request u.breaker provider e.asked_at).0 ≡ false =
        rw same (h cs e.asked_at quiet) in
      ap (λ d. d.0) (call_once-refused q e u refused)

  -- A call that raises has recorded nothing in the breaker after it asked for leave.
  execute_call-breaker :
      (q : CallArgs) (e : Attempt) (content id : String) (o : ChatOutcome) (st : SchedulerState S)
      → has_raised
          (release_if_raised store id e.ended_at
            (execute_call x limits store provider model q e content id o st)).0
        ≡ true
      → (release_if_raised store id e.ended_at
          (execute_call x limits store provider model q e content id o st)).1.breaker
        ≡ st.breaker
  unfolding release_if_raised execute_call
  execute_call-breaker q e content id (answers raw) st h = absurd (cc)
  execute_call-breaker q e content id (raises_llm_error code text) st h = absurd (cc)
  execute_call-breaker q e content id (raises_other r) st h = refl
  execute_call-breaker q e content id is_cancelled st h = refl

  within_semaphores-breaker :
      (q : CallArgs) (e : Attempt) (content id : String) (w : Wait) (st : SchedulerState S)
      → has_raised
          (release_if_raised store id e.ended_at
            (within_semaphores x limits store provider model q e content id w st)).0
        ≡ true
      → (release_if_raised store id e.ended_at
          (within_semaphores x limits store provider model q e content id w st)).1.breaker
        ≡ st.breaker
  unfolding release_if_raised within_semaphores get_run_sem get_provider_sem
  within_semaphores-breaker q e content id cancelled_at_global st h = refl
  within_semaphores-breaker q e content id cancelled_later st h = refl
  within_semaphores-breaker q e content id enters st h =
      execute_call-breaker q e content id (e.chat q.system_prompt content q.budget)
        (get_run_sem limits q.run_id (get_provider_sem limits provider st)) h

  after_acquire-breaker :
      (q : CallArgs) (e : Attempt) (a : Acquired) (st : SchedulerState S)
      → has_raised (after_acquire x limits store provider model q e a st).0 ≡ true
      → (after_acquire x limits store provider model q e a st).1.breaker ≡ st.breaker
  unfolding after_acquire
  after_acquire-breaker q e (gets slot) st h =
      within_semaphores-breaker q e (message_content x limits store provider model q) slot.id e.wait
        st h
  after_acquire-breaker q e (faults f) st h = absurd (cc)
  after_acquire-breaker q e interrupted st h = refl

  call_once-breaker :
      (q : CallArgs) (e : Attempt) (st : SchedulerState S)
      → has_raised (call_once x limits store provider model q e st).0 ≡ true
      → (call_once x limits store provider model q e st).1.breaker
        ≡ run (allow_request st.breaker provider e.asked_at).1 e.meanwhile
  unfolding call_once
  call_once-breaker q e st =
      let r = allow_request st.breaker provider e.asked_at in
      let a =
        store.acquire_ai_slot (slot_request x limits store provider model q e) e.slot_id
          e.acquired_at st.store in
      if_both {A = CallEnd × SchedulerState S}
        (λ d. has_raised d.0 ≡ true → d.1.breaker ≡ run r.1 e.meanwhile) r.0
        (λ _.
          after_acquire-breaker q e a.0 (record st { breaker = run r.1 e.meanwhile; store = a.1 }))
        (λ _ h. absurd (cc))

  -- A probe of a half-open provider that ends by an exception other than `LLMError`, or by a
  -- cancellation, locks the provider: while no other call records an outcome for it, neither during the
  -- probe nor after it, and none resets it, every later call is refused with `circuit_open`, whoever
  -- makes it, at whatever time, and whatever else happens in the scheduler and its store.
  pub call_once-locks :
      (q : CallArgs) (e : Attempt) (st : SchedulerState S) (cs : List Call) (later : CallArgs)
      (later_attempt : Attempt) (u : SchedulerState S)
      → (ensure_state st.breaker provider).status ≡ half_open
      → in_flight provider st.breaker ≡ false
      → All (Quiet provider) e.meanwhile
      → has_raised (call_once x limits store provider model q e st).0 ≡ true
      → All (Quiet provider) cs
      → u.breaker ≡ run (call_once x limits store provider model q e st).1.breaker cs
      → (call_once x limits store provider model later later_attempt u).0
        ≡ refusal (later, later_attempt)
  call_once-locks q e st cs later later_attempt u half free quiet raised calm same =
      let (_, busy) = ask_free st.breaker provider e.asked_at (half, free) in
      let still =
        run-IsHalfOpen (allow_request st.breaker provider e.asked_at).1 provider e.meanwhile quiet
          busy in
      let b = run (allow_request st.breaker provider e.asked_at).1 e.meanwhile in
      refused_after b
        (λ cs t quiet'. run-allow_request_refused b provider cs t still.0 still.1 quiet') cs later
        later_attempt u calm (rw (call_once-breaker q e st raised) at same)

  call_once-faulted :
      (q : CallArgs) (e : Attempt) (st : SchedulerState S) (f : StoreFault) (s' : S)
      → (allow_request st.breaker provider e.asked_at).0 ≡ true
      → store.acquire_ai_slot
          (slot_request x limits store provider model q e)
          e.slot_id
          e.acquired_at
          st.store
        ≡ (faults f, s')
      → call_once x limits store provider model q e st ≡ (
        returns (failure q e.agent_run_id 0 f.text "unknown" false),
        record st {
          breaker =
              (record_failure
                (run (allow_request st.breaker provider e.asked_at).1 e.meanwhile)
                provider
                f.text
                (classify_error (other_exception f.name f.text))
                e.acquired_at
                e.jitter).1;
          store = s';
        },
      )
  unfolding call_once after_acquire classify_error
  call_once-faulted q e st f s' allowed fault = rw (allowed, fault) refl

  -- When the store raises instead of giving a slot, as the PostgreSQL store does after the waiting time,
  -- the call fails without a retry and the provider is blocked, whatever other calls did to the breaker
  -- meanwhile: until a call in flight records an outcome for the provider or it is reset, every later
  -- call is refused with `circuit_open`, at whatever time it comes.
  pub call_once-blocks :
      (q : CallArgs) (e : Attempt) (st : SchedulerState S) (f : StoreFault) (s' : S)
      (cs : List Call) (later : CallArgs) (later_attempt : Attempt) (u : SchedulerState S)
      → (allow_request st.breaker provider e.asked_at).0 ≡ true
      → store.acquire_ai_slot
          (slot_request x limits store provider model q e)
          e.slot_id
          e.acquired_at
          st.store
        ≡ (faults f, s')
      → All (Quiet provider) cs
      → u.breaker ≡ run (call_once x limits store provider model q e st).1.breaker cs
      → ((call_once x limits store provider model q e st).0
          ≡ returns (failure q e.agent_run_id 0 f.text "unknown" false))
        × ((call_once x limits store provider model later later_attempt u).0
            ≡ refusal (later, later_attempt))
  unfolding classify_error
  call_once-blocks q e st f s' cs later later_attempt u allowed fault calm after =
      let same = call_once-faulted q e st f s' allowed fault in
      let b = run (allow_request st.breaker provider e.asked_at).1 e.meanwhile in
      let c = classify_error (other_exception f.name f.text) in
      (
        ap (λ d. d.0) same,
        refused_after (record_failure b provider f.text c e.acquired_at e.jitter).1
            (λ cs t quiet.
              record_failure-run-allow_request b provider f.text c e.acquired_at e.jitter cs t refl
                quiet)
            cs later later_attempt u calm (rw (ap (λ d. d.1.breaker) same) at after),
      )

  -- The provider is healthy, and its streak of failures is over.
  abbrev pub IsHealthy : SchedulerState S → Type 0
  IsHealthy st =
      ((ensure_state st.breaker provider).status ≡ healthy)
      × ((ensure_state st.breaker provider).failure_streak ≡ 0)

  execute_call-IsHealthy :
      (q : CallArgs) (e : Attempt) (content id : String) (o : ChatOutcome) (st : SchedulerState S)
      → let d =
          release_if_raised store id e.ended_at
            (execute_call x limits store provider model q e content id o st) in
        is_success d.0 ≡ true → IsHealthy d.1
  unfolding release_if_raised execute_call succeed
  execute_call-IsHealthy q e content id (answers raw) st h =
      let state = record_success-state st.breaker provider e.ended_at in
      (ap (λ s. s.status) state, ap (λ s. s.failure_streak) state)
  execute_call-IsHealthy q e content id (raises_llm_error code text) st h = absurd (cc)
  execute_call-IsHealthy q e content id (raises_other r) st h = absurd (cc)
  execute_call-IsHealthy q e content id is_cancelled st h = absurd (cc)

  within_semaphores-IsHealthy :
      (q : CallArgs) (e : Attempt) (content id : String) (w : Wait) (st : SchedulerState S)
      → let d =
          release_if_raised store id e.ended_at
            (within_semaphores x limits store provider model q e content id w st) in
        is_success d.0 ≡ true → IsHealthy d.1
  unfolding release_if_raised within_semaphores
  within_semaphores-IsHealthy q e content id cancelled_at_global st h = absurd (cc)
  within_semaphores-IsHealthy q e content id cancelled_later st h = absurd (cc)
  within_semaphores-IsHealthy q e content id enters st h =
      execute_call-IsHealthy q e content id (e.chat q.system_prompt content q.budget)
        (get_run_sem limits q.run_id (get_provider_sem limits provider st)) h

  after_acquire-IsHealthy :
      (q : CallArgs) (e : Attempt) (a : Acquired) (st : SchedulerState S)
      → let d = after_acquire x limits store provider model q e a st in
        is_success d.0 ≡ true → IsHealthy d.1
  unfolding after_acquire
  after_acquire-IsHealthy q e (gets slot) st h =
      within_semaphores-IsHealthy q e (message_content x limits store provider model q) slot.id
        e.wait st h
  after_acquire-IsHealthy q e (faults f) st h = absurd (cc)
  after_acquire-IsHealthy q e interrupted st h = absurd (cc)

  -- A call that succeeds leaves its provider healthy and without a streak of failures, whatever the
  -- breaker and the store held before and whether or not the answer keeps its contract.
  pub call_once-IsHealthy :
      (q : CallArgs) (e : Attempt) (st : SchedulerState S)
      → let d = call_once x limits store provider model q e st in
        is_success d.0 ≡ true → IsHealthy d.1
  unfolding call_once
  call_once-IsHealthy q e st =
      let r = allow_request st.breaker provider e.asked_at in
      let a =
        store.acquire_ai_slot (slot_request x limits store provider model q e) e.slot_id
          e.acquired_at st.store in
      if_both {A = CallEnd × SchedulerState S} (λ d. is_success d.0 ≡ true → IsHealthy d.1) r.0
        (λ _.
          after_acquire-IsHealthy q e a.0
            (record st { breaker = run r.1 e.meanwhile; store = a.1 }))
        (λ _ h. absurd (cc))
