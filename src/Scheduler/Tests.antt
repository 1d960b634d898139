-- ===== src/Scheduler/Tests.antt =====
-- dev_orchestrator/v8/scheduler.py: examples, with the in-memory store.
use async_native_ai_orchestr.Prelude.{
  ◌≡◌, ◌≢◌, eq_iff, refl, false, List, [], ◌∷◌, none, arith, All,
}
use async_native_ai_orchestr.Prelude.Dict.{get, put}
use async_native_ai_orchestr.Json.{str, end, field}
use async_native_ai_orchestr.Models.Status.{half_open}
use async_native_ai_orchestr.Breaker.{
  ProviderCircuitBreaker, ProviderState, init, save, fresh_state, allow_request, ensure_state,
  admit, state_key, Call, succeeds, run,
}
use async_native_ai_orchestr.Breaker.Probe.{Quiet}
use async_native_ai_orchestr.Store.Memory.{InMemoryStore, empty}
use async_native_ai_orchestr.Scheduler.{
  AiSchedulerLimits, CallArgs, StoreFault, faults, SlotStore, Externals, ChatOutcome, answers,
  raises_llm_error, is_cancelled, enters, Attempt, SchedulerState, returns, failure,
}
use async_native_ai_orchestr.Scheduler.Calls.{
  call_once, call, after_acquire, within_semaphores, execute_call, release_if_raised,
}
use async_native_ai_orchestr.Store.Shelves.{acquire_ai_slot}
use async_native_ai_orchestr.Scheduler.Retry.{Answers, call-Answers}
use async_native_ai_orchestr.Scheduler.Release.{call_once-count}
use async_native_ai_orchestr.Scheduler.Memory.{memory_store, memory_laws}
use async_native_ai_orchestr.Scheduler.Health.{refusal, call_once-locks, call_once-blocks}

abbrev externals : Externals
externals = record {
  stable_json = λ v. "{}";
  show = λ v. "1";
  loads = λ s. none;
  model_errors = λ m fs. [];
  repr = λ s. s;
}

abbrev limits : AiSchedulerLimits
limits = record {
  global_concurrency = 6;
  provider_concurrency = 4;
  run_concurrency = 3;
  scheduler_max_retries = 2;
}

abbrev question : CallArgs
question = record {
  run_id = "r";
  role = "backend";
  job_id = "j";
  task_kind = "plan";
  system_prompt = "p";
  user_payload = field "a" (str "b") end;
  budget = record {
    max_input_chars = 100;
    max_output_tokens = 10;
    timeout_seconds = 1;
    reasoning_effort = "high";
    retry_attempts = 3;
  };
  tenant_id = "t";
}

abbrev attempt : ChatOutcome → Attempt
attempt o = record {
  agent_run_id = "a";
  slot_id = "s";
  asked_at = 10;
  acquired_at = 11;
  meanwhile = [];
  wait = enters;
  chat = λ p c b. o;
  ended_at = 12;
  jitter = 1000;
  elapsed_ms = 1;
}

-- Every attempt runs into the time-out of the client.
abbrev times_out : Attempt
times_out = attempt (raises_llm_error none "Timed out")

abbrev start : ProviderCircuitBreaker → SchedulerState InMemoryStore
start cb = record { breaker = cb; provider_sems = []; run_sems = []; store = empty }

abbrev calm : SchedulerState InMemoryStore
calm = start (init 5 30)

call-Answers_example :
    Answers externals limits memory_store "openai" "m" question
      (λ n. times_out)
      2
      0
      calm
      (call externals limits memory_store "openai" "m" question (λ n. times_out) calm)
call-Answers_example =
    call-Answers externals limits memory_store "openai" "m" question (λ n. times_out) calm

call_once-count_example :
    memory_laws.count
      (call_once externals limits memory_store "openai" "m" question
        (attempt is_cancelled)
        calm).1.store
    ≡ 0
unfolding get
call_once-count_example =
    call_once-count externals limits memory_store memory_laws "openai" "m" question
      (attempt is_cancelled) calm refl

-- The circuit was open, and the recovery time is over.
abbrev half_open_state : ProviderState
half_open_state = record (fresh_state "openai") { status = half_open }

abbrev probing : SchedulerState InMemoryStore
probing = start (save (init 5 30) "openai" half_open_state)

-- Later, a call for another provider has succeeded.
abbrev elsewhere : List Call
elsewhere = succeeds "anthropic" 20 ∷ []

abbrev later : SchedulerState InMemoryStore → SchedulerState InMemoryStore
later st = record st { breaker = run st.breaker elsewhere }

keys_differ : state_key "anthropic" ≢ state_key "openai"
keys_differ e = ground (arith, eq_iff "anthropic" "openai")

elsewhere-Quiet : All (Quiet "openai") elsewhere
elsewhere-Quiet = (λ e. keys_differ e, tt)

abbrev long_after : Attempt
long_after = record (attempt (answers "[]")) { asked_at = 1000000 }

call_once-locks_example :
    let d =
      call_once externals limits memory_store "openai" "m" question
        (attempt is_cancelled)
        probing in
    (call_once externals limits memory_store "openai" "m" question long_after (later d.1)).0
    ≡ refusal (question, long_after)
unfolding call_once after_acquire within_semaphores execute_call release_if_raised allow_request
    ensure_state save admit init get put acquire_ai_slot
call_once-locks_example =
    call_once-locks externals limits memory_store "openai" "m" question (attempt is_cancelled)
      probing elsewhere question long_after
      (later
        (call_once externals limits memory_store "openai" "m" question (attempt is_cancelled)
          probing).1)
      refl refl tt refl elsewhere-Quiet refl

-- A store that has no free slot for as long as the caller waits.
abbrev timeout_fault : StoreFault
timeout_fault = record { name = "StoreError"; text = "AI concurrency slot wait timed out" }

abbrev full_store : SlotStore InMemoryStore
full_store = record memory_store { acquire_ai_slot = λ q id now s. (faults timeout_fault, s) }

call_once-blocks_example :
    let d =
      call_once externals limits full_store "openai" "m" question (attempt is_cancelled) calm in
    (d.0 ≡ returns (failure question "a" 0 "AI concurrency slot wait timed out" "unknown" false))
    × ((call_once externals limits full_store "openai" "m" question long_after (later d.1)).0
        ≡ refusal (question, long_after))
unfolding allow_request ensure_state admit init get
call_once-blocks_example =
    call_once-blocks externals limits full_store "openai" "m" question (attempt is_cancelled) calm
      timeout_fault empty elsewhere question long_after
      (later
        (call_once externals limits full_store "openai" "m" question (attempt is_cancelled) calm).1)
      refl refl elsewhere-Quiet refl
