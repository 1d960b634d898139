-- ===== src/Scheduler/Calls.antt =====
-- dev_orchestrator/v8/scheduler.py: `call`, `_call_once` and `_execute_call`.
use async_native_ai_orchestr.Prelude.{
  ℕ, zero, suc, ◌+◌, ◌*◌, String, Bool, true, false, not, ◌&&◌, [], Option, none, some, ltb, str_eq,
  if◌then◌else◌,
}
use async_native_ai_orchestr.Json.{Json, null, bool, num, str, arr, obj}
use async_native_ai_orchestr.Text.{count_chars}
use async_native_ai_orchestr.Errors.{llm_error, other_exception, classify_error}
use async_native_ai_orchestr.Breaker.{allow_request, record_success, record_failure, run}
use async_native_ai_orchestr.Contracts.{ContractValidation, validate_and_classify}
use async_native_ai_orchestr.Store.Records.{AgentRun}
use async_native_ai_orchestr.Postgres.Slots.{SlotRequest}
use async_native_ai_orchestr.Scheduler.{
  AiSchedulerLimits, CallArgs, AiCallResult, Acquired, gets, faults, interrupted, SlotStore,
  Externals, ChatOutcome, answers, raises_llm_error, raises_other, is_cancelled, Wait,
  cancelled_at_global, cancelled_later, enters, Attempt, SchedulerState, CallEnd, returns, raises,
  cancelled, failure, get_provider_sem, get_run_sem, safe_release_slot,
}
use async_native_ai_orchestr.Scheduler.Payload.{estimate_chars, truncate_payload}

abbrev pub kind_of : AiCallResult → String → Bool
kind_of r kind = elim r.error_kind [ none ↦ false | some k ↦ str_eq k kind ]

-- Whether the loop of `call` goes on after this result, while attempts are left.
abbrev pub tries_again : CallEnd → Bool
tries_again (returns r) = not r.is_ok && (r.retryable && not (kind_of r "circuit_open"))
tries_again (raises r) = false
tries_again cancelled = false

abbrev pub passed : String → ContractValidation
passed task_kind = record { is_ok = true; errors = []; contract_type = task_kind }

module _ {S : Type 0} (store : SlotStore S) where
  -- `except BaseException: await self._safe_release_slot(store, slot_id); raise`
  unfoldable pub release_if_raised :
      (slot_id : String) → ℕ → CallEnd × SchedulerState S → CallEnd × SchedulerState S
  release_if_raised slot_id now (returns r, st) = (returns r, st)
  release_if_raised slot_id now (raises r, st) =
      (raises r, record st { store = safe_release_slot store slot_id now st.store })
  release_if_raised slot_id now (cancelled, st) =
      (cancelled, record st { store = safe_release_slot store slot_id now st.store })

module _ {S : Type 0} (x : Externals) (limits : AiSchedulerLimits) (store : SlotStore S)
    (provider model : String) where
  -- The payload that is sent, which is the content of the one message.
  unfoldable pub message_content : CallArgs → String
  message_content q =
      let payload = obj q.user_payload in
      let max_input = q.budget.max_input_chars in
      x.stable_json (
        if ltb max_input (estimate_chars x.show payload)
        then truncate_payload x.stable_json payload max_input
        else payload)

  -- An answer that is no JSON object is not validated.
  abbrev pub validate_parsed : String → Option Json → ContractValidation
  validate_parsed task_kind none = passed task_kind
  validate_parsed task_kind (some (obj fields)) =
      validate_and_classify x.model_errors x.repr task_kind fields
  validate_parsed task_kind (some (arr xs)) = passed task_kind
  validate_parsed task_kind (some (str s)) = passed task_kind
  validate_parsed task_kind (some (num n)) = passed task_kind
  validate_parsed task_kind (some (bool b)) = passed task_kind
  validate_parsed task_kind (some null) = passed task_kind

  abbrev pub agent_run_of :
      CallArgs → Attempt → (content raw : String) → ContractValidation → AgentRun
  agent_run_of q e content raw v = record {
    id = e.agent_run_id;
    tenant_id = q.tenant_id;
    run_id = q.run_id;
    job_id = q.job_id;
    role = q.role;
    task_kind = q.task_kind;
    model = model;
    status = "ok";
    elapsed_ms = e.elapsed_ms;
    input_chars = count_chars q.system_prompt + count_chars content;
    output_chars = count_chars raw;
    error = "";
    contract_ok = some v.is_ok;
    contract_errors = v.errors;
    created_at = e.ended_at;
  }

  abbrev pub success : CallArgs → Attempt → (raw : String) → ContractValidation → AiCallResult
  success q e raw v = record {
    is_ok = true;
    agent_run_id = e.agent_run_id;
    role = q.role;
    job_id = q.job_id;
    task_kind = q.task_kind;
    model = model;
    elapsed_ms = e.elapsed_ms;
    raw_response = raw;
    error = none;
    error_kind = none;
    retryable = false;
    contract_validation = some v;
  }

  -- `_execute_call`, by what `chat` does. A cancellation is no `Exception`, so nothing is released here.
  unfoldable pub execute_call :
      CallArgs
      → Attempt
      → (content slot_id : String) → ChatOutcome
      → SchedulerState S
      → CallEnd × SchedulerState S
  execute_call q e content slot_id (answers raw) st =
      let breaker' = (record_success st.breaker provider e.ended_at).1 in
      let s₁ = store.record_provider_success provider st.store in
      let s₂ = safe_release_slot store slot_id e.ended_at s₁ in
      let v = validate_parsed q.task_kind (x.loads raw) in
      let s₃ = store.record_agent_run (agent_run_of q e content raw v) s₂ in
      (returns (success q e raw v), record st { breaker = breaker'; store = s₃ })
  execute_call q e content slot_id (raises_llm_error status_code text) st =
      let c = classify_error (llm_error status_code text) in
      let breaker' = (record_failure st.breaker provider text c e.ended_at e.jitter).1 in
      let s₁ = store.record_provider_failure provider text c.error_kind st.store in
      let s₂ = safe_release_slot store slot_id e.ended_at s₁ in
      (
        returns (failure q e.agent_run_id e.elapsed_ms text c.error_kind c.retryable),
        record st { breaker = breaker'; store = s₂ },
      )
  execute_call q e content slot_id (raises_other r) st =
      (raises r, record st { store = safe_release_slot store slot_id e.ended_at st.store })
  execute_call q e content slot_id is_cancelled st = (cancelled, st)

  -- The three semaphores, and the call within them.
  unfoldable pub within_semaphores :
      CallArgs
      → Attempt
      → (content slot_id : String) → Wait
      → SchedulerState S
      → CallEnd × SchedulerState S
  within_semaphores q e content slot_id cancelled_at_global st = (cancelled, st)
  within_semaphores q e content slot_id cancelled_later st =
      (cancelled, get_run_sem limits q.run_id (get_provider_sem limits provider st))
  within_semaphores q e content slot_id enters st =
      execute_call q e content slot_id (e.chat q.system_prompt content q.budget)
        (get_run_sem limits q.run_id (get_provider_sem limits provider st))

  abbrev pub slot_request : CallArgs → Attempt → SlotRequest
  slot_request q e = record {
    tenant_id = q.tenant_id;
    run_id = q.run_id;
    provider = provider;
    agent_run_id = e.agent_run_id;
    task_kind = q.task_kind;
    provider_limit = limits.provider_concurrency;
    run_limit = limits.run_concurrency;
    wait_seconds = q.budget.timeout_seconds;
    lease_seconds = q.budget.timeout_seconds * 2;
  }

  -- What follows on `acquire_ai_slot`.
  unfoldable pub after_acquire :
      CallArgs → Attempt → Acquired → SchedulerState S → CallEnd × SchedulerState S
  after_acquire q e (gets slot) st =
      release_if_raised store slot.id e.ended_at
        (within_semaphores q e (message_content q) slot.id e.wait st)
  after_acquire q e (faults f) st =
      let c = classify_error (other_exception f.name f.text) in
      let breaker' = (record_failure st.breaker provider f.text c e.acquired_at e.jitter).1 in
      (
        returns (failure q e.agent_run_id 0 f.text c.error_kind c.retryable),
        record st { breaker = breaker' },
      )
  after_acquire q e interrupted st = (cancelled, st)

  -- What others do to the breaker while the call is in flight comes before its outcome is recorded.
  unfoldable pub call_once : CallArgs → Attempt → SchedulerState S → CallEnd × SchedulerState S
  call_once q e st =
      let (allowed, breaker') = allow_request st.breaker provider e.asked_at in
      let st₁ = record st { breaker = breaker' } in
      let (acquired, s') =
        store.acquire_ai_slot (slot_request q e) e.slot_id e.acquired_at st₁.store in
      if allowed
      then after_acquire q e acquired
          (record st₁ { breaker = run breaker' e.meanwhile; store = s' })
      else (returns (failure q e.agent_run_id 0 "circuit breaker open" "circuit_open" true), st₁)

  -- The loop of `call`, with `left` retries after the attempt of number `n`.
  unfoldable pub call_from :
      CallArgs → (ℕ → Attempt) → (left n : ℕ) → SchedulerState S → CallEnd × SchedulerState S
  call_from q attempts zero n st = call_once q (attempts n) st
  call_from q attempts (suc left) n st =
      let (done, st') = call_once q (attempts n) st in
      let rest = call_from q attempts left (n + 1) st' in
      if tries_again done then rest else (done, st')

  unfoldable pub call : CallArgs → (ℕ → Attempt) → SchedulerState S → CallEnd × SchedulerState S
  call q attempts st = call_from q attempts limits.scheduler_max_retries 0 st
