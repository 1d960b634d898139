-- ===== src/Scheduler.antt =====
-- dev_orchestrator/v8/scheduler.py: `AsyncAIScheduler`, with its records of dev_orchestrator/v8/models.py.
-- The store and its slots are the interface `SlotStore`. The language model client, the clocks, the jitter
-- and a cancellation are given for each attempt. A semaphore is given by its size, and waiting for one
-- changes no state. The heartbeat callback, whose errors are caught, changes nothing here.
pub mod Payload
pub mod Calls
pub mod Retry
pub mod Release
pub mod Memory
pub mod Health
mod Tests
use async_native_ai_orchestr.Prelude.{
  ℕ, zero, suc, ◌+◌, ◌-◌, ◌*◌, String, Bool, true, false, not, ◌&&◌, ◌||◌, List, [], ◌∷◌, Option,
  none, some, ltb, leb, str_eq, keep, any, length, if◌then◌else◌,
}
use async_native_ai_orchestr.Prelude.Dict.{Dict, get, put}
use async_native_ai_orchestr.Json.{Json, Fields, obj}
use async_native_ai_orchestr.Text.{count_chars}
use async_native_ai_orchestr.Errors.{Raised, llm_error, other_exception, classify_error}
use async_native_ai_orchestr.Breaker.{
  ErrorClassification, ProviderCircuitBreaker, Call, allow_request, record_success, record_failure,
}
use async_native_ai_orchestr.Contracts.{ContractValidation, validate_and_classify}
use async_native_ai_orchestr.Store.Records.{AiSlot, AgentRun}
use async_native_ai_orchestr.Postgres.Slots.{SlotRequest}

pub record AiSchedulerLimits : Type 0 where
  pub global_concurrency : ℕ
  pub provider_concurrency : ℕ
  pub run_concurrency : ℕ
  pub scheduler_max_retries : ℕ

-- The fields of `AITaskBudget` that the scheduler reads.
pub record AiTaskBudget : Type 0 where
  pub max_input_chars : ℕ
  pub max_output_tokens : ℕ
  pub timeout_seconds : ℕ
  pub reasoning_effort : String
  pub retry_attempts : ℕ

-- The keyword arguments of `call`.
pub record CallArgs : Type 0 where
  pub run_id : String
  pub role : String
  pub job_id : String
  pub task_kind : String
  pub system_prompt : String
  pub user_payload : Fields
  pub budget : AiTaskBudget
  pub tenant_id : String

-- `AICallResult`, whose fields `parsed_response` and `payload_budget` keep their defaults.
pub record AiCallResult : Type 0 where
  pub is_ok : Bool
  pub agent_run_id : String
  pub role : String
  pub job_id : String
  pub task_kind : String
  pub model : String
  pub elapsed_ms : ℕ
  pub raw_response : String
  pub error : Option String
  pub error_kind : Option String
  pub retryable : Bool
  pub contract_validation : Option ContractValidation

-- An exception of the store: the name of its type and its text.
pub record StoreFault : Type 0 where
  pub name : String
  pub text : String

pub data Acquired : Type 0 where
  gets : AiSlot → Acquired
  faults : StoreFault → Acquired
  -- Cancelled while it waits, which is no `Exception`.
  interrupted : Acquired

-- The methods of the store that the scheduler calls, where `S` is the store's state. The identifier is
-- that of a slot to be made. The scheduler swallows every exception of the last four.
pub record SlotStore (S : Type 0) : Type 0 where
  pub acquire_ai_slot : SlotRequest → (slot_id : String) → ℕ → S → Acquired × S
  pub release_ai_slot : (slot_id : String) → ℕ → S → S
  pub record_agent_run : AgentRun → S → S
  pub record_provider_success : (provider : String) → S → S
  pub record_provider_failure : (provider error error_kind : String) → S → S

-- What the scheduler takes from elsewhere: `json.dumps` as `stable_json` calls it, `str` of a value that is
-- no text, list or object, `json.loads`, pydantic's messages for a contract, and `repr`.
pub record Externals : Type 0 where
  pub stable_json : Json → String
  pub show : Json → String
  pub loads : String → Option Json
  pub model_errors : String → Fields → List String
  pub repr : String → String

-- What `chat` does: it answers, raises `LLMError` or another exception, or is cancelled.
pub data ChatOutcome : Type 0 where
  answers : (raw_response : String) → ChatOutcome
  raises_llm_error : (status_code : Option ℕ) (text : String) → ChatOutcome
  raises_other : Raised → ChatOutcome
  is_cancelled : ChatOutcome

-- How the wait for the three semaphores ends.
pub data Wait : Type 0 where
  cancelled_at_global : Wait
  cancelled_later : Wait
  enters : Wait

-- What one attempt meets; `meanwhile` are the calls that others make of the breaker between its question to
-- the breaker and the outcome that it records there.
pub record Attempt : Type 0 where
  pub agent_run_id : String
  pub slot_id : String
  pub asked_at : ℕ
  pub acquired_at : ℕ
  pub meanwhile : List Call
  pub wait : Wait
  pub chat : (system_prompt content : String) → AiTaskBudget → ChatOutcome
  pub ended_at : ℕ
  pub jitter : ℕ
  pub elapsed_ms : ℕ

-- The scheduler's own state, the breaker's and the store's.
pub record SchedulerState (S : Type 0) : Type 0 where
  pub breaker : ProviderCircuitBreaker
  pub provider_sems : Dict ℕ
  pub run_sems : Dict ℕ
  pub store : S

-- How a call ends.
pub data CallEnd : Type 0 where
  returns : AiCallResult → CallEnd
  raises : Raised → CallEnd
  cancelled : CallEnd

abbrev pub failure :
    CallArgs
    → (agent_run_id : String) → (elapsed_ms : ℕ) → (error error_kind : String) → (retryable : Bool)
    → AiCallResult
failure q agent_run_id elapsed_ms error error_kind retryable = record {
  is_ok = false;
  agent_run_id = agent_run_id;
  role = q.role;
  job_id = q.job_id;
  task_kind = q.task_kind;
  model = "";
  elapsed_ms = elapsed_ms;
  raw_response = "";
  error = some error;
  error_kind = some error_kind;
  retryable = retryable;
  contract_validation = none;
}

-- A semaphore that is there is kept, and a new one has the size of the limit.
abbrev pub get_sem : String → ℕ → Dict ℕ → Dict ℕ
get_sem key size sems = elim (get key sems) [ none ↦ put key size sems | some n ↦ sems ]

module _ {S : Type 0} where
  unfoldable pub get_provider_sem : AiSchedulerLimits → String → SchedulerState S → SchedulerState S
  get_provider_sem limits provider st = record st {
    provider_sems = get_sem provider limits.provider_concurrency st.provider_sems;
  }

  unfoldable pub get_run_sem : AiSchedulerLimits → String → SchedulerState S → SchedulerState S
  get_run_sem limits run_id st = record st {
    run_sems = get_sem run_id limits.run_concurrency st.run_sems;
  }

  unfoldable pub evict_stale_run_sems : List String → SchedulerState S → SchedulerState S
  evict_stale_run_sems active_run_ids st = record st {
    run_sems = keep (λ e. any (str_eq e.0) active_run_ids) st.run_sems;
  }

  unfoldable pub close : SchedulerState S → SchedulerState S
  close st = record st { provider_sems = []; run_sems = [] }

  -- `_safe_release_slot`
  unfoldable pub safe_release_slot : SlotStore S → String → ℕ → S → S
  safe_release_slot store slot_id now s =
      if str_eq slot_id "" then s else store.release_ai_slot slot_id now s

-- `SkipAIScheduler.call`
abbrev pub skip_call : CallArgs → (agent_run_id : String) → AiCallResult
skip_call q agent_run_id = failure q agent_run_id 0 "ai_skipped" "ai_skipped" false
