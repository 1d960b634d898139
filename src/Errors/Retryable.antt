-- ===== src/Errors/Retryable.antt =====
-- dev_orchestrator/v8/resilience.py: which exceptions are retryable, and what the breaker makes of them.
use async_native_ai_orchestr.Prelude.{
  ℕ, ◌<◌, String, true, false, ◌≡◌, ◌≢◌, List, map, Option, arith, ◌==◌, leb, ◌||◌,
}
use async_native_ai_orchestr.Breaker.{ErrorClassification, ProviderCircuitBreaker, record_failure}
use async_native_ai_orchestr.Breaker.Probe.{ask_all}
use async_native_ai_orchestr.Breaker.Trip.{record_failure-ask_all_blocked}
use async_native_ai_orchestr.Errors.{
  Raised, http_status_error, connect_error, read_error, write_error, remote_protocol_error,
  timeout_exception, llm_error, other_exception, classify_error, classify_status, classify_llm,
  classify_llm_status,
}

-- A backoff is positive for a retryable error and 0 for any other.
abbrev pub Fits : ErrorClassification → Type 0
Fits c =
    (c.retryable ≡ true → 0 < c.backoff_seconds) × (c.retryable ≡ false → c.backoff_seconds ≡ 0)

classify_status-Fits : (n : ℕ) (h : Option String) (t : String) → Fits (classify_status n h t)
unfolding classify_status
classify_status-Fits n h t = ground arith

classify_llm-Fits : (n : Option ℕ) (t : String) → Fits (classify_llm n t)
unfolding classify_llm classify_llm_status
classify_llm-Fits n t = ground arith

-- Whatever the exception is: its backoff is positive if it is retryable, and 0 if it is not.
pub classify_error-Fits : (e : Raised) → Fits (classify_error e)
unfolding classify_error
classify_error-Fits (http_status_error n h t) = classify_status-Fits n h t
classify_error-Fits (connect_error t) = ground arith
classify_error-Fits (read_error t) = ground arith
classify_error-Fits (write_error t) = ground arith
classify_error-Fits (remote_protocol_error t) = ground arith
classify_error-Fits (timeout_exception t) = ground arith
classify_error-Fits (llm_error n t) = classify_llm-Fits n t
classify_error-Fits (other_exception n t) = ground arith

classify_status-retryable :
    (n : ℕ) (h : Option String) (t : String)
    → (classify_status n h t).retryable ≡ ((n == 429) || leb 500 n)
unfolding classify_status
classify_status-retryable n h t = ground arith

-- A response with an HTTP status other than 429 and below 500 blocks the provider: after its failure is
-- recorded, from any state, every request is refused at whatever times they come.
pub classify_error-ask_all_blocked :
    (cb : ProviderCircuitBreaker) (p e : String) (status : ℕ) (header : Option String)
    (text : String) (now jitter : ℕ) (ts : List ℕ)
    → status < 500
    → status ≢ 429
    → ask_all
        (record_failure cb p e (classify_error (http_status_error status header text)) now jitter).1
        p
        ts
      ≡ map (λ _. false) ts
unfolding classify_error
classify_error-ask_all_blocked cb p e status header text now jitter ts below other =
    record_failure-ask_all_blocked cb p e (classify_status status header text) now jitter ts
      (ground (arith, classify_status-retryable status header text))
