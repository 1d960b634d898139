-- ===== src/Breaker/Tests.antt =====
-- dev_orchestrator/v8/resilience.py: tests and examples.
use async_native_ai_orchestr.Prelude.{
  ◌+◌, ◌*◌, String, ◌≤◌, ◌≡◌, ◌≢◌, refl, sym, true, false, List, [], ◌∷◌, arith, leb, eq_iff,
  if◌then◌else◌,
}
use async_native_ai_orchestr.Prelude.Dict.{get, put}
use async_native_ai_orchestr.Models.Status.{ProviderHealthStatus}
use async_native_ai_orchestr.Breaker.{
  ErrorClassification, ProviderCircuitBreaker, state_key, ensure_state, init, allow_request,
  record_failure, allows, fails, reads, resets, step, run, in_flight, save, discard, fail, admit,
}
use async_native_ai_orchestr.Breaker.Invariant.{IsSound, run-init-AllSound}
use async_native_ai_orchestr.Breaker.Probe.{ask_all, ask_all_half_open, run-allow_request_refused}
use async_native_ai_orchestr.Breaker.Trip.{Failure, fail_all, fail_all-allow_request}

abbrev time_out : ErrorClassification
time_out = record { error_kind = "timeout"; retryable = true; backoff_seconds = 5; reason = "" }

abbrev auth : ErrorClassification
auth = record { error_kind = "auth"; retryable = false; backoff_seconds = 0; reason = "" }

abbrev new_breaker : ProviderCircuitBreaker
new_breaker = init 2 60

-- Two failures of the provider "openai", the second at 100: open until 5100.
abbrev tripped : ProviderCircuitBreaker
tripped =
    run new_breaker
      (fails "openai" "e" time_out 50 1000 ∷ fails "openai" "e" time_out 100 1000 ∷ [])

-- Open until 5100, and two requests after that time.
abbrev probed : ProviderCircuitBreaker
probed = run tripped (allows "openai" 5100 ∷ allows "openai" 5200 ∷ [])

asked_early : (allow_request tripped "openai" 5099).0 ≡ false
unfolding run step fail record_failure allow_request admit ensure_state save discard init get put
asked_early = refl

is_open : (ensure_state tripped "openai").status ≡ ProviderHealthStatus.circuit_open
unfolding run step fail record_failure ensure_state save discard init get put
is_open = refl

is_due : (ensure_state tripped "openai").circuit_open_until ≤ 5100
unfolding run step fail record_failure ensure_state save discard init get put
is_due = omega arith

none_in_flight : in_flight "openai" tripped ≡ false
unfolding run step fail record_failure ensure_state save discard init get put
none_in_flight = refl

is_half_open : (ensure_state probed "openai").status ≡ ProviderHealthStatus.half_open
unfolding run step fail record_failure allow_request admit ensure_state save discard init get put
is_half_open = refl

probe_in_flight : in_flight "openai" probed ≡ true
unfolding run step fail record_failure allow_request admit ensure_state save discard init get put
probe_in_flight = refl

keys_differ : state_key "openai" ≢ state_key "deepseek"
keys_differ = ground (arith, eq_iff "openai" "deepseek")

run-init-AllSound_example :
    let cb = run (init 2 60) (fails "openai" "e" time_out 50 1000 ∷ reads "deepseek" ∷ []) in
    (cb.failure_threshold ≡ 2) × ((p : String) → IsSound 2 (ensure_state cb p))
run-init-AllSound_example =
    run-init-AllSound 2 60 (fails "openai" "e" time_out 50 1000 ∷ reads "deepseek" ∷ [])

abbrev one_failure : List Failure
one_failure = ("e", time_out, 50, 1000) ∷ []

fail_all-allow_request_example :
    (allow_request
      (record_failure (fail_all new_breaker "openai" one_failure) "openai" "e" time_out 100 900).1
      "openai"
      4600).0
    ≡ (if leb new_breaker.failure_threshold
          ((ensure_state new_breaker "openai").failure_streak + 1 + 1)
        then leb (100 + 5 * 900) 4600
        else true)
fail_all-allow_request_example =
    fail_all-allow_request new_breaker "openai" one_failure "e" time_out 100 900 4600 (refl, tt)
      refl

ask_all_half_open_example :
    ask_all tripped "openai" (5100 ∷ 5200 ∷ 9000 ∷ 9999 ∷ []) ≡ true ∷ true ∷ false ∷ false ∷ []
ask_all_half_open_example =
    ask_all_half_open tripped "openai" 5100 5200 (9000 ∷ 9999 ∷ []) is_open is_due none_in_flight

run-allow_request_refused_example :
    (allow_request
      (run probed (allows "openai" 6000 ∷ resets "deepseek" 7000 ∷ []))
      "openai"
      8000).0
    ≡ false
run-allow_request_refused_example =
    run-allow_request_refused probed "openai" (allows "openai" 6000 ∷ resets "deepseek" 7000 ∷ [])
      8000 is_half_open probe_in_flight (tt, ((λ e. keys_differ (sym e)), tt))
