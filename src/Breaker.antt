-- ===== src/Breaker.antt =====
-- dev_orchestrator/v8/resilience.py: `ProviderCircuitBreaker`, and `ProviderState` and
-- `ErrorClassification` of dev_orchestrator/v8/models.py. Times are in milliseconds and the jitter of
-- `record_failure` is in thousandths, so that `backoff_seconds * jitter` is exact; the clock and the
-- jitter are arguments of each call. Each call holds the lock throughout, so it is one step.
pub mod Invariant
pub mod Probe
pub mod Trip
mod Tests
use Prim.Native.String.{◌∷◌ as cons_char}
use async_native_ai_orchestr.Prelude.{
  ℕ, zero, suc, ◌+◌, ◌*◌, String, Bool, true, false, ◌||◌, List, [], ◌∷◌, leb, if◌then◌else◌, keep,
  any, not, str_eq, or_else,
}
use async_native_ai_orchestr.Prelude.Dict.{Dict, get, put}
use async_native_ai_orchestr.Text.{take_chars}
use async_native_ai_orchestr.Models.Status.{
  ProviderHealthStatus, healthy, degraded, circuit_open, half_open, blocked,
}

pub record ProviderState : Type 0 where
  pub provider : String
  pub status : ProviderHealthStatus
  pub success_count : ℕ
  pub failure_count : ℕ
  pub failure_streak : ℕ
  pub last_error_kind : String
  pub last_error : String
  pub last_event_at : ℕ
  pub retry_after_seconds : ℕ
  pub circuit_open_until : ℕ

pub record ErrorClassification : Type 0 where
  pub error_kind : String
  pub retryable : Bool
  pub backoff_seconds : ℕ
  pub reason : String

pub record ProviderCircuitBreaker : Type 0 where
  pub failure_threshold : ℕ
  pub recovery_timeout : ℕ
  pub states : Dict ProviderState
  pub half_open_inflight : List String

-- `ProviderState(provider=key)`
abbrev pub fresh_state : String → ProviderState
fresh_state key = record {
  provider = key;
  status = healthy;
  success_count = 0;
  failure_count = 0;
  failure_streak = 0;
  last_error_kind = "";
  last_error = "";
  last_event_at = 0;
  retry_after_seconds = 0;
  circuit_open_until = 0;
}

-- `provider or "unknown-provider"`
abbrev pub state_key : String → String
state_key provider = if str_eq provider "" then "unknown-provider" else provider

-- `provider in self._half_open_inflight`
abbrev pub in_flight : String → ProviderCircuitBreaker → Bool
in_flight provider cb = any (str_eq provider) cb.half_open_inflight

-- `_ensure`: the state of the provider, and the breaker with that state in its table.
unfoldable pub ensure_state : ProviderCircuitBreaker → String → ProviderState
ensure_state cb provider =
    or_else (get (state_key provider) cb.states) (fresh_state (state_key provider))

-- What the later assignments to the state object write into the table.
unfoldable pub save : ProviderCircuitBreaker → String → ProviderState → ProviderCircuitBreaker
save cb provider s = record cb { states = put (state_key provider) s cb.states }

unfoldable pub init : ℕ → ℕ → ProviderCircuitBreaker
init threshold recovery = record {
  failure_threshold = threshold;
  recovery_timeout = recovery;
  states = [];
  half_open_inflight = [];
}

-- `self._half_open_inflight.discard(provider)`
pub discard : String → ProviderCircuitBreaker → ProviderCircuitBreaker
discard provider cb = record cb {
  half_open_inflight = keep (λ p. not (str_eq provider p)) cb.half_open_inflight;
}

-- The tests of `allow_request`, on the state and on whether a probe is in flight: the answer, the
-- state that is written back, and whether the provider joins the set of probes.
unfoldable pub admit : ProviderHealthStatus → ProviderState → Bool → ℕ → Bool × ProviderState × Bool
admit blocked s probing now = (false, s, false)
admit circuit_open s probing now =
    if leb s.circuit_open_until now
    then (true, record s { status = half_open; last_event_at = now }, false)
    else (false, s, false)
admit half_open s probing now = if probing then (false, s, false) else (true, s, true)
admit healthy s probing now = (true, s, false)
admit degraded s probing now = (true, s, false)

unfoldable pub allow_request : ProviderCircuitBreaker → String → ℕ → Bool × ProviderCircuitBreaker
unfolding ensure_state save admit
allow_request cb provider now =
    let s = ensure_state cb provider in
    let (answer, s', probe) = admit s.status s (in_flight provider cb) now in
    let cb' = save cb provider s' in
    (
      answer,
      if probe then record cb' { half_open_inflight = provider ∷ cb'.half_open_inflight } else cb',
    )

-- The assignments of `record_success`.
unfoldable pub succeed : ProviderState → ℕ → ProviderState
succeed s now = record s {
  success_count = s.success_count + 1;
  failure_streak = 0;
  last_error_kind = "";
  last_error = "";
  last_event_at = now;
  retry_after_seconds = 0;
  circuit_open_until = 0;
  status = healthy;
}

pub record_success : ProviderCircuitBreaker → String → ℕ → ProviderState × ProviderCircuitBreaker
unfolding ensure_state save discard succeed
record_success cb provider now =
    let cb₁ = discard provider cb in
    let s = succeed (ensure_state cb₁ provider) now in (s, save cb₁ provider s)

-- The assignments of `record_failure`.
pub fail : ℕ → ProviderState → String → ErrorClassification → (now jitter : ℕ) → ProviderState
fail threshold s error c now jitter =
    let t = record s {
      failure_count = s.failure_count + 1;
      failure_streak = s.failure_streak + 1;
      last_error_kind = c.error_kind;
      last_error = take_chars 1000 error;
      last_event_at = now;
    } in
    let u = record t { retry_after_seconds = c.backoff_seconds } in
    if not c.retryable
    then record t { status = blocked; retry_after_seconds = 0; circuit_open_until = 0 }
    else (if leb threshold u.failure_streak
        then record u {
          status = circuit_open;
          circuit_open_until = now + c.backoff_seconds * jitter;
        }
        else record u { status = degraded; circuit_open_until = 0 })

pub record_failure :
    ProviderCircuitBreaker
    → String
    → String
    → ErrorClassification
    → (now jitter : ℕ) → ProviderState × ProviderCircuitBreaker
unfolding ensure_state save discard fail
record_failure cb provider error c now jitter =
    let cb₁ = discard provider cb in
    let s = fail cb₁.failure_threshold (ensure_state cb₁ provider) error c now jitter in
    (s, save cb₁ provider s)

-- `get_state` also creates the entry of an unknown provider.
pub get_state : ProviderCircuitBreaker → String → ProviderState × ProviderCircuitBreaker
unfolding ensure_state save
get_state cb provider = let s = ensure_state cb provider in (s, save cb provider s)

abbrev pub snapshot : ProviderCircuitBreaker → Dict ProviderState
snapshot cb = cb.states

-- The assignments of `reset`, which leaves the two counts and the set of probes alone.
pub clear : ProviderState → ℕ → ProviderState
clear s now = record s {
  status = healthy;
  failure_streak = 0;
  last_error_kind = "";
  last_error = "";
  last_event_at = now;
  retry_after_seconds = 0;
  circuit_open_until = 0;
}

pub reset : ProviderCircuitBreaker → String → ℕ → ProviderState × ProviderCircuitBreaker
unfolding ensure_state save clear
reset cb provider now = let s = clear (ensure_state cb provider) now in (s, save cb provider s)

-- A call on the breaker, with the time at which it is made.
pub data Call : Type 0 where
  allows : (provider : String) (now : ℕ) → Call
  succeeds : (provider : String) (now : ℕ) → Call
  fails : (provider error : String) (c : ErrorClassification) (now jitter : ℕ) → Call
  reads : (provider : String) → Call
  resets : (provider : String) (now : ℕ) → Call

pub step : ProviderCircuitBreaker → Call → ProviderCircuitBreaker
step cb (allows p now) = (allow_request cb p now).1
step cb (succeeds p now) = (record_success cb p now).1
step cb (fails p e c now jitter) = (record_failure cb p e c now jitter).1
step cb (reads p) = (get_state cb p).1
step cb (resets p now) = (reset cb p now).1

pub run : ProviderCircuitBreaker → List Call → ProviderCircuitBreaker
run cb [] = cb
run cb (c ∷ cs) = run (step cb c) cs
