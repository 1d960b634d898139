-- ===== src/Breaker/Trip.antt =====
-- dev_orchestrator/v8/resilience.py: how consecutive failures trip the breaker, and what recovers it.
use async_native_ai_orchestr.Prelude.{
  ℕ, ◌+◌, ◌*◌, String, ◌≤◌, ◌<◌, map, ◌≡◌, refl, true, false, List, [], ◌∷◌, arith, if◌then◌else◌,
  leb, length, All, ap, ◌∙◌, eq_iff,
}
use async_native_ai_orchestr.Models.Status.{healthy, degraded, circuit_open, blocked}
use async_native_ai_orchestr.Breaker.{
  ProviderState, ErrorClassification, ProviderCircuitBreaker, ensure_state, save, discard, admit,
  allow_request, succeed, record_success, fail, record_failure, clear, reset, state_key, get_state,
  Call, allows, succeeds, fails, reads, resets, step, run,
}
use async_native_ai_orchestr.Breaker.Probe.{
  ask_all, ensure_state-save_self, Quiet, step-ensure_state_ne, allow_request-state,
  ensure_state_key,
}
use async_native_ai_orchestr.Breaker.Invariant.{ensure_state-save}

-- A sequence of failures that are all retryable, each with its error, time and jitter.
abbrev pub Failure : Type 0
Failure = String × ErrorClassification × ℕ × ℕ

abbrev pub fail_all : ProviderCircuitBreaker → String → List Failure → ProviderCircuitBreaker
fail_all cb p [] = cb
fail_all cb p ((e, c, now, jitter) ∷ fs) = fail_all (record_failure cb p e c now jitter).1 p fs

-- The state after one retryable failure.
fail_retryable :
    (t : ℕ) (s : ProviderState) (e : String) (c : ErrorClassification) (now jitter : ℕ)
    → c.retryable ≡ true
    → let s' = fail t s e c now jitter in
      (s'.failure_streak ≡ s.failure_streak + 1)
      × ((t ≤ s'.failure_streak)
          → (s'.status ≡ circuit_open) × (s'.circuit_open_until ≡ now + c.backoff_seconds * jitter))
      × (s'.failure_streak < t → s'.status ≡ degraded)
unfolding fail
fail_retryable t s e c now jitter r = ground arith

record_failure-state :
    (cb : ProviderCircuitBreaker) (p e : String) (c : ErrorClassification) (now jitter : ℕ)
    → ensure_state (record_failure cb p e c now jitter).1 p
      ≡ fail cb.failure_threshold (ensure_state cb p) e c now jitter
unfolding record_failure discard ensure_state
record_failure-state cb p e c now jitter =
    ensure_state-save_self (discard p cb) p
      (fail cb.failure_threshold (ensure_state cb p) e c now jitter)

record_failure-threshold :
    (cb : ProviderCircuitBreaker) (p e : String) (c : ErrorClassification) (now jitter : ℕ)
    → (record_failure cb p e c now jitter).1.failure_threshold ≡ cb.failure_threshold
unfolding record_failure
record_failure-threshold cb p e c now jitter = refl

fail_all-streak :
    (cb : ProviderCircuitBreaker) (p : String) (fs : List Failure)
    → All (λ f. f.1.retryable ≡ true) fs
    → let cb' = fail_all cb p fs in
      ((ensure_state cb' p).failure_streak ≡ (ensure_state cb p).failure_streak + length fs)
      × (cb'.failure_threshold ≡ cb.failure_threshold)
fail_all-streak cb p [] h = (omega arith, refl)
fail_all-streak cb p ((e, c, now, jitter) ∷ fs) (r, h) = ground (
  arith,
  fail_all-streak (record_failure cb p e c now jitter).1 p fs h,
  record_failure-state cb p e c now jitter,
  record_failure-threshold cb p e c now jitter,
  fail_retryable cb.failure_threshold (ensure_state cb p) e c now jitter r,
)

ask-state :
    (cb : ProviderCircuitBreaker) (p : String) (t : ℕ)
    → (((ensure_state cb p).status ≡ circuit_open)
        → (allow_request cb p t).0 ≡ leb (ensure_state cb p).circuit_open_until t)
      × (((ensure_state cb p).status ≡ degraded) → (allow_request cb p t).0 ≡ true)
unfolding allow_request admit
ask-state cb p t = (λ e. ground arith, λ e. ground arith)

-- From any state of a provider, a blocked one included, after any number of retryable failures, the
-- last of them at `now`: if the failure streak has reached the threshold, a request is let through
-- exactly from `now` plus the jittered backoff on, and otherwise at any time.
pub fail_all-allow_request :
    (cb : ProviderCircuitBreaker) (p : String) (fs : List Failure) (e : String)
    (c : ErrorClassification) (now jitter t : ℕ)
    → All (λ f. f.1.retryable ≡ true) fs
    → c.retryable ≡ true
    → let failed = (record_failure (fail_all cb p fs) p e c now jitter).1 in
      (allow_request failed p t).0 ≡ (
        if leb cb.failure_threshold ((ensure_state cb p).failure_streak + length fs + 1)
        then leb (now + c.backoff_seconds * jitter) t
        else true)
fail_all-allow_request cb p fs e c now jitter t h r =
    let cb' = fail_all cb p fs in
    ground (
      arith,
      fail_all-streak cb p fs h,
      record_failure-state cb' p e c now jitter,
      fail_retryable cb'.failure_threshold (ensure_state cb' p) e c now jitter r,
      ask-state (record_failure cb' p e c now jitter).1 p t,
    )

pub record_success-state :
    (cb : ProviderCircuitBreaker) (p : String) (now : ℕ)
    → ensure_state (record_success cb p now).1 p ≡ succeed (ensure_state cb p) now
unfolding record_success discard ensure_state
record_success-state cb p now =
    ensure_state-save_self (discard p cb) p (succeed (ensure_state cb p) now)

reset-state :
    (cb : ProviderCircuitBreaker) (p : String) (now : ℕ)
    → ensure_state (reset cb p now).1 p ≡ clear (ensure_state cb p) now
unfolding reset
reset-state cb p now = ensure_state-save_self cb p (clear (ensure_state cb p) now)

healthy_admitted :
    (cb : ProviderCircuitBreaker) (p : String) (t : ℕ)
    → (ensure_state cb p).status ≡ healthy
    → (allow_request cb p t).0 ≡ true
unfolding allow_request admit
healthy_admitted cb p t e = ground arith

-- Whatever the provider's state, a blocked one included, a recorded success and a reset each leave it
-- healthy with no failure streak, so that a request is let through at any later time; both keep the
-- failure count, the success adds one to the success count and the reset keeps it.
pub record_success-reset_recover :
    (cb : ProviderCircuitBreaker) (p : String) (now t : ℕ)
    → let s = ensure_state cb p in
      let after_success = (record_success cb p now).1 in
      let after_reset = (reset cb p now).1 in
      ((allow_request after_success p t).0 ≡ true)
      × ((allow_request after_reset p t).0 ≡ true)
      × ((ensure_state after_success p).failure_streak ≡ 0)
      × ((ensure_state after_reset p).failure_streak ≡ 0)
      × ((ensure_state after_success p).failure_count ≡ s.failure_count)
      × ((ensure_state after_reset p).failure_count ≡ s.failure_count)
      × ((ensure_state after_success p).success_count ≡ s.success_count + 1)
      × ((ensure_state after_reset p).success_count ≡ s.success_count)
unfolding succeed clear
record_success-reset_recover cb p now t = ground (
  arith,
  record_success-state cb p now,
  reset-state cb p now,
  healthy_admitted (record_success cb p now).1 p t,
  healthy_admitted (reset cb p now).1 p t,
)

pub blocked_refused :
    (cb : ProviderCircuitBreaker) (p : String) (t : ℕ)
    → (ensure_state cb p).status ≡ blocked
    → ((allow_request cb p t).0 ≡ false)
      × ((ensure_state (allow_request cb p t).1 p).status ≡ blocked)
unfolding allow_request admit save
blocked_refused cb p t e = ground (arith, ensure_state-save_self cb p (ensure_state cb p))

ask_all_blocked :
    (cb : ProviderCircuitBreaker) (p : String) (ts : List ℕ)
    → (ensure_state cb p).status ≡ blocked
    → ask_all cb p ts ≡ map (λ _. false) ts
ask_all_blocked cb p [] e = refl
ask_all_blocked cb p (t ∷ ts) e =
    let (refused, still) = blocked_refused cb p t e in
    rw (refused, ask_all_blocked (allow_request cb p t).1 p ts still)

-- After one failure that is not retryable, from any state, every one of the following requests is
-- refused, at whatever times they come.
pub record_failure-ask_all_blocked :
    (cb : ProviderCircuitBreaker) (p e : String) (c : ErrorClassification) (now jitter : ℕ)
    (ts : List ℕ)
    → c.retryable ≡ false
    → ask_all (record_failure cb p e c now jitter).1 p ts ≡ map (λ _. false) ts
unfolding fail
record_failure-ask_all_blocked cb p e c now jitter ts r =
    ask_all_blocked (record_failure cb p e c now jitter).1 p ts
      (ground (arith, record_failure-state cb p e c now jitter))

step-blocked :
    (cb : ProviderCircuitBreaker) (p : String) (c : Call)
    → Quiet p c
    → (ensure_state cb p).status ≡ blocked
    → (ensure_state (step cb c) p).status ≡ blocked
unfolding step get_state admit
step-blocked cb p (allows q now) quiet e = ground (
  arith,
  allow_request-state cb q p now,
  eq_iff (state_key q) (state_key p),
  ensure_state_key cb p q,
)
step-blocked cb p (succeeds q now) quiet e =
    ap (λ s. s.status) (step-ensure_state_ne cb (succeeds q now) p quiet) ∙ e
step-blocked cb p (fails q err c now jitter) quiet e =
    ap (λ s. s.status) (step-ensure_state_ne cb (fails q err c now jitter) p quiet) ∙ e
step-blocked cb p (reads q) quiet e = ground (
  arith,
  ensure_state-save cb q p (ensure_state cb q),
  eq_iff (state_key q) (state_key p),
  ensure_state_key cb p q,
)
step-blocked cb p (resets q now) quiet e =
    ap (λ s. s.status) (step-ensure_state_ne cb (resets q now) p quiet) ∙ e

run-blocked :
    (cb : ProviderCircuitBreaker) (p : String) (cs : List Call)
    → All (Quiet p) cs
    → (ensure_state cb p).status ≡ blocked
    → (ensure_state (run cb cs) p).status ≡ blocked
unfolding run
run-blocked cb p [] quiet e = e
run-blocked cb p (c ∷ cs) (q, quiet) e =
    run-blocked (step cb c) p cs quiet (step-blocked cb p c q e)

-- After a failure that is not retryable, a request is refused at any time, whatever calls come before it
-- that record no outcome for the provider and do not reset it.
pub record_failure-run-allow_request :
    (cb : ProviderCircuitBreaker) (p e : String) (c : ErrorClassification) (now jitter : ℕ)
    (cs : List Call) (later : ℕ)
    → c.retryable ≡ false
    → All (Quiet p) cs
    → (allow_request (run (record_failure cb p e c now jitter).1 cs) p later).0 ≡ false
unfolding fail
record_failure-run-allow_request cb p e c now jitter cs later r quiet =
    let cb' = (record_failure cb p e c now jitter).1 in
    let stopped : (ensure_state cb' p).status ≡ blocked =
      ground (arith, record_failure-state cb p e c now jitter) in
    (blocked_refused (run cb' cs) p later (run-blocked cb' p cs quiet stopped)).0
