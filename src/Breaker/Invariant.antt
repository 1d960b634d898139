-- ===== src/Breaker/Invariant.antt =====
-- dev_orchestrator/v8/resilience.py: what holds of every provider's state between two calls.
use async_native_ai_orchestr.Prelude.{
  ℕ, String, ◌≤◌, ◌<◌, ◌≡◌, refl, Bool, List, [], ◌∷◌, arith, if◌then◌else◌, str_eq, if_both, ◌∙◌,
  subst,
}
use async_native_ai_orchestr.Prelude.Dict.{get, get-put}
use async_native_ai_orchestr.Models.Status.{healthy, degraded, circuit_open, half_open, blocked}
use async_native_ai_orchestr.Breaker.{
  ProviderState, ErrorClassification, ProviderCircuitBreaker, fresh_state, state_key, in_flight,
  ensure_state, save, init, discard, admit, allow_request, succeed, record_success, fail,
  record_failure, get_state, clear, reset, Call, allows, succeeds, fails, reads, resets, step, run,
}

-- The state of a provider in a breaker with the given failure threshold.
pub record IsSound (threshold : ℕ) (s : ProviderState) : Type 0 where
  pub streak_counted : s.failure_streak ≤ s.failure_count
  pub healthy_clean : s.status ≡ healthy → (s.failure_streak ≡ 0) × (s.circuit_open_until ≡ 0)
  pub degraded_below :
      s.status ≡ degraded
      → (0 < s.failure_streak) × (s.failure_streak < threshold) × (s.circuit_open_until ≡ 0)
  pub open_tripped :
      s.status ≡ circuit_open → (0 < s.failure_streak) × (threshold ≤ s.failure_streak)
  pub half_open_tripped :
      s.status ≡ half_open → (0 < s.failure_streak) × (threshold ≤ s.failure_streak)
  pub blocked_untimed : s.status ≡ blocked → (0 < s.failure_streak) × (s.circuit_open_until ≡ 0)

abbrev pub AllSound : ProviderCircuitBreaker → Type 0
AllSound cb = (p : String) → IsSound cb.failure_threshold (ensure_state cb p)

fresh_state-IsSound : (t : ℕ) (key : String) → IsSound t (fresh_state key)
fresh_state-IsSound t key = ground arith

admit-IsSound :
    (t : ℕ) (s : ProviderState) (probing : Bool) (now : ℕ)
    → IsSound t s
    → IsSound t (admit s.status s probing now).1
unfolding admit
admit-IsSound t s probing now v = ground arith

succeed-IsSound : (t : ℕ) (s : ProviderState) (now : ℕ) → IsSound t s → IsSound t (succeed s now)
unfolding succeed
succeed-IsSound t s now v = ground arith

fail-IsSound :
    (t : ℕ) (s : ProviderState) (error : String) (c : ErrorClassification) (now jitter : ℕ)
    → IsSound t s
    → IsSound t (fail t s error c now jitter)
unfolding fail
fail-IsSound t s error c now jitter v = ground arith

clear-IsSound : (t : ℕ) (s : ProviderState) (now : ℕ) → IsSound t s → IsSound t (clear s now)
unfolding clear
clear-IsSound t s now v = ground arith

-- What a write to the table changes: the entry under the provider's key.
pub ensure_state-save :
    (cb : ProviderCircuitBreaker) (p q : String) (s : ProviderState)
    → ensure_state (save cb p s) q
      ≡ (if str_eq (state_key p) (state_key q) then s else ensure_state cb q)
unfolding ensure_state save
ensure_state-save cb p q s = ground (arith, get-put (state_key p) (state_key q) s cb.states)

save-AllSound :
    (cb : ProviderCircuitBreaker) (p : String) (s : ProviderState)
    → IsSound cb.failure_threshold s
    → AllSound cb
    → AllSound (save cb p s)
unfolding save
save-AllSound cb p s h v q = rw (ensure_state-save cb p q s) (
    if_both (IsSound cb.failure_threshold) (str_eq (state_key p) (state_key q)) (λ _. h) (λ _. v q))

init-AllSound : (threshold recovery : ℕ) → AllSound (init threshold recovery)
unfolding init ensure_state get
init-AllSound threshold recovery p = fresh_state-IsSound threshold (state_key p)

allow_request-AllSound :
    (cb : ProviderCircuitBreaker) (p : String) (now : ℕ)
    → AllSound cb
    → AllSound (allow_request cb p now).1
unfolding allow_request ensure_state
allow_request-AllSound cb p now v =
    let s = ensure_state cb p in
    let (_, s', probe) = admit s.status s (in_flight p cb) now in
    let saved = save-AllSound cb p s' (admit-IsSound _ s (in_flight p cb) now (v p)) v in
    if_both AllSound probe (λ _. saved) (λ _. saved)

step-AllSound : (cb : ProviderCircuitBreaker) (c : Call) → AllSound cb → AllSound (step cb c)
unfolding step record_success record_failure get_state reset
step-AllSound cb (allows p now) v = allow_request-AllSound cb p now v
step-AllSound cb (succeeds p now) v =
    save-AllSound (discard p cb) p _ (succeed-IsSound _ _ now (v p)) v
step-AllSound cb (fails p e c now jitter) v =
    save-AllSound (discard p cb) p _ (fail-IsSound _ _ e c now jitter (v p)) v
step-AllSound cb (reads p) v = save-AllSound cb p _ (v p) v
step-AllSound cb (resets p now) v = save-AllSound cb p _ (clear-IsSound _ _ now (v p)) v

run-AllSound : (cb : ProviderCircuitBreaker) (cs : List Call) → AllSound cb → AllSound (run cb cs)
unfolding run
run-AllSound cb [] v = v
run-AllSound cb (c ∷ cs) v = run-AllSound (step cb c) cs (step-AllSound cb c v)

step-threshold :
    (cb : ProviderCircuitBreaker) (c : Call) → (step cb c).failure_threshold ≡ cb.failure_threshold
unfolding step allow_request record_success record_failure get_state reset
step-threshold cb (allows p now) =
    if_both {A = ProviderCircuitBreaker} (λ b. b.failure_threshold ≡ cb.failure_threshold)
      (admit (ensure_state cb p).status (ensure_state cb p) (in_flight p cb) now).2 (λ _. refl)
      (λ _. refl)
step-threshold cb (succeeds p now) = refl
step-threshold cb (fails p e c now jitter) = refl
step-threshold cb (reads p) = refl
step-threshold cb (resets p now) = refl

run-threshold :
    (cb : ProviderCircuitBreaker) (cs : List Call)
    → (run cb cs).failure_threshold ≡ cb.failure_threshold
unfolding run
run-threshold cb [] = refl
run-threshold cb (c ∷ cs) = run-threshold (step cb c) cs ∙ step-threshold cb c

-- After any sequence of calls on a new breaker, on any providers and at any times, the threshold is
-- the one given and each provider's state is sound: an open or half-open provider has reached the
-- threshold, a degraded one has failed and is below it, a healthy one has no failure behind it, and
-- no healthy, degraded or blocked one has a recovery time.
pub run-init-AllSound :
    (threshold recovery : ℕ) (cs : List Call)
    → let cb = run (init threshold recovery) cs in
      (cb.failure_threshold ≡ threshold) × ((p : String) → IsSound threshold (ensure_state cb p))
unfolding init
run-init-AllSound threshold recovery cs =
    let e = run-threshold (init threshold recovery) cs in
    (
      e,
      λ p.
          subst (λ t. IsSound t (ensure_state (run (init threshold recovery) cs) p)) e
            (run-AllSound _ cs (init-AllSound threshold recovery) p),
    )
