-- ===== src/Breaker/Probe.antt =====
-- dev_orchestrator/v8/resilience.py: how the breaker trips, whom it lets through while half-open, and
-- which providers a call can touch.
use async_native_ai_orchestr.Prelude.{
  ℕ, String, ◌≤◌, map, ◌≡◌, ◌≢◌, refl, Bool, true, false, List, [], ◌∷◌, arith, if◌then◌else◌,
  str_eq, ◌∙◌, ap, All, any, or_else, eq_iff, eq_refl, not, keep, if_both,
}
use async_native_ai_orchestr.Prelude.Dict.{get}
use async_native_ai_orchestr.Models.Status.{circuit_open, half_open}
use async_native_ai_orchestr.Breaker.{
  ProviderState, ProviderCircuitBreaker, fresh_state, state_key, in_flight, ensure_state, save,
  discard, admit, allow_request, succeed, record_success, fail, record_failure, get_state, clear,
  reset, Call, allows, succeeds, fails, reads, resets, step, run,
}
use async_native_ai_orchestr.Breaker.Invariant.{ensure_state-save}

-- The provider that a call names.
abbrev pub target : Call → String
target (allows p now) = p
target (succeeds p now) = p
target (fails p e c now jitter) = p
target (reads p) = p
target (resets p now) = p

pub ensure_state-save_self :
    (cb : ProviderCircuitBreaker) (p : String) (s : ProviderState)
    → ensure_state (save cb p s) p ≡ s
ensure_state-save_self cb p s = rw (ensure_state-save cb p p s, eq_refl)

-- The state of the named provider after `allow_request`.
pub allow_request-state :
    (cb : ProviderCircuitBreaker) (p q : String) (now : ℕ)
    → let s = ensure_state cb p in
      ensure_state (allow_request cb p now).1 q ≡ (
        if str_eq (state_key p) (state_key q)
        then (admit s.status s (in_flight p cb) now).1
        else ensure_state cb q)
unfolding allow_request ensure_state
allow_request-state cb p q now =
    let s = ensure_state cb p in
    let (_, s', probe) = admit s.status s (in_flight p cb) now in
    let saved = ensure_state-save cb p q s' in
    if_both
      (λ b.
        ensure_state b q ≡ (if str_eq (state_key p) (state_key q) then s' else ensure_state cb q))
      probe (λ _. saved) (λ _. saved)

-- A call leaves the state of every provider with another key as it was.
pub step-ensure_state_ne :
    (cb : ProviderCircuitBreaker) (c : Call) (q : String)
    → state_key (target c) ≢ state_key q
    → ensure_state (step cb c) q ≡ ensure_state cb q
unfolding step record_success record_failure get_state reset
step-ensure_state_ne cb (allows p now) q h =
    ground (arith, eq_iff (state_key p) (state_key q), allow_request-state cb p q now)
step-ensure_state_ne cb (succeeds p now) q h =
    let s = succeed (ensure_state (discard p cb) p) now in
    ground (arith, eq_iff (state_key p) (state_key q), ensure_state-save (discard p cb) p q s)
step-ensure_state_ne cb (fails p e c now jitter) q h =
    let s = fail cb.failure_threshold (ensure_state (discard p cb) p) e c now jitter in
    ground (arith, eq_iff (state_key p) (state_key q), ensure_state-save (discard p cb) p q s)
step-ensure_state_ne cb (reads p) q h =
    ground (arith, eq_iff (state_key p) (state_key q), ensure_state-save cb p q (ensure_state cb p))
step-ensure_state_ne cb (resets p now) q h =
    let s = clear (ensure_state cb p) now in
    ground (arith, eq_iff (state_key p) (state_key q), ensure_state-save cb p q s)

-- `allow_request` for one provider at a sequence of times: the answers, in order.
abbrev pub ask_all : ProviderCircuitBreaker → String → List ℕ → List Bool
ask_all cb p [] = []
ask_all cb p (now ∷ ts) = (allow_request cb p now).0 ∷ ask_all (allow_request cb p now).1 p ts

-- Half-open, and with a probe in flight or not.
abbrev pub IsHalfOpen : ProviderCircuitBreaker → String → Bool → Type 0
IsHalfOpen cb p probing = ((ensure_state cb p).status ≡ half_open) × (in_flight p cb ≡ probing)

module _ (cb : ProviderCircuitBreaker) (p : String) (now : ℕ) where
  ask_open :
      (ensure_state cb p).status ≡ circuit_open
      → (ensure_state cb p).circuit_open_until ≤ now
      → in_flight p cb ≡ false
      → ((allow_request cb p now).0 ≡ true) × IsHalfOpen (allow_request cb p now).1 p false
  unfolding allow_request admit save
  ask_open e h f =
      let s = ensure_state cb p in
      ground
        (arith, ensure_state-save_self cb p (record s { status = half_open; last_event_at = now }))

  pub ask_free :
      IsHalfOpen cb p false
      → ((allow_request cb p now).0 ≡ true) × IsHalfOpen (allow_request cb p now).1 p true
  unfolding allow_request admit
  ask_free (e, f) = ground (arith, eq_refl p, eq_refl (state_key p), allow_request-state cb p p now)

  pub ask_busy :
      IsHalfOpen cb p true
      → ((allow_request cb p now).0 ≡ false) × IsHalfOpen (allow_request cb p now).1 p true
  unfolding allow_request admit save
  ask_busy (e, f) = ground (arith, ensure_state-save_self cb p (ensure_state cb p))

pub ask_all_busy :
    (cb : ProviderCircuitBreaker) (p : String) (ts : List ℕ)
    → IsHalfOpen cb p true
    → ask_all cb p ts ≡ map (λ _. false) ts
ask_all_busy cb p [] h = refl
ask_all_busy cb p (t ∷ ts) h =
    let (refused, busy) = ask_busy cb p t h in
    rw (refused, ask_all_busy (allow_request cb p t).1 p ts busy)

-- Once the recovery time of an open circuit has come, and no probe is in flight, exactly the next two
-- requests are let through, whenever the second comes, and every later one is refused for as long as
-- no outcome is recorded.
pub ask_all_half_open :
    (cb : ProviderCircuitBreaker) (p : String) (now second : ℕ) (ts : List ℕ)
    → (ensure_state cb p).status ≡ circuit_open
    → (ensure_state cb p).circuit_open_until ≤ now
    → in_flight p cb ≡ false
    → ask_all cb p (now ∷ second ∷ ts) ≡ true ∷ true ∷ map (λ _. false) ts
ask_all_half_open cb p now second ts e h f =
    let (let_in, half) = ask_open cb p now e h f in
    let cb₁ = (allow_request cb p now).1 in
    let (let_in₂, busy) = ask_free cb₁ p second half in
    rw (let_in, let_in₂, ask_all_busy (allow_request cb₁ p second).1 p ts busy)

-- A call that records no outcome for the provider and does not reset it.
abbrev pub Quiet : String → Call → Type 0
Quiet p (allows q now) = Unit {0}
Quiet p (reads q) = Unit {0}
Quiet p (succeeds q now) = state_key q ≢ state_key p
Quiet p (fails q e c now jitter) = state_key q ≢ state_key p
Quiet p (resets q now) = state_key q ≢ state_key p

any-keep_ne :
    (p q : String) (xs : List String)
    → q ≢ p
    → any (str_eq p) xs ≡ true
    → any (str_eq p) (keep (λ x. not (str_eq q x)) xs) ≡ true
any-keep_ne p q [] h f = f
any-keep_ne p q (x ∷ xs) h f = ground (arith, eq_iff p x, eq_iff q x, any-keep_ne p q xs h)

pub ensure_state_key :
    (cb : ProviderCircuitBreaker) (p q : String)
    → state_key q ≡ state_key p
    → ensure_state cb q ≡ ensure_state cb p
unfolding ensure_state
ensure_state_key cb p q e = ap (λ k. or_else (get k cb.states) (fresh_state k)) e

allow_request-IsHalfOpen :
    (cb : ProviderCircuitBreaker) (p q : String) (now : ℕ)
    → IsHalfOpen cb p true
    → IsHalfOpen (allow_request cb q now).1 p true
unfolding allow_request admit save
allow_request-IsHalfOpen cb p q now (e, f) = ground (
  arith,
  allow_request-state cb q p now,
  eq_iff (state_key q) (state_key p),
  ensure_state_key cb p q,
)

step-IsHalfOpen :
    (cb : ProviderCircuitBreaker) (p : String) (c : Call)
    → Quiet p c
    → IsHalfOpen cb p true
    → IsHalfOpen (step cb c) p true
unfolding step record_success record_failure get_state reset save discard
step-IsHalfOpen cb p (allows q now) quiet h = allow_request-IsHalfOpen cb p q now h
step-IsHalfOpen cb p (succeeds q now) quiet (e, f) = (
  ap (λ s. s.status) (step-ensure_state_ne cb (succeeds q now) p quiet) ∙ e,
  any-keep_ne p q cb.half_open_inflight (λ d. quiet (ap state_key d)) f,
)
step-IsHalfOpen cb p (fails q err c now jitter) quiet (e, f) = (
  ap (λ s. s.status) (step-ensure_state_ne cb (fails q err c now jitter) p quiet) ∙ e,
  any-keep_ne p q cb.half_open_inflight (λ d. quiet (ap state_key d)) f,
)
step-IsHalfOpen cb p (reads q) quiet (e, f) = (
  ground (
    arith,
    ensure_state-save cb q p (ensure_state cb q),
    eq_iff (state_key q) (state_key p),
    ensure_state_key cb p q,
  ),
  f,
)
step-IsHalfOpen cb p (resets q now) quiet (e, f) =
    (ap (λ s. s.status) (step-ensure_state_ne cb (resets q now) p quiet) ∙ e, f)

pub run-IsHalfOpen :
    (cb : ProviderCircuitBreaker) (p : String) (cs : List Call)
    → All (Quiet p) cs
    → IsHalfOpen cb p true
    → IsHalfOpen (run cb cs) p true
unfolding run
run-IsHalfOpen cb p [] quiet h = h
run-IsHalfOpen cb p (c ∷ cs) (q, quiet) h =
    run-IsHalfOpen (step cb c) p cs quiet (step-IsHalfOpen cb p c q h)

-- A half-open provider whose probe is in flight is refused every request, at any time and after any
-- calls on the breaker that neither record an outcome for this provider nor reset it: no time-out
-- releases the probe.
pub run-allow_request_refused :
    (cb : ProviderCircuitBreaker) (p : String) (cs : List Call) (now : ℕ)
    → (ensure_state cb p).status ≡ half_open
    → in_flight p cb ≡ true
    → All (Quiet p) cs
    → (allow_request (run cb cs) p now).0 ≡ false
run-allow_request_refused cb p cs now e f quiet =
    (ask_busy (run cb cs) p now (run-IsHalfOpen cb p cs quiet (e, f))).0
