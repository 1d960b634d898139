-- ===== src/Scheduler/Retry.antt =====
-- dev_orchestrator/v8/scheduler.py: the loop of `call`.
use async_native_ai_orchestr.Prelude.{
  ℕ, zero, suc, ◌+◌, ◌≤◌, String, ◌≡◌, ◌≢◌, refl, subst, ap, true, false, ◌⊎◌, inl, inr, arith,
  Bool-cases, Option, none, some, str_eq, eq_iff,
}
use async_native_ai_orchestr.Scheduler.{
  AiSchedulerLimits, CallArgs, SlotStore, Externals, Attempt, SchedulerState, CallEnd, AiCallResult,
  returns, raises, cancelled,
}
use async_native_ai_orchestr.Scheduler.Calls.{call_once, call_from, call, tries_again, kind_of}

-- An answer that is a failure, says that it may be retried, and is not that of an open circuit.
abbrev pub MayRetry : CallEnd → Type 0
MayRetry done =
    (r : AiCallResult) × (done ≡ returns r)
    × (r.is_ok ≡ false)
    × (r.retryable ≡ true)
    × (r.error_kind ≢ some "circuit_open")

tries_again-MayRetry : (done : CallEnd) → tries_again done ≡ true → MayRetry done
tries_again-MayRetry (returns r) h =
    (r, refl, ground arith, ground arith, λ k. let h' = rw k at h in ground arith)
tries_again-MayRetry (raises r) h = absurd (cc)
tries_again-MayRetry cancelled h = absurd (cc)

circuit_open-kind_of :
    (r : AiCallResult) → kind_of r "circuit_open" ≡ true → r.error_kind ≡ some "circuit_open"
circuit_open-kind_of r h = go r.error_kind h
  where
    go :
        (o : Option String)
        → (elim o [ none ↦ false | some k ↦ str_eq k "circuit_open" ]) ≡ true
        → o ≡ some "circuit_open"
    go none h = absurd (cc)
    go (some k) h = ap some ((eq_iff k "circuit_open").0 h)

tries_again-ends : (done : CallEnd) → tries_again done ≡ false → ¬ MayRetry done
tries_again-ends (raises r) h (r', e, bad, may, other) = absurd (cc)
tries_again-ends cancelled h (r', e, bad, may, other) = absurd (cc)
tries_again-ends (returns r) h (r', e, bad, may, other) =
    let h' = subst (λ d. tries_again d ≡ false) e h in
    other (circuit_open-kind_of r' (ground arith))

module _ {S : Type 0} (x : Externals) (limits : AiSchedulerLimits) (store : SlotStore S)
    (provider model : String) (q : CallArgs) (attempts : ℕ → Attempt) where
  -- From attempt `n` to attempt `k`, where each attempt but the last one failed in a way that may be
  -- retried.
  pub data Retries : ℕ → SchedulerState S → ℕ → SchedulerState S → Type 0 where
    stays : {n : ℕ} {st : SchedulerState S} → Retries n st n st
    goes_on :
        {n k : ℕ} {st u : SchedulerState S}
        → MayRetry (call_once x limits store provider model q (attempts n) st).0
        → Retries (n + 1) (call_once x limits store provider model q (attempts n) st).1 k u
        → Retries n st k u

  abbrev pub Answers : (left n : ℕ) → SchedulerState S → CallEnd × SchedulerState S → Type 0
  Answers left n st done =
      (k : ℕ) × (u : SchedulerState S) × Retries n st k u
      × (k ≤ n + left)
      × (done ≡ call_once x limits store provider model q (attempts k) u)
      × ((¬ MayRetry done.0) ⊎ (k ≡ n + left))

  call_from-Answers :
      (left n : ℕ) (st : SchedulerState S)
      → Answers left n st (call_from x limits store provider model q attempts left n st)
  unfolding call_from
  call_from-Answers zero n st = (n, st, stays, omega arith, refl, inr (omega arith))
  call_from-Answers (suc left) n st =
      let (done, st') = call_once x limits store provider model q (attempts n) st in
      let (k, u, path, bound, same, why) = call_from-Answers left (n + 1) st' in
      elim (Bool-cases (tries_again done)) [
        | inl again ↦ rw again (
          k,
          u,
          goes_on (tries_again-MayRetry done again) path,
          omega arith,
          same,
          elim why [ inl e ↦ inl e | inr e ↦ inr (omega arith) ],
        )
        | inr ended ↦ rw ended (n, st, stays, omega arith, refl, inl (tries_again-ends done ended))
      ]

  -- `call` makes at most one attempt more than `scheduler_max_retries`, each in the state that the one
  -- before it left. It goes on only after a result that is a failure, may be retried and is not of the
  -- kind "circuit_open", and answers with its last attempt's result as it is: one that is not such, or
  -- the one after which no retry is left.
  pub call-Answers :
      (st : SchedulerState S)
      → Answers limits.scheduler_max_retries 0 st (call x limits store provider model q attempts st)
  unfolding call
  call-Answers st = call_from-Answers limits.scheduler_max_retries 0 st
