-- ===== src/Postgres/Jobs/Attempts.antt =====
-- dev_orchestrator/v8/store_pg.py: the attempts of a job.
use async_native_ai_orchestr.Prelude.{
  ℕ, String, ◌≡◌, ◌≤◌, ◌<◌, refl, Bool, true, List, [], ◌∷◌, Option, none, some, arith, if_both,
  Option-cases, inl, inr, All, ltb, is_some, ◌&&◌,
}
use async_native_ai_orchestr.Prelude.Dict.{Dict, get, All-put, All-get}
use async_native_ai_orchestr.Models.Kind.{PackageRole}
use async_native_ai_orchestr.Result.{Result}
use async_native_ai_orchestr.Store.Jobs.{Job, active_holder}
use async_native_ai_orchestr.Store.Jobs.History.{
  Op, enqueues, claims, starts, finishes, fails, beats, requeues,
}
use async_native_ai_orchestr.Postgres.Jobs.{
  enqueue_job, claim_job, start_job, finish_job, fail_job, heartbeat_job, requeue_expired_jobs,
  is_waiting, is_held, claimable, oldest, leased_to, update_where, startable, started, is_owned,
  finished, failed, beaten, expired, requeued, older,
}
use async_native_ai_orchestr.Postgres.Jobs.History.{step, run}

-- No attempt is made past the limit, and a job that waits for a worker has one left.
pub record IsWithin (j : Job) : Type 0 where
  pub bounded : j.attempts ≤ j.max_attempts
  pub left : is_waiting j.status ≡ true → j.attempts < j.max_attempts

abbrev pub AllWithin : Dict Job → Type 0
AllWithin = All (λ e. IsWithin e.1)

-- A new job comes with attempts left.
abbrev pub ComesFresh : Op → Type 0
ComesFresh (enqueues j now) = j.attempts < j.max_attempts
ComesFresh _ = Unit

older-IsWithin :
    (j : Job) (o : Option Job)
    → IsWithin j
    → ((i : Job) → o ≡ some i → IsWithin i)
    → IsWithin (older j o)
older-IsWithin j none h hs = h
older-IsWithin j (some i) h hs =
    if_both IsWithin (ltb i.created_at j.created_at) (λ _. hs i refl) (λ _. h)

oldest-IsWithin :
    (p : Job → Bool) (m : Dict Job) (j : Job)
    → AllWithin m
    → oldest p m ≡ some j
    → IsWithin j × (p j ≡ true)
unfolding oldest
oldest-IsWithin p [] j v e = cc
oldest-IsWithin p ((k, i) ∷ m) j (h, v) e = elim (Option-cases (oldest p m)) [
  | inl none_left ↦ ground arith
  | inr (r, rest) ↦ ground (arith, oldest-IsWithin p m r v rest)
]

requeued-IsWithin : (now : ℕ) (j : Job) → IsWithin j → IsWithin (requeued now j)
unfolding requeued
requeued-IsWithin now j h = ground arith

failed-IsWithin :
    (error : String) (retryable : Bool) (now : ℕ) (j : Job)
    → IsWithin j
    → IsWithin (failed error retryable now j)
unfolding failed
failed-IsWithin error retryable now j h = ground arith

requeue_expired_jobs-AllWithin :
    (t : String) (now : ℕ) (m : Dict Job) → AllWithin m → AllWithin (requeue_expired_jobs t now m).1
unfolding requeue_expired_jobs
requeue_expired_jobs-AllWithin t now [] v = tt
requeue_expired_jobs-AllWithin t now ((k, j) ∷ m) (h, v) =
    let rest = requeue_expired_jobs-AllWithin t now m v in
    if_both {A = ℕ × Dict Job} (λ r. AllWithin r.1) (expired t now j)
      (λ _. (requeued-IsWithin now j h, rest)) (λ _. (h, rest))

module _ (m : Dict Job) (v : AllWithin m) where
  update_where-AllWithin :
      (p : Job → Bool) (g : Job → Job) (i : String)
      → ((j : Job) → IsWithin j → p j ≡ true → IsWithin (g j))
      → AllWithin (update_where p g i m).1
  update_where-AllWithin p g i keeps = elim (Option-cases (get i m)) [
    | inl e ↦ rw (e, update_where) v
    | inr (j, e) ↦
        rw (e, update_where)
          (if_both {A = Option Job × Dict Job} (λ r. AllWithin r.1) (p j)
            (λ fits. All-put IsWithin i (g j) m (keeps j (All-get IsWithin i j m e v) fits) v)
            (λ _. v))
  ]

  enqueue_job-AllWithin :
      (j : Job) (now : ℕ) → j.attempts < j.max_attempts → AllWithin (enqueue_job m j now).1
  unfolding enqueue_job
  enqueue_job-AllWithin j now left = elim (Option-cases (active_holder j.resume_key m)) [
    | inl e ↦
        rw (e, enqueue_job)
          (if_both AllWithin (is_some (get j.id m)) (λ _. v)
            (λ _. All-put IsWithin j.id _ m (ground arith) v))
    | inr (i, e) ↦ rw (e, enqueue_job) v
  ]

  claim_job-AllWithin :
      (t : String) (r : PackageRole) (w : String) (ls now : ℕ)
      → AllWithin (claim_job t r w ls now m).1
  unfolding claim_job
  claim_job-AllWithin t r w ls now = elim (Option-cases (oldest (claimable t r) m)) [
    | inl e ↦ rw (e, claim_job) v
    | inr (j, e) ↦
        let (h, fits) = oldest-IsWithin (claimable t r) m j v e in
        let h' : IsWithin (leased_to w ls now j) = ground arith in
        rw (e, claim_job) (All-put IsWithin j.id (leased_to w ls now j) m h' v)
  ]

  fail_job-AllWithin :
      (i w error : String) (retryable : Bool) (now : ℕ)
      → AllWithin (fail_job m i w error retryable now).1
  unfolding fail_job
  fail_job-AllWithin i w error retryable now = elim (Option-cases (get i m)) [
    | inl e ↦ rw (e, fail_job) v
    | inr (j, e) ↦
        let h = failed-IsWithin error retryable now j (All-get IsWithin i j m e v) in
        rw (e, fail_job)
          (if_both {A = Result Job × Dict Job} (λ r. AllWithin r.1) (is_owned w j)
            (λ _. All-put IsWithin i (failed error retryable now j) m h v) (λ _. v))
  ]

  step-AllWithin : (o : Op) → ComesFresh o → AllWithin (step m o)
  unfolding step start_job finish_job heartbeat_job
  step-AllWithin (enqueues j now) left = enqueue_job-AllWithin j now left
  step-AllWithin (claims t r w ls now) ok = claim_job-AllWithin t r w ls now
  step-AllWithin (starts i w ls now) ok =
      update_where-AllWithin (startable w) (started ls now) i (λ j h fits. ground arith)
  step-AllWithin (finishes i w res now) ok =
      update_where-AllWithin (is_owned w) (finished res now) i (λ j h fits. ground arith)
  step-AllWithin (fails i w e retryable now) ok = fail_job-AllWithin i w e retryable now
  step-AllWithin (beats i w ls now) ok =
      update_where-AllWithin (λ j. is_owned w j && is_held j.status) (beaten ls now) i
        (λ j h fits. ground arith)
  step-AllWithin (requeues t now) ok = requeue_expired_jobs-AllWithin t now m v

-- Every sequence of calls on `jobs` keeps the attempts of every job within its maximum, and leaves an
-- attempt to each job that waits for a worker, if each new job comes with an attempt left.
pub run-AllWithin :
    (m : Dict Job) (os : List Op) → AllWithin m → All ComesFresh os → AllWithin (run m os)
run-AllWithin m [] v fresh = v
run-AllWithin m (o ∷ os) v (h, fresh) = run-AllWithin (step m o) os (step-AllWithin m v o h) fresh
