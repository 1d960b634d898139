-- ===== src/Store/Jobs/History.antt =====
-- dev_orchestrator/v8/store_memory.py: sequences of calls on the job queue, and what they keep.
use async_native_ai_orchestr.Prelude.{
  ℕ, ◌+◌, String, ◌≡◌, ◌≢◌, ◌≤◌, ◌<◌, ◌⊎◌, List, [], ◌∷◌, Option, none, some, arith, str_eq,
  Option-cases, inl, inr, All, Bool, if_both, is_some,
}
use async_native_ai_orchestr.Prelude.Dict.{get, All-put, All-get}
use async_native_ai_orchestr.Models.Kind.{PackageRole}
use async_native_ai_orchestr.Models.Status.{JobStatus, queued, leased}
use async_native_ai_orchestr.Json.{Json}
use async_native_ai_orchestr.Store.Jobs.{
  Job, enqueue_job, claim_job, start_job, finish_job, fail, fail_job, heartbeat_job,
  requeue_expired_jobs, attempt_limit, active_holder, seconds,
}

-- A call on the queue, with its time.
pub data Op : Type 0 where
  enqueues : Job → (now : ℕ) → Op
  claims : (tenant_id : String) → PackageRole → (worker_id : String) → (lease_seconds now : ℕ) → Op
  starts : (job_id worker_id : String) → (lease_seconds now : ℕ) → Op
  finishes : (job_id worker_id : String) → Json → (now : ℕ) → Op
  fails : (job_id worker_id error : String) → (retryable : Bool) → (now : ℕ) → Op
  beats : (job_id worker_id : String) → (lease_seconds now : ℕ) → Op
  requeues : (tenant_id : String) → (now : ℕ) → Op

unfoldable pub step : List (String × Job) → Op → List (String × Job)
step m (enqueues j now) = (enqueue_job m j now).1
step m (claims t r w ls now) = (claim_job t r w ls now m).1
step m (starts i w ls now) = (start_job m i w ls now).1
step m (finishes i w res now) = (finish_job m i w res now).1
step m (fails i w e retryable now) = (fail_job m i w e retryable now).1
step m (beats i w ls now) = heartbeat_job m i w ls now
step m (requeues t now) = (requeue_expired_jobs t now m).1

-- Waiting for a worker, or held by one.
abbrev pub IsOpen : JobStatus → Type 0
IsOpen s = (s ≡ queued) ⊎ (s ≡ leased)

-- What a call must respect: a new job comes with attempts left, and a job is started or failed only
-- while it is open, as the worker's sequence of claim, start and fail does.
abbrev pub Allowed : List (String × Job) → Op → Type 0
Allowed m (enqueues j now) = (j.attempts < attempt_limit j) × (j.status ≡ queued)
Allowed m (starts i w ls now) = (j : Job) → get i m ≡ some j → IsOpen j.status
Allowed m (fails i w e retryable now) = (j : Job) → get i m ≡ some j → IsOpen j.status
Allowed m _ = Unit

-- No attempt is made past the limit: a job that a worker holds or may still be given has an attempt
-- left, and a held job has the end of its lease.
pub record IsSound (j : Job) : Type 0 where
  pub within : j.attempts ≤ attempt_limit j
  pub left : IsOpen j.status → j.attempts < attempt_limit j
  pub timed : j.status ≡ leased → j.lease_until ≢ none

abbrev pub AllSound : List (String × Job) → Type 0
AllSound = All (λ e. IsSound e.1)

claim_job-AllSound :
    (t : String) (r : PackageRole) (w : String) (ls now : ℕ) (m : List (String × Job))
    → AllSound m
    → AllSound (claim_job t r w ls now m).1
unfolding claim_job
claim_job-AllSound t r w ls now [] v = tt
claim_job-AllSound t r w ls now ((k, j) ∷ m) (h, v) =
    ground (arith, claim_job-AllSound t r w ls now m v)

requeue_expired_jobs-AllSound :
    (t : String) (now : ℕ) (m : List (String × Job))
    → AllSound m
    → AllSound (requeue_expired_jobs t now m).1
unfolding requeue_expired_jobs
requeue_expired_jobs-AllSound t now [] v = tt
requeue_expired_jobs-AllSound t now ((k, j) ∷ m) (h, v) =
    ground (arith, requeue_expired_jobs-AllSound t now m v)

fail-IsSound :
    (j : Job) (e : String) (retryable : Bool) (now : ℕ)
    → IsSound j
    → IsOpen j.status
    → IsSound (fail j e retryable now)
unfolding fail
fail-IsSound j e retryable now h o = ground arith

module _ (m : List (String × Job)) (v : AllSound m) where
  enqueue_job-AllSound :
      (j : Job) (now : ℕ)
      → j.attempts < attempt_limit j
      → j.status ≡ queued
      → AllSound (enqueue_job m j now).1
  unfolding enqueue_job
  enqueue_job-AllSound j now left waiting = elim (Option-cases (active_holder j.resume_key m)) [
    | inl e ↦
        rw (e, enqueue_job)
          (All-put IsSound j.id _ m
            (if_both IsSound (is_some (get j.id m)) (λ _. ground arith) (λ _. ground arith)) v)
    | inr (i, e) ↦ rw (e, enqueue_job) v
  ]

  start_job-AllSound :
      (i w : String) (ls now : ℕ)
      → ((j : Job) → get i m ≡ some j → IsOpen j.status)
      → AllSound (start_job m i w ls now).1
  unfolding start_job
  start_job-AllSound i w ls now open_job = elim (Option-cases (get i m)) [
    | inl e ↦ rw (e, start_job) v
    | inr (j, e) ↦
        let h = All-get IsSound i j m e v in
        let o = open_job j e in
        let j' = record j {
          status = leased;
          lease_until = some (now + seconds ls);
          updated_at = now;
        } in
        let h' : IsSound j' = ground arith in
        rw (e, start_job)
          (if_both {A = Option Job × List (String × Job)} (λ r. AllSound r.1) (str_eq j.worker_id w)
            (λ _. All-put IsSound i j' m h' v) (λ _. v))
  ]

  finish_job-AllSound :
      (i w : String) (res : Json) (now : ℕ) → AllSound (finish_job m i w res now).1
  unfolding finish_job
  finish_job-AllSound i w res now = elim (Option-cases (get i m)) [
    | inl e ↦ rw (e, finish_job) v
    | inr (j, e) ↦
        let h = All-get IsSound i j m e v in
        rw (e, finish_job) (All-put IsSound i _ m (ground arith) v)
  ]

  fail_job-AllSound :
      (i w error : String) (retryable : Bool) (now : ℕ)
      → ((j : Job) → get i m ≡ some j → IsOpen j.status)
      → AllSound (fail_job m i w error retryable now).1
  unfolding fail_job
  fail_job-AllSound i w error retryable now open_job = elim (Option-cases (get i m)) [
    | inl e ↦ rw (e, fail_job) v
    | inr (j, e) ↦
        rw (e, fail_job)
          (All-put IsSound i _ m
            (fail-IsSound j error retryable now (All-get IsSound i j m e v) (open_job j e)) v)
  ]

  heartbeat_job-AllSound : (i w : String) (ls now : ℕ) → AllSound (heartbeat_job m i w ls now)
  unfolding heartbeat_job
  heartbeat_job-AllSound i w ls now = elim (Option-cases (get i m)) [
    | inl e ↦ rw (e, heartbeat_job) v
    | inr (j, e) ↦
        let h = All-get IsSound i j m e v in
        let j' = record j {
          lease_until = some (now + seconds ls);
          heartbeat_at = some now;
          updated_at = now;
        } in
        let h' : IsSound j' = ground arith in
        rw (e, heartbeat_job)
          (if_both AllSound (str_eq j.worker_id w) (λ _. All-put IsSound i j' m h' v) (λ _. v))
  ]

  step-AllSound : (o : Op) → Allowed m o → AllSound (step m o)
  unfolding step
  step-AllSound (enqueues j now) (left, fresh) = enqueue_job-AllSound j now left fresh
  step-AllSound (claims t r w ls now) ok = claim_job-AllSound t r w ls now m v
  step-AllSound (starts i w ls now) ok = start_job-AllSound i w ls now ok
  step-AllSound (finishes i w res now) ok = finish_job-AllSound i w res now
  step-AllSound (fails i w e retryable now) ok = fail_job-AllSound i w e retryable now ok
  step-AllSound (beats i w ls now) ok = heartbeat_job-AllSound i w ls now
  step-AllSound (requeues t now) ok = requeue_expired_jobs-AllSound t now m v

abbrev pub run : List (String × Job) → List Op → List (String × Job)
run m [] = m
run m (o ∷ os) = run (step m o) os

-- Each call is allowed in the table that the calls before it leave.
abbrev pub AllAllowed : List (String × Job) → List Op → Type 0
AllAllowed m [] = Unit
AllAllowed m (o ∷ os) = Allowed m o × AllAllowed (step m o) os

-- Sequences of calls keep the attempts of every job within its limit: a queued or leased job always
-- has an attempt left, and a leased job has an end of its lease. New jobs come queued with attempts
-- left, and a job is started or failed only while it is queued or leased.
pub run-AllSound :
    (m : List (String × Job)) (os : List Op) → AllSound m → AllAllowed m os → AllSound (run m os)
run-AllSound m [] v ok = v
run-AllSound m (o ∷ os) v (ok, oks) = run-AllSound (step m o) os (step-AllSound m v o ok) oks
