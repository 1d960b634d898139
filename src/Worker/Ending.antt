-- ===== src/Worker/Ending.antt =====
-- dev_orchestrator/v8/worker.py: how the execution of a job ends.
use async_native_ai_orchestr.Prelude.{
  ℕ, ◌+◌, String, ◌≡◌, refl, Option, none, some, arith, ltb, ◌&&◌, if◌then◌else◌,
}
use async_native_ai_orchestr.Prelude.Dict.{get, get-put_self}
use async_native_ai_orchestr.Json.{Fields, obj}
use async_native_ai_orchestr.Result.{Result, ok, err, Error}
use async_native_ai_orchestr.Models.Status.{JobStatus}
use async_native_ai_orchestr.Store.Jobs.{Job, start_job, finish_job, fail_job, fail, attempt_limit}
use async_native_ai_orchestr.Pipeline.World.{World, M, and_then, ◌>>=◌}
use async_native_ai_orchestr.Text.{take_chars}
use async_native_ai_orchestr.Pipeline.Phases.{Handler, execute_job}
use async_native_ai_orchestr.Worker.{execute, after_start, caught, give_up, finish, is_retryable}

caught-ok :
    (describe : Error → String) (worker_id : String) (job : Job) (r : Result (Unit {0}) × World)
    → (caught (give_up describe worker_id job) r).0 ≡ ok tt
caught-ok describe worker_id job (ok tt, w) = refl
caught-ok describe worker_id job (err e, w) = refl

caught-id :
    (f : Error → M (Unit {0})) (r : Result (Unit {0}) × World) → r.0 ≡ ok tt → caught f r ≡ r
caught-id f (ok u, w) h = refl
caught-id f (err e, w) h = absurd (differ h)
  where
    differ : ◌≡◌ {A = Result (Unit {0})} (err e) (ok tt) → ⊥
    differ h = ground arith

-- The table that `start_job` leaves for the worker that holds the job.
abbrev pub started_world : String → ℕ → Job → World → World
started_world worker_id ls job w = record w {
  store = record w.store { jobs = (start_job w.store.jobs job.id worker_id ls w.now).1 };
}

-- The status of a job after it failed with an exception, from the attempts it has had.
abbrev pub failed_status : Job → Error → JobStatus
failed_status j e =
    if is_retryable e && ltb (j.attempts + 1) (attempt_limit j)
    then JobStatus.queued
    else JobStatus.dead_letter

give_up-get :
    (describe : Error → String) (worker_id : String) (job j : Job) (e : Error) (w : World)
    → get job.id w.store.jobs ≡ some j
    → (j' : Job) × (get job.id (give_up describe worker_id job e w).1.store.jobs ≡ some j')
      × (j'.attempts ≡ j.attempts + 1)
      × (j'.status ≡ failed_status j e)
unfolding fail_job fail
give_up-get describe worker_id job j e w h =
    let j' = fail j (take_chars 2000 (describe e)) (is_retryable e) w.now in
    (j', rw (h, fail_job) (get-put_self job.id j' w.store.jobs), ground arith, ground arith)

finish-get :
    (worker_id : String) (job j : Job) (result : Fields) (w : World)
    → get job.id w.store.jobs ≡ some j
    → ((finish worker_id job result w).0 ≡ ok tt)
      × ((j' : Job) × (get job.id (finish worker_id job result w).1.store.jobs ≡ some j')
          × (j'.attempts ≡ j.attempts)
          × (j'.status ≡ JobStatus.completed)
          × (j'.result ≡ obj result))
unfolding finish_job
finish-get worker_id job j result w h =
    let j' = record j { status = JobStatus.completed; result = obj result; updated_at = w.now } in
    (
      rw (h, finish_job) refl,
      (j', rw (h, finish_job) (get-put_self job.id j' w.store.jobs), refl, refl, refl),
    )

-- What the work, ended as `r`, leaves of the job `j`.
abbrev pub Ended : Job → Result Fields → Option Job → Type 0
Ended j (ok result) after =
    (j' : Job) × (after ≡ some j')
    × (j'.attempts ≡ j.attempts)
    × (j'.status ≡ JobStatus.completed)
    × (j'.result ≡ obj result)
Ended j (err e) after =
    (j' : Job) × (after ≡ some j')
    × (j'.attempts ≡ j.attempts + 1)
    × (j'.status ≡ failed_status j e)

module _ (describe : Error → String) (handler : Handler) (worker_id : String) (ls : ℕ)
    (job : Job) where
  -- Whatever the handler does and the store holds, `_execute` raises nothing.
  pub execute-ok : (w : World) → (execute describe handler worker_id ls job w).0 ≡ ok tt
  unfolding execute
  execute-ok w =
      go (start_job w.store.jobs job.id worker_id ls w.now).0 (started_world worker_id ls job w)
    where
      go :
          (o : Option Job) (v : World)
          → (and_then (ok o, v) (after_start describe handler worker_id job)).0 ≡ ok tt
      go none v = refl
      go (some held) v =
          caught-ok describe worker_id job ((execute_job handler job >>= finish worker_id job) v)

  -- How `_execute` ends for a job that its worker holds and that is in the table when the work is done:
  -- completed with the result if the work ends normally; if it raises, one attempt more is counted, and the job is queued again
  -- or a dead letter by the kind of the exception and the attempts that are left.
  pub execute-Ended :
      (held j : Job) (r : Result Fields) (w w' : World)
      → (start_job w.store.jobs job.id worker_id ls w.now).0 ≡ some held
      → execute_job handler job (started_world worker_id ls job w) ≡ (r, w')
      → get job.id w'.store.jobs ≡ some j
      → Ended j r (get job.id (execute describe handler worker_id ls job w).1.store.jobs)
  unfolding execute
  execute-Ended held j (ok result) w w' started worked present =
      let (fine, ended) = finish-get worker_id job j result w' present in
      rw started (
        rw worked (
          rw (caught-id (give_up describe worker_id job) (finish worker_id job result w') fine)
            ended))
  execute-Ended held j (err e) w w' started worked present =
      rw started (rw worked (give_up-get describe worker_id job j e w' present))
