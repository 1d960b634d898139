-- ===== src/Worker.antt =====
-- dev_orchestrator/v8/worker.py: `_execute`, from the claimed job to its end. The heartbeats that run
-- beside the job are calls of their own; the text of an exception is a parameter.
pub mod Ending
pub mod Loop
pub mod Supervisor
mod Tests
use async_native_ai_orchestr.Prelude.{ℕ, String, Bool, true, false, Option, none, some}
use async_native_ai_orchestr.Json.{Fields, obj}
use async_native_ai_orchestr.Result.{Result, ok, err, Error, value_error, type_error}
use async_native_ai_orchestr.Text.{take_chars}
use async_native_ai_orchestr.Store.Jobs.{Job, start_job, finish_job, fail_job}
use async_native_ai_orchestr.Pipeline.World.{
  World, M, pure, on_store, try_store, swallow, and_then, ◌>>=◌, ◌>>◌,
}
use async_native_ai_orchestr.Pipeline.Phases.{Handler, execute_job}

-- `not isinstance(exc, (ValueError, TypeError))`
abbrev pub is_retryable : Error → Bool
is_retryable (value_error s) = false
is_retryable (type_error s) = false
is_retryable _ = true

-- `try: m` / `except Exception as exc: f(exc)`
abbrev pub caught : {A : Type 0} → (Error → M A) → Result A × World → Result A × World
caught f (ok a, w) = (ok a, w)
caught f (err e, w) = f e w

-- The `except` branch: the job has failed, and an exception of `fail_job` is logged.
abbrev pub give_up : (Error → String) → String → Job → Error → M (Unit {0})
give_up describe worker_id job e = swallow (
    try_store (λ now. λ s.
      let (r, jobs) =
        fail_job s.jobs job.id worker_id (take_chars 2000 (describe e)) (is_retryable e) now in
      (r, record s { jobs = jobs })))

-- The end of a job that was executed: `finish_job` with `result or {}`, which is the result.
abbrev pub finish : String → Job → Fields → M (Unit {0})
finish worker_id job result = do
  try_store (λ now. λ s.
      let (r, jobs) = finish_job s.jobs job.id worker_id (obj result) now in
      (r, record s { jobs = jobs }))
  pure tt

-- What follows `start_job`.
abbrev pub after_start : (Error → String) → Handler → String → Job → Option Job → M (Unit {0})
after_start describe handler worker_id job none w = (ok tt, w)
after_start describe handler worker_id job (some held) w =
    caught (give_up describe worker_id job) ((execute_job handler job >>= finish worker_id job) w)

-- `_execute`
unfoldable pub execute : (Error → String) → Handler → String → ℕ → Job → M (Unit {0})
execute describe handler worker_id lease_seconds job = do
  started ← on_store (λ now. λ s.
      let (o, jobs) = start_job s.jobs job.id worker_id lease_seconds now in
      (o, record s { jobs = jobs }))
  after_start describe handler worker_id job started
