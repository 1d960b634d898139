-- ===== src/Postgres/Jobs/History.antt =====
-- dev_orchestrator/v8/store_pg.py: sequences of calls on the table `jobs`, and how a job's row stands.
use async_native_ai_orchestr.Prelude.{◌≡◌, ◌≢◌, false, List, [], ◌∷◌, some, All}
use async_native_ai_orchestr.Prelude.Dict.{Dict, get}
use async_native_ai_orchestr.Store.Jobs.{Job}
use async_native_ai_orchestr.Store.Jobs.History.{
  Op, enqueues, claims, starts, finishes, fails, beats, requeues,
}
use async_native_ai_orchestr.Postgres.Jobs.{
  enqueue_job, claim_job, start_job, finish_job, fail_job, heartbeat_job, requeue_expired_jobs,
  is_held, is_final,
}

unfoldable pub step : Dict Job → Op → Dict Job
step m (enqueues j now) = (enqueue_job m j now).1
step m (claims t r w ls now) = (claim_job t r w ls now m).1
step m (starts i w ls now) = (start_job m i w ls now).1
step m (finishes i w res now) = (finish_job m i w res now).1
step m (fails i w e retryable now) = (fail_job m i w e retryable now).1
step m (beats i w ls now) = heartbeat_job m i w ls now
step m (requeues t now) = (requeue_expired_jobs t now m).1

abbrev pub run : Dict Job → List Op → Dict Job
run m [] = m
run m (o ∷ os) = run (step m o) os

-- A row that no worker holds, and that is not over, names no worker.
abbrev pub IsFree : Job → Type 0
IsFree j = is_held j.status ≡ false → is_final j.status ≡ false → j.worker_id ≡ ""

abbrev pub AllFree : Dict Job → Type 0
AllFree = All (λ e. IsFree e.1)

-- What a call must respect: a new row names no worker, a worker has a name, and no job is failed
-- after it is over.
abbrev pub Allowed : Dict Job → Op → Type 0
Allowed m (enqueues j now) = j.worker_id ≡ ""
Allowed m (claims t r w ls now) = w ≢ ""
Allowed m (finishes i w res now) = w ≢ ""
Allowed m (fails i w e retryable now) =
    (w ≢ "") × ((j : Job) → get i m ≡ some j → is_final j.status ≡ false)
Allowed m _ = Unit

abbrev pub AllAllowed : Dict Job → List Op → Type 0
AllAllowed m [] = Unit
AllAllowed m (o ∷ os) = Allowed m o × AllAllowed (step m o) os
