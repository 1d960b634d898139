-- ===== src/Worker/Tests.antt =====
-- dev_orchestrator/v8/worker.py: examples of the execution of a job.
use async_native_ai_orchestr.Prelude.{ℕ, String, ◌≡◌, refl, List, [], ◌∷◌, some}
use async_native_ai_orchestr.Prelude.Dict.{Dict, get, put}
use async_native_ai_orchestr.Json.{str, field, end}
use async_native_ai_orchestr.Result.{err, Error, value_error}
use async_native_ai_orchestr.Models.Status.{JobStatus}
use async_native_ai_orchestr.Models.Kind.{JobType, PackageRole}
use async_native_ai_orchestr.Store.Jobs.{Job, start_job}
use async_native_ai_orchestr.Store.Memory.{empty, get_run}
use async_native_ai_orchestr.Pipeline.World.{World, pure}
use async_native_ai_orchestr.Pipeline.Enqueue.{new_job}
use async_native_ai_orchestr.Pipeline.Phases.{Handler, execute_job}
use async_native_ai_orchestr.Worker.{execute}
use async_native_ai_orchestr.Worker.Loop.{AsyncWorker}
use async_native_ai_orchestr.Worker.Ending.{started_world, Ended, execute-Ended}

abbrev all_well : Handler
all_well job run project = pure (field "status" (str "ok") end)

abbrev one_text : Error → String
one_text e = "error"

abbrev held : Job
held = record (new_job "j" "t" "r" JobType.quality PackageRole.qa "r:quality" 3 0) {
  status = JobStatus.leased;
  worker_id = "w";
  lease_until = some 60000007;
  updated_at = 7;
}

-- The run of the job is not there, so that its execution raises.
abbrev lost_run : World
lost_run = record {
  store = record empty { jobs = ("j", held) ∷ [] };
  now = 7;
  mint = λ n. "id";
  minted = 0;
}

starts : (start_job lost_run.store.jobs held.id "w" 60 7).0 ≡ some held
unfolding start_job get
starts = refl

raises :
    execute_job all_well held (started_world "w" 60 held lost_run)
    ≡ (err (value_error "run not found"), lost_run)
unfolding execute_job start_job get put get_run
raises = refl

stays : get held.id lost_run.store.jobs ≡ some held
unfolding get
stays = refl

execute-Ended_example :
    Ended held
      (err (value_error "run not found"))
      (get held.id (execute one_text all_well "w" 60 held lost_run).1.store.jobs)
execute-Ended_example =
    execute-Ended one_text all_well "w" 60 held held held (err (value_error "run not found"))
      lost_run lost_run starts raises stays

abbrev qa_worker : AsyncWorker
qa_worker = record { worker_id = "w"; role = PackageRole.qa; tenant_id = "t"; lease_seconds = 60 }

-- Two rounds between which nothing happens.
abbrev two_rounds : List (World → World)
two_rounds = (λ w. w) ∷ (λ w. w) ∷ []

abbrev concurrency : Dict ℕ
concurrency = ("qa", 2) ∷ ("wizard", 3) ∷ ("docs", 0) ∷ []
