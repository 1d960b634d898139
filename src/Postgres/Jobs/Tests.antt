-- ===== src/Postgres/Jobs/Tests.antt =====
-- dev_orchestrator/v8/store_pg.py: examples of calls on the table `jobs`.
use async_native_ai_orchestr.Prelude.{
  ◌≡◌, ◌≢◌, refl, subst, true, false, List, [], ◌∷◌, Option, none, some, arith, str_eq, eq_iff,
  String,
}
use async_native_ai_orchestr.Prelude.Dict.{Dict, get, put}
use async_native_ai_orchestr.Json.{obj, end}
use async_native_ai_orchestr.Models.Status.{JobStatus, queued, leased}
use async_native_ai_orchestr.Models.Kind.{code_generation, backend}
use async_native_ai_orchestr.Store.Jobs.{Job}
use async_native_ai_orchestr.Store.Jobs.Keyed.{IsKeyed}
use async_native_ai_orchestr.Store.Jobs.History.{Op, claims, finishes, fails, beats}
use async_native_ai_orchestr.Postgres.Jobs.{
  is_held, is_final, oldest, claim_job, fail_job, failed, finish_job, heartbeat_job,
}
use async_native_ai_orchestr.Postgres.Jobs.History.{step, run, AllFree, AllAllowed}
use async_native_ai_orchestr.Postgres.Jobs.Phases.{phase_of, waiting, Runs}
use async_native_ai_orchestr.Postgres.Jobs.Refines.{run-Runs}
use async_native_ai_orchestr.Postgres.Jobs.Holder.{run-is_held}
use async_native_ai_orchestr.Postgres.Jobs.Attempts.{AllWithin, run-AllWithin}

abbrev row : (id worker_id : String) → JobStatus → Job
row id worker_id status = record {
  id = id;
  tenant_id = "t";
  run_id = "r";
  job_type = code_generation;
  role = backend;
  status = status;
  resume_key = "k";
  work_package_id = none;
  wave_id = none;
  payload = obj end;
  result = obj end;
  attempts = 0;
  max_attempts = 2;
  worker_id = worker_id;
  lease_until = none;
  heartbeat_at = none;
  last_error = "";
  created_at = 0;
  updated_at = 0;
}

-- A job that waits, and one that the worker "w" holds.
abbrev rows : Dict Job
rows = ("a", row "a" "" queued) ∷ ("b", row "b" "w" leased) ∷ []

rows-IsKeyed : IsKeyed rows
unfolding get
rows-IsKeyed = (refl, refl, (refl, refl, tt))

rows-AllFree : AllFree rows
rows-AllFree = (λ a b. refl, (λ a b. absurd (cc), tt))

rows-AllWithin : AllWithin rows
rows-AllWithin = ground arith

-- Another worker claims the job that waits, tries to finish the other one, and fails its own.
abbrev calls : List Op
calls =
    claims "t" backend "v" 60 10
    ∷ finishes "b" "v" (obj end) 20
    ∷ beats "b" "w" 60 25
    ∷ fails "a" "v" "e" true 30
    ∷ []

named : (s : String) → str_eq s "" ≡ false → s ≢ ""
named s h e = ground (arith, eq_iff s "")

abbrev IsOpenRow : Option Job → Type 0
IsOpenRow none = Unit
IsOpenRow (some j) = is_final j.status ≡ false

calls-AllAllowed : AllAllowed rows calls
unfolding step claim_job finish_job heartbeat_job oldest get put
calls-AllAllowed =
    (named "v" refl, (named "v" refl, (tt, ((named "v" refl, λ j e. subst IsOpenRow e refl), tt))))

run-Runs_example : Runs "a" calls (phase_of (get "a" rows)) (phase_of (get "a" (run rows calls)))
run-Runs_example = run-Runs rows calls "a" rows-IsKeyed rows-AllFree calls-AllAllowed

-- The job of "a" goes from waiting over held to waiting.
ends_waiting : phase_of (get "a" (run rows calls)) ≡ some waiting
unfolding step claim_job finish_job fail_job failed heartbeat_job oldest get put
ends_waiting = refl

run-is_held_example :
    (j : Job) × (get "b" (run rows calls) ≡ some j)
    × (is_held j.status ≡ true)
    × (j.worker_id ≡ "w")
unfolding get
run-is_held_example =
    run-is_held rows calls "b" "w" (row "b" "w" leased) rows-IsKeyed rows-AllFree calls-AllAllowed
      refl refl refl (refl, (refl, (refl, (refl, tt))))

run-AllWithin_example : AllWithin (run rows calls)
run-AllWithin_example = run-AllWithin rows calls rows-AllWithin (tt, (tt, (tt, (tt, tt))))

-- A job that is over goes back to the queue when the worker that finished it fails it.
abbrev revived : Dict Job
revived = (fail_job (finish_job rows "b" "w" (obj end) 20).1 "b" "w" "e" true 30).1

revived_waiting : phase_of (get "b" revived) ≡ some waiting
unfolding finish_job fail_job failed get put
revived_waiting = refl
