-- ===== src/Store/Jobs/Tests.antt =====
-- dev_orchestrator/v8/store_memory.py: tests of the job queue and examples.
use async_native_ai_orchestr.Prelude.{
  String, ◌≡◌, refl, sym, ap, true, inr, List, [], ◌∷◌, Option, none, some, arith, is_some,
}
use async_native_ai_orchestr.Prelude.Dict.{get}
use async_native_ai_orchestr.Json.{obj, end}
use async_native_ai_orchestr.Models.Status.{JobStatus, queued, leased}
use async_native_ai_orchestr.Models.Kind.{code_generation, backend}
use async_native_ai_orchestr.Store.Jobs.{Job, claim_job, lease, requeue_expired_jobs}
use async_native_ai_orchestr.Store.Jobs.Keyed.{IsKeyed}
use async_native_ai_orchestr.Store.Jobs.Claim.{Claims, claim_job-Claims}
use async_native_ai_orchestr.Store.Jobs.History.{
  Op, enqueues, claims, fails, AllSound, AllAllowed, run, step, run-AllSound,
}
use async_native_ai_orchestr.Store.Jobs.Requeue.{requeue_expired_jobs-claim_job}
use async_native_ai_orchestr.Store.Jobs.Dedup.{UniqueActive, step-UniqueActive}

abbrev job : (id key : String) → Job
job id key = record {
  id = id;
  tenant_id = "t";
  run_id = "r";
  job_type = code_generation;
  role = backend;
  status = queued;
  resume_key = key;
  work_package_id = none;
  wave_id = none;
  payload = obj end;
  result = obj end;
  attempts = 0;
  max_attempts = 2;
  worker_id = "";
  lease_until = none;
  heartbeat_at = none;
  last_error = "";
  created_at = 0;
  updated_at = 0;
}

abbrev two_jobs : List (String × Job)
two_jobs = ("a", job "a" "k") ∷ ("b", job "b" "l") ∷ []

-- The first job is held by the worker "w" until 1000010.
abbrev one_held : List (String × Job)
one_held = ("a", lease "w" 1 10 (job "a" "k")) ∷ ("b", job "b" "l") ∷ []

two_jobs-IsKeyed : IsKeyed two_jobs
unfolding get
two_jobs-IsKeyed = (refl, refl, (refl, refl, tt))

two_jobs-UniqueActive : UniqueActive two_jobs
two_jobs-UniqueActive = ((refl, tt), (tt, tt))

two_jobs-AllSound : AllSound two_jobs
two_jobs-AllSound = ground arith

claimed_first : (claim_job "t" backend "w" 1 10 two_jobs).0 ≡ some (lease "w" 1 10 (job "a" "k"))
unfolding claim_job
claimed_first = refl

claimed_second :
    (claim_job "t" backend "v" 1 20 (claim_job "t" backend "w" 1 10 two_jobs).1).0
    ≡ some (lease "v" 1 20 (job "b" "l"))
unfolding claim_job
claimed_second = refl

claim_job-Claims_example :
    Claims "t" backend "w" 1 10 two_jobs (claim_job "t" backend "w" 1 10 two_jobs)
claim_job-Claims_example = claim_job-Claims "t" backend "w" 1 10 two_jobs

-- A claim and a failure of the job that was claimed.
abbrev calls : List Op
calls = claims "t" backend "w" 1 10 ∷ fails "a" "w" "e" true 20 ∷ []

abbrev status_of : Option Job → JobStatus
status_of none = leased
status_of (some j) = j.status

calls-AllAllowed : AllAllowed two_jobs calls
unfolding step claim_job get
calls-AllAllowed = (tt, ((λ j e. inr (ap status_of (sym e))), tt))

run-AllSound_example : AllSound (run two_jobs calls)
run-AllSound_example = run-AllSound two_jobs calls two_jobs-AllSound calls-AllAllowed

-- A third job under the key of the first, which is then not stored.
step-UniqueActive_example : UniqueActive (step two_jobs (enqueues (job "c" "k") 30))
step-UniqueActive_example =
    step-UniqueActive two_jobs two_jobs-UniqueActive (enqueues (job "c" "k") 30) tt

requeue_expired_jobs-claim_job_example :
    is_some (claim_job "t" backend "v" 1 3000000 (requeue_expired_jobs "t" 2000000 one_held).1).0
    ≡ true
requeue_expired_jobs-claim_job_example =
    requeue_expired_jobs-claim_job "t" backend "v" 1 2000000 3000000 one_held refl
