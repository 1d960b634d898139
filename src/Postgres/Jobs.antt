-- ===== src/Postgres/Jobs.antt =====
-- dev_orchestrator/v8/store_pg.py: the table `jobs` and the methods on it. Each method runs in one
-- transaction. The tenant that `enqueue_job` is given is the job's, as in every call of it.
pub mod History
pub mod Phases
pub mod Refines
pub mod Holder
pub mod Attempts
mod Tests
use async_native_ai_orchestr.Prelude.{
  ℕ, ◌+◌, String, Bool, true, false, ◌&&◌, ◌||◌, List, [], ◌∷◌, Option, none, some, ltb,
  if◌then◌else◌, str_eq, str_append, is_some, keep, length,
}
use async_native_ai_orchestr.Prelude.Dict.{Dict, get, put, values}
use async_native_ai_orchestr.Json.{Json}
use async_native_ai_orchestr.Result.{Result, ok, err, Error, other_error}
use async_native_ai_orchestr.Text.{take_chars}
use async_native_ai_orchestr.Models.Kind.{PackageRole, role_value}
use async_native_ai_orchestr.Models.Status.{
  JobStatus, queued, leased, running, completed, retry, dead_letter, cancelled, paused,
}
use async_native_ai_orchestr.Store.Jobs.{Job, active_holder, seconds, lease_before}

-- The row that `INSERT INTO jobs` makes, whose other columns take their defaults.
abbrev pub inserted : Job → Job
inserted j = record j { lease_until = none; heartbeat_at = none }

unfoldable pub enqueue_job : Dict Job → Job → ℕ → Job × Dict Job
enqueue_job jobs job now =
    let job' = record job { status = queued; updated_at = now } in
    elim (active_holder job.resume_key jobs) [
      | some existing ↦ (existing, jobs)
      | none ↦ (job', if is_some (get job.id jobs) then jobs else put job.id (inserted job') jobs)
    ]

-- `status = ANY('queued', 'retry')`
abbrev pub is_waiting : JobStatus → Bool
is_waiting queued = true
is_waiting retry = true
is_waiting _ = false

-- `status = ANY('leased', 'running')`
abbrev pub is_held : JobStatus → Bool
is_held leased = true
is_held running = true
is_held _ = false

abbrev pub claimable : String → PackageRole → Job → Bool
claimable tenant_id role j =
    str_eq j.tenant_id tenant_id
    && (str_eq (role_value j.role) (role_value role) && is_waiting j.status)

-- `ORDER BY created_at ASC LIMIT 1`
abbrev pub older : Job → Option Job → Job
older j none = j
older j (some k) = if ltb k.created_at j.created_at then k else j

unfoldable pub oldest : (Job → Bool) → Dict Job → Option Job
oldest p [] = none
oldest p ((k, j) ∷ jobs) = let rest = oldest p jobs in if p j then some (older j rest) else rest

abbrev pub leased_to : String → (lease_seconds now : ℕ) → Job → Job
leased_to worker_id lease_seconds now j = record j {
  status = leased;
  attempts = j.attempts + 1;
  worker_id = worker_id;
  lease_until = some (now + seconds lease_seconds);
  heartbeat_at = some now;
  updated_at = now;
}

unfoldable pub claim_job :
    (tenant_id : String) (role : PackageRole) (worker_id : String) (lease_seconds now : ℕ)
    → Dict Job
    → Option Job × Dict Job
claim_job tenant_id role worker_id lease_seconds now jobs =
    elim (oldest (claimable tenant_id role) jobs) [
      | none ↦ (none, jobs)
      | some j ↦ let j' = leased_to worker_id lease_seconds now j in (some j', put j.id j' jobs)
    ]

-- `UPDATE jobs SET … WHERE id=… AND … RETURNING *`
abbrev pub update_where : (Job → Bool) → (Job → Job) → String → Dict Job → Option Job × Dict Job
update_where p f job_id jobs = elim (get job_id jobs) [
  | none ↦ (none, jobs)
  | some j ↦ if p j then (some (f j), put job_id (f j) jobs) else (none, jobs)
]

-- `worker_id=… AND status='leased'`
abbrev pub startable : String → Job → Bool
startable worker_id j =
    str_eq j.worker_id worker_id && (elim j.status [ leased ↦ true | _ ↦ false ])

abbrev pub started : (lease_seconds now : ℕ) → Job → Job
started lease_seconds now j = record j {
  status = running;
  heartbeat_at = some now;
  lease_until = some (now + seconds lease_seconds);
  updated_at = now;
}

unfoldable pub start_job :
    Dict Job → (job_id worker_id : String) → (lease_seconds now : ℕ) → Option Job × Dict Job
start_job jobs job_id worker_id lease_seconds now =
    update_where (startable worker_id) (started lease_seconds now) job_id jobs

abbrev pub is_owned : String → Job → Bool
is_owned worker_id j = str_eq j.worker_id worker_id

abbrev pub finished : Json → ℕ → Job → Job
finished result now j = record j {
  status = completed;
  result = result;
  lease_until = none;
  heartbeat_at = some now;
  updated_at = now;
}

-- `existing["status"] in ("completed", "failed", "dead_letter")`
abbrev pub is_final : JobStatus → Bool
is_final completed = true
is_final dead_letter = true
is_final _ = false

abbrev pub not_owned : String → Error
not_owned job_id = other_error (str_append "job not found or not owned: " job_id)

-- What `finish_job` answers when its UPDATE met no row.
abbrev pub existing_final : String → Option Job → Result Job
existing_final job_id none = err (not_owned job_id)
existing_final job_id (some j) = if is_final j.status then ok j else err (not_owned job_id)

unfoldable pub finish_job :
    Dict Job → (job_id worker_id : String) → Json → ℕ → Result Job × Dict Job
finish_job jobs job_id worker_id result now =
    let (row, jobs') = update_where (is_owned worker_id) (finished result now) job_id jobs in
    (elim row [ some j ↦ ok j | none ↦ existing_final job_id (get job_id jobs) ], jobs')

-- The row after the UPDATE of `fail_job`.
unfoldable pub failed : String → Bool → ℕ → Job → Job
failed error retryable now j = record j {
  status = if retryable && ltb j.attempts j.max_attempts then retry else dead_letter;
  worker_id = "";
  lease_until = none;
  last_error = take_chars 2000 error;
  heartbeat_at = some now;
  updated_at = now;
}

abbrev pub missing_job : String → Error
missing_job job_id = other_error (str_append "job not found: " job_id)

unfoldable pub fail_job :
    Dict Job → (job_id worker_id error : String) → (retryable : Bool) → ℕ → Result Job × Dict Job
fail_job jobs job_id worker_id error retryable now = elim (get job_id jobs) [
  | none ↦ (err (missing_job job_id), jobs)
  | some j ↦
      let j' = failed error retryable now j in
      if is_owned worker_id j then (ok j', put job_id j' jobs) else (err (not_owned job_id), jobs)
]

abbrev pub beaten : (lease_seconds now : ℕ) → Job → Job
beaten lease_seconds now j = record j {
  heartbeat_at = some now;
  lease_until = some (now + seconds lease_seconds);
  updated_at = now;
}

unfoldable pub heartbeat_job :
    Dict Job → (job_id worker_id : String) → (lease_seconds now : ℕ) → Dict Job
heartbeat_job jobs job_id worker_id lease_seconds now =
    (update_where (λ j. is_owned worker_id j && is_held j.status) (beaten lease_seconds now) job_id
      jobs).1

abbrev pub expired : String → ℕ → Job → Bool
expired tenant_id now j =
    str_eq j.tenant_id tenant_id && (is_held j.status && lease_before j.lease_until now)

unfoldable pub requeued : ℕ → Job → Job
requeued now j = record j {
  status = if ltb j.attempts j.max_attempts then retry else dead_letter;
  worker_id = "";
  lease_until = none;
  updated_at = now;
}

-- The number of rows that the UPDATE met, and the table.
unfoldable pub requeue_expired_jobs : String → ℕ → Dict Job → ℕ × Dict Job
requeue_expired_jobs tenant_id now [] = (0, [])
requeue_expired_jobs tenant_id now ((k, j) ∷ jobs) =
    let (count, rest) = requeue_expired_jobs tenant_id now jobs in
    if expired tenant_id now j
    then (count + 1, (k, requeued now j) ∷ rest)
    else (count, (k, j) ∷ rest)
