-- ===== src/Store/Jobs.antt =====
-- dev_orchestrator/v8/store_memory.py: the job queue, and `Job` of dev_orchestrator/v8/models.py.
-- The table is `_jobs`. The store hands out deep copies, so a caller holds a value; the methods assign
-- to the stored object. Each call holds the lock throughout. Times are in microseconds.
pub mod Keyed
pub mod Claim
pub mod History
pub mod Requeue
pub mod Dedup
pub mod Resume
mod Tests
use async_native_ai_orchestr.Prelude.{
  ℕ, ◌+◌, ◌*◌, String, Bool, true, false, not, ◌&&◌, List, [], ◌∷◌, Option, none, some, ltb, ◌==◌,
  if◌then◌else◌, str_eq, first, keep, length, is_some,
}
use async_native_ai_orchestr.Prelude.Dict.{Dict, get, put, values}
use async_native_ai_orchestr.Models.Status.{
  JobStatus, queued, leased, running, completed, retry, dead_letter, cancelled, paused, is_queued,
  is_leased,
}
use async_native_ai_orchestr.Models.Kind.{JobType, PackageRole, role_value}
use async_native_ai_orchestr.Json.{Json}
use async_native_ai_orchestr.Result.{Result, ok, err, key_error}

pub record Job : Type 0 where
  pub id : String
  pub tenant_id : String
  pub run_id : String
  pub job_type : JobType
  pub role : PackageRole
  pub status : JobStatus
  pub resume_key : String
  pub work_package_id : Option String
  pub wave_id : Option String
  pub payload : Json
  pub result : Json
  pub attempts : ℕ
  pub max_attempts : ℕ
  pub worker_id : String
  pub lease_until : Option ℕ
  pub heartbeat_at : Option ℕ
  pub last_error : String
  pub created_at : ℕ
  pub updated_at : ℕ

-- `timedelta(seconds=n)`
abbrev pub seconds : ℕ → ℕ
seconds n = n * 1000000

-- `status not in {completed, dead_letter, cancelled}`
abbrev pub is_active : JobStatus → Bool
is_active completed = false
is_active dead_letter = false
is_active cancelled = false
is_active _ = true

abbrev pub has_active_key : String → Job → Bool
has_active_key key j = str_eq j.resume_key key && is_active j.status

-- The job that holds the given resume key, if the key is not empty.
abbrev pub active_holder : String → List (String × Job) → Option Job
active_holder key jobs = if str_eq key "" then none else first (has_active_key key) (values jobs)

unfoldable pub enqueue_job : List (String × Job) → Job → ℕ → Job × List (String × Job)
enqueue_job jobs job now =
    let job' =
      if is_some (get job.id jobs)
      then job
      else record job { status = queued; created_at = now; updated_at = now } in
    elim (active_holder job.resume_key jobs) [
      | some existing ↦ (existing, jobs)
      | none ↦ (job', put job.id job' jobs)
    ]

abbrev pub claimable : String → PackageRole → Job → Bool
claimable tenant_id role j =
    str_eq j.tenant_id tenant_id
    && (str_eq (role_value j.role) (role_value role) && is_queued j.status)

abbrev pub lease : String → (lease_seconds now : ℕ) → Job → Job
lease worker_id lease_seconds now j = record j {
  status = leased;
  worker_id = worker_id;
  lease_until = some (now + seconds lease_seconds);
  heartbeat_at = some now;
  updated_at = now;
}

-- The loop of `claim_job`, which stops at the first job that fits.
unfoldable pub claim_job :
    (tenant_id : String) (role : PackageRole) (worker_id : String) (lease_seconds now : ℕ)
    → List (String × Job)
    → Option Job × List (String × Job)
claim_job tenant_id role worker_id lease_seconds now [] = (none, [])
claim_job tenant_id role worker_id lease_seconds now ((k, j) ∷ jobs) =
    let (found, rest) = claim_job tenant_id role worker_id lease_seconds now jobs in
    let j' = lease worker_id lease_seconds now j in
    if claimable tenant_id role j then (some j', (k, j') ∷ jobs) else (found, (k, j) ∷ rest)

unfoldable pub start_job :
    List (String × Job)
    → String
    → String
    → (lease_seconds now : ℕ) → Option Job × List (String × Job)
start_job jobs job_id worker_id lease_seconds now = elim (get job_id jobs) [
  | none ↦ (none, jobs)
  | some j ↦
      let j' = record j {
        status = leased;
        lease_until = some (now + seconds lease_seconds);
        updated_at = now;
      } in
      if str_eq j.worker_id worker_id then (some j', put job_id j' jobs) else (none, jobs)
]

unfoldable pub finish_job :
    List (String × Job) → (job_id worker_id : String) → Json → ℕ → Result Job × List (String × Job)
finish_job jobs job_id worker_id result now = elim (get job_id jobs) [
  | none ↦ (err (key_error job_id), jobs)
  | some j ↦
      let j' = record j { status = completed; result = result; updated_at = now } in
      (ok j', put job_id j' jobs)
]

-- `job.max_attempts or 3`
abbrev pub attempt_limit : Job → ℕ
attempt_limit j = if j.max_attempts == 0 then 3 else j.max_attempts

-- The assignments of `fail_job`.
unfoldable pub fail : Job → String → Bool → ℕ → Job
fail j error retryable now =
    let j₁ = record j { attempts = j.attempts + 1 } in
    let j₂ =
      if retryable && ltb j₁.attempts (attempt_limit j₁)
      then record j₁ { status = queued; worker_id = ""; lease_until = none }
      else record j₁ { status = dead_letter } in
    record j₂ { last_error = error; updated_at = now }

unfoldable pub fail_job :
    List (String × Job)
    → (job_id worker_id error : String) → (retryable : Bool) → ℕ
    → Result Job × List (String × Job)
unfolding fail
fail_job jobs job_id worker_id error retryable now = elim (get job_id jobs) [
  | none ↦ (err (key_error job_id), jobs)
  | some j ↦ let j' = fail j error retryable now in (ok j', put job_id j' jobs)
]

unfoldable pub heartbeat_job :
    List (String × Job)
    → (job_id worker_id : String) → (lease_seconds now : ℕ) → List (String × Job)
heartbeat_job jobs job_id worker_id lease_seconds now = elim (get job_id jobs) [
  | none ↦ jobs
  | some j ↦
      let j' = record j {
        lease_until = some (now + seconds lease_seconds);
        heartbeat_at = some now;
        updated_at = now;
      } in
      if str_eq j.worker_id worker_id then put job_id j' jobs else jobs
]

abbrev pub lease_before : Option ℕ → ℕ → Bool
lease_before none now = false
lease_before (some t) now = ltb t now

abbrev pub expired : String → ℕ → Job → Bool
expired tenant_id now j =
    str_eq j.tenant_id tenant_id && (is_leased j.status && lease_before j.lease_until now)

abbrev pub requeue : ℕ → Job → Job
requeue now j = record j { status = queued; worker_id = ""; lease_until = none; updated_at = now }

-- The number of jobs that went back to the queue, and the table.
unfoldable pub requeue_expired_jobs : String → ℕ → List (String × Job) → ℕ × List (String × Job)
requeue_expired_jobs tenant_id now [] = (0, [])
requeue_expired_jobs tenant_id now ((k, j) ∷ jobs) =
    let (count, rest) = requeue_expired_jobs tenant_id now jobs in
    if expired tenant_id now j
    then (count + 1, (k, requeue now j) ∷ rest)
    else (count, (k, j) ∷ rest)
