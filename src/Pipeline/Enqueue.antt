-- ===== src/Pipeline/Enqueue.antt =====
-- dev_orchestrator/v8/pipeline.py: the jobs that the coordinator creates.
use async_native_ai_orchestr.Prelude.{ℕ, String, Bool, true, false, none, some, str_append}
use async_native_ai_orchestr.Models.Status.{JobStatus}
use async_native_ai_orchestr.Models.Kind.{
  JobType, PackageRole, job_type_value, requirements_analysis, architecture_design,
  package_planning, code_generation, test_generation, security_review, code_review, quality,
  release_candidate, release_notes, requirements, architect, planner, backend, qa, review, release,
}
use async_native_ai_orchestr.Json.{obj, end}
use async_native_ai_orchestr.Text.{take_chars}
use async_native_ai_orchestr.Profiles.Attempts.{scale_job_attempts}
use async_native_ai_orchestr.Store.Jobs.{Job, enqueue_job}
use async_native_ai_orchestr.Store.Records.{Run, Wave, WorkPackage}
use async_native_ai_orchestr.Pipeline.World.{M, pure, lift, time, on_store, new_id, ◌>>=◌}

-- `store.enqueue_job(tenant_id, job)`
unfoldable pub enqueue : Job → M Job
enqueue j =
    on_store
      (λ now. λ s. let (j', jobs) = enqueue_job s.jobs j now in (j', record s { jobs = jobs }))

-- `Job(tenant_id=…, run_id=…, job_type=…, role=…, resume_key=…, max_attempts=…)` with its defaults.
abbrev pub new_job :
    (id tenant_id run_id : String)
    → JobType
    → PackageRole
    → (resume_key : String) → (max_attempts now : ℕ) → Job
new_job id tenant_id run_id job_type role resume_key max_attempts now = record {
  id = id;
  tenant_id = tenant_id;
  run_id = run_id;
  job_type = job_type;
  role = role;
  status = JobStatus.queued;
  resume_key = resume_key;
  work_package_id = none;
  wave_id = none;
  payload = obj end;
  result = obj end;
  attempts = 0;
  max_attempts = max_attempts;
  worker_id = "";
  lease_until = none;
  heartbeat_at = none;
  last_error = "";
  created_at = now;
  updated_at = now;
}

-- `_phase_default_role`
unfoldable pub phase_default_role : JobType → PackageRole
phase_default_role requirements_analysis = requirements
phase_default_role architecture_design = architect
phase_default_role package_planning = planner
phase_default_role JobType.integration = PackageRole.integration
phase_default_role code_review = review
phase_default_role quality = qa
phase_default_role release_notes = release
phase_default_role release_candidate = release
phase_default_role JobType.repair = PackageRole.repair
phase_default_role _ = backend

-- `_package_job_type`
unfoldable pub package_job_type : PackageRole → JobType
package_job_type PackageRole.security = security_review
package_job_type qa = test_generation
package_job_type PackageRole.repair = JobType.repair
package_job_type _ = code_generation

abbrev pub colon : String → String → String
colon a b = str_append a (str_append ":" b)

-- `f":retry:{new_id()[:8]}" if is_retry else ""`
unfoldable pub retry_suffix : Bool → M String
retry_suffix false = pure ""
retry_suffix true = do id ← new_id; pure (str_append ":retry:" (take_chars 8 id))

-- `_enqueue_phase_job`
unfoldable pub enqueue_phase_job : Run → JobType → Bool → M Job
enqueue_phase_job run job_type is_retry = do
  suffix ← retry_suffix is_retry
  attempts ← lift (scale_job_attempts (job_type_value job_type) run.metadata.scale_profile)
  id ← new_id
  now ← time
  enqueue (
      new_job id run.tenant_id run.id job_type (phase_default_role job_type)
        (str_append (colon run.id (job_type_value job_type)) suffix) attempts now)

-- The job of a work package. Its role is the package's: `canonical_worker_role` of the value of a role
-- is that value.
unfoldable pub enqueue_package_job : Run → Wave → WorkPackage → M Job
enqueue_package_job run wave p = do
  let job_type = package_job_type p.role
  attempts ← lift (scale_job_attempts (job_type_value job_type) run.metadata.scale_profile)
  id ← new_id
  now ← time
  let job =
      new_job id run.tenant_id run.id job_type p.role
        (colon run.id (colon p.id (job_type_value job_type))) attempts now
  enqueue (record job { work_package_id = some p.id; wave_id = some wave.id })
