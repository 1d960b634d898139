-- ===== src/Pipeline/Phases.antt =====
-- dev_orchestrator/v8/pipeline.py: what the coordinator does with the result of a job, and how runs and
-- jobs start. A phase's result is the `dict` that its handler returns; the handlers are a parameter.
pub mod Persist
pub mod Outcome
pub mod Accept
use async_native_ai_orchestr.Prelude.{
  ℕ, ◌+◌, ◌-◌, String, Bool, true, false, not, ◌&&◌, ◌||◌, List, [], ◌∷◌, Option, none, some,
  str_eq, str_append, ltb, or_else, if◌then◌else◌,
}
use async_native_ai_orchestr.Prelude.Dict.{Dict, get, put}
use async_native_ai_orchestr.Json.{Json, Fields, is_str, get_field}
use async_native_ai_orchestr.Result.{Error, value_error}
use async_native_ai_orchestr.Models.Status.{RunStatus, JobStatus}
use async_native_ai_orchestr.Models.Kind.{
  JobType, job_type_value, requirements_analysis, architecture_design, package_planning,
  code_generation, test_generation, security_review, code_review, quality, release_candidate,
  release_notes, apply, rollback, requirements,
}
use async_native_ai_orchestr.Profiles.{ScaleProfileData, default_profile}
use async_native_ai_orchestr.Profiles.Attempts.{scale_job_attempts}
use async_native_ai_orchestr.Store.Jobs.{Job}
use async_native_ai_orchestr.Store.Records.{Run, RunMetadata, Project, Event, EventPayload, created}
use async_native_ai_orchestr.Store.Memory.{
  get_run, get_project, create_run, update_run, update_work_package, add_event,
}
use async_native_ai_orchestr.Pipeline.World.{
  World, M, pure, raise, lift, time, asks, modify, on_store, try_store, new_id, swallow, and_then,
  ◌>>=◌, ◌>>◌,
}
use async_native_ai_orchestr.Pipeline.State.{
  update_run_state, no_fields, set_status, set_checkpoint,
}
use async_native_ai_orchestr.Pipeline.Enqueue.{enqueue, new_job, enqueue_phase_job}
use async_native_ai_orchestr.Pipeline.Advance.{advance_run}
use Persist.{persist_phase_result}

-- `checkpoint_map` of `_advance_after_job`
unfoldable pub completed_checkpoint : JobType → Option String
completed_checkpoint requirements_analysis = some "requirements_completed"
completed_checkpoint architecture_design = some "architecture_completed"
completed_checkpoint package_planning = some "package_planning_completed"
completed_checkpoint JobType.integration = some "integration_completed"
completed_checkpoint code_review = some "review_completed"
completed_checkpoint quality = some "quality_completed"
completed_checkpoint release_notes = some "release_notes_completed"
completed_checkpoint release_candidate = some "release_candidate_completed"
completed_checkpoint _ = none

-- `job.job_type in (code_generation, test_generation, security_review)`
abbrev pub finishes_package : JobType → Bool
finishes_package code_generation = true
finishes_package test_generation = true
finishes_package security_review = true
finishes_package _ = false

-- `if new_checkpoint and status == "ok"`
abbrev pub reach : String → Option String → M (Unit {0})
reach run_id none = pure tt
reach run_id (some c) = update_run_state run_id (set_checkpoint c)

-- `if job.work_package_id and status == "ok" and …`: a missing package is logged and passed over.
abbrev pub complete_package : Bool → Option String → M (Unit {0})
complete_package true (some i) =
    if str_eq i ""
    then pure tt
    else swallow (try_store (λ now. λ s. update_work_package s i JobStatus.completed))
complete_package _ _ = pure tt

-- The statements that only a result with the status "ok" makes.
unfoldable pub accept_result : Job → Fields → M (Unit {0})
accept_result job result = do
  reach job.run_id (completed_checkpoint job.job_type)
  persist_phase_result job result
  complete_package (finishes_package job.job_type) job.work_package_id

-- The retry of a phase, with the run that was read; or the end of its retries.
abbrev pub count_retry : Run → JobType → RunMetadata
count_retry run t =
    let counts = run.metadata.retry_counts in
    record run.metadata {
      retry_counts = put (job_type_value t) (or_else (get (job_type_value t) counts) 0 + 1) counts;
    }

unfoldable pub retry_phase : Job → Run → M (Unit {0})
retry_phase job run = do
  let retries = or_else (get (job_type_value job.job_type) run.metadata.retry_counts) 0
  let again : M (Unit {0}) = (do
    try_store (λ now. λ s.
        update_run s job.run_id
          (record no_fields { metadata = some (count_retry run job.job_type) }) now)
    enqueue_phase_job run job.job_type true
    pure tt)
  if ltb (retries + 1) job.max_attempts
      then again
      else update_run_state job.run_id (set_status RunStatus.blocked)

-- The branch of a status other than "ok" and "completed".
unfoldable pub reject_result : Job → Fields → M (Unit {0})
reject_result job result =
    let retry : M (Unit {0}) = (do
      found ← asks (λ s. get_run s job.run_id)
      elim found [ none ↦ pure tt | some run ↦ retry_phase job run ]) in
    if is_str "circuit_open" (get_field "error_kind" result)
    then update_run_state job.run_id (set_status RunStatus.blocked)
    else retry

-- `_advance_after_job`
unfoldable pub advance_after_job : Job → Fields → M (Unit {0})
advance_after_job job result =
    let status = get_field "status" result in
    if is_str "ok" status
    then (do accept_result job result; advance_run job.run_id)
    else (if is_str "completed" status then advance_run job.run_id else reject_result job result)

-- `self._phases.get(job_type)`, for the handlers of the phases that there are.
abbrev pub is_supported : JobType → Bool
is_supported apply = false
is_supported rollback = false
is_supported _ = true

abbrev pub Handler : Type 0
Handler = Job → Run → Project → M Fields

abbrev pub require {ℓ} : {A : Type 0} {B : Type ℓ} → Option A → (A → B) → B → B
require none f b = b
require (some a) f b = f a

-- `execute_job`
unfoldable pub execute_job : Handler → Job → M Fields
execute_job handler job =
    let go : M Fields = (do
      found ← asks (λ s. get_run s job.run_id)
      require found
          (λ run. do
            known ← asks (λ s. get_project s run.project_id)
            require known
                (λ project. do
                  result ← handler job run project
                  advance_after_job job result
                  pure result)
                (raise (value_error "project not found")))
          (raise (value_error "run not found"))) in
    if is_supported job.job_type then go else raise (value_error "unsupported job type")

-- `create_run`, which answers with the run as stored.
unfoldable pub start_run : (tenant_id project_id requirements_text : String) → M (Option Run)
start_run tenant_id project_id requirements_text = do
  found ← asks (λ s. get_project s project_id)
  require found
      (λ project. do
        let profile = or_else project.config.scale_profile default_profile
        let metadata : RunMetadata = record {
          requirements_text = requirements_text;
          scale_profile = profile;
          project_config = some project.config;
          requirements = none;
          architecture = none;
          package_plan = none;
          context_snapshot_hash = "";
          mission_memory_hash = "";
          retry_counts = [];
          cache = [];
        }
        run_id ← new_id
        run ← on_store (λ now. create_run run_id tenant_id project_id metadata now)
        event_id ← new_id
        on_store (λ now. λ s. add_event s (record {
          id = event_id;
          tenant_id = tenant_id;
          run_id = run.id;
          event_type = "run_created";
          payload = created project_id profile;
          sequence = 0;
          created_at = now;
        }))
        attempts ← lift (scale_job_attempts "requirements_analysis" profile)
        job_id ← new_id
        now ← time
        enqueue (
            new_job job_id tenant_id run.id requirements_analysis requirements
              (str_append run.id ":requirements_analysis") attempts now)
        update_run_state run.id (set_status RunStatus.running)
        asks (λ s. get_run s run.id))
      (raise (value_error project_id))
