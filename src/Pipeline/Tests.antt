-- ===== src/Pipeline/Tests.antt =====
-- dev_orchestrator/v8/pipeline.py: tests of the coordinator and examples.
use async_native_ai_orchestr.Prelude.{String, ◌≡◌, ◌≢◌, refl, [], ◌∷◌, none, some}
use mathlib.Core.Option
use async_native_ai_orchestr.Prelude.Dict.{Dict, get, put}
use async_native_ai_orchestr.Json.{Fields, str, field, end}
use async_native_ai_orchestr.Result.{ok}
use async_native_ai_orchestr.Models.Status.{RunStatus, JobStatus}
use async_native_ai_orchestr.Models.Kind.{PackageRole, architecture_design}
use async_native_ai_orchestr.Profiles.{default_profile}
use async_native_ai_orchestr.Profiles.Attempts.{scale_job_attempts, resolve_profile_name}
use async_native_ai_orchestr.Store.Jobs.{Job, active_holder}
use async_native_ai_orchestr.Store.Records.{Run, continue_with}
use async_native_ai_orchestr.Store.Memory.{
  empty, get_run, update_run, add_event, list_waves, list_work_packages,
}
use async_native_ai_orchestr.Pipeline.World.{World}
use async_native_ai_orchestr.Pipeline.Enqueue.{new_job}
use async_native_ai_orchestr.Pipeline.Waves.{
  advance_wave_execution, visit_waves, complete_waves, sort_waves,
}
use async_native_ai_orchestr.Pipeline.State.{update_run_state, emit, build_state_transition_event}
use async_native_ai_orchestr.Pipeline.Advance.{advance_run, wave_loop, loop_fuel, next_phase}
use async_native_ai_orchestr.Pipeline.Advance.Loop.{Exits, wave_loop-Exits}
use async_native_ai_orchestr.Pipeline.Advance.Progress.{phase_key, advance_run-active_holder}
use async_native_ai_orchestr.Pipeline.Phases.{
  advance_after_job, retry_phase, accept_result, completed_checkpoint,
}
use async_native_ai_orchestr.Pipeline.Phases.Outcome.{
  Retried, advance_after_job-completed, advance_after_job-circuit_open, retry_phase-Retried,
}
use async_native_ai_orchestr.Pipeline.Phases.Accept.{Reached, accept_result-Reached}

abbrev run_at : String → Run
run_at checkpoint = record {
  id = "r";
  tenant_id = "t";
  project_id = "p";
  status = RunStatus.running;
  checkpoint = checkpoint;
  continuation = continue_with "" "" none;
  metadata = record {
    requirements_text = "";
    scale_profile = default_profile;
    project_config = none;
    requirements = none;
    architecture = none;
    package_plan = none;
    context_snapshot_hash = "";
    mission_memory_hash = "";
    retry_counts = [];
    cache = [];
  };
  created_at = 0;
  updated_at = 0;
}

-- The job of the architecture phase, which a worker holds.
abbrev held_job : Job
held_job =
    record (new_job "j" "t" "r" architecture_design PackageRole.architect "r:architecture_design" 3
      0) { status = JobStatus.leased; worker_id = "w" }

abbrev world_of : Run → Dict Job → World
world_of run jobs = record {
  store = record empty { runs = ("r", run) ∷ []; jobs = jobs };
  now = 7;
  mint = λ n. "id";
  minted = 0;
}

abbrev after_requirements : Run
after_requirements = run_at "requirements_completed"

abbrev in_waves_run : Run
in_waves_run = run_at "package_planning_completed"

-- No job yet, and the architecture job held.
abbrev idle : World
idle = world_of after_requirements []

abbrev working : World
working = world_of after_requirements (("j", held_job) ∷ [])

abbrev planned : World
planned = world_of in_waves_run []

stored : get_run idle.store "r" ≡ some after_requirements
unfolding get_run get
stored = refl

stored_working : get_run working.store "r" ≡ some after_requirements
unfolding get_run get
stored_working = refl

stored_planned : get_run planned.store "r" ≡ some in_waves_run
unfolding get_run get
stored_planned = refl

follows : get "requirements_completed" next_phase ≡ some architecture_design
unfolding get
follows = refl

three_attempts : scale_job_attempts "architecture_design" default_profile ≡ ok 3
unfolding scale_job_attempts resolve_profile_name
three_attempts = refl

holds :
    active_holder (phase_key after_requirements architecture_design) working.store.jobs
    ≡ some held_job
holds = refl

architecture_ends : completed_checkpoint architecture_design ≡ some "architecture_completed"
unfolding completed_checkpoint
architecture_ends = refl

-- With no waves, the advance of the waves ends them.
waves_ended :
    Option.map {A = Run}
      (λ r. r.checkpoint)
      (get_run (advance_wave_execution in_waves_run planned).1.store "r")
    ≡ some "wave_completed"
unfolding advance_wave_execution visit_waves complete_waves update_run_state update_run get_run get
    put emit add_event build_state_transition_event list_waves list_work_packages sort_waves
waves_ended = refl

advance_run-active_holder_example :
    active_holder
      (phase_key after_requirements architecture_design)
      (advance_run "r" idle).1.store.jobs
    ≢ none
advance_run-active_holder_example =
    advance_run-active_holder "r" after_requirements architecture_design 3 idle stored refl follows
      three_attempts

wave_loop-Exits_example : Exits "r" (wave_loop loop_fuel "r" in_waves_run planned)
wave_loop-Exits_example = wave_loop-Exits "r" in_waves_run planned stored_planned

abbrev status_only : String → Fields
status_only s = field "status" (str s) end

abbrev circuit : Fields
circuit = field "status" (str "error") (field "error_kind" (str "circuit_open") end)

advance_after_job-completed_example :
    let s = (advance_after_job held_job (status_only "completed") idle).1.store in
    (get_run s "r" ≡ some after_requirements)
    × (active_holder (phase_key after_requirements architecture_design) s.jobs ≢ none)
advance_after_job-completed_example =
    advance_after_job-completed held_job (status_only "completed") idle after_requirements
      architecture_design 3 refl refl stored refl follows three_attempts

advance_after_job-circuit_open_example :
    let s = (advance_after_job held_job circuit working).1.store in
    (get_run s "r"
      ≡ Option.map {A = Run}
          (λ r. record r { metadata = r.metadata; status = RunStatus.blocked; updated_at = 7 })
          (get_run working.store "r"))
    × (s.jobs ≡ working.store.jobs)
advance_after_job-circuit_open_example =
    advance_after_job-circuit_open held_job circuit working refl refl refl

retry_phase-Retried_example :
    Retried held_job after_requirements working (retry_phase held_job after_requirements working).1
retry_phase-Retried_example =
    retry_phase-Retried held_job after_requirements working after_requirements.metadata 3
      stored_working refl three_attempts

accept_result-Reached_example :
    Reached "r" "architecture_completed" RunStatus.running
      (accept_result held_job (status_only "ok") working)
accept_result-Reached_example =
    accept_result-Reached held_job (status_only "ok") after_requirements after_requirements.metadata
      "architecture_completed" working architecture_ends stored_working refl
