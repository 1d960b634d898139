-- ===== src/Kernel/Tests.antt =====
-- dev_orchestrator/v8/kernel.py: examples of reports.
use async_native_ai_orchestr.Prelude.{◌≡◌, ◌≢◌, refl, true, false, str_append, [], ◌∷◌, none, some}
use async_native_ai_orchestr.Prelude.Dict.{get, put}
use async_native_ai_orchestr.Json.{obj, end}
use async_native_ai_orchestr.Models.Status.{RunStatus, completed}
use async_native_ai_orchestr.Models.Kind.{architecture_design, code_generation, backend}
use async_native_ai_orchestr.Profiles.{default_profile}
use async_native_ai_orchestr.Store.Jobs.{Job, active_holder}
use async_native_ai_orchestr.Store.Records.{
  Run, Project, Wave, WorkPackage, Event, created, continue_with,
}
use async_native_ai_orchestr.Pipeline.Advance.{advance_run}
use async_native_ai_orchestr.Pipeline.World.{World}
use async_native_ai_orchestr.Pipeline.Enqueue.{colon}
use async_native_ai_orchestr.Profiles.Attempts.{scale_job_attempts, resolve_profile_name}
use async_native_ai_orchestr.Store.Memory.{empty, get_run}
use async_native_ai_orchestr.Result.{ok}
use async_native_ai_orchestr.Kernel.{
  build_checkpoint_resume_plan, build_mission_graph, package_part, job_part, wave_part, sort_waves,
  insert_wave,
}
use async_native_ai_orchestr.Kernel.Plan.{build_checkpoint_resume_plan-advance_run}
use async_native_ai_orchestr.Kernel.Graph.{has_node}
use async_native_ai_orchestr.Kernel.Reports.{counts, counts_from, job_counts}

abbrev architecture_run : Run
architecture_run = record {
  id = "r";
  tenant_id = "t";
  project_id = "p";
  status = RunStatus.running;
  checkpoint = "requirements_completed";
  continuation = continue_with "" "" none;
  metadata = record {
    requirements_text = "";
    scale_profile = default_profile;
    project_config = none;
    requirements = none;
    architecture = none;
    package_plan = none;
    context_snapshot_hash = "";
    mission_memory_hash = "";
    retry_counts = [];
    cache = [];
  };
  created_at = 0;
  updated_at = 0;
}

abbrev shop : Project
shop = record {
  id = "p";
  tenant_id = "t";
  name = "shop";
  title = "Shop";
  description = "";
  project_path = "/tmp/shop";
  config = record {
    name = "shop";
    title = "Shop";
    description = "";
    project_path = "/tmp/shop";
    target_scale = "auto";
    scale_profile = none;
  };
  status = "active";
  created_at = 0;
  updated_at = 0;
}

-- The job of the package "x", whose key is "api".
abbrev package_job : Job
package_job = record {
  id = "j";
  tenant_id = "t";
  run_id = "r";
  job_type = code_generation;
  role = backend;
  status = completed;
  resume_key = "k";
  work_package_id = some "x";
  wave_id = none;
  payload = obj end;
  result = obj end;
  attempts = 0;
  max_attempts = 2;
  worker_id = "";
  lease_until = none;
  heartbeat_at = none;
  last_error = "";
  created_at = 0;
  updated_at = 0;
}

abbrev first_wave : Wave
first_wave = record { id = "w"; run_id = "r"; wave_key = "w1"; sequence = 1; status = "queued" }

abbrev api_package : WorkPackage
api_package = record {
  id = "x";
  run_id = "r";
  wave_id = "w";
  wave_key = "w1";
  package_key = "api";
  role = backend;
  domain = "";
  status = completed;
  allowed_paths = [];
  forbidden_paths = [];
  depends_on = [];
  objective = "";
  expected_outputs = [];
  acceptance_gates = [];
}

abbrev made : Event
made = record {
  id = "e";
  tenant_id = "t";
  run_id = "r";
  event_type = "run_created";
  payload = created "p" default_profile;
  sequence = 1;
  created_at = 5;
}

abbrev idle : World
idle = record {
  store = record empty { runs = put "r" architecture_run [] };
  now = 7;
  mint = λ n. "id";
  minted = 0;
}

three_attempts : scale_job_attempts "architecture_design" default_profile ≡ ok 3
unfolding scale_job_attempts resolve_profile_name
three_attempts = refl

build_checkpoint_resume_plan-advance_run_example :
    let plan =
      build_checkpoint_resume_plan architecture_run (package_job ∷ []) (api_package ∷ []) in
    (plan.resumable ≡ true)
    × (active_holder
          (str_append (colon "r" plan.next_action) "")
          (advance_run "r" idle).1.store.jobs
        ≢ none)
unfolding get put get_run
build_checkpoint_resume_plan-advance_run_example =
    build_checkpoint_resume_plan-advance_run architecture_run (package_job ∷ []) (api_package ∷ [])
      architecture_design 3 idle refl refl refl refl refl refl three_attempts

-- The edge of the job comes from "pkg:x", and the node of its package is "pkg:api".
no_source :
    has_node
      (build_mission_graph architecture_run shop
        (package_job ∷ [])
        (first_wave ∷ [])
        (api_package ∷ [])).nodes
      "pkg:x"
    ≡ false
unfolding build_mission_graph package_part job_part wave_part sort_waves insert_wave
no_source = refl

job_counts_key : job_counts (package_job ∷ []) ≡ ("JobStatus.completed", 1) ∷ []
unfolding counts counts_from get put
job_counts_key = refl
