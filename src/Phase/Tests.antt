-- ===== src/Phase/Tests.antt =====
-- Runs of the handlers, and their theorems at concrete data.
use async_native_ai_orchestr.Prelude.{
  ◌≡◌, ◌≢◌, refl, inr, String, true, false, List, [], ◌∷◌, Option, none, some, str_eq, eq_iff,
  arith, if◌then◌else◌, ◌||◌,
}
use async_native_ai_orchestr.Text.{split_slash, strip, lstrip, rstrip}
use async_native_ai_orchestr.Json.{
  Json, Fields, null, bool, str, arr, obj, object, items_of, get_field, is_str,
}
use async_native_ai_orchestr.Result.{Result, ok, err}
use async_native_ai_orchestr.Models.Kind.{JobType, PackageRole}
use async_native_ai_orchestr.Models.Status.{JobStatus}
use async_native_ai_orchestr.Store.Jobs.{Job}
use async_native_ai_orchestr.Store.Records.{WorkPackage}
use async_native_ai_orchestr.Scheduler.{AiCallResult}
use async_native_ai_orchestr.Runtime.{FilePath, file, directory, ManifestResult}
use async_native_ai_orchestr.Runtime.Paths.{parts, is_under}
use async_native_ai_orchestr.Runtime.Tree.{Disk, set_node, path_eq, disk, disk_laws}
use async_native_ai_orchestr.Utils.{json_or_empty, unfenced}
use async_native_ai_orchestr.Phase.{
  Listed, on_disk, Services, PhaseInput, Written, adapter_list_artifacts, ◌>>=◌,
}
use async_native_ai_orchestr.Phase.Quality
use async_native_ai_orchestr.Phase.Quality.{
  report_on, settled, gate_scale_profile, gate_mission_state, gate_dag, gate_ai_execution, ai_gate,
  ai_gate_of, deterministic_gates, conclude, evaluate, pass_without_packages,
}
use async_native_ai_orchestr.Phase.Verdict.{execute-is_go, is_go, has_no_packages}
use async_native_ai_orchestr.Phase.Release.{release_call, as_listed, release_call-no_report}
use async_native_ai_orchestr.Phase.Integration.{collect_file_samples}
use async_native_ai_orchestr.Phase.Implementation.{for_run, apply_files, patch_set}
use async_native_ai_orchestr.Phase.Applied.{apply_files-isolated}
use async_native_ai_orchestr.Phase.Samples.{
  WithinFrom, collect_file_samples-none, collect_file_samples-WithinFrom,
}

abbrev job : Job
job = record {
  id = "j";
  tenant_id = "t";
  run_id = "r";
  job_type = JobType.quality;
  role = PackageRole.qa;
  status = JobStatus.running;
  resume_key = "";
  work_package_id = none;
  wave_id = none;
  payload = null;
  result = null;
  attempts = 0;
  max_attempts = 3;
  worker_id = "w";
  lease_until = none;
  heartbeat_at = none;
  last_error = "";
  created_at = 0;
  updated_at = 0;
}

abbrev the_package : WorkPackage
the_package = record {
  id = "p";
  run_id = "r";
  wave_id = "v";
  wave_key = "w1";
  package_key = "api";
  role = PackageRole.backend;
  domain = "";
  status = JobStatus.completed;
  allowed_paths = [];
  forbidden_paths = [];
  depends_on = [];
  objective = "";
  expected_outputs = [];
  acceptance_gates = [];
}

abbrev document : Json
document = obj (object (("summary", str "s") ∷ []))

abbrev metadata : Fields
metadata = object (
    ("scale_profile", obj (object (("name", str "small") ∷ [])))
    ∷ ("requirements", document)
    ∷ ("architecture", document)
    ∷ ("package_plan", obj (object (("packages", arr (items_of (document ∷ []))) ∷ [])))
    ∷ [])

abbrev input : (run_id : String) → PhaseInput
input run_id = record {
  job = job;
  run_id = run_id;
  project_id = "p1";
  project_name = "shop";
  project_title = "Shop";
  project_description = "";
  metadata = metadata;
  tenant_id = "t";
}

abbrev refusing : AiCallResult
refusing = record {
  is_ok = true;
  agent_run_id = "a";
  role = "qa";
  job_id = "j";
  task_kind = "quality";
  model = "m";
  elapsed_ms = 1;
  raw_response = "{\"ok\": false}";
  error = none;
  error_kind = none;
  retryable = false;
  contract_validation = none;
}

abbrev output : Fields
output = object (
    (
      "files",
      arr (
          items_of (
            obj (
              object
                (("path", str "src/a.py") ∷ ("action", str "create") ∷ ("content", str "1") ∷ []))
            ∷ [])),
    )
    ∷ [])

abbrev applied : ManifestResult
applied = record { applied = 1; errors = []; files = "src/a.py" ∷ [] }

-- The one text that the files hold is a patch set, and every other is an answer.
abbrev loads : String → Option Json
loads s =
    if str_eq s "patch"
    then some (obj (patch_set the_package output applied))
    else some (obj (object (("ok", bool false) ∷ [])))

abbrev listed : List Listed
listed = on_disk "patch_set" "api.json" "/a/api.json" ∷ []

abbrev services : Services (List Written)
services = record {
  list_work_packages = λ s run_id. ok (the_package ∷ []);
  get_work_package = λ s id. ok (some the_package);
  list_artifacts = λ s run_id kind. ok listed;
  write = λ w s. (ok tt, w ∷ s);
  call = λ q s. (ok refusing, s);
  read_text = λ s path. some "patch";
  loads = loads;
  elapsed_ms = λ s. 7;
}

fields_in : Result Fields × List Written → Fields
fields_in (ok fs, s) = fs
fields_in (err e, s) = Fields.end

runs_differ : ◌≢◌ {A = String} "r" "r2"
runs_differ = ground (arith, eq_iff "r" "r2")

quality_run : List Written → Result Fields × List Written
unfolding Quality.execute evaluate report_on settled gate_scale_profile gate_mission_state gate_dag
    gate_ai_execution ai_gate ai_gate_of deterministic_gates conclude pass_without_packages
    json_or_empty unfenced strip lstrip rstrip
quality_run = Quality.execute services (input "r")

-- The model refuses, and the phase says "ok".
quality_run_ok : is_str "ok" (get_field "status" (fields_in (quality_run []))) ≡ true
unfolding quality_run fields_in
quality_run_ok = refl

execute-is_go_example :
    is_str "ok" (get_field "status" (fields_in (quality_run [])))
    ≡ (has_no_packages (services.list_work_packages [] "r") || is_go services (input "r") [])
unfolding quality_run fields_in
execute-is_go_example =
    execute-is_go services (input "r") [] (quality_run []).1 (fields_in (quality_run [])) refl

release_call-no_report_example :
    get_field "quality_report"
      (release_call services "notes" "candidate" (input "r") 36000 (the_package ∷ []) (
        adapter_list_artifacts [] (
          as_listed
            (some (("quality_report", "quality-report.json", "/a/q.json") ∷ []))))).user_payload
    ≡ obj Fields.end
release_call-no_report_example =
    release_call-no_report services "notes" "candidate" (input "r") 36000 (the_package ∷ [])
      (some (("quality_report", "quality-report.json", "/a/q.json") ∷ []))

abbrev root : FilePath
root = "srv" ∷ []

abbrev theirs : FilePath
theirs = "srv" ∷ "p1" ∷ "r2" ∷ "src" ∷ "a.py" ∷ []

before : Disk
unfolding set_node path_eq
before =
    set_node [] (some directory)
      (set_node root (some directory) (set_node theirs (some (file "2")) (λ p. none)))

apply_files-isolated_example :
    ((for_run disk root (input "r") >>= λ scoped. apply_files disk scoped the_package output)
        before).1
      theirs
    ≡ before theirs
unfolding before parts split_slash is_under set_node path_eq
apply_files-isolated_example =
    apply_files-isolated disk disk_laws root (input "r") (input "r2") the_package output theirs
      before (refl, refl, refl, refl) (inr runs_differ) (λ s p. refl) refl refl

collect_file_samples-none_example : collect_file_samples services (λ v. "") [] "r" 12000 ≡ []
collect_file_samples-none_example =
    collect_file_samples-none services (λ v. "") [] "r" 12000 listed refl
      ((the_package, output, applied, refl), tt)

collect_file_samples-WithinFrom_example :
    WithinFrom 12000 0 (collect_file_samples services (λ v. "") [] "r" 12000)
collect_file_samples-WithinFrom_example =
    collect_file_samples-WithinFrom services (λ v. "") [] "r" 12000
