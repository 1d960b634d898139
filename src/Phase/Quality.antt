-- ===== src/Phase/Quality.antt =====
-- dev_orchestrator/v8/phases/quality.py: the gates and the report.
use async_native_ai_orchestr.Prelude.{
  ℕ, ◌+◌, String, Bool, true, false, not, ◌&&◌, List, [], ◌∷◌, ◌++◌, Option, none, str_eq, keep,
  length, ltb, ◌==◌, if◌then◌else◌, or_else, map,
}
use async_native_ai_orchestr.Text.{count_chars}
use async_native_ai_orchestr.Json.{
  Json, Fields, Items, null, bool, num, str, arr, obj, end, field, nil, cons, get_field, find_field,
  or_json, truthy, object, items_of,
}
use async_native_ai_orchestr.Result.{
  Error, key_error, type_error, value_error, other_error, Result, ok, err,
}
use async_native_ai_orchestr.Utils.{json_or_empty}
use async_native_ai_orchestr.Scheduler.{AiCallResult, CallArgs}
use async_native_ai_orchestr.Phase.{
  Listed, listed_kind, Services, PhaseInput, Written, Step, ◌>>=◌, ◌>>◌, pure, lift, asks, as_dict,
  or_empty, int_field, scale_profile_of, optional_text,
}

pub record Gate : Type 0 where
  pub name : String
  pub is_ok : Json
  pub severity : String
  pub details : Json

-- `not g.get("ok") and g.get("severity") == severity`
abbrev pub fails_as : String → Gate → Bool
fails_as severity g = not (truthy g.is_ok) && str_eq g.severity severity

abbrev pub profile_gate : Result Fields → Result Gate
profile_gate (ok profile) = ok (record {
  name = "scale_profile_gate";
  is_ok = bool (truthy (get_field "name" profile));
  severity = "critical";
  details = obj end;
})
profile_gate (err e) = err e

-- `_gate_scale_profile`
unfoldable pub gate_scale_profile : Fields → Result Gate
gate_scale_profile metadata = profile_gate (scale_profile_of metadata)

abbrev pub has_documents : Fields → Bool
has_documents metadata =
    truthy
      (or_json (get_field "requirements" metadata) (get_field "requirements_analysis" metadata))
    && truthy
        (or_json (get_field "architecture" metadata) (get_field "architecture_design" metadata))

-- `_gate_mission_state`
unfoldable pub gate_mission_state : Fields → Result Gate
gate_mission_state metadata = ok (record {
  name = "mission_state_contract_gate";
  is_ok = bool (has_documents metadata);
  severity = "critical";
  details = obj end;
})

abbrev pub count_items : Items → ℕ
count_items nil = 0
count_items (cons x xs) = count_items xs + 1

abbrev pub count_fields : Fields → ℕ
count_fields end = 0
count_fields (field k v fs) = count_fields fs + 1

-- `len(v or [])`
abbrev pub len_or_empty : Json → Result ℕ
len_or_empty (arr xs) = ok (count_items xs)
len_or_empty (obj fs) = ok (count_fields fs)
len_or_empty (str s) = ok (count_chars s)
len_or_empty (num n) = if n == 0 then ok 0 else err (type_error "int")
len_or_empty (bool true) = err (type_error "bool")
len_or_empty (bool false) = ok 0
len_or_empty null = ok 0

-- The plan under the first of the keys that holds something; the cache is read only if need be.
abbrev pub dag_of : Fields → Result Json
dag_of metadata =
    let plan = or_json (get_field "package_dag" metadata) (get_field "package_plan" metadata) in
    if truthy plan then ok plan else elim (as_dict (or_empty (get_field "cache" metadata))) [
      | ok cache ↦ ok (or_empty (get_field "_cached_scope_plan" cache))
      | err e ↦ err e
    ]

abbrev pub packages_in : Json → Result ℕ
packages_in dag = elim (as_dict dag) [
  | ok fs ↦ len_or_empty (get_field "packages" fs)
  | err e ↦ err e
]

abbrev pub count_packages : Fields → Result ℕ
count_packages metadata = elim (dag_of metadata) [ ok dag ↦ packages_in dag | err e ↦ err e ]

-- `observation_only` is false wherever the gates are asked.
abbrev pub dag_gate : Result ℕ → Result Gate
dag_gate (ok n) = ok (record {
  name = "package_dag_acyclic_gate";
  is_ok = bool (ltb 0 n);
  severity = "critical";
  details = obj (object (("observation_only", bool false) ∷ []));
})
dag_gate (err e) = err e

-- `_gate_dag`
unfoldable pub gate_dag : Fields → Result Gate
gate_dag metadata = dag_gate (count_packages metadata)

abbrev pub patch_sets : List Listed → List Listed
patch_sets artifacts = keep (λ a. str_eq (listed_kind a) "patch_set") artifacts

-- `_gate_ai_execution`
unfoldable pub gate_ai_execution : Result (List Listed) → Result Gate
gate_ai_execution (ok artifacts) = ok (record {
  name = "ai_live_execution_gate";
  is_ok = bool (ltb 0 (length (patch_sets artifacts)));
  severity = "critical";
  details = obj (
      object
        (("count", num (length (patch_sets artifacts))) ∷ ("observation_only", bool false) ∷ []));
})
gate_ai_execution (err e) = err e

-- `str(exc)`
abbrev error_text : Error → String
error_text (key_error s) = s
error_text (value_error s) = s
error_text (type_error s) = s
error_text (other_error s) = s

-- What `gather` hands over, where an exception becomes a gate.
unfoldable pub settled : Result Gate → Gate
settled (ok g) = g
settled (err e) = record {
  name = "unknown";
  is_ok = bool false;
  severity = "major";
  details = obj (object (("error", str (error_text e)) ∷ []));
}

-- `_ai_gate`, by the result of the call.
unfoldable pub ai_gate_of : (String → Option Json) → AiCallResult → Gate
ai_gate_of loads result =
    let output = json_or_empty loads (str result.raw_response) in
    if result.is_ok
    then record {
      name = "ai_quality_gate";
      is_ok = or_else (find_field "ok" output) (bool true);
      severity = "info";
      details = obj output;
    }
    else record {
      name = "ai_quality_gate";
      is_ok = bool true;
      severity = "info";
      details = obj (
          object (
            ("error", optional_text result.error)
            ∷ ("note", str "AI gate is informational only")
            ∷ []));
    }

pub record Report : Type 0 where
  pub is_ok : Bool
  pub gates : List Gate
  pub critical_failures : ℕ
  pub major_failures : ℕ
  pub elapsed_ms : ℕ

-- The report on the gates that have answered.
unfoldable pub report_on : List Gate → (elapsed_ms : ℕ) → Report
report_on results elapsed_ms =
    let deterministic = keep (λ g. not (str_eq g.name "ai_quality_gate")) results in
    let critical = length (keep (fails_as "critical") deterministic) in
    let major = length (keep (fails_as "major") deterministic) in
    record {
      is_ok = (critical == 0) && (major == 0);
      gates = results;
      critical_failures = critical;
      major_failures = major;
      elapsed_ms = elapsed_ms;
    }

abbrev gate_json : Gate → Json
gate_json g = obj (
    object (
      ("name", str g.name)
      ∷ ("ok", g.is_ok)
      ∷ ("severity", str g.severity)
      ∷ ("details", g.details)
      ∷ []))

abbrev pub report_fields : Report → Fields
report_fields r = object (
    ("ok", bool r.is_ok)
    ∷ ("status", str (if r.is_ok then "GO" else "NO_GO"))
    ∷ ("gates", arr (items_of (map gate_json r.gates)))
    ∷ ("critical_failures", num r.critical_failures)
    ∷ ("major_failures", num r.major_failures)
    ∷ ("total_gates", num (length r.gates))
    ∷ ("elapsed_ms", num r.elapsed_ms)
    ∷ [])

abbrev pub empty_report : Fields
empty_report = object (
    ("ok", bool true)
    ∷ ("status", str "GO")
    ∷ ("gates", arr nil)
    ∷ ("critical_failures", num 0)
    ∷ ("major_failures", num 0)
    ∷ ("total_gates", num 0)
    ∷ ("elapsed_ms", num 0)
    ∷ ("note", str "No packages to evaluate — observation-only pass")
    ∷ [])

abbrev pub result_with : (status : String) → Fields → Fields
result_with status report = object (("status", str status) ∷ ("quality_report", obj report) ∷ [])

abbrev pub quality_file : PhaseInput → Fields → Written
quality_file p report = record {
  project_id = p.project_id;
  run_id = p.run_id;
  job_id = p.job.id;
  kind = "quality_report";
  key = "quality-report.json";
  payload = report;
}

module _ {S : Type 0} (services : Services S) where
  abbrev pub quality_call : PhaseInput → ℕ → CallArgs
  quality_call p max_input = record {
    run_id = p.run_id;
    role = "qa";
    job_id = p.job.id;
    task_kind = "quality";
    system_prompt =
        "Return strict JSON with ok, summary, gates (list of {name, ok, severity, details}).";
    user_payload = object (("project", obj (object (("name", str p.project_name) ∷ []))) ∷ []);
    budget = record {
      max_input_chars = max_input;
      max_output_tokens = 4000;
      timeout_seconds = 120;
      reasoning_effort = "high";
      retry_attempts = 2;
    };
    tenant_id = p.tenant_id;
  }

  unfoldable pub ai_gate : PhaseInput → Step S Gate
  ai_gate p = do
    sp ← lift (scale_profile_of p.metadata)
    max_input ← lift (int_field "context_budget_chars" 36000 sp)
    result ← services.call (quality_call p max_input)
    pure (ai_gate_of services.loads result)

  -- The four gates that ask no model, as `gather` answers them.
  unfoldable pub deterministic_gates : PhaseInput → S → List Gate
  deterministic_gates p s =
      settled (gate_scale_profile p.metadata)
      ∷ settled (gate_mission_state p.metadata)
      ∷ settled (gate_dag p.metadata)
      ∷ settled (gate_ai_execution (services.list_artifacts s p.run_id none))
      ∷ []

  -- The statements after the gates.
  unfoldable pub conclude : PhaseInput → List Gate → Gate → Step S Fields
  conclude p gates ai = do
    elapsed ← asks (λ s. ok (services.elapsed_ms s))
    let report = report_on (gates ++ (ai ∷ [])) elapsed
    services.write (quality_file p (report_fields report))
    pure (result_with (if report.is_ok then "ok" else "blocked") (report_fields report))

  unfoldable pub pass_without_packages : PhaseInput → Step S Fields
  pass_without_packages p = do
    services.write (quality_file p empty_report)
    pure (result_with "ok" empty_report)

  unfoldable pub evaluate : PhaseInput → Step S Fields
  evaluate p = do
    gates ← asks (λ s. ok (deterministic_gates p s))
    ai ← ai_gate p
    conclude p gates ai

  -- `execute`
  unfoldable pub execute : PhaseInput → Step S Fields
  execute p = do
    packages ← asks (λ s. services.list_work_packages s p.run_id)
    if length packages == 0 then pass_without_packages p else evaluate p
