-- ===== src/Phase/Implementation.antt =====
-- dev_orchestrator/v8/phases/implementation.py: the files and commands that a model proposes for a package
-- are applied in the directory of the run. The prompts and the layered memory of the payload are parameters,
-- and the fields of an entry that is written and the commands are texts: any other is a `TypeError` here.
use async_native_ai_orchestr.Prelude.{
  ℕ, String, Bool, true, false, not, ◌&&◌, ◌||◌, List, [], ◌∷◌, ◌++◌, Option, none, some, str_eq,
  str_append, or_else, keep, map, if◌then◌else◌,
}
use async_native_ai_orchestr.Json.{
  Json, Fields, num, str, arr, obj, get_field, find_field, object, items_of,
}
use async_native_ai_orchestr.Result.{
  Error, other_error, type_error, value_error, Result, ok, err, ◌>>=◌ as bind,
}
use async_native_ai_orchestr.Utils.{json_or_empty}
use async_native_ai_orchestr.Models.Kind.{role_value}
use async_native_ai_orchestr.Store.Records.{WorkPackage}
use async_native_ai_orchestr.Scheduler.{AiTaskBudget, CallArgs}
use async_native_ai_orchestr.Runtime.{FilePath, FileSystem, FileEntry, ManifestResult}
use async_native_ai_orchestr.Runtime.Paths.{parts}
use async_native_ai_orchestr.Runtime.Manifest.{apply_file_manifest}
use async_native_ai_orchestr.Runtime.Commands.{
  ShellOutcome, ReturnCode, CommandResult, apply_commands,
}
use async_native_ai_orchestr.Phase.{
  Listed, Services, PhaseInput, Step, ◌>>=◌, ◌>>◌, pure, lift, asks, as_dict, int_field,
  scale_profile_of, requirements_of, architecture_of, call_failed, type_name,
}
use async_native_ai_orchestr.Models.Status.{is_completed}
use async_native_ai_orchestr.Phase.Integration.{iterate, texts}

-- `ROLE_TASK_MAP`
unfoldable pub task_kind_of : String → String
task_kind_of role =
    if str_eq role "qa"
    then "test_generation"
    else (if str_eq role "security"
        then "security_review"
        else (if str_eq role "release" then "release_notes" else "code_generation"))

-- `sp.get("reasoning_effort_code", "medium")`, which the budget takes only as a text
abbrev effort_of : Fields → Result String
effort_of sp = elim (or_else (find_field "reasoning_effort_code" sp) (str "medium")) [
  | str s ↦ ok s
  | v ↦ err (value_error (type_name v))
]

abbrev is_long_role : String → Bool
is_long_role role = str_eq role "backend" || (str_eq role "frontend" || str_eq role "db")

abbrev budget_of : (role : String) (tokens chars retries : ℕ) → Result String → Result AiTaskBudget
budget_of role tokens chars retries (err e) = err e
budget_of role tokens chars retries (ok effort) = ok (record {
  max_input_chars = chars;
  max_output_tokens = tokens;
  timeout_seconds = if is_long_role role then 180 else 120;
  reasoning_effort = effort;
  retry_attempts = retries;
})

-- `_build_budget`
unfoldable pub build_budget : Fields → (role : String) → Result AiTaskBudget
build_budget sp role = bind (int_field "max_output_tokens_code" 8000 sp) (λ tokens.
    bind (int_field "context_budget_chars" 36000 sp) (λ chars.
      bind (int_field "ai_retry_attempts" 3 sp)
        (λ retries. budget_of role tokens chars retries (effort_of sp))))

abbrev is_sibling : WorkPackage → WorkPackage → Bool
is_sibling current w =
    not (str_eq w.package_key current.package_key)
    && (str_eq w.wave_key current.wave_key && is_completed w.status)

abbrev sibling_json : WorkPackage → Json
sibling_json w = obj (
    object (
      ("package_key", str w.package_key)
      ∷ ("role", str (role_value w.role))
      ∷ ("domain", str w.domain)
      ∷ ("objective", str w.objective)
      ∷ ("allowed_paths", texts w.allowed_paths)
      ∷ []))

-- `_build_cross_package_context`
unfoldable pub cross_package_context : Result (List WorkPackage) → WorkPackage → List Json
cross_package_context (err e) current = []
cross_package_context (ok packages) current = map sibling_json (keep (is_sibling current) packages)

-- `entry.get(k, "")`
abbrev text_field : String → Fields → Result String
text_field k fs = elim (or_else (find_field k fs) (str "")) [
  | str s ↦ ok s
  | v ↦ err (type_error (type_name v))
]

abbrev pub entry_of : Json → Result FileEntry
entry_of v = elim (as_dict v) [
  | err e ↦ err e
  | ok fs ↦ elim (text_field "path" fs) [
    | err e ↦ err e
    | ok path ↦ elim (text_field "action" fs) [
      | err e ↦ err e
      | ok action ↦ elim (text_field "content" fs) [
        | err e ↦ err e
        | ok content ↦ ok (record { path = path; action = action; content = content })
      ]
    ]
  ]
]

-- The values up to the first that raises, and the exception.
abbrev pub up_to_error : {A : Type 0} → (Json → Result A) → List Json → List A × Option Error
up_to_error f [] = ([], none)
up_to_error f (v ∷ vs) =
    let (as_, e) = up_to_error f vs in elim (f v) [ ok a ↦ (a ∷ as_, e) | err x ↦ ([], some x) ]

abbrev pub entries_in : Fields → List FileEntry × Option Error
entries_in output = elim (iterate (get_field "files" output)) [
  | ok vs ↦ up_to_error entry_of vs
  | err e ↦ ([], some e)
]

abbrev text_of : Json → Result String
text_of (str s) = ok s
text_of v = err (type_error (type_name v))

abbrev pub commands_in : Fields → List String × Option Error
commands_in output = elim (iterate (get_field "commands" output)) [
  | ok vs ↦ up_to_error text_of vs
  | err e ↦ ([], some e)
]

abbrev pub raise_if : {S : Type 0} → Option Error → Step S (Unit {0})
raise_if none s = (ok tt, s)
raise_if (some e) s = (err e, s)

abbrev pub manifest_json : ManifestResult → Json
manifest_json r = obj (
    object
      (("applied", num r.applied) ∷ ("errors", texts r.errors) ∷ ("files", texts r.files) ∷ []))

-- The payload of the `patch_set` artifact.
abbrev pub patch_set : WorkPackage → (output : Fields) → ManifestResult → Fields
patch_set w output applied = object (
    ("package_key", str w.package_key)
    ∷ ("role", str (role_value w.role))
    ∷ ("agent_output", obj output)
    ∷ ("apply_result", manifest_json applied)
    ∷ [])

-- The directory of a run.
abbrev pub run_path : (root : FilePath) → PhaseInput → FilePath
run_path root p = root ++ (parts p.project_id ++ parts p.run_id)

module _ {S : Type 0} (fs : FileSystem S) where
  -- `for_run`, whose `mkdir` may raise.
  unfoldable pub for_run : (root : FilePath) → PhaseInput → Step S FilePath
  for_run root p s =
      let (exc, s') = fs.mkdir (run_path root p) s in
      (elim exc [ none ↦ ok (fs.resolve s' (run_path root p)) | some e ↦ err (other_error e) ], s')

  -- The manifest is applied up to an entry that raises.
  unfoldable pub apply_files : FilePath → WorkPackage → (output : Fields) → Step S ManifestResult
  apply_files scoped w output s =
      let (entries, e) = entries_in output in
      let (r, s') = apply_file_manifest fs scoped w.allowed_paths w.forbidden_paths entries s in
      (elim e [ none ↦ ok r | some x ↦ err x ], s')

module _ {S : Type 0} (services : Services S) (fs : FileSystem S)
    (shell : String → S → ShellOutcome × S) (code_json : ReturnCode → Json) (root : FilePath)
    (prompt_for : String → String)
    (package_memory : PhaseInput → WorkPackage → Result (List Listed) → Json) where
  abbrev result_json : CommandResult → Json
  result_json r = obj (
      object (
        ("command", str r.command)
        ∷ ("returncode", code_json r.returncode)
        ∷ ("stdout", str r.stdout)
        ∷ ("stderr", str r.stderr)
        ∷ []))

  abbrev package_json : WorkPackage → Json
  package_json w = obj (
      object (
        ("package_key", str w.package_key)
        ∷ ("role", str (role_value w.role))
        ∷ ("allowed_paths", texts w.allowed_paths)
        ∷ ("objective", str w.objective)
        ∷ ("expected_outputs", texts w.expected_outputs)
        ∷ []))

  abbrev pub code_call :
      PhaseInput
      → WorkPackage
      → AiTaskBudget
      → (context : List Json) (memory : Json) → (requirements architecture : Fields) → CallArgs
  code_call p w budget context memory requirements architecture = record {
    run_id = p.run_id;
    role = role_value w.role;
    job_id = p.job.id;
    task_kind = task_kind_of (role_value w.role);
    system_prompt = prompt_for (role_value w.role);
    user_payload = object (
        (
          "project",
          obj (
              object
                (("name", str p.project_name) ∷ ("description", str p.project_description) ∷ [])),
        )
        ∷ ("package", package_json w)
        ∷ ("requirements_summary", or_else (find_field "summary" requirements) (str ""))
        ∷ (
          "architecture_summary",
          or_else (find_field "architecture_summary" architecture) (str ""),
        )
        ∷ ("layered_memory", memory)
        ∷ ("cross_package_context", arr (items_of context))
        ∷ []);
    budget = budget;
    tenant_id = p.tenant_id;
  }

  unfoldable pub run_commands : (output : Fields) → Step S (List CommandResult)
  run_commands output s =
      let (cmds, e) = commands_in output in
      let (r, s') = apply_commands shell 120 cmds s in
      (elim e [ none ↦ r | some x ↦ elim r [ ok rs ↦ err x | err y ↦ err y ] ], s')

  abbrev pub implemented : WorkPackage → ManifestResult → List CommandResult → Fields
  implemented w applied results = object (
      ("status", str "ok")
      ∷ ("package_key", str w.package_key)
      ∷ ("role", str (role_value w.role))
      ∷ ("task_kind", str (task_kind_of (role_value w.role)))
      ∷ ("changed_files", texts applied.files)
      ∷ ("apply_result", manifest_json applied)
      ∷ ("command_results", arr (items_of (map result_json results)))
      ∷ [])

  -- The statements after the call.
  unfoldable pub apply_output : PhaseInput → WorkPackage → (output : Fields) → Step S Fields
  apply_output p w output = do
    scoped ← for_run fs root p
    applied ← apply_files fs scoped w output
    results ← run_commands output
    services.write (record {
      project_id = p.project_id;
      run_id = p.run_id;
      job_id = p.job.id;
      kind = "patch_set";
      key = str_append w.package_key ".json";
      payload = patch_set w output applied;
    })
    pure (implemented w applied results)

  unfoldable pub generate : PhaseInput → WorkPackage → Step S Fields
  generate p w = do
    sp ← lift (scale_profile_of p.metadata)
    budget ← lift (build_budget sp (role_value w.role))
    context ← asks (λ s. ok (cross_package_context (services.list_work_packages s p.run_id) w))
    memory ← asks (λ s. ok (package_memory p w (services.list_artifacts s p.run_id none)))
    requirements ← lift (as_dict (requirements_of p.metadata))
    architecture ← lift (as_dict (architecture_of p.metadata))
    result ← services.call (code_call p w budget context memory requirements architecture)
    elim result.is_ok [
      | false ↦ pure (call_failed result)
      | true ↦ apply_output p w (json_or_empty services.loads (str result.raw_response))
    ]

  -- `execute`
  unfoldable pub execute : PhaseInput → Step S Fields
  execute p = do
    found ← asks (λ s. services.get_work_package s (or_else p.job.work_package_id ""))
    elim found [
      | none ↦
          pure (object (("status", str "blocked") ∷ ("error", str "work_package_not_found") ∷ []))
      | some w ↦ generate p w
    ]
