-- ===== src/Phase/Integration.antt =====
-- dev_orchestrator/v8/phases/integration.py: integration and code review. The prompts, and `str` of a value
-- that is no text, are parameters.
use async_native_ai_orchestr.Prelude.{
  ℕ, ◌+◌, ◌/◌, String, Bool, true, false, List, [], ◌∷◌, ◌++◌, Option, none, some, str_eq,
  str_append, or_else, keep, length, leb, ◌==◌, map, if◌then◌else◌,
}
use async_native_ai_orchestr.Text.{take_chars, count_chars}
use async_native_ai_orchestr.Json.{
  Json, Fields, null, bool, num, str, arr, obj, end, field, nil, get_field, find_field, object,
  items_of, list_of, is_str,
}
use async_native_ai_orchestr.Result.{type_error, Result, ok, err}
use async_native_ai_orchestr.Utils.{json_or_empty}
use async_native_ai_orchestr.Models.Kind.{JobType, role_value}
use async_native_ai_orchestr.Store.Records.{WorkPackage}
use async_native_ai_orchestr.Scheduler.{AiCallResult, CallArgs}
use async_native_ai_orchestr.Phase.{
  Listed, listed_content, listed_path, Services, PhaseInput, Step, ◌>>=◌, ◌>>◌, pure, lift, asks,
  int_field, scale_profile_of, requirements_of, architecture_of, call_failed,
}
use async_native_ai_orchestr.Models.Status.{is_completed}
use async_native_ai_orchestr.Phase.Quality.{count_items, count_fields}

abbrev pub keys_of : Fields → List Json
keys_of end = []
keys_of (field k v fs) = str k ∷ keys_of fs

abbrev chars_of : String → List Json
chars_of String.[] = []
chars_of (String.◌∷◌ c s) = str (String.◌∷◌ c "") ∷ chars_of s

-- `for x in v or []`
abbrev pub iterate : Json → Result (List Json)
iterate (arr xs) = ok (list_of xs)
iterate (obj fs) = ok (keys_of fs)
iterate (str s) = ok (chars_of s)
iterate (num n) = if n == 0 then ok [] else err (type_error "int")
iterate (bool true) = err (type_error "bool")
iterate (bool false) = ok []
iterate null = ok []

-- `len(v)`, and none where it raises
abbrev pub len : Json → Option ℕ
len (str s) = some (count_chars s)
len (arr xs) = some (count_items xs)
len (obj fs) = some (count_fields fs)
len _ = none

pub record Sample : Type 0 where
  pub path : Json
  pub preview : String

-- The samples, their total of characters, and whether an exception ends the artifact.
pub record Samples : Type 0 where
  pub taken : List Sample
  pub total : ℕ

module _ (show : Json → String) where
  -- `str(f.get("content", ""))[:500]`
  abbrev pub preview_of : Fields → String
  preview_of f =
      take_chars 500 (elim (or_else (find_field "content" f) (str "")) [ str s ↦ s | v ↦ show v ])

  abbrev pub sample_of : Fields → Sample
  sample_of f = record { path = or_else (find_field "path" f) (str ""); preview = preview_of f }

  -- The body of the inner loop, and whether the loop goes on: an exception ends it.
  unfoldable pub add_sample : Fields → Samples → Bool × Samples
  add_sample f acc =
      let x = sample_of f in
      let taken' = acc.taken ++ (x ∷ []) in
      elim (len x.path) [
        | some n ↦
            (true, record { taken = taken'; total = acc.total + (count_chars x.preview + n) })
        | none ↦ (false, record acc { taken = taken' })
      ]

  module _ (max_chars : ℕ) where
    unfoldable pub sample_files : List Json → Samples → Samples
    sample_files [] acc = acc
    sample_files (obj f ∷ rest) acc =
        let (goes_on, acc') = add_sample f acc in
        let later = sample_files rest acc' in
        if leb max_chars acc.total then acc else (if goes_on then later else acc')
    sample_files (v ∷ rest) acc = acc

    -- The files of a parsed artifact; every exception ends the artifact only.
    unfoldable pub sample_parsed : Json → Samples → Samples
    sample_parsed (obj fs) acc = elim (iterate (get_field "files" fs)) [
      | ok files ↦ sample_files files acc
      | err e ↦ acc
    ]
    sample_parsed v acc = acc

    abbrev pub sample_raw : (String → Option Json) → String → Samples → Samples
    sample_raw loads raw acc =
        let parsed : Samples = elim (loads raw) [ none ↦ acc | some v ↦ sample_parsed v acc ] in
        if str_eq raw "" then acc else parsed

    -- The text of an artifact: its content, or else that of the file.
    abbrev pub raw_of : (String → Option String) → Listed → String
    raw_of read a =
        if str_eq (listed_content a) ""
        then (if str_eq (listed_path a) "" then "" else or_else (read (listed_path a)) "")
        else listed_content a

    unfoldable pub sample_artifacts :
        (loads : String → Option Json) (read : String → Option String)
        → List Listed
        → Samples
        → Samples
    sample_artifacts loads read [] acc = acc
    sample_artifacts loads read (a ∷ rest) acc =
        let later = sample_artifacts loads read rest (sample_raw loads (raw_of read a) acc) in
        if leb max_chars acc.total then acc else later

module _ {S : Type 0} (services : Services S) (show : Json → String) where
  -- `_collect_file_samples`
  unfoldable pub collect_file_samples : S → (run_id : String) (max_chars : ℕ) → List Sample
  collect_file_samples s run_id max_chars =
      elim (services.list_artifacts s run_id (some "patch_set")) [
        | ok artifacts ↦
            (sample_artifacts show max_chars services.loads (services.read_text s) artifacts
              (record { taken = []; total = 0 })).taken
        | err e ↦ []
      ]

abbrev is_critical : Json → Bool
is_critical (obj fs) = is_str "critical" (get_field "severity" fs)
is_critical _ = false

-- `critical`
abbrev pub critical_issues : Fields → Result (List Json)
critical_issues output = elim (iterate (get_field "issues" output)) [
  | ok issues ↦ ok (keep is_critical issues)
  | err e ↦ err e
]

abbrev pub is_review : JobType → Bool
is_review JobType.code_review = true
is_review _ = false

abbrev pub reviewed : (output : Fields) → List Json → Fields
reviewed output critical = object (
    ("status", str (if length critical == 0 then "ok" else "blocked"))
    ∷ ("ok", bool (length critical == 0))
    ∷ ("output", obj output)
    ∷ ("critical_issues", arr (items_of critical))
    ∷ [])

abbrev nothing_to_review : Bool → Fields
nothing_to_review review = object (
    ("status", str "ok")
    ∷ ("ok", bool true)
    ∷ (
      "output",
      obj (
          object (
            ("ok", bool true)
            ∷ (
              "summary",
              str (if review then "No packages to review" else "No packages to integrate"),
            )
            ∷ [])),
    )
    ∷ ("critical_issues", arr nil)
    ∷ [])

abbrev pub texts : List String → Json
texts xs = arr (items_of (map str xs))

abbrev summary_of : WorkPackage → Json
summary_of w = obj (
    object (
      ("package_key", str w.package_key)
      ∷ ("role", str (role_value w.role))
      ∷ ("domain", str w.domain)
      ∷ ("allowed_paths", texts w.allowed_paths)
      ∷ []))

abbrev sample_json : Sample → Json
sample_json x = obj (object (("path", x.path) ∷ ("preview", str x.preview) ∷ []))

module _ {S : Type 0} (services : Services S) (show : Json → String)
    (integration_prompt review_prompt : String) where
  abbrev pub review_call :
      PhaseInput → (max_input retries : ℕ) → List WorkPackage → List Sample → CallArgs
  review_call p max_input retries packages samples =
      let review = is_review p.job.job_type in
      record {
        run_id = p.run_id;
        role = if review then "review" else "integration";
        job_id = p.job.id;
        task_kind = if review then "code_review" else "integration";
        system_prompt = if review then review_prompt else integration_prompt;
        user_payload = object (
            ("project", obj (object (("name", str p.project_name) ∷ [])))
            ∷ ("requirements", requirements_of p.metadata)
            ∷ ("architecture", architecture_of p.metadata)
            ∷ (
              "package_summaries",
              arr (
                  items_of
                    (map summary_of (keep (λ (w : WorkPackage). is_completed w.status) packages))),
            )
            ∷ ("generated_files", arr (items_of (map sample_json samples)))
            ∷ []);
        budget = record {
          max_input_chars = max_input;
          max_output_tokens = 8000;
          timeout_seconds = 180;
          reasoning_effort = "high";
          retry_attempts = retries;
        };
        tenant_id = p.tenant_id;
      }

  -- The statements after the call.
  unfoldable pub accept_review : PhaseInput → (task_kind : String) → AiCallResult → Step S Fields
  accept_review p task_kind result = elim result.is_ok [
    | false ↦ pure (call_failed result)
    | true ↦ (do
      let output = json_or_empty services.loads (str result.raw_response)
      services.write (record {
        project_id = p.project_id;
        run_id = p.run_id;
        job_id = p.job.id;
        kind = str_append task_kind "_report";
        key = str_append task_kind ".json";
        payload = output;
      })
      critical ← lift (critical_issues output)
      pure (reviewed output critical))
  ]

  -- `execute`
  unfoldable pub execute : PhaseInput → Step S Fields
  execute p = do
    sp ← lift (scale_profile_of p.metadata)
    max_input ← lift (int_field "context_budget_chars" 36000 sp)
    retries ← lift (int_field "ai_retry_attempts" 3 sp)
    packages ← asks (λ s. services.list_work_packages s p.run_id)
    if length packages == 0 then pure (nothing_to_review (is_review p.job.job_type)) else (do
      samples ← asks (λ s. ok (collect_file_samples services show s p.run_id (max_input / 3)))
      let q = review_call p max_input retries packages samples
      result ← services.call q
      accept_review p q.task_kind result)
