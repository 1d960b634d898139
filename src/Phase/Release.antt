-- ===== src/Phase/Release.antt =====
-- dev_orchestrator/v8/phases/release.py. The two prompts are parameters.
use async_native_ai_orchestr.Prelude.{
  ℕ, ◌≡◌, refl, String, Bool, true, false, List, [], ◌∷◌, Option, none, some, str_eq, keep, length,
  All, if◌then◌else◌, str_append, Bool-cases, inl, inr, ap, ◌++◌,
}
use mathlib.Core.List.{reverse, reverse-append}
use async_native_ai_orchestr.Json.{Json, Fields, num, str, obj, end, get_field, object}
use async_native_ai_orchestr.Utils.{json_or_empty}
use async_native_ai_orchestr.Models.Kind.{JobType}
use async_native_ai_orchestr.Models.Status.{is_completed}
use async_native_ai_orchestr.Store.Records.{WorkPackage}
use async_native_ai_orchestr.Scheduler.{AiCallResult, CallArgs}
use async_native_ai_orchestr.Phase.{
  Listed, on_disk, listed_kind, listed_content, adapter_list_artifacts, Services, PhaseInput, Step,
  ◌>>=◌, ◌>>◌, pure, lift, asks, int_field, scale_profile_of, requirements_of, architecture_of,
  call_failed,
}

abbrev pub is_candidate : JobType → Bool
is_candidate JobType.release_candidate = true
is_candidate _ = false

-- The object that an artifact's content parses to, if it is of the kind.
abbrev payload_of : (String → Option Json) → (kind : String) → Listed → Option Fields
payload_of loads kind a =
    let parsed : Option Fields = elim (loads (listed_content a)) [
      | some (obj fs) ↦ some fs
      | some _ ↦ none
      | none ↦ none
    ] in
    if str_eq (listed_kind a) kind
    then (if str_eq (listed_content a) "" then none else parsed)
    else none

abbrev first_payload : (String → Option Json) → (kind : String) → List Listed → Fields
first_payload loads kind [] = end
first_payload loads kind (a ∷ rest) = elim (payload_of loads kind a) [
  | some fs ↦ fs
  | none ↦ first_payload loads kind rest
]

-- `_latest_payload`
unfoldable pub latest_payload : (String → Option Json) → List Listed → (kind : String) → Fields
latest_payload loads artifacts kind = first_payload loads kind (reverse artifacts)

module _ {S : Type 0} (services : Services S) (notes_prompt candidate_prompt : String) where
  abbrev pub release_call :
      PhaseInput → ℕ → (packages : List WorkPackage) (artifacts : List Listed) → CallArgs
  release_call p max_input packages artifacts =
      let candidate = is_candidate p.job.job_type in
      record {
        run_id = p.run_id;
        role = "release";
        job_id = p.job.id;
        task_kind = if candidate then "release_candidate" else "release_notes";
        system_prompt = if candidate then candidate_prompt else notes_prompt;
        user_payload = object (
            (
              "project",
              obj (object (("name", str p.project_name) ∷ ("title", str p.project_title) ∷ [])),
            )
            ∷ ("requirements", requirements_of p.metadata)
            ∷ ("architecture", architecture_of p.metadata)
            ∷ ("quality_report", obj (latest_payload services.loads artifacts "quality_report"))
            ∷ ("package_count", num (length packages))
            ∷ (
              "completed",
              num (length (keep (λ (w : WorkPackage). is_completed w.status) packages)),
            )
            ∷ []);
        budget = record {
          max_input_chars = max_input;
          max_output_tokens = 4000;
          timeout_seconds = 120;
          reasoning_effort = "high";
          retry_attempts = 2;
        };
        tenant_id = p.tenant_id;
      }

  -- The statements after the call.
  unfoldable pub accept_release : PhaseInput → (task_kind : String) → AiCallResult → Step S Fields
  accept_release p task_kind result = elim result.is_ok [
    | false ↦ pure (call_failed result)
    | true ↦ (do
      let output = json_or_empty services.loads (str result.raw_response)
      services.write (record {
        project_id = p.project_id;
        run_id = p.run_id;
        job_id = p.job.id;
        kind = task_kind;
        key = str_append task_kind ".json";
        payload = output;
      })
      pure (object (("status", str "ok") ∷ ("output", obj output) ∷ [])))
  ]

  -- `execute`
  unfoldable pub execute : PhaseInput → Step S Fields
  execute p = do
    sp ← lift (scale_profile_of p.metadata)
    max_input ← lift (int_field "context_budget_chars" 36000 sp)
    packages ← asks (λ s. services.list_work_packages s p.run_id)
    artifacts ← asks (λ s. services.list_artifacts s p.run_id none)
    let q = release_call p max_input packages artifacts
    result ← services.call q
    accept_release p q.task_kind result

-- A file, as the adapter lists it.
abbrev pub IsFile : Listed → Type 0
IsFile a = listed_content a ≡ ""

payload_of-IsFile :
    (loads : String → Option Json) (kind : String) (a : Listed)
    → IsFile a
    → payload_of loads kind a ≡ none
payload_of-IsFile loads kind a h = elim (Bool-cases (str_eq (listed_kind a) kind)) [
  | inl e ↦ rw (e, h)
  | inr e ↦ rw e
]

first_payload-IsFile :
    (loads : String → Option Json) (kind : String) (xs : List Listed)
    → All IsFile xs
    → first_payload loads kind xs ≡ end
first_payload-IsFile loads kind [] h = refl
first_payload-IsFile loads kind (a ∷ xs) (h, hs) =
    rw (payload_of-IsFile loads kind a h, first_payload) (first_payload-IsFile loads kind xs hs)

All-append {ℓ κ} :
    {A : Type ℓ} (P : A → Type κ) (xs ys : List A) → All P xs → All P ys → All P (xs ++ ys)
All-append P [] ys h k = k
All-append P (x ∷ xs) ys (h, hs) k = (h, All-append P xs ys hs k)

All-reverse {ℓ κ} : {A : Type ℓ} (P : A → Type κ) (xs : List A) → All P xs → All P (reverse xs)
All-reverse P [] h = tt
All-reverse P (x ∷ xs) (h, hs) =
    rw (reverse-append (x ∷ []) xs)
      (All-append P (reverse xs) (x ∷ []) (All-reverse P xs hs) (h, tt))

abbrev pub all_listed : List (String × String × String) → List Listed
all_listed [] = []
all_listed ((kind, name, path) ∷ files) = on_disk kind name path ∷ all_listed files

abbrev pub as_listed : Option (List (String × String × String)) → Option (List Listed)
as_listed none = none
as_listed (some files) = some (all_listed files)

all_listed-IsFile : (files : List (String × String × String)) → All IsFile (all_listed files)
all_listed-IsFile [] = tt
all_listed-IsFile ((kind, name, path) ∷ files) = (refl, all_listed-IsFile files)

-- The release phase never sees a quality report that was written to a file: when the store holds no
-- artifact, whatever files there are, the call to the language model has an empty quality report.
pub release_call-no_report :
    {S : Type 0} (services : Services S) (notes_prompt candidate_prompt : String) (p : PhaseInput)
    (max_input : ℕ) (packages : List WorkPackage) (files : Option (List (String × String × String)))
    → get_field "quality_report"
        (release_call services notes_prompt candidate_prompt p max_input packages
          (adapter_list_artifacts [] (as_listed files))).user_payload
      ≡ obj end
unfolding latest_payload adapter_list_artifacts
release_call-no_report services a b p n packages none = refl
release_call-no_report services a b p n packages (some files) = ap obj (
    first_payload-IsFile services.loads "quality_report" (reverse (all_listed files))
      (All-reverse IsFile (all_listed files) (all_listed-IsFile files)))
