-- ===== src/Phase.antt =====
-- dev_orchestrator/v8/phases: what the handlers share. A handler works with the store, the artifacts, the
-- scheduler and the runtime that it is made with; they are the interface `Services` over a state `S`. A run's
-- metadata is the `dict` that the handlers read, whose numbers are natural.
pub mod Quality
pub mod Verdict
pub mod Release
pub mod Integration
pub mod Implementation
pub mod Applied
pub mod Samples
mod Tests
use async_native_ai_orchestr.Prelude.{
  ℕ, String, Bool, true, false, List, [], ◌∷◌, ◌++◌, map, Option, none, some, str_append, or_else,
  keep, str_eq, if◌then◌else◌,
}
use async_native_ai_orchestr.Json.{
  Json, Fields, Items, null, bool, num, str, arr, obj, end, cons, get_field, find_field, or_json,
  fields_of, truthy, nil,
}
use async_native_ai_orchestr.Result.{Error, type_error, value_error, other_error, Result, ok, err}
use async_native_ai_orchestr.Errors.Numbers.{int}
use async_native_ai_orchestr.Store.Jobs.{Job}
use async_native_ai_orchestr.Store.Records.{WorkPackage, Artifact}
use async_native_ai_orchestr.Scheduler.{CallArgs, AiCallResult, AiTaskBudget}

-- An artifact as `_StoreAdapter.list_artifacts` of dev_orchestrator/v8/pipeline.py lists it: the dump of
-- a stored one, or a file, with the keys `kind`, `name` and `path` only.
pub data Listed : Type 0 where
  stored : Artifact → Listed
  on_disk : (kind name path : String) → Listed

abbrev pub listed_kind : Listed → String
listed_kind (stored a) = a.kind
listed_kind (on_disk kind name path) = kind

-- `a.get("content", "")`
abbrev pub listed_content : Listed → String
listed_content (stored a) = a.content
listed_content (on_disk kind name path) = ""

-- `a.get("path", "")`
abbrev pub listed_path : Listed → String
listed_path (stored a) = ""
listed_path (on_disk kind name path) = path

-- `_StoreAdapter.list_artifacts`: the files are listed if the store has nothing, and an exception on the
-- way gives the empty list.
unfoldable pub adapter_list_artifacts : List Artifact → Option (List Listed) → List Listed
adapter_list_artifacts [] files = or_else files []
adapter_list_artifacts (a ∷ rest) files = map stored (a ∷ rest)

-- What `_StoreAdapter.write` passes on to `write_json`.
pub record Written : Type 0 where
  pub project_id : String
  pub run_id : String
  pub job_id : String
  pub kind : String
  pub key : String
  pub payload : Fields

pub record Services (S : Type 0) : Type 0 where
  pub list_work_packages : S → (run_id : String) → Result (List WorkPackage)
  pub get_work_package : S → (id : String) → Result (Option WorkPackage)
  pub list_artifacts : S → (run_id : String) → (kind : Option String) → Result (List Listed)
  pub write : Written → S → Result (Unit {0}) × S
  pub call : CallArgs → S → Result AiCallResult × S
  -- `Path(p).read_text(…)`, and none where it raises.
  pub read_text : S → (path : String) → Option String
  pub loads : String → Option Json
  -- `time.monotonic()` to the end of the gates, in milliseconds.
  pub elapsed_ms : S → ℕ

-- The arguments of `execute`.
pub record PhaseInput : Type 0 where
  pub job : Job
  pub run_id : String
  pub project_id : String
  pub project_name : String
  pub project_title : String
  pub project_description : String
  pub metadata : Fields
  pub tenant_id : String

-- A step of a handler, which may raise.
abbrev pub Step : Type 0 → Type 0 → Type 0
Step S A = S → Result A × S

module _ {S A B : Type 0} where
  abbrev pub and_then : Result A × S → (A → Step S B) → Result B × S
  and_then (ok a, s) f = f a s
  and_then (err e, s) f = (err e, s)

  infixl 5 ◌>>=◌ ◌>>◌
  abbrev pub ◌>>=◌ : Step S A → (A → Step S B) → Step S B
  m >>= f = λ s. and_then (m s) f

  abbrev pub ◌>>◌ : Step S A → Step S B → Step S B
  m >> n = m >>= λ _. n

module _ {S A : Type 0} where
  abbrev pub pure : A → Step S A
  pure a s = (ok a, s)

  abbrev pub lift : Result A → Step S A
  lift r s = (r, s)

  abbrev pub asks : (S → Result A) → Step S A
  asks f s = (f s, s)

-- `type(v).__name__`
abbrev pub type_name : Json → String
type_name null = "NoneType"
type_name (bool b) = "bool"
type_name (num n) = "int"
type_name (str s) = "str"
type_name (arr xs) = "list"
type_name (obj fs) = "dict"

-- `v.get`, for a value that has no such method.
abbrev pub no_attribute : Json → Error
no_attribute v =
    other_error (str_append "'" (str_append (type_name v) "' object has no attribute 'get'"))

abbrev pub as_dict : Json → Result Fields
as_dict (obj fs) = ok fs
as_dict v = err (no_attribute v)

-- `v or {}`
abbrev pub or_empty : Json → Json
or_empty v = or_json v (obj end)

-- `int(v)`. A text that stands for a negative number is refused, which no scale profile holds.
abbrev pub int_of : Json → Result ℕ
int_of (num n) = ok n
int_of (bool true) = ok 1
int_of (bool false) = ok 0
int_of (str s) = elim (int s) [
  | some (false, n) ↦ ok n
  | some (true, n) ↦ err (value_error s)
  | none ↦ err (value_error s)
]
int_of v = err (type_error (type_name v))

-- `int(sp.get(k, default))`
abbrev pub int_field : String → ℕ → Fields → Result ℕ
int_field k default sp = int_of (or_else (find_field k sp) (num default))

-- The dictionary of `metadata.get("scale_profile") or {}`, when it is used as one.
abbrev pub scale_profile_of : Fields → Result Fields
scale_profile_of metadata = as_dict (or_empty (get_field "scale_profile" metadata))

abbrev pub requirements_of : Fields → Json
requirements_of metadata =
    or_empty
      (or_json (get_field "requirements" metadata) (get_field "requirements_analysis" metadata))

abbrev pub architecture_of : Fields → Json
architecture_of metadata =
    or_empty
      (or_json (get_field "architecture" metadata) (get_field "architecture_design" metadata))

abbrev pub optional_text : Option String → Json
optional_text none = null
optional_text (some s) = str s

-- What a handler returns when the call of the language model has failed.
abbrev pub call_failed : AiCallResult → Fields
call_failed r = Fields.field "status" (str "blocked") (
    Fields.field "error" (optional_text r.error) (
      Fields.field "error_kind" (optional_text r.error_kind)
        (Fields.field "retryable" (bool r.retryable) end)))
