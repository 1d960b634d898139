-- ===== src/Contracts/Tests.antt =====
-- dev_orchestrator/v8/contract_validator.py: examples, with a validator that wants a member `summary`.
use async_native_ai_orchestr.Prelude.{String, ◌≡◌, refl, List, [], ◌∷◌, str_append}
use async_native_ai_orchestr.Prelude.Dict.{get}
use async_native_ai_orchestr.Json.{Fields, end, field}
use async_native_ai_orchestr.Contracts.{validate_and_classify}
use async_native_ai_orchestr.Contracts.Kinds.{validate_and_classify-unregistered}

abbrev model_errors : String → Fields → List String
model_errors model end = "summary: Field required" ∷ []
model_errors model (field k v fs) = []

abbrev quoted : String → String
quoted s = str_append "'" (str_append s "'")

-- No output of a task of the kind `code_generation` passes.
code_generation_fails :
    (output : Fields)
    → (validate_and_classify model_errors quoted "code_generation" output).errors
      ≡ "unknown task_kind: 'code_generation'" ∷ []
unfolding get
code_generation_fails output =
    validate_and_classify-unregistered model_errors quoted "code_generation" output refl refl refl
