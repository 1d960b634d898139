-- ===== src/Contracts.antt =====
-- dev_orchestrator/v8/contracts.py and dev_orchestrator/v8/contract_validator.py: which output of an agent
-- is validated, and which failure blocks. The messages of pydantic for an output that is no instance of a
-- contract's model, and Python's `repr` of a text, are parameters.
pub mod Kinds
mod Tests
use async_native_ai_orchestr.Prelude.{
  ℕ, String, Bool, true, false, ◌&&◌, ◌||◌, not, List, [], ◌∷◌, Option, none, some, str_eq,
  str_append, any, if◌then◌else◌,
}
use async_native_ai_orchestr.Prelude.Dict.{Dict, get}
use async_native_ai_orchestr.Json.{Fields}

pub record ContractValidation : Type 0 where
  pub is_ok : Bool
  pub errors : List String
  pub contract_type : String

-- `TASK_CONTRACTS`, with the names of the models.
abbrev pub task_contracts : Dict String
task_contracts =
    ("requirements", "RequirementsContract")
    ∷ ("architecture_surface", "ArchitectureSurfaceContract")
    ∷ ("architecture_layout", "ArchitectureLayoutContract")
    ∷ ("architecture_contracts", "ArchitectureContractsContract")
    ∷ ("package_scope", "PackageScopeContract")
    ∷ ("package_wave", "PackageWaveContract")
    ∷ ("implementation_contract_pack", "ImplementationContractPack")
    ∷ ("implementation_scope", "ImplementationScopeContract")
    ∷ ("file_manifest_patch", "FileManifestPatch")
    ∷ ("code_review", "CodeReviewContract")
    ∷ ("test_report", "TestReportContract")
    ∷ ("security_report", "SecurityReportContract")
    ∷ ("repair_report", "RepairReportContract")
    ∷ ("release_notes", "ReleaseNotesContract")
    ∷ ("package_self_review", "PackageSelfReviewContract")
    ∷ []

-- `BLOCKING_CONTRACT_KINDS`
abbrev pub blocking_contract_kinds : List String
blocking_contract_kinds =
    "requirements" ∷ "package_scope" ∷ "package_wave" ∷ "file_manifest_patch" ∷ []

-- `ADVISORY_CONTRACT_KINDS`
abbrev pub advisory_contract_kinds : List String
advisory_contract_kinds =
    "architecture_surface" ∷ "architecture_layout" ∷ "architecture_contracts" ∷ "code_review"
    ∷ "security_report" ∷ "test_report" ∷ "repair_report" ∷ "release_notes" ∷ "package_self_review"
    ∷ "code_generation" ∷ "test_generation" ∷ "security_review" ∷ "integration" ∷ []

abbrev pub is_one_of : List String → String → Bool
is_one_of kinds kind = any (str_eq kind) kinds

abbrev pub is_listed : String → Bool
is_listed kind = is_one_of blocking_contract_kinds kind || is_one_of advisory_contract_kinds kind

abbrev pub is_empty : List String → Bool
is_empty [] = true
is_empty (e ∷ es) = false

module _ (model_errors : String → Fields → List String) (repr : String → String) where
  abbrev pub unknown_kind : String → String
  unknown_kind kind = str_append "unknown task_kind: " (repr kind)

  -- The errors that `validate_agent_contract` returns; its callers drop the data.
  unfoldable pub validate_agent_contract : String → Fields → List String
  validate_agent_contract kind payload = elim (get kind task_contracts) [
    | none ↦ unknown_kind kind ∷ []
    | some model ↦ model_errors model payload
  ]

  unfoldable pub validate_and_classify : String → Fields → ContractValidation
  validate_and_classify kind parsed =
      let errors = validate_agent_contract kind parsed in
      if str_eq kind "" || not (is_listed kind)
      then record { is_ok = true; errors = []; contract_type = kind }
      else record { is_ok = is_empty errors; errors = errors; contract_type = kind }

unfoldable pub is_blocking_failure : ContractValidation → Bool
is_blocking_failure v = if v.is_ok then false else is_one_of blocking_contract_kinds v.contract_type
