-- ===== src/Planning.antt =====
-- dev_orchestrator/v8/phases/planning.py: what the planning phase makes of the packages and waves of a plan,
-- after `_normalize_plan` has given each its keys. The roles and keys are texts, as in the plan.
pub mod Paths
pub mod Infrastructure
mod Tests
use async_native_ai_orchestr.Prelude.{ℕ, String, List}

pub record PlanPackage : Type 0 where
  pub package_key : String
  pub role : String
  pub domain : String
  pub wave_key : String
  pub allowed_paths : List String
  pub forbidden_paths : List String
  pub depends_on : List String
  pub objective : String
  pub expected_outputs : List String
  pub acceptance_gates : List String

pub record PlanWave : Type 0 where
  pub wave_key : String
  pub sequence : ℕ
  pub packages : List String

pub record PlanEdge : Type 0 where
  pub source : String
  pub target : String

pub record Plan : Type 0 where
  pub packages : List PlanPackage
  pub waves : List PlanWave
  pub edges : List PlanEdge
