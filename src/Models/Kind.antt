-- ===== src/Models/Kind.antt =====
-- dev_orchestrator/v8/models.py: job types and worker roles. Each is a `str` enumeration, and `name`
-- is the value that the source writes into keys.
use async_native_ai_orchestr.Prelude.{String}

pub data JobType : Type 0 where
  requirements_analysis architecture_design package_planning code_generation : JobType
  test_generation security_review code_review integration quality : JobType
  release_candidate release_notes apply rollback repair : JobType

pub data PackageRole : Type 0 where
  requirements planner architect db frontend backend docs qa : PackageRole
  security integration review repair release : PackageRole

-- `role.value`. A `str` enumeration is compared by value.
abbrev pub role_value : PackageRole → String
role_value requirements = "requirements"
role_value planner = "planner"
role_value architect = "architect"
role_value db = "db"
role_value frontend = "frontend"
role_value backend = "backend"
role_value docs = "docs"
role_value qa = "qa"
role_value security = "security"
role_value PackageRole.integration = "integration"
role_value review = "review"
role_value PackageRole.repair = "repair"
role_value release = "release"

-- `job_type.value`
abbrev pub job_type_value : JobType → String
job_type_value requirements_analysis = "requirements_analysis"
job_type_value architecture_design = "architecture_design"
job_type_value package_planning = "package_planning"
job_type_value code_generation = "code_generation"
job_type_value test_generation = "test_generation"
job_type_value security_review = "security_review"
job_type_value code_review = "code_review"
job_type_value JobType.integration = "integration"
job_type_value quality = "quality"
job_type_value release_candidate = "release_candidate"
job_type_value release_notes = "release_notes"
job_type_value apply = "apply"
job_type_value rollback = "rollback"
job_type_value JobType.repair = "repair"
