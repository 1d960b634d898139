-- ===== src/Profiles.antt =====
-- dev_orchestrator/v8/profiles.py: the tables of tuning parameters, and `ScaleProfileData` of
-- dev_orchestrator/v8/models.py.
pub mod Table
pub mod Attempts
mod Tests
use async_native_ai_orchestr.Prelude.{ℕ, String, Bool, false, List, [], ◌∷◌, ◌++◌}
use async_native_ai_orchestr.Prelude.Dict.{Dict}

pub record ScaleProfileData : Type 0 where
  pub name : String
  pub label : String
  pub kernel_generation : String
  pub mission_contract_version : String
  pub target_loc_hint : ℕ
  pub package_loc_target : ℕ
  pub recursive_decomposition_depth : ℕ
  pub max_waves : ℕ
  pub wave_parallelism : ℕ
  pub ai_provider_concurrency : ℕ
  pub ai_run_concurrency : ℕ
  pub ai_slot_wait_seconds : ℕ
  pub context_budget_chars : ℕ
  pub ai_retry_attempts : ℕ
  pub contract_density : String
  pub qa_depth : String
  pub security_depth : String
  pub recovery_policy : String
  pub checkpoint_interval_packages : ℕ
  pub provider_failover_required : Bool
  pub job_attempts : Dict ℕ
  pub worker_role_concurrency : Dict ℕ
  pub required_quality_gates : List String
  pub max_output_tokens_code : ℕ
  pub reasoning_effort_code : String
  pub max_packages_per_plan : ℕ

-- `ScaleProfileData()`
abbrev pub default_profile : ScaleProfileData
default_profile = record {
  name = "medium";
  label = "";
  kernel_generation = "v8_pg_native";
  mission_contract_version = "8.0";
  target_loc_hint = 20000;
  package_loc_target = 1100;
  recursive_decomposition_depth = 3;
  max_waves = 7;
  wave_parallelism = 3;
  ai_provider_concurrency = 2;
  ai_run_concurrency = 2;
  ai_slot_wait_seconds = 20;
  context_budget_chars = 36000;
  ai_retry_attempts = 3;
  contract_density = "dense";
  qa_depth = "broad";
  security_depth = "threat_model";
  recovery_policy = "checkpoint_retry_dead_letter_requeue";
  checkpoint_interval_packages = 2;
  provider_failover_required = false;
  job_attempts = [];
  worker_role_concurrency = [];
  required_quality_gates = [];
  max_output_tokens_code = 8000;
  reasoning_effort_code = "medium";
  max_packages_per_plan = 12;
}

abbrev pub default_job_attempts : Dict ℕ
default_job_attempts =
    ("requirements_analysis", 3)
    ∷ ("architecture_design", 3)
    ∷ ("package_planning", 3)
    ∷ ("code_generation", 3)
    ∷ ("test_generation", 3)
    ∷ ("security_review", 3)
    ∷ ("integration", 3)
    ∷ ("code_review", 3)
    ∷ ("quality", 2)
    ∷ ("release_notes", 2)
    ∷ ("release_candidate", 2)
    ∷ ("repair", 2)
    ∷ ("apply", 1)
    ∷ ("rollback", 1)
    ∷ []

abbrev pub default_worker_concurrency : Dict ℕ
default_worker_concurrency =
    ("requirements", 1)
    ∷ ("architect", 1)
    ∷ ("planner", 1)
    ∷ ("db", 1)
    ∷ ("backend", 1)
    ∷ ("frontend", 1)
    ∷ ("qa", 1)
    ∷ ("security", 1)
    ∷ ("integration", 1)
    ∷ ("review", 1)
    ∷ ("repair", 1)
    ∷ ("release", 1)
    ∷ ("docs", 1)
    ∷ []

abbrev pub xlarge_worker_concurrency : Dict ℕ
xlarge_worker_concurrency =
    ("requirements", 1)
    ∷ ("architect", 1)
    ∷ ("planner", 1)
    ∷ ("db", 2)
    ∷ ("backend", 3)
    ∷ ("frontend", 3)
    ∷ ("qa", 3)
    ∷ ("security", 2)
    ∷ ("integration", 1)
    ∷ ("review", 1)
    ∷ ("repair", 1)
    ∷ ("release", 1)
    ∷ ("docs", 2)
    ∷ []

abbrev pub enterprise_worker_concurrency : Dict ℕ
enterprise_worker_concurrency =
    ("requirements", 1)
    ∷ ("architect", 2)
    ∷ ("planner", 1)
    ∷ ("db", 3)
    ∷ ("backend", 5)
    ∷ ("frontend", 5)
    ∷ ("qa", 4)
    ∷ ("security", 3)
    ∷ ("integration", 2)
    ∷ ("review", 2)
    ∷ ("repair", 2)
    ∷ ("release", 1)
    ∷ ("docs", 3)
    ∷ []

-- The names of each tuple are distinct, so `tuple(dict.fromkeys(...))` is the concatenation.
abbrev pub quality_gates_small : List String
quality_gates_small =
    "scale_profile_gate" ∷ "mission_state_contract_gate" ∷ "package_dag_acyclic_gate"
    ∷ "package_ownership_gate" ∷ "implementation_split_gate" ∷ "provider_resilience_gate"
    ∷ "ai_live_execution_gate" ∷ "ai_payload_budget_gate" ∷ "event_replay_projection_gate"
    ∷ "checkpoint_resume_gate" ∷ "recovery_trace_gate" ∷ "patch_transaction_addressing_gate"
    ∷ "ai_native_no_template_fallback_gate" ∷ "long_call_heartbeat_gate" ∷ "frontend_ux_gate"
    ∷ "performance_budget_gate" ∷ []

abbrev pub quality_gates_medium : List String
quality_gates_medium =
    quality_gates_small
    ++ ("contract_density_gate" ∷ "micro_patch_integrity_gate" ∷ "package_self_review_gate"
        ∷ "ai_context_compression_gate" ∷ "oversize_recovery_gate" ∷ "agent_output_diversity_gate"
        ∷ "durable_ai_slot_gate" ∷ "patch_parallel_conflict_gate" ∷ [])

abbrev pub quality_gates_100k : List String
quality_gates_100k =
    quality_gates_medium
    ++ ("parallel_execution_safety_gate" ∷ "provider_circuit_recovery_gate" ∷ [])

abbrev pub quality_gates_enterprise : List String
quality_gates_enterprise =
    quality_gates_100k
    ++ ("cross_subsystem_contract_gate" ∷ "incremental_delivery_gate" ∷ "rollback_materials_gate"
        ∷ "multi_provider_failover_gate" ∷ [])
