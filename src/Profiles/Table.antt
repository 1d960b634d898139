-- ===== src/Profiles/Table.antt =====
-- dev_orchestrator/v8/profiles.py: `SCALE_PROFILES`.
use async_native_ai_orchestr.Prelude.{
  String, Option, none, some, true, false, if◌then◌else◌, str_eq,
}
use async_native_ai_orchestr.Prelude.Dict.{put}
use async_native_ai_orchestr.Profiles.{
  ScaleProfileData, default_job_attempts, default_worker_concurrency, xlarge_worker_concurrency,
  enterprise_worker_concurrency, quality_gates_small, quality_gates_medium, quality_gates_100k,
  quality_gates_enterprise,
}

pub profile_small : ScaleProfileData
profile_small = record {
  name = "small";
  label = "Small product (5k LOC)";
  kernel_generation = "v8_pg_native";
  mission_contract_version = "8.0";
  target_loc_hint = 5000;
  package_loc_target = 700;
  recursive_decomposition_depth = 2;
  max_waves = 4;
  wave_parallelism = 2;
  ai_provider_concurrency = 1;
  ai_run_concurrency = 1;
  ai_slot_wait_seconds = 10;
  context_budget_chars = 22000;
  ai_retry_attempts = 2;
  contract_density = "standard";
  qa_depth = "focused";
  security_depth = "baseline";
  recovery_policy = "checkpoint_retry_then_repair";
  checkpoint_interval_packages = 2;
  provider_failover_required = false;
  job_attempts = put "package_planning" 2 (put "architecture_design" 2 default_job_attempts);
  worker_role_concurrency = default_worker_concurrency;
  required_quality_gates = quality_gates_small;
  max_output_tokens_code = 4000;
  reasoning_effort_code = "medium";
  max_packages_per_plan = 6;
}

pub profile_medium : ScaleProfileData
profile_medium = record {
  name = "medium";
  label = "Medium product (20k LOC)";
  kernel_generation = "v8_pg_native";
  mission_contract_version = "8.0";
  target_loc_hint = 20000;
  package_loc_target = 1100;
  recursive_decomposition_depth = 3;
  max_waves = 7;
  wave_parallelism = 3;
  ai_provider_concurrency = 2;
  ai_run_concurrency = 2;
  ai_slot_wait_seconds = 20;
  context_budget_chars = 36000;
  ai_retry_attempts = 3;
  contract_density = "dense";
  qa_depth = "broad";
  security_depth = "threat_model";
  recovery_policy = "checkpoint_retry_dead_letter_requeue";
  checkpoint_interval_packages = 2;
  provider_failover_required = false;
  job_attempts = put "release_notes" 3 (put "quality" 3 default_job_attempts);
  worker_role_concurrency =
      put "qa" 2 (put "frontend" 2 (put "backend" 2 default_worker_concurrency));
  required_quality_gates = quality_gates_medium;
  max_output_tokens_code = 8000;
  reasoning_effort_code = "medium";
  max_packages_per_plan = 12;
}

pub profile_large : ScaleProfileData
profile_large = record {
  name = "large";
  label = "Large product (60k LOC)";
  kernel_generation = "v8_pg_native";
  mission_contract_version = "8.0";
  target_loc_hint = 60000;
  package_loc_target = 1500;
  recursive_decomposition_depth = 4;
  max_waves = 12;
  wave_parallelism = 4;
  ai_provider_concurrency = 3;
  ai_run_concurrency = 3;
  ai_slot_wait_seconds = 45;
  context_budget_chars = 52000;
  ai_retry_attempts = 4;
  contract_density = "dense";
  qa_depth = "system";
  security_depth = "abuse_and_dependency_review";
  recovery_policy = "checkpoint_retry_dead_letter_recovery_wave";
  checkpoint_interval_packages = 1;
  provider_failover_required = true;
  job_attempts = put "code_review" 4 (
      put "security_review" 4
        (put "test_generation" 4 (put "code_generation" 4 default_job_attempts)));
  worker_role_concurrency =
      put "qa" 2 (put "frontend" 2 (put "backend" 2 xlarge_worker_concurrency));
  required_quality_gates = quality_gates_100k;
  max_output_tokens_code = 12000;
  reasoning_effort_code = "high";
  max_packages_per_plan = 25;
}

pub profile_xlarge_100k : ScaleProfileData
profile_xlarge_100k = record {
  name = "xlarge_100k";
  label = "100k LOC mission profile";
  kernel_generation = "v8_pg_native";
  mission_contract_version = "8.0";
  target_loc_hint = 100000;
  package_loc_target = 1800;
  recursive_decomposition_depth = 5;
  max_waves = 18;
  wave_parallelism = 6;
  ai_provider_concurrency = 4;
  ai_run_concurrency = 4;
  ai_slot_wait_seconds = 60;
  context_budget_chars = 76000;
  ai_retry_attempts = 4;
  contract_density = "exhaustive";
  qa_depth = "system_performance_security";
  security_depth = "full_review_with_rollback_materials";
  recovery_policy = "event_replay_checkpoint_dead_letter_recovery_wave";
  checkpoint_interval_packages = 1;
  provider_failover_required = true;
  job_attempts = put "repair" 3 (
      put "code_review" 4 (
        put "integration" 4 (
          put "security_review" 4
            (put "test_generation" 4 (put "code_generation" 4 default_job_attempts)))));
  worker_role_concurrency = xlarge_worker_concurrency;
  required_quality_gates = quality_gates_100k;
  max_output_tokens_code = 16000;
  reasoning_effort_code = "high";
  max_packages_per_plan = 50;
}

pub profile_xxlarge_300k : ScaleProfileData
profile_xxlarge_300k = record {
  name = "xxlarge_300k";
  label = "300k LOC super-scale profile";
  kernel_generation = "v8_pg_native";
  mission_contract_version = "8.0";
  target_loc_hint = 300000;
  package_loc_target = 2000;
  recursive_decomposition_depth = 6;
  max_waves = 30;
  wave_parallelism = 8;
  ai_provider_concurrency = 6;
  ai_run_concurrency = 5;
  ai_slot_wait_seconds = 90;
  context_budget_chars = 100000;
  ai_retry_attempts = 5;
  contract_density = "exhaustive";
  qa_depth = "system_performance_security";
  security_depth = "full_review_with_rollback_materials";
  recovery_policy = "event_replay_checkpoint_dead_letter_recovery_wave";
  checkpoint_interval_packages = 1;
  provider_failover_required = true;
  job_attempts = put "repair" 4 (
      put "code_review" 5 (
        put "integration" 5 (
          put "security_review" 5
            (put "test_generation" 5 (put "code_generation" 5 default_job_attempts)))));
  worker_role_concurrency = enterprise_worker_concurrency;
  required_quality_gates = quality_gates_enterprise;
  max_output_tokens_code = 16000;
  reasoning_effort_code = "high";
  max_packages_per_plan = 100;
}

pub profile_enterprise_1m : ScaleProfileData
profile_enterprise_1m = record {
  name = "enterprise_1m";
  label = "Enterprise 1M+ LOC profile";
  kernel_generation = "v8_pg_native";
  mission_contract_version = "8.0";
  target_loc_hint = 1000000;
  package_loc_target = 2000;
  recursive_decomposition_depth = 8;
  max_waves = 60;
  wave_parallelism = 10;
  ai_provider_concurrency = 8;
  ai_run_concurrency = 6;
  ai_slot_wait_seconds = 120;
  context_budget_chars = 120000;
  ai_retry_attempts = 5;
  contract_density = "exhaustive";
  qa_depth = "system_performance_security";
  security_depth = "full_review_with_rollback_materials";
  recovery_policy = "event_replay_checkpoint_dead_letter_recovery_wave";
  checkpoint_interval_packages = 1;
  provider_failover_required = true;
  job_attempts = put "repair" 5 (
      put "code_review" 5 (
        put "integration" 5 (
          put "security_review" 5
            (put "test_generation" 5 (put "code_generation" 5 default_job_attempts)))));
  worker_role_concurrency = enterprise_worker_concurrency;
  required_quality_gates = quality_gates_enterprise;
  max_output_tokens_code = 16000;
  reasoning_effort_code = "high";
  max_packages_per_plan = 200;
}

-- `SCALE_PROFILES.get(name)`
unfoldable pub scale_profile : String → Option ScaleProfileData
unfolding profile_small profile_medium profile_large profile_xlarge_100k profile_xxlarge_300k
    profile_enterprise_1m put
scale_profile name =
    if str_eq name "small"
    then some profile_small
    else (if str_eq name "medium"
        then some profile_medium
        else (if str_eq name "large"
            then some profile_large
            else (if str_eq name "xlarge_100k"
                then some profile_xlarge_100k
                else (if str_eq name "xxlarge_300k"
                    then some profile_xxlarge_300k
                    else (if str_eq name "enterprise_1m"
                        then some profile_enterprise_1m
                        else (none))))))
