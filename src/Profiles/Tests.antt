-- ===== src/Profiles/Tests.antt =====
-- dev_orchestrator/v8/profiles.py: tests and examples.
use async_native_ai_orchestr.Prelude.{◌≡◌, refl}
use async_native_ai_orchestr.Result.{ok, err, value_error}
use async_native_ai_orchestr.Profiles.{default_profile}
use async_native_ai_orchestr.Profiles.Attempts.{resolve_profile_name, scale_job_attempts}

alias : resolve_profile_name " 300K " ≡ ok "xxlarge_300k"
unfolding resolve_profile_name
alias = refl

unknown_name : resolve_profile_name "huge" ≡ err (value_error "huge")
unfolding resolve_profile_name
unknown_name = refl

default_attempts : scale_job_attempts "code_review" default_profile ≡ ok 3
unfolding scale_job_attempts resolve_profile_name
default_attempts = refl
