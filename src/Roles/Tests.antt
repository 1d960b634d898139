-- ===== src/Roles/Tests.antt =====
-- dev_orchestrator/v8/role_aliases.py: tests and examples.
use async_native_ai_orchestr.Prelude.{◌≡◌, refl}
use async_native_ai_orchestr.Roles.{normalize_role_name}
use async_native_ai_orchestr.Text.{
  lower, strip, lstrip, rstrip, replace_char, lstrip_char, rstrip_char,
}

normalized : normalize_role_name " QA-Engineer. " ≡ "qa_engineer"
unfolding normalize_role_name lower strip lstrip rstrip replace_char lstrip_char rstrip_char
normalized = refl
