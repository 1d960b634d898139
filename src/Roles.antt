-- ===== src/Roles.antt =====
-- dev_orchestrator/v8/role_aliases.py: the names of roles.
pub mod Canonical
mod Tests
use Prim.Native.Char.{Char}
use Prim.Native.String.{◌∷◌ as cons_char}
use async_native_ai_orchestr.Prelude.{
  ℕ, String, Bool, true, false, List, [], ◌∷◌, Option, none, some, str_eq, str_append, any,
  if◌then◌else◌, is_some,
}
use async_native_ai_orchestr.Prelude.Dict.{Dict, get}
use async_native_ai_orchestr.Text.{lower, strip, contains, replace_char, strip_char}

-- `ROLES`
abbrev pub roles : List String
roles =
    "requirements" ∷ "planner" ∷ "architect" ∷ "db" ∷ "frontend" ∷ "backend" ∷ "docs" ∷ "qa"
    ∷ "security" ∷ "integration" ∷ "review" ∷ "repair" ∷ "release" ∷ []

-- `role in ROLES`
unfoldable pub is_role : String → Bool
is_role name = any (str_eq name) roles

-- `PACKAGE_ROLE_ALIASES`
abbrev pub package_role_aliases : Dict String
package_role_aliases =
    ("database", "db")
    ∷ ("database_engineer", "db")
    ∷ ("data_engineer", "db")
    ∷ ("schema", "db")
    ∷ ("storage", "db")
    ∷ ("persistence", "db")
    ∷ ("backend_engineer", "backend")
    ∷ ("service", "backend")
    ∷ ("server", "backend")
    ∷ ("api", "backend")
    ∷ ("fullstack", "backend")
    ∷ ("full_stack", "backend")
    ∷ ("frontend_engineer", "frontend")
    ∷ ("ui", "frontend")
    ∷ ("web", "frontend")
    ∷ ("client", "frontend")
    ∷ ("qa_engineer", "qa")
    ∷ ("testing", "qa")
    ∷ ("test", "qa")
    ∷ ("quality_assurance", "qa")
    ∷ ("security_engineer", "security")
    ∷ ("security_reviewer", "security")
    ∷ ("appsec", "security")
    ∷ ("docs_engineer", "docs")
    ∷ ("technical_writer", "docs")
    ∷ ("reviewer", "review")
    ∷ ("review_engineer", "review")
    ∷ ("release_manager", "release")
    ∷ ("release_engineer", "release")
    ∷ ("ops", "release")
    ∷ ("devops", "release")
    ∷ ("infrastructure", "release")
    ∷ []

unfoldable pub normalize_role_name : String → String
normalize_role_name role =
    let dashed = replace_char b'-' "_" (lower (strip role)) in
    strip_char b'_' (replace_char b'.' "_" (replace_char b'/' "_" (replace_char b' ' "_" dashed)))

-- `any(token in hints for token in tokens)`
abbrev mentions : String → List String → Bool
mentions hints tokens = any (contains hints) tokens

-- The tests on the hints, in their order, each with its answer.
abbrev pub hint_rules : List (List String × String)
hint_rules =
    ("database" ∷ "schema" ∷ "storage" ∷ "persistence" ∷ "data" ∷ [], "db")
    ∷ ("frontend" ∷ "ui" ∷ "web" ∷ "client" ∷ "browser" ∷ [], "frontend")
    ∷ ("security" ∷ "sec" ∷ "auth" ∷ "risk" ∷ "threat" ∷ [], "security")
    ∷ ("quality" ∷ "qa" ∷ "test" ∷ "testing" ∷ "verification" ∷ [], "qa")
    ∷ ("review" ∷ "audit" ∷ [], "review")
    ∷ ("release" ∷ "deploy" ∷ "ops" ∷ "devops" ∷ "infra" ∷ [], "release")
    ∷ ("documentation" ∷ "docs" ∷ "manual" ∷ "guide" ∷ "readme" ∷ "writer" ∷ [], "docs")
    ∷ []

unfoldable pub role_of_hints : String → List (List String × String) → String
role_of_hints hints [] = "backend"
role_of_hints hints ((tokens, role) ∷ rules) =
    let other = role_of_hints hints rules in if mentions hints tokens then role else other

abbrev join : String → String → String
join a b = str_append a (str_append " " b)

-- `alias` if it is a role, else the default.
abbrev pub alias_or : Option String → String → String
alias_or none other = other
alias_or (some alias) other = if is_role alias then alias else other

unfoldable pub canonical_worker_role : (role domain subsystem objective : String) → String
canonical_worker_role role domain subsystem objective =
    let normalized = normalize_role_name role in
    let hints = join normalized (
      join (normalize_role_name domain)
        (join (normalize_role_name subsystem) (normalize_role_name objective))) in
    if is_role normalized
    then normalized
    else alias_or (get normalized package_role_aliases) (role_of_hints hints hint_rules)
