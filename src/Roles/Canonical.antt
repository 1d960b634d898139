-- ===== src/Roles/Canonical.antt =====
-- dev_orchestrator/v8/role_aliases.py: `canonical_worker_role` answers with a role.
use async_native_ai_orchestr.Prelude.{
  String, true, ◌≡◌, refl, List, [], ◌∷◌, Option, none, some, any, if_both, All,
}
use async_native_ai_orchestr.Prelude.Dict.{get}
use async_native_ai_orchestr.Text.{
  lower, strip, lstrip, rstrip, replace_char, lstrip_char, rstrip_char, contains,
}
use async_native_ai_orchestr.Models.Kind.{PackageRole, role_value}
use async_native_ai_orchestr.Roles.{
  is_role, package_role_aliases, normalize_role_name, hint_rules, role_of_hints, alias_or,
  canonical_worker_role,
}

role_of_hints-role :
    (hints : String) (rules : List (List String × String))
    → All (λ e. is_role e.1 ≡ true) rules
    → is_role (role_of_hints hints rules) ≡ true
unfolding role_of_hints is_role
role_of_hints-role hints [] h = refl
role_of_hints-role hints ((tokens, role) ∷ rules) (h, hs) =
    if_both (λ n. is_role n ≡ true) (any (contains hints) tokens) (λ _. h)
      (λ _. role_of_hints-role hints rules hs)

hint_rules-role : All (λ e. is_role e.1 ≡ true) hint_rules
unfolding is_role
hint_rules-role = (refl, (refl, (refl, (refl, (refl, (refl, (refl, tt)))))))

alias_or-role :
    (o : Option String) (other : String) → is_role other ≡ true → is_role (alias_or o other) ≡ true
alias_or-role none other h = h
alias_or-role (some alias) other h =
    if_both (λ n. is_role n ≡ true) (is_role alias) (λ e. e) (λ _. h)

-- Whatever the texts are, the answer is one of the roles, so that `PackageRole(…)` of it does not
-- raise.
pub canonical_worker_role-is_role :
    (role domain subsystem objective : String)
    → is_role (canonical_worker_role role domain subsystem objective) ≡ true
unfolding canonical_worker_role
canonical_worker_role-is_role role domain subsystem objective =
    if_both (λ n. is_role n ≡ true) (is_role (normalize_role_name role)) (λ e. e)
      (λ _.
        alias_or-role (get (normalize_role_name role) package_role_aliases) _
          (role_of_hints-role _ hint_rules hint_rules-role))

-- The value of a role is its own canonical name, whatever the other texts are.
pub canonical_worker_role-role_value :
    (r : PackageRole) (domain subsystem objective : String)
    → canonical_worker_role (role_value r) domain subsystem objective ≡ role_value r
unfolding canonical_worker_role normalize_role_name is_role lower strip lstrip rstrip replace_char
    lstrip_char rstrip_char
canonical_worker_role-role_value PackageRole.requirements domain subsystem objective = refl
canonical_worker_role-role_value PackageRole.planner domain subsystem objective = refl
canonical_worker_role-role_value PackageRole.architect domain subsystem objective = refl
canonical_worker_role-role_value PackageRole.db domain subsystem objective = refl
canonical_worker_role-role_value PackageRole.frontend domain subsystem objective = refl
canonical_worker_role-role_value PackageRole.backend domain subsystem objective = refl
canonical_worker_role-role_value PackageRole.docs domain subsystem objective = refl
canonical_worker_role-role_value PackageRole.qa domain subsystem objective = refl
canonical_worker_role-role_value PackageRole.security domain subsystem objective = refl
canonical_worker_role-role_value PackageRole.integration domain subsystem objective = refl
canonical_worker_role-role_value PackageRole.review domain subsystem objective = refl
canonical_worker_role-role_value PackageRole.repair domain subsystem objective = refl
canonical_worker_role-role_value PackageRole.release domain subsystem objective = refl
