-- ===== src/Worker/Supervisor.antt =====
-- dev_orchestrator/v8/worker.py: `_create_workers` of `WorkerSupervisor`. The process and the random part of
-- the n-th worker's identifier are an argument.
use async_native_ai_orchestr.Prelude.{
  ℕ, zero, suc, ◌+◌, max, String, ◌≡◌, refl, subst, ap, ◌∙◌, Bool, true, false, List, [], ◌∷◌, ◌++◌,
  Option, none, some, arith, str_eq, str_append, eq_iff, first, Option-cases, Bool-cases, inl, inr,
  if◌then◌else◌,
}
use async_native_ai_orchestr.Prelude.Dict.{Dict, get}
use async_native_ai_orchestr.Models.Kind.{
  PackageRole, role_value, requirements, planner, architect, db, frontend, backend, docs, qa,
  security, review, release,
}
use async_native_ai_orchestr.Worker.Loop.{AsyncWorker}

abbrev pub package_roles : List PackageRole
package_roles =
    requirements ∷ planner ∷ architect ∷ db ∷ frontend ∷ backend ∷ docs ∷ qa ∷ security
    ∷ PackageRole.integration ∷ review ∷ PackageRole.repair ∷ release ∷ []

-- `PackageRole(role_name)`, and nothing for the `ValueError`.
unfoldable pub package_role : String → Option PackageRole
package_role name = first (λ r. str_eq (role_value r) name) package_roles

abbrev pub new_worker :
    (tenant_id : String) (lease_seconds : ℕ) → (suffix : String) → PackageRole → AsyncWorker
new_worker tenant_id lease_seconds suffix role = record {
  worker_id = str_append (role_value role) (str_append "-" suffix);
  role = role;
  tenant_id = tenant_id;
  lease_seconds = lease_seconds;
}

-- How many workers have the role.
abbrev pub count_role : PackageRole → List AsyncWorker → ℕ
count_role r [] = 0
count_role r (a ∷ as_) =
    (if str_eq (role_value a.role) (role_value r) then 1 else 0) + count_role r as_

count_role-append :
    (r : PackageRole) (xs ys : List AsyncWorker)
    → count_role r (xs ++ ys) ≡ count_role r xs + count_role r ys
count_role-append r [] ys = omega arith
count_role-append r (x ∷ xs) ys = ground (arith, count_role-append r xs ys)

module _ (tenant_id : String) (lease_seconds : ℕ) (mint : ℕ → String) where
  -- `for _ in range(count)`, after `n` workers.
  unfoldable pub repeat_worker : PackageRole → (count n : ℕ) → List AsyncWorker
  repeat_worker role zero n = []
  repeat_worker role (suc count) n =
      new_worker tenant_id lease_seconds (mint n) role ∷ repeat_worker role count (n + 1)

  unfoldable pub create_workers : Dict ℕ → (n : ℕ) → List AsyncWorker
  create_workers [] n = []
  create_workers ((name, count) ∷ roles) n = elim (package_role name) [
    | none ↦ create_workers roles n
    | some role ↦ repeat_worker role (max 1 count) n ++ create_workers roles (n + max 1 count)
  ]

  count_role-repeat_worker :
      (r role : PackageRole) (count n : ℕ)
      → count_role r (repeat_worker role count n)
        ≡ (if str_eq (role_value role) (role_value r) then count else 0)
  unfolding repeat_worker
  count_role-repeat_worker r role zero n = ground arith
  count_role-repeat_worker r role (suc count) n =
      ground (arith, count_role-repeat_worker r role count (n + 1))

first-fits :
    (p : PackageRole → Bool) (rs : List PackageRole) (r : PackageRole)
    → first p rs ≡ some r
    → p r ≡ true
first-fits p [] r e = absurd (cc)
first-fits p (x ∷ xs) r e = ground (arith, first-fits p xs r)

package_role-role_value : (r : PackageRole) → package_role (role_value r) ≡ some r
unfolding package_role
package_role-role_value requirements = refl
package_role-role_value planner = refl
package_role-role_value architect = refl
package_role-role_value db = refl
package_role-role_value frontend = refl
package_role-role_value backend = refl
package_role-role_value docs = refl
package_role-role_value qa = refl
package_role-role_value security = refl
package_role-role_value PackageRole.integration = refl
package_role-role_value review = refl
package_role-role_value PackageRole.repair = refl
package_role-role_value release = refl

package_role-fits :
    (name : String) (r : PackageRole) → package_role name ≡ some r → role_value r ≡ name
unfolding package_role
package_role-fits name r e =
    (eq_iff (role_value r) name).0 (first-fits (λ x. str_eq (role_value x) name) package_roles r e)

package_role-other :
    (name : String) (r : PackageRole)
    → package_role name ≡ none
    → str_eq name (role_value r) ≡ false
package_role-other name r unknown = elim (Bool-cases (str_eq name (role_value r))) [
  | inl same ↦
      let found : package_role name ≡ some r =
        ap package_role ((eq_iff name (role_value r)).0 same) ∙ package_role-role_value r in
      absurd (cc)
  | inr other ↦ other
]

-- No role is named twice.
abbrev pub IsUnique : Dict ℕ → Type 0
IsUnique [] = Unit
IsUnique ((k, n) ∷ m) = (get k m ≡ none) × IsUnique m

-- The workers of a role that the table is to give.
abbrev pub wanted : Option ℕ → ℕ
wanted none = 0
wanted (some count) = max 1 count

module _ (tenant_id : String) (lease_seconds : ℕ) (mint : ℕ → String) (r : PackageRole) where
  -- The supervisor makes for each role as many workers as the table says, at least one if the role is
  -- named in it and none otherwise; names that are no roles are passed over.
  pub create_workers-wanted :
      (roles : Dict ℕ) (n : ℕ)
      → IsUnique roles
      → count_role r (create_workers tenant_id lease_seconds mint roles n)
        ≡ wanted (get (role_value r) roles)
  unfolding create_workers get
  create_workers-wanted [] n u = refl
  create_workers-wanted ((name, count) ∷ roles) n (fresh, u) =
      elim (Option-cases (package_role name)) [
        | inl unknown ↦
            rw (unknown, create_workers, package_role-other name r unknown)
              (create_workers-wanted roles n u)
        | inr (role, known) ↦
            let named = package_role-fits name role known in
            let rest = create_workers-wanted roles (n + max 1 count) u in
            let these =
              count_role-repeat_worker tenant_id lease_seconds mint r role (max 1 count) n in
            let split =
              count_role-append r (repeat_worker tenant_id lease_seconds mint role (max 1 count) n)
                (create_workers tenant_id lease_seconds mint roles (n + max 1 count)) in
            rw (known, create_workers)
              (elim (Bool-cases (str_eq name (role_value r))) [
                | inl same ↦
                    let gone : get (role_value r) roles ≡ none =
                      subst (λ k. get k roles ≡ none) ((eq_iff name (role_value r)).0 same) fresh in
                    let all_of : count_role r
                          (repeat_worker tenant_id lease_seconds mint role (max 1 count) n)
                        ≡ max 1 count =
                      rw (named, same) at these in
                    let none_left = rw gone at rest in rw same (omega arith)
                | inr other ↦ let no_such = rw (named, other) at these in rw other (omega arith)
              ])
      ]
