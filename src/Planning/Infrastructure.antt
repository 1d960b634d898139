-- ===== src/Planning/Infrastructure.antt =====
-- dev_orchestrator/v8/phases/planning.py: the package of infrastructure and the default waves.
use async_native_ai_orchestr.Prelude.{
  ℕ, ◌+◌, String, ◌≡◌, refl, Bool, true, false, List, [], ◌∷◌, ◌++◌, arith, str_eq, any, length,
  if_both, if◌then◌else◌,
}
use async_native_ai_orchestr.Planning.{PlanPackage, PlanWave, PlanEdge, Plan}

-- `any(p.get("role") == "infrastructure" for p in packages)`
abbrev pub has_infrastructure : List PlanPackage → Bool
has_infrastructure = any (λ p. str_eq p.role "infrastructure")

abbrev pub infrastructure_package : (wave_key : String) → PlanPackage
infrastructure_package wave_key = record {
  package_key = "infrastructure_setup";
  role = "infrastructure";
  domain = "infrastructure";
  wave_key = wave_key;
  allowed_paths =
      "*.json" ∷ "*.toml" ∷ "*.txt" ∷ "*.yml" ∷ "*.yaml" ∷ "*.md" ∷ "*.sh" ∷ "*.bat" ∷ "Dockerfile"
      ∷ ".env.example" ∷ "docker-compose.yml" ∷ "requirements*.txt" ∷ "package*.json" ∷ [];
  forbidden_paths = [];
  depends_on = [];
  objective =
      "Generate all project-level infrastructure files: package.json or requirements.txt or pyproject.toml (matching the tech stack), Dockerfile, docker-compose.yml, .env.example, README.md (Chinese, with setup and run instructions).";
  expected_outputs = "Dockerfile" ∷ "docker-compose.yml" ∷ ".env.example" ∷ "README.md" ∷ [];
  acceptance_gates = [];
}

-- The waves, of which there is at least one.
abbrev pub some_wave : List PlanWave → List PlanWave
some_wave [] = record { wave_key = "wave_0"; sequence = 0; packages = [] } ∷ []
some_wave (w ∷ ws) = w ∷ ws

abbrev pub first_wave_key : List PlanWave → String
first_wave_key [] = "wave_0"
first_wave_key (w ∷ ws) = w.wave_key

-- `waves[0]["packages"].insert(0, key)`
abbrev pub into_first : String → List PlanWave → List PlanWave
into_first key [] = []
into_first key (w ∷ ws) = record w { packages = key ∷ w.packages } ∷ ws

-- `_ensure_infrastructure_package`
unfoldable pub ensure_infrastructure_package : Plan → Plan
ensure_infrastructure_package plan =
    let waves = some_wave plan.waves in
    if has_infrastructure plan.packages then plan else record plan {
      packages = infrastructure_package (first_wave_key waves) ∷ plan.packages;
      waves = into_first "infrastructure_setup" waves;
    }

-- The keys of the packages without dependencies, and of those with them.
abbrev pub is_empty_list : List String → Bool
is_empty_list [] = true
is_empty_list (x ∷ xs) = false

unfoldable pub keys_by : Bool → List PlanPackage → List String
keys_by independent [] = []
keys_by independent (p ∷ ps) =
    let rest = keys_by independent ps in
    if is_empty_list p.depends_on
    then (if independent then p.package_key ∷ rest else rest)
    else (if independent then rest else p.package_key ∷ rest)

abbrev pub unless_no_keys : (wave_key : String) → ℕ → List String → List PlanWave
unless_no_keys wave_key sequence [] = []
unless_no_keys wave_key sequence (k ∷ ks) =
    record { wave_key = wave_key; sequence = sequence; packages = k ∷ ks } ∷ []

abbrev pub dependency_edges : String → List String → List PlanEdge
dependency_edges key [] = []
dependency_edges key (d ∷ ds) = record { source = d; target = key } ∷ dependency_edges key ds

unfoldable pub all_edges : List PlanPackage → List PlanEdge
all_edges [] = []
all_edges (p ∷ ps) = dependency_edges p.package_key p.depends_on ++ all_edges ps

-- `_default_wave_plan`: the waves and the edges.
unfoldable pub default_wave_plan : List PlanPackage → List PlanWave × List PlanEdge
default_wave_plan packages = (
  unless_no_keys "wave_0" 0 (keys_by true packages)
      ++ unless_no_keys "wave_1" 1 (keys_by false packages),
  all_edges packages,
)

-- How many keys the waves hold.
abbrev pub keys_in : List PlanWave → ℕ
keys_in [] = 0
keys_in (w ∷ ws) = length w.packages + keys_in ws

keys_by-length :
    (ps : List PlanPackage) → length (keys_by true ps) + length (keys_by false ps) ≡ length ps
unfolding keys_by
keys_by-length [] = refl
keys_by-length (p ∷ ps) = ground (arith, keys_by-length ps)

two_waves :
    (xs ys : List String)
    → keys_in (unless_no_keys "wave_0" 0 xs ++ unless_no_keys "wave_1" 1 ys) ≡ length xs + length ys
two_waves [] [] = refl
two_waves [] (y ∷ ys) = omega arith
two_waves (x ∷ xs) [] = omega arith
two_waves (x ∷ xs) (y ∷ ys) = omega arith

-- The default waves hold each package once: as many keys as there are packages, also for packages that
-- depend on one another.
pub default_wave_plan-keys_in :
    (ps : List PlanPackage) → keys_in (default_wave_plan ps).0 ≡ length ps
unfolding default_wave_plan
default_wave_plan-keys_in ps =
    omega (arith, two_waves (keys_by true ps) (keys_by false ps), keys_by-length ps)

ensured : (plan : Plan) → has_infrastructure (ensure_infrastructure_package plan).packages ≡ true
unfolding ensure_infrastructure_package
ensured plan =
    if_both {A = Plan} (λ q. has_infrastructure q.packages ≡ true)
      (has_infrastructure plan.packages) (λ there. there) (λ _. refl)

ensure_present :
    (plan : Plan)
    → has_infrastructure plan.packages ≡ true
    → ensure_infrastructure_package plan ≡ plan
unfolding ensure_infrastructure_package
ensure_present plan there = rw there refl

-- After the package of infrastructure is ensured, the plan has one, and ensuring it again changes
-- nothing.
pub ensure_infrastructure_package_idem :
    (plan : Plan)
    → (has_infrastructure (ensure_infrastructure_package plan).packages ≡ true)
      × (ensure_infrastructure_package (ensure_infrastructure_package plan)
          ≡ ensure_infrastructure_package plan)
ensure_infrastructure_package_idem plan =
    (ensured plan, ensure_present (ensure_infrastructure_package plan) (ensured plan))
