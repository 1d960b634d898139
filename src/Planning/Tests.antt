-- ===== src/Planning/Tests.antt =====
-- dev_orchestrator/v8/phases/planning.py: examples.
use async_native_ai_orchestr.Prelude.{String, ◌≡◌, refl, Bool, true, any, List, [], ◌∷◌}
use async_native_ai_orchestr.Text.{lower, contains, rstrip_char, split_slash}
use async_native_ai_orchestr.Planning.{PlanPackage, Plan}
use async_native_ai_orchestr.Planning.Paths.{
  AreFixed, fix_path_conflicts, resolve_path_overlaps, fix_path_conflicts-AreFixed, conflicts,
  prefix_of, rstrip_glob, overlaps_of, append_new, find_path_overlaps, against, resolve_pairs,
}

abbrev pkg : (key path : String) → PlanPackage
pkg key path = record {
  package_key = key;
  role = "backend";
  domain = "";
  wave_key = "w";
  allowed_paths = path ∷ [];
  forbidden_paths = "tests/**" ∷ [];
  depends_on = [];
  objective = "";
  expected_outputs = [];
  acceptance_gates = [];
}

-- Two packages of one wave, of which one may write below the other's path.
abbrev nested : Plan
nested = record { packages = pkg "a" "src/api" ∷ pkg "b" "src/api/v1" ∷ []; waves = []; edges = [] }

fix_path_conflicts-AreFixed_example : AreFixed nested.packages (fix_path_conflicts nested).packages
fix_path_conflicts-AreFixed_example = fix_path_conflicts-AreFixed nested

abbrev is_blocked : PlanPackage → Bool
is_blocked p = any (conflicts p.allowed_paths) p.forbidden_paths

abbrev some_blocked : List PlanPackage → Bool
some_blocked = any is_blocked

-- The overlaps forbid the two packages what they are to write, after the conflicts were fixed.
blocked_again : some_blocked (resolve_path_overlaps (fix_path_conflicts nested)).packages ≡ true
unfolding resolve_path_overlaps fix_path_conflicts prefix_of rstrip_glob overlaps_of append_new
    find_path_overlaps against resolve_pairs split_slash lower contains rstrip_char
blocked_again = refl
