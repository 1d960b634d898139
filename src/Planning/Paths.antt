-- ===== src/Planning/Paths.antt =====
-- dev_orchestrator/v8/phases/planning.py: the paths that packages may and may not write. The order of the
-- overlaps, which the source takes from a set, is that of their first finding.
use Prim.Native.Char.{code}
use Prim.Native.String.{◌∷◌ as cons_char}
use async_native_ai_orchestr.Prelude.{
  ℕ, String, ◌≡◌, refl, Bool, true, false, not, ◌&&◌, ◌||◌, List, [], ◌∷◌, ◌++◌, str_eq, any, keep,
  length, leb, ◌==◌, arith, if_both, Bool-cases, inl, inr, ◌⊎◌, if◌then◌else◌,
}
use async_native_ai_orchestr.Text.{
  lower, has_prefix, contains, count_chars, rstrip_char, split_slash, join_slash,
}
use async_native_ai_orchestr.Planning.{PlanPackage, Plan}

-- `g.rstrip("/*")`
unfoldable pub rstrip_glob : String → String
rstrip_glob String.[] = ""
rstrip_glob (cons_char c s) =
    let rest = rstrip_glob s in
    if ((code c == b'/') || (code c == b'*')) && str_eq rest "" then "" else cons_char c rest

-- `_prefix`
unfoldable pub prefix_of : String → String
prefix_of g = lower (rstrip_glob g)

abbrev pub clashes : (forbidden allowed : String) → Bool
clashes f a = has_prefix (prefix_of f) (prefix_of a) || has_prefix (prefix_of a) (prefix_of f)

abbrev pub conflicts : List String → String → Bool
conflicts allowed f = any (clashes f) allowed

abbrev pub is_none : List String → Bool
is_none [] = true
is_none (x ∷ xs) = false

abbrev pub fix_package : PlanPackage → PlanPackage
fix_package p = if is_none p.allowed_paths || is_none p.forbidden_paths then p else record p {
  forbidden_paths = keep (λ f. not (conflicts p.allowed_paths f)) p.forbidden_paths;
}

abbrev fix_each : List PlanPackage → List PlanPackage
fix_each [] = []
fix_each (p ∷ ps) = fix_package p ∷ fix_each ps

-- `_fix_path_conflicts`
unfoldable pub fix_path_conflicts : Plan → Plan
fix_path_conflicts plan = record plan { packages = fix_each plan.packages }

abbrev pub plain_parts : String → List String
plain_parts s = let (head, rest) = split_slash s in keep (λ p. not (contains p "*")) (head ∷ rest)

-- `[pa for pa, pb in zip(a_parts, b_parts) if pa == pb]`
abbrev pub common_parts : List String → List String → List String
common_parts [] ys = []
common_parts (x ∷ xs) [] = []
common_parts (x ∷ xs) (y ∷ ys) =
    let rest = common_parts xs ys in if str_eq x y then x ∷ rest else rest

-- What the body of the inner loop appends.
unfoldable pub overlaps_of : (a b : String) → List String
overlaps_of a b =
    let a_norm = lower (rstrip_char b'/' a) in
    let b_norm = lower (rstrip_char b'/' b) in
    let common = common_parts (plain_parts a_norm) (plain_parts b_norm) in
    (if not (contains a_norm "*")
        && (not (contains b_norm "*") && (has_prefix a_norm b_norm || has_prefix b_norm a_norm))
      then (if leb (count_chars a) (count_chars b) then a else b) ∷ []
      else [])
    ++ (if leb 2 (length common) then join_slash common ∷ [] else [])

abbrev overlaps_with : String → List String → List String
overlaps_with a [] = []
overlaps_with a (b ∷ bs) = overlaps_of a b ++ overlaps_with a bs

abbrev all_overlaps : List String → List String → List String
all_overlaps [] bs = []
all_overlaps (a ∷ as_) bs = overlaps_with a bs ++ all_overlaps as_ bs

abbrev pub is_member : String → List String → Bool
is_member x xs = any (str_eq x) xs

-- `if overlap not in forbidden: forbidden.append(overlap)`
unfoldable pub append_new : List String → List String → List String
append_new forbidden [] = forbidden
append_new forbidden (x ∷ xs) =
    append_new (if is_member x forbidden then forbidden else forbidden ++ (x ∷ [])) xs

-- `_find_path_overlaps`
unfoldable pub find_path_overlaps : List String → List String → List String
find_path_overlaps a b = append_new [] (all_overlaps a b)

abbrev forbid : List String → PlanPackage → PlanPackage
forbid paths p = record p { forbidden_paths = append_new p.forbidden_paths paths }

-- One package against those after it in its wave.
unfoldable pub against : PlanPackage → List PlanPackage → PlanPackage × List PlanPackage
against a [] = (a, [])
against a (b ∷ bs) =
    let overlaps = find_path_overlaps a.allowed_paths b.allowed_paths in
    let (a₁, bs₁) = against (forbid overlaps a) bs in
    let (a₂, bs₂) = against a bs in
    if str_eq a.wave_key b.wave_key then (a₁, forbid overlaps b ∷ bs₁) else (a₂, b ∷ bs₂)

-- The pairs are taken in the order of the packages. `n` is the number of packages.
unfoldable pub resolve_pairs : ℕ → List PlanPackage → List PlanPackage
resolve_pairs n [] = []
resolve_pairs ℕ.zero (p ∷ ps) = p ∷ ps
resolve_pairs (ℕ.suc n) (p ∷ ps) = let (p', ps') = against p ps in p' ∷ resolve_pairs n ps'

-- `_resolve_path_overlaps`
unfoldable pub resolve_path_overlaps : Plan → Plan
resolve_path_overlaps plan = record plan {
  packages = resolve_pairs (length plan.packages) plan.packages;
}

-- The letters of a text.
abbrev codes : String → List ℕ
codes String.[] = []
codes (cons_char c s) = code c ∷ codes s

-- The letters of a text begin with those of another.
abbrev pub Begins : String → String → Type 0
Begins s t = (rest : List ℕ) × (codes s ≡ codes t ++ rest)

-- One of two paths begins with the other, when trailing slashes and stars and the case of letters are put
-- aside.
abbrev pub OverlapsPath : String → String → Type 0
OverlapsPath f a = Begins (prefix_of f) (prefix_of a) ⊎ Begins (prefix_of a) (prefix_of f)

Begins-has_prefix : (s t : String) → has_prefix s t ≡ true → Begins s t
Begins-has_prefix s String.[] h = (codes s, refl)
Begins-has_prefix String.[] (cons_char d t) h = absurd (cc)
Begins-has_prefix (cons_char c s) (cons_char d t) h =
    let (rest, e) = Begins-has_prefix s t (ground arith) in
    let same : code c ≡ code d = ground arith in (rest, rw (same, e) refl)

has_prefix-Begins : (s t : String) → Begins s t → has_prefix s t ≡ true
has_prefix-Begins s String.[] h = refl
has_prefix-Begins String.[] (cons_char d t) (rest, e) = absurd (cc)
has_prefix-Begins (cons_char c s) (cons_char d t) (rest, e) =
    let later = has_prefix-Begins s t (rest, cc) in
    let same : code c ≡ code d = cc in rw (same, later) (ground arith)

clashes-OverlapsPath : (f a : String) → clashes f a ≡ true → OverlapsPath f a
clashes-OverlapsPath f a h = elim (Bool-cases (has_prefix (prefix_of f) (prefix_of a))) [
  | inl e ↦ inl (Begins-has_prefix (prefix_of f) (prefix_of a) e)
  | inr e ↦ inr (Begins-has_prefix (prefix_of a) (prefix_of f) (ground arith))
]

OverlapsPath-clashes : (f a : String) → OverlapsPath f a → clashes f a ≡ true
OverlapsPath-clashes f a (inl h) =
    let e = has_prefix-Begins (prefix_of f) (prefix_of a) h in rw e refl
OverlapsPath-clashes f a (inr h) =
    let e = has_prefix-Begins (prefix_of a) (prefix_of f) h in ground arith

abbrev pub OverlapsOne : String → List String → Type 0
OverlapsOne f [] = ⊥
OverlapsOne f (a ∷ as_) = OverlapsPath f a ⊎ OverlapsOne f as_

conflicts-OverlapsOne :
    (as_ : List String) (f : String) → conflicts as_ f ≡ true → OverlapsOne f as_
conflicts-OverlapsOne [] f h = absurd (cc)
conflicts-OverlapsOne (a ∷ as_) f h = elim (Bool-cases (clashes f a)) [
  | inl e ↦ inl (clashes-OverlapsPath f a e)
  | inr e ↦ inr (conflicts-OverlapsOne as_ f (ground arith))
]

OverlapsOne-conflicts :
    (as_ : List String) (f : String) → OverlapsOne f as_ → conflicts as_ f ≡ true
OverlapsOne-conflicts [] f h = elim h [ ]
OverlapsOne-conflicts (a ∷ as_) f (inl h) = rw (OverlapsPath-clashes f a h) refl
OverlapsOne-conflicts (a ∷ as_) f (inr h) = let e = OverlapsOne-conflicts as_ f h in ground arith

-- The forbidden paths that are left, and what becomes of each one that was there: it is left exactly if it
-- overlaps with no allowed path.
pub data Sifted (allowed : List String) : (before after : List String) → Type 0 where
  over : Sifted allowed [] []
  stays :
      {f : String} {fs gs : List String}
      → ¬ OverlapsOne f allowed
      → Sifted allowed fs gs
      → Sifted allowed (f ∷ fs) (f ∷ gs)
  leaves :
      {f : String} {fs gs : List String}
      → OverlapsOne f allowed
      → Sifted allowed fs gs
      → Sifted allowed (f ∷ fs) gs

keep-Sifted :
    (allowed fs : List String) → Sifted allowed fs (keep (λ f. not (conflicts allowed f)) fs)
keep-Sifted allowed [] = over
keep-Sifted allowed (f ∷ fs) = elim (Bool-cases (conflicts allowed f)) [
  | inl clash ↦ rw clash (leaves (conflicts-OverlapsOne allowed f clash) (keep-Sifted allowed fs))
  | inr safe ↦ rw safe (
      stays (λ h. let e = OverlapsOne-conflicts allowed f h in cc (e, safe))
        (keep-Sifted allowed fs))
]

no_clash : (fs : List String) → Sifted [] fs fs
no_clash [] = over
no_clash (f ∷ fs) = stays (λ h. h) (no_clash fs)

-- Only the forbidden paths change.
abbrev pub IsFixed : PlanPackage → PlanPackage → Type 0
IsFixed p q =
    (q ≡ record p { forbidden_paths = q.forbidden_paths })
    × Sifted p.allowed_paths p.forbidden_paths q.forbidden_paths

abbrev pub AreFixed : List PlanPackage → List PlanPackage → Type 0
AreFixed [] [] = Unit
AreFixed [] (q ∷ qs) = ⊥
AreFixed (p ∷ ps) [] = ⊥
AreFixed (p ∷ ps) (q ∷ qs) = IsFixed p q × AreFixed ps qs

nothing_to_sift :
    (allowed fs : List String) → (is_none allowed || is_none fs) ≡ true → Sifted allowed fs fs
nothing_to_sift [] fs h = no_clash fs
nothing_to_sift (x ∷ xs) [] h = over
nothing_to_sift (x ∷ xs) (f ∷ fs) h = absurd (cc)

fix_package-IsFixed : (p : PlanPackage) → IsFixed p (fix_package p)
fix_package-IsFixed p =
    if_both {A = PlanPackage} (IsFixed p) (is_none p.allowed_paths || is_none p.forbidden_paths)
      (λ h. (refl, nothing_to_sift p.allowed_paths p.forbidden_paths h))
      (λ _. (refl, keep-Sifted p.allowed_paths p.forbidden_paths))

fix_each-AreFixed : (ps : List PlanPackage) → AreFixed ps (fix_each ps)
fix_each-AreFixed [] = tt
fix_each-AreFixed (p ∷ ps) = (fix_package-IsFixed p, fix_each-AreFixed ps)

-- `_fix_path_conflicts` takes from each package exactly those forbidden paths that overlap with one of its
-- allowed paths, that is, of which one begins with the other when trailing slashes and stars and the case
-- of letters are put aside; the others stay in their order, and so does all else of the package.
pub fix_path_conflicts-AreFixed :
    (plan : Plan) → AreFixed plan.packages (fix_path_conflicts plan).packages
unfolding fix_path_conflicts
fix_path_conflicts-AreFixed plan = fix_each-AreFixed plan.packages
