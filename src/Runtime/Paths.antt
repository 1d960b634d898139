-- ===== src/Runtime/Paths.antt =====
-- The functions of `os.path` and pathlib that dev_orchestrator/v8/runtime.py calls, for relative paths.
use async_native_ai_orchestr.Prelude.{
  String, Bool, true, false, not, ◌&&◌, ◌||◌, List, [], ◌∷◌, str_eq, any, keep, refl, ◌≡◌,
  if◌then◌else◌,
}
use async_native_ai_orchestr.Text.{split_slash, join_slash, has_prefix}
use async_native_ai_orchestr.Runtime.{FilePath}

-- `s.split(os.sep)`
abbrev pub split : String → List String
split s = let (head, rest) = split_slash s in head ∷ rest

-- `x in xs`, for texts
abbrev pub is_in : String → List String → Bool
is_in x xs = any (str_eq x) xs

-- `os.path.isabs(s)`
abbrev pub is_abs : String → Bool
is_abs s = has_prefix s "/"

abbrev is_skipped : String → Bool
is_skipped part = str_eq part "" || str_eq part "."

-- A part `..` goes onto the parts before it, the last of them first, or takes the last one off.
abbrev climb : List String → List String
climb [] = ".." ∷ []
climb (last ∷ before) = if str_eq last ".." then ".." ∷ last ∷ before else before

unfoldable pub collapse : (before : List String) → List String → List String
collapse before [] = before
collapse before (part ∷ parts) =
    collapse
      (if is_skipped part
        then before
        else (if str_eq part ".." then climb before else part ∷ before))
      parts

abbrev reverse_onto : List String → List String → List String
reverse_onto [] out = out
reverse_onto (x ∷ xs) out = reverse_onto xs (x ∷ out)

-- `path or "."`
abbrev or_dot : String → String
or_dot s = if str_eq s "" then "." else s

-- `os.path.normpath(s)`, for a path that is not absolute
unfoldable pub normpath : String → String
unfolding collapse
normpath s = or_dot (join_slash (reverse_onto (collapse [] (split s)) []))

-- `Path(s).parts`
unfoldable pub parts : String → List String
parts s = keep (λ part. not (is_skipped part)) (split s)

-- `target.relative_to(root)` does not raise.
unfoldable pub is_under : (root path : FilePath) → Bool
is_under [] path = true
is_under (x ∷ root) [] = false
is_under (x ∷ root) (y ∷ path) = str_eq x y && is_under root path

-- `target.parent`
unfoldable pub parent : FilePath → FilePath
parent [] = []
parent (x ∷ []) = []
parent (x ∷ y ∷ path) = x ∷ parent (y ∷ path)

normpath_example :
    (normpath "a//b/./c/../d/" ≡ "a/b/d")
    × (normpath "a/../../b" ≡ "../b")
    × (normpath "a/.." ≡ ".")
unfolding normpath split_slash
normpath_example = (refl, refl, refl)
