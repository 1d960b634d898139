-- ===== src/Runtime/Validate.antt =====
-- dev_orchestrator/v8/runtime.py: `_validate_path`, which answers with an error or with none.
use async_native_ai_orchestr.Prelude.{
  String, Bool, true, false, not, ◌&&◌, List, [], ◌∷◌, ◌++◌, Option, none, some, str_eq, str_append,
  any, first,
}
use async_native_ai_orchestr.Runtime.{FilePath, FileSystem}
use async_native_ai_orchestr.Runtime.Paths.{split, is_in, is_abs, normpath, parts, is_under}
use async_native_ai_orchestr.Runtime.Glob.{fnmatch}

-- `_BLOCKED_DIR_NAMES`
abbrev pub blocked_dir_names : List String
blocked_dir_names = ".git" ∷ ".v6" ∷ "__pycache__" ∷ []

-- `FORBIDDEN_RELEASE_NAMES`
abbrev pub forbidden_release_names : List String
forbidden_release_names =
    ".agent" ∷ ".git" ∷ ".pytest_cache" ∷ "__pycache__" ∷ "b" ∷ "reports" ∷ "tmp" ∷ ".v6" ∷ ".v7"
    ∷ ".v8" ∷ []

-- The first of the errors that there are.
infixr 30 ◌orelse◌
abbrev pub ◌orelse◌ : Option String → Option String → Option String
none orelse e = e
some text orelse e = some text

abbrev pub error_if : Bool → String → Option String
error_if true text = some text
error_if false text = none

abbrev pub concat : List String → String
concat [] = ""
concat (s ∷ ss) = str_append s (concat ss)

unfoldable pub blocked_part : String → String → Option String
blocked_part path_str part =
    error_if (is_in part blocked_dir_names)
      (concat ("blocked directory name '" ∷ part ∷ "' in path: " ∷ path_str ∷ []))
    orelse error_if (is_in part forbidden_release_names)
        (concat ("forbidden release name '" ∷ part ∷ "' in path: " ∷ path_str ∷ []))

unfoldable pub blocked_parts : String → List String → Option String
blocked_parts path_str [] = none
blocked_parts path_str (part ∷ rest) =
    let later = blocked_parts path_str rest in blocked_part path_str part orelse later

abbrev pub is_no_list : List String → Bool
is_no_list [] = true
is_no_list (x ∷ xs) = false

abbrev pub not_allowed : String → List String → Option String
not_allowed path_str allowed =
    error_if (not (is_no_list allowed) && not (any (fnmatch (normpath path_str)) allowed))
      (str_append "path does not match any allowed pattern: " path_str)

abbrev pub matching : String → List String → Option String
matching path_str forbidden = first (fnmatch (normpath path_str)) forbidden

abbrev pub is_forbidden : String → List String → Option String
is_forbidden path_str forbidden = elim (matching path_str forbidden) [
  | none ↦ none
  | some pat ↦ some (concat ("path matches forbidden pattern '" ∷ pat ∷ "': " ∷ path_str ∷ []))
]

-- `self._root / normalised`
abbrev pub joined : FilePath → String → FilePath
joined root path_str = root ++ parts (normpath path_str)

module _ {S : Type 0} (fs : FileSystem S) (root : FilePath) where
  -- `target`
  abbrev pub target_of : S → String → FilePath
  target_of s path_str = fs.resolve s (joined root path_str)

  abbrev escapes : S → String → Option String
  escapes s path_str =
      error_if (not (is_under root (target_of s path_str)))
        (str_append "resolved path escapes project root: " path_str)

  -- `_validate_path`
  unfoldable pub validate_path :
      S → (path_str : String) (allowed_paths forbidden_paths : List String) → Option String
  validate_path s path_str allowed_paths forbidden_paths =
      error_if (str_eq path_str "") "empty path"
      orelse error_if (is_abs path_str) (str_append "absolute path not allowed: " path_str)
      orelse error_if (is_in ".." (split (normpath path_str)))
          (str_append "path traversal not allowed: " path_str)
      orelse blocked_parts path_str (parts (normpath path_str))
      orelse not_allowed path_str allowed_paths
      orelse is_forbidden path_str forbidden_paths
      orelse escapes s path_str
