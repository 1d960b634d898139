-- ===== src/Runtime/Manifest.antt =====
-- dev_orchestrator/v8/runtime.py: `apply_file_manifest`, an entry at a time, and `layout_roots`.
use async_native_ai_orchestr.Prelude.{
  ◌+◌, String, not, List, [], ◌∷◌, ◌++◌, Option, none, some, str_eq, str_append, if◌then◌else◌,
}
use async_native_ai_orchestr.Runtime.{
  FilePath, FileSystem, exists, is_file, FileEntry, ManifestResult,
}
use async_native_ai_orchestr.Runtime.Paths.{is_in, is_abs, parts, parent}
use async_native_ai_orchestr.Runtime.Validate.{validate_path, target_of, concat}

-- How an entry ends.
pub data Outcome : Type 0 where
  done : Outcome
  error : String → Outcome

abbrev pub known_actions : List String
known_actions = "create" ∷ "replace" ∷ "delete" ∷ "upsert" ∷ []

-- `errors.append`, or `applied += 1` and `touched.append`
unfoldable pub noted : String → Outcome → ManifestResult → ManifestResult
noted path_str done r = record r { applied = r.applied + 1; files = r.files ++ (path_str ∷ []) }
noted path_str (error text) r = record r { errors = r.errors ++ (text ∷ []) }

-- `except OSError`
abbrev pub caught : String → Option String → Outcome
caught path_str none = done
caught path_str (some exc) = error (concat ("I/O error for " ∷ path_str ∷ ": " ∷ exc ∷ []))

module _ {S : Type 0} (fs : FileSystem S) where
  unfoldable pub delete_file : (path_str : String) (target : FilePath) → S → Outcome × S
  delete_file path_str target s =
      let (exc, s') = fs.unlink target s in
      if is_file fs s target then (caught path_str exc, s') else (
        (if exists fs s target
            then error (str_append "cannot delete non-file: " path_str)
            else error (str_append "file not found for delete: " path_str)),
        s,
      )

  unfoldable pub replace_file : (path_str content : String) (target : FilePath) → S → Outcome × S
  replace_file path_str content target s =
      let (exc, s') = fs.write_text target content s in
      if exists fs s target
      then (caught path_str exc, s')
      else (error (str_append "file not found for replace: " path_str), s)

  -- What follows on `mkdir`, which may have raised.
  abbrev pub write_after :
      (path_str content : String) (target : FilePath) → Option String × S → Outcome × S
  write_after path_str content target (none, s) =
      let (exc, s') = fs.write_text target content s in (caught path_str exc, s')
  write_after path_str content target (some exc, s) = (caught path_str (some exc), s)

  unfoldable pub create_file : (path_str content : String) (target : FilePath) → S → Outcome × S
  create_file path_str content target s =
      write_after path_str content target (fs.mkdir (parent target) s)

  unfoldable pub perform : FileEntry → FilePath → S → Outcome × S
  perform entry target s =
      if str_eq entry.action "delete"
      then delete_file entry.path target s
      else (if str_eq entry.action "replace"
          then replace_file entry.path entry.content target s
          else create_file entry.path entry.content target s)

  module _ (root : FilePath) (allowed_paths forbidden_paths : List String) where
    -- The body of the loop.
    unfoldable pub apply_entry : FileEntry → S → Outcome × S
    apply_entry entry s =
        if not (is_in entry.action known_actions)
        then (error (concat ("unknown action '" ∷ entry.action ∷ "' for " ∷ entry.path ∷ [])), s)
        else elim (validate_path fs root s entry.path allowed_paths forbidden_paths) [
          | some err ↦ (error err, s)
          | none ↦ perform entry (target_of fs root s entry.path) s
        ]

    unfoldable pub apply_entries : List FileEntry → ManifestResult × S → ManifestResult × S
    apply_entries [] (r, s) = (r, s)
    apply_entries (entry ∷ entries) (r, s) =
        let (outcome, s') = apply_entry entry s in
        apply_entries entries (noted entry.path outcome r, s')

    unfoldable pub apply_file_manifest : List FileEntry → S → ManifestResult × S
    apply_file_manifest entries s =
        apply_entries entries (record { applied = 0; errors = []; files = [] }, s)

  -- `root / path_str`: an absolute path takes the place of the root.
  abbrev pub layout_target : FilePath → String → FilePath
  layout_target root path_str = if is_abs path_str then parts path_str else root ++ parts path_str

  -- `layout_roots`, for the texts of the layout's directories; an exception of `mkdir` ends it.
  unfoldable pub layout_roots : (root : FilePath) → List String → S → Option String × S
  layout_roots root [] s = (none, s)
  layout_roots root (path_str ∷ rest) s =
      let skipped = layout_roots root rest s in
      let made = fs.mkdir (fs.resolve s (layout_target root path_str)) s in
      let later = layout_roots root rest made.1 in
      if str_eq path_str ""
      then skipped
      else elim made.0 [ none ↦ later | some exc ↦ (some exc, made.1) ]
