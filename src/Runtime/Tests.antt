-- ===== src/Runtime/Tests.antt =====
-- Runs of the runtime on a disk without links, and its theorems at concrete data.
use async_native_ai_orchestr.Prelude.{
  ℕ, ◌+◌, ◌≡◌, refl, inl, String, false, not, List, [], ◌∷◌, ◌++◌, none, some, keep,
}
use async_native_ai_orchestr.Text.{split_slash, contains, strip, lower}
use async_native_ai_orchestr.Runtime.{FilePath, file, directory, FileEntry, ManifestResult}
use async_native_ai_orchestr.Runtime.Paths.{normpath, parts, is_under, parent}
use async_native_ai_orchestr.Runtime.Glob.{fnmatch}
use async_native_ai_orchestr.Runtime.Validate.{
  validate_path, blocked_part, blocked_parts, target_of,
}
use async_native_ai_orchestr.Runtime.Manifest.{
  noted, delete_file, replace_file, create_file, perform, apply_entry, apply_entries,
  apply_file_manifest, layout_roots,
}
use async_native_ai_orchestr.Runtime.Confined.{
  is_protected, apply_file_manifest-outside, apply_file_manifest-protected,
}
use async_native_ai_orchestr.Runtime.Counts.{apply_entry-done}
use async_native_ai_orchestr.Runtime.Tree.{
  Disk, set_node, path_eq, meets_file, remove, write, make, disk, disk_laws,
}
use async_native_ai_orchestr.Runtime.Commands.{
  ShellOutcome, ends, code, Named, and_then, result_of, is_dangerous, apply_commands,
  apply_commands-refused,
}

abbrev root : FilePath
root = "srv" ∷ "p" ∷ []

abbrev passwd : FilePath
passwd = "etc" ∷ "passwd" ∷ []

before : Disk
unfolding set_node path_eq
before = set_node [] (some directory) (
    set_node ("srv" ∷ []) (some directory) (
      set_node root (some directory) (
        set_node ("etc" ∷ []) (some directory)
          (set_node passwd (some (file "root:x:0")) (λ p. none)))))

abbrev entry : (action path content : String) → FileEntry
entry action path content = record { path = path; action = action; content = content }

abbrev entries : List FileEntry
entries =
    entry "create" "../../etc/passwd" "mine"
    ∷ entry "create" "src//./a.py" "print(1)"
    ∷ entry "delete" ".git/config" ""
    ∷ entry "move" "x" ""
    ∷ entry "upsert" "docs/a.md" "x"
    ∷ []

apply : List FileEntry → ManifestResult × Disk
unfolding apply_file_manifest apply_entries apply_entry noted perform delete_file replace_file
    create_file validate_path blocked_parts blocked_part normpath parts split_slash is_under parent
    fnmatch before meets_file remove write make
apply es = apply_file_manifest disk root ("src/*" ∷ []) [] es before

apply_run : (apply entries).0 ≡ record {
  applied = 1;
  errors =
      "path traversal not allowed: ../../etc/passwd"
      ∷ "blocked directory name '.git' in path: .git/config" ∷ "unknown action 'move' for x"
      ∷ "path does not match any allowed pattern: docs/a.md" ∷ [];
  files = "src//./a.py" ∷ [];
}
unfolding apply
apply_run = refl

apply_created : (apply entries).1 (root ++ "src" ∷ "a.py" ∷ []) ≡ some (file "print(1)")
unfolding apply
apply_created = refl

-- A layout's directory that is an absolute path is made where it says.
layout_roots_absolute :
    (layout_roots disk root ("/opt/x" ∷ []) before).1 ("opt" ∷ "x" ∷ []) ≡ some directory
unfolding layout_roots parts split_slash make meets_file is_under before
layout_roots_absolute = refl

apply_file_manifest-outside_example :
    (apply_file_manifest disk root ("src/*" ∷ []) [] entries before).1 passwd ≡ before passwd
unfolding before is_under
apply_file_manifest-outside_example =
    apply_file_manifest-outside disk root ("src/*" ∷ []) [] disk_laws entries passwd before refl
      (inl refl)

apply_file_manifest-protected_example :
    (apply_file_manifest disk root [] [] entries before).1 (root ++ ".git" ∷ "config" ∷ [])
    ≡ before (root ++ ".git" ∷ "config" ∷ [])
unfolding is_protected
apply_file_manifest-protected_example =
    apply_file_manifest-protected disk root [] [] disk_laws entries (".git" ∷ "config" ∷ []) before
      (λ s p. refl) refl

abbrev create_a : FileEntry
create_a = entry "create" "src/a.py" "print(1)"

apply_entry-done_example :
    (validate_path disk root before "src/a.py" ("src/*" ∷ []) [] ≡ none)
    × ((apply_entry disk root ("src/*" ∷ []) [] create_a before).1
          (target_of disk root before "src/a.py")
        ≡ some (file "print(1)"))
unfolding apply_entry perform create_file validate_path blocked_parts blocked_part normpath parts
    split_slash is_under parent fnmatch before meets_file write make
apply_entry-done_example =
    apply_entry-done disk disk_laws root ("src/*" ∷ []) [] create_a before refl

-- A shell that counts the commands it runs.
abbrev shell : String → ℕ → ShellOutcome × ℕ
shell cmd n = (ends (code 0) "" "", n + 1)

abbrev commands : List String
commands = "npm install" ∷ "rm -rf / --no-preserve-root" ∷ "npm test > /dev/null" ∷ []

-- The last command is harmless, and is refused for the redirection.
apply_commands_run : (apply_commands shell 120 commands 0).1 ≡ 1
unfolding apply_commands and_then result_of is_dangerous contains strip lower
apply_commands_run = refl

-- More than one space hides a command from the patterns.
missed_command : is_dangerous "rm  -rf /" ≡ false
unfolding is_dangerous contains strip lower
missed_command = refl

apply_commands-refused_example :
    ((apply_commands shell 120 commands 0).1
      ≡ (apply_commands shell 120 (keep (λ cmd. not (is_dangerous cmd)) commands) 0).1)
    × Named commands (apply_commands shell 120 commands 0).0
apply_commands-refused_example = apply_commands-refused shell 120 commands 0
