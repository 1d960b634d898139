-- ===== src/Runtime.antt =====
-- dev_orchestrator/v8/runtime.py: `FileRuntime`, which writes the files that a language model proposes and
-- runs its commands. The operating system is the interface `FileSystem`, and a path is the list of its
-- parts, as pathlib keeps them on a system whose separator is a slash. Texts hold no NUL character.
pub mod Paths
pub mod Glob
pub mod Validate
pub mod Manifest
pub mod Laws
pub mod Frame
pub mod Confined
pub mod Counts
pub mod Tree
pub mod Commands
mod Tests
use async_native_ai_orchestr.Prelude.{
  ℕ, String, Bool, true, false, List, Option, none, some, is_some,
}

-- An absolute path, from the root of the file system.
abbrev pub FilePath : Type 0
FilePath = List String

pub data Node : Type 0 where
  file : (content : String) → Node
  directory : Node

-- The calls of pathlib on a resolved path, where `S` is the state of the disk. A call that raises
-- `OSError` gives its text, and may have changed something. `resolve` follows the links.
pub record FileSystem (S : Type 0) : Type 0 where
  pub look : S → FilePath → Option Node
  pub resolve : S → FilePath → FilePath
  pub unlink : FilePath → S → Option String × S
  pub write_text : FilePath → (content : String) → S → Option String × S
  -- With `parents=True, exist_ok=True`.
  pub mkdir : FilePath → S → Option String × S

abbrev pub holds_file : Option Node → Bool
holds_file (some (file content)) = true
holds_file (some directory) = false
holds_file none = false

module _ {S : Type 0} (fs : FileSystem S) where
  -- `target.exists()`
  abbrev pub exists : S → FilePath → Bool
  exists s p = is_some (fs.look s p)

  -- `target.is_file()`
  abbrev pub is_file : S → FilePath → Bool
  is_file s p = holds_file (fs.look s p)

-- An entry of a manifest; a key that is missing is the empty text.
pub record FileEntry : Type 0 where
  pub path : String
  pub action : String
  pub content : String

pub record ManifestResult : Type 0 where
  pub applied : ℕ
  pub errors : List String
  pub files : List String
