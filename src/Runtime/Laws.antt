-- ===== src/Runtime/Laws.antt =====
-- What dev_orchestrator/v8/runtime.py relies on in the operating system: a call on a resolved path leaves
-- every other path as it was, whether it raises or not, and `mkdir` makes directories only where nothing
-- was, at the path and above it. A call that does not raise has done its work.
use async_native_ai_orchestr.Prelude.{◌≡◌, ◌≢◌, ◌⊎◌, String, true, false, none, some}
use async_native_ai_orchestr.Runtime.{FilePath, FileSystem, file, exists}
use async_native_ai_orchestr.Runtime.Paths.{is_under}

pub record FileLaws {S : Type 0} (fs : FileSystem S) : Type 0 where
  pub look-unlink : (p q : FilePath) (s : S) → q ≢ p → fs.look (fs.unlink p s).1 q ≡ fs.look s q
  pub look-write_text :
      (p q : FilePath) (text : String) (s : S)
      → q ≢ p
      → fs.look (fs.write_text p text s).1 q ≡ fs.look s q
  pub look-mkdir :
      (p q : FilePath) (s : S)
      → (exists fs s q ≡ true) ⊎ (is_under q p ≡ false)
      → fs.look (fs.mkdir p s).1 q ≡ fs.look s q
  pub look-unlink_self :
      (p : FilePath) (s : S) → (fs.unlink p s).0 ≡ none → fs.look (fs.unlink p s).1 p ≡ none
  pub look-write_text_self :
      (p : FilePath) (text : String) (s : S)
      → (fs.write_text p text s).0 ≡ none
      → fs.look (fs.write_text p text s).1 p ≡ some (file text)
