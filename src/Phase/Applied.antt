-- ===== src/Phase/Applied.antt =====
-- dev_orchestrator/v8/phases/implementation.py: the directories of the runs are apart from one another.
use async_native_ai_orchestr.Prelude.{
  ◌≡◌, ◌≢◌, ◌⊎◌, ◌∙◌, inl, refl, ap, arith, String, true, false, [], ◌∷◌, ◌++◌, Option, none, some,
  eq_iff, is_some,
}
use async_native_ai_orchestr.Json.{Fields}
use async_native_ai_orchestr.Result.{ok, err, other_error}
use async_native_ai_orchestr.Store.Records.{WorkPackage}
use async_native_ai_orchestr.Runtime.{FilePath, FileSystem, exists}
use async_native_ai_orchestr.Runtime.Paths.{parts, is_under}
use async_native_ai_orchestr.Runtime.Laws.{FileLaws}
use async_native_ai_orchestr.Runtime.Confined.{apply_file_manifest-outside}
use async_native_ai_orchestr.Phase.{PhaseInput, ◌>>=◌, and_then}
use async_native_ai_orchestr.Phase.Implementation.{run_path, for_run, apply_files, entries_in}

-- The directory of a run, for identifiers that are plain names.
two_directories :
    (root : FilePath) (a b a' b' : String) (q : FilePath)
    → (a ≢ a') ⊎ (b ≢ b')
    → is_under (root ++ (a' ∷ b' ∷ [])) q ≡ true
    → is_under (root ++ (a ∷ b ∷ [])) q ≡ false
unfolding is_under
two_directories [] a b a' b' [] h k = refl
two_directories [] a b a' b' (x ∷ []) h k = absurd (ground (arith, eq_iff a' x))
two_directories [] a b a' b' (x ∷ y ∷ q) h k =
    ground (arith, eq_iff a x, eq_iff a' x, eq_iff b y, eq_iff b' y)
two_directories (r ∷ root) a b a' b' [] h k = refl
two_directories (r ∷ root) a b a' b' (x ∷ q) h k =
    ground (arith, two_directories root a b a' b' q h)

-- An identifier that is one part of a path, as those of `uuid4` are.
abbrev pub IsPlain : String → Type 0
IsPlain i = parts i ≡ i ∷ []

module _ {S : Type 0} (fs : FileSystem S) (laws : FileLaws fs) (root : FilePath) where
  apply_files-look :
      (scoped : FilePath) (w : WorkPackage) (output : Fields) (q : FilePath) (s : S)
      → is_under scoped q ≡ false
      → exists fs s q ≡ true
      → fs.look (apply_files fs scoped w output s).1 q ≡ fs.look s q
  unfolding apply_files
  apply_files-look scoped w output q s off there =
      apply_file_manifest-outside fs scoped w.allowed_paths w.forbidden_paths laws
        (entries_in output).0 q s off (inl there)

  -- Whatever a model proposes for a package of one run: no file or directory that another run has in its own
  -- directory is changed by making the directory of the run and applying the files there. The identifiers
  -- are plain names, and there are no links.
  pub apply_files-isolated :
      (p p' : PhaseInput) (w : WorkPackage) (output : Fields) (q : FilePath) (s : S)
      → IsPlain p.project_id × IsPlain p.run_id × IsPlain p'.project_id × IsPlain p'.run_id
      → (p.project_id ≢ p'.project_id) ⊎ (p.run_id ≢ p'.run_id)
      → ((t : S) (path : FilePath) → fs.resolve t path ≡ path)
      → is_under (run_path root p') q ≡ true
      → exists fs s q ≡ true
      → fs.look ((for_run fs root p >>= λ scoped. apply_files fs scoped w output) s).1 q
        ≡ fs.look s q
  unfolding for_run
  apply_files-isolated p p' w output q s (ia, ib, ia', ib') differ no_links inside there =
      let inside' = rw (ia', ib') at inside in
      let off : is_under (run_path root p) q ≡ false =
        rw (ia, ib)
          (two_directories root p.project_id p.run_id p'.project_id p'.run_id q differ inside') in
      let same = laws.look-mkdir (run_path root p) q s (inl there) in
      go (fs.mkdir (run_path root p) s).0 (fs.mkdir (run_path root p) s).1 off same
    where
      go :
          (exc : Option String) (t : S)
          → is_under (run_path root p) q ≡ false
          → fs.look t q ≡ fs.look s q
          → fs.look
              (and_then
                (
                  (elim exc [
                    | none ↦ ok (fs.resolve t (run_path root p))
                    | some e ↦ err (other_error e)
                  ]),
                  t,
                )
                (λ scoped. apply_files fs scoped w output)).1
              q
            ≡ fs.look s q
      go (some e) t off same = same
      go none t off same =
          rw (no_links t (run_path root p))
            (apply_files-look (run_path root p) w output q t off (ap is_some same ∙ there) ∙ same)
