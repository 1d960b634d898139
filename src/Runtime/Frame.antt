-- ===== src/Runtime/Frame.antt =====
-- dev_orchestrator/v8/runtime.py: what one entry of a manifest may change.
use async_native_ai_orchestr.Prelude.{
  ◌≡◌, ◌≢◌, ◌⊎◌, ◌∙◌, inl, inr, refl, arith, String, Bool, true, false, not, List, [], ◌∷◌, Option,
  none, some, str_eq, eq_iff, Option-cases, if_both, if◌then◌else◌,
}
use async_native_ai_orchestr.Runtime.{FilePath, FileSystem, FileEntry, exists, is_file}
use async_native_ai_orchestr.Runtime.Paths.{is_in, is_under, parent}
use async_native_ai_orchestr.Runtime.Validate.{validate_path, target_of}
use async_native_ai_orchestr.Runtime.Laws.{FileLaws}
use async_native_ai_orchestr.Runtime.Manifest.{
  Outcome, perform, delete_file, replace_file, write_after, create_file, apply_entry, known_actions,
}

pub is_under_self : (p : FilePath) → is_under p p ≡ true
unfolding is_under
is_under_self [] = refl
is_under_self (x ∷ p) = ground (arith, eq_iff x x, is_under_self p)

pub is_under-parent : (q p : FilePath) → is_under q p ≡ false → is_under q (parent p) ≡ false
unfolding is_under parent
is_under-parent [] p h = cc
is_under-parent (x ∷ q) [] h = refl
is_under-parent (x ∷ q) (y ∷ []) h = refl
is_under-parent (x ∷ q) (y ∷ z ∷ p) h = ground (arith, is_under-parent q (z ∷ p))

-- A path that lies under one of two paths, and is no beginning of the other, is apart from it.
pub is_under_trans :
    (r q p : FilePath) → is_under r q ≡ true → is_under q p ≡ true → is_under r p ≡ true
unfolding is_under
is_under_trans [] q p h k = refl
is_under_trans (x ∷ r) [] p h k = cc
is_under_trans (x ∷ r) (y ∷ q) [] h k = cc
is_under_trans (x ∷ r) (y ∷ q) (z ∷ p) h k =
    ground (arith, eq_iff x y, eq_iff y z, eq_iff x z, is_under_trans r q p)

-- What `q` is told apart from: the target itself, and for a path where nothing is, all below it.
abbrev pub Apart : {S : Type 0} (fs : FileSystem S) → S → (target q : FilePath) → Type 0
Apart fs s target q = (q ≢ target) × ((exists fs s q ≡ true) ⊎ (is_under q target ≡ false))

module _ {S : Type 0} (fs : FileSystem S) (laws : FileLaws fs) where
  snd_if :
      (b : Bool) (x y : Outcome × S) (q : FilePath) (s : S)
      → fs.look x.1 q ≡ fs.look s q
      → fs.look y.1 q ≡ fs.look s q
      → fs.look (if b then x else y).1 q ≡ fs.look s q
  snd_if b x y q s h k =
      if_both {A = Outcome × S} (λ r. fs.look r.1 q ≡ fs.look s q) b (λ _. h) (λ _. k)

  module _ (path_str content : String) (target q : FilePath) (s : S) (other : q ≢ target) where
    delete_file-look : fs.look (delete_file fs path_str target s).1 q ≡ fs.look s q
    unfolding delete_file
    delete_file-look = snd_if (is_file fs s target) _ _ q s (laws.look-unlink target q s other) refl

    replace_file-look : fs.look (replace_file fs path_str content target s).1 q ≡ fs.look s q
    unfolding replace_file
    replace_file-look =
        snd_if (exists fs s target) _ _ q s (laws.look-write_text target q content s other) refl

    write_after-look :
        (made : Option String × S)
        → fs.look made.1 q ≡ fs.look s q
        → fs.look (write_after fs path_str content target made).1 q ≡ fs.look s q
    write_after-look (none, s') h = laws.look-write_text target q content s' other ∙ h
    write_after-look (some exc, s') h = h

  above :
      (target q : FilePath) (s : S)
      → (exists fs s q ≡ true) ⊎ (is_under q target ≡ false)
      → (exists fs s q ≡ true) ⊎ (is_under q (parent target) ≡ false)
  above target q s (inl there) = inl there
  above target q s (inr off) = inr (is_under-parent q target off)

  perform-look :
      (entry : FileEntry) (target q : FilePath) (s : S)
      → Apart fs s target q
      → fs.look (perform fs entry target s).1 q ≡ fs.look s q
  unfolding perform create_file
  perform-look entry target q s (other, where_) =
      snd_if (str_eq entry.action "delete") _ _ q s
        (delete_file-look entry.path "" target q s other)
        (snd_if (str_eq entry.action "replace") _ _ q s
          (replace_file-look entry.path entry.content target q s other)
          (write_after-look entry.path entry.content target q s other (fs.mkdir (parent target) s)
            (laws.look-mkdir (parent target) q s (above target q s where_))))

  -- An entry changes its target and the directories above it that are missing, and those only if the
  -- path passes the validation.
  pub apply_entry-look :
      (root : FilePath) (allowed forbidden : List String) (entry : FileEntry) (q : FilePath) (s : S)
      → (validate_path fs root s entry.path allowed forbidden ≡ none
          → Apart fs s (target_of fs root s entry.path) q)
      → fs.look (apply_entry fs root allowed forbidden entry s).1 q ≡ fs.look s q
  unfolding apply_entry
  apply_entry-look root allowed forbidden entry q s apart =
      snd_if (not (is_in entry.action known_actions)) _ _ q s refl
        (elim (Option-cases (validate_path fs root s entry.path allowed forbidden)) [
          | inl valid ↦
              rw valid (perform-look entry (target_of fs root s entry.path) q s (apart valid))
          | inr (err, invalid) ↦ rw invalid
        ])
