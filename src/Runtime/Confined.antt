-- ===== src/Runtime/Confined.antt =====
-- dev_orchestrator/v8/runtime.py: what lies outside of the root, or under a blocked name, is as it was after
-- `apply_file_manifest`.
use async_native_ai_orchestr.Prelude.{
  ◌≡◌, ◌≢◌, ◌⊎◌, ◌∙◌, ap, inl, inr, refl, arith, String, Bool, true, false, not, ◌||◌, List, [],
  ◌∷◌, ◌++◌, Option, none, some, str_eq, eq_iff, any, is_some, Bool-cases,
}
use async_native_ai_orchestr.Runtime.{FilePath, FileSystem, Node, FileEntry, ManifestResult, exists}
use async_native_ai_orchestr.Runtime.Paths.{is_in, is_under, parts, normpath, split, is_abs}
use async_native_ai_orchestr.Runtime.Validate.{
  ◌orelse◌, error_if, validate_path, blocked_part, blocked_parts, target_of, joined,
  blocked_dir_names, forbidden_release_names, not_allowed, is_forbidden,
}
use async_native_ai_orchestr.Runtime.Laws.{FileLaws}
use async_native_ai_orchestr.Runtime.Manifest.{apply_entry, apply_entries, apply_file_manifest}
use async_native_ai_orchestr.Runtime.Frame.{is_under_self, Apart, apply_entry-look}

orelse_left : (a b : Option String) → (a orelse b) ≡ none → a ≡ none
orelse_left none b h = refl
orelse_left (some e) b h = h

orelse_right : (a b : Option String) → (a orelse b) ≡ none → b ≡ none
orelse_right none b h = h
orelse_right (some e) b h = absurd (cc)

-- Two beginnings of one path.
is_under_total :
    (r q p : FilePath)
    → is_under r p ≡ true
    → is_under q p ≡ true
    → is_under r q ≡ false
    → is_under q r ≡ true
unfolding is_under
is_under_total [] q p h k f = cc
is_under_total (x ∷ r) [] p h k f = refl
is_under_total (x ∷ r) (y ∷ q) [] h k f = cc
is_under_total (x ∷ r) (y ∷ q) (z ∷ p) h k f =
    ground (arith, eq_iff x y, eq_iff y z, eq_iff x z, eq_iff y x, is_under_total r q p)

is_under_append : (r q p : FilePath) → is_under (r ++ q) (r ++ p) ≡ is_under q p
unfolding is_under
is_under_append [] q p = refl
is_under_append (x ∷ r) q p = ground (arith, eq_iff x x, is_under_append r q p)

-- The names that no written path may have.
unfoldable pub is_protected : String → Bool
is_protected part = is_in part blocked_dir_names || is_in part forbidden_release_names

both_passed :
    (b c : Bool) (t u : String) → (error_if b t orelse error_if c u) ≡ none → (b || c) ≡ false
both_passed true c t u h = absurd (cc)
both_passed false true t u h = absurd (cc)
both_passed false false t u h = refl

blocked_part-none : (path_str x : String) → blocked_part path_str x ≡ none → is_protected x ≡ false
unfolding blocked_part is_protected
blocked_part-none path_str x h =
    both_passed (is_in x blocked_dir_names) (is_in x forbidden_release_names) _ _ h

blocked_parts-none :
    (path_str : String) (ps : List String)
    → blocked_parts path_str ps ≡ none
    → any is_protected ps ≡ false
unfolding blocked_parts
blocked_parts-none path_str [] h = refl
blocked_parts-none path_str (x ∷ ps) h =
    rw (blocked_part-none path_str x (orelse_left (blocked_part path_str x) _ h))
      (blocked_parts-none path_str ps (orelse_right (blocked_part path_str x) _ h))

inside : (b : Bool) (t : String) → error_if (not b) t ≡ none → b ≡ true
inside true t h = refl
inside false t h = absurd (cc)

not_under_blocked :
    (q p : FilePath) → any is_protected q ≡ true → any is_protected p ≡ false → is_under q p ≡ false
unfolding is_under
not_under_blocked [] p h k = cc
not_under_blocked (x ∷ q) [] h k = refl
not_under_blocked (x ∷ q) (y ∷ p) h k = elim (Bool-cases (str_eq x y)) [
  | inl same ↦
      let e : x ≡ y = (eq_iff x y).0 same in
      let h' : (is_protected y || any is_protected q) ≡ true = rw (← e) h in
      rw same (not_under_blocked q p (ground arith) (ground arith))
  | inr other ↦ rw other
]

module _ {S : Type 0} (fs : FileSystem S) (root : FilePath) (allowed forbidden : List String) where
  -- What a valid path is known to be.
  validate_path-none :
      (s : S) (path_str : String)
      → validate_path fs root s path_str allowed forbidden ≡ none
      → (any is_protected (parts (normpath path_str)) ≡ false)
        × (is_under root (target_of fs root s path_str) ≡ true)
  unfolding validate_path
  validate_path-none s path_str h =
      let h₂ = orelse_right (error_if (str_eq path_str "") _) _ h in
      let h₃ = orelse_right (error_if (is_abs path_str) _) _ h₂ in
      let h₄ = orelse_right (error_if (is_in ".." (split (normpath path_str))) _) _ h₃ in
      let h₅ = orelse_right (blocked_parts path_str (parts (normpath path_str))) _ h₄ in
      let h₇ =
        orelse_right (is_forbidden path_str forbidden) _
          (orelse_right (not_allowed path_str allowed) _ h₅) in
      (
        blocked_parts-none path_str _
            (orelse_left (blocked_parts path_str (parts (normpath path_str))) _ h₄),
        inside (is_under root (target_of fs root s path_str)) _ h₇,
      )

  -- What stands at a path, if no entry changes it, stands there after the manifest.
  apply_entries-look :
      (q : FilePath) (n : Option Node)
      → ((entry : FileEntry) (s : S)
          → fs.look s q ≡ n
          → fs.look (apply_entry fs root allowed forbidden entry s).1 q ≡ n)
      → (entries : List FileEntry) (r : ManifestResult) (s : S) → fs.look s q ≡ n
      → fs.look (apply_entries fs root allowed forbidden entries (r, s)).1 q ≡ n
  unfolding apply_entries
  apply_entries-look q n each [] r s h = h
  apply_entries-look q n each (entry ∷ entries) r s h =
      apply_entries-look q n each entries _ (apply_entry fs root allowed forbidden entry s).1
        (each entry s h)

  ne_of_under : (q p : FilePath) → is_under root q ≡ false → is_under root p ≡ true → q ≢ p
  ne_of_under q p h k e = cc (ap (is_under root) e)

  off_target :
      (s : S) (q p : FilePath)
      → is_under root q ≡ false
      → is_under root p ≡ true
      → (exists fs s q ≡ true) ⊎ (is_under q root ≡ false)
      → (exists fs s q ≡ true) ⊎ (is_under q p ≡ false)
  off_target s q p h k (inl there) = inl there
  off_target s q p h k (inr off) = elim (Bool-cases (is_under q p)) [
    | inl above ↦ absurd (cc (is_under_total root q p k above h))
    | inr apart ↦ inr apart
  ]

  module _ (laws : FileLaws fs) (entries : List FileEntry) (q : FilePath) (s : S) where
    -- Whatever the entries of a manifest say, `apply_file_manifest` changes nothing outside of the root
    -- of the runtime: a file or directory that is not below the root stays as it was, and none appears
    -- but on the way to the root. Links in the paths are followed before they are judged.
    pub apply_file_manifest-outside :
        is_under root q ≡ false
        → (exists fs s q ≡ true) ⊎ (is_under q root ≡ false)
        → fs.look (apply_file_manifest fs root allowed forbidden entries s).1 q ≡ fs.look s q
    unfolding apply_file_manifest
    apply_file_manifest-outside h there =
        apply_entries-look q (fs.look s q)
          (λ entry s' e.
            apply_entry-look fs laws root allowed forbidden entry q s' (λ valid.
              let inside = (validate_path-none s' entry.path valid).1 in
              (ne_of_under q _ h inside, off_target s' q _ h inside (still s' e there)))
            ∙ e)
          entries _ s refl
      where
        still :
            (s' : S)
            → fs.look s' q ≡ fs.look s q
            → (exists fs s q ≡ true) ⊎ (is_under q root ≡ false)
            → (exists fs s' q ≡ true) ⊎ (is_under q root ≡ false)
        still s' e (inl h) = inl (ap is_some e ∙ h)
        still s' e (inr h) = inr h

  module _ (laws : FileLaws fs) (entries : List FileEntry) (rel : FilePath) (s : S) where
    -- Where there are no links, `apply_file_manifest` neither changes nor creates anything that has a
    -- protected name, such as `.git`, among the parts of its path below the root.
    pub apply_file_manifest-protected :
        ((t : S) (p : FilePath) → fs.resolve t p ≡ p)
        → any is_protected rel ≡ true
        → fs.look (apply_file_manifest fs root allowed forbidden entries s).1 (root ++ rel)
          ≡ fs.look s (root ++ rel)
    unfolding apply_file_manifest
    apply_file_manifest-protected no_links h =
        apply_entries-look (root ++ rel) (fs.look s (root ++ rel))
          (λ entry s' e.
            apply_entry-look fs laws root allowed forbidden entry (root ++ rel) s'
              (λ valid. apart s' entry.path (validate_path-none s' entry.path valid).0)
            ∙ e)
          entries _ s refl
      where
        off :
            (path_str : String)
            → any is_protected (parts (normpath path_str)) ≡ false
            → is_under (root ++ rel) (joined root path_str) ≡ false
        off path_str k = is_under_append root rel _ ∙ not_under_blocked rel _ h k

        apart :
            (s' : S) (path_str : String)
            → any is_protected (parts (normpath path_str)) ≡ false
            → Apart fs s' (target_of fs root s' path_str) (root ++ rel)
        apart s' path_str k = rw (no_links s' (joined root path_str)) (
          λ e. cc (off path_str k, is_under_self (root ++ rel), ap (is_under (root ++ rel)) e),
          inr (off path_str k),
        )
