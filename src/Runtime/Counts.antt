-- ===== src/Runtime/Counts.antt =====
-- dev_orchestrator/v8/runtime.py: what the answer of `apply_file_manifest` says of the disk.
use async_native_ai_orchestr.Prelude.{
  suc, ◌+◌, ◌≡◌, ◌≢◌, refl, arith, String, List, [], ◌∷◌, Option, none, some, str_eq, length,
  length-append, Bool-cases, Option-cases, inl, inr, if◌then◌else◌,
}
use async_native_ai_orchestr.Runtime.{
  FilePath, FileSystem, Node, file, FileEntry, ManifestResult, exists, is_file,
}
use async_native_ai_orchestr.Runtime.Paths.{is_in}
use async_native_ai_orchestr.Runtime.Validate.{validate_path, target_of}
use async_native_ai_orchestr.Runtime.Laws.{FileLaws}
use async_native_ai_orchestr.Runtime.Manifest.{
  Outcome, done, error, caught, noted, delete_file, replace_file, create_file, write_after, perform,
  apply_entry, apply_entries, apply_file_manifest, known_actions,
}

abbrev pub Counted : ManifestResult → Type 0
Counted r = r.applied ≡ length r.files

noted-Counted :
    (path_str : String) (o : Outcome) (r : ManifestResult)
    → Counted r
    → Counted (noted path_str o r)
unfolding noted
noted-Counted path_str done r h = omega (arith, length-append r.files (path_str ∷ []))
noted-Counted path_str (error text) r h = h

noted_total :
    (path_str : String) (o : Outcome) (r : ManifestResult)
    → length (noted path_str o r).errors + (noted path_str o r).applied
      ≡ suc (length r.errors + r.applied)
unfolding noted
noted_total path_str done r = omega arith
noted_total path_str (error text) r = omega (arith, length-append r.errors (text ∷ []))

module _ {S : Type 0} (fs : FileSystem S) (root : FilePath) (allowed forbidden : List String) where
  apply_entries-Counted :
      (entries : List FileEntry) (r : ManifestResult) (s : S)
      → Counted r
      → Counted (apply_entries fs root allowed forbidden entries (r, s)).0
  unfolding apply_entries
  apply_entries-Counted [] r s h = h
  apply_entries-Counted (e ∷ entries) r s h =
      apply_entries-Counted entries _ (apply_entry fs root allowed forbidden e s).1
        (noted-Counted e.path (apply_entry fs root allowed forbidden e s).0 r h)

  apply_entries_total :
      (entries : List FileEntry) (r : ManifestResult) (s : S)
      → let r' = (apply_entries fs root allowed forbidden entries (r, s)).0 in
        length r'.errors + r'.applied ≡ (length r.errors + r.applied) + length entries
  unfolding apply_entries
  apply_entries_total [] r s = omega arith
  apply_entries_total (e ∷ entries) r s =
      let (o, s') = apply_entry fs root allowed forbidden e s in
      omega (arith, apply_entries_total entries (noted e.path o r) s', noted_total e.path o r)

  -- `apply_file_manifest` accounts for every entry of the manifest: `applied` is the number of paths in
  -- `files`, and together with the number of errors it is the number of entries.
  pub apply_file_manifest_total :
      (entries : List FileEntry) (s : S)
      → let r = (apply_file_manifest fs root allowed forbidden entries s).0 in
        (r.applied ≡ length r.files) × (length r.errors + r.applied ≡ length entries)
  unfolding apply_file_manifest
  apply_file_manifest_total entries s = (
    apply_entries-Counted entries _ s refl,
    omega (arith, apply_entries_total entries (record { applied = 0; errors = []; files = [] }) s),
  )

-- What an applied entry leaves at its target.
abbrev pub left_by : FileEntry → Option Node
left_by entry = if str_eq entry.action "delete" then none else some (file entry.content)

caught-done : (path_str : String) (exc : Option String) → caught path_str exc ≡ done → exc ≡ none
caught-done path_str none h = refl
caught-done path_str (some e) h = absurd (cc)

error-ne-done : (text : String) → error text ≢ done
error-ne-done text h = cc

module _ {S : Type 0} (fs : FileSystem S) (laws : FileLaws fs) where
  delete_file-done :
      (path_str : String) (t : FilePath) (s : S)
      → (delete_file fs path_str t s).0 ≡ done
      → fs.look (delete_file fs path_str t s).1 t ≡ none
  unfolding delete_file
  delete_file-done path_str t s h = elim (Bool-cases (is_file fs s t)) [
    | inl there ↦
        rw there
          (laws.look-unlink_self t s (caught-done path_str (fs.unlink t s).0 (rw there at h)))
    | inr gone ↦ elim (Bool-cases (exists fs s t)) [
      | inl e ↦ absurd (error-ne-done _ (rw (gone, e) at h))
      | inr e ↦ absurd (error-ne-done _ (rw (gone, e) at h))
    ]
  ]

  -- A write whose exceptions are caught.
  written :
      (path_str text : String) (t : FilePath) (s : S)
      → caught path_str (fs.write_text t text s).0 ≡ done
      → fs.look (fs.write_text t text s).1 t ≡ some (file text)
  written path_str text t s h = laws.look-write_text_self t text s (caught-done path_str _ h)

  replace_file-done :
      (path_str text : String) (t : FilePath) (s : S)
      → (replace_file fs path_str text t s).0 ≡ done
      → fs.look (replace_file fs path_str text t s).1 t ≡ some (file text)
  unfolding replace_file
  replace_file-done path_str text t s h = elim (Bool-cases (exists fs s t)) [
    | inl there ↦ rw there (written path_str text t s (rw there at h))
    | inr gone ↦ absurd (error-ne-done _ (rw gone at h))
  ]

  write_after-done :
      (path_str text : String) (t : FilePath) (made : Option String × S)
      → (write_after fs path_str text t made).0 ≡ done
      → fs.look (write_after fs path_str text t made).1 t ≡ some (file text)
  write_after-done path_str text t (none, s) h = written path_str text t s h
  write_after-done path_str text t (some exc, s) h = absurd (error-ne-done _ h)

  create_file-done :
      (path_str text : String) (t : FilePath) (s : S)
      → (create_file fs path_str text t s).0 ≡ done
      → fs.look (create_file fs path_str text t s).1 t ≡ some (file text)
  unfolding create_file
  create_file-done path_str text t s h = write_after-done path_str text t _ h

  perform-done :
      (e : FileEntry) (t : FilePath) (s : S)
      → (perform fs e t s).0 ≡ done
      → fs.look (perform fs e t s).1 t ≡ left_by e
  unfolding perform
  perform-done e t s h = elim (Bool-cases (str_eq e.action "delete")) [
    | inl d ↦ rw d (delete_file-done e.path t s (rw d at h))
    | inr w ↦ rw w (elim (Bool-cases (str_eq e.action "replace")) [
      | inl r ↦ rw r (replace_file-done e.path e.content t s (rw (w, r) at h))
      | inr c ↦ rw c (create_file-done e.path e.content t s (rw (w, c) at h))
    ])
  ]

  -- An entry that counts as applied has passed the validation, and is on the disk as it asks: a deleted
  -- file is gone, and any other has the entry's content.
  pub apply_entry-done :
      (root : FilePath) (allowed forbidden : List String) (e : FileEntry) (s : S)
      → (apply_entry fs root allowed forbidden e s).0 ≡ done
      → (validate_path fs root s e.path allowed forbidden ≡ none)
        × (fs.look (apply_entry fs root allowed forbidden e s).1 (target_of fs root s e.path)
            ≡ left_by e)
  unfolding apply_entry
  apply_entry-done root allowed forbidden e s h = elim (Bool-cases (is_in e.action known_actions)) [
    | inr unknown ↦ absurd (error-ne-done _ (rw unknown at h))
    | inl known ↦ elim (Option-cases (validate_path fs root s e.path allowed forbidden)) [
      | inl valid ↦ (valid, rw (known, valid) (perform-done e _ s (rw (known, valid) at h)))
      | inr (err, invalid) ↦ absurd (error-ne-done _ (rw (known, invalid) at h))
    ]
  ]
