-- ===== src/Phase/Samples.antt =====
-- dev_orchestrator/v8/phases/integration.py: the samples of generated files that the reviewers get.
use async_native_ai_orchestr.Prelude.{
  ℕ, ◌+◌, ◌<◌, ◌≡◌, inl, inr, refl, ap, arith, String, List, [], ◌∷◌, ◌++◌, Option, none, some,
  str_eq, leb, All, Bool-cases, if_both, if◌then◌else◌,
}
use async_native_ai_orchestr.Text.{count_chars}
use async_native_ai_orchestr.Json.{Json, Fields, null, bool, num, str, arr, obj, get_field}
use async_native_ai_orchestr.Result.{Result, ok, err}
use async_native_ai_orchestr.Store.Records.{WorkPackage}
use async_native_ai_orchestr.Runtime.{ManifestResult}
use async_native_ai_orchestr.Phase.{Listed, Services}
use async_native_ai_orchestr.Phase.Integration.{
  Sample, Samples, len, sample_of, add_sample, sample_files, sample_parsed, sample_raw, raw_of,
  sample_artifacts, collect_file_samples, iterate,
}
use async_native_ai_orchestr.Phase.Implementation.{patch_set}

-- The text of a patch set that an implementation has written.
abbrev pub IsPatchSet : (String → Option Json) → String → Type 0
IsPatchSet loads raw =
    (w : WorkPackage) × (output : Fields) × (applied : ManifestResult) × (loads raw
      ≡ some (obj (patch_set w output applied)))

module _ (show : Json → String) (max_chars : ℕ) (loads : String → Option Json)
    (read : String → Option String) where
  sample_raw-IsPatchSet :
      (raw : String) (acc : Samples)
      → IsPatchSet loads raw
      → sample_raw show max_chars loads raw acc ≡ acc
  unfolding sample_parsed sample_files
  sample_raw-IsPatchSet raw acc (w, output, applied, e) = elim (Bool-cases (str_eq raw "")) [
    | inl h ↦ rw h
    | inr h ↦ rw (h, e)
  ]

  sample_artifacts-IsPatchSet :
      (xs : List Listed) (acc : Samples)
      → All (λ a. IsPatchSet loads (raw_of show max_chars read a)) xs
      → sample_artifacts show max_chars loads read xs acc ≡ acc
  unfolding sample_artifacts
  sample_artifacts-IsPatchSet [] acc h = refl
  sample_artifacts-IsPatchSet (a ∷ xs) acc (h, hs) =
      if_both (λ r. r ≡ acc) (leb max_chars acc.total) (λ _. refl)
        (λ _.
          rw (sample_raw-IsPatchSet (raw_of show max_chars read a) acc h)
            (sample_artifacts-IsPatchSet xs acc hs))

module _ {S : Type 0} (services : Services S) (show : Json → String) where
  -- The reviewers of integration and code review see no file at all: when each listed patch set is one that an
  -- implementation has written, whatever files it proposed and applied, there are no samples, whatever room
  -- there is.
  pub collect_file_samples-none :
      (s : S) (run_id : String) (max_chars : ℕ) (artifacts : List Listed)
      → services.list_artifacts s run_id (some "patch_set") ≡ ok artifacts
      → All
          (λ a. IsPatchSet services.loads (raw_of show max_chars (services.read_text s) a))
          artifacts
      → collect_file_samples services show s run_id max_chars ≡ []
  unfolding collect_file_samples
  collect_file_samples-none s run_id max_chars artifacts e h =
      rw (e, collect_file_samples)
        (ap (λ (r : Samples). r.taken)
          (sample_artifacts-IsPatchSet show max_chars services.loads (services.read_text s)
            artifacts (record { taken = []; total = 0 }) h))

-- What a sample adds to the total: where the path has no length the addition raises, and nothing is added.
abbrev pub weight : Sample → ℕ
weight x = elim (len x.path) [ some n ↦ count_chars x.preview + n | none ↦ 0 ]

abbrev pub total_of : List Sample → ℕ
total_of [] = 0
total_of (x ∷ xs) = weight x + total_of xs

-- Each sample was begun when those before it had less than the limit.
abbrev pub WithinFrom : (limit before : ℕ) → List Sample → Type 0
WithinFrom limit before [] = Unit
WithinFrom limit before (x ∷ xs) = (before < limit) × WithinFrom limit (before + weight x) xs

WithinFrom-append :
    (limit before : ℕ) (xs : List Sample) (x : Sample)
    → WithinFrom limit before xs
    → before + total_of xs < limit
    → WithinFrom limit before (xs ++ (x ∷ []))
WithinFrom-append limit before [] x h k = (omega arith, tt)
WithinFrom-append limit before (y ∷ ys) x (h, hs) k =
    (h, WithinFrom-append limit (before + weight y) ys x hs (omega arith))

total_of-append :
    (xs : List Sample) (x : Sample) → total_of (xs ++ (x ∷ [])) ≡ total_of xs + weight x
total_of-append [] x = omega arith
total_of-append (y ∷ ys) x = omega (arith, total_of-append ys x)

abbrev IsWithin : ℕ → Samples → Type 0
IsWithin limit acc = (acc.total ≡ total_of acc.taken) × WithinFrom limit 0 acc.taken

module _ (show : Json → String) (limit : ℕ) where
  add_sample-IsWithin :
      (f : Fields) (acc : Samples)
      → acc.total < limit
      → IsWithin limit acc
      → IsWithin limit (add_sample show f acc).1
  unfolding add_sample
  add_sample-IsWithin f acc room (sum, within) = go (len (sample_of show f).path) refl
    where
      appended : WithinFrom limit 0 (acc.taken ++ (sample_of show f ∷ []))
      appended = WithinFrom-append limit 0 acc.taken (sample_of show f) within (omega arith)

      go :
          (n : Option ℕ)
          → len (sample_of show f).path ≡ n
          → IsWithin limit (add_sample show f acc).1
      go (some n) e =
          let v : weight (sample_of show f) ≡ count_chars (sample_of show f).preview + n =
            rw (e, weight) in
          rw (e, add_sample) (omega (arith, total_of-append acc.taken (sample_of show f)), appended)
      go none e =
          let v : weight (sample_of show f) ≡ 0 = rw (e, weight) in
          rw (e, add_sample) (omega (arith, total_of-append acc.taken (sample_of show f)), appended)

  sample_files-IsWithin :
      (vs : List Json) (acc : Samples)
      → IsWithin limit acc
      → IsWithin limit (sample_files show limit vs acc)
  unfolding sample_files
  sample_files-IsWithin [] acc h = h
  sample_files-IsWithin (obj f ∷ vs) acc h = elim (Bool-cases (leb limit acc.total)) [
    | inl full ↦ rw full h
    | inr room ↦
        let h' = add_sample-IsWithin f acc (ground arith) h in
        rw room (
          if_both (IsWithin limit) (add_sample show f acc).0
            (λ _. sample_files-IsWithin vs (add_sample show f acc).1 h') (λ _. h'))
  ]
  sample_files-IsWithin (null ∷ vs) acc h = h
  sample_files-IsWithin (bool b ∷ vs) acc h = h
  sample_files-IsWithin (num n ∷ vs) acc h = h
  sample_files-IsWithin (str s ∷ vs) acc h = h
  sample_files-IsWithin (arr xs ∷ vs) acc h = h

  sample_parsed-IsWithin :
      (v : Json) (acc : Samples)
      → IsWithin limit acc
      → IsWithin limit (sample_parsed show limit v acc)
  unfolding sample_parsed
  sample_parsed-IsWithin (obj fs) acc h = go (iterate (get_field "files" fs))
    where
      go :
          (r : Result (List Json))
          → IsWithin limit (elim r [ ok vs ↦ sample_files show limit vs acc | err e ↦ acc ])
      go (ok vs) = sample_files-IsWithin vs acc h
      go (err e) = h
  sample_parsed-IsWithin null acc h = h
  sample_parsed-IsWithin (bool b) acc h = h
  sample_parsed-IsWithin (num n) acc h = h
  sample_parsed-IsWithin (str s) acc h = h
  sample_parsed-IsWithin (arr xs) acc h = h

  module _ (loads : String → Option Json) (read : String → Option String) where
    sample_raw-IsWithin :
        (raw : String) (acc : Samples)
        → IsWithin limit acc
        → IsWithin limit (sample_raw show limit loads raw acc)
    sample_raw-IsWithin raw acc h = go (loads raw)
      where
        go :
            (o : Option Json)
            → IsWithin limit (
                let parsed : Samples = elim o [
                  | none ↦ acc
                  | some v ↦ sample_parsed show limit v acc
                ] in
                if str_eq raw "" then acc else parsed)
        go none = if_both (IsWithin limit) (str_eq raw "") (λ _. h) (λ _. h)
        go (some v) =
            if_both (IsWithin limit) (str_eq raw "") (λ _. h) (λ _. sample_parsed-IsWithin v acc h)

    sample_artifacts-IsWithin :
        (xs : List Listed) (acc : Samples)
        → IsWithin limit acc
        → IsWithin limit (sample_artifacts show limit loads read xs acc)
    unfolding sample_artifacts
    sample_artifacts-IsWithin [] acc h = h
    sample_artifacts-IsWithin (a ∷ xs) acc h =
        if_both (IsWithin limit) (leb limit acc.total) (λ _. h)
          (λ _.
            sample_artifacts-IsWithin xs _ (sample_raw-IsWithin (raw_of show limit read a) acc h))

-- The samples for a reviewer keep to their budget but for the last: each is begun only while the counted
-- samples before it have fewer characters than `max_chars` in their paths and previews. A sample is counted
-- if its path has a length; one whose path has none, as a null, adds nothing.
pub collect_file_samples-WithinFrom :
    {S : Type 0} (services : Services S) (show : Json → String) (s : S) (run_id : String)
    (max_chars : ℕ)
    → WithinFrom max_chars 0 (collect_file_samples services show s run_id max_chars)
unfolding collect_file_samples
collect_file_samples-WithinFrom services show s run_id max_chars =
    go (services.list_artifacts s run_id (some "patch_set"))
  where
    go :
        (r : Result (List Listed))
        → WithinFrom max_chars 0 (elim r [
          | ok artifacts ↦
              (sample_artifacts show max_chars services.loads
                (services.read_text s)
                artifacts
                (record { taken = []; total = 0 })).taken
          | err e ↦ []
        ])
    go (ok artifacts) =
        (sample_artifacts-IsWithin show max_chars services.loads (services.read_text s) artifacts
          (record { taken = []; total = 0 }) (refl, tt)).1
    go (err e) = tt
