-- ===== src/Postgres/Tables/Upserts.antt =====
-- dev_orchestrator/v8/store_pg.py: what is read back after an upsert.
use async_native_ai_orchestr.Prelude.{
  ℕ, String, ◌≡◌, refl, Bool, true, false, List, [], ◌∷◌, Option, none, some, arith, str_eq, eq_iff,
  first, any, Option-cases, inl, inr, ◌⊎◌, if◌then◌else◌, if_both,
}
use async_native_ai_orchestr.Result.{Result, ok, err}
use async_native_ai_orchestr.Store.Records.{Artifact}
use async_native_ai_orchestr.Store.Shelves.{is_artifact}
use async_native_ai_orchestr.Postgres.Tables.{
  upsert, stamped, in_place_of, renewed, add_artifact, get_artifact,
}

module _ (a : Artifact) where
  -- The row that the upsert leaves: the new one, or the old one with the new content.
  abbrev pub outcome : Option Artifact → Artifact
  outcome none = a
  outcome (some b) = renewed a b

  -- Two queries for the same artifact give the same answer, and for different ones they differ.
  first-upsert :
      (run_id kind key : String) (rows : List Artifact)
      → first (is_artifact run_id kind key) (upsert (in_place_of a) (renewed a) a rows) ≡ (
          if is_artifact run_id kind key a
          then some (outcome (first (in_place_of a) rows))
          else first (is_artifact run_id kind key) rows)
  unfolding upsert
  first-upsert run_id kind key [] = refl
  first-upsert run_id kind key (b ∷ rows) = ground (
    arith,
    eq_iff b.run_id a.run_id,
    eq_iff b.kind a.kind,
    eq_iff b.key a.key,
    eq_iff a.run_id run_id,
    eq_iff a.kind kind,
    eq_iff a.key key,
    eq_iff b.run_id run_id,
    eq_iff b.kind kind,
    eq_iff b.key key,
    first-upsert run_id kind key rows,
  )

-- What is read back after the upsert of an artifact: its content under its key, and under every other
-- key what was there. A primary key that is taken or a run that is missing is refused, and
-- nothing changes.
abbrev pub IsStored :
    (run_ids : List String) (stamped_artifact : Artifact) (rows : List Artifact)
    → Result Artifact × List Artifact
    → Type 0
IsStored run_ids a rows (ok b, rows') =
    (b ≡ a)
    × ((c : Artifact) × (get_artifact a.run_id a.kind a.key rows' ≡ some c)
        × (c.content ≡ a.content)
        × (c.job_id ≡ a.job_id))
    × ((run_id kind key : String)
        → is_artifact run_id kind key a ≡ false
        → get_artifact run_id kind key rows' ≡ get_artifact run_id kind key rows)
IsStored run_ids a rows (err e, rows') =
    (rows' ≡ rows)
    × (get_artifact a.run_id a.kind a.key rows ≡ none)
    × ((any (λ b. str_eq b.id a.id) rows ≡ true) ⊎ (any (str_eq a.run_id) run_ids ≡ false))

is_artifact_self : (a : Artifact) → is_artifact a.run_id a.kind a.key a ≡ true
is_artifact_self a =
    ground (arith, eq_iff a.run_id a.run_id, eq_iff a.kind a.kind, eq_iff a.key a.key)

upsert-IsStored :
    (run_ids : List String) (a : Artifact) (rows : List Artifact)
    → IsStored run_ids a rows (ok a, upsert (in_place_of a) (renewed a) a rows)
unfolding get_artifact
upsert-IsStored run_ids a rows =
    let old = first (in_place_of a) rows in
    let found = first-upsert a a.run_id a.kind a.key rows in
    let content : (outcome a old).content ≡ a.content = elim (Option-cases old) [
      | inl e ↦ rw e refl
      | inr (b, e) ↦ rw e refl
    ] in
    let job : (outcome a old).job_id ≡ a.job_id = elim (Option-cases old) [
      | inl e ↦ rw e refl
      | inr (b, e) ↦ rw e refl
    ] in
    (
      refl,
      (outcome a old, rw (is_artifact_self a) at found, content, job),
      λ run_id kind key other. rw other at (first-upsert a run_id kind key rows),
    )

first-none : (p : Artifact → Bool) (rows : List Artifact) → any p rows ≡ false → first p rows ≡ none
first-none p [] h = refl
first-none p (b ∷ rows) h = ground (arith, first-none p rows)

-- An artifact that `add_artifact` accepts is read back by `get_artifact` under its run, kind and key
-- with the new content and job, also when one was stored there before, and what is read under every
-- other key is as it was. It is refused, and nothing changes, only if its key is new and its
-- identifier is another row's or its run is not in the table of runs.
pub add_artifact-IsStored :
    (t p : String) (run_ids : List String) (a : Artifact) (now : ℕ) (rows : List Artifact)
    → IsStored run_ids (stamped t p now a) rows (add_artifact t p run_ids a now rows)
unfolding add_artifact get_artifact
add_artifact-IsStored t p run_ids a now rows =
    let b = stamped t p now a in
    if_both {A = Result Artifact × List Artifact} (IsStored run_ids b rows)
      (any (in_place_of b) rows) (λ _. upsert-IsStored run_ids b rows)
      (λ fresh.
        if_both {A = Result Artifact × List Artifact} (IsStored run_ids b rows)
          (any (λ c. str_eq c.id b.id) rows)
          (λ taken. (refl, first-none (in_place_of b) rows fresh, inl taken))
          (λ _.
            if_both {A = Result Artifact × List Artifact} (IsStored run_ids b rows)
              (any (str_eq b.run_id) run_ids) (λ _. upsert-IsStored run_ids b rows)
              (λ missing. (refl, first-none (in_place_of b) rows fresh, inr missing))))
