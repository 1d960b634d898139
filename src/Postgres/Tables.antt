-- ===== src/Postgres/Tables.antt =====
-- dev_orchestrator/v8/store_pg.py: the tables `artifacts`, `waves`, `work_packages` and `agent_runs`, and the
-- lists of `jobs`. A
-- table is the list of its rows in the order of insertion, which is the order of a SELECT that asks
-- for none. A statement that breaks the primary key raises, and so does a new artifact without its run. The
-- other tables' references to runs and waves are taken to be there, since the pipeline makes them first.
pub mod Upserts
mod Tests
use async_native_ai_orchestr.Prelude.{
  ℕ, String, Bool, true, false, ◌&&◌, List, [], ◌∷◌, Option, none, some, leb, str_eq, str_append,
  keep, first, any, length, if◌then◌else◌,
}
use async_native_ai_orchestr.Result.{Result, ok, err, Error, other_error}
use async_native_ai_orchestr.Models.Status.{JobStatus, job_status_value}
use async_native_ai_orchestr.Store.Jobs.{Job}
use async_native_ai_orchestr.Store.Records.{Artifact, Wave, WorkPackage, AgentRun}
use async_native_ai_orchestr.Store.Shelves.{of_run, is_artifact, is_violation}

module _ {ℓ} {A : Type ℓ} where
  -- `INSERT … ON CONFLICT (…) DO UPDATE`: the first row in conflict is replaced by its merge.
  unfoldable pub upsert : (conflicts : A → Bool) (merge : A → A) → A → List A → List A
  upsert conflicts merge a [] = a ∷ []
  upsert conflicts merge a (x ∷ xs) =
      if conflicts x then merge x ∷ xs else x ∷ upsert conflicts merge a xs

  -- `ORDER BY created_at` and the like, which keeps equal rows in their order.
  unfoldable pub insert_by : (A → ℕ) → A → List A → List A
  insert_by f a [] = a ∷ []
  insert_by f a (x ∷ xs) = if leb (f a) (f x) then a ∷ x ∷ xs else x ∷ insert_by f a xs

  unfoldable pub order_by : (A → ℕ) → List A → List A
  order_by f [] = []
  order_by f (x ∷ xs) = insert_by f x (order_by f xs)

abbrev pub duplicate_key : String → Error
duplicate_key id = other_error (str_append "duplicate key: " id)

-- The caller's object is given the tenant, the project and the time.
abbrev pub stamped : (tenant_id project_id : String) → ℕ → Artifact → Artifact
stamped tenant_id project_id now a = record a {
  tenant_id = tenant_id;
  project_id = project_id;
  created_at = now;
}

abbrev pub in_place_of : Artifact → Artifact → Bool
in_place_of a b = is_artifact a.run_id a.kind a.key b

-- `SET content=EXCLUDED.content, job_id=EXCLUDED.job_id`
abbrev pub renewed : Artifact → Artifact → Artifact
renewed a b = record b { content = a.content; job_id = a.job_id }

abbrev pub missing_run : String → Error
missing_run run_id = other_error (str_append "foreign key: run " run_id)

-- `run_ids` are the identifiers of the table `runs`, which a new row refers to; a row that is there has its run.
unfoldable pub add_artifact :
    (tenant_id project_id : String)
    → (run_ids : List String) → Artifact
    → ℕ
    → List Artifact
    → Result Artifact × List Artifact
add_artifact tenant_id project_id run_ids artifact now rows =
    let a = stamped tenant_id project_id now artifact in
    let rows' = upsert (in_place_of a) (renewed a) a rows in
    if any (in_place_of a) rows
    then (ok a, rows')
    else (if any (λ b. str_eq b.id a.id) rows
        then (err (duplicate_key a.id), rows)
        else (if any (str_eq a.run_id) run_ids
            then (ok a, rows')
            else (err (missing_run a.run_id), rows)))

-- An empty `kind` asks for no condition.
unfoldable pub list_artifacts : (run_id kind : String) → List Artifact → List Artifact
list_artifacts run_id kind rows =
    order_by (λ a. a.created_at)
      (keep (λ a. str_eq a.run_id run_id && (if str_eq kind "" then true else str_eq a.kind kind))
        rows)

unfoldable pub get_artifact : (run_id kind key : String) → List Artifact → Option Artifact
get_artifact run_id kind key rows = first (is_artifact run_id kind key) rows

abbrev pub is_wave : (run_id wave_key : String) → Wave → Bool
is_wave run_id wave_key w = str_eq w.run_id run_id && str_eq w.wave_key wave_key

-- `SET sequence=EXCLUDED.sequence, status=EXCLUDED.status`
abbrev pub rescheduled : Wave → Wave → Wave
rescheduled a b = record b { sequence = a.sequence; status = a.status }

-- The row that is read back, and the caller's object if there is none.
abbrev pub stored_wave : Wave → List Wave → Wave
stored_wave w rows = elim (first (is_wave w.run_id w.wave_key) rows) [ some row ↦ row | none ↦ w ]

unfoldable pub upsert_wave : (run_id : String) → Wave → List Wave → Result Wave × List Wave
upsert_wave run_id wave rows =
    let w = record wave { run_id = run_id } in
    let rows' = upsert (is_wave run_id w.wave_key) (rescheduled w) w rows in
    if any (is_wave run_id w.wave_key) rows
    then (ok (stored_wave w rows'), rows')
    else (if any (λ b. str_eq b.id w.id) rows
        then (err (duplicate_key w.id), rows)
        else (ok (stored_wave w rows'), rows'))

unfoldable pub list_waves : String → List Wave → List Wave
list_waves run_id rows = order_by (λ w. w.sequence) (keep (λ w. str_eq w.run_id run_id) rows)

abbrev pub has_id : String → WorkPackage → Bool
has_id id p = str_eq p.id id

-- What `ON CONFLICT (id) DO UPDATE` overwrites: the run, the wave, the role and the domain stay.
abbrev pub replanned : WorkPackage → WorkPackage → WorkPackage
replanned a b = record b {
  status = a.status;
  allowed_paths = a.allowed_paths;
  forbidden_paths = a.forbidden_paths;
  depends_on = a.depends_on;
  objective = a.objective;
  expected_outputs = a.expected_outputs;
  acceptance_gates = a.acceptance_gates;
}

unfoldable pub upsert_work_package :
    (run_id wave_id : String) → WorkPackage → List WorkPackage → WorkPackage × List WorkPackage
upsert_work_package run_id wave_id pkg rows =
    let p = record pkg { run_id = run_id; wave_id = wave_id } in
    (p, upsert (has_id p.id) (replanned p) p rows)

unfoldable pub get_work_package : String → List WorkPackage → Option WorkPackage
get_work_package id rows = first (has_id id) rows

abbrev pub missing_package : String → Error
missing_package id = other_error (str_append "work package not found: " id)

unfoldable pub set_status : String → JobStatus → List WorkPackage → List WorkPackage
set_status id status [] = []
set_status id status (p ∷ ps) =
    let p' = record p { status = status } in
    if has_id id p then p' ∷ ps else p ∷ set_status id status ps

-- `update_work_package(package_id, status=…)`
unfoldable pub update_work_package :
    String → JobStatus → List WorkPackage → Result WorkPackage × List WorkPackage
update_work_package id status rows = elim (first (has_id id) rows) [
  | none ↦ (err (missing_package id), rows)
  | some p ↦ (ok (record p { status = status }), set_status id status rows)
]

unfoldable pub list_work_packages : String → List WorkPackage → List WorkPackage
list_work_packages run_id rows = keep (λ p. str_eq p.run_id run_id) rows

-- `ON CONFLICT (id) DO NOTHING`
unfoldable pub record_agent_run : AgentRun → ℕ → List AgentRun → AgentRun × List AgentRun
record_agent_run agent_run now rows =
    let a = record agent_run { created_at = now } in
    (a, upsert (λ b. str_eq b.id a.id) (λ b. b) a rows)

unfoldable pub list_agent_runs : String → List AgentRun → List AgentRun
list_agent_runs run_id rows = order_by (λ a. a.created_at) (keep (λ a. str_eq a.run_id run_id) rows)

unfoldable pub list_contract_violations : String → List AgentRun → List AgentRun
list_contract_violations run_id rows =
    order_by (λ a. a.created_at)
      (keep (λ a. str_eq a.run_id run_id && is_violation a.contract_ok) rows)

abbrev pub is_asked {ℓ} : {A : Type ℓ} → (A → Bool) → Option A → Bool
is_asked p none = true
is_asked p (some a) = p a

abbrev pub same_status : JobStatus → JobStatus → Bool
same_status a b = str_eq (job_status_value a) (job_status_value b)

unfoldable pub list_jobs : (run_id : Option String) → Option JobStatus → List Job → List Job
list_jobs run_id status rows =
    order_by (λ j. j.created_at)
      (keep (λ j. is_asked (str_eq j.run_id) run_id && is_asked (same_status j.status) status) rows)

unfoldable pub count_jobs : (run_id : String) → JobStatus → List Job → ℕ
count_jobs run_id status rows =
    length (keep (λ j. str_eq j.run_id run_id && same_status j.status status) rows)
