-- ===== src/Kernel.antt =====
-- dev_orchestrator/v8/kernel.py and dev_orchestrator/v8/mission.py: the reports on a run, from the dumped
-- records of the store. `build_state_transition_event` is modelled in Pipeline/State.
pub mod Reports
pub mod Plan
pub mod Graph
mod Tests
use async_native_ai_orchestr.Prelude.{
  ℕ, ◌+◌, ◌-◌, max, String, Bool, true, false, not, ◌&&◌, ◌||◌, List, [], ◌∷◌, ◌++◌, map, Option,
  none, some, ltb, leb, ◌==◌, str_eq, str_append, keep, length, or_else, if◌then◌else◌,
}
use async_native_ai_orchestr.Prelude.Dict.{Dict, get}
use async_native_ai_orchestr.Models.Status.{
  RunStatus, JobStatus, queued, leased, running, completed, retry, dead_letter, cancelled,
}
use async_native_ai_orchestr.Models.Kind.{JobType, job_type_value, PackageRole, role_value}
use async_native_ai_orchestr.Store.Jobs.{Job}
use async_native_ai_orchestr.Store.Records.{Project, Run, ContinuationState, Wave, WorkPackage}

-- `CHECKPOINT_TO_ACTION`
abbrev pub checkpoint_to_action : Dict String
checkpoint_to_action =
    ("run_created", "requirements_analysis")
    ∷ ("requirements_completed", "architecture_design")
    ∷ ("architecture_completed", "package_planning")
    ∷ ("package_planning_completed", "wave_execution")
    ∷ ("wave_queued", "wave_execution")
    ∷ ("package_completed", "wave_execution")
    ∷ ("wave_completed", "integration")
    ∷ ("integration_completed", "code_review")
    ∷ ("review_completed", "quality")
    ∷ ("quality_completed", "release_notes")
    ∷ ("release_notes_completed", "release_candidate")
    ∷ ("release_candidate_completed", "release_ready")
    ∷ ("apply_completed", "completed")
    ∷ ("rollback_completed", "rolled_back")
    ∷ []

-- `job.get("status") in {"queued", "retry", "leased", "running"}`
abbrev pub is_pending_job : Job → Bool
is_pending_job j = elim j.status [
  | queued ↦ true
  | retry ↦ true
  | leased ↦ true
  | running ↦ true
  | _ ↦ false
]

abbrev pub has_status_dead_letter : Job → Bool
has_status_dead_letter j = elim j.status [ dead_letter ↦ true | _ ↦ false ]

abbrev pub has_status_completed : Job → Bool
has_status_completed j = elim j.status [ completed ↦ true | _ ↦ false ]

abbrev pub has_status_retry : Job → Bool
has_status_retry j = elim j.status [ retry ↦ true | _ ↦ false ]

abbrev pub is_pending_package : WorkPackage → Bool
is_pending_package p = elim p.status [ completed ↦ false | cancelled ↦ false | _ ↦ true ]

-- `run.get("status") not in {"completed", "cancelled", "release_ready", "rolled_back"}`
abbrev pub may_go_on : RunStatus → Bool
may_go_on RunStatus.completed = false
may_go_on RunStatus.cancelled = false
may_go_on RunStatus.release_ready = false
may_go_on RunStatus.rolled_back = false
may_go_on _ = true

-- `a or b`, for texts
abbrev pub text_or : String → String → String
text_or a b = if str_eq a "" then b else a

abbrev pub is_none_left {ℓ} : {A : Type ℓ} → List A → Bool
is_none_left [] = true
is_none_left (x ∷ xs) = false

-- `xs[-n:]`, for a positive `n`
abbrev pub drop {ℓ} : {A : Type ℓ} → ℕ → List A → List A
drop n [] = []
drop n (x ∷ xs) = let rest = drop (n - 1) xs in if n == 0 then x ∷ xs else rest

abbrev pub take_last {ℓ} : {A : Type ℓ} → ℕ → List A → List A
take_last n xs = drop (length xs - n) xs

-- `xs[:n]`
abbrev pub take_first {ℓ} : {A : Type ℓ} → ℕ → List A → List A
take_first n [] = []
take_first n (x ∷ xs) = let rest = take_first (n - 1) xs in if n == 0 then [] else x ∷ rest

pub record ResumePlan : Type 0 where
  pub run_id : String
  pub status : RunStatus
  pub checkpoint : String
  pub next_action : String
  pub resumable : Bool
  pub pending_job_count : ℕ
  pub dead_letter_count : ℕ
  pub pending_package_count : ℕ
  pub active_resume_keys : List String
  pub completed_resume_keys : List String

-- `str(run.get("checkpoint") or continuation.get("checkpoint") or "run_created")`
abbrev pub resume_checkpoint : Run → String
resume_checkpoint run = text_or run.checkpoint (text_or run.continuation.checkpoint "run_created")

-- The next action and whether the run is resumable.
abbrev pub next_step :
    Run → (dead_letters queued_jobs : List Job) → (pending : List WorkPackage) → String × Bool
next_step run dead_letters queued_jobs pending =
    if not (is_none_left dead_letters)
    then ("dead_letter_requeue", false)
    else (if not (is_none_left queued_jobs)
        then ("worker_claim_pending_jobs", true)
        else (if not (is_none_left pending) then ("worker_claim_package_jobs", true) else (
          or_else (get (resume_checkpoint run) checkpoint_to_action) run.continuation.next_action,
          may_go_on run.status,
        )))

unfoldable pub build_checkpoint_resume_plan : Run → List Job → List WorkPackage → ResumePlan
build_checkpoint_resume_plan run jobs packages =
    let queued_jobs = keep is_pending_job jobs in
    let dead_letters = keep has_status_dead_letter jobs in
    let pending = keep is_pending_package packages in
    let (next_action, resumable) = next_step run dead_letters queued_jobs pending in
    record {
      run_id = run.id;
      status = run.status;
      checkpoint = resume_checkpoint run;
      next_action = next_action;
      resumable = resumable;
      pending_job_count = length queued_jobs;
      dead_letter_count = length dead_letters;
      pending_package_count = length pending;
      active_resume_keys = map (λ j. j.resume_key) queued_jobs;
      completed_resume_keys =
          map (λ j. j.resume_key) (take_last 50 (keep has_status_completed jobs));
    }

-- A node of the mission graph: `status`, `checkpoint`, `sequence` and `role` as far as the type has them.
pub data Node : Type 0 where
  run_node : (id label : String) → RunStatus → (checkpoint : String) → Node
  wave_node : (id label status : String) → (sequence : ℕ) → Node
  package_node : (id label : String) → JobStatus → PackageRole → Node
  job_node : (id : String) → JobType → JobStatus → Node

abbrev pub node_id : Node → String
node_id (run_node id label status checkpoint) = id
node_id (wave_node id label status sequence) = id
node_id (package_node id label status role) = id
node_id (job_node id label status) = id

pub data EdgeKind : Type 0 where
  contains depends_on executes : EdgeKind

pub record Edge : Type 0 where
  pub source : String
  pub target : String
  pub kind : EdgeKind

pub record MissionGraph : Type 0 where
  pub run_id : String
  pub node_count : ℕ
  pub edge_count : ℕ
  pub nodes : List Node
  pub edges : List Edge

abbrev pub run_node_id : Run → String
run_node_id run = str_append "run:" run.id

abbrev pub wave_node_id : Wave → String
wave_node_id w = str_append "wave:" (text_or w.wave_key w.id)

abbrev pub package_node_id : WorkPackage → String
package_node_id p = str_append "pkg:" (text_or p.package_key p.id)

abbrev pub node_of_wave : Wave → Node
node_of_wave w = wave_node (wave_node_id w) w.wave_key w.status w.sequence

abbrev pub node_of_package : WorkPackage → Node
node_of_package p = package_node (package_node_id p) p.package_key p.status p.role

-- `sorted(waves, key=lambda w: int(w.get("sequence") or 0))`
unfoldable pub insert_wave : Wave → List Wave → List Wave
insert_wave w [] = w ∷ []
insert_wave w (v ∷ vs) = if leb w.sequence v.sequence then w ∷ v ∷ vs else v ∷ insert_wave w vs

unfoldable pub sort_waves : List Wave → List Wave
sort_waves [] = []
sort_waves (w ∷ ws) = insert_wave w (sort_waves ws)

unfoldable pub wave_part : Run → List Wave → List Node × List Edge
wave_part run [] = ([], [])
wave_part run (w ∷ ws) =
    let (nodes, edges) = wave_part run ws in
    (
      node_of_wave w ∷ nodes,
      record { source = run_node_id run; target = wave_node_id w; kind = contains } ∷ edges,
    )

abbrev pub dependency_edges : WorkPackage → List String → List Edge
dependency_edges p [] = []
dependency_edges p (d ∷ ds) =
    record { source = str_append "pkg:" d; target = package_node_id p; kind = depends_on }
    ∷ dependency_edges p ds

abbrev pub package_edges : WorkPackage → List Edge
package_edges p =
    record { source = str_append "wave:" p.wave_key; target = package_node_id p; kind = contains }
    ∷ dependency_edges p p.depends_on

unfoldable pub package_part : List WorkPackage → List Node × List Edge
package_part [] = ([], [])
package_part (p ∷ ps) =
    let (nodes, edges) = package_part ps in (node_of_package p ∷ nodes, package_edges p ++ edges)

abbrev pub job_node_id : Job → String
job_node_id j = str_append "job:" j.id

abbrev pub node_of_job : Job → Node
node_of_job j = job_node (job_node_id j) j.job_type j.status

abbrev pub job_edges : Job → Option String → List Edge
job_edges j none = []
job_edges j (some ref) =
    if str_eq ref ""
    then []
    else record { source = str_append "pkg:" ref; target = job_node_id j; kind = executes } ∷ []

unfoldable pub job_part : List Job → List Node × List Edge
job_part [] = ([], [])
job_part (j ∷ js) =
    let (nodes, edges) = job_part js in
    (node_of_job j ∷ nodes, job_edges j j.work_package_id ++ edges)

unfoldable pub build_mission_graph :
    Run → Project → List Job → List Wave → List WorkPackage → MissionGraph
build_mission_graph run project jobs waves packages =
    let first_node =
      run_node (run_node_id run) (text_or project.name run.id) run.status run.checkpoint in
    let (wave_nodes, wave_edges) = wave_part run (sort_waves waves) in
    let (package_nodes, edges_of_packages) = package_part packages in
    let (job_nodes, edges_of_jobs) = job_part (take_first 2000 jobs) in
    let nodes = first_node ∷ (wave_nodes ++ (package_nodes ++ job_nodes)) in
    let edges = wave_edges ++ (edges_of_packages ++ edges_of_jobs) in
    record {
      run_id = run.id;
      node_count = length nodes;
      edge_count = length edges;
      nodes = nodes;
      edges = edges;
    }
