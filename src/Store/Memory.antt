-- ===== src/Store/Memory.antt =====
-- dev_orchestrator/v8/store_memory.py: `InMemoryStore` and its operations on projects, runs, events,
-- waves and work packages. The job queue is the module Jobs.
use async_native_ai_orchestr.Prelude.{ℕ, ◌+◌, String, List, [], Option, none, some, str_eq, keep}
use async_native_ai_orchestr.Prelude.Dict.{Dict, get, put, pop, values}
use async_native_ai_orchestr.Models.Status.{RunStatus, JobStatus}
use async_native_ai_orchestr.Result.{Result, ok, err, key_error}
use async_native_ai_orchestr.Store.Jobs.{Job}
use async_native_ai_orchestr.Store.Records.{
  Project, Run, RunMetadata, ContinuationState, Wave, WorkPackage, Event, continue_with, AiSlot,
  Artifact, AgentRun,
}

-- With what `RunMetadata.model_validate` makes of the dump of metadata, a parameter that no operation changes:
-- it raises, drops fields or adds defaults where a phase has put raw output there.
pub record InMemoryStore : Type 0 where
  pub projects : Dict Project
  pub runs : Dict Run
  pub jobs : Dict Job
  pub waves : Dict Wave
  pub work_packages : Dict WorkPackage
  pub events : Dict Event
  pub event_seq : ℕ
  pub ai_slots : Dict AiSlot
  pub artifacts : Dict Artifact
  pub agent_runs : Dict AgentRun
  pub validate_metadata : RunMetadata → Result RunMetadata

-- `InMemoryStore()`
abbrev pub new_store : (RunMetadata → Result RunMetadata) → InMemoryStore
new_store validate_metadata = record {
  projects = [];
  runs = [];
  jobs = [];
  waves = [];
  work_packages = [];
  events = [];
  event_seq = 0;
  ai_slots = [];
  artifacts = [];
  agent_runs = [];
  validate_metadata = validate_metadata;
}

-- A store for metadata that validates as it is.
abbrev pub empty : InMemoryStore
empty = new_store (λ m. ok m)

unfoldable pub create_project : InMemoryStore → Project → InMemoryStore
create_project s p = record s { projects = put p.id p s.projects }

unfoldable pub get_project : InMemoryStore → String → Option Project
get_project s i = get i s.projects

unfoldable pub delete_project : InMemoryStore → String → InMemoryStore
delete_project s i = record s { projects = pop i s.projects }

-- The new run's identifier is the first argument.
unfoldable pub create_run :
    String → (tenant_id project_id : String) → RunMetadata → ℕ → InMemoryStore → Run × InMemoryStore
create_run id tenant_id project_id metadata now s =
    let run : Run = record {
      id = id;
      tenant_id = tenant_id;
      project_id = project_id;
      status = RunStatus.queued;
      checkpoint = "run_created";
      continuation = continue_with "" "" none;
      metadata = metadata;
      created_at = now;
      updated_at = now;
    } in
    (run, record s { runs = put id run s.runs })

unfoldable pub get_run : InMemoryStore → String → Option Run
get_run s i = get i s.runs

-- The keyword arguments of `update_run`: what is given replaces the field.
pub record RunFields : Type 0 where
  pub status : Option RunStatus
  pub checkpoint : Option String
  pub continuation : Option ContinuationState
  pub metadata : Option RunMetadata

abbrev given {ℓ} : {A : Type ℓ} → Option A → A → A
given none old = old
given (some new) old = new

-- The run as the assignments of `update_run` leave it.
abbrev pub with_fields : Run → RunFields → ℕ → Run
with_fields run f now = record run {
  status = given f.status run.status;
  checkpoint = given f.checkpoint run.checkpoint;
  continuation = given f.continuation run.continuation;
  metadata = given f.metadata run.metadata;
  updated_at = now;
}

-- `Run.model_validate` of the dump with the fields that are given: metadata that is given is an instance and
-- kept as it is, and what the run has was dumped and is validated again.
abbrev pub revalidated : (RunMetadata → Result RunMetadata) → RunFields → Run → Result Run
revalidated validate f run = elim f.metadata [
  | some m ↦ ok run
  | none ↦ elim (validate run.metadata) [ err e ↦ err e | ok m ↦ ok (record run { metadata = m }) ]
]

unfoldable pub update_run : InMemoryStore → String → RunFields → ℕ → Result Run × InMemoryStore
update_run s run_id f now = elim (get run_id s.runs) [
  | none ↦ (err (key_error run_id), s)
  | some run ↦ elim (revalidated s.validate_metadata f run) [
    | err e ↦ (err e, s)
    | ok base ↦
        let run' = with_fields base f now in (ok run', record s { runs = put run_id run' s.runs })
  ]
]

-- The run that is stored after `update_run`.
abbrev pub updated : (RunMetadata → Result RunMetadata) → RunFields → ℕ → Run → Run
updated validate f now run = elim (revalidated validate f run) [
  | err e ↦ run
  | ok base ↦ with_fields base f now
]

-- The event takes the next number, and its identifier from the caller's object.
unfoldable pub add_event : InMemoryStore → Event → Event × InMemoryStore
add_event s e =
    let e' = record e { sequence = s.event_seq + 1 } in
    (e', record s { event_seq = s.event_seq + 1; events = put e.id e' s.events })

unfoldable pub upsert_wave : InMemoryStore → Wave → InMemoryStore
upsert_wave s w = record s { waves = put w.id w s.waves }

unfoldable pub list_waves : InMemoryStore → String → List Wave
list_waves s run_id = keep (λ w. str_eq w.run_id run_id) (values s.waves)

unfoldable pub upsert_work_package : InMemoryStore → WorkPackage → InMemoryStore
upsert_work_package s p = record s { work_packages = put p.id p s.work_packages }

unfoldable pub get_work_package : InMemoryStore → String → Option WorkPackage
get_work_package s i = get i s.work_packages

-- `update_work_package(package_id, status=…)`
unfoldable pub update_work_package :
    InMemoryStore → String → JobStatus → Result WorkPackage × InMemoryStore
update_work_package s i status = elim (get i s.work_packages) [
  | none ↦ (err (key_error i), s)
  | some p ↦
      let p' = record p { status = status } in
      (ok p', record s { work_packages = put i p' s.work_packages })
]

unfoldable pub list_work_packages : InMemoryStore → String → List WorkPackage
list_work_packages s run_id = keep (λ p. str_eq p.run_id run_id) (values s.work_packages)

-- `list_jobs(run_id=…)`
unfoldable pub list_jobs : InMemoryStore → String → List Job
list_jobs s run_id = keep (λ j. str_eq j.run_id run_id) (values s.jobs)
