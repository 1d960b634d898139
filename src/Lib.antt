-- ===== src/Lib.antt =====
-- Verification library of the orchestrator: a model of dev_orchestrator/v8 in which a run of the
-- system is a sequence of calls on explicit states.
--
-- The program. A user creates a project and a run; `PipelineOrchestrator`
-- (dev_orchestrator/v8/pipeline.py) moves the run from checkpoint to checkpoint. It does so by
-- putting jobs in the queue of the store (dev_orchestrator/v8/store_memory.py); workers claim
-- them, `execute_job` runs the handler of the phase, and its result advances the run, is retried,
-- or blocks it. The handlers call language models through `AsyncAIScheduler`
-- (dev_orchestrator/v8/scheduler.py), which asks `ProviderCircuitBreaker`
-- (dev_orchestrator/v8/resilience.py) for leave, takes a slot from the store, retries and
-- validates the answer (dev_orchestrator/v8/contract_validator.py). A second store keeps the same
-- tables in PostgreSQL (dev_orchestrator/v8/store_pg.py). The scale of a project selects its
-- tuning parameters (dev_orchestrator/v8/profiles.py) and is inferred from the output of the
-- first phases (dev_orchestrator/v8/scale_inference.py).
--
-- The files.
-- - Breaker: `ProviderCircuitBreaker`; Breaker/Invariant, Probe and Trip are about sequences of
--   its calls. Times are in milliseconds, the jitter of `record_failure` in thousandths.
-- - Store/Jobs: the table `_jobs` and its methods, `enqueue_job` to `requeue_expired_jobs`; below
--   it, what holds of claims (Claim, Keyed), of attempts and leases (History), of resume keys
--   (Dedup, Resume) and of expired leases (Requeue). Times are in microseconds.
-- - Store/Records and Store/Memory: the records of dev_orchestrator/v8/models.py that the store
--   keeps, and the methods on projects, runs, events, waves and packages. A dictionary is an
--   association list in insertion order (Prelude/Dict).
-- - Models/Status, Models/Kind: the enumerations.
-- - Pipeline/World: the store, the clock and the identifiers that a coroutine of the pipeline
--   uses, as a state monad with exceptions; an exception keeps what was changed before it.
--   Pipeline/State: `_update_run_state` and `build_state_transition_event` of
--   dev_orchestrator/v8/kernel.py. Pipeline/Enqueue: the jobs that are made. Pipeline/Waves:
--   `_advance_wave_execution`. Pipeline/Advance: `advance_run`; below it Runs, Loop and Progress.
--   Pipeline/Phases: `execute_job`, `_advance_after_job` and `create_run`; below it Persist
--   (`_persist_phase_result`), Outcome and Accept. Pipeline/Projects: `create_project`.
-- - Store/Shelves: the slots of AI calls, artifacts, agent runs and the list of events; below it
--   Slots.
-- - Postgres/Jobs: the table `jobs` of dev_orchestrator/v8/store_pg.py and its methods; below it
--   sequences of calls (History), the abstract queue of phases (Phases) that they refine
--   (Refines), who holds a job (Holder) and the attempts (Attempts). Postgres/Slots: the table
--   `ai_slots`; below it Limits and Waiting. Postgres/Tables: artifacts, waves, work packages,
--   agent runs and the lists of jobs; below it Upserts. A transaction is one step, but for those
--   of `acquire_ai_slot`, between whose statements others may commit, and a table is the list of
--   its rows in the order of insertion.
-- - Scheduler: the records and the semaphores of dev_orchestrator/v8/scheduler.py, and the
--   interface `SlotStore` of the store; Scheduler/Payload: `_estimate_chars` and
--   `_truncate_payload`; Scheduler/Calls: `call`, `_call_once` and `_execute_call`; then Retry
--   (the loop), Release with the laws `SlotLaws` of a store, which Memory proves of the in-memory
--   store, and Health (what a call leaves in the breaker).
-- - Contracts: the registry of dev_orchestrator/v8/contracts.py and
--   dev_orchestrator/v8/contract_validator.py; below it Kinds.
-- - Worker: `_execute` of dev_orchestrator/v8/worker.py; below it Ending, Loop (`run_forever`)
--   and Supervisor (`_create_workers`).
-- - Planning: the plan of dev_orchestrator/v8/phases/planning.py; below it Infrastructure (the
--   added package and the default waves) and Paths (conflicts and overlaps of paths). The pairs
--   of packages are taken on as many rounds as there are packages, of which each round ends with
--   one.
-- - Kernel: the resume plan and the mission graph of dev_orchestrator/v8/kernel.py; below it
--   Reports (events, recovery and the counts of dev_orchestrator/v8/mission.py), Plan and Graph.
-- - Runtime: dev_orchestrator/v8/runtime.py over the interface `FileSystem`. Runtime/Paths and
--   Glob are what it calls of `os.path`, pathlib and `fnmatch`; Validate is `_validate_path`,
--   Manifest `apply_file_manifest` and `layout_roots`, Commands `apply_commands`. Laws are those
--   of the operating system, which Tree, a disk without links, has; Frame is about one entry,
--   Confined about what a manifest leaves alone, Counts about its answer.
-- - LlmClient: `AsyncLLMClient.chat` of dev_orchestrator/llm_client.py. Providers: which profile
--   and wire API a configuration asks for; Content: the text of an answer; Chat: the attempts;
--   Attempts: what comes of them.
-- - Utils: dev_orchestrator/v8/utils.py.
-- - Phase: what the handlers of dev_orchestrator/v8/phases share, and their services as an
--   interface. Below it Quality, Release, Integration and Implementation are the handlers of
--   these names; Verdict is about the quality report, Samples about the files that reviewers get,
--   and Applied about the directories of the runs.
-- - Errors: `classify_error`; Errors/Numbers: `str` and `int` of integers; Errors/Retryable: what
--   the breaker makes of the errors.
-- - Roles: dev_orchestrator/v8/role_aliases.py; below it Canonical.
-- - Profiles, Profiles/Table, Profiles/Attempts; ScaleInference, with Initial below it.
-- - Prelude, Json, Result, Text: helpers. Each Tests module holds tests and examples of its
--   parent.
--
-- Bounds. The `while` loop of `advance_run` runs on 3 rounds of fuel: a round ends the loop, or
-- brings the checkpoint to "wave_queued" and then out of the waves. The loop of `acquire_ai_slot`
-- runs over the rounds that there is time for; it has a result as soon as the clock passes the
-- deadline in one of them. The decimal digits of n are printed on n + 1 rounds. Integers that the
-- program keeps non-negative are natural numbers. `uuid4` and `time` are arguments: the n-th
-- identifier is `mint n`, and each call carries its time. Each method of the store and of the
-- breaker holds its lock throughout, so it is one step.
--
-- Not modelled: the handlers of the requirements and architecture phases and the calls of the
-- planning phase (all handlers are a parameter of `execute_job`), their prompts and the layered
-- memory, logging, the HTTP interface, the task of heartbeats and the signals of the supervisor,
-- the assembly of the mission state, the projects, runs, events and provider states of the
-- PostgreSQL store, two of its transactions at once but for those of `acquire_ai_slot`, the
-- references of its tables but for that of an artifact to its run, the network, whose answer is
-- given for each attempt, the configuration, pydantic and `json`, which are parameters, waiting
-- for a semaphore, and what a command does. The runtime is that of a system whose paths have
-- slashes; texts hold no NUL character. `str.lower` changes ASCII letters only, and `int` reads
-- ASCII digits only. A run that passes through `model_dump` and `model_validate` in `update_run`
-- comes back as it was but for its metadata, whose validation is a parameter; other records are
-- taken to come back as they were. While a call of the scheduler is in flight, others may call
-- the breaker; what they do to the store then is not represented.
pub mod Prelude
pub mod Json
pub mod Result
pub mod Text
pub mod Models
pub mod Profiles
pub mod ScaleInference
pub mod Breaker
pub mod Contracts
pub mod Errors
pub mod Roles
pub mod Store
pub mod Postgres
pub mod Scheduler
pub mod Pipeline
pub mod Planning
pub mod Kernel
pub mod Runtime
pub mod LlmClient
pub mod Utils
pub mod Phase
pub mod Worker
