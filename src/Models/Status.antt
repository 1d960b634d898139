-- ===== src/Models/Status.antt =====
-- dev_orchestrator/v8/models.py: the status enumerations, with the tests that the code makes of them.
use async_native_ai_orchestr.Prelude.{Bool, true, false, String}

pub data RunStatus : Type 0 where
  queued running paused recovering blocked no_go completed : RunStatus
  cancelled release_ready rolled_back : RunStatus

pub data JobStatus : Type 0 where
  queued leased running completed retry dead_letter cancelled paused : JobStatus

pub data ProviderHealthStatus : Type 0 where
  healthy degraded circuit_open half_open blocked : ProviderHealthStatus

-- `status == JobStatus.queued`
abbrev pub is_queued : JobStatus → Bool
is_queued queued = true
is_queued _ = false

abbrev pub is_leased : JobStatus → Bool
is_leased leased = true
is_leased _ = false

abbrev pub is_completed : JobStatus → Bool
is_completed completed = true
is_completed _ = false

-- `status.value`
abbrev pub job_status_value : JobStatus → String
job_status_value queued = "queued"
job_status_value leased = "leased"
job_status_value running = "running"
job_status_value completed = "completed"
job_status_value retry = "retry"
job_status_value dead_letter = "dead_letter"
job_status_value cancelled = "cancelled"
job_status_value paused = "paused"
