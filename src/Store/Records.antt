-- ===== src/Store/Records.antt =====
-- dev_orchestrator/v8/models.py: the records that the store keeps, but `Job`. A phase's output is kept
-- in the metadata as the JSON value that it is.
use async_native_ai_orchestr.Prelude.{ℕ, String, Bool, List, Option, none}
use async_native_ai_orchestr.Prelude.Dict.{Dict}
use async_native_ai_orchestr.Json.{Json}
use async_native_ai_orchestr.Models.Status.{RunStatus, JobStatus}
use async_native_ai_orchestr.Models.Kind.{PackageRole}
use async_native_ai_orchestr.Profiles.{ScaleProfileData}

pub record ProjectConfig : Type 0 where
  pub name : String
  pub title : String
  pub description : String
  pub project_path : String
  pub target_scale : String
  pub scale_profile : Option ScaleProfileData

pub record Project : Type 0 where
  pub id : String
  pub tenant_id : String
  pub name : String
  pub title : String
  pub description : String
  pub project_path : String
  pub config : ProjectConfig
  pub status : String
  pub created_at : ℕ
  pub updated_at : ℕ

pub record ContinuationState : Type 0 where
  pub next_action : String
  pub checkpoint : String
  pub current_wave : Option String
  pub current_package : Option String
  pub failure_reason : String
  pub recovery_state : String
  pub repair_attempt : ℕ

-- `ContinuationState(next_action=…, checkpoint=…, current_wave=…)`
abbrev pub continue_with : String → String → Option String → ContinuationState
continue_with next_action checkpoint current_wave = record {
  next_action = next_action;
  checkpoint = checkpoint;
  current_wave = current_wave;
  current_package = none;
  failure_reason = "";
  recovery_state = "";
  repair_attempt = 0;
}

pub record RunMetadata : Type 0 where
  pub requirements_text : String
  pub scale_profile : ScaleProfileData
  pub project_config : Option ProjectConfig
  pub requirements : Option Json
  pub architecture : Option Json
  pub package_plan : Option Json
  pub context_snapshot_hash : String
  pub mission_memory_hash : String
  pub retry_counts : Dict ℕ
  pub cache : Dict Json

pub record Run : Type 0 where
  pub id : String
  pub tenant_id : String
  pub project_id : String
  pub status : RunStatus
  pub checkpoint : String
  pub continuation : ContinuationState
  pub metadata : RunMetadata
  pub created_at : ℕ
  pub updated_at : ℕ

pub record Wave : Type 0 where
  pub id : String
  pub run_id : String
  pub wave_key : String
  pub sequence : ℕ
  pub status : String

pub record WorkPackage : Type 0 where
  pub id : String
  pub run_id : String
  pub wave_id : String
  pub wave_key : String
  pub package_key : String
  pub role : PackageRole
  pub domain : String
  pub status : JobStatus
  pub allowed_paths : List String
  pub forbidden_paths : List String
  pub depends_on : List String
  pub objective : String
  pub expected_outputs : List String
  pub acceptance_gates : List String

-- What a `mission_state_changed` event says, and which of the three compared fields changed.
pub record StateTransition : Type 0 where
  pub tenant_id : String
  pub project_id : String
  pub run_id : String
  pub status : String
  pub checkpoint : String
  pub next_action : String
  pub previous_status : String
  pub previous_checkpoint : String
  pub changed_fields : List String

pub data EventPayload : Type 0 where
  created : (project_id : String) → ScaleProfileData → EventPayload
  transition : StateTransition → EventPayload

pub record Event : Type 0 where
  pub id : String
  pub tenant_id : String
  pub run_id : String
  pub event_type : String
  pub payload : EventPayload
  pub sequence : ℕ
  pub created_at : ℕ

-- A slot of `acquire_ai_slot`; `status` is the literal type of the source.
pub data SlotStatus : Type 0 where
  active expired released : SlotStatus

pub record AiSlot : Type 0 where
  pub id : String
  pub tenant_id : String
  pub run_id : String
  pub provider : String
  pub agent_run_id : String
  pub task_kind : String
  pub status : SlotStatus
  pub acquired_at : ℕ
  pub lease_until : ℕ
  pub released_at : Option ℕ

pub record Artifact : Type 0 where
  pub id : String
  pub tenant_id : String
  pub project_id : String
  pub run_id : String
  pub job_id : String
  pub kind : String
  pub key : String
  pub content_type : String
  pub content : String
  pub created_at : ℕ

pub record AgentRun : Type 0 where
  pub id : String
  pub tenant_id : String
  pub run_id : String
  pub job_id : String
  pub role : String
  pub task_kind : String
  pub model : String
  pub status : String
  pub elapsed_ms : ℕ
  pub input_chars : ℕ
  pub output_chars : ℕ
  pub error : String
  pub contract_ok : Option Bool
  pub contract_errors : List String
  pub created_at : ℕ
