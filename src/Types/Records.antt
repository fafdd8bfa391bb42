-- ===== src/Types/Records.antt =====
-- wacp/crates/wacp-types/src: identifiers (id.rs), envelopes, checkpoints, tasks, resources, gate
-- events, port rights and originators. Bytes and 64-bit fields are native numbers.
use wacp_platform.Prelude.{ℕ, String, Option, List, string_eq}
use wacp_platform.Types.Enums.{
  EnvelopePriority, EnvelopeOrigin, EnvelopeState, CheckpointStatus, Confidence, TaskStatus,
  PortRightType, GateType,
}

-- Each identifier is a transparent newtype over a string.
abbrev pub WorkspaceId : Type 0
WorkspaceId = String

abbrev pub EnvelopeId : Type 0
EnvelopeId = String

abbrev pub CheckpointId : Type 0
CheckpointId = String

abbrev pub TaskId : Type 0
TaskId = String

abbrev pub UserId : Type 0
UserId = String

abbrev pub GateId : Type 0
GateId = String

abbrev pub Bytes : Type 0
Bytes = List ℕ

pub record Envelope : Type 0 where
  pub id : EnvelopeId
  pub from_workspace : WorkspaceId
  pub to_workspace : WorkspaceId
  pub envelope_type : String
  pub payload : Bytes
  pub in_reply_to : Option EnvelopeId
  pub timestamp : ℕ
  pub priority : EnvelopePriority
  pub origin : EnvelopeOrigin
  pub state : EnvelopeState

pub record ResourceUsage : Type 0 where
  pub tokens : ℕ
  pub wall_time_ms : ℕ
  pub storage_bytes : ℕ
  pub network_bytes : ℕ
  pub cost_micros : ℕ

abbrev pub default_usage : ResourceUsage
default_usage = record {
  tokens = 0;
  wall_time_ms = 0;
  storage_bytes = 0;
  network_bytes = 0;
  cost_micros = 0;
}

-- The threshold is an `f32`, whose type is a parameter.
pub record ResourceBudget (F : Type 0) : Type 0 where
  pub max_tokens : Option ℕ
  pub max_wall_time_ms : Option ℕ
  pub max_storage_bytes : Option ℕ
  pub max_network_bytes : Option ℕ
  pub max_cost_micros : Option ℕ
  pub warning_threshold : F

pub record Checkpoint : Type 0 where
  pub id : CheckpointId
  pub workspace_id : WorkspaceId
  pub checkpoint_type : String
  pub payload : Bytes
  pub content_hash : String
  pub intent : String
  pub parent_checkpoint : Option CheckpointId
  pub status : CheckpointStatus
  pub confidence : Confidence
  pub timestamp : ℕ
  pub resource_usage : Option ResourceUsage

pub record Task : Type 0 where
  pub id : TaskId
  pub name : String
  pub description : String
  pub depends_on : List TaskId
  pub parent_task : Option TaskId
  pub status : TaskStatus
  pub workspace_ref : Option WorkspaceId
  pub workspace_history : List WorkspaceId
  pub checkpoint_ref : Option CheckpointId

pub record PortRight : Type 0 where
  pub right_type : PortRightType
  pub holder : WorkspaceId
  pub target : WorkspaceId

pub record GateEvent : Type 0 where
  pub gate_id : GateId
  pub gate_type : GateType
  pub subject : Bytes
  pub workspace_id : WorkspaceId
  pub task_id : Option TaskId
  pub timeout_ms : ℕ
  pub fallback_action : String
  pub created_at : ℕ

pub data Originator : Type 0 where
  system : Originator
  user : UserId → Originator
