-- ===== src/Workspace/State.antt =====
-- wacp/crates/wacp-workspace/src/state.rs: the nine components of a workspace and its operations.
-- The type of a budget's `f32` threshold is the parameter `F`.
use wacp_platform.Prelude.{
  ℕ, String, Bool, Option, none, some, List, [], ◌∷◌, ◌++◌, HashSet, add, contains, string_eq,
  if◌then◌else◌, ltb,
}
use wacp_platform.Types.Enums.{BaseRole, EnvelopePriority, WorkspaceState as Status}
use wacp_platform.Types.Enums.EnvelopePriority.{normal, urgent, blocking}
use wacp_platform.Types.Records.{
  WorkspaceId, UserId, Originator, Envelope, Bytes, ResourceBudget, ResourceUsage, Checkpoint,
  default_usage,
}

pub record WorkspaceConfig (F : Type 0) : Type 0 where
  pub id : WorkspaceId
  pub role : String
  pub base_role : BaseRole
  pub parent : WorkspaceId
  pub owner : UserId
  pub originator : Originator
  pub directive : Envelope
  pub context : Bytes
  pub visibility : HashSet String
  pub authority : HashSet String
  pub delegate : Bool
  pub budget : Option (ResourceBudget F)

pub record ResourceMeter (F : Type 0) : Type 0 where
  pub usage : ResourceUsage
  pub budget : Option (ResourceBudget F)

pub record WorkspaceState (F : Type 0) : Type 0 where
  pub id : WorkspaceId
  pub status : Status
  pub role : String
  pub base_role : BaseRole
  pub parent : WorkspaceId
  pub owner : UserId
  pub originator : Originator
  pub delegate : Bool
  pub directive : Envelope
  pub inbox : List Envelope
  pub context : Bytes
  pub working_memory : Bytes
  pub checkpoint_register : List Checkpoint
  pub resource_meter : ResourceMeter F
  pub trail_sequence : ℕ
  pub visibility_set : HashSet String
  pub authority_set : HashSet String
  pub delivered_envelope_ids : HashSet String

pub record MigrationSnapshot (F : Type 0) : Type 0 where
  pub inbox : List Envelope
  pub working_memory : Bytes
  pub checkpoint_register : List Checkpoint
  pub resource_meter : ResourceMeter F
  pub trail_sequence : ℕ
  pub delivered_envelope_ids : HashSet String

pub record ArchivedWorkspace : Type 0 where
  pub id : WorkspaceId
  pub terminal_state : Status
  pub role : String
  pub parent : WorkspaceId
  pub owner : UserId
  pub originator : Originator
  pub directive : Envelope
  pub context : Bytes
  pub checkpoints : List Checkpoint
  pub final_usage : ResourceUsage
  pub visibility : HashSet String
  pub authority : HashSet String

unfoldable pub priority_rank : EnvelopePriority → ℕ
priority_rank blocking = 2
priority_rank urgent = 1
priority_rank normal = 0

-- `Vec::insert` at the first position whose envelope ranks lower, or at the end.
unfoldable pub insert_ranked : Envelope → List Envelope → List Envelope
insert_ranked envelope [] = envelope ∷ []
insert_ranked envelope (e ∷ es) =
    if ltb (priority_rank e.priority) (priority_rank envelope.priority)
    then envelope ∷ e ∷ es
    else e ∷ insert_ranked envelope es

-- The loop of `grant_visibility`.
unfoldable pub add_all : List String → HashSet String → HashSet String
add_all [] s = s
add_all (r ∷ rs) s = add_all rs (add r s)

module _ {F : Type 0} where
  unfoldable pub new : WorkspaceConfig F → WorkspaceState F
  new config = record {
    id = config.id;
    status = Status.idle;
    role = config.role;
    base_role = config.base_role;
    parent = config.parent;
    owner = config.owner;
    originator = config.originator;
    delegate = config.delegate;
    directive = config.directive;
    inbox = [];
    context = config.context;
    working_memory = [];
    checkpoint_register = [];
    resource_meter = record { usage = default_usage; budget = config.budget };
    trail_sequence = 0;
    visibility_set = config.visibility;
    authority_set = config.authority;
    delivered_envelope_ids = [];
  }

  unfoldable pub grant_visibility : List String → WorkspaceState F → WorkspaceState F
  unfolding add_all
  grant_visibility resources w = record w { visibility_set = add_all resources w.visibility_set }

  unfoldable pub push_inbox : Envelope → WorkspaceState F → WorkspaceState F
  unfolding insert_ranked
  push_inbox envelope w = record w { inbox = insert_ranked envelope w.inbox }

  unfoldable pub take_front : List Envelope → WorkspaceState F → WorkspaceState F × Option Envelope
  take_front [] w = (w, none)
  take_front (envelope ∷ rest) w = (
    record w { inbox = rest; delivered_envelope_ids = add envelope.id w.delivered_envelope_ids },
    some envelope,
  )

  unfoldable pub pop_inbox : WorkspaceState F → WorkspaceState F × Option Envelope
  unfolding take_front
  pop_inbox w = take_front w.inbox w

  unfoldable pub is_envelope_delivered : String → WorkspaceState F → Bool
  is_envelope_delivered id w = contains w.delivered_envelope_ids id

  unfoldable pub push_checkpoint : Checkpoint → WorkspaceState F → WorkspaceState F
  push_checkpoint cp w = record w { checkpoint_register = w.checkpoint_register ++ cp ∷ [] }

  unfoldable pub capture_snapshot : WorkspaceState F → MigrationSnapshot F
  capture_snapshot w = record {
    inbox = w.inbox;
    working_memory = w.working_memory;
    checkpoint_register = w.checkpoint_register;
    resource_meter = w.resource_meter;
    trail_sequence = w.trail_sequence;
    delivered_envelope_ids = w.delivered_envelope_ids;
  }

  unfoldable pub restore_from_snapshot :
      WorkspaceConfig F → MigrationSnapshot F → Status → WorkspaceState F
  restore_from_snapshot config snapshot restore_status = record {
    id = config.id;
    status = restore_status;
    role = config.role;
    base_role = config.base_role;
    parent = config.parent;
    owner = config.owner;
    originator = config.originator;
    delegate = config.delegate;
    directive = config.directive;
    inbox = snapshot.inbox;
    context = config.context;
    working_memory = snapshot.working_memory;
    checkpoint_register = snapshot.checkpoint_register;
    resource_meter = snapshot.resource_meter;
    trail_sequence = snapshot.trail_sequence;
    visibility_set = config.visibility;
    authority_set = config.authority;
    delivered_envelope_ids = snapshot.delivered_envelope_ids;
  }

  -- The `debug_assert!` on the status is a precondition of the callers.
  unfoldable pub archive : WorkspaceState F → ArchivedWorkspace
  archive w = record {
    id = w.id;
    terminal_state = w.status;
    role = w.role;
    parent = w.parent;
    owner = w.owner;
    originator = w.originator;
    directive = w.directive;
    context = w.context;
    checkpoints = w.checkpoint_register;
    final_usage = w.resource_meter.usage;
    visibility = w.visibility_set;
    authority = w.authority_set;
  }
