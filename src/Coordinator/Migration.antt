-- ===== src/Coordinator/Migration.antt =====
-- wacp/crates/wacp-coordinator/src/migration.rs: the migrations that are in progress. `S` is the type of
-- the snapshots. The derived `Debug` of a workspace's state is a parameter of the events that print it.
pub mod Histories
use wacp_platform.Prelude.{
  ℕ, ◌-◌, Bool, true, false, String, Option, none, some, HashMap, get, insert, remove, modify,
  contains_key, values, retain, length, is_some, string_eq, List, [], map, if◌then◌else◌, leb,
  Result, ok, err,
}
use mathlib.Core.Option
use wacp_platform.Types.Enums.{WorkspaceState}
use wacp_platform.Types.Enums.WorkspaceState.{active, blocked}
use wacp_platform.Types.Records.{WorkspaceId, Bytes}

pub record AgentRef : Type 0 where
  pub agent_type : String
  pub config : Option Bytes

pub record MigrationRequest : Type 0 where
  pub workspace_id : WorkspaceId
  pub new_agent : AgentRef
  pub reason : String

pub record MigrationContext (S : Type 0) : Type 0 where
  pub workspace_id : WorkspaceId
  pub pre_migration_state : WorkspaceState
  pub old_agent : String
  pub new_agent : AgentRef
  pub reason : String
  pub snapshot : Option S
  pub started_at_ms : ℕ

pub data MigrationError : Type 0 where
  workspace_not_found already_migrating not_migrating snapshot_already_set : String → MigrationError
  invalid_state : WorkspaceState → MigrationError

pub record MigrationStartedEvent : Type 0 where
  pub workspace_id : WorkspaceId
  pub old_agent : String
  pub new_agent : String
  pub reason : String
  pub pre_migration_state : String

pub record MigrationCompletedEvent : Type 0 where
  pub workspace_id : WorkspaceId
  pub old_agent : String
  pub new_agent : String
  pub duration_ms : ℕ
  pub restored_state : String

pub record MigrationFailedEvent : Type 0 where
  pub workspace_id : WorkspaceId
  pub old_agent : String
  pub new_agent : String
  pub reason : String
  pub error : String
  pub failed_at_step : ℕ
  pub duration_ms : ℕ

pub record MigrationCoordinator (S : Type 0) : Type 0 where
  pub active : HashMap String (MigrationContext S)
  pub timeout_ms : ℕ

-- The states from which a migration may start.
abbrev pub is_movable : WorkspaceState → Bool
is_movable active = true
is_movable blocked = true
is_movable _ = false

module _ {S : Type 0} where
  abbrev pub new : ℕ → MigrationCoordinator S
  new timeout_ms = record { active = []; timeout_ms = timeout_ms }

  abbrev pub context_of : MigrationRequest → WorkspaceState → String → ℕ → MigrationContext S
  context_of request current_state old_agent now_ms = record {
    workspace_id = request.workspace_id;
    pre_migration_state = current_state;
    old_agent = old_agent;
    new_agent = request.new_agent;
    reason = request.reason;
    snapshot = none;
    started_at_ms = now_ms;
  }

  unfoldable pub start :
      MigrationRequest
      → WorkspaceState
      → String
      → ℕ
      → MigrationCoordinator S
      → MigrationCoordinator S × Result MigrationError (MigrationContext S)
  start request current_state old_agent now_ms m =
      let ctx = context_of request current_state old_agent now_ms in
      if is_movable current_state
      then if contains_key request.workspace_id m.active
        then (m, err (already_migrating request.workspace_id))
        else (record m { active = insert request.workspace_id ctx m.active }, ok ctx)
      else (m, err (invalid_state current_state))

  abbrev pub with_snapshot : S → MigrationContext S → MigrationContext S
  with_snapshot snapshot ctx = record ctx { snapshot = some snapshot }

  unfoldable pub set_snapshot :
      WorkspaceId
      → S
      → MigrationCoordinator S
      → MigrationCoordinator S × Result MigrationError (Unit {0})
  set_snapshot id snapshot m = elim (get id m.active) [
    | none ↦ (m, err (not_migrating id))
    | some ctx ↦
        if is_some ctx.snapshot
        then (m, err (snapshot_already_set id))
        else (record m { active = modify id (with_snapshot snapshot) m.active }, ok tt)
  ]

  -- `complete`, and `fail`, whose other arguments the source does not use.
  unfoldable pub complete :
      WorkspaceId
      → MigrationCoordinator S
      → MigrationCoordinator S × Result MigrationError (MigrationContext S)
  complete id m = elim (get id m.active) [
    | none ↦ (m, err (not_migrating id))
    | some ctx ↦ (record m { active = remove id m.active }, ok ctx)
  ]

  unfoldable pub fail :
      WorkspaceId
      → String
      → ℕ
      → MigrationCoordinator S
      → MigrationCoordinator S × Result MigrationError (MigrationContext S)
  fail id error step m = elim (get id m.active) [
    | none ↦ (m, err (not_migrating id))
    | some ctx ↦ (record m { active = remove id m.active }, ok ctx)
  ]

  abbrev pub has_timed_out : ℕ → ℕ → MigrationContext S → Bool
  has_timed_out timeout_ms now_ms ctx = leb timeout_ms (now_ms - ctx.started_at_ms)

  unfoldable pub check_timeouts : ℕ → MigrationCoordinator S → List WorkspaceId
  check_timeouts now_ms m =
      map (λ ctx. ctx.workspace_id) (retain (has_timed_out m.timeout_ms now_ms) (values m.active))

  unfoldable pub is_migrating : WorkspaceId → MigrationCoordinator S → Bool
  is_migrating id m = contains_key id m.active

  unfoldable pub active_count : MigrationCoordinator S → ℕ
  active_count m = length m.active

  unfoldable pub expected_agent : WorkspaceId → MigrationCoordinator S → Option AgentRef
  expected_agent id m = Option.map (λ ctx. ctx.new_agent) (get id m.active)

  unfoldable pub started_event :
      (WorkspaceState → String) → MigrationContext S → MigrationStartedEvent
  started_event debug ctx = record {
    workspace_id = ctx.workspace_id;
    old_agent = ctx.old_agent;
    new_agent = ctx.new_agent.agent_type;
    reason = ctx.reason;
    pre_migration_state = debug ctx.pre_migration_state;
  }

  unfoldable pub completed_event :
      (WorkspaceState → String) → MigrationContext S → ℕ → MigrationCompletedEvent
  completed_event debug ctx now_ms = record {
    workspace_id = ctx.workspace_id;
    old_agent = ctx.old_agent;
    new_agent = ctx.new_agent.agent_type;
    duration_ms = now_ms - ctx.started_at_ms;
    restored_state = debug ctx.pre_migration_state;
  }

  unfoldable pub failed_event : MigrationContext S → String → ℕ → ℕ → MigrationFailedEvent
  failed_event ctx error step now_ms = record {
    workspace_id = ctx.workspace_id;
    old_agent = ctx.old_agent;
    new_agent = ctx.new_agent.agent_type;
    reason = ctx.reason;
    error = error;
    failed_at_step = step;
    duration_ms = now_ms - ctx.started_at_ms;
  }
