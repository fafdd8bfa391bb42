-- ===== src/Fsm/Workspace.antt =====
-- wacp/crates/wacp-fsm/src/workspace.rs: the workspace lifecycle, 9 states and 21 triggers.
pub mod Diagram
pub mod Histories
use wacp_platform.Prelude.{String, Result, ok, err, if◌then◌else◌}
use wacp_platform.Types.Enums.{WorkspaceState, is_terminal}
use wacp_platform.Types.Enums.WorkspaceState.{
  idle, active, blocked, suspended, migrating, integrating, conflicted, closed, failed,
}
use wacp_platform.Fsm.Machine.{TransitionError, illegal_transition, terminal_state, StateMachine}

pub data WorkspaceTrigger : Type 0 where
  agent_ready agent_started agent_blocked agent_complete agent_failed : WorkspaceTrigger
  receive_first_envelope coordinator_abort coordinator_suspend : WorkspaceTrigger
  coordinator_resume coordinator_migrate : WorkspaceTrigger
  migration_succeeded migration_succeeded_blocked migration_failed : WorkspaceTrigger
  integration_succeeded integration_failed conflict_detected : WorkspaceTrigger
  conflict_resolved conflict_unresolvable : WorkspaceTrigger
  timeout_exceeded budget_exceeded creation_error : WorkspaceTrigger

-- The derived `Debug` names.
pub debug_state : WorkspaceState → String
debug_state idle = "Idle"
debug_state active = "Active"
debug_state blocked = "Blocked"
debug_state suspended = "Suspended"
debug_state migrating = "Migrating"
debug_state integrating = "Integrating"
debug_state conflicted = "Conflicted"
debug_state closed = "Closed"
debug_state failed = "Failed"

pub debug_trigger : WorkspaceTrigger → String
debug_trigger agent_ready = "AgentReady"
debug_trigger agent_started = "AgentStarted"
debug_trigger agent_blocked = "AgentBlocked"
debug_trigger agent_complete = "AgentComplete"
debug_trigger agent_failed = "AgentFailed"
debug_trigger receive_first_envelope = "ReceiveFirstEnvelope"
debug_trigger coordinator_abort = "CoordinatorAbort"
debug_trigger coordinator_suspend = "CoordinatorSuspend"
debug_trigger coordinator_resume = "CoordinatorResume"
debug_trigger coordinator_migrate = "CoordinatorMigrate"
debug_trigger migration_succeeded = "MigrationSucceeded"
debug_trigger migration_succeeded_blocked = "MigrationSucceededBlocked"
debug_trigger migration_failed = "MigrationFailed"
debug_trigger integration_succeeded = "IntegrationSucceeded"
debug_trigger integration_failed = "IntegrationFailed"
debug_trigger conflict_detected = "ConflictDetected"
debug_trigger conflict_resolved = "ConflictResolved"
debug_trigger conflict_unresolvable = "ConflictUnresolvable"
debug_trigger timeout_exceeded = "TimeoutExceeded"
debug_trigger budget_exceeded = "BudgetExceeded"
debug_trigger creation_error = "CreationError"

-- The `match` of `transition`; the last clause is its catch-all arm.
unfoldable pub workspace_table : StateMachine WorkspaceState WorkspaceTrigger
workspace_table idle receive_first_envelope = ok active
workspace_table idle creation_error = ok failed
workspace_table idle timeout_exceeded = ok failed
workspace_table idle coordinator_abort = ok failed
workspace_table idle budget_exceeded = ok failed
workspace_table active agent_blocked = ok blocked
workspace_table active coordinator_migrate = ok migrating
workspace_table active coordinator_suspend = ok suspended
workspace_table active agent_complete = ok integrating
workspace_table active agent_failed = ok failed
workspace_table active coordinator_abort = ok failed
workspace_table active timeout_exceeded = ok failed
workspace_table active budget_exceeded = ok failed
workspace_table blocked agent_started = ok active
workspace_table blocked coordinator_migrate = ok migrating
workspace_table blocked coordinator_suspend = ok suspended
workspace_table blocked coordinator_abort = ok failed
workspace_table blocked timeout_exceeded = ok failed
workspace_table blocked budget_exceeded = ok failed
workspace_table migrating migration_succeeded = ok active
workspace_table migrating migration_succeeded_blocked = ok blocked
workspace_table migrating migration_failed = ok failed
workspace_table migrating coordinator_abort = ok failed
workspace_table suspended coordinator_resume = ok active
workspace_table suspended coordinator_abort = ok failed
workspace_table integrating integration_succeeded = ok closed
workspace_table integrating conflict_detected = ok conflicted
workspace_table integrating integration_failed = ok failed
workspace_table conflicted conflict_resolved = ok closed
workspace_table conflicted conflict_unresolvable = ok failed
workspace_table state trigger = err (illegal_transition (debug_state state) (debug_trigger trigger))

unfoldable pub workspace_transition : StateMachine WorkspaceState WorkspaceTrigger
unfolding workspace_table is_terminal
workspace_transition state trigger =
    if is_terminal state
    then err (terminal_state (debug_state state))
    else workspace_table state trigger
