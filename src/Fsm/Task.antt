-- ===== src/Fsm/Task.antt =====
-- wacp/crates/wacp-fsm/src/task.rs: the task lifecycle, 8 statuses.
pub mod Traces
pub mod Cancel
use wacp_platform.Prelude.{Bool, true, false, String, Result, ok, err, if◌then◌else◌}
use wacp_platform.Types.Enums.{TaskStatus}
use wacp_platform.Types.Enums.TaskStatus.{
  draft, pending, assigned, in_progress, completed, failed, integrated, cancelled,
}
use wacp_platform.Fsm.Machine.{illegal_transition, terminal_state, StateMachine}

pub data TaskTrigger : Type 0 where
  approve assign start complete fail integrate cancel : TaskTrigger

pub debug_state : TaskStatus → String
debug_state draft = "Draft"
debug_state pending = "Pending"
debug_state assigned = "Assigned"
debug_state in_progress = "InProgress"
debug_state completed = "Completed"
debug_state failed = "Failed"
debug_state integrated = "Integrated"
debug_state cancelled = "Cancelled"

pub debug_trigger : TaskTrigger → String
debug_trigger approve = "Approve"
debug_trigger assign = "Assign"
debug_trigger start = "Start"
debug_trigger complete = "Complete"
debug_trigger fail = "Fail"
debug_trigger integrate = "Integrate"
debug_trigger cancel = "Cancel"

-- `Integrated | Cancelled`, the terminal statuses.
unfoldable pub is_settled : TaskStatus → Bool
is_settled integrated = true
is_settled cancelled = true
is_settled _ = false

task_table : StateMachine TaskStatus TaskTrigger
task_table draft approve = ok pending
task_table draft cancel = ok cancelled
task_table pending assign = ok assigned
task_table pending cancel = ok cancelled
task_table assigned start = ok in_progress
task_table assigned cancel = ok cancelled
task_table in_progress complete = ok completed
task_table in_progress fail = ok failed
task_table in_progress cancel = ok cancelled
task_table completed integrate = ok integrated
task_table completed fail = ok failed
task_table failed assign = ok assigned
task_table state trigger = err (illegal_transition (debug_state state) (debug_trigger trigger))

unfoldable pub task_transition : StateMachine TaskStatus TaskTrigger
unfolding task_table is_settled
task_transition state trigger =
    if is_settled state then err (terminal_state (debug_state state)) else task_table state trigger
