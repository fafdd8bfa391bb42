-- ===== src/Coordinator/TaskGraph.antt =====
-- wacp/crates/wacp-coordinator/src/task_graph.rs: the graph of tasks. A method returns the graph
-- after the call, also where the call fails, and its result.
pub mod Counters
pub mod Completion
pub mod Edges
pub mod Bindings
use wacp_platform.Prelude.{
  ℕ, zero, suc, ◌+◌, ◌-◌, Bool, true, false, not, ◌&&◌, String, Option, none, some, get_or, List,
  [], ◌∷◌, ◌++◌, map, HashMap, get, insert, remove, modify, contains_key, is_some, push_entry,
  get_list, values, string_eq, nat_eq, ◌==◌, if◌then◌else◌, Result, ok, err, retain,
}
use wacp_platform.Types.Enums.{TaskStatus}
use wacp_platform.Types.Enums.TaskStatus.{pending}
use wacp_platform.Types.Records.{Task, TaskId, WorkspaceId}
use wacp_platform.Fsm.Machine.{TransitionError}
use wacp_platform.Fsm.Task.{TaskTrigger, task_transition, is_settled}

pub data GraphError : Type 0 where
  dependency_not_found duplicate_task task_not_found : String → GraphError
  transition_error : TransitionError → GraphError
  workspace_already_bound : WorkspaceId → GraphError
  task_already_bound : TaskId → GraphError

pub record TaskGraph : Type 0 where
  pub tasks : HashMap String Task
  pub remaining_deps : HashMap String ℕ  -- u32
  pub forward : HashMap String (List TaskId)
  pub task_workspace : HashMap String WorkspaceId
  pub workspace_task : HashMap String TaskId

abbrev pub new : TaskGraph
new = record {
  tasks = [];
  remaining_deps = [];
  forward = [];
  task_workspace = [];
  workspace_task = [];
}

-- The loop of `add_task` over the dependencies: it pushes a forward edge and counts the tasks that are
-- not terminal, and stops at a missing one with the edges pushed so far.
unfoldable pub add_deps : TaskId → List TaskId → TaskGraph → ℕ → TaskGraph × Result GraphError ℕ
add_deps id [] g remaining = (g, ok remaining)
add_deps id (dep ∷ deps) g remaining = elim (get dep g.tasks) [
  | none ↦ (g, err (dependency_not_found dep))
  | some dep_task ↦
      add_deps id deps (record g { forward = push_entry dep id g.forward })
        (if is_settled dep_task.status then remaining else remaining + 1)
]

-- The end of `add_task`, after the loop.
unfoldable pub store_task :
    Task → TaskGraph × Result GraphError ℕ → TaskGraph × Result GraphError (Unit {0})
store_task task (g, err e) = (g, err e)
store_task task (g, ok remaining) = (
  record g {
    remaining_deps = insert task.id remaining g.remaining_deps;
    tasks = insert task.id task g.tasks;
  },
  ok tt,
)

unfoldable pub add_task : Task → TaskGraph → TaskGraph × Result GraphError (Unit {0})
unfolding add_deps store_task
add_task task g =
    if contains_key task.id g.tasks
    then (g, err (duplicate_task task.id))
    else store_task task (add_deps task.id task.depends_on g 0)

abbrev pub set_status : TaskStatus → Task → Task
set_status status task = record task { status = status }

-- The result of the state machine, written back to the task.
unfoldable pub settle :
    TaskId
    → TaskGraph
    → Result TransitionError TaskStatus
    → TaskGraph × Result GraphError TaskStatus
settle id g (err e) = (g, err (transition_error e))
settle id g (ok status) = (record g { tasks = modify id (set_status status) g.tasks }, ok status)

unfoldable pub transition :
    TaskId → TaskTrigger → TaskGraph → TaskGraph × Result GraphError TaskStatus
unfolding settle
transition id trigger g = elim (get id g.tasks) [
  | none ↦ (g, err (task_not_found id))
  | some task ↦ settle id g (task_transition task.status trigger)
]

-- The loop of `mark_completed`. `-` stops at 0, as `saturating_sub` does.
unfoldable pub release_all : List TaskId → HashMap String ℕ → HashMap String ℕ × List TaskId
release_all [] remaining = (remaining, [])
release_all (dep_id ∷ dependents) remaining = elim (get dep_id remaining) [
  | none ↦ release_all dependents remaining
  | some count ↦
      let (rest, newly_ready) = release_all dependents (insert dep_id (count - 1) remaining) in
      (rest, if (count - 1) == 0 then dep_id ∷ newly_ready else newly_ready)
]

unfoldable pub mark_completed : TaskId → TaskGraph → TaskGraph × List TaskId
unfolding release_all
mark_completed id g =
    let (remaining, newly_ready) = release_all (get_list id g.forward) g.remaining_deps in
    (record g { remaining_deps = remaining }, newly_ready)

-- `mark_failed`, and `dependents`.
unfoldable pub mark_failed : TaskId → TaskGraph → List TaskId
mark_failed id g = get_list id g.forward

abbrev pub bind_task : WorkspaceId → Task → Task
bind_task workspace_id task = record task {
  workspace_ref = some workspace_id;
  workspace_history = task.workspace_history ++ workspace_id ∷ [];
}

unfoldable pub bind : TaskId → WorkspaceId → TaskGraph → TaskGraph × Result GraphError (Unit {0})
bind task_id workspace_id g = elim (get task_id g.tasks) [
  | none ↦ (g, err (task_not_found task_id))
  | some task ↦
      if is_some task.workspace_ref
      then (g, err (task_already_bound task_id))
      else if contains_key workspace_id g.workspace_task
      then (g, err (workspace_already_bound workspace_id))
      else (
        record g {
          tasks = modify task_id (bind_task workspace_id) g.tasks;
          task_workspace = insert task_id workspace_id g.task_workspace;
          workspace_task = insert workspace_id task_id g.workspace_task;
        },
        ok tt,
      )
]

abbrev pub clear_workspace : Task → Task
clear_workspace task = record task { workspace_ref = none }

-- The inner `if let` of `unbind`.
abbrev pub forget_workspace : Option WorkspaceId → HashMap String TaskId → HashMap String TaskId
forget_workspace none m = m
forget_workspace (some workspace) m = remove workspace m

unfoldable pub unbind : TaskId → TaskGraph → TaskGraph
unbind task_id g = elim (get task_id g.tasks) [
  | none ↦ g
  | some task ↦ record g {
    tasks = modify task_id clear_workspace g.tasks;
    workspace_task = forget_workspace task.workspace_ref g.workspace_task;
    task_workspace = remove task_id g.task_workspace;
  }
]

unfoldable pub task_for_workspace : WorkspaceId → TaskGraph → Option TaskId
task_for_workspace workspace_id g = get workspace_id g.workspace_task

abbrev pub is_pending : TaskStatus → Bool
is_pending pending = true
is_pending _ = false

-- The filter of `dispatchable`.
unfoldable pub is_dispatchable : TaskGraph → Task → Bool
is_dispatchable g t = is_pending t.status && get_or (get t.id g.remaining_deps) 0 == 0

-- `dispatchable`, and `ready_tasks`.
unfoldable pub dispatchable : TaskGraph → List TaskId
unfolding is_dispatchable
dispatchable g = map (λ t. t.id) (retain (is_dispatchable g) (values g.tasks))

unfoldable pub all_settled : List Task → Bool
all_settled [] = true
all_settled (t ∷ ts) = is_settled t.status && all_settled ts

unfoldable pub is_complete : TaskGraph → Bool
unfolding all_settled
is_complete g = all_settled (values g.tasks)

unfoldable pub roots : TaskGraph → List TaskId
roots g = map (λ t. t.id) (retain (λ t. not (is_some t.parent_task)) (values g.tasks))
