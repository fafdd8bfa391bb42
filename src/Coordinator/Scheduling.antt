-- ===== src/Coordinator/Scheduling.antt =====
-- wacp/crates/wacp-coordinator/src/scheduling.rs: retries, contexts and cancellations over the task
-- graph.
pub mod Cancellation
use wacp_platform.Prelude.{
  ℕ, zero, suc, ◌%◌, ◌^◌, Bool, true, false, String, Option, none, some, List, [], ◌∷◌, ◌++◌, get,
  is_some, string_eq, nat_eq, ◌==◌, if◌then◌else◌, leb, length, Result, ok, err,
}
use wacp_platform.Types.Enums.{TaskStatus}
use wacp_platform.Types.Enums.TaskStatus.{draft, pending, completed, integrated}
use wacp_platform.Types.Records.{Task, TaskId, CheckpointId}
use wacp_platform.Fsm.Task.{cancel}
use wacp_platform.Coordinator.TaskGraph.{
  TaskGraph, GraphError, task_not_found, add_task, transition, mark_failed, unbind,
}

pub record DependencyOutput : Type 0 where
  pub task_id : TaskId
  pub task_name : String
  pub checkpoint_ref : CheckpointId

pub record RetryPolicy : Type 0 where
  pub max_attempts : ℕ  -- u32
  pub retry_on_timeout : Bool
  pub retry_on_budget : Bool
  pub retry_on_agent_failure : Bool

abbrev pub default_policy : RetryPolicy
default_policy = record {
  max_attempts = 1;
  retry_on_timeout = false;
  retry_on_budget = false;
  retry_on_agent_failure = true;
}

abbrev pub is_done : TaskStatus → Bool
is_done completed = true
is_done integrated = true
is_done _ = false

-- The body of the loop of `assemble_context`, for a dependency that is in the graph.
unfoldable pub output_of : TaskId → Task → List DependencyOutput → List DependencyOutput
output_of dep_id dep rest =
    if is_done dep.status
    then elim dep.checkpoint_ref [
      | none ↦ rest
      | some cp ↦ record { task_id = dep_id; task_name = dep.name; checkpoint_ref = cp } ∷ rest
    ]
    else rest

-- The loop. A `TaskContext` is the list that is its one field.
unfoldable pub outputs : TaskGraph → List TaskId → List DependencyOutput
unfolding output_of
outputs g [] = []
outputs g (dep_id ∷ deps) =
    let rest = outputs g deps in
    elim (get dep_id g.tasks) [ none ↦ rest | some dep ↦ output_of dep_id dep rest ]

unfoldable pub assemble_context : TaskGraph → TaskId → List DependencyOutput
unfolding outputs
assemble_context g task_id = elim (get task_id g.tasks) [
  | none ↦ []
  | some task ↦ outputs g task.depends_on
]

unfoldable pub should_retry : RetryPolicy → Task → String → Bool
should_retry policy task reason =
    if policy.max_attempts == 0
    then false
    else if leb policy.max_attempts (length task.workspace_history % 2 ^ 32)
    then false
    else if reason == "timeout"
    then policy.retry_on_timeout
    else if reason == "budget_exceeded"
    then policy.retry_on_budget
    else policy.retry_on_agent_failure

unfoldable pub prepare_retry : TaskGraph → TaskId → TaskGraph
prepare_retry g task_id = unbind task_id g

-- `Draft | Pending`.
abbrev pub is_waiting : TaskStatus → Bool
is_waiting draft = true
is_waiting pending = true
is_waiting _ = false

-- The loop of `cancel_task` over the dependents; `none` where a recursive call runs out of fuel.
unfoldable pub cancel_dependents :
    (TaskId → TaskGraph → Option (TaskGraph × List TaskId))
    → List TaskId
    → TaskGraph
    → List TaskId
    → Option (TaskGraph × List TaskId)
cancel_dependents cancel_one [] g cancelled_ids = some (g, cancelled_ids)
cancel_dependents cancel_one (dep_id ∷ deps) g cancelled_ids = elim (get dep_id g.tasks) [
  | none ↦ cancel_dependents cancel_one deps g cancelled_ids
  | some dep ↦ elim (is_waiting dep.status) [
    | false ↦ cancel_dependents cancel_one deps g cancelled_ids
    | true ↦ elim (cancel_one dep_id g) [
      | none ↦ none
      | some (g', sub) ↦ cancel_dependents cancel_one deps g' (cancelled_ids ++ sub)
    ]
  ]
]

-- The call of `transition` has been made: its graph and its result.
abbrev pub cascade :
    (TaskId → TaskGraph → Option (TaskGraph × List TaskId))
    → TaskId
    → TaskGraph × Result GraphError TaskStatus
    → Option (TaskGraph × List TaskId)
cascade cancel_one task_id (g, err e) = some (g, [])
cascade cancel_one task_id (g, ok status) =
    cancel_dependents cancel_one (mark_failed task_id g) g (task_id ∷ [])

-- On fuel: a call for each level of the recursion.
unfoldable pub cancel_task : ℕ → TaskId → TaskGraph → Option (TaskGraph × List TaskId)
unfolding cancel_dependents
cancel_task zero task_id g = none
cancel_task (suc fuel) task_id g = cascade (cancel_task fuel) task_id (transition task_id cancel g)

-- The loop of `add_subtasks`, with the `?` of each `add_task`.
abbrev pub with_parent : TaskId → Task → Task
with_parent parent_task_id task = record task { parent_task = some parent_task_id }

unfoldable pub add_each :
    TaskId → List Task → TaskGraph → List TaskId → TaskGraph × Result GraphError (List TaskId)
add_each parent_task_id [] g ids = (g, ok ids)
add_each parent_task_id (task ∷ subtasks) g ids =
    let (g', result) = add_task (with_parent parent_task_id task) g in
    elim result [
      | err e ↦ (g', err e)
      | ok _ ↦ add_each parent_task_id subtasks g' (ids ++ task.id ∷ [])
    ]

unfoldable pub add_subtasks :
    TaskGraph → TaskId → List Task → TaskGraph × Result GraphError (List TaskId)
unfolding add_each
add_subtasks g parent_task_id subtasks =
    if is_some (get parent_task_id g.tasks)
    then add_each parent_task_id subtasks g []
    else (g, err (task_not_found parent_task_id))
