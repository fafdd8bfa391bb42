-- ===== src/Coordinator/TaskGraph/Bindings.antt =====
-- The two maps between tasks and workspaces (`bind` and `unbind` of task_graph.rs).
use wacp_platform.Prelude.{
  Option, none, some, get, string_eq, ◌≡◌, arith, Option-cases, inl, inr, ◌↔◌, get-insert,
  get-remove, get-modify,
}
use wacp_platform.Types.Records.{Task, TaskId, WorkspaceId}
use wacp_platform.Coordinator.TaskGraph.{TaskGraph, bind, bind_task, unbind, clear_workspace}

abbrev pub workspace_of : Option Task → Option WorkspaceId
workspace_of none = none
workspace_of (some t) = t.workspace_ref

pub record IsPaired (g : TaskGraph) : Type 0 where
  pub inverse :
      (t : TaskId) (w : WorkspaceId)
      → (get t g.task_workspace ≡ some w) ↔ (get w g.workspace_task ≡ some t)
  pub referenced : (t : TaskId) → workspace_of (get t g.tasks) ≡ get t g.task_workspace

module _ (task_id : TaskId) (workspace_id : WorkspaceId) (g : TaskGraph) (inv : IsPaired g) where
  -- Where the maps are inverse and agree with the tasks, they are and do so after `bind`, on
  -- every branch.
  pub bind-IsPaired : IsPaired (bind task_id workspace_id g).0
  unfolding bind
  bind-IsPaired = record {
    inverse = λ t w. ground (
      arith,
      inv.inverse t w,
      inv.referenced t,
      get-insert task_id t workspace_id g.task_workspace,
      get-insert workspace_id w task_id g.workspace_task,
      string_eq.beq_iff task_id t,
      string_eq.beq_iff workspace_id w,
    );
    referenced = λ t. ground (
      arith,
      inv.referenced t,
      get-insert task_id t workspace_id g.task_workspace,
      get-modify task_id t (bind_task workspace_id) g.tasks,
      string_eq.beq_iff task_id t,
    );
  }

module _ (task_id : TaskId) (g : TaskGraph) (inv : IsPaired g) where
  unbound-inverse :
      (t : TaskId) (w : WorkspaceId)
      → (get t (unbind task_id g).task_workspace ≡ some w)
        ↔ (get w (unbind task_id g).workspace_task ≡ some t)
  unfolding unbind
  unbound-inverse t w = elim (Option-cases (get task_id g.tasks)) [
    | inl e ↦ rw (e, unbind) (inv.inverse t w)
    | inr (task, e) ↦ elim (Option-cases task.workspace_ref) [
      | inl f ↦ ground (
        arith,
        inv.inverse t w,
        inv.referenced task_id,
        get-remove task_id t g.task_workspace,
        string_eq.beq_iff task_id t,
      )
      | inr (v, f) ↦ ground (
        arith,
        inv.inverse t w,
        inv.inverse task_id v,
        inv.referenced task_id,
        get-remove task_id t g.task_workspace,
        get-remove v w g.workspace_task,
        string_eq.beq_iff task_id t,
        string_eq.beq_iff v w,
      )
    ]
  ]

  -- Where the maps are inverse and agree with the tasks, they are and do so after `unbind`, for
  -- a task that is bound, unbound or unknown.
  pub unbind-IsPaired : IsPaired (unbind task_id g)
  unfolding unbind
  unbind-IsPaired = record {
    inverse = unbound-inverse;
    referenced = λ t. ground (
      arith,
      inv.referenced t,
      get-remove task_id t g.task_workspace,
      get-modify task_id t clear_workspace g.tasks,
      string_eq.beq_iff task_id t,
    );
  }
