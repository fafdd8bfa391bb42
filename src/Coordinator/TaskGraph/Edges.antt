-- ===== src/Coordinator/TaskGraph/Edges.antt =====
-- The forward edges after an `add_task` that fails (task_graph.rs).
use wacp_platform.Prelude.{
  ℕ, ◌+◌, ◌≤◌, true, none, List, [], ◌∷◌, get, push_entry, get_list, string_eq, ◌≡◌, arith, count,
  contains, all, false, Option-cases, inl, inr, Result, ok, err, if◌then◌else◌, beq_refl, is_some,
  ap, ◌==◌, Bool-cases,
}
use wacp_platform.Types.Records.{Task, TaskId}
use wacp_platform.Fsm.Task.{is_settled}
use wacp_platform.Coordinator.TaskGraph.{
  TaskGraph, GraphError, dependency_not_found, add_deps, store_task, add_task,
}
use wacp_platform.Coordinator.TaskGraph.Counters.{count-push_entry}

-- The loop only adds edges, and changes no task.
add_deps_grows :
    (id : TaskId) (deps : List TaskId) (g : TaskGraph) (n : ℕ) (d : TaskId)
    → (count id (get_list d g.forward) ≤ count id (get_list d (add_deps id deps g n).0.forward))
      × ((add_deps id deps g n).0.tasks ≡ g.tasks)
unfolding add_deps
add_deps_grows id [] g n d = ground arith
add_deps_grows id (x ∷ xs) g n d = elim (Option-cases (get x g.tasks)) [
  | inl e ↦ ground arith
  | inr (t, e) ↦
      let g₁ : TaskGraph = record g { forward = push_entry x id g.forward } in
      let n₁ : ℕ = (if is_settled t.status then n else n + 1) in
      ground (arith, add_deps_grows id xs g₁ n₁ d, count-push_entry x d id id g.forward)
]

store_task-err :
    (task : Task) (r : TaskGraph × Result GraphError ℕ) (x : GraphError)
    → r.1 ≡ err x
    → store_task task r ≡ (r.0, err x)
unfolding store_task
store_task-err task (g, ok m) x h = cc
store_task-err task (g, err e) x h = ground (arith, h)

-- The edge from the first dependency is pushed before any other dependency is looked up.
add_deps-first :
    (id d : TaskId) (ds : List TaskId) (g : TaskGraph) (n : ℕ)
    → is_some (get d g.tasks) ≡ true
    → count id (get_list d g.forward) + 1
      ≤ count id (get_list d (add_deps id (d ∷ ds) g n).0.forward)
unfolding add_deps
add_deps-first id d ds g n known = elim (Option-cases (get d g.tasks)) [
  | inl e ↦ ground arith
  | inr (t, e) ↦
      let g₁ : TaskGraph = record g { forward = push_entry d id g.forward } in
      let n₁ : ℕ = (if is_settled t.status then n else n + 1) in
      ground (
        arith,
        add_deps_grows id ds g₁ n₁ d,
        count-push_entry d d id id g.forward,
        beq_refl {K = TaskId} d,
        beq_refl {K = TaskId} id,
      )
]

-- The loop stops at the first dependency that is missing.
add_deps-missing :
    (id : TaskId) (deps : List TaskId) (g : TaskGraph) (n : ℕ)
    → all (λ x. is_some (get x g.tasks)) deps ≡ false
    → (x : TaskId) × (contains deps x ≡ true)
      × (get x g.tasks ≡ none)
      × ((add_deps id deps g n).1 ≡ err (dependency_not_found x))
unfolding add_deps
add_deps-missing id [] g n h = absurd (ground arith)
add_deps-missing id (dep ∷ deps) g n h = elim (Option-cases (get dep g.tasks)) [
  | inl e ↦ (dep, ground (arith, beq_refl {K = TaskId} dep), e, ground (arith, e))
  | inr (t, e) ↦
      let g₁ : TaskGraph = record g { forward = push_entry dep id g.forward } in
      let n₁ : ℕ = (if is_settled t.status then n else n + 1) in
      let (x, listed, absent, refused) = add_deps-missing id deps g₁ n₁ (ground (arith, e)) in
      (x, ground (arith, listed), absent, ground (arith, e, refused))
]

-- A new task whose first dependency exists and of whose other dependencies one is missing is refused for
-- a missing one and not stored, but the forward edge from its first dependency stays in the graph.
pub failed_add_leaves_edge :
    (task : Task) (g : TaskGraph) (d : TaskId) (ds : List TaskId)
    → task.depends_on ≡ d ∷ ds
    → get task.id g.tasks ≡ none
    → is_some (get d g.tasks) ≡ true
    → all (λ x. is_some (get x g.tasks)) ds ≡ false
    → ((x : TaskId) × (contains ds x ≡ true)
        × (get x g.tasks ≡ none)
        × ((add_task task g).1 ≡ err (dependency_not_found x)))
      × (get task.id (add_task task g).0.tasks ≡ none)
      × (count task.id (get_list d g.forward) + 1
          ≤ count task.id (get_list d (add_task task g).0.forward))
unfolding add_task
failed_add_leaves_edge task g d ds first fresh known missing =
    let r = add_deps task.id task.depends_on g 0 in
    let (x, listed, absent, refused) =
      add_deps-missing task.id (d ∷ ds) g 0 (ground (arith, known, missing)) in
    let refused' : r.1 ≡ err (dependency_not_found x) = rw first refused in
    let same = store_task-err task r (dependency_not_found x) refused' in
    let pushed : count task.id (get_list d g.forward) + 1 ≤ count task.id (get_list d r.0.forward) =
      rw first (add_deps-first task.id d ds g 0 known) in
    let other : contains ds x ≡ true = elim (Bool-cases (d == x)) [
      | inl e ↦
          let e' : d ≡ x = (string_eq.beq_iff d x).0 e in
          absurd (ground (arith, absent, known, ap (λ k. is_some (get k g.tasks)) e'))
      | inr e ↦ ground (arith, e, listed)
    ] in
    let done : add_task task g ≡ (r.0, err (dependency_not_found x)) = rw fresh same in
    (
      (x, other, absent, ap (λ z. z.1) done),
      rw done (ground (arith, (add_deps_grows task.id task.depends_on g 0 d).1, fresh)),
      rw done pushed,
    )
