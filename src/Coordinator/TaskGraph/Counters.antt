-- ===== src/Coordinator/TaskGraph/Counters.antt =====
-- The readiness counters and forward edges of the task graph, and `add_task` (task_graph.rs).
use mathlib.Core.Option
use wacp_platform.Prelude.{
  ℕ, ◌+◌, Bool, true, not, String, Option, none, some, List, [], ◌∷◌, ◌++◌, HashMap, get,
  push_entry, get_list, string_eq, nat_eq, ◌==◌, if◌then◌else◌, Result, ok, err, ◌≡◌, refl, arith,
  sym, count, count_if, get-insert, get-push_entry, Option-cases, inl, inr,
}
use wacp_platform.Types.Records.{Task, TaskId}
use wacp_platform.Fsm.Task.{is_settled}
use wacp_platform.Coordinator.TaskGraph.{TaskGraph, GraphError, add_deps, store_task, add_task}

count-append :
    (id : TaskId) (old more : List TaskId) → count id old + count id more ≡ count id (old ++ more)
count-append id [] more = omega arith
count-append id (d ∷ old) more = omega (count-append id old more, arith)

-- The dependencies of a task, none if it is not in the graph.
abbrev pub task_deps : Option Task → List TaskId
task_deps none = []
task_deps (some t) = t.depends_on

abbrev pub deps_of : TaskGraph → TaskId → List TaskId
deps_of g id = task_deps (get id g.tasks)

-- How many of a task's dependencies are not in the set `done`.
abbrev pub open_deps : (TaskId → Bool) → Task → ℕ
open_deps done t = count_if (λ d. not (done d)) t.depends_on

-- With `done` the tasks whose completion was announced: every task of the graph, and no other, has a
-- counter, which is the number of its dependencies that are not done; and the forward edges are the
-- dependencies turned round, each as often.
pub record IsCounted (done : TaskId → Bool) (g : TaskGraph) : Type 0 where
  pub counted :
      (id : TaskId) → get id g.remaining_deps ≡ Option.map (open_deps done) (get id g.tasks)
  pub mirrored : (d id : TaskId) → count id (get_list d g.forward) ≡ count d (deps_of g id)

-- The edges that the loop pushes.
push_all : TaskId → List TaskId → HashMap String (List TaskId) → HashMap String (List TaskId)
push_all id [] m = m
push_all id (d ∷ ds) m = push_all id ds (push_entry d id m)

pub count-push_entry :
    (d e id j : TaskId) (m : HashMap String (List TaskId))
    → count j (get_list e (push_entry d id m))
      ≡ count j (get_list e m) + (if id == j then (if d == e then 1 else 0) else 0)
count-push_entry d e id j m =
    ground (
      arith,
      get-push_entry d e id m,
      string_eq.beq_iff d e,
      count-append j (get_list d m) (id ∷ []),
    )

count-push_all :
    (id : TaskId) (ds : List TaskId) (e j : TaskId) (m : HashMap String (List TaskId))
    → count j (get_list e (push_all id ds m))
      ≡ count j (get_list e m) + (if id == j then count e ds else 0)
unfolding push_all
count-push_all id [] e j m = ground arith
count-push_all id (d ∷ ds) e j m =
    ground (arith, count-push_all id ds e j (push_entry d id m), count-push_entry d e id j m)

-- A dependency that the loop counts.
abbrev pub open_task : Option Task → Bool
open_task none = true
open_task (some t) = not (is_settled t.status)

abbrev is_open : TaskGraph → TaskId → Bool
is_open g d = open_task (get d g.tasks)

-- What the loop has done when it succeeds.
add_deps-ok :
    (id : TaskId) (deps : List TaskId) (g : TaskGraph) (n : ℕ) (g' : TaskGraph) (m : ℕ)
    → add_deps id deps g n ≡ (g', ok m)
    → (g' ≡ record g { forward = push_all id deps g.forward }) × (m ≡ n + count_if (is_open g) deps)
unfolding add_deps push_all
add_deps-ok id [] g n g' m h = ground arith
add_deps-ok id (d ∷ ds) g n g' m h = elim (Option-cases (get d g.tasks)) [
  | inl e ↦ ground arith
  | inr (t, e) ↦
      let g₁ : TaskGraph = record g { forward = push_entry d id g.forward } in
      let n₁ : ℕ = (if is_settled t.status then n else n + 1) in
      let ih = add_deps-ok id ds g₁ n₁ g' m (rw (e, add_deps) at h) in (ih.0, ground (arith, ih.1))
]

count_if-ext :
    (p q : TaskId → Bool) (ds : List TaskId)
    → ((d : TaskId) → p d ≡ q d)
    → count_if p ds ≡ count_if q ds
count_if-ext p q [] h = refl
count_if-ext p q (d ∷ ds) h = ground (arith, h d, count_if-ext p q ds h)

-- `done` holds the terminal tasks of the graph and no other.
abbrev pub IsAnnounced : (TaskId → Bool) → TaskGraph → Type 0
IsAnnounced done g = (d : TaskId) → not (done d) ≡ open_task (get d g.tasks)

module _ (done : TaskId → Bool) (task : Task) (g : TaskGraph) (inv : IsCounted done g)
    (known : IsAnnounced done g) where
  stored-IsCounted :
      (g' : TaskGraph) (m : ℕ)
      → get task.id g.tasks ≡ none
      → add_deps task.id task.depends_on g 0 ≡ (g', ok m)
      → IsCounted done (store_task task (g', ok m)).0
  unfolding store_task
  stored-IsCounted g' m fresh h =
      let (eg, em) = add_deps-ok task.id task.depends_on g 0 g' m h in
      record {
        counted = λ id. ground (
          arith,
          get-insert task.id id m g'.remaining_deps,
          get-insert task.id id task g'.tasks,
          inv.counted id,
          count_if-ext (is_open g) (λ d. not (done d)) task.depends_on (λ d. sym (known d)),
        );
        mirrored = λ d id. ground (
          arith,
          get-insert task.id id task g'.tasks,
          count-push_all task.id task.depends_on d id g.forward,
          inv.mirrored d id,
          string_eq.beq_iff task.id id,
        );
      }

  added-IsCounted :
      (r : TaskGraph × Result GraphError ℕ)
      → get task.id g.tasks ≡ none
      → add_deps task.id task.depends_on g 0 ≡ r
      → (store_task task r).1 ≡ ok tt
      → IsCounted done (store_task task r).0
  unfolding store_task
  added-IsCounted (g', ok m) fresh q k = stored-IsCounted g' m fresh q
  added-IsCounted (g', err x) fresh q k = cc

  -- Where the counters are exact and the completions announced so far are those of just the
  -- terminal tasks, adding a task with success keeps the counters exact.
  pub add_task-IsCounted : (add_task task g).1 ≡ ok tt → IsCounted done (add_task task g).0
  unfolding add_task
  add_task-IsCounted h = elim (Option-cases (get task.id g.tasks)) [
    | inr (t, e) ↦ absurd (cc (rw (e, add_task) at h))
    | inl e ↦
        rw (e, add_task)
          (added-IsCounted (add_deps task.id task.depends_on g 0) e refl (rw (e, add_task) at h))
  ]
