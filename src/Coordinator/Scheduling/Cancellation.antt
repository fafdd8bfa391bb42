-- ===== src/Coordinator/Scheduling/Cancellation.antt =====
-- The cascade of `cancel_task` (scheduling.rs): its fuel and its effect.
use wacp_platform.Prelude.{
  ℕ, zero, suc, ◌+◌, ◌≤◌, ◌<◌, true, false, Option, none, some, List, [], ◌∷◌, ◌++◌, get, modify,
  values, contains, contains-append, count_if, string_eq, if◌then◌else◌, ◌≡◌, refl, arith,
  get-modify, Option-cases, Bool-cases, inl, inr, HashMap, ok, err,
}
use wacp_platform.Types.Enums.{TaskStatus}
use wacp_platform.Types.Enums.TaskStatus.{cancelled}
use wacp_platform.Types.Records.{Task, TaskId}
use wacp_platform.Fsm.Machine.{TransitionError}
use wacp_platform.Fsm.Task.{cancel, task_transition}
use wacp_platform.Fsm.Task.Cancel.{is_cancellable, cancel-cases}
use wacp_platform.Coordinator.TaskGraph.{
  TaskGraph, task_not_found, transition_error, transition, settle, set_status, mark_failed,
}
use wacp_platform.Coordinator.Scheduling.{is_waiting, cancel_dependents, cancel_task}

-- How many tasks can still be cancelled.
abbrev pub live : TaskGraph → ℕ
live g = count_if (λ t. is_cancellable t.status) (values g.tasks)

abbrev pub status_of : Option Task → Option TaskStatus
status_of none = none
status_of (some t) = some t.status

-- The cascade returned, left no more tasks to cancel than before, and changed the status of just the
-- tasks that it lists, to `Cancelled`.
abbrev pub Cancels : TaskGraph → Option (TaskGraph × List TaskId) → Type 0
Cancels g none = ⊥
Cancels g (some (g', ids)) =
    (live g' ≤ live g)
    × ((j : TaskId)
        → status_of (get j g'.tasks)
          ≡ (if contains ids j then some cancelled else status_of (get j g.tasks)))

live-modify :
    (id : TaskId) (t : Task) (m : HashMap TaskId Task)
    → get id m ≡ some t
    → is_cancellable t.status ≡ true
    → count_if (λ x. is_cancellable x.status) (values (modify id (set_status cancelled) m)) + 1
      ≡ count_if (λ x. is_cancellable x.status) (values m)
unfolding get modify
live-modify id t [] h c = ground arith
live-modify id t ((k, x) ∷ m) h c = ground (arith, live-modify id t m)

-- One cascade after another.
Cancels-append :
    (g₀ g g' : TaskGraph) (ids sub : List TaskId)
    → Cancels g₀ (some (g, ids))
    → Cancels g (some (g', sub))
    → Cancels g₀ (some (g', ids ++ sub))
Cancels-append g₀ g g' ids sub (le, st) (le', st') =
    (omega arith, λ j. ground (arith, st j, st' j, contains-append ids sub j))

module _ (f : TaskId → TaskGraph → Option (TaskGraph × List TaskId)) (d : TaskId) (ds : List TaskId)
    (g : TaskGraph) (ids : List TaskId) where
  absent_skipped :
      get d g.tasks ≡ none → cancel_dependents f (d ∷ ds) g ids ≡ cancel_dependents f ds g ids
  unfolding cancel_dependents
  absent_skipped e = ground arith

  busy_skipped :
      (dep : Task)
      → get d g.tasks ≡ some dep
      → is_waiting dep.status ≡ false
      → cancel_dependents f (d ∷ ds) g ids ≡ cancel_dependents f ds g ids
  unfolding cancel_dependents
  busy_skipped dep e w = ground arith

  waiting_cancelled :
      (dep : Task) (g' : TaskGraph) (sub : List TaskId)
      → get d g.tasks ≡ some dep
      → is_waiting dep.status ≡ true
      → f d g ≡ some (g', sub)
      → cancel_dependents f (d ∷ ds) g ids ≡ cancel_dependents f ds g' (ids ++ sub)
  unfolding cancel_dependents
  waiting_cancelled dep g' sub e w r = ground arith

module _ (n : ℕ) (ih : (id : TaskId) (g : TaskGraph) → live g < n → Cancels g (cancel_task n id g))
    (g₀ : TaskGraph) where
  none_left :
      (g : TaskGraph) (ids : List TaskId)
      → Cancels g₀ (some (g, ids))
      → Cancels g₀ (cancel_dependents (cancel_task n) [] g ids)
  unfolding cancel_dependents
  none_left g ids c = c

  cancel_dependents-Cancels :
      (ds : List TaskId) (g : TaskGraph) (ids : List TaskId)
      → live g < n
      → Cancels g₀ (some (g, ids))
      → Cancels g₀ (cancel_dependents (cancel_task n) ds g ids)
  cancel_dependents-Cancels [] g ids b c = none_left g ids c
  cancel_dependents-Cancels (d ∷ ds) g ids b c = elim (Option-cases (get d g.tasks)) [
    | inl e ↦
        rw (absent_skipped (cancel_task n) d ds g ids e) (cancel_dependents-Cancels ds g ids b c)
    | inr (dep, e) ↦ elim (Bool-cases (is_waiting dep.status)) [
      | inr w ↦
          rw (busy_skipped (cancel_task n) d ds g ids dep e w)
            (cancel_dependents-Cancels ds g ids b c)
      | inl w ↦ elim (Option-cases (cancel_task n d g)) [
        | inl r ↦ elim (rw r at (ih d g b)) [ ]
        | inr ((g', sub), r) ↦
            let more : Cancels g (some (g', sub)) = rw r at (ih d g b) in
            rw (waiting_cancelled (cancel_task n) d ds g ids dep g' sub e w r) (
              cancel_dependents-Cancels ds g' (ids ++ sub) (omega (arith, more.0))
                (Cancels-append g₀ g g' ids sub c more))
      ]
    ]
  ]

nothing-Cancels : (g : TaskGraph) → Cancels g (some (g, []))
nothing-Cancels g = (omega arith, λ j. refl)

one-Cancels :
    (id : TaskId) (t : Task) (g : TaskGraph)
    → get id g.tasks ≡ some t
    → is_cancellable t.status ≡ true
    → Cancels g (some (record g { tasks = modify id (set_status cancelled) g.tasks }, id ∷ []))
one-Cancels id t g e c = (
  omega (arith, live-modify id t g.tasks e c),
  λ j. ground (arith, get-modify id j (set_status cancelled) g.tasks, string_eq.beq_iff id j),
)

cancel-unknown :
    (id : TaskId) (g : TaskGraph)
    → get id g.tasks ≡ none
    → transition id cancel g ≡ (g, err (task_not_found id))
unfolding transition
cancel-unknown id g e = ground arith

cancel-refused :
    (id : TaskId) (g : TaskGraph) (t : Task) (x : TransitionError)
    → get id g.tasks ≡ some t
    → task_transition t.status cancel ≡ err x
    → transition id cancel g ≡ (g, err (transition_error x))
unfolding transition settle
cancel-refused id g t x e r = ground arith

cancel-accepted :
    (id : TaskId) (g : TaskGraph) (t : Task)
    → get id g.tasks ≡ some t
    → task_transition t.status cancel ≡ ok cancelled
    → transition id cancel g
      ≡ (record g { tasks = modify id (set_status cancelled) g.tasks }, ok cancelled)
unfolding transition settle
cancel-accepted id g t e r = ground arith

-- With more fuel than there are tasks that can be cancelled, a cancellation returns. It has then
-- turned the status of each task that it lists into `Cancelled` and changed the status of no other
-- task, whatever cycles the graph has.
pub cancel_task-Cancels :
    (fuel : ℕ) (id : TaskId) (g : TaskGraph) → live g < fuel → Cancels g (cancel_task fuel id g)
unfolding cancel_task
cancel_task-Cancels zero id g b = absurd (omega arith)
cancel_task-Cancels (suc n) id g b = elim (Option-cases (get id g.tasks)) [
  | inl e ↦ rw (cancel-unknown id g e) (nothing-Cancels g)
  | inr (t, e) ↦ elim (cancel-cases t.status) [
    | inr (x, r) ↦ rw (cancel-refused id g t x e r) (nothing-Cancels g)
    | inl (r, c) ↦
        let g₁ : TaskGraph = record g { tasks = modify id (set_status cancelled) g.tasks } in
        let fewer = live-modify id t g.tasks e c in
        rw (cancel-accepted id g t e r) (
          cancel_dependents-Cancels n (cancel_task-Cancels n) g (mark_failed id g₁) g₁ (id ∷ [])
            (omega (arith, fewer)) (one-Cancels id t g e c))
  ]
]
