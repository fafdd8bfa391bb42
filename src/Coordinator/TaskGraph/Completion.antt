-- ===== src/Coordinator/TaskGraph/Completion.antt =====
-- The readiness counters under `mark_completed` (task_graph.rs).
use mathlib.Core.Option
use wacp_platform.Prelude.{
  ℕ, ◌+◌, ◌-◌, Bool, false, not, ◌&&◌, ◌||◌, String, Option, none, some, List, [], ◌∷◌, HashMap,
  get, insert, get_list, string_eq, nat_eq, ◌==◌, ltb, ◌≡◌, refl, arith, ap, count, count_if,
  contains, get-insert, Option-cases, Bool-cases, inl, inr,
}
use wacp_platform.Types.Records.{TaskId}
use wacp_platform.Coordinator.TaskGraph.{TaskGraph, release_all, mark_completed}
use wacp_platform.Coordinator.TaskGraph.Counters.{IsCounted, open_deps, deps_of}

-- What the loop leaves as the counter of `j`: it takes away 1 for each time that `j` stands in the list.
get-release_all :
    (ds : List TaskId) (remaining : HashMap String ℕ) (j : TaskId)
    → get j (release_all ds remaining).0 ≡ Option.map (λ c. c - count j ds) (get j remaining)
unfolding release_all
get-release_all [] remaining j = ground arith
get-release_all (d ∷ ds) remaining j = elim (Option-cases (get d remaining)) [
  | inl e ↦ ground (arith, get-release_all ds remaining j, string_eq.beq_iff d j)
  | inr (c, e) ↦ ground (
    arith,
    get-release_all ds (insert d (c - 1) remaining) j,
    get-insert d j (c - 1) remaining,
    string_eq.beq_iff d j,
  )
]

abbrev pub is_zero : Option ℕ → Bool
is_zero none = false
is_zero (some n) = n == 0

count-not_contains : (j : TaskId) (ds : List TaskId) → contains ds j ≡ false → count j ds ≡ 0
count-not_contains j [] h = refl
count-not_contains j (d ∷ ds) h = ground (arith, count-not_contains j ds)

contains-count : (ds : List TaskId) (j : TaskId) → contains ds j ≡ ltb 0 (count j ds)
contains-count [] j = refl
contains-count (d ∷ ds) j = ground (arith, contains-count ds j)

-- The loop returns `j` exactly if `j` is in the list and its counter ends at 0.
contains-release_all :
    (ds : List TaskId) (remaining : HashMap String ℕ) (j : TaskId)
    → contains (release_all ds remaining).1 j
      ≡ (contains ds j && is_zero (get j (release_all ds remaining).0))
unfolding release_all
contains-release_all [] remaining j = refl
contains-release_all (d ∷ ds) remaining j = elim (Option-cases (get d remaining)) [
  | inl e ↦ ground (
    arith,
    contains-release_all ds remaining j,
    get-release_all ds remaining j,
    string_eq.beq_iff d j,
  )
  | inr (c, e) ↦ ground (
    arith,
    contains-release_all ds (insert d (c - 1) remaining) j,
    get-release_all ds (insert d (c - 1) remaining) j,
    get-insert d j (c - 1) remaining,
    string_eq.beq_iff d j,
    count-not_contains j ds,
  )
]

-- The set of announced completions with one more.
abbrev pub announce : TaskId → (TaskId → Bool) → TaskId → Bool
announce id done d = done d || d == id

-- One completion more leaves that many dependencies fewer.
open_deps-announce :
    (done : TaskId → Bool) (id : TaskId) (ds : List TaskId)
    → done id ≡ false
    → count_if (λ d. not (announce id done d)) ds + count id ds ≡ count_if (λ d. not (done d)) ds
open_deps-announce done id [] h = omega arith
open_deps-announce done id (d ∷ ds) h = elim (Bool-cases (d == id)) [
  | inl same ↦
      let e : d ≡ id = (string_eq.beq_iff d id).0 same in
      ground (arith, open_deps-announce done id ds h, ap done e)
  | inr other ↦ ground (arith, open_deps-announce done id ds h)
]

module _ (done : TaskId → Bool) (id : TaskId) (g : TaskGraph) (inv : IsCounted done g)
    (new : done id ≡ false) where
  counter-mark_completed :
      (j : TaskId)
      → get j (mark_completed id g).0.remaining_deps
        ≡ Option.map (open_deps (announce id done)) (get j g.tasks)
  unfolding mark_completed
  counter-mark_completed j = elim (Option-cases (get j g.tasks)) [
    | inl e ↦
        ground (arith, get-release_all (get_list id g.forward) g.remaining_deps j, inv.counted j)
    | inr (t, e) ↦ ground (
      arith,
      get-release_all (get_list id g.forward) g.remaining_deps j,
      inv.counted j,
      inv.mirrored id j,
      open_deps-announce done id t.depends_on new,
    )
  ]

  -- The tasks that wait for `id` and for no task that is not done.
  abbrev pub becomes_ready : TaskId → Bool
  becomes_ready j =
      contains (deps_of g j) id
      && is_zero (Option.map (open_deps (announce id done)) (get j g.tasks))

  -- Where the counters are exact for the completions announced so far, announcing one that is
  -- not among them keeps the counters exact, with that completion added, and returns exactly the
  -- tasks that depend on the completed one and on nothing that is not done.
  pub mark_completed-IsCounted :
      (j : TaskId)
      → IsCounted (announce id done) (mark_completed id g).0
        × (contains (mark_completed id g).1 j ≡ becomes_ready j)
  unfolding mark_completed
  mark_completed-IsCounted j = (
    record { counted = counter-mark_completed; mirrored = inv.mirrored },
    ground (
      arith,
      contains-release_all (get_list id g.forward) g.remaining_deps j,
      counter-mark_completed j,
      inv.mirrored id j,
      contains-count (get_list id g.forward) j,
      contains-count (deps_of g j) id,
    ),
  )
