-- ===== src/Examples/Graphs.antt =====
-- The task graph and the gates at concrete calls.
use wacp_platform.Prelude.{
  ◌+◌, ◌≤◌, ◌<◌, Bool, true, false, none, some, List, [], ◌∷◌, ◌≡◌, refl, arith, all, contains,
  count, get, get_list, insert, push_entry, string_eq, is_some, ok, err,
}
use wacp_platform.Types.Enums.{TaskStatus, GateDecision}
use wacp_platform.Types.Records.{Task, TaskId}
use wacp_platform.Fsm.Task.{is_settled}
use wacp_platform.Coordinator.TaskGraph.{
  TaskGraph, new, add_task, mark_completed, bind, dependency_not_found,
}
use wacp_platform.Coordinator.TaskGraph.Counters.{IsCounted, IsAnnounced, add_task-IsCounted}
use wacp_platform.Coordinator.TaskGraph.Completion.{
  announce, becomes_ready, mark_completed-IsCounted,
}
use wacp_platform.Coordinator.TaskGraph.Edges.{failed_add_leaves_edge}
use wacp_platform.Coordinator.TaskGraph.Bindings.{IsPaired}
use wacp_platform.Coordinator.Scheduling.{cancel_task}
use wacp_platform.Coordinator.Scheduling.Cancellation.{live, Cancels, cancel_task-Cancels}
use wacp_platform.Coordinator.Gate.{GateController, GateFallback, is_pending, gate_name, open_gate}
use wacp_platform.Coordinator.Gate as Gate
use wacp_platform.Coordinator.Gate.Responses.{
  Call, opens, respond, answer, OpensFresh, open_gate-OpensFresh, answered_once,
}
use wacp_platform.Coordinator.Gate.Responses as Responses

abbrev task : TaskId → List TaskId → Task
task id deps = record {
  id = id;
  name = id;
  description = "";
  depends_on = deps;
  parent_task = none;
  status = TaskStatus.pending;
  workspace_ref = none;
  workspace_history = [];
  checkpoint_ref = none;
}

abbrev nothing_done : TaskId → Bool
nothing_done id = false

new-IsCounted : IsCounted nothing_done new
unfolding get
new-IsCounted = record { counted = λ id. refl; mirrored = λ d id. refl }

new-IsPaired : IsPaired new
unfolding get
new-IsPaired = record { inverse = λ t w. ground arith; referenced = λ t. refl }

abbrev with_a : TaskGraph
with_a = (add_task (task "a" []) new).0

abbrev with_b : TaskGraph
with_b = (add_task (task "b" ("a" ∷ [])) with_a).0

new-IsAnnounced : IsAnnounced nothing_done new
unfolding get
new-IsAnnounced d = refl

a_added : (add_task (task "a" []) new).1 ≡ ok tt
unfolding add_task get
a_added = refl

with_a-IsCounted : IsCounted nothing_done with_a
with_a-IsCounted =
    add_task-IsCounted nothing_done (task "a" []) new new-IsCounted new-IsAnnounced a_added

with_a-IsAnnounced : IsAnnounced nothing_done with_a
unfolding add_task get insert is_settled
with_a-IsAnnounced d = ground arith

b_added : (add_task (task "b" ("a" ∷ [])) with_a).1 ≡ ok tt
unfolding add_task get insert
b_added = refl

add_task-IsCounted_example : IsCounted nothing_done with_b
add_task-IsCounted_example =
    add_task-IsCounted nothing_done (task "b" ("a" ∷ [])) with_a with_a-IsCounted with_a-IsAnnounced
      b_added

with_b-IsCounted : IsCounted nothing_done with_b
with_b-IsCounted =
    add_task-IsCounted nothing_done (task "b" ("a" ∷ [])) with_a with_a-IsCounted with_a-IsAnnounced
      b_added

b_ready : (mark_completed "a" with_b).1 ≡ "b" ∷ []
unfolding mark_completed add_task get insert push_entry is_settled
b_ready = refl

mark_completed-IsCounted_example :
    IsCounted (announce "a" nothing_done) (mark_completed "a" with_b).0
    × (contains (mark_completed "a" with_b).1 "b"
        ≡ becomes_ready nothing_done "a" with_b with_b-IsCounted refl "b")
mark_completed-IsCounted_example =
    mark_completed-IsCounted nothing_done "a" with_b with_b-IsCounted refl "b"

with_b-live : live with_b < 3
unfolding add_task get insert push_entry is_settled
with_b-live = omega arith

cancel_task-Cancels_example : Cancels with_b (cancel_task 3 "a" with_b)
cancel_task-Cancels_example = cancel_task-Cancels 3 "a" with_b with_b-live

-- "c" waits for "a", which is there, and for "x", which is not.
abbrev hasty : Task
hasty = task "c" ("a" ∷ "x" ∷ [])

hasty_refused : (add_task hasty with_a).1 ≡ err (dependency_not_found "x")
unfolding add_task get insert push_entry is_settled
hasty_refused = refl

hasty_fresh : get "c" with_a.tasks ≡ none
unfolding add_task get insert
hasty_fresh = refl

a_known : is_some (get "a" with_a.tasks) ≡ true
unfolding add_task get insert
a_known = refl

x_missing : all (λ x. is_some (get x with_a.tasks)) ("x" ∷ []) ≡ false
unfolding add_task get insert
x_missing = refl

failed_add_leaves_edge_example :
    ((x : TaskId) × (contains {A = TaskId} ("x" ∷ []) x ≡ true)
      × (get x with_a.tasks ≡ none)
      × ((add_task hasty with_a).1 ≡ err (dependency_not_found x)))
    × (get "c" (add_task hasty with_a).0.tasks ≡ none)
    × (count "c" (get_list "a" with_a.forward) + 1
        ≤ count "c" (get_list "a" (add_task hasty with_a).0.forward))
failed_add_leaves_edge_example =
    failed_add_leaves_edge hasty with_a "a" ("x" ∷ []) refl hasty_fresh a_known x_missing

-- Added again when "x" and "y" are there, "c" is announced as ready by "a" and "x", though "y" is open:
-- "a" is counted twice.
abbrev retried : TaskGraph
retried =
    (add_task (task "c" ("a" ∷ "x" ∷ "y" ∷ []))
      (add_task (task "y" []) (add_task (task "x" []) (add_task hasty with_a).0).0).0).0

ready_too_early : (mark_completed "x" (mark_completed "a" retried).0).1 ≡ "c" ∷ []
unfolding mark_completed add_task get insert push_entry is_settled
ready_too_early = refl

bound_both_ways : get "ws-1" (bind "a" "ws-1" with_b).0.workspace_task ≡ some "a"
unfolding bind add_task get insert is_settled push_entry
bound_both_ways = refl

-- Two gates.
abbrev calls : List Call
calls = opens "a" "A" "" none none ∷ opens "b" "B" "" none none ∷ []

abbrev gates : GateController
gates = Responses.run calls (Gate.new 1000 GateFallback.cancel)

gates_next : 1 < gates.next_id
unfolding Responses.run Responses.step open_gate Gate.new
gates_next = omega arith

answered_once_example :
    ((respond (some GateDecision.approve) (gate_name 1) gates).1
      ≡ answer (some GateDecision.approve) (get (gate_name 1) gates.pending))
    × (is_pending
          (gate_name 1)
          (Responses.run calls (respond (some GateDecision.approve) (gate_name 1) gates).0)
        ≡ false)
    × ((respond none
          (gate_name 1)
          (Responses.run calls (respond (some GateDecision.approve) (gate_name 1) gates).0)).1
        ≡ none)
answered_once_example = answered_once (some GateDecision.approve) none 1 calls gates gates_next
