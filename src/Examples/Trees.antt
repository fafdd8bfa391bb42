-- ===== src/Examples/Trees.antt =====
-- A workspace tree at concrete calls.
use wacp_platform.Prelude.{none, some, List, [], ◌∷◌, ◌≡◌, refl, get, insert, modify, push_entry}
use wacp_platform.Types.Enums.{WorkspaceState, is_terminal}
use wacp_platform.Types.Records.{WorkspaceId, Originator}
use wacp_platform.Coordinator.Tree.{
  WorkspaceNode, update_status, reparent, transfer_owner, insert_node, new, by_owner, causal_impact,
}
use wacp_platform.Coordinator.Tree.Indices.{
  IsIndexed, Call, inserts, transfers, reparents, updates, step, run, indices_exact,
}

abbrev node : WorkspaceId → WorkspaceId → WorkspaceNode
node id parent = record {
  id = id;
  parent = some parent;
  children = [];
  owner = "alice";
  originator = Originator.user "alice";
  status = WorkspaceState.idle;
  task_id = none;
}

-- The second insertion has an unknown parent.
abbrev calls : List Call
calls =
    inserts (node "ws-1" "ws-0")
    ∷ inserts (node "ws-2" "ws-9")
    ∷ inserts (node "ws-3" "ws-1")
    ∷ transfers "ws-3" "bob"
    ∷ reparents "ws-3" "ws-0"
    ∷ updates "ws-3" WorkspaceState.failed
    ∷ []

indices_exact_example : IsIndexed (run calls (new "ws-0" "root"))
indices_exact_example = indices_exact "ws-0" "root" calls

bob_owns : by_owner "bob" (run calls (new "ws-0" "root")) ≡ "ws-3" ∷ []
unfolding by_owner get run step update_status reparent transfer_owner insert_node new modify insert
    push_entry
bob_owns = refl

alice_live : causal_impact "alice" (run calls (new "ws-0" "root")) ≡ "ws-1" ∷ []
unfolding causal_impact get run step update_status reparent transfer_owner insert_node new modify
    insert push_entry is_terminal
alice_live = refl
