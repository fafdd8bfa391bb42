-- ===== src/Examples/Topologies.antt =====
-- A topology of four workspaces, one of which fails.
use wacp_platform.Prelude.{
  ℕ, ◌+◌, suc, true, Option, none, some, List, [], ◌∷◌, ◌≡◌, refl, ok, is_some, length, string_eq,
  get, insert, modify, push_entry,
}
use mathlib.Core.Option
use wacp_platform.Prelude.Decimal.{numbered}
use wacp_platform.Types.Enums.{WorkspaceState}
use wacp_platform.Types.Records.{WorkspaceId, UserId, Originator}
use wacp_platform.Coordinator.Tree.{
  WorkspaceTree, insert_node, update_status, children, reparent, parent_of,
}
use wacp_platform.Coordinator.Tree as Tree
use wacp_platform.Coordinator.Tree.Traversal.{
  visit, descendants, parent_chain, cascade_each, cascade_failure,
}
use wacp_platform.Coordinator.Tree.Cascade.{status_of}
use wacp_platform.Coordinator.PortRights as PortRights
use wacp_platform.Coordinator.PortRights.{validate_send}
use wacp_platform.Coordinator.Topology.{
  CreateWorkspaceParams, TopologySet, new, create_workspace, terminate_workspace,
}
use wacp_platform.Coordinator.Topology.Termination.{
  creates, terminates, step, Reachable, start, after_call, call_ends, traversals_end,
}
use wacp_platform.Coordinator.Topology.Wiring.{IsConnected, create_workspace-IsConnected}

abbrev workspace : WorkspaceId → WorkspaceId → UserId → CreateWorkspaceParams
workspace id parent owner = record {
  id = id;
  parent = parent;
  owner = owner;
  originator = Originator.system;
  status = WorkspaceState.active;
  task_id = none;
}

abbrev added : CreateWorkspaceParams → TopologySet → TopologySet
added params s = (create_workspace params s).0

-- Alice's workspace, Bob's below it, and one of Alice's below Bob's.
abbrev one : TopologySet
one = added (workspace "ws-1" "ws-0" "alice") (new "ws-0" "root")

abbrev two : TopologySet
two = added (workspace "ws-2" "ws-1" "bob") one

abbrev three : TopologySet
three = added (workspace "ws-3" "ws-2" "alice") two

reached : Reachable "ws-0" "root" three
unfolding step
reached =
    after_call 0 (creates (workspace "ws-3" "ws-2" "alice"))
      (after_call 0 (creates (workspace "ws-2" "ws-1" "bob"))
        (after_call 0 (creates (workspace "ws-1" "ws-0" "alice")) start refl) refl)
      refl

call_ends_example :
    (fuel : ℕ) × ((more : ℕ)
      → is_some (step (fuel + more) (terminates "ws-1" WorkspaceState.failed) three) ≡ true)
call_ends_example = call_ends (terminates "ws-1" WorkspaceState.failed) reached

traversals_end_example :
    (is_some (parent_chain (suc (length three.tree.nodes)) "ws-3" three.tree) ≡ true)
    × ((fuel : ℕ) × (desc : List WorkspaceId) × ((more : ℕ)
          → descendants (fuel + more) "ws-3" three.tree ≡ some desc))
traversals_end_example = traversals_end "ws-3" reached

placed : (create_workspace (workspace "ws-4" "ws-3" "carol") three).1 ≡ ok tt
unfolding create_workspace new insert_node get insert modify Tree.new
placed = refl

create_workspace-IsConnected_example :
    IsConnected (workspace "ws-4" "ws-3" "carol") (added (workspace "ws-4" "ws-3" "carol") three)
create_workspace-IsConnected_example =
    create_workspace-IsConnected (workspace "ws-4" "ws-3" "carol") reached placed

abbrev tree : WorkspaceTree
tree = three.tree

below_alice : descendants 4 "ws-1" tree ≡ some ("ws-2" ∷ "ws-3" ∷ [])
unfolding descendants visit children create_workspace new insert_node get insert modify Tree.new
below_alice = refl

abbrev cascaded : WorkspaceTree
cascaded =
    (cascade_each "alice" ("ws-2" ∷ "ws-3" ∷ [])
      (update_status "ws-1" WorkspaceState.failed tree)).0

cascades : cascade_failure 4 "ws-1" tree ≡ some (cascaded, "ws-2" ∷ [])
unfolding cascade_failure descendants visit children create_workspace new insert_node get insert
    modify Tree.new update_status cascade_each
cascades = refl

bob_moves : (parent_of "ws-2" cascaded.nodes ≡ some "ws-0") × (children "ws-1" cascaded ≡ [])
unfolding children create_workspace new insert_node get insert modify Tree.new update_status
    cascade_each reparent
bob_moves = (refl, refl)

-- Alice's second workspace is failed by the cascade, below Bob's, which has moved away from the one that
-- failed first: its rights are not expired.
abbrev failed : Option TopologySet
failed = Option.map (λ result. result.0) (terminate_workspace 6 "ws-1" WorkspaceState.failed three)

still_sends :
    (Option.map (λ s. status_of "ws-3" s.tree) failed ≡ some (some WorkspaceState.failed))
    × (Option.map (λ s. validate_send "ws-3" "ws-2" s.port_rights) failed ≡ some (ok "pr-8"))
unfolding terminate_workspace get modify create_workspace insert_node new Tree.new insert
    validate_send PortRights.expire_workspace PortRights.create push_entry numbered
still_sends = (refl, refl)
