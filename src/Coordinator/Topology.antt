-- ===== src/Coordinator/Topology.antt =====
-- wacp/crates/wacp-coordinator/src/topology.rs: the tree, the visibility graph, the escalation router and
-- the port rights together, and the operations that span them. Fuel is that of the tree's traversals.
pub mod Termination
pub mod Wiring
pub mod Rooted
pub mod Failures
use wacp_platform.Prelude.{
  ℕ, zero, suc, ◌+◌, ◌-◌, Bool, Option, none, some, List, [], ◌∷◌, ◌++◌, if◌then◌else◌, Result, ok,
  err, get, string_eq,
}
use mathlib.Core.Option
use wacp_platform.Types.Enums.{WorkspaceState, PortRightType}
use wacp_platform.Types.Records.{WorkspaceId, UserId, TaskId, Originator}
use wacp_platform.Coordinator.Tree.{
  TreeError, WorkspaceNode, WorkspaceTree, insert_node, transfer_owner, update_status,
}
use wacp_platform.Coordinator.Tree as Tree
use wacp_platform.Coordinator.Tree.Traversal.{descendants, cascade_failure}
use wacp_platform.Coordinator.Visibility.{VisibilityGraph, grant}
use wacp_platform.Coordinator.Visibility as Visibility
use wacp_platform.Coordinator.Ownership.{EscalationRouter, update}
use wacp_platform.Coordinator.Ownership as Ownership
use wacp_platform.Coordinator.PortRights.{PortRightsGraph, create, expire_workspace, active_count}
use wacp_platform.Coordinator.PortRights as PortRights

pub record CreateWorkspaceParams : Type 0 where
  pub id : WorkspaceId
  pub parent : WorkspaceId
  pub owner : UserId
  pub originator : Originator
  pub status : WorkspaceState
  pub task_id : Option TaskId

pub record CascadeEffect : Type 0 where
  pub failed : List WorkspaceId
  pub reparented : List WorkspaceId
  pub rights_expired : ℕ

pub record TopologySet : Type 0 where
  pub tree : WorkspaceTree
  pub visibility : VisibilityGraph
  pub escalation : EscalationRouter
  pub port_rights : PortRightsGraph

unfoldable pub new : WorkspaceId → UserId → TopologySet
new root_id root_owner = record {
  tree = Tree.new root_id root_owner;
  visibility = Visibility.register root_id Visibility.new;
  escalation = Ownership.register root_id root_owner Ownership.new;
  port_rights = PortRights.new;
}

abbrev pub node_of : CreateWorkspaceParams → WorkspaceNode
node_of params = record {
  id = params.id;
  parent = some params.parent;
  children = [];
  owner = params.owner;
  originator = params.originator;
  status = params.status;
  task_id = params.task_id;
}

-- The three rights of a new workspace.
abbrev pub create_rights : WorkspaceId → WorkspaceId → PortRightsGraph → PortRightsGraph
create_rights id parent g =
    (create id id PortRightType.receive
      (create id parent PortRightType.send (create parent id PortRightType.send g).0).0).0

-- What follows the insertion into the tree.
abbrev pub connect : CreateWorkspaceParams → WorkspaceTree → TopologySet → TopologySet
connect params tree s = record {
  tree = tree;
  visibility = (grant tree.root params.id (Visibility.register params.id s.visibility)).0;
  escalation = Ownership.register params.id params.owner s.escalation;
  port_rights = create_rights params.id params.parent s.port_rights;
}

unfoldable pub create_workspace :
    CreateWorkspaceParams → TopologySet → TopologySet × Result TreeError (Unit {0})
create_workspace params s =
    let inserted = insert_node (node_of params) s.tree in
    elim inserted.1 [
      | err e ↦ (record s { tree = inserted.0 }, err e)
      | ok _ ↦ (connect params inserted.0 s, ok tt)
    ]

-- `status == WorkspaceState::Failed`.
abbrev pub is_failure : WorkspaceState → Bool
is_failure WorkspaceState.failed = Bool.true
is_failure _ = Bool.false

-- Whether the loop of `terminate_workspace` counts a descendant as failed.
abbrev pub is_failed : Option WorkspaceNode → Bool
is_failed none = Bool.false
is_failed (some node) = is_failure node.status

-- `expire_workspace`, and how many rights it expired.
abbrev pub expire : WorkspaceId → PortRightsGraph → PortRightsGraph × ℕ
expire id g = let after = expire_workspace id g in (after, active_count g - active_count after)

-- The body of the loop of `terminate_workspace` over the descendants.
unfoldable pub expire_descendant :
    WorkspaceId → PortRightsGraph × CascadeEffect → PortRightsGraph × CascadeEffect
expire_descendant id (g, effect) = (
  (expire id g).0,
  record effect {
    rights_expired = effect.rights_expired + (expire id g).1;
    failed = effect.failed ++ id ∷ [];
  },
)

unfoldable pub expire_failed :
    WorkspaceTree
    → List WorkspaceId
    → PortRightsGraph × CascadeEffect
    → PortRightsGraph × CascadeEffect
unfolding expire_descendant
expire_failed tree [] state = state
expire_failed tree (id ∷ ids) state =
    expire_failed tree ids
      (if is_failed (get id tree.nodes) then expire_descendant id state else state)

-- The cascade of `terminate_workspace`.
unfoldable pub cascade :
    ℕ → WorkspaceId → TopologySet → CascadeEffect → Option (TopologySet × CascadeEffect)
unfolding cascade_failure descendants expire_failed
cascade fuel id s effect = elim (cascade_failure fuel id s.tree) [
  | none ↦ none
  | some (tree, reparented) ↦
      Option.map
        (λ desc.
          let expired = expire_failed tree desc (s.port_rights, effect) in
          (
            record s { tree = tree; port_rights = expired.0 },
            record (expired.1) { reparented = reparented },
          ))
        (descendants fuel id tree)
]

-- The topology with the status of the workspace set and its rights expired.
abbrev pub close_workspace : WorkspaceId → WorkspaceState → TopologySet → TopologySet
close_workspace id status s = record s {
  tree = update_status id status s.tree;
  port_rights = (expire id s.port_rights).0;
}

abbrev pub first_effect : WorkspaceId → TopologySet → CascadeEffect
first_effect id s = record {
  failed = [];
  reparented = [];
  rights_expired = (expire id s.port_rights).1;
}

unfoldable pub terminate_workspace :
    ℕ → WorkspaceId → WorkspaceState → TopologySet → Option (TopologySet × CascadeEffect)
unfolding cascade
terminate_workspace fuel id status s =
    let closed = close_workspace id status s in
    let effect = first_effect id s in
    if is_failure status then cascade fuel id closed effect else some (closed, effect)

unfoldable pub transfer_ownership :
    WorkspaceId → UserId → TopologySet → TopologySet × Result TreeError UserId
transfer_ownership id new_owner s =
    let transferred = transfer_owner id new_owner s.tree in
    elim transferred.1 [
      | err e ↦ (record s { tree = transferred.0 }, err e)
      | ok old_owner ↦ (
        record s { tree = transferred.0; escalation = update id new_owner s.escalation },
        ok old_owner,
      )
    ]
