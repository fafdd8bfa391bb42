-- ===== src/Coordinator/Topology/Failures.antt =====
-- The cascade of failures (tree.rs) in the topologies that calls lead to.
use wacp_platform.Prelude.{
  Bool, true, not, ◌&&◌, ◌||◌, Option, contains, is_some, string_eq, List, ◌==◌, ◌≡◌,
}
use wacp_platform.Types.Enums.{WorkspaceState}
use wacp_platform.Types.Records.{WorkspaceId, UserId}
use wacp_platform.Coordinator.Tree.{WorkspaceTree, update_status, parent_of}
use wacp_platform.Coordinator.Tree.Traversal.{owner_of}
use wacp_platform.Coordinator.Tree.Cascade.{status_of, is_owner, fail_if}
use wacp_platform.Coordinator.Tree.Reparent.{has, lists}
use wacp_platform.Coordinator.Tree.Moves.{moved_parent, moved_lists}

-- Whether a workspace belongs to somebody else.
abbrev pub is_other : UserId → Option UserId → Bool
is_other owner belongs = is_some belongs && not (is_owner owner belongs)

-- The tree after a failure of `id` that its owner answers for, with `desc` below it: who has failed, whose
-- workspace each is, whose child each is, and which children each lists. The workspaces of others
-- stand below the root.
pub record IsCascaded (id : WorkspaceId) (owner : UserId) (desc : List WorkspaceId)
    (t after : WorkspaceTree) : Type 0 where
  pub rooted : has t.root t ≡ true
  pub statuses :
      (j : WorkspaceId)
      → status_of j after
        ≡ fail_if (id == j || contains desc j && is_owner owner (owner_of j t)) (status_of j t)
  pub owners : (j : WorkspaceId) → owner_of j after ≡ owner_of j t
  pub parents :
      (j : WorkspaceId)
      → parent_of j after.nodes
        ≡ moved_parent
            (contains desc j && is_other owner (owner_of j t))
            t.root
            (parent_of j t.nodes)
  pub listed :
      (k j : WorkspaceId)
      → lists k j after
        ≡ moved_lists
            (contains desc j && is_other owner (owner_of j t))
            t.root
            k
            (parent_of j t.nodes)
            (has k t)
            (lists k j t)

module _ (id : WorkspaceId) (owner : UserId) (desc : List WorkspaceId) (t : WorkspaceTree) where
  abbrev marked : WorkspaceTree
  marked = update_status id WorkspaceState.failed t
