-- ===== src/Coordinator/Tree/Traversal.antt =====
-- wacp/crates/wacp-coordinator/src/tree.rs: the traversals of the tree and the cascade of failures. The
-- loops run on fuel, and `none` is a loop that has not ended.
use wacp_platform.Prelude.{
  ℕ, zero, suc, Bool, false, not, Option, none, some, get, contains, retain, string_eq, List, [],
  ◌∷◌, ◌++◌, ◌==◌, if◌then◌else◌,
}
use mathlib.Core.Option
use wacp_platform.Types.Enums.{WorkspaceState}
use wacp_platform.Types.Records.{WorkspaceId, UserId, Originator}
use wacp_platform.Coordinator.Tree.{WorkspaceTree, children, by_originator, update_status, reparent}

-- The `while let` over the queue.
unfoldable pub visit : ℕ → List WorkspaceId → WorkspaceTree → Option (List WorkspaceId)
unfolding children
visit fuel [] t = some []
visit zero (current ∷ queue) t = none
visit (suc fuel) (current ∷ queue) t =
    let below = children current t in
    Option.map (λ result. below ++ result) (visit fuel (queue ++ below) t)

unfoldable pub descendants : ℕ → WorkspaceId → WorkspaceTree → Option (List WorkspaceId)
unfolding visit
descendants fuel id t = visit fuel (id ∷ []) t

unfoldable pub parent_chain : ℕ → WorkspaceId → WorkspaceTree → Option (List WorkspaceId)
parent_chain zero id t = none
parent_chain (suc fuel) id t = elim (get id t.nodes) [
  | none ↦ some []
  | some node ↦ elim node.parent [
    | none ↦ some []
    | some parent ↦ Option.map (λ chain. parent ∷ chain) (parent_chain fuel parent t)
  ]
]

unfoldable pub causal_descendants :
    ℕ → WorkspaceId → Originator → WorkspaceTree → Option (List WorkspaceId)
unfolding descendants by_originator
causal_descendants fuel id originator t =
    Option.map (retain (λ d. contains (by_originator originator t) d)) (descendants fuel id t)

-- The body of the loop of `cascade_failure`, on the owner of the child.
unfoldable pub cascade_child : UserId → WorkspaceId → Option UserId → WorkspaceTree → WorkspaceTree
unfolding update_status reparent
cascade_child owner child none t = t
cascade_child owner child (some child_owner) t =
    if child_owner == owner
    then update_status child WorkspaceState.failed t
    else reparent child t.root t

abbrev pub owner_of : WorkspaceId → WorkspaceTree → Option UserId
owner_of id t = Option.map (λ n. n.owner) (get id t.nodes)

-- Whether the loop pushes a child to the list that it returns.
abbrev pub is_foreign : UserId → Option UserId → Bool
is_foreign owner none = false
is_foreign owner (some child_owner) = not (child_owner == owner)

unfoldable pub cascade_each :
    UserId → List WorkspaceId → WorkspaceTree → WorkspaceTree × List WorkspaceId
unfolding cascade_child
cascade_each owner [] t = (t, [])
cascade_each owner (child ∷ rest) t =
    let child_owner = owner_of child t in
    let after = cascade_each owner rest (cascade_child owner child child_owner t) in
    (after.0, if is_foreign owner child_owner then child ∷ after.1 else after.1)

unfoldable pub cascade_failure :
    ℕ → WorkspaceId → WorkspaceTree → Option (WorkspaceTree × List WorkspaceId)
unfolding descendants cascade_each update_status
cascade_failure fuel id t = elim (owner_of id t) [
  | none ↦ some (t, [])
  | some owner ↦
      let marked = update_status id WorkspaceState.failed t in
      Option.map (λ desc. cascade_each owner desc marked) (descendants fuel id marked)
]
