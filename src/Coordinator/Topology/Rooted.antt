-- ===== src/Coordinator/Topology/Rooted.antt =====
-- The root of a topology is one of its workspaces, whatever is called (topology.rs).
use wacp_platform.Prelude.{
  ℕ, true, some, List, [], ◌∷◌, get, insert, get-insert, Option-cases, Bool-cases, inl, inr,
  contains_key, string_eq, ◌≡◌, arith, ◌∙◌, subst, ap,
}
use wacp_platform.Types.Enums.{WorkspaceState}
use wacp_platform.Types.Records.{WorkspaceId, UserId}
use wacp_platform.Coordinator.Tree.{
  WorkspaceNode, WorkspaceTree, insert_node, transfer_owner, update_status, place, push_child,
  set_owner,
}
use wacp_platform.Coordinator.Tree as Tree
use wacp_platform.Coordinator.Tree.Traversal.{
  descendants, cascade_child, cascade_each, cascade_failure, owner_of,
}
use wacp_platform.Coordinator.Tree.Reparent.{has, modify-has}
use wacp_platform.Coordinator.Tree.Moves.{cascade_child-has, cascade_child-root}
use wacp_platform.Coordinator.Topology.{
  TopologySet, CascadeEffect, new, node_of, cascade, close_workspace, first_effect, is_failure,
  create_workspace, terminate_workspace, transfer_ownership,
}
use wacp_platform.Coordinator.Topology.Termination.{
  Call, creates, terminates, transfers, step, Reachable, start, after_call,
}

abbrev pub IsRooted : WorkspaceTree → Type 0
IsRooted t = has t.root t ≡ true

update_status-IsRooted :
    (id : WorkspaceId) (status : WorkspaceState) (t : WorkspaceTree)
    → IsRooted t
    → IsRooted (update_status id status t)
unfolding update_status
update_status-IsRooted id status t h =
    modify-has id t.root (λ n. record n { status = status }) t ∙ h

new-IsRooted : (root : WorkspaceId) (owner : UserId) → IsRooted (Tree.new root owner)
unfolding Tree.new get
new-IsRooted root owner = ground (arith, string_eq.beq_iff root root)

place-IsRooted :
    (node : WorkspaceNode) (parent : WorkspaceId) (t : WorkspaceTree)
    → IsRooted t
    → IsRooted (place node parent t)
place-IsRooted node parent t h =
    let inserted = get-insert node.id t.root node t.nodes in
    let base = record t { nodes = insert node.id node t.nodes } in
    let there : has t.root base ≡ true = ground (arith, inserted) in
    modify-has parent t.root (push_child node.id) base ∙ there

insert_node-IsRooted :
    (node : WorkspaceNode) (t : WorkspaceTree) → IsRooted t → IsRooted (insert_node node t).0
unfolding insert_node
insert_node-IsRooted node t h = elim (Bool-cases (contains_key node.id t.nodes)) [
  | inl known ↦ rw known h
  | inr fresh ↦ elim (Option-cases node.parent) [
    | inl none_given ↦ rw (fresh, none_given) h
    | inr (parent, given) ↦ elim (Bool-cases (contains_key parent t.nodes)) [
      | inl there ↦ rw (fresh, given, there) (place-IsRooted node parent t h)
      | inr away ↦ rw (fresh, given, away) h
    ]
  ]
]

transfer_owner-IsRooted :
    (id : WorkspaceId) (owner : UserId) (t : WorkspaceTree)
    → IsRooted t
    → IsRooted (transfer_owner id owner t).0
unfolding transfer_owner
transfer_owner-IsRooted id owner t h = ground (arith, modify-has id t.root (set_owner owner) t)

cascade_each-IsRooted :
    (owner : UserId) (desc : List WorkspaceId) (t : WorkspaceTree)
    → IsRooted t
    → IsRooted (cascade_each owner desc t).0
unfolding cascade_each
cascade_each-IsRooted owner [] t h = h
cascade_each-IsRooted owner (child ∷ rest) t h =
    let co = owner_of child t in
    let next = cascade_child owner child co t in
    let root = ap (λ k. has k next) (cascade_child-root owner child co t) in
    cascade_each-IsRooted owner rest next (root ∙ cascade_child-has owner child t.root co t ∙ h)

cascade_failure-IsRooted :
    (fuel : ℕ) (id : WorkspaceId) (t after : WorkspaceTree) (moved : List WorkspaceId)
    → IsRooted t
    → cascade_failure fuel id t ≡ some (after, moved)
    → IsRooted after
unfolding cascade_failure
cascade_failure-IsRooted fuel id t after moved h done = elim (Option-cases (owner_of id t)) [
  | inl missing ↦ let same : t ≡ after = ground (arith, missing) in subst IsRooted same h
  | inr (owner, owned) ↦
      let marked = update_status id WorkspaceState.failed t in
      let kept = update_status-IsRooted id WorkspaceState.failed t h in
      elim (Option-cases (descendants fuel id marked)) [
        | inl out ↦ absurd (ground (arith, owned, out))
        | inr (desc, listed) ↦
            let same : (cascade_each owner desc marked).0 ≡ after = ground (arith, owned, listed) in
            subst IsRooted same (cascade_each-IsRooted owner desc marked kept)
      ]
]

cascade-IsRooted :
    (fuel : ℕ) (id : WorkspaceId) (s next : TopologySet) (effect counted : CascadeEffect)
    → IsRooted s.tree
    → cascade fuel id s effect ≡ some (next, counted)
    → IsRooted next.tree
unfolding cascade
cascade-IsRooted fuel id s next effect counted h done =
    elim (Option-cases (cascade_failure fuel id s.tree)) [
      | inl out ↦ absurd (ground (arith, out))
      | inr ((tree, moved), failed) ↦ elim (Option-cases (descendants fuel id tree)) [
        | inl out ↦ absurd (ground (arith, failed, out))
        | inr (desc, listed) ↦
            let same : tree ≡ next.tree = ground (arith, failed, listed) in
            subst IsRooted same (cascade_failure-IsRooted fuel id s.tree tree moved h failed)
      ]
    ]

terminate_workspace-IsRooted :
    (fuel : ℕ) (id : WorkspaceId) (status : WorkspaceState) (s next : TopologySet)
    (effect : CascadeEffect)
    → IsRooted s.tree
    → terminate_workspace fuel id status s ≡ some (next, effect)
    → IsRooted next.tree
unfolding terminate_workspace
terminate_workspace-IsRooted fuel id status s next effect h done =
    let closed = close_workspace id status s in
    let kept = update_status-IsRooted id status s.tree h in
    elim (Bool-cases (is_failure status)) [
      | inl failure ↦
          cascade-IsRooted fuel id closed next (first_effect id s) effect kept
            (ground (arith, failure))
      | inr other ↦
          let same : closed ≡ next = ground (arith, other) in subst (λ x. IsRooted x.tree) same kept
    ]

step-IsRooted :
    (fuel : ℕ) (c : Call) (s next : TopologySet)
    → IsRooted s.tree
    → step fuel c s ≡ some next
    → IsRooted next.tree
unfolding step create_workspace transfer_ownership
step-IsRooted fuel (creates params) s next h done =
    let same : (insert_node (node_of params) s.tree).0 ≡ next.tree = ground arith in
    subst IsRooted same (insert_node-IsRooted (node_of params) s.tree h)
step-IsRooted fuel (terminates id status) s next h done =
    elim (Option-cases (terminate_workspace fuel id status s)) [
      | inl out ↦ absurd (ground (arith, out))
      | inr ((after, effect), ended) ↦
          let same : after ≡ next = ground (arith, ended) in
          subst (λ x. IsRooted x.tree) same
            (terminate_workspace-IsRooted fuel id status s after effect h ended)
    ]
step-IsRooted fuel (transfers id owner) s next h done =
    let same : (transfer_owner id owner s.tree).0 ≡ next.tree = ground arith in
    subst IsRooted same (transfer_owner-IsRooted id owner s.tree h)

pub Reachable-IsRooted :
    {root : WorkspaceId} {owner : UserId} {s : TopologySet}
    → Reachable root owner s
    → IsRooted s.tree
unfolding new
Reachable-IsRooted {root} {owner} start = new-IsRooted root owner
Reachable-IsRooted (after_call {s} {next} fuel c before h) =
    step-IsRooted fuel c s next (Reachable-IsRooted before) h
