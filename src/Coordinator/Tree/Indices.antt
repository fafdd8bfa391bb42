-- ===== src/Coordinator/Tree/Indices.antt =====
-- The indices of the workspace tree (tree.rs) by owner and by originator, over its calls.
use wacp_platform.Prelude.{
  Bool, false, not, Option, none, some, get, insert, modify, contains_key, contains, string_eq,
  List, [], ◌∷◌, ◌==◌, Result, ◌≡◌, refl, arith, get-insert, get-modify, contains-push_entry,
  contains-modify-retain, Option-cases, inl, inr, if_keeps,
}
use wacp_platform.Types.Enums.{WorkspaceState}
use wacp_platform.Types.Records.{WorkspaceId, UserId, Originator}
use wacp_platform.Coordinator.Tree.{
  TreeError, WorkspaceNode, reparent, detach, parent_of, drop_child, set_parent, add_child,
  WorkspaceTree, originator_eq, new, push_child, place, insert_node, by_originator, by_owner,
  without, set_owner, hand_over, transfer_owner, update_status,
}

abbrev pub owned_by : UserId → Option WorkspaceNode → Bool
owned_by o none = false
owned_by o (some n) = n.owner == o

abbrev pub caused_by : Originator → Option WorkspaceNode → Bool
caused_by o none = false
caused_by o (some n) = n.originator == o

pub record IsIndexed (t : WorkspaceTree) : Type 0 where
  pub owners :
      (o : UserId) (id : WorkspaceId) → contains (by_owner o t) id ≡ owned_by o (get id t.nodes)
  pub originators :
      (o : Originator) (id : WorkspaceId)
      → contains (by_originator o t) id ≡ caused_by o (get id t.nodes)

new-IsIndexed : (root : WorkspaceId) (owner : UserId) → IsIndexed (new root owner)
unfolding new by_owner by_originator get
new-IsIndexed root owner = record {
  owners = λ o id. ground (arith, string_eq.beq_iff owner o, string_eq.beq_iff root id);
  originators =
      λ o id. ground (arith, originator_eq.beq_iff Originator.system o, string_eq.beq_iff root id);
}

module _ (t : WorkspaceTree) (inv : IsIndexed t) where
  place-IsIndexed :
      (node : WorkspaceNode) (parent : WorkspaceId)
      → get node.id t.nodes ≡ none
      → IsIndexed (place node parent t)
  unfolding by_owner by_originator
  place-IsIndexed node parent fresh = record {
    owners = λ o id. ground (
      arith,
      inv.owners o id,
      contains-push_entry node.owner o node.id id t.owner_index,
      get-modify parent id (push_child node.id) (insert node.id node t.nodes),
      get-insert node.id id node t.nodes,
      string_eq.beq_iff node.id id,
    );
    originators = λ o id. ground (
      arith,
      inv.originators o id,
      contains-push_entry node.originator o node.id id t.originator_index,
      get-modify parent id (push_child node.id) (insert node.id node t.nodes),
      get-insert node.id id node t.nodes,
      string_eq.beq_iff node.id id,
    );
  }

  hand_over-IsIndexed :
      (id : WorkspaceId) (node : WorkspaceNode) (o' : UserId)
      → get id t.nodes ≡ some node
      → IsIndexed (hand_over id node.owner o' t)
  unfolding by_owner by_originator
  hand_over-IsIndexed id node o' known = record {
    owners = λ o x. ground (
      arith,
      inv.owners o x,
      contains-push_entry o' o id x (modify node.owner (without id) t.owner_index),
      contains-modify-retain node.owner o (λ w. not (w == id)) x t.owner_index,
      get-modify id x (set_owner o') t.nodes,
      string_eq.beq_iff id x,
      string_eq.beq_iff x id,
      string_eq.beq_iff node.owner o,
    );
    originators = λ o x. ground (
      arith,
      inv.originators o x,
      get-modify id x (set_owner o') t.nodes,
      string_eq.beq_iff id x,
    );
  }

  update_status-IsIndexed :
      (id : WorkspaceId) (status : WorkspaceState) → IsIndexed (update_status id status t)
  unfolding update_status by_owner by_originator
  update_status-IsIndexed id status = record {
    owners = λ o x.
        ground (arith, inv.owners o x, get-modify id x (λ n. record n { status = status }) t.nodes);
    originators = λ o x.
        ground
          (arith, inv.originators o x, get-modify id x (λ n. record n { status = status }) t.nodes);
  }

  -- A write to one node that keeps its owner and its originator keeps the indices exact.
  rewritten-IsIndexed :
      (id : WorkspaceId) (f : WorkspaceNode → WorkspaceNode)
      → ((n : WorkspaceNode) → ((f n).owner ≡ n.owner) × ((f n).originator ≡ n.originator))
      → IsIndexed (record t { nodes = modify id f t.nodes })
  unfolding by_owner by_originator
  rewritten-IsIndexed id f keeps = record {
    owners = λ o x. elim (Option-cases (get x t.nodes)) [
      | inl e ↦ ground (arith, inv.owners o x, get-modify id x f t.nodes)
      | inr (n, e) ↦ ground (arith, inv.owners o x, get-modify id x f t.nodes, keeps n)
    ];
    originators = λ o x. elim (Option-cases (get x t.nodes)) [
      | inl e ↦ ground (arith, inv.originators o x, get-modify id x f t.nodes)
      | inr (n, e) ↦ ground (arith, inv.originators o x, get-modify id x f t.nodes, keeps n)
    ];
  }

  detach-IsIndexed :
      (child : WorkspaceId) (old : Option WorkspaceId)
      → IsIndexed (record t { nodes = detach child old t.nodes })
  detach-IsIndexed child none = inv
  detach-IsIndexed child (some old) = rewritten-IsIndexed old (drop_child child) (λ n. (refl, refl))

add_child_keeps :
    (child : WorkspaceId) (n : WorkspaceNode)
    → ((add_child child n).owner ≡ n.owner) × ((add_child child n).originator ≡ n.originator)
add_child_keeps child n = ground arith

reparent-IsIndexed :
    (child parent : WorkspaceId) (t : WorkspaceTree)
    → IsIndexed t
    → IsIndexed (reparent child parent t)
unfolding reparent
reparent-IsIndexed child parent t inv =
    let old = parent_of child t.nodes in
    let t₁ : WorkspaceTree = record t { nodes = detach child old t.nodes } in
    let inv₁ = detach-IsIndexed t inv child old in
    let t₂ : WorkspaceTree = record t₁ { nodes = modify child (set_parent parent) t₁.nodes } in
    let inv₂ = rewritten-IsIndexed t₁ inv₁ child (set_parent parent) (λ n. (refl, refl)) in
    rewritten-IsIndexed t₂ inv₂ parent (add_child child) (add_child_keeps child)

insert_node-IsIndexed :
    (node : WorkspaceNode) (t : WorkspaceTree) → IsIndexed t → IsIndexed (insert_node node t).0
unfolding insert_node
insert_node-IsIndexed node t inv = elim (Option-cases (get node.id t.nodes)) [
  | inr (old, e) ↦ rw e inv
  | inl e ↦ elim (Option-cases node.parent) [
    | inl p ↦ rw (e, p) inv
    | inr (parent, p) ↦
        let P = λ (r : WorkspaceTree × Result TreeError (Unit {0})). IsIndexed r.0 in
        rw (e, p)
          (if_keeps P (contains_key parent t.nodes) (place-IsIndexed t inv node parent e) inv)
  ]
]

transfer_owner-IsIndexed :
    (id : WorkspaceId) (o : UserId) (t : WorkspaceTree)
    → IsIndexed t
    → IsIndexed (transfer_owner id o t).0
unfolding transfer_owner
transfer_owner-IsIndexed id o t inv = elim (Option-cases (get id t.nodes)) [
  | inl e ↦ rw (e, transfer_owner) inv
  | inr (node, e) ↦
      let P = λ (r : WorkspaceTree × Result TreeError UserId). IsIndexed r.0 in
      rw (e, transfer_owner)
        (if_keeps P (node.owner == o) inv (hand_over-IsIndexed t inv id node o e))
]

pub data Call : Type 0 where
  inserts : WorkspaceNode → Call
  transfers : WorkspaceId → UserId → Call
  reparents : WorkspaceId → WorkspaceId → Call
  updates : WorkspaceId → WorkspaceState → Call

unfoldable pub step : Call → WorkspaceTree → WorkspaceTree
step (inserts node) t = (insert_node node t).0
step (transfers id owner) t = (transfer_owner id owner t).0
step (reparents child parent) t = reparent child parent t
step (updates id status) t = update_status id status t

unfoldable pub run : List Call → WorkspaceTree → WorkspaceTree
run [] t = t
run (c ∷ cs) t = run cs (step c t)

step-IsIndexed : (c : Call) (t : WorkspaceTree) → IsIndexed t → IsIndexed (step c t)
unfolding step
step-IsIndexed (inserts node) t inv = insert_node-IsIndexed node t inv
step-IsIndexed (transfers id owner) t inv = transfer_owner-IsIndexed id owner t inv
step-IsIndexed (reparents child parent) t inv = reparent-IsIndexed child parent t inv
step-IsIndexed (updates id status) t inv = update_status-IsIndexed t inv id status

exactness_kept : (cs : List Call) (t : WorkspaceTree) → IsIndexed t → IsIndexed (run cs t)
unfolding run
exactness_kept [] t inv = inv
exactness_kept (c ∷ cs) t inv = exactness_kept cs (step c t) (step-IsIndexed c t inv)

-- After any insertions, transfers of ownership, reparentings and changes of status on a new tree,
-- failing ones included, the owner index and the originator index list exactly the nodes that have
-- that owner or that originator.
pub indices_exact :
    (root : WorkspaceId) (owner : UserId) (cs : List Call) → IsIndexed (run cs (new root owner))
indices_exact root owner cs = exactness_kept cs (new root owner) (new-IsIndexed root owner)
