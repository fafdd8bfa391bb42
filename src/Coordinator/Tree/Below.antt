-- ===== src/Coordinator/Tree/Below.antt =====
-- The cascade of failures (tree.rs) and the order of the nodes.
use wacp_platform.Prelude.{
  ℕ, zero, suc, Bool, true, false, not, Option, none, some, get, contains, all, all-append,
  string_eq, List, [], ◌∷◌, ◌++◌, ◌==◌, ◌≡◌, refl, arith, ◌∙◌, sym, Bool-cases, Option-cases, inl,
  inr, ap, subst, if_keeps,
}
use wacp_platform.Types.Enums.{WorkspaceState}
use wacp_platform.Types.Records.{WorkspaceId, UserId}
use wacp_platform.Coordinator.Tree.{WorkspaceNode, WorkspaceTree, update_status, reparent, children}
use wacp_platform.Coordinator.Tree.Traversal.{
  visit, descendants, cascade_child, cascade_each, cascade_failure, owner_of,
}
use wacp_platform.Coordinator.Tree.Ordered.{
  Nodes, is_ordered, children_after, children-seen, found-here,
}
use wacp_platform.Coordinator.Tree.Preserved.{
  starts_at, IsOrdered, update_status-IsOrdered, reparent-IsOrdered,
}

below-root :
    (root id : WorkspaceId) (n : WorkspaceNode) (nodes : Nodes)
    → starts_at root nodes ≡ true
    → is_ordered [] nodes ≡ true
    → get id nodes ≡ some n
    → children_after (root ∷ []) n.children ≡ true
unfolding get
below-root root id n [] first ordered found = ground arith
below-root root id n ((k, m) ∷ nodes) first ordered found =
    let same_root : k ≡ root = (string_eq.beq_iff k root).0 first in
    let below : children_after (k ∷ []) n.children ≡ true = elim (Bool-cases (k == id)) [
      | inl same ↦
          sym (ap (λ x. children_after (k ∷ []) x.children) (found-here k id m n nodes same found))
          ∙ ground arith
      | inr other ↦ children-seen (k ∷ []) nodes id n (ground arith) (ground arith)
    ] in
    subst (λ r. children_after (r ∷ []) n.children ≡ true) same_root below

-- What stands below a node is not the root.
children-root :
    (id : WorkspaceId) (t : WorkspaceTree)
    → IsOrdered t
    → children_after (t.root ∷ []) (children id t) ≡ true
unfolding children
children-root id t inv = elim (Option-cases (get id t.nodes)) [
  | inl missing ↦ ground (arith, missing)
  | inr (n, found) ↦
      ground (arith, found, below-root t.root id n t.nodes inv.first inv.ordered found)
]

pub visit-root :
    (fuel : ℕ) (queue desc : List WorkspaceId) (t : WorkspaceTree)
    → IsOrdered t
    → visit fuel queue t ≡ some desc
    → children_after (t.root ∷ []) desc ≡ true
unfolding visit
visit-root fuel [] desc t inv h = ground arith
visit-root zero (id ∷ queue) desc t inv h = ground arith
visit-root (suc fuel) (id ∷ queue) desc t inv h =
    let below = children id t in
    elim (Option-cases (visit fuel (queue ++ below) t)) [
      | inl out ↦ absurd (ground (arith, out))
      | inr (rest, done) ↦
          let made : desc ≡ below ++ rest = ground (arith, done) in
          let behind : WorkspaceId → Bool = λ c. not (contains (t.root ∷ []) c) in
          ap (all behind) made
          ∙ ground (
            arith,
            all-append behind below rest,
            children-root id t inv,
            visit-root fuel (queue ++ below) rest t inv done,
          )
    ]

cascade_child-IsOrdered :
    (owner : UserId) (child : WorkspaceId) (co : Option UserId) (t : WorkspaceTree)
    → (child == t.root) ≡ false
    → IsOrdered t
    → IsOrdered (cascade_child owner child co t)
unfolding cascade_child
cascade_child-IsOrdered owner child none t differs inv = inv
cascade_child-IsOrdered owner child (some co) t differs inv =
    if_keeps IsOrdered (co == owner) (update_status-IsOrdered child WorkspaceState.failed t inv)
      (reparent-IsOrdered child t differs inv)

cascade_child-root :
    (owner : UserId) (child : WorkspaceId) (co : Option UserId) (t : WorkspaceTree)
    → (cascade_child owner child co t).root ≡ t.root
unfolding cascade_child update_status reparent
cascade_child-root owner child none t = refl
cascade_child-root owner child (some co) t = ground arith

cascade_each-IsOrdered :
    (owner : UserId) (desc : List WorkspaceId) (t : WorkspaceTree)
    → children_after (t.root ∷ []) desc ≡ true
    → IsOrdered t
    → IsOrdered (cascade_each owner desc t).0
unfolding cascade_each
cascade_each-IsOrdered owner [] t below inv = inv
cascade_each-IsOrdered owner (child ∷ rest) t below inv =
    let next = cascade_child owner child (owner_of child t) t in
    let same = cascade_child-root owner child (owner_of child t) t in
    cascade_each-IsOrdered owner rest next
      (ap (λ r. children_after (r ∷ []) rest) same ∙ ground arith)
      (cascade_child-IsOrdered owner child (owner_of child t) t
        (ground (arith, string_eq.beq_iff child t.root, string_eq.beq_iff t.root child)) inv)

-- The cascade keeps the order, and with it every traversal that ends.
pub cascade_failure-IsOrdered :
    (fuel : ℕ) (id : WorkspaceId) (t after : WorkspaceTree) (moved : List WorkspaceId)
    → IsOrdered t
    → cascade_failure fuel id t ≡ some (after, moved)
    → IsOrdered after
unfolding cascade_failure descendants
cascade_failure-IsOrdered fuel id t after moved inv h = elim (Option-cases (owner_of id t)) [
  | inl missing ↦ let same : t ≡ after = ground (arith, missing) in subst IsOrdered same inv
  | inr (owner, owned) ↦
      let marked = update_status id WorkspaceState.failed t in
      let marked_inv = update_status-IsOrdered id WorkspaceState.failed t inv in
      elim (Option-cases (descendants fuel id marked)) [
        | inl out ↦ absurd (ground (arith, owned, out))
        | inr (desc, listed) ↦
            let made : (cascade_each owner desc marked).0 ≡ after = ground (arith, owned, listed) in
            subst IsOrdered made (
              cascade_each-IsOrdered owner desc marked
                (visit-root fuel (id ∷ []) desc marked marked_inv listed) marked_inv)
      ]
]
