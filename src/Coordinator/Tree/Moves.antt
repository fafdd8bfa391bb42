-- ===== src/Coordinator/Tree/Moves.antt =====
-- Where the workspaces stand after a cascade of failures (tree.rs): the parent of each and the children that
-- each lists.
use wacp_platform.Prelude.{
  Bool, true, not, ◌&&◌, ◌||◌, Option, none, some, get, contains, string_eq, List, [], ◌∷◌, ◌==◌,
  if◌then◌else◌, ◌≡◌, refl, arith, ◌∙◌, sym, Bool-cases, Option-cases, inl, inr, ap,
}
use wacp_platform.Types.Enums.{WorkspaceState}
use wacp_platform.Types.Records.{WorkspaceId, UserId}
use wacp_platform.Coordinator.Tree.{WorkspaceTree, update_status, reparent, children, parent_of}
use wacp_platform.Coordinator.Tree.Traversal.{cascade_child, owner_of, is_foreign, cascade_each}
use wacp_platform.Coordinator.Tree.Cascade.{cascade_child-owner, children-update_status}
use wacp_platform.Coordinator.Tree.Reparent.{
  has, lists, is_parent, modify-has, reparent-has, reparent-lists, modify-parent, reparent-parent,
}

-- What the cascade says of the parent of a workspace that it may move, and of one that lists it.
abbrev pub moved_parent : Bool → WorkspaceId → Option WorkspaceId → Option WorkspaceId
moved_parent moves root parent = if moves then some root else parent

abbrev pub moved_lists : Bool → WorkspaceId → WorkspaceId → Option WorkspaceId → Bool → Bool → Bool
moved_lists moves root k parent there before =
    if moves then there && root == k || before && not (is_parent k parent) else before

pub cascade_child-root :
    (owner : UserId) (child : WorkspaceId) (co : Option UserId) (t : WorkspaceTree)
    → (cascade_child owner child co t).root ≡ t.root
unfolding cascade_child update_status reparent
cascade_child-root owner child none t = refl
cascade_child-root owner child (some co) t = ground arith

pub cascade_child-has :
    (owner : UserId) (child k : WorkspaceId) (co : Option UserId) (t : WorkspaceTree)
    → has k (cascade_child owner child co t) ≡ has k t
unfolding cascade_child update_status
cascade_child-has owner child k none t = refl
cascade_child-has owner child k (some co) t = elim (Bool-cases (co == owner)) [
  | inl same ↦ rw same (modify-has child k (λ n. record n { status = WorkspaceState.failed }) t)
  | inr other ↦ rw other (reparent-has child t.root k t)
]

owned_has :
    (id : WorkspaceId) (owner : UserId) (t : WorkspaceTree)
    → owner_of id t ≡ some owner
    → has id t ≡ true
owned_has id owner t h = ground (arith, h)

cascade_child-parent :
    (owner : UserId) (child j : WorkspaceId) (co : Option UserId) (t : WorkspaceTree)
    → owner_of child t ≡ co
    → parent_of j (cascade_child owner child co t).nodes
      ≡ moved_parent (child == j && is_foreign owner co) t.root (parent_of j t.nodes)
unfolding cascade_child update_status
cascade_child-parent owner child j none t h = ground arith
cascade_child-parent owner child j (some co) t h = elim (Bool-cases (co == owner)) [
  | inl same ↦
      let kept =
        modify-parent child j (λ n. record n { status = WorkspaceState.failed }) t (λ n. refl) in
      rw same (ground (arith, kept))
  | inr other ↦
      let there = owned_has child co t h in
      let at_j : (child == j) ≡ true → has j t ≡ true =
        λ e. ap (λ i. has i t) (sym ((string_eq.beq_iff child j).0 e)) ∙ there in
      rw other (ground (arith, reparent-parent child t.root j t, at_j))
]

cascade_child-lists :
    (owner : UserId) (child k j : WorkspaceId) (co : Option UserId) (t : WorkspaceTree)
    → lists k j (cascade_child owner child co t)
      ≡ moved_lists
          (child == j && is_foreign owner co)
          t.root
          k
          (parent_of j t.nodes)
          (has k t)
          (lists k j t)
unfolding cascade_child
cascade_child-lists owner child k j none t = ground arith
cascade_child-lists owner child k j (some co) t = elim (Bool-cases (co == owner)) [
  | inl same ↦
      let kept =
        ap (λ ids. contains ids j) (children-update_status child k WorkspaceState.failed t) in
      rw same (ground (arith, kept))
  | inr other ↦
      let at_j : (child == j) ≡ true → parent_of child t.nodes ≡ parent_of j t.nodes =
        λ e. ap (λ i. parent_of i t.nodes) ((string_eq.beq_iff child j).0 e) in
      rw other (ground (arith, reparent-lists child t.root k j t, at_j))
]

lists-has : (k j : WorkspaceId) (t : WorkspaceTree) → lists k j t ≡ true → has k t ≡ true
unfolding children
lists-has k j t h = elim (Option-cases (get k t.nodes)) [
  | inl missing ↦ absurd (ground (arith, missing))
  | inr (n, found) ↦ ground (arith, found)
]

-- The loop moves the workspaces of other owners, and no others.
pub cascade_each-parent :
    (owner : UserId) (desc : List WorkspaceId) (j : WorkspaceId) (t : WorkspaceTree)
    → parent_of j (cascade_each owner desc t).0.nodes
      ≡ moved_parent
          (contains desc j && is_foreign owner (owner_of j t))
          t.root
          (parent_of j t.nodes)
unfolding cascade_each
cascade_each-parent owner [] j t = ground arith
cascade_each-parent owner (child ∷ rest) j t =
    let co = owner_of child t in
    let next = cascade_child owner child co t in
    let own : (child == j) ≡ true → co ≡ owner_of j t =
      λ e. ap (λ i. owner_of i t) ((string_eq.beq_iff child j).0 e) in
    ground (
      arith,
      cascade_each-parent owner rest j next,
      cascade_child-parent owner child j co t refl,
      cascade_child-owner owner child j co t,
      cascade_child-root owner child co t,
      own,
    )

pub cascade_each-lists :
    (owner : UserId) (desc : List WorkspaceId) (k j : WorkspaceId) (t : WorkspaceTree)
    → lists k j (cascade_each owner desc t).0
      ≡ moved_lists
          (contains desc j && is_foreign owner (owner_of j t))
          t.root
          k
          (parent_of j t.nodes)
          (has k t)
          (lists k j t)
unfolding cascade_each
cascade_each-lists owner [] k j t = ground arith
cascade_each-lists owner (child ∷ rest) k j t =
    let co = owner_of child t in
    let next = cascade_child owner child co t in
    let own : (child == j) ≡ true → co ≡ owner_of j t =
      λ e. ap (λ i. owner_of i t) ((string_eq.beq_iff child j).0 e) in
    ground (
      arith,
      cascade_each-lists owner rest k j next,
      cascade_child-lists owner child k j co t,
      cascade_child-parent owner child j co t refl,
      cascade_child-owner owner child j co t,
      cascade_child-root owner child co t,
      cascade_child-has owner child k co t,
      own,
      lists-has k j t,
    )
