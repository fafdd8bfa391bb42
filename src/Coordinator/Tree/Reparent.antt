-- ===== src/Coordinator/Tree/Reparent.antt =====
-- What moving a node (tree.rs) does to the parents and to the children that each node lists.
use wacp_platform.Prelude.{
  Bool, false, not, ◌&&◌, ◌||◌, Option, none, some, get, modify, contains, contains-append,
  contains-retain, get-modify, string_eq, List, [], ◌∷◌, ◌==◌, if◌then◌else◌, ◌≡◌, refl, arith, ◌∙◌,
  Bool-cases, Option-cases, inl, inr, ap, is_some,
}
use wacp_platform.Types.Records.{WorkspaceId}
use wacp_platform.Coordinator.Tree.{
  WorkspaceNode, WorkspaceTree, reparent, children, detach, parent_of, drop_child, set_parent,
  add_child, without,
}

abbrev pub has : WorkspaceId → WorkspaceTree → Bool
has id t = is_some (get id t.nodes)

-- Whether a workspace lists another among its children.
abbrev pub lists : WorkspaceId → WorkspaceId → WorkspaceTree → Bool
lists k j t = contains (children k t) j

abbrev pub is_parent : WorkspaceId → Option WorkspaceId → Bool
is_parent k none = false
is_parent k (some parent) = parent == k

contains-add_child :
    (child j : WorkspaceId) (n : WorkspaceNode)
    → contains (add_child child n).children j ≡ (child == j || contains n.children j)
contains-add_child child j n = elim (Bool-cases (child == j)) [
  | inl same ↦
      let same' : child ≡ j = (string_eq.beq_iff child j).0 same in
      ground
        (arith, same, contains-append n.children (child ∷ []) j, ap (contains n.children) same')
  | inr other ↦ ground (arith, other, contains-append n.children (child ∷ []) j)
]

contains-without :
    (child j : WorkspaceId) (ids : List WorkspaceId)
    → contains (without child ids) j ≡ (contains ids j && not (j == child))
contains-without child j ids = contains-retain (λ w. not (w == child)) ids j

detach-lists :
    (child k j : WorkspaceId) (parent : Option WorkspaceId) (t : WorkspaceTree)
    → lists k j (record t { nodes = detach child parent t.nodes })
      ≡ (lists k j t && not (is_parent k parent && j == child))
unfolding children
detach-lists child k j none t = ground arith
detach-lists child k j (some parent) t = elim (Option-cases (get k t.nodes)) [
  | inl missing ↦ ground (arith, missing, get-modify parent k (drop_child child) t.nodes)
  | inr (n, found) ↦ ground (
    arith,
    found,
    get-modify parent k (drop_child child) t.nodes,
    contains-without child j n.children,
  )
]

set_parent-lists :
    (child parent k j : WorkspaceId) (t : WorkspaceTree)
    → lists k j (record t { nodes = modify child (set_parent parent) t.nodes }) ≡ lists k j t
unfolding children
set_parent-lists child parent k j t = elim (Option-cases (get k t.nodes)) [
  | inl missing ↦ ground (arith, missing, get-modify child k (set_parent parent) t.nodes)
  | inr (n, found) ↦ ground (arith, found, get-modify child k (set_parent parent) t.nodes)
]

add_child-lists :
    (child parent k j : WorkspaceId) (t : WorkspaceTree)
    → lists k j (record t { nodes = modify parent (add_child child) t.nodes })
      ≡ (has k t && parent == k && child == j || lists k j t)
unfolding children
add_child-lists child parent k j t = elim (Option-cases (get k t.nodes)) [
  | inl missing ↦ ground (arith, missing, get-modify parent k (add_child child) t.nodes)
  | inr (n, found) ↦
      ground
        (arith, found, get-modify parent k (add_child child) t.nodes, contains-add_child child j n)
]

pub modify-has :
    (id k : WorkspaceId) (f : WorkspaceNode → WorkspaceNode) (t : WorkspaceTree)
    → has k (record t { nodes = modify id f t.nodes }) ≡ has k t
modify-has id k f t = ground (arith, get-modify id k f t.nodes)

detach-has :
    (child k : WorkspaceId) (parent : Option WorkspaceId) (t : WorkspaceTree)
    → has k (record t { nodes = detach child parent t.nodes }) ≡ has k t
detach-has child k none t = refl
detach-has child k (some parent) t = modify-has parent k (drop_child child) t

pub reparent-has :
    (child parent k : WorkspaceId) (t : WorkspaceTree) → has k (reparent child parent t) ≡ has k t
unfolding reparent
reparent-has child parent k t =
    let detached = record t { nodes = detach child (parent_of child t.nodes) t.nodes } in
    let placed = record t { nodes = modify child (set_parent parent) detached.nodes } in
    modify-has parent k (add_child child) placed
    ∙ modify-has child k (set_parent parent) detached
    ∙ detach-has child k (parent_of child t.nodes) t

pub reparent-lists :
    (child parent k j : WorkspaceId) (t : WorkspaceTree)
    → lists k j (reparent child parent t) ≡ (
        if child == j
        then has k t && parent == k || lists k j t && not (is_parent k (parent_of child t.nodes))
        else lists k j t)
unfolding reparent
reparent-lists child parent k j t =
    let old = parent_of child t.nodes in
    let detached = record t { nodes = detach child old t.nodes } in
    let placed = record t { nodes = modify child (set_parent parent) detached.nodes } in
    let still = modify-has child k (set_parent parent) detached ∙ detach-has child k old t in
    ground (
      arith,
      add_child-lists child parent k j placed,
      set_parent-lists child parent k j detached,
      detach-lists child k j old t,
      still,
      string_eq.beq_iff child j,
      string_eq.beq_iff j child,
    )

pub modify-parent :
    (id j : WorkspaceId) (f : WorkspaceNode → WorkspaceNode) (t : WorkspaceTree)
    → ((n : WorkspaceNode) → (f n).parent ≡ n.parent)
    → parent_of j (modify id f t.nodes) ≡ parent_of j t.nodes
modify-parent id j f t keeps = elim (Option-cases (get j t.nodes)) [
  | inl missing ↦ ground (arith, missing, get-modify id j f t.nodes)
  | inr (n, found) ↦ ground (arith, found, get-modify id j f t.nodes, keeps n)
]

add_child-parent : (child : WorkspaceId) (n : WorkspaceNode) → (add_child child n).parent ≡ n.parent
add_child-parent child n = ground arith

detach-parent :
    (child j : WorkspaceId) (parent : Option WorkspaceId) (t : WorkspaceTree)
    → parent_of j (detach child parent t.nodes) ≡ parent_of j t.nodes
detach-parent child j none t = refl
detach-parent child j (some parent) t = modify-parent parent j (drop_child child) t (λ n. refl)

set_parent-parent :
    (child parent j : WorkspaceId) (t : WorkspaceTree)
    → parent_of j (modify child (set_parent parent) t.nodes)
      ≡ (if child == j && has j t then some parent else parent_of j t.nodes)
set_parent-parent child parent j t = elim (Option-cases (get j t.nodes)) [
  | inl missing ↦ ground (arith, missing, get-modify child j (set_parent parent) t.nodes)
  | inr (n, found) ↦ ground (arith, found, get-modify child j (set_parent parent) t.nodes)
]

pub reparent-parent :
    (child parent j : WorkspaceId) (t : WorkspaceTree)
    → parent_of j (reparent child parent t).nodes
      ≡ (if child == j && has j t then some parent else parent_of j t.nodes)
unfolding reparent
reparent-parent child parent j t =
    let old = parent_of child t.nodes in
    let detached = record t { nodes = detach child old t.nodes } in
    let placed = record t { nodes = modify child (set_parent parent) detached.nodes } in
    ground (
      arith,
      modify-parent parent j (add_child child) placed (add_child-parent child),
      set_parent-parent child parent j detached,
      detach-parent child j old t,
      detach-has child j old t,
    )
