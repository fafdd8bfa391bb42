-- ===== src/Coordinator/Tree/Preserved.antt =====
-- The operations of the tree (tree.rs) and the order of its nodes.
use wacp_platform.Prelude.{
  Bool, true, false, not, ◌||◌, Option, none, some, get, insert, modify, contains_key, contains,
  all-append, all-retain, string_eq, List, [], ◌∷◌, ◌==◌, ◌≡◌, refl, arith, ◌∙◌, sym, Bool-cases,
  Option-cases, inl, inr, ap, subst,
}
use wacp_platform.Types.Enums.{WorkspaceState}
use wacp_platform.Types.Records.{WorkspaceId, UserId}
use wacp_platform.Coordinator.Tree.{
  WorkspaceNode, WorkspaceTree, new, place, insert_node, hand_over, transfer_owner, update_status,
  reparent, push_child, drop_child, set_parent, set_owner, add_child, detach, parent_of,
}
use wacp_platform.Coordinator.Tree.Ordered.{Nodes, is_ordered, children_after}

-- A write that keeps parents and only drops children.
modify-ordered :
    (k : WorkspaceId) (f : WorkspaceNode → WorkspaceNode) (seen : List WorkspaceId) (nodes : Nodes)
    → ((n : WorkspaceNode) → (f n).parent ≡ n.parent)
    → ((s : List WorkspaceId) (n : WorkspaceNode)
        → children_after s n.children ≡ true
        → children_after s (f n).children ≡ true)
    → is_ordered seen nodes ≡ true
    → is_ordered seen (modify k f nodes) ≡ true
unfolding modify
modify-ordered k f seen [] parents kids h = refl
modify-ordered k f seen ((j, n) ∷ nodes) parents kids h =
    ground (arith, parents n, kids (j ∷ seen) n, modify-ordered k f (j ∷ seen) nodes parents kids)

insert-ordered :
    (node : WorkspaceNode) (parent : WorkspaceId) (seen : List WorkspaceId) (nodes : Nodes)
    → node.children ≡ []
    → node.parent ≡ some parent
    → contains seen node.id ≡ false
    → get node.id nodes ≡ none
    → (contains seen parent || contains_key parent nodes) ≡ true
    → is_ordered seen nodes ≡ true
    → is_ordered seen (insert node.id node nodes) ≡ true
unfolding insert get
insert-ordered node parent seen [] bare up fresh absent known h = ground (arith, bare, up)
insert-ordered node parent seen ((j, n) ∷ nodes) bare up fresh absent known h =
    ground (arith, string_eq.beq_iff j parent, insert-ordered node parent (j ∷ seen) nodes bare up)

-- The end of `insert`: the new node is the last, and its parent gets it as a child.
push-ordered :
    (node : WorkspaceNode) (parent : WorkspaceId) (seen : List WorkspaceId) (nodes : Nodes)
    → node.children ≡ []
    → node.parent ≡ some parent
    → contains seen node.id ≡ false
    → get node.id nodes ≡ none
    → contains_key parent nodes ≡ true
    → is_ordered seen nodes ≡ true
    → is_ordered seen (modify parent (push_child node.id) (insert node.id node nodes)) ≡ true
unfolding insert modify get
push-ordered node parent seen [] bare up fresh absent known h = ground arith
push-ordered node parent seen ((j, n) ∷ nodes) bare up fresh absent known h = ground (
  arith,
  string_eq.beq_iff j parent,
  all-append (λ c. not (contains (j ∷ seen) c)) n.children (node.id ∷ []),
  insert-ordered node parent (j ∷ seen) nodes bare up,
  push-ordered node parent (j ∷ seen) nodes bare up,
)

-- The first node is the root, and the order starts with it.
abbrev pub starts_at : WorkspaceId → Nodes → Bool
starts_at root [] = false
starts_at root ((k, _) ∷ _) = k == root

pub record IsOrdered (t : WorkspaceTree) : Type 0 where
  pub first : starts_at t.root t.nodes ≡ true
  pub ordered : is_ordered [] t.nodes ≡ true

starts_at-modify :
    (root k : WorkspaceId) (f : WorkspaceNode → WorkspaceNode) (nodes : Nodes)
    → starts_at root (modify k f nodes) ≡ starts_at root nodes
unfolding modify
starts_at-modify root k f [] = refl
starts_at-modify root k f ((j, n) ∷ nodes) = ground arith

starts_at-insert :
    (root k : WorkspaceId) (v : WorkspaceNode) (nodes : Nodes)
    → starts_at root nodes ≡ true
    → starts_at root (insert k v nodes) ≡ true
unfolding insert
starts_at-insert root k v [] h = ground arith
starts_at-insert root k v ((j, n) ∷ nodes) h = ground arith

pub new-IsOrdered : (root : WorkspaceId) (owner : UserId) → IsOrdered (new root owner)
unfolding new
new-IsOrdered root owner = record {
  first = ground (arith, string_eq.beq_iff root root);
  ordered = refl;
}

unchanged_IsOrdered : (t after : WorkspaceTree) → after ≡ t → IsOrdered t → IsOrdered after
unchanged_IsOrdered t after same inv = subst IsOrdered (sym same) inv

place-IsOrdered :
    (node : WorkspaceNode) (parent : WorkspaceId) (t : WorkspaceTree)
    → node.children ≡ []
    → node.parent ≡ some parent
    → get node.id t.nodes ≡ none
    → contains_key parent t.nodes ≡ true
    → IsOrdered t
    → IsOrdered (place node parent t)
place-IsOrdered node parent t bare up absent known inv = record {
  first =
      starts_at-modify t.root parent (push_child node.id) (insert node.id node t.nodes)
      ∙ starts_at-insert t.root node.id node t.nodes inv.first;
  ordered = push-ordered node parent [] t.nodes bare up refl absent known inv.ordered;
}

pub insert_node-IsOrdered :
    (node : WorkspaceNode) (t : WorkspaceTree)
    → node.children ≡ []
    → IsOrdered t
    → IsOrdered (insert_node node t).0
unfolding insert_node
insert_node-IsOrdered node t bare inv = elim (Bool-cases (contains_key node.id t.nodes)) [
  | inl old ↦ unchanged_IsOrdered t _ (ground (arith, old)) inv
  | inr absent ↦ elim (Option-cases node.parent) [
    | inl top ↦ unchanged_IsOrdered t _ (ground (arith, absent, top)) inv
    | inr (parent, up) ↦ elim (Bool-cases (contains_key parent t.nodes)) [
      | inl known ↦
          let made : (insert_node node t).0 ≡ place node parent t =
            ground (arith, absent, up, known) in
          subst IsOrdered (sym made)
            (place-IsOrdered node parent t bare up (ground (arith, absent)) known inv)
      | inr unknown ↦ unchanged_IsOrdered t _ (ground (arith, absent, up, unknown)) inv
    ]
  ]
]

keeps-IsOrdered :
    (k : WorkspaceId) (f : WorkspaceNode → WorkspaceNode) (t after : WorkspaceTree)
    → ((n : WorkspaceNode) → (f n).parent ≡ n.parent)
    → ((n : WorkspaceNode) → (f n).children ≡ n.children)
    → after.root ≡ t.root
    → after.nodes ≡ modify k f t.nodes
    → IsOrdered t
    → IsOrdered after
keeps-IsOrdered k f t after parents kids same made inv = record {
  first = ground (arith, same, made, starts_at-modify t.root k f t.nodes, inv.first);
  ordered =
      ap (is_ordered []) made
      ∙ modify-ordered k f [] t.nodes parents (λ s n h. ap (children_after s) (kids n) ∙ h)
          inv.ordered;
}

pub update_status-IsOrdered :
    (id : WorkspaceId) (s : WorkspaceState) (t : WorkspaceTree)
    → IsOrdered t
    → IsOrdered (update_status id s t)
unfolding update_status
update_status-IsOrdered id s t inv = keeps-IsOrdered id _ t _ (λ n. refl) (λ n. refl) refl refl inv

pub transfer_owner-IsOrdered :
    (id : WorkspaceId) (owner : UserId) (t : WorkspaceTree)
    → IsOrdered t
    → IsOrdered (transfer_owner id owner t).0
unfolding transfer_owner
transfer_owner-IsOrdered id owner t inv = elim (Option-cases (get id t.nodes)) [
  | inl missing ↦ unchanged_IsOrdered t _ (ground (arith, missing)) inv
  | inr (n, found) ↦ elim (Bool-cases (n.owner == owner)) [
    | inl same ↦ unchanged_IsOrdered t _ (ground (arith, found, same)) inv
    | inr other ↦
        let made : (transfer_owner id owner t).0 ≡ hand_over id n.owner owner t =
          ground (arith, found, other) in
        subst IsOrdered (sym made)
          (keeps-IsOrdered id (set_owner owner) t _ (λ n. refl) (λ n. refl) refl refl inv)
  ]
]

drop-after :
    (child : WorkspaceId) (s : List WorkspaceId) (n : WorkspaceNode)
    → children_after s n.children ≡ true
    → children_after s (drop_child child n).children ≡ true
drop-after child s n h = all-retain (λ c. not (contains s c)) (λ w. not (w == child)) n.children h

detach-ordered :
    (child : WorkspaceId) (parent : Option WorkspaceId) (nodes : Nodes)
    → is_ordered [] nodes ≡ true
    → is_ordered [] (detach child parent nodes) ≡ true
detach-ordered child none nodes h = h
detach-ordered child (some parent) nodes h =
    modify-ordered parent (drop_child child) [] nodes (λ n. refl) (drop-after child) h

set_parent-ordered :
    (child root : WorkspaceId) (seen : List WorkspaceId) (nodes : Nodes)
    → contains seen root ≡ true
    → is_ordered seen nodes ≡ true
    → is_ordered seen (modify child (set_parent root) nodes) ≡ true
unfolding modify
set_parent-ordered child root seen [] h ordered = refl
set_parent-ordered child root seen ((j, n) ∷ nodes) h ordered =
    ground (arith, set_parent-ordered child root (j ∷ seen) nodes)

starts_at-detach :
    (root child : WorkspaceId) (parent : Option WorkspaceId) (nodes : Nodes)
    → starts_at root (detach child parent nodes) ≡ starts_at root nodes
starts_at-detach root child none nodes = refl
starts_at-detach root child (some parent) nodes =
    starts_at-modify root parent (drop_child child) nodes

-- Another node than the root moves below the root.
move-ordered :
    (child root : WorkspaceId) (nodes : Nodes)
    → (child == root) ≡ false
    → starts_at root nodes ≡ true
    → is_ordered [] nodes ≡ true
    → is_ordered [] (modify root (add_child child) (modify child (set_parent root) nodes)) ≡ true
unfolding modify
move-ordered child root [] differs first ordered = ground arith
move-ordered child root ((k, n) ∷ nodes) differs first ordered = ground (
  arith,
  string_eq.beq_iff k root,
  string_eq.beq_iff k child,
  set_parent-ordered child root (k ∷ []) nodes,
  all-append (λ c. not (contains (k ∷ []) c)) n.children (child ∷ []),
)

pub reparent-IsOrdered :
    (child : WorkspaceId) (t : WorkspaceTree)
    → (child == t.root) ≡ false
    → IsOrdered t
    → IsOrdered (reparent child t.root t)
unfolding reparent
reparent-IsOrdered child t differs inv =
    let parent = parent_of child t.nodes in
    let detached = detach child parent t.nodes in
    let moved = modify child (set_parent t.root) detached in
    let first = starts_at-detach t.root child parent t.nodes ∙ inv.first in
    record {
      first =
          starts_at-modify t.root t.root (add_child child) moved
          ∙ starts_at-modify t.root child (set_parent t.root) detached
          ∙ first;
      ordered =
          move-ordered child t.root detached differs first
            (detach-ordered child parent t.nodes inv.ordered);
    }
