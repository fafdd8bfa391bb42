-- ===== src/Coordinator/Tree.antt =====
-- wacp/crates/wacp-coordinator/src/tree.rs: the tree of workspaces with its two indices.
pub mod Indices
pub mod Traversal
pub mod Cascade
pub mod Reparent
pub mod Moves
pub mod Descent
pub mod Ordered
pub mod Preserved
pub mod Below
use wacp_platform.Prelude.{
  ℕ, Bool, true, false, not, ◌&&◌, String, Option, none, some, HashMap, get, insert, modify,
  push_entry, get_list, contains_key, contains, retain, map, values, Eq, string_eq, List, [], ◌∷◌,
  ◌++◌, ◌==◌, if◌then◌else◌, Result, ok, err, ◌≡◌, ◌↔◌, refl, arith,
}
use wacp_platform.Types.Enums.{WorkspaceState, is_terminal}
use wacp_platform.Types.Enums.WorkspaceState.{active}
use wacp_platform.Types.Records.{WorkspaceId, UserId, TaskId, Originator}

pub data TreeError : Type 0 where
  parent_not_found duplicate_node node_not_found : String → TreeError
  same_owner : TreeError

pub record WorkspaceNode : Type 0 where
  pub id : WorkspaceId
  pub parent : Option WorkspaceId
  pub children : List WorkspaceId
  pub owner : UserId
  pub originator : Originator
  pub status : WorkspaceState
  pub task_id : Option TaskId

abbrev pub originator_beq : Originator → Originator → Bool
originator_beq Originator.system Originator.system = true
originator_beq (Originator.user a) (Originator.user b) = a == b
originator_beq _ _ = false

pub originator_beq_iff : (a b : Originator) → (originator_beq a b ≡ true) ↔ (a ≡ b)
originator_beq_iff Originator.system Originator.system = ground arith
originator_beq_iff Originator.system (Originator.user b) = ground arith
originator_beq_iff (Originator.user a) Originator.system = ground arith
originator_beq_iff (Originator.user a) (Originator.user b) = ground (arith, string_eq.beq_iff a b)

-- The derived `Eq` and `Hash` of `Originator`.
instance abbrev pub originator_eq : Eq Originator
originator_eq = record { beq = originator_beq; beq_iff = originator_beq_iff }

pub record WorkspaceTree : Type 0 where
  pub nodes : HashMap String WorkspaceNode
  pub root : WorkspaceId
  pub originator_index : HashMap Originator (List WorkspaceId)
  pub owner_index : HashMap UserId (List WorkspaceId)

unfoldable pub new : WorkspaceId → UserId → WorkspaceTree
new root_id owner = record {
  nodes =
      (
        root_id,
        record {
          id = root_id;
          parent = none;
          children = [];
          owner = owner;
          originator = Originator.system;
          status = active;
          task_id = none;
        },
      )
      ∷ [];
  root = root_id;
  originator_index = (Originator.system, root_id ∷ []) ∷ [];
  owner_index = (owner, root_id ∷ []) ∷ [];
}

abbrev pub push_child : WorkspaceId → WorkspaceNode → WorkspaceNode
push_child child node = record node { children = node.children ++ child ∷ [] }

-- The end of `insert`, after its checks.
abbrev pub place : WorkspaceNode → WorkspaceId → WorkspaceTree → WorkspaceTree
place node parent t = record t {
  nodes = modify parent (push_child node.id) (insert node.id node t.nodes);
  originator_index = push_entry node.originator node.id t.originator_index;
  owner_index = push_entry node.owner node.id t.owner_index;
}

-- The source's `insert`.
unfoldable pub insert_node :
    WorkspaceNode → WorkspaceTree → WorkspaceTree × Result TreeError (Unit {0})
insert_node node t =
    if contains_key node.id t.nodes then (t, err (duplicate_node node.id)) else elim node.parent [
      | none ↦ (t, err (parent_not_found "None"))
      | some parent ↦
          if contains_key parent t.nodes
          then (place node parent t, ok tt)
          else (t, err (parent_not_found parent))
    ]

unfoldable pub by_originator : Originator → WorkspaceTree → List WorkspaceId
by_originator originator t = get_list originator t.originator_index

unfoldable pub by_owner : UserId → WorkspaceTree → List WorkspaceId
by_owner owner t = get_list owner t.owner_index

abbrev pub without : WorkspaceId → List WorkspaceId → List WorkspaceId
without id ids = retain (λ w. not (w == id)) ids

abbrev pub set_owner : UserId → WorkspaceNode → WorkspaceNode
set_owner owner node = record node { owner = owner }

-- The writes of `transfer_owner`.
abbrev pub hand_over : WorkspaceId → UserId → UserId → WorkspaceTree → WorkspaceTree
hand_over id old_owner new_owner t = record t {
  nodes = modify id (set_owner new_owner) t.nodes;
  owner_index = push_entry new_owner id (modify old_owner (without id) t.owner_index);
}

unfoldable pub transfer_owner :
    WorkspaceId → UserId → WorkspaceTree → WorkspaceTree × Result TreeError UserId
transfer_owner id new_owner t = elim (get id t.nodes) [
  | none ↦ (t, err (node_not_found id))
  | some node ↦
      if node.owner == new_owner
      then (t, err same_owner)
      else (hand_over id node.owner new_owner t, ok node.owner)
]

unfoldable pub update_status : WorkspaceId → WorkspaceState → WorkspaceTree → WorkspaceTree
update_status id status t = record t {
  nodes = modify id (λ n. record n { status = status }) t.nodes;
}

-- The filter of `causal_impact`.
unfoldable pub is_live : WorkspaceTree → WorkspaceId → Bool
is_live t id = elim (get id t.nodes) [ none ↦ false | some n ↦ not (is_terminal n.status) ]

unfoldable pub causal_impact : UserId → WorkspaceTree → List WorkspaceId
unfolding is_live by_originator
causal_impact user_id t = retain (is_live t) (by_originator (Originator.user user_id) t)

unfoldable pub children : WorkspaceId → WorkspaceTree → List WorkspaceId
children id t = elim (get id t.nodes) [ none ↦ [] | some n ↦ n.children ]

unfoldable pub siblings : WorkspaceId → WorkspaceTree → List WorkspaceId
unfolding children
siblings id t = elim (get id t.nodes) [
  | none ↦ []
  | some node ↦ elim node.parent [ none ↦ [] | some parent ↦ without id (children parent t) ]
]

abbrev pub drop_child : WorkspaceId → WorkspaceNode → WorkspaceNode
drop_child child node = record node { children = without child node.children }

abbrev pub set_parent : WorkspaceId → WorkspaceNode → WorkspaceNode
set_parent parent node = record node { parent = some parent }

abbrev pub add_child : WorkspaceId → WorkspaceNode → WorkspaceNode
add_child child node = if contains node.children child then node else push_child child node

abbrev pub parent_of : WorkspaceId → HashMap String WorkspaceNode → Option WorkspaceId
parent_of child nodes = elim (get child nodes) [ none ↦ none | some node ↦ node.parent ]

-- The first of the three steps of `reparent`.
abbrev pub detach :
    WorkspaceId → Option WorkspaceId → HashMap String WorkspaceNode → HashMap String WorkspaceNode
detach child none nodes = nodes
detach child (some old_parent) nodes = modify old_parent (drop_child child) nodes

unfoldable pub reparent : WorkspaceId → WorkspaceId → WorkspaceTree → WorkspaceTree
reparent child new_parent t = record t {
  nodes =
      modify new_parent (add_child child)
        (modify child (set_parent new_parent) (detach child (parent_of child t.nodes) t.nodes));
}

unfoldable pub is_causal_boundary : WorkspaceId → WorkspaceTree → Bool
is_causal_boundary id t = elim (get id t.nodes) [
  | none ↦ false
  | some node ↦ elim node.parent [
    | none ↦ false
    | some parent_id ↦ elim (get parent_id t.nodes) [
      | none ↦ false
      | some parent ↦ not (node.originator == parent.originator)
    ]
  ]
]

unfoldable pub active_workspaces : WorkspaceTree → List WorkspaceId
active_workspaces t = map (λ n. n.id) (retain (λ n. not (is_terminal n.status)) (values t.nodes))
