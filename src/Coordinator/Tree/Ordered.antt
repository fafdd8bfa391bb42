-- ===== src/Coordinator/Tree/Ordered.antt =====
-- Trees whose nodes stand after their parents and before their children (tree.rs), and how long the
-- traversals run on them.
use wacp_platform.Prelude.{
  ℕ, zero, suc, ◌+◌, ◌≤◌, ◌<◌, Bool, true, false, not, ◌&&◌, Option, none, some, HashMap, String,
  get, contains, all, string_eq, List, [], ◌∷◌, ◌++◌, ◌==◌, if◌then◌else◌, length, ◌≡◌, refl, arith,
  ◌∙◌, sym, Bool-cases, Option-cases, inl, inr, ap, is_some,
}
use wacp_platform.Types.Records.{WorkspaceId}
use wacp_platform.Coordinator.Tree.{WorkspaceNode, WorkspaceTree, children}
use wacp_platform.Coordinator.Tree.Traversal.{visit, parent_chain}

abbrev pub Nodes : Type 0
Nodes = HashMap String WorkspaceNode

abbrev pub parent_in : List WorkspaceId → Option WorkspaceId → Bool
parent_in seen none = true
parent_in seen (some parent) = contains seen parent

abbrev pub children_after : List WorkspaceId → List WorkspaceId → Bool
children_after seen ids = all (λ c. not (contains seen c)) ids

-- Each node occurs once, its parent stands in front of it, and its children do not.
abbrev pub is_ordered : List WorkspaceId → Nodes → Bool
is_ordered seen [] = true
is_ordered seen ((k, n) ∷ nodes) =
    not (contains seen k)
    && (children_after (k ∷ seen) n.children
        && (parent_in seen n.parent && is_ordered (k ∷ seen) nodes))

-- A node's place.
abbrev index : WorkspaceId → Nodes → ℕ
index id [] = 0
index id ((k, n) ∷ nodes) = if k == id then 0 else suc (index id nodes)

-- The first binding of a key is the one that is found.
pub found-here :
    (k id : String) (m n : WorkspaceNode) (nodes : Nodes)
    → (k == id) ≡ true
    → get id ((k, m) ∷ nodes) ≡ some n
    → m ≡ n
unfolding get
found-here k id m n nodes same found =
    let here : some m ≡ some n = ground arith in ground (arith, here)

index-parent :
    (seen : List WorkspaceId) (nodes : Nodes) (id parent : WorkspaceId) (n : WorkspaceNode)
    → is_ordered seen nodes ≡ true
    → get id nodes ≡ some n
    → n.parent ≡ some parent
    → contains seen parent ≡ false
    → index parent nodes < index id nodes
unfolding get
index-parent seen [] id parent n ordered found up fresh = ground arith
index-parent seen ((k, m) ∷ nodes) id parent n ordered found up fresh =
    elim (Bool-cases (k == id)) [
      | inl same ↦
          let up' = ap (λ x. x.parent) (found-here k id m n nodes same found) ∙ up in
          absurd (ground (arith, up'))
      | inr other ↦ elim (Bool-cases (k == parent)) [
        | inl first ↦ ground arith
        | inr later ↦ ground (
          arith,
          index-parent (k ∷ seen) nodes id parent n (ground arith) (ground arith) up (ground arith),
        )
      ]
    ]

-- The chain of parents ends, on as much fuel as the place of the node and one more.
parent_chain-is_some :
    (fuel : ℕ) (id : WorkspaceId) (t : WorkspaceTree)
    → is_ordered [] t.nodes ≡ true
    → index id t.nodes < fuel
    → is_some (parent_chain fuel id t) ≡ true
unfolding parent_chain
parent_chain-is_some zero id t ordered h = absurd (omega arith)
parent_chain-is_some (suc fuel) id t ordered h = elim (Option-cases (get id t.nodes)) [
  | inl missing ↦ ground (arith, missing)
  | inr (n, found) ↦ elim (Option-cases n.parent) [
    | inl top ↦ ground (arith, found, top)
    | inr (parent, up) ↦
        let before = index-parent [] t.nodes id parent n ordered found up refl in
        let rest = parent_chain-is_some fuel parent t ordered (omega (arith, before)) in
        ground (arith, found, up, rest)
  ]
]

index-length : (id : WorkspaceId) (nodes : Nodes) → index id nodes ≤ length nodes
index-length id [] = omega arith
index-length id ((k, n) ∷ nodes) = ground (arith, index-length id nodes)

pub parent_chain_ends :
    (id : WorkspaceId) (t : WorkspaceTree)
    → is_ordered [] t.nodes ≡ true
    → is_some (parent_chain (suc (length t.nodes)) id t) ≡ true
parent_chain_ends id t ordered =
    parent_chain-is_some (suc (length t.nodes)) id t ordered
      (omega (arith, index-length id t.nodes))

abbrev pub total : (WorkspaceId → ℕ) → List WorkspaceId → ℕ
total f [] = 0
total f (x ∷ xs) = f x + total f xs

-- How many visits a node causes: its own, and those of its children.
abbrev pub weight : Nodes → WorkspaceId → ℕ
weight [] id = 1
weight ((k, n) ∷ nodes) id =
    let rest = weight nodes in if k == id then suc (total rest n.children) else rest id

total-append :
    (f : WorkspaceId → ℕ) (xs ys : List WorkspaceId) → total f (xs ++ ys) ≡ total f xs + total f ys
total-append f [] ys = omega arith
total-append f (x ∷ xs) ys = omega (arith, total-append f xs ys)

total-weight :
    (k : WorkspaceId) (n : WorkspaceNode) (nodes : Nodes) (seen ids : List WorkspaceId)
    → children_after (k ∷ seen) ids ≡ true
    → total (weight ((k, n) ∷ nodes)) ids ≡ total (weight nodes) ids
total-weight k n nodes seen [] h = refl
total-weight k n nodes seen (x ∷ xs) h = ground (arith, total-weight k n nodes seen xs)

after-weaken :
    (k : WorkspaceId) (seen ids : List WorkspaceId)
    → children_after (k ∷ seen) ids ≡ true
    → children_after seen ids ≡ true
after-weaken k seen [] h = refl
after-weaken k seen (x ∷ xs) h = ground (arith, after-weaken k seen xs)

-- The children of a node stand behind all that stands in front of the node.
pub children-seen :
    (seen : List WorkspaceId) (nodes : Nodes) (id : WorkspaceId) (n : WorkspaceNode)
    → is_ordered seen nodes ≡ true
    → get id nodes ≡ some n
    → children_after seen n.children ≡ true
unfolding get
children-seen seen [] id n ordered found = ground arith
children-seen seen ((k, m) ∷ nodes) id n ordered found = elim (Bool-cases (k == id)) [
  | inl same ↦
      let own : children_after (k ∷ seen) n.children ≡ true =
        sym (ap (λ x. children_after (k ∷ seen) x.children) (found-here k id m n nodes same found))
        ∙ ground arith in
      after-weaken k seen n.children own
  | inr other ↦
      after-weaken k seen n.children
        (children-seen (k ∷ seen) nodes id n (ground arith) (ground arith))
]

weight-children :
    (seen : List WorkspaceId) (nodes : Nodes) (id : WorkspaceId) (n : WorkspaceNode)
    → is_ordered seen nodes ≡ true
    → get id nodes ≡ some n
    → weight nodes id ≡ suc (total (weight nodes) n.children)
unfolding get
weight-children seen [] id n ordered found = ground arith
weight-children seen ((k, m) ∷ nodes) id n ordered found = elim (Bool-cases (k == id)) [
  | inl same ↦
      let here = found-here k id m n nodes same found in
      let own : children_after (k ∷ seen) n.children ≡ true =
        sym (ap (λ x. children_after (k ∷ seen) x.children) here) ∙ ground arith in
      ground (
        arith,
        ap (λ x. total (weight nodes) x.children) here,
        total-weight k m nodes seen n.children own,
      )
  | inr other ↦
      let rest = weight-children (k ∷ seen) nodes id n (ground arith) (ground arith) in
      let own = children-seen (k ∷ seen) nodes id n (ground arith) (ground arith) in
      ground (arith, rest, total-weight k m nodes seen n.children own)
]

weight-missing : (nodes : Nodes) (id : WorkspaceId) → get id nodes ≡ none → weight nodes id ≡ 1
unfolding get
weight-missing [] id h = refl
weight-missing ((k, n) ∷ nodes) id h = ground (arith, weight-missing nodes id)

weight-next :
    (id : WorkspaceId) (t : WorkspaceTree)
    → is_ordered [] t.nodes ≡ true
    → weight t.nodes id ≡ suc (total (weight t.nodes) (children id t))
unfolding children
weight-next id t ordered = elim (Option-cases (get id t.nodes)) [
  | inl missing ↦ ground (arith, missing, weight-missing t.nodes id missing)
  | inr (n, found) ↦ ground (arith, found, weight-children [] t.nodes id n ordered found)
]

-- The traversal ends, on as much fuel as it makes visits.
pub visit-is_some :
    (fuel : ℕ) (queue : List WorkspaceId) (t : WorkspaceTree)
    → is_ordered [] t.nodes ≡ true
    → total (weight t.nodes) queue ≤ fuel
    → is_some (visit fuel queue t) ≡ true
unfolding visit
visit-is_some fuel [] t ordered h = refl
visit-is_some zero (id ∷ queue) t ordered h = absurd (omega (arith, weight-next id t ordered))
visit-is_some (suc fuel) (id ∷ queue) t ordered h =
    let next = weight-next id t ordered in
    let sum = total-append (weight t.nodes) queue (children id t) in
    let rest = visit-is_some fuel (queue ++ children id t) t ordered (omega (arith, next, sum)) in
    ground (arith, rest)
