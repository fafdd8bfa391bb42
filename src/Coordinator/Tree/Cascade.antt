-- ===== src/Coordinator/Tree/Cascade.antt =====
-- The cascade of failures (tree.rs), by the nodes that it changes.
use wacp_platform.Prelude.{
  ℕ, zero, suc, ◌++◌, Bool, false, ◌&&◌, Option, none, some, get, modify, contains, retain,
  string_eq, List, [], ◌∷◌, ◌==◌, if◌then◌else◌, ◌≡◌, refl, arith, ◌∙◌, HashMap, String, get-modify,
  Bool-cases, Option-cases, inl, inr, ap,
}
use mathlib.Core.Option
use mathlib.Core.Path.{fun_ext}
use wacp_platform.Types.Enums.{WorkspaceState}
use wacp_platform.Types.Records.{WorkspaceId, UserId}
use wacp_platform.Coordinator.Tree.{
  WorkspaceNode, WorkspaceTree, update_status, reparent, children, detach, parent_of, drop_child,
  set_parent, add_child,
}
use wacp_platform.Coordinator.Tree.Traversal.{
  cascade_child, owner_of, is_foreign, visit, cascade_each,
}

abbrev pub status_of : WorkspaceId → WorkspaceTree → Option WorkspaceState
status_of id t = Option.map (λ n. n.status) (get id t.nodes)

abbrev pub is_owner : UserId → Option UserId → Bool
is_owner o none = false
is_owner o (some p) = p == o

abbrev pub fail_if : Bool → Option WorkspaceState → Option WorkspaceState
fail_if test none = none
fail_if test (some s) = if test then some WorkspaceState.failed else some s

-- A write that keeps a field keeps it at every key.
modify-view {ℓ} :
    {A : Type ℓ} (view : WorkspaceNode → A) (f : WorkspaceNode → WorkspaceNode) (k j : WorkspaceId)
    (nodes : HashMap String WorkspaceNode)
    → ((n : WorkspaceNode) → view (f n) ≡ view n)
    → Option.map view (get j (modify k f nodes)) ≡ Option.map view (get j nodes)
modify-view view f k j nodes keeps = rw (get-modify k j f nodes) (elim (Bool-cases (k == j)) [
  | inl same ↦ rw same (elim (Option-cases (get j nodes)) [
    | inl missing ↦ rw missing
    | inr (n, found) ↦ rw found (ap some (keeps n))
  ])
  | inr other ↦ rw other
])

add_child-owner : (child : WorkspaceId) (n : WorkspaceNode) → (add_child child n).owner ≡ n.owner
add_child-owner child n = ground arith

add_child-status : (child : WorkspaceId) (n : WorkspaceNode) → (add_child child n).status ≡ n.status
add_child-status child n = ground arith

detach-view {ℓ} :
    {A : Type ℓ} (view : WorkspaceNode → A) (child j : WorkspaceId) (parent : Option WorkspaceId)
    (nodes : HashMap String WorkspaceNode)
    → ((n : WorkspaceNode) → view (drop_child child n) ≡ view n)
    → Option.map view (get j (detach child parent nodes)) ≡ Option.map view (get j nodes)
detach-view view child j none nodes keeps = refl
detach-view view child j (some parent) nodes keeps =
    modify-view view (drop_child child) parent j nodes keeps

-- What moving a node keeps of every node.
reparent-view {ℓ} :
    {A : Type ℓ} (view : WorkspaceNode → A) (child parent j : WorkspaceId) (t : WorkspaceTree)
    → ((n : WorkspaceNode) → view (drop_child child n) ≡ view n)
    → ((n : WorkspaceNode) → view (set_parent parent n) ≡ view n)
    → ((n : WorkspaceNode) → view (add_child child n) ≡ view n)
    → Option.map view (get j (reparent child parent t).nodes) ≡ Option.map view (get j t.nodes)
unfolding reparent
reparent-view view child parent j t drops sets adds =
    let detached = detach child (parent_of child t.nodes) t.nodes in
    modify-view view (add_child child) parent j (modify child (set_parent parent) detached) adds
    ∙ modify-view view (set_parent parent) child j detached sets
    ∙ detach-view view child j (parent_of child t.nodes) t.nodes drops

pub update_status-owner :
    (child j : WorkspaceId) (s : WorkspaceState) (t : WorkspaceTree)
    → owner_of j (update_status child s t) ≡ owner_of j t
unfolding update_status
update_status-owner child j s t = modify-view (λ n. n.owner) _ child j t.nodes (λ n. refl)

pub update_status-status :
    (child j : WorkspaceId) (s : WorkspaceState) (t : WorkspaceTree)
    → status_of j (update_status child s t)
      ≡ (if child == j then Option.map (λ _. s) (status_of j t) else status_of j t)
unfolding update_status
update_status-status child j s t =
    ground (arith, get-modify child j (λ n. record n { status = s }) t.nodes)

reparent-owner :
    (child parent j : WorkspaceId) (t : WorkspaceTree)
    → owner_of j (reparent child parent t) ≡ owner_of j t
reparent-owner child parent j t =
    reparent-view (λ n. n.owner) child parent j t (λ n. refl) (λ n. refl) (add_child-owner child)

reparent-status :
    (child parent j : WorkspaceId) (t : WorkspaceTree)
    → status_of j (reparent child parent t) ≡ status_of j t
reparent-status child parent j t =
    reparent-view (λ n. n.status) child parent j t (λ n. refl) (λ n. refl) (add_child-status child)

pub cascade_child-owner :
    (owner : UserId) (child j : WorkspaceId) (co : Option UserId) (t : WorkspaceTree)
    → owner_of j (cascade_child owner child co t) ≡ owner_of j t
unfolding cascade_child
cascade_child-owner owner child j none t = refl
cascade_child-owner owner child j (some co) t = elim (Bool-cases (co == owner)) [
  | inl same ↦ rw same (update_status-owner child j WorkspaceState.failed t)
  | inr other ↦ rw other (reparent-owner child t.root j t)
]

cascade_child-status :
    (owner : UserId) (child j : WorkspaceId) (co : Option UserId) (t : WorkspaceTree)
    → status_of j (cascade_child owner child co t)
      ≡ fail_if (child == j && is_owner owner co) (status_of j t)
unfolding cascade_child
cascade_child-status owner child j none t = ground arith
cascade_child-status owner child j (some co) t = elim (Bool-cases (co == owner)) [
  | inl same ↦ rw same (ground (arith, update_status-status child j WorkspaceState.failed t))
  | inr other ↦ rw other (ground (arith, reparent-status child t.root j t))
]

-- The loop: who is failed and who is moved.
pub cascade_each-owner :
    (owner : UserId) (desc : List WorkspaceId) (j : WorkspaceId) (t : WorkspaceTree)
    → owner_of j (cascade_each owner desc t).0 ≡ owner_of j t
unfolding cascade_each
cascade_each-owner owner [] j t = refl
cascade_each-owner owner (child ∷ rest) j t =
    cascade_each-owner owner rest j (cascade_child owner child (owner_of child t) t)
    ∙ cascade_child-owner owner child j (owner_of child t) t

pub cascade_each-status :
    (owner : UserId) (desc : List WorkspaceId) (j : WorkspaceId) (t : WorkspaceTree)
    → status_of j (cascade_each owner desc t).0
      ≡ fail_if (contains desc j && is_owner owner (owner_of j t)) (status_of j t)
unfolding cascade_each
cascade_each-status owner [] j t = ground arith
cascade_each-status owner (child ∷ rest) j t =
    let next = cascade_child owner child (owner_of child t) t in
    let rest_status = cascade_each-status owner rest j next in
    let next_owner = cascade_child-owner owner child j (owner_of child t) t in
    let next_status = cascade_child-status owner child j (owner_of child t) t in
    elim (Bool-cases (child == j)) [
      | inl same ↦
          let own : owner_of child t ≡ owner_of j t =
            ap (λ k. owner_of k t) ((string_eq.beq_iff child j).0 same) in
          ground (arith, rest_status, next_owner, next_status, own)
      | inr other ↦ ground (arith, rest_status, next_owner, next_status)
    ]

pub cascade_each-moved :
    (owner : UserId) (desc : List WorkspaceId) (t : WorkspaceTree)
    → (cascade_each owner desc t).1 ≡ retain (λ d. is_foreign owner (owner_of d t)) desc
unfolding cascade_each
cascade_each-moved owner [] t = refl
cascade_each-moved owner (child ∷ rest) t =
    let next = cascade_child owner child (owner_of child t) t in
    let same_owners =
      fun_ext
        (λ d. ap (is_foreign owner) (cascade_child-owner owner child d (owner_of child t) t)) in
    let moved = cascade_each-moved owner rest next ∙ ap (λ p. retain p rest) same_owners in
    rw moved refl

-- The traversal reads only the children, which a change of status keeps.
pub children-update_status :
    (child j : WorkspaceId) (s : WorkspaceState) (t : WorkspaceTree)
    → children j (update_status child s t) ≡ children j t
unfolding children update_status
children-update_status child j s t =
    ground (arith, get-modify child j (λ n. record n { status = s }) t.nodes)

pub visit-update_status :
    (fuel : ℕ) (queue : List WorkspaceId) (child : WorkspaceId) (s : WorkspaceState)
    (t : WorkspaceTree)
    → visit fuel queue (update_status child s t) ≡ visit fuel queue t
unfolding visit
visit-update_status fuel [] child s t = refl
visit-update_status zero (c ∷ queue) child s t = refl
visit-update_status (suc fuel) (c ∷ queue) child s t = rw (children-update_status child c s t) (
    ap (Option.map (λ result. children c t ++ result))
      (visit-update_status fuel (queue ++ children c t) child s t))
