-- ===== src/Coordinator/Topology/Termination.antt =====
-- The calls of the topology (topology.rs), in any order, and the fuel on which they end.
use wacp_platform.Prelude.{
  ℕ, zero, suc, ◌+◌, true, Option, some, List, [], ◌∷◌, ◌++◌, length, is_some, Option-cases,
  Bool-cases, inl, inr, ◌≡◌, refl, arith, subst,
}
use mathlib.Core.Option
use wacp_platform.Types.Enums.{WorkspaceState}
use wacp_platform.Types.Records.{WorkspaceId, UserId}
use wacp_platform.Coordinator.Tree.{
  WorkspaceTree, children, insert_node, transfer_owner, update_status,
}
use wacp_platform.Coordinator.Tree.Traversal.{
  visit, descendants, parent_chain, cascade_each, cascade_failure, owner_of,
}
use wacp_platform.Coordinator.Tree.Ordered.{weight, total, visit-is_some, parent_chain_ends}
use wacp_platform.Coordinator.Tree.Preserved.{
  IsOrdered, new-IsOrdered, insert_node-IsOrdered, transfer_owner-IsOrdered,
  update_status-IsOrdered,
}
use wacp_platform.Coordinator.Tree.Below.{cascade_failure-IsOrdered}
use wacp_platform.Coordinator.Topology.{
  CreateWorkspaceParams, TopologySet, CascadeEffect, new, node_of, cascade, close_workspace,
  first_effect, is_failure, create_workspace, terminate_workspace, transfer_ownership,
}

pub data Call : Type 0 where
  creates : CreateWorkspaceParams → Call
  terminates : WorkspaceId → WorkspaceState → Call
  transfers : WorkspaceId → UserId → Call

-- The state after a call; `none` if the fuel is used up.
unfoldable pub step : ℕ → Call → TopologySet → Option TopologySet
unfolding create_workspace terminate_workspace transfer_ownership
step fuel (creates params) s = some (create_workspace params s).0
step fuel (terminates id status) s =
    Option.map (λ after. after.0) (terminate_workspace fuel id status s)
step fuel (transfers id owner) s = some (transfer_ownership id owner s).0

-- The states that calls lead to, each on the fuel that it takes.
pub data Reachable (root : WorkspaceId) (owner : UserId) : TopologySet → Type 0 where
  start : Reachable root owner (new root owner)
  after_call :
      {s next : TopologySet} (fuel : ℕ) (c : Call)
      → Reachable root owner s
      → step fuel c s ≡ some next
      → Reachable root owner next

visit-suc :
    (fuel : ℕ) (queue desc : List WorkspaceId) (t : WorkspaceTree)
    → visit fuel queue t ≡ some desc
    → visit (suc fuel) queue t ≡ some desc
unfolding visit
visit-suc fuel [] desc t h = h
visit-suc zero (id ∷ queue) desc t h = ground arith
visit-suc (suc fuel) (id ∷ queue) desc t h =
    let below = children id t in
    elim (Option-cases (visit fuel (queue ++ below) t)) [
      | inl out ↦ absurd (ground (arith, out))
      | inr (rest, done) ↦ ground (arith, done, visit-suc fuel (queue ++ below) rest t done)
    ]

visit-more :
    (more fuel : ℕ) (queue desc : List WorkspaceId) (t : WorkspaceTree)
    → visit fuel queue t ≡ some desc
    → visit (fuel + more) queue t ≡ some desc
visit-more zero fuel queue desc t h = let same : fuel + zero ≡ fuel = omega arith in rw same h
visit-more (suc more) fuel queue desc t h =
    let same : fuel + suc more ≡ suc (fuel + more) = omega arith in
    rw same (visit-suc (fuel + more) queue desc t (visit-more more fuel queue desc t h))

descendants_end :
    (id : WorkspaceId) (t : WorkspaceTree)
    → IsOrdered t
    → (fuel : ℕ) × (desc : List WorkspaceId) × ((more : ℕ)
        → descendants (fuel + more) id t ≡ some desc)
unfolding descendants
descendants_end id t inv =
    let fuel = total (weight t.nodes) (id ∷ []) in
    let ends = visit-is_some fuel (id ∷ []) t inv.ordered (omega arith) in
    elim (Option-cases (visit fuel (id ∷ []) t)) [
      | inl out ↦ absurd (ground (arith, out, ends))
      | inr (desc, done) ↦ (fuel, desc, λ more. visit-more more fuel (id ∷ []) desc t done)
    ]

cascade_failure_ends :
    (id : WorkspaceId) (t : WorkspaceTree)
    → IsOrdered t
    → (fuel : ℕ) × (result : WorkspaceTree × List WorkspaceId) × ((more : ℕ)
        → cascade_failure (fuel + more) id t ≡ some result)
unfolding cascade_failure
cascade_failure_ends id t inv = elim (Option-cases (owner_of id t)) [
  | inl missing ↦ (0, (t, []), λ more. ground (arith, missing))
  | inr (owner, owned) ↦
      let marked = update_status id WorkspaceState.failed t in
      let (fuel, desc, ends) =
        descendants_end id marked (update_status-IsOrdered id WorkspaceState.failed t inv) in
      (fuel, cascade_each owner desc marked, λ more. ground (arith, owned, ends more))
]

cascade_ends :
    (id : WorkspaceId) (s : TopologySet) (effect : CascadeEffect)
    → IsOrdered s.tree
    → (fuel : ℕ) × ((more : ℕ) → is_some (cascade (fuel + more) id s effect) ≡ true)
unfolding cascade
cascade_ends id s effect inv =
    let (first, (tree, moved), ends) = cascade_failure_ends id s.tree inv in
    let tree_inv = cascade_failure-IsOrdered (first + 0) id s.tree tree moved inv (ends 0) in
    let (second, desc, listed) = descendants_end id tree tree_inv in
    (
      first + second,
      λ more.
          let a : first + second + more ≡ first + (second + more) = omega arith in
          let b : first + second + more ≡ second + (first + more) = omega arith in
          let failed : cascade_failure (first + second + more) id s.tree ≡ some (tree, moved) =
            rw a (ends (second + more)) in
          let below : descendants (first + second + more) id tree ≡ some desc =
            rw b (listed (first + more)) in
          ground (arith, failed, below),
    )

cascade-IsOrdered :
    (fuel : ℕ) (id : WorkspaceId) (s next : TopologySet) (effect counted : CascadeEffect)
    → IsOrdered s.tree
    → cascade fuel id s effect ≡ some (next, counted)
    → IsOrdered next.tree
unfolding cascade
cascade-IsOrdered fuel id s next effect counted inv h =
    elim (Option-cases (cascade_failure fuel id s.tree)) [
      | inl out ↦ absurd (ground (arith, out))
      | inr ((tree, moved), failed) ↦
          let tree_inv = cascade_failure-IsOrdered fuel id s.tree tree moved inv failed in
          elim (Option-cases (descendants fuel id tree)) [
            | inl out ↦ absurd (ground (arith, failed, out))
            | inr (desc, listed) ↦
                let same : tree ≡ next.tree = ground (arith, failed, listed) in
                subst IsOrdered same tree_inv
          ]
    ]

terminate_workspace-IsOrdered :
    (fuel : ℕ) (id : WorkspaceId) (status : WorkspaceState) (s next : TopologySet)
    (effect : CascadeEffect)
    → IsOrdered s.tree
    → terminate_workspace fuel id status s ≡ some (next, effect)
    → IsOrdered next.tree
unfolding terminate_workspace
terminate_workspace-IsOrdered fuel id status s next effect inv h =
    let closed = close_workspace id status s in
    let closed_inv = update_status-IsOrdered id status s.tree inv in
    elim (Bool-cases (is_failure status)) [
      | inl failure ↦
          cascade-IsOrdered fuel id closed next (first_effect id s) effect closed_inv
            (ground (arith, failure))
      | inr other ↦
          let same : closed ≡ next = ground (arith, other) in
          subst (λ x. IsOrdered x.tree) same closed_inv
    ]

step-IsOrdered :
    (fuel : ℕ) (c : Call) (s next : TopologySet)
    → IsOrdered s.tree
    → step fuel c s ≡ some next
    → IsOrdered next.tree
unfolding step create_workspace transfer_ownership
step-IsOrdered fuel (creates params) s next inv h =
    let inserted = insert_node-IsOrdered (node_of params) s.tree refl inv in
    let same : (insert_node (node_of params) s.tree).0 ≡ next.tree = ground arith in
    subst IsOrdered same inserted
step-IsOrdered fuel (terminates id status) s next inv h =
    elim (Option-cases (terminate_workspace fuel id status s)) [
      | inl out ↦ absurd (ground (arith, out))
      | inr ((after, effect), done) ↦
          let same : after ≡ next = ground (arith, done) in
          subst (λ x. IsOrdered x.tree) same
            (terminate_workspace-IsOrdered fuel id status s after effect inv done)
    ]
step-IsOrdered fuel (transfers id owner) s next inv h =
    let transferred = transfer_owner-IsOrdered id owner s.tree inv in
    let same : (transfer_owner id owner s.tree).0 ≡ next.tree = ground arith in
    subst IsOrdered same transferred

Reachable-IsOrdered :
    {root : WorkspaceId} {owner : UserId} {s : TopologySet}
    → Reachable root owner s
    → IsOrdered s.tree
unfolding new
Reachable-IsOrdered {root} {owner} start = new-IsOrdered root owner
Reachable-IsOrdered (after_call {s} {next} fuel c before h) =
    step-IsOrdered fuel c s next (Reachable-IsOrdered before) h

-- In every topology that calls lead to, each further call ends: there is an amount of fuel on which it
-- gives a result, and so does any more.
pub call_ends :
    {root : WorkspaceId} {owner : UserId} {s : TopologySet} (c : Call)
    → Reachable root owner s
    → (fuel : ℕ) × ((more : ℕ) → is_some (step (fuel + more) c s) ≡ true)
unfolding step terminate_workspace
call_ends (creates params) reached = (0, λ more. refl)
call_ends {s = s} (terminates id status) reached =
    let inv = update_status-IsOrdered id status s.tree (Reachable-IsOrdered reached) in
    let (fuel, ends) = cascade_ends id (close_workspace id status s) (first_effect id s) inv in
    (
      fuel,
      λ more. elim (Bool-cases (is_failure status)) [
        | inl failure ↦ ground (arith, failure, ends more)
        | inr other ↦ ground (arith, other)
      ],
    )
call_ends (transfers id owner) reached = (0, λ more. refl)

-- In every topology that calls lead to, the chain of parents of any workspace ends after at most as many
-- steps as there are workspaces, and the traversal of its descendants ends.
pub traversals_end :
    {root : WorkspaceId} {owner : UserId} {s : TopologySet} (id : WorkspaceId)
    → Reachable root owner s
    → (is_some (parent_chain (suc (length s.tree.nodes)) id s.tree) ≡ true)
      × ((fuel : ℕ) × (desc : List WorkspaceId) × ((more : ℕ)
            → descendants (fuel + more) id s.tree ≡ some desc))
traversals_end {s = s} id reached =
    let inv = Reachable-IsOrdered reached in
    (parent_chain_ends id s.tree inv.ordered, descendants_end id s.tree inv)
