-- ===== src/Coordinator/Topology/Wiring.antt =====
-- What a workspace that the topology (topology.rs) has created is connected to.
use wacp_platform.Prelude.{
  true, some, get, get_list, string_eq, ok, ◌≡◌, refl, arith, get-insert, contains-add, Bool-cases,
  inl, inr, Option-cases, List, [], ◌∷◌, ℕ, String, subst, add, if_keeps, sym, Result-cases,
}
use wacp_platform.Types.Enums.{PortRightType}
use wacp_platform.Types.Records.{WorkspaceId, UserId}
use wacp_platform.Coordinator.Tree.{WorkspaceTree, insert_node}
use wacp_platform.Coordinator.Visibility.{VisibilityGraph, grant, can_see, add_entry}
use wacp_platform.Coordinator.Visibility as Visibility
use wacp_platform.Coordinator.Ownership.{route}
use wacp_platform.Coordinator.Ownership as Ownership
use wacp_platform.Coordinator.PortRights.{
  PortRightsGraph, PortRightEntry, active, right_name, create, expire_workspace, permits,
  validate_send,
}
use wacp_platform.Coordinator.PortRights.Index.{
  IsIndexed, new-IsIndexed, fresh, create-IsIndexed, expire_workspace-IsIndexed,
}
use wacp_platform.Coordinator.PortRights.Delivery.{validate_send_complete}
use wacp_platform.Coordinator.Topology.Termination.{
  Call, creates, terminates, transfers, step, Reachable, start, after_call,
}
use wacp_platform.Coordinator.Tree.Traversal.{descendants, cascade_failure}
use wacp_platform.Coordinator.Topology.{
  new, CascadeEffect, expire_failed, expire_descendant, cascade, close_workspace, first_effect,
  is_failure, is_failed, terminate_workspace, transfer_ownership, CreateWorkspaceParams,
  TopologySet, node_of, create_rights, connect, create_workspace,
}

abbrev sent : WorkspaceId → WorkspaceId → PortRightsGraph → PortRightEntry
sent holder target g = record {
  id = right_name g.next_id;
  holder = holder;
  target = target;
  kind = PortRightType.send;
  status = active;
}

-- A right that exists is not touched by a new one.
create-keeps :
    (holder target id : WorkspaceId) (kind : PortRightType) (g : PortRightsGraph)
    (entry : PortRightEntry)
    → IsIndexed g
    → get id g.by_id ≡ some entry
    → get id (create holder target kind g).0.by_id ≡ some entry
unfolding create
create-keeps holder target id kind g entry inv h =
    let new_id = right_name g.next_id in
    let made : PortRightEntry = record (sent holder target g) { kind = kind } in
    ground (arith, fresh g inv, get-insert new_id id made g.by_id, string_eq.beq_iff new_id id)

create-gets :
    (holder target : WorkspaceId) (g : PortRightsGraph)
    → get (right_name g.next_id) (create holder target PortRightType.send g).0.by_id
      ≡ some (sent holder target g)
unfolding create
create-gets holder target g =
    let id = right_name g.next_id in
    ground (arith, get-insert id id (sent holder target g) g.by_id, string_eq.beq_iff id id)

-- A right to send that was created allows an envelope.
right-validates :
    (holder target id : WorkspaceId) (g : PortRightsGraph) (entry : PortRightEntry)
    → IsIndexed g
    → get id g.by_id ≡ some entry
    → entry.holder ≡ holder
    → permits target entry ≡ true
    → (found : WorkspaceId) × (validate_send holder target g ≡ ok found)
right-validates holder target id g entry inv = validate_send_complete g inv holder target id entry

create_rights-IsIndexed :
    (id parent : WorkspaceId) (g : PortRightsGraph)
    → IsIndexed g
    → IsIndexed (create_rights id parent g)
create_rights-IsIndexed id parent g inv =
    let first = create parent id PortRightType.send g in
    let second = create id parent PortRightType.send first.0 in
    let first_inv = create-IsIndexed g inv parent id PortRightType.send in
    create-IsIndexed second.0 (create-IsIndexed first.0 first_inv id parent PortRightType.send) id
      id PortRightType.receive

-- A new workspace and its parent may send to each other.
create_rights-validates :
    (id parent : WorkspaceId) (g : PortRightsGraph)
    → IsIndexed g
    → ((down : String) × (validate_send parent id (create_rights id parent g) ≡ ok down))
      × ((up : String) × (validate_send id parent (create_rights id parent g) ≡ ok up))
create_rights-validates id parent g inv =
    let first = create parent id PortRightType.send g in
    let second = create id parent PortRightType.send first.0 in
    let first_inv = create-IsIndexed g inv parent id PortRightType.send in
    let second_inv = create-IsIndexed first.0 first_inv id parent PortRightType.send in
    let last_inv = create_rights-IsIndexed id parent g inv in
    let down = sent parent id g in
    let up = sent id parent first.0 in
    (
      right-validates parent id down.id _ down last_inv
          (create-keeps id id down.id PortRightType.receive second.0 down second_inv (
            create-keeps id parent down.id PortRightType.send first.0 down first_inv
              (create-gets parent id g)))
          refl (ground (arith, string_eq.beq_iff id id)),
      right-validates id parent up.id _ up last_inv
          (create-keeps id id up.id PortRightType.receive second.0 up second_inv
            (create-gets id parent first.0))
          refl (ground (arith, string_eq.beq_iff parent parent)),
    )

expire_failed-IsIndexed :
    (tree : WorkspaceTree) (ids : List WorkspaceId) (state : PortRightsGraph × CascadeEffect)
    → IsIndexed state.0
    → IsIndexed (expire_failed tree ids state).0
unfolding expire_failed expire_descendant
expire_failed-IsIndexed tree [] state inv = inv
expire_failed-IsIndexed tree (id ∷ ids) state inv = expire_failed-IsIndexed tree ids _ (
    if_keeps (λ (x : PortRightsGraph × CascadeEffect). IsIndexed x.0)
      (is_failed (get id tree.nodes)) (expire_workspace-IsIndexed id state.0 inv) inv)

cascade-IsIndexed :
    (fuel : ℕ) (id : WorkspaceId) (s next : TopologySet) (effect counted : CascadeEffect)
    → IsIndexed s.port_rights
    → cascade fuel id s effect ≡ some (next, counted)
    → IsIndexed next.port_rights
unfolding cascade
cascade-IsIndexed fuel id s next effect counted inv h =
    elim (Option-cases (cascade_failure fuel id s.tree)) [
      | inl out ↦ absurd (ground (arith, out))
      | inr ((tree, moved), failed) ↦ elim (Option-cases (descendants fuel id tree)) [
        | inl out ↦ absurd (ground (arith, failed, out))
        | inr (desc, listed) ↦
            let same : (expire_failed tree desc (s.port_rights, effect)).0 ≡ next.port_rights =
              ground (arith, failed, listed) in
            subst IsIndexed same (expire_failed-IsIndexed tree desc (s.port_rights, effect) inv)
      ]
    ]

step-IsIndexed :
    (fuel : ℕ) (c : Call) (s next : TopologySet)
    → IsIndexed s.port_rights
    → step fuel c s ≡ some next
    → IsIndexed next.port_rights
unfolding step create_workspace terminate_workspace transfer_ownership
step-IsIndexed fuel (creates params) s next inv h =
    let inserted = insert_node (node_of params) s.tree in
    elim (Result-cases inserted.1) [
      | inl (u, done) ↦
          let same : create_rights params.id params.parent s.port_rights ≡ next.port_rights =
            ground (arith, done) in
          subst IsIndexed same (create_rights-IsIndexed params.id params.parent s.port_rights inv)
      | inr (e, failed) ↦
          let same : s.port_rights ≡ next.port_rights = ground (arith, failed) in
          subst IsIndexed same inv
    ]
step-IsIndexed fuel (terminates id status) s next inv h =
    let closed_inv = expire_workspace-IsIndexed id s.port_rights inv in
    elim (Bool-cases (is_failure status)) [
      | inl failure ↦
          elim (Option-cases (cascade fuel id (close_workspace id status s) (first_effect id s))) [
            | inl out ↦ absurd (ground (arith, failure, out))
            | inr ((after, effect), done) ↦
                let same : after ≡ next = ground (arith, failure, done) in
                subst (λ x. IsIndexed x.port_rights) same
                  (cascade-IsIndexed fuel id (close_workspace id status s) after (first_effect id s)
                    effect closed_inv done)
          ]
      | inr other ↦
          let same : expire_workspace id s.port_rights ≡ next.port_rights = ground (arith, other) in
          subst IsIndexed same closed_inv
    ]
step-IsIndexed fuel (transfers id owner) s next inv h =
    let same : s.port_rights ≡ next.port_rights = ground arith in subst IsIndexed same inv

Reachable-IsIndexed :
    {root : WorkspaceId} {owner : UserId} {s : TopologySet}
    → Reachable root owner s
    → IsIndexed s.port_rights
unfolding new
Reachable-IsIndexed start = new-IsIndexed
Reachable-IsIndexed (after_call {s} {next} fuel c before h) =
    step-IsIndexed fuel c s next (Reachable-IsIndexed before) h

grant-can_see :
    (viewer target : WorkspaceId) (g : VisibilityGraph)
    → can_see viewer target (grant viewer target g).0 ≡ true
unfolding grant can_see add_entry
grant-can_see viewer target g = ground (
  arith,
  get-insert viewer viewer (add target (get_list viewer g.sees)) g.sees,
  string_eq.beq_iff viewer viewer,
  string_eq.beq_iff target target,
  contains-add target target (get_list viewer g.sees),
)

-- The workspace and its parent may send to each other, the root can see it, and its escalations go to
-- its owner.
pub record IsConnected (params : CreateWorkspaceParams) (s : TopologySet) : Type 0 where
  pub down : (right : String) × (validate_send params.parent params.id s.port_rights ≡ ok right)
  pub up : (right : String) × (validate_send params.id params.parent s.port_rights ≡ ok right)
  pub seen : can_see s.tree.root params.id s.visibility ≡ true
  pub routed : route params.id s.escalation ≡ some params.owner

connect-IsConnected :
    (params : CreateWorkspaceParams) (tree : WorkspaceTree) (s : TopologySet)
    → IsIndexed s.port_rights
    → IsConnected params (connect params tree s)
unfolding route Ownership.register
connect-IsConnected params tree s inv =
    let (down, up) = create_rights-validates params.id params.parent s.port_rights inv in
    record {
      down = down;
      up = up;
      seen = grant-can_see tree.root params.id (Visibility.register params.id s.visibility);
      routed = ground (
        arith,
        get-insert params.id params.id params.owner s.escalation.routing,
        string_eq.beq_iff params.id params.id,
      );
    }

-- In every topology that calls lead to, a creation that succeeds connects the new workspace: it and its
-- parent may send to each other, the root can see it, and its escalations go to its owner.
pub create_workspace-IsConnected :
    {root : WorkspaceId} {owner : UserId} {s : TopologySet} (params : CreateWorkspaceParams)
    → Reachable root owner s
    → (create_workspace params s).1 ≡ ok tt
    → IsConnected params (create_workspace params s).0
unfolding create_workspace
create_workspace-IsConnected {s = s} params reached done =
    let inserted = insert_node (node_of params) s.tree in
    elim (Result-cases inserted.1) [
      | inl (u, placed) ↦
          let same : (create_workspace params s).0 ≡ connect params inserted.0 s =
            ground (arith, placed) in
          subst (IsConnected params) (sym same)
            (connect-IsConnected params inserted.0 s (Reachable-IsIndexed reached))
      | inr (e, failed) ↦ absurd (ground (arith, failed))
    ]
