-- ===== src/Coordinator/PortRights/Index.antt =====
-- The indices of the port rights graph (port_rights.rs) by holder and by target, over its calls.
use wacp_platform.Prelude.{
  ℕ, ◌+◌, Bool, false, not, String, Option, none, some, get, modify, get_list, string_eq, nat_eq,
  List, [], ◌∷◌, ◌==◌, Result, ◌≡◌, refl, arith, contains, contains-push_entry,
  contains-modify-retain, get-insert, get-modify, Option-cases, if_keeps, inl, inr, ap,
}
use wacp_platform.Prelude.Decimal.{numbered_eq}
use wacp_platform.Types.Enums.{PortRightType}
use wacp_platform.Types.Records.{WorkspaceId}
use wacp_platform.Coordinator.PortRights.{
  PortRightEntry, PortRightStatus, PortRightError, active, consumed, revoked, PortRightsGraph, new,
  right_name, move_right, create, transfer, without, set_holder, set_status, is_active, is_receive,
  is_send_once, consume, revoke, expire, expire_all, expire_workspace,
}

abbrev pub held_by : WorkspaceId → Option PortRightEntry → Bool
held_by w none = false
held_by w (some e) = e.holder == w

abbrev pub aimed_at : WorkspaceId → Option PortRightEntry → Bool
aimed_at w none = false
aimed_at w (some e) = e.target == w

pub record IsIndexed (g : PortRightsGraph) : Type 0 where
  pub holders :
      (w : WorkspaceId) (id : String)
      → contains (get_list w g.by_holder) id ≡ held_by w (get id g.by_id)
  pub targets :
      (w : WorkspaceId) (id : String)
      → contains (get_list w g.by_target) id ≡ aimed_at w (get id g.by_id)
  pub unused : (k : ℕ) → get (right_name (g.next_id + k)) g.by_id ≡ none

pub new-IsIndexed : IsIndexed new
unfolding get
new-IsIndexed = record { holders = λ w id. refl; targets = λ w id. refl; unused = λ k. refl }

module _ (g : PortRightsGraph) (inv : IsIndexed g) where
  pub fresh : get (right_name g.next_id) g.by_id ≡ none
  fresh = let e : g.next_id + 0 ≡ g.next_id = omega arith in rw e at (inv.unused 0)

  pub create-IsIndexed :
      (holder target : WorkspaceId) (kind : PortRightType)
      → IsIndexed (create holder target kind g).0
  unfolding create
  create-IsIndexed holder target kind =
      let id = right_name g.next_id in
      let entry : PortRightEntry = record {
        id = id;
        holder = holder;
        target = target;
        kind = kind;
        status = active;
      } in
      record {
        holders = λ w x. ground (
          arith,
          contains-push_entry holder w id x g.by_holder,
          get-insert id x entry g.by_id,
          inv.holders w x,
          string_eq.beq_iff id x,
          fresh,
        );
        targets = λ w x. ground (
          arith,
          contains-push_entry target w id x g.by_target,
          get-insert id x entry g.by_id,
          inv.targets w x,
          string_eq.beq_iff id x,
          fresh,
        );
        unused = λ k.
            let e : g.next_id + 1 + k ≡ g.next_id + (k + 1) = omega arith in
            ground (
              arith,
              get-insert id (right_name (g.next_id + 1 + k)) entry g.by_id,
              numbered_eq "pr-" g.next_id (g.next_id + 1 + k),
              ap right_name e,
              inv.unused (k + 1),
            );
      }

  moved-IsIndexed :
      (right_id : String) (new_holder : WorkspaceId) (entry : PortRightEntry)
      → get right_id g.by_id ≡ some entry
      → IsIndexed (move_right right_id entry.holder new_holder g)
  moved-IsIndexed right_id new_holder entry e = record {
    holders = λ w x. ground (
      arith,
      contains-push_entry new_holder w right_id x
          (modify entry.holder (without right_id) g.by_holder),
      contains-modify-retain entry.holder w (λ y. not (y == right_id)) x g.by_holder,
      get-modify right_id x (set_holder new_holder) g.by_id,
      inv.holders w x,
      string_eq.beq_iff right_id x,
      string_eq.beq_iff x right_id,
    );
    targets = λ w x.
        ground (arith, get-modify right_id x (set_holder new_holder) g.by_id, inv.targets w x);
    unused = λ k. ground (
      arith,
      get-modify right_id (right_name (g.next_id + k)) (set_holder new_holder) g.by_id,
      inv.unused k,
    );
  }

  -- A write to one entry that keeps its holder and its target keeps the indices exact.
  rewritten-IsIndexed :
      (right_id : String) (f : PortRightEntry → PortRightEntry)
      → ((x : PortRightEntry) → ((f x).holder ≡ x.holder) × ((f x).target ≡ x.target))
      → IsIndexed (record g { by_id = modify right_id f g.by_id })
  rewritten-IsIndexed right_id f keeps = record {
    holders = λ w x. elim (Option-cases (get x g.by_id)) [
      | inl e ↦ ground (arith, get-modify right_id x f g.by_id, inv.holders w x)
      | inr (y, e) ↦ ground (arith, get-modify right_id x f g.by_id, inv.holders w x, keeps y)
    ];
    targets = λ w x. elim (Option-cases (get x g.by_id)) [
      | inl e ↦ ground (arith, get-modify right_id x f g.by_id, inv.targets w x)
      | inr (y, e) ↦ ground (arith, get-modify right_id x f g.by_id, inv.targets w x, keeps y)
    ];
    unused = λ k.
        ground (arith, get-modify right_id (right_name (g.next_id + k)) f g.by_id, inv.unused k);
  }

  pub transfer-IsIndexed :
      (right_id : String) (new_holder : WorkspaceId) → IsIndexed (transfer right_id new_holder g).0
  unfolding transfer
  transfer-IsIndexed right_id new_holder = elim (Option-cases (get right_id g.by_id)) [
    | inl e ↦ rw (e, transfer) inv
    | inr (entry, e) ↦
        let P = λ (r : PortRightsGraph × Result PortRightError WorkspaceId). IsIndexed r.0 in
        rw (e, transfer)
          (if_keeps P (not (is_active entry.status)) inv
            (if_keeps P (is_receive entry.kind) inv (moved-IsIndexed right_id new_holder entry e)))
  ]

  set_status-IsIndexed :
      (right_id : String) (status : PortRightStatus)
      → IsIndexed (record g { by_id = modify right_id (set_status status) g.by_id })
  set_status-IsIndexed right_id status =
      rewritten-IsIndexed right_id (set_status status) (λ x. (refl, refl))

  pub consume-IsIndexed : (right_id : String) → IsIndexed (consume right_id g).0
  unfolding consume
  consume-IsIndexed right_id = elim (Option-cases (get right_id g.by_id)) [
    | inl e ↦ rw (e, consume) inv
    | inr (entry, e) ↦
        let P = λ (r : PortRightsGraph × Result PortRightError (Unit {0})). IsIndexed r.0 in
        rw (e, consume)
          (if_keeps P (not (is_send_once entry.kind)) inv (
            if_keeps P (not (is_active entry.status)) inv (set_status-IsIndexed right_id consumed)))
  ]

  pub revoke-IsIndexed : (right_id : String) → IsIndexed (revoke right_id g).0
  unfolding revoke
  revoke-IsIndexed right_id = elim (Option-cases (get right_id g.by_id)) [
    | inl e ↦ rw (e, revoke) inv
    | inr (entry, e) ↦
        let P = λ (r : PortRightsGraph × Result PortRightError (Unit {0})). IsIndexed r.0 in
        rw (e, revoke)
          (if_keeps P (not (is_active entry.status)) inv (set_status-IsIndexed right_id revoked))
  ]

expire_keeps :
    (x : PortRightEntry) → ((expire x).holder ≡ x.holder) × ((expire x).target ≡ x.target)
expire_keeps x = ground arith

pub expire_all-IsIndexed :
    (ids : List String) (g : PortRightsGraph)
    → IsIndexed g
    → IsIndexed (record g { by_id = expire_all ids g.by_id })
unfolding expire_all
expire_all-IsIndexed [] g inv = inv
expire_all-IsIndexed (id ∷ ids) g inv =
    expire_all-IsIndexed ids (record g { by_id = modify id expire g.by_id })
      (rewritten-IsIndexed g inv id expire expire_keeps)

pub expire_workspace-IsIndexed :
    (w : WorkspaceId) (g : PortRightsGraph) → IsIndexed g → IsIndexed (expire_workspace w g)
unfolding expire_workspace
expire_workspace-IsIndexed w g inv =
    expire_all-IsIndexed (get_list w g.by_target)
      (record g { by_id = expire_all (get_list w g.by_holder) g.by_id })
      (expire_all-IsIndexed (get_list w g.by_holder) g inv)

-- The calls that change the graph.
pub data Call : Type 0 where
  creates : WorkspaceId → WorkspaceId → PortRightType → Call
  transfers : String → WorkspaceId → Call
  consumes revokes : String → Call
  expires : WorkspaceId → Call

unfoldable pub step : Call → PortRightsGraph → PortRightsGraph
step (creates holder target kind) g = (create holder target kind g).0
step (transfers id holder) g = (transfer id holder g).0
step (consumes id) g = (consume id g).0
step (revokes id) g = (revoke id g).0
step (expires w) g = expire_workspace w g

unfoldable pub run : List Call → PortRightsGraph → PortRightsGraph
run [] g = g
run (x ∷ xs) g = run xs (step x g)

pub step-IsIndexed : (x : Call) (g : PortRightsGraph) → IsIndexed g → IsIndexed (step x g)
unfolding step
step-IsIndexed (creates holder target kind) g inv = create-IsIndexed g inv holder target kind
step-IsIndexed (transfers id holder) g inv = transfer-IsIndexed g inv id holder
step-IsIndexed (consumes id) g inv = consume-IsIndexed g inv id
step-IsIndexed (revokes id) g inv = revoke-IsIndexed g inv id
step-IsIndexed (expires w) g inv = expire_workspace-IsIndexed w g inv

-- From a graph where each index lists exactly the rights that the table has with that holder or
-- that target, and the names from the counter on are unused, any calls, failing ones included,
-- lead to such a graph.
pub run-IsIndexed : (xs : List Call) (g : PortRightsGraph) → IsIndexed g → IsIndexed (run xs g)
unfolding run
run-IsIndexed [] g inv = inv
run-IsIndexed (x ∷ xs) g inv = run-IsIndexed xs (step x g) (step-IsIndexed x g inv)
