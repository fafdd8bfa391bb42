-- ===== src/Coordinator/PortRights/Spending.antt =====
-- Rights that are consumed, revoked or expired (port_rights.rs), over later calls.
use wacp_platform.Prelude.{
  Bool, true, false, not, String, Option, none, some, HashMap, get, modify, get_list, is_some, ◌⊎◌,
  string_eq, List, [], ◌∷◌, ◌==◌, ok, ◌≡◌, ◌≢◌, refl, arith, contains, get-insert, get-modify,
  Option-cases, Bool-cases, inl, inr, beq_refl,
}
use wacp_platform.Types.Records.{WorkspaceId}
use wacp_platform.Coordinator.PortRights.{
  PortRightEntry, active, consumed, revoked, PortRightsGraph, right_name, create, transfer,
  set_holder, set_status, is_active, consume, revoke, expire, expire_all, expire_workspace,
  validate_send,
}
use wacp_platform.Coordinator.PortRights.Index.{
  held_by, IsIndexed, fresh, Call, creates, transfers, consumes, revokes, expires, step, run,
  step-IsIndexed, run-IsIndexed, consume-IsIndexed, expire_workspace-IsIndexed,
  expire_all-IsIndexed,
}
use wacp_platform.Coordinator.PortRights.Delivery.{validate_send_sound}

-- The right is in the table and is not active.
abbrev pub is_spent : Option PortRightEntry → Bool
is_spent none = false
is_spent (some entry) = not (is_active entry.status)

expire_all-spent :
    (ids : List String) (m : HashMap String PortRightEntry) (id : String)
    → is_spent (get id m) ≡ true
    → is_spent (get id (expire_all ids m)) ≡ true
unfolding expire_all
expire_all-spent [] m id h = h
expire_all-spent (x ∷ xs) m id h =
    expire_all-spent xs (modify x expire m) id (ground (arith, get-modify x id expire m))

step-spent :
    (x : Call) (g : PortRightsGraph) (id : String)
    → IsIndexed g
    → is_spent (get id g.by_id) ≡ true
    → is_spent (get id (step x g).by_id) ≡ true
unfolding step create transfer consume revoke expire_workspace
step-spent (creates holder target kind) g id inv h =
    let name = right_name g.next_id in
    let entry : PortRightEntry = record {
      id = name;
      holder = holder;
      target = target;
      kind = kind;
      status = active;
    } in
    ground (arith, get-insert name id entry g.by_id, fresh g inv, string_eq.beq_iff name id)
step-spent (transfers x holder) g id inv h =
    ground (arith, get-modify x id (set_holder holder) g.by_id)
step-spent (consumes x) g id inv h = ground (arith, get-modify x id (set_status consumed) g.by_id)
step-spent (revokes x) g id inv h = ground (arith, get-modify x id (set_status revoked) g.by_id)
step-spent (expires w) g id inv h =
    expire_all-spent (get_list w g.by_target) (expire_all (get_list w g.by_holder) g.by_id) id
      (expire_all-spent (get_list w g.by_holder) g.by_id id h)

run-spent :
    (xs : List Call) (g : PortRightsGraph) (id : String)
    → IsIndexed g
    → is_spent (get id g.by_id) ≡ true
    → is_spent (get id (run xs g).by_id) ≡ true
unfolding run
run-spent [] g id inv h = h
run-spent (x ∷ xs) g id inv h =
    run-spent xs (step x g) id (step-IsIndexed x g inv) (step-spent x g id inv h)

spent-not_valid :
    (g : PortRightsGraph)
    → IsIndexed g
    → (sender target : WorkspaceId) (id : String) → is_spent (get id g.by_id) ≡ true
    → validate_send sender target g ≢ ok id
spent-not_valid g inv sender target id h v =
    let (entry, e, holds, aims, on, kind) = validate_send_sound g inv sender target id v in
    absurd (ground (arith, e, on))

spent-not_consumed :
    (id : String) (g : PortRightsGraph)
    → is_spent (get id g.by_id) ≡ true
    → (consume id g).1 ≢ ok tt
unfolding consume
spent-not_consumed id g h c = ground arith

consume-spent :
    (id : String) (g : PortRightsGraph)
    → (consume id g).1 ≡ ok tt
    → is_spent (get id (consume id g).0.by_id) ≡ true
unfolding consume
consume-spent id g h =
    ground (arith, get-modify id id (set_status consumed) g.by_id, beq_refl {K = String} id)

-- A send-once right serves once: after it was consumed in a graph with exact indices, whatever
-- calls follow, no delivery is validated by it, and it cannot be consumed again.
pub consume_once :
    (id : String) (g : PortRightsGraph) (xs : List Call) (sender target : WorkspaceId)
    → IsIndexed g
    → (consume id g).1 ≡ ok tt
    → let g' = run xs (consume id g).0 in
      (validate_send sender target g' ≢ ok id) × ((consume id g').1 ≢ ok tt)
consume_once id g xs sender target inv h =
    let g' = run xs (consume id g).0 in
    let inv' = run-IsIndexed xs (consume id g).0 (consume-IsIndexed g inv id) in
    let spent =
      run-spent xs (consume id g).0 id (consume-IsIndexed g inv id) (consume-spent id g h) in
    (spent-not_valid g' inv' sender target id spent, spent-not_consumed id g' spent)

expire_all-hit :
    (ids : List String) (m : HashMap String PortRightEntry) (id : String) (entry : PortRightEntry)
    → get id m ≡ some entry
    → contains ids id ≡ true
    → is_spent (get id (expire_all ids m)) ≡ true
unfolding expire_all
expire_all-hit [] m id entry h c = absurd (cc c)
expire_all-hit (x ∷ xs) m id entry h c = elim (Bool-cases (x == id)) [
  | inl e ↦ expire_all-spent xs (modify x expire m) id (ground (arith, get-modify x id expire m))
  | inr e ↦
      expire_all-hit xs (modify x expire m) id entry (ground (arith, get-modify x id expire m))
        (ground arith)
]

-- A right that an index lists is in the table, so the loop over the index spends it.
expire_all-listed :
    (ids : List String) (m : HashMap String PortRightEntry) (id : String)
    → contains ids id ≡ true
    → is_some (get id m) ≡ true
    → is_spent (get id (expire_all ids m)) ≡ true
expire_all-listed ids m id c k = elim (Option-cases (get id m)) [
  | inl e ↦ absurd (ground arith)
  | inr (entry, e) ↦ expire_all-hit ids m id entry e c
]

module _ (w : WorkspaceId) (g : PortRightsGraph) (inv : IsIndexed g) where
  held_expired :
      (id : String)
      → held_by w (get id g.by_id) ≡ true
      → is_spent (get id (expire_workspace w g).by_id) ≡ true
  unfolding expire_workspace
  held_expired id h =
      expire_all-spent (get_list w g.by_target) (expire_all (get_list w g.by_holder) g.by_id) id (
        expire_all-listed (get_list w g.by_holder) g.by_id id (ground (arith, inv.holders w id))
          (ground arith))

  aimed_expired :
      (id : String)
      → contains (get_list w g.by_target) id ≡ true
      → is_spent (get id (expire_workspace w g).by_id) ≡ true
  unfolding expire_workspace
  aimed_expired id h =
      let m = expire_all (get_list w g.by_holder) g.by_id in
      let inv' = expire_all-IsIndexed (get_list w g.by_holder) g inv in
      expire_all-listed (get_list w g.by_target) m id h (ground (arith, inv'.targets w id))

  indices_kept :
      ((expire_workspace w g).by_holder ≡ g.by_holder)
      × ((expire_workspace w g).by_target ≡ g.by_target)
  unfolding expire_workspace
  indices_kept = (refl, refl)

  -- Once a workspace has expired in a graph with exact indices, no delivery from it and none to
  -- it is validated.
  pub expired_cut_off :
      (sender target : WorkspaceId) (id : String)
      → (sender ≡ w) ⊎ (target ≡ w)
      → validate_send sender target (expire_workspace w g) ≢ ok id
  expired_cut_off sender target id either v =
      let inv' = expire_workspace-IsIndexed w g inv in
      let (entry, e, holds, aims, on, kind) =
        validate_send_sound (expire_workspace w g) inv' sender target id v in
      elim either [
        | inl s ↦ ground (
          arith,
          held_expired id,
          inv.holders w id,
          inv'.holders w id,
          indices_kept,
          string_eq.beq_iff entry.holder w,
        )
        | inr t ↦ ground (
          arith,
          aimed_expired id,
          inv'.targets w id,
          indices_kept,
          string_eq.beq_iff entry.target w,
        )
      ]
