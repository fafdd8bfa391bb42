-- ===== src/Coordinator/PortRights/Delivery.antt =====
-- Lookups of `validate_send` (port_rights.rs) and the rights that it may return.
use wacp_platform.Prelude.{
  true, String, some, HashMap, get, get_list, string_eq, List, [], ◌∷◌, ok, ◌≡◌, ◌⊎◌, refl, arith,
  contains, Option-cases, Bool-cases, inl, inr,
}
use wacp_platform.Types.Enums.{PortRightType}
use wacp_platform.Types.Records.{WorkspaceId}
use wacp_platform.Coordinator.PortRights.{
  PortRightStatus, PortRightEntry, PortRightsGraph, is_active, can_send, permits, permits?,
  find_right, validate_send,
}
use wacp_platform.Coordinator.PortRights.Index.{IsIndexed}

find_right-ok :
    (t : WorkspaceId) (ids : List String) (m : HashMap String PortRightEntry) (id : String)
    → find_right t ids m ≡ ok id
    → (contains ids id ≡ true) × (permits? t (get id m) ≡ true)
unfolding find_right
find_right-ok t [] m id h = absurd (cc h)
find_right-ok t (x ∷ xs) m id h = ground (arith, find_right-ok t xs m id, string_eq.beq_iff x id)

find_right-finds :
    (t : WorkspaceId) (ids : List String) (m : HashMap String PortRightEntry) (id : String)
    → contains ids id ≡ true
    → permits? t (get id m) ≡ true
    → (found : String) × (find_right t ids m ≡ ok found)
unfolding find_right
find_right-finds t [] m id h p = absurd (cc h)
find_right-finds t (x ∷ xs) m id h p = elim (Bool-cases (permits? t (get x m))) [
  | inl e ↦ (x, rw e)
  | inr e ↦ rw e (find_right-finds t xs m id (ground (arith, string_eq.beq_iff x id)) p)
]

active_only : (status : PortRightStatus) → is_active status ≡ true → status ≡ PortRightStatus.active
active_only PortRightStatus.active h = refl
active_only PortRightStatus.consumed h = ground arith
active_only PortRightStatus.revoked h = ground arith
active_only PortRightStatus.expired h = ground arith

sending_only :
    (kind : PortRightType)
    → can_send kind ≡ true
    → (kind ≡ PortRightType.send) ⊎ (kind ≡ PortRightType.send_once)
sending_only PortRightType.send h = inl refl
sending_only PortRightType.send_once h = inr refl
sending_only PortRightType.receive h = absurd (ground arith)

module _ (g : PortRightsGraph) (inv : IsIndexed g) (sender target : WorkspaceId) where
  -- Where the indices are exact, a right that `validate_send` returns is in the table, is held
  -- by the sender, aims at the target, is active and is a send or send-once right.
  pub validate_send_sound :
      (id : String)
      → validate_send sender target g ≡ ok id
      → (entry : PortRightEntry) × (get id g.by_id ≡ some entry)
        × (entry.holder ≡ sender)
        × (entry.target ≡ target)
        × (entry.status ≡ PortRightStatus.active)
        × ((entry.kind ≡ PortRightType.send) ⊎ (entry.kind ≡ PortRightType.send_once))
  unfolding validate_send
  validate_send_sound id h = elim (Option-cases (get sender g.by_holder)) [
    | inl e ↦ absurd (cc (rw (e, validate_send) at h))
    | inr (ids, e) ↦
        let found = find_right-ok target ids g.by_id id (rw (e, validate_send) at h) in
        elim (Option-cases (get id g.by_id)) [
          | inl f ↦ absurd (ground (arith, found.1))
          | inr (entry, f) ↦ (
            entry,
            f,
            ground (arith, found.0, inv.holders sender id, string_eq.beq_iff entry.holder sender),
            ground (arith, found.1, string_eq.beq_iff entry.target target),
            active_only entry.status (ground (arith, found.1)),
            sending_only entry.kind (ground (arith, found.1)),
          )
        ]
  ]

  -- Where the indices are exact and some active send or send-once right of the sender aims at
  -- the target, `validate_send` succeeds.
  pub validate_send_complete :
      (id : String) (entry : PortRightEntry)
      → get id g.by_id ≡ some entry
      → entry.holder ≡ sender
      → permits target entry ≡ true
      → (found : String) × (validate_send sender target g ≡ ok found)
  unfolding validate_send
  validate_send_complete id entry h s p =
      let listed : contains (get_list sender g.by_holder) id ≡ true =
        ground (arith, inv.holders sender id, string_eq.beq_iff entry.holder sender) in
      elim (Option-cases (get sender g.by_holder)) [
        | inl e ↦ absurd (ground (arith, listed))
        | inr (ids, e) ↦
            rw (e, validate_send)
              (find_right-finds target ids g.by_id id (ground (arith, listed)) (ground arith))
      ]
