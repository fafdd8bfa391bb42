-- ===== src/Permissions/SendOnce.antt =====
-- The rights to send once that the permission engine keeps, counted by holder and target.
use wacp_platform.Prelude.{
  ℕ, ◌+◌, ◌-◌, Bool, ◌&&◌, none, some, get, get_list, string_eq, List, [], ◌∷◌, ◌==◌, if◌then◌else◌,
  ltb, count_if, ◌≡◌, refl, arith, get-insert, Option-cases, inl, inr,
}
use wacp_platform.Types.Enums.PortRightType.{send_once}
use wacp_platform.Types.Records.{WorkspaceId, PortRight}
use wacp_platform.Permissions.{PermissionEngine, same_type, remove_first, consume_send_once}

abbrev pub is_ticket : WorkspaceId → PortRight → Bool
is_ticket target r = r.target == target && same_type r.right_type send_once

-- How many rights to send once a holder has for a target.
abbrev pub tickets : WorkspaceId → WorkspaceId → PermissionEngine → ℕ
tickets holder target e = count_if (is_ticket target) (get_list holder e.port_rights)

remove_first-none :
    (p : PortRight → Bool) (rs : List PortRight) → remove_first p rs ≡ none → count_if p rs ≡ 0
unfolding remove_first
remove_first-none p [] h = refl
remove_first-none p (r ∷ rs) h = ground (arith, remove_first-none p rs)

-- Removing the first ticket takes away one ticket for its target and none for another.
remove_first-some :
    (target other : WorkspaceId) (rs rest : List PortRight)
    → remove_first (is_ticket target) rs ≡ some rest
    → count_if (is_ticket other) rs
      ≡ (if target == other then 1 else 0) + count_if (is_ticket other) rest
unfolding remove_first
remove_first-some target other [] rest h = ground arith
remove_first-some target other (r ∷ rs) rest h =
    elim (Option-cases (remove_first (is_ticket target) rs)) [
      | inl none_left ↦ ground (
        arith,
        string_eq.beq_iff r.target target,
        string_eq.beq_iff r.target other,
        string_eq.beq_iff target other,
      )
      | inr (rs', found) ↦ ground (
        arith,
        remove_first-some target other rs rs' found,
        string_eq.beq_iff r.target target,
        string_eq.beq_iff r.target other,
        string_eq.beq_iff target other,
      )
    ]

-- Consuming a right to send once succeeds if and only if the holder has one for the target; it then
-- takes exactly one such right away, and no other holder or target loses or gains one.
pub consume_send_once-tickets :
    (holder target w t : WorkspaceId) (e : PermissionEngine)
    → ((consume_send_once holder target e).1 ≡ ltb 0 (tickets holder target e))
      × (tickets w t (consume_send_once holder target e).0
          ≡ tickets w t e - (if holder == w && target == t then 1 else 0))
unfolding consume_send_once
consume_send_once-tickets holder target w t e = elim (Option-cases (get holder e.port_rights)) [
  | inl missing ↦ ground (arith, string_eq.beq_iff holder w, string_eq.beq_iff target t)
  | inr (rights, held) ↦ elim (Option-cases (remove_first (is_ticket target) rights)) [
    | inl none_left ↦ ground (
      arith,
      remove_first-none (is_ticket target) rights none_left,
      string_eq.beq_iff holder w,
      string_eq.beq_iff target t,
    )
    | inr (rest, found) ↦ ground (
      arith,
      remove_first-some target target rights rest found,
      remove_first-some target t rights rest found,
      get-insert holder w rest e.port_rights,
      string_eq.beq_iff holder w,
      string_eq.beq_iff target t,
      string_eq.beq_iff target target,
    )
  ]
]
