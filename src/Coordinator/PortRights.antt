-- ===== src/Coordinator/PortRights.antt =====
-- wacp/crates/wacp-coordinator/src/port_rights.rs: the graph of port rights between workspaces.
pub mod Index
pub mod Delivery
pub mod Spending
use wacp_platform.Prelude.{
  ℕ, ◌+◌, Bool, true, false, ◌&&◌, not, String, Option, none, some, HashMap, get, insert, modify,
  push_entry, get_list, values, string_eq, List, [], ◌∷◌, ◌==◌, if◌then◌else◌, Result, ok, err,
  retain, count_if,
}
use wacp_platform.Prelude.Decimal.{numbered}
use wacp_platform.Types.Enums.{PortRightType}
use wacp_platform.Types.Enums.PortRightType.{send, receive, send_once}
use wacp_platform.Types.Records.{WorkspaceId}

pub data PortRightStatus : Type 0 where
  active consumed revoked expired : PortRightStatus

pub record PortRightEntry : Type 0 where
  pub id : String
  pub holder : WorkspaceId
  pub target : WorkspaceId
  pub kind : PortRightType
  pub status : PortRightStatus

pub data PortRightError : Type 0 where
  not_found not_active not_send_once receive_not_transferable no_rights : PortRightError
  no_right_to_target : WorkspaceId → PortRightError

pub record PortRightsGraph : Type 0 where
  pub by_holder : HashMap String (List String)
  pub by_target : HashMap String (List String)
  pub by_id : HashMap String PortRightEntry
  pub next_id : ℕ  -- u64

abbrev pub new : PortRightsGraph
new = record { by_holder = []; by_target = []; by_id = []; next_id = 1 }

abbrev pub right_name : ℕ → String
right_name n = numbered "pr-" n

abbrev pub is_active : PortRightStatus → Bool
is_active active = true
is_active _ = false

abbrev pub is_receive : PortRightType → Bool
is_receive receive = true
is_receive _ = false

abbrev pub is_send_once : PortRightType → Bool
is_send_once send_once = true
is_send_once _ = false

-- `Send | SendOnce`.
abbrev pub can_send : PortRightType → Bool
can_send send = true
can_send send_once = true
can_send receive = false

unfoldable pub create :
    WorkspaceId → WorkspaceId → PortRightType → PortRightsGraph → PortRightsGraph × String
create holder target kind g =
    let id = right_name g.next_id in
    (
      record {
        by_holder = push_entry holder id g.by_holder;
        by_target = push_entry target id g.by_target;
        by_id =
            insert id
              (record { id = id; holder = holder; target = target; kind = kind; status = active })
              g.by_id;
        next_id = g.next_id + 1;
      },
      id,
    )

abbrev pub without : String → List String → List String
without id ids = retain (λ x. not (x == id)) ids

abbrev pub set_holder : WorkspaceId → PortRightEntry → PortRightEntry
set_holder new_holder entry = record entry { holder = new_holder }

-- The writes of `transfer`, to both indices and to the entry.
abbrev pub move_right : String → WorkspaceId → WorkspaceId → PortRightsGraph → PortRightsGraph
move_right right_id old_holder new_holder g = record g {
  by_holder = push_entry new_holder right_id (modify old_holder (without right_id) g.by_holder);
  by_id = modify right_id (set_holder new_holder) g.by_id;
}

unfoldable pub transfer :
    String → WorkspaceId → PortRightsGraph → PortRightsGraph × Result PortRightError WorkspaceId
transfer right_id new_holder g = elim (get right_id g.by_id) [
  | none ↦ (g, err not_found)
  | some entry ↦
      if not (is_active entry.status)
      then (g, err not_active)
      else if is_receive entry.kind
      then (g, err receive_not_transferable)
      else (move_right right_id entry.holder new_holder g, ok entry.holder)
]

abbrev pub set_status : PortRightStatus → PortRightEntry → PortRightEntry
set_status status entry = record entry { status = status }

unfoldable pub consume :
    String → PortRightsGraph → PortRightsGraph × Result PortRightError (Unit {0})
consume right_id g = elim (get right_id g.by_id) [
  | none ↦ (g, err not_found)
  | some entry ↦
      if not (is_send_once entry.kind)
      then (g, err not_send_once)
      else if not (is_active entry.status)
      then (g, err not_active)
      else (record g { by_id = modify right_id (set_status consumed) g.by_id }, ok tt)
]

unfoldable pub revoke :
    String → PortRightsGraph → PortRightsGraph × Result PortRightError (Unit {0})
revoke right_id g = elim (get right_id g.by_id) [
  | none ↦ (g, err not_found)
  | some entry ↦
      if not (is_active entry.status)
      then (g, err not_active)
      else (record g { by_id = modify right_id (set_status revoked) g.by_id }, ok tt)
]

abbrev pub expire : PortRightEntry → PortRightEntry
expire entry = if is_active entry.status then set_status expired entry else entry

-- Each loop of `expire_workspace`.
unfoldable pub expire_all :
    List String → HashMap String PortRightEntry → HashMap String PortRightEntry
expire_all [] m = m
expire_all (id ∷ ids) m = expire_all ids (modify id expire m)

unfoldable pub expire_workspace : WorkspaceId → PortRightsGraph → PortRightsGraph
unfolding expire_all
expire_workspace workspace_id g = record g {
  by_id =
      expire_all (get_list workspace_id g.by_target)
        (expire_all (get_list workspace_id g.by_holder) g.by_id);
}

-- The condition of `validate_send` on an entry.
abbrev pub permits : WorkspaceId → PortRightEntry → Bool
permits target entry = entry.target == target && is_active entry.status && can_send entry.kind

abbrev pub permits? : WorkspaceId → Option PortRightEntry → Bool
permits? target none = false
permits? target (some entry) = permits target entry

-- The loop of `validate_send`.
unfoldable pub find_right :
    WorkspaceId → List String → HashMap String PortRightEntry → Result PortRightError String
find_right target [] m = err (no_right_to_target target)
find_right target (id ∷ ids) m =
    let rest = find_right target ids m in if permits? target (get id m) then ok id else rest

unfoldable pub validate_send :
    WorkspaceId → WorkspaceId → PortRightsGraph → Result PortRightError String
unfolding find_right
validate_send sender target g = elim (get sender g.by_holder) [
  | none ↦ err no_rights
  | some right_ids ↦ find_right target right_ids g.by_id
]

-- The filter of `rights_held_by`.
unfoldable pub active_entries : List String → HashMap String PortRightEntry → List PortRightEntry
active_entries [] m = []
active_entries (id ∷ ids) m =
    let rest = active_entries ids m in
    elim (get id m) [
      | none ↦ rest
      | some entry ↦ if is_active entry.status then entry ∷ rest else rest
    ]

unfoldable pub rights_held_by : WorkspaceId → PortRightsGraph → List PortRightEntry
unfolding active_entries
rights_held_by holder g = active_entries (get_list holder g.by_holder) g.by_id

unfoldable pub active_count : PortRightsGraph → ℕ
active_count g = count_if (λ e. is_active e.status) (values g.by_id)
