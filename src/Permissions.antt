-- ===== src/Permissions.antt =====
-- wacp/crates/wacp-permissions/src/lib.rs: the permission engine. The permission matrix is the list of
-- its rows, each a sender role, an envelope type and a receiver role.
pub mod Roles
pub mod SendOnce
pub mod Loaded
use wacp_platform.Prelude.{
  Bool, true, false, ◌&&◌, ◌||◌, not, String, Option, none, some, HashMap, HashSet, get, insert,
  modify, get_list, push_entry, is_some, contains, string_eq, List, [], ◌∷◌, ◌==◌, if◌then◌else◌,
  Result, ok, err, retain, any, Eq, add,
}
use wacp_platform.Types.Enums.{SignalType, signal_eq, BaseRole, PortRightType, EnvelopeOrigin}
use wacp_platform.Types.Enums.PortRightType.{send, receive, send_once}
use wacp_platform.Types.Records.{WorkspaceId, PortRight}
use wacp_platform.Taxonomy.{EnvelopePermissionRow, ResolvedRole, Taxonomy}

pub record PermissionEngine : Type 0 where
  pub permission_matrix : List EnvelopePermissionRow
  pub checkpoint_table : HashMap String (HashSet String)
  pub signal_emit_sets : HashMap String (HashSet SignalType)
  pub role_bases : HashMap String String
  pub port_rights : HashMap WorkspaceId (List PortRight)

pub data Action : Type 0 where
  send_envelope : String → String → String → WorkspaceId → WorkspaceId → EnvelopeOrigin → Action
  create_checkpoint : String → String → Action
  emit_signal : String → SignalType → Action

pub data PermissionDenied : Type 0 where
  not_in_permission_matrix no_port_right checkpoint_type_not_permitted : String → PermissionDenied
  signal_type_not_permitted : String → PermissionDenied

abbrev pub coordinator_emit_set : HashSet SignalType
coordinator_emit_set =
    SignalType.ready ∷ SignalType.started ∷ SignalType.failed ∷ SignalType.integrate
    ∷ SignalType.acknowledged ∷ []

abbrev pub worker_emit_set : HashSet SignalType
worker_emit_set =
    SignalType.ready ∷ SignalType.started ∷ SignalType.blocked ∷ SignalType.checkpoint
    ∷ SignalType.complete ∷ SignalType.failed ∷ SignalType.escalation ∷ []

abbrev pub observer_emit_set : HashSet SignalType
observer_emit_set =
    SignalType.ready ∷ SignalType.started ∷ SignalType.complete ∷ SignalType.failed
    ∷ SignalType.escalation ∷ []

abbrev pub base_name : BaseRole → String
base_name BaseRole.coordinator = "coordinator"
base_name BaseRole.worker = "worker"
base_name BaseRole.observer = "observer"

-- The body of the loop over the resolved roles.
unfoldable pub add_role : String → BaseRole → PermissionEngine → PermissionEngine
add_role name base e = record e {
  role_bases = insert name (base_name base) e.role_bases;
  signal_emit_sets = insert name (get_list (base_name base) e.signal_emit_sets) e.signal_emit_sets;
}

unfoldable pub add_roles : HashMap String ResolvedRole → PermissionEngine → PermissionEngine
unfolding add_role
add_roles [] e = e
add_roles ((name, resolved) ∷ roles) e = add_roles roles (add_role name resolved.base e)

-- The engine before the loop over the resolved roles.
unfoldable pub with_base_roles : Taxonomy → PermissionEngine
with_base_roles taxonomy = record {
  permission_matrix = taxonomy.envelope_permissions;
  checkpoint_table = taxonomy.checkpoint_types;
  signal_emit_sets =
      ("coordinator", coordinator_emit_set)
      ∷ ("worker", worker_emit_set)
      ∷ ("observer", observer_emit_set)
      ∷ [];
  role_bases =
      ("coordinator", "coordinator") ∷ ("worker", "worker") ∷ ("observer", "observer") ∷ [];
  port_rights = [];
}

unfoldable pub new : Taxonomy → PermissionEngine
unfolding add_roles with_base_roles
new taxonomy = add_roles taxonomy.resolved_roles (with_base_roles taxonomy)

-- `permission_matrix.contains`.
unfoldable pub has_row : String → String → String → List EnvelopePermissionRow → Bool
has_row s t r rows =
    any (λ row. row.sender_role == s && row.envelope_type == t && row.receiver_role == r) rows

unfoldable pub matrix_allows : String → String → String → PermissionEngine → Bool
matrix_allows sender envelope_type receiver e =
    let row : String → String → Bool = λ s r. has_row s envelope_type r e.permission_matrix in
    let receiver_base = get receiver e.role_bases in
    let last : Bool = elim receiver_base [ some rb ↦ row sender rb | none ↦ false ] in
    if row sender receiver then true else elim (get sender e.role_bases) [
      | none ↦ last
      | some sb ↦
          if row sb receiver
          then true
          else elim receiver_base [ some rb ↦ if row sb rb then true else last | none ↦ last ]
    ]

abbrev pub is_send : PortRightType → Bool
is_send send = true
is_send send_once = true
is_send receive = false

abbrev pub same_type : PortRightType → PortRightType → Bool
same_type send send = true
same_type receive receive = true
same_type send_once send_once = true
same_type _ _ = false

-- A key without an entry and one with an empty vector are read alike.
unfoldable pub has_send_right : WorkspaceId → WorkspaceId → PermissionEngine → Bool
has_send_right holder target e =
    any (λ r. r.target == target && is_send r.right_type) (get_list holder e.port_rights)

unfoldable pub check_envelope_send :
    String
    → String
    → String
    → WorkspaceId
    → WorkspaceId
    → EnvelopeOrigin
    → PermissionEngine
    → Result PermissionDenied (Unit {0})
check_envelope_send s t r from to EnvelopeOrigin.human e = ok tt
check_envelope_send s t r from to EnvelopeOrigin.agent e =
    if not (matrix_allows s t r e)
    then err (not_in_permission_matrix "§5.5")
    else if not (has_send_right from to e)
    then err (no_port_right "§5.6")
    else ok tt

unfoldable pub check_checkpoint_create :
    String → String → PermissionEngine → Result PermissionDenied (Unit {0})
check_checkpoint_create role checkpoint_type e =
    let refused = err (checkpoint_type_not_permitted "§7.2") in
    elim (get checkpoint_type e.checkpoint_table) [
      | none ↦ refused
      | some permitted ↦ if contains permitted role then ok tt else elim (get role e.role_bases) [
        | none ↦ refused
        | some base ↦ if contains permitted base then ok tt else refused
      ]
    ]

unfoldable pub check_signal_emit :
    String → SignalType → PermissionEngine → Result PermissionDenied (Unit {0})
check_signal_emit role signal_type e =
    let refused = err (signal_type_not_permitted "§5.2") in
    elim (get role e.signal_emit_sets) [
      | none ↦ refused
      | some emit_set ↦ if contains emit_set signal_type then ok tt else refused
    ]

unfoldable pub evaluate : Action → PermissionEngine → Result PermissionDenied (Unit {0})
unfolding check_envelope_send check_checkpoint_create check_signal_emit
evaluate (send_envelope s t r from to origin) e = check_envelope_send s t r from to origin e
evaluate (create_checkpoint role checkpoint_type) e = check_checkpoint_create role checkpoint_type e
evaluate (emit_signal role signal_type) e = check_signal_emit role signal_type e

unfoldable pub grant_port_right : PortRight → PermissionEngine → PermissionEngine
grant_port_right right e = record e { port_rights = push_entry right.holder right e.port_rights }

unfoldable pub revoke_port_right :
    WorkspaceId → WorkspaceId → PortRightType → PermissionEngine → PermissionEngine
revoke_port_right holder target kind e = record e {
  port_rights =
      modify holder (retain (λ r. not (r.target == target && same_type r.right_type kind)))
        e.port_rights;
}

-- `position` of the first right that passes the test, and `remove` there.
unfoldable pub remove_first : (PortRight → Bool) → List PortRight → Option (List PortRight)
remove_first p [] = none
remove_first p (r ∷ rs) =
    let rest = remove_first p rs in
    if p r then some rs else elim rest [ some rs' ↦ some (r ∷ rs') | none ↦ none ]

unfoldable pub consume_send_once :
    WorkspaceId → WorkspaceId → PermissionEngine → PermissionEngine × Bool
consume_send_once holder target e = elim (get holder e.port_rights) [
  | none ↦ (e, false)
  | some rights ↦
      elim (remove_first (λ r. r.target == target && same_type r.right_type send_once) rights) [
        | none ↦ (e, false)
        | some rest ↦ (record e { port_rights = insert holder rest e.port_rights }, true)
      ]
]
