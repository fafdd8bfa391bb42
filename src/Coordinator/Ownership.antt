-- ===== src/Coordinator/Ownership.antt =====
-- wacp/crates/wacp-coordinator/src/ownership.rs: escalation routing, and who owns a new workspace.
use wacp_platform.Prelude.{
  Bool, true, false, Option, none, some, get_or, String, HashMap, get, insert, remove, string_eq,
  [],
}
use wacp_platform.Types.Records.{WorkspaceId, UserId, Originator}

pub record EscalationRouter : Type 0 where
  pub routing : HashMap String UserId

abbrev pub new : EscalationRouter
new = record { routing = [] }

unfoldable pub register : WorkspaceId → UserId → EscalationRouter → EscalationRouter
register id owner r = record { routing = insert id owner r.routing }

unfoldable pub update : WorkspaceId → UserId → EscalationRouter → EscalationRouter
update id new_owner r = record { routing = insert id new_owner r.routing }

unfoldable pub route : WorkspaceId → EscalationRouter → Option UserId
route id r = get id r.routing

unfoldable pub remove_entry : WorkspaceId → EscalationRouter → EscalationRouter
remove_entry id r = record { routing = remove id r.routing }

unfoldable pub resolve_owner : UserId → Option UserId → UserId
resolve_owner parent_owner explicit = get_or explicit parent_owner

-- `none` is the panic of `expect` on an injection without an injector.
unfoldable pub resolve_originator : Originator → Bool → Option UserId → Option Originator
resolve_originator parent_originator true none = none
resolve_originator parent_originator true (some injector) = some (Originator.user injector)
resolve_originator parent_originator false injector = some parent_originator
