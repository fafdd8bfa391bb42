-- ===== src/Taxonomy.antt =====
-- wacp/crates/wacp-taxonomy/src: the definition of a taxonomy (definition.rs), the errors of loading
-- one (error.rs) and the taxonomy that loading gives, with its queries (resolved.rs).
pub mod Checks
pub mod Loader
pub mod Validity
pub mod Sound
pub mod Tables
pub mod Closed
use wacp_platform.Prelude.{
  Bool, ◌||◌, String, Option, HashMap, HashSet, get, contains_key, contains, string_eq, List, ◌==◌,
}
use wacp_platform.Types.Enums.{BaseRole}

pub record RoleDefinition : Type 0 where
  pub name : String
  pub extends : String
  pub add : List String
  pub remove : List String
  pub checkpoint_types : Option (List String)

pub record EnvelopePermission : Type 0 where
  pub sender_role : String
  pub receiver_role : String

pub record EnvelopeTypeDefinition : Type 0 where
  pub name : String
  pub permissions : List EnvelopePermission

pub record CheckpointTypeDefinition : Type 0 where
  pub name : String
  pub permitted_roles : List String

pub record TaxonomyDefinition : Type 0 where
  pub id : String
  pub version : String
  pub protocol_version : String
  pub roles : List RoleDefinition
  pub envelope_types : List EnvelopeTypeDefinition
  pub checkpoint_types : List CheckpointTypeDefinition

-- An error with several fields has them in the order of the source.
pub data TaxonomyError : Type 0 where
  parse_error : String → TaxonomyError
  protocol_version_mismatch : String → String → TaxonomyError
  duplicate_role_name duplicate_envelope_type duplicate_checkpoint_type : String → TaxonomyError
  base_name_collision : String → TaxonomyError
  invalid_inheritance privilege_escalation cross_registry_missing : String → String → TaxonomyError
  envelope_role_not_found checkpoint_role_not_found : String → String → TaxonomyError
  empty_permissions empty_role_list : String → TaxonomyError

pub record EnvelopePermissionRow : Type 0 where
  pub sender_role : String
  pub envelope_type : String
  pub receiver_role : String

pub record ResolvedRole : Type 0 where
  pub name : String
  pub base : BaseRole
  pub capabilities : HashSet String
  pub checkpoint_types : HashSet String

pub record Taxonomy : Type 0 where
  pub id : String
  pub version : String
  pub protocol_version : String
  pub resolved_roles : HashMap String ResolvedRole
  pub envelope_types : HashSet String
  pub envelope_permissions : List EnvelopePermissionRow
  pub checkpoint_types : HashMap String (HashSet String)

unfoldable pub is_valid_role : String → Taxonomy → Bool
is_valid_role name taxonomy =
    name == "coordinator"
    || name == "worker"
    || name == "observer"
    || contains_key name taxonomy.resolved_roles

unfoldable pub is_valid_envelope_type : String → Taxonomy → Bool
is_valid_envelope_type name taxonomy = contains taxonomy.envelope_types name

unfoldable pub is_valid_checkpoint_type : String → Taxonomy → Bool
is_valid_checkpoint_type name taxonomy = contains_key name taxonomy.checkpoint_types

unfoldable pub resolve_role : String → Taxonomy → Option ResolvedRole
resolve_role name taxonomy = get name taxonomy.resolved_roles
