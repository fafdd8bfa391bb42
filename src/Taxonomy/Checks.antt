-- ===== src/Taxonomy/Checks.antt =====
-- wacp/crates/wacp-taxonomy/src/loader.rs: the checks of `load`, one function for each loop.
use text.Mathlib.Text.{find?}
use wacp_platform.Prelude.{
  Bool, ◌&&◌, ◌||◌, not, String, Option, some, none, HashSet, add, contains, string_eq, List, [],
  ◌∷◌, ◌==◌, map, is_some, Result, ok, err, ◌>>◌, any, if◌then◌else◌,
}
use wacp_platform.Taxonomy.{
  RoleDefinition, EnvelopePermission, EnvelopeTypeDefinition, CheckpointTypeDefinition,
  TaxonomyDefinition, TaxonomyError, protocol_version_mismatch, duplicate_role_name,
  duplicate_envelope_type, duplicate_checkpoint_type, base_name_collision, invalid_inheritance,
  privilege_escalation, cross_registry_missing, envelope_role_not_found, checkpoint_role_not_found,
  empty_permissions, empty_role_list,
}

abbrev pub base_roles : List String
base_roles = "coordinator" ∷ "worker" ∷ "observer" ∷ []

abbrev pub base_envelope_types : List String
base_envelope_types = "directive" ∷ "feedback" ∷ "query" ∷ []

abbrev pub base_checkpoint_types : List String
base_checkpoint_types = "artifact" ∷ "observation" ∷ []

abbrev pub coordinator_capabilities : List String
coordinator_capabilities =
    "create_workspace" ∷ "perform_integration" ∷ "manage_budgets" ∷ "abort_workspace"
    ∷ "assign_roles" ∷ []

abbrev pub Checked : Type 0
Checked = Result TaxonomyError (Unit {0})

abbrev pub refuse_if : Bool → TaxonomyError → Checked
refuse_if test e = if test then err e else ok tt

-- A loop that returns at the first error.
unfoldable pub each {ℓ} : {A : Type ℓ} → (A → Checked) → List A → Checked
each check [] = ok tt
each check (x ∷ xs) = check x >> each check xs

-- The loop that inserts the names into `seen`.
unfoldable pub check_unique : (String → TaxonomyError) → HashSet String → List String → Checked
check_unique duplicate seen [] = ok tt
check_unique duplicate seen (name ∷ names) =
    refuse_if (contains seen name) (duplicate name) >> check_unique duplicate (add name seen) names

abbrev pub role_names : TaxonomyDefinition → List String
role_names def = map (λ r. r.name) def.roles

abbrev pub envelope_names : TaxonomyDefinition → List String
envelope_names def = map (λ t. t.name) def.envelope_types

abbrev pub checkpoint_names : TaxonomyDefinition → List String
checkpoint_names def = map (λ c. c.name) def.checkpoint_types

abbrev pub is_known_role : TaxonomyDefinition → String → Bool
is_known_role def name = contains base_roles name || contains (role_names def) name

-- Checks 3, 5 and 7.
unfoldable pub check_not_base : List String → String → Checked
check_not_base base name = refuse_if (contains base name) (base_name_collision name)

-- Check 8.
abbrev pub check_inheritance : RoleDefinition → Checked
check_inheritance role =
    refuse_if (not (role.extends == "worker" || role.extends == "observer"))
      (invalid_inheritance role.name role.extends)

-- `str::contains`.
abbrev pub includes : String → String → Bool
includes text part = is_some (find? text part)

-- Check 9.
unfoldable pub check_capability : RoleDefinition → String → Checked
check_capability role cap =
    refuse_if (any (includes cap) coordinator_capabilities) (privilege_escalation role.name cap)

unfoldable pub check_escalation : RoleDefinition → Checked
unfolding each check_capability
check_escalation role = each (check_capability role) role.add

-- Check 10.
unfoldable pub check_override : TaxonomyDefinition → RoleDefinition → String → Checked
check_override def role ct_name =
    refuse_if
      (not (contains base_checkpoint_types ct_name)
        && not (contains (checkpoint_names def) ct_name))
      (cross_registry_missing role.name ct_name)

-- `if let Some(..)` around the loop.
unfoldable pub check_each_override :
    TaxonomyDefinition → RoleDefinition → Option (List String) → Checked
unfolding each check_override
check_each_override def role none = ok tt
check_each_override def role (some names) = each (check_override def role) names

abbrev pub check_overrides : TaxonomyDefinition → RoleDefinition → Checked
check_overrides def role = check_each_override def role role.checkpoint_types

abbrev pub is_empty {ℓ} : {A : Type ℓ} → List A → Bool
is_empty [] = Bool.true
is_empty (x ∷ xs) = Bool.false

-- Check 11.
unfoldable pub check_permission :
    TaxonomyDefinition → EnvelopeTypeDefinition → EnvelopePermission → Checked
check_permission def et perm =
    refuse_if (not (is_known_role def perm.sender_role))
      (envelope_role_not_found et.name perm.sender_role)
    >> refuse_if (not (is_known_role def perm.receiver_role))
        (envelope_role_not_found et.name perm.receiver_role)

unfoldable pub check_envelope_type : TaxonomyDefinition → EnvelopeTypeDefinition → Checked
unfolding each check_permission
check_envelope_type def et =
    refuse_if (is_empty et.permissions) (empty_permissions et.name)
    >> each (check_permission def et) et.permissions

-- Check 12.
unfoldable pub check_permitted : TaxonomyDefinition → CheckpointTypeDefinition → String → Checked
check_permitted def ct name =
    refuse_if (not (is_known_role def name)) (checkpoint_role_not_found ct.name name)

unfoldable pub check_checkpoint_type : TaxonomyDefinition → CheckpointTypeDefinition → Checked
unfolding each check_permitted
check_checkpoint_type def ct =
    refuse_if (is_empty ct.permitted_roles) (empty_role_list ct.name)
    >> each (check_permitted def ct) ct.permitted_roles

-- The checks in the order of the source.
unfoldable pub validate : TaxonomyDefinition → String → Checked
unfolding each check_unique check_not_base check_escalation check_each_override check_envelope_type
    check_checkpoint_type
validate def version =
    refuse_if (not (def.protocol_version == version))
      (protocol_version_mismatch version def.protocol_version)
    >> check_unique duplicate_role_name [] (role_names def)
    >> each (check_not_base base_roles) (role_names def)
    >> check_unique duplicate_envelope_type [] (envelope_names def)
    >> each (check_not_base base_envelope_types) (envelope_names def)
    >> check_unique duplicate_checkpoint_type [] (checkpoint_names def)
    >> each (check_not_base base_checkpoint_types) (checkpoint_names def)
    >> each check_inheritance def.roles
    >> each check_escalation def.roles
    >> each (check_overrides def) def.roles
    >> each (check_envelope_type def) def.envelope_types
    >> each (check_checkpoint_type def) def.checkpoint_types
