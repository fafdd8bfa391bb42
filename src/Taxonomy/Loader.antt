-- ===== src/Taxonomy/Loader.antt =====
-- wacp/crates/wacp-taxonomy/src/loader.rs: what `load` builds once its checks have passed. `none`
-- stands for the panic of `unreachable!` at a base that the checks refuse.
use wacp_platform.Prelude.{
  not, String, Option, some, none, HashMap, HashSet, add, insert, get_list, string_eq, List, [],
  ◌∷◌, ◌++◌, ◌==◌, Result, ok, ◌>>=◌, retain, values, if◌then◌else◌,
}
use mathlib.Core.Option
use wacp_platform.Types.Enums.{BaseRole, coordinator, worker, observer}
use wacp_platform.Taxonomy.{
  RoleDefinition, EnvelopePermission, EnvelopeTypeDefinition, CheckpointTypeDefinition,
  TaxonomyDefinition, TaxonomyError, EnvelopePermissionRow, ResolvedRole, Taxonomy,
}
use wacp_platform.Taxonomy.Checks.{base_envelope_types, validate}

abbrev pub base_capabilities : BaseRole → HashSet String
base_capabilities worker = "send: query → coordinator" ∷ "create: artifact" ∷ []
base_capabilities observer = "create: observation" ∷ []
base_capabilities coordinator = []

abbrev pub checkpoint_types_of : BaseRole → HashSet String
checkpoint_types_of worker = "artifact" ∷ []
checkpoint_types_of observer = "observation" ∷ []
checkpoint_types_of coordinator = []

abbrev pub base_permission_rows : List EnvelopePermissionRow
base_permission_rows =
    record { sender_role = "coordinator"; envelope_type = "directive"; receiver_role = "worker" }
    ∷ record { sender_role = "coordinator"; envelope_type = "feedback"; receiver_role = "worker" }
    ∷ record { sender_role = "worker"; envelope_type = "query"; receiver_role = "coordinator" }
    ∷ []

-- The `match` on `extends`.
abbrev pub base_of : String → Option BaseRole
base_of extends =
    if extends == "worker"
    then some worker
    else if extends == "observer"
    then some observer
    else none

-- A loop of `insert` into a set; from the empty set, `collect`.
unfoldable pub add_all : List String → HashSet String → HashSet String
unfolding add
add_all [] s = s
add_all (x ∷ xs) s = add_all xs (add x s)

-- A loop of `remove` from a set.
unfoldable pub remove_all : List String → HashSet String → HashSet String
remove_all [] s = s
remove_all (x ∷ xs) s = remove_all xs (retain (λ y. not (y == x)) s)

-- The checkpoint types of a derived role: the overrides, or those of its base.
abbrev pub overrides_or : BaseRole → Option (List String) → HashSet String
overrides_or base (some overrides) = add_all overrides []
overrides_or base none = checkpoint_types_of base

unfoldable pub resolve : RoleDefinition → BaseRole → ResolvedRole
unfolding add_all remove_all
resolve role base = record {
  name = role.name;
  base = base;
  capabilities = add_all role.add (remove_all role.remove (base_capabilities base));
  checkpoint_types = overrides_or base role.checkpoint_types;
}

unfoldable pub resolve_roles :
    List RoleDefinition → HashMap String ResolvedRole → Option (HashMap String ResolvedRole)
unfolding resolve insert
resolve_roles [] resolved = some resolved
resolve_roles (role ∷ roles) resolved = elim (base_of role.extends) [
  | none ↦ none
  | some base ↦ resolve_roles roles (insert role.name (resolve role base) resolved)
]

unfoldable pub add_envelope_types : List EnvelopeTypeDefinition → HashSet String → HashSet String
unfolding add
add_envelope_types [] s = s
add_envelope_types (et ∷ ets) s = add_envelope_types ets (add et.name s)

unfoldable pub rows_of : String → List EnvelopePermission → List EnvelopePermissionRow
rows_of name [] = []
rows_of name (perm ∷ perms) =
    record {
      sender_role = perm.sender_role;
      envelope_type = name;
      receiver_role = perm.receiver_role;
    }
    ∷ rows_of name perms

unfoldable pub all_rows : List EnvelopeTypeDefinition → List EnvelopePermissionRow
unfolding rows_of
all_rows [] = []
all_rows (et ∷ ets) = rows_of et.name et.permissions ++ all_rows ets

abbrev pub base_checkpoint_table : HashMap String (HashSet String)
base_checkpoint_table = ("artifact", "worker" ∷ []) ∷ ("observation", "observer" ∷ []) ∷ []

unfoldable pub add_checkpoint_types :
    List CheckpointTypeDefinition
    → HashMap String (HashSet String)
    → HashMap String (HashSet String)
unfolding add_all insert
add_checkpoint_types [] m = m
add_checkpoint_types (ct ∷ cts) m =
    add_checkpoint_types cts (insert ct.name (add_all ct.permitted_roles []) m)

-- `entry(k).or_default().insert(v)`.
unfoldable pub add_entry :
    String → String → HashMap String (HashSet String) → HashMap String (HashSet String)
unfolding add insert
add_entry k v m = insert k (add v (get_list k m)) m

unfoldable pub permit :
    String → List String → HashMap String (HashSet String) → HashMap String (HashSet String)
unfolding add_entry
permit role [] m = m
permit role (ct ∷ cts) m = permit role cts (add_entry ct role m)

unfoldable pub permit_all :
    List ResolvedRole → HashMap String (HashSet String) → HashMap String (HashSet String)
unfolding permit
permit_all [] m = m
permit_all (role ∷ roles) m = permit_all roles (permit role.name role.checkpoint_types m)

abbrev pub assemble : TaxonomyDefinition → HashMap String ResolvedRole → Taxonomy
assemble def resolved = record {
  id = def.id;
  version = def.version;
  protocol_version = def.protocol_version;
  resolved_roles = resolved;
  envelope_types = add_envelope_types def.envelope_types base_envelope_types;
  envelope_permissions = base_permission_rows ++ all_rows def.envelope_types;
  checkpoint_types =
      permit_all (values resolved)
        (add_checkpoint_types def.checkpoint_types base_checkpoint_table);
}

abbrev pub build : TaxonomyDefinition → Option Taxonomy
build def = Option.map (assemble def) (resolve_roles def.roles [])

unfoldable pub load : TaxonomyDefinition → String → Result TaxonomyError (Option Taxonomy)
unfolding validate resolve_roles add_envelope_types all_rows add_checkpoint_types permit_all
load def version = validate def version >>= λ _. ok (build def)
