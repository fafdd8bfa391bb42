-- ===== src/Examples/Taxonomies.antt =====
-- Definitions of a taxonomy, loaded, and the permission engine over one.
use wacp_platform.Prelude.{
  false, some, none, get, insert, add, contains, string_eq, [], ◌∷◌, ok, err, is_ok, ◌≡◌, ◌≢◌, refl,
}
use wacp_platform.Types.Enums.{SignalType, signal_eq, BaseRole}
use wacp_platform.Taxonomy.{
  RoleDefinition, TaxonomyDefinition, ResolvedRole, Taxonomy, privilege_escalation, resolve_role,
}
use wacp_platform.Taxonomy.Checks.{
  each, check_unique, check_not_base, check_capability, check_escalation, check_override,
  check_each_override, check_permission, check_envelope_type, check_permitted,
  check_checkpoint_type, validate,
}
use wacp_platform.Taxonomy.Loader.{resolve, resolve_roles, assemble, load}
use wacp_platform.Taxonomy.Validity.{is_valid, load_iff}
use wacp_platform.Taxonomy.Closed.{IsClosed, load-IsClosed}
use wacp_platform.Permissions.{evaluate, emit_signal, new}
use wacp_platform.Permissions.Roles.{emit_set}
use wacp_platform.Permissions.Loaded.{derived_signals}

-- A reviewer is a worker that writes reviews instead of artifacts.
abbrev reviewer : RoleDefinition
reviewer = record {
  name = "reviewer";
  extends = "worker";
  add = "create: review" ∷ [];
  remove = "create: artifact" ∷ [];
  checkpoint_types = some ("review" ∷ []);
}

abbrev definition : TaxonomyDefinition
definition = record {
  id = "reviews";
  version = "1";
  protocol_version = "1.0";
  roles = reviewer ∷ [];
  envelope_types =
      record {
        name = "verdict";
        permissions = record { sender_role = "reviewer"; receiver_role = "coordinator" } ∷ [];
      }
      ∷ [];
  checkpoint_types = record { name = "review"; permitted_roles = "reviewer" ∷ [] } ∷ [];
}

abbrev resolved : ResolvedRole
resolved = resolve reviewer BaseRole.worker

abbrev taxonomy : Taxonomy
taxonomy = assemble definition (("reviewer", resolved) ∷ [])

loads : load definition "1.0" ≡ ok (some taxonomy)
unfolding load validate each check_unique check_not_base check_escalation check_capability
    check_each_override check_override check_envelope_type check_permission check_checkpoint_type
    check_permitted resolve_roles insert
loads = refl

-- The same role with a capability of a coordinator is refused.
abbrev usurper : RoleDefinition
usurper = record {
  name = "usurper";
  extends = "worker";
  add = "may abort_workspace" ∷ [];
  remove = [];
  checkpoint_types = none;
}

refused :
    load (record definition { roles = usurper ∷ reviewer ∷ [] }) "1.0"
    ≡ err (privilege_escalation "usurper" "may abort_workspace")
unfolding load validate each check_unique check_not_base check_escalation check_capability add
refused = refl

load_iff_example :
    (is_ok (load definition "1.0") ≡ is_valid definition "1.0") × (load definition "1.0" ≢ ok none)
load_iff_example = load_iff definition "1.0"

load-IsClosed_example : IsClosed taxonomy
load-IsClosed_example = load-IsClosed definition "1.0" taxonomy loads

known : resolve_role "reviewer" taxonomy ≡ some resolved
unfolding resolve_role get
known = refl

derived_signals_example :
    (is_ok (evaluate (emit_signal "reviewer" SignalType.complete) (new taxonomy))
      ≡ contains (emit_set resolved.base) SignalType.complete)
    × (is_ok (evaluate (emit_signal "reviewer" SignalType.integrate) (new taxonomy)) ≡ false)
    × (is_ok (evaluate (emit_signal "reviewer" SignalType.acknowledged) (new taxonomy)) ≡ false)
derived_signals_example =
    derived_signals definition "1.0" taxonomy "reviewer" resolved SignalType.complete loads known
