-- ===== src/Permissions/Loaded.antt =====
-- The permission engine over a taxonomy that was loaded from a definition.
use wacp_platform.Prelude.{
  true, false, String, some, HashMap, get, insert, contains, string_eq, List, [], ◌∷◌, ok, all,
  is_ok, ◌≡◌, refl, arith, get-insert, ap, ◌∙◌, get_or,
}
use wacp_platform.Types.Enums.{SignalType, signal_eq, BaseRole, coordinator, worker, observer}
use wacp_platform.Taxonomy.{
  RoleDefinition, TaxonomyDefinition, ResolvedRole, Taxonomy, resolve_role,
}
use wacp_platform.Taxonomy.Loader.{resolve, resolve_roles, load}
use wacp_platform.Taxonomy.Validity.{loaded}
use wacp_platform.Taxonomy.Sound.{is_sound, is_derivable}
use wacp_platform.Taxonomy.Closed.{sound_roles, load-IsClosed}
use wacp_platform.Permissions.{
  PermissionEngine, emit_signal, create_checkpoint, new, add_role, add_roles, with_base_roles,
  evaluate,
}
use wacp_platform.Permissions.Roles.{
  emit_set, no_base, has_distinct_names, new-emit_set, evaluate_iff,
}

sound-no_base :
    (resolved : HashMap String ResolvedRole)
    → all is_sound resolved ≡ true
    → no_base resolved ≡ true
sound-no_base [] h = refl
sound-no_base ((name, r) ∷ resolved) h = ground (
  arith,
  sound-no_base resolved,
  string_eq.beq_iff name "coordinator",
  string_eq.beq_iff "coordinator" name,
  string_eq.beq_iff name "worker",
  string_eq.beq_iff "worker" name,
  string_eq.beq_iff name "observer",
  string_eq.beq_iff "observer" name,
)

distinct-insert :
    (k : String) (r : ResolvedRole) (m : HashMap String ResolvedRole)
    → has_distinct_names m ≡ true
    → has_distinct_names (insert k r m) ≡ true
unfolding insert get
distinct-insert k r [] h = refl
distinct-insert k r ((j, s) ∷ m) h =
    ground (
      arith,
      distinct-insert k r m,
      get-insert k j r m,
      string_eq.beq_iff k j,
      string_eq.beq_iff j k,
    )

distinct-resolve_roles :
    (roles : List RoleDefinition) (so_far resolved : HashMap String ResolvedRole)
    → has_distinct_names so_far ≡ true
    → resolve_roles roles so_far ≡ some resolved
    → has_distinct_names resolved ≡ true
unfolding resolve_roles
distinct-resolve_roles [] so_far resolved distinct h = ground arith
distinct-resolve_roles (role ∷ roles) so_far resolved distinct h =
    let next : BaseRole → HashMap String ResolvedRole =
      λ base. insert role.name (resolve role base) so_far in
    ground (
      arith,
      distinct-resolve_roles roles (next worker) resolved,
      distinct-resolve_roles roles (next observer) resolved,
      distinct-insert role.name (resolve role worker) so_far,
      distinct-insert role.name (resolve role observer) so_far,
    )

loaded-emit_set :
    (def : TaxonomyDefinition) (version : String) (t : Taxonomy) (name : String) (r : ResolvedRole)
    → load def version ≡ ok (some t)
    → resolve_role name t ≡ some r
    → get name (new t).signal_emit_sets ≡ some (emit_set r.base)
unfolding resolve_role
loaded-emit_set def version t name r h found =
    let (resolved, done, made, valid) = loaded def version t h in
    let sound = sound_roles def resolved done (ground arith) (ground arith) in
    new-emit_set t name r (ap (λ u. no_base u.resolved_roles) made ∙ sound-no_base resolved sound)
      (ap (λ u. has_distinct_names u.resolved_roles) made
        ∙ distinct-resolve_roles def.roles [] resolved refl done)
      found

no_integrate :
    (b : BaseRole) → is_derivable b ≡ true → contains (emit_set b) SignalType.integrate ≡ false
no_integrate coordinator h = ground arith
no_integrate worker h = refl
no_integrate observer h = refl

no_acknowledged :
    (b : BaseRole) → is_derivable b ≡ true → contains (emit_set b) SignalType.acknowledged ≡ false
no_acknowledged coordinator h = ground arith
no_acknowledged worker h = refl
no_acknowledged observer h = refl

-- A role that a definition derives may emit exactly the signals of its base role, and no
-- signal to integrate or to acknowledge, which are a coordinator's, when the engine is built over
-- what the definition loads to.
pub derived_signals :
    (def : TaxonomyDefinition) (version : String) (t : Taxonomy) (name : String) (r : ResolvedRole)
    (signal : SignalType)
    → load def version ≡ ok (some t)
    → resolve_role name t ≡ some r
    → (is_ok (evaluate (emit_signal name signal) (new t)) ≡ contains (emit_set r.base) signal)
      × (is_ok (evaluate (emit_signal name SignalType.integrate) (new t)) ≡ false)
      × (is_ok (evaluate (emit_signal name SignalType.acknowledged) (new t)) ≡ false)
unfolding resolve_role
derived_signals def version t name r signal h found =
    let engine = new t in
    let set = loaded-emit_set def version t name r h found in
    let sound : is_sound (name, r) ≡ true = (load-IsClosed def version t h).roles name r found in
    let allowed : (s : SignalType)
        → is_ok (evaluate (emit_signal name s) engine) ≡ contains (emit_set r.base) s =
      λ s. evaluate_iff (emit_signal name s) engine ∙ ap (λ o. contains (get_or o []) s) set in
    let derivable : is_derivable r.base ≡ true = ground arith in
    (
      allowed signal,
      allowed SignalType.integrate ∙ no_integrate r.base derivable,
      allowed SignalType.acknowledged ∙ no_acknowledged r.base derivable,
    )

add_roles-checkpoint_table :
    (roles : HashMap String ResolvedRole) (e : PermissionEngine)
    → (add_roles roles e).checkpoint_table ≡ e.checkpoint_table
unfolding add_roles add_role
add_roles-checkpoint_table [] e = refl
add_roles-checkpoint_table ((name, r) ∷ roles) e =
    add_roles-checkpoint_table roles (add_role name r.base e)

-- A role that a definition derives may create every checkpoint type that it lists, by its overrides
-- or from its base, when the engine is built over what the definition loads to.
pub derived_checkpoints :
    (def : TaxonomyDefinition) (version : String) (t : Taxonomy) (name ct : String)
    (r : ResolvedRole)
    → load def version ≡ ok (some t)
    → resolve_role name t ≡ some r
    → contains r.checkpoint_types ct ≡ true
    → is_ok (evaluate (create_checkpoint name ct) (new t)) ≡ true
unfolding new with_base_roles
derived_checkpoints def version t name ct r h found listed =
    let table = add_roles-checkpoint_table t.resolved_roles (with_base_roles t) in
    let permitted = (load-IsClosed def version t h).creates name ct r found listed in
    ground (arith, evaluate_iff (create_checkpoint name ct) (new t), table, permitted)
