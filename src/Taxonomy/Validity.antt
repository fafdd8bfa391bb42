-- ===== src/Taxonomy/Validity.antt =====
-- Which definitions `load` accepts, described without the order of its checks.
use wacp_platform.Prelude.{
  Bool, true, ◌&&◌, ◌||◌, not, String, Option, some, none, HashSet, add, contains, string_eq, List,
  [], ◌∷◌, ◌++◌, ◌==◌, ok, ◌>>◌, any, all, all-and, all-true, is_distinct-append, is_ok,
  is_distinct, get_or, is_some, Option-cases, Bool-cases, inl, inr, ◌≡◌, ◌≢◌, refl, arith,
  contains-add, HashMap, insert,
}
use wacp_platform.Types.Enums.{BaseRole}
use wacp_platform.Taxonomy.{
  RoleDefinition, EnvelopeTypeDefinition, CheckpointTypeDefinition, TaxonomyDefinition,
  TaxonomyError, ResolvedRole, Taxonomy, duplicate_role_name, duplicate_envelope_type,
  duplicate_checkpoint_type,
}
use wacp_platform.Taxonomy.Checks.{
  Checked, base_roles, base_envelope_types, base_checkpoint_types, coordinator_capabilities,
  refuse_if, each, check_unique, role_names, envelope_names, checkpoint_names, includes, is_empty,
  check_not_base, check_inheritance, check_capability, check_escalation, check_override,
  check_each_override, check_overrides, check_permission, check_envelope_type, check_permitted,
  check_checkpoint_type, validate,
}
use wacp_platform.Taxonomy.Loader.{resolve, resolve_roles, assemble, load}

-- A capability that only a coordinator may have.
abbrev pub is_reserved : String → Bool
is_reserved cap = any (includes cap) coordinator_capabilities

abbrev pub extends_base : RoleDefinition → Bool
extends_base role = role.extends == "worker" || role.extends == "observer"

abbrev pub known_types : TaxonomyDefinition → List String
known_types def = base_checkpoint_types ++ checkpoint_names def

abbrev pub is_valid_definition : TaxonomyDefinition → RoleDefinition → Bool
is_valid_definition def role =
    extends_base role
    && all (λ cap. not (is_reserved cap)) role.add
    && all (contains (known_types def)) (get_or role.checkpoint_types [])

abbrev pub known_roles : TaxonomyDefinition → List String
known_roles def = base_roles ++ role_names def

abbrev pub is_valid_type : TaxonomyDefinition → EnvelopeTypeDefinition → Bool
is_valid_type def et =
    not (is_empty et.permissions)
    && all
        (λ p.
          contains (known_roles def) p.sender_role && contains (known_roles def) p.receiver_role)
        et.permissions

abbrev pub is_valid_checkpoint : TaxonomyDefinition → CheckpointTypeDefinition → Bool
is_valid_checkpoint def ct =
    not (is_empty ct.permitted_roles) && all (contains (known_roles def)) ct.permitted_roles

abbrev pub is_valid : TaxonomyDefinition → String → Bool
is_valid def version =
    def.protocol_version == version
    && is_distinct (known_roles def)
    && is_distinct (base_envelope_types ++ envelope_names def)
    && is_distinct (known_types def)
    && all (is_valid_definition def) def.roles
    && all (is_valid_type def) def.envelope_types
    && all (is_valid_checkpoint def) def.checkpoint_types

refuse_if-is_ok : (test : Bool) (e : TaxonomyError) → is_ok (refuse_if test e) ≡ not test
refuse_if-is_ok test e = ground arith

chain-is_ok : (m k : Checked) → is_ok (m >> k) ≡ (is_ok m && is_ok k)
chain-is_ok m k = ground arith

each-is_ok {ℓ} :
    {A : Type ℓ} (check : A → Checked) (p : A → Bool) (xs : List A)
    → ((x : A) → is_ok (check x) ≡ p x)
    → is_ok (each check xs) ≡ all p xs
unfolding each
each-is_ok check p [] h = refl
each-is_ok check p (x ∷ xs) h = ground (arith, h x, each-is_ok check p xs h)

all_unseen-add :
    (n : String) (seen names : List String)
    → all (λ x. not (contains (add n seen) x)) names
      ≡ (all (λ x. not (contains seen x)) names && not (contains names n))
all_unseen-add n seen [] = refl
all_unseen-add n seen (x ∷ xs) = ground (
  arith,
  all_unseen-add n seen xs,
  contains-add n x seen,
  string_eq.beq_iff n x,
  string_eq.beq_iff x n,
)

check_unique-is_ok :
    (duplicate : String → TaxonomyError) (seen : HashSet String) (names : List String)
    → is_ok (check_unique duplicate seen names)
      ≡ (all (λ n. not (contains seen n)) names && is_distinct names)
unfolding check_unique
check_unique-is_ok duplicate seen [] = refl
check_unique-is_ok duplicate seen (n ∷ ns) =
    ground (arith, check_unique-is_ok duplicate (add n seen) ns, all_unseen-add n seen ns)

-- The two checks of a kind of names, against each other and against the base names.
names-is_ok :
    (duplicate : String → TaxonomyError) (base names : List String)
    → is_distinct base ≡ true
    → (is_ok (check_unique duplicate [] names) && is_ok (each (check_not_base base) names))
      ≡ is_distinct (base ++ names)
unfolding check_not_base
names-is_ok duplicate base names h = ground (
  arith,
  check_unique-is_ok duplicate [] names,
  all-true names,
  each-is_ok (check_not_base base) (λ n. not (contains base n)) names (λ n. ground arith),
  is_distinct-append base names,
)

check_escalation-is_ok :
    (role : RoleDefinition)
    → is_ok (check_escalation role) ≡ all (λ cap. not (is_reserved cap)) role.add
unfolding check_escalation check_capability
check_escalation-is_ok role =
    each-is_ok (check_capability role) (λ cap. not (is_reserved cap)) role.add (λ cap. ground arith)

check_each_override-is_ok :
    (def : TaxonomyDefinition) (role : RoleDefinition) (overrides : Option (List String))
    → is_ok (check_each_override def role overrides)
      ≡ all (contains (known_types def)) (get_or overrides [])
unfolding check_each_override check_override
check_each_override-is_ok def role none = refl
check_each_override-is_ok def role (some names) =
    each-is_ok (check_override def role) (contains (known_types def)) names (λ n. ground arith)

check_envelope_type-is_ok :
    (def : TaxonomyDefinition) (et : EnvelopeTypeDefinition)
    → is_ok (check_envelope_type def et) ≡ is_valid_type def et
unfolding check_envelope_type check_permission
check_envelope_type-is_ok def et = ground (
  arith,
  each-is_ok (check_permission def et)
      (λ p. contains (known_roles def) p.sender_role && contains (known_roles def) p.receiver_role)
      et.permissions (λ p. ground arith),
)

check_checkpoint_type-is_ok :
    (def : TaxonomyDefinition) (ct : CheckpointTypeDefinition)
    → is_ok (check_checkpoint_type def ct) ≡ is_valid_checkpoint def ct
unfolding check_checkpoint_type check_permitted
check_checkpoint_type-is_ok def ct = ground (
  arith,
  each-is_ok (check_permitted def ct) (contains (known_roles def)) ct.permitted_roles
      (λ n. ground arith),
)

definitions-is_ok :
    (def : TaxonomyDefinition) (roles : List RoleDefinition)
    → (is_ok (each check_inheritance roles)
        && is_ok (each check_escalation roles)
        && is_ok (each (check_overrides def) roles))
      ≡ all (is_valid_definition def) roles
definitions-is_ok def roles = ground (
  arith,
  each-is_ok check_inheritance extends_base roles (λ r. ground arith),
  each-is_ok check_escalation (λ r. all (λ cap. not (is_reserved cap)) r.add) roles
      check_escalation-is_ok,
  each-is_ok (check_overrides def)
      (λ r. all (contains (known_types def)) (get_or r.checkpoint_types [])) roles
      (λ r. check_each_override-is_ok def r r.checkpoint_types),
  all-and (λ r. all (λ cap. not (is_reserved cap)) r.add)
      (λ r. all (contains (known_types def)) (get_or r.checkpoint_types [])) roles,
  all-and extends_base
      (λ r.
        all (λ cap. not (is_reserved cap)) r.add
        && all (contains (known_types def)) (get_or r.checkpoint_types []))
      roles,
)

validate-is_ok :
    (def : TaxonomyDefinition) (version : String)
    → is_ok (validate def version) ≡ is_valid def version
unfolding validate
validate-is_ok def version = ground (
  arith,
  names-is_ok duplicate_role_name base_roles (role_names def) refl,
  names-is_ok duplicate_envelope_type base_envelope_types (envelope_names def) refl,
  names-is_ok duplicate_checkpoint_type base_checkpoint_types (checkpoint_names def) refl,
  definitions-is_ok def def.roles,
  each-is_ok (check_envelope_type def) (is_valid_type def) def.envelope_types
      (check_envelope_type-is_ok def),
  each-is_ok (check_checkpoint_type def) (is_valid_checkpoint def) def.checkpoint_types
      (check_checkpoint_type-is_ok def),
)

-- Roles that extend a base which can be extended are resolved, without the panic.
resolve_roles-is_some :
    (roles : List RoleDefinition) (resolved : HashMap String ResolvedRole)
    → all extends_base roles ≡ true
    → is_some (resolve_roles roles resolved) ≡ true
unfolding resolve_roles
resolve_roles-is_some [] resolved h = refl
resolve_roles-is_some (role ∷ roles) resolved h =
    let next : BaseRole → HashMap String ResolvedRole =
      λ base. insert role.name (resolve role base) resolved in
    ground (
      arith,
      resolve_roles-is_some roles (next BaseRole.worker),
      resolve_roles-is_some roles (next BaseRole.observer),
    )

valid-extends_base :
    (def : TaxonomyDefinition) (roles : List RoleDefinition)
    → all (is_valid_definition def) roles ≡ true
    → all extends_base roles ≡ true
valid-extends_base def [] h = refl
valid-extends_base def (role ∷ roles) h = ground (arith, valid-extends_base def roles)

resolve_roles-valid :
    (def : TaxonomyDefinition) (version : String)
    → is_valid def version ≡ true
    → (resolved : HashMap String ResolvedRole) × (resolve_roles def.roles [] ≡ some resolved)
resolve_roles-valid def version valid = elim (Option-cases (resolve_roles def.roles [])) [
  | inl missing ↦
      let found =
        resolve_roles-is_some def.roles [] (valid-extends_base def def.roles (ground arith)) in
      absurd (ground (arith, missing, found))
  | inr found ↦ found
]

-- Loading accepts a definition exactly when it is valid: its protocol version is the one asked for, no
-- name of a role, envelope type or checkpoint type occurs twice, the base names included, every role
-- extends `worker` or `observer`, adds no capability that contains a reserved one and overrides only
-- checkpoint types that exist, and every envelope type and checkpoint type names at least one role
-- and only known ones. Loading never panics.
pub load_iff :
    (def : TaxonomyDefinition) (version : String)
    → (is_ok (load def version) ≡ is_valid def version) × (load def version ≢ ok none)
unfolding load
load_iff def version = elim (Bool-cases (is_valid def version)) [
  | inl valid ↦
      let resolved = resolve_roles-valid def version valid in
      (ground (arith, validate-is_ok def version), ground (arith, resolved.1))
  | inr invalid ↦
      (ground (arith, validate-is_ok def version), ground (arith, validate-is_ok def version))
]

-- What a definition that loads gives.
pub loaded :
    (def : TaxonomyDefinition) (version : String) (taxonomy : Taxonomy)
    → load def version ≡ ok (some taxonomy)
    → (resolved : HashMap String ResolvedRole) × (resolve_roles def.roles [] ≡ some resolved)
      × (taxonomy ≡ assemble def resolved)
      × (is_valid def version ≡ true)
unfolding load
loaded def version taxonomy h =
    let valid : is_valid def version ≡ true = ground (arith, validate-is_ok def version) in
    let resolved = resolve_roles-valid def version valid in
    (resolved.0, resolved.1, ground (arith, resolved.1), valid)
