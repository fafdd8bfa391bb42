-- ===== src/Taxonomy/Sound.antt =====
-- The roles that a loaded taxonomy resolves, each by itself.
use wacp_platform.Prelude.{
  Bool, true, false, ◌&&◌, ◌||◌, not, String, some, HashMap, HashSet, insert, add, contains,
  contains_key, string_eq, List, [], ◌∷◌, ◌==◌, map, all, all-insert, all-add, all-retain, ◌≡◌,
  refl, arith, get-insert, beq_refl,
}
use wacp_platform.Types.Enums.{BaseRole, coordinator, worker, observer}
use wacp_platform.Taxonomy.{RoleDefinition, TaxonomyDefinition, ResolvedRole}
use wacp_platform.Taxonomy.Loader.{base_capabilities, add_all, remove_all, resolve, resolve_roles}
use wacp_platform.Taxonomy.Validity.{is_reserved, is_valid_definition}

-- A base from which a role can be derived.
abbrev pub is_derivable : BaseRole → Bool
is_derivable coordinator = false
is_derivable worker = true
is_derivable observer = true

-- An entry of the resolved roles: it stands under its own name, which is no base name, it is derived
-- from `worker` or `observer`, and none of its capabilities contains a reserved one.
abbrev pub is_sound : String × ResolvedRole → Bool
is_sound (name, role) =
    role.name == name
    && (not (contains ("coordinator" ∷ "worker" ∷ "observer" ∷ []) name)
        && (is_derivable role.base && all (λ cap. not (is_reserved cap)) role.capabilities))

all-add_all :
    (p : String → Bool) (xs : List String) (s : HashSet String)
    → all p (add_all xs s) ≡ (all p xs && all p s)
unfolding add_all
all-add_all p [] s = refl
all-add_all p (x ∷ xs) s = ground (arith, all-add_all p xs (add x s), all-add p x s)

all-remove_all :
    (p : String → Bool) (xs : List String) (s : HashSet String)
    → all p s ≡ true
    → all p (remove_all xs s) ≡ true
unfolding remove_all
all-remove_all p [] s h = h
all-remove_all p (x ∷ xs) s h = all-remove_all p xs _ (all-retain p (λ y. not (y == x)) s h)

base_unreserved : (b : BaseRole) → all (λ cap. not (is_reserved cap)) (base_capabilities b) ≡ true
base_unreserved coordinator = refl
base_unreserved worker = refl
base_unreserved observer = refl

resolve-is_sound :
    (def : TaxonomyDefinition) (role : RoleDefinition) (b : BaseRole)
    → is_valid_definition def role ≡ true
    → is_derivable b ≡ true
    → contains ("coordinator" ∷ "worker" ∷ "observer" ∷ []) role.name ≡ false
    → is_sound (role.name, resolve role b) ≡ true
unfolding resolve
resolve-is_sound def role b valid derivable fresh =
    let free : String → Bool = λ cap. not (is_reserved cap) in
    ground (
      arith,
      beq_refl {K = String} role.name,
      all-add_all free role.add (remove_all role.remove (base_capabilities b)),
      all-remove_all free role.remove (base_capabilities b) (base_unreserved b),
    )

-- The roles that no base name hides, among those of the definition.
abbrev pub is_derived : RoleDefinition → Bool
is_derived role = not (contains ("coordinator" ∷ "worker" ∷ "observer" ∷ []) role.name)

pub all-names :
    (roles : List RoleDefinition)
    → all
        (λ n. not (contains ("coordinator" ∷ "worker" ∷ "observer" ∷ []) n))
        (map (λ r. r.name) roles)
      ≡ all is_derived roles
all-names [] = refl
all-names (role ∷ roles) = ground (arith, all-names roles)

pub resolve_roles-is_sound :
    (def : TaxonomyDefinition) (roles : List RoleDefinition) (so_far : HashMap String ResolvedRole)
    (resolved : HashMap String ResolvedRole)
    → all (is_valid_definition def) roles ≡ true
    → all is_derived roles ≡ true
    → all is_sound so_far ≡ true
    → resolve_roles roles so_far ≡ some resolved
    → all is_sound resolved ≡ true
unfolding resolve_roles
resolve_roles-is_sound def [] so_far resolved valid derived sound h = ground arith
resolve_roles-is_sound def (role ∷ roles) so_far resolved valid derived sound h =
    let next : BaseRole → HashMap String ResolvedRole =
      λ base. insert role.name (resolve role base) so_far in
    ground (
      arith,
      resolve_roles-is_sound def roles (next worker) resolved,
      resolve_roles-is_sound def roles (next observer) resolved,
      all-insert is_sound role.name (resolve role worker) so_far,
      all-insert is_sound role.name (resolve role observer) so_far,
      resolve-is_sound def role worker,
      resolve-is_sound def role observer,
    )

pub resolve_roles-contains_key :
    (name : String) (roles : List RoleDefinition) (so_far : HashMap String ResolvedRole)
    (resolved : HashMap String ResolvedRole)
    → resolve_roles roles so_far ≡ some resolved
    → contains_key name resolved
      ≡ (contains (map (λ r. r.name) roles) name || contains_key name so_far)
unfolding resolve_roles
resolve_roles-contains_key name [] so_far resolved h = ground arith
resolve_roles-contains_key name (role ∷ roles) so_far resolved h =
    let next : BaseRole → HashMap String ResolvedRole =
      λ base. insert role.name (resolve role base) so_far in
    ground (
      arith,
      resolve_roles-contains_key name roles (next worker) resolved,
      resolve_roles-contains_key name roles (next observer) resolved,
      get-insert role.name name (resolve role worker) so_far,
      get-insert role.name name (resolve role observer) so_far,
    )
