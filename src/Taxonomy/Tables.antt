-- ===== src/Taxonomy/Tables.antt =====
-- The tables of a taxonomy, read by membership.
use wacp_platform.Prelude.{
  Bool, true, ◌&&◌, ◌||◌, String, HashMap, HashSet, get, get_list, insert, values, add, contains,
  contains_key, string_eq, List, [], ◌∷◌, ◌==◌, map, any, all, all-contains, ◌≡◌, refl, arith,
  get-insert, contains-add,
}
use wacp_platform.Taxonomy.{EnvelopeTypeDefinition, CheckpointTypeDefinition, ResolvedRole}
use wacp_platform.Taxonomy.Loader.{
  add_all, add_envelope_types, add_checkpoint_types, add_entry, permit, permit_all,
}
use wacp_platform.Taxonomy.Sound.{is_sound}

-- The table of checkpoint types after the roles' own types are added.
contains-add_entry :
    (k j v x : String) (m : HashMap String (HashSet String))
    → contains (get_list j (add_entry k v m)) x ≡ ((k == j && v == x) || contains (get_list j m) x)
unfolding add_entry
contains-add_entry k j v x m = ground (
  arith,
  get-insert k j (add v (get_list k m)) m,
  contains-add v x (get_list k m),
  string_eq.beq_iff k j,
)

contains-permit :
    (role x ct : String) (types : List String) (m : HashMap String (HashSet String))
    → contains (get_list ct (permit role types m)) x
      ≡ ((role == x && contains types ct) || contains (get_list ct m) x)
unfolding permit
contains-permit role x ct [] m = ground arith
contains-permit role x ct (t ∷ types) m =
    ground (
      arith,
      contains-permit role x ct types (add_entry t role m),
      contains-add_entry t ct role x m,
    )

abbrev pub has_type : String → String → ResolvedRole → Bool
has_type x ct role = role.name == x && contains role.checkpoint_types ct

pub contains-permit_all :
    (x ct : String) (roles : List ResolvedRole) (m : HashMap String (HashSet String))
    → contains (get_list ct (permit_all roles m)) x
      ≡ (any (has_type x ct) roles || contains (get_list ct m) x)
unfolding permit_all
contains-permit_all x ct [] m = refl
contains-permit_all x ct (role ∷ roles) m = ground (
  arith,
  contains-permit_all x ct roles (permit role.name role.checkpoint_types m),
  contains-permit role.name x ct role.checkpoint_types m,
)

contains-add_all :
    (x : String) (xs s : List String) → contains (add_all xs s) x ≡ (contains xs x || contains s x)
unfolding add_all
contains-add_all x [] s = refl
contains-add_all x (y ∷ ys) s = ground (arith, contains-add_all x ys (add y s), contains-add y x s)

-- A role that a definition's checkpoint type permits, or one that the table permitted before.
pub contains-add_checkpoint_types :
    (p : String → Bool) (x ct : String) (cts : List CheckpointTypeDefinition)
    (m : HashMap String (HashSet String))
    → all (λ c. all p c.permitted_roles) cts ≡ true
    → (contains (get_list ct m) x ≡ true → p x ≡ true)
    → contains (get_list ct (add_checkpoint_types cts m)) x ≡ true
    → p x ≡ true
unfolding add_checkpoint_types
contains-add_checkpoint_types p x ct [] m ok_types old h = old h
contains-add_checkpoint_types p x ct (c ∷ cts) m ok_types old h =
    let permitted = add_all c.permitted_roles [] in
    contains-add_checkpoint_types p x ct cts (insert c.name permitted m) (ground arith)
      (λ k. ground (
        arith,
        get-insert c.name ct permitted m,
        contains-add_all x c.permitted_roles [],
        all-contains p c.permitted_roles x,
        old,
      ))
      h

-- The entries of a list of roles stand under their own names, so that a name among the values is a key.
pub any-has_type :
    (x ct : String) (resolved : HashMap String ResolvedRole)
    → all is_sound resolved ≡ true
    → any (has_type x ct) (values resolved) ≡ true
    → contains_key x resolved ≡ true
unfolding get
any-has_type x ct [] sound h = ground arith
any-has_type x ct ((name, role) ∷ resolved) sound h =
    ground (arith, any-has_type x ct resolved, string_eq.beq_iff role.name name)

pub contains-add_envelope_types :
    (x : String) (ets : List EnvelopeTypeDefinition) (s : HashSet String)
    → contains (add_envelope_types ets s) x ≡ (contains (map (λ t. t.name) ets) x || contains s x)
unfolding add_envelope_types
contains-add_envelope_types x [] s = refl
contains-add_envelope_types x (et ∷ ets) s =
    ground (arith, contains-add_envelope_types x ets (add et.name s), contains-add et.name x s)
