-- ===== src/Taxonomy/Closed.antt =====
-- What a loaded taxonomy's roles, rows and tables refer to.
use wacp_platform.Prelude.{
  Bool, true, false, ◌&&◌, ◌||◌, String, some, HashMap, get, get_list, values, contains,
  contains_key, string_eq, List, [], ◌∷◌, ◌++◌, map, ok, any, all, all-get, any-get, all-append,
  contains-all, is_distinct, is_distinct-append, ◌≡◌, refl, arith, ◌∙◌, Bool-cases, inl, inr, ap,
}
use mathlib.Core.Path.{fun_ext}
use wacp_platform.Taxonomy.{
  EnvelopePermission, EnvelopeTypeDefinition, CheckpointTypeDefinition, TaxonomyDefinition,
  EnvelopePermissionRow, ResolvedRole, Taxonomy, is_valid_role, is_valid_envelope_type,
  resolve_role,
}
use wacp_platform.Taxonomy.Checks.{role_names, base_envelope_types}
use wacp_platform.Taxonomy.Loader.{
  resolve_roles, add_envelope_types, rows_of, all_rows, base_checkpoint_table, base_permission_rows,
  add_checkpoint_types, assemble, load,
}
use wacp_platform.Taxonomy.Validity.{
  is_valid_definition, known_roles, is_valid_type, is_valid_checkpoint, is_valid, loaded,
}
use wacp_platform.Taxonomy.Sound.{
  is_sound, all-names, resolve_roles-is_sound, resolve_roles-contains_key,
}
use wacp_platform.Taxonomy.Tables.{
  has_type, contains-permit_all, contains-add_checkpoint_types, any-has_type,
  contains-add_envelope_types,
}

abbrev pub is_closed_row : (String → Bool) → (String → Bool) → EnvelopePermissionRow → Bool
is_closed_row is_role is_type row =
    is_role row.sender_role && (is_role row.receiver_role && is_type row.envelope_type)

all-rows_of :
    (is_role is_type : String → Bool) (name : String) (perms : List EnvelopePermission)
    → all (λ p. is_role p.sender_role && is_role p.receiver_role) perms ≡ true
    → is_type name ≡ true
    → all (is_closed_row is_role is_type) (rows_of name perms) ≡ true
unfolding rows_of
all-rows_of is_role is_type name [] h k = refl
all-rows_of is_role is_type name (perm ∷ perms) h k =
    ground (arith, all-rows_of is_role is_type name perms)

all-all_rows :
    (is_role is_type : String → Bool) (ets : List EnvelopeTypeDefinition)
    → all (λ et. all (λ p. is_role p.sender_role && is_role p.receiver_role) et.permissions) ets
      ≡ true
    → all is_type (map (λ et. et.name) ets) ≡ true
    → all (is_closed_row is_role is_type) (all_rows ets) ≡ true
unfolding all_rows
all-all_rows is_role is_type [] h k = refl
all-all_rows is_role is_type (et ∷ ets) h k = ground (
  arith,
  all-rows_of is_role is_type et.name et.permissions,
  all-all_rows is_role is_type ets,
  all-append (is_closed_row is_role is_type) (rows_of et.name et.permissions) (all_rows ets),
)

permissions_known :
    (def : TaxonomyDefinition) (ets : List EnvelopeTypeDefinition)
    → all (is_valid_type def) ets ≡ true
    → all
        (λ et.
          all
            (λ p.
              contains (known_roles def) p.sender_role
              && contains (known_roles def) p.receiver_role)
            et.permissions)
        ets
      ≡ true
permissions_known def [] h = refl
permissions_known def (et ∷ ets) h = ground (arith, permissions_known def ets)

permitted_known :
    (def : TaxonomyDefinition) (cts : List CheckpointTypeDefinition)
    → all (is_valid_checkpoint def) cts ≡ true
    → all (λ c. all (contains (known_roles def)) c.permitted_roles) cts ≡ true
permitted_known def [] h = refl
permitted_known def (ct ∷ cts) h = ground (arith, permitted_known def cts)

types_listed :
    (ets : List EnvelopeTypeDefinition) (base : List String)
    → all (contains (add_envelope_types ets base)) (map (λ et. et.name) ets) ≡ true
types_listed ets base =
    contains-all (contains (add_envelope_types ets base)) (map (λ et. et.name) ets)
      (λ x h. ground (arith, contains-add_envelope_types x ets base))

rows_closed :
    (def : TaxonomyDefinition)
    → all (is_valid_type def) def.envelope_types ≡ true
    → all
        (is_closed_row
          (contains (known_roles def))
          (contains (add_envelope_types def.envelope_types base_envelope_types)))
        (base_permission_rows ++ all_rows def.envelope_types)
      ≡ true
rows_closed def valid =
    let types = base_envelope_types in
    let is_role = contains (known_roles def) in
    let is_type = contains (add_envelope_types def.envelope_types types) in
    ground (
      arith,
      all-all_rows is_role is_type def.envelope_types
          (permissions_known def def.envelope_types valid) (types_listed def.envelope_types types),
      contains-add_envelope_types "directive" def.envelope_types types,
      contains-add_envelope_types "feedback" def.envelope_types types,
      contains-add_envelope_types "query" def.envelope_types types,
    )

old_creators :
    (ct role : String)
    → contains (get_list ct base_checkpoint_table) role ≡ true
    → contains ("coordinator" ∷ "worker" ∷ "observer" ∷ []) role ≡ true
unfolding get
old_creators ct role h = ground arith

-- Everything that a taxonomy's tables name is defined by it, and its roles are sound.
pub record IsClosed (t : Taxonomy) : Type 0 where
  -- Both roles and the type of a row of the matrix are valid.
  pub rows :
      all
        (is_closed_row (λ r. is_valid_role r t) (λ e. is_valid_envelope_type e t))
        t.envelope_permissions
      ≡ true
  -- A role that may create a checkpoint type is valid.
  pub creators :
      (ct role : String)
      → contains (get_list ct t.checkpoint_types) role ≡ true
      → is_valid_role role t ≡ true
  -- A resolved role is sound, and may create the checkpoint types that it lists.
  pub roles :
      (name : String) (r : ResolvedRole) → resolve_role name t ≡ some r → is_sound (name, r) ≡ true
  pub creates :
      (name ct : String) (r : ResolvedRole)
      → resolve_role name t ≡ some r
      → contains r.checkpoint_types ct ≡ true
      → contains (get_list ct t.checkpoint_types) name ≡ true

module _ (def : TaxonomyDefinition) (resolved : HashMap String ResolvedRole)
    (done : resolve_roles def.roles [] ≡ some resolved) where
  is_valid_role-assemble :
      (x : String) → is_valid_role x (assemble def resolved) ≡ contains (known_roles def) x
  unfolding is_valid_role get
  is_valid_role-assemble x = ground (
    arith,
    resolve_roles-contains_key x def.roles [] resolved done,
    string_eq.beq_iff x "coordinator",
    string_eq.beq_iff "coordinator" x,
    string_eq.beq_iff x "worker",
    string_eq.beq_iff "worker" x,
    string_eq.beq_iff x "observer",
    string_eq.beq_iff "observer" x,
  )

  pub sound_roles :
      all (is_valid_definition def) def.roles ≡ true
      → is_distinct (known_roles def) ≡ true
      → all is_sound resolved ≡ true
  sound_roles valid distinct =
      let base : List String = "coordinator" ∷ "worker" ∷ "observer" ∷ [] in
      resolve_roles-is_sound def def.roles [] resolved valid
        (ground (arith, all-names def.roles, is_distinct-append base (role_names def))) refl done

  creators_known :
      (ct role : String)
      → all (is_valid_checkpoint def) def.checkpoint_types ≡ true
      → all is_sound resolved ≡ true
      → contains (get_list ct (assemble def resolved).checkpoint_types) role ≡ true
      → is_valid_role role (assemble def resolved) ≡ true
  unfolding get
  creators_known ct role valid sound h =
      let table = add_checkpoint_types def.checkpoint_types base_checkpoint_table in
      let roles : contains_key role resolved ≡ (contains (role_names def) role || false) =
        resolve_roles-contains_key role def.roles [] resolved done in
      let permitted = contains-permit_all role ct (values resolved) table in
      elim (Bool-cases (any (has_type role ct) (values resolved))) [
        | inl own ↦
            let key = any-has_type role ct resolved sound own in
            ground (arith, is_valid_role-assemble role, roles, key)
        | inr other ↦
            let known =
              contains-add_checkpoint_types (contains (known_roles def)) role ct
                def.checkpoint_types base_checkpoint_table
                (permitted_known def def.checkpoint_types valid)
                (λ k. ground (arith, old_creators ct role k)) (ground (arith, permitted, other)) in
            is_valid_role-assemble role ∙ known
      ]

  assemble-IsClosed :
      (version : String) → is_valid def version ≡ true → IsClosed (assemble def resolved)
  unfolding resolve_role is_valid_envelope_type
  assemble-IsClosed version valid =
      let t = assemble def resolved in
      let sound = sound_roles (ground arith) (ground arith) in
      record {
        rows =
            ap
              (λ (p : String → Bool).
                all (is_closed_row p (λ e. is_valid_envelope_type e t)) t.envelope_permissions)
              (fun_ext is_valid_role-assemble)
            ∙ rows_closed def (ground arith);
        creators = λ ct role h. creators_known ct role (ground arith) sound h;
        roles = λ name r h. all-get is_sound name r resolved sound h;
        creates = λ name ct r h k. ground (
          arith,
          contains-permit_all name ct (values resolved)
              (add_checkpoint_types def.checkpoint_types base_checkpoint_table),
          any-get (has_type name ct) name r resolved h,
          all-get is_sound name r resolved sound h,
        );
      }

-- Loading gives a closed taxonomy: every row of the permission matrix names valid roles and a valid
-- envelope type, only valid roles may create checkpoints, and each resolved role stands under its own
-- name, which is no base name, extends `worker` or `observer`, has no capability that contains a
-- reserved one, and may create the checkpoint types that it lists.
pub load-IsClosed :
    (def : TaxonomyDefinition) (version : String) (t : Taxonomy)
    → load def version ≡ ok (some t)
    → IsClosed t
load-IsClosed def version t h =
    let (resolved, done, made, valid) = loaded def version t h in
    rw made (assemble-IsClosed def resolved done version valid)
