-- ===== src/Permissions/Roles.antt =====
-- The decisions of the permission engine, stated by the roles' own names and those of their base roles.
use wacp_platform.Prelude.{
  Bool, true, false, ◌&&◌, ◌||◌, not, String, Option, none, some, HashMap, HashSet, get, get_list,
  contains, string_eq, List, [], ◌∷◌, ◌==◌, any, ◌≡◌, refl, arith, get-insert, contains_key,
  Bool-cases, is_ok, inl, inr, ap,
}
use wacp_platform.Types.Enums.{SignalType, signal_eq, BaseRole, EnvelopeOrigin, PortRightType}
use wacp_platform.Types.Records.{WorkspaceId}
use mathlib.Core.Path.{fun_ext}
use wacp_platform.Taxonomy.{ResolvedRole, Taxonomy}
use wacp_platform.Permissions.{
  PermissionEngine, Action, send_envelope, create_checkpoint, emit_signal, coordinator_emit_set,
  worker_emit_set, observer_emit_set, base_name, add_role, add_roles, with_base_roles, new, has_row,
  matrix_allows, has_send_right, is_send, check_envelope_send, check_checkpoint_create,
  check_signal_emit, evaluate,
}

-- The names under which the engine looks a role up: its own, and that of its base role.
abbrev pub named_by : Option String → List String
named_by none = []
named_by (some base) = base ∷ []

abbrev pub names_of : String → PermissionEngine → List String
names_of role e = role ∷ named_by (get role e.role_bases)

-- Some row of the matrix pairs a name of the sender with a name of the receiver.
abbrev pub some_row : String → String → String → PermissionEngine → Bool
some_row sender t receiver e =
    any (λ s. any (λ r. has_row s t r e.permission_matrix) (names_of receiver e))
      (names_of sender e)

abbrev pub is_agent : EnvelopeOrigin → Bool
is_agent EnvelopeOrigin.agent = true
is_agent EnvelopeOrigin.human = false

-- A right to send to the receiver, any number of times or once.
abbrev pub sends_to : WorkspaceId → WorkspaceId → PortRightType → Bool
sends_to target to PortRightType.send = to == target
sends_to target to PortRightType.send_once = to == target
sends_to target to PortRightType.receive = false

abbrev pub holds_send : WorkspaceId → WorkspaceId → PermissionEngine → Bool
holds_send holder target e =
    any (λ right. sends_to target right.target right.right_type) (get_list holder e.port_rights)

-- An action that the tables allow, read off without the order in which the engine tries them.
abbrev pub is_allowed : Action → PermissionEngine → Bool
is_allowed (send_envelope s t r from to origin) e =
    not (is_agent origin) || (some_row s t r e && holds_send from to e)
is_allowed (create_checkpoint role kind) e =
    any (λ name. contains (get_list kind e.checkpoint_table) name) (names_of role e)
is_allowed (emit_signal role signal) e = contains (get_list role e.signal_emit_sets) signal

matrix_allows-some_row :
    (s t r : String) (e : PermissionEngine) → matrix_allows s t r e ≡ some_row s t r e
unfolding matrix_allows
matrix_allows-some_row s t r e = ground arith

sends_to_lem :
    (target to : WorkspaceId) (kind : PortRightType)
    → (to == target && is_send kind) ≡ sends_to target to kind
sends_to_lem target to PortRightType.send = ground arith
sends_to_lem target to PortRightType.send_once = ground arith
sends_to_lem target to PortRightType.receive = ground arith

has_send_right-holds_send :
    (holder target : WorkspaceId) (e : PermissionEngine)
    → has_send_right holder target e ≡ holds_send holder target e
unfolding has_send_right
has_send_right-holds_send holder target e =
    ap (λ p. any p (get_list holder e.port_rights))
      (fun_ext (λ right. sends_to_lem target right.target right.right_type))

-- The engine permits an action if and only if it is allowed: an envelope if a human sent it, or if the
-- matrix has a row for the two roles or their base roles in any combination and the workspace holds
-- a right to send to the receiver; a checkpoint if its type permits the role or its base role; a
-- signal if the role's set contains it. Everything else is denied.
pub evaluate_iff : (a : Action) (e : PermissionEngine) → is_ok (evaluate a e) ≡ is_allowed a e
unfolding evaluate check_envelope_send check_checkpoint_create check_signal_emit
evaluate_iff (send_envelope s t r from to EnvelopeOrigin.human) e = refl
evaluate_iff (send_envelope s t r from to EnvelopeOrigin.agent) e =
    ground (arith, matrix_allows-some_row s t r e, has_send_right-holds_send from to e)
evaluate_iff (create_checkpoint role kind) e = ground arith
evaluate_iff (emit_signal role signal) e = ground arith

abbrev pub emit_set : BaseRole → HashSet SignalType
emit_set BaseRole.coordinator = coordinator_emit_set
emit_set BaseRole.worker = worker_emit_set
emit_set BaseRole.observer = observer_emit_set

-- No resolved role takes the name of a base role.
abbrev pub is_base : String → Bool
is_base name = name == "coordinator" || name == "worker" || name == "observer"

abbrev pub no_base : HashMap String ResolvedRole → Bool
no_base [] = true
no_base ((name, _) ∷ roles) = not (is_base name) && no_base roles

record HasBaseSets (e : PermissionEngine) : Type 0 where
  pub coordinators : get "coordinator" e.signal_emit_sets ≡ some coordinator_emit_set
  pub workers : get "worker" e.signal_emit_sets ≡ some worker_emit_set
  pub observers : get "observer" e.signal_emit_sets ≡ some observer_emit_set

abbrev pub has_distinct_names : HashMap String ResolvedRole → Bool
has_distinct_names [] = true
has_distinct_names ((name, _) ∷ roles) = not (contains_key name roles) && has_distinct_names roles

add_role-HasBaseSets :
    (name : String) (b : BaseRole) (e : PermissionEngine)
    → is_base name ≡ false
    → HasBaseSets e
    → HasBaseSets (add_role name b e)
unfolding add_role
add_role-HasBaseSets name b e new_name sets =
    let set = get_list (base_name b) e.signal_emit_sets in
    record {
      coordinators =
          ground (arith, get-insert name "coordinator" set e.signal_emit_sets, sets.coordinators);
      workers = ground (arith, get-insert name "worker" set e.signal_emit_sets, sets.workers);
      observers = ground (arith, get-insert name "observer" set e.signal_emit_sets, sets.observers);
    }

base_set :
    (b : BaseRole) (e : PermissionEngine)
    → HasBaseSets e
    → get_list (base_name b) e.signal_emit_sets ≡ emit_set b
base_set BaseRole.coordinator e sets = ground (arith, sets.coordinators)
base_set BaseRole.worker e sets = ground (arith, sets.workers)
base_set BaseRole.observer e sets = ground (arith, sets.observers)

add_roles-absent :
    (name : String) (roles : HashMap String ResolvedRole) (e : PermissionEngine)
    → get name roles ≡ none
    → get name (add_roles roles e).signal_emit_sets ≡ get name e.signal_emit_sets
unfolding add_roles add_role get
add_roles-absent name [] e h = refl
add_roles-absent name ((other, r) ∷ roles) e h =
    let set = get_list (base_name r.base) e.signal_emit_sets in
    ground (
      arith,
      get-insert other name set e.signal_emit_sets,
      add_roles-absent name roles (add_role other r.base e),
    )

add_role-own :
    (name : String) (b : BaseRole) (e : PermissionEngine)
    → HasBaseSets e
    → get name (add_role name b e).signal_emit_sets ≡ some (emit_set b)
unfolding add_role
add_role-own name b e sets =
    let set = get_list (base_name b) e.signal_emit_sets in
    ground (
      arith,
      get-insert name name set e.signal_emit_sets,
      string_eq.beq_iff name name,
      base_set b e sets,
    )

add_roles-present :
    (name : String) (r : ResolvedRole) (roles : HashMap String ResolvedRole) (e : PermissionEngine)
    → HasBaseSets e
    → no_base roles ≡ true
    → has_distinct_names roles ≡ true
    → get name roles ≡ some r
    → get name (add_roles roles e).signal_emit_sets ≡ some (emit_set r.base)
unfolding add_roles get
add_roles-present name r [] e sets fresh distinct h = ground arith
add_roles-present name r ((other, s) ∷ roles) e sets fresh distinct h =
    let set = get_list (base_name s.base) e.signal_emit_sets in
    let new_name : is_base other ≡ false = ground arith in
    let sets' = add_role-HasBaseSets other s.base e new_name sets in
    elim (Bool-cases (other == name)) [
      | inl same ↦
          let same_name : other ≡ name = (string_eq.beq_iff other name).0 same in
          let here : some s ≡ some r = ground arith in
          let absent : get name roles ≡ none = ground (arith, same_name) in
          ground (
            arith,
            here,
            same_name,
            add_roles-absent name roles (add_role other s.base e) absent,
            add_role-own other s.base e sets,
          )
      | inr differs ↦
          add_roles-present name r roles (add_role other s.base e) sets' (ground arith)
            (ground arith) (ground arith)
    ]

-- Every role that the taxonomy resolves may emit exactly the signals of its base role, if role names
-- occur once and none is the name of a base role.
pub new-emit_set :
    (taxonomy : Taxonomy) (name : String) (r : ResolvedRole)
    → no_base taxonomy.resolved_roles ≡ true
    → has_distinct_names taxonomy.resolved_roles ≡ true
    → get name taxonomy.resolved_roles ≡ some r
    → get name (new taxonomy).signal_emit_sets ≡ some (emit_set r.base)
unfolding new with_base_roles get
new-emit_set taxonomy name r fresh distinct h =
    add_roles-present name r taxonomy.resolved_roles (with_base_roles taxonomy)
      (record { coordinators = refl; workers = refl; observers = refl }) fresh distinct h
