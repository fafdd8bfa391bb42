-- ===== src/Coordinator/Migration/Histories.antt =====
-- The migrations after any history of calls (migration.rs), followed for one workspace at a time.
use wacp_platform.Prelude.{
  ℕ, ◌+◌, max, leb, is_ok, Bool, true, false, ◌&&◌, not, String, Option, none, some, get, contains,
  is_some, string_eq, List, [], ◌∷◌, ◌==◌, if◌then◌else◌, ◌≡◌, refl, arith, get-insert, get-remove,
  get-modify, all, all-insert, all-remove, all-modify, has_distinct_keys, insert-has_distinct_keys,
  remove-has_distinct_keys, modify-has_distinct_keys, contains-names, ◌∙◌, ap,
}
use wacp_platform.Types.Enums.{WorkspaceState, is_terminal}
use wacp_platform.Types.Records.{WorkspaceId}
use wacp_platform.Fsm.Workspace.{workspace_transition, workspace_table, coordinator_migrate}
use wacp_platform.Coordinator.Migration.{
  MigrationRequest, MigrationContext, MigrationCoordinator, is_movable, new, context_of, start,
  with_snapshot, set_snapshot, complete, fail, has_timed_out, check_timeouts, is_migrating,
}

pub data Call (S : Type 0) : Type 0 where
  starts : MigrationRequest → WorkspaceState → String → ℕ → Call S
  captures : WorkspaceId → S → Call S
  completes : WorkspaceId → Call S
  fails : WorkspaceId → String → ℕ → Call S

is_movable_lem :
    (state : WorkspaceState)
    → is_movable state ≡ is_ok (workspace_transition state coordinator_migrate)
unfolding workspace_transition workspace_table is_terminal
is_movable_lem WorkspaceState.idle = refl
is_movable_lem WorkspaceState.active = refl
is_movable_lem WorkspaceState.blocked = refl
is_movable_lem WorkspaceState.suspended = refl
is_movable_lem WorkspaceState.migrating = refl
is_movable_lem WorkspaceState.integrating = refl
is_movable_lem WorkspaceState.conflicted = refl
is_movable_lem WorkspaceState.closed = refl
is_movable_lem WorkspaceState.failed = refl

module _ {S : Type 0} where
  unfoldable pub step : Call S → MigrationCoordinator S → MigrationCoordinator S
  unfolding start set_snapshot complete fail
  step (starts request state old_agent now_ms) m = (start request state old_agent now_ms m).0
  step (captures id snapshot) m = (set_snapshot id snapshot m).0
  step (completes id) m = (complete id m).0
  step (fails id error n) m = (fail id error n m).0

  unfoldable pub run : List (Call S) → MigrationCoordinator S → MigrationCoordinator S
  unfolding step
  run [] m = m
  run (c ∷ cs) m = run cs (step c m)

  abbrev or_else : Option S → S → Option S
  or_else none snapshot = some snapshot
  or_else (some first) snapshot = some first

  -- The snapshot of a migration: the first one that is given.
  abbrev pub capture_once : S → Option (MigrationContext S) → Option (MigrationContext S)
  capture_once snapshot none = none
  capture_once snapshot (some ctx) = some (record ctx { snapshot = or_else ctx.snapshot snapshot })

  -- The migration of one workspace: calls for another workspace leave it as it is. It starts from a
  -- state in which the workspace's own machine may be migrated.
  abbrev pub follow :
      WorkspaceId → Call S → Option (MigrationContext S) → Option (MigrationContext S)
  follow id (starts request state old_agent now_ms) current =
      if request.workspace_id == id
        && (is_ok (workspace_transition state coordinator_migrate) && not (is_some current))
      then some (record {
        workspace_id = id;
        pre_migration_state = state;
        old_agent = old_agent;
        new_agent = request.new_agent;
        reason = request.reason;
        snapshot = none;
        started_at_ms = now_ms;
      })
      else current
  follow id (captures other snapshot) current =
      if other == id then capture_once snapshot current else current
  follow id (completes other) current = if other == id then none else current
  follow id (fails other error n) current = if other == id then none else current

  abbrev pub follow_all :
      WorkspaceId → List (Call S) → Option (MigrationContext S) → Option (MigrationContext S)
  follow_all id [] current = current
  follow_all id (c ∷ cs) current = follow_all id cs (follow id c current)

  step-follow :
      (c : Call S) (m : MigrationCoordinator S) (id : WorkspaceId)
      → get id (step c m).active ≡ follow id c (get id m.active)
  unfolding step start set_snapshot complete fail
  step-follow (starts request state old_agent now_ms) m id =
      let movable = is_movable_lem state in
      let ctx : MigrationContext S = context_of request state old_agent now_ms in
      ground (
        arith,
        get-insert request.workspace_id id ctx m.active,
        string_eq.beq_iff request.workspace_id id,
        movable,
      )
  step-follow (captures other snapshot) m id =
      ground
        (arith, get-modify other id (with_snapshot snapshot) m.active, string_eq.beq_iff other id)
  step-follow (completes other) m id =
      ground (arith, get-remove other id m.active, string_eq.beq_iff other id)
  step-follow (fails other error n) m id =
      ground (arith, get-remove other id m.active, string_eq.beq_iff other id)

  run-follow :
      (cs : List (Call S)) (m : MigrationCoordinator S) (id : WorkspaceId)
      → get id (run cs m).active ≡ follow_all id cs (get id m.active)
  unfolding run
  run-follow [] m id = refl
  run-follow (c ∷ cs) m id =
      run-follow cs (step c m) id ∙ ap (follow_all id cs) (step-follow c m id)

  abbrev is_named : WorkspaceId × MigrationContext S → Bool
  is_named (id, ctx) = ctx.workspace_id == id

  -- Each migration stands once, under the name of its workspace.
  record IsNamed (m : MigrationCoordinator S) : Type 0 where
    pub distinct : has_distinct_keys m.active ≡ true
    pub named : all is_named m.active ≡ true

  step-IsNamed : (c : Call S) (m : MigrationCoordinator S) → IsNamed m → IsNamed (step c m)
  unfolding step start set_snapshot complete fail
  step-IsNamed (starts request state old_agent now_ms) m inv =
      let ctx : MigrationContext S = context_of request state old_agent now_ms in
      let id = request.workspace_id in
      record {
        distinct = ground (arith, insert-has_distinct_keys id ctx m.active, inv.distinct);
        named =
            ground (arith, all-insert is_named id ctx m.active, string_eq.beq_iff id id, inv.named);
      }
  step-IsNamed (captures id snapshot) m inv = record {
    distinct =
        ground (arith, modify-has_distinct_keys id (with_snapshot snapshot) m.active, inv.distinct);
    named =
        ground
          (arith, all-modify is_named id (with_snapshot snapshot) m.active (λ j v h. h), inv.named);
  }
  step-IsNamed (completes id) m inv = record {
    distinct = ground (arith, remove-has_distinct_keys id m.active, inv.distinct);
    named = ground (arith, all-remove is_named id m.active, inv.named);
  }
  step-IsNamed (fails id error n) m inv = record {
    distinct = ground (arith, remove-has_distinct_keys id m.active, inv.distinct);
    named = ground (arith, all-remove is_named id m.active, inv.named);
  }

  run-IsNamed : (cs : List (Call S)) (m : MigrationCoordinator S) → IsNamed m → IsNamed (run cs m)
  unfolding run
  run-IsNamed [] m inv = inv
  run-IsNamed (c ∷ cs) m inv = run-IsNamed cs (step c m) (step-IsNamed c m inv)

  step-timeout_ms : (c : Call S) (m : MigrationCoordinator S) → (step c m).timeout_ms ≡ m.timeout_ms
  unfolding step start set_snapshot complete fail
  step-timeout_ms (starts request state old_agent now_ms) m = ground arith
  step-timeout_ms (captures id snapshot) m = ground arith
  step-timeout_ms (completes id) m = ground arith
  step-timeout_ms (fails id error n) m = ground arith

  run-timeout_ms :
      (cs : List (Call S)) (m : MigrationCoordinator S) → (run cs m).timeout_ms ≡ m.timeout_ms
  unfolding run
  run-timeout_ms [] m = refl
  run-timeout_ms (c ∷ cs) m = run-timeout_ms cs (step c m) ∙ step-timeout_ms c m

  -- Whether a migration has run out of time: a start that lies ahead counts as now.
  abbrev pub is_late : ℕ → ℕ → Option (MigrationContext S) → Bool
  is_late timeout_ms now_ms none = false
  is_late timeout_ms now_ms (some ctx) =
      leb (ctx.started_at_ms + timeout_ms) (max now_ms ctx.started_at_ms)

  -- After any calls on a new coordinator, failing ones included, a workspace's migration is the one that
  -- its own calls lead to: it starts if the workspace is not migrating and is in a state in which its
  -- machine accepts a migration, with what the request says and the time of the call, keeps the first
  -- snapshot that is set, and ends when it is completed or failed. The workspace is reported as timed
  -- out if and only if that migration began at least the timeout ago, a start that lies ahead counted
  -- as now.
  pub run-follows :
      (cs : List (Call S)) (timeout_ms now_ms : ℕ) (id : WorkspaceId)
      → (get id (run cs (new timeout_ms)).active ≡ follow_all id cs none)
        × (is_migrating id (run cs (new timeout_ms)) ≡ is_some (follow_all id cs none))
        × (contains (check_timeouts now_ms (run cs (new timeout_ms))) id
            ≡ is_late timeout_ms now_ms (follow_all id cs none))
  unfolding is_migrating check_timeouts get
  run-follows cs timeout_ms now_ms id =
      let m = run cs (new timeout_ms) in
      let inv = run-IsNamed cs (new timeout_ms) (record { distinct = refl; named = refl }) in
      let found = run-follow cs (new timeout_ms) id in
      let late =
        contains-names (λ ctx. ctx.workspace_id) (has_timed_out m.timeout_ms now_ms) id m.active
          inv.distinct inv.named in
      (found, ap is_some found, ground (arith, late, found, run-timeout_ms cs (new timeout_ms)))
