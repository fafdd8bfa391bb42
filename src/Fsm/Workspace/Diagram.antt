-- ===== src/Fsm/Workspace/Diagram.antt =====
-- The workspace lifecycle (workspace.rs) as a diagram, drawn by trigger where the code's table goes by
-- state.
use wacp_platform.Prelude.{ok, ◌≡◌, ◌↔◌, refl, arith}
use wacp_platform.Types.Enums.{WorkspaceState}
use wacp_platform.Types.Enums.WorkspaceState.{
  idle, active, blocked, suspended, migrating, integrating, conflicted, closed, failed,
}
use wacp_platform.Fsm.Workspace.{
  WorkspaceTrigger, agent_started, agent_blocked, agent_complete, agent_failed,
  receive_first_envelope, coordinator_abort, coordinator_suspend, coordinator_resume,
  coordinator_migrate, migration_succeeded, migration_succeeded_blocked, migration_failed,
  integration_succeeded, integration_failed, conflict_detected, conflict_resolved,
  conflict_unresolvable, timeout_exceeded, budget_exceeded, creation_error, workspace_transition,
}

-- An agent holds the workspace and works on it, or waits.
pub data IsWorking : WorkspaceState → Type 0 where
  on_active : IsWorking active
  on_blocked : IsWorking blocked

-- No agent result is under integration yet.
pub data IsEarly : WorkspaceState → Type 0 where
  unstarted : IsEarly idle
  working : {s : WorkspaceState} → IsWorking s → IsEarly s

pub data IsAbortable : WorkspaceState → Type 0 where
  early : {s : WorkspaceState} → IsEarly s → IsAbortable s
  moving : IsAbortable migrating
  paused : IsAbortable suspended

-- The lifecycle of PROTOCOL.md §6.3, an edge for each trigger.
pub data Edge : WorkspaceState → WorkspaceTrigger → WorkspaceState → Type 0 where
  deliver : Edge idle receive_first_envelope active
  refuse : Edge idle creation_error failed
  block : Edge active agent_blocked blocked
  unblock : Edge blocked agent_started active
  finish : Edge active agent_complete integrating
  crash : Edge active agent_failed failed
  abort : {s : WorkspaceState} → IsAbortable s → Edge s coordinator_abort failed
  expire : {s : WorkspaceState} → IsEarly s → Edge s timeout_exceeded failed
  exhaust : {s : WorkspaceState} → IsEarly s → Edge s budget_exceeded failed
  migrate : {s : WorkspaceState} → IsWorking s → Edge s coordinator_migrate migrating
  suspend : {s : WorkspaceState} → IsWorking s → Edge s coordinator_suspend suspended
  resume : Edge suspended coordinator_resume active
  rebind : Edge migrating migration_succeeded active
  rebind_blocked : Edge migrating migration_succeeded_blocked blocked
  lose : Edge migrating migration_failed failed
  merge : Edge integrating integration_succeeded closed
  conflict : Edge integrating conflict_detected conflicted
  break : Edge integrating integration_failed failed
  settle : Edge conflicted conflict_resolved closed
  despair : Edge conflicted conflict_unresolvable failed

ruleset stages = (on_active, on_blocked, unstarted, working, early, moving, paused)

ruleset edges = (
  stages, deliver, refuse, block, unblock, finish, crash, abort, expire, exhaust, migrate, suspend,
  resume, rebind, rebind_blocked, lose, merge, conflict, break, settle, despair,
)

accepted-Edge :
    (s : WorkspaceState) (t : WorkspaceTrigger) (s' : WorkspaceState)
    → workspace_transition s t ≡ ok s'
    → Edge s t s'
unfolding workspace_transition
accepted-Edge s t s' h = grind (arith, edges)

IsAbortable-accepted :
    {s : WorkspaceState} → IsAbortable s → workspace_transition s coordinator_abort ≡ ok failed
unfolding workspace_transition
IsAbortable-accepted (early unstarted) = refl
IsAbortable-accepted (early (working on_active)) = refl
IsAbortable-accepted (early (working on_blocked)) = refl
IsAbortable-accepted moving = refl
IsAbortable-accepted paused = refl

IsEarly-accepted :
    {s : WorkspaceState}
    → IsEarly s
    → (workspace_transition s timeout_exceeded ≡ ok failed)
      × (workspace_transition s budget_exceeded ≡ ok failed)
unfolding workspace_transition
IsEarly-accepted unstarted = (refl, refl)
IsEarly-accepted (working on_active) = (refl, refl)
IsEarly-accepted (working on_blocked) = (refl, refl)

IsWorking-accepted :
    {s : WorkspaceState}
    → IsWorking s
    → (workspace_transition s coordinator_migrate ≡ ok migrating)
      × (workspace_transition s coordinator_suspend ≡ ok suspended)
unfolding workspace_transition
IsWorking-accepted on_active = (refl, refl)
IsWorking-accepted on_blocked = (refl, refl)

Edge-accepted :
    {s : WorkspaceState} {t : WorkspaceTrigger} {s' : WorkspaceState}
    → Edge s t s'
    → workspace_transition s t ≡ ok s'
unfolding workspace_transition
Edge-accepted deliver = refl
Edge-accepted refuse = refl
Edge-accepted block = refl
Edge-accepted unblock = refl
Edge-accepted finish = refl
Edge-accepted crash = refl
Edge-accepted (abort a) = IsAbortable-accepted a
Edge-accepted (expire e) = (IsEarly-accepted e).0
Edge-accepted (exhaust e) = (IsEarly-accepted e).1
Edge-accepted (migrate w) = (IsWorking-accepted w).0
Edge-accepted (suspend w) = (IsWorking-accepted w).1
Edge-accepted resume = refl
Edge-accepted rebind = refl
Edge-accepted rebind_blocked = refl
Edge-accepted lose = refl
Edge-accepted merge = refl
Edge-accepted conflict = refl
Edge-accepted break = refl
Edge-accepted settle = refl
Edge-accepted despair = refl

-- The machine accepts a trigger exactly when the diagram has an edge for it, and ends where the edge
-- ends.
pub transition-Edge :
    (s : WorkspaceState) (t : WorkspaceTrigger) (s' : WorkspaceState)
    → (workspace_transition s t ≡ ok s') ↔ Edge s t s'
transition-Edge s t s' = (accepted-Edge s t s', Edge-accepted)
