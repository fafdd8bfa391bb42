-- ===== src/Examples/Machines.antt =====
-- The state machines at concrete histories.
use wacp_platform.Prelude.{false, ok, List, [], ◌∷◌, ◌≡◌, ◌↔◌, refl}
use wacp_platform.Types.Enums.{WorkspaceState, is_terminal}
use wacp_platform.Fsm.Machine.{run}
use wacp_platform.Fsm.Workspace.{WorkspaceTrigger, workspace_transition}
use wacp_platform.Fsm.Workspace.Diagram.{Edge, transition-Edge}
use wacp_platform.Fsm.Workspace.Histories.{live_reaches}

transition-Edge_example :
    (workspace_transition WorkspaceState.blocked WorkspaceTrigger.coordinator_migrate
      ≡ ok WorkspaceState.migrating)
    ↔ Edge WorkspaceState.blocked WorkspaceTrigger.coordinator_migrate WorkspaceState.migrating
transition-Edge_example =
    transition-Edge WorkspaceState.blocked WorkspaceTrigger.coordinator_migrate
      WorkspaceState.migrating

conflicted_is_live : is_terminal WorkspaceState.conflicted ≡ false
unfolding is_terminal
conflicted_is_live = refl

live_reaches_example :
    ((ts : List WorkspaceTrigger) × (run workspace_transition WorkspaceState.conflicted ts
        ≡ WorkspaceState.closed))
    × ((t : WorkspaceTrigger) × (run workspace_transition WorkspaceState.conflicted (t ∷ [])
          ≡ WorkspaceState.failed))
live_reaches_example = live_reaches WorkspaceState.conflicted conflicted_is_live
