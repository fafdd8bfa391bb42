-- ===== src/Fsm/Workspace/Histories.antt =====
-- Histories of the workspace machine (workspace.rs).
use wacp_platform.Prelude.{Bool, true, false, err, List, [], ◌∷◌, ◌≡◌, refl, arith, any}
use wacp_platform.Types.Enums.{WorkspaceState, is_terminal}
use wacp_platform.Types.Enums.WorkspaceState.{
  idle, active, blocked, suspended, migrating, integrating, conflicted, closed, failed,
}
use wacp_platform.Fsm.Machine.{terminal_state, after, run, accepted, any-accepted}
use wacp_platform.Fsm.Workspace.{
  WorkspaceTrigger, agent_complete, receive_first_envelope, coordinator_abort, coordinator_resume,
  migration_succeeded, agent_started, integration_succeeded, integration_failed, conflict_resolved,
  conflict_unresolvable, debug_state, workspace_transition,
}

terminal-err :
    (s : WorkspaceState) (t : WorkspaceTrigger)
    → is_terminal s ≡ true
    → workspace_transition s t ≡ err (terminal_state (debug_state s))
unfolding workspace_transition
terminal-err s t h = ground arith

-- From a terminal state no history of triggers moves the workspace, and none of them is accepted.
pub run_terminal :
    (s : WorkspaceState) (ts : List WorkspaceTrigger)
    → is_terminal s ≡ true
    → (run workspace_transition s ts ≡ s) × (accepted workspace_transition s ts ≡ [])
unfolding run accepted
run_terminal s [] h = (refl, refl)
run_terminal s (t ∷ ts) h = ground (arith, terminal-err s t h, run_terminal s ts h)

-- A sequence of triggers that takes a workspace to `Closed`.
abbrev finish_from : WorkspaceState → List WorkspaceTrigger
finish_from idle = receive_first_envelope ∷ agent_complete ∷ integration_succeeded ∷ []
finish_from active = agent_complete ∷ integration_succeeded ∷ []
finish_from blocked = agent_started ∷ agent_complete ∷ integration_succeeded ∷ []
finish_from suspended = coordinator_resume ∷ agent_complete ∷ integration_succeeded ∷ []
finish_from migrating = migration_succeeded ∷ agent_complete ∷ integration_succeeded ∷ []
finish_from integrating = integration_succeeded ∷ []
finish_from conflicted = conflict_resolved ∷ []
finish_from _ = []

-- A trigger that fails the workspace at once.
abbrev fail_from : WorkspaceState → WorkspaceTrigger
fail_from integrating = integration_failed
fail_from conflicted = conflict_unresolvable
fail_from _ = coordinator_abort

finish_from-closed :
    (s : WorkspaceState)
    → is_terminal s ≡ false
    → run workspace_transition s (finish_from s) ≡ closed
unfolding run workspace_transition
finish_from-closed closed h = cc
finish_from-closed failed h = cc
finish_from-closed idle h = refl
finish_from-closed _ h = refl

fail_from-failed :
    (s : WorkspaceState)
    → is_terminal s ≡ false
    → run workspace_transition s (fail_from s ∷ []) ≡ failed
unfolding run workspace_transition
fail_from-failed closed h = cc
fail_from-failed idle h = refl
fail_from-failed _ h = refl

-- No live state is a dead end: from every state that is not terminal some triggers reach `Closed`,
-- and one trigger reaches `Failed`.
pub live_reaches :
    (s : WorkspaceState)
    → is_terminal s ≡ false
    → ((ts : List WorkspaceTrigger) × (run workspace_transition s ts ≡ closed))
      × ((t : WorkspaceTrigger) × (run workspace_transition s (t ∷ []) ≡ failed))
live_reaches s h = ((finish_from s, finish_from-closed s h), (fail_from s, fail_from-failed s h))

abbrev pub is_complete : WorkspaceTrigger → Bool
is_complete agent_complete = true
is_complete _ = false

-- The states before integration.
abbrev before_integration : WorkspaceState → Bool
before_integration integrating = false
before_integration conflicted = false
before_integration closed = false
before_integration _ = true

step-before :
    (s : WorkspaceState) (t : WorkspaceTrigger)
    → before_integration s ≡ true
    → is_complete t ≡ false
    → before_integration (after s (workspace_transition s t)) ≡ true
unfolding workspace_transition
step-before s t h k = ground arith

-- A workspace that starts out idle is `Closed` at the end of a history only if the history holds an
-- `AgentComplete` that was accepted.
pub closed_needs_complete :
    (ts : List WorkspaceTrigger)
    → run workspace_transition idle ts ≡ closed
    → any is_complete (accepted workspace_transition idle ts) ≡ true
closed_needs_complete ts h =
    any-accepted workspace_transition before_integration is_complete step-before idle ts refl (cc h)
