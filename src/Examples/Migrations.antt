-- ===== src/Examples/Migrations.antt =====
-- A migration that is started twice, captured, and late.
use wacp_platform.Prelude.{
  ℕ, true, none, List, [], ◌∷◌, ◌≡◌, refl, is_some, contains, string_eq, get,
}
use wacp_platform.Types.Enums.{WorkspaceState}
use wacp_platform.Fsm.Workspace.{workspace_transition}
use wacp_platform.Coordinator.Migration.{MigrationRequest, is_migrating, check_timeouts, new}
use wacp_platform.Coordinator.Migration.Histories.{
  Call, starts, captures, completes, run, follow_all, is_late, run-follows,
}

abbrev request : MigrationRequest
request = record {
  workspace_id = "ws-1";
  new_agent = record { agent_type = "writer"; config = none };
  reason = "upgrade";
}

abbrev calls : List (Call ℕ)
calls =
    starts request WorkspaceState.blocked "reader" 100
    ∷ captures "ws-1" 7
    ∷ completes "ws-2"
    ∷ starts request WorkspaceState.active "reader" 160
    ∷ []

run-follows_example :
    (get "ws-1" (run calls (new 60)).active ≡ follow_all "ws-1" calls none)
    × (is_migrating "ws-1" (run calls (new 60)) ≡ is_some (follow_all "ws-1" calls none))
    × (contains (check_timeouts 160 (run calls (new 60))) "ws-1"
        ≡ is_late 60 160 (follow_all "ws-1" calls none))
run-follows_example = run-follows calls 60 160 "ws-1"

still_first : is_late 60 160 (follow_all "ws-1" calls none) ≡ true
unfolding workspace_transition
still_first = refl
