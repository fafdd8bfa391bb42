-- ===== src/Workspace/Snapshot.antt =====
-- Migration snapshots (state.rs) of a workspace after any calls.
use wacp_platform.Prelude.{
  ℕ, String, true, false, List, [], ◌∷◌, ◌≡◌, arith, contains, string_eq, contains-add, beq_refl,
}
use wacp_platform.Types.Enums.{WorkspaceState as Status}
use wacp_platform.Types.Records.{Envelope, Checkpoint}
use wacp_platform.Workspace.State.{
  WorkspaceConfig, ResourceMeter, WorkspaceState, new, grant_visibility, push_inbox, pop_inbox,
  push_checkpoint, capture_snapshot, restore_from_snapshot,
}

-- The calls and the writes to public fields that change a workspace between its creation and a snapshot: the
-- runtime sets the status, the meter and the sequence number of the trail, the agent the working memory.
pub data Op (F : Type 0) : Type 0 where
  grants : List String → Op F
  receives : Envelope → Op F
  consumes : Op F
  checkpoints : Checkpoint → Op F
  moves : Status → Op F
  writes : List ℕ → Op F
  meters : ResourceMeter F → Op F
  numbers : ℕ → Op F

module _ {F : Type 0} where
  unfoldable pub step : Op F → WorkspaceState F → WorkspaceState F
  step (grants rs) w = grant_visibility rs w
  step (receives e) w = push_inbox e w
  step consumes w = (pop_inbox w).0
  step (checkpoints cp) w = push_checkpoint cp w
  step (moves status) w = record w { status = status }
  step (writes memory) w = record w { working_memory = memory }
  step (meters meter) w = record w { resource_meter = meter }
  step (numbers sequence) w = record w { trail_sequence = sequence }

  unfoldable pub run : List (Op F) → WorkspaceState F → WorkspaceState F
  run [] w = w
  run (o ∷ os) w = run os (step o w)

  -- The components that a configuration fixes at creation, the visibility set aside.
  pub record IsOf (config : WorkspaceConfig F) (w : WorkspaceState F) : Type 0 where
    pub id : w.id ≡ config.id
    pub role : w.role ≡ config.role
    pub base_role : w.base_role ≡ config.base_role
    pub parent : w.parent ≡ config.parent
    pub owner : w.owner ≡ config.owner
    pub originator : w.originator ≡ config.originator
    pub delegate : w.delegate ≡ config.delegate
    pub directive : w.directive ≡ config.directive
    pub context : w.context ≡ config.context
    pub authority : w.authority_set ≡ config.authority

  new-IsOf : (config : WorkspaceConfig F) → IsOf config (new config)
  unfolding new
  new-IsOf config = ground arith

  step-IsOf :
      (config : WorkspaceConfig F) (o : Op F) (w : WorkspaceState F)
      → IsOf config w
      → IsOf config (step o w)
  unfolding step grant_visibility push_inbox pop_inbox push_checkpoint
  step-IsOf config (grants rs) w h = ground arith
  step-IsOf config (receives e) w h = ground arith
  step-IsOf config consumes w h = ground arith
  step-IsOf config (checkpoints cp) w h = ground arith
  step-IsOf config (moves status) w h = ground arith
  step-IsOf config (writes memory) w h = ground arith
  step-IsOf config (meters meter) w h = ground arith
  step-IsOf config (numbers sequence) w h = ground arith

  run-IsOf :
      (config : WorkspaceConfig F) (os : List (Op F)) (w : WorkspaceState F)
      → IsOf config w
      → IsOf config (run os w)
  unfolding run
  run-IsOf config [] w h = h
  run-IsOf config (o ∷ os) w h = run-IsOf config os (step o w) (step-IsOf config o w h)

  restore-IsOf :
      (config : WorkspaceConfig F) (w : WorkspaceState F)
      → IsOf config w
      → restore_from_snapshot config (capture_snapshot w) w.status
        ≡ record w { visibility_set = config.visibility }
  unfolding restore_from_snapshot capture_snapshot
  restore-IsOf config w h = ground arith

  -- A workspace restored from its snapshot, its configuration and its status is the one that was
  -- captured, but for the visibility set, which is again that of the configuration: whatever messages,
  -- checkpoints and grants it got, and whatever its status, working memory, resource meter and trail
  -- sequence were set to.
  pub restore-capture :
      (config : WorkspaceConfig F) (os : List (Op F))
      → let w = run os (new config) in
        restore_from_snapshot config (capture_snapshot w) w.status
        ≡ record w { visibility_set = config.visibility }
  restore-capture config os =
      restore-IsOf config (run os (new config)) (run-IsOf config os (new config) (new-IsOf config))

module _ {F : Type 0} where
  -- A resource that was granted after creation, and that the configuration did not hold, is visible
  -- before a snapshot is taken and invisible after the restore.
  pub restore_forgets_grant :
      (config : WorkspaceConfig F) (r : String)
      → contains config.visibility r ≡ false
      → let w = grant_visibility (r ∷ []) (new config) in
        (contains w.visibility_set r ≡ true)
        × (contains (restore_from_snapshot config (capture_snapshot w) w.status).visibility_set r
            ≡ false)
  unfolding grant_visibility new restore_from_snapshot capture_snapshot
  restore_forgets_grant config r h = (rw (contains-add r r config.visibility, beq_refl r), h)
