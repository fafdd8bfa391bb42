-- ===== src/Coordinator/Gate.antt =====
-- wacp/crates/wacp-coordinator/src/gate.rs: the gates that wait for a human decision.
pub mod Responses
use wacp_platform.Prelude.{
  ℕ, ◌+◌, Bool, true, false, String, Option, none, some, get_or, HashMap, get, insert, remove,
  contains_key, is_some, values, length, string_eq, List, [], ◌∷◌, if◌then◌else◌, ◌==◌,
}
use wacp_platform.Prelude.Decimal.{numbered}
use wacp_platform.Prelude.Text.{as_bytes}
use wacp_platform.Types.Enums.{GateType, GateDecision}
use wacp_platform.Types.Records.{GateId, TaskId, WorkspaceId, CheckpointId, GateEvent}

pub data GateFallback : Type 0 where
  auto_approve cancel : GateFallback

pub record PendingGate : Type 0 where
  pub gate_id : GateId
  pub task_id : TaskId
  pub task_name : String
  pub timeout_ms : ℕ
  pub fallback : GateFallback
  pub created_at : ℕ

pub record PendingCheckpointGate : Type 0 where
  pub gate_id : GateId
  pub workspace_id : WorkspaceId
  pub checkpoint_id : CheckpointId
  pub checkpoint_type : String
  pub timeout_ms : ℕ
  pub fallback : GateFallback
  pub created_at : ℕ

pub data GateResolution : Type 0 where
  approved : (source : String) → GateResolution
  rejected : GateResolution

pub record GateController : Type 0 where
  pub pending : HashMap String PendingGate
  pub pending_checkpoints : HashMap String PendingCheckpointGate
  pub next_id : ℕ  -- u64
  pub default_timeout_ms : ℕ
  pub default_fallback : GateFallback

unfoldable pub new : ℕ → GateFallback → GateController
new default_timeout_ms default_fallback = record {
  pending = [];
  pending_checkpoints = [];
  next_id = 1;
  default_timeout_ms = default_timeout_ms;
  default_fallback = default_fallback;
}

abbrev pub gate_name : ℕ → GateId
gate_name n = numbered "gate-" n

abbrev pub fallback_name : GateFallback → String
fallback_name auto_approve = "auto_approve"
fallback_name cancel = "cancel"

unfoldable pub open_gate :
    TaskId
    → String
    → String
    → Option ℕ
    → Option GateFallback
    → GateController
    → GateController × GateEvent
open_gate task_id task_name task_description timeout_ms fallback c =
    let gate_id = gate_name c.next_id in
    let timeout = get_or timeout_ms c.default_timeout_ms in
    let fb = get_or fallback c.default_fallback in
    (
      record c {
        next_id = c.next_id + 1;
        pending =
            insert gate_id
              (record {
                gate_id = gate_id;
                task_id = task_id;
                task_name = task_name;
                timeout_ms = timeout;
                fallback = fb;
                created_at = 0;
              })
              c.pending;
      },
      record {
        gate_id = gate_id;
        gate_type = GateType.task_approval;
        subject = as_bytes task_description;
        workspace_id = "";
        task_id = some task_id;
        timeout_ms = timeout;
        fallback_action = fallback_name fb;
        created_at = 0;
      },
    )

unfoldable pub decide : GateDecision → GateResolution
decide GateDecision.approve = approved "human"
decide GateDecision.modify = approved "human"
decide GateDecision.reject = rejected

unfoldable pub resolve :
    GateId → GateDecision → GateController → GateController × Option GateResolution
unfolding decide
resolve gate_id decision c = elim (get gate_id c.pending) [
  | none ↦ (c, none)
  | some _ ↦ (record c { pending = remove gate_id c.pending }, some (decide decision))
]

unfoldable pub fall_back : GateFallback → GateResolution
fall_back auto_approve = approved "timeout_auto_approve"
fall_back cancel = rejected

unfoldable pub timeout : GateId → GateController → GateController × Option GateResolution
unfolding fall_back
timeout gate_id c = elim (get gate_id c.pending) [
  | none ↦ (c, none)
  | some gate ↦ (record c { pending = remove gate_id c.pending }, some (fall_back gate.fallback))
]

unfoldable pub is_pending : GateId → GateController → Bool
is_pending gate_id c = contains_key gate_id c.pending

-- The search of `pending_for_task`.
unfoldable pub find_gate : TaskId → List PendingGate → Option PendingGate
find_gate task_id [] = none
find_gate task_id (g ∷ gs) = if g.task_id == task_id then some g else find_gate task_id gs

unfoldable pub pending_for_task : TaskId → GateController → Option PendingGate
unfolding find_gate
pending_for_task task_id c = find_gate task_id (values c.pending)

unfoldable pub pending_count : GateController → ℕ
pending_count c = length c.pending

unfoldable pub open_checkpoint_gate :
    WorkspaceId
    → CheckpointId
    → String
    → Option ℕ
    → Option GateFallback
    → GateController
    → GateController × GateEvent
open_checkpoint_gate workspace_id checkpoint_id checkpoint_type timeout_ms fallback c =
    let gate_id = gate_name c.next_id in
    let timeout = get_or timeout_ms c.default_timeout_ms in
    let fb = get_or fallback c.default_fallback in
    (
      record c {
        next_id = c.next_id + 1;
        pending_checkpoints =
            insert gate_id
              (record {
                gate_id = gate_id;
                workspace_id = workspace_id;
                checkpoint_id = checkpoint_id;
                checkpoint_type = checkpoint_type;
                timeout_ms = timeout;
                fallback = fb;
                created_at = 0;
              })
              c.pending_checkpoints;
      },
      record {
        gate_id = gate_id;
        gate_type = GateType.checkpoint_approval;
        subject = as_bytes checkpoint_id;
        workspace_id = workspace_id;
        task_id = none;
        timeout_ms = timeout;
        fallback_action = fallback_name fb;
        created_at = 0;
      },
    )

unfoldable pub resolve_checkpoint :
    GateId → GateController → GateController × Option PendingCheckpointGate
resolve_checkpoint gate_id c = (
  record c { pending_checkpoints = remove gate_id c.pending_checkpoints },
  get gate_id c.pending_checkpoints,
)

unfoldable pub is_checkpoint_pending : GateId → GateController → Bool
is_checkpoint_pending gate_id c = contains_key gate_id c.pending_checkpoints
