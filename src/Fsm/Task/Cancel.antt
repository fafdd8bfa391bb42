-- ===== src/Fsm/Task/Cancel.antt =====
-- The statuses in which the task machine (task.rs) may be cancelled.
use wacp_platform.Prelude.{Bool, true, false, ◌≡◌, ◌⊎◌, inl, inr, refl, ok, err}
use wacp_platform.Types.Enums.{TaskStatus}
use wacp_platform.Types.Enums.TaskStatus.{
  draft, pending, assigned, in_progress, completed, failed, integrated, cancelled,
}
use wacp_platform.Fsm.Machine.{TransitionError}
use wacp_platform.Fsm.Task.{cancel, task_transition}

abbrev pub is_cancellable : TaskStatus → Bool
is_cancellable draft = true
is_cancellable pending = true
is_cancellable assigned = true
is_cancellable in_progress = true
is_cancellable _ = false

pub cancel-cases :
    (s : TaskStatus)
    → ((task_transition s cancel ≡ ok cancelled) × (is_cancellable s ≡ true))
      ⊎ ((e : TransitionError) × (task_transition s cancel ≡ err e))
unfolding task_transition
cancel-cases draft = inl (refl, refl)
cancel-cases pending = inl (refl, refl)
cancel-cases assigned = inl (refl, refl)
cancel-cases in_progress = inl (refl, refl)
cancel-cases completed = inr (_, refl)
cancel-cases failed = inr (_, refl)
cancel-cases integrated = inr (_, refl)
cancel-cases cancelled = inr (_, refl)
