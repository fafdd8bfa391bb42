-- ===== src/Fsm/Task/Traces.antt =====
-- Assignments and failures in histories of the task machine (task.rs).
use wacp_platform.Prelude.{ℕ, ◌+◌, ◌≤◌, Bool, true, false, List, [], ◌∷◌, arith, count_if}
use wacp_platform.Types.Enums.{TaskStatus}
use wacp_platform.Types.Enums.TaskStatus.{draft, pending, failed}
use wacp_platform.Fsm.Machine.{after, keep, accepted}
use wacp_platform.Fsm.Task.{TaskTrigger, assign, fail, task_transition}

abbrev pub is_assign : TaskTrigger → Bool
is_assign assign = true
is_assign _ = false

abbrev pub is_fail : TaskTrigger → Bool
is_fail fail = true
is_fail _ = false

-- 1 where the task may still be assigned without failing first.
abbrev credit : TaskStatus → ℕ
credit draft = 1
credit pending = 1
credit failed = 1
credit _ = 0

step-credit :
    (s : TaskStatus) (t : TaskTrigger) (rest : List TaskTrigger)
    → count_if is_assign rest ≤ credit (after s (task_transition s t)) + count_if is_fail rest
    → count_if is_assign (keep (task_transition s t) t rest)
      ≤ credit s + count_if is_fail (keep (task_transition s t) t rest)
unfolding task_transition
step-credit s t rest h = ground arith

assigns-from :
    (s : TaskStatus) (ts : List TaskTrigger)
    → count_if is_assign (accepted task_transition s ts)
      ≤ credit s + count_if is_fail (accepted task_transition s ts)
unfolding accepted
assigns-from s [] = omega arith
assigns-from s (t ∷ ts) =
    step-credit s t (accepted task_transition (after s (task_transition s t)) ts)
      (assigns-from (after s (task_transition s t)) ts)

-- A task is assigned at most once more than it has failed: each retry is paid for by a failure.
pub assigns-le-fails :
    (ts : List TaskTrigger)
    → count_if is_assign (accepted task_transition draft ts)
      ≤ 1 + count_if is_fail (accepted task_transition draft ts)
assigns-le-fails ts = assigns-from draft ts
