-- ===== src/Examples/Limits.antt =====
-- Budgets, timeouts and liveness at concrete values.
use wacp_platform.Prelude.{
  ℕ, ◌*◌, Bool, true, none, some, List, [], ◌∷◌, ◌≡◌, refl, arith, contains, insert, modify,
  string_eq, leb,
}
use wacp_platform.Types.Records.{ResourceUsage, ResourceBudget}
use wacp_platform.Coordinator.Resource.Budget.{warning, check, effective, raise}
use wacp_platform.Coordinator.Resource.Limits.{
  severity, names, is_exceeded, is_near, dimensions, check-severity,
}
use wacp_platform.Coordinator.Resource.Liveness.{
  check_inactive, record_activity, reset_activity, inactive, new,
}
use wacp_platform.Coordinator.Resource.Liveness as Liveness
use wacp_platform.Coordinator.Resource.Liveness.Activity.{
  Call, registered, recorded, restarted, run, follow_all, is_late, check_inactive-run,
}

-- The threshold is a percentage here.
abbrev reaches : ℕ → ℕ → ℕ → Bool
reaches used limit threshold = leb (limit * threshold) (used * 100)

abbrev usage : ResourceUsage
usage = record {
  tokens = 85;
  wall_time_ms = 10;
  storage_bytes = 0;
  network_bytes = 7;
  cost_micros = 0;
}

abbrev budget : ResourceBudget ℕ
budget = record {
  max_tokens = some 100;
  max_wall_time_ms = some 1000;
  max_storage_bytes = none;
  max_network_bytes = some 0;
  max_cost_micros = none;
  warning_threshold = 80;
}

tokens_near : check reaches usage budget ≡ warning ("tokens" ∷ [])
unfolding check
tokens_near = refl

check-severity_example :
    check reaches usage budget
    ≡ severity
        (names is_exceeded (dimensions usage budget))
        (names (is_near reaches 80) (dimensions usage budget))
check-severity_example = check-severity reaches usage budget

-- A reset of a workspace that is not watched, and one that is.
abbrev calls : List Call
calls = registered "ws-1" 100 ∷ restarted "ws-2" 150 ∷ recorded "ws-1" 200 ∷ []

check_inactive-run_example :
    contains (check_inactive 260 (run calls (new 50))) "ws-1"
    ≡ is_late 50 260 (follow_all "ws-1" calls none)
check_inactive-run_example = check_inactive-run calls 50 260 "ws-1" (omega arith)

late : contains (check_inactive 260 (run calls (new 50))) "ws-1" ≡ true
unfolding check_inactive run record_activity reset_activity Liveness.register inactive insert modify
late = refl

-- No limit, raised by 50, is a limit of 50.
zero_raised : effective (raise (some 0) (some 50)) ≡ some 50
unfolding effective raise
zero_raised = refl
