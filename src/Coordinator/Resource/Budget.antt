-- ===== src/Coordinator/Resource/Budget.antt =====
-- The `BudgetEnforcer` of wacp/crates/wacp-coordinator/src/resource.rs. The comparison of floats in
-- `used as f64 >= limit as f64 * threshold as f64` is the parameter `reaches used limit threshold`.
use wacp_platform.Prelude.{
  ℕ, Bool, String, Option, none, some, List, [], ◌∷◌, ◌++◌, if◌then◌else◌, ltb, leb,
}
use wacp_platform.Types.Records.{ResourceUsage, ResourceBudget}
use wacp_platform.Coordinator.Resource.Timeouts.{u64_add}

pub data BudgetCheckResult : Type 0 where
  ok : BudgetCheckResult
  warning exceeded : List String → BudgetCheckResult

-- The two vectors that `check` fills.
pub record Findings : Type 0 where
  pub warnings : List String
  pub exceeded_names : List String

-- `Some(l) if l > 0`; everything else is unlimited.
unfoldable pub effective : Option ℕ → Option ℕ
effective none = none
effective (some l) = if ltb 0 l then some l else none

-- `increase_budget` on one dimension.
unfoldable pub raise : Option ℕ → Option ℕ → Option ℕ
raise (some cur) (some added) = some (u64_add cur added)
raise cur _ = cur

module _ {F : Type 0} where
  unfoldable pub increase_budget : ResourceBudget F → ResourceBudget F → ResourceBudget F
  unfolding raise
  increase_budget additional budget = record {
    max_tokens = raise budget.max_tokens additional.max_tokens;
    max_wall_time_ms = raise budget.max_wall_time_ms additional.max_wall_time_ms;
    max_storage_bytes = raise budget.max_storage_bytes additional.max_storage_bytes;
    max_network_bytes = raise budget.max_network_bytes additional.max_network_bytes;
    max_cost_micros = raise budget.max_cost_micros additional.max_cost_micros;
    warning_threshold = budget.warning_threshold;
  }

-- The most severe of the findings.
unfoldable pub verdict : Findings → BudgetCheckResult
verdict f = elim f.exceeded_names [
  | name ∷ names ↦ exceeded (name ∷ names)
  | [] ↦ elim f.warnings [ name ∷ names ↦ warning (name ∷ names) | [] ↦ ok ]
]

module _ {F : Type 0} (reaches : ℕ → ℕ → F → Bool) where
  unfoldable pub check_dim : String → ℕ → Option ℕ → F → Findings → Findings
  unfolding effective
  check_dim name used limit threshold f = elim (effective limit) [
    | none ↦ f
    | some l ↦
        if leb l used
        then record f { exceeded_names = f.exceeded_names ++ name ∷ [] }
        else if reaches used l threshold
        then record f { warnings = f.warnings ++ name ∷ [] }
        else f
  ]

  -- The calls of `check_dim`, in order.
  unfoldable pub check_all : ResourceUsage → ResourceBudget F → Findings
  unfolding check_dim
  check_all usage budget =
      let threshold = budget.warning_threshold in
      check_dim "cost_micros" usage.cost_micros budget.max_cost_micros threshold (
        check_dim "network_bytes" usage.network_bytes budget.max_network_bytes threshold (
          check_dim "storage_bytes" usage.storage_bytes budget.max_storage_bytes threshold (
            check_dim "wall_time_ms" usage.wall_time_ms budget.max_wall_time_ms threshold (
              check_dim "tokens" usage.tokens budget.max_tokens threshold
                (record { warnings = []; exceeded_names = [] })))))

  unfoldable pub check : ResourceUsage → ResourceBudget F → BudgetCheckResult
  unfolding check_all verdict
  check usage budget = verdict (check_all usage budget)
