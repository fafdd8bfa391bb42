-- ===== src/Llm/Cost/Totals.antt =====
-- The prices that are found and the totals that are kept (cost.rs).
use wacp_platform.Prelude.{
  ℕ, ◌+◌, ◌^◌, ◌≤◌, ◌<◌, String, Option, none, some, get, get_or, string_eq, List, [], ◌∷◌, HashMap,
  ◌==◌, if◌then◌else◌, ◌≡◌, arith, get-insert,
}
use wacp_platform.Llm.Cost.{u64, CostTracker, charge, record_cost, workspace_total, total}

abbrev charged : String → Option String → ℕ → ℕ
charged id none amount = 0
charged id (some other) amount = if other == id then amount else 0

-- What a history charges to a workspace, and what it costs in all.
abbrev pub charged_to : String → List (Option String × ℕ) → ℕ
charged_to id [] = 0
charged_to id ((workspace, amount) ∷ rest) = charged id workspace amount + charged_to id rest

abbrev pub cost_of : List (Option String × ℕ) → ℕ
cost_of [] = 0
cost_of ((_, amount) ∷ rest) = amount + cost_of rest

unfoldable pub run : List (Option String × ℕ) → CostTracker → CostTracker
unfolding record_cost
run [] t = t
run ((workspace, amount) ∷ rest) t = run rest (record_cost workspace amount t)

charged_le :
    (id : String) (workspace : Option String) (amount : ℕ) → charged id workspace amount ≤ amount
charged_le id none amount = omega arith
charged_le id (some other) amount = ground arith

u64_small : (n : ℕ) → n < 2 ^ 64 → u64 n ≡ n
u64_small n h = omega arith

charge-workspace :
    (id : String) (workspace : Option String) (amount : ℕ) (m : HashMap String ℕ)
    → get_or (get id m) 0 + amount < 2 ^ 64
    → get_or (get id (charge workspace amount m)) 0
      ≡ get_or (get id m) 0 + charged id workspace amount
unfolding charge
charge-workspace id none amount m h = omega arith
charge-workspace id (some other) amount m h = ground (
  arith,
  get-insert other id (u64 (get_or (get other m) 0 + amount)) m,
  u64_small (get_or (get other m) 0 + amount),
  string_eq.beq_iff other id,
)

-- A tracker adds to a workspace's costs what a list of calls charges to it, and to its total what they
-- cost in all, if neither of the two, with the cost of all calls added, reaches 2^64.
pub run-totals :
    (id : String) (calls : List (Option String × ℕ)) (t : CostTracker)
    → workspace_total id t + cost_of calls < 2 ^ 64
    → total t + cost_of calls < 2 ^ 64
    → (workspace_total id (run calls t) ≡ workspace_total id t + charged_to id calls)
      × (total (run calls t) ≡ total t + cost_of calls)
unfolding run record_cost workspace_total total
run-totals id [] t h k = (omega arith, omega arith)
run-totals id ((workspace, amount) ∷ calls) t h k =
    let spent = charge-workspace id workspace amount t.workspace_costs (ground arith) in
    let one = charged_le id workspace amount in
    let after = record_cost workspace amount t in
    let summed = u64_small (t.total_micros + amount) (ground arith) in
    let rest = run-totals id calls after (ground (arith, spent, one)) (ground (arith, summed)) in
    (ground (arith, spent, rest.0), ground (arith, summed, rest.1))
