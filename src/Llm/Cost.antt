-- ===== src/Llm/Cost.antt =====
-- wacp/crates/wacp-llm/src/cost.rs and result.rs: what a call costs, and who is charged. Sums and products
-- on `u64` wrap, as in a release build.
pub mod Totals
use text.Mathlib.Text.{starts_with}
use Prim.Native.String.{len}
use wacp_platform.Prelude.{
  ℕ, ◌+◌, ◌*◌, ◌/◌, ◌%◌, ◌^◌, Bool, String, Option, none, some, HashMap, get, insert, get_or,
  string_eq, List, [], ◌∷◌, length, if◌then◌else◌, leb,
}
use mathlib.Core.Option

pub record TokenUsage : Type 0 where
  pub input_tokens : ℕ
  pub output_tokens : ℕ

pub record ModelPricing : Type 0 where
  pub input_price_micros_per_m : ℕ
  pub output_price_micros_per_m : ℕ

abbrev pub u64 : ℕ → ℕ
u64 n = n % 2 ^ 64

-- The amount of the cost in microdollars; the currency is always "USD".
unfoldable pub calculate_cost : TokenUsage → ModelPricing → ℕ
calculate_cost usage pricing = u64 (
    u64 (usage.input_tokens * pricing.input_price_micros_per_m) / 1000000
    + u64 (usage.output_tokens * pricing.output_price_micros_per_m) / 1000000)

-- `max_by_key` over the prefixes of the model: the longest, and of two as long the later. Of two prefixes of one
-- string, the one with more bytes has more characters.
unfoldable pub longest : String → List (String × ModelPricing) → Option (String × ModelPricing)
longest model [] = none
longest model ((prefix, pricing) ∷ table) =
    let rest = longest model table in
    if starts_with model prefix
    then elim rest [
      | none ↦ some (prefix, pricing)
      | some (other, p) ↦
          if leb (len prefix) (len other) then some (other, p) else some (prefix, pricing)
    ]
    else rest

unfoldable pub lookup_pricing : String → List (String × ModelPricing) → Option ModelPricing
unfolding longest
lookup_pricing model table = Option.map (λ found. found.1) (longest model table)

pub record CostTracker : Type 0 where
  pub workspace_costs : HashMap String ℕ
  pub total_micros : ℕ

abbrev pub new : CostTracker
new = record { workspace_costs = []; total_micros = 0 }

-- `*entry(k).or_default() += cost`.
unfoldable pub charge : Option String → ℕ → HashMap String ℕ → HashMap String ℕ
charge none amount m = m
charge (some id) amount m = insert id (u64 (get_or (get id m) 0 + amount)) m

-- The source's `record`.
unfoldable pub record_cost : Option String → ℕ → CostTracker → CostTracker
unfolding charge
record_cost workspace amount t = record {
  workspace_costs = charge workspace amount t.workspace_costs;
  total_micros = u64 (t.total_micros + amount);
}

unfoldable pub workspace_total : String → CostTracker → ℕ
workspace_total id t = get_or (get id t.workspace_costs) 0

unfoldable pub total : CostTracker → ℕ
total t = t.total_micros

unfoldable pub workspace_count : CostTracker → ℕ
workspace_count t = length t.workspace_costs
