-- ===== src/Llm/Prices.antt =====
-- wacp/crates/wacp-llm/src/cost.rs and result.rs: the built-in prices, and the tokens of a call.
use wacp_platform.Prelude.{ℕ, ◌+◌, ◌-◌, ◌^◌, min, String, List, [], ◌∷◌}
use wacp_platform.Llm.Cost.{ModelPricing, TokenUsage}

abbrev price : String → ℕ → ℕ → String × ModelPricing
price prefix input output =
    (prefix, record { input_price_micros_per_m = input; output_price_micros_per_m = output })

abbrev pub anthropic_pricing : List (String × ModelPricing)
anthropic_pricing =
    price "claude-opus-4" 15000000 75000000
    ∷ price "claude-sonnet-4" 3000000 15000000
    ∷ price "claude-haiku-4" 800000 4000000
    ∷ []

abbrev pub openai_pricing : List (String × ModelPricing)
openai_pricing =
    price "gpt-4o" 2500000 10000000
    ∷ price "gpt-4o-mini" 150000 600000
    ∷ price "o3" 2000000 8000000
    ∷ price "o3-mini" 1100000 4400000
    ∷ price "o4-mini" 1100000 4400000
    ∷ []

-- The saturating sum on `u32` of `TokenUsage::total`.
abbrev pub token_total : TokenUsage → ℕ
token_total usage = min (usage.input_tokens + usage.output_tokens) (2 ^ 32 - 1)
