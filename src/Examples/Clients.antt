-- ===== src/Examples/Clients.antt =====
-- Delays, limits and costs of the calls of a model, and a tool that fails.
use wacp_platform.Prelude.{
  ◌-◌, ◌^◌, ℕ, ◌+◌, ◌*◌, ◌≤◌, max, String, Option, none, some, true, List, [], ◌∷◌, ◌≡◌, refl,
  arith,
}
use wacp_platform.Llm.Retry.{
  default_config, asked_delay, named_delay, compute_delay, apply_retry_after, compute_delay-bounds,
}
use wacp_platform.Llm.RateLimit.{RateLimitConfig}
use wacp_platform.Llm.RateLimit.Windows as Windows
use wacp_platform.Llm.Cost as Cost
use wacp_platform.Llm.Prices.{anthropic_pricing, openai_pricing, token_total}
use wacp_platform.Llm.Cost.Totals as Totals
use wacp_platform.Tools.Breaker.{CircuitBreakerConfig, trip}
use wacp_platform.Tools.Breaker.Probes.{checks, fails, succeeds, passes, cooling_rejects, one_probe}

compute_delay-bounds_example :
    (1 ≤ compute_delay default_config 2 700)
    × (compute_delay default_config 2 700 ≤ 4500000)
    × (3 * asked_delay default_config 2 ≤ 4 * compute_delay default_config 2 700)
    × (4 * compute_delay default_config 2 700 ≤ 5 * asked_delay default_config 2 + 4)
    × (apply_retry_after (compute_delay default_config 2 700) (some 5000) default_config
        ≡ max (compute_delay default_config 2 700) (named_delay (some 5000) default_config))
compute_delay-bounds_example = compute_delay-bounds default_config 2 700 (some 5000) (omega arith)

abbrev limits : RateLimitConfig
limits = record { max_requests_per_window = 2; max_tokens_per_window = 0; window = 100 }

-- Two requests are on their way at time 12, so that a third one is sent within the window.
abbrev requests : List Windows.Call
requests =
    Windows.checks 10 5
    ∷ Windows.records 11 5
    ∷ Windows.checks 11 5
    ∷ Windows.checks 12 5
    ∷ Windows.records 14 5
    ∷ Windows.records 15 5
    ∷ Windows.checks 30 5
    ∷ []

parallel : Windows.is_parallel limits 2 requests Windows.quiet ≡ true
unfolding Windows.is_parallel
parallel = refl

window-limited_example :
    Windows.in_window limits 10 (Windows.run limits requests Windows.quiet).sent + 1 ≤ 2 + 2
window-limited_example = Windows.window-limited limits 2 requests 10 (omega arith) refl parallel

one_too_many : (Windows.run limits requests Windows.quiet).sent ≡ 10 ∷ 11 ∷ 12 ∷ []
unfolding Windows.run
one_too_many = refl

abbrev calls : List (Option String × ℕ)
calls = (some "ws-1", 30) ∷ (none, 12) ∷ (some "ws-2", 5) ∷ (some "ws-1", 8) ∷ []

abbrev breaker : CircuitBreakerConfig
breaker = record { failure_threshold = 3; failure_window = 60; cooldown = 30; enabled = true }

abbrev printed : ℕ → String
printed n = "some time"

cooling_rejects_example :
    passes printed breaker (checks 110 ∷ fails 115 ∷ succeeds ∷ checks 129 ∷ []) (trip 100 []) ≡ 0
cooling_rejects_example =
    cooling_rejects printed breaker (checks 110 ∷ fails 115 ∷ succeeds ∷ checks 129 ∷ []) 100 []
      refl (omega arith) refl

one_probe_example :
    passes printed breaker (checks 110 ∷ checks 130 ∷ checks 131 ∷ []) (trip 100 []) ≤ 1
one_probe_example =
    one_probe printed breaker (checks 110 ∷ checks 130 ∷ checks 131 ∷ []) 100 [] refl refl

probe_passes : passes printed breaker (checks 110 ∷ checks 130 ∷ checks 131 ∷ []) (trip 100 []) ≡ 1
unfolding passes
probe_passes = refl

all_costs : Cost.total (Totals.run calls Cost.new) ≡ 55
unfolding Cost.total Totals.run
all_costs = refl

-- The lookups of the tests of cost.rs.
longer_prefix_wins :
    Cost.lookup_pricing "gpt-4o-mini-2024" openai_pricing
    ≡ some (record { input_price_micros_per_m = 150000; output_price_micros_per_m = 600000 })
unfolding Cost.lookup_pricing
longer_prefix_wins = refl

no_such_model : Cost.lookup_pricing "unknown-model-v99" anthropic_pricing ≡ none
unfolding Cost.lookup_pricing
no_such_model = refl

full_count : token_total (record { input_tokens = 2 ^ 32 - 1; output_tokens = 1 }) ≡ 2 ^ 32 - 1
full_count = refl
