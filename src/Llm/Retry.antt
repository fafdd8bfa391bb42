-- ===== src/Llm/Retry.antt =====
-- wacp/crates/wacp-llm/src/retry.rs: the delay before a retry, in milliseconds. What the random number
-- generator draws is an argument.
use wacp_platform.Prelude.{
  ℕ, zero, suc, ◌+◌, ◌-◌, ◌*◌, ◌/◌, ◌^◌, ◌≤◌, min, max, Bool, true, Option, none, some,
  if◌then◌else◌, ltb, ◌≡◌, leb, Bool-cases, inl, inr, arith,
}
use wacp_platform.Llm.Errors.{LlmError, is_transient}

pub data BackoffStrategy : Type 0 where
  fixed exponential : BackoffStrategy

pub record RetryConfig : Type 0 where
  pub max_retries : ℕ
  pub base_delay_ms : ℕ
  pub backoff : BackoffStrategy
  pub honor_retry_after : Bool
  pub max_retry_duration_ms : ℕ

abbrev pub default_config : RetryConfig
default_config = record {
  max_retries = 2;
  base_delay_ms = 1000;
  backoff = exponential;
  honor_retry_after = true;
  max_retry_duration_ms = 30000;
}

abbrev pub u64_max : ℕ
u64_max = 2 ^ 64 - 1

-- `base_delay_ms.saturating_mul(2u64.saturating_pow(attempt))`, or the fixed delay.
unfoldable pub backoff_delay : RetryConfig → ℕ → ℕ
backoff_delay config attempt = elim config.backoff [
  | fixed ↦ config.base_delay_ms
  | exponential ↦ min (config.base_delay_ms * min (2 ^ attempt) u64_max) u64_max
]

-- The delay before the jitter: one hour at most.
unfoldable pub capped_delay : RetryConfig → ℕ → ℕ
unfolding backoff_delay
capped_delay config attempt = min (backoff_delay config attempt) 3600000

-- The sum on `i64` stays at 0 or above, since the range of the jitter is a quarter of the delay.
unfoldable pub compute_delay : RetryConfig → ℕ → ℕ → ℕ
unfolding capped_delay
compute_delay config attempt draw =
    let base = capped_delay config attempt in
    let jitter_range = base / 4 in
    max (if ltb 0 jitter_range then base + draw - jitter_range else base) 1

unfoldable pub should_retry : LlmError → Bool
should_retry error = is_transient error.persistence

unfoldable pub apply_retry_after : ℕ → Option ℕ → RetryConfig → ℕ
apply_retry_after computed none config = computed
apply_retry_after computed (some after_ms) config =
    if config.honor_retry_after then max computed after_ms else computed

-- How often a retry's delay holds the base delay.
abbrev pub growth : BackoffStrategy → ℕ → ℕ
growth fixed attempt = 1
growth exponential attempt = 2 ^ attempt

-- The delay that a configuration asks for, without saturation: one hour at most.
abbrev pub asked_delay : RetryConfig → ℕ → ℕ
asked_delay config attempt = min (config.base_delay_ms * growth config.backoff attempt) 3600000

-- What a provider's `Retry-After` counts for.
abbrev pub named_delay : Option ℕ → RetryConfig → ℕ
named_delay none config = 0
named_delay (some after_ms) config = if config.honor_retry_after then after_ms else 0

mul_grows : (base n : ℕ) → 1 ≤ base → n ≤ base * n
mul_grows zero n h = absurd (ground arith)
mul_grows (suc base) n h = omega arith

saturated : (base n : ℕ) → min (min (base * min n u64_max) u64_max) 3600000 ≡ min (base * n) 3600000
saturated zero n = ground arith
saturated (suc base) n =
    let grown = mul_grows (suc base) n (omega arith) in
    let full = mul_grows (suc base) u64_max (omega arith) in
    elim (Bool-cases (leb n u64_max)) [
      | inl small ↦ let same : min n u64_max ≡ n = ground (arith, small) in rw same (omega arith)
      | inr large ↦
          let same : min n u64_max ≡ u64_max = ground (arith, large) in
          let above : u64_max ≤ n = ground (arith, large) in rw same (omega arith)
    ]

capped_delay_lem :
    (config : RetryConfig) (attempt : ℕ) → capped_delay config attempt ≡ asked_delay config attempt
unfolding capped_delay backoff_delay
capped_delay_lem config attempt = ground (arith, saturated config.base_delay_ms (2 ^ attempt))

apply_retry_after_lem :
    (computed : ℕ) (retry_after : Option ℕ) (config : RetryConfig)
    → apply_retry_after computed retry_after config ≡ max computed (named_delay retry_after config)
unfolding apply_retry_after
apply_retry_after_lem computed none config = ground arith
apply_retry_after_lem computed (some after_ms) config = ground arith

-- If the draw is within the range that is asked for, the delay is at least a millisecond and at most an
-- hour and a quarter, and lies within a quarter, rounded up, of the base delay, which the exponential
-- strategy doubles with each attempt, cut to an hour. A delay that the provider names is waited for
-- where it is longer and the configuration honors it, and counts for nothing elsewhere.
pub compute_delay-bounds :
    (config : RetryConfig) (attempt draw : ℕ) (retry_after : Option ℕ)
    → draw ≤ asked_delay config attempt / 4 * 2
    → (1 ≤ compute_delay config attempt draw)
      × (compute_delay config attempt draw ≤ 4500000)
      × (3 * asked_delay config attempt ≤ 4 * compute_delay config attempt draw)
      × (4 * compute_delay config attempt draw ≤ 5 * asked_delay config attempt + 4)
      × (apply_retry_after (compute_delay config attempt draw) retry_after config
          ≡ max (compute_delay config attempt draw) (named_delay retry_after config))
unfolding compute_delay
compute_delay-bounds config attempt draw retry_after h =
    let same = capped_delay_lem config attempt in
    (
      ground (arith, same),
      ground (arith, same),
      ground (arith, same),
      ground (arith, same),
      apply_retry_after_lem (compute_delay config attempt draw) retry_after config,
    )
