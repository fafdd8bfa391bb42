-- ===== src/Llm/RateLimit.antt =====
-- wacp/crates/wacp-llm/src/rate_limit.rs: the limiter of requests and tokens in a sliding window. The time of a
-- call is an argument, in one unit with the window; a cutoff before time 0 prunes nothing. The sum of
-- the tokens is on `u32` and wraps, as in a release build.
pub mod Log
pub mod Windows
use wacp_platform.Prelude.{
  ℕ, ◌+◌, ◌-◌, ◌%◌, ◌^◌, min, Bool, true, false, ◌||◌, ◌&&◌, not, Option, none, some, List, [], ◌∷◌,
  ◌++◌, length, if◌then◌else◌, ltb, leb, Result, ok, err,
}

pub record RateLimitConfig : Type 0 where
  pub max_requests_per_window : ℕ
  pub max_tokens_per_window : ℕ
  pub window : ℕ

abbrev pub default_config : RateLimitConfig
default_config = record { max_requests_per_window = 0; max_tokens_per_window = 0; window = 60000 }

pub record RateLimitState : Type 0 where
  pub request_log : List ℕ
  pub token_log : List (ℕ × ℕ)

abbrev pub new : RateLimitState
new = record { request_log = []; token_log = [] }

-- The two loops that prune old entries.
unfoldable pub prune_requests : ℕ → List ℕ → List ℕ
prune_requests cutoff [] = []
prune_requests cutoff (t ∷ log) =
    let rest = prune_requests cutoff log in if ltb t cutoff then rest else t ∷ log

unfoldable pub prune_tokens : ℕ → List (ℕ × ℕ) → List (ℕ × ℕ)
prune_tokens cutoff [] = []
prune_tokens cutoff ((t, n) ∷ log) =
    let rest = prune_tokens cutoff log in if ltb t cutoff then rest else (t, n) ∷ log

abbrev pub sum_tokens : List (ℕ × ℕ) → ℕ
sum_tokens [] = 0
sum_tokens ((_, n) ∷ log) = n + sum_tokens log

abbrev pub front_or : ℕ → List ℕ → ℕ
front_or now [] = now
front_or now (t ∷ _) = t

abbrev pub token_front_or : ℕ → List (ℕ × ℕ) → ℕ
token_front_or now [] = now
token_front_or now ((t, _) ∷ _) = t

abbrev pub pruned : RateLimitConfig → ℕ → RateLimitState → RateLimitState
pruned config now s = record {
  request_log = prune_requests (now - config.window) s.request_log;
  token_log = prune_tokens (now - config.window) s.token_log;
}

abbrev pub is_over_requests : RateLimitConfig → RateLimitState → Bool
is_over_requests config s =
    ltb 0 config.max_requests_per_window
    && leb config.max_requests_per_window (length s.request_log)

abbrev pub is_over_tokens : RateLimitConfig → ℕ → RateLimitState → Bool
is_over_tokens config estimated_tokens s =
    ltb 0 config.max_tokens_per_window
    && ltb config.max_tokens_per_window
        (min (sum_tokens s.token_log % 2 ^ 32 + estimated_tokens) (2 ^ 32 - 1))

-- An error is the time to wait.
unfoldable pub check :
    RateLimitConfig → ℕ → ℕ → RateLimitState → RateLimitState × Result ℕ (Unit {0})
unfolding prune_requests prune_tokens
check config now estimated_tokens s =
    let s' = pruned config now s in
    (
      s',
      if is_over_requests config s'
          then err (config.window - (now - front_or now s'.request_log))
          else if is_over_tokens config estimated_tokens s'
          then err (config.window - (now - token_front_or now s'.token_log))
          else ok tt,
    )

-- The source's `record`.
unfoldable pub record_request : ℕ → ℕ → RateLimitState → RateLimitState
record_request now tokens s = record {
  request_log = s.request_log ++ now ∷ [];
  token_log = s.token_log ++ (now, tokens) ∷ [];
}

unfoldable pub is_enabled : RateLimitConfig → Bool
is_enabled config = ltb 0 config.max_requests_per_window || ltb 0 config.max_tokens_per_window
