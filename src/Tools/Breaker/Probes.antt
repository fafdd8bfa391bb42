-- ===== src/Tools/Breaker/Probes.antt =====
-- Which invocations an open circuit breaker (resilience.rs) lets through.
use wacp_platform.Prelude.{
  ℕ, ◌+◌, ◌≤◌, ◌<◌, Bool, true, false, ◌&&◌, String, List, [], ◌∷◌, if◌then◌else◌, ltb, is_ok, ◌≡◌,
  refl, arith,
}
use wacp_platform.Tools.Breaker.{
  CircuitBreakerConfig, BreakerState, half_open, with_status, trip, check_status, check, succeed,
  record_success, fail, record_failure,
}

pub data Call : Type 0 where
  checks : ℕ → Call
  fails : ℕ → Call
  succeeds : Call

module _ (debug : ℕ → String) (config : CircuitBreakerConfig) where
  unfoldable pub step : Call → BreakerState → BreakerState
  unfolding check record_failure record_success
  step (checks now) s = (check debug config now s).0
  step (fails now) s = record_failure config now s
  step succeeds s = record_success config s

  -- How many of the calls are checks that let an invocation through.
  unfoldable pub passes : List Call → BreakerState → ℕ
  unfolding step
  passes [] s = 0
  passes (checks now ∷ cs) s =
      (if is_ok (check debug config now s).1 then 1 else 0) + passes cs (step (checks now) s)
  passes (fails now ∷ cs) s = passes cs (step (fails now) s)
  passes (succeeds ∷ cs) s = passes cs (step succeeds s)

  -- The calls that come before a time; a success has none.
  abbrev pub is_before : ℕ → List Call → Bool
  is_before limit [] = true
  is_before limit (checks now ∷ cs) = ltb now limit && is_before limit cs
  is_before limit (fails now ∷ cs) = is_before limit cs
  is_before limit (succeeds ∷ cs) = is_before limit cs

  -- Calls without a recorded outcome.
  abbrev pub only_checks : List Call → Bool
  only_checks [] = true
  only_checks (checks now ∷ cs) = only_checks cs
  only_checks (fails now ∷ cs) = false
  only_checks (succeeds ∷ cs) = false

  -- While an enabled breaker with a positive cooldown cools down, it lets nothing through, whatever is recorded.
  pub cooling_rejects :
      (cs : List Call) (at : ℕ) (failures : List ℕ)
      → config.enabled ≡ true
      → 0 < config.cooldown
      → is_before (at + config.cooldown) cs ≡ true
      → passes cs (trip at failures) ≡ 0
  unfolding passes step check check_status record_failure fail record_success succeed
  cooling_rejects [] at failures on cools early = refl
  cooling_rejects (checks now ∷ cs) at failures on cools early =
      ground (arith, cooling_rejects cs at failures)
  cooling_rejects (fails now ∷ cs) at failures on cools early =
      ground (arith, cooling_rejects cs at failures)
  cooling_rejects (succeeds ∷ cs) at failures on cools early =
      ground (arith, cooling_rejects cs at failures)

  half_open-rejects :
      (cs : List Call) (s : BreakerState)
      → config.enabled ≡ true
      → only_checks cs ≡ true
      → passes cs (with_status half_open s) ≡ 0
  unfolding passes step check check_status
  half_open-rejects [] s on plain = refl
  half_open-rejects (checks now ∷ cs) s on plain = ground (arith, half_open-rejects cs s)
  half_open-rejects (fails now ∷ cs) s on plain = ground arith
  half_open-rejects (succeeds ∷ cs) s on plain = ground arith

  -- From an open enabled breaker, checks let at most one invocation through until an outcome is recorded.
  pub one_probe :
      (cs : List Call) (at : ℕ) (failures : List ℕ)
      → config.enabled ≡ true
      → only_checks cs ≡ true
      → passes cs (trip at failures) ≤ 1
  unfolding passes step check check_status
  one_probe [] at failures on plain = omega arith
  one_probe (checks now ∷ cs) at failures on plain =
      ground (arith, one_probe cs at failures, half_open-rejects cs (trip at failures))
  one_probe (fails now ∷ cs) at failures on plain = ground arith
  one_probe (succeeds ∷ cs) at failures on plain = ground arith
