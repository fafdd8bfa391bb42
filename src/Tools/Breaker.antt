-- ===== src/Tools/Breaker.antt =====
-- wacp/crates/wacp-tools/src/resilience.rs: the circuit breaker of a tool. The time of a call is an argument,
-- and so is the `Debug` form of a duration. An error is the text of the source's `unavailable`.
pub mod Probes
use Prim.Native.String.{◌++◌ as text_append}
use wacp_platform.Prelude.{
  ℕ, ◌+◌, ◌-◌, Bool, true, false, String, Option, none, some, List, [], ◌∷◌, ◌++◌, retain, length,
  if◌then◌else◌, leb, Result, ok, err,
}

pub record CircuitBreakerConfig : Type 0 where
  pub failure_threshold : ℕ
  pub failure_window : ℕ
  pub cooldown : ℕ
  pub enabled : Bool

pub data BreakerStatus : Type 0 where
  closed opened half_open : BreakerStatus

pub record BreakerState : Type 0 where
  pub status : BreakerStatus
  pub failures : List ℕ
  pub opened_at : Option ℕ

abbrev pub new : BreakerState
new = record { status = closed; failures = []; opened_at = none }

-- Whether the cooldown of an open breaker has passed.
abbrev pub has_cooled : CircuitBreakerConfig → ℕ → Option ℕ → Bool
has_cooled config now none = false
has_cooled config now (some opened_at) = leb config.cooldown (now - opened_at)

abbrev pub remaining : CircuitBreakerConfig → ℕ → Option ℕ → ℕ
remaining config now none = 0
remaining config now (some opened_at) = config.cooldown - (now - opened_at)

abbrev pub with_status : BreakerStatus → BreakerState → BreakerState
with_status status s = record s { status = status }

abbrev pub trip : ℕ → List ℕ → BreakerState
trip now failures = record { status = opened; failures = failures; opened_at = some now }

module _ (debug : ℕ → String) (config : CircuitBreakerConfig) where
  -- The match of `check`, on the status.
  unfoldable pub check_status :
      BreakerStatus → ℕ → BreakerState → BreakerState × Result String (Unit {0})
  check_status closed now s = (s, ok tt)
  check_status opened now s =
      if has_cooled config now s.opened_at then (with_status half_open s, ok tt) else (
        s,
        err (
            text_append "circuit breaker open, cooldown remaining: "
              (debug (remaining config now s.opened_at))),
      )
  check_status half_open now s = (s, err "circuit breaker half-open, probe in progress")

  unfoldable pub check : ℕ → BreakerState → BreakerState × Result String (Unit {0})
  unfolding check_status
  check now s = if config.enabled then check_status s.status now s else (s, ok tt)

module _ (config : CircuitBreakerConfig) where
  unfoldable pub succeed : BreakerStatus → BreakerState → BreakerState
  succeed half_open s = new
  succeed closed s = s
  succeed opened s = s

  unfoldable pub record_success : BreakerState → BreakerState
  unfolding succeed
  record_success s = if config.enabled then succeed s.status s else s

  abbrev pub recent_failures : ℕ → BreakerState → List ℕ
  recent_failures now s = retain (λ t. leb (now - config.failure_window) t) s.failures ++ now ∷ []

  unfoldable pub fail : BreakerStatus → ℕ → BreakerState → BreakerState
  fail closed now s =
      let failures = recent_failures now s in
      if leb config.failure_threshold (length failures)
      then trip now failures
      else record s { failures = failures }
  fail half_open now s = trip now s.failures
  fail opened now s = s

  unfoldable pub record_failure : ℕ → BreakerState → BreakerState
  unfolding fail
  record_failure now s = if config.enabled then fail s.status now s else s
