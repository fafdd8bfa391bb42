-- ===== src/Clock/Hlc.antt =====
-- wacp/crates/wacp-clock/src/lib.rs: the clock. A reading of the time source is an argument of `now`,
-- `send` and `recv`, which return the new clock; the timestamp that they hand out is its `last`.
use wacp_platform.Prelude.{ℕ, ◌+◌, ◌&&◌, if◌then◌else◌, ltb, ◌==◌, nat_eq, max}
use wacp_platform.Clock.Timestamp.{Timestamp, zero_stamp, stamp, u16_max}

pub record Clock : Type 0 where
  pub last : Timestamp

-- `Clock::new`, and `Clock::with_initial` for recovery.
abbrev pub new : Clock
new = record { last = zero_stamp }

abbrev pub with_initial : Timestamp → Clock
with_initial initial = record { last = initial }

-- `saturating_add(1)` of a `u16`.
abbrev pub saturating_inc : ℕ → ℕ
saturating_inc n = if ltb n u16_max then n + 1 else n

unfoldable pub now : Clock → ℕ → Clock
now c physical = record {
  last =
      if ltb c.last.physical_us physical
      then stamp physical 0
      else stamp c.last.physical_us (saturating_inc c.last.logical);
}

unfoldable pub send : Clock → ℕ → Clock
unfolding now
send c physical = now c physical

-- The logical counter that `recv` picks for the largest of the three physical times.
unfoldable pub recv_logical : ℕ → Timestamp → Timestamp → ℕ
recv_logical max_physical last remote =
    if ltb last.physical_us max_physical && ltb remote.physical_us max_physical
    then 0
    else if max_physical == last.physical_us && max_physical == remote.physical_us
    then saturating_inc (max last.logical remote.logical)
    else if max_physical == last.physical_us
    then saturating_inc last.logical
    else saturating_inc remote.logical

unfoldable pub recv : Clock → ℕ → Timestamp → Clock
unfolding recv_logical
recv c local_physical remote =
    let max_physical = max (max local_physical c.last.physical_us) remote.physical_us in
    record { last = stamp max_physical (recv_logical max_physical c.last remote) }

-- The calls that a clock serves, each with the reading of the time source that it makes.
pub data Event : Type 0 where
  local_event send_event : ℕ → Event
  recv_event : ℕ → Timestamp → Event

unfoldable pub tick : Clock → Event → Clock
tick c (local_event physical) = now c physical
tick c (send_event physical) = send c physical
tick c (recv_event physical remote) = recv c physical remote
