-- ===== src/Clock/Order.antt =====
-- The timestamps that the calls of a clock hand out, in order: for `now`, `send` and `recv` of
-- wacp/crates/wacp-clock/src/lib.rs.
use wacp_platform.Prelude.{ℕ, ◌+◌, ◌≤◌, ◌<◌, ◌≡◌, arith, List, [], ◌∷◌, length}
use wacp_platform.Clock.Timestamp.{Timestamp, IsStamp, ◌≺◌, ◌≼◌, u16_max, u64_mod}
use wacp_platform.Clock.Hlc.{
  Clock, now, send, recv, Event, local_event, send_event, recv_event, tick,
}

-- The timestamps that a list of calls hands out, in order.
unfoldable pub stamps : Clock → List Event → List Timestamp
stamps c [] = []
stamps c (e ∷ es) = (tick c e).last ∷ stamps (tick c e) es

-- The counters that a call reads are below their maximum.
abbrev pub HasRoom : Clock → Event → Type 0
HasRoom c (local_event p) = c.last.logical < u16_max
HasRoom c (send_event p) = c.last.logical < u16_max
HasRoom c (recv_event p remote) = (c.last.logical < u16_max) × (remote.logical < u16_max)

-- The time that a message brings, or the clock's own for a local call.
abbrev pub heard : Clock → Event → Timestamp
heard c (local_event p) = c.last
heard c (send_event p) = c.last
heard c (recv_event p remote) = remote

-- While the counters have room, every call hands out a timestamp that is later than the clock's last
-- one and, for a received message, than the message's.
pub tick_advances :
    (c : Clock) (e : Event)
    → HasRoom c e
    → (c.last ≺ (tick c e).last) × (heard c e ≺ (tick c e).last)
unfolding tick now send recv
tick_advances c (local_event p) h = ground arith
tick_advances c (send_event p) h = ground arith
tick_advances c (recv_event p remote) h = ground arith

-- A reading or a received time fits its fields.
abbrev pub IsEvent : Event → Type 0
IsEvent (local_event p) = p < u64_mod
IsEvent (send_event p) = p < u64_mod
IsEvent (recv_event p remote) = (p < u64_mod) × IsStamp remote

-- Every call keeps the clock's timestamp within 64 and 16 bits.
tick-IsStamp : (c : Clock) (e : Event) → IsStamp c.last → IsEvent e → IsStamp (tick c e).last
unfolding tick now send recv
tick-IsStamp c (local_event p) h k = ground arith
tick-IsStamp c (send_event p) h k = ground arith
tick-IsStamp c (recv_event p remote) h k = ground arith

-- After a saturated counter, calls that find no later physical time all hand out the timestamp that
-- the clock already stands at.
pub saturated_stalls :
    (c : Clock) (p : ℕ) (remote : Timestamp)
    → u16_max ≤ c.last.logical
    → p ≤ c.last.physical_us
    → remote ≼ c.last
    → ((now c p).last ≡ c.last) × ((recv c p remote).last ≡ c.last)
unfolding now recv
saturated_stalls c p remote h k r = ground arith

-- Each entry is after the one in front of it.
abbrev pub IsStrict : Timestamp → List Timestamp → Type 0
IsStrict t [] = Unit
IsStrict t (s ∷ ss) = (t ≺ s) × IsStrict s ss

-- The readings of a list of local events.
abbrev pub local_events : List ℕ → List Event
local_events [] = []
local_events (p ∷ ps) = local_event p ∷ local_events ps

now_logical : (c : Clock) (p : ℕ) → (now c p).last.logical ≤ c.last.logical + 1
unfolding now
now_logical c p = ground arith

-- As many local events as the counter has room for get timestamps that all differ and ascend, even
-- if the physical clock stands still or jumps back.
pub burst-IsStrict :
    (c : Clock) (ps : List ℕ)
    → c.last.logical + length ps ≤ u16_max
    → IsStrict c.last (stamps c (local_events ps))
unfolding stamps tick
burst-IsStrict c [] h = tt
burst-IsStrict c (p ∷ ps) h = (
  (tick_advances c (local_event p) (omega arith)).0,
  burst-IsStrict (now c p) ps (omega (arith, now_logical c p)),
)
