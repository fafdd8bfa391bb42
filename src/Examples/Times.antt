-- ===== src/Examples/Times.antt =====
-- The clock at concrete timestamps.
use wacp_platform.Prelude.{List, [], ◌∷◌, ◌≡◌, refl, arith}
use wacp_platform.Clock.Timestamp.{stamp, IsStamp, succ, cmp, ◌≺◌}
use wacp_platform.Clock.Bytes.{to_bytes, from_bytes, lex, from_bytes-to_bytes, lex-to_bytes}
use wacp_platform.Clock.Hlc.{
  Clock, Event, local_event, send_event, recv_event, tick, now, send, recv, with_initial,
}
use wacp_platform.Clock.Order.{stamps, tick_advances}

full_IsStamp : IsStamp (stamp 1000 65535)
full_IsStamp = record { physical_bound = omega arith; logical_bound = omega arith }

low_IsStamp : IsStamp (stamp 1000 258)
low_IsStamp = record { physical_bound = omega arith; logical_bound = omega arith }

succ_wraps : succ (stamp 1000 65535) ≡ stamp 1001 0
unfolding succ
succ_wraps = refl

from_bytes-to_bytes_example : from_bytes (to_bytes (stamp 1000 258)) ≡ stamp 1000 258
from_bytes-to_bytes_example = from_bytes-to_bytes (stamp 1000 258) low_IsStamp

lex-to_bytes_example :
    lex (to_bytes (stamp 1000 258)) (to_bytes (stamp 1000 65535))
    ≡ cmp (stamp 1000 258) (stamp 1000 65535)
lex-to_bytes_example = lex-to_bytes (stamp 1000 258) (stamp 1000 65535) low_IsStamp full_IsStamp

abbrev clock : Clock
clock = with_initial (stamp 1000 7)

-- The physical clock jumps back, and a message comes from the future.
abbrev events : List Event
events = local_event 900 ∷ recv_event 1001 (stamp 5000 3) ∷ send_event 1002 ∷ []

events-stamps : stamps clock events ≡ stamp 1000 8 ∷ stamp 5000 4 ∷ stamp 5000 5 ∷ []
unfolding stamps tick now send recv
events-stamps = refl

tick_advances_example :
    (stamp 1000 7 ≺ (tick clock (recv_event 1001 (stamp 5000 3))).last)
    × (stamp 5000 3 ≺ (tick clock (recv_event 1001 (stamp 5000 3))).last)
tick_advances_example =
    tick_advances clock (recv_event 1001 (stamp 5000 3)) (omega arith, omega arith)
