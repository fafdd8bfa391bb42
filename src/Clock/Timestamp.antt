-- ===== src/Clock/Timestamp.antt =====
-- wacp/crates/wacp-clock/src/timestamp.rs: 64 bits of physical time and a 16-bit logical counter.
use wacp_platform.Prelude.{ℕ, ◌+◌, ◌%◌, ◌^◌, ◌≤◌, ◌<◌, ◌≡◌, ◌⊎◌, arith, if◌then◌else◌, ◌==◌, nat_eq}
use Prim.Native.Nat.{compare, Ordering}

pub record Timestamp : Type 0 where
  pub physical_us : ℕ  -- u64
  pub logical : ℕ  -- u16

abbrev pub u16_max : ℕ
u16_max = 65535

abbrev pub u64_mod : ℕ
u64_mod = 2 ^ 64

-- What the widths of the fields give.
pub record IsStamp (t : Timestamp) : Type 0 where
  pub physical_bound : t.physical_us < u64_mod
  pub logical_bound : t.logical ≤ u16_max

abbrev pub zero_stamp : Timestamp
zero_stamp = record { physical_us = 0; logical = 0 }

abbrev pub stamp : ℕ → ℕ → Timestamp
stamp physical_us logical = record { physical_us = physical_us; logical = logical }

-- `Ordering::then`.
abbrev pub then_cmp : Ordering → Ordering → Ordering
then_cmp Ordering.eq o = o
then_cmp o _ = o

-- `Ord::cmp`.
unfoldable pub cmp : Timestamp → Timestamp → Ordering
cmp a b = then_cmp (compare a.physical_us b.physical_us) (compare a.logical b.logical)

infix 50 ◌≺◌
-- The strict order on timestamps.
abbrev pub ◌≺◌ : Timestamp → Timestamp → Type 0
a ≺ b =
    (a.physical_us < b.physical_us) ⊎ ((a.physical_us ≡ b.physical_us) × (a.logical < b.logical))

-- `cmp` decides the strict order.
pub cmp-lt : (a b : Timestamp) → cmp a b ≡ Ordering.lt → a ≺ b
unfolding cmp
cmp-lt a b h = ground arith

pub lt-cmp : (a b : Timestamp) → a ≺ b → cmp a b ≡ Ordering.lt
unfolding cmp
lt-cmp a b h = ground arith

-- `succ`; the addition to the 64-bit field wraps in a release build.
unfoldable pub succ : Timestamp → Timestamp
succ t =
    if t.logical == u16_max
    then stamp ((t.physical_us + 1) % u64_mod) 0
    else stamp t.physical_us (t.logical + 1)

infix 50 ◌≼◌
abbrev pub ◌≼◌ : Timestamp → Timestamp → Type 0
a ≼ b =
    (a.physical_us < b.physical_us) ⊎ ((a.physical_us ≡ b.physical_us) × (a.logical ≤ b.logical))

-- Where the physical field has room, `succ t` is again a timestamp, is above `t`, and no timestamp
-- lies between the two.
pub succ-next :
    (t u : Timestamp)
    → IsStamp t
    → IsStamp u
    → t.physical_us + 1 < u64_mod
    → IsStamp (succ t) × (t ≺ succ t) × ((u ≼ t) ⊎ (succ t ≼ u))
unfolding succ
succ-next t u ht hu h = ground arith
