-- ===== src/Clock/Bytes.antt =====
-- The 10-byte big-endian encoding of a timestamp (wacp/crates/wacp-clock/src/timestamp.rs).
use Prim.Native.Nat.{compare, Ordering}
use native.Mathlib.Nat.{pow-suc}
use wacp_platform.Prelude.{
  ℕ, zero, suc, ◌+◌, ◌*◌, ◌/◌, ◌%◌, ◌^◌, ◌<◌, List, [], ◌∷◌, ◌++◌, ◌≡◌, refl, arith, ◌∙◌, sym,
  length, length-append, take, drop, take-append, drop-append,
}
use wacp_platform.Clock.Timestamp.{Timestamp, IsStamp, stamp, then_cmp, cmp}

-- `to_be_bytes` of a word of `w` bytes.
unfoldable pub be_bytes : ℕ → ℕ → List ℕ
be_bytes zero n = []
be_bytes (suc w) n = be_bytes w (n / 256) ++ (n % 256) ∷ []

-- `from_be_bytes`, with what the bytes before gave.
unfoldable pub from_be : ℕ → List ℕ → ℕ
from_be acc [] = acc
from_be acc (b ∷ bs) = from_be (acc * 256 + b) bs

unfoldable pub to_bytes : Timestamp → List ℕ
to_bytes t = be_bytes 8 t.physical_us ++ be_bytes 2 t.logical

unfoldable pub from_bytes : List ℕ → Timestamp
from_bytes bytes = stamp (from_be 0 (take 8 bytes)) (from_be 0 (drop 8 bytes))

-- The lexicographic order on byte strings.
unfoldable pub lex : List ℕ → List ℕ → Ordering
lex [] [] = Ordering.eq
lex [] (b ∷ bs) = Ordering.lt
lex (a ∷ as') [] = Ordering.gt
lex (a ∷ as') (b ∷ bs) = then_cmp (compare a b) (lex as' bs)

length-be_bytes : (w n : ℕ) → length (be_bytes w n) ≡ w
unfolding be_bytes
length-be_bytes zero n = refl
length-be_bytes (suc w) n =
    omega
      (arith, length-append (be_bytes w (n / 256)) ((n % 256) ∷ []), length-be_bytes w (n / 256))

from_be-append : (acc b : ℕ) (bs : List ℕ) → from_be acc (bs ++ b ∷ []) ≡ from_be acc bs * 256 + b
unfolding from_be
from_be-append acc b [] = refl
from_be-append acc b (c ∷ bs) = from_be-append (acc * 256 + c) b bs

from_be-be_bytes : (w n : ℕ) → n < 256 ^ w → from_be 0 (be_bytes w n) ≡ n
unfolding from_be be_bytes
from_be-be_bytes zero n h = omega arith
from_be-be_bytes (suc w) n h = omega (
  arith,
  from_be-append 0 (n % 256) (be_bytes w (n / 256)),
  from_be-be_bytes w (n / 256) (omega (arith, pow-suc 256 w)),
)

-- Decoding what was encoded gives the timestamp back.
pub from_bytes-to_bytes : (t : Timestamp) → IsStamp t → from_bytes (to_bytes t) ≡ t
unfolding from_bytes to_bytes
from_bytes-to_bytes t h = rw (
  take-append (be_bytes 8 t.physical_us) (be_bytes 2 t.logical) 8 (length-be_bytes 8 t.physical_us),
  drop-append (be_bytes 8 t.physical_us) (be_bytes 2 t.logical) 8 (length-be_bytes 8 t.physical_us),
  from_be-be_bytes 8 t.physical_us (omega arith),
  from_be-be_bytes 2 t.logical (omega arith),
)

then_assoc : (a b c : Ordering) → then_cmp (then_cmp a b) c ≡ then_cmp a (then_cmp b c)
then_assoc Ordering.lt b c = refl
then_assoc _ b c = refl

-- On prefixes of one length the order is that of the prefixes, then that of the rests.
lex-append :
    (xs ys us vs : List ℕ)
    → length xs ≡ length ys
    → lex (xs ++ us) (ys ++ vs) ≡ then_cmp (lex xs ys) (lex us vs)
unfolding lex
lex-append [] [] us vs h = refl
lex-append [] (y ∷ ys) us vs h = absurd (omega arith)
lex-append (x ∷ xs) [] us vs h = absurd (omega arith)
lex-append (x ∷ xs) (y ∷ ys) us vs h =
    cc (lex-append xs ys us vs (omega arith), then_assoc (compare x y) (lex xs ys) (lex us vs))

then-eq : (o : Ordering) → then_cmp o Ordering.eq ≡ o
then-eq Ordering.eq = refl
then-eq _ = refl

compare-digits :
    (n m : ℕ) → then_cmp (compare (n / 256) (m / 256)) (compare (n % 256) (m % 256)) ≡ compare n m
compare-digits n m = ground arith

lex-be_bytes :
    (w n m : ℕ) → n < 256 ^ w → m < 256 ^ w → lex (be_bytes w n) (be_bytes w m) ≡ compare n m
unfolding be_bytes lex
lex-be_bytes zero n m hn hm = ground arith
lex-be_bytes (suc w) n m hn hm =
    lex-append (be_bytes w (n / 256)) (be_bytes w (m / 256)) _ _
      (length-be_bytes w (n / 256) ∙ sym (length-be_bytes w (m / 256)))
    ∙ cc (
      lex-be_bytes w (n / 256) (m / 256) (omega (arith, pow-suc 256 w))
          (omega (arith, pow-suc 256 w)),
      then-eq (compare (n % 256) (m % 256)),
      compare-digits n m,
    )

-- Byte strings of encoded timestamps are in lexicographic order exactly as the timestamps are in time.
pub lex-to_bytes :
    (a b : Timestamp) → IsStamp a → IsStamp b → lex (to_bytes a) (to_bytes b) ≡ cmp a b
unfolding to_bytes cmp
lex-to_bytes a b ha hb =
    lex-append (be_bytes 8 a.physical_us) (be_bytes 8 b.physical_us) _ _
      (length-be_bytes 8 a.physical_us ∙ sym (length-be_bytes 8 b.physical_us))
    ∙ cc (
      lex-be_bytes 8 a.physical_us b.physical_us (omega arith) (omega arith),
      lex-be_bytes 2 a.logical b.logical (omega arith) (omega arith),
    )
