-- ===== src/Prelude/Decimal.antt =====
-- The decimal notation that `format!("{}", n)` gives an unsigned integer.
use Prim.Native.String.{String, ◌++◌, count}
use Prim.Native.Nat.{ℕ, zero, suc, ◌-◌, ◌/◌, ◌%◌, ◌≤◌, ◌<◌}
use mathlib.Core.Path.{◌≡◌, refl, ap, sym, ◌∙◌}
use mathlib.Core.Logic.{inl, inr, ◌≢◌}
use native.Mathlib.Decide.{dec_lt}
use native.Mathlib.Omega.{arith}
use text.Mathlib.TextLemmas.{append_inj, append_cancel_left, length-append}
use wacp_platform.Prelude.Tests.{
  ltb, lt→ltb, le→ltb, if◌then◌else◌, ◌==◌, string_eq, nat_eq, beq_refl, Bool-cases,
}

digit : ℕ → String
digit zero = "0"
digit (suc zero) = "1"
digit (suc (suc zero)) = "2"
digit (suc (suc (suc zero))) = "3"
digit (suc (suc (suc (suc zero)))) = "4"
digit (suc (suc (suc (suc (suc zero))))) = "5"
digit (suc (suc (suc (suc (suc (suc zero)))))) = "6"
digit (suc (suc (suc (suc (suc (suc (suc zero))))))) = "7"
digit (suc (suc (suc (suc (suc (suc (suc (suc zero)))))))) = "8"
digit _ = "9"

digit_value : String → ℕ
digit_value s =
    if s == "0"
    then 0
    else if s == "1"
    then 1
    else if s == "2"
    then 2
    else if s == "3"
    then 3
    else if s == "4"
    then 4
    else if s == "5"
    then 5
    else if s == "6"
    then 6
    else if s == "7"
    then 7
    else if s == "8"
    then 8
    else 9

value-digit : (d : ℕ) → d < 10 → digit_value (digit d) ≡ d
unfolding digit digit_value
value-digit zero h = refl
value-digit (suc zero) h = refl
value-digit (suc (suc zero)) h = refl
value-digit (suc (suc (suc zero))) h = refl
value-digit (suc (suc (suc (suc zero)))) h = refl
value-digit (suc (suc (suc (suc (suc zero))))) h = refl
value-digit (suc (suc (suc (suc (suc (suc zero)))))) h = refl
value-digit (suc (suc (suc (suc (suc (suc (suc zero))))))) h = refl
value-digit (suc (suc (suc (suc (suc (suc (suc (suc zero)))))))) h = refl
value-digit (suc (suc (suc (suc (suc (suc (suc (suc (suc zero))))))))) h = refl
value-digit (suc (suc (suc (suc (suc (suc (suc (suc (suc (suc n)))))))))) h = absurd (omega arith)

count-digit : (d : ℕ) → count (digit d) ≡ 1
unfolding digit
count-digit zero = refl
count-digit (suc zero) = refl
count-digit (suc (suc zero)) = refl
count-digit (suc (suc (suc zero))) = refl
count-digit (suc (suc (suc (suc zero)))) = refl
count-digit (suc (suc (suc (suc (suc zero))))) = refl
count-digit (suc (suc (suc (suc (suc (suc zero)))))) = refl
count-digit (suc (suc (suc (suc (suc (suc (suc zero))))))) = refl
count-digit (suc (suc (suc (suc (suc (suc (suc (suc zero)))))))) = refl
count-digit (suc (suc (suc (suc (suc (suc (suc (suc (suc n))))))))) = refl

digit-injective : (a b : ℕ) → a < 10 → b < 10 → digit a ≡ digit b → a ≡ b
digit-injective a b ha hb e = sym (value-digit a ha) ∙ (ap digit_value e ∙ value-digit b hb)

-- The digits of a number, most significant first; the fuel bounds their number.
show_digits : ℕ → ℕ → String
show_digits zero n = digit n
show_digits (suc fuel) n =
    let front = show_digits fuel (n / 10) in if ltb n 10 then digit n else front ++ digit (n % 10)

unfoldable pub show : ℕ → String
unfolding show_digits digit
show n = show_digits n n

count-show_digits : (fuel n : ℕ) → 1 ≤ count (show_digits fuel n)
unfolding show_digits
count-show_digits zero n = omega (arith, count-digit n)
count-show_digits (suc fuel) n = elim (Bool-cases (ltb n 10)) [
  | inl e ↦ rw e (omega (arith, count-digit n))
  | inr e ↦ rw e (
      omega
        (arith, length-append (show_digits fuel (n / 10)) (digit (n % 10)), count-digit (n % 10)))
]

ends_inj : (s t : String) (a b : ℕ) → s ++ digit a ≡ t ++ digit b → (s ≡ t) × (digit a ≡ digit b)
ends_inj s t a b e = append_inj e (
    omega (
      arith,
      length-append s (digit a),
      length-append t (digit b),
      ap count e,
      count-digit a,
      count-digit b,
    ))

show_small : (f n : ℕ) → n < 10 → show_digits f n ≡ digit n
unfolding show_digits
show_small zero n h = refl
show_small (suc f) n h = rw (lt→ltb n 10 h)

show_large :
    (f n : ℕ) → 10 ≤ n → n ≤ f → show_digits f n ≡ show_digits (f - 1) (n / 10) ++ digit (n % 10)
unfolding show_digits
show_large zero n h k = absurd (omega arith)
show_large (suc f) n h k = let e : suc f - 1 ≡ f = omega arith in rw (e, le→ltb n 10 h)

small_not_large : (f k n m : ℕ) → n < 10 → 10 ≤ m → m ≤ k → show_digits f n ≢ show_digits k m
small_not_large f k n m hn hm hk e = omega (
  arith,
  ap count (show_small f n hn),
  ap count (show_large k m hm hk),
  ap count e,
  count-digit n,
  count-digit (m % 10),
  count-show_digits (k - 1) (m / 10),
  length-append (show_digits (k - 1) (m / 10)) (digit (m % 10)),
)

-- With enough fuel for both, two numbers below `b` with one notation are equal.
show_digits-injective :
    (b f k n m : ℕ) → n < b → n ≤ f → m ≤ k → show_digits f n ≡ show_digits k m → n ≡ m
show_digits-injective zero f k n m hb hn hm e = absurd (omega arith)
show_digits-injective (suc b) f k n m hb hn hm e = elim (dec_lt n 10) [
  | yes p ↦ elim (dec_lt m 10) [
    | yes q ↦ digit-injective n m p q (sym (show_small f n p) ∙ (e ∙ show_small k m q))
    | no q ↦ absurd (small_not_large f k n m p (omega arith) hm e)
  ]
  | no p ↦ elim (dec_lt m 10) [
    | yes q ↦ absurd (small_not_large k f m n q (omega arith) hn (sym e))
    | no q ↦
        let parts =
          ends_inj (show_digits (f - 1) (n / 10)) (show_digits (k - 1) (m / 10)) (n % 10) (m % 10)
            (sym (show_large f n (omega arith) hn) ∙ (e ∙ show_large k m (omega arith) hm)) in
        let high =
          show_digits-injective b (f - 1) (k - 1) (n / 10) (m / 10) (omega arith) (omega arith)
            (omega arith) parts.0 in
        omega (arith, digit-injective (n % 10) (m % 10) (omega arith) (omega arith) parts.1)
  ]
]

pub show-injective : (n m : ℕ) → show n ≡ show m → n ≡ m
unfolding show
show-injective n m e =
    show_digits-injective (suc n) n m n m (omega arith) (omega arith) (omega arith) e

show_many : show 1024 ≡ "1024"
unfolding show
show_many = refl

-- `format!("prefix{}", n)`.
unfoldable pub numbered : String → ℕ → String
unfolding show
numbered prefix n = prefix ++ show n

pub numbered-injective : (prefix : String) (n m : ℕ) → numbered prefix n ≡ numbered prefix m → n ≡ m
unfolding numbered
numbered-injective prefix n m e = show-injective n m (append_cancel_left prefix (show n) (show m) e)

-- So the Boolean test on such names is the test on the numbers.
pub numbered_eq : (prefix : String) (n m : ℕ) → (numbered prefix n == numbered prefix m) ≡ (n == m)
numbered_eq prefix n m = elim (Bool-cases (n == m)) [
  | inl e ↦
      let q : n ≡ m = (nat_eq.beq_iff n m).0 e in rw (q, beq_refl m, beq_refl (numbered prefix m))
  | inr e ↦ ground (
    arith,
    string_eq.beq_iff (numbered prefix n) (numbered prefix m),
    numbered-injective prefix n m,
  )
]
