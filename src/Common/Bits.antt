-- ===== src/Common/Bits.antt =====
-- Masks as arithmetic: on a byte by a table that is checked by evaluation, on a word of any
-- width from the recursion on digits that the native operation stands for.
use Prim.Native.Nat.{ℕ, zero, suc, ◌+◌, ◌*◌, ◌/◌, ◌%◌, ◌≤◌, ◌<◌, min, bit_and, bit_or}
use Prim.Native.Nat.{digits, bit_and-bitwise}
use mathlib.Core.Path.{◌≡◌, refl, subst}
use mathlib.Core.Bool.{Bool, true, false}
use mathlib.Core.Logic.{ite}
use native.Mathlib.Decide.{ℕ_discrete}
use native.Mathlib.Omega.{arith}

module _ (f g : ℕ → ℕ) where
  agree_below : ℕ → Bool
  unfolding ℕ_discrete
  agree_below zero = true
  agree_below (suc n) = ite (ℕ_discrete (f n) (g n)) (agree_below n) false

  agree_below→eq : (n : ℕ) → agree_below n ≡ true → (i : ℕ) → i < n → f i ≡ g i
  unfolding agree_below
  agree_below→eq zero e i h = absurd (omega arith)
  agree_below→eq (suc n) e i h = ground (arith, agree_below→eq n (ground arith) i)

pub bit_and-0x7f_byte : (b : ℕ) → b < 256 → bit_and b 0x7f ≡ b % 128
unfolding agree_below
bit_and-0x7f_byte = agree_below→eq _ _ 256 refl

pub bit_and-0x80_byte : (b : ℕ) → b < 256 → bit_and b 0x80 ≡ b / 128 * 128
unfolding agree_below
bit_and-0x80_byte = agree_below→eq _ _ 256 refl

pub bit_or-0x80_low : (b : ℕ) → b < 128 → bit_or b 0x80 ≡ b + 128
unfolding agree_below
bit_or-0x80_low = agree_below→eq _ _ 128 refl

pub bit_and-15_byte : (b : ℕ) → b < 256 → bit_and b 0b1111 ≡ b % 16
unfolding agree_below
bit_and-15_byte = agree_below→eq _ _ 256 refl

pub bit_and-240_byte : (b : ℕ) → b < 256 → bit_and b 0b1111_0000 ≡ b / 16 * 16
unfolding agree_below
bit_and-240_byte = agree_below→eq _ _ 256 refl

-- Sixteen words of four bits, each below every multiple of 16 in a byte.
bit_or_low_table : (i : ℕ) → i < 256 → bit_or (i / 16 * 16) (i % 16) ≡ i / 16 * 16 + i % 16
unfolding agree_below
bit_or_low_table = agree_below→eq _ _ 256 refl

pub bit_or_low : (b k : ℕ) → b < 256 → k < 16 → bit_or (b / 16 * 16) k ≡ b / 16 * 16 + k
bit_or_low b k hb hk =
    let high : (b / 16 * 16 + k) / 16 ≡ b / 16 = omega arith in
    let low : (b / 16 * 16 + k) % 16 ≡ k = omega arith in
    let joined = bit_or_low_table (b / 16 * 16 + k) (omega arith) in
    subst (λ t. bit_or (t * 16) k ≡ t * 16 + k) high
      (subst (λ t. bit_or ((b / 16 * 16 + k) / 16 * 16) t ≡ (b / 16 * 16 + k) / 16 * 16 + t) low
        joined)

pub bit_and-3_byte : (b : ℕ) → b < 256 → bit_and b 3 ≡ b % 4
unfolding agree_below
bit_and-3_byte = agree_below→eq _ _ 256 refl

abbrev ands : ℕ → ℕ → ℕ → ℕ
ands fuel a b = digits (λ b. zero) min fuel a b

-- More fuel than the first word's value changes nothing.
ands_fuel : (n m a b : ℕ) → a ≤ n → a ≤ m → ands n a b ≡ ands m a b
ands_fuel zero zero a b p q = refl
ands_fuel zero (suc m) zero b p q = refl
ands_fuel zero (suc m) (suc a) b p q = absurd (omega arith)
ands_fuel (suc n) zero zero b p q = refl
ands_fuel (suc n) zero (suc a) b p q = absurd (omega arith)
ands_fuel (suc n) (suc m) zero b p q = refl
ands_fuel (suc n) (suc m) (suc a) b p q =
    omega (arith, ands_fuel n m (suc a / 2) (b / 2) (omega arith) (omega arith))

bit_and-left_zero : (b : ℕ) → bit_and 0 b ≡ 0
bit_and-left_zero b = bit_and-bitwise 0 b

bit_and_digit : (a b : ℕ) → bit_and a b ≡ bit_and (a / 2) (b / 2) * 2 + min (a % 2) (b % 2)
bit_and_digit zero b = omega (arith, bit_and-left_zero b, bit_and-left_zero (b / 2))
bit_and_digit (suc a) b = omega (
  arith,
  bit_and-bitwise (suc a) b,
  bit_and-bitwise (suc a / 2) (b / 2),
  ands_fuel a (suc a / 2) (suc a / 2) (b / 2) (omega arith) (omega arith),
)

bit_and-right_zero_below : (n a : ℕ) → a ≤ n → bit_and a 0 ≡ 0
bit_and-right_zero_below n zero h = refl
bit_and-right_zero_below zero (suc a) h = absurd (omega arith)
bit_and-right_zero_below (suc n) (suc a) h =
    omega (arith, bit_and_digit (suc a) 0, bit_and-right_zero_below n (suc a / 2) (omega arith))

pub bit_and-1 : (a : ℕ) → bit_and a 1 ≡ a % 2
bit_and-1 a =
    omega (arith, bit_and_digit a 1, bit_and-right_zero_below (a / 2) (a / 2) (omega arith))

pub bit_and-7 : (a : ℕ) → bit_and a 7 ≡ a % 8
bit_and-7 a = omega (arith, bit_and_digit a 7, bit_and_digit (a / 2) 3, bit_and-1 (a / 2 / 2))

pub bit_and-63 : (a : ℕ) → bit_and a 63 ≡ a % 64
bit_and-63 a = omega (
  arith,
  bit_and_digit a 63,
  bit_and_digit (a / 2) 31,
  bit_and_digit (a / 2 / 2) 15,
  bit_and-7 (a / 2 / 2 / 2),
)

pub bit_and-127 : (a : ℕ) → bit_and a 127 ≡ a % 128
bit_and-127 a = omega (arith, bit_and_digit a 127, bit_and-63 (a / 2))
