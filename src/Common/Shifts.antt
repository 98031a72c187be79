-- ===== src/Common/Shifts.antt =====
-- A word joined with another that is shifted above all its bits.
use Prim.Native.Nat.{ℕ, zero, suc, ◌+◌, ◌*◌, ◌/◌, ◌%◌, ◌^◌, ◌≤◌, ◌<◌, max, bit_or}
use Prim.Native.Nat.{digits, bit_or-bitwise}
use mathlib.Core.Path.{◌≡◌, refl, sym}
use native.Mathlib.Omega.{arith}
use native.Mathlib.Nat.{pow-suc, mul_assoc}

abbrev ors : ℕ → ℕ → ℕ → ℕ
ors fuel a b = digits (λ b. b) max fuel a b

-- More fuel than the first word's value changes nothing.
ors_fuel : (n m a b : ℕ) → a ≤ n → a ≤ m → ors n a b ≡ ors m a b
ors_fuel zero zero a b p q = refl
ors_fuel zero (suc m) zero b p q = refl
ors_fuel zero (suc m) (suc a) b p q = absurd (omega arith)
ors_fuel (suc n) zero zero b p q = refl
ors_fuel (suc n) zero (suc a) b p q = absurd (omega arith)
ors_fuel (suc n) (suc m) zero b p q = refl
ors_fuel (suc n) (suc m) (suc a) b p q =
    omega (arith, ors_fuel n m (suc a / 2) (b / 2) (omega arith) (omega arith))

bit_or-left_zero : (b : ℕ) → bit_or 0 b ≡ b
bit_or-left_zero b = bit_or-bitwise 0 b

bit_or_digit : (a b : ℕ) → bit_or a b ≡ bit_or (a / 2) (b / 2) * 2 + max (a % 2) (b % 2)
bit_or_digit zero b = omega (arith, bit_or-left_zero b, bit_or-left_zero (b / 2))
bit_or_digit (suc a) b = omega (
  arith,
  bit_or-bitwise (suc a) b,
  bit_or-bitwise (suc a / 2) (b / 2),
  ors_fuel a (suc a / 2) (suc a / 2) (b / 2) (omega arith) (omega arith),
)

pub bit_or_above : (k a b : ℕ) → a < 2 ^ k → bit_or a (b * 2 ^ k) ≡ a + b * 2 ^ k
bit_or_above zero zero b h = omega (arith, bit_or-left_zero (b * 2 ^ 0))
bit_or_above zero (suc a) b h = absurd (omega arith)
bit_or_above (suc k) a b h =
    let even : b * 2 ^ suc k ≡ b * 2 ^ k * 2 = rw (pow-suc 2 k) (sym (mul_assoc b (2 ^ k) 2)) in
    let half : b * 2 ^ k * 2 / 2 ≡ b * 2 ^ k = omega arith in
    let low : a / 2 < 2 ^ k = omega (arith, pow-suc 2 k) in
    rw (even, bit_or_digit a (b * 2 ^ k * 2), half, bit_or_above k (a / 2) b low) (omega arith)
