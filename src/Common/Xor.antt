-- ===== src/Common/Xor.antt =====
-- Exclusive or of words, which undoes itself.
use Prim.Native.Nat.{ℕ, zero, suc, ◌+◌, ◌*◌, ◌/◌, ◌%◌, ◌^◌, ◌≤◌, ◌<◌, bit_xor, differ}
use Prim.Native.Nat.{digits, bit_xor-bitwise}
use mathlib.Core.Path.{◌≡◌, refl, ◌∙◌}
use mathlib.Core.Logic.{◌⊎◌, inl, inr}
use native.Mathlib.Omega.{arith}
use native.Mathlib.Nat.{pow-suc}

abbrev xors : ℕ → ℕ → ℕ → ℕ
xors fuel a b = digits (λ b. b) differ fuel a b

-- More fuel than the first word's value changes nothing.
xors_fuel : (n m a b : ℕ) → a ≤ n → a ≤ m → xors n a b ≡ xors m a b
xors_fuel zero zero a b p q = refl
xors_fuel zero (suc m) zero b p q = refl
xors_fuel zero (suc m) (suc a) b p q = absurd (omega arith)
xors_fuel (suc n) zero zero b p q = refl
xors_fuel (suc n) zero (suc a) b p q = absurd (omega arith)
xors_fuel (suc n) (suc m) zero b p q = refl
xors_fuel (suc n) (suc m) (suc a) b p q =
    omega (arith, xors_fuel n m (suc a / 2) (b / 2) (omega arith) (omega arith))

bit_xor-left_zero : (b : ℕ) → bit_xor 0 b ≡ b
bit_xor-left_zero b = bit_xor-bitwise 0 b

bit_xor_digit : (a b : ℕ) → bit_xor a b ≡ bit_xor (a / 2) (b / 2) * 2 + differ (a % 2) (b % 2)
bit_xor_digit zero b = omega (arith, bit_xor-left_zero b, bit_xor-left_zero (b / 2))
bit_xor_digit (suc a) b = omega (
  arith,
  bit_xor-bitwise (suc a) b,
  bit_xor-bitwise (suc a / 2) (b / 2),
  xors_fuel a (suc a / 2) (suc a / 2) (b / 2) (omega arith) (omega arith),
)

bit : (a : ℕ) → (a % 2 ≡ 0) ⊎ (a % 2 ≡ 1)
bit a = omega arith

-- The lowest digit of two words.
differ_bits :
    (a b : ℕ) → (differ (a % 2) (b % 2) < 2) × (differ (differ (a % 2) (b % 2)) (b % 2) ≡ a % 2)
differ_bits a b = elim (bit a) [
  | inl x ↦ elim (bit b) [
    | inl y ↦ rw (x, y) (omega arith, refl)
    | inr y ↦ rw (x, y) (omega arith, refl)
  ]
  | inr x ↦ elim (bit b) [
    | inl y ↦ rw (x, y) (omega arith, refl)
    | inr y ↦ rw (x, y) (omega arith, refl)
  ]
]

zero_below {ℓ} : (a b : ℕ) → a < 1 → b < 1 → (P : ℕ → ℕ → Type ℓ) → P 0 0 → P a b
zero_below zero zero ha hb P h = h
zero_below zero (suc b) ha hb P h = absurd (omega arith)
zero_below (suc a) b ha hb P h = absurd (omega arith)

pub bit_xor-lt : (k a b : ℕ) → a < 2 ^ k → b < 2 ^ k → bit_xor a b < 2 ^ k
bit_xor-lt zero a b ha hb = zero_below a b ha hb (λ a b. bit_xor a b < 1) (omega arith)
bit_xor-lt (suc k) a b ha hb =
    let (low, _) = differ_bits a b in
    omega (
      arith,
      pow-suc 2 k,
      bit_xor_digit a b,
      bit_xor-lt k (a / 2) (b / 2) (omega (arith, pow-suc 2 k)) (omega (arith, pow-suc 2 k)),
    )

pub bit_xor-undo : (k a b : ℕ) → a < 2 ^ k → b < 2 ^ k → bit_xor (bit_xor a b) b ≡ a
bit_xor-undo zero a b ha hb = zero_below a b ha hb (λ a b. bit_xor (bit_xor a b) b ≡ a) refl
bit_xor-undo (suc k) a b ha hb =
    let (low, back) = differ_bits a b in
    let high : bit_xor a b / 2 ≡ bit_xor (a / 2) (b / 2) = omega (arith, bit_xor_digit a b) in
    let digit : bit_xor a b % 2 ≡ differ (a % 2) (b % 2) = omega (arith, bit_xor_digit a b) in
    let rest =
      bit_xor-undo k (a / 2) (b / 2) (omega (arith, pow-suc 2 k)) (omega (arith, pow-suc 2 k)) in
    let parts : bit_xor (bit_xor a b / 2) (b / 2) * 2 + differ (bit_xor a b % 2) (b % 2) ≡ a =
      rw (high, digit, rest, back) (omega arith) in
    bit_xor_digit (bit_xor a b) b ∙ parts

one_times : (x : ℕ) → 0 + 2 ^ 0 * x ≡ x
one_times x = omega arith

doubled : (k x : ℕ) → 2 ^ suc k * x ≡ 2 * (2 ^ k * x)
doubled k x = grind (arith, pow-suc 2 k)

-- Halving a word that is joined from two parts halves the low part.
high_part :
    (k a x : ℕ) → ((a + 2 ^ suc k * x) / 2 ≡ a / 2 + 2 ^ k * x) × ((a + 2 ^ suc k * x) % 2 ≡ a % 2)
high_part k a x = (omega (arith, doubled k x), omega (arith, doubled k x))

-- The exclusive or of words that are joined from a low part of `k` bits and a high part.
pub bit_xor-join :
    (k a b x y : ℕ)
    → a < 2 ^ k
    → b < 2 ^ k
    → bit_xor (a + 2 ^ k * x) (b + 2 ^ k * y) ≡ bit_xor a b + 2 ^ k * bit_xor x y
bit_xor-join zero a b x y ha hb =
    zero_below a b ha hb
      (λ a b. bit_xor (a + 2 ^ 0 * x) (b + 2 ^ 0 * y) ≡ bit_xor a b + 2 ^ 0 * bit_xor x y)
      (rw (one_times x, one_times y, one_times (bit_xor x y)) refl)
bit_xor-join (suc k) a b x y ha hb =
    let left = high_part k a x in
    let right = high_part k b y in
    let rest =
      bit_xor-join k (a / 2) (b / 2) x y (omega (arith, pow-suc 2 k))
        (omega (arith, pow-suc 2 k)) in
    let digit : bit_xor (a + 2 ^ suc k * x) (b + 2 ^ suc k * y)
        ≡ bit_xor (a / 2 + 2 ^ k * x) (b / 2 + 2 ^ k * y) * 2 + differ (a % 2) (b % 2) =
      bit_xor_digit (a + 2 ^ suc k * x) (b + 2 ^ suc k * y)
      ∙ rw (left.0, left.1, right.0, right.1) refl in
    omega (arith, digit, rest, bit_xor_digit a b, doubled k (bit_xor x y))
