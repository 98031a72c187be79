-- ===== src/Common/Reversal.antt =====
-- Reversed lists of numbers.
use Prim.Native.Nat.{ℕ, zero, suc}
use mathlib.Core.Path.{◌≡◌, refl, ap}
use mathlib.Core.List.{List, [], ◌∷◌, ◌++◌, reverse, reverse-cons}
use native.Mathlib.Omega.{arith}
use monero_oxide.Common.Lists.{length, length-append, replicate, All, All-append}
use monero_oxide.Common.Bytes.{from_le_bytes}

pub length-reverse {ℓ} : {A : Type ℓ} (xs : List A) → length (reverse xs) ≡ length xs
length-reverse [] = refl
length-reverse (x ∷ xs) =
    rw (reverse-cons x xs) (omega (arith, length-append (reverse xs) (x ∷ []), length-reverse xs))

pub All-reverse {ℓ κ} : {A : Type ℓ} (P : A → Type κ) (xs : List A) → All P xs → All P (reverse xs)
All-reverse P [] h = tt
All-reverse P (x ∷ xs) (hx, h) =
    rw (reverse-cons x xs) (All-append P (reverse xs) (x ∷ []) (All-reverse P xs h) (hx, tt))

replicate-snoc : (n a : ℕ) → replicate n a ++ (a ∷ []) ≡ a ∷ replicate n a
replicate-snoc zero a = refl
replicate-snoc (suc n) a = ap (λ t. a ∷ t) (replicate-snoc n a)

pub reverse-replicate : (n a : ℕ) → reverse (replicate n a) ≡ replicate n a
reverse-replicate zero a = refl
reverse-replicate (suc n) a =
    rw (reverse-cons a (replicate n a), reverse-replicate n a) (replicate-snoc n a)

zeros_value : (n : ℕ) → from_le_bytes (replicate n 0) ≡ 0
unfolding from_le_bytes
zeros_value zero = refl
zeros_value (suc n) = omega (arith, zeros_value n)

-- Zeros above the highest byte do not matter.
pub from_le_bytes-zeros :
    (bytes : List ℕ) (n : ℕ) → from_le_bytes (bytes ++ replicate n 0) ≡ from_le_bytes bytes
unfolding from_le_bytes
from_le_bytes-zeros [] n = zeros_value n
from_le_bytes-zeros (b ∷ bytes) n = omega (arith, from_le_bytes-zeros bytes n)
