-- ===== src/Common/Bytes.antt =====
-- Bytes, and the integers that Rust's `to_le_bytes` and `from_le_bytes` convert.
use Prim.Native.Nat.{ℕ, zero, suc, ◌+◌, ◌*◌, ◌/◌, ◌%◌, ◌^◌, ◌<◌}
use mathlib.Core.Path.{◌≡◌, refl}
use mathlib.Core.List.{List, [], ◌∷◌}
use native.Mathlib.Omega.{arith}
use native.Mathlib.Nat.{pow-suc}
use monero_oxide.Common.Lists.{length, All}

abbrev pub IsByte : ℕ → Type 0
IsByte b = b < 256

abbrev pub IsBytes : List ℕ → Type 0
IsBytes = All IsByte

-- `v.to_le_bytes()` of an integer of `n` bytes.
unfoldable pub to_le_bytes : ℕ → ℕ → List ℕ
to_le_bytes zero v = []
to_le_bytes (suc n) v = (v % 256) ∷ to_le_bytes n (v / 256)

unfoldable pub from_le_bytes : List ℕ → ℕ
from_le_bytes [] = 0
from_le_bytes (b ∷ bs) = b + 256 * from_le_bytes bs

pub length-to_le_bytes : (n v : ℕ) → length (to_le_bytes n v) ≡ n
unfolding to_le_bytes
length-to_le_bytes zero v = refl
length-to_le_bytes (suc n) v = omega (arith, length-to_le_bytes n (v / 256))

pub to_le_bytes-IsBytes : (n v : ℕ) → IsBytes (to_le_bytes n v)
unfolding to_le_bytes
to_le_bytes-IsBytes zero v = tt
to_le_bytes-IsBytes (suc n) v = (omega arith, to_le_bytes-IsBytes n (v / 256))

pub from_le_bytes-to_le_bytes : (n v : ℕ) → v < 256 ^ n → from_le_bytes (to_le_bytes n v) ≡ v
unfolding from_le_bytes to_le_bytes
from_le_bytes-to_le_bytes zero v h = omega arith
from_le_bytes-to_le_bytes (suc n) v h =
    omega (arith, from_le_bytes-to_le_bytes n (v / 256) (omega (arith, pow-suc 256 n)))

pub from_le_bytes-lt : (bs : List ℕ) → IsBytes bs → from_le_bytes bs < 256 ^ length bs
unfolding from_le_bytes
from_le_bytes-lt [] h = omega arith
from_le_bytes-lt (b ∷ bs) (hb, h) = omega (arith, from_le_bytes-lt bs h, pow-suc 256 (length bs))

pub to_le_bytes-from_le_bytes :
    (bs : List ℕ) → IsBytes bs → to_le_bytes (length bs) (from_le_bytes bs) ≡ bs
unfolding from_le_bytes to_le_bytes
to_le_bytes-from_le_bytes [] h = refl
to_le_bytes-from_le_bytes (b ∷ bs) (hb, h) =
    let low : (b + 256 * from_le_bytes bs) % 256 ≡ b = omega arith in
    let high : (b + 256 * from_le_bytes bs) / 256 ≡ from_le_bytes bs = omega arith in
    rw (low, high, to_le_bytes-from_le_bytes bs h)
