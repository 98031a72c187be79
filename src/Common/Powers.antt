-- ===== src/Common/Powers.antt =====
-- Powers of the native numbers.
use Prim.Native.Nat.{ℕ, zero, suc, ◌+◌, ◌*◌, ◌^◌, ◌<◌}
use mathlib.Core.Path.{◌≡◌}
use native.Mathlib.Omega.{arith}
use native.Mathlib.Nat.{pow-suc, pow-zero, add-suc, mul_assoc, mul-le-mul_right}

pub pow-add : (n a b : ℕ) → n ^ (a + b) ≡ n ^ a * n ^ b
pow-add n a zero = let sum : a + 0 ≡ a = omega arith in rw (sum, pow-zero n) (omega arith)
pow-add n a (suc b) =
    rw (add-suc, pow-suc n (a + b), pow-add n a b, pow-suc n b) (mul_assoc (n ^ a) (n ^ b) n)

-- `b` groups of `2 ^ bits` above a remainder below one group.
pub groups-lt : (r b bits k : ℕ) → r < 2 ^ bits → b < 2 ^ k → r + b * 2 ^ bits < 2 ^ (bits + k)
groups-lt r b bits k hr hb = omega (arith, pow-add 2 bits k, mul-le-mul_right (2 ^ bits) hb)
