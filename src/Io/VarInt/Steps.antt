-- ===== src/Io/VarInt/Steps.antt =====
-- The loops of varint.rs a byte at a time.
use mathlib.Core.Logic.{dif_pos, dif_neg}
use mathlib.Core.WellFounded.{Acc, Acc-prop}
use native.Mathlib.Bridge.{le_prop}
use native.Mathlib.Nat.{pow-le-pow_right, div-add-mod}
use native.Mathlib.Numerals.{towards_suc}
use monero_oxide.Common.{
  ℕ, ◌+◌, ◌-◌, ◌*◌, ◌/◌, ◌%◌, ◌^◌, ◌≤◌, ◌<◌, ◌≡◌, ap, List, [], ◌∷◌, arith, dec_lt, ok, lt→ltb,
}
use monero_oxide.Common.Order.{lt_wf}
use monero_oxide.Common.Bits.{bit_and-127, bit_and-0x7f_byte, bit_and-0x80_byte, bit_or-0x80_low}
use monero_oxide.Io.VarInt.{write_loop, write, read_loop, try_into, add_group}

-- The bytes do not depend on how the loop is known to end.
write_loop_irrelevant : (v : ℕ) (w w' : Acc ◌<◌ v) → write_loop v w ≡ write_loop v w'
write_loop_irrelevant v w w' = ap (write_loop v) (Acc-prop w w')

write_loop_last : (v : ℕ) (w : Acc ◌<◌ v) → v < 128 → write_loop v w ≡ v ∷ []
unfolding write_loop
write_loop_last v (Acc.intro _ s) h =
    let last : ¬ (0 < v / 128) = omega arith in
    rw (dif_neg _ last, bit_and-127 v) (ap (λ (t : ℕ). t ∷ []) (omega arith))

write_loop_more :
    (v : ℕ) (w : Acc ◌<◌ v) (w' : Acc ◌<◌ (v / 128))
    → 128 ≤ v
    → write_loop v w ≡ (v % 128 + 128) ∷ write_loop (v / 128) w'
unfolding write_loop
write_loop_more v (Acc.intro _ s) w' h =
    let more : 0 < v / 128 = omega arith in
    rw (dif_pos _ le_prop more, bit_and-127 v, bit_or-0x80_low (v % 128) (omega arith))
      (ap (λ (t : List ℕ). (v % 128 + 128) ∷ t) (write_loop_irrelevant (v / 128) (s _ _) w'))

pub write_last : (v : ℕ) → v < 128 → write v ≡ v ∷ []
unfolding write
write_last v h = write_loop_last v (lt_wf.apply v) h

pub write_more : (v : ℕ) → 128 ≤ v → write v ≡ (v % 128 + 128) ∷ write (v / 128)
unfolding write
write_more v h = write_loop_more v (lt_wf.apply v) (lt_wf.apply (v / 128)) h

-- A group is added with no wrap while the sum is a u64.
pub add_group_byte :
    (res b bits : ℕ)
    → b < 256
    → res + b % 128 * 2 ^ bits < 2 ^ 64
    → add_group res b bits ≡ res + b % 128 * 2 ^ bits
add_group_byte res b bits hb h = rw (bit_and-0x7f_byte b hb) (omega arith)

-- A byte that passes both tests of the loop, without and with the continuation flag.
module _ (u_bits bits k : ℕ) (width : u_bits ≡ bits + k) (res b : ℕ) (src : List ℕ) where
  pub read_loop_last :
      (0 < bits → 0 < b)
      → b < 128
      → b < 2 ^ k
      → read_loop u_bits bits res (b ∷ src) ≡ try_into u_bits (add_group res b bits) src
  unfolding read_loop
  read_loop_last nonzero low fits =
      let left : u_bits - bits ≡ k = omega arith in rw left (ground (arith, bit_and-0x80_byte b))

  pub read_loop_more :
      128 ≤ b
      → b < 256
      → (k ≤ 7 → b < 2 ^ k)
      → read_loop u_bits bits res (b ∷ src) ≡ read_loop u_bits (bits + 7) (add_group res b bits) src
  unfolding read_loop
  read_loop_more high byte fits =
      let left : u_bits - bits ≡ k = omega arith in rw left (ground (arith, bit_and-0x80_byte b))

pub try_into_fits :
    (u_bits res : ℕ) (src : List ℕ) → res < 2 ^ u_bits → try_into u_bits res src ≡ ok (res, src)
unfolding try_into
try_into_fits u_bits res src h = rw (lt→ltb _ _ h)

pub pow-add_seven : (k : ℕ) → 2 ^ (k + 7) ≡ 128 * 2 ^ k
pow-add_seven k = simp towards_suc (omega (arith))

pub pow-le_128 : (k : ℕ) → k ≤ 7 → 2 ^ k ≤ 128
pow-le_128 k h = pow-le-pow_right (omega arith) h

-- The lowest group of `v` and the rest of it, both counted from bit `bits` on.
pub split_group : (v bits : ℕ) → v * 2 ^ bits ≡ v % 128 * 2 ^ bits + v / 128 * 2 ^ (bits + 7)
split_group v bits = omega (
  arith,
  ap (λ (t : ℕ). t * 2 ^ bits) (div-add-mod v 128),
  ap (λ (t : ℕ). v / 128 * t) (pow-add_seven bits),
)

-- Only a type with more than seven bits left holds a value of two groups.
pub wide_enough : (k v : ℕ) → 128 ≤ v → (k ≤ 7 → v < 2 ^ k) → 7 < k
wide_enough k v h small = elim (dec_lt 7 k) [
  | yes p ↦ p
  | no q ↦ absurd (omega (arith, pow-le_128 k (omega arith), small (omega arith)))
]
