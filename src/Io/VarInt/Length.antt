-- ===== src/Io/VarInt/Length.antt =====
-- monero-oxide/io/src/varint.rs: the length of an encoding.
use mathlib.Core.WellFounded.{Acc}
use native.Mathlib.Nat.{lt-div-mul-add, div-eq_of_lt, pow-le-pow_right}
use monero_oxide.Common.{
  ℕ, zero, suc, ◌+◌, ◌-◌, ◌*◌, ◌/◌, ◌^◌, ◌<◌, ◌≤◌, ◌==◌, ◌≡◌, refl, ap, subst, ◌∙◌, ==→eq, arith,
  Bool-cases, inl, inr, false, dec_lt, length,
}
use monero_oxide.Common.Order.{lt_wf}
use monero_oxide.Common.Powers.{pow-add}
use monero_oxide.Io.VarInt.{leading_zeros, varint_len, upper_bound, lower_bound, write}
use monero_oxide.Io.VarInt.Steps.{write_last, write_more}

pub pow-pos : (n : ℕ) → 0 < 2 ^ n
pow-pos zero = omega arith
pow-pos (suc n) = omega (arith, pow-pos n)

none_below : {q : ℕ} → (q == 0) ≡ false → q ≡ 0 → ⊥
none_below h e = ground arith

-- The highest bit that is set.
pub leading_zeros_lem :
    (width v : ℕ)
    → 0 < v
    → v < 2 ^ width
    → (j : ℕ) × (width - leading_zeros width v ≡ suc j) × (2 ^ j ≤ v) × (v < 2 ^ suc j)
unfolding leading_zeros
leading_zeros_lem zero v hv h = absurd (omega (arith, hv, h))
leading_zeros_lem (suc width) v hv h = elim (Bool-cases (v / 2 ^ width == 0)) [
  | inl none_set ↦
      let below : v < 2 ^ width = omega (
        arith,
        subst (λ q. v < q * 2 ^ width + 2 ^ width) (==→eq (v / 2 ^ width) 0 none_set)
            (lt-div-mul-add (pow-pos width)),
      ) in
      let (j, e, lo, hi) = leading_zeros_lem width v hv below in
      (j, rw none_set (omega (arith, e)), lo, hi)
  | inr top_set ↦ (
    width,
    rw top_set (omega arith),
    omega (arith, λ (small : v < 2 ^ width). none_below top_set (div-eq_of_lt small)),
    h,
  )
]

pub pow-lt_cancel : (a b : ℕ) → 2 ^ a < 2 ^ b → a < b
pow-lt_cancel a b h = elim (dec_lt a b) [
  | yes lt ↦ lt
  | no ge ↦
      absurd (
        omega
          (arith, h, pow-le-pow_right {n = 2} (omega arith) {i = b} {j = a} (omega (arith, ge))))
]

-- A value whose highest bit is `j`.
length-write_bit :
    (v : ℕ) → Acc ◌<◌ v → (j : ℕ) → 2 ^ j ≤ v → v < 2 ^ suc j → length (write v) ≡ j / 7 + 1
length-write_bit v (Acc.intro _ smaller) j lo hi = elim (dec_lt v 128) [
  | yes low ↦
      let small = pow-lt_cancel j 7 (omega arith) in rw (write_last v low) (omega (arith, small))
  | no high ↦
      let large = pow-lt_cancel 7 (suc j) (omega (arith, high)) in
      let down : j ≡ j - 7 + 7 = omega (arith, large) in
      let up : suc j ≡ suc (j - 7) + 7 = omega (arith, large) in
      let lo' = ap (λ (t : ℕ). 2 ^ t) down ∙ pow-add 2 (j - 7) 7 in
      let hi' = ap (λ (t : ℕ). 2 ^ t) up ∙ pow-add 2 (suc (j - 7)) 7 in
      let rest =
        length-write_bit (v / 128) (smaller (v / 128) (omega (arith, high))) (j - 7)
          (omega (arith, lo, lo')) (omega (arith, hi, hi')) in
      rw (write_more v (omega (arith, high))) (omega (arith, rest, large))
]

-- The encoding of a `u64` is as long as `varint_len` says.
pub length-write_varint : (v : ℕ) → v < 2 ^ 64 → length (write v) ≡ varint_len v
unfolding varint_len
length-write_varint zero h = rw (write_last 0 (omega arith)) refl
length-write_varint (suc v) h =
    let (j, e, lo, hi) = leading_zeros_lem 64 (suc v) (omega arith) h in
    rw e (length-write_bit (suc v) (lt_wf.apply (suc v)) j lo hi ∙ omega arith)

-- The encoding of an integer of `bits` bits, of which there is one at least, is no shorter than
-- `LOWER_BOUND` and no longer than `UPPER_BOUND`.
pub length-write_bounds :
    (bits v : ℕ)
    → 0 < bits
    → v < 2 ^ bits
    → (lower_bound ≤ length (write v)) × (length (write v) ≤ upper_bound bits)
length-write_bounds bits zero some_bit h =
    rw (write_last 0 (omega arith)) (omega arith, omega (arith, some_bit))
length-write_bounds bits (suc v) some_bit h =
    let (j, e, lo, hi) = leading_zeros_lem bits (suc v) (omega arith) h in
    let len = length-write_bit (suc v) (lt_wf.apply (suc v)) j lo hi in
    let few = pow-lt_cancel j bits (omega (arith, lo, h)) in
    (omega (arith, len), omega (arith, len, few))
