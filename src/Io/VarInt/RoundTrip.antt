-- ===== src/Io/VarInt/RoundTrip.antt =====
-- monero-oxide/io/src/varint.rs: `read` on what `write` wrote.
use mathlib.Core.WellFounded.{Acc}
use native.Mathlib.Nat.{pow-le-pow_right}
use monero_oxide.Common.{
  ℕ, ◌+◌, ◌-◌, ◌*◌, ◌/◌, ◌%◌, ◌^◌, ◌≤◌, ◌<◌, ◌≡◌, ◌∙◌, ap, inl, inr, List, ◌++◌, arith, ok,
  Bool-cases, ltb, ltb→lt, ltb→le,
}
use monero_oxide.Common.Order.{lt_wf}
use monero_oxide.Io.Parses.{Parses}
use monero_oxide.Io.VarInt.{write, read_loop, read}
use monero_oxide.Io.VarInt.Steps.{
  write_last, write_more, add_group_byte, read_loop_last, read_loop_more, try_into_fits,
  pow-add_seven, wide_enough, split_group,
}

-- `v` is what is still to be read, and counts from bit `bits` on.
read_loop-write :
    (v : ℕ) (w : Acc ◌<◌ v) (u_bits bits k res : ℕ) (rest : List ℕ)
    → u_bits ≡ bits + k
    → u_bits ≤ 64
    → (0 < bits → 0 < v)
    → v < 2 ^ k
    → res + v * 2 ^ bits < 2 ^ u_bits
    → read_loop u_bits bits res (write v ++ rest) ≡ ok (res + v * 2 ^ bits, rest)
read_loop-write v (Acc.intro _ smaller) u_bits bits k res rest width narrow nonzero small fits =
    let word : 2 ^ u_bits ≤ 2 ^ 64 = pow-le-pow_right (omega arith) narrow in
    elim (Bool-cases (ltb v 128)) [
      | inl last ↦
          let h = ltb→lt v 128 last in
          let group : v % 128 ≡ v = omega arith in
          let sum =
            rw group at (add_group_byte res v bits (omega arith) (rw group (omega arith))) in
          rw (write_last v h, read_loop_last u_bits bits k width res v rest nonzero h small, sum)
            (try_into_fits u_bits _ rest fits)
      | inr more ↦
          let h = ltb→le v 128 more in
          let b = v % 128 + 128 in
          let group : b % 128 ≡ v % 128 = omega arith in
          let split = split_group v bits in
          let sum =
            rw group at (add_group_byte res b bits (omega arith) (rw group (omega arith))) in
          let wide : 7 < k = wide_enough k v h (λ _. small) in
          let k_split : k ≡ k - 7 + 7 = omega arith in
          let small' : v / 128 < 2 ^ (k - 7) =
            omega (arith, pow-add_seven (k - 7), ap (λ (t : ℕ). 2 ^ t) k_split) in
          rw
            (
              write_more v h,
              read_loop_more u_bits bits k width res b _ (omega arith) (omega arith)
                  (λ s. absurd (omega arith)),
              sum,
              read_loop-write (v / 128) (smaller (v / 128) (omega arith)) u_bits (bits + 7) (k - 7)
                  (res + v % 128 * 2 ^ bits) rest (omega arith) narrow (λ _. omega arith) small'
                  (omega arith),
            )
            (ap (λ (t : ℕ). ok (t, rest)) (omega arith))
    ]

-- An integer that fits the type is read back from what `write` wrote, and what follows is left.
pub read-write_varint :
    (u_bits v : ℕ) (rest : List ℕ)
    → u_bits ≤ 64
    → v < 2 ^ u_bits
    → read u_bits (write v ++ rest) ≡ ok (v, rest)
unfolding read
read-write_varint u_bits v rest narrow h =
    read_loop-write v (lt_wf.apply v) u_bits 0 u_bits 0 rest (omega arith) narrow
      (λ p. absurd (omega arith)) h (omega arith)
    ∙ ap (λ (t : ℕ). ok (t, rest)) (omega arith)

pub read-Parses : (u_bits v : ℕ) → u_bits ≤ 64 → v < 2 ^ u_bits → Parses (read u_bits) (write v) v
read-Parses u_bits v narrow h = record { run = λ rest. read-write_varint u_bits v rest narrow h }
