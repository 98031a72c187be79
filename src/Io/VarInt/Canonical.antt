-- ===== src/Io/VarInt/Canonical.antt =====
-- monero-oxide/io/src/varint.rs: what `read` accepts.
use monero_oxide.Common.Powers.{groups-lt}
use native.Mathlib.Nat.{pow-le-pow_right}
use monero_oxide.Common.{
  ℕ, ◌+◌, ◌-◌, ◌*◌, ◌/◌, ◌%◌, ◌^◌, ◌≤◌, ◌<◌, ◌≡◌, ◌∙◌, ◌⊎◌, inl, inr, List, [], ◌∷◌, ◌++◌, arith,
  ok, dec_lt,
}
use monero_oxide.Common.Bytes.{IsBytes}
use monero_oxide.Common.Bits.{bit_and-0x80_byte}
use monero_oxide.Io.Parses.{IsCanonical}
use monero_oxide.Io.VarInt.{write, read_loop, read, try_into, add_group}
use monero_oxide.Io.VarInt.Steps.{write_last, write_more, add_group_byte, wide_enough, split_group}

-- What the loop has checked of a byte that it took.
read_loop-eq-ok :
    (u_bits bits k : ℕ) (width : u_bits ≡ bits + k) (res b : ℕ) (src : List ℕ) {v : ℕ}
    {rest : List ℕ}
    → b < 256
    → read_loop u_bits bits res (b ∷ src) ≡ ok (v, rest)
    → (0 < bits → 0 < b)
      × (k ≤ 7 → b < 2 ^ k)
      × ((b < 128) × (try_into u_bits (add_group res b bits) src ≡ ok (v, rest))
          ⊎ (128 ≤ b) × (read_loop u_bits (bits + 7) (add_group res b bits) src ≡ ok (v, rest)))
unfolding read_loop
read_loop-eq-ok u_bits bits k width res b src byte h =
    let left : u_bits - bits ≡ k = omega arith in
    let h' = rw left at h in
    (
      ground (arith, bit_and-0x80_byte b),
      ground (arith, bit_and-0x80_byte b),
      ground (arith, bit_and-0x80_byte b),
    )

try_into-eq-ok :
    (u_bits res : ℕ) (src : List ℕ) {v : ℕ} {rest : List ℕ}
    → try_into u_bits res src ≡ ok (v, rest)
    → (v ≡ res) × (rest ≡ src) × (res < 2 ^ u_bits)
unfolding try_into
try_into-eq-ok u_bits res src h = ground arith

-- A last byte adds its bits without a wrap.
last_fits :
    (u_bits bits k : ℕ) (width : u_bits ≡ bits + k) (res b : ℕ)
    → u_bits ≤ 64
    → b < 128
    → (k ≤ 7 → b < 2 ^ k)
    → res < 2 ^ bits
    → res + b * 2 ^ bits < 2 ^ 64
last_fits u_bits bits k width res b narrow low fits small = elim (dec_lt 7 k) [
  | yes wide ↦ omega (
    arith,
    groups-lt res b bits 7 small low,
    pow-le-pow_right {n = 2} (omega arith) {i = bits + 7} {j = 64} (omega arith),
  )
  | no h ↦ omega (
    arith,
    groups-lt res b bits k small (fits (omega arith)),
    pow-le-pow_right {n = 2} (omega arith) {i = bits + k} {j = 64} (omega arith),
  )
]

-- A byte with the continuation flag in front of what `write` wrote of `x`.
join_group :
    (b x res bits v : ℕ)
    → 128 ≤ b
    → b < 256
    → 0 < x
    → v ≡ res + b % 128 * 2 ^ bits + x * 2 ^ (bits + 7)
    → (y : ℕ) × (write y ≡ b ∷ write x) × (v ≡ res + y * 2 ^ bits) × (0 < y)
join_group b x res bits v high byte pos value =
    let y = b % 128 + 128 * x in
    let low : y % 128 ≡ b % 128 = omega arith in
    let up : y / 128 ≡ x = omega arith in
    let mark : b % 128 + 128 ≡ b = omega arith in
    let groups : y * 2 ^ bits ≡ b % 128 * 2 ^ bits + x * 2 ^ (bits + 7) =
      rw (low, up) at (split_group y bits) in
    (y, rw (write_more y (omega arith), low, up, mark), omega arith, omega arith)

read_loop-canonical :
    (src : List ℕ) (u_bits bits k res v : ℕ) (rest : List ℕ)
    → u_bits ≡ bits + k
    → u_bits ≤ 64
    → res < 2 ^ bits
    → IsBytes src
    → read_loop u_bits bits res src ≡ ok (v, rest)
    → (x : ℕ) × (src ≡ write x ++ rest)
      × (v ≡ res + x * 2 ^ bits)
      × (v < 2 ^ u_bits)
      × (0 < bits → 0 < x)
read_loop-canonical [] u_bits bits k res v rest width narrow small bytes h = unfold read_loop in cc
read_loop-canonical (b ∷ src) u_bits bits k res v rest width narrow small (byte, bytes) h =
    let (nonzero, fits, next) = read_loop-eq-ok u_bits bits k width res b src byte h in
    elim next [
      | inl (low, e) ↦
          let group : b % 128 ≡ b = omega arith in
          let sum = rw group at (
            add_group_byte res b bits byte
              (rw group (last_fits u_bits bits k width res b narrow low fits small))) in
          let (value, left, bound) = try_into-eq-ok u_bits (add_group res b bits) src e in
          (b, rw (write_last b low, left), value ∙ sum, rw value bound, nonzero)
      | inr (high, e) ↦
          let wide = wide_enough k b high fits in
          let word = pow-le-pow_right {n = 2} (omega arith) {i = bits + 7} {j = 64} (omega arith) in
          let small' = groups-lt res (b % 128) bits 7 small (omega arith) in
          let e' = rw (add_group_byte res b bits byte (omega arith)) at e in
          let (x, split, value, bound, more) =
            read_loop-canonical src u_bits (bits + 7) (k - 7) (res + b % 128 * 2 ^ bits) v rest
              (omega arith) narrow small' bytes e' in
          let (y, head, value', y_pos) =
            join_group b x res bits v high byte (more (omega arith)) value in
          (y, rw (head, split), value', bound, λ _. y_pos)
    ]

-- `read` succeeds on nothing but an encoding that `write` makes, of a value that fits the type.
pub read_canonical_varint :
    (u_bits : ℕ) (src : List ℕ) (v : ℕ) (rest : List ℕ)
    → u_bits ≤ 64
    → IsBytes src
    → read u_bits src ≡ ok (v, rest)
    → (src ≡ write v ++ rest) × (v < 2 ^ u_bits)
unfolding read
read_canonical_varint u_bits src v rest narrow bytes h =
    let (x, split, value, bound, _) =
      read_loop-canonical src u_bits 0 u_bits 0 v rest (omega arith) narrow (omega arith) bytes h in
    let same : x ≡ v = omega arith in (rw (← same) split, bound)

pub read-IsCanonical :
    (u_bits : ℕ) → u_bits ≤ 64 → IsCanonical (λ v. v < 2 ^ u_bits) (read u_bits) write
read-IsCanonical u_bits narrow = record {
  run = λ src v rest bytes h. read_canonical_varint u_bits src v rest narrow bytes h;
}
