-- ===== src/Io/VarInt.antt =====
-- monero-oxide/io/src/varint.rs: integers in groups of seven bits, lowest first, with the top
-- bit of a byte set where more bytes follow. A `VarInt` type is given by its size in bits, 8, 32
-- or 64, where `usize` is of 64 bits.
pub mod Steps
pub mod RoundTrip
pub mod Canonical
pub mod Length
use mathlib.Core.Logic.{dite}
use mathlib.Core.WellFounded.{Acc}
use monero_oxide.Common.{
  ℕ, zero, suc, ◌+◌, ◌-◌, ◌*◌, ◌/◌, ◌%◌, ◌^◌, ◌<◌, max, ◌&&◌, List, [], ◌∷◌, arith, bit_and, bit_or,
  dec_lt, ok, err, leb, ltb, ◌==◌, ◌!=◌, if◌then◌else◌,
}
use monero_oxide.Common.Order.{lt_wf}
use monero_oxide.Io.Reader.{Reader, unexpected_eof, other}

abbrev pub varint_continuation_flag : ℕ
varint_continuation_flag = 0b1000_0000

abbrev pub varint_value_mask : ℕ
varint_value_mask = 255 - varint_continuation_flag

-- `((bits + (7 - 1)) / 7) as usize`
abbrev pub upper_bound : ℕ → ℕ
upper_bound bits = (bits + (7 - 1)) / 7

abbrev pub lower_bound : ℕ
lower_bound = 1

-- `u64::leading_zeros`: the zeros above the highest bit that is set, of the lowest `width` bits.
unfoldable pub leading_zeros : ℕ → ℕ → ℕ
leading_zeros zero v = 0
leading_zeros (suc width) v = if v / 2 ^ width == 0 then suc (leading_zeros width v) else 0

-- `bits.div_ceil(7)`, at least 1.
unfoldable pub varint_len : ℕ → ℕ
unfolding leading_zeros
varint_len v = let bits = 64 - leading_zeros 64 v in max ((bits + 6) / 7) 1

pub shift_shrinks : (v : ℕ) → 0 < v / 128 → v / 128 < v
shift_shrinks v h = omega arith

write_loop : (v : ℕ) → Acc ◌<◌ v → List ℕ
write_loop v (Acc.intro _ smaller) =
    let b = bit_and v varint_value_mask in
    dite (dec_lt 0 (v / 128))
      (λ more.
        bit_or b varint_continuation_flag
        ∷ write_loop (v / 128) (smaller (v / 128) (shift_shrinks v more)))
      (λ _. b ∷ [])

unfoldable pub write : ℕ → List ℕ
unfolding write_loop lt_wf dec_lt
write v = write_loop v (lt_wf.apply v)

-- `res += u64::from(b & VARINT_VALUE_MASK) << bits`
abbrev pub add_group : ℕ → ℕ → ℕ → ℕ
add_group res b bits = (res + bit_and b varint_value_mask * 2 ^ bits % 2 ^ 64) % 2 ^ 64

-- `res.try_into()` into an integer of `u_bits` bits.
unfoldable pub try_into : ℕ → ℕ → Reader ℕ
try_into u_bits res src =
    if ltb res (2 ^ u_bits)
    then ok (res, src)
    else err (other "VarInt does not fit into integer type")

-- The loop body on the next byte. `u_bits - bits` does not underflow where the body computes it:
-- the byte after bit `u_bits` would have needed a byte that the second test refuses.
unfoldable pub read_loop : ℕ → ℕ → ℕ → Reader ℕ
unfolding try_into
read_loop u_bits bits res [] = err unexpected_eof
read_loop u_bits bits res (b ∷ src) =
    let more = read_loop u_bits (bits + 7) (add_group res b bits) src in
    if bits != 0 && b == 0
    then err (other "non-canonical varint")
    else if leb u_bits (bits + 7) && leb (2 ^ (u_bits - bits)) b
    then err (other "varint overflow")
    else if bit_and b varint_continuation_flag == varint_continuation_flag
    then more
    else try_into u_bits (add_group res b bits) src

unfoldable pub read : ℕ → Reader ℕ
unfolding read_loop
read u_bits = read_loop u_bits 0 0

abbrev pub read_varint_u8 : Reader ℕ
read_varint_u8 = read 8

abbrev pub read_varint_u64 : Reader ℕ
read_varint_u64 = read 64

-- `usize` is of 64 bits.
abbrev pub read_varint_usize : Reader ℕ
read_varint_usize = read 64
