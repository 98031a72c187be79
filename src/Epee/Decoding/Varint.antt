-- ===== src/Epee/Decoding/Varint.antt =====
-- monero-oxide/epee/src/io.rs: `read_varint` against the little-endian integer of its bytes.
use monero_oxide.Common.{
  ℕ, zero, suc, ◌+◌, ◌-◌, ◌*◌, ◌/◌, ◌%◌, ◌^◌, ◌<◌, ◌≡◌, refl, ap, arith, bit_and, List, [], ◌∷◌,
  ◌++◌, ok, err, length, ltb, false, ◌∙◌,
}
use monero_oxide.Common.Bits.{bit_and-3_byte}
use monero_oxide.Common.Bytes.{IsBytes, from_le_bytes}
use monero_oxide.Common.Powers.{pow-add, groups-lt}
use monero_oxide.Common.Shifts.{bit_or_above}
use monero_oxide.Epee.Decoding.{
  done, panicked, unfinished, pure, ◌>>=◌, read_bytes, read_into_slice, read_byte, or_bytes,
  varint_bytes, read_varint,
}

pub read_byte-cons : (b : ℕ) (src : List ℕ) → read_byte (b ∷ src) ≡ done (ok b) src
unfolding read_byte read_into_slice read_bytes
read_byte-cons b src =
    let enough : ltb (length (b ∷ src)) 1 ≡ false = ground arith in rw (enough, ◌>>=◌) refl

shifted :
    (v b f i : ℕ) → v + b * 2 ^ (i * 8) + f * 2 ^ (suc i * 8) ≡ v + (b + 256 * f) * 2 ^ (i * 8)
shifted v b f i =
    let above : suc i * 8 ≡ i * 8 + 8 = omega arith in rw (above, pow-add 2 (i * 8) 8) (grind arith)

or_bytes_lem :
    (bytes rest : List ℕ) (i vi : ℕ)
    → IsBytes bytes
    → vi < 2 ^ (i * 8)
    → or_bytes (length bytes) i vi (bytes ++ rest)
      ≡ done (ok (vi + from_le_bytes bytes * 2 ^ (i * 8))) rest
unfolding or_bytes from_le_bytes
or_bytes_lem [] rest i vi good h = ap (λ t. done (ok t) rest) (omega arith)
or_bytes_lem (b ∷ bytes) rest i vi (byte, good) h =
    let above : suc i * 8 ≡ i * 8 + 8 = omega arith in
    let low : vi + b * 2 ^ (i * 8) < 2 ^ (suc i * 8) = rw above (groups-lt vi b (i * 8) 8 h byte) in
    rw (read_byte-cons b (bytes ++ rest), ◌>>=◌, or_bytes, bit_or_above (i * 8) vi b h)
      (or_bytes_lem bytes rest (suc i) (vi + b * 2 ^ (i * 8)) good low
        ∙ ap (λ t. done (ok t) rest) (shifted vi b (from_le_bytes bytes) i))

varint_bytes_lem : (k : ℕ) → k < 4 → varint_bytes k ≡ 2 ^ k
varint_bytes_lem zero h = refl
varint_bytes_lem (suc zero) h = refl
varint_bytes_lem (suc (suc zero)) h = refl
varint_bytes_lem (suc (suc (suc zero))) h = refl
varint_bytes_lem (suc (suc (suc (suc k)))) h = absurd (omega arith)

-- `read_varint` on bytes as many as the low two bits of the first tell returns the little-endian
-- integer of these bytes without its low two bits, and leaves what is behind them.
pub read_varint_lem :
    (b : ℕ) (bytes rest : List ℕ)
    → IsBytes (b ∷ bytes)
    → length (b ∷ bytes) ≡ 2 ^ (b % 4)
    → read_varint (b ∷ (bytes ++ rest)) ≡ done (ok (from_le_bytes (b ∷ bytes) / 4)) rest
unfolding read_varint from_le_bytes
read_varint_lem b bytes rest (byte, good) size =
    let count : varint_bytes (bit_and b 0b11) - 1 ≡ length bytes =
      rw (bit_and-3_byte b byte, varint_bytes_lem (b % 4) (omega arith)) (omega arith) in
    rw (read_byte-cons b (bytes ++ rest), ◌>>=◌, count)
      (ap
        (λ o. elim o [
          | done (ok vi) s' ↦ pure (vi / 4) s'
          | done (err e) s' ↦ done (err e) s'
          | panicked ↦ panicked
          | unfinished ↦ unfinished
        ])
        (or_bytes_lem bytes rest 1 b good (omega arith) ∙ ap (λ t. done (ok t) rest) (omega arith)))
