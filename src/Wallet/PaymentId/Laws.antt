-- ===== src/Wallet/PaymentId/Laws.antt =====
-- monero-oxide/wallet/src/extra.rs: payment IDs read from what is written of them, and encrypted
-- with exclusive or.
use monero_oxide.Common.{
  ℕ, zero, suc, ◌≡◌, refl, sym, ◌∙◌, ap, subst, arith, List, [], ◌∷◌, length, bit_xor, ◌==◌, ==→eq,
}
use monero_oxide.Common.Xor.{bit_xor-lt, bit_xor-undo, bit_xor-join}
use monero_oxide.Common.Bytes.{IsBytes, from_le_bytes, to_le_bytes, to_le_bytes-from_le_bytes}
use monero_oxide.Io.Parses.{
  Parses, IsCanonical, Parses-bind, Parses-map, Accepts-bind, Accepts-pure, Accepts-if,
  Accepts-fail,
}
use monero_oxide.Io.Primitives.{
  IsArray, read_byte-Parses, read_byte-IsCanonical, read_bytes-Parses, read_bytes-IsCanonical,
}
use monero_oxide.Wallet.PaymentId.{PaymentId, unencrypted, encrypted, bitxor, write, read}

abbrev pub IsValid : PaymentId → Type 0
IsValid (unencrypted id) = IsArray 32 id
IsValid (encrypted id) = IsArray 8 id

pub read-Parses : (id : PaymentId) → IsValid id → Parses read (write id) id
unfolding read write
read-Parses (unencrypted id) (len, good) =
    Parses-bind _ (read_byte-Parses 0) (Parses-map unencrypted (read_bytes-Parses 32 id len))
read-Parses (encrypted id) (len, good) =
    Parses-bind _ (read_byte-Parses 1) (Parses-map encrypted (read_bytes-Parses 8 id len))

read-IsCanonical : IsCanonical IsValid read write
unfolding read write
read-IsCanonical = Accepts-bind _ read_byte-IsCanonical λ marker _.
    Accepts-if (marker == 0)
      (λ is0.
        Accepts-bind _ (read_bytes-IsCanonical 32)
          λ id h. Accepts-pure {a = unencrypted id} (rw (==→eq marker 0 is0)) h)
      λ _.
        Accepts-if (marker == 1)
          (λ is1.
            Accepts-bind _ (read_bytes-IsCanonical 8)
              λ id h. Accepts-pure {a = encrypted id} (rw (==→eq marker 1 is1)) h)
          λ _. Accepts-fail

-- The exclusive or of bytes, one with one.
unfoldable pub xor_bytes : List ℕ → List ℕ → List ℕ
xor_bytes [] other = []
xor_bytes (b ∷ bytes) [] = []
xor_bytes (b ∷ bytes) (c ∷ other) = bit_xor b c ∷ xor_bytes bytes other

xor_bytes-IsArray :
    (n : ℕ) (bytes other : List ℕ)
    → IsArray n bytes
    → IsArray n other
    → IsArray n (xor_bytes bytes other)
unfolding xor_bytes
xor_bytes-IsArray zero [] other h h' = h
xor_bytes-IsArray zero (b ∷ bytes) other (len, _) h' = absurd (omega (arith, len))
xor_bytes-IsArray (suc n) [] other (len, _) h' = absurd (omega (arith, len))
xor_bytes-IsArray (suc n) (b ∷ bytes) [] h (len, _) = absurd (omega (arith, len))
xor_bytes-IsArray (suc n) (b ∷ bytes) (c ∷ other) (len, (byte, h)) (len', (byte', h')) =
    let (rest, good) = xor_bytes-IsArray n bytes other (omega arith, h) (omega arith, h') in
    (omega (arith, rest), (bit_xor-lt 8 b c byte byte', good))

-- The exclusive or of little-endian integers is that of their bytes.
from_le_bytes-xor_bytes :
    (bytes other : List ℕ)
    → IsBytes bytes
    → IsBytes other
    → length bytes ≡ length other
    → from_le_bytes (xor_bytes bytes other) ≡ bit_xor (from_le_bytes bytes) (from_le_bytes other)
unfolding xor_bytes from_le_bytes
from_le_bytes-xor_bytes [] [] h h' len = refl
from_le_bytes-xor_bytes [] (c ∷ other) h h' len = absurd (omega arith)
from_le_bytes-xor_bytes (b ∷ bytes) [] h h' len = absurd (omega arith)
from_le_bytes-xor_bytes (b ∷ bytes) (c ∷ other) (byte, h) (byte', h') len = omega (
  arith,
  bit_xor-join 8 b c (from_le_bytes bytes) (from_le_bytes other) byte byte',
  from_le_bytes-xor_bytes bytes other h h' (omega arith),
)

-- An encrypted payment ID with each byte changed, and an unencrypted one as it is.
abbrev pub each_byte : PaymentId → List ℕ → PaymentId
each_byte (unencrypted id) bytes = unencrypted id
each_byte (encrypted id) bytes = encrypted (xor_bytes id bytes)

bitxor-each_byte :
    (id : PaymentId) (bytes : List ℕ)
    → IsValid id
    → IsArray 8 bytes
    → bitxor id bytes ≡ each_byte id bytes
unfolding bitxor
bitxor-each_byte (unencrypted id) bytes h hb = refl
bitxor-each_byte (encrypted id) bytes (len, good) (size, fine) =
    let (count, whole) = xor_bytes-IsArray 8 id bytes (len, good) (size, fine) in
    let word = from_le_bytes-xor_bytes id bytes good fine (len ∙ sym size) in
    ap encrypted (
      subst (λ v. to_le_bytes 8 v ≡ xor_bytes id bytes) word
        (subst (λ n. to_le_bytes n (from_le_bytes (xor_bytes id bytes)) ≡ xor_bytes id bytes) count
          (to_le_bytes-from_le_bytes (xor_bytes id bytes) whole)))

xor_bytes_undo :
    (n : ℕ) (bytes other : List ℕ)
    → IsArray n bytes
    → IsArray n other
    → xor_bytes (xor_bytes bytes other) other ≡ bytes
unfolding xor_bytes
xor_bytes_undo zero [] other h h' = refl
xor_bytes_undo zero (b ∷ bytes) other (len, _) h' = absurd (omega (arith, len))
xor_bytes_undo (suc n) [] other (len, _) h' = absurd (omega (arith, len))
xor_bytes_undo (suc n) (b ∷ bytes) [] h (len, _) = absurd (omega (arith, len))
xor_bytes_undo (suc n) (b ∷ bytes) (c ∷ other) (len, (byte, h)) (len', (byte', h')) =
    let rest = xor_bytes_undo n bytes other (omega arith, h) (omega arith, h') in
    rw (bit_xor-undo 8 b c byte byte', rest) refl

-- The exclusive or of an encrypted payment ID with eight bytes is that of each of its bytes with one
-- of them, and that of an unencrypted one is the same payment ID. The same eight bytes give the
-- payment ID back, and what is between is well-formed.
pub bitxor_lem :
    (id : PaymentId) (bytes : List ℕ)
    → IsValid id
    → IsArray 8 bytes
    → (bitxor id bytes ≡ each_byte id bytes)
      × (bitxor (bitxor id bytes) bytes ≡ id)
      × IsValid (bitxor id bytes)
bitxor_lem (unencrypted id) bytes h hb =
    let same = bitxor-each_byte (unencrypted id) bytes h hb in
    rw (same, bitxor-each_byte (unencrypted id) bytes h hb) (refl, refl, h)
bitxor_lem (encrypted id) bytes h hb =
    let valid = xor_bytes-IsArray 8 id bytes h hb in
    let same = bitxor-each_byte (encrypted id) bytes h hb in
    let back = bitxor-each_byte (encrypted (xor_bytes id bytes)) bytes valid hb in
    rw (same, back, xor_bytes_undo 8 id bytes h hb) (refl, refl, valid)
