-- ===== src/Wallet/Extra/Field/Laws.antt =====
-- monero-oxide/wallet/src/extra.rs: the reader of a field against its writer.
use monero_oxide.Common.{
  ℕ, zero, suc, ◌+◌, ◌-◌, ◌^◌, ◌<◌, ◌≤◌, ◌≡◌, refl, ◌∙◌, ap, arith, ◌==◌, false, ltb, le→ltb, some,
  none, List, [], ◌∷◌, ◌++◌, ok, length, replicate, All,
}
use monero_oxide.Common.Bytes.{IsBytes}
use monero_oxide.Io.Reader.{read_byte, write_byte}
use monero_oxide.Io.Parses.{Parses, Parses-bind, Parses-then, Parses-map, Parses-pure}
use monero_oxide.Io.Primitives.{IsArray, read_byte-Parses, read_bytes-Parses}
use monero_oxide.Io.VarInt
use monero_oxide.Io.VarInt.RoundTrip.{read-Parses as varint-Parses}
use monero_oxide.Io.VarInt.Length.{length-write_varint, length-write_bounds}
use monero_oxide.Io.Vec.{read_raw_vec}
use monero_oxide.Io.Vec.Laws.{read_vec-Parses}
use monero_oxide.Ed25519.{read_point, write_point}
use monero_oxide.Ed25519.Laws.{IsPoint, read_point-Parses}
use monero_oxide.Transaction.Input.Laws.{IsU64, u64-Parses}
use monero_oxide.Wallet.Extra.Field.{
  ExtraField, padding, public_key, nonce, merge_mining, public_keys, mysterious_minergate, write,
  read, read_padding, skip_remaining, read_merge_mining, is_padding, max_tx_extra_nonce_size,
}

-- The fields that are written as they are read.
abbrev pub IsValid : ExtraField → Type 0
IsValid (padding size) = (0 < size) × (size ≤ 255)
IsValid (public_key key) = IsPoint key
IsValid (nonce blob) = (length blob ≤ max_tx_extra_nonce_size) × IsBytes blob
IsValid (merge_mining depth merkle_root) = IsU64 depth × IsArray 32 merkle_root
IsValid (public_keys keys) = (length keys < 2 ^ 64) × All IsPoint keys
IsValid (mysterious_minergate blob) = (length blob < 2 ^ 64) × IsBytes blob

bytes-Parses : (bytes : List ℕ) → All (λ b. Parses read_byte (write_byte b) b) bytes
bytes-Parses [] = tt
bytes-Parses (b ∷ bytes) = (read_byte-Parses b, bytes-Parses bytes)

points-Parses :
    (keys : List (List ℕ)) → All IsPoint keys → All (λ k. Parses read_point (write_point k) k) keys
points-Parses [] h = tt
points-Parses (key ∷ keys) (hk, h) = (read_point-Parses key hk, points-Parses keys h)

-- Padding ends with the bytes.
read_zeros :
    (n size : ℕ) → size + n ≤ 255 → read_padding size (replicate n 0) ≡ ok (padding (size + n), [])
unfolding read_padding
read_zeros zero size h = ap (λ t. ok (padding t, [])) (omega arith)
read_zeros (suc n) size h =
    let below : (size == 255) ≡ false = ground arith in
    rw below (read_zeros n (size + 1) (omega arith) ∙ ap (λ t. ok (padding t, [])) (omega arith))

pub read-write_padding :
    (size : ℕ) → 0 < size → size ≤ 255 → read (write (padding size)) ≡ ok (padding size, [])
unfolding read write read_byte
read-write_padding size some_zero most =
    read_zeros (size - 1) 1 (omega arith) ∙ ap (λ t. ok (padding t, [])) (omega arith)

varint_len-lt : (v : ℕ) → IsU64 v → VarInt.varint_len v + 32 < 2 ^ 64
varint_len-lt v h =
    omega (arith, length-write_varint v h, (length-write_bounds 64 v (omega arith) h).1)

skip_none-Parses : (n : ℕ) → Parses (skip_remaining n n) [] tt
unfolding skip_remaining read_raw_vec
skip_none-Parses n =
    let enough : ltb n n ≡ false = le→ltb n n (omega arith) in
    let none_left : n - n ≡ 0 = omega arith in
    rw (enough, none_left) (record { run = λ rest. refl })

merge_mining-Parses :
    (depth : ℕ) (merkle_root : List ℕ)
    → IsU64 depth
    → length merkle_root ≡ 32
    → Parses read_merge_mining
        (VarInt.write (VarInt.varint_len depth + length merkle_root)
          ++ (VarInt.write depth ++ merkle_root))
        (merge_mining depth merkle_root)
unfolding read_merge_mining
merge_mining-Parses depth merkle_root h len =
    Parses-bind _
      (varint-Parses 64 (VarInt.varint_len depth + length merkle_root) (omega arith)
        (omega (arith, varint_len-lt depth h)))
      (Parses-bind _ (u64-Parses depth h) (
        Parses-then _ (read_bytes-Parses 32 merkle_root len) (
          Parses-bind _ (skip_none-Parses (VarInt.varint_len depth + length merkle_root))
            (Parses-pure (merge_mining depth merkle_root)))))

-- All fields but padding are read whatever stands behind them.
pub read-Parses :
    (field : ExtraField)
    → IsValid field
    → is_padding field ≡ false
    → Parses read (write field) field
unfolding read write
read-Parses (padding size) h e = cc
read-Parses (public_key key) h e =
    Parses-bind _ (read_byte-Parses 1) (Parses-map public_key (read_point-Parses key h))
read-Parses (nonce blob) (few, good) e = Parses-bind _ (read_byte-Parses 2) (
    Parses-map nonce (
      read_vec-Parses read_byte write_byte (some max_tx_extra_nonce_size) blob (omega arith)
        (le→ltb _ _ few) (bytes-Parses blob)))
read-Parses (merge_mining depth merkle_root) (h, (len, good)) e =
    Parses-bind _ (read_byte-Parses 3) (merge_mining-Parses depth merkle_root h len)
read-Parses (public_keys keys) (few, good) e = Parses-bind _ (read_byte-Parses 4) (
    Parses-map public_keys
      (read_vec-Parses read_point write_point none keys few refl (points-Parses keys good)))
read-Parses (mysterious_minergate blob) (few, good) e = Parses-bind _ (read_byte-Parses 0xDE) (
    Parses-map mysterious_minergate
      (read_vec-Parses read_byte write_byte none blob few refl (bytes-Parses blob)))
