-- ===== src/Wallet/Extra/Field.antt =====
-- monero-oxide/wallet/src/extra.rs: one field of a transaction's extra.
pub mod Laws
use monero_oxide.Common.{
  ℕ, suc, ◌+◌, ◌-◌, ◌==◌, ◌!=◌, ltb, Bool, true, false, some, none, List, [], ◌∷◌, ◌++◌, Result, ok,
  err, length, replicate, if◌then◌else◌,
}
use monero_oxide.Io.Reader.{
  IoError, other, Reader, pure, fail, ◌>>=◌, ◌>>◌, fail_if, read_byte, read_bytes, write_byte,
}
use monero_oxide.Io.VarInt
use monero_oxide.Io.Vec.{read_vec, write_vec, read_raw_vec}
use monero_oxide.Ed25519.{CompressedPoint, read_point, write_point}

abbrev pub max_tx_extra_nonce_size : ℕ
max_tx_extra_nonce_size = 255

pub data ExtraField : Type 0 where
  -- a `NonZero<u8>`
  padding : ℕ → ExtraField
  public_key : CompressedPoint → ExtraField
  nonce : List ℕ → ExtraField
  -- the depth and the Merkle root
  merge_mining : ℕ → List ℕ → ExtraField
  public_keys : List CompressedPoint → ExtraField
  mysterious_minergate : List ℕ → ExtraField

-- `for _ in 1 .. size { write_byte(&0u8, w)?; }` after the first zero.
unfoldable pub write : ExtraField → List ℕ
write (padding size) = (0 ∷ []) ++ replicate (size - 1) 0
write (public_key key) = (1 ∷ []) ++ write_point key
write (nonce blob) = (2 ∷ []) ++ write_vec write_byte blob
write (merge_mining depth merkle_root) =
    (3 ∷ [])
    ++ (VarInt.write (VarInt.varint_len depth + length merkle_root)
        ++ (VarInt.write depth ++ merkle_root))
write (public_keys keys) = (4 ∷ []) ++ write_vec write_point keys
write (mysterious_minergate blob) = (0xDE ∷ []) ++ write_vec write_byte blob

abbrev pub serialize : ExtraField → List ℕ
serialize self = write self

-- The loop over the bytes that `fill_buf` returns, all that are left of a slice. After it nothing is
-- left, which ends the outer loop.
unfoldable pub read_padding : ℕ → Reader ExtraField
read_padding size [] = ok (padding size, [])
read_padding size (v ∷ buf) =
    let rest = read_padding (size + 1) buf in
    if v != 0
    then err (other "non-zero value after padding")
    else if size == 255
    then err (other "padding exceeded max count")
    else rest

-- `match field_len.checked_sub(..)`
unfoldable pub skip_remaining : ℕ → ℕ → Reader (Unit {0})
skip_remaining field_len used =
    if ltb field_len used
    then fail "`MergeMining` tag had a length smaller than its fields"
    else do _ ← read_raw_vec read_byte (field_len - used); pure tt

unfoldable pub read_merge_mining : Reader ExtraField
unfolding skip_remaining
read_merge_mining = do
  field_len ← VarInt.read_varint_usize
  depth ← VarInt.read_varint_u64
  merkle_root ← read_bytes 32
  _ ← skip_remaining field_len (VarInt.varint_len depth + length merkle_root)
  pure (merge_mining depth merkle_root)

unfoldable pub read_public_key : Reader ExtraField
read_public_key = do key ← read_point; pure (public_key key)

unfoldable pub read_nonce : Reader ExtraField
read_nonce = do blob ← read_vec read_byte (some max_tx_extra_nonce_size); pure (nonce blob)

unfoldable pub read_public_keys : Reader ExtraField
read_public_keys = do keys ← read_vec read_point none; pure (public_keys keys)

unfoldable pub read_minergate : Reader ExtraField
read_minergate = do blob ← read_vec read_byte none; pure (mysterious_minergate blob)

unfoldable pub read : Reader ExtraField
unfolding read_padding read_public_key read_nonce read_merge_mining read_public_keys read_minergate
read = do
  tag ← read_byte
  if tag == 0
      then read_padding 1
      else if tag == 1
      then read_public_key
      else if tag == 2
      then read_nonce
      else if tag == 3
      then read_merge_mining
      else if tag == 4
      then read_public_keys
      else if tag == 0xDE
      then read_minergate
      else fail "unknown extra field"

-- The last closure of `SORT_ORDER`.
abbrev pub is_padding : ExtraField → Bool
is_padding (padding size) = true
is_padding _ = false
