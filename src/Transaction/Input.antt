-- ===== src/Transaction/Input.antt =====
-- monero-oxide/src/transaction.rs: `Input`.
pub mod Laws
use monero_oxide.Common.{
  ℕ, ◌+◌, ◌/◌, ◌==◌, Bool, true, false, Option, none, some, List, [], ◌∷◌, ◌++◌, if◌then◌else◌,
}
use monero_oxide.Io.Reader.{Reader, pure, fail, ◌>>=◌, read_byte}
use monero_oxide.Io.VarInt
use monero_oxide.Io.Vec.{read_vec, write_vec}
use monero_oxide.Ed25519.{CompressedPoint, read_point, write_point}

-- `Transaction::NON_MINER_SIZE_UPPER_BOUND`
abbrev pub non_miner_size_upper_bound : ℕ
non_miner_size_upper_bound = 1_000_000

pub data Input : Type 0 where
  gen : ℕ → Input
  -- the amount, the offsets of the ring's members, and the key image
  to_key : Option ℕ → List ℕ → CompressedPoint → Input

-- `Input::NON_GEN_SIZE_LOWER_BOUND`
abbrev pub non_gen_size_lower_bound : ℕ
non_gen_size_lower_bound = 1 + VarInt.lower_bound + VarInt.lower_bound + 32

-- `amount.unwrap_or(0)`
abbrev pub unwrap_amount : Option ℕ → ℕ
unwrap_amount none = 0
unwrap_amount (some amount) = amount

unfoldable pub write : Input → List ℕ
write (gen height) = (255 ∷ []) ++ VarInt.write height
write (to_key amount key_offsets key_image) =
    (2 ∷ [])
    ++ (VarInt.write (unwrap_amount amount)
        ++ (write_vec VarInt.write key_offsets ++ write_point key_image))

-- `if amount == 0 { None } else { Some(amount) }`
abbrev pub collapse_amount : ℕ → Option ℕ
collapse_amount amount = if amount == 0 then none else some amount

unfoldable pub read_gen : Reader Input
read_gen = do height ← VarInt.read_varint_usize; pure (gen height)

unfoldable pub read_to_key : Reader Input
read_to_key = do
  amount ← VarInt.read_varint_u64
  key_offsets ← read_vec VarInt.read_varint_u64 (some non_miner_size_upper_bound)
  key_image ← read_point
  pure (to_key (collapse_amount amount) key_offsets key_image)

unfoldable pub read : Reader Input
unfolding read_gen read_to_key
read = do
  kind ← read_byte
  if kind == 255
      then read_gen
      else if kind == 2
      then read_to_key
      else fail "Tried to deserialize unknown/unused input type"

-- `matches!(input, Input::Gen(_))`
unfoldable pub is_gen : Input → Bool
is_gen (gen height) = true
is_gen (to_key amount key_offsets key_image) = false
