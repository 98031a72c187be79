-- ===== src/Wallet/Output.antt =====
-- monero-oxide/wallet/src/output.rs and monero-oxide/ed25519/src/commitment.rs: scanned outputs and
-- their format. `reduced` is the test for a reduced scalar. A writer has no result where the source
-- panics.
pub mod RoundTrip
use monero_oxide.Common.{
  ℕ, zero, suc, ◌+◌, ◌-◌, ◌^◌, ◌==◌, Bool, Option, none, some, List, [], ◌∷◌, ◌++◌, ok, err, length,
  ltb, if◌then◌else◌,
}
use monero_oxide.Common.Bytes.{to_le_bytes}
use monero_oxide.Io.Reader.{
  Reader, pure, fail, fail_if, ◌>>=◌, ◌>>◌, read_byte, read_bytes, read_u32, read_u64,
}
use monero_oxide.Io.VarInt
use monero_oxide.Io.Vec.{read_raw_vec}
use monero_oxide.Ed25519.{Scalar, CompressedPoint, read_point, read_scalar, write_scalar}
use monero_oxide.Transaction.Timelock
use monero_oxide.Transaction.Timelock.{Timelock}
use monero_oxide.Ringct.Clsag.Decoys.{Encoding}
use monero_oxide.Address.Bytes.{SubaddressIndex, new_index}
use monero_oxide.Wallet.PaymentId
use monero_oxide.Wallet.PaymentId.{PaymentId}
use monero_oxide.Wallet.Extra.{max_extra_size_by_relay_rule}

pub record AbsoluteId : Type 0 where
  pub transaction : List ℕ
  pub index_in_transaction : ℕ

unfoldable pub write_absolute_id : AbsoluteId → List ℕ
write_absolute_id self = self.transaction ++ to_le_bytes 8 self.index_in_transaction

unfoldable pub read_absolute_id : Reader AbsoluteId
read_absolute_id = do
  transaction ← read_bytes 32
  index ← read_u64
  pure (record { transaction = transaction; index_in_transaction = index })

pub record RelativeId : Type 0 where
  pub index_on_blockchain : ℕ

unfoldable pub write_relative_id : RelativeId → List ℕ
write_relative_id self = to_le_bytes 8 self.index_on_blockchain

unfoldable pub read_relative_id : Reader RelativeId
read_relative_id = do index ← read_u64; pure (record { index_on_blockchain = index })

pub record Commitment : Type 0 where
  pub mask : Scalar
  pub amount : ℕ

unfoldable pub write_commitment : Commitment → List ℕ
write_commitment self = write_scalar self.mask ++ to_le_bytes 8 self.amount

unfoldable pub read_commitment : (List ℕ → Bool) → Reader Commitment
read_commitment reduced = do
  mask ← read_scalar reduced
  amount ← read_u64
  pure (record { mask = mask; amount = amount })

pub record OutputData {ℓ} (Point : Type ℓ) : Type ℓ where
  pub key : Point
  pub key_offset : Scalar
  pub commitment : Commitment

module _ {ℓ} {Point : Type ℓ} (encoding : Encoding Point) where
  unfoldable pub write_data : OutputData Point → List ℕ
  unfolding write_commitment
  write_data self =
      encoding.compress self.key
      ++ (write_scalar self.key_offset ++ write_commitment self.commitment)

  unfoldable pub valid_key : CompressedPoint → Reader Point
  valid_key bytes = elim (encoding.decompress bytes) [
    | some key ↦ pure key
    | none ↦ fail "output data included an invalid key"
  ]

  unfoldable pub read_data : (List ℕ → Bool) → Reader (OutputData Point)
  unfolding valid_key read_commitment
  read_data reduced = do
    bytes ← read_point
    key ← valid_key bytes
    key_offset ← read_scalar reduced
    commitment ← read_commitment reduced
    pure (record { key = key; key_offset = key_offset; commitment = commitment })

pub record Metadata : Type 0 where
  pub additional_timelock : Timelock
  pub subaddress : Option SubaddressIndex
  pub payment_id : Option PaymentId
  pub arbitrary_data : List (List ℕ)

unfoldable pub write_subaddress : Option SubaddressIndex → List ℕ
write_subaddress (some subaddress) =
    (1 ∷ []) ++ (to_le_bytes 4 subaddress.account ++ to_le_bytes 4 subaddress.address)
write_subaddress none = 0 ∷ []

unfoldable pub write_payment_id : Option PaymentId → List ℕ
unfolding PaymentId.write
write_payment_id (some payment_id) = (1 ∷ []) ++ PaymentId.write payment_id
write_payment_id none = 0 ∷ []

-- The loop over the parts, which panics on a part whose length is not a `u8`.
unfoldable pub write_parts : List (List ℕ) → Option (List ℕ)
write_parts [] = some []
write_parts (part ∷ parts) =
    let rest = write_parts parts in
    if ltb 255 (length part)
    then none
    else elim rest [ none ↦ none | some bytes ↦ some ((length part ∷ []) ++ (part ++ bytes)) ]

unfoldable pub write_metadata : Metadata → Option (List ℕ)
unfolding Timelock.write write_subaddress write_payment_id VarInt.write write_parts
write_metadata self = elim (write_parts self.arbitrary_data) [
  | none ↦ none
  | some parts ↦ some (
      Timelock.write self.additional_timelock
      ++ (write_subaddress self.subaddress
          ++ (write_payment_id self.payment_id
              ++ (VarInt.write (length self.arbitrary_data) ++ parts))))
]

unfoldable pub valid_subaddress : Option SubaddressIndex → Reader (Option SubaddressIndex)
valid_subaddress none = fail "invalid subaddress in metadata"
valid_subaddress (some index) = pure (some index)

unfoldable pub read_subaddress : Reader (Option SubaddressIndex)
unfolding new_index valid_subaddress
read_subaddress = do
  is_some ← read_byte
  if is_some == 0
      then pure none
      else if is_some == 1
      then (do account ← read_u32; address ← read_u32; valid_subaddress (new_index account address))
      else fail "invalid subaddress is_some boolean in metadata"

-- `total_len.saturating_add(len)` of `usize`s
abbrev pub saturating_add : ℕ → ℕ → ℕ
saturating_add a b = if ltb (a + b) (2 ^ 64) then a + b else 2 ^ 64 - 1

unfoldable pub read_chunks : ℕ → ℕ → Reader (List (List ℕ))
read_chunks zero total_len = pure []
read_chunks (suc chunks) total_len = do
  len ← read_byte
  chunk ← read_raw_vec read_byte len
  fail_if (ltb max_extra_size_by_relay_rule (saturating_add total_len (length chunk)))
      "amount of arbitrary data exceeded amount allowed by policy"
  parts ← read_chunks chunks (saturating_add total_len (length chunk))
  pure (chunk ∷ parts)

unfoldable pub read_arbitrary_data : Reader (List (List ℕ))
unfolding read_chunks
read_arbitrary_data = do
  chunks ← VarInt.read_varint_usize
  fail_if (ltb max_extra_size_by_relay_rule chunks)
      "amount of arbitrary data chunks exceeded amount possible under policy"
  read_chunks chunks 0

-- `after_end` has the bytes that are left in a reader that ended within a payment ID, which depends
-- on the reader. The error is dropped, and reading goes on with what is left.
module _ (after_end : List ℕ → List ℕ) where
  unfoldable pub after_failure : List ℕ → List ℕ
  after_failure [] = after_end []
  after_failure (marker ∷ src) =
      if marker == 0
      then after_end (marker ∷ src)
      else if marker == 1
      then after_end (marker ∷ src)
      else src

  unfoldable pub payment_id_or_none : Reader (Option PaymentId)
  unfolding PaymentId.read after_failure
  payment_id_or_none src = elim (PaymentId.read src) [
    | ok (payment_id, rest) ↦ ok (some payment_id, rest)
    | err e ↦ ok (none, after_failure src)
  ]

  unfoldable pub read_payment_id : Reader (Option PaymentId)
  unfolding payment_id_or_none
  read_payment_id = do is_some ← read_byte; if is_some == 1 then payment_id_or_none else pure none

  unfoldable pub read_metadata : Reader Metadata
  unfolding Timelock.read read_subaddress read_payment_id read_arbitrary_data
  read_metadata = do
    additional_timelock ← Timelock.read
    subaddress ← read_subaddress
    payment_id ← read_payment_id
    arbitrary_data ← read_arbitrary_data
    pure (record {
      additional_timelock = additional_timelock;
      subaddress = subaddress;
      payment_id = payment_id;
      arbitrary_data = arbitrary_data;
    })

pub record WalletOutput {ℓ} (Point : Type ℓ) : Type ℓ where
  pub absolute_id : AbsoluteId
  pub relative_id : RelativeId
  pub contents : OutputData Point
  pub metadata : Metadata

module _ {ℓ} {Point : Type ℓ} (encoding : Encoding Point) where
  unfoldable pub write : WalletOutput Point → Option (List ℕ)
  unfolding write_absolute_id write_relative_id write_data write_metadata
  write self = elim (write_metadata self.metadata) [
    | none ↦ none
    | some metadata ↦ some (
        write_absolute_id self.absolute_id
        ++ (write_relative_id self.relative_id ++ (write_data encoding self.contents ++ metadata)))
  ]

  unfoldable pub read : (List ℕ → Bool) → (List ℕ → List ℕ) → Reader (WalletOutput Point)
  unfolding read_absolute_id read_relative_id read_data read_metadata
  read reduced after_end = do
    absolute_id ← read_absolute_id
    relative_id ← read_relative_id
    contents ← read_data encoding reduced
    metadata ← read_metadata after_end
    pure (record {
      absolute_id = absolute_id;
      relative_id = relative_id;
      contents = contents;
      metadata = metadata;
    })
