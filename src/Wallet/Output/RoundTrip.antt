-- ===== src/Wallet/Output/RoundTrip.antt =====
-- monero-oxide/wallet/src/output.rs: scanned outputs read from what is written of them.
use monero_oxide.Common.{
  ℕ, ◌+◌, ◌^◌, ◌<◌, ◌≤◌, ◌≡◌, refl, arith, false, Bool, Option, none, some, List, [], ◌∷◌, ◌++◌, ok,
  length, ltb, All,
}
use monero_oxide.Io.Reader.{read_byte, read_u32, read_u64}
use monero_oxide.Io.Parses.{
  Parses, Parses-bind, Parses-then, Parses-map, Parses-fail_if, Parses-pure,
}
use monero_oxide.Io.Primitives.{read_byte-Parses, read_bytes-Parses, le_bytes-Parses}
use monero_oxide.Io.VarInt
use monero_oxide.Io.VarInt.RoundTrip.{read-Parses}
use monero_oxide.Io.Vec.{read_raw_vec}
use monero_oxide.Ed25519.Laws.{IsScalar, read_point-Parses, read_scalar-Parses}
use monero_oxide.Transaction.Timelock
use monero_oxide.Ringct.Clsag.Decoys.{Encoding}
use monero_oxide.Ringct.Clsag.Decoys.RoundTrip.{IsEncoding}
use monero_oxide.Address.Bytes.{SubaddressIndex, new_index}
use monero_oxide.Wallet.PaymentId
use monero_oxide.Wallet.PaymentId.{PaymentId}
use monero_oxide.Wallet.Extra.{max_extra_size_by_relay_rule}
use monero_oxide.Wallet.Output.{
  AbsoluteId, write_absolute_id, read_absolute_id, RelativeId, write_relative_id, read_relative_id,
  Commitment, write_commitment, read_commitment, OutputData, write_data, valid_key, read_data,
  Metadata, write_subaddress, write_payment_id, write_parts, write_metadata, valid_subaddress,
  read_subaddress, saturating_add, read_chunks, read_arbitrary_data, payment_id_or_none,
  read_payment_id, read_metadata, WalletOutput, write, read,
}

abbrev IsSubaddress : Option SubaddressIndex → Type 0
IsSubaddress none = Unit
IsSubaddress (some index) =
    (index.account < 2 ^ 32)
    × (index.address < 2 ^ 32)
    × (new_index index.account index.address ≡ some index)

abbrev IsPaymentId : Option PaymentId → Type 0
IsPaymentId none = Unit
IsPaymentId (some id) = PaymentId.Laws.IsValid id

-- The number of bytes in all parts.
unfoldable pub total : List (List ℕ) → ℕ
total [] = 0
total (part ∷ parts) = length part + total parts

-- The limits of the relay rule, and a `u8` for the length of a part.
pub record IsValidMetadata (m : Metadata) : Type 0 where
  pub timelock : Timelock.Laws.IsValid m.additional_timelock
  pub subaddress : IsSubaddress m.subaddress
  pub payment_id : IsPaymentId m.payment_id
  pub parts : All (λ part. length part ≤ 255) m.arbitrary_data
  pub count : length m.arbitrary_data ≤ max_extra_size_by_relay_rule
  pub size : total m.arbitrary_data ≤ max_extra_size_by_relay_rule

read_absolute_id-Parses :
    (id : AbsoluteId)
    → length id.transaction ≡ 32
    → id.index_in_transaction < 2 ^ 64
    → Parses read_absolute_id (write_absolute_id id) id
unfolding read_absolute_id write_absolute_id read_u64
read_absolute_id-Parses id len short =
    Parses-bind _ (read_bytes-Parses 32 id.transaction len)
      (Parses-map _ (le_bytes-Parses 8 id.index_in_transaction short))

read_relative_id-Parses :
    (id : RelativeId)
    → id.index_on_blockchain < 2 ^ 64
    → Parses read_relative_id (write_relative_id id) id
unfolding read_relative_id write_relative_id read_u64
read_relative_id-Parses id short = Parses-map _ (le_bytes-Parses 8 id.index_on_blockchain short)

module _ (reduced : List ℕ → Bool) where
  abbrev pub IsCommitment : Commitment → Type 0
  IsCommitment c = IsScalar reduced c.mask × (c.amount < 2 ^ 64)

  read_commitment-Parses :
      (c : Commitment) → IsCommitment c → Parses (read_commitment reduced) (write_commitment c) c
  unfolding read_commitment write_commitment read_u64
  read_commitment-Parses c (mask, amount) =
      Parses-bind _ (read_scalar-Parses reduced c.mask mask)
        (Parses-map _ (le_bytes-Parses 8 c.amount amount))

  module _ {ℓ} {Point : Type ℓ} (encoding : Encoding Point) (laws : IsEncoding encoding) where
    valid_key-Parses : (key : Point) → Parses (valid_key encoding (encoding.compress key)) [] key
    unfolding valid_key
    valid_key-Parses key = record { run = λ rest. rw (laws.back key, valid_key) refl }

    read_data-Parses :
        (d : OutputData Point)
        → IsScalar reduced d.key_offset
        → IsCommitment d.commitment
        → Parses (read_data encoding reduced) (write_data encoding d) d
    unfolding read_data write_data
    read_data-Parses d offset commitment =
        Parses-bind _ (read_point-Parses (encoding.compress d.key) (laws.size d.key)) (
          Parses-bind _ (valid_key-Parses d.key) (
            Parses-bind _ (read_scalar-Parses reduced d.key_offset offset)
              (Parses-map _ (read_commitment-Parses d.commitment commitment))))

read_subaddress-Parses :
    (index : Option SubaddressIndex)
    → IsSubaddress index
    → Parses read_subaddress (write_subaddress index) index
unfolding read_subaddress write_subaddress read_u32 valid_subaddress
read_subaddress-Parses none h = Parses-then _ (read_byte-Parses 0) (Parses-pure none)
read_subaddress-Parses (some index) (account, address, valid) = Parses-bind _ (read_byte-Parses 1) (
    Parses-bind _ (le_bytes-Parses 4 index.account account) (
      Parses-then _ (le_bytes-Parses 4 index.address address)
        (record { run = λ rest. rw valid refl })))

payment_id_or_none-Parses :
    (after_end : List ℕ → List ℕ) (id : PaymentId)
    → PaymentId.Laws.IsValid id
    → Parses (payment_id_or_none after_end) (PaymentId.write id) (some id)
unfolding payment_id_or_none
payment_id_or_none-Parses after_end id h = record {
  run = λ rest. rw ((PaymentId.Laws.read-Parses id h).run rest, payment_id_or_none) refl;
}

read_payment_id-Parses :
    (after_end : List ℕ → List ℕ) (id : Option PaymentId)
    → IsPaymentId id
    → Parses (read_payment_id after_end) (write_payment_id id) id
unfolding read_payment_id write_payment_id
read_payment_id-Parses after_end none h = Parses-then _ (read_byte-Parses 0) (Parses-pure none)
read_payment_id-Parses after_end (some id) h =
    Parses-bind _ (read_byte-Parses 1) (payment_id_or_none-Parses after_end id h)

-- The bytes that `write_parts` returns where no part is too long.
unfoldable parts_bytes : List (List ℕ) → List ℕ
parts_bytes [] = []
parts_bytes (part ∷ parts) = (length part ∷ []) ++ (part ++ parts_bytes parts)

write_parts_lem :
    (parts : List (List ℕ))
    → All (λ part. length part ≤ 255) parts
    → write_parts parts ≡ some (parts_bytes parts)
unfolding write_parts parts_bytes
write_parts_lem [] h = refl
write_parts_lem (part ∷ parts) (short, h) =
    let fits : ltb 255 (length part) ≡ false = ground arith in
    rw (fits, write_parts_lem parts h) refl

chunk-Parses : (chunk : List ℕ) → Parses (read_raw_vec read_byte (length chunk)) chunk chunk
unfolding read_raw_vec
chunk-Parses [] = Parses-pure []
chunk-Parses (b ∷ chunk) = Parses-bind _ (read_byte-Parses b) (Parses-map _ (chunk-Parses chunk))

saturating_add_small : (a b : ℕ) → a + b ≤ max_extra_size_by_relay_rule → saturating_add a b ≡ a + b
saturating_add_small a b h = ground arith

read_chunks-Parses :
    (parts : List (List ℕ)) (before : ℕ)
    → before + total parts ≤ max_extra_size_by_relay_rule
    → Parses (read_chunks (length parts) before) (parts_bytes parts) parts
unfolding read_chunks parts_bytes total
read_chunks-Parses [] before h = Parses-pure []
read_chunks-Parses (part ∷ parts) before h =
    let sum : saturating_add before (length part) ≡ before + length part =
      saturating_add_small before (length part) (omega arith) in
    let within : ltb max_extra_size_by_relay_rule (before + length part) ≡ false = ground arith in
    Parses-bind _ (read_byte-Parses (length part)) (
      Parses-bind _ (chunk-Parses part) (
        rw sum (
          Parses-fail_if _ within
            (Parses-map _ (read_chunks-Parses parts (before + length part) (omega arith))))))

read_arbitrary_data-Parses :
    (parts : List (List ℕ))
    → length parts ≤ max_extra_size_by_relay_rule
    → total parts ≤ max_extra_size_by_relay_rule
    → Parses read_arbitrary_data (VarInt.write (length parts) ++ parts_bytes parts) parts
unfolding read_arbitrary_data
read_arbitrary_data-Parses parts count size =
    let within : ltb max_extra_size_by_relay_rule (length parts) ≡ false = ground arith in
    Parses-bind _ (read-Parses 64 (length parts) (omega arith) (omega arith))
      (Parses-fail_if _ within (read_chunks-Parses parts 0 (omega (arith, size))))

-- What is written of valid metadata, and that it is read back.
read_metadata-Parses :
    (after_end : List ℕ → List ℕ) (m : Metadata)
    → IsValidMetadata m
    → (bytes : List ℕ) × (write_metadata m ≡ some bytes) × Parses (read_metadata after_end) bytes m
unfolding read_metadata write_metadata
read_metadata-Parses after_end m v = (
  _,
  rw (write_metadata, write_parts_lem m.arbitrary_data v.parts) refl,
  Parses-bind _ (Timelock.Laws.read-Parses m.additional_timelock v.timelock) (
      Parses-bind _ (read_subaddress-Parses m.subaddress v.subaddress) (
        Parses-bind _ (read_payment_id-Parses after_end m.payment_id v.payment_id)
          (Parses-map _ (read_arbitrary_data-Parses m.arbitrary_data v.count v.size)))),
)

-- The conditions on an output: the fields that are arrays or integers are of their sizes, the
-- scalars are reduced, and the metadata are valid.
pub record IsValid {ℓ} {Point : Type ℓ} (reduced : List ℕ → Bool) (o : WalletOutput Point)
    : Type 0 where
  pub transaction : length o.absolute_id.transaction ≡ 32
  pub index : o.absolute_id.index_in_transaction < 2 ^ 64
  pub position : o.relative_id.index_on_blockchain < 2 ^ 64
  pub key_offset : IsScalar reduced o.contents.key_offset
  pub commitment : IsCommitment reduced o.contents.commitment
  pub metadata : IsValidMetadata o.metadata

-- Writing an output whose metadata keep the limits does not panic, and reading what is written
-- returns the output and leaves the bytes behind it, whatever the reader leaves where a payment ID
-- cannot be read.
pub read-write_output {ℓ} :
    {Point : Type ℓ} (encoding : Encoding Point) (reduced : List ℕ → Bool)
    (after_end : List ℕ → List ℕ) (o : WalletOutput Point) (rest : List ℕ)
    → IsEncoding encoding
    → IsValid reduced o
    → (bytes : List ℕ) × (write encoding o ≡ some bytes)
      × (read encoding reduced after_end (bytes ++ rest) ≡ ok (o, rest))
unfolding read write
read-write_output encoding reduced after_end o rest laws v =
    let (bytes, written, parses) = read_metadata-Parses after_end o.metadata v.metadata in
    let all = Parses-bind _ (read_absolute_id-Parses o.absolute_id v.transaction v.index) (
      Parses-bind _ (read_relative_id-Parses o.relative_id v.position) (
        Parses-bind _ (read_data-Parses reduced encoding laws o.contents v.key_offset v.commitment)
          (Parses-map _ parses))) in
    (_, rw (write, written) refl, all.run rest)
