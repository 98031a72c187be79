-- ===== src/Address.antt =====
-- monero-oxide/wallet/address/src/lib.rs: addresses. A string is its bytes. `encoding` stands for
-- the encoding of points and `keccak256` for the hash function. The outer `none` of `to_string` is a
-- panic.
pub mod Bytes
pub mod RoundTrip
use monero_oxide.Common.{
  ℕ, ◌+◌, ◌*◌, ◌/◌, ◌^◌, bit_and, Bool, true, false, Option, none, some, List, [], ◌∷◌, ◌++◌,
  Result, ok, err, ◌==◌, ◌!=◌, replicate, if◌then◌else◌,
}
use monero_oxide.Io.Reader.{IoError, Reader, read_byte, read_bytes}
use monero_oxide.Io.VarInt
use monero_oxide.Ed25519.{CompressedPoint, read_point}
use monero_oxide.Ringct.Clsag.Decoys.{Encoding}
use monero_oxide.Base58.{encode_check, decode_check}
use monero_oxide.Address.Bytes.{
  Network, mainnet, stagenet, testnet, AddressType, legacy, legacy_integrated, subaddress, featured,
  AddressError, invalid_encoding, invalid_length, invalid_key, unknown_features, different_network,
  payment_ids_unsupported, NetworkedAddressBytes, from_const_generic, byte, metadata_from_byte,
}

abbrev pub is_subaddress : AddressType → Bool
is_subaddress subaddress = true
is_subaddress (featured sub id guaranteed) = sub
is_subaddress _ = false

abbrev pub payment_id : AddressType → Option (List ℕ)
payment_id (legacy_integrated id) = some id
payment_id (featured sub id guaranteed) = id
payment_id _ = none

abbrev pub is_guaranteed : AddressType → Bool
is_guaranteed (featured sub id guaranteed) = guaranteed
is_guaranteed _ = false

pub record Address {ℓ} (Point : Type ℓ) : Type ℓ where
  pub network : Network
  pub kind : AddressType
  pub spend : Point
  pub view : Point

-- `u8::from`, `is_some`, and the bytes of an optional payment ID.
abbrev pub from_bool : Bool → ℕ
from_bool true = 1
from_bool false = 0

abbrev pub has_id : Option (List ℕ) → Bool
has_id none = false
has_id (some id) = true

abbrev pub id_bytes : Option (List ℕ) → List ℕ
id_bytes none = []
id_bytes (some id) = id

unfoldable pub features_uint : Bool → Option (List ℕ) → Bool → ℕ
features_uint sub id guaranteed =
    from_bool guaranteed * 2 ^ 2 + from_bool (has_id id) * 2 ^ 1 + from_bool sub

unfoldable pub features_bytes : AddressType → List ℕ
unfolding features_uint
features_bytes (featured sub id guaranteed) = VarInt.write (features_uint sub id guaranteed)
features_bytes _ = []

-- Reading from the decoded bytes.
abbrev pub Parsing {ℓ} : Type ℓ → Type ℓ
Parsing A = List ℕ → Result AddressError (A × List ℕ)

abbrev pub pure {ℓ} : {A : Type ℓ} → A → Parsing A
pure a raw = ok (a, raw)

abbrev pub fail {ℓ} : {A : Type ℓ} → AddressError → Parsing A
fail e raw = err e

infixl 1 ◌>>=◌
abbrev pub ◌>>=◌ {ℓ κ} : {A : Type ℓ} {B : Type κ} → Parsing A → (A → Parsing B) → Parsing B
◌>>=◌ p f raw = elim (p raw) [ ok (a, rest) ↦ f a rest | err e ↦ err e ]

-- `.map_err(|_| AddressError::InvalidLength)?`
abbrev pub or_length {ℓ} : {A : Type ℓ} → Reader A → Parsing A
or_length p raw = elim (p raw) [ ok (a, rest) ↦ ok (a, rest) | err _ ↦ err invalid_length ]

unfoldable pub read_metadata : NetworkedAddressBytes → Parsing (Network × AddressType)
read_metadata bytes = do
  b ← or_length read_byte
  (λ raw. elim (metadata_from_byte bytes b) [ ok m ↦ ok (m, raw) | err e ↦ err e ])

-- The features of a featured address.
abbrev pub features_kind : ℕ → AddressType
features_kind features =
    featured (bit_and features 1 == 1)
      (if bit_and (features / 2 ^ 1) 1 == 1 then some (replicate 8 0) else none)
      (bit_and (features / 2 ^ 2) 1 == 1)

abbrev pub check_features : ℕ → Parsing AddressType
check_features features =
    if features / 2 ^ 3 != 0
    then fail (unknown_features features)
    else pure (features_kind features)

unfoldable pub read_features : AddressType → Parsing AddressType
read_features (featured _ _ _) = do
  features ← or_length VarInt.read_varint_u64
  check_features features
read_features kind = pure kind

unfoldable pub read_payment_id : AddressType → Parsing AddressType
read_payment_id (legacy_integrated _) = do
  id ← or_length (read_bytes 8)
  pure (legacy_integrated id)
read_payment_id (featured sub (some _) guaranteed) = do
  id ← or_length (read_bytes 8)
  pure (featured sub (some id) guaranteed)
read_payment_id kind = pure kind

-- `if !raw.is_empty()`
abbrev pub check_end : Parsing (Unit {0})
check_end [] = ok (tt, [])
check_end (b ∷ raw) = err invalid_length

-- `==` of networks
abbrev pub same_network : Network → Network → Bool
same_network mainnet mainnet = true
same_network stagenet stagenet = true
same_network testnet testnet = true
same_network _ _ = false

module _ {ℓ} {Point : Type ℓ} (encoding : Encoding Point) (keccak256 : List ℕ → List ℕ)
    (address_bytes : ℕ) where
  unfoldable pub to_data : Address Point → List ℕ
  unfolding features_bytes from_const_generic byte
  to_data self =
      (byte (from_const_generic address_bytes) self.network self.kind ∷ [])
      ++ (encoding.compress self.spend
          ++ (encoding.compress self.view
              ++ (features_bytes self.kind ++ id_bytes (payment_id self.kind))))

  -- `Display::fmt`
  unfoldable pub to_string : Address Point → Option (List ℕ)
  unfolding to_data
  to_string self = encode_check keccak256 (to_data self)

  abbrev pub decompress_key : CompressedPoint → Parsing Point
  decompress_key key raw = elim (encoding.decompress key) [
    | some point ↦ ok (point, raw)
    | none ↦ err invalid_key
  ]

  unfoldable pub read_key : Parsing Point
  read_key raw = elim (read_point raw) [
    | ok (key, rest) ↦ decompress_key key rest
    | err _ ↦ err invalid_key
  ]

  unfoldable pub parse : Parsing (Address Point)
  unfolding read_metadata read_key read_features read_payment_id from_const_generic
  parse = do
    (network, kind) ← read_metadata (from_const_generic address_bytes)
    spend ← read_key
    view ← read_key
    kind ← read_features kind
    kind ← read_payment_id kind
    _ ← check_end
    pure (record { network = network; kind = kind; spend = spend; view = view })

  abbrev pub parsed : Option (List ℕ) → Result AddressError (Address Point)
  parsed none = err invalid_encoding
  parsed (some raw) = elim (parse raw) [ ok (address, rest) ↦ ok address | err e ↦ err e ]

  unfoldable pub from_str_with_unchecked_network : List ℕ → Result AddressError (Address Point)
  unfolding parse
  from_str_with_unchecked_network s = parsed (decode_check keccak256 s)

  -- `and_then` with the check of the network.
  abbrev pub on_network :
      Network → Result AddressError (Address Point) → Result AddressError (Address Point)
  on_network expected (err e) = err e
  on_network expected (ok address) =
      if same_network address.network expected
      then ok address
      else err (different_network expected address.network)

  unfoldable pub from_str : Network → List ℕ → Result AddressError (Address Point)
  unfolding from_str_with_unchecked_network
  from_str network s = on_network network (from_str_with_unchecked_network s)

-- The match of `with_payment_id`.
abbrev pub kind_with_payment_id : AddressType → List ℕ → Result AddressError AddressType
kind_with_payment_id legacy id = ok (legacy_integrated id)
kind_with_payment_id (legacy_integrated _) id = ok (legacy_integrated id)
kind_with_payment_id subaddress id = err payment_ids_unsupported
kind_with_payment_id (featured sub _ guaranteed) id = ok (featured sub (some id) guaranteed)

unfoldable pub with_payment_id {ℓ} :
    {Point : Type ℓ} → Address Point → List ℕ → Result AddressError (Address Point)
with_payment_id self id = elim (kind_with_payment_id self.kind id) [
  | ok kind ↦ ok (record self { kind = kind })
  | err e ↦ err e
]
