-- ===== src/Address/Bytes.antt =====
-- monero-oxide/wallet/address/src/lib.rs: the bytes that tell an address's network and type.
use monero_oxide.Common.{
  ℕ, zero, suc, ◌+◌, ◌-◌, ◌*◌, ◌/◌, ◌%◌, ◌^◌, Bool, true, false, ◌||◌, ◌&&◌, Option, none, some,
  List, [], ◌∷◌, Result, ok, err, ◌==◌, bit_and, replicate, if◌then◌else◌,
}

pub data Network : Type 0 where
  mainnet stagenet testnet : Network

-- A payment ID is an array of eight bytes.
pub data AddressType : Type 0 where
  legacy : AddressType
  legacy_integrated : List ℕ → AddressType
  subaddress : AddressType
  -- whether it is a subaddress, its payment ID, and whether it is guaranteed
  featured : Bool → Option (List ℕ) → Bool → AddressType

pub data AddressError : Type 0 where
  invalid_type_byte : ℕ → AddressError
  invalid_encoding invalid_length invalid_key : AddressError
  unknown_features : ℕ → AddressError
  different_network : Network → Network → AddressError
  payment_ids_unsupported : AddressError

-- The fields have a `_byte` where the source's names are those of types.
pub record AddressBytes : Type 0 where
  pub legacy_byte : ℕ
  pub legacy_integrated_byte : ℕ
  pub subaddress_byte : ℕ
  pub featured_byte : ℕ

unfoldable pub new_bytes : ℕ → ℕ → ℕ → ℕ → Option AddressBytes
new_bytes l i s f =
    if l == i || (l == s || l == f)
    then none
    else if i == s || i == f
    then none
    else if s == f
    then none
    else some (record {
      legacy_byte = l;
      legacy_integrated_byte = i;
      subaddress_byte = s;
      featured_byte = f;
    })

-- In a `u32`, which a sum of four bytes does not overflow.
unfoldable pub bytes_to_u32 : AddressBytes → ℕ
bytes_to_u32 self =
    self.legacy_byte * 2 ^ 24
    + self.legacy_integrated_byte * 2 ^ 16
    + self.subaddress_byte * 2 ^ 8
    + self.featured_byte

unfoldable pub bytes_from_u32 : ℕ → AddressBytes
bytes_from_u32 const_generic = record {
  legacy_byte = const_generic / 2 ^ 24 % 2 ^ 8;
  legacy_integrated_byte = bit_and (const_generic / 2 ^ 16) 255 % 2 ^ 8;
  subaddress_byte = bit_and (const_generic / 2 ^ 8) 255 % 2 ^ 8;
  featured_byte = bit_and const_generic 255 % 2 ^ 8;
}

pub record NetworkedAddressBytes : Type 0 where
  pub mainnet_bytes : AddressBytes
  pub stagenet_bytes : AddressBytes
  pub testnet_bytes : AddressBytes

unfoldable pub to_const_generic : NetworkedAddressBytes → ℕ
unfolding bytes_to_u32
to_const_generic self =
    bytes_to_u32 self.mainnet_bytes * 2 ^ 96
    + bytes_to_u32 self.stagenet_bytes * 2 ^ 64
    + bytes_to_u32 self.testnet_bytes * 2 ^ 32

unfoldable pub from_const_generic : ℕ → NetworkedAddressBytes
unfolding bytes_from_u32
from_const_generic const_generic = record {
  mainnet_bytes = bytes_from_u32 (const_generic / 2 ^ 96 % 2 ^ 32);
  stagenet_bytes = bytes_from_u32 (bit_and (const_generic / 2 ^ 64) (2 ^ 32 - 1) % 2 ^ 32);
  testnet_bytes = bytes_from_u32 (bit_and (const_generic / 2 ^ 32) (2 ^ 32 - 1) % 2 ^ 32);
}

abbrev pub byte_at : ℕ → ℕ → ℕ
byte_at all_bytes i = bit_and (all_bytes / 2 ^ (32 + i * 8)) 255

-- The inner loop of `new`, with so many of the indices `j` left, and the outer loop.
unfoldable pub no_other : ℕ → ℕ → ℕ → ℕ → Bool
no_other all_bytes i j zero = true
no_other all_bytes i j (suc left) =
    let rest = no_other all_bytes i (suc j) left in
    if i == j then rest else if byte_at all_bytes i == byte_at all_bytes j then false else rest

unfoldable pub all_distinct : ℕ → ℕ → ℕ → Bool
unfolding no_other
all_distinct all_bytes i zero = true
all_distinct all_bytes i (suc left) =
    let rest = all_distinct all_bytes (suc i) left in
    if no_other all_bytes i 0 12 then rest else false

unfoldable pub new_networked :
    AddressBytes → AddressBytes → AddressBytes → Option NetworkedAddressBytes
unfolding all_distinct to_const_generic
new_networked m s t =
    let res : NetworkedAddressBytes = record {
      mainnet_bytes = m;
      stagenet_bytes = s;
      testnet_bytes = t;
    } in
    if all_distinct (to_const_generic res) 0 12 then some res else none

abbrev pub network_bytes : NetworkedAddressBytes → Network → AddressBytes
network_bytes self mainnet = self.mainnet_bytes
network_bytes self stagenet = self.stagenet_bytes
network_bytes self testnet = self.testnet_bytes

abbrev pub kind_byte : AddressBytes → AddressType → ℕ
kind_byte bytes legacy = bytes.legacy_byte
kind_byte bytes (legacy_integrated id) = bytes.legacy_integrated_byte
kind_byte bytes subaddress = bytes.subaddress_byte
kind_byte bytes (featured sub id guaranteed) = bytes.featured_byte

unfoldable pub byte : NetworkedAddressBytes → Network → AddressType → ℕ
byte self network kind = kind_byte (network_bytes self network) kind

-- The match of `metadata_from_byte`.
abbrev pub kind_from_byte : AddressBytes → ℕ → Option AddressType
kind_from_byte bytes b =
    if b == bytes.legacy_byte
    then some legacy
    else if b == bytes.legacy_integrated_byte
    then some (legacy_integrated (replicate 8 0))
    else if b == bytes.subaddress_byte
    then some subaddress
    else if b == bytes.featured_byte
    then some (featured false none false)
    else none

unfoldable pub search_networks :
    NetworkedAddressBytes → ℕ → List Network → Result AddressError (Network × AddressType)
search_networks self b [] = err (invalid_type_byte b)
search_networks self b (network ∷ networks) = elim (kind_from_byte (network_bytes self network) b) [
  | some kind ↦ ok (network, kind)
  | none ↦ search_networks self b networks
]

unfoldable pub metadata_from_byte :
    NetworkedAddressBytes → ℕ → Result AddressError (Network × AddressType)
unfolding search_networks
metadata_from_byte self b = search_networks self b (mainnet ∷ testnet ∷ stagenet ∷ [])

abbrev pub monero_mainnet_bytes : AddressBytes
monero_mainnet_bytes = record {
  legacy_byte = 18;
  legacy_integrated_byte = 19;
  subaddress_byte = 42;
  featured_byte = 70;
}

abbrev pub monero_stagenet_bytes : AddressBytes
monero_stagenet_bytes = record {
  legacy_byte = 24;
  legacy_integrated_byte = 25;
  subaddress_byte = 36;
  featured_byte = 86;
}

abbrev pub monero_testnet_bytes : AddressBytes
monero_testnet_bytes = record {
  legacy_byte = 53;
  legacy_integrated_byte = 54;
  subaddress_byte = 63;
  featured_byte = 111;
}

abbrev pub monero_bytes : NetworkedAddressBytes
monero_bytes = record {
  mainnet_bytes = monero_mainnet_bytes;
  stagenet_bytes = monero_stagenet_bytes;
  testnet_bytes = monero_testnet_bytes;
}

-- The parameter of `MoneroAddress`.
unfoldable pub monero : ℕ
unfolding to_const_generic
monero = to_const_generic monero_bytes

-- The index of a subaddress, two `u32`s.
pub record SubaddressIndex : Type 0 where
  pub account : ℕ
  pub address : ℕ

unfoldable pub new_index : ℕ → ℕ → Option SubaddressIndex
new_index a b = if a == 0 && b == 0 then none else some (record { account = a; address = b })
