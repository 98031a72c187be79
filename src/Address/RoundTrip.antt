-- ===== src/Address/RoundTrip.antt =====
-- monero-oxide/wallet/address/src/lib.rs: Monero's addresses parsed from the strings that display
-- them.
use monero_oxide.Common.{
  ℕ, ◌/◌, ◌^◌, ◌<◌, ◌≡◌, refl, ap, subst, arith, Bool, true, false, Option, none, some, List, [],
  ◌∷◌, ◌++◌, append-nil, ok, err, length, replicate, ◌!=◌, if◌then◌else◌, All-append,
}
use monero_oxide.Common.Bytes.{IsByte, IsBytes}
use monero_oxide.Io.Reader.{Reader, read_byte, read_bytes}
use monero_oxide.Io.Parses.{Parses}
use monero_oxide.Io.Primitives.{IsArray, read_bytes-Parses}
use monero_oxide.Io.VarInt
use monero_oxide.Io.VarInt.RoundTrip.{read-Parses as varint-Parses}
use monero_oxide.Io.VarInt.Steps.{write_last}
use monero_oxide.Ed25519.{read_point}
use monero_oxide.Ed25519.Laws.{read_point-Parses}
use monero_oxide.Ringct.Clsag.Decoys.{Encoding}
use monero_oxide.Ringct.Clsag.Decoys.RoundTrip.{IsEncoding}
use monero_oxide.Base58.Checksum.{decode_check-encode_check}
use monero_oxide.Address.Bytes.{
  Network, mainnet, stagenet, testnet, AddressType, legacy, legacy_integrated, subaddress, featured,
  from_const_generic, to_const_generic, byte, bytes_from_u32, bytes_to_u32, monero, search_networks,
  different_network, metadata_from_byte,
}
use monero_oxide.Address.{
  Address, id_bytes, payment_id, features_uint, features_bytes, or_length, read_metadata,
  features_kind, read_features, read_payment_id, to_data, to_string, decompress_key, read_key,
  parse, from_str_with_unchecked_network, from_str, parsed, on_network, same_network, ◌>>=◌,
}

-- The payment ID of a type, if it has one, is an array of eight bytes.
abbrev pub IsValid : AddressType → Type 0
IsValid (legacy_integrated id) = IsArray 8 id
IsValid (featured sub (some id) guaranteed) = IsArray 8 id
IsValid _ = Unit {0}

-- The type that a byte and the features give, before the payment ID is read.
abbrev without_id : AddressType → AddressType
without_id (legacy_integrated id) = legacy_integrated (replicate 8 0)
without_id (featured sub (some id) guaranteed) = featured sub (some (replicate 8 0)) guaranteed
without_id kind = kind

abbrev only_byte : AddressType → AddressType
only_byte (legacy_integrated id) = legacy_integrated (replicate 8 0)
only_byte (featured sub id guaranteed) = featured false none false
only_byte kind = kind

or_length-run {ℓ} :
    {A : Type ℓ} (p : Reader A) (bytes rest : List ℕ) (a : A)
    → Parses p bytes a
    → or_length p (bytes ++ rest) ≡ ok (a, rest)
or_length-run p bytes rest a h = rw (h.run rest, or_length) refl

metadata_lem :
    (network : Network) (kind : AddressType)
    → metadata_from_byte (from_const_generic monero) (byte (from_const_generic monero) network kind)
      ≡ ok (network, only_byte kind)
unfolding metadata_from_byte byte from_const_generic bytes_from_u32 monero to_const_generic
    bytes_to_u32 search_networks
metadata_lem mainnet legacy = refl
metadata_lem mainnet (legacy_integrated id) = refl
metadata_lem mainnet subaddress = refl
metadata_lem mainnet (featured sub id guaranteed) = refl
metadata_lem stagenet legacy = refl
metadata_lem stagenet (legacy_integrated id) = refl
metadata_lem stagenet subaddress = refl
metadata_lem stagenet (featured sub id guaranteed) = refl
metadata_lem testnet legacy = refl
metadata_lem testnet (legacy_integrated id) = refl
metadata_lem testnet subaddress = refl
metadata_lem testnet (featured sub id guaranteed) = refl

read_metadata_lem :
    (network : Network) (kind : AddressType) (rest : List ℕ)
    → read_metadata
        (from_const_generic monero)
        (byte (from_const_generic monero) network kind ∷ rest)
      ≡ ok ((network, only_byte kind), rest)
unfolding read_metadata read_byte
read_metadata_lem network kind rest = rw (metadata_lem network kind, ◌>>=◌) refl

-- The features of a type fit three bits, and are read as that type's.
features_lem :
    (sub : Bool) (id : Option (List ℕ)) (guaranteed : Bool)
    → (features_uint sub id guaranteed < 8)
      × (features_kind (features_uint sub id guaranteed) ≡ without_id (featured sub id guaranteed))
unfolding features_uint
features_lem true none true = (omega arith, refl)
features_lem true none false = (omega arith, refl)
features_lem true (some id) true = (omega arith, refl)
features_lem true (some id) false = (omega arith, refl)
features_lem false none true = (omega arith, refl)
features_lem false none false = (omega arith, refl)
features_lem false (some id) true = (omega arith, refl)
features_lem false (some id) false = (omega arith, refl)

read_features_lem :
    (kind : AddressType) (rest : List ℕ)
    → read_features (only_byte kind) (features_bytes kind ++ rest) ≡ ok (without_id kind, rest)
unfolding read_features features_bytes
read_features_lem legacy rest = refl
read_features_lem (legacy_integrated id) rest = refl
read_features_lem subaddress rest = refl
read_features_lem (featured sub id guaranteed) rest =
    let (few, kind) = features_lem sub id guaranteed in
    let uint = features_uint sub id guaranteed in
    let known : (uint / 2 ^ 3 != 0) ≡ false = ground arith in
    rw
      (
        or_length-run VarInt.read_varint_u64 (VarInt.write uint) rest uint
            (varint-Parses 64 uint (omega arith) (omega arith)),
        ◌>>=◌,
        known,
        kind,
      )
      refl

id_lem : (id : List ℕ) → length id ≡ 8 → or_length (read_bytes 8) id ≡ ok (id, [])
id_lem id len =
    subst (λ t. or_length (read_bytes 8) t ≡ ok (id, [])) (append-nil id)
      (or_length-run (read_bytes 8) id [] id (read_bytes-Parses 8 id len))

read_payment_id_lem :
    (kind : AddressType)
    → IsValid kind
    → read_payment_id (without_id kind) (id_bytes (payment_id kind)) ≡ ok (kind, [])
unfolding read_payment_id
read_payment_id_lem legacy h = refl
read_payment_id_lem (legacy_integrated id) (len, good) = rw (id_lem id len, ◌>>=◌) refl
read_payment_id_lem subaddress h = refl
read_payment_id_lem (featured sub none guaranteed) h = refl
read_payment_id_lem (featured sub (some id) guaranteed) (len, good) = rw (id_lem id len, ◌>>=◌) refl

byte-IsByte :
    (network : Network) (kind : AddressType) → byte (from_const_generic monero) network kind < 256
unfolding byte from_const_generic bytes_from_u32 monero to_const_generic bytes_to_u32
byte-IsByte mainnet legacy = omega arith
byte-IsByte mainnet (legacy_integrated id) = omega arith
byte-IsByte mainnet subaddress = omega arith
byte-IsByte mainnet (featured sub id guaranteed) = omega arith
byte-IsByte stagenet legacy = omega arith
byte-IsByte stagenet (legacy_integrated id) = omega arith
byte-IsByte stagenet subaddress = omega arith
byte-IsByte stagenet (featured sub id guaranteed) = omega arith
byte-IsByte testnet legacy = omega arith
byte-IsByte testnet (legacy_integrated id) = omega arith
byte-IsByte testnet subaddress = omega arith
byte-IsByte testnet (featured sub id guaranteed) = omega arith

features-IsBytes : (kind : AddressType) → IsBytes (features_bytes kind)
unfolding features_bytes
features-IsBytes legacy = tt
features-IsBytes (legacy_integrated id) = tt
features-IsBytes subaddress = tt
features-IsBytes (featured sub id guaranteed) =
    let (few, _) = features_lem sub id guaranteed in
    rw (write_last (features_uint sub id guaranteed) (omega arith)) (omega arith, tt)

id-IsBytes : (kind : AddressType) → IsValid kind → IsBytes (id_bytes (payment_id kind))
id-IsBytes legacy h = tt
id-IsBytes (legacy_integrated id) (len, good) = good
id-IsBytes subaddress h = tt
id-IsBytes (featured sub none guaranteed) h = tt
id-IsBytes (featured sub (some id) guaranteed) (len, good) = good

module _ {ℓ} {Point : Type ℓ} (encoding : Encoding Point) (keccak256 : List ℕ → List ℕ)
    (points : IsEncoding encoding) where
  read_key_lem :
      (point : Point) (rest : List ℕ)
      → read_key encoding keccak256 monero (encoding.compress point ++ rest) ≡ ok (point, rest)
  unfolding read_key
  read_key_lem point rest =
      let key = encoding.compress point in
      let got : read_point (key ++ rest) ≡ ok (key, rest) =
        (read_point-Parses key (points.size point)).run rest in
      rw (got, read_key, decompress_key, points.back point) refl

  parse_lem :
      (address : Address Point)
      → IsValid address.kind
      → parse encoding keccak256 monero (to_data encoding keccak256 monero address)
        ≡ ok (address, [])
  unfolding parse to_data
  parse_lem address h =
      let kind = address.kind in
      let ids = id_bytes (payment_id kind) in
      let tail = features_bytes kind ++ ids in
      rw
        (
          read_metadata_lem address.network kind
              (encoding.compress address.spend ++ (encoding.compress address.view ++ tail)),
          ◌>>=◌,
          read_key_lem address.spend (encoding.compress address.view ++ tail),
          read_key_lem address.view tail,
          read_features_lem kind ids,
          read_payment_id_lem kind h,
        )
        refl

  data_IsBytes :
      (address : Address Point)
      → IsValid address.kind
      → IsBytes (to_data encoding keccak256 monero address)
  unfolding to_data
  data_IsBytes address h =
      let kind = address.kind in
      (
        byte-IsByte address.network kind,
        All-append IsByte (encoding.compress address.spend) _ (points.size address.spend).1 (
            All-append IsByte (encoding.compress address.view) _ (points.size address.view).1 (
              All-append IsByte (features_bytes kind) (id_bytes (payment_id kind))
                (features-IsBytes kind) (id-IsBytes kind h))),
      )

  -- An address of Monero, whose payment ID is of eight bytes if it has one, is displayed without a
  -- panic as a string from which the same address is parsed, and which is refused with the two
  -- networks where another network is expected; the hash function is one of arrays of 32 bytes, and
  -- points are decompressed from what they are compressed to.
  pub from_str-to_string :
      (expected : Network) (address : Address Point)
      → ((bytes : List ℕ) → length (keccak256 bytes) ≡ 32)
      → ((bytes : List ℕ) → IsBytes (keccak256 bytes))
      → IsValid address.kind
      → (s : List ℕ) × (to_string encoding keccak256 monero address ≡ some s)
        × (from_str_with_unchecked_network encoding keccak256 monero s ≡ ok address)
        × (from_str encoding keccak256 monero expected s ≡ (
            if same_network address.network expected
            then ok address
            else err (different_network expected address.network)))
  unfolding to_string from_str_with_unchecked_network from_str
  from_str-to_string expected address hash_len hash_bytes h =
      let (s, shown, checked) =
        decode_check-encode_check keccak256 hash_len hash_bytes
          (to_data encoding keccak256 monero address) (data_IsBytes address h) in
      let whole : from_str_with_unchecked_network encoding keccak256 monero s ≡ ok address =
        rw (checked, parsed, parse_lem address h) refl in
      (s, shown, whole, ap (on_network encoding keccak256 monero expected) whole)
