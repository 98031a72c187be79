-- ===== src/Tests/Addresses.antt =====
-- monero-oxide/wallet/base58/src/lib.rs and monero-oxide/wallet/address/src/lib.rs at concrete
-- inputs.
use monero_oxide.Common.{
  ℕ, ◌%◌, ◌≡◌, refl, arith, Bool, true, false, some, List, [], ◌∷◌, ok, err, length, replicate,
  if◌then◌else◌,
}
use monero_oxide.Common.Bytes.{IsBytes}
use monero_oxide.Base58.{encode, decode, encode_check, decode_check}
use monero_oxide.Base58.RoundTrip.{decode-encode}
use monero_oxide.Base58.Checksum.{decode_check-encode_check}
use monero_oxide.Address.Bytes.{
  mainnet, stagenet, featured, different_network, monero, new_networked, all_distinct, no_other,
  to_const_generic, bytes_to_u32, monero_bytes, monero_mainnet_bytes, monero_stagenet_bytes,
  monero_testnet_bytes,
}
use monero_oxide.Address.{
  Address, to_string, from_str, from_str_with_unchecked_network, same_network,
}
use monero_oxide.Address.RoundTrip.{from_str-to_string}
use monero_oxide.Tests.Values.{all_bytes, all_bytes-IsBytes}
use monero_oxide.Tests.Wallet.{bits, bits-IsEncoding}

-- A hash function of 32 bytes.
abbrev length_hash : List ℕ → List ℕ
length_hash bytes = (length bytes % 256) ∷ replicate 31 0

length_hash-IsBytes : (bytes : List ℕ) → IsBytes (length_hash bytes)
unfolding all_bytes
length_hash-IsBytes bytes = (omega arith, all_bytes-IsBytes (replicate 31 0) refl)

abbrev ten_bytes : List ℕ
ten_bytes = 0 ∷ 0 ∷ 255 ∷ 1 ∷ 2 ∷ 3 ∷ 4 ∷ 5 ∷ 6 ∷ 7 ∷ []

ten_bytes-IsBytes : IsBytes ten_bytes
unfolding all_bytes
ten_bytes-IsBytes = all_bytes-IsBytes ten_bytes refl

decode-encode_example :
    (chars : List ℕ) × (encode ten_bytes ≡ some chars) × (decode chars ≡ some ten_bytes)
decode-encode_example = decode-encode ten_bytes ten_bytes-IsBytes

decode_check-encode_check_example :
    (text : List ℕ) × (encode_check length_hash ten_bytes ≡ some text)
    × (decode_check length_hash text ≡ some ten_bytes)
decode_check-encode_check_example =
    decode_check-encode_check length_hash (λ bytes. refl) length_hash-IsBytes ten_bytes
      ten_bytes-IsBytes

-- Monero's bytes pass the checks that the source makes when it is compiled.
monero_bytes_distinct :
    new_networked monero_mainnet_bytes monero_stagenet_bytes monero_testnet_bytes
    ≡ some monero_bytes
unfolding new_networked all_distinct no_other to_const_generic bytes_to_u32
monero_bytes_distinct = refl

abbrev featured_address : Address Bool
featured_address = record {
  network = mainnet;
  kind = featured true (some (1 ∷ 2 ∷ 3 ∷ 4 ∷ 5 ∷ 6 ∷ 7 ∷ 8 ∷ [])) false;
  spend = true;
  view = false;
}

from_str-to_string_example :
    (s : List ℕ) × (to_string bits length_hash monero featured_address ≡ some s)
    × (from_str_with_unchecked_network bits length_hash monero s ≡ ok featured_address)
    × (from_str bits length_hash monero stagenet s ≡ (
        if same_network mainnet stagenet
        then ok featured_address
        else err (different_network stagenet mainnet)))
unfolding all_bytes
from_str-to_string_example =
    from_str-to_string bits length_hash bits-IsEncoding stagenet featured_address (λ bytes. refl)
      length_hash-IsBytes (refl, all_bytes-IsBytes (1 ∷ 2 ∷ 3 ∷ 4 ∷ 5 ∷ 6 ∷ 7 ∷ 8 ∷ []) refl)
