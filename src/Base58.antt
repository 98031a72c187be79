-- ===== src/Base58.antt =====
-- monero-oxide/wallet/base58/src/lib.rs: Monero's base58, in blocks of eight bytes. A string is its
-- bytes, all ASCII. `keccak256` stands for the hash function of sha3. The outer `none` of `encode`
-- is a panic, that of an index out of bounds.
pub mod Digits
pub mod Checksum
pub mod RoundTrip
pub mod Blocks
use monero_oxide.Common.{
  ℕ, zero, suc, ◌+◌, ◌-◌, ◌*◌, ◌/◌, ◌%◌, ◌^◌, Bool, true, false, ◌&&◌, ◌==◌, ltb, Option, none,
  some, List, [], ◌∷◌, ◌++◌, length, take, drop, replicate, get_elem?, set, if◌then◌else◌,
}
use mathlib.Core.List.{reverse}
use monero_oxide.Common.Bytes.{from_le_bytes, to_le_bytes}

abbrev pub alphabet_len : ℕ
alphabet_len = 58

-- b"123456789ABCDEFGHJKLMNPQRSTUVWXYZabcdefghijkmnopqrstuvwxyz"
abbrev pub alphabet : List ℕ
alphabet =
    49 ∷ 50 ∷ 51 ∷ 52 ∷ 53 ∷ 54 ∷ 55 ∷ 56 ∷ 57 ∷ 65 ∷ 66 ∷ 67 ∷ 68 ∷ 69 ∷ 70 ∷ 71 ∷ 72 ∷ 74 ∷ 75
    ∷ 76 ∷ 77 ∷ 78 ∷ 80 ∷ 81 ∷ 82 ∷ 83 ∷ 84 ∷ 85 ∷ 86 ∷ 87 ∷ 88 ∷ 89 ∷ 90 ∷ 97 ∷ 98 ∷ 99 ∷ 100 ∷ 101
    ∷ 102 ∷ 103 ∷ 104 ∷ 105 ∷ 106 ∷ 107 ∷ 109 ∷ 110 ∷ 111 ∷ 112 ∷ 113 ∷ 114 ∷ 115 ∷ 116 ∷ 117 ∷ 118
    ∷ 119 ∷ 120 ∷ 121 ∷ 122 ∷ []

abbrev pub block_len : ℕ
block_len = 8

abbrev pub encoded_block_len : ℕ
encoded_block_len = 11

abbrev pub checksum_len : ℕ
checksum_len = 4

-- A chain of computations that may panic or fail.
infixl 1 ◌>>=◌
abbrev pub ◌>>=◌ {ℓ κ} : {A : Type ℓ} {B : Type κ} → Option A → (A → Option B) → Option B
none >>= f = none
some a >>= f = f a

-- `while max != 0 { max /= ALPHABET_LEN; i += 1; }` on fuel, which is enough where it is the number
-- of bits of `max`.
unfoldable pub count_digits : ℕ → ℕ → ℕ
count_digits zero max = 0
count_digits (suc fuel) max = if max == 0 then 0 else suc (count_digits fuel (max / alphabet_len))

unfoldable pub encoded_len_for_bytes : ℕ → ℕ
unfolding count_digits
encoded_len_for_bytes bytes =
    let bits = bytes * 8 in count_digits 64 (if bits == 64 then 2 ^ 64 - 1 else 2 ^ bits - 1)

-- `slice.chunks(n)`, on as much fuel as there are elements.
unfoldable pub chunks_on : ℕ → ℕ → List ℕ → List (List ℕ)
chunks_on zero n xs = []
chunks_on (suc fuel) n [] = []
chunks_on (suc fuel) n (x ∷ xs) = take n (x ∷ xs) ∷ chunks_on fuel n (drop n (x ∷ xs))

abbrev pub chunks : ℕ → List ℕ → List (List ℕ)
chunks n xs = chunks_on (length xs) n xs

-- The loop over the digits of `val`, on fuel.
unfoldable pub put_digits : ℕ → ℕ → ℕ → List ℕ → Option (List ℕ)
put_digits zero val i chunk_str = some chunk_str
put_digits (suc fuel) val i chunk_str = if val == 0 then some chunk_str else do
  c ← get_elem? alphabet (val % alphabet_len)
  if ltb i (length chunk_str)
      then put_digits fuel (val / alphabet_len) (suc i) (set chunk_str i c)
      else none

-- `u64::from_be_bytes`
abbrev pub from_be_bytes : List ℕ → ℕ
from_be_bytes bytes = from_le_bytes (reverse bytes)

unfoldable pub encode_chunk : List ℕ → Option (List ℕ)
unfolding put_digits encoded_len_for_bytes
encode_chunk chunk = do
  chunk_str ←
      put_digits 64 (from_be_bytes (replicate (block_len - length chunk) 0 ++ chunk)) 0
        (replicate encoded_block_len 49)
  some (reverse (take (encoded_len_for_bytes (length chunk)) chunk_str))

unfoldable pub encode_chunks : List (List ℕ) → Option (List ℕ)
unfolding encode_chunk
encode_chunks [] = some []
encode_chunks (chunk ∷ rest) = do
  first ← encode_chunk chunk
  res ← encode_chunks rest
  some (first ++ res)

unfoldable pub encode : List ℕ → Option (List ℕ)
unfolding encode_chunks chunks_on
encode bytes = encode_chunks (chunks block_len bytes)

-- `ALPHABET.iter().position(|a| a == this_char)`, from an index.
unfoldable pub position_from : ℕ → List ℕ → ℕ → Option ℕ
position_from i [] this_char = none
position_from i (a ∷ rest) this_char =
    if a == this_char then some i else position_from (suc i) rest this_char

-- `checked_mul` and `checked_add` of `u64`
abbrev pub checked : ℕ → Option ℕ
checked v = if ltb v (2 ^ 64) then some v else none

unfoldable pub sum_chars : ℕ → List ℕ → Option ℕ
unfolding position_from
sum_chars sum [] = some sum
sum_chars sum (this_char ∷ chunk) = do
  product ← checked (sum * alphabet_len)
  digit ← position_from 0 alphabet this_char
  sum ← checked (product + digit)
  sum_chars sum chunk

-- `for i in 1 ..= BLOCK_LEN`, with so many of the indices left.
unfoldable pub used_bytes_from : ℕ → ℕ → ℕ → Option ℕ
unfolding encoded_len_for_bytes
used_bytes_from zero i len = none
used_bytes_from (suc left) i len =
    if encoded_len_for_bytes i == len then some i else used_bytes_from left (suc i) len

unfoldable pub all_zero : List ℕ → Bool
all_zero [] = true
all_zero (b ∷ bytes) = b == 0 && all_zero bytes

-- `u64::to_be_bytes`
abbrev pub to_be_bytes : ℕ → List ℕ
to_be_bytes v = reverse (to_le_bytes 8 v)

unfoldable pub decode_chunk : List ℕ → Option (List ℕ)
unfolding sum_chars used_bytes_from all_zero
decode_chunk chunk = do
  sum ← sum_chars 0 chunk
  used_bytes ← used_bytes_from block_len 1 (length chunk)
  if all_zero (take (block_len - used_bytes) (to_be_bytes sum))
      then some (drop (block_len - used_bytes) (to_be_bytes sum))
      else none

unfoldable pub decode_chunks : List (List ℕ) → Option (List ℕ)
unfolding decode_chunk
decode_chunks [] = some []
decode_chunks (chunk ∷ rest) = do
  first ← decode_chunk chunk
  res ← decode_chunks rest
  some (first ++ res)

unfoldable pub decode : List ℕ → Option (List ℕ)
unfolding decode_chunks chunks_on
decode text = decode_chunks (chunks encoded_block_len text)

-- `==` of slices
unfoldable pub same_bytes : List ℕ → List ℕ → Bool
same_bytes [] [] = true
same_bytes (x ∷ xs) (y ∷ ys) = x == y && same_bytes xs ys
same_bytes _ _ = false

module _ (keccak256 : List ℕ → List ℕ) where
  unfoldable pub encode_check : List ℕ → Option (List ℕ)
  unfolding encode
  encode_check payload = encode (payload ++ take checksum_len (keccak256 payload))

  -- The end of `decode_check`, at the position of the checksum.
  unfoldable pub check_at : ℕ → List ℕ → Option (List ℕ)
  unfolding same_bytes
  check_at checksum_pos res =
      if same_bytes (take checksum_len (keccak256 (take checksum_pos res))) (drop checksum_pos res)
      then some (take checksum_pos res)
      else none

  unfoldable pub decode_check : List ℕ → Option (List ℕ)
  unfolding decode check_at
  decode_check text = do
    res ← decode text
    if ltb (length res) checksum_len then none else check_at (length res - checksum_len) res
