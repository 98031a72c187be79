-- ===== src/Block.antt =====
-- monero-oxide/src/block.rs: blocks, which hold the miner's transaction and the hashes of the others.
pub mod Header
pub mod Laws
pub mod Hashing
use monero_oxide.Common.{
  ℕ, zero, suc, ◌+◌, ◌==◌, ◌&&◌, leb, Bool, true, false, Option, none, some, List, [], ◌∷◌, ◌++◌,
  length, if◌then◌else◌, ok, err,
}
use monero_oxide.Io.Reader.{Reader, pure, fail, fail_if, other, ◌>>=◌, ◌>>◌, read_bytes}
use monero_oxide.Io.VarInt
use monero_oxide.Io.Vec.{read_raw_vec, write_raw_vec}
use monero_oxide.Io.Primitives.{write_all}
use monero_oxide.Merkle.{merkle_root}
use monero_oxide.Transaction.Input.{Input, gen, to_key}
use monero_oxide.Transaction.Prefix.{TransactionPrefix}
use monero_oxide.Transaction.Pruning.{not_pruned}
use monero_oxide.Transaction.Whole
use monero_oxide.Transaction.Whole.{Transaction, prefix}
use monero_oxide.Block.Header.{BlockHeader}
use monero_oxide.Block.Header

abbrev pub correct_block_hash_202612 : List ℕ
correct_block_hash_202612 =
    0x42 ∷ 0x6d ∷ 0x16 ∷ 0xcf ∷ 0xf0 ∷ 0x4c ∷ 0x71 ∷ 0xf8 ∷ 0xb1 ∷ 0x63 ∷ 0x40 ∷ 0xb7 ∷ 0x22 ∷ 0xdc
    ∷ 0x40 ∷ 0x10 ∷ 0xa2 ∷ 0xdd ∷ 0x38 ∷ 0x31 ∷ 0xc2 ∷ 0x20 ∷ 0x41 ∷ 0x43 ∷ 0x1f ∷ 0x77 ∷ 0x25
    ∷ 0x47 ∷ 0xba ∷ 0x6e ∷ 0x33 ∷ 0x1a ∷ []

abbrev pub existing_block_hash_202612 : List ℕ
existing_block_hash_202612 =
    0xbb ∷ 0xd6 ∷ 0x04 ∷ 0xd2 ∷ 0xba ∷ 0x11 ∷ 0xba ∷ 0x27 ∷ 0x93 ∷ 0x5e ∷ 0x00 ∷ 0x6e ∷ 0xd3 ∷ 0x9c
    ∷ 0x9b ∷ 0xfd ∷ 0xd9 ∷ 0x9b ∷ 0x76 ∷ 0xbf ∷ 0x4a ∷ 0x50 ∷ 0x65 ∷ 0x4b ∷ 0xc1 ∷ 0xe1 ∷ 0xe6
    ∷ 0x12 ∷ 0x17 ∷ 0x96 ∷ 0x26 ∷ 0x98 ∷ []

pub record Block : Type 0 where
  pub header : BlockHeader
  pub miner_transaction : Transaction not_pruned
  pub transactions : List (List ℕ)

-- `Block::MAX_TRANSACTIONS`
abbrev pub max_transactions : ℕ
max_transactions = 0x1000_0000

-- One input, which is a miner's.
abbrev pub is_single_gen : List Input → Bool
is_single_gen (gen height ∷ []) = true
is_single_gen _ = false

-- `Block::new`
unfoldable pub new : BlockHeader → Transaction not_pruned → List (List ℕ) → Option Block
unfolding prefix
new header miner_transaction transactions =
    if is_single_gen (prefix not_pruned miner_transaction).inputs
    then some (record {
      header = header;
      miner_transaction = miner_transaction;
      transactions = transactions;
    })
    else none

-- `none` is the panic on a miner's transaction that no block is made of.
abbrev pub first_number : List Input → Option ℕ
first_number (gen height ∷ inputs) = some height
first_number _ = none

unfoldable pub number : Block → Option ℕ
unfolding prefix
number block = first_number (prefix not_pruned block.miner_transaction).inputs

unfoldable pub write : Block → List ℕ
write block =
    Header.write block.header
    ++ (Whole.write not_pruned block.miner_transaction
        ++ (VarInt.write (length block.transactions) ++ write_raw_vec write_all block.transactions))

-- `.ok_or_else(|| ...)`
unfoldable pub checked : Option Block → Reader Block
checked none = fail "block failed sanity checks"
checked (some block) = pure block

-- The test of a scalar for being reduced is given to the reader of the transaction.
unfoldable pub read : (List ℕ → Bool) → Reader Block
unfolding checked
read reduced = do
  header ← Header.read
  miner_transaction ← Whole.read not_pruned reduced
  count ← VarInt.read_varint_usize
  fail_if (leb max_transactions count) "amount of transaction exceeds limit"
  transactions ← read_raw_vec (read_bytes 32) count
  checked (new header miner_transaction transactions)

-- `==` on hashes
abbrev pub same_bytes : List ℕ → List ℕ → Bool
same_bytes [] [] = true
same_bytes [] (b ∷ ys) = false
same_bytes (a ∷ xs) [] = false
same_bytes (a ∷ xs) (b ∷ ys) = a == b && same_bytes xs ys

-- The hash of one block is not the one that the network uses.
abbrev pub replace_202612 : List ℕ → List ℕ
replace_202612 h = if same_bytes h correct_block_hash_202612 then existing_block_hash_202612 else h

module _ (keccak256 : List ℕ → List ℕ) where
  -- The bytes behind the header, where `none` is a panic: on the hash of the miner's transaction, or
  -- on a root that is missing.
  abbrev pub with_root : BlockHeader → ℕ → Option (Option (List ℕ)) → Option (List ℕ)
  with_root header count (some (some root)) =
      some (Header.write header ++ (root ++ VarInt.write count))
  with_root header count (some none) = none
  with_root header count none = none

  abbrev pub with_miner : Block → Option (List ℕ) → Option (List ℕ)
  with_miner block none = none
  with_miner block (some miner) =
      with_root block.header (1 + length block.transactions)
        (merkle_root keccak256 (miner ∷ block.transactions))

  unfoldable pub serialize_pow_hash : Block → Option (List ℕ)
  serialize_pow_hash block = with_miner block (Whole.hash keccak256 block.miner_transaction)

  abbrev pub hash_blob : Option (List ℕ) → Option (List ℕ)
  hash_blob none = none
  hash_blob (some hashable) =
      some (replace_202612 (keccak256 (VarInt.write (length hashable) ++ hashable)))

  unfoldable pub hash : Block → Option (List ℕ)
  unfolding serialize_pow_hash
  hash block = hash_blob (serialize_pow_hash block)
