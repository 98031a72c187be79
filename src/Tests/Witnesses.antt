-- ===== src/Tests/Witnesses.antt =====
-- The theorems at the concrete values, and runs of the readers.
use monero_oxide.Common.{
  ℕ, ◌+◌, ◌*◌, ◌⊎◌, min, ◌^◌, ◌<◌, ◌≤◌, ◌≡◌, ◌≢◌, refl, arith, true, none, some, List, [], ◌∷◌,
  ◌++◌, length, replicate, ok,
}
use monero_oxide.Common.Bytes.{IsBytes, from_le_bytes}
use monero_oxide.Io.VarInt
use monero_oxide.Io.VarInt.RoundTrip.{read-write_varint}
use monero_oxide.Io.VarInt.Canonical.{read_canonical_varint}
use monero_oxide.Io.VarInt.Length.{length-write_varint, length-write_bounds}
use monero_oxide.Merkle.{merkle_root}
use monero_oxide.Merkle.Root.{root, pair_end, merkle_root_lem}
use monero_oxide.Ringct.Proofs
use monero_oxide.Transaction.Input
use monero_oxide.Transaction.Input.{gen}
use monero_oxide.Transaction.Output
use monero_oxide.Transaction.Timelock
use monero_oxide.Ringct.Base
use monero_oxide.Ringct.Bulletproof
use monero_oxide.Ringct.Bulletproof.Clawback.{IsResult, clawback_lem}
use monero_oxide.Io.Reader
use monero_oxide.Io.Vec
use monero_oxide.Transaction.Prefix
use monero_oxide.Transaction.Pruning
use monero_oxide.Transaction.Pruning.{not_pruned, pruned}
use monero_oxide.Transaction.Whole
use monero_oxide.Transaction.Whole.{
  from, v1, v2, pruned_with_prunable, prunable_hash, hash, signature_hash, hash_with_prunable_hash,
}
use monero_oxide.Transaction.Whole.Laws.{
  read-write_whole, read_canonical_whole, read-write-pruned, read_canonical_pruned,
}
use monero_oxide.Transaction.Whole.Pruned.{pruned_with_prunable_lem, hash-from, hash_panics_not}
use monero_oxide.Block
use monero_oxide.Block.Header
use monero_oxide.Block.{new, number, serialize_pow_hash, replace_202612}
use monero_oxide.Block.Laws.{read-write_block, read_canonical_block, new-number}
use monero_oxide.Block.Hashing.{hash_lem}
use monero_oxide.Transaction.Whole.Binding.{Collision, hash_binds}
use monero_oxide.Interface.FeeRate
use monero_oxide.Interface.FeeRate.Laws.{
  fee_from_weight_lem, weight_from_fee_lem, read-write_rate, read_canonical_rate,
}
use monero_oxide.Transaction.Timelock.Order.{partial_cmp_lem}
use monero_oxide.Tests.Values.{
  all_bytes, all_bytes-IsBytes, any_scalar, zeros, rct_tx, rct_tx-IsValid, rct_tx-IsValidPruned,
  miner_prefix, miner_tx, header, block, block-IsValid,
}

-- A function in the place of the hash function: the bytes summed up before zeros.
abbrev sum : List ℕ → ℕ
sum [] = 0
sum (b ∷ bytes) = b + sum bytes

abbrev toy_hash : List ℕ → List ℕ
toy_hash bytes = sum bytes ∷ replicate 31 0

read-write_varint_example : VarInt.read 64 (VarInt.write 300 ++ (1 ∷ 2 ∷ [])) ≡ ok (300, 1 ∷ 2 ∷ [])
read-write_varint_example = read-write_varint 64 300 (1 ∷ 2 ∷ []) (omega arith) (omega arith)

read_300 : VarInt.read 64 (0xac ∷ 2 ∷ 1 ∷ []) ≡ ok (300, 1 ∷ [])
unfolding VarInt.read VarInt.read_loop
read_300 = refl

read_canonical_varint_example : (0xac ∷ 2 ∷ 1 ∷ [] ≡ VarInt.write 300 ++ (1 ∷ [])) × (300 < 2 ^ 64)
read_canonical_varint_example =
    read_canonical_varint 64 (0xac ∷ 2 ∷ 1 ∷ []) 300 (1 ∷ []) (omega arith)
      (omega arith, (omega arith, (omega arith, tt))) read_300

length-write_varint_example : length (VarInt.write 300) ≡ VarInt.varint_len 300
length-write_varint_example = length-write_varint 300 (omega arith)

length-write_bounds_example :
    (VarInt.lower_bound ≤ length (VarInt.write 300))
    × (length (VarInt.write 300) ≤ VarInt.upper_bound 32)
length-write_bounds_example = length-write_bounds 32 300 (omega arith) (omega arith)

read-write_whole_example :
    Whole.read not_pruned any_scalar (Whole.write not_pruned rct_tx ++ (1 ∷ []))
    ≡ ok (rct_tx, 1 ∷ [])
read-write_whole_example = read-write_whole any_scalar rct_tx rct_tx-IsValid (1 ∷ [])

read-write-pruned_example :
    Whole.read pruned any_scalar (Whole.write pruned (from rct_tx) ++ (1 ∷ []))
    ≡ ok (from rct_tx, 1 ∷ [])
read-write-pruned_example = read-write-pruned any_scalar (from rct_tx) rct_tx-IsValidPruned (1 ∷ [])

read-write_block_example :
    Block.read any_scalar (Block.write block ++ (1 ∷ [])) ≡ ok (block, 1 ∷ [])
read-write_block_example = read-write_block any_scalar block block-IsValid (1 ∷ [])

pruned_with_prunable_lem_example :
    (Whole.write not_pruned rct_tx
      ≡ Whole.write pruned (pruned_with_prunable rct_tx).0 ++ (pruned_with_prunable rct_tx).1)
    × ((pruned_with_prunable rct_tx).0 ≡ from rct_tx)
pruned_with_prunable_lem_example = pruned_with_prunable_lem rct_tx

miner_prunable_hash : prunable_hash toy_hash miner_tx ≡ some zeros
unfolding prunable_hash
miner_prunable_hash = refl

hash-from_example :
    hash_with_prunable_hash toy_hash (from miner_tx) zeros ≡ some (hash toy_hash miner_tx)
hash-from_example = hash-from toy_hash miner_tx zeros miner_prunable_hash

hash_panics_not_example :
    (hash toy_hash rct_tx ≢ none)
    × (signature_hash toy_hash rct_tx ≢ some none)
    × (hash_with_prunable_hash toy_hash (from rct_tx) zeros ≢ some none)
hash_panics_not_example = hash_panics_not toy_hash rct_tx (from rct_tx) zeros

merkle_root_lem_example :
    merkle_root toy_hash (zeros ∷ zeros ∷ zeros ∷ [])
    ≡ some (some (root toy_hash 1 (pair_end toy_hash 1 (zeros ∷ zeros ∷ zeros ∷ []))))
merkle_root_lem_example =
    merkle_root_lem toy_hash 1 (zeros ∷ zeros ∷ zeros ∷ []) (omega arith) (omega arith)
      (omega arith)

new-block : new header miner_tx (zeros ∷ []) ≡ some block
unfolding new
new-block = refl

new-number_example :
    (n : ℕ) × (number block ≡ some n)
    × ((Whole.prefix not_pruned miner_tx).inputs ≡ gen n ∷ [])
    × (block ≡ record { header = header; miner_transaction = miner_tx; transactions = zeros ∷ [] })
new-number_example = new-number header miner_tx (zeros ∷ []) block new-block

-- The prefix of a miner's transaction as it is written, and the transaction without proofs.
abbrev miner_prefix_bytes : List ℕ
miner_prefix_bytes = 0 ∷ 1 ∷ 255 ∷ 5 ∷ 0 ∷ 0 ∷ []

abbrev miner_bytes : List ℕ
miner_bytes = 2 ∷ (miner_prefix_bytes ++ (0 ∷ []))

miner_bytes-IsBytes : IsBytes miner_bytes
miner_bytes-IsBytes = (
  omega arith,
  (
    omega arith,
    (omega arith, (omega arith, (omega arith, (omega arith, (omega arith, (omega arith, tt)))))),
  ),
)

read_miner : Whole.read not_pruned any_scalar miner_bytes ≡ ok (miner_tx, [])
unfolding Whole.read Whole.read_body Proofs.read Proofs.read_prunable Base.read Prefix.read
    Timelock.read Timelock.of_raw VarInt.read VarInt.read_loop VarInt.try_into Vec.read_vec
    Vec.read_raw_vec Input.read Input.read_gen Output.read Reader.read_byte Prefix.is_miner_tx
    Input.is_gen
read_miner = refl

read_canonical_whole_example :
    (miner_bytes ≡ Whole.write not_pruned miner_tx ++ []) × Whole.Laws.IsValid any_scalar miner_tx
read_canonical_whole_example =
    read_canonical_whole any_scalar miner_bytes miner_tx [] miner_bytes-IsBytes read_miner

read_miner_pruned : Whole.read pruned any_scalar miner_bytes ≡ ok (v2 miner_prefix none, [])
unfolding Whole.read Whole.read_body Pruning.read_pruned_proofs Base.read Prefix.read Timelock.read
    Timelock.of_raw VarInt.read VarInt.read_loop VarInt.try_into Vec.read_vec Vec.read_raw_vec
    Input.read Input.read_gen Output.read Reader.read_byte Prefix.is_miner_tx Input.is_gen
read_miner_pruned = refl

read_canonical_pruned_example :
    (miner_bytes ≡ Whole.write pruned (v2 miner_prefix none) ++ [])
    × Whole.Laws.IsValidPruned any_scalar (v2 miner_prefix none)
read_canonical_pruned_example =
    read_canonical_pruned any_scalar miner_bytes (v2 miner_prefix none) [] miner_bytes-IsBytes
      read_miner_pruned

abbrev block_bytes : List ℕ
block_bytes = (16 ∷ 16 ∷ 0 ∷ zeros) ++ ((9 ∷ 0 ∷ 0 ∷ 0 ∷ miner_bytes) ++ (1 ∷ zeros))

block_bytes-IsBytes : IsBytes block_bytes
unfolding all_bytes
block_bytes-IsBytes = all_bytes-IsBytes block_bytes refl

read-block : Block.read any_scalar block_bytes ≡ ok (block, [])
unfolding Block.read Block.checked Block.new Header.read Whole.read Whole.read_body Whole.prefix
    Proofs.read Proofs.read_prunable Base.read Prefix.read Timelock.read Timelock.of_raw VarInt.read
    VarInt.read_loop VarInt.try_into Vec.read_vec Vec.read_raw_vec Input.read Input.read_gen
    Output.read Reader.read_byte Reader.read_bytes Reader.read_u32 from_le_bytes Prefix.is_miner_tx
    Input.is_gen
read-block = refl

read_canonical_block_example :
    (block_bytes ≡ Block.write block ++ []) × Block.Laws.IsValid any_scalar block
read_canonical_block_example =
    read_canonical_block any_scalar block_bytes block [] block_bytes-IsBytes read-block

hash_lem_example :
    (miner root : List ℕ) × (Whole.hash toy_hash block.miner_transaction ≡ some miner)
    × (merkle_root toy_hash (miner ∷ block.transactions) ≡ some (some root))
    × (let blob =
          Header.write block.header ++ (root ++ VarInt.write (1 + length block.transactions)) in
        (serialize_pow_hash toy_hash block ≡ some blob)
        × (Block.hash toy_hash block
            ≡ some (replace_202612 (toy_hash (VarInt.write (length blob) ++ blob)))))
hash_lem_example = hash_lem toy_hash block (omega arith)

clawback_lem_example :
    IsResult true (min 5 Bulletproof.max_commitments) (Bulletproof.calculate_clawback true 5)
clawback_lem_example = clawback_lem true 5

hash_binds_example : (rct_tx ≡ rct_tx) ⊎ Collision toy_hash
hash_binds_example =
    hash_binds toy_hash any_scalar (λ bytes. refl) rct_tx rct_tx rct_tx-IsValid rct_tx-IsValid refl
      refl

partial_cmp_lem_example :
    (Timelock.write (Timelock.block 7) ≡ VarInt.write 7)
    × (Timelock.partial_cmp (Timelock.block 7) (Timelock.time 1_700_000_000) ≡ none)
partial_cmp_lem_example =
    partial_cmp_lem (Timelock.block 7) (Timelock.time 1_700_000_000) (omega arith, omega arith)
      (omega arith, omega arith)

abbrev rate : FeeRate.Rate
rate = record { per_weight = 20_000; mask = 10_000_000 }

rate-IsValid : FeeRate.Laws.IsValid rate
rate-IsValid = record {
  per_weight_pos = omega arith;
  per_weight = omega arith;
  mask_pos = omega arith;
  mask = omega arith;
}

fee_from_weight_lem_example :
    (k : ℕ) × (FeeRate.calculate_fee_from_weight rate 1501 ≡ k * 10_000_000)
    × (20_000 * 1501 ≤ k * 10_000_000)
    × (k * 10_000_000 < 20_000 * 1501 + 10_000_000)
    × (k * 10_000_000 < 2 ^ 128)
fee_from_weight_lem_example = fee_from_weight_lem rate 1501 rate-IsValid (omega arith)

-- The greatest rate and weight, whose fee is above `u64::MAX^2 - u64::MAX`.
greatest_fee :
    FeeRate.calculate_fee_from_weight
      (record { per_weight = 0xffff_ffff_ffff_ffff; mask = 1 })
      0xffff_ffff_ffff_ffff
    ≡ 0xffff_ffff_ffff_ffff * 0xffff_ffff_ffff_ffff
unfolding FeeRate.calculate_fee_from_weight
greatest_fee = refl

weight_from_fee_lem_example :
    (weight : ℕ) × (FeeRate.calculate_weight_from_fee rate 50_000 ≡ some weight)
    × (weight * 20_000 ≤ 50_000)
    × (50_000 < weight * 20_000 + 20_000)
weight_from_fee_lem_example = weight_from_fee_lem rate 50_000 rate-IsValid (omega arith)

read-write_rate_example : FeeRate.read (FeeRate.write rate ++ []) ≡ ok (rate, [])
read-write_rate_example = read-write_rate rate rate-IsValid []

abbrev rate_bytes : List ℕ
rate_bytes = 1 ∷ 0 ∷ 0 ∷ 0 ∷ 0 ∷ 0 ∷ 0 ∷ 0 ∷ 2 ∷ 0 ∷ 0 ∷ 0 ∷ 0 ∷ 0 ∷ 0 ∷ 0 ∷ []

rate_bytes-IsBytes : IsBytes rate_bytes
unfolding all_bytes
rate_bytes-IsBytes = all_bytes-IsBytes rate_bytes refl

read_rate : FeeRate.read rate_bytes ≡ ok (record { per_weight = 1; mask = 2 }, [])
unfolding FeeRate.read FeeRate.new FeeRate.checked Reader.read_bytes Reader.read_u64 from_le_bytes
read_rate = refl

read_canonical_rate_example :
    (rate_bytes ≡ FeeRate.write (record { per_weight = 1; mask = 2 }) ++ [])
    × FeeRate.Laws.IsValid (record { per_weight = 1; mask = 2 })
read_canonical_rate_example =
    read_canonical_rate rate_bytes (record { per_weight = 1; mask = 2 }) [] rate_bytes-IsBytes
      read_rate
