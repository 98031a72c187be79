-- ===== src/Block/Hashing.antt =====
-- monero-oxide/src/block.rs: what the hash of a block is a hash of.
use monero_oxide.Common.{
  ℕ, suc, ◌+◌, ◌^◌, ◌<◌, ◌≡◌, refl, ap, ◌∙◌, some, Option-cases, List, [], ◌∷◌, ◌++◌, length, inl,
  inr,
}
use monero_oxide.Io.VarInt
use monero_oxide.Merkle.{merkle_root}
use monero_oxide.Merkle.Root.{merkle_root_total}
use monero_oxide.Transaction.Whole
use monero_oxide.Transaction.Whole.Pruned.{hash_panics_not}
use monero_oxide.Transaction.Whole.{from}
use monero_oxide.Block.{Block, with_miner, serialize_pow_hash, hash_blob, replace_202612, hash}
use monero_oxide.Block.Header

module _ (keccak256 : List ℕ → List ℕ) where
  miner_hash :
      (block : Block) → (h : List ℕ) × (Whole.hash keccak256 block.miner_transaction ≡ some h)
  miner_hash block = elim (Option-cases (Whole.hash keccak256 block.miner_transaction)) [
    | inl panic ↦ absurd (
        (hash_panics_not keccak256 block.miner_transaction (from block.miner_transaction) []).0
          panic)
    | inr found ↦ found
  ]

  -- Where a block has fewer than `2 ^ 64 - 1` transactions besides the miner's, neither its proof of
  -- work preimage nor its hash panics: the preimage is the header, the Merkle root over the hash of
  -- the miner's transaction and the other hashes, and the number of them all; and the block's hash
  -- is that of this preimage behind its length, with the hash of block 202612 replaced.
  pub hash_lem :
      (block : Block)
      → suc (length block.transactions) < 2 ^ 64
      → (miner root : List ℕ) × (Whole.hash keccak256 block.miner_transaction ≡ some miner)
        × (merkle_root keccak256 (miner ∷ block.transactions) ≡ some (some root))
        × (let blob =
              Header.write block.header ++ (root ++ VarInt.write (1 + length block.transactions)) in
            (serialize_pow_hash keccak256 block ≡ some blob)
            × (hash keccak256 block
                ≡ some (replace_202612 (keccak256 (VarInt.write (length blob) ++ blob)))))
  unfolding serialize_pow_hash hash
  hash_lem block short =
      let (miner, m) = miner_hash block in
      let (root, r) = merkle_root_total keccak256 miner block.transactions short in
      let blob =
        Header.write block.header ++ (root ++ VarInt.write (1 + length block.transactions)) in
      let pow : serialize_pow_hash keccak256 block ≡ some blob =
        ap (with_miner keccak256 block) m ∙ rw r refl in
      (miner, root, m, r, (pow, ap (hash_blob keccak256) pow))
