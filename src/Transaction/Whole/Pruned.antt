-- ===== src/Transaction/Whole/Pruned.antt =====
-- monero-oxide/src/transaction.rs: a pruned transaction against the whole one.
use mathlib.Core.Option
use monero_oxide.Common.{ℕ, ◌≡◌, ◌≢◌, refl, arith, Option, none, some, List, ◌++◌, append_assoc}
use monero_oxide.Io.Vec.{write_raw_vec}
use monero_oxide.Ringct.Proofs
use monero_oxide.Ringct.Proofs.{RctProofs, PrunedRctProofs}
use monero_oxide.Transaction.Pruning.{not_pruned, pruned, write_proofs}
use monero_oxide.Transaction.Whole.{
  Transaction, v1, v2, prune_proofs, write_prunable, write, version, from, pruned_with_prunable,
  prunable_hash, hash, signature_hash, hash_with_prunable_hash, hash_with_prunable_hash_internal,
}

write_proofs-pruned :
    (proofs : Option RctProofs)
    → write_proofs not_pruned proofs
      ≡ write_proofs pruned (Option.map prune_proofs proofs) ++ write_prunable proofs
unfolding Proofs.write
write_proofs-pruned none = refl
write_proofs-pruned (some proofs) = refl

-- The bytes written of a transaction are those written of its pruned part, and then its prunable
-- part as `pruned_with_prunable` serializes it; and the pruned part is what `From` converts the
-- transaction to.
pub pruned_with_prunable_lem :
    (tx : Transaction not_pruned)
    → (write not_pruned tx
        ≡ write pruned (pruned_with_prunable tx).0 ++ (pruned_with_prunable tx).1)
      × ((pruned_with_prunable tx).0 ≡ from tx)
unfolding write version pruned_with_prunable from write_raw_vec
pruned_with_prunable_lem (v1 p signatures) = (simp append_assoc, refl)
pruned_with_prunable_lem (v2 p proofs) = (rw (write_proofs-pruned proofs) (simp append_assoc), refl)

module _ (keccak256 : List ℕ → List ℕ) where
  -- A pruned transaction has the hash of the whole one, given the prunable hash of the whole one.
  pub hash-from :
      (tx : Transaction not_pruned) (h : List ℕ)
      → prunable_hash keccak256 tx ≡ some h
      → hash_with_prunable_hash keccak256 (from tx) h ≡ some (hash keccak256 tx)
  unfolding hash_with_prunable_hash hash prunable_hash from hash_with_prunable_hash_internal
      Proofs.rct_type
  hash-from (v1 p signatures) h e = cc
  hash-from (v2 p none) h e = cc
  hash-from (v2 p (some proofs)) h e = cc

  -- No hash of a transaction panics: `hash` returns a hash, and so do `signature_hash` and
  -- `hash_with_prunable_hash` where they return anything.
  pub hash_panics_not :
      (tx : Transaction not_pruned) (small : Transaction pruned) (given : List ℕ)
      → (hash keccak256 tx ≢ none)
        × (signature_hash keccak256 tx ≢ some none)
        × (hash_with_prunable_hash keccak256 small given ≢ some none)
  unfolding hash_with_prunable_hash signature_hash hash prunable_hash
      hash_with_prunable_hash_internal
  hash_panics_not tx small given = ground arith
