-- ===== src/Transaction/Pruning.antt =====
-- monero-oxide/src/transaction.rs: the module `sealed`, where a transaction's signatures and proofs
-- are whole (`NotPruned`) or pruned (`Pruned`).
pub mod Laws
use monero_oxide.Common.{ℕ, Bool, Option, none, some, List, [], ◌∷◌, length}
use monero_oxide.Io.Reader.{Reader, pure, fail, ◌>>=◌}
use monero_oxide.RingSignatures.{RingSignature}
use monero_oxide.RingSignatures
use monero_oxide.Ringct.RctType.{RctType}
use monero_oxide.Ringct.Base.{RctBase}
use monero_oxide.Ringct.Base
use monero_oxide.Ringct.Proofs.{RctProofs, PrunedRctProofs}
use monero_oxide.Ringct.Proofs
use monero_oxide.Transaction.Input.{Input, gen, to_key}

-- The traits `PotentiallyPruned`, `PotentiallyPrunedRingSignatures` (with its `Default`) and
-- `PotentiallyPrunedRctProofs`. Readers are given the test of a scalar for being reduced.
pub record PotentiallyPruned : Type 1 where
  pub Signatures : Type 0
  pub default_signatures : Signatures
  pub signatures_to_write : Signatures → List RingSignature
  pub read_signatures : (List ℕ → Bool) → List Input → Reader Signatures
  pub Proofs : Type 0
  pub potentially_pruned_write : Proofs → List ℕ
  -- of the ring's length, and the numbers of inputs and outputs
  pub potentially_pruned_read : (List ℕ → Bool) → ℕ → ℕ → ℕ → Reader (Option Proofs)
  pub potentially_pruned_rct_type : Proofs → RctType
  pub base : Proofs → RctBase

-- What is written of proofs that may be missing.
abbrev pub write_proofs : (P : PotentiallyPruned) → Option P.Proofs → List ℕ
write_proofs P none = 0 ∷ []
write_proofs P (some proofs) = P.potentially_pruned_write proofs

-- `read_signatures` for `Vec<RingSignature>`: a ring signature for each input.
unfoldable pub read_ring_signatures : (List ℕ → Bool) → List Input → Reader (List RingSignature)
read_ring_signatures reduced [] = pure []
read_ring_signatures reduced (to_key amount key_offsets key_image ∷ inputs) = do
  signature ← RingSignatures.read reduced (length key_offsets)
  signatures ← read_ring_signatures reduced inputs
  pure (signature ∷ signatures)
read_ring_signatures reduced (gen height ∷ inputs) =
    fail "reading signatures for a transaction with non-`ToKey` inputs"

abbrev pub not_pruned : PotentiallyPruned
not_pruned = record {
  Signatures = List RingSignature;
  default_signatures = [];
  signatures_to_write = λ signatures. signatures;
  read_signatures = read_ring_signatures;
  Proofs = RctProofs;
  potentially_pruned_write = Proofs.write;
  potentially_pruned_read = Proofs.read;
  potentially_pruned_rct_type = Proofs.rct_type;
  base = λ proofs. proofs.base;
}

-- The type that was read, with the base.
abbrev pub pruned_proofs : Option (RctType × RctBase) → Option PrunedRctProofs
pruned_proofs none = none
pruned_proofs (some (rct_type, base)) = some (record { rct_type = rct_type; base = base })

unfoldable pub read_pruned_proofs : ℕ → ℕ → Reader (Option PrunedRctProofs)
read_pruned_proofs inputs outputs = do
  typed_base ← Base.read inputs outputs
  pure (pruned_proofs typed_base)

abbrev pub pruned : PotentiallyPruned
pruned = record {
  Signatures = Unit {0};
  default_signatures = tt;
  signatures_to_write = λ _. [];
  read_signatures = λ _ _. pure tt;
  Proofs = PrunedRctProofs;
  potentially_pruned_write = λ proofs. Base.write proofs.rct_type proofs.base;
  potentially_pruned_read = λ _ _ inputs outputs. read_pruned_proofs inputs outputs;
  potentially_pruned_rct_type = λ proofs. proofs.rct_type;
  base = λ proofs. proofs.base;
}
