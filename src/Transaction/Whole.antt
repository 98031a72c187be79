-- ===== src/Transaction/Whole.antt =====
-- monero-oxide/src/transaction.rs: `Transaction`, whole or pruned.
pub mod Laws
pub mod Pruned
pub mod Binding
use mathlib.Core.Option
use monero_oxide.Common.{
  ℕ, ◌+◌, ◌==◌, Bool, true, false, not, ◌||◌, ◌&&◌, Option, none, some, List, [], ◌∷◌, ◌++◌, length,
  replicate, if◌then◌else◌,
}
use monero_oxide.Io.Reader.{Reader, pure, fail, ◌>>=◌}
use monero_oxide.Io.VarInt
use monero_oxide.Io.Vec.{write_raw_vec}
use monero_oxide.RingSignatures
use monero_oxide.RingSignatures.{RingSignature}
use monero_oxide.Ringct.Bulletproof
use monero_oxide.Ringct.RctType
use monero_oxide.Ringct.Base
use monero_oxide.Ringct.Prunable
use monero_oxide.Ringct.Proofs
use monero_oxide.Ringct.Proofs.{RctProofs, PrunedRctProofs}
use monero_oxide.Transaction.Input.{Input, gen, to_key}
use monero_oxide.Transaction.Prefix
use monero_oxide.Transaction.Prefix.{TransactionPrefix, is_miner_tx}
use monero_oxide.Transaction.Pruning.{PotentiallyPruned, not_pruned, pruned, write_proofs}

pub data Transaction (P : PotentiallyPruned) : Type 0 where
  v1 : TransactionPrefix → P.Signatures → Transaction P
  v2 : TransactionPrefix → Option P.Proofs → Transaction P

pub data PrunableHash : Type 0 where
  of_signatures : List RingSignature → PrunableHash
  of_hash : List ℕ → PrunableHash

-- `(prefix.inputs.len() == 1) && matches!(prefix.inputs[0], Input::Gen(_))`
abbrev pub is_miner_v1 : List Input → Bool
is_miner_v1 inputs = length inputs == 1 && is_miner_tx inputs

-- The length of the first input's ring.
abbrev pub ring_length : List Input → ℕ
ring_length [] = 0
ring_length (gen height ∷ inputs) = 0
ring_length (to_key amount key_offsets key_image ∷ inputs) = length key_offsets

module _ (P : PotentiallyPruned) where
  unfoldable pub version : Transaction P → ℕ
  version (v1 p signatures) = 1
  version (v2 p proofs) = 2

  unfoldable pub prefix : Transaction P → TransactionPrefix
  prefix (v1 p signatures) = p
  prefix (v2 p proofs) = p

  unfoldable pub write : Transaction P → List ℕ
  unfolding version
  write (v1 p signatures) =
      VarInt.write (version (v1 p signatures))
      ++ (Prefix.write p ++ write_raw_vec RingSignatures.write (P.signatures_to_write signatures))
  write (v2 p proofs) =
      VarInt.write (version (v2 p proofs)) ++ (Prefix.write p ++ write_proofs P proofs)

  -- `hash_with_prunable_hash_internal`, where `none` is its panic.
  unfoldable pub hash_with_prunable_hash_internal :
      (List ℕ → List ℕ) → Transaction P → PrunableHash → Option (List ℕ)
  hash_with_prunable_hash_internal keccak256 (v1 p signatures) (of_signatures given) =
      some
        (keccak256 (VarInt.write 1 ++ (Prefix.write p ++ write_raw_vec RingSignatures.write given)))
  hash_with_prunable_hash_internal keccak256 (v1 p signatures) (of_hash prunable_hash) = none
  hash_with_prunable_hash_internal keccak256 (v2 p none) (of_hash prunable_hash) =
      some (keccak256 (Prefix.hash keccak256 2 p ++ (keccak256 (0 ∷ []) ++ prunable_hash)))
  hash_with_prunable_hash_internal keccak256 (v2 p (some proofs)) (of_hash prunable_hash) = some (
      keccak256 (
        Prefix.hash keccak256 2 p
        ++ (keccak256 (Base.write (P.potentially_pruned_rct_type proofs) (P.base proofs))
            ++ prunable_hash)))
  hash_with_prunable_hash_internal keccak256 (v2 p proofs) (of_signatures given) = none

-- `Transaction::read`, whose version is a `u64`. The test of a scalar for being reduced is given.
module _ (P : PotentiallyPruned) (reduced : List ℕ → Bool) where
  unfoldable pub read_v1_signatures : List Input → Reader P.Signatures
  read_v1_signatures inputs =
      if is_miner_v1 inputs then pure P.default_signatures else P.read_signatures reduced inputs

  unfoldable pub read_body : ℕ → TransactionPrefix → Reader (Transaction P)
  unfolding read_v1_signatures
  read_body v p =
      if v == 1
      then (read_v1_signatures p.inputs >>= λ signatures. pure (v1 p signatures))
      else if v == 2
      then (P.potentially_pruned_read reduced (ring_length p.inputs) (length p.inputs)
            (length p.outputs)
          >>= λ proofs. pure (v2 p proofs))
      else fail "tried to deserialize unknown version"

  unfoldable pub read : Reader (Transaction P)
  unfolding read_body
  read = do v ← VarInt.read_varint_u64; p ← Prefix.read v; read_body v p

-- `RctProofs` without what can be pruned.
abbrev pub prune_proofs : RctProofs → PrunedRctProofs
prune_proofs proofs = record { rct_type = Proofs.rct_type proofs; base = proofs.base }

-- `From<Transaction<NotPruned>> for Transaction<Pruned>`
unfoldable pub from : Transaction not_pruned → Transaction pruned
from (v1 p signatures) = v1 p tt
from (v2 p proofs) = v2 p (Option.map prune_proofs proofs)

abbrev pub write_prunable : Option RctProofs → List ℕ
write_prunable none = []
write_prunable (some proofs) = Prunable.write proofs.prunable (Proofs.rct_type proofs)

unfoldable pub pruned_with_prunable : Transaction not_pruned → Transaction pruned × List ℕ
pruned_with_prunable (v1 p signatures) = (v1 p tt, write_raw_vec RingSignatures.write signatures)
pruned_with_prunable (v2 p proofs) = (v2 p (Option.map prune_proofs proofs), write_prunable proofs)

unfoldable pub is_rct_bulletproof : Transaction not_pruned → Bool
is_rct_bulletproof (v1 p signatures) = false
is_rct_bulletproof (v2 p none) = false
is_rct_bulletproof (v2 p (some proofs)) = RctType.bulletproof (Proofs.rct_type proofs)

unfoldable pub is_rct_bulletproof_plus : Transaction not_pruned → Bool
is_rct_bulletproof_plus (v1 p signatures) = false
is_rct_bulletproof_plus (v2 p none) = false
is_rct_bulletproof_plus (v2 p (some proofs)) = RctType.bulletproof_plus (Proofs.rct_type proofs)

-- `none` is the panic on a transaction of version 1.
abbrev pub outputs_len : Transaction not_pruned → Option ℕ
outputs_len (v1 p signatures) = none
outputs_len (v2 p proofs) = some (length p.outputs)

-- `none` is a panic of the function itself or of `calculate_clawback`.
unfoldable pub weight : Transaction not_pruned → Option ℕ
unfolding is_rct_bulletproof is_rct_bulletproof_plus write
weight tx =
    let blob_size = length (write not_pruned tx) in
    let bp = is_rct_bulletproof tx in
    let bp_plus = is_rct_bulletproof_plus tx in
    if not (bp || bp_plus) then some blob_size else elim (outputs_len tx) [
      | none ↦ none
      | some n ↦
          Option.map (λ clawback. blob_size + clawback.0) (Bulletproof.calculate_clawback bp_plus n)
    ]

module _ (keccak256 : List ℕ → List ℕ) where
  abbrev prunable_hash_of : Option RctProofs → List ℕ
  prunable_hash_of none = replicate 32 0
  prunable_hash_of (some proofs) =
      keccak256 (Prunable.write proofs.prunable (Proofs.rct_type proofs))

  unfoldable pub prunable_hash : Transaction not_pruned → Option (List ℕ)
  prunable_hash (v1 p signatures) = none
  prunable_hash (v2 p proofs) = some (prunable_hash_of proofs)

  -- `none` is a panic of the function itself or of those it calls.
  unfoldable pub hash : Transaction not_pruned → Option (List ℕ)
  unfolding prunable_hash hash_with_prunable_hash_internal
  hash (v1 p signatures) =
      hash_with_prunable_hash_internal not_pruned keccak256 (v1 p signatures)
        (of_signatures signatures)
  hash (v2 p proofs) = elim (prunable_hash (v2 p proofs)) [
    | none ↦ none
    | some h ↦ hash_with_prunable_hash_internal not_pruned keccak256 (v2 p proofs) (of_hash h)
  ]

  -- `none` is a transaction without signatures, and `some none` a panic.
  unfoldable pub signature_hash : Transaction not_pruned → Option (Option (List ℕ))
  unfolding hash_with_prunable_hash_internal
  signature_hash (v1 p signatures) =
      if is_miner_v1 p.inputs
      then none
      else some (
          hash_with_prunable_hash_internal not_pruned keccak256 (v1 p signatures)
            (of_signatures []))
  signature_hash (v2 p none) = none
  signature_hash (v2 p (some proofs)) = some (
      hash_with_prunable_hash_internal not_pruned keccak256 (v2 p (some proofs))
        (of_hash (keccak256 (Prunable.signature_write proofs.prunable))))

  -- `none` is a transaction of version 1, and `some none` a panic.
  unfoldable pub hash_with_prunable_hash : Transaction pruned → List ℕ → Option (Option (List ℕ))
  unfolding hash_with_prunable_hash_internal
  hash_with_prunable_hash (v1 p signatures) given = none
  hash_with_prunable_hash (v2 p proofs) given =
      some (hash_with_prunable_hash_internal pruned keccak256 (v2 p proofs) (of_hash given))
