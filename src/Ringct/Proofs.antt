-- ===== src/Ringct/Proofs.antt =====
-- monero-oxide/src/ringct.rs: `RctProofs` and `PrunedRctProofs`.
pub mod Laws
use monero_oxide.Common.{ℕ, Bool, true, false, Option, none, some, List, ◌++◌, if◌then◌else◌}
use monero_oxide.Io.Reader.{Reader, pure, ◌>>=◌}
use monero_oxide.Ringct.Bulletproof.{Bulletproof}
use monero_oxide.Ringct.RctType.{RctType}
use monero_oxide.Ringct.RctType
use monero_oxide.Ringct.Base.{RctBase}
use monero_oxide.Ringct.Base
use monero_oxide.Ringct.Prunable.{RctPrunable}
use monero_oxide.Ringct.Prunable

pub record RctProofs : Type 0 where
  pub base : RctBase
  pub prunable : RctPrunable

pub record PrunedRctProofs : Type 0 where
  pub rct_type : RctType
  pub base : RctBase

-- `matches!(bulletproof, Bulletproof::Original { .. })`
abbrev pub clsag_type : Bulletproof → RctType
clsag_type (Bulletproof.original bp) = RctType.clsag_bulletproof
clsag_type (Bulletproof.plus bp) = RctType.clsag_bulletproof_plus

abbrev pub prunable_type : RctPrunable → RctType
prunable_type (RctPrunable.aggregate_mlsag_borromean mlsag borromean) =
    RctType.aggregate_mlsag_borromean
prunable_type (RctPrunable.mlsag_borromean mlsags borromean) = RctType.mlsag_borromean
prunable_type (RctPrunable.mlsag_bulletproofs mlsags pseudo_outs bulletproof) =
    RctType.mlsag_bulletproofs
prunable_type (RctPrunable.mlsag_bulletproofs_compact_amount mlsags pseudo_outs bulletproof) =
    RctType.mlsag_bulletproofs_compact_amount
prunable_type (RctPrunable.clsag clsags pseudo_outs bulletproof) = clsag_type bulletproof

unfoldable pub rct_type : RctProofs → RctType
rct_type proofs = prunable_type proofs.prunable

unfoldable pub write : RctProofs → List ℕ
unfolding rct_type
write proofs =
    Base.write (rct_type proofs) proofs.base ++ Prunable.write proofs.prunable (rct_type proofs)

-- The rest of the proofs, where there is a base.
unfoldable pub read_prunable :
    (List ℕ → Bool) → ℕ → ℕ → ℕ → Option (RctType × RctBase) → Reader (Option RctProofs)
read_prunable reduced ring_length inputs outputs none = pure none
read_prunable reduced ring_length inputs outputs (some (type_read, base)) = do
  prunable ← Prunable.read reduced type_read ring_length inputs outputs
  pure (some (record { base = base; prunable = prunable }))

unfoldable pub read : (List ℕ → Bool) → ℕ → ℕ → ℕ → Reader (Option RctProofs)
unfolding read_prunable
read reduced ring_length inputs outputs = do
  typed_base ← Base.read inputs outputs
  read_prunable reduced ring_length inputs outputs typed_base
