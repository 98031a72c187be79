-- ===== src/Ringct/Base.antt =====
-- monero-oxide/src/ringct.rs: `RctBase`.
pub mod Laws
use monero_oxide.Common.{
  ℕ, ◌==◌, Bool, true, false, ◌&&◌, Option, none, some, List, [], ◌∷◌, ◌++◌, if◌then◌else◌,
}
use monero_oxide.Io.Reader.{Reader, pure, fail, fail_if, ◌>>=◌, ◌>>◌, read_byte}
use monero_oxide.Io.VarInt
use monero_oxide.Io.Vec.{read_raw_vec, write_raw_vec}
use monero_oxide.Ed25519.{CompressedPoint, read_point, write_point}
use monero_oxide.Ringct.RctType.{
  RctType, to_u8, of_u8, compact_encrypted_amounts, EncryptedAmount, read_amount, write_amount,
}
use monero_oxide.Ringct.RctType.{
  aggregate_mlsag_borromean, mlsag_borromean, mlsag_bulletproofs, mlsag_bulletproofs_compact_amount,
  clsag_bulletproof, clsag_bulletproof_plus,
}

pub record RctBase : Type 0 where
  pub fee : ℕ
  pub pseudo_outs : List CompressedPoint
  pub encrypted_amounts : List EncryptedAmount
  pub commitments : List CompressedPoint

-- `rct_type == RctType::MlsagBorromean`
abbrev pub is_mlsag_borromean : RctType → Bool
is_mlsag_borromean mlsag_borromean = true
is_mlsag_borromean _ = false

unfoldable pub write : RctType → RctBase → List ℕ
write rct_type base =
    (to_u8 rct_type ∷ [])
    ++ (VarInt.write base.fee
        ++ ((if is_mlsag_borromean rct_type then write_raw_vec write_point base.pseudo_outs else [])
            ++ (write_raw_vec write_amount base.encrypted_amounts
                ++ write_raw_vec write_point base.commitments)))

-- The types whose Bulletproof(+) needs an output.
unfoldable pub needs_outputs : RctType → Bool
needs_outputs aggregate_mlsag_borromean = false
needs_outputs mlsag_borromean = false
needs_outputs mlsag_bulletproofs = true
needs_outputs mlsag_bulletproofs_compact_amount = true
needs_outputs clsag_bulletproof = true
needs_outputs clsag_bulletproof_plus = true

-- `RctType::try_from(byte).map_err(|()| …)`
unfoldable pub try_rct_type : ℕ → Reader RctType
try_rct_type byte src = elim (of_u8 byte) [
  | some rct_type ↦ pure rct_type src
  | none ↦ fail "invalid RCT type" src
]

unfoldable pub read_fields : RctType → ℕ → ℕ → Reader RctBase
read_fields rct_type inputs outputs = do
  fail_if (needs_outputs rct_type && outputs == 0) "RCT with Bulletproofs(+) had 0 outputs"
  fee ← VarInt.read_varint_u64
  pseudo_outs ← (if is_mlsag_borromean rct_type then read_raw_vec read_point inputs else pure [])
  encrypted_amounts ← read_raw_vec (read_amount (compact_encrypted_amounts rct_type)) outputs
  commitments ← read_raw_vec read_point outputs
  pure (record {
    fee = fee;
    pseudo_outs = pseudo_outs;
    encrypted_amounts = encrypted_amounts;
    commitments = commitments;
  })

-- A type byte of zero stands for no proofs.
unfoldable pub read : ℕ → ℕ → Reader (Option (RctType × RctBase))
unfolding try_rct_type read_fields
read inputs outputs = do
  byte ← read_byte
  if byte == 0
      then pure none
      else (try_rct_type byte >>= λ rct_type.
          read_fields rct_type inputs outputs >>= λ base. pure (some (rct_type, base)))
