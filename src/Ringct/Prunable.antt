-- ===== src/Ringct/Prunable.antt =====
-- monero-oxide/src/ringct.rs: `RctPrunable`.
pub mod Laws
use monero_oxide.Common.{
  ℕ, suc, ◌+◌, ◌^◌, ◌!=◌, leb, Bool, true, false, List, [], ◌∷◌, ◌++◌, if◌then◌else◌,
}
use monero_oxide.Common.Bytes.{to_le_bytes}
use monero_oxide.Io.Reader.{Reader, pure, fail_if, ◌>>=◌, ◌>>◌, read_byte, read_u32}
use monero_oxide.Io.VarInt
use monero_oxide.Io.Vec.{read_raw_vec, write_raw_vec}
use monero_oxide.Ed25519.{CompressedPoint, read_point, write_point}
use monero_oxide.Ringct.Mlsag
use monero_oxide.Ringct.Mlsag.{Mlsag}
use monero_oxide.Ringct.Clsag
use monero_oxide.Ringct.Clsag.{Clsag}
use monero_oxide.Ringct.Borromean
use monero_oxide.Ringct.Borromean.{BorromeanRange}
use monero_oxide.Ringct.Bulletproof
use monero_oxide.Ringct.Bulletproof.{Bulletproof}
use monero_oxide.Ringct.RctType.{RctType}
use monero_oxide.Ringct.RctType

-- The names of the types of proofs are those of `RctType`, but for both kinds of CLSAG proofs.
pub data RctPrunable : Type 0 where
  aggregate_mlsag_borromean : Mlsag → List BorromeanRange → RctPrunable
  mlsag_borromean : List Mlsag → List BorromeanRange → RctPrunable
  -- the ring signatures, the pseudo-outs and the range proof
  mlsag_bulletproofs : List Mlsag → List CompressedPoint → Bulletproof → RctPrunable
  mlsag_bulletproofs_compact_amount : List Mlsag → List CompressedPoint → Bulletproof → RctPrunable
  clsag : List Clsag → List CompressedPoint → Bulletproof → RctPrunable

-- `rct_type == RctType::MlsagBulletproofs`
abbrev pub is_mlsag_bulletproofs : RctType → Bool
is_mlsag_bulletproofs RctType.mlsag_bulletproofs = true
is_mlsag_bulletproofs _ = false

-- The number of Bulletproofs, which is one.
abbrev pub write_count : RctType → List ℕ
write_count rct_type = if is_mlsag_bulletproofs rct_type then to_le_bytes 4 1 else 1 ∷ []

-- The part that both kinds of MLSAGs with a Bulletproof share.
abbrev pub write_mlsag_bulletproofs :
    RctType → List Mlsag → List CompressedPoint → Bulletproof → List ℕ
write_mlsag_bulletproofs rct_type mlsags pseudo_outs bulletproof =
    write_count rct_type
    ++ (Bulletproof.write bulletproof
        ++ (write_raw_vec Mlsag.write mlsags ++ write_raw_vec write_point pseudo_outs))

unfoldable pub write : RctPrunable → RctType → List ℕ
write (aggregate_mlsag_borromean mlsag borromean) rct_type =
    write_raw_vec Borromean.write borromean ++ Mlsag.write mlsag
write (mlsag_borromean mlsags borromean) rct_type =
    write_raw_vec Borromean.write borromean ++ write_raw_vec Mlsag.write mlsags
write (mlsag_bulletproofs mlsags pseudo_outs bulletproof) rct_type =
    write_mlsag_bulletproofs rct_type mlsags pseudo_outs bulletproof
write (mlsag_bulletproofs_compact_amount mlsags pseudo_outs bulletproof) rct_type =
    write_mlsag_bulletproofs rct_type mlsags pseudo_outs bulletproof
write (clsag clsags pseudo_outs bulletproof) rct_type =
    (1 ∷ [])
    ++ (Bulletproof.write bulletproof
        ++ (write_raw_vec Clsag.write clsags ++ write_raw_vec write_point pseudo_outs))

module _ (reduced : List ℕ → Bool) where
  -- The number of Bulletproofs is a `u32`, or a `VarInt` in the later type.
  unfoldable pub read_count : Bool → Reader ℕ
  read_count true = read_u32
  read_count false = VarInt.read_varint_u64

  unfoldable pub read_mlsag_bulletproofs :
      Bool
      → (List Mlsag → List CompressedPoint → Bulletproof → RctPrunable)
      → ℕ
      → ℕ
      → Reader RctPrunable
  unfolding read_count
  read_mlsag_bulletproofs first_type make ring_length inputs = do
    count ← read_count first_type
    fail_if (count != 1) "n bulletproofs instead of one"
    bulletproof ← Bulletproof.read reduced
    mlsags ← read_raw_vec (Mlsag.read reduced ring_length 2) inputs
    pseudo_outs ← read_raw_vec read_point inputs
    pure (make mlsags pseudo_outs bulletproof)

  -- A CLSAG's range proof is a Bulletproof, or a Bulletproof+ in the later type.
  unfoldable pub read_bulletproof : Bool → Reader Bulletproof
  read_bulletproof is_plus =
      if is_plus then Bulletproof.read_plus reduced else Bulletproof.read reduced

  unfoldable pub read_clsag : Bool → ℕ → ℕ → Reader RctPrunable
  unfolding read_bulletproof
  read_clsag is_plus ring_length inputs = do
    count ← read_byte
    fail_if (count != 1) "n bulletproofs instead of one"
    bulletproof ← read_bulletproof is_plus
    clsags ← read_raw_vec (Clsag.read reduced ring_length) inputs
    pseudo_outs ← read_raw_vec read_point inputs
    pure (clsag clsags pseudo_outs bulletproof)

  -- `inputs.checked_add(1)` fails if the sum is no `usize`.
  unfoldable pub read : RctType → ℕ → ℕ → ℕ → Reader RctPrunable
  unfolding read_mlsag_bulletproofs read_clsag
  read RctType.aggregate_mlsag_borromean ring_length inputs outputs = do
    borromean ← read_raw_vec (Borromean.read reduced) outputs
    fail_if (leb (2 ^ 64) (inputs + 1)) "reading a MLSAG for more inputs than representable"
    mlsag ← Mlsag.read reduced ring_length (inputs + 1)
    pure (aggregate_mlsag_borromean mlsag borromean)
  read RctType.mlsag_borromean ring_length inputs outputs = do
    borromean ← read_raw_vec (Borromean.read reduced) outputs
    mlsags ← read_raw_vec (Mlsag.read reduced ring_length 2) inputs
    pure (mlsag_borromean mlsags borromean)
  read RctType.mlsag_bulletproofs ring_length inputs outputs =
      read_mlsag_bulletproofs true mlsag_bulletproofs ring_length inputs
  read RctType.mlsag_bulletproofs_compact_amount ring_length inputs outputs =
      read_mlsag_bulletproofs false mlsag_bulletproofs_compact_amount ring_length inputs
  read RctType.clsag_bulletproof ring_length inputs outputs = read_clsag false ring_length inputs
  read RctType.clsag_bulletproof_plus ring_length inputs outputs =
      read_clsag true ring_length inputs

-- What is signed of the prunable data.
unfoldable pub signature_write : RctPrunable → List ℕ
signature_write (aggregate_mlsag_borromean mlsag borromean) =
    write_raw_vec Borromean.write borromean
signature_write (mlsag_borromean mlsags borromean) = write_raw_vec Borromean.write borromean
signature_write (mlsag_bulletproofs mlsags pseudo_outs bulletproof) =
    Bulletproof.signature_write bulletproof
signature_write (mlsag_bulletproofs_compact_amount mlsags pseudo_outs bulletproof) =
    Bulletproof.signature_write bulletproof
signature_write (clsag clsags pseudo_outs bulletproof) = Bulletproof.signature_write bulletproof
