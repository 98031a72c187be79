-- ===== src/Ringct/Borromean.antt =====
-- monero-oxide/ringct/borromean/src/lib.rs: the wire format of a Borromean range proof.
pub mod Laws
use monero_oxide.Common.{ℕ, Bool, List, ◌++◌}
use monero_oxide.Io.Reader.{Reader, pure, ◌>>=◌}
use monero_oxide.Io.Vec.{read_array, write_raw_vec}
use monero_oxide.Ed25519.{
  CompressedPoint, Scalar, UnreducedScalar, read_scalar, write_scalar, read_point, write_point,
  read_unreduced, write_unreduced,
}

pub record BorromeanSignatures : Type 0 where
  pub s0 : List UnreducedScalar
  pub s1 : List UnreducedScalar
  pub ee : Scalar

pub record BorromeanRange : Type 0 where
  pub sigs : BorromeanSignatures
  pub bit_commitments : List CompressedPoint

unfoldable pub write_signatures : BorromeanSignatures → List ℕ
write_signatures sigs =
    write_raw_vec write_unreduced sigs.s0
    ++ (write_raw_vec write_unreduced sigs.s1 ++ write_scalar sigs.ee)

unfoldable pub read_signatures : (List ℕ → Bool) → Reader BorromeanSignatures
read_signatures reduced = do
  s0 ← read_array read_unreduced 64
  s1 ← read_array read_unreduced 64
  ee ← read_scalar reduced
  pure (record { s0 = s0; s1 = s1; ee = ee })

unfoldable pub write : BorromeanRange → List ℕ
write range = write_signatures range.sigs ++ write_raw_vec write_point range.bit_commitments

unfoldable pub read : (List ℕ → Bool) → Reader BorromeanRange
read reduced = do
  sigs ← read_signatures reduced
  bit_commitments ← read_array read_point 64
  pure (record { sigs = sigs; bit_commitments = bit_commitments })
