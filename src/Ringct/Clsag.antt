-- ===== src/Ringct/Clsag.antt =====
-- monero-oxide/ringct/clsag/src/lib.rs: the wire format of a CLSAG.
pub mod Laws
pub mod Decoys
use monero_oxide.Common.{ℕ, Bool, List, ◌++◌}
use monero_oxide.Io.Reader.{Reader, pure, ◌>>=◌}
use monero_oxide.Io.Vec.{read_raw_vec, write_raw_vec}
use monero_oxide.Ed25519.{
  CompressedPoint, Scalar, read_scalar, write_scalar, read_point, write_point,
}

pub record Clsag : Type 0 where
  pub d : CompressedPoint
  pub s : List Scalar
  pub c1 : Scalar

unfoldable pub write : Clsag → List ℕ
write clsag = write_raw_vec write_scalar clsag.s ++ (write_scalar clsag.c1 ++ write_point clsag.d)

unfoldable pub read : (List ℕ → Bool) → ℕ → Reader Clsag
read reduced decoys = do
  s ← read_raw_vec (read_scalar reduced) decoys
  c1 ← read_scalar reduced
  d ← read_point
  pure (record { d = d; s = s; c1 = c1 })
