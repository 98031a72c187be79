-- ===== src/Ringct/Mlsag.antt =====
-- monero-oxide/ringct/mlsag/src/lib.rs: the wire format of a MLSAG.
pub mod Laws
use monero_oxide.Common.{ℕ, Bool, List, ◌++◌}
use monero_oxide.Io.Reader.{Reader, pure, ◌>>=◌}
use monero_oxide.Io.Vec.{read_raw_vec, write_raw_vec}
use monero_oxide.Ed25519.{Scalar, read_scalar, write_scalar}

pub record Mlsag : Type 0 where
  pub ss : List (List Scalar)
  pub cc : Scalar

unfoldable pub write : Mlsag → List ℕ
write mlsag = write_raw_vec (write_raw_vec write_scalar) mlsag.ss ++ write_scalar mlsag.cc

unfoldable pub read : (List ℕ → Bool) → ℕ → ℕ → Reader Mlsag
read reduced decoys ss_2_elements = do
  ss ← read_raw_vec (read_raw_vec (read_scalar reduced) ss_2_elements) decoys
  cc ← read_scalar reduced
  pure (record { ss = ss; cc = cc })
