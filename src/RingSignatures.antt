-- ===== src/RingSignatures.antt =====
-- monero-oxide/src/ring_signatures.rs: the wire format of the original ring signatures.
pub mod Laws
use monero_oxide.Common.{ℕ, Bool, List, ◌++◌}
use monero_oxide.Io.Reader.{Reader, pure, ◌>>=◌}
use monero_oxide.Io.Vec.{read_raw_vec, write_raw_vec}
use monero_oxide.Ed25519.{Scalar, read_scalar, write_scalar}

pub record Signature : Type 0 where
  pub c : Scalar
  pub s : Scalar

pub record RingSignature : Type 0 where
  pub sigs : List Signature

unfoldable pub write_signature : Signature → List ℕ
write_signature sig = write_scalar sig.c ++ write_scalar sig.s

unfoldable pub write : RingSignature → List ℕ
write ring_sig = write_raw_vec write_signature ring_sig.sigs

module _ (reduced : List ℕ → Bool) where
  unfoldable pub read_signature : Reader Signature
  read_signature = do
    c ← read_scalar reduced
    s ← read_scalar reduced
    pure (record { c = c; s = s })

  unfoldable pub read : ℕ → Reader RingSignature
  unfolding read_signature
  read members = do sigs ← read_raw_vec read_signature members; pure (record { sigs = sigs })
