-- ===== src/Ed25519.antt =====
-- monero-oxide/ed25519: the encodings of points and scalars, which are arrays of 32 bytes.
-- `reduced` stands for `curve25519_dalek::Scalar::from_canonical_bytes(bytes).is_some()`.
pub mod Laws
use monero_oxide.Common.{ℕ, Bool, not, List}
use monero_oxide.Io.Reader.{Reader, pure, ◌>>=◌, ◌>>◌, fail_if, read_bytes}

-- `CompressedPoint([u8; 32])`, `Scalar([u8; 32])` and `UnreducedScalar([u8; 32])`
abbrev pub CompressedPoint : Type 0
CompressedPoint = List ℕ

abbrev pub Scalar : Type 0
Scalar = List ℕ

abbrev pub UnreducedScalar : Type 0
UnreducedScalar = List ℕ

unfoldable pub read_point : Reader CompressedPoint
read_point = read_bytes 32

abbrev pub write_point : CompressedPoint → List ℕ
write_point point = point

unfoldable pub read_unreduced : Reader UnreducedScalar
read_unreduced = read_bytes 32

abbrev pub write_unreduced : UnreducedScalar → List ℕ
write_unreduced scalar = scalar

unfoldable pub read_scalar : (List ℕ → Bool) → Reader Scalar
read_scalar reduced = do
  bytes ← read_bytes 32
  fail_if (not (reduced bytes)) "unreduced scalar"
  pure bytes

abbrev pub write_scalar : Scalar → List ℕ
write_scalar scalar = scalar
