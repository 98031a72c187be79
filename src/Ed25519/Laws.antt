-- ===== src/Ed25519/Laws.antt =====
-- monero-oxide/ed25519: the readers of points and scalars against their writers.
use monero_oxide.Common.{ℕ, arith, Bool, not, true, false, ◌≡◌, refl, List}
use monero_oxide.Io.Primitives.{IsArray, read_bytes-Parses, read_bytes-IsCanonical}
use monero_oxide.Io.Parses.{
  Parses, IsCanonical, Parses-then, Parses-fail_if, Parses-pure, Accepts-bind, Accepts-fail_if,
  Accepts-pure,
}
use monero_oxide.Ed25519.{
  read_point, write_point, read_unreduced, write_unreduced, read_scalar, write_scalar,
}

abbrev pub IsPoint : List ℕ → Type 0
IsPoint = IsArray 32

pub read_point-Parses : (point : List ℕ) → IsPoint point → Parses read_point point point
unfolding read_point
read_point-Parses point (len, _) = read_bytes-Parses 32 point len

pub read_point-IsCanonical : IsCanonical IsPoint read_point write_point
unfolding read_point
read_point-IsCanonical = read_bytes-IsCanonical 32

pub read_unreduced-Parses : (scalar : List ℕ) → IsPoint scalar → Parses read_unreduced scalar scalar
unfolding read_unreduced
read_unreduced-Parses scalar (len, _) = read_bytes-Parses 32 scalar len

pub read_unreduced-IsCanonical : IsCanonical IsPoint read_unreduced write_unreduced
unfolding read_unreduced
read_unreduced-IsCanonical = read_bytes-IsCanonical 32

module _ (reduced : List ℕ → Bool) where
  -- The bytes of a scalar below the group's order.
  abbrev pub IsScalar : List ℕ → Type 0
  IsScalar scalar = IsPoint scalar × (reduced scalar ≡ true)

  not_reduced : (scalar : List ℕ) → reduced scalar ≡ true → not (reduced scalar) ≡ false
  not_reduced scalar h = rw h

  reduced_of_not : (scalar : List ℕ) → not (reduced scalar) ≡ false → reduced scalar ≡ true
  reduced_of_not scalar h = ground arith

  pub read_scalar-Parses :
      (scalar : List ℕ) → IsScalar scalar → Parses (read_scalar reduced) scalar scalar
  unfolding read_scalar
  read_scalar-Parses scalar ((len, _), h) =
      Parses-then _ (read_bytes-Parses 32 scalar len)
        (Parses-fail_if _ (not_reduced scalar h) (Parses-pure scalar))

  pub read_scalar-IsCanonical : IsCanonical IsScalar (read_scalar reduced) write_scalar
  unfolding read_scalar
  read_scalar-IsCanonical =
      Accepts-bind _ (read_bytes-IsCanonical 32)
        λ scalar array. Accepts-fail_if _ _ λ h. Accepts-pure refl (array, reduced_of_not scalar h)
