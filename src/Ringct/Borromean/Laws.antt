-- ===== src/Ringct/Borromean/Laws.antt =====
-- monero-oxide/ringct/borromean/src/lib.rs: the reader of `BorromeanRange` against its writer.
use monero_oxide.Common.{ℕ, ◌≡◌, refl, Bool, List, append_assoc, length, All, All-map}
use monero_oxide.Io.Parses.{
  Parses, IsCanonical, Parses-bind, Parses-map, Accepts-bind, Accepts-pure,
}
use monero_oxide.Io.Vec.Laws.{read_array-Parses, read_array-IsCanonical}
use monero_oxide.Ed25519.{write_point, write_unreduced}
use monero_oxide.Ed25519.Laws.{
  IsScalar, IsPoint, read_scalar-Parses, read_scalar-IsCanonical, read_point-Parses,
  read_point-IsCanonical, read_unreduced-Parses, read_unreduced-IsCanonical,
}
use monero_oxide.Ringct.Borromean.{
  BorromeanSignatures, BorromeanRange, write_signatures, read_signatures, write, read,
}

-- 64 arrays of 32 bytes.
abbrev IsColumn : List (List ℕ) → Type 0
IsColumn column = (length column ≡ 64) × All IsPoint column

module _ (reduced : List ℕ → Bool) where
  pub record IsValid (range : BorromeanRange) : Type 0 where
    pub s0 : IsColumn range.sigs.s0
    pub s1 : IsColumn range.sigs.s1
    pub ee : IsScalar reduced range.sigs.ee
    pub bit_commitments : IsColumn range.bit_commitments

  abbrev AreValid : BorromeanSignatures → Type 0
  AreValid sigs = IsColumn sigs.s0 × IsColumn sigs.s1 × IsScalar reduced sigs.ee

  read_signatures-Parses :
      (sigs : BorromeanSignatures)
      → AreValid sigs
      → Parses (read_signatures reduced) (write_signatures sigs) sigs
  unfolding read_signatures write_signatures
  read_signatures-Parses sigs ((len0, h0), (len1, h1), he) =
      Parses-bind _
        (read_array-Parses _ write_unreduced 64 sigs.s0 len0
          (All-map read_unreduced-Parses sigs.s0 h0))
        (Parses-bind _
          (read_array-Parses _ write_unreduced 64 sigs.s1 len1
            (All-map read_unreduced-Parses sigs.s1 h1))
          (Parses-map _ (read_scalar-Parses reduced sigs.ee he)))

  read_signatures-IsCanonical : IsCanonical AreValid (read_signatures reduced) write_signatures
  unfolding read_signatures write_signatures
  read_signatures-IsCanonical =
      Accepts-bind _ (read_array-IsCanonical _ _ read_unreduced-IsCanonical 64) λ s0 h0.
        Accepts-bind _ (read_array-IsCanonical _ _ read_unreduced-IsCanonical 64) λ s1 h1.
          Accepts-bind _ (read_scalar-IsCanonical reduced) λ ee he.
            Accepts-pure {a = record { s0 = s0; s1 = s1; ee = ee }} (simp append_assoc) (h0, h1, he)

  pub read-Parses :
      (range : BorromeanRange) → IsValid range → Parses (read reduced) (write range) range
  unfolding read write
  read-Parses range v =
      let (len, h) = v.bit_commitments in
      Parses-bind _ (read_signatures-Parses range.sigs (v.s0, v.s1, v.ee)) (
        Parses-map _ (
          read_array-Parses _ write_point 64 range.bit_commitments len
            (All-map read_point-Parses range.bit_commitments h)))

  pub read-IsCanonical : IsCanonical IsValid (read reduced) write
  unfolding read write
  read-IsCanonical = Accepts-bind _ read_signatures-IsCanonical λ sigs (h0, h1, he).
      Accepts-bind _ (read_array-IsCanonical _ _ read_point-IsCanonical 64) λ commitments hc.
        Accepts-pure refl (record { s0 = h0; s1 = h1; ee = he; bit_commitments = hc })
