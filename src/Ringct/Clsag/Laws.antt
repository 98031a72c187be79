-- ===== src/Ringct/Clsag/Laws.antt =====
-- monero-oxide/ringct/clsag/src/lib.rs: the reader of `Clsag` against its writer.
use monero_oxide.Common.{ℕ, ◌≡◌, Bool, List, append_assoc, length, All, All-map}
use monero_oxide.Io.Parses.{
  Parses, IsCanonical, Parses-bind, Parses-map, Accepts-bind, Accepts-pure,
}
use monero_oxide.Io.Vec.Laws.{read_raw_vec-Parses, read_raw_vec-IsCanonical}
use monero_oxide.Ed25519.{write_scalar}
use monero_oxide.Ed25519.Laws.{
  IsScalar, IsPoint, read_scalar-Parses, read_scalar-IsCanonical, read_point-Parses,
  read_point-IsCanonical,
}
use monero_oxide.Ringct.Clsag.{Clsag, write, read}

module _ (reduced : List ℕ → Bool) where
  pub record IsValid (decoys : ℕ) (clsag : Clsag) : Type 0 where
    pub responses : length clsag.s ≡ decoys
    pub s : All (IsScalar reduced) clsag.s
    pub c1 : IsScalar reduced clsag.c1
    pub d : IsPoint clsag.d

  pub read-Parses :
      (decoys : ℕ) (clsag : Clsag)
      → IsValid decoys clsag
      → Parses (read reduced decoys) (write clsag) clsag
  unfolding read write
  read-Parses decoys clsag v = rw (← v.responses) (
      Parses-bind _
        (read_raw_vec-Parses _ write_scalar clsag.s
          (All-map (read_scalar-Parses reduced) clsag.s v.s))
        (Parses-bind _ (read_scalar-Parses reduced clsag.c1 v.c1)
          (Parses-map _ (read_point-Parses clsag.d v.d))))

  pub read-IsCanonical : (decoys : ℕ) → IsCanonical (IsValid decoys) (read reduced decoys) write
  unfolding read write
  read-IsCanonical decoys =
      Accepts-bind _ (read_raw_vec-IsCanonical _ _ (read_scalar-IsCanonical reduced) decoys)
        λ s (len, h). Accepts-bind _ (read_scalar-IsCanonical reduced) λ c1 hc.
          Accepts-bind _ read_point-IsCanonical λ d hd.
            Accepts-pure {a = record { d = d; s = s; c1 = c1 }} (simp append_assoc)
              (record { responses = len; s = h; c1 = hc; d = hd })
