-- ===== src/Ringct/Mlsag/Laws.antt =====
-- monero-oxide/ringct/mlsag/src/lib.rs: the reader of `Mlsag` against its writer.
use monero_oxide.Common.{ℕ, ◌≡◌, refl, Bool, List, length, All, All-map}
use monero_oxide.Io.Parses.{
  Parses, IsCanonical, Parses-bind, Parses-map, Accepts-bind, Accepts-pure,
}
use monero_oxide.Io.Vec.{read_raw_vec, write_raw_vec}
use monero_oxide.Io.Vec.Laws.{read_raw_vec-Parses, read_raw_vec-IsCanonical}
use monero_oxide.Ed25519.{Scalar, write_scalar, read_scalar}
use monero_oxide.Ed25519.Laws.{IsScalar, read_scalar-Parses, read_scalar-IsCanonical}
use monero_oxide.Ringct.Mlsag.{Mlsag, write, read}

module _ (reduced : List ℕ → Bool) where
  -- The responses of one ring member, `n` of them.
  abbrev IsRow : ℕ → List Scalar → Type 0
  IsRow n ss = (length ss ≡ n) × All (IsScalar reduced) ss

  pub record IsValid (decoys ss_2_elements : ℕ) (mlsag : Mlsag) : Type 0 where
    pub rows : length mlsag.ss ≡ decoys
    pub ss : All (IsRow ss_2_elements) mlsag.ss
    pub cc : IsScalar reduced mlsag.cc

  row-Parses :
      (n : ℕ) (ss : List Scalar)
      → IsRow n ss
      → Parses (read_raw_vec (read_scalar reduced) n) (write_raw_vec write_scalar ss) ss
  row-Parses n ss (len, h) =
      rw (← len) (read_raw_vec-Parses _ write_scalar ss (All-map (read_scalar-Parses reduced) ss h))

  pub read-Parses :
      (decoys ss_2_elements : ℕ) (mlsag : Mlsag)
      → IsValid decoys ss_2_elements mlsag
      → Parses (read reduced decoys ss_2_elements) (write mlsag) mlsag
  unfolding read write
  read-Parses decoys n mlsag v = rw (← v.rows) (
      Parses-bind _
        (read_raw_vec-Parses _ (write_raw_vec write_scalar) mlsag.ss
          (All-map (row-Parses n) mlsag.ss v.ss))
        (Parses-map _ (read_scalar-Parses reduced mlsag.cc v.cc)))

  pub read-IsCanonical :
      (decoys ss_2_elements : ℕ)
      → IsCanonical (IsValid decoys ss_2_elements) (read reduced decoys ss_2_elements) write
  unfolding read write
  read-IsCanonical decoys n =
      Accepts-bind _
        (read_raw_vec-IsCanonical _ _
          (read_raw_vec-IsCanonical _ _ (read_scalar-IsCanonical reduced) n) decoys)
        λ ss (len, h).
          Accepts-bind _ (read_scalar-IsCanonical reduced)
            λ cc hc. Accepts-pure refl (record { rows = len; ss = h; cc = hc })
