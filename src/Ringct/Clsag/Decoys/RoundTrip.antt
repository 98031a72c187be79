-- ===== src/Ringct/Clsag/Decoys/RoundTrip.antt =====
-- monero-oxide/ringct/clsag/src/decoys.rs: decoys read from what is written of them.
use monero_oxide.Common.{
  ℕ, ◌≡◌, refl, sym, ◌∙◌, ap, arith, le→ltb, some, List, [], ◌∷◌, ◌++◌, ok, length, All,
}
use monero_oxide.Io.Parses.{Parses, Parses-bind, Parses-then, Parses-pure}
use monero_oxide.Io.Primitives.{read_byte-Parses}
use monero_oxide.Io.Vec.Laws.{read_vec-Parses, read_counted-Parses}
use monero_oxide.Ed25519.{read_point, write_point}
use monero_oxide.Ed25519.Laws.{IsPoint, read_point-Parses}
use monero_oxide.Transaction.Input.Laws.{IsU64, u64s-Parses}
use monero_oxide.Ringct.Clsag.Decoys.{
  Subtle, Encoding, Decoys, new, write_pair, write, decompressed, decompressed_commitment,
  read_pair, made, read, max_ring_size,
}
use monero_oxide.Ringct.Clsag.Decoys.Laws.{IsSubtle, checked}

-- A point is decompressed from the 32 bytes that it is compressed to.
pub record IsEncoding {ℓ} {Point : Type ℓ} (encoding : Encoding Point) : Type ℓ where
  pub size : (point : Point) → IsPoint (encoding.compress point)
  pub back : (point : Point) → encoding.decompress (encoding.compress point) ≡ some point

module _ {ℓ} {Point : Type ℓ} (encoding : Encoding Point) (laws : IsEncoding encoding) where
  compressed-Parses :
      (point : Point)
      → Parses read_point (write_point (encoding.compress point)) (encoding.compress point)
  compressed-Parses point = read_point-Parses (encoding.compress point) (laws.size point)

  decompressed-Parses :
      (point : Point) → Parses (decompressed encoding (encoding.compress point)) [] point
  decompressed-Parses point = record { run = λ rest. rw (laws.back point, decompressed) refl }

  decompressed_commitment-Parses :
      (point : Point) → Parses (decompressed_commitment encoding (encoding.compress point)) [] point
  decompressed_commitment-Parses point = record {
    run = λ rest. rw (laws.back point, decompressed_commitment) refl;
  }

  pair-Parses : (pair : Point × Point) → Parses (read_pair encoding) (write_pair encoding pair) pair
  unfolding read_pair
  pair-Parses (key, commitment) = Parses-bind _ (compressed-Parses key) (
      Parses-bind _ (decompressed-Parses key) (
        Parses-then _ (compressed-Parses commitment) (
          Parses-bind _ (decompressed_commitment-Parses commitment)
            (Parses-pure (key, commitment)))))

  pairs-Parses :
      (ring : List (Point × Point))
      → All (λ pair. Parses (read_pair encoding) (write_pair encoding pair) pair) ring
  pairs-Parses [] = tt
  pairs-Parses (pair ∷ ring) = (pair-Parses pair, pairs-Parses ring)

  -- Decoys that `new` returns for offsets that are `u64`s are read from what is written of them.
  pub read-write_decoys :
      (subtle : Subtle Point) (offsets : List ℕ) (signer_index : ℕ) (ring : List (Point × Point))
      (decoys : Decoys Point) (rest : List ℕ)
      → IsSubtle subtle
      → All IsU64 offsets
      → new subtle offsets signer_index ring ≡ some decoys
      → read encoding subtle (write encoding decoys ++ rest) ≡ ok (decoys, rest)
  unfolding read write
  read-write_decoys subtle offsets signer_index ring decoys rest documented small h =
      let (made_of, few, inside, aligned, _) =
        checked subtle documented offsets signer_index ring decoys h in
      let same : Decoys Point = record {
        offsets = offsets;
        signer_index = signer_index;
        ring = ring;
      } in
      let made_same : new subtle offsets signer_index ring ≡ some same = h ∙ ap some made_of in
      let finish : Parses (made encoding (new subtle offsets signer_index ring)) [] same = record {
        run = λ rest. rw made_same refl;
      } in
      rw made_of (
        (Parses-bind _
            (read_vec-Parses _ _ (some max_ring_size) offsets (omega arith)
              (le→ltb _ _ (omega arith)) (u64s-Parses offsets small))
            (Parses-bind _ (read_byte-Parses signer_index) (
              Parses-then _
                (read_counted-Parses _ _ (length offsets) ring (sym aligned) (pairs-Parses ring))
                finish))).run
          rest)
