-- ===== src/Ringct/Clsag/Decoys.antt =====
-- monero-oxide/ringct/clsag/src/decoys.rs: the ring of a CLSAG. `none` is a panic where a function
-- indexes or adds. The comparisons and the selection in constant time are of `subtle`, and the
-- encoding of points is of curve arithmetic: both are parameters.
pub mod Laws
pub mod RoundTrip
use monero_oxide.Common.{
  ℕ, zero, suc, ◌+◌, ◌/◌, ◌%◌, ◌^◌, Bool, true, false, not, ◌&&◌, ◌||◌, ltb, Option, none, some,
  List, [], ◌∷◌, ◌++◌, length, if◌then◌else◌,
}
use monero_oxide.Io.Reader.{Reader, pure, fail, ◌>>=◌, read_byte, write_byte}
use monero_oxide.Io.VarInt
use monero_oxide.Io.Vec.{read_vec, write_vec, read_raw_vec, write_raw_vec}
use monero_oxide.Ed25519.{CompressedPoint, read_point, write_point}

-- `ConstantTimeEq`, `ConstantTimeGreater`, `ConstantTimeLess` and `ConditionallySelectable`.
pub record Subtle {ℓ} (Point : Type ℓ) : Type ℓ where
  pub ct_eq : ℕ → ℕ → Bool
  pub ct_gt : ℕ → ℕ → Bool
  pub ct_lt : ℕ → ℕ → Bool
  pub conditional_select : Point → Point → Bool → Point

-- `CompressedPoint::decompress` and `Point::compress`
pub record Encoding {ℓ} (Point : Type ℓ) : Type ℓ where
  pub compress : Point → CompressedPoint
  pub decompress : CompressedPoint → Option Point

pub record Decoys {ℓ} (Point : Type ℓ) : Type ℓ where
  pub offsets : List ℕ
  pub signer_index : ℕ
  pub ring : List (Point × Point)

abbrev pub max_ring_size : ℕ
max_ring_size = 255

module _ {ℓ} {Point : Type ℓ} (subtle : Subtle Point) where
  -- The loop over the offsets, from a sum. `first` tells that `i` is 0.
  unfoldable pub offsets_representable : Bool → ℕ → List ℕ → Bool
  offsets_representable first sum [] = true
  offsets_representable first sum (offset ∷ offsets) =
      let new_sum = (sum + offset) % 2 ^ 64 in
      (first || subtle.ct_gt new_sum sum) && offsets_representable false new_sum offsets

  abbrev pub ring_len_does_not_exceed_max : ℕ → Bool
  ring_len_does_not_exceed_max len =
      subtle.ct_eq (len / 2 ^ 8) 0 && not (subtle.ct_gt (len % 2 ^ 8) max_ring_size)

  unfoldable pub new : List ℕ → ℕ → List (Point × Point) → Option (Decoys Point)
  unfolding offsets_representable
  new offsets signer_index ring =
      if ring_len_does_not_exceed_max (length ring)
        && (subtle.ct_lt signer_index (length ring % 2 ^ 8)
            && (subtle.ct_eq (length offsets) (length ring)
                && offsets_representable true 0 offsets))
      then some (record { offsets = offsets; signer_index = signer_index; ring = ring })
      else none

  -- The loop over the ring after its first member, from index `i`.
  unfoldable pub select_members : ℕ → ℕ → Point × Point → List (Point × Point) → Point × Point
  select_members signer_index i result [] = result
  select_members signer_index i (key, commitment) ((key', commitment') ∷ ring) =
      let select = subtle.ct_eq i signer_index in
      select_members signer_index (suc i)
        (
          subtle.conditional_select key key' select,
          subtle.conditional_select commitment commitment' select,
        )
        ring

  unfoldable pub signer_ring_members_of : ℕ → List (Point × Point) → Option (Point × Point)
  unfolding select_members
  signer_ring_members_of signer_index [] = none
  signer_ring_members_of signer_index (member ∷ ring) =
      some (select_members signer_index 1 member ring)

  abbrev pub signer_ring_members : Decoys Point → Option (Point × Point)
  signer_ring_members self = signer_ring_members_of self.signer_index self.ring

-- The positions after one, where the sum of two `u64`s may overflow.
unfoldable pub positions_from : ℕ → List ℕ → Option (List ℕ)
positions_from prior [] = some []
positions_from prior (offset ∷ offsets) =
    let rest = positions_from (prior + offset) offsets in
    if ltb (prior + offset) (2 ^ 64)
    then elim rest [ some positions ↦ some ((prior + offset) ∷ positions) | none ↦ none ]
    else none

unfoldable pub positions_of : List ℕ → Option (List ℕ)
unfolding positions_from
positions_of [] = none
positions_of (offset ∷ offsets) = elim (positions_from offset offsets) [
  | some positions ↦ some (offset ∷ positions)
  | none ↦ none
]

abbrev pub positions {ℓ} : {Point : Type ℓ} → Decoys Point → Option (List ℕ)
positions self = positions_of self.offsets

module _ {ℓ} {Point : Type ℓ} (encoding : Encoding Point) where
  abbrev pub write_pair : Point × Point → List ℕ
  write_pair (key, commitment) =
      write_point (encoding.compress key) ++ write_point (encoding.compress commitment)

  unfoldable pub write : Decoys Point → List ℕ
  write self =
      write_vec VarInt.write self.offsets
      ++ ((self.signer_index ∷ []) ++ write_raw_vec write_pair self.ring)

  abbrev pub serialize : Decoys Point → List ℕ
  serialize self = write self

  -- `.decompress().ok_or(io::Error::other(message))?`
  abbrev pub decompressed : CompressedPoint → Reader Point
  decompressed key = elim (encoding.decompress key) [
    | some point ↦ pure point
    | none ↦ fail "Decoys had invalid key in ring"
  ]

  abbrev pub decompressed_commitment : CompressedPoint → Reader Point
  decompressed_commitment commitment = elim (encoding.decompress commitment) [
    | some point ↦ pure point
    | none ↦ fail "Decoys had invalid commitment in ring"
  ]

  unfoldable pub read_pair : Reader (Point × Point)
  read_pair = do
    compressed ← read_point
    key ← decompressed compressed
    compressed ← read_point
    commitment ← decompressed_commitment compressed
    pure (key, commitment)

  abbrev pub made : Option (Decoys Point) → Reader (Decoys Point)
  made (some decoys) = pure decoys
  made none = fail "invalid Decoys"

  unfoldable pub read : Subtle Point → Reader (Decoys Point)
  unfolding read_pair new
  read subtle = do
    offsets ← read_vec VarInt.read_varint_u64 (some max_ring_size)
    signer_index ← read_byte
    ring ← read_raw_vec read_pair (length offsets)
    made (new subtle offsets signer_index ring)
