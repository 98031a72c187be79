-- ===== src/Tests/Wallet.antt =====
-- monero-oxide/wallet/src/extra.rs and monero-oxide/ringct/clsag/src/decoys.rs at concrete inputs.
use monero_oxide.Common.{
  ℕ, ◌<◌, ◌≤◌, ◌≡◌, refl, arith, Bool, true, false, ltb, ◌==◌, if◌then◌else◌, Option, none, some,
  List, [], ◌∷◌, ◌++◌, ok, length, replicate, get_elem?, All,
}
use monero_oxide.Ed25519.Laws.{IsPoint}
use monero_oxide.Tests.Values.{all_bytes, all_bytes-IsBytes}
use monero_oxide.Transaction.Input.Laws.{IsU64}
use monero_oxide.Ringct.Clsag.Decoys as D
use monero_oxide.Ringct.Clsag.Decoys.{Subtle, Encoding, Decoys}
use monero_oxide.Ringct.Clsag.Decoys.Laws.{IsSubtle, StrictlyIncreasing, new_decoys_lem}
use monero_oxide.Ringct.Clsag.Decoys.RoundTrip.{IsEncoding, read-write_decoys}
use monero_oxide.Wallet.PaymentId
use monero_oxide.Wallet.PaymentId.{PaymentId, encrypted}
use monero_oxide.Wallet.PaymentId.Laws as IdLaws
use monero_oxide.Wallet.PaymentId.Laws.{bitxor_lem}
use monero_oxide.Wallet.Extra as E
use monero_oxide.Wallet.Extra.Field.{ExtraField, padding, public_key, nonce}
use monero_oxide.Wallet.Extra.Sorting.{sort}
use monero_oxide.Wallet.Extra.Laws.{read-write_extra}
use monero_oxide.Wallet.Extra.Sending.{given, read-write_sent}

abbrev pub encrypted_id : PaymentId
encrypted_id = encrypted (1 ∷ 2 ∷ 3 ∷ 4 ∷ 5 ∷ 6 ∷ 7 ∷ 255 ∷ [])

abbrev mask : List ℕ
mask = 9 ∷ 8 ∷ 7 ∷ 6 ∷ 5 ∷ 4 ∷ 3 ∷ 170 ∷ []

pub encrypted_id-IsValid : IdLaws.IsValid encrypted_id
unfolding all_bytes
encrypted_id-IsValid = (refl, all_bytes-IsBytes (1 ∷ 2 ∷ 3 ∷ 4 ∷ 5 ∷ 6 ∷ 7 ∷ 255 ∷ []) refl)

bitxor_lem_example :
    (PaymentId.bitxor encrypted_id mask ≡ IdLaws.each_byte encrypted_id mask)
    × (PaymentId.bitxor (PaymentId.bitxor encrypted_id mask) mask ≡ encrypted_id)
    × IdLaws.IsValid (PaymentId.bitxor encrypted_id mask)
unfolding all_bytes
bitxor_lem_example =
    bitxor_lem encrypted_id mask encrypted_id-IsValid (refl, all_bytes-IsBytes mask refl)

abbrev some_key : List ℕ
some_key = replicate 32 7

some_key-IsPoint : IsPoint some_key
unfolding all_bytes
some_key-IsPoint = (refl, all_bytes-IsBytes some_key refl)

read-write_sent_example :
    (E.payment_id
        (E.read (E.write (E.push_nonce (PaymentId.serialize encrypted_id) (E.new some_key []))))
      ≡ some encrypted_id)
    × (E.keys {Point = List ℕ} some []
          (E.read (E.write (E.push_nonce (PaymentId.serialize encrypted_id) (E.new some_key []))))
        ≡ some (E.point {Point = List ℕ} some [] some_key ∷ [], given (E.point some []) []))
read-write_sent_example =
    read-write_sent some [] some_key [] encrypted_id some_key-IsPoint (omega arith) tt
      encrypted_id-IsValid

-- Padding before a nonce and a key, which are written before it.
abbrev unsorted : List ExtraField
unsorted = padding 3 ∷ nonce (1 ∷ 2 ∷ []) ∷ public_key some_key ∷ []

read-write_extra_example :
    (E.read (E.write (record { fields = unsorted }))
      ≡ record { fields = sort E.sort_order unsorted })
    × (length (sort E.sort_order unsorted) ≡ length unsorted)
unfolding all_bytes
read-write_extra_example =
    read-write_extra unsorted
      (
        (omega arith, omega arith),
        ((omega arith, all_bytes-IsBytes (1 ∷ 2 ∷ []) refl), (some_key-IsPoint, tt)),
      )
      (omega arith)

-- Two points, encoded as two arrays of 32 bytes.
abbrev plain : Subtle Bool
plain = record {
  ct_eq = λ a b. a == b;
  ct_gt = λ a b. ltb b a;
  ct_lt = λ a b. ltb a b;
  conditional_select = λ a b choice. if choice then b else a;
}

plain-IsSubtle : IsSubtle plain
plain-IsSubtle = record {
  eq = λ a b. refl;
  gt = λ a b. refl;
  lt = λ a b. refl;
  select = λ a b choice. refl;
}

abbrev pub compress_bit : Bool → List ℕ
compress_bit true = replicate 32 1
compress_bit false = replicate 32 0

abbrev pub decompress_bit : List ℕ → Option Bool
decompress_bit [] = none
decompress_bit (b ∷ _) = some (b == 1)

abbrev pub bits : Encoding Bool
bits = record { compress = compress_bit; decompress = decompress_bit }

compress_bit-IsPoint : (b : Bool) → IsPoint (compress_bit b)
unfolding all_bytes
compress_bit-IsPoint true = (refl, all_bytes-IsBytes (replicate 32 1) refl)
compress_bit-IsPoint false = (refl, all_bytes-IsBytes (replicate 32 0) refl)

decompress-compress_bit : (b : Bool) → decompress_bit (compress_bit b) ≡ some b
decompress-compress_bit true = refl
decompress-compress_bit false = refl

pub bits-IsEncoding : IsEncoding bits
bits-IsEncoding = record { size = compress_bit-IsPoint; back = decompress-compress_bit }

abbrev offsets : List ℕ
offsets = 100 ∷ 5 ∷ []

abbrev ring : List (Bool × Bool)
ring = (true, false) ∷ (false, true) ∷ []

abbrev decoys : Decoys Bool
decoys = record { offsets = offsets; signer_index = 1; ring = ring }

made_decoys : D.new plain offsets 1 ring ≡ some decoys
unfolding D.new D.offsets_representable
made_decoys = refl

new_decoys_lem_example :
    (decoys ≡ record { offsets = offsets; signer_index = 1; ring = ring })
    × (length ring ≤ D.max_ring_size)
    × (1 < length ring)
    × ((ps : List ℕ) × (D.positions decoys ≡ some ps)
        × StrictlyIncreasing ps
        × All IsU64 ps
        × (length ps ≡ length ring))
    × (D.signer_ring_members plain decoys ≡ get_elem? ring 1)
new_decoys_lem_example =
    new_decoys_lem plain plain-IsSubtle offsets 1 ring decoys (omega arith, (omega arith, tt))
      made_decoys

read-write_decoys_example :
    D.read bits plain (D.write bits decoys ++ (9 ∷ [])) ≡ ok (decoys, 9 ∷ [])
read-write_decoys_example =
    read-write_decoys bits bits-IsEncoding plain offsets 1 ring decoys (9 ∷ []) plain-IsSubtle
      (omega arith, (omega arith, tt)) made_decoys
