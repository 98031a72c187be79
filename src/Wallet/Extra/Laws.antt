-- ===== src/Wallet/Extra/Laws.antt =====
-- monero-oxide/wallet/src/extra.rs: the reader of an extra against its writer, and the payment ID
-- and keys that a sender puts in it.
use monero_oxide.Common.{
  ℕ, zero, suc, ◌+◌, ◌-◌, ◌<◌, ◌≤◌, ◌≡◌, refl, sym, ◌∙◌, ap, subst, arith, true, false, List, [],
  ◌∷◌, ◌++◌, append-nil, append_assoc, ok, length, length-append, All,
}
use monero_oxide.Io.Vec.{write_raw_vec}
use monero_oxide.Io.Parses.{Parses}
use monero_oxide.Wallet.Extra.Field
use monero_oxide.Wallet.Extra.Field.{
  ExtraField, padding, public_key, nonce, merge_mining, public_keys, mysterious_minergate,
  is_padding,
}
use monero_oxide.Wallet.Extra.Field.Laws as F
use monero_oxide.Wallet.Extra.Sorting.{
  keep, sort, front_order, write-sort, sort-All, front_order-picked, length-sort, sort_split,
  keep-All, keep-picked,
}
use monero_oxide.Wallet.Extra.{sort_order, read_fields, read, write}

-- What is written of a field is not empty.
tagged : (field : ExtraField) → (tag : ℕ) × (tail : List ℕ) × (Field.write field ≡ tag ∷ tail)
unfolding Field.write
tagged (padding size) = (_, _, refl)
tagged (public_key key) = (_, _, refl)
tagged (nonce blob) = (_, _, refl)
tagged (merge_mining depth root) = (_, _, refl)
tagged (public_keys more) = (_, _, refl)
tagged (mysterious_minergate blob) = (_, _, refl)

-- A field that is read is the first of those read.
read_fields_next :
    (fuel : ℕ) (field : ExtraField) (rest : List ℕ)
    → Parses Field.read (Field.write field) field
    → read_fields (suc fuel) (Field.write field ++ rest) ≡ field ∷ read_fields fuel rest
unfolding read_fields
read_fields_next fuel field rest h =
    let (tag, tail, e) = tagged field in
    let step : Field.read (tag ∷ (tail ++ rest)) ≡ ok (field, rest) =
      subst (λ t. Field.read (t ++ rest) ≡ ok (field, rest)) e (h.run rest) in
    rw e (rw (step, read_fields) refl)

read_fields_end : (fuel : ℕ) → read_fields fuel [] ≡ []
unfolding read_fields
read_fields_end zero = refl
read_fields_end (suc fuel) = refl

read_fields_front :
    (fields : List ExtraField) (fuel k : ℕ) (rest : List ℕ)
    → fuel ≡ length fields + k
    → All F.IsValid fields
    → All (λ f. is_padding f ≡ false) fields
    → read_fields fuel (write_raw_vec Field.write fields ++ rest) ≡ fields ++ read_fields k rest
unfolding write_raw_vec
read_fields_front [] fuel k rest e h front = ap (λ t. read_fields t rest) (omega arith)
read_fields_front (field ∷ fields) zero k rest e h front = absurd (omega arith)
read_fields_front (field ∷ fields) (suc fuel) k rest e (hf, h) (front, fronts) =
    rw (append_assoc (Field.write field) (write_raw_vec Field.write fields) rest) (
      read_fields_next fuel field _ (F.read-Parses field hf front)
      ∙ ap (λ t. field ∷ t) (read_fields_front fields fuel k rest (omega arith) h fronts))

length-write_raw :
    (fields : List ExtraField) → length fields ≤ length (write_raw_vec Field.write fields)
unfolding write_raw_vec
length-write_raw [] = omega arith
length-write_raw (field ∷ fields) =
    let (tag, tail, e) = tagged field in
    rw e (
      omega (arith, length-append tail (write_raw_vec Field.write fields), length-write_raw fields))

read_one_padding :
    (size fuel : ℕ)
    → 0 < size
    → size ≤ 255
    → 0 < fuel
    → read_fields fuel (write_raw_vec Field.write (padding size ∷ [])) ≡ padding size ∷ []
unfolding write_raw_vec read_fields Field.write
read_one_padding size zero pos most h = absurd (omega arith)
read_one_padding size (suc fuel) pos most h =
    rw (append-nil, F.read-write_padding size pos most, read_fields)
      (ap (λ t. padding size ∷ t) (read_fields_end fuel))

-- No padding, or one.
read_fields_padding :
    (pads : List ExtraField) (fuel : ℕ)
    → length pads ≤ fuel
    → length pads ≤ 1
    → All F.IsValid pads
    → All (λ f. is_padding f ≡ true) pads
    → read_fields fuel (write_raw_vec Field.write pads) ≡ pads
unfolding write_raw_vec
read_fields_padding [] fuel h few valid pad = read_fields_end fuel
read_fields_padding (padding size ∷ []) fuel h few ((pos, most), _) pad =
    read_one_padding size fuel pos most (omega arith)
read_fields_padding (public_key key ∷ []) fuel h few valid (never, _) = cc
read_fields_padding (nonce blob ∷ []) fuel h few valid (never, _) = cc
read_fields_padding (merge_mining depth root ∷ []) fuel h few valid (never, _) = cc
read_fields_padding (public_keys more ∷ []) fuel h few valid (never, _) = cc
read_fields_padding (mysterious_minergate blob ∷ []) fuel h few valid (never, _) = cc
read_fields_padding (field ∷ other ∷ pads) fuel h few valid pad = absurd (omega arith)

-- An extra of valid fields with at most one padding is read back from what is written of it as its
-- fields in the order that they are written in, and none of these is lost.
pub read-write_extra :
    (fields : List ExtraField)
    → All F.IsValid fields
    → length (keep is_padding fields) ≤ 1
    → (read (write (record { fields = fields })) ≡ record { fields = sort sort_order fields })
      × (length (sort sort_order fields) ≡ length fields)
unfolding read
read-write_extra fields valid few = (
  subst (λ src. read src ≡ record { fields = sort sort_order fields }) (sym (write-sort fields))
      (ap (λ t. record { fields = t }) (reads ∙ sym (sort_split fields))),
  length-sort fields,
)
  where
    front : List ExtraField
    front = sort front_order fields

    pads : List ExtraField
    pads = keep is_padding fields

    src : List ℕ
    src = write_raw_vec Field.write front ++ write_raw_vec Field.write pads

    enough : length front + length pads ≤ length src
    enough = omega (
      arith,
      length-append (write_raw_vec Field.write front) (write_raw_vec Field.write pads),
      length-write_raw front,
      length-write_raw pads,
    )

    reads : read_fields (length src) src ≡ front ++ pads
    reads =
        read_fields_front front (length src) (length src - length front)
          (write_raw_vec Field.write pads) (omega (arith, enough))
          (sort-All _ front_order fields valid) (front_order-picked fields)
        ∙ ap (λ t. front ++ t)
            (read_fields_padding pads (length src - length front) (omega (arith, enough)) few
              (keep-All _ is_padding fields valid) (keep-picked is_padding fields))
