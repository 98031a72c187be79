-- ===== src/Wallet/Extra/Sorting.antt =====
-- monero-oxide/wallet/src/extra.rs: the order in which the fields of an extra are written.
use monero_oxide.Common.{
  ℕ, ◌+◌, ◌≡◌, refl, sym, ◌∙◌, ap, arith, Bool, true, false, List, [], ◌∷◌, ◌++◌, append-nil,
  append_assoc, length, length-append, All, All-append, All-map, if◌then◌else◌, Bool-cases, inl,
  inr,
}
use monero_oxide.Io.Vec.{write_raw_vec}
use monero_oxide.Wallet.Extra.Field
use monero_oxide.Wallet.Extra.Field.{
  ExtraField, padding, public_key, nonce, merge_mining, public_keys, mysterious_minergate,
  is_padding,
}
use monero_oxide.Wallet.Extra.{
  sort_order, is_public_key, is_public_keys, is_nonce, is_merge_mining, is_mysterious_minergate,
  write_selected, write_order, write,
}

-- The fields that a selection picks, and those of each selection in turn.
abbrev pub keep : (ExtraField → Bool) → List ExtraField → List ExtraField
keep selection [] = []
keep selection (field ∷ fields) =
    if selection field then field ∷ keep selection fields else keep selection fields

abbrev pub sort : List (ExtraField → Bool) → List ExtraField → List ExtraField
sort [] fields = []
sort (selection ∷ order) fields = keep selection fields ++ sort order fields

pub write_raw_vec-append :
    (xs ys : List ExtraField)
    → write_raw_vec Field.write (xs ++ ys)
      ≡ write_raw_vec Field.write xs ++ write_raw_vec Field.write ys
unfolding write_raw_vec
write_raw_vec-append [] ys = refl
write_raw_vec-append (x ∷ xs) ys =
    ap (λ t. Field.write x ++ t) (write_raw_vec-append xs ys)
    ∙ sym
        (append_assoc (Field.write x) (write_raw_vec Field.write xs) (write_raw_vec Field.write ys))

write_selected-keep :
    (selection : ExtraField → Bool) (fields : List ExtraField)
    → write_selected selection fields ≡ write_raw_vec Field.write (keep selection fields)
unfolding write_selected write_raw_vec
write_selected-keep selection [] = refl
write_selected-keep selection (field ∷ fields) = elim (Bool-cases (selection field)) [
  | inl picked ↦ rw picked (ap (λ t. Field.write field ++ t) (write_selected-keep selection fields))
  | inr left ↦ rw left (write_selected-keep selection fields)
]

write_order-sort :
    (order : List (ExtraField → Bool)) (fields : List ExtraField)
    → write_order order fields ≡ write_raw_vec Field.write (sort order fields)
unfolding write_order write_raw_vec
write_order-sort [] fields = refl
write_order-sort (selection ∷ order) fields =
    rw (write_selected-keep selection fields, write_order-sort order fields)
      (sym (write_raw_vec-append (keep selection fields) (sort order fields)))

-- The selections before that of padding.
abbrev pub front_order : List (ExtraField → Bool)
front_order =
    is_public_key ∷ is_public_keys ∷ is_nonce ∷ is_merge_mining ∷ is_mysterious_minergate ∷ []

pub sort_split :
    (fields : List ExtraField)
    → sort sort_order fields ≡ sort front_order fields ++ keep is_padding fields
sort_split fields = simp (append_assoc, append-nil)

pub write-sort :
    (fields : List ExtraField)
    → write (record { fields = fields })
      ≡ write_raw_vec Field.write (sort front_order fields)
        ++ write_raw_vec Field.write (keep is_padding fields)
unfolding write
write-sort fields =
    write_order-sort sort_order fields
    ∙ ap (write_raw_vec Field.write) (sort_split fields)
    ∙ write_raw_vec-append (sort front_order fields) (keep is_padding fields)

pub keep-All {κ} :
    (P : ExtraField → Type κ) (selection : ExtraField → Bool) (fields : List ExtraField)
    → All P fields
    → All P (keep selection fields)
keep-All P selection [] h = tt
keep-All P selection (field ∷ fields) (hf, h) = elim (Bool-cases (selection field)) [
  | inl picked ↦ rw picked (hf, keep-All P selection fields h)
  | inr left ↦ rw left (keep-All P selection fields h)
]

pub sort-All {κ} :
    (P : ExtraField → Type κ) (order : List (ExtraField → Bool)) (fields : List ExtraField)
    → All P fields
    → All P (sort order fields)
sort-All P [] fields h = tt
sort-All P (selection ∷ order) fields h =
    All-append P (keep selection fields) (sort order fields) (keep-All P selection fields h)
      (sort-All P order fields h)

counts :
    (fields : List ExtraField)
    → length (keep is_public_key fields)
        + (length (keep is_public_keys fields)
            + (length (keep is_nonce fields)
                + (length (keep is_merge_mining fields)
                    + (length (keep is_mysterious_minergate fields)
                        + (length (keep is_padding fields) + 0)))))
      ≡ length fields
counts [] = refl
counts (padding size ∷ fields) = omega (arith, counts fields)
counts (public_key key ∷ fields) = omega (arith, counts fields)
counts (nonce blob ∷ fields) = omega (arith, counts fields)
counts (merge_mining depth root ∷ fields) = omega (arith, counts fields)
counts (public_keys keys ∷ fields) = omega (arith, counts fields)
counts (mysterious_minergate blob ∷ fields) = omega (arith, counts fields)

-- Each field is written once.
pub length-sort : (fields : List ExtraField) → length (sort sort_order fields) ≡ length fields
length-sort fields =
    rw (length-append, length-append, length-append, length-append, length-append, length-append)
      (counts fields)

pub keep-picked :
    (selection : ExtraField → Bool) (fields : List ExtraField)
    → All (λ f. selection f ≡ true) (keep selection fields)
keep-picked selection [] = tt
keep-picked selection (field ∷ fields) = elim (Bool-cases (selection field)) [
  | inl picked ↦ rw picked (picked, keep-picked selection fields)
  | inr left ↦ rw left (keep-picked selection fields)
]

-- A selection before that of padding picks no padding.
abbrev pub IsFront : (ExtraField → Bool) → Type 0
IsFront selection = (size : ℕ) → selection (padding size) ≡ false

not_padding :
    (selection : ExtraField → Bool)
    → IsFront selection
    → (field : ExtraField) → selection field ≡ true
    → is_padding field ≡ false
not_padding selection front (padding size) h = let never : true ≡ false = sym h ∙ front size in cc
not_padding selection front (public_key key) h = refl
not_padding selection front (nonce blob) h = refl
not_padding selection front (merge_mining depth root) h = refl
not_padding selection front (public_keys keys) h = refl
not_padding selection front (mysterious_minergate blob) h = refl

sort-front :
    (order : List (ExtraField → Bool)) (fields : List ExtraField)
    → All IsFront order
    → All (λ f. is_padding f ≡ false) (sort order fields)
sort-front [] fields h = tt
sort-front (selection ∷ order) fields (front, h) =
    All-append _ (keep selection fields) (sort order fields)
      (All-map (not_padding selection front) (keep selection fields) (keep-picked selection fields))
      (sort-front order fields h)

pub front_order-picked :
    (fields : List ExtraField) → All (λ f. is_padding f ≡ false) (sort front_order fields)
front_order-picked fields =
    sort-front front_order fields
      (λ size. refl, (λ size. refl, (λ size. refl, (λ size. refl, (λ size. refl, tt)))))
