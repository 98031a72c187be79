-- ===== src/Epee/View/Header.antt =====
-- monero-oxide/epee/src/lib.rs: `Epee::new` on every encoding.
use monero_oxide.Common.{
  ℕ, ◌<◌, ◌≤◌, ◌≡◌, ◌≢◌, ◌⊎◌, inl, inr, refl, sym, ◌∙◌, ap, subst, arith, true, false, ◌==◌, ==→eq,
  ==_self, none, some, List, [], ◌∷◌, ◌++◌, ok, err, length, take, drop, take-append-drop, ltb,
  ltb→lt, ltb→le, Bool-cases,
}
use monero_oxide.Epee.Decoding.{
  EpeeError, invalid_header, invalid_version, short, done, ◌>>=◌, read_bytes, read_into_slice,
  read_byte,
}
use monero_oxide.Epee.Decoding.Varint.{read_byte-cons}
use monero_oxide.Epee.Types.{of_type, object}
use monero_oxide.Epee.Stack.Laws.{Represents, root_object_lem}
use monero_oxide.Epee.View.{Epee, header, version, same_bytes, check_version, root_view, new}

-- The encodings that are refused, with the error of each.
pub data Refuses : EpeeError → List ℕ → Type 0 where
  too_short : (src : List ℕ) → length src < 8 → Refuses (short 8) src
  other_header : (src : List ℕ) → 8 ≤ length src → take 8 src ≢ header → Refuses invalid_header src
  no_version : Refuses (invalid_version none) header
  other_version :
      (v : ℕ) (rest : List ℕ)
      → v ≢ version
      → Refuses (invalid_version (some v)) (header ++ (v ∷ rest))

same_bytes_eq : (xs ys : List ℕ) → same_bytes xs ys ≡ true → xs ≡ ys
unfolding same_bytes
same_bytes_eq [] [] h = refl
same_bytes_eq [] (y ∷ ys) h = cc
same_bytes_eq (x ∷ xs) [] h = cc
same_bytes_eq (x ∷ xs) (y ∷ ys) h = elim (Bool-cases (x == y)) [
  | inl one ↦
      let rest : same_bytes xs ys ≡ true = rw one at h in
      rw (==→eq x y one) (ap (λ t. y ∷ t) (same_bytes_eq xs ys rest))
  | inr two ↦ let never : false ≡ true = rw two at h in cc
]

same_bytes_refl : (xs : List ℕ) → same_bytes xs xs ≡ true
unfolding same_bytes
same_bytes_refl [] = refl
same_bytes_refl (x ∷ xs) = rw (==_self x) (same_bytes_refl xs)

-- Behind the header.
new_behind : (rest : List ℕ) → new (header ++ rest) ≡ (check_version >>= λ _. root_view) rest
unfolding new read_into_slice read_bytes same_bytes
new_behind rest =
    let enough : ltb (length (header ++ rest)) 8 ≡ false = ground arith in rw (enough, ◌>>=◌) refl

new_right :
    (rest : List ℕ)
    → (e : Epee) × (new (header ++ (version ∷ rest)) ≡ done (ok e) rest)
      × (e.error ≡ none)
      × (e.decoder.encoding ≡ rest)
      × Represents e.decoder.stack ((of_type object, 1) ∷ [])
new_right rest =
    let (stack, made, holds) = root_object_lem in
    let e : Epee = record { decoder = record { stack = stack; encoding = rest }; error = none } in
    let tail : (check_version >>= λ _. root_view) (version ∷ rest) ≡ done (ok e) rest =
      rw (read_byte-cons version rest, ◌>>=◌, made, root_view) refl in
    (e, new_behind (version ∷ rest) ∙ tail, refl, refl, holds)

new_wrong :
    (v : ℕ) (rest : List ℕ)
    → (v == version) ≡ false
    → new (header ++ (v ∷ rest)) ≡ done (err (invalid_version (some v))) rest
new_wrong v rest h =
    let tail : (check_version >>= λ _. root_view) (v ∷ rest)
        ≡ done (err (invalid_version (some v))) rest =
      rw (read_byte-cons v rest, ◌>>=◌, h) refl in
    new_behind (v ∷ rest) ∙ tail

new_missing : new header ≡ done (err (invalid_version none)) []
unfolding read_byte read_into_slice read_bytes
new_missing = new_behind [] ∙ refl

-- What follows a right header.
abbrev Decided : List ℕ → Type 0
Decided src =
    ((rest : List ℕ) × (e : Epee) × (src ≡ header ++ (version ∷ rest))
      × (new src ≡ done (ok e) rest)
      × (e.error ≡ none)
      × (e.decoder.encoding ≡ rest)
      × Represents e.decoder.stack ((of_type object, 1) ∷ []))
    ⊎ ((error : EpeeError) × (rest : List ℕ) × (new src ≡ done (err error) rest)
        × Refuses error src)

decided : (rest : List ℕ) → Decided (header ++ rest)
decided [] = inr (invalid_version none, [], new_missing, no_version)
decided (v ∷ rest) = elim (Bool-cases (v == version)) [
  | inl one ↦
      let first : v ≡ version = ==→eq v version one in
      let (e, made, right, left, holds) = new_right rest in
      subst (λ t. Decided (header ++ (t ∷ rest))) (sym first)
        (inl (rest, e, refl, made, right, left, holds))
  | inr other ↦
      inr (
        invalid_version (some v),
        rest,
        new_wrong v rest other,
        other_version v rest (ground arith),
      )
]

-- `Epee::new` takes the header and the version off the encoding and makes a view of the root object
-- over what follows; it refuses an encoding shorter than the header, another header, a missing
-- version and another version, each with its own error.
pub new_lem :
    (src : List ℕ)
    → ((rest : List ℕ) × (e : Epee) × (src ≡ header ++ (version ∷ rest))
        × (new src ≡ done (ok e) rest)
        × (e.error ≡ none)
        × (e.decoder.encoding ≡ rest)
        × Represents e.decoder.stack ((of_type object, 1) ∷ []))
      ⊎ ((error : EpeeError) × (rest : List ℕ) × (new src ≡ done (err error) rest)
          × Refuses error src)
unfolding new read_into_slice read_bytes
new_lem src = elim (Bool-cases (ltb (length src) 8)) [
  | inl few ↦ inr (short 8, src, rw (few, ◌>>=◌) refl, too_short src (ltb→lt _ _ few))
  | inr enough ↦ elim (Bool-cases (same_bytes (take 8 src) header)) [
    | inl same ↦
        subst Decided
          (ap (λ t. t ++ drop 8 src) (sym (same_bytes_eq (take 8 src) header same))
            ∙ take-append-drop 8 src)
          (decided (drop 8 src))
    | inr differs ↦ inr (
      invalid_header,
      drop 8 src,
      rw (enough, ◌>>=◌, differs) refl,
      other_header src (ltb→le _ _ enough) (λ e.
          let never : true ≡ false =
            sym (ap (λ t. same_bytes t header) e ∙ same_bytes_refl header) ∙ differs in
          cc),
    )
  ]
]
