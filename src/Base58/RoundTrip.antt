-- ===== src/Base58/RoundTrip.antt =====
-- monero-oxide/wallet/base58/src/lib.rs: bytes decoded from what they are encoded as, and the
-- checksum.
use monero_oxide.Common.{
  ℕ, zero, suc, ◌<◌, ◌≤◌, ◌≡◌, ◌⊎◌, refl, sym, ◌∙◌, ap, subst, arith, some, List, [], ◌∷◌, ◌++◌,
  append-nil, length, length-append, length-take, length-drop, take, drop, take-append, drop-append,
  take-append-drop, All-left, All-right, inl, inr,
}
use monero_oxide.Common.Bytes.{IsByte, IsBytes}
use monero_oxide.Base58.{
  chunks_on, encoded_len_for_bytes, encode_chunks, encode, decode_chunks, decode, ◌>>=◌,
}
use monero_oxide.Base58.Digits.{chars}
use monero_oxide.Base58.Blocks.{
  encoded_len_lem, text, encode_chunk_lem, decode_chunk_lem, length-text,
}

chunks_on_next :
    (fuel n : ℕ) (xs : List ℕ)
    → 0 < length xs
    → chunks_on (suc fuel) n xs ≡ take n xs ∷ chunks_on fuel n (drop n xs)
unfolding chunks_on
chunks_on_next fuel n [] h = absurd (omega arith)
chunks_on_next fuel n (x ∷ xs) h = refl

chunks_on_end : (fuel n : ℕ) → chunks_on fuel n [] ≡ []
unfolding chunks_on
chunks_on_end zero n = refl
chunks_on_end (suc fuel) n = refl

take_all : (n : ℕ) (xs : List ℕ) → length xs ≤ n → take n xs ≡ xs
take_all zero [] h = refl
take_all zero (x ∷ xs) h = absurd (omega arith)
take_all (suc n) [] h = refl
take_all (suc n) (x ∷ xs) h = ap (λ t. x ∷ t) (take_all n xs (omega arith))

drop_all : (n : ℕ) (xs : List ℕ) → length xs ≤ n → drop n xs ≡ []
drop_all zero [] h = refl
drop_all zero (x ∷ xs) h = absurd (omega arith)
drop_all (suc n) [] h = refl
drop_all (suc n) (x ∷ xs) h = drop_all n xs (omega arith)

-- A whole block, or a last one, is what `take` and `drop` split off.
split_block :
    (n : ℕ) (xs ys : List ℕ)
    → (length xs ≡ n) ⊎ ((length xs ≤ n) × (ys ≡ []))
    → (take n (xs ++ ys) ≡ xs) × (drop n (xs ++ ys) ≡ ys)
split_block n xs ys (inl whole) = rw (← whole) (take-append xs ys, drop-append xs ys)
split_block n xs ys (inr (few, last)) =
    rw (last, append-nil xs) (take_all n xs few, drop_all n xs few)

-- Characters that bytes are encoded as, and that are decoded to them.
abbrev Encoded : ℕ → List ℕ → Type 0
Encoded fuel bytes =
    (chars : List ℕ) × (encode_chunks (chunks_on fuel 8 bytes) ≡ some chars)
    × ((fuel' : ℕ) → length chars ≤ fuel' → decode_chunks (chunks_on fuel' 11 chars) ≡ some bytes)
    × ((length bytes ≡ 0) → chars ≡ [])

block_text : encoded_len_for_bytes 8 ≡ 11
unfolding encoded_len_for_bytes
block_text = refl

-- One block before encoded bytes, which are none unless the block is whole.
block_next :
    (fuel : ℕ) (chunk rest : List ℕ)
    → 0 < length chunk
    → length chunk ≤ 8
    → IsBytes chunk
    → ((length chunk ≡ 8) ⊎ (length rest ≡ 0))
    → take 8 (chunk ++ rest) ≡ chunk
    → drop 8 (chunk ++ rest) ≡ rest
    → Encoded fuel rest
    → Encoded (suc fuel) (chunk ++ rest)
unfolding encode_chunks decode_chunks
block_next fuel chunk rest pos most good whole front back (more, run, undo, none_left) =
    let first = text chunk pos most good in
    let some_bytes : 0 < length (chunk ++ rest) = omega (arith, length-append chunk rest) in
    (
      first ++ more,
      rw
          (
            chunks_on_next fuel 8 (chunk ++ rest) some_bytes,
            front,
            back,
            encode_chunks,
            encode_chunk_lem chunk pos most good,
            ◌>>=◌,
            run,
          )
          refl,
      decoded,
      λ h. absurd (omega arith),
    )
  where
    len : length (text chunk pos most good) ≡ encoded_len_for_bytes (length chunk)
    len = length-text chunk pos most good

    some_text : 0 < length (text chunk pos most good)
    some_text = omega (arith, len, (encoded_len_lem (length chunk) pos most).2)

    split :
        (take 11 (text chunk pos most good ++ more) ≡ text chunk pos most good)
        × (drop 11 (text chunk pos most good ++ more) ≡ more)
    split = split_block 11 (text chunk pos most good) more (elim whole [
      | inl eight ↦ inl (len ∙ ap encoded_len_for_bytes eight ∙ block_text)
      | inr over ↦
          inr (omega (arith, len, (encoded_len_lem (length chunk) pos most).3), none_left over)
    ])

    decoded :
        (fuel' : ℕ)
        → length (text chunk pos most good ++ more) ≤ fuel'
        → decode_chunks (chunks_on fuel' 11 (text chunk pos most good ++ more))
          ≡ some (chunk ++ rest)
    decoded zero h =
        absurd (omega (arith, length-append (text chunk pos most good) more, some_text))
    decoded (suc fuel') h =
        rw
          (
            chunks_on_next fuel' 11 (text chunk pos most good ++ more)
                (omega (arith, length-append (text chunk pos most good) more, some_text)),
            split.0,
            split.1,
            decode_chunks,
            decode_chunk_lem chunk pos most good,
            ◌>>=◌,
            undo fuel' (omega (arith, length-append (text chunk pos most good) more, some_text)),
          )
          refl

encoded : (fuel : ℕ) (bytes : List ℕ) → length bytes ≤ fuel → IsBytes bytes → Encoded fuel bytes
unfolding encode_chunks decode_chunks
encoded fuel [] h good =
    ([], rw (chunks_on_end fuel 8) refl, λ fuel' k. rw (chunks_on_end fuel' 11) refl, λ e. refl)
encoded zero (b ∷ bytes) h good = absurd (omega arith)
encoded (suc fuel) (b ∷ bytes) h good =
    let chunk = take 8 (b ∷ bytes) in
    let rest = drop 8 (b ∷ bytes) in
    let whole = take-append-drop 8 (b ∷ bytes) in
    let good' = subst IsBytes (sym whole) good in
    let next =
      encoded fuel rest (omega (arith, length-drop 8 (b ∷ bytes)))
        (All-right IsByte chunk rest good') in
    subst (Encoded (suc fuel)) whole (
      block_next fuel chunk rest (omega (arith, length-take 8 (b ∷ bytes)))
        (omega (arith, length-take 8 (b ∷ bytes))) (All-left IsByte chunk rest good')
        (omega (arith, length-take 8 (b ∷ bytes), length-drop 8 (b ∷ bytes))) (ap (take 8) whole)
        (ap (drop 8) whole) next)

-- Bytes are encoded, without a panic, as characters that are decoded to these bytes.
pub decode-encode :
    (bytes : List ℕ)
    → IsBytes bytes
    → (chars : List ℕ) × (encode bytes ≡ some chars) × (decode chars ≡ some bytes)
unfolding encode decode
decode-encode bytes good =
    let (chars, run, undo, _) = encoded (length bytes) bytes (omega arith) good in
    (chars, run, undo (length chars) (omega arith))
