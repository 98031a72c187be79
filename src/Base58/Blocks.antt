-- ===== src/Base58/Blocks.antt =====
-- monero-oxide/wallet/base58/src/lib.rs: one block of bytes and its characters.
use native.Mathlib.Nat.{pow-suc}
use mathlib.Core.List.{reverse, reverse-cons, reverse-append, reverse-reverse}
use monero_oxide.Common.{
  ℕ, zero, suc, ◌+◌, ◌-◌, ◌*◌, ◌/◌, ◌%◌, ◌^◌, ◌<◌, ◌≤◌, ◌≡◌, refl, ◌∙◌, ap, subst, arith, true,
  lt→ltb, some, List, [], ◌∷◌, ◌++◌, length, length-append, take, drop, take-append, drop-append,
  length-replicate, replicate, All-append, Option-cases, inl, inr, ◌⊎◌,
}
use monero_oxide.Common.Bytes.{
  IsByte, IsBytes, from_le_bytes, to_le_bytes, from_le_bytes-lt, to_le_bytes-from_le_bytes,
}
use monero_oxide.Common.Reversal.{
  length-reverse, All-reverse, reverse-replicate, from_le_bytes-zeros,
}
use monero_oxide.Base58.{
  alphabet, alphabet_len, encoded_len_for_bytes, count_digits, put_digits, encode_chunk,
  from_be_bytes, to_be_bytes, position_from, checked, sum_chars, used_bytes_from, all_zero,
  decode_chunk, ◌>>=◌,
}
use monero_oxide.Base58.Digits.{char, chars, length-chars, put_digits_lem, position-char}

take-chars : (m n v : ℕ) → m ≤ n → take m (chars n v) ≡ chars m v
unfolding chars
take-chars zero n v h = refl
take-chars (suc m) zero v h = absurd (omega arith)
take-chars (suc m) (suc n) v h = ap (λ t. char (v % 58) ∷ t) (take-chars m n (v / 58) (omega arith))

sum_chars-append :
    (sum : ℕ) (xs ys : List ℕ)
    → sum_chars sum (xs ++ ys) ≡ (sum_chars sum xs >>= λ t. sum_chars t ys)
unfolding sum_chars
sum_chars-append sum [] ys = refl
sum_chars-append sum (x ∷ xs) ys = elim (Option-cases (checked (sum * alphabet_len))) [
  | inl over ↦ rw over refl
  | inr (product, fits) ↦ elim (Option-cases (position_from 0 alphabet x)) [
    | inl missing ↦ rw (fits, missing) refl
    | inr (digit, found) ↦ elim (Option-cases (checked (product + digit))) [
      | inl over ↦ rw (fits, found, over) refl
      | inr (next, small) ↦ rw (fits, found, small) (sum_chars-append next xs ys)
    ]
  ]
]

-- The loop of `decode` adds up the digits of a `u64`, highest first, without an overflow.
sum_chars_lem : (n v : ℕ) → v < 58 ^ n → v < 2 ^ 64 → sum_chars 0 (reverse (chars n v)) ≡ some v
unfolding chars sum_chars
sum_chars_lem zero v h small = ap some (omega arith)
sum_chars_lem (suc n) v h small =
    let digit : v % 58 < 58 = omega arith in
    let product : v / 58 * 58 < 2 ^ 64 = omega arith in
    let whole : v / 58 * 58 + v % 58 ≡ v = omega arith in
    rw
      (
        reverse-cons (char (v % 58)) (chars n (v / 58)),
        sum_chars-append 0 (reverse (chars n (v / 58))) (char (v % 58) ∷ []),
        sum_chars_lem n (v / 58) (omega (arith, pow-suc 58 n)) (omega arith),
        ◌>>=◌,
        sum_chars,
        lt→ltb _ _ product,
        position-char (v % 58) digit,
        whole,
        lt→ltb _ _ small,
      )
      refl

-- What holds of the eight lengths of a block.
by_block {ℓ} :
    (k : ℕ) → 0 < k → k ≤ 8 → (P : ℕ → Type ℓ) → P 1 × P 2 × P 3 × P 4 × P 5 × P 6 × P 7 × P 8 → P k
by_block zero pos most P h = absurd (omega arith)
by_block (suc zero) pos most P h = h.0
by_block (suc (suc zero)) pos most P h = h.1
by_block (suc (suc (suc zero))) pos most P h = h.2
by_block (suc (suc (suc (suc zero)))) pos most P h = h.3
by_block (suc (suc (suc (suc (suc zero))))) pos most P h = h.4
by_block (suc (suc (suc (suc (suc (suc zero)))))) pos most P h = h.5
by_block (suc (suc (suc (suc (suc (suc (suc zero))))))) pos most P h = h.6
by_block (suc (suc (suc (suc (suc (suc (suc (suc zero)))))))) pos most P h = h.7
by_block (suc (suc (suc (suc (suc (suc (suc (suc (suc k))))))))) pos most P h = absurd (omega arith)

used_bytes_lem : (k : ℕ) → 0 < k → k ≤ 8 → used_bytes_from 8 1 (encoded_len_for_bytes k) ≡ some k
unfolding used_bytes_from encoded_len_for_bytes count_digits
used_bytes_lem k pos most =
    by_block k pos most (λ k. used_bytes_from 8 1 (encoded_len_for_bytes k) ≡ some k)
      (refl, refl, refl, refl, refl, refl, refl, refl)

-- A block's value has no more digits than its encoding has characters.
pub encoded_len_lem :
    (k : ℕ)
    → 0 < k
    → k ≤ 8
    → (256 ^ k ≤ 58 ^ encoded_len_for_bytes k)
      × (256 ^ k ≤ 2 ^ 64)
      × (0 < encoded_len_for_bytes k)
      × (encoded_len_for_bytes k ≤ 11)
      × ((k ≡ 8) ⊎ (k < 8))
unfolding encoded_len_for_bytes count_digits
encoded_len_lem k pos most =
    by_block k pos most
      (λ k.
        (256 ^ k ≤ 58 ^ encoded_len_for_bytes k)
        × (256 ^ k ≤ 2 ^ 64)
        × (0 < encoded_len_for_bytes k)
        × (encoded_len_for_bytes k ≤ 11)
        × ((k ≡ 8) ⊎ (k < 8)))
      (
        (omega arith, omega arith, omega arith, omega arith, inr (omega arith)),
        (omega arith, omega arith, omega arith, omega arith, inr (omega arith)),
        (omega arith, omega arith, omega arith, omega arith, inr (omega arith)),
        (omega arith, omega arith, omega arith, omega arith, inr (omega arith)),
        (omega arith, omega arith, omega arith, omega arith, inr (omega arith)),
        (omega arith, omega arith, omega arith, omega arith, inr (omega arith)),
        (omega arith, omega arith, omega arith, omega arith, inr (omega arith)),
        (omega arith, omega arith, omega arith, omega arith, inl refl),
      )

zeros-IsBytes : (n : ℕ) → IsBytes (replicate n 0)
zeros-IsBytes zero = tt
zeros-IsBytes (suc n) = (omega arith, zeros-IsBytes n)

all_zero-zeros : (n : ℕ) → all_zero (replicate n 0) ≡ true
unfolding all_zero
all_zero-zeros zero = refl
all_zero-zeros (suc n) = all_zero-zeros n

-- The block in an array of eight bytes, and the number that it holds.
abbrev pub fixed : List ℕ → List ℕ
fixed chunk = replicate (8 - length chunk) 0 ++ chunk

abbrev pub value : List ℕ → ℕ
value chunk = from_be_bytes (fixed chunk)

module _ (chunk : List ℕ) (pos : 0 < length chunk) (most : length chunk ≤ 8)
    (good : IsBytes chunk) where
  padding_len : length (replicate {A = ℕ} (8 - length chunk) 0) ≡ 8 - length chunk
  padding_len = length-replicate (8 - length chunk) 0

  fixed_reversed : reverse (fixed chunk) ≡ reverse chunk ++ replicate (8 - length chunk) 0
  fixed_reversed =
      reverse-append (replicate (8 - length chunk) 0) chunk
      ∙ ap (λ t. reverse chunk ++ t) (reverse-replicate (8 - length chunk) 0)

  value-lt : value chunk < 256 ^ length chunk
  value-lt =
      let above = from_le_bytes-lt (reverse chunk) (All-reverse IsByte chunk good) in
      let same : value chunk ≡ from_le_bytes (reverse chunk) =
        ap from_le_bytes fixed_reversed ∙ from_le_bytes-zeros (reverse chunk) _ in
      rw same (subst (λ n. from_le_bytes (reverse chunk) < 256 ^ n) (length-reverse chunk) above)

  -- The bytes of the number are the array again.
  to_be_bytes-value : to_be_bytes (value chunk) ≡ fixed chunk
  to_be_bytes-value =
      let len : length (reverse (fixed chunk)) ≡ 8 =
        length-reverse (fixed chunk)
        ∙ omega (arith, length-append (replicate (8 - length chunk) 0) chunk, padding_len) in
      let back = to_le_bytes-from_le_bytes (reverse (fixed chunk)) (
        All-reverse IsByte (fixed chunk)
          (All-append IsByte (replicate (8 - length chunk) 0) chunk (zeros-IsBytes _) good)) in
      ap reverse (subst (λ n. to_le_bytes n (value chunk) ≡ reverse (fixed chunk)) len back)
      ∙ reverse-reverse (fixed chunk)

  abbrev pub text : List ℕ
  text = reverse (chars (encoded_len_for_bytes (length chunk)) (value chunk))

  pub length-text : length text ≡ encoded_len_for_bytes (length chunk)
  length-text =
      length-reverse (chars (encoded_len_for_bytes (length chunk)) (value chunk))
      ∙ length-chars (encoded_len_for_bytes (length chunk)) (value chunk)

  pub encode_chunk_lem : encode_chunk chunk ≡ some text
  unfolding encode_chunk
  encode_chunk_lem =
      let (enough, fits, _, short, _) = encoded_len_lem (length chunk) pos most in
      let small : value chunk < 58 ^ 11 = omega (arith, value-lt) in
      let put : put_digits 64 (value chunk) 0 (replicate 11 49) ≡ some (chars 11 (value chunk)) =
        put_digits_lem 64 11 (value chunk) 0 [] refl (omega arith) small in
      rw (put, ◌>>=◌, take-chars _ 11 (value chunk) short) refl

  pub decode_chunk_lem : decode_chunk text ≡ some chunk
  unfolding decode_chunk
  decode_chunk_lem =
      let (enough, fits, _, short, _) = encoded_len_lem (length chunk) pos most in
      let summed : sum_chars 0 text ≡ some (value chunk) =
        sum_chars_lem _ (value chunk) (omega (arith, value-lt)) (omega (arith, value-lt)) in
      let front : take (8 - length chunk) (fixed chunk) ≡ replicate (8 - length chunk) 0 =
        subst (λ n. take n (fixed chunk) ≡ replicate (8 - length chunk) 0) padding_len
          (take-append (replicate (8 - length chunk) 0) chunk) in
      let back : drop (8 - length chunk) (fixed chunk) ≡ chunk =
        subst (λ n. drop n (fixed chunk) ≡ chunk) padding_len
          (drop-append (replicate (8 - length chunk) 0) chunk) in
      rw
        (
          summed,
          ◌>>=◌,
          length-text,
          used_bytes_lem (length chunk) pos most,
          to_be_bytes-value,
          front,
          all_zero-zeros (8 - length chunk),
          back,
        )
        refl
