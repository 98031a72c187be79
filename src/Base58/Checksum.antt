-- ===== src/Base58/Checksum.antt =====
-- monero-oxide/wallet/base58/src/lib.rs: the checksum.
use monero_oxide.Common.{
  ℕ, zero, suc, ◌-◌, ◌≡◌, refl, ◌∙◌, arith, true, false, ==_self, ltb, le→ltb, some, List, [], ◌∷◌,
  ◌++◌, length, length-append, length-take, take, take-append, drop-append, All, All-append,
}
use monero_oxide.Common.Bytes.{IsByte, IsBytes}
use monero_oxide.Base58.{same_bytes, encode_check, check_at, decode_check, checksum_len, ◌>>=◌}
use monero_oxide.Base58.RoundTrip.{decode-encode}

same_bytes_refl : (xs : List ℕ) → same_bytes xs xs ≡ true
unfolding same_bytes
same_bytes_refl [] = refl
same_bytes_refl (x ∷ xs) = rw (==_self x) (same_bytes_refl xs)

All-take {ℓ κ} : {A : Type ℓ} (P : A → Type κ) (n : ℕ) (xs : List A) → All P xs → All P (take n xs)
All-take P zero xs h = tt
All-take P (suc n) [] h = tt
All-take P (suc n) (x ∷ xs) (hx, h) = (hx, All-take P n xs h)

module _ (keccak256 : List ℕ → List ℕ) (hash_len : (bytes : List ℕ) → length (keccak256 bytes) ≡ 32)
    (hash_bytes : (bytes : List ℕ) → IsBytes (keccak256 bytes)) where
  -- Where the hash function returns arrays of 32 bytes: bytes are encoded with their checksum,
  -- without a panic, as characters that are decoded to these bytes, and of which the checksum is
  -- found right.
  pub decode_check-encode_check :
      (payload : List ℕ)
      → IsBytes payload
      → (text : List ℕ) × (encode_check keccak256 payload ≡ some text)
        × (decode_check keccak256 text ≡ some payload)
  unfolding encode_check decode_check check_at
  decode_check-encode_check payload good =
      let checksum = take checksum_len (keccak256 payload) in
      let (text, run, undo) = decode-encode (payload ++ checksum) (
        All-append IsByte payload checksum good
          (All-take IsByte checksum_len (keccak256 payload) (hash_bytes payload))) in
      let size : length checksum ≡ 4 =
        length-take checksum_len (keccak256 payload) ∙ omega (arith, hash_len payload) in
      let enough : ltb (length (payload ++ checksum)) checksum_len ≡ false =
        le→ltb _ _ (omega (arith, length-append payload checksum, size)) in
      let at : length (payload ++ checksum) - checksum_len ≡ length payload =
        omega (arith, length-append payload checksum, size) in
      (
        text,
        run,
        rw
            (
              undo,
              ◌>>=◌,
              enough,
              at,
              take-append payload checksum,
              drop-append payload checksum,
              same_bytes_refl checksum,
            )
            refl,
      )
