-- ===== src/Epee/Decoding.antt =====
-- monero-oxide/epee/src/lib.rs, monero-oxide/epee/src/io.rs: the errors of the decoder, and its
-- reads of a byte slice. A computation returns its result with the state that it leaves, also when
-- it fails; a panic and a loop that used up its fuel are outcomes of their own.
pub mod Advances
pub mod Varint
use monero_oxide.Common.{
  ℕ, zero, suc, ◌-◌, ◌*◌, ◌/◌, ◌^◌, bit_and, bit_or, Option, none, some, List, [], ◌∷◌, Result, ok,
  err, Bool, length, take, drop, ltb, ◌==◌, if◌then◌else◌,
}

pub data EpeeError : Type 0 where
  internal_error invalid_header : EpeeError
  invalid_version : Option ℕ → EpeeError
  short : ℕ → EpeeError
  unrecognized_type empty_key depth_limit_exceeded type_error epee_reuse : EpeeError

pub data Outcome {ℓ} (S : Type 0) (A : Type ℓ) : Type ℓ where
  done : Result EpeeError A → S → Outcome S A
  panicked unfinished : Outcome S A

abbrev pub Decoding {ℓ} : Type 0 → Type ℓ → Type ℓ
Decoding S A = S → Outcome S A

abbrev pub pure {ℓ} : {S : Type 0} {A : Type ℓ} → A → Decoding S A
pure a s = done (ok a) s

abbrev pub fail {ℓ} : {S : Type 0} {A : Type ℓ} → EpeeError → Decoding S A
fail e s = done (err e) s

infixl 1 ◌>>=◌ ◌>>◌
abbrev pub ◌>>=◌ {ℓ κ} :
    {S : Type 0} {A : Type ℓ} {B : Type κ} → Decoding S A → (A → Decoding S B) → Decoding S B
◌>>=◌ p f s = elim (p s) [
  | done (ok a) s' ↦ f a s'
  | done (err e) s' ↦ done (err e) s'
  | panicked ↦ panicked
  | unfinished ↦ unfinished
]

abbrev pub ◌>>◌ {ℓ} :
    {S : Type 0} {B : Type ℓ} → Decoding S (Unit {0}) → Decoding S B → Decoding S B
p >> q = p >>= λ _. q

-- `if test { Err(e)?; }`
abbrev pub refuse_if : {S : Type 0} → Bool → EpeeError → Decoding S (Unit {0})
refuse_if test e = if test then fail e else pure tt

-- The state is the slice, `&'encoding [u8]`.
abbrev pub Reading {ℓ} : Type ℓ → Type ℓ
Reading A = Decoding (List ℕ) A

-- `&'encoding [u8]` knows its length, so the length beside it is `()`.
pub record EpeeString : Type 0 where
  pub bytes : List ℕ

abbrev pub len : EpeeString → ℕ
len s = length s.bytes

abbrev pub usize_max : ℕ
usize_max = 2 ^ 64 - 1

unfoldable pub read_bytes : ℕ → Reading (List ℕ)
read_bytes n src =
    if ltb (length src) n then done (err (short n)) src else done (ok (take n src)) (drop n src)

-- `read_into_slice(&mut [0; n])`, which returns the slice that it fills.
unfoldable pub read_into_slice : ℕ → Reading (List ℕ)
unfolding read_bytes
read_into_slice n = read_bytes n

abbrev pub first_byte : List ℕ → ℕ
first_byte [] = 0
first_byte (b ∷ _) = b

unfoldable pub read_byte : Reading ℕ
unfolding read_into_slice
read_byte = do buf ← read_into_slice 1; pure (first_byte buf)

unfoldable pub advance : ℕ → Reading (Unit {0})
unfolding read_bytes
advance n = do _ ← read_bytes n; pure tt

abbrev pub varint_bytes : ℕ → ℕ
varint_bytes k = if k == 0 then 1 else if k == 1 then 2 else if k == 2 then 4 else 8

-- `vi |= u64::from(reader.read_byte()?) << (i * 8)`, for the `left` values of `i` from `i` up.
unfoldable pub or_bytes : ℕ → ℕ → ℕ → Reading ℕ
unfolding read_byte
or_bytes zero i vi = pure vi
or_bytes (suc left) i vi = do b ← read_byte; or_bytes left (suc i) (bit_or vi (b * 2 ^ (i * 8)))

unfoldable pub read_varint : Reading ℕ
unfolding or_bytes read_byte
read_varint = do
  vi_start ← read_byte
  vi ← or_bytes (varint_bytes (bit_and vi_start 0b11) - 1) 1 vi_start
  pure (vi / 4)

-- `usize::try_from(v).map_err(|_| EpeeError::Short(usize::MAX))?`
unfoldable pub to_usize : {S : Type 0} → ℕ → Decoding S ℕ
to_usize v = if ltb v (2 ^ 64) then pure v else fail (short usize_max)

unfoldable pub read_str : Reading EpeeString
unfolding read_varint to_usize read_bytes
read_str = do
  len ← read_varint
  len ← to_usize len
  bytes ← read_bytes len
  pure (record { bytes = bytes })
