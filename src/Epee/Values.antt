-- ===== src/Epee/Values.antt =====
-- monero-oxide/epee/src/lib.rs: the values that an entry is read as.
pub mod Filled
pub mod Runs
pub mod Safety
pub mod Laws
use monero_oxide.Common.{
  ℕ, ◌-◌, ◌^◌, ◌==◌, ◌!=◌, ltb, Bool, true, false, not, ◌||◌, List, [], ◌∷◌, ok, err, length,
  if◌then◌else◌,
}
use monero_oxide.Common.Bytes.{from_le_bytes}
use monero_oxide.Epee.Decoding.{
  type_error, EpeeString, len, done, panicked, Decoding, pure, fail, ◌>>=◌, ◌>>◌, read_into_slice,
  read_str,
}
use monero_oxide.Epee.Types.{
  Kind, int64, int32, int16, int8, uint64, uint32, uint16, uint8, double, string, bool,
}
use monero_oxide.Epee.Parser.{on_encoding, popped}
use monero_oxide.Epee.View.{
  Epee, EpeeEntry, on_decoder, drop_entry, check_error, same_kind, is_one, take_root,
}

-- A signed integer.
pub data ℤ : Type 0 where
  pos negsuc : ℕ → ℤ

-- An `f64`, which is the integer that `f64::to_bits` returns: `f64::from_le_bytes` keeps the bits.
pub record F64 : Type 0 where
  pub bits : ℕ

-- `iN::from_le_bytes` of bytes read as a `uN` of `bits` bits, in two's complement.
abbrev pub as_signed : ℕ → ℕ → ℤ
as_signed bits v = if ltb v (2 ^ (bits - 1)) then pos v else negsuc (2 ^ bits - 1 - v)

-- The test that `to_primitive` and `to_str` start with. On its failure `self` is dropped while it
-- holds its reference, which steps over the entry.
unfoldable pub check_kind : EpeeEntry → Kind → Decoding Epee (Unit {0})
check_kind self kind =
    if not (same_kind self.kind kind) || not (is_one self.len)
    then drop_entry self >> fail type_error
    else pure tt

-- `to_primitive` into a slice of `n` bytes.
unfoldable pub to_primitive : EpeeEntry → Kind → ℕ → Decoding Epee (List ℕ)
unfolding check_kind popped read_into_slice
to_primitive self kind n = do
  _ ← check_kind self kind
  _ ← take_root self
  _ ← check_error
  _ ← on_decoder popped
  on_decoder (on_encoding (read_into_slice n))

-- `buf.try_into().unwrap()` into an array of `n` bytes.
abbrev pub into_array : ℕ → List ℕ → Decoding Epee (List ℕ)
into_array n buf e = if length buf == n then done (ok buf) e else panicked

-- `buf[0]`
abbrev pub first : List ℕ → Decoding Epee ℕ
first [] e = panicked
first (b ∷ buf) e = done (ok b) e

module _ (self : EpeeEntry) where
  unfoldable pub to_i64 : Decoding Epee ℤ
  unfolding to_primitive
  to_i64 = do
    buf ← to_primitive self int64 8
    bytes ← into_array 8 buf
    pure (as_signed 64 (from_le_bytes bytes))

  unfoldable pub to_i32 : Decoding Epee ℤ
  unfolding to_primitive
  to_i32 = do
    buf ← to_primitive self int32 4
    bytes ← into_array 4 buf
    pure (as_signed 32 (from_le_bytes bytes))

  unfoldable pub to_i16 : Decoding Epee ℤ
  unfolding to_primitive
  to_i16 = do
    buf ← to_primitive self int16 2
    bytes ← into_array 2 buf
    pure (as_signed 16 (from_le_bytes bytes))

  unfoldable pub to_i8 : Decoding Epee ℤ
  unfolding to_primitive
  to_i8 = do
    buf ← to_primitive self int8 1
    bytes ← into_array 1 buf
    pure (as_signed 8 (from_le_bytes bytes))

  unfoldable pub to_u64 : Decoding Epee ℕ
  unfolding to_primitive
  to_u64 = do buf ← to_primitive self uint64 8; bytes ← into_array 8 buf; pure (from_le_bytes bytes)

  unfoldable pub to_u32 : Decoding Epee ℕ
  unfolding to_primitive
  to_u32 = do buf ← to_primitive self uint32 4; bytes ← into_array 4 buf; pure (from_le_bytes bytes)

  unfoldable pub to_u16 : Decoding Epee ℕ
  unfolding to_primitive
  to_u16 = do buf ← to_primitive self uint16 2; bytes ← into_array 2 buf; pure (from_le_bytes bytes)

  unfoldable pub to_u8 : Decoding Epee ℕ
  unfolding to_primitive
  to_u8 = do buf ← to_primitive self uint8 1; first buf

  unfoldable pub to_f64 : Decoding Epee F64
  unfolding to_primitive
  to_f64 = do
    buf ← to_primitive self double 8
    bytes ← into_array 8 buf
    pure (record { bits = from_le_bytes bytes })

  unfoldable pub to_str : Decoding Epee EpeeString
  unfolding check_kind popped read_str
  to_str = do
    _ ← check_kind self string
    _ ← take_root self
    _ ← check_error
    _ ← on_decoder popped
    on_decoder (on_encoding read_str)

  unfoldable pub to_fixed_len_str : ℕ → Decoding Epee EpeeString
  unfolding to_str
  to_fixed_len_str n = do str ← to_str; if len str != n then fail type_error else pure str

  unfoldable pub to_bool : Decoding Epee Bool
  unfolding to_primitive
  to_bool = do buf ← to_primitive self bool 1; b ← first buf; pure (b != 0)
