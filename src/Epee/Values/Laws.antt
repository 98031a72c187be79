-- ===== src/Epee/Values/Laws.antt =====
-- monero-oxide/epee/src/lib.rs: the values read from an entry of a fixed size, and the drop of such
-- an entry.
use monero_oxide.Common.{
  ℕ, ◌-◌, ◌^◌, ◌<◌, ◌≡◌, refl, ◌∙◌, ap, arith, Bool, false, ◌!=◌, Option, some, List, [], ◌∷◌, ◌++◌,
  ok, length, ltb, le→ltb,
}
use monero_oxide.Common.Bytes.{
  from_le_bytes, to_le_bytes, length-to_le_bytes, from_le_bytes-to_le_bytes,
}
use monero_oxide.Epee.Decoding.{type_error, done, Decoding, pure, fail, ◌>>=◌}
use monero_oxide.Epee.Types.{
  Kind, TypeOrEntry, of_type, int64, int32, int16, int8, uint64, uint32, uint16, uint8, double,
  string, bool, object,
}
use monero_oxide.Epee.Stack.{Stack, pop}
use monero_oxide.Epee.Stack.Laws.{Item, Represents, take_one, pop_lem}
use monero_oxide.Epee.Parser.{size_of}
use monero_oxide.Epee.View.{Epee, EpeeEntry, drop_items, drop_entry}
use monero_oxide.Epee.Values.{
  ℤ, pos, negsuc, F64, as_signed, first, to_i64, to_i32, to_i16, to_i8, to_u64, to_u32, to_u16,
  to_u8, to_f64, to_bool,
}
use monero_oxide.Epee.Values.Runs.{
  view, single, >>=_done, into_array_of, fixed_run, byte_run, step_run,
}

-- The public reads, by the type that each is for.
pub data Value : Type 0 where
  signed : ℤ → Value
  unsigned : ℕ → Value
  float : F64 → Value
  truth : Bool → Value

abbrev pub read_value : Kind → EpeeEntry → Decoding Epee Value
read_value int64 self = do v ← to_i64 self; pure (signed v)
read_value int32 self = do v ← to_i32 self; pure (signed v)
read_value int16 self = do v ← to_i16 self; pure (signed v)
read_value int8 self = do v ← to_i8 self; pure (signed v)
read_value uint64 self = do v ← to_u64 self; pure (unsigned v)
read_value uint32 self = do v ← to_u32 self; pure (unsigned v)
read_value uint16 self = do v ← to_u16 self; pure (unsigned v)
read_value uint8 self = do v ← to_u8 self; pure (unsigned v)
read_value double self = do v ← to_f64 self; pure (float v)
read_value bool self = do v ← to_bool self; pure (truth v)
read_value string self = fail type_error
read_value object self = fail type_error

-- What the bytes of a value stand for: an integer in little-endian order, in two's complement where
-- the type is signed.
abbrev pub value_of : Kind → List ℕ → Value
value_of int64 bytes = signed (as_signed 64 (from_le_bytes bytes))
value_of int32 bytes = signed (as_signed 32 (from_le_bytes bytes))
value_of int16 bytes = signed (as_signed 16 (from_le_bytes bytes))
value_of int8 bytes = signed (as_signed 8 (from_le_bytes bytes))
value_of double bytes = float (record { bits = from_le_bytes bytes })
value_of bool bytes = truth (from_le_bytes bytes != 0)
value_of _ bytes = unsigned (from_le_bytes bytes)

from_one_byte : (b : ℕ) → b ≡ from_le_bytes (b ∷ [])
unfolding from_le_bytes
from_one_byte b = omega arith

-- The value that a read returns, as one of all types.
valued_run {ℓ} :
    {A : Type ℓ} (p : Decoding Epee A) (c : A → Value) (e e' : Epee) (a : A)
    → p e ≡ done (ok a) e'
    → (do v ← p; pure (c v)) e ≡ done (ok (c a)) e'
valued_run p c e e' a h = >>=_done p (λ v. pure (c v)) e e' a h

number_run {ℓ} :
    {A : Type ℓ} (n : ℕ) (g : List ℕ → A) (c : A → Value) (kind : Kind) (bytes rest : List ℕ)
    (stack next : Stack) (popped_kind : Option TypeOrEntry)
    → length bytes ≡ n
    → pop stack ≡ some (popped_kind, next)
    → (into_array_of n g kind >>= λ v. pure (c v)) (view stack (bytes ++ rest))
      ≡ done (ok (c (g bytes))) (view next rest)
number_run n g c kind bytes rest stack next pk len h =
    valued_run (into_array_of n g kind) c (view stack (bytes ++ rest)) (view next rest) (g bytes)
      (fixed_run n g kind bytes rest stack next pk len h)

read_value_run :
    (kind : Kind) (bytes rest : List ℕ) (stack next : Stack) (popped_kind : Option TypeOrEntry)
    → 0 < size_of kind
    → length bytes ≡ size_of kind
    → pop stack ≡ some (popped_kind, next)
    → read_value kind (single kind) (view stack (bytes ++ rest))
      ≡ done (ok (value_of kind bytes)) (view next rest)
unfolding to_i64 to_i32 to_i16 to_i8 to_u64 to_u32 to_u16 to_u8 to_f64 to_bool
read_value_run int64 bytes rest stack next pk fixed len h =
    number_run 8 (λ b. as_signed 64 (from_le_bytes b)) signed int64 bytes rest stack next pk len h
read_value_run int32 bytes rest stack next pk fixed len h =
    number_run 4 (λ b. as_signed 32 (from_le_bytes b)) signed int32 bytes rest stack next pk len h
read_value_run int16 bytes rest stack next pk fixed len h =
    number_run 2 (λ b. as_signed 16 (from_le_bytes b)) signed int16 bytes rest stack next pk len h
read_value_run int8 bytes rest stack next pk fixed len h =
    number_run 1 (λ b. as_signed 8 (from_le_bytes b)) signed int8 bytes rest stack next pk len h
read_value_run uint64 bytes rest stack next pk fixed len h =
    number_run 8 (λ b. from_le_bytes b) unsigned uint64 bytes rest stack next pk len h
read_value_run uint32 bytes rest stack next pk fixed len h =
    number_run 4 (λ b. from_le_bytes b) unsigned uint32 bytes rest stack next pk len h
read_value_run uint16 bytes rest stack next pk fixed len h =
    number_run 2 (λ b. from_le_bytes b) unsigned uint16 bytes rest stack next pk len h
read_value_run double bytes rest stack next pk fixed len h =
    number_run 8 (λ b. record { bits = from_le_bytes b }) float double bytes rest stack next pk len
      h
read_value_run uint8 (b ∷ []) rest stack next pk fixed len h =
    valued_run (to_u8 (single uint8)) unsigned (view stack ((b ∷ []) ++ rest)) (view next rest) b
      (byte_run first uint8 b rest stack next pk h)
    ∙ ap (λ v. done (ok (unsigned v)) (view next rest)) (from_one_byte b)
read_value_run bool (b ∷ []) rest stack next pk fixed len h =
    valued_run (to_bool (single bool)) truth (view stack ((b ∷ []) ++ rest)) (view next rest)
      (b != 0) (byte_run (λ buf. first buf >>= λ b. pure (b != 0)) bool b rest stack next pk h)
    ∙ ap (λ v. done (ok (truth (v != 0))) (view next rest)) (from_one_byte b)
read_value_run uint8 [] rest stack next pk fixed len h = absurd (omega (arith, len))
read_value_run uint8 (b ∷ c ∷ bytes) rest stack next pk fixed len h = absurd (omega (arith, len))
read_value_run bool [] rest stack next pk fixed len h = absurd (omega (arith, len))
read_value_run bool (b ∷ c ∷ bytes) rest stack next pk fixed len h = absurd (omega (arith, len))
read_value_run string bytes rest stack next pk fixed len h = absurd (omega arith)
read_value_run object bytes rest stack next pk fixed len h = absurd (omega arith)

-- The read for a type of a fixed size, on an entry of one value of this type, returns the value that
-- its bytes stand for. Dropping the entry unread takes the same bytes: both leave the same view, with
-- the value's bytes taken, one of the item taken off the stack, and no error.
pub read_value-drop_entry :
    (kind : Kind) (amount : ℕ) (items : List Item) (bytes rest : List ℕ) (stack : Stack)
    → 0 < size_of kind
    → length bytes ≡ size_of kind
    → Represents stack ((of_type kind, amount) ∷ items)
    → (next : Stack) × (read_value kind (single kind) (view stack (bytes ++ rest))
        ≡ done (ok (value_of kind bytes)) (view next rest))
      × (drop_entry (single kind) (view stack (bytes ++ rest)) ≡ done (ok tt) (view next rest))
      × Represents next (take_one ((of_type kind, amount) ∷ items))
unfolding drop_items
read_value-drop_entry kind amount items bytes rest stack fixed size holds =
    let (next, run, after) = pop_lem stack ((of_type kind, amount) ∷ items) holds in
    let skipped : drop_items 1 (view stack (bytes ++ rest)) ≡ done (ok tt) (view next rest) =
      rw (step_run kind amount items bytes rest stack next fixed size holds run after, drop_items)
        refl in
    (next, read_value_run kind bytes rest stack next _ fixed size run, skipped, after)

-- The two's complement of a signed integer in `bits` bits.
abbrev pub twos_complement : ℕ → ℤ → ℕ
twos_complement bits (pos n) = n
twos_complement bits (negsuc n) = 2 ^ bits - 1 - n

-- -2 ^ 63 ≤ v < 2 ^ 63
abbrev pub IsI64 : ℤ → Type 0
IsI64 (pos n) = n < 2 ^ 63
IsI64 (negsuc n) = n < 2 ^ 63

as_signed-twos_complement : (v : ℤ) → IsI64 v → as_signed 64 (twos_complement 64 v) ≡ v
as_signed-twos_complement (pos n) h = ground arith
as_signed-twos_complement (negsuc n) h =
    let high : ltb (2 ^ 64 - 1 - n) (2 ^ 63) ≡ false = le→ltb _ _ (omega arith) in
    rw high (ap negsuc (omega arith))

twos_complement-lt : (v : ℤ) → IsI64 v → twos_complement 64 v < 256 ^ 8
twos_complement-lt (pos n) h = omega arith
twos_complement-lt (negsuc n) h = omega arith

-- `to_i64` on an entry of one `i64` returns the integer whose two's complement the eight bytes hold,
-- and takes these bytes and the item.
pub to_i64_lem :
    (v : ℤ) (amount : ℕ) (items : List Item) (rest : List ℕ) (stack : Stack)
    → IsI64 v
    → Represents stack ((of_type int64, amount) ∷ items)
    → (next : Stack) × (to_i64
          (single int64)
          (view stack (to_le_bytes 8 (twos_complement 64 v) ++ rest))
        ≡ done (ok v) (view next rest))
      × Represents next (take_one ((of_type int64, amount) ∷ items))
unfolding to_i64
to_i64_lem v amount items rest stack range holds =
    let (next, run, after) = pop_lem stack ((of_type int64, amount) ∷ items) holds in
    let bytes = to_le_bytes 8 (twos_complement 64 v) in
    let value : as_signed 64 (from_le_bytes bytes) ≡ v =
      ap (as_signed 64) (from_le_bytes-to_le_bytes 8 _ (twos_complement-lt v range))
      ∙ as_signed-twos_complement v range in
    (
      next,
      fixed_run 8 (λ bytes. as_signed 64 (from_le_bytes bytes)) int64 bytes rest stack next _
            (length-to_le_bytes 8 (twos_complement 64 v)) run
          ∙ ap (λ t. done (ok t) (view next rest)) value,
      after,
    )
