-- ===== src/Epee/Stack.antt =====
-- monero-oxide/epee/src/stack.rs: the decoder's stack, in arrays of a fixed size. `none` is a
-- panic where a function indexes an array or matches on a packed type.
pub mod Packed
pub mod Laws
use monero_oxide.Common.{
  ℕ, ◌+◌, ◌-◌, ◌*◌, ◌/◌, ◌^◌, bit_and, bit_or, Option, none, some, List, Result, ok, err, get_elem?,
  length, ltb, set, replicate, ◌==◌, if◌then◌else◌,
}
use monero_oxide.Epee.Decoding.{EpeeError, depth_limit_exceeded}
use monero_oxide.Epee.Types.{
  TypeOrEntry, of_type, entry, as_u8, int64, int32, int16, int8, uint64, uint32, uint16, uint8,
  double, string, bool, object,
}

abbrev pub epee_lib_max_object_depth : ℕ
epee_lib_max_object_depth = 100

abbrev pub max_object_depth : ℕ
max_object_depth = epee_lib_max_object_depth + 2

-- `[u8; MAX_OBJECT_DEPTH.div_ceil(2)]`
pub record PackedTypes : Type 0 where
  pub bytes : List ℕ

-- The match of `get`.
abbrev pub unpack : ℕ → Option TypeOrEntry
unpack v =
    if v == 0
    then some entry
    else if v == 1
    then some (of_type int64)
    else if v == 2
    then some (of_type int32)
    else if v == 3
    then some (of_type int16)
    else if v == 4
    then some (of_type int8)
    else if v == 5
    then some (of_type uint64)
    else if v == 6
    then some (of_type uint32)
    else if v == 7
    then some (of_type uint16)
    else if v == 8
    then some (of_type uint8)
    else if v == 9
    then some (of_type double)
    else if v == 10
    then some (of_type string)
    else if v == 11
    then some (of_type bool)
    else if v == 12
    then some (of_type object)
    else none

abbrev pub four_bits : TypeOrEntry → ℕ
four_bits entry = 0
four_bits (of_type kind) = as_u8 kind

-- The four bits of slot `i` in the byte that holds it, and that byte with the slot set.
abbrev pub slot : ℕ → ℕ → ℕ
slot byte i = bit_and (byte / 2 ^ (bit_and i 1 * 4)) 0b1111

abbrev pub set_slot : ℕ → ℕ → TypeOrEntry → ℕ
set_slot byte i kind =
    let shift = bit_and i 1 * 4 in
    bit_or (bit_and byte (0b1111_0000 / 2 ^ shift)) (four_bits kind * 2 ^ shift)

-- A chain of computations that may panic.
infixl 1 ◌>>=◌
abbrev pub ◌>>=◌ {ℓ κ} : {A : Type ℓ} {B : Type κ} → Option A → (A → Option B) → Option B
none >>= f = none
some a >>= f = f a

-- An assignment to an element of an array.
abbrev pub assign : List ℕ → ℕ → ℕ → Option (List ℕ)
assign array i v = if ltb i (length array) then some (set array i v) else none

unfoldable pub get : PackedTypes → ℕ → Option TypeOrEntry
get types i = do byte ← get_elem? types.bytes (i / 2); unpack (slot byte i)

unfoldable pub set_type : PackedTypes → ℕ → TypeOrEntry → Option PackedTypes
set_type types i kind = do
  byte ← get_elem? types.bytes (i / 2)
  bytes ← assign types.bytes (i / 2) (set_slot byte i kind)
  some (record { bytes = bytes })

pub record Stack : Type 0 where
  pub types : PackedTypes
  pub amounts : List ℕ
  pub depth : ℕ

-- `[x; n]`, and the stack that holds the root object.
unfoldable pub root_object : Option Stack
unfolding set_type
root_object = do
  types ← set_type (record { bytes = replicate ((max_object_depth + 1) / 2) 0 }) 0 (of_type object)
  amounts ← assign (replicate max_object_depth 1) 0 1
  some (record { types = types; amounts = amounts; depth = 1 })

unfoldable pub peek : Stack → Option (Option (TypeOrEntry × ℕ))
unfolding get
peek stack = if stack.depth == 0 then some none else do
  kind ← get stack.types (stack.depth - 1)
  amount ← get_elem? stack.amounts (stack.depth - 1)
  some (some (kind, amount))

-- `if let Some(amount) = NonZero::new(amount)` and its `else`.
abbrev pub decrease : Stack → ℕ → ℕ → Option Stack
decrease stack i amount =
    if amount == 0
    then some (record stack { depth = stack.depth - 1 })
    else do amounts ← assign stack.amounts i amount; some (record stack { amounts = amounts })

unfoldable pub pop : Stack → Option (Option TypeOrEntry × Stack)
unfolding get
pop stack = if stack.depth == 0 then some (none, stack) else do
  kind ← get stack.types (stack.depth - 1)
  amount ← get_elem? stack.amounts (stack.depth - 1)
  stack ← decrease stack (stack.depth - 1) (amount - 1)
  some (some kind, stack)

unfoldable pub push : TypeOrEntry → ℕ → Stack → Option (Result EpeeError (Unit {0}) × Stack)
unfolding set_type
push kind amount stack =
    if stack.depth == max_object_depth
    then some (err depth_limit_exceeded, stack)
    else if amount == 0
    then some (ok tt, stack)
    else do
      types ← set_type stack.types stack.depth kind
      amounts ← assign stack.amounts stack.depth amount
      some (ok tt, record { types = types; amounts = amounts; depth = stack.depth + 1 })
