-- ===== src/Epee/Parser.antt =====
-- monero-oxide/epee/src/parser.rs: one step of the decoder, and the steps over a whole item. The
-- state is the stack with the bytes that are left.
pub mod Steps
pub mod Runs
use monero_oxide.Common.{
  ℕ, zero, suc, ◌-◌, ◌==◌, ltb, bit_and, Option, none, some, List, Result, ok, err, length,
  if◌then◌else◌,
}
use monero_oxide.Epee.Decoding.{
  EpeeError, EpeeString, Outcome, done, panicked, unfinished, Decoding, Reading, pure, fail, ◌>>=◌,
  ◌>>◌, unrecognized_type, empty_key, read_bytes, read_byte, advance, read_varint, read_str,
  to_usize,
}
use monero_oxide.Epee.Types.{
  Kind, TypeOrEntry, of_type, entry, int64, int32, int16, int8, uint64, uint32, uint16, uint8,
  double, string, bool, object,
}
use monero_oxide.Epee.Stack.{Stack, pop, push, peek}

pub record Decoder : Type 0 where
  pub stack : Stack
  pub encoding : List ℕ

-- `Array::Array`
abbrev pub array_flag : ℕ
array_flag = 128

-- The match of `Type::read`.
unfoldable pub kind_of_byte : ℕ → Reading Kind
kind_of_byte kind =
    if kind == 1
    then pure int64
    else if kind == 2
    then pure int32
    else if kind == 3
    then pure int16
    else if kind == 4
    then pure int8
    else if kind == 5
    then pure uint64
    else if kind == 6
    then pure uint32
    else if kind == 7
    then pure uint16
    else if kind == 8
    then pure uint8
    else if kind == 9
    then pure double
    else if kind == 10
    then pure string
    else if kind == 11
    then pure bool
    else if kind == 12
    then pure object
    else fail unrecognized_type

-- `Type::read`
unfoldable pub read_type : Reading (Kind × ℕ)
unfolding read_byte kind_of_byte read_varint
read_type = do
  byte ← read_byte
  kind ← kind_of_byte (bit_and byte (255 - array_flag))
  len ← if bit_and byte array_flag == 0 then pure 1 else read_varint
  pure (kind, len)

unfoldable pub read_key : Reading EpeeString
unfolding read_byte read_bytes
read_key = do
  len ← read_byte
  if len == 0 then fail empty_key else do bytes ← read_bytes len; pure (record { bytes = bytes })

pub data SingleStepResult : Type 0 where
  object_of : ℕ → SingleStepResult
  entry_of : EpeeString → Kind → ℕ → SingleStepResult
  unit : SingleStepResult

-- A read from the bytes, and a change of the stack, in the whole state.
abbrev pub on_encoding {ℓ} : {A : Type ℓ} → Reading A → Decoding Decoder A
on_encoding p d = elim (p d.encoding) [
  | done r rest ↦ done r (record d { encoding = rest })
  | panicked ↦ panicked
  | unfinished ↦ unfinished
]

unfoldable pub popped : Decoding Decoder (Option TypeOrEntry)
popped d = elim (pop d.stack) [
  | some (kind, stack) ↦ done (ok kind) (record d { stack = stack })
  | none ↦ panicked
]

unfoldable pub pushed : TypeOrEntry → ℕ → Decoding Decoder (Unit {0})
pushed kind amount d = elim (push kind amount d.stack) [
  | some (r, stack) ↦ done r (record d { stack = stack })
  | none ↦ panicked
]

-- `size_of` of the integers, of `f64` and of `bool`
abbrev pub size_of : Kind → ℕ
size_of int64 = 8
size_of int32 = 4
size_of int16 = 2
size_of int8 = 1
size_of uint64 = 8
size_of uint32 = 4
size_of uint16 = 2
size_of uint8 = 1
size_of double = 8
size_of string = 0
size_of bool = 1
size_of object = 0

unfoldable pub step_scalar : Kind → Decoding Decoder (Option SingleStepResult)
unfolding advance
step_scalar kind = do _ ← on_encoding (advance (size_of kind)); pure (some unit)

unfoldable pub step_string : Decoding Decoder (Option SingleStepResult)
unfolding read_str
step_string = do _ ← on_encoding read_str; pure (some unit)

unfoldable pub step_object : Decoding Decoder (Option SingleStepResult)
unfolding read_varint to_usize pushed
step_object = do
  fields ← on_encoding read_varint
  fields ← to_usize fields
  _ ← pushed entry fields
  pure (some (object_of fields))

unfoldable pub step_entry : Decoding Decoder (Option SingleStepResult)
unfolding read_key read_type to_usize pushed
step_entry = do
  key ← on_encoding read_key
  (kind, len) ← on_encoding read_type
  len ← to_usize len
  _ ← pushed (of_type kind) len
  pure (some (entry_of key kind len))

-- The match of `single_step` on the item that was popped.
unfoldable pub step_item : Option TypeOrEntry → Decoding Decoder (Option SingleStepResult)
unfolding step_scalar step_string step_object step_entry
step_item none = pure none
step_item (some entry) = step_entry
step_item (some (of_type string)) = step_string
step_item (some (of_type object)) = step_object
step_item (some (of_type kind)) = step_scalar kind

unfoldable pub single_step : Decoding Decoder (Option SingleStepResult)
unfolding popped step_item
single_step = do kind ← popped; step_item kind

-- `self.depth() != stop_at_stack_depth`, else on to the body again.
abbrev pub until_depth : ℕ → Decoding Decoder (Unit {0}) → Decoding Decoder (Unit {0})
until_depth stop again d = if d.stack.depth == stop then done (ok tt) d else again d

-- The loop of `step` on fuel.
unfoldable pub step_loop : ℕ → ℕ → Decoding Decoder (Unit {0})
unfolding single_step
step_loop zero stop = λ d. unfinished
step_loop (suc fuel) stop = do _ ← single_step; until_depth stop (step_loop fuel stop)

abbrev pub stop_depth : ℕ → ℕ → ℕ
stop_depth depth len = if ltb 1 len then depth else depth - 1

-- Each turn of the loop that does not fail takes a byte, so one turn more than there are bytes is
-- enough.
unfoldable pub step : Decoding Decoder (Option (Unit {0}))
unfolding step_loop peek
step d = elim (peek d.stack) [
  | none ↦ panicked
  | some none ↦ done (ok none) d
  | some (some (kind, len)) ↦
      (do _ ← step_loop (suc (length d.encoding)) (stop_depth d.stack.depth len); pure (some tt)) d
]
