-- ===== src/Epee/View.antt =====
-- monero-oxide/epee/src/lib.rs: the view of an encoding, its entries and its iterators. The state
-- is the `Epee` that they borrow. What a value's `Drop` does stands where the value goes out of
-- scope.
pub mod Drops
pub mod Header
pub mod Safety
use monero_oxide.Common.{
  ℕ, zero, suc, ◌-◌, ◌^◌, ◌==◌, ltb, Bool, true, false, not, ◌&&◌, ◌||◌, Option, none, some, List,
  [], ◌∷◌, Result, ok, err, if◌then◌else◌,
}
use monero_oxide.Common.Bytes.{from_le_bytes}
use monero_oxide.Epee.Decoding.{
  EpeeError, internal_error, invalid_header, invalid_version, type_error, epee_reuse, EpeeString,
  len, Outcome, done, panicked, unfinished, Decoding, Reading, pure, fail, refuse_if, ◌>>=◌,
  read_into_slice, read_byte, read_str, first_byte,
}
use monero_oxide.Epee.Types.{
  Kind, as_u8, int64, int32, int16, int8, uint64, uint32, uint16, uint8, string, bool, object,
}
use monero_oxide.Epee.Stack.{root_object}
use monero_oxide.Epee.Parser.{
  Decoder, SingleStepResult, object_of, entry_of, unit, on_encoding, popped, single_step, step,
}

abbrev pub header : List ℕ
header = 0x01 ∷ 0x11 ∷ 0x01 ∷ 0x01 ∷ 0x01 ∷ 0x01 ∷ 0x02 ∷ 0x01 ∷ []

abbrev pub version : ℕ
version = 1

pub record Epee : Type 0 where
  pub decoder : Decoder
  pub error : Option EpeeError

-- `root` tells whether the entry still holds its reference to the `Epee`.
pub record EpeeEntry : Type 0 where
  pub root : Bool
  pub kind : Kind
  pub len : ℕ

abbrev pub on_decoder {ℓ} : {A : Type ℓ} → Decoding Decoder A → Decoding Epee A
on_decoder p e = elim (p e.decoder) [
  | done r d ↦ done r (record e { decoder = d })
  | panicked ↦ panicked
  | unfinished ↦ unfinished
]

-- `present_header != HEADER`
unfoldable pub same_bytes : List ℕ → List ℕ → Bool
same_bytes [] [] = true
same_bytes (x ∷ xs) (y ∷ ys) = x == y && same_bytes xs ys
same_bytes _ _ = false

abbrev pub check_header : List ℕ → Reading (Unit {0})
check_header present = if same_bytes present header then pure tt else fail invalid_header

-- `encoding.read_byte().ok()`, and the check of it.
abbrev pub check_version : Reading (Unit {0})
check_version src = elim (read_byte src) [
  | done (ok v) rest ↦ (if v == version then pure tt else fail (invalid_version (some v))) rest
  | done (err _) rest ↦ fail (invalid_version none) rest
  | panicked ↦ panicked
  | unfinished ↦ unfinished
]

abbrev pub root_view : Reading Epee
root_view encoding = elim root_object [
  | some stack ↦
      pure (record { decoder = record { stack = stack; encoding = encoding }; error = none })
        encoding
  | none ↦ panicked
]

unfoldable pub new : Reading Epee
unfolding read_into_slice same_bytes read_byte root_object
new = do present ← read_into_slice 8; _ ← check_header present; _ ← check_version; root_view

abbrev pub is_some {ℓ} : {A : Type ℓ} → Option A → Bool
is_some none = false
is_some (some a) = true

abbrev pub is_one : ℕ → Bool
is_one n = n == 1

unfoldable pub entry : Decoding Epee EpeeEntry
entry e =
    if not (e.decoder.stack.depth == 1) || is_some e.error
    then fail epee_reuse e
    else pure (record { root = true; kind = object; len = 1 }) e

-- `step(..).err()`
abbrev pub error_of {ℓ} : {A : Type ℓ} → Result EpeeError A → Option EpeeError
error_of (ok a) = none
error_of (err e) = some e

-- The loop of the three `Drop`s, `while error.is_none() && (len != 0)`.
unfoldable pub drop_items : ℕ → Decoding Epee (Unit {0})
unfolding step
drop_items zero e = done (ok tt) e
drop_items (suc n) e =
    let rest = drop_items n in
    if is_some e.error then done (ok tt) e else elim (step e.decoder) [
      | done r d ↦ rest (record { decoder = d; error = error_of r })
      | panicked ↦ panicked
      | unfinished ↦ unfinished
    ]

-- `Drop for EpeeEntry`
abbrev pub drop_entry : EpeeEntry → Decoding Epee (Unit {0})
drop_entry self = if self.root then drop_items self.len else pure tt

-- `if let Some(error) = root.error { Err(error)?; }`
abbrev pub check_error : Decoding Epee (Unit {0})
check_error e = elim e.error [ some error ↦ done (err error) e | none ↦ done (ok tt) e ]

abbrev pub same_kind : Kind → Kind → Bool
same_kind a b = as_u8 a == as_u8 b

-- `self.root.take().ok_or(EpeeError::InternalError)?`, after which dropping `self` does nothing.
abbrev pub take_root : EpeeEntry → Decoding Epee (Unit {0})
take_root self = if self.root then pure tt else fail internal_error

-- The iterators keep how many items are left.
pub record FieldIterator : Type 0 where
  pub len : ℕ

pub record ArrayIterator : Type 0 where
  pub kind : Kind
  pub len : ℕ

abbrev pub fields_of : Option SingleStepResult → Decoding Epee FieldIterator
fields_of (some (object_of fields)) = pure (record { len = fields })
fields_of _ = fail internal_error

unfoldable pub fields : EpeeEntry → Decoding Epee FieldIterator
unfolding single_step
fields self = do
  _ ← take_root self
  _ ← check_error
  _ ← refuse_if (not (same_kind self.kind object) || not (is_one self.len)) type_error
  r ← on_decoder single_step
  fields_of r

unfoldable pub iterate : EpeeEntry → Decoding Epee ArrayIterator
iterate self = do
  _ ← take_root self
  _ ← check_error
  pure (record { kind = self.kind; len = self.len })

abbrev pub Next {ℓ} : Type ℓ → Type ℓ
Next A = Option (Result EpeeError A)

-- The match of `FieldIterator::next` on the step's result.
abbrev pub field_of :
    Result EpeeError (Option SingleStepResult) → Result EpeeError (EpeeString × EpeeEntry)
field_of (ok (some (entry_of key kind len))) =
    ok (key, record { root = true; kind = kind; len = len })
field_of (ok _) = err internal_error
field_of (err e) = err e

-- `FieldIterator::next`, with the iterator that it leaves.
unfoldable pub next_field :
    FieldIterator → Decoding Epee (Next (EpeeString × EpeeEntry) × FieldIterator)
unfolding single_step
next_field self e = elim e.error [
  | some error ↦ pure (some (err error), self) e
  | none ↦ if self.len == 0 then pure (none, self) e else elim (single_step e.decoder) [
    | done r d ↦ pure (some (field_of r), record { len = self.len - 1 }) (record e { decoder = d })
    | panicked ↦ panicked
    | unfinished ↦ unfinished
  ]
]

-- `ArrayIterator::next`
unfoldable pub next_item : ArrayIterator → Decoding Epee (Next EpeeEntry × ArrayIterator)
next_item self e = elim e.error [
  | some error ↦ pure (some (err error), self) e
  | none ↦
      if self.len == 0
      then pure (none, self) e
      else pure
          (
            some (ok (record { root = true; kind = self.kind; len = 1 })),
            record self { len = self.len - 1 },
          )
          e
]
