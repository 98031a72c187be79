-- ===== src/Epee/Values/Safety.antt =====
-- monero-oxide/epee/src/lib.rs: the iterators and the values on a well-formed state.
use monero_oxide.Common.{
  ℕ, ◌-◌, ◌==◌, ◌!=◌, Option, List, [], ◌∷◌, some, ◌≡◌, ◌⊎◌, ok, err, Bool-cases, Option-cases, inl,
  inr,
}
use monero_oxide.Common.Bytes.{from_le_bytes}
use monero_oxide.Epee.Decoding.{
  EpeeError, type_error, EpeeString, len, Outcome, done, panicked, unfinished, pure, ◌>>=◌,
  read_str,
}
use monero_oxide.Epee.Decoding.Advances.{read_str-Advances}
use monero_oxide.Epee.Types.{
  Kind, of_type, int64, int32, int16, int8, uint64, uint32, uint16, uint8, double, string, bool,
  object,
}
use monero_oxide.Epee.Parser.{Decoder, SingleStepResult, on_encoding, popped, single_step}
use monero_oxide.Epee.View.{
  Epee, EpeeEntry, new, Next, FieldIterator, ArrayIterator, on_decoder, entry, drop_items,
  drop_entry, check_error, take_root, fields, field_of, iterate, next_field, next_item,
}
use monero_oxide.Epee.View.Header.{new_lem}
use monero_oxide.Epee.View.Safety.{
  IsWellFormed, SafeStep, safe_step, Safe, safe, Safe-bind, single_step-Safe, popped-Safe,
  on_encoding-Safe, on_decoder-Safe, drop_items-Safe, drop_entry-Safe, take_root-Safe,
  check_error-Safe, entry-Safe, fields-Safe, iterate-Safe,
}
use monero_oxide.Epee.Values.{
  check_kind, as_signed, to_primitive, into_array, to_i64, to_i32, to_i16, to_i8, to_u64, to_u32,
  to_u16, to_u8, to_f64, to_bool, to_str, to_fixed_len_str,
}
use monero_oxide.Epee.Values.Filled.{
  check_kind-Safe, Fills-Safe, Fills-bind, to_primitive-Fills, into_array-Safe, first-Safe,
  first_then-Safe,
}

field_turn-Safe :
    (self : FieldIterator) (e : Epee) (o : Outcome Decoder (Option SingleStepResult))
    → SafeStep o
    → Safe {A = Next (EpeeString × EpeeEntry) × FieldIterator} (elim o [
      | done r d ↦
          pure (some (field_of r), record { len = self.len - 1 }) (record e { decoder = d })
      | panicked ↦ panicked
      | unfinished ↦ unfinished
    ])
field_turn-Safe self e _ (safe_step r d h) = safe (ok _) (record e { decoder = d }) h

next_field-Safe :
    (self : FieldIterator) (e : Epee) → IsWellFormed e.decoder → Safe (next_field self e)
unfolding next_field
next_field-Safe self e h = elim (Option-cases e.error) [
  | inl right ↦ elim (Bool-cases (self.len == 0)) [
    | inl over ↦ simp (right, over, next_field) (safe (ok _) e h)
    | inr more ↦
        simp (right, more, next_field)
          (field_turn-Safe self e (single_step e.decoder) (single_step-Safe e.decoder h))
  ]
  | inr (x, wrong) ↦ simp (wrong, next_field) (safe (ok _) e h)
]

next_item-Safe :
    (self : ArrayIterator) (e : Epee) → IsWellFormed e.decoder → Safe (next_item self e)
unfolding next_item
next_item-Safe self e h = elim (Option-cases e.error) [
  | inl right ↦ elim (Bool-cases (self.len == 0)) [
    | inl over ↦ simp (right, over, next_item) (safe (ok _) e h)
    | inr more ↦ simp (right, more, next_item) (safe (ok _) e h)
  ]
  | inr (x, wrong) ↦ simp (wrong, next_item) (safe (ok _) e h)
]

to_primitive-Safe :
    (self : EpeeEntry) (kind : Kind) (n : ℕ) (e : Epee)
    → IsWellFormed e.decoder
    → Safe (to_primitive self kind n e)
to_primitive-Safe self kind n e h =
    Fills-Safe n (to_primitive self kind n e) (to_primitive-Fills self kind n e h)

-- A value that is read from as many bytes as the slice has.
to_fixed-Safe {ℓ} :
    {A : Type ℓ} (n : ℕ) (g : List ℕ → A) (self : EpeeEntry) (kind : Kind) (e : Epee)
    → IsWellFormed e.decoder
    → Safe ((do buf ← to_primitive self kind n; bytes ← into_array n buf; pure (g bytes)) e)
to_fixed-Safe n g self kind e h =
    Fills-bind n (to_primitive self kind n) _ e (to_primitive-Fills self kind n e h)
      λ buf e' len h'. into_array-Safe n g buf e' len h'

to_str-Safe : (self : EpeeEntry) (e : Epee) → IsWellFormed e.decoder → Safe (to_str self e)
unfolding to_str
to_str-Safe self e h =
    Safe-bind (check_kind self string) _ e (check_kind-Safe self string e h) λ _ e₁ h₁.
      Safe-bind (take_root self) _ e₁ (take_root-Safe self e₁ h₁) λ _ e₂ h₂.
        Safe-bind check_error _ e₂ (check_error-Safe e₂ h₂) λ _ e₃ h₃.
          Safe-bind (on_decoder popped) _ e₃ (on_decoder-Safe popped e₃ (popped-Safe e₃.decoder h₃))
            λ _ e₄ h₄.
              on_decoder-Safe (on_encoding read_str) e₄
                (on_encoding-Safe 1 read_str e₄.decoder (read_str-Advances e₄.decoder.encoding) h₄)

to_fixed_len_str-Safe :
    (self : EpeeEntry) (n : ℕ) (e : Epee)
    → IsWellFormed e.decoder
    → Safe (to_fixed_len_str self n e)
unfolding to_fixed_len_str
to_fixed_len_str-Safe self n e h = Safe-bind (to_str self) _ e (to_str-Safe self e h) λ str e' h'.
    elim (Bool-cases (len str != n)) [
      | inl differs ↦ rw differs (safe (err type_error) e' h')
      | inr fits ↦ rw fits (safe (ok str) e' h')
    ]

-- The reads of an entry as each of the types.
abbrev pub AreReadsSafe : EpeeEntry → ℕ → Epee → Type 0
AreReadsSafe self n e =
    Safe (to_i64 self e)
    × Safe (to_i32 self e)
    × Safe (to_i16 self e)
    × Safe (to_i8 self e)
    × Safe (to_u64 self e)
    × Safe (to_u32 self e)
    × Safe (to_u16 self e)
    × Safe (to_u8 self e)
    × Safe (to_f64 self e)
    × Safe (to_bool self e)
    × Safe (to_str self e)
    × Safe (to_fixed_len_str self n e)

reads-Safe : (self : EpeeEntry) (n : ℕ) (e : Epee) → IsWellFormed e.decoder → AreReadsSafe self n e
unfolding to_i64 to_i32 to_i16 to_i8 to_u64 to_u32 to_u16 to_u8 to_f64 to_bool
reads-Safe self n e h = (
  to_fixed-Safe 8 (λ bytes. as_signed 64 (from_le_bytes bytes)) self int64 e h,
  to_fixed-Safe 4 (λ bytes. as_signed 32 (from_le_bytes bytes)) self int32 e h,
  to_fixed-Safe 2 (λ bytes. as_signed 16 (from_le_bytes bytes)) self int16 e h,
  to_fixed-Safe 1 (λ bytes. as_signed 8 (from_le_bytes bytes)) self int8 e h,
  to_fixed-Safe 8 (λ bytes. from_le_bytes bytes) self uint64 e h,
  to_fixed-Safe 4 (λ bytes. from_le_bytes bytes) self uint32 e h,
  to_fixed-Safe 2 (λ bytes. from_le_bytes bytes) self uint16 e h,
  Fills-bind 1 (to_primitive self uint8 1) _ e (to_primitive-Fills self uint8 1 e h) first-Safe,
  to_fixed-Safe 8 (λ bytes. record { bits = from_le_bytes bytes }) self double e h,
  Fills-bind 1 (to_primitive self bool 1) _ e (to_primitive-Fills self bool 1 e h)
      (first_then-Safe (λ b. b != 0)),
  to_str-Safe self e h,
  to_fixed_len_str-Safe self n e h,
)

-- `new` ends without a panic, in a well-formed state or with an error.
abbrev pub IsNewSafe : List ℕ → Type 0
IsNewSafe src =
    ((e : Epee) × (rest : List ℕ) × (new src ≡ done (ok e) rest) × IsWellFormed e.decoder)
    ⊎ ((x : EpeeError) × (rest : List ℕ) × (new src ≡ done (err x) rest))

new-Safe : (src : List ℕ) → IsNewSafe src
new-Safe src = elim (new_lem src) [
  | inl (rest, e, split, run, right, left, holds) ↦
      inl (e, rest, run, ((of_type object, 1) ∷ [], holds))
  | inr (x, rest, run, refuses) ↦ inr (x, rest, run)
]

-- Making a view of any bytes ends without a panic, in a state whose stack stands for a list of items
-- or with an error. Each operation of a view, in such a state, ends without a panic in such a state,
-- whatever its result: the root's entry, an entry's fields and items, the next of the iterators, the
-- drops of entries and iterators, and the reads of an entry as any of the types, with the
-- conversions of the slices that they fill.
pub view_IsWellFormed :
    (self : EpeeEntry) (field : FieldIterator) (item : ArrayIterator) (kind : Kind) (n : ℕ)
    (src : List ℕ) (e : Epee)
    → IsWellFormed e.decoder
    → IsNewSafe src
      × Safe (entry e)
      × Safe (fields self e)
      × Safe (iterate self e)
      × Safe (next_field field e)
      × Safe (next_item item e)
      × Safe (drop_entry self e)
      × Safe (drop_items n e)
      × Safe (to_primitive self kind n e)
      × AreReadsSafe self n e
view_IsWellFormed self field item kind n src e h = (
  new-Safe src,
  entry-Safe e h,
  fields-Safe self e h,
  iterate-Safe self e h,
  next_field-Safe field e h,
  next_item-Safe item e h,
  drop_entry-Safe self e h,
  drop_items-Safe n e h,
  to_primitive-Safe self kind n e h,
  reads-Safe self n e h,
)
