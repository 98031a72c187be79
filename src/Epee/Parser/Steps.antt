-- ===== src/Epee/Parser/Steps.antt =====
-- monero-oxide/epee/src/parser.rs: `single_step` against the list of items.
use monero_oxide.Common.{
  ℕ, ◌+◌, ◌≤◌, ◌<◌, ◌≡◌, refl, arith, Option, none, some, List, [], ◌∷◌, ◌++◌, Result, ok, err,
  length, if◌then◌else◌, bit_and, Bool-cases, inl, inr, ltb, ◌^◌, ◌==◌, ◌-◌,
}
use monero_oxide.Epee.Decoding.{
  EpeeError, Outcome, done, panicked, unfinished, Decoding, Reading, pure, fail, ◌>>=◌,
  unrecognized_type, empty_key, advance, read_bytes, read_byte, read_varint, read_str, to_usize,
}
use monero_oxide.Epee.Decoding.Advances.{
  Advances, went, failed, Advances-bind, Advances-pure, Advances-fail, Advances-le, Advances-if,
  read_bytes-Advances, read_byte-Advances, read_varint-Advances, read_str-Advances,
  advance-Advances,
}
use monero_oxide.Epee.Types.{
  Kind, TypeOrEntry, of_type, entry, int64, int32, int16, int8, uint64, uint32, uint16, uint8,
  double, string, bool, object,
}
use monero_oxide.Epee.Stack.{Stack, max_object_depth}
use monero_oxide.Epee.Stack.Laws.{
  Item, Represents, take_one, add_item, pop_lem, pop_empty, push_lem,
}
use monero_oxide.Epee.Parser.{
  Decoder, SingleStepResult, object_of, entry_of, unit, kind_of_byte, read_type, read_key,
  on_encoding, popped, pushed, size_of, step_scalar, step_string, step_object, step_entry,
  step_item, single_step, array_flag,
}

kind_of_byte-Advances : (kind : ℕ) (src : List ℕ) → Advances 0 src (kind_of_byte kind src)
unfolding kind_of_byte
kind_of_byte-Advances kind src =
    Advances-if 0 (kind == 1) (pure int64) _ src (Advances-pure int64 src) (
      Advances-if 0 (kind == 2) (pure int32) _ src (Advances-pure int32 src) (
        Advances-if 0 (kind == 3) (pure int16) _ src (Advances-pure int16 src) (
          Advances-if 0 (kind == 4) (pure int8) _ src (Advances-pure int8 src) (
            Advances-if 0 (kind == 5) (pure uint64) _ src (Advances-pure uint64 src) (
              Advances-if 0 (kind == 6) (pure uint32) _ src (Advances-pure uint32 src) (
                Advances-if 0 (kind == 7) (pure uint16) _ src (Advances-pure uint16 src) (
                  Advances-if 0 (kind == 8) (pure uint8) _ src (Advances-pure uint8 src) (
                    Advances-if 0 (kind == 9) (pure double) _ src (Advances-pure double src) (
                      Advances-if 0 (kind == 10) (pure string) _ src (Advances-pure string src) (
                        Advances-if 0 (kind == 11) (pure bool) _ src (Advances-pure bool src) (
                          Advances-if 0 (kind == 12) (pure object) _ src (Advances-pure object src)
                            (Advances-fail 0 unrecognized_type src))))))))))))

read_type-Advances : (src : List ℕ) → Advances 1 src (read_type src)
unfolding read_type
read_type-Advances src = Advances-bind 1 0 read_byte _ src (read_byte-Advances src) λ byte rest.
    Advances-bind 0 0 (kind_of_byte (bit_and byte (255 - array_flag))) _ rest
      (kind_of_byte-Advances (bit_and byte (255 - array_flag)) rest)
      λ kind left.
        Advances-bind 0 0 (if bit_and byte array_flag == 0 then pure 1 else read_varint) _ left
          (Advances-if 0 (bit_and byte array_flag == 0) (pure 1) read_varint left
            (Advances-pure 1 left)
            (Advances-le 1 0 left _ (omega arith) (read_varint-Advances left)))
          λ len last. Advances-pure (kind, len) last

read_key-Advances : (src : List ℕ) → Advances 1 src (read_key src)
unfolding read_key
read_key-Advances src = Advances-bind 1 0 read_byte _ src (read_byte-Advances src) λ len rest.
    Advances-if 0 (len == 0) (fail empty_key) _ rest (Advances-fail 0 empty_key rest) (
      Advances-le _ 0 rest _ (omega arith) (
        Advances-bind len 0 (read_bytes len) _ rest (read_bytes-Advances len rest)
          λ bytes left. Advances-pure (record { bytes = bytes }) left))

-- A part of a step that leaves the stack as it is and takes at least `n` bytes, or fails.
data Moves {ℓ} {A : Type ℓ} (items : List Item) (n size : ℕ) : Outcome Decoder A → Type ℓ where
  moved :
      (a : A) (d : Decoder)
      → Represents d.stack items
      → length d.encoding + n ≤ size
      → Moves items n size (done (ok a) d)
  stopped :
      (e : EpeeError) (d : Decoder)
      → Represents d.stack items
      → length d.encoding ≤ size
      → Moves items n size (done (err e) d)

-- What a step does: on the stack without what was popped there is at most one item more, and there
-- are fewer bytes than `size`.
pub data After (items : List Item) (size : ℕ)
    : Outcome Decoder (Option SingleStepResult) → Type 0 where
  stepped :
      (r : SingleStepResult) (d : Decoder) (pushed : List Item)
      → length pushed ≤ 1
      → Represents d.stack (pushed ++ items)
      → length d.encoding < size
      → After items size (done (ok (some r)) d)
  refused :
      (e : EpeeError) (d : Decoder)
      → Represents d.stack items
      → length d.encoding ≤ size
      → After items size (done (err e) d)

on_encoding-Moves {ℓ} :
    {A : Type ℓ} (p : Reading A) (n size : ℕ) (items : List Item) (d : Decoder)
    → Represents d.stack items
    → length d.encoding ≤ size
    → Advances n d.encoding (p d.encoding)
    → Moves items n size (on_encoding p d)
on_encoding-Moves {A} p n size items d holds few = go (p d.encoding)
  where
    go :
        (o : Outcome (List ℕ) A)
        → Advances n d.encoding o
        → Moves items n size (elim o [
          | done r rest ↦ done r (record d { encoding = rest })
          | panicked ↦ panicked
          | unfinished ↦ unfinished
        ])
    go _ (went a rest h) = moved a (record d { encoding = rest }) holds (omega arith)
    go _ (failed e rest h) = stopped e (record d { encoding = rest }) holds (omega arith)

After-bind {ℓ} :
    {A : Type ℓ} (p : Decoding Decoder A) (f : A → Decoding Decoder (Option SingleStepResult))
    (n size : ℕ) (items : List Item) (d : Decoder)
    → Moves items n size (p d)
    → ((a : A) (d' : Decoder)
        → Represents d'.stack items
        → length d'.encoding + n ≤ size
        → After items size (f a d'))
    → After items size ((p >>= f) d)
After-bind {A} p f n size items d first next = go (p d) first
  where
    go :
        (o : Outcome Decoder A)
        → Moves items n size o
        → After items size (elim o [
          | done (ok a) s' ↦ f a s'
          | done (err e) s' ↦ done (err e) s'
          | panicked ↦ panicked
          | unfinished ↦ unfinished
        ])
    go _ (moved a d' holds h) = next a d' holds h
    go _ (stopped e d' holds h) = refused e d' holds h

to_usize-Moves :
    (v n size : ℕ) (items : List Item) (d : Decoder)
    → Represents d.stack items
    → length d.encoding + n ≤ size
    → Moves items n size (to_usize v d)
unfolding to_usize
to_usize-Moves v n size items d holds few = elim (Bool-cases (ltb v (2 ^ 64))) [
  | inl fits ↦ rw fits (moved v d holds few)
  | inr wide ↦ rw wide (stopped _ d holds (omega arith))
]

-- The end of the step after the push.
abbrev finish :
    SingleStepResult → Result EpeeError (Unit {0}) → Decoding Decoder (Option SingleStepResult)
finish r (ok a) = pure (some r)
finish r (err e) = fail e

added :
    (kind : TypeOrEntry) (amount size : ℕ) (r : SingleStepResult) (items : List Item) (d : Decoder)
    (stack : Stack)
    → Represents stack (add_item kind amount items).1
    → length d.encoding < size
    → After items size (finish r (add_item kind amount items).0 (record d { stack = stack }))
added kind amount size r items d stack holds few =
    elim (Bool-cases (length items == max_object_depth)) [
      | inl full ↦ rw full (refused _ (record d { stack = stack }) (rw full at holds) (omega arith))
      | inr room ↦ elim (Bool-cases (amount == 0)) [
        | inl nothing ↦
            rw (room, nothing)
              (stepped r (record d { stack = stack }) [] (omega arith) (rw (room, nothing) at holds)
                few)
        | inr something ↦
            rw (room, something)
              (stepped r (record d { stack = stack }) ((kind, amount) ∷ []) (omega arith)
                (rw (room, something) at holds) few)
      ]
    ]

-- The last part of a step that pushes an item.
pushed-After :
    (kind : TypeOrEntry) (amount size : ℕ) (r : SingleStepResult) (items : List Item) (d : Decoder)
    → Represents d.stack items
    → length d.encoding < size
    → After items size ((pushed kind amount >>= λ _. pure (some r)) d)
unfolding pushed
pushed-After kind amount size r items d holds few =
    let (stack, done_push, holds') = push_lem kind amount d.stack items holds in
    rw (done_push, ◌>>=◌, pushed) (added kind amount size r items d stack holds' few)

step_scalar-After :
    (kind : Kind) (items : List Item) (d : Decoder)
    → 0 < size_of kind
    → Represents d.stack items
    → After items (length d.encoding) (step_scalar kind d)
unfolding step_scalar
step_scalar-After kind items d some_bytes holds =
    After-bind (on_encoding (advance (size_of kind))) _ (size_of kind) (length d.encoding) items d
      (on_encoding-Moves (advance (size_of kind)) (size_of kind) (length d.encoding) items d holds
        (omega arith) (advance-Advances (size_of kind) d.encoding))
      λ a d' holds' fewer. stepped unit d' [] (omega arith) holds' (omega arith)

step_string-After :
    (items : List Item) (d : Decoder)
    → Represents d.stack items
    → After items (length d.encoding) (step_string d)
unfolding step_string
step_string-After items d holds =
    After-bind (on_encoding read_str) _ 1 (length d.encoding) items d
      (on_encoding-Moves read_str 1 (length d.encoding) items d holds (omega arith)
        (read_str-Advances d.encoding))
      λ a d' holds' fewer. stepped unit d' [] (omega arith) holds' (omega arith)

step_object-After :
    (items : List Item) (d : Decoder)
    → Represents d.stack items
    → After items (length d.encoding) (step_object d)
unfolding step_object
step_object-After items d holds =
    After-bind (on_encoding read_varint) _ 1 (length d.encoding) items d
      (on_encoding-Moves read_varint 1 (length d.encoding) items d holds (omega arith)
        (read_varint-Advances d.encoding))
      λ fields d' holds' fewer.
        After-bind (to_usize fields) _ 1 (length d.encoding) items d'
          (to_usize-Moves fields 1 (length d.encoding) items d' holds' fewer)
          λ fields d'' holds'' fewer'.
            pushed-After entry fields (length d.encoding) (object_of fields) items d'' holds''
              (omega arith)

step_entry-After :
    (items : List Item) (d : Decoder)
    → Represents d.stack items
    → After items (length d.encoding) (step_entry d)
unfolding step_entry
step_entry-After items d holds =
    let size = length d.encoding in
    After-bind (on_encoding read_key) _ 1 size items d
      (on_encoding-Moves read_key 1 size items d holds (omega arith) (read_key-Advances d.encoding))
      λ key d₁ holds₁ fewer.
        After-bind (on_encoding read_type) _ 1 size items d₁
          (on_encoding-Moves read_type 1 size items d₁ holds₁ (omega arith)
            (read_type-Advances d₁.encoding))
          λ (kind, len) d₂ holds₂ fewer'.
            After-bind (to_usize len) _ 1 size items d₂
              (to_usize-Moves len 1 size items d₂ holds₂ fewer')
              λ len' d₃ holds₃ fewer₃.
                pushed-After (of_type kind) len' size (entry_of key kind len') items d₃ holds₃
                  (omega arith)

step_item-After :
    (kind : TypeOrEntry) (items : List Item) (d : Decoder)
    → Represents d.stack items
    → After items (length d.encoding) (step_item (some kind) d)
unfolding step_item
step_item-After entry items d h = step_entry-After items d h
step_item-After (of_type string) items d h = step_string-After items d h
step_item-After (of_type object) items d h = step_object-After items d h
step_item-After (of_type int64) items d h = step_scalar-After int64 items d (omega arith) h
step_item-After (of_type int32) items d h = step_scalar-After int32 items d (omega arith) h
step_item-After (of_type int16) items d h = step_scalar-After int16 items d (omega arith) h
step_item-After (of_type int8) items d h = step_scalar-After int8 items d (omega arith) h
step_item-After (of_type uint64) items d h = step_scalar-After uint64 items d (omega arith) h
step_item-After (of_type uint32) items d h = step_scalar-After uint32 items d (omega arith) h
step_item-After (of_type uint16) items d h = step_scalar-After uint16 items d (omega arith) h
step_item-After (of_type uint8) items d h = step_scalar-After uint8 items d (omega arith) h
step_item-After (of_type double) items d h = step_scalar-After double items d (omega arith) h
step_item-After (of_type bool) items d h = step_scalar-After bool items d (omega arith) h

pub single_step-After :
    (item : Item) (items : List Item) (d : Decoder)
    → Represents d.stack (item ∷ items)
    → After (take_one (item ∷ items)) (length d.encoding) (single_step d)
unfolding single_step popped
single_step-After (kind, amount) items d holds =
    let (stack, run, holds') = pop_lem d.stack ((kind, amount) ∷ items) holds in
    rw (run, ◌>>=◌)
      (step_item-After kind (take_one ((kind, amount) ∷ items)) (record d { stack = stack }) holds')

-- On an empty stack a step does nothing.
pub single_step_idle : (d : Decoder) → Represents d.stack [] → single_step d ≡ done (ok none) d
unfolding single_step popped step_item
single_step_idle d holds = rw (pop_empty d.stack holds, ◌>>=◌) refl
