-- ===== src/Epee/Stack/Packed.antt =====
-- monero-oxide/epee/src/stack.rs: `PackedTypes`, whose slots are halves of bytes.
use monero_oxide.Common.{
  ℕ, ◌+◌, ◌*◌, ◌/◌, ◌%◌, ◌<◌, ◌≡◌, ◌≢◌, ◌∙◌, ap, sym, ◌⊎◌, inl, inr, refl, ℕ_discrete, Bool, true,
  false, ◌==◌, if◌then◌else◌, Option, some, arith, bit_and, length, get_elem?, set, All, lt→ltb,
  length-set, get_elem?-set, get_elem?-set_other, get_elem?-All, All-set,
}
use monero_oxide.Common.Bits.{bit_and-1, bit_and-15_byte, bit_and-240_byte, bit_or_low}
use monero_oxide.Common.Shifts.{bit_or_above}
use monero_oxide.Epee.Types.{
  TypeOrEntry, of_type, entry, int64, int32, int16, int8, uint64, uint32, uint16, uint8, double,
  string, bool, object,
}
use monero_oxide.Epee.Stack.{PackedTypes, unpack, four_bits, slot, set_slot, get, set_type}

-- A byte of two types.
abbrev pub IsPair : ℕ → Type 0
IsPair b = (b % 16 < 13) × (b / 16 < 13)

abbrev pub IsPacked : PackedTypes → Type 0
IsPacked types = (length types.bytes ≡ 51) × All IsPair types.bytes

unpack-four_bits : (kind : TypeOrEntry) → unpack (four_bits kind) ≡ some kind
unpack-four_bits entry = refl
unpack-four_bits (of_type int64) = refl
unpack-four_bits (of_type int32) = refl
unpack-four_bits (of_type int16) = refl
unpack-four_bits (of_type int8) = refl
unpack-four_bits (of_type uint64) = refl
unpack-four_bits (of_type uint32) = refl
unpack-four_bits (of_type uint16) = refl
unpack-four_bits (of_type uint8) = refl
unpack-four_bits (of_type double) = refl
unpack-four_bits (of_type string) = refl
unpack-four_bits (of_type bool) = refl
unpack-four_bits (of_type object) = refl

four_bits-lt : (kind : TypeOrEntry) → four_bits kind < 13
four_bits-lt entry = omega arith
four_bits-lt (of_type int64) = omega arith
four_bits-lt (of_type int32) = omega arith
four_bits-lt (of_type int16) = omega arith
four_bits-lt (of_type int8) = omega arith
four_bits-lt (of_type uint64) = omega arith
four_bits-lt (of_type uint32) = omega arith
four_bits-lt (of_type uint16) = omega arith
four_bits-lt (of_type uint8) = omega arith
four_bits-lt (of_type double) = omega arith
four_bits-lt (of_type string) = omega arith
four_bits-lt (of_type bool) = omega arith
four_bits-lt (of_type object) = omega arith

is_some_if :
    (test : Bool) (kind : TypeOrEntry) (other : Option TypeOrEntry)
    → (test ≡ false → (k : TypeOrEntry) × (other ≡ some k))
    → (k : TypeOrEntry) × ((if test then some kind else other) ≡ some k)
is_some_if true kind other next = (kind, refl)
is_some_if false kind other next = next refl

-- A value below the number of types is not one of those that panic.
unpack-lt : (v : ℕ) → v < 13 → (kind : TypeOrEntry) × (unpack v ≡ some kind)
unpack-lt v h = is_some_if (v == 0) _ _ λ n0. is_some_if (v == 1) _ _ λ n1.
    is_some_if (v == 2) _ _ λ n2. is_some_if (v == 3) _ _ λ n3. is_some_if (v == 4) _ _ λ n4.
      is_some_if (v == 5) _ _ λ n5. is_some_if (v == 6) _ _ λ n6. is_some_if (v == 7) _ _ λ n7.
        is_some_if (v == 8) _ _ λ n8. is_some_if (v == 9) _ _ λ n9. is_some_if (v == 10) _ _ λ n10.
          is_some_if (v == 11) _ _ λ n11. is_some_if (v == 12) _ _ λ n12. absurd (ground arith)

slot_even : (byte i : ℕ) → byte < 256 → i % 2 ≡ 0 → slot byte i ≡ byte % 16
slot_even byte i h e =
    let parity : bit_and i 1 ≡ 0 = omega (arith, bit_and-1 i) in
    let whole : byte / 1 ≡ byte = omega arith in rw (parity, whole) (bit_and-15_byte byte h)

slot_odd : (byte i : ℕ) → byte < 256 → i % 2 ≡ 1 → slot byte i ≡ byte / 16
slot_odd byte i h e =
    let parity : bit_and i 1 ≡ 1 = omega (arith, bit_and-1 i) in
    rw parity (omega (arith, bit_and-15_byte (byte / 16) (omega arith)))

set_slot_even :
    (byte i : ℕ) (kind : TypeOrEntry)
    → byte < 256
    → i % 2 ≡ 0
    → set_slot byte i kind ≡ byte / 16 * 16 + four_bits kind
set_slot_even byte i kind h e =
    let parity : bit_and i 1 ≡ 0 = omega (arith, bit_and-1 i) in
    let whole : four_bits kind * 1 ≡ four_bits kind = omega arith in
    rw (parity, whole, bit_and-240_byte byte h)
      (bit_or_low byte (four_bits kind) h (omega (arith, four_bits-lt kind)))

set_slot_odd :
    (byte i : ℕ) (kind : TypeOrEntry)
    → byte < 256
    → i % 2 ≡ 1
    → set_slot byte i kind ≡ byte % 16 + four_bits kind * 16
set_slot_odd byte i kind h e =
    let parity : bit_and i 1 ≡ 1 = omega (arith, bit_and-1 i) in
    rw (parity, bit_and-15_byte byte h) (bit_or_above 4 (byte % 16) (four_bits kind) (omega arith))

-- Two slots of one byte.
parity : (i : ℕ) → (i % 2 ≡ 0) ⊎ (i % 2 ≡ 1)
parity i = omega arith

slot-set_slot :
    (byte i : ℕ) (kind : TypeOrEntry) → byte < 256 → slot (set_slot byte i kind) i ≡ four_bits kind
slot-set_slot byte i kind h = elim (parity i) [
  | inl e ↦
      let few = four_bits-lt kind in
      let new = set_slot_even byte i kind h e in
      rw new (omega (arith, slot_even (byte / 16 * 16 + four_bits kind) i (omega arith) e))
  | inr e ↦
      let few = four_bits-lt kind in
      let new = set_slot_odd byte i kind h e in
      rw new (omega (arith, slot_odd (byte % 16 + four_bits kind * 16) i (omega arith) e))
]

slot-set_slot_other :
    (byte i j : ℕ) (kind : TypeOrEntry)
    → byte < 256
    → i / 2 ≡ j / 2
    → i ≢ j
    → slot (set_slot byte i kind) j ≡ slot byte j
slot-set_slot_other byte i j kind h same other = elim (parity i) [
  | inl e ↦
      let few = four_bits-lt kind in
      let new = set_slot_even byte i kind h e in
      let odd : j % 2 ≡ 1 = omega arith in
      rw new (
        omega (
          arith,
          slot_odd (byte / 16 * 16 + four_bits kind) j (omega arith) odd,
          slot_odd byte j h odd,
        ))
  | inr e ↦
      let few = four_bits-lt kind in
      let new = set_slot_odd byte i kind h e in
      let even : j % 2 ≡ 0 = omega arith in
      rw new (
        omega (
          arith,
          slot_even (byte % 16 + four_bits kind * 16) j (omega arith) even,
          slot_even byte j h even,
        ))
]

set_slot-IsPair : (byte i : ℕ) (kind : TypeOrEntry) → IsPair byte → IsPair (set_slot byte i kind)
set_slot-IsPair byte i kind (low, high) = elim (parity i) [
  | inl e ↦
      let few = four_bits-lt kind in
      rw (set_slot_even byte i kind (omega arith) e) (omega arith, omega arith)
  | inr e ↦
      let few = four_bits-lt kind in
      rw (set_slot_odd byte i kind (omega arith) e) (omega arith, omega arith)
]

-- `get` and `set_type` within the array.
module _ (types : PackedTypes) (packed : IsPacked types) (i : ℕ) (inside : i < 102) where
  get_lem :
      (byte : ℕ) × (get_elem? types.bytes (i / 2) ≡ some byte)
      × IsPair byte
      × (kind : TypeOrEntry) × (get types i ≡ some kind)
  unfolding get
  get_lem =
      let (byte, at, (low, high)) =
        get_elem?-All IsPair types.bytes (i / 2) (omega (arith, packed.0)) packed.1 in
      let few : slot byte i < 13 = elim (parity i) [
        | inl e ↦ omega (arith, slot_even byte i (omega arith) e)
        | inr e ↦ omega (arith, slot_odd byte i (omega arith) e)
      ] in
      let (kind, value) = unpack-lt (slot byte i) few in (byte, at, (low, high), kind, rw at value)

  pub set_type_lem :
      (kind : TypeOrEntry)
      → (new : PackedTypes) × (set_type types i kind ≡ some new)
        × IsPacked new
        × (get new i ≡ some kind)
        × ((j : ℕ) → i ≢ j → get new j ≡ get types j)
  unfolding get set_type
  set_type_lem kind =
      let (byte, at, pair, _, _) = get_lem in
      let small : i / 2 < length types.bytes = omega (arith, packed.0) in
      let bytes = set types.bytes (i / 2) (set_slot byte i kind) in
      let size : length bytes ≡ 51 =
        length-set types.bytes (i / 2) (set_slot byte i kind) ∙ packed.0 in
      let same : get_elem? bytes (i / 2) ≡ some (set_slot byte i kind) =
        get_elem?-set types.bytes (i / 2) (set_slot byte i kind) small in
      let all =
        All-set IsPair types.bytes (i / 2) (set_slot byte i kind) packed.1
          (set_slot-IsPair byte i kind pair) in
      (
        record { bytes = bytes },
        rw (at, lt→ltb (i / 2) (length types.bytes) small) refl,
        (size, all),
        rw (same, slot-set_slot byte i kind (omega arith)) (unpack-four_bits kind),
        λ j other. elim (ℕ_discrete (i / 2) (j / 2)) [
          | yes one ↦
              let here : get_elem? types.bytes (j / 2) ≡ some byte = rw (← one) at in
              let there : get_elem? bytes (j / 2) ≡ some (set_slot byte i kind) =
                ap (get_elem? bytes) (sym one) ∙ same in
              rw (there, here)
                (ap unpack (slot-set_slot_other byte i j kind (omega arith) one other))
          | no two ↦ rw (get_elem?-set_other types.bytes (i / 2) (j / 2) (set_slot byte i kind) two)
        ],
      )
