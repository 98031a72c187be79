-- ===== src/Epee/Stack/Laws.antt =====
-- monero-oxide/epee/src/stack.rs: the stack's operations against a list of items, each a type and
-- how many of it remain.
use monero_oxide.Common.{
  ℕ, zero, suc, ◌+◌, ◌-◌, ◌<◌, ◌≤◌, ◌≡◌, ◌≢◌, refl, Option, none, some, List, [], ◌∷◌, arith,
  Result, ok, err, length, get_elem?, set, ◌==◌, if◌then◌else◌, lt→ltb, true, false, Bool-cases,
  inl, inr, ◌∙◌, length-set, get_elem?-set, get_elem?-set_other, replicate, All,
}
use monero_oxide.Epee.Decoding.{EpeeError, depth_limit_exceeded}
use monero_oxide.Epee.Types.{TypeOrEntry, of_type, object}
use monero_oxide.Epee.Stack.{
  PackedTypes, Stack, get, set_type, root_object, peek, pop, push, max_object_depth,
}
use monero_oxide.Epee.Stack.Packed.{IsPair, IsPacked, set_type_lem}

abbrev pub Item : Type 0
Item = TypeOrEntry × ℕ

-- The slots below the top hold the items, the top one first.
abbrev pub Slots : PackedTypes → List ℕ → List Item → Type 0
Slots types amounts [] = Unit {0}
Slots types amounts ((kind, amount) ∷ items) =
    (get types (length items) ≡ some kind)
    × (get_elem? amounts (length items) ≡ some amount)
    × (0 < amount)
    × Slots types amounts items

abbrev pub Represents : Stack → List Item → Type 0
Represents stack items =
    IsPacked stack.types
    × (length stack.amounts ≡ max_object_depth)
    × (stack.depth ≡ length items)
    × (length items ≤ max_object_depth)
    × Slots stack.types stack.amounts items

-- The operations of the list.
abbrev pub top : List Item → Option Item
top [] = none
top (item ∷ items) = some item

abbrev pub top_kind : List Item → Option TypeOrEntry
top_kind [] = none
top_kind ((kind, amount) ∷ items) = some kind

abbrev pub take_one : List Item → List Item
take_one [] = []
take_one ((kind, amount) ∷ items) = if amount == 1 then items else (kind, amount - 1) ∷ items

abbrev pub add_item : TypeOrEntry → ℕ → List Item → Result EpeeError (Unit {0}) × List Item
add_item kind amount items =
    if length items == max_object_depth
    then (err depth_limit_exceeded, items)
    else if amount == 0
    then (ok tt, items)
    else (ok tt, (kind, amount) ∷ items)

-- Slots at or above the depth do not matter.
Slots-keep :
    (types new : PackedTypes) (amounts more : List ℕ) (items : List Item) (i : ℕ)
    → length items ≤ i
    → ((j : ℕ) → i ≢ j → get new j ≡ get types j)
    → ((j : ℕ) → i ≢ j → get_elem? more j ≡ get_elem? amounts j)
    → Slots types amounts items
    → Slots new more items
Slots-keep types new amounts more [] i h ht ha s = tt
Slots-keep types new amounts more ((kind, amount) ∷ items) i h ht ha (k, a, pos, s) = (
  rw (ht (length items) (omega arith)) k,
  rw (ha (length items) (omega arith)) a,
  pos,
  Slots-keep types new amounts more items i (omega arith) ht ha s,
)

depth_suc : (depth n : ℕ) → depth ≡ suc n → ((depth == 0) ≡ false) × (depth - 1 ≡ n)
depth_suc depth n h = (ground arith, omega arith)

pub peek_lem :
    (stack : Stack) (items : List Item) → Represents stack items → peek stack ≡ some (top items)
unfolding peek
peek_lem stack [] (packed, size, depth, few, slots) = rw depth refl
peek_lem stack ((kind, amount) ∷ items) (packed, size, depth, few, (k, a, pos, slots)) =
    let (busy, under) = depth_suc stack.depth (length items) depth in rw (busy, under, k, a) refl

pub pop_lem :
    (stack : Stack) (items : List Item)
    → Represents stack items
    → (new : Stack) × (pop stack ≡ some (top_kind items, new)) × Represents new (take_one items)
unfolding pop
pop_lem stack [] (packed, size, depth, few, slots) =
    (stack, rw depth refl, (packed, size, depth, few, slots))
pop_lem stack ((kind, amount) ∷ items) (packed, size, depth, few, (k, a, pos, slots)) =
    elim (Bool-cases (amount == 1)) [
      | inl one ↦
          let last : (amount - 1 == 0) ≡ true = ground arith in
          (
            record stack { depth = stack.depth - 1 },
            rw (busy, under, k, a, last) refl,
            rw one (packed, size, under, omega arith, slots),
          )
      | inr many ↦
          let more : (amount - 1 == 0) ≡ false = ground arith in
          let inside : length items < length stack.amounts = omega arith in
          let rest =
            Slots-keep stack.types stack.types stack.amounts
              (set stack.amounts (length items) (amount - 1)) items (length items) (omega arith)
              (λ j h. refl)
              (λ j h. get_elem?-set_other stack.amounts (length items) j (amount - 1) h) slots in
          (
            record stack { amounts = set stack.amounts (length items) (amount - 1) },
            rw (busy, under, k, a, more, lt→ltb _ _ inside) refl,
            rw many (
              packed,
              length-set stack.amounts (length items) (amount - 1) ∙ size,
              depth,
              few,
              (
                k,
                get_elem?-set stack.amounts (length items) (amount - 1) inside,
                ground arith,
                rest,
              ),
            ),
          )
    ]
  where
    busy : (stack.depth == 0) ≡ false
    busy = (depth_suc stack.depth (length items) depth).0

    under : stack.depth - 1 ≡ length items
    under = (depth_suc stack.depth (length items) depth).1

pub pop_empty : (stack : Stack) → Represents stack [] → pop stack ≡ some (none, stack)
unfolding pop
pop_empty stack (packed, size, depth, few, slots) = rw depth refl

-- Where the depth is not at its bound.
push_below :
    (kind : TypeOrEntry) (amount : ℕ) (stack : Stack) (items : List Item)
    → Represents stack items
    → (length items == max_object_depth) ≡ false
    → (new : Stack) × (push kind amount stack ≡ some ((add_item kind amount items).0, new))
      × Represents new (add_item kind amount items).1
unfolding push
push_below kind amount stack items (packed, size, depth, few, slots) room =
    elim (Bool-cases (amount == 0)) [
      | inl nothing ↦ (
        stack,
        rw (depth, room, nothing) refl,
        rw (room, nothing) (packed, size, depth, few, slots),
      )
      | inr something ↦
          let (types, written, packed', here, others) =
            set_type_lem stack.types packed (length items) inside kind in
          let amounts = set stack.amounts (length items) amount in
          let rest =
            Slots-keep stack.types types stack.amounts amounts items (length items) (omega arith)
              others (λ j h. get_elem?-set_other stack.amounts (length items) j amount h) slots in
          (
            record { types = types; amounts = amounts; depth = length items + 1 },
            rw (depth, room, something, written, lt→ltb _ _ small) refl,
            rw (room, something)
                (
                  packed',
                  length-set stack.amounts (length items) amount ∙ size,
                  omega arith,
                  omega (arith, inside),
                  (
                    here,
                    get_elem?-set stack.amounts (length items) amount small,
                    ground arith,
                    rest,
                  ),
                ),
          )
    ]
  where
    inside : length items < max_object_depth
    inside = ground arith

    small : length items < length stack.amounts
    small = omega (arith, inside)

pub push_lem :
    (kind : TypeOrEntry) (amount : ℕ) (stack : Stack) (items : List Item)
    → Represents stack items
    → (new : Stack) × (push kind amount stack ≡ some ((add_item kind amount items).0, new))
      × Represents new (add_item kind amount items).1
unfolding push
push_lem kind amount stack items (packed, size, depth, few, slots) =
    elim (Bool-cases (length items == max_object_depth)) [
      | inl full ↦ (stack, rw (depth, full) refl, rw full (packed, size, depth, few, slots))
      | inr room ↦ push_below kind amount stack items (packed, size, depth, few, slots) room
    ]

zeros-IsPair : (n : ℕ) → All IsPair (replicate n 0)
zeros-IsPair zero = tt
zeros-IsPair (suc n) = ((omega arith, omega arith), zeros-IsPair n)

pub root_object_lem :
    (stack : Stack) × (root_object ≡ some stack) × Represents stack ((of_type object, 1) ∷ [])
unfolding root_object set_type get
root_object_lem = (
  _,
  refl,
  (
    (refl, ((omega arith, omega arith), zeros-IsPair 50)),
    refl,
    refl,
    omega arith,
    (refl, refl, omega arith, tt),
  ),
)

-- On a stack that stands for a list of items, `peek` returns the first item, `pop` takes one of it and
-- returns its type, and `push` puts an item before it, where its amount is not zero and the list is
-- shorter than `MAX_OBJECT_DEPTH`; none of them panics.
pub stack_lem :
    (kind : TypeOrEntry) (amount : ℕ) (stack : Stack) (items : List Item)
    → Represents stack items
    → (peek stack ≡ some (top items))
      × ((new : Stack) × (pop stack ≡ some (top_kind items, new)) × Represents new (take_one items))
      × ((new : Stack) × (push kind amount stack ≡ some ((add_item kind amount items).0, new))
          × Represents new (add_item kind amount items).1)
stack_lem kind amount stack items holds =
    (peek_lem stack items holds, pop_lem stack items holds, push_lem kind amount stack items holds)
