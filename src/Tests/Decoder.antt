-- ===== src/Tests/Decoder.antt =====
-- monero-oxide/epee: the decoder at concrete inputs.
use monero_oxide.Common.{err, ◌⊎◌, ℕ, ◌/◌, ◌≡◌, refl, arith, some, none, List, [], ◌∷◌, ◌++◌, ok}
use monero_oxide.Common.Bytes.{from_le_bytes, to_le_bytes}
use monero_oxide.Epee.Decoding.{EpeeError, done, read_varint}
use monero_oxide.Epee.Decoding.Varint.{read_varint_lem}
use monero_oxide.Epee.Types.{of_type, entry, int64, uint16, object}
use monero_oxide.Epee.Stack.{Stack, peek, pop, push}
use monero_oxide.Epee.Stack.Laws.{
  Item, Represents, top, top_kind, take_one, add_item, push_lem, root_object_lem, stack_lem,
}
use monero_oxide.Epee.Parser.{Decoder}
use monero_oxide.Epee.View as V
use monero_oxide.Epee.View.Header.{Refuses, new_lem}
use monero_oxide.Epee.View.Safety.{Safe}
use monero_oxide.Epee.Values.{negsuc, to_primitive, to_i64}
use monero_oxide.Epee.Values.Safety.{AreReadsSafe, IsNewSafe, view_IsWellFormed}
use monero_oxide.Epee.Values.Runs.{view, single}
use monero_oxide.Epee.Values.Laws.{
  twos_complement, read_value, value_of, read_value-drop_entry, to_i64_lem,
}

-- The stack at the start, and with numbers above the root object.
abbrev root_stack : Stack
root_stack = root_object_lem.0

abbrev root_items : List Item
root_items = (of_type object, 1) ∷ []

root_stack-Represents : Represents root_stack root_items
root_stack-Represents = root_object_lem.2

abbrev short_stack : Stack
short_stack = (push_lem (of_type uint16) 3 root_stack root_items root_stack-Represents).0

short_stack-Represents : Represents short_stack ((of_type uint16, 3) ∷ root_items)
short_stack-Represents = (push_lem (of_type uint16) 3 root_stack root_items root_stack-Represents).2

abbrev long_stack : Stack
long_stack = (push_lem (of_type int64) 2 root_stack root_items root_stack-Represents).0

long_stack-Represents : Represents long_stack ((of_type int64, 2) ∷ root_items)
long_stack-Represents = (push_lem (of_type int64) 2 root_stack root_items root_stack-Represents).2

-- An object of one field `a`, a `u8`.
abbrev small_object : List ℕ
small_object = 4 ∷ 1 ∷ 97 ∷ 8 ∷ 7 ∷ []

abbrev small_decoder : Decoder
small_decoder = record { stack = root_stack; encoding = small_object }

stack_lem_example :
    (peek root_stack ≡ some (top root_items))
    × ((new : Stack) × (pop root_stack ≡ some (top_kind root_items, new))
        × Represents new (take_one root_items))
    × ((new : Stack) × (push entry 3 root_stack ≡ some ((add_item entry 3 root_items).0, new))
        × Represents new (add_item entry 3 root_items).1)
stack_lem_example = stack_lem entry 3 root_stack root_items root_stack-Represents

read_varint_lem_example :
    read_varint (1 ∷ ((2 ∷ []) ++ (9 ∷ []))) ≡ done (ok (from_le_bytes (1 ∷ 2 ∷ []) / 4)) (9 ∷ [])
read_varint_lem_example = read_varint_lem 1 (2 ∷ []) (9 ∷ []) (omega arith, (omega arith, tt)) refl

read_value-drop_entry_example :
    (next : Stack) × (read_value uint16
        (single uint16)
        (view short_stack ((1 ∷ 2 ∷ []) ++ (9 ∷ [])))
      ≡ done (ok (value_of uint16 (1 ∷ 2 ∷ []))) (view next (9 ∷ [])))
    × (V.drop_entry (single uint16) (view short_stack ((1 ∷ 2 ∷ []) ++ (9 ∷ [])))
        ≡ done (ok tt) (view next (9 ∷ [])))
    × Represents next (take_one ((of_type uint16, 3) ∷ root_items))
read_value-drop_entry_example =
    read_value-drop_entry uint16 3 root_items (1 ∷ 2 ∷ []) (9 ∷ []) short_stack (omega arith) refl
      short_stack-Represents

to_i64_lem_example :
    (next : Stack) × (to_i64
        (single int64)
        (view long_stack (to_le_bytes 8 (twos_complement 64 (negsuc 1)) ++ (9 ∷ [])))
      ≡ done (ok (negsuc 1)) (view next (9 ∷ [])))
    × Represents next (take_one ((of_type int64, 2) ∷ root_items))
to_i64_lem_example =
    to_i64_lem (negsuc 1) 2 root_items (9 ∷ []) long_stack (omega arith) long_stack-Represents

abbrev small_view : V.Epee
small_view = record { decoder = small_decoder; error = none }

abbrev small_encoding : List ℕ
small_encoding = V.header ++ (V.version ∷ small_object)

view_IsWellFormed_example :
    IsNewSafe small_encoding
    × Safe (V.entry small_view)
    × Safe (V.fields (single object) small_view)
    × Safe (V.iterate (single object) small_view)
    × Safe (V.next_field (record { len = 1 }) small_view)
    × Safe (V.next_item (record { kind = object; len = 1 }) small_view)
    × Safe (V.drop_entry (single object) small_view)
    × Safe (V.drop_items 2 small_view)
    × Safe (to_primitive (single object) uint16 2 small_view)
    × AreReadsSafe (single object) 2 small_view
view_IsWellFormed_example =
    view_IsWellFormed (single object) (record { len = 1 }) (record { kind = object; len = 1 })
      uint16 2 small_encoding small_view (root_items, root_stack-Represents)

new_lem_example :
    ((rest : List ℕ) × (e : V.Epee) × (small_encoding ≡ V.header ++ (V.version ∷ rest))
      × (V.new small_encoding ≡ done (ok e) rest)
      × (e.error ≡ none)
      × (e.decoder.encoding ≡ rest)
      × Represents e.decoder.stack ((of_type object, 1) ∷ []))
    ⊎ ((error : EpeeError) × (rest : List ℕ) × (V.new small_encoding ≡ done (err error) rest)
        × Refuses error small_encoding)
new_lem_example = new_lem small_encoding
