-- ===== src/Epee/Values/Runs.antt =====
-- monero-oxide/epee/src/lib.rs: the bytes and the item that reading a value of a fixed size takes,
-- and those that a step over it takes.
use monero_oxide.Common.{
  ℕ, ◌<◌, ◌≡◌, refl, sym, ◌∙◌, subst, arith, true, false, ◌==◌, ==_self, eq→==, Option, none, some,
  List, [], ◌∷◌, ◌++◌, ok, length, ltb, le→ltb, take-append, drop-append, length-append,
}
use monero_oxide.Epee.Decoding.{done, Decoding, pure, ◌>>=◌, read_bytes, read_into_slice, advance}
use monero_oxide.Epee.Types.{
  Kind, as_u8, TypeOrEntry, of_type, int64, int32, int16, int8, uint64, uint32, uint16, uint8,
  double, string, bool, object,
}
use monero_oxide.Epee.Stack.{Stack, pop}
use monero_oxide.Epee.Stack.Laws.{Item, Represents, take_one, peek_lem}
use monero_oxide.Epee.Parser.{
  Decoder, size_of, on_encoding, popped, step_scalar, single_step, step_item, step, step_loop,
  stop_depth, unit,
}
use monero_oxide.Epee.Parser.Runs.{stop_depth_lem}
use monero_oxide.Epee.View.{Epee, EpeeEntry, on_decoder, same_kind}
use monero_oxide.Epee.Values.{check_kind, to_primitive, into_array}

pub read_bytes_lem :
    (bytes rest : List ℕ) → read_bytes (length bytes) (bytes ++ rest) ≡ done (ok bytes) rest
unfolding read_bytes
read_bytes_lem bytes rest =
    let enough : ltb (length (bytes ++ rest)) (length bytes) ≡ false =
      le→ltb _ _ (omega (arith, length-append bytes rest)) in
    rw (enough, take-append bytes rest, drop-append bytes rest) refl

-- The view of a decoder without an error, and the entry of one item that it stands before.
abbrev pub view : Stack → List ℕ → Epee
view stack encoding = record {
  decoder = record { stack = stack; encoding = encoding };
  error = none;
}

abbrev pub single : Kind → EpeeEntry
single kind = record { root = true; kind = kind; len = 1 }

check_kind_same : (kind : Kind) (e : Epee) → check_kind (single kind) kind e ≡ done (ok tt) e
unfolding check_kind
check_kind_same kind e =
    let same : same_kind kind kind ≡ true = ==_self (as_u8 kind) in rw same refl

popped_lem :
    (stack next : Stack) (kind : Option TypeOrEntry) (encoding : List ℕ)
    → pop stack ≡ some (kind, next)
    → on_decoder popped (view stack encoding) ≡ done (ok kind) (view next encoding)
unfolding popped
popped_lem stack next kind encoding h = rw (h, popped, on_decoder) refl

-- Where the stack pops, so many bytes are read.
to_primitive_run :
    (kind : Kind) (bytes rest : List ℕ) (stack next : Stack) (popped_kind : Option TypeOrEntry)
    → pop stack ≡ some (popped_kind, next)
    → to_primitive (single kind) kind (length bytes) (view stack (bytes ++ rest))
      ≡ done (ok bytes) (view next rest)
unfolding to_primitive read_into_slice
to_primitive_run kind bytes rest stack next popped_kind h =
    rw
      (
        check_kind_same kind (view stack (bytes ++ rest)),
        to_primitive,
        ◌>>=◌,
        on_decoder,
        popped_lem stack next popped_kind (bytes ++ rest) h,
        read_bytes_lem bytes rest,
      )
      refl

-- What follows a success runs on the state that it left.
pub >>=_done {ℓ κ} :
    {S : Type 0} {A : Type ℓ} {B : Type κ} (p : Decoding S A) (f : A → Decoding S B) (s s' : S)
    (a : A)
    → p s ≡ done (ok a) s'
    → (p >>= f) s ≡ f a s'
>>=_done p f s s' a h = rw (h, ◌>>=◌) refl

-- A read of as many bytes as an array has.
abbrev pub into_array_of {ℓ} : {A : Type ℓ} → ℕ → (List ℕ → A) → Kind → Decoding Epee A
into_array_of n g kind = do
  buf ← to_primitive (single kind) kind n
  bytes ← into_array n buf
  pure (g bytes)

-- A value that is read from as many bytes as its array has.
pub fixed_run {ℓ} :
    {A : Type ℓ} (n : ℕ) (g : List ℕ → A) (kind : Kind) (bytes rest : List ℕ) (stack next : Stack)
    (popped_kind : Option TypeOrEntry)
    → length bytes ≡ n
    → pop stack ≡ some (popped_kind, next)
    → (do buf ← to_primitive (single kind) kind n; bytes ← into_array n buf; pure (g bytes))
        (view stack (bytes ++ rest))
      ≡ done (ok (g bytes)) (view next rest)
fixed_run n g kind bytes rest stack next popped_kind len h =
    let taken : to_primitive (single kind) kind n (view stack (bytes ++ rest))
        ≡ done (ok bytes) (view next rest) =
      subst
        (λ m.
          to_primitive (single kind) kind m (view stack (bytes ++ rest))
          ≡ done (ok bytes) (view next rest))
        len (to_primitive_run kind bytes rest stack next popped_kind h) in
    let same : (length bytes == n) ≡ true = eq→== (length bytes) n len in
    >>=_done (to_primitive (single kind) kind n) _ _ _ bytes taken ∙ rw (same, ◌>>=◌) refl

-- What is done with a slice of one byte.
pub byte_run {ℓ} :
    {A : Type ℓ} (f : List ℕ → Decoding Epee A) (kind : Kind) (b : ℕ) (rest : List ℕ)
    (stack next : Stack) (popped_kind : Option TypeOrEntry)
    → pop stack ≡ some (popped_kind, next)
    → (to_primitive (single kind) kind 1 >>= f) (view stack ((b ∷ []) ++ rest))
      ≡ f (b ∷ []) (view next rest)
byte_run f kind b rest stack next popped_kind h =
    >>=_done (to_primitive (single kind) kind 1) f _ _ (b ∷ [])
      (to_primitive_run kind (b ∷ []) rest stack next popped_kind h)

step_item_scalar :
    (kind : Kind) (d : Decoder)
    → 0 < size_of kind
    → step_item (some (of_type kind)) d ≡ step_scalar kind d
unfolding step_item
step_item_scalar int64 d h = refl
step_item_scalar int32 d h = refl
step_item_scalar int16 d h = refl
step_item_scalar int8 d h = refl
step_item_scalar uint64 d h = refl
step_item_scalar uint32 d h = refl
step_item_scalar uint16 d h = refl
step_item_scalar uint8 d h = refl
step_item_scalar double d h = refl
step_item_scalar bool d h = refl
step_item_scalar string d h = absurd (omega arith)
step_item_scalar object d h = absurd (omega arith)

-- One step over a value of a fixed size.
single_step_run :
    (kind : Kind) (bytes rest : List ℕ) (stack next : Stack)
    → 0 < size_of kind
    → length bytes ≡ size_of kind
    → pop stack ≡ some (some (of_type kind), next)
    → single_step (record { stack = stack; encoding = bytes ++ rest })
      ≡ done (ok (some unit)) (record { stack = next; encoding = rest })
unfolding single_step popped step_scalar advance
single_step_run kind bytes rest stack next fixed size h =
    let d : Decoder = record { stack = next; encoding = bytes ++ rest } in
    rw
      (
        h,
        ◌>>=◌,
        step_item_scalar kind d fixed,
        step_scalar,
        on_encoding,
        advance,
        ← size,
        read_bytes_lem bytes rest,
      )
      refl

pub step_run :
    (kind : Kind) (amount : ℕ) (items : List Item) (bytes rest : List ℕ) (stack next : Stack)
    → 0 < size_of kind
    → length bytes ≡ size_of kind
    → Represents stack ((of_type kind, amount) ∷ items)
    → pop stack ≡ some (some (of_type kind), next)
    → Represents next (take_one ((of_type kind, amount) ∷ items))
    → step (record { stack = stack; encoding = bytes ++ rest })
      ≡ done (ok (some tt)) (record { stack = next; encoding = rest })
unfolding step step_loop
step_run kind amount items bytes rest stack next fixed size holds h after =
    let (packed, count, depth, few, (k, a, some_left, slots)) = holds in
    let d : Decoder = record { stack = stack; encoding = bytes ++ rest } in
    let at : (next.depth == stop_depth stack.depth amount) ≡ true =
      eq→== next.depth _
        (after.2 ∙ sym (stop_depth_lem (of_type kind) amount stack.depth items some_left depth)) in
    rw
      (
        peek_lem stack ((of_type kind, amount) ∷ items) holds,
        step,
        step_loop,
        ◌>>=◌,
        single_step_run kind bytes rest stack next fixed size h,
        at,
      )
      refl
