-- ===== src/Transaction/Input/Laws.antt =====
-- monero-oxide/src/transaction.rs: the reader of `Input` against its writer.
use monero_oxide.Common.{
  ℕ, zero, suc, subst, ◌^◌, ◌<◌, ◌≤◌, ◌≡◌, refl, sym, ◌==◌, ==→eq, Option, none, some, List, [],
  ◌∷◌, append_assoc, length, All, arith, le→ltb, ltb→le,
}
use monero_oxide.Io.Parses.{
  Parses, IsCanonical, Parses-bind, Parses-map, Accepts-bind, Accepts-if, Accepts-pure,
  Accepts-fail,
}
use monero_oxide.Io.Primitives.{read_byte-Parses, read_byte-IsCanonical}
use monero_oxide.Io.VarInt
use monero_oxide.Io.VarInt.RoundTrip.{read-Parses as varint-Parses}
use monero_oxide.Io.VarInt.Canonical.{read-IsCanonical as varint-IsCanonical}
use monero_oxide.Io.Vec.Laws.{read_vec-Parses, read_vec-IsCanonical}
use monero_oxide.Ed25519.Laws.{IsPoint, read_point-Parses, read_point-IsCanonical}
use monero_oxide.Transaction.Input.{
  Input, gen, to_key, write, read, collapse_amount, unwrap_amount, non_miner_size_upper_bound,
}

abbrev pub IsU64 : ℕ → Type 0
IsU64 v = v < 2 ^ 64

-- An amount that the wire can carry: zero is written for none.
abbrev pub IsAmount : Option ℕ → Type 0
IsAmount none = Unit {0}
IsAmount (some amount) = (0 < amount) × (amount < 2 ^ 64)

-- The inputs that a reader returns.
abbrev pub IsValid : Input → Type 0
IsValid (gen height) = IsU64 height
IsValid (to_key amount key_offsets key_image) =
    IsAmount amount
    × (length key_offsets ≤ non_miner_size_upper_bound)
    × All IsU64 key_offsets
    × IsPoint key_image

pub u64-Parses : (v : ℕ) → IsU64 v → Parses VarInt.read_varint_u64 (VarInt.write v) v
u64-Parses v h = varint-Parses 64 v (omega arith) h

pub u64s-Parses :
    (vs : List ℕ) → All IsU64 vs → All (λ v. Parses VarInt.read_varint_u64 (VarInt.write v) v) vs
u64s-Parses [] h = tt
u64s-Parses (v ∷ vs) (hv, h) = (u64-Parses v hv, u64s-Parses vs h)

pub IsU64-IsCanonical : IsCanonical IsU64 VarInt.read_varint_u64 VarInt.write
IsU64-IsCanonical = varint-IsCanonical 64 (omega arith)

collapse-unwrap :
    (amount : Option ℕ) → IsAmount amount → collapse_amount (unwrap_amount amount) ≡ amount
collapse-unwrap none h = refl
collapse-unwrap (some amount) h = ground arith

unwrap-IsU64 : (amount : Option ℕ) → IsAmount amount → IsU64 (unwrap_amount amount)
unwrap-IsU64 none h = omega arith
unwrap-IsU64 (some amount) h = omega arith

unwrap-collapse : (amount : ℕ) → unwrap_amount (collapse_amount amount) ≡ amount
unwrap-collapse amount = ground arith

collapse-IsAmount : (amount : ℕ) → IsU64 amount → IsAmount (collapse_amount amount)
collapse-IsAmount zero h = tt
collapse-IsAmount (suc amount) h =
    let kept : collapse_amount (suc amount) ≡ some (suc amount) = ground arith in
    subst IsAmount (sym kept) (omega arith, h)

pub read-Parses : (input : Input) → IsValid input → Parses read (write input) input
unfolding read write
read-Parses (gen height) h =
    Parses-bind _ (read_byte-Parses 255) (Parses-map gen (u64-Parses height h))
read-Parses (to_key amount key_offsets key_image) (ha, few, offsets, point) =
    subst
      (λ a.
        Parses read (write (to_key amount key_offsets key_image)) (to_key a key_offsets key_image))
      (collapse-unwrap amount ha)
      (Parses-bind _ (read_byte-Parses 2) (
        Parses-bind _ (u64-Parses (unwrap_amount amount) (unwrap-IsU64 amount ha)) (
          Parses-bind _
            (read_vec-Parses _ _ (some non_miner_size_upper_bound) key_offsets (omega arith)
              (le→ltb _ _ few) (u64s-Parses key_offsets offsets))
            (Parses-map (to_key (collapse_amount (unwrap_amount amount)) key_offsets)
              (read_point-Parses key_image point)))))

pub read-IsCanonical : IsCanonical IsValid read write
unfolding read write
read-IsCanonical = Accepts-bind _ read_byte-IsCanonical λ kind _.
    Accepts-if (kind == 255)
      (λ is255.
        Accepts-bind _ IsU64-IsCanonical
          λ height h. Accepts-pure {a = gen height} (rw (==→eq kind 255 is255)) h)
      λ _.
        Accepts-if (kind == 2)
          (λ is2. Accepts-bind _ IsU64-IsCanonical λ amount ha.
            Accepts-bind _ (read_vec-IsCanonical _ _ IsU64-IsCanonical _) λ offsets (_, few, ho).
              Accepts-bind _ read_point-IsCanonical λ point hp.
                Accepts-pure {a = to_key (collapse_amount amount) offsets point}
                  (rw (==→eq kind 2 is2, unwrap-collapse amount) (simp append_assoc))
                  (collapse-IsAmount amount ha, ltb→le _ _ few, ho, hp))
          λ _. Accepts-fail
