-- ===== src/Transaction/Timelock/Laws.antt =====
-- monero-oxide/src/transaction.rs: the reader of `Timelock` against its writer.
use monero_oxide.Common.{ℕ, ◌<◌, ◌≤◌, ◌≡◌, subst, sym, arith, Bool-cases, ◌==◌, ltb, inl, inr}
use monero_oxide.Io.Parses.{Parses, IsCanonical, Parses-map, Accepts-bind, Accepts-pure}
use monero_oxide.Io.VarInt
use monero_oxide.Transaction.Input.Laws.{IsU64, u64-Parses, IsU64-IsCanonical}
use monero_oxide.Transaction.Timelock.{
  Timelock, unlocked, block, time, timelock_block_threshold, write, of_raw, read,
}

-- The timelocks that the wire can carry.
abbrev pub IsValid : Timelock → Type 0
IsValid unlocked = Unit {0}
IsValid (block number) = (0 < number) × (number < timelock_block_threshold)
IsValid (time seconds) = (timelock_block_threshold ≤ seconds) × IsU64 seconds

of_raw-IsValid : (raw : ℕ) → IsU64 raw → IsValid (of_raw raw)
unfolding of_raw
of_raw-IsValid raw h = elim (Bool-cases (raw == 0)) [
  | inl zero_raw ↦ let kept : of_raw raw ≡ unlocked = rw zero_raw in subst IsValid (sym kept) tt
  | inr pos ↦ elim (Bool-cases (ltb raw timelock_block_threshold)) [
    | inl low ↦
        let kept : of_raw raw ≡ block raw = rw (pos, low) in
        subst IsValid (sym kept) (ground arith, ground arith)
    | inr high ↦
        let kept : of_raw raw ≡ time raw = rw (pos, high) in
        subst IsValid (sym kept) (ground arith, h)
  ]
]

write-of_raw : (raw : ℕ) → write (of_raw raw) ≡ VarInt.write raw
unfolding write of_raw
write-of_raw raw = ground arith

pub read-Parses : (lock : Timelock) → IsValid lock → Parses read (write lock) lock
unfolding read write
read-Parses unlocked h = Parses-map of_raw (u64-Parses 0 (omega arith))
read-Parses (block number) h =
    let kept : of_raw number ≡ block number = ground arith in
    subst (Parses read (VarInt.write number)) kept
      (Parses-map of_raw (u64-Parses number (omega arith)))
read-Parses (time seconds) h =
    let kept : of_raw seconds ≡ time seconds = ground arith in
    subst (Parses read (VarInt.write seconds)) kept
      (Parses-map of_raw (u64-Parses seconds (omega arith)))

pub read-IsCanonical : IsCanonical IsValid read write
unfolding read
read-IsCanonical =
    Accepts-bind _ IsU64-IsCanonical
      λ raw h. Accepts-pure {a = of_raw raw} (sym (write-of_raw raw)) (of_raw-IsValid raw h)
