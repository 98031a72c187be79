-- ===== src/Transaction/Timelock/Order.antt =====
-- monero-oxide/src/transaction.rs: the order of `Timelock`.
use Prim.Native.Nat.{compare, Ordering}
use monero_oxide.Common.{ℕ, ◌<◌, ◌≡◌, refl, arith, Bool, true, false, none, some, if◌then◌else◌}
use monero_oxide.Io.VarInt
use monero_oxide.Transaction.Timelock.{Timelock, unlocked, block, time, write, partial_cmp}
use monero_oxide.Transaction.Timelock.Laws.{IsValid}

-- The number that stands for a timelock on the wire.
abbrev pub raw : Timelock → ℕ
raw unlocked = 0
raw (block number) = number
raw (time seconds) = seconds

-- A block's number and a time are not compared.
abbrev pub comparable : Timelock → Timelock → Bool
comparable (block a) (time b) = false
comparable (time a) (block b) = false
comparable _ _ = true

compare-zero_pos : (n : ℕ) → 0 < n → compare 0 n ≡ Ordering.lt
compare-zero_pos n h = ground arith

compare-pos_zero : (n : ℕ) → 0 < n → compare n 0 ≡ Ordering.gt
compare-pos_zero n h = ground arith

-- Of two timelocks that a reader returns, a block's number and a time are not ordered, and any
-- others are ordered as the numbers are that are written of them.
pub partial_cmp_lem :
    (a b : Timelock)
    → IsValid a
    → IsValid b
    → (write a ≡ VarInt.write (raw a))
      × (partial_cmp a b ≡ (if comparable a b then some (compare (raw a) (raw b)) else none))
unfolding partial_cmp write
partial_cmp_lem unlocked unlocked ha hb = (refl, refl)
partial_cmp_lem unlocked (block b) ha hb = (refl, rw (compare-zero_pos b (omega (arith, hb))) refl)
partial_cmp_lem unlocked (time b) ha hb = (refl, rw (compare-zero_pos b (omega (arith, hb))) refl)
partial_cmp_lem (block a) unlocked ha hb = (refl, rw (compare-pos_zero a (omega (arith, ha))) refl)
partial_cmp_lem (time a) unlocked ha hb = (refl, rw (compare-pos_zero a (omega (arith, ha))) refl)
partial_cmp_lem (block a) (block b) ha hb = (refl, refl)
partial_cmp_lem (time a) (time b) ha hb = (refl, refl)
partial_cmp_lem (block a) (time b) ha hb = (refl, refl)
partial_cmp_lem (time a) (block b) ha hb = (refl, refl)
