-- ===== src/Transaction/Timelock.antt =====
-- monero-oxide/src/transaction.rs: `Timelock`.
pub mod Laws
pub mod Order
use Prim.Native.Nat.{compare, Ordering}
use monero_oxide.Common.{ℕ, ◌==◌, ltb, Option, none, some, List, if◌then◌else◌}
use monero_oxide.Io.Reader.{Reader, pure, ◌>>=◌}
use monero_oxide.Io.VarInt

pub data Timelock : Type 0 where
  unlocked : Timelock
  block : ℕ → Timelock
  time : ℕ → Timelock

abbrev pub timelock_block_threshold : ℕ
timelock_block_threshold = 500_000_000

unfoldable pub write : Timelock → List ℕ
write unlocked = VarInt.write 0
write (block number) = VarInt.write number
write (time seconds) = VarInt.write seconds

-- What the number on the wire stands for.
unfoldable pub of_raw : ℕ → Timelock
of_raw raw =
    if raw == 0 then unlocked else if ltb raw timelock_block_threshold then block raw else time raw

unfoldable pub read : Reader Timelock
unfolding of_raw
read = do raw ← VarInt.read_varint_u64; pure (of_raw raw)

-- `PartialOrd::partial_cmp`
unfoldable pub partial_cmp : Timelock → Timelock → Option Ordering
partial_cmp unlocked unlocked = some Ordering.eq
partial_cmp unlocked _ = some Ordering.lt
partial_cmp _ unlocked = some Ordering.gt
partial_cmp (block a) (block b) = some (compare a b)
partial_cmp (time a) (time b) = some (compare a b)
partial_cmp _ _ = none
