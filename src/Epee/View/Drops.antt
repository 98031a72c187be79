-- ===== src/Epee/View/Drops.antt =====
-- monero-oxide/epee/src/lib.rs: `Drop` of an entry or an iterator, which steps over what it leaves
-- unread.
use monero_oxide.Common.{ℕ, zero, suc, none, some, List, ok}
use monero_oxide.Epee.Decoding.{EpeeError, Outcome, done}
use monero_oxide.Epee.Stack.Laws.{Item, Represents, take_one}
use monero_oxide.Epee.Parser.{Decoder}
use monero_oxide.Epee.View.{Epee}
use monero_oxide.Epee.View.Safety.{IsWellFormed}

-- The list after `n` of its topmost items are taken, one after the other.
abbrev pub leave : ℕ → List Item → List Item
leave zero items = items
leave (suc n) items = leave n (take_one items)

-- The items are gone, or the error that stopped the decoder is kept.
pub data Dropped (target : List Item) : Outcome Epee (Unit {0}) → Type 0 where
  dropped :
      (d : Decoder)
      → Represents d.stack target
      → Dropped target (done (ok tt) (record { decoder = d; error = none }))
  stopped :
      (x : EpeeError) (d : Decoder)
      → IsWellFormed d
      → Dropped target (done (ok tt) (record { decoder = d; error = some x }))
