-- ===== src/Transaction/Output.antt =====
-- monero-oxide/src/transaction.rs: `Output`.
pub mod Laws
use monero_oxide.Common.{
  ℕ, ◌+◌, ◌==◌, ◌!=◌, Bool, true, false, Option, none, some, List, [], ◌∷◌, ◌++◌, if◌then◌else◌,
}
use monero_oxide.Io.Reader.{Reader, pure, fail, fail_if, ◌>>=◌, ◌>>◌, read_byte}
use monero_oxide.Io.VarInt
use monero_oxide.Ed25519.{CompressedPoint, read_point, write_point}
use monero_oxide.Transaction.Input.{unwrap_amount}

pub record Output : Type 0 where
  pub amount : Option ℕ
  pub key : CompressedPoint
  pub view_tag : Option ℕ

-- `Output::SIZE_LOWER_BOUND` and `Output::SIZE_UPPER_BOUND`
abbrev pub size_lower_bound : ℕ
size_lower_bound = VarInt.lower_bound + 1 + 32

abbrev pub size_upper_bound : ℕ
size_upper_bound = VarInt.upper_bound 64 + 1 + 32 + 1

-- `u8::from(self.view_tag.is_some())`
abbrev pub is_some : Option ℕ → ℕ
is_some none = 0
is_some (some view_tag) = 1

-- The byte of a view tag, where there is one.
abbrev pub write_view_tag : Option ℕ → List ℕ
write_view_tag none = []
write_view_tag (some view_tag) = view_tag ∷ []

unfoldable pub write : Output → List ℕ
write o =
    VarInt.write (unwrap_amount o.amount)
    ++ (((2 + is_some o.view_tag) ∷ []) ++ (write_point o.key ++ write_view_tag o.view_tag))

-- A RingCT output has an amount of zero, which is read as none.
unfoldable pub read_amount : Bool → Reader (Option ℕ)
read_amount rct = do
  amount ← VarInt.read_varint_u64
  if rct then (fail_if (amount != 0) "RCT TX output wasn't 0" >> pure none) else pure (some amount)

-- `match read_byte(r)? { 2 => false, 3 => true, _ => Err(…) }`
unfoldable pub read_has_view_tag : Reader Bool
read_has_view_tag = do
  kind ← read_byte
  if kind == 2
      then pure false
      else if kind == 3
      then pure true
      else fail "Tried to deserialize unknown/unused output type"

unfoldable pub read_view_tag : Bool → Reader (Option ℕ)
read_view_tag true = do view_tag ← read_byte; pure (some view_tag)
read_view_tag false = pure none

unfoldable pub read : Bool → Reader Output
unfolding read_amount read_has_view_tag read_view_tag
read rct = do
  amount ← read_amount rct
  has_view_tag ← read_has_view_tag
  key ← read_point
  view_tag ← read_view_tag has_view_tag
  pure (record { amount = amount; key = key; view_tag = view_tag })
