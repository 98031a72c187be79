-- ===== src/Ringct/RctType.antt =====
-- monero-oxide/src/ringct.rs: `RctType` and `EncryptedAmount`.
pub mod Laws
use monero_oxide.Common.{ℕ, ◌==◌, Bool, true, false, Option, none, some, List, ◌++◌, if◌then◌else◌}
use monero_oxide.Io.Reader.{Reader, pure, ◌>>=◌, read_bytes}

pub data RctType : Type 0 where
  aggregate_mlsag_borromean mlsag_borromean mlsag_bulletproofs : RctType
  mlsag_bulletproofs_compact_amount clsag_bulletproof clsag_bulletproof_plus : RctType

-- `u8::from(rct_type)`
unfoldable pub to_u8 : RctType → ℕ
to_u8 aggregate_mlsag_borromean = 1
to_u8 mlsag_borromean = 2
to_u8 mlsag_bulletproofs = 3
to_u8 mlsag_bulletproofs_compact_amount = 4
to_u8 clsag_bulletproof = 5
to_u8 clsag_bulletproof_plus = 6

-- `RctType::try_from(byte)`
unfoldable pub of_u8 : ℕ → Option RctType
of_u8 byte =
    if byte == 1
    then some aggregate_mlsag_borromean
    else if byte == 2
    then some mlsag_borromean
    else if byte == 3
    then some mlsag_bulletproofs
    else if byte == 4
    then some mlsag_bulletproofs_compact_amount
    else if byte == 5
    then some clsag_bulletproof
    else if byte == 6
    then some clsag_bulletproof_plus
    else none

unfoldable pub compact_encrypted_amounts : RctType → Bool
compact_encrypted_amounts aggregate_mlsag_borromean = false
compact_encrypted_amounts mlsag_borromean = false
compact_encrypted_amounts mlsag_bulletproofs = false
compact_encrypted_amounts mlsag_bulletproofs_compact_amount = true
compact_encrypted_amounts clsag_bulletproof = true
compact_encrypted_amounts clsag_bulletproof_plus = true

unfoldable pub bulletproof : RctType → Bool
bulletproof mlsag_bulletproofs = true
bulletproof mlsag_bulletproofs_compact_amount = true
bulletproof clsag_bulletproof = true
bulletproof aggregate_mlsag_borromean = false
bulletproof mlsag_borromean = false
bulletproof clsag_bulletproof_plus = false

unfoldable pub bulletproof_plus : RctType → Bool
bulletproof_plus clsag_bulletproof_plus = true
bulletproof_plus aggregate_mlsag_borromean = false
bulletproof_plus mlsag_borromean = false
bulletproof_plus mlsag_bulletproofs = false
bulletproof_plus mlsag_bulletproofs_compact_amount = false
bulletproof_plus clsag_bulletproof = false

pub data EncryptedAmount : Type 0 where
  -- the mask and the amount
  original : List ℕ → List ℕ → EncryptedAmount
  compact : List ℕ → EncryptedAmount

unfoldable pub read_amount : Bool → Reader EncryptedAmount
read_amount false = do mask ← read_bytes 32; amount ← read_bytes 32; pure (original mask amount)
read_amount true = do amount ← read_bytes 8; pure (compact amount)

unfoldable pub write_amount : EncryptedAmount → List ℕ
write_amount (original mask amount) = mask ++ amount
write_amount (compact amount) = amount
