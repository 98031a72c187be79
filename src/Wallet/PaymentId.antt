-- ===== src/Wallet/PaymentId.antt =====
-- monero-oxide/wallet/src/extra.rs: payment IDs.
pub mod Laws
use monero_oxide.Common.{ℕ, List, [], ◌∷◌, ◌++◌, bit_xor, ◌==◌, if◌then◌else◌}
use monero_oxide.Common.Bytes.{from_le_bytes, to_le_bytes}
use monero_oxide.Io.Reader.{Reader, pure, fail, ◌>>=◌, read_byte, read_bytes}

abbrev pub payment_id_marker : ℕ
payment_id_marker = 0

abbrev pub encrypted_payment_id_marker : ℕ
encrypted_payment_id_marker = 1

-- An array of 32 bytes, and one of 8 bytes.
pub data PaymentId : Type 0 where
  unencrypted encrypted : List ℕ → PaymentId

unfoldable pub bitxor : PaymentId → List ℕ → PaymentId
bitxor (unencrypted id) bytes = unencrypted id
bitxor (encrypted id) bytes =
    encrypted (to_le_bytes 8 (bit_xor (from_le_bytes id) (from_le_bytes bytes)))

unfoldable pub write : PaymentId → List ℕ
write (unencrypted id) = (payment_id_marker ∷ []) ++ id
write (encrypted id) = (encrypted_payment_id_marker ∷ []) ++ id

abbrev pub serialize : PaymentId → List ℕ
serialize self = write self

unfoldable pub read : Reader PaymentId
unfolding read_byte read_bytes
read = do
  marker ← read_byte
  if marker == 0
      then (do id ← read_bytes 32; pure (unencrypted id))
      else if marker == 1
      then (do id ← read_bytes 8; pure (encrypted id))
      else fail "unknown payment ID type"
