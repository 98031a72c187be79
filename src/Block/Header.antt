-- ===== src/Block/Header.antt =====
-- monero-oxide/src/block.rs: `BlockHeader`.
pub mod Laws
use monero_oxide.Common.{ℕ, ◌+◌, List, ◌++◌}
use monero_oxide.Common.Bytes.{to_le_bytes}
use monero_oxide.Io.Reader.{Reader, pure, ◌>>=◌, read_bytes, read_u32}
use monero_oxide.Io.VarInt
use monero_oxide.Io.VarInt.{upper_bound}

pub record BlockHeader : Type 0 where
  pub hardfork_version : ℕ
  pub hardfork_signal : ℕ
  pub timestamp : ℕ
  pub previous : List ℕ
  pub nonce : ℕ

-- `BlockHeader::SIZE_UPPER_BOUND`
abbrev pub size_upper_bound : ℕ
size_upper_bound = upper_bound 8 + upper_bound 8 + upper_bound 64 + 32 + 4

unfoldable pub write : BlockHeader → List ℕ
write header =
    VarInt.write header.hardfork_version
    ++ (VarInt.write header.hardfork_signal
        ++ (VarInt.write header.timestamp ++ (header.previous ++ to_le_bytes 4 header.nonce)))

-- The nonce is read as `read_bytes(r).map(u32::from_le_bytes)`, which `read_u32` is.
unfoldable pub read : Reader BlockHeader
read = do
  hardfork_version ← VarInt.read_varint_u8
  hardfork_signal ← VarInt.read_varint_u8
  timestamp ← VarInt.read_varint_u64
  previous ← read_bytes 32
  nonce ← read_u32
  pure (record {
    hardfork_version = hardfork_version;
    hardfork_signal = hardfork_signal;
    timestamp = timestamp;
    previous = previous;
    nonce = nonce;
  })
