-- ===== src/Block/Header/Laws.antt =====
-- monero-oxide/src/block.rs: the reader of `BlockHeader` against its writer.
use monero_oxide.Common.{◌^◌, ◌<◌, arith, append_assoc}
use monero_oxide.Io.Parses.{
  Parses, IsCanonical, Parses-bind, Parses-map, Accepts-bind, Accepts-pure,
}
use monero_oxide.Io.Primitives.{
  IsArray, read_bytes-Parses, read_bytes-IsCanonical, le_bytes-Parses, le_bytes-IsCanonical,
}
use monero_oxide.Io.Reader.{read_u32}
use monero_oxide.Io.VarInt.RoundTrip.{read-Parses as varint-Parses}
use monero_oxide.Io.VarInt.Canonical.{read-IsCanonical as varint-IsCanonical}
use monero_oxide.Block.Header.{BlockHeader, write, read}

-- The headers that a reader returns: the fields fit their types.
pub record IsValid (header : BlockHeader) : Type 0 where
  pub hardfork_version : header.hardfork_version < 2 ^ 8
  pub hardfork_signal : header.hardfork_signal < 2 ^ 8
  pub timestamp : header.timestamp < 2 ^ 64
  pub previous : IsArray 32 header.previous
  pub nonce : header.nonce < 256 ^ 4

pub read-Parses : (header : BlockHeader) → IsValid header → Parses read (write header) header
unfolding read write read_u32
read-Parses header v =
    Parses-bind _ (varint-Parses 8 header.hardfork_version (omega arith) v.hardfork_version) (
      Parses-bind _ (varint-Parses 8 header.hardfork_signal (omega arith) v.hardfork_signal) (
        Parses-bind _ (varint-Parses 64 header.timestamp (omega arith) v.timestamp) (
          Parses-bind _ (read_bytes-Parses 32 header.previous v.previous.0)
            (Parses-map _ (le_bytes-Parses 4 header.nonce v.nonce)))))

pub read-IsCanonical : IsCanonical IsValid read write
unfolding read write read_u32
read-IsCanonical = Accepts-bind _ (varint-IsCanonical 8 (omega arith)) λ version hv.
    Accepts-bind _ (varint-IsCanonical 8 (omega arith)) λ signal hs.
      Accepts-bind _ (varint-IsCanonical 64 (omega arith)) λ timestamp ht.
        Accepts-bind _ (read_bytes-IsCanonical 32) λ previous hp.
          Accepts-bind _ (le_bytes-IsCanonical 4) λ nonce hn.
            Accepts-pure
              {a = record {
                hardfork_version = version;
                hardfork_signal = signal;
                timestamp = timestamp;
                previous = previous;
                nonce = nonce;
              }}
              (simp append_assoc)
              (record {
                hardfork_version = hv;
                hardfork_signal = hs;
                timestamp = ht;
                previous = hp;
                nonce = hn;
              })
