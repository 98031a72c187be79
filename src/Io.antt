-- ===== src/Io.antt =====
-- monero-oxide/io: the byte-level primitives that every format of the library is built from.
pub mod Reader
pub mod Parses
pub mod VarInt
pub mod Vec
pub mod Primitives
