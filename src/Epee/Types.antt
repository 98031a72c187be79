-- ===== src/Epee/Types.antt =====
-- monero-oxide/epee/src/parser.rs: the types of fields.
use monero_oxide.Common.{ℕ}

pub data Kind : Type 0 where
  int64 int32 int16 int8 uint64 uint32 uint16 uint8 double string bool object : Kind

-- An EPEE type, or the marker of an entry of a section.
pub data TypeOrEntry : Type 0 where
  of_type : Kind → TypeOrEntry
  entry : TypeOrEntry

-- `kind as u8`
abbrev pub as_u8 : Kind → ℕ
as_u8 int64 = 1
as_u8 int32 = 2
as_u8 int16 = 3
as_u8 int8 = 4
as_u8 uint64 = 5
as_u8 uint32 = 6
as_u8 uint16 = 7
as_u8 uint8 = 8
as_u8 double = 9
as_u8 string = 10
as_u8 bool = 11
as_u8 object = 12
