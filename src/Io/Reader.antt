-- ===== src/Io/Reader.antt =====
-- monero-oxide/io/src/lib.rs: reading from a byte slice, and the readers of fixed-size values.
-- `R: Read` is a `&[u8]`, a list of bytes which a reader returns shortened. `W: Write` is a
-- `Vec<u8>`, whose writes do not fail: a writer returns the bytes that it appends.
use monero_oxide.Common.{ℕ, Bool, true, false, String, List, [], ◌∷◌}
use monero_oxide.Common.{Result, ok, err, length, take, drop, ltb, if◌then◌else◌}
use monero_oxide.Common.Bytes.{from_le_bytes}

-- `io::ErrorKind::UnexpectedEof`, and `io::Error::other(message)`.
pub data IoError : Type 0 where
  unexpected_eof : IoError
  other : String → IoError

abbrev pub Reader {ℓ} : Type ℓ → Type ℓ
Reader A = List ℕ → Result IoError (A × List ℕ)

abbrev pub pure {ℓ} : {A : Type ℓ} → A → Reader A
pure a src = ok (a, src)

abbrev pub fail {ℓ} : {A : Type ℓ} → String → Reader A
fail message src = err (other message)

infixl 1 ◌>>=◌ ◌>>◌
abbrev pub ◌>>=◌ {ℓ κ} : {A : Type ℓ} {B : Type κ} → Reader A → (A → Reader B) → Reader B
◌>>=◌ p f src = elim (p src) [ ok (a, rest) ↦ f a rest | err e ↦ err e ]

abbrev pub ◌>>◌ {ℓ} : {B : Type ℓ} → Reader (Unit {0}) → Reader B → Reader B
p >> q = p >>= λ _. q

-- `if test { Err(io::Error::other(message))?; }`
abbrev pub fail_if : Bool → String → Reader (Unit {0})
fail_if true message src = err (other message)
fail_if false message src = ok (tt, src)

-- `r.read_exact(&mut [0; N])`
unfoldable pub read_bytes : ℕ → Reader (List ℕ)
read_bytes n src = if ltb (length src) n then err unexpected_eof else ok (take n src, drop n src)

unfoldable pub read_byte : Reader ℕ
read_byte [] = err unexpected_eof
read_byte (b ∷ src) = ok (b, src)

unfoldable pub read_u16 : Reader ℕ
read_u16 = do bytes ← read_bytes 2; pure (from_le_bytes bytes)

unfoldable pub read_u32 : Reader ℕ
read_u32 = do bytes ← read_bytes 4; pure (from_le_bytes bytes)

unfoldable pub read_u64 : Reader ℕ
read_u64 = do bytes ← read_bytes 8; pure (from_le_bytes bytes)

abbrev pub write_byte : ℕ → List ℕ
write_byte b = b ∷ []
