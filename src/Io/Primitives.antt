-- ===== src/Io/Primitives.antt =====
-- monero-oxide/io/src/lib.rs: the readers of a byte, of fixed-size arrays and of fixed-size
-- integers against what is written of these.
use monero_oxide.Common.{
  ℕ, ◌^◌, ◌<◌, ◌≤◌, ◌≡◌, refl, sym, List, [], ◌∷◌, ◌++◌, arith, ok, length, take, drop, take-append,
  drop-append, take-append-drop, length-append, length-take, le→ltb, All-left, subst,
}
use monero_oxide.Common.Bytes.{
  IsByte, IsBytes, to_le_bytes, from_le_bytes, length-to_le_bytes, from_le_bytes-to_le_bytes,
  to_le_bytes-from_le_bytes, from_le_bytes-lt,
}
use monero_oxide.Io.Reader.{pure, ◌>>=◌, read_bytes, read_byte, write_byte}
use monero_oxide.Io.Parses.{Parses, IsCanonical, Accepts-bind, Accepts-pure, Parses-map}

-- An array of `n` bytes.
abbrev pub IsArray : ℕ → List ℕ → Type 0
IsArray n bytes = (length bytes ≡ n) × IsBytes bytes

-- The bytes of an array are written as they are.
abbrev pub write_all : List ℕ → List ℕ
write_all bytes = bytes

pub read_byte-Parses : (b : ℕ) → Parses read_byte (b ∷ []) b
unfolding read_byte
read_byte-Parses b = record { run = λ rest. refl }

pub read_byte-IsCanonical : IsCanonical IsByte read_byte write_byte
read_byte-IsCanonical = record { run = go }
  where
    go :
        (src : List ℕ) (b : ℕ) (rest : List ℕ)
        → IsBytes src
        → read_byte src ≡ ok (b, rest)
        → (src ≡ write_byte b ++ rest) × IsByte b
    go [] b rest bytes h = unfold read_byte in cc
    go (x ∷ src) b rest (byte, bytes) h =
        let e : x ≡ b = unfold read_byte in cc in
        let left : src ≡ rest = unfold read_byte in cc in rw (← e, ← left) (refl, byte)

pub read_bytes-Parses :
    (n : ℕ) (bytes : List ℕ) → length bytes ≡ n → Parses (read_bytes n) bytes bytes
unfolding read_bytes
read_bytes-Parses n bytes len = record {
  run = λ rest. rw (
    ← len,
    le→ltb (length (bytes ++ rest)) (length bytes) (omega (arith, length-append bytes rest)),
    take-append bytes rest,
    drop-append bytes rest,
  );
}

read_bytes-eq-ok :
    (n : ℕ) (src b rest : List ℕ)
    → read_bytes n src ≡ ok (b, rest)
    → (take n src ≡ b) × (drop n src ≡ rest) × (n ≤ length src)
unfolding read_bytes
read_bytes-eq-ok n src b rest h = ground arith

pub read_bytes-IsCanonical : (n : ℕ) → IsCanonical (IsArray n) (read_bytes n) write_all
read_bytes-IsCanonical n = record {
  run = λ src b rest bytes h.
      let (front, back, enough) = read_bytes-eq-ok n src b rest h in
      let split : src ≡ b ++ rest = rw (← front, ← back, take-append-drop n src) in
      let len : length b ≡ n = rw (← front) (omega (arith, length-take n src)) in
      (split, (len, All-left IsByte b rest (subst IsBytes split bytes)));
}

-- A little-endian integer of `n` bytes.
pub le_bytes-Parses :
    (n v : ℕ)
    → v < 256 ^ n
    → Parses (read_bytes n >>= λ bytes. pure (from_le_bytes bytes)) (to_le_bytes n v) v
le_bytes-Parses n v h =
    subst (Parses (read_bytes n >>= λ bytes. pure (from_le_bytes bytes)) (to_le_bytes n v))
      (from_le_bytes-to_le_bytes n v h)
      (Parses-map from_le_bytes (read_bytes-Parses n (to_le_bytes n v) (length-to_le_bytes n v)))

pub le_bytes-IsCanonical :
    (n : ℕ)
    → IsCanonical
        (λ v. v < 256 ^ n)
        (read_bytes n >>= λ bytes. pure (from_le_bytes bytes))
        (to_le_bytes n)
le_bytes-IsCanonical n = Accepts-bind _ (read_bytes-IsCanonical n) λ bytes (len, good).
    Accepts-pure (rw (← len) (sym (to_le_bytes-from_le_bytes bytes good)))
      (rw (← len) (from_le_bytes-lt bytes good))
