-- ===== src/Epee/Decoding/Advances.antt =====
-- monero-oxide/epee/src/io.rs: what the reads take from the slice, and that they do not panic.
use monero_oxide.Common.{
  ℕ, zero, suc, ◌+◌, ◌-◌, ◌*◌, ◌/◌, ◌^◌, ◌≤◌, arith, List, ok, err, length, drop, ltb,
  if◌then◌else◌, length-drop, bit_or, bit_and, Bool, true, false, Bool-cases, inl, inr, ltb→le,
}
use monero_oxide.Epee.Decoding.{
  EpeeError, Outcome, done, panicked, unfinished, Reading, pure, fail, ◌>>=◌, read_bytes,
  read_into_slice, read_byte, advance, or_bytes, varint_bytes, read_varint, read_str, to_usize,
  first_byte,
}

-- A read that returns at least `n` bytes fewer than there were, or fails.
pub data Advances {ℓ} {A : Type ℓ} (n : ℕ) (src : List ℕ) : Outcome (List ℕ) A → Type ℓ where
  went : (a : A) (rest : List ℕ) → length rest + n ≤ length src → Advances n src (done (ok a) rest)
  failed :
      (e : EpeeError) (rest : List ℕ)
      → length rest ≤ length src
      → Advances n src (done (err e) rest)

module _ {ℓ κ} {A : Type ℓ} {B : Type κ} where
  pub Advances-bind :
      (n m : ℕ) (p : Reading A) (f : A → Reading B) (src : List ℕ)
      → Advances n src (p src)
      → ((a : A) (rest : List ℕ) → Advances m rest (f a rest))
      → Advances (n + m) src ((p >>= f) src)
  Advances-bind n m p f src first next = go (p src) first
    where
      after :
          (o : Outcome (List ℕ) B) (rest : List ℕ)
          → length rest + n ≤ length src
          → Advances m rest o
          → Advances (n + m) src o
      after _ rest h (went b left k) = went b left (omega arith)
      after _ rest h (failed e left k) = failed e left (omega arith)

      go :
          (o : Outcome (List ℕ) A)
          → Advances n src o
          → Advances (n + m) src (elim o [
            | done (ok a) s' ↦ f a s'
            | done (err e) s' ↦ done (err e) s'
            | panicked ↦ panicked
            | unfinished ↦ unfinished
          ])
      go _ (went a rest h) = after (f a rest) rest h (next a rest)
      go _ (failed e rest h) = failed e rest h

pub Advances-pure {ℓ} : {A : Type ℓ} (a : A) (src : List ℕ) → Advances 0 src (pure a src)
Advances-pure a src = went a src (omega arith)

pub Advances-fail {ℓ} :
    {A : Type ℓ} (n : ℕ) (e : EpeeError) (src : List ℕ) → Advances {A = A} n src (fail e src)
Advances-fail n e src = failed e src (omega arith)

-- A weaker bound.
pub Advances-le {ℓ} :
    {A : Type ℓ} (n m : ℕ) (src : List ℕ) (o : Outcome (List ℕ) A)
    → m ≤ n
    → Advances n src o
    → Advances m src o
Advances-le n m src _ h (went a rest k) = went a rest (omega arith)
Advances-le n m src _ h (failed e rest k) = failed e rest k

pub Advances-if {ℓ} :
    {A : Type ℓ} (n : ℕ) (test : Bool) (p q : Reading A) (src : List ℕ)
    → Advances n src (p src)
    → Advances n src (q src)
    → Advances n src ((if test then p else q) src)
Advances-if n true p q src yes_case no_case = yes_case
Advances-if n false p q src yes_case no_case = no_case

pub read_bytes-Advances : (n : ℕ) (src : List ℕ) → Advances n src (read_bytes n src)
unfolding read_bytes
read_bytes-Advances n src = elim (Bool-cases (ltb (length src) n)) [
  | inl few ↦ rw few (failed _ src (omega arith))
  | inr enough ↦
      let h : n ≤ length src = ltb→le (length src) n enough in
      rw enough (went _ (drop n src) (omega (arith, length-drop n src)))
]

pub read_byte-Advances : (src : List ℕ) → Advances 1 src (read_byte src)
unfolding read_byte read_into_slice
read_byte-Advances src =
    Advances-bind 1 0 (read_bytes 1) _ src (read_bytes-Advances 1 src)
      λ a rest. Advances-pure (first_byte a) rest

pub advance-Advances : (n : ℕ) (src : List ℕ) → Advances n src (advance n src)
unfolding advance
advance-Advances n src = Advances-le (n + 0) n src _ (omega arith) (
    Advances-bind n 0 (read_bytes n) _ src (read_bytes-Advances n src)
      λ a rest. Advances-pure tt rest)

or_bytes-Advances : (left i vi : ℕ) (src : List ℕ) → Advances left src (or_bytes left i vi src)
unfolding or_bytes
or_bytes-Advances zero i vi src = Advances-pure vi src
or_bytes-Advances (suc left) i vi src = Advances-le (1 + left) (suc left) src _ (omega arith) (
    Advances-bind 1 left read_byte _ src (read_byte-Advances src)
      λ b rest. or_bytes-Advances left (suc i) (bit_or vi (b * 2 ^ (i * 8))) rest)

pub read_varint-Advances : (src : List ℕ) → Advances 1 src (read_varint src)
unfolding read_varint
read_varint-Advances src = Advances-bind 1 0 read_byte _ src (read_byte-Advances src) λ b rest.
    Advances-le _ 0 rest _ (omega arith) (
      Advances-bind (varint_bytes (bit_and b 0b11) - 1) 0
        (or_bytes (varint_bytes (bit_and b 0b11) - 1) 1 b) _ rest (or_bytes-Advances _ 1 b rest)
        λ vi left. Advances-pure (vi / 4) left)

pub to_usize-Advances : (v : ℕ) (src : List ℕ) → Advances 0 src (to_usize v src)
unfolding to_usize
to_usize-Advances v src = elim (Bool-cases (ltb v (2 ^ 64))) [
  | inl fits ↦ rw fits (Advances-pure v src)
  | inr wide ↦ rw wide (Advances-fail 0 _ src)
]

pub read_str-Advances : (src : List ℕ) → Advances 1 src (read_str src)
unfolding read_str
read_str-Advances src = Advances-bind 1 0 read_varint _ src (read_varint-Advances src) λ v rest.
    Advances-bind 0 0 (to_usize v) _ rest (to_usize-Advances v rest) λ n left.
      Advances-le _ 0 left _ (omega arith) (
        Advances-bind n 0 (read_bytes n) _ left (read_bytes-Advances n left)
          λ bytes last. Advances-pure (record { bytes = bytes }) last)
