-- ===== src/Transaction/Prefix/Laws.antt =====
-- monero-oxide/src/transaction.rs: the reader of `TransactionPrefix` against its writer.
use monero_oxide.Common.{
  ℕ, ◌^◌, ◌<◌, ◌≤◌, ◌≡◌, refl, ap, ◌==◌, Bool, false, not, ◌&&◌, some, List, [], ◌∷◌, ◌++◌,
  append_assoc, length, All, All-map, arith, le→ltb, ltb→le, ok,
}
use monero_oxide.Common.Bytes.{IsBytes}
use monero_oxide.Io.Reader.{write_byte, read_byte}
use monero_oxide.Io.Parses.{
  Parses, IsCanonical, Parses-bind, Parses-map, Parses-fail_if, Accepts-bind, Accepts-pure,
  Accepts-fail_if,
}
use monero_oxide.Io.Primitives.{read_byte-Parses, read_byte-IsCanonical}
use monero_oxide.Io.VarInt
use monero_oxide.Io.Vec.{exceeds, write_raw_vec, write_vec}
use monero_oxide.Io.Vec.Laws.{read_vec-Parses, read_vec-IsCanonical}
use monero_oxide.Transaction.Input
use monero_oxide.Transaction.Output
use monero_oxide.Transaction.Timelock
use monero_oxide.Transaction.Prefix.{
  TransactionPrefix, inputs_upper_bound, non_miner_outputs_upper_bound, is_empty, is_miner_tx,
  bound_unless_miner, write, read,
}
use monero_oxide.Transaction.Input.{Input, non_miner_size_upper_bound}
use monero_oxide.Transaction.Output.{Output}

-- The outputs of a transaction carry no amount if it is a RingCT one, and not a miner's.
abbrev pub hides_amounts : ℕ → List Input → Bool
hides_amounts version inputs = not (is_miner_tx inputs) && version == 2

-- The prefixes that a reader returns for a version.
pub record IsValid (version : ℕ) (p : TransactionPrefix) : Type 0 where
  pub timelock : Timelock.Laws.IsValid p.additional_timelock
  pub has_inputs : is_empty p.inputs ≡ false
  pub few_inputs : length p.inputs ≤ inputs_upper_bound
  pub inputs : All Input.Laws.IsValid p.inputs
  pub short_outputs : length p.outputs < 2 ^ 64
  pub few_outputs :
      exceeds
        (length p.outputs)
        (bound_unless_miner (is_miner_tx p.inputs) non_miner_outputs_upper_bound)
      ≡ false
  pub outputs : All (Output.Laws.IsValid (hides_amounts version p.inputs)) p.outputs
  pub short_extra : length p.extra < 2 ^ 64
  pub few_extra :
      exceeds
        (length p.extra)
        (bound_unless_miner (is_miner_tx p.inputs) non_miner_size_upper_bound)
      ≡ false
  pub extra : IsBytes p.extra

-- The bytes of `extra` are written one after the other.
write_raw_vec-bytes : (bytes : List ℕ) → write_raw_vec write_byte bytes ≡ bytes
unfolding write_raw_vec
write_raw_vec-bytes [] = refl
write_raw_vec-bytes (b ∷ bytes) = ap (λ (t : List ℕ). b ∷ t) (write_raw_vec-bytes bytes)

extra_lem : (extra : List ℕ) → write_vec write_byte extra ≡ VarInt.write (length extra) ++ extra
unfolding write_vec
extra_lem extra = rw (write_raw_vec-bytes extra)

pub read-Parses :
    (version : ℕ) (p : TransactionPrefix) → IsValid version p → Parses (read version) (write p) p
unfolding read write
read-Parses version p v = rw (← extra_lem p.extra) (
    Parses-bind _ (Timelock.Laws.read-Parses p.additional_timelock v.timelock) (
      Parses-bind _
        (read_vec-Parses Input.read Input.write (some inputs_upper_bound) p.inputs
          (omega (arith, v.few_inputs)) (le→ltb _ _ v.few_inputs)
          (All-map Input.Laws.read-Parses p.inputs v.inputs))
        (Parses-fail_if _ v.has_inputs (
          Parses-bind _
            (read_vec-Parses _ Output.write _ p.outputs v.short_outputs v.few_outputs
              (All-map (Output.Laws.read-Parses _) p.outputs v.outputs))
            (Parses-map _ (
              read_vec-Parses read_byte write_byte _ p.extra v.short_extra v.few_extra
                (All-map (λ b _. read_byte-Parses b) p.extra v.extra)))))))

pub read-IsCanonical : (version : ℕ) → IsCanonical (IsValid version) (read version) write
unfolding read write
read-IsCanonical version = Accepts-bind _ Timelock.Laws.read-IsCanonical λ lock hl.
    Accepts-bind _ (read_vec-IsCanonical _ _ Input.Laws.read-IsCanonical _) λ inputs (_, few, hi).
      Accepts-fail_if (is_empty inputs) _ λ some_input.
        Accepts-bind _ (read_vec-IsCanonical _ _ (Output.Laws.read-IsCanonical _) _)
          λ outputs (so, fo, ho).
            Accepts-bind _ (read_vec-IsCanonical _ _ read_byte-IsCanonical _) λ extra (se, fe, he).
              Accepts-pure
                {a = record {
                  additional_timelock = lock;
                  inputs = inputs;
                  outputs = outputs;
                  extra = extra;
                }}
                (rw (extra_lem extra) (simp append_assoc))
                (record {
                  timelock = hl;
                  has_inputs = some_input;
                  few_inputs = ltb→le _ _ few;
                  inputs = hi;
                  short_outputs = so;
                  few_outputs = fo;
                  outputs = ho;
                  short_extra = se;
                  few_extra = fe;
                  extra = he;
                })

-- Reading the bytes that were written of a well-formed prefix, with any bytes behind them, returns
-- the prefix and leaves those bytes.
pub read-write_prefix :
    (version : ℕ) (p : TransactionPrefix)
    → IsValid version p
    → (rest : List ℕ) → read version (write p ++ rest) ≡ ok (p, rest)
read-write_prefix version p valid = (read-Parses version p valid).run

-- Where the reader accepts bytes, they begin with what is written of the prefix that it returns, the
-- rest is what it leaves, and the prefix is well-formed: it has an input, no more inputs than the
-- bound, no more outputs and extra than theirs unless it is a miner's, and amounts where they belong.
pub read_canonical_prefix :
    (version : ℕ) (src : List ℕ) (p : TransactionPrefix) (rest : List ℕ)
    → IsBytes src
    → read version src ≡ ok (p, rest)
    → (src ≡ write p ++ rest) × IsValid version p
read_canonical_prefix version = (read-IsCanonical version).run
