-- ===== src/Transaction/Whole/Laws.antt =====
-- monero-oxide/src/transaction.rs: the reader of `Transaction`, whole or pruned, against its writer.
use monero_oxide.Common.{
  ℕ, ◌==◌, ==→eq, ◌≡◌, refl, subst, arith, Bool, true, false, List, [], ◌++◌, append_assoc, length,
  if◌then◌else◌, ok,
}
use monero_oxide.Common.Bytes.{IsBytes}
use monero_oxide.Io.Reader.{Reader, pure}
use monero_oxide.Io.Parses.{
  Parses, IsCanonical, Accepts, Parses-bind, Parses-map, Parses-pure, Accepts-bind, Accepts-pure,
  Accepts-if, Accepts-fail,
}
use monero_oxide.Io.Vec.{write_raw_vec}
use monero_oxide.Io.VarInt
use monero_oxide.RingSignatures
use monero_oxide.RingSignatures.{RingSignature}
use monero_oxide.Transaction.Input.{Input}
use monero_oxide.Transaction.Input.Laws.{u64-Parses, IsU64-IsCanonical}
use monero_oxide.Transaction.Prefix
use monero_oxide.Transaction.Prefix.{TransactionPrefix}
use monero_oxide.Transaction.Pruning.{PotentiallyPruned, write_proofs, not_pruned, pruned}
use monero_oxide.Transaction.Pruning.Laws.{IsPruning, not_pruned-IsPruning, pruned-IsPruning}
use monero_oxide.Transaction.Whole.{
  Transaction, v1, v2, is_miner_v1, ring_length, version, write, read_v1_signatures, read_body,
  read,
}

module _ (reduced : List ℕ → Bool) (P : PotentiallyPruned) (L : IsPruning reduced P) where
  -- A miner's transaction has no signature.
  abbrev pub HasSignatures : Bool → List Input → P.Signatures → Type 0
  HasSignatures true inputs signatures = signatures ≡ P.default_signatures
  HasSignatures false inputs signatures = L.IsSigned inputs signatures

  -- The transactions that a reader returns.
  abbrev pub IsWellFormed : Transaction P → Type 0
  IsWellFormed (v1 p signatures) =
      Prefix.Laws.IsValid 1 p × HasSignatures (is_miner_v1 p.inputs) p.inputs signatures
  IsWellFormed (v2 p proofs) =
      Prefix.Laws.IsValid 2 p
      × L.IsProven (ring_length p.inputs) (length p.inputs) (length p.outputs) proofs

  abbrev write_signatures : P.Signatures → List ℕ
  write_signatures signatures =
      write_raw_vec RingSignatures.write (P.signatures_to_write signatures)

  abbrev read_signatures_if : Bool → List Input → Reader P.Signatures
  read_signatures_if b inputs =
      if b then pure P.default_signatures else P.read_signatures reduced inputs

  default-write : write_signatures P.default_signatures ≡ []
  unfolding write_raw_vec
  default-write = rw L.default-write refl

  signatures-Parses :
      (b : Bool) (inputs : List Input) (signatures : P.Signatures)
      → HasSignatures b inputs signatures
      → Parses (read_signatures_if b inputs) (write_signatures signatures) signatures
  signatures-Parses true inputs signatures h =
      rw (h, default-write) (Parses-pure P.default_signatures)
  signatures-Parses false inputs signatures h = L.signatures-Parses inputs signatures h

  signatures-IsCanonical :
      (b : Bool) (inputs : List Input)
      → IsCanonical (HasSignatures b inputs) (read_signatures_if b inputs) write_signatures
  signatures-IsCanonical true inputs = Accepts-pure (rw default-write refl) refl
  signatures-IsCanonical false inputs = L.signatures-IsCanonical inputs

  -- What is written behind the version and the prefix.
  abbrev write_body : Transaction P → List ℕ
  write_body (v1 p signatures) = write_signatures signatures
  write_body (v2 p proofs) = write_proofs P proofs

  pub read-Parses : (tx : Transaction P) → IsWellFormed tx → Parses (read P reduced) (write P tx) tx
  unfolding read read_body read_v1_signatures write version
  read-Parses (v1 p signatures) (hp, hs) = Parses-bind _ (u64-Parses 1 (omega arith)) (
      Parses-bind _ (Prefix.Laws.read-Parses 1 p hp)
        (Parses-map _ (signatures-Parses (is_miner_v1 p.inputs) p.inputs signatures hs)))
  read-Parses (v2 p proofs) (hp, hs) = Parses-bind _ (u64-Parses 2 (omega arith)) (
      Parses-bind _ (Prefix.Laws.read-Parses 2 p hp) (
        Parses-map _
          (L.proofs-Parses (ring_length p.inputs) (length p.inputs) (length p.outputs) proofs hs)))

  read_body-Accepts :
      (v : ℕ) (p : TransactionPrefix)
      → Prefix.Laws.IsValid v p
      → Accepts (VarInt.write v ++ Prefix.write p) IsWellFormed (read_body P reduced v p) (write P)
  unfolding read_body read_v1_signatures write version
  read_body-Accepts v p hp =
      Accepts-if (v == 1)
        (λ is1.
          let one = ==→eq v 1 is1 in
          Accepts-bind _ (signatures-IsCanonical (is_miner_v1 p.inputs) p.inputs) λ signatures hs.
            Accepts-pure {a = v1 p signatures}
              (rw one
                (append_assoc (VarInt.write 1) (Prefix.write p) (write_signatures signatures)))
              (subst (λ n. Prefix.Laws.IsValid n p) one hp, hs))
        λ _.
          Accepts-if (v == 2)
            (λ is2.
              let two = ==→eq v 2 is2 in
              Accepts-bind _
                (L.proofs-IsCanonical (ring_length p.inputs) (length p.inputs) (length p.outputs))
                λ proofs hs.
                  Accepts-pure {a = v2 p proofs}
                    (rw two
                      (append_assoc (VarInt.write 2) (Prefix.write p) (write_proofs P proofs)))
                    (subst (λ n. Prefix.Laws.IsValid n p) two hp, hs))
            λ _. Accepts-fail

  pub read-IsCanonical : IsCanonical IsWellFormed (read P reduced) (write P)
  unfolding read
  read-IsCanonical =
      Accepts-bind _ IsU64-IsCanonical
        λ v _. Accepts-bind _ (Prefix.Laws.read-IsCanonical v) λ p hp. read_body-Accepts v p hp

-- The transactions that the reader of whole ones returns, and those that the reader of pruned ones
-- returns.
abbrev pub IsValid : (List ℕ → Bool) → Transaction not_pruned → Type 0
IsValid reduced = IsWellFormed reduced not_pruned (not_pruned-IsPruning reduced)

abbrev pub IsValidPruned : (List ℕ → Bool) → Transaction pruned → Type 0
IsValidPruned reduced = IsWellFormed reduced pruned (pruned-IsPruning reduced)

module _ (reduced : List ℕ → Bool) where
  -- Reading the bytes that were written of a well-formed transaction, with any bytes behind them,
  -- returns the transaction and leaves those bytes.
  pub read-write_whole :
      (tx : Transaction not_pruned)
      → IsValid reduced tx
      → (rest : List ℕ) → read not_pruned reduced (write not_pruned tx ++ rest) ≡ ok (tx, rest)
  read-write_whole tx valid =
      (read-Parses reduced not_pruned (not_pruned-IsPruning reduced) tx valid).run

  -- Where the reader accepts bytes, they begin with what is written of the transaction that it
  -- returns, the rest is what it leaves, and the transaction is well-formed.
  pub read_canonical_whole :
      (src : List ℕ) (tx : Transaction not_pruned) (rest : List ℕ)
      → IsBytes src
      → read not_pruned reduced src ≡ ok (tx, rest)
      → (src ≡ write not_pruned tx ++ rest) × IsValid reduced tx
  read_canonical_whole = (read-IsCanonical reduced not_pruned (not_pruned-IsPruning reduced)).run

  -- Reading the bytes that were written of a well-formed pruned transaction, with any bytes behind
  -- them, returns the transaction and leaves those bytes.
  pub read-write-pruned :
      (tx : Transaction pruned)
      → IsValidPruned reduced tx
      → (rest : List ℕ) → read pruned reduced (write pruned tx ++ rest) ≡ ok (tx, rest)
  read-write-pruned tx valid = (read-Parses reduced pruned (pruned-IsPruning reduced) tx valid).run

  -- Where the reader of pruned transactions accepts bytes, they begin with what is written of the
  -- transaction that it returns, the rest is what it leaves, and the transaction is well-formed.
  pub read_canonical_pruned :
      (src : List ℕ) (tx : Transaction pruned) (rest : List ℕ)
      → IsBytes src
      → read pruned reduced src ≡ ok (tx, rest)
      → (src ≡ write pruned tx ++ rest) × IsValidPruned reduced tx
  read_canonical_pruned = (read-IsCanonical reduced pruned (pruned-IsPruning reduced)).run
