-- ===== src/Transaction/Pruning/Laws.antt =====
-- monero-oxide/src/transaction.rs: the readers of whole and of pruned signatures and proofs against
-- their writers, and the interface that a transaction uses them by.
use monero_oxide.Common.{ℕ, ◌≡◌, refl, Bool, Option, none, some, List, [], ◌∷◌, length}
use monero_oxide.Io.Reader.{pure}
use monero_oxide.Io.Parses.{
  Parses, IsCanonical, Parses-bind, Parses-map, Parses-pure, Accepts-bind, Accepts-pure,
  Accepts-fail,
}
use monero_oxide.Io.Vec.{write_raw_vec}
use monero_oxide.RingSignatures.{RingSignature}
use monero_oxide.RingSignatures
use monero_oxide.Ringct.RctType.{RctType}
use monero_oxide.Ringct.Base.{RctBase}
use monero_oxide.Ringct.Base
use monero_oxide.Ringct.Proofs.{RctProofs, PrunedRctProofs}
use monero_oxide.Ringct.Proofs
use monero_oxide.Transaction.Input.{Input, gen, to_key}
use monero_oxide.Ed25519.{CompressedPoint}
use monero_oxide.Transaction.Pruning.{
  PotentiallyPruned, write_proofs, not_pruned, pruned, pruned_proofs, read_ring_signatures,
  read_pruned_proofs,
}

-- Signatures and proofs whose readers return what was written, and nothing else.
pub record IsPruning (reduced : List ℕ → Bool) (P : PotentiallyPruned) : Type 1 where
  pub IsSigned : List Input → P.Signatures → Type 0
  pub IsProven : ℕ → ℕ → ℕ → Option P.Proofs → Type 0
  pub default-write : P.signatures_to_write P.default_signatures ≡ []
  pub signatures-Parses :
      (inputs : List Input) (signatures : P.Signatures)
      → IsSigned inputs signatures
      → Parses
          (P.read_signatures reduced inputs)
          (write_raw_vec RingSignatures.write (P.signatures_to_write signatures))
          signatures
  pub signatures-IsCanonical :
      (inputs : List Input)
      → IsCanonical
          (IsSigned inputs)
          (P.read_signatures reduced inputs)
          (λ signatures. write_raw_vec RingSignatures.write (P.signatures_to_write signatures))
  pub proofs-Parses :
      (ring_length inputs outputs : ℕ) (proofs : Option P.Proofs)
      → IsProven ring_length inputs outputs proofs
      → Parses
          (P.potentially_pruned_read reduced ring_length inputs outputs)
          (write_proofs P proofs)
          proofs
  pub proofs-IsCanonical :
      (ring_length inputs outputs : ℕ)
      → IsCanonical
          (IsProven ring_length inputs outputs)
          (P.potentially_pruned_read reduced ring_length inputs outputs)
          (write_proofs P)

module _ (reduced : List ℕ → Bool) where
  -- A ring signature for each input, with a response for each member of its ring.
  pub data IsSigned : List Input → List RingSignature → Type 0 where
    no_input : IsSigned [] []
    signed :
        (amount : Option ℕ) (key_offsets : List ℕ) (key_image : CompressedPoint)
        (inputs : List Input) (signature : RingSignature) (signatures : List RingSignature)
        → RingSignatures.Laws.IsValid reduced (length key_offsets) signature
        → IsSigned inputs signatures
        → IsSigned (to_key amount key_offsets key_image ∷ inputs) (signature ∷ signatures)

  pub ring_signatures-Parses :
      (inputs : List Input) (signatures : List RingSignature)
      → IsSigned inputs signatures
      → Parses
          (read_ring_signatures reduced inputs)
          (write_raw_vec RingSignatures.write signatures)
          signatures
  unfolding read_ring_signatures write_raw_vec
  ring_signatures-Parses _ _ no_input = Parses-pure []
  ring_signatures-Parses _ _
        (signed amount key_offsets key_image inputs signature signatures good goods) =
      Parses-bind _ (RingSignatures.Laws.read-Parses reduced (length key_offsets) signature good)
        (Parses-map _ (ring_signatures-Parses inputs signatures goods))

  pub ring_signatures-IsCanonical :
      (inputs : List Input)
      → IsCanonical
          (IsSigned inputs)
          (read_ring_signatures reduced inputs)
          (write_raw_vec RingSignatures.write)
  unfolding read_ring_signatures write_raw_vec
  ring_signatures-IsCanonical [] = Accepts-pure refl no_input
  ring_signatures-IsCanonical (to_key amount key_offsets key_image ∷ inputs) =
      Accepts-bind _ (RingSignatures.Laws.read-IsCanonical reduced (length key_offsets))
        λ signature good. Accepts-bind _ (ring_signatures-IsCanonical inputs) λ signatures goods.
          Accepts-pure refl
            (signed amount key_offsets key_image inputs signature signatures good goods)
  ring_signatures-IsCanonical (gen height ∷ inputs) = Accepts-fail

  abbrev pub IsProvenPruned : ℕ → ℕ → Option PrunedRctProofs → Type 0
  IsProvenPruned inputs outputs none = Unit {0}
  IsProvenPruned inputs outputs (some proofs) =
      Base.Laws.IsValid proofs.rct_type inputs outputs proofs.base

  pruned_proofs-write :
      (o : Option (RctType × RctBase))
      → Base.Laws.write_optional o ≡ write_proofs pruned (pruned_proofs o)
  pruned_proofs-write none = refl
  pruned_proofs-write (some (rct_type, base)) = refl

  pruned_proofs-IsProven :
      (inputs outputs : ℕ) (o : Option (RctType × RctBase))
      → Base.Laws.IsValidOptional inputs outputs o
      → IsProvenPruned inputs outputs (pruned_proofs o)
  pruned_proofs-IsProven inputs outputs none h = tt
  pruned_proofs-IsProven inputs outputs (some (rct_type, base)) h = h

  pub pruned_proofs-Parses :
      (inputs outputs : ℕ) (proofs : Option PrunedRctProofs)
      → IsProvenPruned inputs outputs proofs
      → Parses (read_pruned_proofs inputs outputs) (write_proofs pruned proofs) proofs
  unfolding read_pruned_proofs
  pruned_proofs-Parses inputs outputs none h =
      Parses-map pruned_proofs (Base.Laws.read-Parses inputs outputs none tt)
  pruned_proofs-Parses inputs outputs (some proofs) h =
      Parses-map pruned_proofs
        (Base.Laws.read-Parses inputs outputs (some (proofs.rct_type, proofs.base)) h)

  pub pruned_proofs-IsCanonical :
      (inputs outputs : ℕ)
      → IsCanonical
          (IsProvenPruned inputs outputs)
          (read_pruned_proofs inputs outputs)
          (write_proofs pruned)
  unfolding read_pruned_proofs
  pruned_proofs-IsCanonical inputs outputs =
      Accepts-bind _ (Base.Laws.read-IsCanonical inputs outputs) λ o h.
        Accepts-pure {a = pruned_proofs o} (pruned_proofs-write o)
          (pruned_proofs-IsProven inputs outputs o h)

  abbrev pub not_pruned-IsPruning : IsPruning reduced not_pruned
  not_pruned-IsPruning = record {
    IsSigned = IsSigned;
    IsProven = λ ring_length inputs outputs.
        Proofs.Laws.IsValidOptional reduced ring_length inputs outputs;
    default-write = refl;
    signatures-Parses = ring_signatures-Parses;
    signatures-IsCanonical = ring_signatures-IsCanonical;
    proofs-Parses = Proofs.Laws.read-Parses reduced;
    proofs-IsCanonical = Proofs.Laws.read-IsCanonical reduced;
  }

  pub no_signatures-Parses :
      Parses {A = Unit {0}} (pure tt) (write_raw_vec RingSignatures.write []) tt
  unfolding write_raw_vec
  no_signatures-Parses = Parses-pure tt

  pub no_signatures-IsCanonical :
      IsCanonical {A = Unit {0}}
        (λ _. Unit {0})
        (pure tt)
        (λ _. write_raw_vec RingSignatures.write [])
  unfolding write_raw_vec
  no_signatures-IsCanonical = Accepts-pure refl tt

  abbrev pub pruned-IsPruning : IsPruning reduced pruned
  pruned-IsPruning = record {
    IsSigned = λ _ _. Unit {0};
    IsProven = λ _ inputs outputs. IsProvenPruned inputs outputs;
    default-write = refl;
    signatures-Parses = λ _ _ _. no_signatures-Parses;
    signatures-IsCanonical = λ _. no_signatures-IsCanonical;
    proofs-Parses = λ _ inputs outputs. pruned_proofs-Parses inputs outputs;
    proofs-IsCanonical = λ _ inputs outputs. pruned_proofs-IsCanonical inputs outputs;
  }
