-- ===== src/Ringct/Proofs/Laws.antt =====
-- monero-oxide/src/ringct.rs: the reader of `RctProofs` against its writer.
use monero_oxide.Common.{ℕ, ◌≡◌, refl, Bool, Option, none, some, List, [], ◌∷◌, ◌++◌, ok}
use monero_oxide.Common.Bytes.{IsBytes}
use monero_oxide.Io.Parses.{
  Parses, IsCanonical, Accepts, Parses-bind, Parses-map, Parses-pure, Accepts-bind, Accepts-pure,
}
use monero_oxide.Ringct.Bulletproof.{Bulletproof}
use monero_oxide.Ringct.RctType.{RctType}
use monero_oxide.Ringct.Base.{RctBase}
use monero_oxide.Ringct.Base
use monero_oxide.Ringct.Prunable.{RctPrunable}
use monero_oxide.Ringct.Prunable
use monero_oxide.Ringct.Proofs.{RctProofs, prunable_type, rct_type, write, read_prunable, read}

module _ (reduced : List ℕ → Bool) (ring_length inputs outputs : ℕ) where
  -- The proofs that a reader returns.
  pub record IsValid (proofs : RctProofs) : Type 0 where
    pub base : Base.Laws.IsValid (rct_type proofs) inputs outputs proofs.base
    pub prunable :
        Prunable.Laws.IsValid reduced ring_length inputs outputs (rct_type proofs) proofs.prunable

  -- The type that the proofs have is the type that they were read with.
  prunable_type-IsValid :
      (t : RctType) (prunable : RctPrunable)
      → Prunable.Laws.IsValid reduced ring_length inputs outputs t prunable
      → prunable_type prunable ≡ t
  prunable_type-IsValid _ _ (Prunable.Laws.is_aggregate mlsag borromean _ _ _) = refl
  prunable_type-IsValid _ _ (Prunable.Laws.is_borromean mlsags borromean _ _) = refl
  prunable_type-IsValid _ _ (Prunable.Laws.is_bulletproofs mlsags pseudo_outs bulletproof _ _ _) =
      refl
  prunable_type-IsValid _ _ (Prunable.Laws.is_compact_amount mlsags pseudo_outs bulletproof _ _ _) =
      refl
  prunable_type-IsValid _ _
        (Prunable.Laws.is_clsag clsags pseudo_outs (Bulletproof.original bp) _ _ _) =
      refl
  prunable_type-IsValid _ _
        (Prunable.Laws.is_clsag clsags pseudo_outs (Bulletproof.plus bp) _ _ h) =
      absurd h
  prunable_type-IsValid _ _
        (Prunable.Laws.is_clsag_plus clsags pseudo_outs (Bulletproof.original bp) _ _ h) =
      absurd h
  prunable_type-IsValid _ _
        (Prunable.Laws.is_clsag_plus clsags pseudo_outs (Bulletproof.plus bp) _ _ _) =
      refl

  abbrev pub IsValidOptional : Option RctProofs → Type 0
  IsValidOptional none = Unit {0}
  IsValidOptional (some proofs) = IsValid proofs

  -- What is written of proofs that may be missing.
  abbrev pub write_optional : Option RctProofs → List ℕ
  write_optional none = 0 ∷ []
  write_optional (some proofs) = write proofs

  pub read-Parses :
      (o : Option RctProofs)
      → IsValidOptional o
      → Parses (read reduced ring_length inputs outputs) (write_optional o) o
  unfolding read write read_prunable
  read-Parses none h =
      Parses-bind _ (Base.Laws.read-Parses inputs outputs none tt) (Parses-pure none)
  read-Parses (some proofs) v =
      Parses-bind _
        (Base.Laws.read-Parses inputs outputs (some (rct_type proofs, proofs.base)) v.base)
        (Parses-map _ (
          Prunable.Laws.read-Parses reduced ring_length inputs outputs (rct_type proofs)
            proofs.prunable v.prunable))

  read_prunable-Accepts :
      (o : Option (RctType × RctBase))
      → Base.Laws.IsValidOptional inputs outputs o
      → Accepts
          (Base.Laws.write_optional o)
          IsValidOptional
          (read_prunable reduced ring_length inputs outputs o)
          write_optional
  unfolding read_prunable write rct_type
  read_prunable-Accepts none h = Accepts-pure {a = none} refl tt
  read_prunable-Accepts (some (t, base)) h =
      Accepts-bind _ (Prunable.Laws.read-IsCanonical reduced ring_length inputs outputs t)
        λ prunable good.
          let same = prunable_type-IsValid t prunable good in
          Accepts-pure {a = some (record { base = base; prunable = prunable })} (rw same)
            (record { base = rw same h; prunable = rw same good })

  pub read-IsCanonical :
      IsCanonical IsValidOptional (read reduced ring_length inputs outputs) write_optional
  unfolding read
  read-IsCanonical =
      Accepts-bind _ (Base.Laws.read-IsCanonical inputs outputs) read_prunable-Accepts

  -- Reading the bytes that were written of well-formed proofs, or of no proofs, with any bytes behind
  -- them, returns them and leaves those bytes.
  pub read-write_proofs :
      (o : Option RctProofs)
      → IsValidOptional o
      → (rest : List ℕ)
      → read reduced ring_length inputs outputs (write_optional o ++ rest) ≡ ok (o, rest)
  read-write_proofs o valid = (read-Parses o valid).run

  -- Where the reader accepts bytes, they begin with what is written of the proofs that it returns,
  -- or with the byte of no proofs, the rest is what it leaves, and the proofs are well-formed: as
  -- many signatures, pseudo-outs, amounts and commitments as there are inputs or outputs.
  pub read_canonical_proofs :
      (src : List ℕ) (o : Option RctProofs) (rest : List ℕ)
      → IsBytes src
      → read reduced ring_length inputs outputs src ≡ ok (o, rest)
      → (src ≡ write_optional o ++ rest) × IsValidOptional o
  read_canonical_proofs = read-IsCanonical.run
