-- ===== src/RingSignatures/Laws.antt =====
-- monero-oxide/src/ring_signatures.rs: the reader of `RingSignature` against its writer.
use monero_oxide.Common.{ℕ, ◌≡◌, refl, Bool, List, length, All, All-map}
use monero_oxide.Io.Parses.{
  Parses, IsCanonical, Parses-bind, Parses-map, Accepts-bind, Accepts-pure,
}
use monero_oxide.Io.Vec.Laws.{read_raw_vec-Parses, read_raw_vec-IsCanonical}
use monero_oxide.Ed25519.Laws.{IsScalar, read_scalar-Parses, read_scalar-IsCanonical}
use monero_oxide.RingSignatures.{
  Signature, RingSignature, write_signature, write, read_signature, read,
}

module _ (reduced : List ℕ → Bool) where
  pub record IsSignature (sig : Signature) : Type 0 where
    pub c : IsScalar reduced sig.c
    pub s : IsScalar reduced sig.s

  read_signature-Parses :
      (sig : Signature)
      → IsSignature sig
      → Parses (read_signature reduced) (write_signature sig) sig
  unfolding read_signature write_signature
  read_signature-Parses sig v =
      Parses-bind _ (read_scalar-Parses reduced sig.c v.c)
        (Parses-map _ (read_scalar-Parses reduced sig.s v.s))

  read_signature-IsCanonical : IsCanonical IsSignature (read_signature reduced) write_signature
  unfolding read_signature write_signature
  read_signature-IsCanonical = Accepts-bind _ (read_scalar-IsCanonical reduced) λ c hc.
      Accepts-bind _ (read_scalar-IsCanonical reduced)
        λ s hs. Accepts-pure refl (record { c = hc; s = hs })

  -- A signature with a response for each of `members`.
  abbrev pub IsValid : ℕ → RingSignature → Type 0
  IsValid members ring_sig = (length ring_sig.sigs ≡ members) × All IsSignature ring_sig.sigs

  pub read-Parses :
      (members : ℕ) (ring_sig : RingSignature)
      → IsValid members ring_sig
      → Parses (read reduced members) (write ring_sig) ring_sig
  unfolding read write
  read-Parses members ring_sig (len, h) = rw (← len) (
      Parses-map _ (
        read_raw_vec-Parses _ write_signature ring_sig.sigs
          (All-map read_signature-Parses ring_sig.sigs h)))

  pub read-IsCanonical : (members : ℕ) → IsCanonical (IsValid members) (read reduced members) write
  unfolding read write
  read-IsCanonical members =
      Accepts-bind _ (read_raw_vec-IsCanonical _ _ read_signature-IsCanonical members)
        λ sigs h. Accepts-pure refl h
