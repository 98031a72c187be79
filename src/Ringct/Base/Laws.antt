-- ===== src/Ringct/Base/Laws.antt =====
-- monero-oxide/src/ringct.rs: the reader of `RctBase` against its writer.
use monero_oxide.Common.{
  ℕ, ◌≡◌, refl, ap, ◌==◌, ==→eq, Bool, true, false, ◌&&◌, Option, none, some, Option-cases, List,
  [], ◌∷◌, ◌++◌, append_assoc, length, All, All-map, arith, if◌then◌else◌, ok, inl, inr,
}
use monero_oxide.Io.Reader.{Reader, pure, write_byte}
use monero_oxide.Io.Parses.{
  Parses, IsCanonical, Parses-bind, Parses-map, Parses-pure, Parses-fail_if, Accepts-bind,
  Accepts-if, Accepts-pure, Accepts-fail_if,
}
use monero_oxide.Io.Primitives.{read_byte-Parses, read_byte-IsCanonical}
use monero_oxide.Io.VarInt
use monero_oxide.Io.Vec.{read_raw_vec, write_raw_vec}
use monero_oxide.Io.Vec.Laws.{read_raw_vec-Parses, read_counted-Parses, read_raw_vec-IsCanonical}
use monero_oxide.Ed25519.{CompressedPoint, read_point, write_point}
use monero_oxide.Ed25519.Laws.{IsPoint, read_point-Parses, read_point-IsCanonical}
use monero_oxide.Transaction.Input.Laws.{IsU64, u64-Parses, IsU64-IsCanonical}
use monero_oxide.Ringct.RctType.{RctType, to_u8, of_u8, compact_encrypted_amounts, write_amount}
use monero_oxide.Ringct.RctType.Laws.{
  of_u8-to_u8, of_u8-eq-some, to_u8_pos, IsAmount, read_amount-Parses, read_amount-IsCanonical,
}
use monero_oxide.Ringct.Base.{
  RctBase, is_mlsag_borromean, write, needs_outputs, try_rct_type, read_fields, read,
}

abbrev HasPseudoOuts : Bool → ℕ → List CompressedPoint → Type 0
HasPseudoOuts true inputs pseudo_outs = (length pseudo_outs ≡ inputs) × All IsPoint pseudo_outs
HasPseudoOuts false inputs pseudo_outs = pseudo_outs ≡ []

-- The bases that a reader returns for a type and the numbers of inputs and outputs.
pub record IsValid (rct_type : RctType) (inputs outputs : ℕ) (base : RctBase) : Type 0 where
  pub has_outputs : (needs_outputs rct_type && outputs == 0) ≡ false
  pub fee : IsU64 base.fee
  pub pseudo_outs : HasPseudoOuts (is_mlsag_borromean rct_type) inputs base.pseudo_outs
  pub amounts_len : length base.encrypted_amounts ≡ outputs
  pub amounts : All (IsAmount (compact_encrypted_amounts rct_type)) base.encrypted_amounts
  pub commitments_len : length base.commitments ≡ outputs
  pub commitments : All IsPoint base.commitments

abbrev read_pseudo_outs : Bool → ℕ → Reader (List CompressedPoint)
read_pseudo_outs b inputs = if b then read_raw_vec read_point inputs else pure []

abbrev write_pseudo_outs : Bool → List CompressedPoint → List ℕ
write_pseudo_outs b pseudo_outs = if b then write_raw_vec write_point pseudo_outs else []

pseudo_outs-Parses :
    (b : Bool) (inputs : ℕ) (ps : List CompressedPoint)
    → HasPseudoOuts b inputs ps
    → Parses (read_pseudo_outs b inputs) (write_pseudo_outs b ps) ps
pseudo_outs-Parses true inputs ps (len, h) =
    rw (← len) (read_raw_vec-Parses _ write_point ps (All-map read_point-Parses ps h))
pseudo_outs-Parses false inputs ps h = rw h (Parses-pure [])

pseudo_outs-IsCanonical :
    (b : Bool) (inputs : ℕ)
    → IsCanonical (HasPseudoOuts b inputs) (read_pseudo_outs b inputs) (write_pseudo_outs b)
pseudo_outs-IsCanonical true inputs = read_raw_vec-IsCanonical _ _ read_point-IsCanonical inputs
pseudo_outs-IsCanonical false inputs = Accepts-pure refl refl

-- The bytes behind the type's byte.
abbrev write_fields : RctType → RctBase → List ℕ
write_fields rct_type base =
    VarInt.write base.fee
    ++ (write_pseudo_outs (is_mlsag_borromean rct_type) base.pseudo_outs
        ++ (write_raw_vec write_amount base.encrypted_amounts
            ++ write_raw_vec write_point base.commitments))

read_fields-Parses :
    (rct_type : RctType) (inputs outputs : ℕ) (base : RctBase)
    → IsValid rct_type inputs outputs base
    → Parses (read_fields rct_type inputs outputs) (write_fields rct_type base) base
unfolding read_fields
read_fields-Parses rct_type inputs outputs base v = Parses-fail_if _ v.has_outputs (
    Parses-bind _ (u64-Parses base.fee v.fee) (
      Parses-bind _
        (pseudo_outs-Parses (is_mlsag_borromean rct_type) inputs base.pseudo_outs v.pseudo_outs)
        (Parses-bind _
          (read_counted-Parses _ write_amount outputs base.encrypted_amounts v.amounts_len
            (All-map (read_amount-Parses _) base.encrypted_amounts v.amounts))
          (Parses-map _ (
            read_counted-Parses _ write_point outputs base.commitments v.commitments_len
              (All-map read_point-Parses base.commitments v.commitments))))))

read_fields-IsCanonical :
    (rct_type : RctType) (inputs outputs : ℕ)
    → IsCanonical
        (IsValid rct_type inputs outputs)
        (read_fields rct_type inputs outputs)
        (write_fields rct_type)
unfolding read_fields
read_fields-IsCanonical rct_type inputs outputs =
    Accepts-fail_if (needs_outputs rct_type && outputs == 0) _ λ has_outputs.
      Accepts-bind _ IsU64-IsCanonical λ fee hf.
        Accepts-bind _ (pseudo_outs-IsCanonical (is_mlsag_borromean rct_type) inputs) λ ps hp.
          Accepts-bind _
            (read_raw_vec-IsCanonical _ _
              (read_amount-IsCanonical (compact_encrypted_amounts rct_type)) outputs)
            λ amounts (la, ha).
              Accepts-bind _ (read_raw_vec-IsCanonical _ _ read_point-IsCanonical outputs)
                λ commitments (lc, hc).
                  Accepts-pure
                    {a = record {
                      fee = fee;
                      pseudo_outs = ps;
                      encrypted_amounts = amounts;
                      commitments = commitments;
                    }}
                    (simp append_assoc)
                    (record {
                      has_outputs = has_outputs;
                      fee = hf;
                      pseudo_outs = hp;
                      amounts_len = la;
                      amounts = ha;
                      commitments_len = lc;
                      commitments = hc;
                    })

-- What is written of a base that may be missing.
abbrev pub write_optional : Option (RctType × RctBase) → List ℕ
write_optional none = 0 ∷ []
write_optional (some (rct_type, base)) = write rct_type base

abbrev pub IsValidOptional : ℕ → ℕ → Option (RctType × RctBase) → Type 0
IsValidOptional inputs outputs none = Unit {0}
IsValidOptional inputs outputs (some (rct_type, base)) = IsValid rct_type inputs outputs base

try_rct_type-to_u8 : (t : RctType) → Parses (try_rct_type (to_u8 t)) [] t
unfolding try_rct_type
try_rct_type-to_u8 t = record { run = λ rest. rw (of_u8-to_u8 t, try_rct_type) }

try_rct_type-IsCanonical :
    (byte : ℕ) → IsCanonical (λ t. byte ≡ to_u8 t) (try_rct_type byte) (λ _. [])
unfolding try_rct_type
try_rct_type-IsCanonical byte = record {
  run = λ src t rest bytes h. elim (Option-cases (of_u8 byte)) [
    | inl absent ↦ cc (rw (absent, try_rct_type) at h)
    | inr (t', present) ↦
        let h' : pure t' src ≡ ok (t, rest) = rw (present, try_rct_type) at h in
        let same : t' ≡ t = cc in (cc, rw (← same) (of_u8-eq-some byte t' present))
  ];
}

pub read-Parses :
    (inputs outputs : ℕ) (o : Option (RctType × RctBase))
    → IsValidOptional inputs outputs o
    → Parses (read inputs outputs) (write_optional o) o
unfolding read write
read-Parses inputs outputs none h = Parses-bind _ (read_byte-Parses 0) (Parses-pure none)
read-Parses inputs outputs (some (t, base)) v =
    let present : (to_u8 t == 0) ≡ false = ground (arith, to_u8_pos t) in
    Parses-bind _ (read_byte-Parses (to_u8 t)) (
      rw present (
        Parses-bind _ (try_rct_type-to_u8 t)
          (Parses-map _ (read_fields-Parses t inputs outputs base v))))

pub read-IsCanonical :
    (inputs outputs : ℕ)
    → IsCanonical (IsValidOptional inputs outputs) (read inputs outputs) write_optional
unfolding read write
read-IsCanonical inputs outputs = Accepts-bind _ read_byte-IsCanonical λ byte _.
    Accepts-if (byte == 0) (λ is0. Accepts-pure {a = none} (ap write_byte (==→eq byte 0 is0)) tt)
      λ _. Accepts-bind _ (try_rct_type-IsCanonical byte) λ t same.
        Accepts-bind _ (read_fields-IsCanonical t inputs outputs)
          λ base v. Accepts-pure {a = some (t, base)} (rw same) v
