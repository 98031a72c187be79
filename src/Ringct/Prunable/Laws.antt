-- ===== src/Ringct/Prunable/Laws.antt =====
-- monero-oxide/src/ringct.rs: the reader of `RctPrunable` against its writer.
use monero_oxide.Common.{
  ℕ, ◌+◌, ◌^◌, ◌≡◌, refl, sym, ◌∙◌, ◌!=◌, leb, Bool, true, false, List, [], ◌∷◌, ◌++◌, append_assoc,
  length, All, All-map, arith, if◌then◌else◌,
}
use monero_oxide.Common.Bytes.{to_le_bytes}
use monero_oxide.Io.Reader.{read_u32, write_byte}
use monero_oxide.Io.Parses.{
  Parses, IsCanonical, Parses-bind, Parses-map, Parses-fail_if, Accepts-bind, Accepts-last,
  Accepts-pure, Accepts-fail_if,
}
use monero_oxide.Io.Primitives.{
  read_byte-Parses, read_byte-IsCanonical, le_bytes-Parses, le_bytes-IsCanonical,
}
use monero_oxide.Io.VarInt
use monero_oxide.Io.Vec.{read_raw_vec, write_raw_vec}
use monero_oxide.Io.Vec.Laws.{read_counted-Parses, read_raw_vec-IsCanonical}
use monero_oxide.Ed25519.{CompressedPoint, write_point, read_point}
use monero_oxide.Ed25519.Laws.{IsPoint, read_point-Parses, read_point-IsCanonical}
use monero_oxide.Transaction.Input.Laws.{u64-Parses, IsU64-IsCanonical}
use monero_oxide.Ringct.Mlsag
use monero_oxide.Ringct.Mlsag.{Mlsag}
use monero_oxide.Ringct.Clsag
use monero_oxide.Ringct.Clsag.{Clsag}
use monero_oxide.Ringct.Borromean
use monero_oxide.Ringct.Borromean.{BorromeanRange}
use monero_oxide.Ringct.Bulletproof
use monero_oxide.Ringct.Bulletproof.{Bulletproof}
use monero_oxide.Ringct.RctType.{RctType}
use monero_oxide.Ringct.Prunable.{
  RctPrunable, aggregate_mlsag_borromean, mlsag_borromean, mlsag_bulletproofs,
  mlsag_bulletproofs_compact_amount, clsag, write, read, read_count, read_mlsag_bulletproofs,
  read_clsag, read_bulletproof,
}

-- A list of a given length of good elements.
abbrev pub Counted {ℓ} : {A : Type ℓ} → (A → Type 0) → ℕ → List A → Type 0
Counted Good n xs = (length xs ≡ n) × All Good xs

-- A number, a range proof, signatures and pseudo-outs.
abbrev write_counted : List ℕ → Bulletproof → List ℕ → List CompressedPoint → List ℕ
write_counted count bulletproof signatures pseudo_outs =
    count
    ++ (Bulletproof.write bulletproof ++ (signatures ++ write_raw_vec write_point pseudo_outs))

append_assoc4 : (a b c d : List ℕ) → a ++ (b ++ (c ++ d)) ≡ ((a ++ b) ++ c) ++ d
append_assoc4 a b c d = simp append_assoc

module _ (reduced : List ℕ → Bool) (ring_length inputs outputs : ℕ) where
  -- The proofs that a reader returns for a type.
  pub data IsValid : RctType → RctPrunable → Type 0 where
    is_aggregate :
        (mlsag : Mlsag) (borromean : List BorromeanRange)
        → leb (2 ^ 64) (inputs + 1) ≡ false
        → Mlsag.Laws.IsValid reduced ring_length (inputs + 1) mlsag
        → Counted (Borromean.Laws.IsValid reduced) outputs borromean
        → IsValid RctType.aggregate_mlsag_borromean (aggregate_mlsag_borromean mlsag borromean)
    is_borromean :
        (mlsags : List Mlsag) (borromean : List BorromeanRange)
        → Counted (Mlsag.Laws.IsValid reduced ring_length 2) inputs mlsags
        → Counted (Borromean.Laws.IsValid reduced) outputs borromean
        → IsValid RctType.mlsag_borromean (mlsag_borromean mlsags borromean)
    is_bulletproofs :
        (mlsags : List Mlsag) (pseudo_outs : List CompressedPoint) (bulletproof : Bulletproof)
        → Counted (Mlsag.Laws.IsValid reduced ring_length 2) inputs mlsags
        → Counted IsPoint inputs pseudo_outs
        → Bulletproof.Laws.IsValid reduced bulletproof
        → IsValid RctType.mlsag_bulletproofs (mlsag_bulletproofs mlsags pseudo_outs bulletproof)
    is_compact_amount :
        (mlsags : List Mlsag) (pseudo_outs : List CompressedPoint) (bulletproof : Bulletproof)
        → Counted (Mlsag.Laws.IsValid reduced ring_length 2) inputs mlsags
        → Counted IsPoint inputs pseudo_outs
        → Bulletproof.Laws.IsValid reduced bulletproof
        → IsValid RctType.mlsag_bulletproofs_compact_amount
            (mlsag_bulletproofs_compact_amount mlsags pseudo_outs bulletproof)
    is_clsag :
        (clsags : List Clsag) (pseudo_outs : List CompressedPoint) (bulletproof : Bulletproof)
        → Counted (Clsag.Laws.IsValid reduced ring_length) inputs clsags
        → Counted IsPoint inputs pseudo_outs
        → Bulletproof.Laws.IsValid reduced bulletproof
        → IsValid RctType.clsag_bulletproof (clsag clsags pseudo_outs bulletproof)
    is_clsag_plus :
        (clsags : List Clsag) (pseudo_outs : List CompressedPoint) (bulletproof : Bulletproof)
        → Counted (Clsag.Laws.IsValid reduced ring_length) inputs clsags
        → Counted IsPoint inputs pseudo_outs
        → Bulletproof.Laws.IsValidPlus reduced bulletproof
        → IsValid RctType.clsag_bulletproof_plus (clsag clsags pseudo_outs bulletproof)

  borromean-Parses :
      (ranges : List BorromeanRange)
      → Counted (Borromean.Laws.IsValid reduced) outputs ranges
      → Parses
          (read_raw_vec (Borromean.read reduced) outputs)
          (write_raw_vec Borromean.write ranges)
          ranges
  borromean-Parses ranges (len, h) =
      read_counted-Parses (Borromean.read reduced) Borromean.write outputs ranges len
        (All-map (Borromean.Laws.read-Parses reduced) ranges h)

  mlsags-Parses :
      (mlsags : List Mlsag)
      → Counted (Mlsag.Laws.IsValid reduced ring_length 2) inputs mlsags
      → Parses
          (read_raw_vec (Mlsag.read reduced ring_length 2) inputs)
          (write_raw_vec Mlsag.write mlsags)
          mlsags
  mlsags-Parses mlsags (len, h) =
      read_counted-Parses (Mlsag.read reduced ring_length 2) Mlsag.write inputs mlsags len
        (All-map (Mlsag.Laws.read-Parses reduced ring_length 2) mlsags h)

  clsags-Parses :
      (clsags : List Clsag)
      → Counted (Clsag.Laws.IsValid reduced ring_length) inputs clsags
      → Parses
          (read_raw_vec (Clsag.read reduced ring_length) inputs)
          (write_raw_vec Clsag.write clsags)
          clsags
  clsags-Parses clsags (len, h) =
      read_counted-Parses (Clsag.read reduced ring_length) Clsag.write inputs clsags len
        (All-map (Clsag.Laws.read-Parses reduced ring_length) clsags h)

  pseudo_outs-Parses :
      (pseudo_outs : List CompressedPoint)
      → Counted IsPoint inputs pseudo_outs
      → Parses (read_raw_vec read_point inputs) (write_raw_vec write_point pseudo_outs) pseudo_outs
  pseudo_outs-Parses pseudo_outs (len, h) =
      read_counted-Parses read_point write_point inputs pseudo_outs len
        (All-map read_point-Parses pseudo_outs h)

  -- The writer of any number of Bulletproofs, of which only one is ever written.
  abbrev write_any_count : Bool → ℕ → List ℕ
  write_any_count true n = to_le_bytes 4 n
  write_any_count false n = VarInt.write n

  one-VarInt : VarInt.write 1 ≡ 1 ∷ []
  one-VarInt = VarInt.Steps.write_last 1 (omega arith)

  read_count-Parses :
      (b : Bool) → Parses (read_count reduced b) (if b then to_le_bytes 4 1 else 1 ∷ []) 1
  unfolding read_count read_u32
  read_count-Parses true = le_bytes-Parses 4 1 (omega arith)
  read_count-Parses false = rw (← one-VarInt) (u64-Parses 1 (omega arith))

  read_count-IsCanonical :
      (b : Bool) → IsCanonical (λ n. Unit {0}) (read_count reduced b) (write_any_count b)
  unfolding read_count read_u32
  read_count-IsCanonical true = Accepts-last (le_bytes-IsCanonical 4) λ n h. (refl, tt)
  read_count-IsCanonical false = Accepts-last IsU64-IsCanonical λ n h. (refl, tt)

  not_one : (count : ℕ) → (count != 1) ≡ false → count ≡ 1
  not_one count h = ground arith

  any_count-one : (b : Bool) → write_any_count b 1 ≡ (if b then to_le_bytes 4 1 else 1 ∷ [])
  any_count-one true = refl
  any_count-one false = one-VarInt

  -- Both kinds of MLSAGs with a Bulletproof, given the constructor.
  module _ (make : List Mlsag → List CompressedPoint → Bulletproof → RctPrunable) (b : Bool) where
    read_mlsag_bulletproofs-Parses :
        (mlsags : List Mlsag) (pseudo_outs : List CompressedPoint) (bulletproof : Bulletproof)
        → Counted (Mlsag.Laws.IsValid reduced ring_length 2) inputs mlsags
        → Counted IsPoint inputs pseudo_outs
        → Bulletproof.Laws.IsValid reduced bulletproof
        → Parses
            (read_mlsag_bulletproofs reduced b make ring_length inputs)
            (write_counted
              (if b then to_le_bytes 4 1 else 1 ∷ [])
              bulletproof
              (write_raw_vec Mlsag.write mlsags)
              pseudo_outs)
            (make mlsags pseudo_outs bulletproof)
    unfolding read_mlsag_bulletproofs
    read_mlsag_bulletproofs-Parses mlsags pseudo_outs bulletproof hm hp hb =
        Parses-bind _ (read_count-Parses b) (
          Parses-fail_if "n bulletproofs instead of one" refl (
            Parses-bind _ (Bulletproof.Laws.read-Parses reduced bulletproof hb) (
              Parses-bind _ (mlsags-Parses mlsags hm)
                (Parses-map _ (pseudo_outs-Parses pseudo_outs hp)))))

    read_mlsag_bulletproofs-IsCanonical :
        {Good : RctPrunable → Type 0} {write' : RctPrunable → List ℕ}
        → ((mlsags : List Mlsag) (pseudo_outs : List CompressedPoint) (bulletproof : Bulletproof)
            → Counted (Mlsag.Laws.IsValid reduced ring_length 2) inputs mlsags
            → Counted IsPoint inputs pseudo_outs
            → Bulletproof.Laws.IsValid reduced bulletproof
            → (write_counted
                  (if b then to_le_bytes 4 1 else 1 ∷ [])
                  bulletproof
                  (write_raw_vec Mlsag.write mlsags)
                  pseudo_outs
                ≡ write' (make mlsags pseudo_outs bulletproof))
              × Good (make mlsags pseudo_outs bulletproof))
        → IsCanonical Good (read_mlsag_bulletproofs reduced b make ring_length inputs) write'
    unfolding read_mlsag_bulletproofs
    read_mlsag_bulletproofs-IsCanonical finish =
        Accepts-bind _ (read_count-IsCanonical b) λ count _. Accepts-fail_if (count != 1) _ λ one.
          Accepts-bind _ (Bulletproof.Laws.read-IsCanonical reduced) λ bulletproof hb.
            Accepts-bind _
              (read_raw_vec-IsCanonical _ _ (Mlsag.Laws.read-IsCanonical reduced ring_length 2)
                inputs)
              λ mlsags hm.
                Accepts-bind _ (read_raw_vec-IsCanonical _ _ read_point-IsCanonical inputs)
                  λ pseudo_outs hp.
                    let (all, good) = finish mlsags pseudo_outs bulletproof hm hp hb in
                    Accepts-pure {a = make mlsags pseudo_outs bulletproof}
                      (sym (
                          append_assoc4 (write_any_count b count) (Bulletproof.write bulletproof) _
                            _)
                        ∙ rw (not_one count one, any_count-one b) all)
                      good

  IsRangeProof : Bool → Bulletproof → Type 0
  IsRangeProof false = Bulletproof.Laws.IsValid reduced
  IsRangeProof true = Bulletproof.Laws.IsValidPlus reduced

  read_bulletproof-Parses :
      (is_plus : Bool) (bulletproof : Bulletproof)
      → IsRangeProof is_plus bulletproof
      → Parses (read_bulletproof reduced is_plus) (Bulletproof.write bulletproof) bulletproof
  unfolding IsRangeProof read_bulletproof
  read_bulletproof-Parses false = Bulletproof.Laws.read-Parses reduced
  read_bulletproof-Parses true = Bulletproof.Laws.read_plus-Parses reduced

  read_bulletproof-IsCanonical :
      (is_plus : Bool)
      → IsCanonical (IsRangeProof is_plus) (read_bulletproof reduced is_plus) Bulletproof.write
  unfolding IsRangeProof read_bulletproof
  read_bulletproof-IsCanonical false = Bulletproof.Laws.read-IsCanonical reduced
  read_bulletproof-IsCanonical true = Bulletproof.Laws.read_plus-IsCanonical reduced

  module _ (is_plus : Bool) where
    read_clsag-Parses :
        (clsags : List Clsag) (pseudo_outs : List CompressedPoint) (bulletproof : Bulletproof)
        → Counted (Clsag.Laws.IsValid reduced ring_length) inputs clsags
        → Counted IsPoint inputs pseudo_outs
        → IsRangeProof is_plus bulletproof
        → Parses
            (read_clsag reduced is_plus ring_length inputs)
            (write_counted (1 ∷ []) bulletproof (write_raw_vec Clsag.write clsags) pseudo_outs)
            (clsag clsags pseudo_outs bulletproof)
    unfolding read_clsag
    read_clsag-Parses clsags pseudo_outs bulletproof hm hp hb = Parses-bind _ (read_byte-Parses 1) (
        Parses-fail_if "n bulletproofs instead of one" refl (
          Parses-bind _ (read_bulletproof-Parses is_plus bulletproof hb) (
            Parses-bind _ (clsags-Parses clsags hm)
              (Parses-map _ (pseudo_outs-Parses pseudo_outs hp)))))

    read_clsag-IsCanonical :
        {Good : RctPrunable → Type 0} {write' : RctPrunable → List ℕ}
        → ((clsags : List Clsag) (pseudo_outs : List CompressedPoint) (bulletproof : Bulletproof)
            → Counted (Clsag.Laws.IsValid reduced ring_length) inputs clsags
            → Counted IsPoint inputs pseudo_outs
            → IsRangeProof is_plus bulletproof
            → (write_counted (1 ∷ []) bulletproof (write_raw_vec Clsag.write clsags) pseudo_outs
                ≡ write' (clsag clsags pseudo_outs bulletproof))
              × Good (clsag clsags pseudo_outs bulletproof))
        → IsCanonical Good (read_clsag reduced is_plus ring_length inputs) write'
    unfolding read_clsag
    read_clsag-IsCanonical finish = Accepts-bind _ read_byte-IsCanonical λ count _.
        Accepts-fail_if (count != 1) _ λ one.
          Accepts-bind _ (read_bulletproof-IsCanonical is_plus) λ bulletproof hb.
            Accepts-bind _
              (read_raw_vec-IsCanonical _ _ (Clsag.Laws.read-IsCanonical reduced ring_length)
                inputs)
              λ clsags hm.
                Accepts-bind _ (read_raw_vec-IsCanonical _ _ read_point-IsCanonical inputs)
                  λ pseudo_outs hp.
                    let (all, good) = finish clsags pseudo_outs bulletproof hm hp hb in
                    Accepts-pure {a = clsag clsags pseudo_outs bulletproof}
                      (sym (append_assoc4 (write_byte count) (Bulletproof.write bulletproof) _ _)
                        ∙ rw (not_one count one) all)
                      good

  pub read-Parses :
      (rct_type : RctType) (prunable : RctPrunable)
      → IsValid rct_type prunable
      → Parses (read reduced rct_type ring_length inputs outputs) (write prunable rct_type) prunable
  unfolding read write IsRangeProof
  read-Parses _ _ (is_aggregate mlsag borromean fits hm hb) =
      Parses-bind _ (borromean-Parses borromean hb) (
        Parses-fail_if _ fits
          (Parses-map _ (Mlsag.Laws.read-Parses reduced ring_length (inputs + 1) mlsag hm)))
  read-Parses _ _ (is_borromean mlsags borromean hm hb) =
      Parses-bind _ (borromean-Parses borromean hb) (Parses-map _ (mlsags-Parses mlsags hm))
  read-Parses _ _ (is_bulletproofs mlsags pseudo_outs bulletproof hm hp hb) =
      read_mlsag_bulletproofs-Parses mlsag_bulletproofs true mlsags pseudo_outs bulletproof hm hp hb
  read-Parses _ _ (is_compact_amount mlsags pseudo_outs bulletproof hm hp hb) =
      read_mlsag_bulletproofs-Parses mlsag_bulletproofs_compact_amount false mlsags pseudo_outs
        bulletproof hm hp hb
  read-Parses _ _ (is_clsag clsags pseudo_outs bulletproof hm hp hb) =
      read_clsag-Parses false clsags pseudo_outs bulletproof hm hp hb
  read-Parses _ _ (is_clsag_plus clsags pseudo_outs bulletproof hm hp hb) =
      read_clsag-Parses true clsags pseudo_outs bulletproof hm hp hb

  pub read-IsCanonical :
      (rct_type : RctType)
      → IsCanonical
          (IsValid rct_type)
          (read reduced rct_type ring_length inputs outputs)
          (λ prunable. write prunable rct_type)
  unfolding read write IsRangeProof
  read-IsCanonical RctType.aggregate_mlsag_borromean =
      Accepts-bind _
        (read_raw_vec-IsCanonical _ _ (Borromean.Laws.read-IsCanonical reduced) outputs)
        λ borromean hb. Accepts-fail_if (leb (2 ^ 64) (inputs + 1)) _ λ fits.
          Accepts-bind _ (Mlsag.Laws.read-IsCanonical reduced ring_length (inputs + 1)) λ mlsag hm.
            Accepts-pure {a = aggregate_mlsag_borromean mlsag borromean} refl
              (is_aggregate mlsag borromean fits hm hb)
  read-IsCanonical RctType.mlsag_borromean =
      Accepts-bind _
        (read_raw_vec-IsCanonical _ _ (Borromean.Laws.read-IsCanonical reduced) outputs)
        λ borromean hb.
          Accepts-bind _
            (read_raw_vec-IsCanonical _ _ (Mlsag.Laws.read-IsCanonical reduced ring_length 2)
              inputs)
            λ mlsags hm.
              Accepts-pure {a = mlsag_borromean mlsags borromean} refl
                (is_borromean mlsags borromean hm hb)
  read-IsCanonical RctType.mlsag_bulletproofs =
      read_mlsag_bulletproofs-IsCanonical mlsag_bulletproofs true
        λ m p b hm hp hb. (refl, is_bulletproofs m p b hm hp hb)
  read-IsCanonical RctType.mlsag_bulletproofs_compact_amount =
      read_mlsag_bulletproofs-IsCanonical mlsag_bulletproofs_compact_amount false
        λ m p b hm hp hb. (refl, is_compact_amount m p b hm hp hb)
  read-IsCanonical RctType.clsag_bulletproof =
      read_clsag-IsCanonical false λ m p b hm hp hb. (refl, is_clsag m p b hm hp hb)
  read-IsCanonical RctType.clsag_bulletproof_plus =
      read_clsag-IsCanonical true λ m p b hm hp hb. (refl, is_clsag_plus m p b hm hp hb)
