-- ===== src/Ringct/RctType/Laws.antt =====
-- monero-oxide/src/ringct.rs: `RctType` and its byte, and the reader of `EncryptedAmount` against its
-- writer.
use monero_oxide.Common.{ℕ, ◌<◌, ◌≡◌, refl, Bool, true, false, some, arith}
use monero_oxide.Io.Parses.{
  Parses, IsCanonical, Parses-bind, Parses-map, Accepts-bind, Accepts-pure,
}
use monero_oxide.Io.Primitives.{IsArray, read_bytes-Parses, read_bytes-IsCanonical}
use monero_oxide.Ringct.RctType.{
  RctType, to_u8, of_u8, EncryptedAmount, original, compact, read_amount, write_amount,
}
use monero_oxide.Ringct.RctType.{aggregate_mlsag_borromean}

pub of_u8-to_u8 : (t : RctType) → of_u8 (to_u8 t) ≡ some t
unfolding of_u8 to_u8
of_u8-to_u8 aggregate_mlsag_borromean = refl
of_u8-to_u8 _ = refl

pub of_u8-eq-some : (byte : ℕ) (t : RctType) → of_u8 byte ≡ some t → byte ≡ to_u8 t
unfolding of_u8 to_u8
of_u8-eq-some byte t h = ground arith

pub to_u8_pos : (t : RctType) → 0 < to_u8 t
unfolding to_u8
to_u8_pos aggregate_mlsag_borromean = omega arith
to_u8_pos _ = omega arith

abbrev pub IsAmount : Bool → EncryptedAmount → Type 0
IsAmount false (original mask amount) = IsArray 32 mask × IsArray 32 amount
IsAmount false (compact amount) = ⊥
IsAmount true (original mask amount) = ⊥
IsAmount true (compact amount) = IsArray 8 amount

pub read_amount-Parses :
    (b : Bool) (amount : EncryptedAmount)
    → IsAmount b amount
    → Parses (read_amount b) (write_amount amount) amount
unfolding read_amount write_amount
read_amount-Parses false (original mask amount) ((len, _), (len', _)) =
    Parses-bind _ (read_bytes-Parses 32 mask len) (Parses-map _ (read_bytes-Parses 32 amount len'))
read_amount-Parses false (compact amount) h = absurd h
read_amount-Parses true (original mask amount) h = absurd h
read_amount-Parses true (compact amount) (len, _) =
    Parses-map compact (read_bytes-Parses 8 amount len)

pub read_amount-IsCanonical : (b : Bool) → IsCanonical (IsAmount b) (read_amount b) write_amount
unfolding read_amount write_amount
read_amount-IsCanonical false =
    Accepts-bind _ (read_bytes-IsCanonical 32)
      λ mask hm. Accepts-bind _ (read_bytes-IsCanonical 32) λ amount ha. Accepts-pure refl (hm, ha)
read_amount-IsCanonical true =
    Accepts-bind _ (read_bytes-IsCanonical 8) λ amount ha. Accepts-pure refl ha
