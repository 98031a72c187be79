-- ===== src/Interface/FeeRate/Laws.antt =====
-- monero-oxide/interface/src/provides_fee_rates.rs: fees and weights, and the reader of `FeeRate`
-- against its writer.
use native.Mathlib.Nat.{
  add-mul, mod-lt, div-add-mod', mul-le-mul, lt-div-mul-add, div-mul-le_self, div-le_self,
}
use monero_oxide.Common.{
  ℕ, ◌+◌, ◌-◌, ◌*◌, ◌/◌, ◌%◌, ◌^◌, ◌<◌, ◌≤◌, ◌==◌, ==→eq, ltb, lt→ltb, ◌≡◌, refl, ap, ◌∙◌, arith,
  true, false, Bool-cases, ◌||◌, inl, inr, some, List, [], ◌++◌, ok,
}
use monero_oxide.Common.Bytes.{IsBytes, to_le_bytes}
use monero_oxide.Io.Reader.{read_u64}
use monero_oxide.Io.Parses.{
  Parses, IsCanonical, Accepts, Parses-bind, Parses-then, Accepts-bind, Accepts-pure, Accepts-fail,
}
use monero_oxide.Io.Primitives.{le_bytes-Parses, le_bytes-IsCanonical}
use monero_oxide.Interface.FeeRate.{
  Rate, new, write, checked, read, div_ceil, calculate_fee_from_weight, calculate_weight_from_fee,
}

-- The rates that `new` makes of a `u64` and a `u64`.
pub record IsValid (rate : Rate) : Type 0 where
  pub per_weight_pos : 0 < rate.per_weight
  pub per_weight : rate.per_weight < 2 ^ 64
  pub mask_pos : 0 < rate.mask
  pub mask : rate.mask < 2 ^ 64

-- Rounding up to a multiple.
div_ceil_lem : (n d : ℕ) → 0 < d → (n ≤ div_ceil n d * d) × (div_ceil n d * d < n + d)
div_ceil_lem n d pos = elim (Bool-cases (n % d == 0)) [
  | inl whole ↦
      let none_left = ==→eq (n % d) 0 whole in
      rw whole (omega (arith, div-add-mod' n d), omega (arith, div-add-mod' n d))
  | inr part ↦
      let left : 0 < n % d = ground arith in
      rw part (
        omega (arith, div-add-mod' n d, add-mul (n / d) 1 d, mod-lt n pos),
        omega (arith, div-add-mod' n d, add-mul (n / d) 1 d, left),
      )
]

-- The fee for a weight is a multiple of the mask, covers the rate for every unit of the weight, is
-- less than one mask above that, and neither of its products wraps around a `u128`.
pub fee_from_weight_lem :
    (rate : Rate) (weight : ℕ)
    → IsValid rate
    → weight < 2 ^ 64
    → (k : ℕ) × (calculate_fee_from_weight rate weight ≡ k * rate.mask)
      × (rate.per_weight * weight ≤ k * rate.mask)
      × (k * rate.mask < rate.per_weight * weight + rate.mask)
      × (k * rate.mask < 2 ^ 128)
unfolding calculate_fee_from_weight
fee_from_weight_lem rate weight v h =
    let product = rate.per_weight * weight in
    let most : product ≤ (2 ^ 64 - 1) * (2 ^ 64 - 1) =
      mul-le-mul {n₁ = rate.per_weight} {m₁ = weight} {n₂ = 2 ^ 64 - 1} {m₂ = 2 ^ 64 - 1}
        (omega (arith, v.per_weight)) (omega arith) in
    let kept : product % 2 ^ 128 ≡ product = omega (arith, most) in
    let (covers, close) = div_ceil_lem product rate.mask v.mask_pos in
    let fits : div_ceil product rate.mask * rate.mask < 2 ^ 128 =
      omega (arith, close, most, v.mask) in
    let fits' : div_ceil product rate.mask * rate.mask % 2 ^ 128
        ≡ div_ceil product rate.mask * rate.mask =
      omega (arith, fits) in
    (
      div_ceil product rate.mask,
      ap (λ x. div_ceil x rate.mask * rate.mask % 2 ^ 128) kept ∙ fits',
      covers,
      close,
      fits,
    )

-- The weight for a fee that is a `u64` is the greatest whose cost at the rate is no more than the
-- fee, and there always is one.
pub weight_from_fee_lem :
    (rate : Rate) (fee : ℕ)
    → IsValid rate
    → fee < 2 ^ 64
    → (weight : ℕ) × (calculate_weight_from_fee rate fee ≡ some weight)
      × (weight * rate.per_weight ≤ fee)
      × (fee < weight * rate.per_weight + rate.per_weight)
unfolding calculate_weight_from_fee
weight_from_fee_lem rate fee v h =
    let fits : ltb (fee / rate.per_weight) (2 ^ 64) ≡ true =
      lt→ltb _ _ (omega (arith, div-le_self fee rate.per_weight, h)) in
    (
      fee / rate.per_weight,
      rw fits refl,
      div-mul-le_self fee rate.per_weight,
      lt-div-mul-add v.per_weight_pos,
    )

checked-Parses :
    (rate : Rate) → IsValid rate → Parses (checked (new rate.per_weight rate.mask)) [] rate
unfolding checked new
checked-Parses rate v =
    let valid : (rate.per_weight == 0 || rate.mask == 0) ≡ false =
      ground (arith, v.per_weight_pos, v.mask_pos) in
    record { run = λ rest. rw (valid, checked) refl }

read-Parses : (rate : Rate) → IsValid rate → Parses read (write rate) rate
unfolding read write read_u64
read-Parses rate v =
    Parses-bind _ (le_bytes-Parses 8 rate.per_weight (omega (arith, v.per_weight)))
      (Parses-then _ (le_bytes-Parses 8 rate.mask (omega (arith, v.mask))) (checked-Parses rate v))

checked-Accepts :
    (per_weight mask : ℕ)
    → per_weight < 256 ^ 8
    → mask < 256 ^ 8
    → Accepts
        (to_le_bytes 8 per_weight ++ to_le_bytes 8 mask)
        IsValid
        (checked (new per_weight mask))
        write
unfolding checked new write
checked-Accepts per_weight mask hp hm = elim (Bool-cases (per_weight == 0 || mask == 0)) [
  | inl zero ↦ rw (zero, checked) Accepts-fail
  | inr pos ↦
      rw (pos, checked)
        (Accepts-pure {a = record { per_weight = per_weight; mask = mask }} refl (record {
          per_weight_pos = ground arith;
          per_weight = omega (arith, hp);
          mask_pos = ground arith;
          mask = omega (arith, hm);
        }))
]

read-IsCanonical : IsCanonical IsValid read write
unfolding read read_u64
read-IsCanonical = Accepts-bind _ (le_bytes-IsCanonical 8) λ per_weight hp.
    Accepts-bind _ (le_bytes-IsCanonical 8) λ mask hm. checked-Accepts per_weight mask hp hm

-- Reading the bytes that were written of a valid rate, with any bytes behind them, returns the rate
-- and leaves those bytes.
pub read-write_rate :
    (rate : Rate) → IsValid rate → (rest : List ℕ) → read (write rate ++ rest) ≡ ok (rate, rest)
read-write_rate rate valid = (read-Parses rate valid).run

-- Where the reader accepts bytes, they begin with what is written of the rate that it returns, the
-- rest is what it leaves, and the rate is valid: neither of its numbers is zero.
pub read_canonical_rate :
    (src : List ℕ) (rate : Rate) (rest : List ℕ)
    → IsBytes src
    → read src ≡ ok (rate, rest)
    → (src ≡ write rate ++ rest) × IsValid rate
read_canonical_rate = read-IsCanonical.run
