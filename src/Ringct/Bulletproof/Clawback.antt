-- ===== src/Ringct/Bulletproof/Clawback.antt =====
-- monero-oxide/ringct/bulletproofs/src/lib.rs: `calculate_clawback`.
use monero_oxide.Common.{
  ℕ, zero, suc, ◌+◌, ◌-◌, ◌*◌, ◌/◌, ◌^◌, ◌<◌, ◌≤◌, ◌==◌, ==→eq, leb, ltb, min, ◌≡◌, refl, ap, subst,
  ◌∙◌, Bool, true, false, ◌&&◌, ◌||◌, ◌⊎◌, inl, inr, Bool-cases, arith, ltb→lt, leb→le, Option,
  none, some, if◌then◌else◌,
}
use monero_oxide.Ringct.Bulletproof.{
  max_commitments, log_commitment_bits, max_lr, calculate_clawback,
}

-- A test of every number below a bound.
all_below : ℕ → (ℕ → Bool) → Bool
all_below zero test = true
all_below (suc n) test = test n && all_below n test

all_below-at : (n m : ℕ) (test : ℕ → Bool) → all_below n test ≡ true → m < n → test m ≡ true
unfolding all_below
all_below-at zero m test h lt = absurd (omega (arith, lt))
all_below-at (suc n) m test h lt = elim (Bool-cases (m == n)) [
  | inl same ↦ ap test (==→eq m n same) ∙ ground arith
  | inr other ↦ all_below-at n m test (ground arith) (ground arith)
]

split_and : (a b : Bool) → (a && b) ≡ true → (a ≡ true) × (b ≡ true)
split_and true b h = (refl, h)
split_and false b h = cc

-- How many points and scalars a proof has beside its L and R, counted in what `signature_write`
-- writes.
abbrev field_count : Bool → ℕ
field_count is_plus = if is_plus then 6 else 9

-- The size of a proof with `rounds` pairs of L and R, each of which is 32 bytes.
abbrev pub size_of_rounds : Bool → ℕ → ℕ
size_of_rounds is_plus rounds = 32 * (field_count is_plus + 2 * rounds)

-- The size of the proof for `2 ^ log` outputs of 64 bits, and half of that for two outputs.
abbrev pub proof_size : Bool → ℕ → ℕ
proof_size is_plus log = size_of_rounds is_plus (log + 6)

abbrev pub base_size : Bool → ℕ
base_size is_plus = size_of_rounds is_plus 7 / 2

-- For more than two outputs the clawback is four fifths, rounded down, of what the proof is smaller
-- by than proofs for each two outputs.
abbrev pub IsClawback : Bool → ℕ → ℕ → Type 0
IsClawback is_plus log clawback =
    ((2 ^ log ≤ 2) × (clawback ≡ 0))
    ⊎ ((2 < 2 ^ log)
        × (saved : ℕ) × (saved + proof_size is_plus log ≡ base_size is_plus * 2 ^ log)
        × (5 * clawback ≤ 4 * saved)
        × (4 * saved < 5 * clawback + 5))

-- The same as a test.
abbrev clawback_fits : Bool → ℕ → ℕ → Bool
clawback_fits is_plus log clawback =
    let saved = base_size is_plus * 2 ^ log - proof_size is_plus log in
    if leb (2 ^ log) 2
    then clawback == 0
    else leb (proof_size is_plus log) (base_size is_plus * 2 ^ log)
      && (leb (5 * clawback) (4 * saved) && ltb (4 * saved) (5 * clawback + 5))

clawback_fits_lem :
    (is_plus : Bool) (log clawback : ℕ)
    → clawback_fits is_plus log clawback ≡ true
    → IsClawback is_plus log clawback
clawback_fits_lem is_plus log clawback h = elim (Bool-cases (leb (2 ^ log) 2)) [
  | inl few ↦ inl (leb→le _ _ few, ==→eq clawback 0 (rw few at h))
  | inr many ↦
      let saved = base_size is_plus * 2 ^ log - proof_size is_plus log in
      let tests : (leb (proof_size is_plus log) (base_size is_plus * 2 ^ log)
            && (leb (5 * clawback) (4 * saved) && ltb (4 * saved) (5 * clawback + 5)))
          ≡ true =
        rw many at h in
      let (enough, tests') = split_and _ _ tests in
      let (least, greatest) = split_and _ _ tests' in
      inr (
        ground arith,
        saved,
        omega (arith, leb→le (proof_size is_plus log) (base_size is_plus * 2 ^ log) enough),
        leb→le _ _ least,
        ltb→lt _ _ greatest,
      )
]

abbrev result_fits : Bool → ℕ → Option (ℕ × ℕ) → Bool
result_fits is_plus m none = false
result_fits is_plus m (some (clawback, lr_len)) =
    let log = lr_len - log_commitment_bits in
    leb log_commitment_bits lr_len
    && (leb m (2 ^ log)
        && ((log == 0 || ltb (2 ^ log) (2 * m))
            && (leb lr_len max_lr && clawback_fits is_plus log clawback)))

result_fits_all :
    (is_plus : Bool)
    → all_below 17 (λ m. result_fits is_plus m (calculate_clawback is_plus m)) ≡ true
unfolding all_below calculate_clawback
result_fits_all false = refl
result_fits_all true = refl

zero_or_less : (log x y : ℕ) → (log == 0 || ltb x y) ≡ true → (log ≡ 0) ⊎ (x < y)
zero_or_less zero x y h = inl refl
zero_or_less (suc log) x y h =
    let pos : (suc log == 0) ≡ false = ground arith in inr (ltb→lt x y (rw pos at h))

-- What the result is for `m` outputs.
abbrev pub IsResult : Bool → ℕ → Option (ℕ × ℕ) → Type 0
IsResult is_plus m result =
    (clawback : ℕ) × (log : ℕ) × (result ≡ some (clawback, log + log_commitment_bits))
    × (m ≤ 2 ^ log)
    × ((log ≡ 0) ⊎ (2 ^ log < 2 * m))
    × (log + log_commitment_bits ≤ max_lr)
    × IsClawback is_plus log clawback

result_fits_lem :
    (is_plus : Bool) (m : ℕ) (result : Option (ℕ × ℕ))
    → result_fits is_plus m result ≡ true
    → IsResult is_plus m result
result_fits_lem is_plus m none h = cc
result_fits_lem is_plus m (some (clawback, lr_len)) h =
    let (rounds, h1) = split_and _ _ h in
    let (holds, h2) = split_and _ _ h1 in
    let (tight, h3) = split_and _ _ h2 in
    let (few, right) = split_and _ _ h3 in
    let log = lr_len - log_commitment_bits in
    let whole : lr_len ≡ log + log_commitment_bits =
      omega (arith, leb→le log_commitment_bits lr_len rounds) in
    (
      clawback,
      log,
      ap (λ n. some (clawback, n)) whole,
      leb→le m (2 ^ log) holds,
      zero_or_less log (2 ^ log) (2 * m) tight,
      omega (arith, leb→le lr_len max_lr few),
      clawback_fits_lem is_plus log clawback right,
    )

-- More outputs than a proof can have are treated as that many.
calculate_clawback_capped :
    (is_plus : Bool) (n : ℕ)
    → calculate_clawback is_plus (min n max_commitments) ≡ calculate_clawback is_plus n
unfolding calculate_clawback
calculate_clawback_capped is_plus n =
    let same : min (min n max_commitments) max_commitments ≡ min n max_commitments = omega arith in
    rw same refl

-- For any number of outputs, of which no more count than a proof can have, `calculate_clawback` does
-- not panic. The rounds that it returns are six more than the logarithm of the least power of two
-- that holds the outputs, and no more than a proof can have. The clawback is zero where this power is
-- at most two, and else four fifths, rounded down, of half the size of a proof for two outputs, times
-- this power, less the size of the proof, a subtraction that does not underflow.
pub clawback_lem :
    (is_plus : Bool) (n_outputs : ℕ)
    → IsResult is_plus (min n_outputs max_commitments) (calculate_clawback is_plus n_outputs)
clawback_lem is_plus n_outputs =
    let m = min n_outputs max_commitments in
    let tested =
      all_below-at 17 m (λ k. result_fits is_plus k (calculate_clawback is_plus k))
        (result_fits_all is_plus) (omega arith) in
    subst (IsResult is_plus m) (calculate_clawback_capped is_plus n_outputs)
      (result_fits_lem is_plus m (calculate_clawback is_plus m) tested)
