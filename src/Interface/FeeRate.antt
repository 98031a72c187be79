-- ===== src/Interface/FeeRate.antt =====
-- monero-oxide/interface/src/provides_fee_rates.rs: fee rates and the fees by them.
pub mod Laws
use monero_oxide.Common.{
  ℕ, ◌+◌, ◌*◌, ◌/◌, ◌%◌, ◌^◌, ◌==◌, ltb, Bool, ◌||◌, Option, none, some, List, ◌++◌, if◌then◌else◌,
  Result, ok, err,
}
use monero_oxide.Common.Bytes.{to_le_bytes}
use monero_oxide.Io.Reader.{Reader, pure, fail, ◌>>=◌, read_u64}

pub data FeePriority : Type 0 where
  unimportant normal elevated priority : FeePriority
  custom : ℕ → FeePriority

unfoldable pub to_u32 : FeePriority → ℕ
to_u32 unimportant = 1
to_u32 normal = 2
to_u32 elevated = 3
to_u32 priority = 4
to_u32 (custom number) = number

pub record Rate : Type 0 where
  pub per_weight : ℕ
  pub mask : ℕ

-- `FeeRate::new`
unfoldable pub new : ℕ → ℕ → Option Rate
new per_weight mask =
    if per_weight == 0 || mask == 0
    then none
    else some (record { per_weight = per_weight; mask = mask })

unfoldable pub write : Rate → List ℕ
write rate = to_le_bytes 8 rate.per_weight ++ to_le_bytes 8 rate.mask

-- `.ok_or_else(|| ...)`
unfoldable pub checked : Option Rate → Reader Rate
checked none = fail "fee rate was invalid"
checked (some rate) = pure rate

unfoldable pub read : Reader Rate
unfolding checked
read = do per_weight ← read_u64; mask ← read_u64; checked (new per_weight mask)

-- `div_ceil`
abbrev pub div_ceil : ℕ → ℕ → ℕ
div_ceil n d = if n % d == 0 then n / d else n / d + 1

-- The products are those of `u128`.
unfoldable pub calculate_fee_from_weight : Rate → ℕ → ℕ
calculate_fee_from_weight rate weight =
    let fee = rate.per_weight * weight % 2 ^ 128 in div_ceil fee rate.mask * rate.mask % 2 ^ 128

-- `usize::try_from(fee / self.per_weight).ok()`
unfoldable pub calculate_weight_from_fee : Rate → ℕ → Option ℕ
calculate_weight_from_fee rate fee =
    let weight = fee / rate.per_weight in if ltb weight (2 ^ 64) then some weight else none

-- `FeeError`, over the errors of the interface.
pub data FeeError (E : Type 0) : Type 0 where
  interface_error : E → FeeError E
  invalid_fee invalid_fee_priority : FeeError E

-- `ProvidesFeeRates::fee_rate`, of what the interface answers.
unfoldable pub fee_rate : {E : Type 0} → Result (FeeError E) Rate → ℕ → Result (FeeError E) Rate
fee_rate (err e) max_per_weight = err e
fee_rate (ok rate) max_per_weight =
    if ltb max_per_weight rate.per_weight then err invalid_fee else ok rate
