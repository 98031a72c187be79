-- ===== src/Transaction/Prefix.antt =====
-- monero-oxide/src/transaction.rs: `TransactionPrefix`.
pub mod Laws
use monero_oxide.Common.{
  ℕ, ◌/◌, ◌==◌, ltb, Bool, true, false, not, ◌&&◌, Option, none, some, List, [], ◌∷◌, ◌++◌, length,
  if◌then◌else◌,
}
use monero_oxide.Io.Reader.{Reader, pure, fail_if, ◌>>=◌, ◌>>◌, read_byte, write_byte}
use monero_oxide.Io.VarInt
use monero_oxide.Io.Vec.{read_vec, write_vec}
use monero_oxide.Transaction.Input
use monero_oxide.Transaction.Input.{
  Input, non_miner_size_upper_bound, non_gen_size_lower_bound, is_gen,
}
use monero_oxide.Transaction.Output
use monero_oxide.Transaction.Output.{Output}
use monero_oxide.Transaction.Timelock
use monero_oxide.Transaction.Timelock.{Timelock}

pub record TransactionPrefix : Type 0 where
  pub additional_timelock : Timelock
  pub inputs : List Input
  pub outputs : List Output
  pub extra : List ℕ

abbrev pub miner_inputs : ℕ
miner_inputs = 1

abbrev pub non_miner_inputs_upper_bound : ℕ
non_miner_inputs_upper_bound = non_miner_size_upper_bound / non_gen_size_lower_bound

-- `const_max!(Self::MINER_INPUTS, Self::NON_MINER_INPUTS_UPPER_BOUND.0)`
abbrev pub inputs_upper_bound : ℕ
inputs_upper_bound =
    if ltb non_miner_inputs_upper_bound miner_inputs
    then miner_inputs
    else non_miner_inputs_upper_bound

abbrev pub non_miner_outputs_upper_bound : ℕ
non_miner_outputs_upper_bound = non_miner_size_upper_bound / Output.size_lower_bound

unfoldable pub write : TransactionPrefix → List ℕ
write p =
    Timelock.write p.additional_timelock
    ++ (write_vec Input.write p.inputs
        ++ (write_vec Output.write p.outputs ++ (VarInt.write (length p.extra) ++ p.extra)))

-- `inputs.is_empty()`
abbrev pub is_empty {ℓ} : {A : Type ℓ} → List A → Bool
is_empty [] = true
is_empty (x ∷ xs) = false

-- `matches!(inputs[0], Input::Gen { .. })`, asked of inputs that are not empty.
unfoldable pub is_miner_tx : List Input → Bool
unfolding is_gen
is_miner_tx [] = false
is_miner_tx (input ∷ inputs) = is_gen input

-- No bound on the outputs and the extra of a miner's transaction.
abbrev pub bound_unless_miner : Bool → ℕ → Option ℕ
bound_unless_miner miner bound = if miner then none else some bound

unfoldable pub read : ℕ → Reader TransactionPrefix
unfolding is_miner_tx
read version = do
  additional_timelock ← Timelock.read
  inputs ← read_vec Input.read (some inputs_upper_bound)
  fail_if (is_empty inputs) "transaction had no inputs"
  outputs ←
      read_vec (Output.read (not (is_miner_tx inputs) && version == 2))
        (bound_unless_miner (is_miner_tx inputs) non_miner_outputs_upper_bound)
  extra ← read_vec read_byte (bound_unless_miner (is_miner_tx inputs) non_miner_size_upper_bound)
  pure (record {
    additional_timelock = additional_timelock;
    inputs = inputs;
    outputs = outputs;
    extra = extra;
  })

-- `keccak256` is the hash function of the crate `sha3`.
unfoldable pub hash : (List ℕ → List ℕ) → ℕ → TransactionPrefix → List ℕ
hash keccak256 version p = keccak256 (VarInt.write version ++ write p)
