-- ===== src/Tests/Outputs.antt =====
-- monero-oxide/wallet/src/output.rs at a concrete output, with a subaddress, a payment ID and two
-- parts of arbitrary data, one of them empty.
use monero_oxide.Common.{ℕ, ◌≡◌, refl, arith, Bool, true, some, List, [], ◌∷◌, ◌++◌, ok}
use monero_oxide.Transaction.Timelock.{block}
use monero_oxide.Wallet.Output as O
use monero_oxide.Wallet.Output.{WalletOutput}
use monero_oxide.Wallet.Output.RoundTrip.{total, IsValid, read-write_output}
use monero_oxide.Address.Bytes.{new_index}
use monero_oxide.Tests.Values.{any_scalar, zeros, zeros-IsPoint}
use monero_oxide.Tests.Wallet.{bits, bits-IsEncoding, encrypted_id, encrypted_id-IsValid}

abbrev output : WalletOutput Bool
output = record {
  absolute_id = record { transaction = zeros; index_in_transaction = 1 };
  relative_id = record { index_on_blockchain = 100_000_000 };
  contents = record {
    key = true;
    key_offset = zeros;
    commitment = record { mask = zeros; amount = 1_000_000 };
  };
  metadata = record {
    additional_timelock = block 5;
    subaddress = some (record { account = 0; address = 3 });
    payment_id = some encrypted_id;
    arbitrary_data = (1 ∷ 2 ∷ 3 ∷ []) ∷ [] ∷ [];
  };
}

output-IsValid : IsValid any_scalar output
unfolding new_index total
output-IsValid = record {
  transaction = refl;
  index = omega arith;
  position = omega arith;
  key_offset = (zeros-IsPoint, refl);
  commitment = ((zeros-IsPoint, refl), omega arith);
  metadata = record {
    timelock = (omega arith, omega arith);
    subaddress = (omega arith, omega arith, refl);
    payment_id = encrypted_id-IsValid;
    parts = (omega arith, (omega arith, tt));
    count = omega arith;
    size = omega arith;
  };
}

abbrev nothing_left : List ℕ → List ℕ
nothing_left src = []

read-write_output_example :
    (bytes : List ℕ) × (O.write bits output ≡ some bytes)
    × (O.read bits any_scalar nothing_left (bytes ++ (9 ∷ [])) ≡ ok (output, 9 ∷ []))
read-write_output_example =
    read-write_output bits any_scalar nothing_left output (9 ∷ []) bits-IsEncoding output-IsValid
