-- ===== src/Tests/Values.antt =====
-- A RingCT transaction of the current type, a miner's transaction, and a block.
use monero_oxide.Common.{
  ℕ, ltb, ◌≡◌, ◌&&◌, zero, suc, refl, arith, Bool, true, none, some, List, [], ◌∷◌, replicate,
}
use monero_oxide.Common.Bytes.{IsBytes}
use monero_oxide.Ed25519.Laws.{IsPoint, IsScalar}
use monero_oxide.Ringct.Bulletproof.{Bulletproof}
use monero_oxide.Ringct.RctType
use monero_oxide.Ringct.RctType.{RctType}
use monero_oxide.Ringct.Base
use monero_oxide.Ringct.Prunable
use monero_oxide.Ringct.Prunable.{RctPrunable}
use monero_oxide.Ringct.Proofs
use monero_oxide.Ringct.Proofs.{RctProofs}
use monero_oxide.Transaction.Input.{gen, to_key}
use monero_oxide.Transaction.Timelock.{unlocked}
use monero_oxide.Transaction.Prefix.{TransactionPrefix}
use monero_oxide.Transaction.Prefix
use monero_oxide.Transaction.Pruning.{not_pruned}
use monero_oxide.Transaction.Whole
use monero_oxide.Transaction.Whole.{Transaction, v1, v2, from}
use monero_oxide.Block
use monero_oxide.Block.{Block}
use monero_oxide.Block.Header
use monero_oxide.Block.Header.{BlockHeader}

-- Every scalar is taken for a reduced one.
abbrev pub any_scalar : List ℕ → Bool
any_scalar bytes = true

abbrev pub zeros : List ℕ
zeros = replicate 32 0

replicate-IsBytes : (n : ℕ) → IsBytes (replicate n 0)
replicate-IsBytes zero = tt
replicate-IsBytes (suc n) = (omega arith, replicate-IsBytes n)

pub zeros-IsPoint : IsPoint zeros
zeros-IsPoint = (refl, replicate-IsBytes 32)

pub zeros-IsScalar : IsScalar any_scalar zeros
zeros-IsScalar = (zeros-IsPoint, refl)

abbrev pub rct_prefix : TransactionPrefix
rct_prefix = record {
  additional_timelock = unlocked;
  inputs = to_key none (300 ∷ []) zeros ∷ [];
  outputs = record { amount = none; key = zeros; view_tag = some 7 } ∷ [];
  extra = 1 ∷ 2 ∷ [];
}

abbrev pub rct_proofs : RctProofs
rct_proofs = record {
  base = record {
    fee = 1000;
    pseudo_outs = [];
    encrypted_amounts = RctType.compact (replicate 8 0) ∷ [];
    commitments = zeros ∷ [];
  };
  prunable =
      RctPrunable.clsag (record { d = zeros; s = zeros ∷ []; c1 = zeros } ∷ []) (zeros ∷ []) (
        Bulletproof.plus (record {
          a = zeros;
          wip = record {
            l = [];
            r = [];
            a = zeros;
            b = zeros;
            r_answer = zeros;
            s_answer = zeros;
            delta_answer = zeros;
          };
        }));
}

abbrev pub rct_tx : Transaction not_pruned
rct_tx = v2 rct_prefix (some rct_proofs)

abbrev pub miner_prefix : TransactionPrefix
miner_prefix = record {
  additional_timelock = unlocked;
  inputs = gen 5 ∷ [];
  outputs = [];
  extra = [];
}

abbrev pub miner_tx : Transaction not_pruned
miner_tx = v2 miner_prefix none

abbrev pub header : BlockHeader
header = record {
  hardfork_version = 16;
  hardfork_signal = 16;
  timestamp = 0;
  previous = zeros;
  nonce = 9;
}

abbrev pub block : Block
block = record { header = header; miner_transaction = miner_tx; transactions = zeros ∷ [] }

pub rct_prefix-IsValid : Prefix.Laws.IsValid 2 rct_prefix
unfolding Prefix.is_miner_tx
rct_prefix-IsValid = record {
  timelock = tt;
  has_inputs = refl;
  few_inputs = omega arith;
  inputs = ((tt, omega arith, (omega arith, tt), zeros-IsPoint), tt);
  short_outputs = omega arith;
  few_outputs = refl;
  outputs = (record { amount = tt; key = zeros-IsPoint; view_tag = omega arith }, tt);
  short_extra = omega arith;
  few_extra = refl;
  extra = (omega arith, (omega arith, tt));
}

pub miner_prefix-IsValid : Prefix.Laws.IsValid 2 miner_prefix
unfolding Prefix.is_miner_tx
miner_prefix-IsValid = record {
  timelock = tt;
  has_inputs = refl;
  few_inputs = omega arith;
  inputs = (omega arith, tt);
  short_outputs = omega arith;
  few_outputs = refl;
  outputs = tt;
  short_extra = omega arith;
  few_extra = refl;
  extra = tt;
}

pub rct_proofs-IsValid : Proofs.Laws.IsValid any_scalar 1 1 1 rct_proofs
unfolding Proofs.rct_type Base.needs_outputs RctType.compact_encrypted_amounts
rct_proofs-IsValid = record {
  base = record {
    has_outputs = refl;
    fee = omega arith;
    pseudo_outs = refl;
    amounts_len = refl;
    amounts = ((refl, replicate-IsBytes 8), tt);
    commitments_len = refl;
    commitments = (zeros-IsPoint, tt);
  };
  prunable =
      Prunable.Laws.is_clsag_plus _ _ _
        (
          refl,
          (
            record {
              responses = refl;
              s = (zeros-IsScalar, tt);
              c1 = zeros-IsScalar;
              d = zeros-IsPoint;
            },
            tt,
          ),
        )
        (refl, (zeros-IsPoint, tt))
        (record {
          a = zeros-IsPoint;
          wip_a = zeros-IsPoint;
          b = zeros-IsPoint;
          r_answer = zeros-IsScalar;
          s_answer = zeros-IsScalar;
          delta_answer = zeros-IsScalar;
          l = (omega arith, tt);
          r = (omega arith, tt);
        });
}

pub rct_tx-IsValid : Whole.Laws.IsValid any_scalar rct_tx
rct_tx-IsValid = (rct_prefix-IsValid, rct_proofs-IsValid)

pub rct_tx-IsValidPruned : Whole.Laws.IsValidPruned any_scalar (from rct_tx)
unfolding from Proofs.rct_type
rct_tx-IsValidPruned = (rct_prefix-IsValid, rct_proofs-IsValid.base)

pub miner_tx-IsValid : Whole.Laws.IsValid any_scalar miner_tx
miner_tx-IsValid = (miner_prefix-IsValid, tt)

pub header-IsValid : Header.Laws.IsValid header
header-IsValid = record {
  hardfork_version = omega arith;
  hardfork_signal = omega arith;
  timestamp = omega arith;
  previous = zeros-IsPoint;
  nonce = omega arith;
}

pub block-IsValid : Block.Laws.IsValid any_scalar block
unfolding Whole.prefix
block-IsValid = record {
  header = header-IsValid;
  miner_transaction = miner_tx-IsValid;
  miner = refl;
  few = omega arith;
  transactions = (zeros-IsPoint, tt);
}

-- A test for bytes, so that longer lists of them need no proof by hand.
unfoldable pub all_bytes : List ℕ → Bool
all_bytes [] = true
all_bytes (b ∷ bytes) = ltb b 256 && all_bytes bytes

pub all_bytes-IsBytes : (bytes : List ℕ) → all_bytes bytes ≡ true → IsBytes bytes
unfolding all_bytes
all_bytes-IsBytes [] h = tt
all_bytes-IsBytes (b ∷ bytes) h = (ground arith, all_bytes-IsBytes bytes (ground arith))
