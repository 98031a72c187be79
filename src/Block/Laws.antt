-- ===== src/Block/Laws.antt =====
-- monero-oxide/src/block.rs: the reader of `Block` against its writer, and `new` with `number`.
use mathlib.Core.Option.{some-injective}
use monero_oxide.Common.{
  ℕ, ◌<◌, leb, ◌≡◌, refl, sym, ap, ◌∙◌, arith, Bool, true, false, some, List, [], ◌∷◌, ◌++◌,
  append_assoc, length, All, All-map, ok, Bool-cases, inl, inr,
}
use monero_oxide.Common.Bytes.{IsBytes}
use monero_oxide.Io.Parses.{
  Parses, IsCanonical, Accepts, Parses-bind, Parses-then, Parses-fail_if, Accepts-bind,
  Accepts-pure, Accepts-fail, Accepts-fail_if,
}
use monero_oxide.Io.Primitives.{IsArray, write_all, read_bytes-Parses, read_bytes-IsCanonical}
use monero_oxide.Io.Vec.{write_raw_vec}
use monero_oxide.Io.Vec.Laws.{read_counted-Parses, read_raw_vec-IsCanonical}
use monero_oxide.Io.VarInt
use monero_oxide.Transaction.Input.{Input, gen, to_key}
use monero_oxide.Transaction.Input.Laws.{u64-Parses, IsU64-IsCanonical}
use monero_oxide.Transaction.Pruning.{not_pruned}
use monero_oxide.Transaction.Pruning.Laws.{not_pruned-IsPruning}
use monero_oxide.Transaction.Whole
use monero_oxide.Transaction.Whole.{Transaction, prefix}
use monero_oxide.Block.{
  Block, max_transactions, is_single_gen, new, first_number, number, write, checked, read,
}
use monero_oxide.Block.Header
use monero_oxide.Block.Header.{BlockHeader}

-- The blocks that a reader returns.
pub record IsValid (reduced : List ℕ → Bool) (block : Block) : Type 0 where
  pub header : Header.Laws.IsValid block.header
  pub miner_transaction : Whole.Laws.IsValid reduced block.miner_transaction
  pub miner : is_single_gen (prefix not_pruned block.miner_transaction).inputs ≡ true
  pub few : length block.transactions < max_transactions
  pub transactions : All (IsArray 32) block.transactions

module _ (reduced : List ℕ → Bool) where
  checked-Parses :
      (block : Block)
      → IsValid reduced block
      → Parses (checked (new block.header block.miner_transaction block.transactions)) [] block
  unfolding checked new
  checked-Parses block v = record { run = λ rest. rw (v.miner, checked) refl }

  read-Parses : (block : Block) → IsValid reduced block → Parses (read reduced) (write block) block
  unfolding read write
  read-Parses block v =
      let within : leb max_transactions (length block.transactions) ≡ false =
        ground (arith, v.few) in
      Parses-bind _ (Header.Laws.read-Parses block.header v.header) (
        Parses-bind _
          (Whole.Laws.read-Parses reduced not_pruned (not_pruned-IsPruning reduced)
            block.miner_transaction v.miner_transaction)
          (Parses-bind _ (u64-Parses (length block.transactions) (omega (arith, v.few))) (
            Parses-fail_if _ within (
              Parses-then _
                (read_counted-Parses _ write_all (length block.transactions) block.transactions refl
                  (All-map (λ h (len, _). read_bytes-Parses 32 h len) block.transactions
                    v.transactions))
                (checked-Parses block v)))))

  checked-Accepts :
      (header : BlockHeader) (tx : Transaction not_pruned) (count : ℕ) (hashes : List (List ℕ))
      → Header.Laws.IsValid header
      → Whole.Laws.IsValid reduced tx
      → leb max_transactions count ≡ false
      → length hashes ≡ count
      → All (IsArray 32) hashes
      → Accepts
          (((Header.write header ++ Whole.write not_pruned tx) ++ VarInt.write count)
            ++ write_raw_vec write_all hashes)
          (IsValid reduced)
          (checked (new header tx hashes))
          write
  unfolding checked new write
  checked-Accepts header tx count hashes hh ht hc len good =
      elim (Bool-cases (is_single_gen (prefix not_pruned tx).inputs)) [
        | inl single ↦
            rw (single, checked)
              (Accepts-pure
                {a = record { header = header; miner_transaction = tx; transactions = hashes }}
                (rw len (simp append_assoc))
                (record {
                  header = hh;
                  miner_transaction = ht;
                  miner = single;
                  few = ground arith;
                  transactions = good;
                }))
        | inr other ↦ rw (other, checked) Accepts-fail
      ]

  read-IsCanonical : IsCanonical (IsValid reduced) (read reduced) write
  unfolding read
  read-IsCanonical = Accepts-bind _ Header.Laws.read-IsCanonical λ header hh.
      Accepts-bind _ (Whole.Laws.read-IsCanonical reduced not_pruned (not_pruned-IsPruning reduced))
        λ tx ht. Accepts-bind _ IsU64-IsCanonical λ count _.
          Accepts-fail_if (leb max_transactions count) _ λ within.
            Accepts-bind _ (read_raw_vec-IsCanonical _ _ (read_bytes-IsCanonical 32) count)
              λ hashes (len, good). checked-Accepts header tx count hashes hh ht within len good

  -- Reading the bytes that were written of a well-formed block, with any bytes behind them, returns
  -- the block and leaves those bytes.
  pub read-write_block :
      (block : Block)
      → IsValid reduced block
      → (rest : List ℕ) → read reduced (write block ++ rest) ≡ ok (block, rest)
  read-write_block block valid = (read-Parses block valid).run

  -- Where the reader accepts bytes, they begin with what is written of the block that it returns,
  -- the rest is what it leaves, and the block is well-formed.
  pub read_canonical_block :
      (src : List ℕ) (block : Block) (rest : List ℕ)
      → IsBytes src
      → read reduced src ≡ ok (block, rest)
      → (src ≡ write block ++ rest) × IsValid reduced block
  read_canonical_block = read-IsCanonical.run

single_gen : (inputs : List Input) → is_single_gen inputs ≡ true → (n : ℕ) × (inputs ≡ gen n ∷ [])
single_gen [] h = cc
single_gen (gen height ∷ []) h = (height, refl)
single_gen (gen height ∷ input ∷ inputs) h = cc
single_gen (to_key amount key_offsets key_image ∷ inputs) h = cc

-- A block that `new` makes holds what it was given, and its number is the height that the one input
-- of the miner's transaction names, so that `number` does not panic on it.
pub new-number :
    (header : BlockHeader) (tx : Transaction not_pruned) (hashes : List (List ℕ)) (block : Block)
    → new header tx hashes ≡ some block
    → (n : ℕ) × (number block ≡ some n)
      × ((prefix not_pruned tx).inputs ≡ gen n ∷ [])
      × (block ≡ record { header = header; miner_transaction = tx; transactions = hashes })
unfolding new number
new-number header tx hashes block h =
    elim (Bool-cases (is_single_gen (prefix not_pruned tx).inputs)) [
      | inl single ↦
          let (n, inputs) = single_gen (prefix not_pruned tx).inputs single in
          let made : Block = record {
            header = header;
            miner_transaction = tx;
            transactions = hashes;
          } in
          let same : made ≡ block = some-injective made block (rw single at h) in
          (n, ap number (sym same) ∙ ap first_number inputs, inputs, sym same)
      | inr other ↦ cc (rw other at h)
    ]
