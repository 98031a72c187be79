-- ===== src/Merkle.antt =====
-- monero-oxide/src/merkle.rs: the root of an unbalanced Merkle tree.
pub mod Pairs
pub mod Root
use mathlib.Core.Option
use monero_oxide.Common.{
  ℕ, zero, suc, ◌+◌, ◌-◌, ◌*◌, ◌/◌, ◌^◌, ◌==◌, ltb, Option, none, some, List, [], ◌∷◌, ◌++◌, length,
  get_elem?, set, take, if◌then◌else◌,
}
use monero_oxide.Io.VarInt.{leading_zeros}

-- If the number of leaves is a power of two, the next smaller one is what to reduce to.
abbrev pub next_pow_2 : ℕ → List (List ℕ) → ℕ
next_pow_2 low_pow_2 leaves = if length leaves == low_pow_2 then low_pow_2 / 2 else low_pow_2

module _ (keccak256 : List ℕ → List ℕ) where
  abbrev pub pair : List ℕ → List ℕ → List ℕ
  pair left right = keccak256 (left ++ right)

  -- `leaves[at] = pair(&leaves[from], &leaves[from + 1])`, where `none` is a panic: the index that
  -- is written is below both that are read.
  abbrev pub write_branch :
      Option (List ℕ) → Option (List ℕ) → ℕ → List (List ℕ) → Option (List (List ℕ))
  write_branch (some left) (some right) at leaves = some (set leaves at (pair left right))
  write_branch (some left) none at leaves = none
  write_branch none right at leaves = none

  -- The loop over `i`, for as many rounds as are given.
  unfoldable pub pair_off : ℕ → ℕ → ℕ → List (List ℕ) → Option (List (List ℕ))
  pair_off zero start i leaves = some leaves
  pair_off (suc rounds) start i leaves =
      elim (write_branch (get_elem? leaves (start + 2 * i)) (get_elem? leaves (start + 2 * i + 1))
        (start + i) leaves) [ none ↦ none | some leaves' ↦ pair_off rounds start (suc i) leaves' ]

  -- A round of the outer loop, from where `low_pow_2` is adjusted. `none` is a panic of a
  -- subtraction or of an index.
  unfoldable pub shrink : ℕ → List (List ℕ) → Option (List (List ℕ))
  unfolding pair_off
  shrink low_pow_2 leaves =
      let overage = length leaves - low_pow_2 in
      if ltb (length leaves) low_pow_2
      then none
      else if ltb low_pow_2 overage
      then none
      else Option.map (take low_pow_2) (pair_off overage (low_pow_2 - overage) 0 leaves)

  -- The loop while there is more than one leaf. `none` is also that the fuel is out.
  unfoldable pub reduce : ℕ → ℕ → List (List ℕ) → Option (List ℕ)
  unfolding shrink
  reduce zero low_pow_2 leaves = none
  reduce (suc fuel) low_pow_2 leaves =
      if length leaves == 1
      then get_elem? leaves 0
      else elim (shrink (next_pow_2 low_pow_2 leaves) leaves) [
        | none ↦ none
        | some leaves' ↦ reduce fuel (next_pow_2 low_pow_2 leaves) leaves'
      ]

  -- `none` is an empty tree, and `some none` a panic. The fuel is the number of leaves, of which
  -- there are fewer after each round.
  unfoldable pub merkle_root : List (List ℕ) → Option (Option (List ℕ))
  unfolding reduce leading_zeros
  merkle_root [] = none
  merkle_root (leaf ∷ []) = some (some leaf)
  merkle_root (left ∷ right ∷ []) = some (some (pair left right))
  merkle_root (a ∷ b ∷ c ∷ leaves) =
      let all = a ∷ b ∷ c ∷ leaves in
      let highest_bit_set = 64 - leading_zeros 64 (length all) in
      some (reduce (length all) (2 ^ (highest_bit_set - 1)) all)
