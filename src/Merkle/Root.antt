-- ===== src/Merkle/Root.antt =====
-- monero-oxide/src/merkle.rs: the loop over the levels of the tree, and the tree it is set against.
use monero_oxide.Common.{
  ℕ, zero, suc, ◌+◌, ◌-◌, ◌*◌, ◌^◌, ◌<◌, ◌≤◌, ◌==◌, ltb, ◌≡◌, refl, ap, sym, subst, ◌∙◌, arith,
  false, Option, none, some, List, [], ◌∷◌, ◌++◌, length, length-append, length-take, length-drop,
  dec_lt, get_or, take, drop,
}
use monero_oxide.Io.VarInt.{leading_zeros}
use monero_oxide.Io.VarInt.Length.{pow-pos, pow-lt_cancel, leading_zeros_lem}
use monero_oxide.Merkle.{pair, reduce, shrink, next_pow_2, merkle_root}
use monero_oxide.Merkle.Pairs.{pair_all, length-pair_all, pair_off-take}

-- The root of a full tree of the height given: the hash of the roots of its two halves.
unfoldable pub root : (List ℕ → List ℕ) → ℕ → List (List ℕ) → List ℕ
root keccak256 zero leaves = get_or leaves 0 []
root keccak256 (suc height) leaves =
    pair keccak256 (root keccak256 height (take (2 ^ height) leaves))
      (root keccak256 height (drop (2 ^ height) leaves))

-- The leaves after the first `start` are paired off.
abbrev pub pair_end : (List ℕ → List ℕ) → ℕ → List (List ℕ) → List (List ℕ)
pair_end keccak256 start leaves = take start leaves ++ pair_all keccak256 (drop start leaves)

module _ (keccak256 : List ℕ → List ℕ) where
  pair_all-take :
      (n : ℕ) (leaves : List (List ℕ))
      → 2 * n ≤ length leaves
      → pair_all keccak256 (take (2 * n) leaves) ≡ take n (pair_all keccak256 leaves)
  unfolding pair_all
  pair_all-take zero leaves h = refl
  pair_all-take (suc n) [] h = absurd (omega (arith, h))
  pair_all-take (suc n) (x ∷ []) h = absurd (omega (arith, h))
  pair_all-take (suc n) (a ∷ b ∷ leaves) h =
      let double : 2 * suc n ≡ suc (suc (2 * n)) = omega arith in
      rw double (ap (λ t. pair keccak256 a b ∷ t) (pair_all-take n leaves (omega (arith, h))))

  pair_all-drop :
      (n : ℕ) (leaves : List (List ℕ))
      → 2 * n ≤ length leaves
      → pair_all keccak256 (drop (2 * n) leaves) ≡ drop n (pair_all keccak256 leaves)
  unfolding pair_all
  pair_all-drop zero leaves h = refl
  pair_all-drop (suc n) [] h = absurd (omega (arith, h))
  pair_all-drop (suc n) (x ∷ []) h = absurd (omega (arith, h))
  pair_all-drop (suc n) (a ∷ b ∷ leaves) h =
      let double : 2 * suc n ≡ suc (suc (2 * n)) = omega arith in
      rw double (pair_all-drop n leaves (omega (arith, h)))

  -- The tree over the hashes of pairs is the tree over the leaves.
  root-pair_all :
      (height : ℕ) (leaves : List (List ℕ))
      → length leaves ≡ 2 ^ suc height
      → root keccak256 height (pair_all keccak256 leaves) ≡ root keccak256 (suc height) leaves
  unfolding root pair_all
  root-pair_all zero [] h = absurd (omega (arith, h))
  root-pair_all zero (a ∷ []) h = absurd (omega (arith, h))
  root-pair_all zero (a ∷ b ∷ leaves) h = refl
  root-pair_all (suc height) leaves h =
      let half : 2 ^ suc height ≡ 2 * 2 ^ height = omega arith in
      let enough : 2 * 2 ^ height ≤ length leaves = omega (arith, h) in
      let left =
        root-pair_all height (take (2 ^ suc height) leaves)
          (omega (arith, length-take (2 ^ suc height) leaves, h)) in
      let right =
        root-pair_all height (drop (2 ^ suc height) leaves)
          (omega (arith, length-drop (2 ^ suc height) leaves, h)) in
      let taken : take (2 ^ height) (pair_all keccak256 leaves)
          ≡ pair_all keccak256 (take (2 ^ suc height) leaves) =
        sym (pair_all-take (2 ^ height) leaves enough)
        ∙ ap (λ n. pair_all keccak256 (take n leaves)) (sym half) in
      let dropped : drop (2 ^ height) (pair_all keccak256 leaves)
          ≡ pair_all keccak256 (drop (2 ^ suc height) leaves) =
        sym (pair_all-drop (2 ^ height) leaves enough)
        ∙ ap (λ n. pair_all keccak256 (drop n leaves)) (sym half) in
      rw (taken, dropped, left, right) refl

  -- A round leaves as many as the power of two.
  shrink_lem :
      (low : ℕ) (leaves : List (List ℕ))
      → low ≤ length leaves
      → length leaves ≤ 2 * low
      → (shrink keccak256 low leaves ≡ some (pair_end keccak256 (2 * low - length leaves) leaves))
        × (length (pair_end keccak256 (2 * low - length leaves) leaves) ≡ low)
  unfolding shrink
  shrink_lem low leaves h h' =
      let overage = length leaves - low in
      let start = 2 * low - length leaves in
      let enough : ltb (length leaves) low ≡ false = ground arith in
      let few : ltb low overage ≡ false = ground arith in
      let same : low - overage ≡ start = omega arith in
      let all : length leaves ≡ start + 2 * overage = omega arith in
      let sum : start + overage ≡ low = omega arith in
      let (leaves', e, cut) = pair_off-take keccak256 overage start leaves all in
      let size : length (drop start leaves) ≡ 2 * overage =
        omega (arith, length-drop start leaves) in
      (
        rw (enough, few, same, e) (ap some (ap (λ n. take n leaves') (sym sum) ∙ cut)),
        omega (
          arith,
          length-append (take start leaves) (pair_all keccak256 (drop start leaves)),
          length-take start leaves,
          length-pair_all keccak256 overage (drop start leaves) size,
        ),
      )

  reduce_step :
      (fuel low_pow_2 low : ℕ) (leaves leaves' : List (List ℕ))
      → 1 < length leaves
      → next_pow_2 low_pow_2 leaves ≡ low
      → shrink keccak256 low leaves ≡ some leaves'
      → reduce keccak256 (suc fuel) low_pow_2 leaves ≡ reduce keccak256 fuel low leaves'
  unfolding reduce
  reduce_step fuel low_pow_2 low leaves leaves' many next e =
      let other : (length leaves == 1) ≡ false = ground arith in
      rw other (ap (λ l. continue l (shrink keccak256 l leaves)) next ∙ ap (continue low) e)
    where
      continue : ℕ → Option (List (List ℕ)) → Option (List ℕ)
      continue l o = elim o [ none ↦ none | some t ↦ reduce keccak256 fuel l t ]

  -- The loop computes the root of a full tree.
  reduce-root :
      (height fuel : ℕ) (leaves : List (List ℕ))
      → length leaves ≡ 2 ^ height
      → height < fuel
      → reduce keccak256 fuel (2 ^ height) leaves ≡ some (root keccak256 height leaves)
  unfolding reduce root
  reduce-root height zero leaves hl hf = absurd (omega (arith, hf))
  reduce-root zero (suc fuel) [] hl hf = absurd (omega (arith, hl))
  reduce-root zero (suc fuel) (x ∷ []) hl hf = refl
  reduce-root zero (suc fuel) (x ∷ y ∷ leaves) hl hf = absurd (omega (arith, hl))
  reduce-root (suc height) (suc fuel) leaves hl hf =
      let low = 2 ^ height in
      let some_leaf : 0 < low = pow-pos height in
      let next : next_pow_2 (2 ^ suc height) leaves ≡ low = ground arith in
      let start : 2 * low - length leaves ≡ 0 = omega arith in
      let (e, size) = shrink_lem low leaves (omega arith) (omega arith) in
      let e' : shrink keccak256 low leaves ≡ some (pair_all keccak256 leaves) =
        e ∙ ap (λ n. some (pair_end keccak256 n leaves)) start in
      let size' : length (pair_all keccak256 leaves) ≡ low =
        ap (λ n. length (pair_end keccak256 n leaves)) (sym start) ∙ size in
      reduce_step fuel (2 ^ suc height) low leaves (pair_all keccak256 leaves) (omega arith) next e'
      ∙ reduce-root height fuel (pair_all keccak256 leaves) size' (omega (arith, hf))
      ∙ ap some (root-pair_all height leaves hl)

lt_pow : (n : ℕ) → n < 2 ^ n
lt_pow zero = omega arith
lt_pow (suc n) = omega (arith, lt_pow n)

module _ (keccak256 : List ℕ → List ℕ) where
  -- More leaves than a power of two, and fewer than the next.
  reduce-between :
      (k fuel : ℕ) (leaves : List (List ℕ))
      → 1 < length leaves
      → 2 ^ k < length leaves
      → length leaves < 2 ^ suc k
      → k < fuel
      → reduce keccak256 (suc fuel) (2 ^ k) leaves
        ≡ some (root keccak256 k (pair_end keccak256 (2 ^ suc k - length leaves) leaves))
  reduce-between k fuel leaves many lo hi enough =
      let low = 2 ^ k in
      let next : next_pow_2 low leaves ≡ low = ground arith in
      let double : 2 ^ suc k ≡ 2 * low = omega arith in
      let (e, size) = shrink_lem keccak256 low leaves (omega arith) (omega arith) in
      rw double (
        reduce_step keccak256 fuel low low leaves _ many next e
        ∙ reduce-root keccak256 k fuel _ size enough)

  -- As many leaves as a power of two.
  reduce-full :
      (k fuel : ℕ) (leaves : List (List ℕ))
      → length leaves ≡ 2 ^ suc k
      → suc k < fuel
      → reduce keccak256 fuel (2 ^ suc k) leaves
        ≡ some (root keccak256 k (pair_end keccak256 (2 ^ suc k - length leaves) leaves))
  reduce-full k fuel leaves h enough =
      let start : 2 ^ suc k - length leaves ≡ 0 = omega arith in
      rw start (
        reduce-root keccak256 (suc k) fuel leaves h enough
        ∙ ap some (sym (root-pair_all keccak256 k leaves h)))

  two_leaves :
      (k : ℕ) (x y : List ℕ)
      → k < 1
      → pair keccak256 x y ≡ root keccak256 k (pair_end keccak256 (2 ^ suc k - 2) (x ∷ y ∷ []))
  unfolding root pair_all
  two_leaves zero x y h = refl
  two_leaves (suc k) x y h = absurd (omega (arith, h))

  -- Of more than `2 ^ k` leaves and `2 ^ (k + 1)` at most, the last ones are paired off so that
  -- `2 ^ k` are left, and the root is that of the full tree of height `k` over these: the function
  -- returns it, and neither panics nor runs forever, where the number of leaves is a `usize`.
  pub merkle_root_lem :
      (k : ℕ) (leaves : List (List ℕ))
      → 2 ^ k < length leaves
      → length leaves ≤ 2 ^ suc k
      → length leaves < 2 ^ 64
      → merkle_root keccak256 leaves
        ≡ some (some (root keccak256 k (pair_end keccak256 (2 ^ suc k - length leaves) leaves)))
  unfolding merkle_root
  merkle_root_lem k [] lo hi short = absurd (omega (arith, lo))
  merkle_root_lem k (x ∷ []) lo hi short = absurd (omega (arith, lo, pow-pos k))
  merkle_root_lem k (x ∷ y ∷ []) lo hi short =
      ap (λ t. some (some t)) (two_leaves k x y (pow-lt_cancel k 1 (omega (arith, lo))))
  merkle_root_lem k (x ∷ y ∷ z ∷ leaves) lo hi short =
      let all = x ∷ y ∷ z ∷ leaves in
      let (j, e, lo', hi') = leading_zeros_lem 64 (length all) (omega arith) short in
      let j_ge : k < suc j = pow-lt_cancel k (suc j) (omega arith) in
      let j_le : j < suc (suc k) = pow-lt_cancel j (suc (suc k)) (omega (arith, pow-pos k)) in
      let enough = lt_pow k in
      let enough' = lt_pow (suc k) in
      elim (dec_lt k j) [
        | yes lt ↦
            let bit : 64 - leading_zeros 64 (length all) - 1 ≡ suc k = omega (arith, lt) in
            let j_is : j ≡ suc k = omega (arith, lt) in
            let full : length all ≡ 2 ^ suc k =
              omega (arith, hi, subst (λ n. 2 ^ n ≤ length all) j_is lo') in
            ap (λ p. some (reduce keccak256 (length all) (2 ^ p) all)) bit
            ∙ ap some (reduce-full k (length all) all full (omega (arith, full, enough')))
        | no ge ↦
            let bit : 64 - leading_zeros 64 (length all) - 1 ≡ k = omega (arith, ge) in
            let j_is : j ≡ k = omega (arith, ge) in
            let few = subst (λ n. length all < 2 ^ suc n) j_is hi' in
            ap (λ p. some (reduce keccak256 (length all) (2 ^ p) all)) bit
            ∙ ap some (
                reduce-between k (suc (suc (length leaves))) all (omega arith) lo few
                  (omega (arith, lo, enough)))
      ]

-- Where there is a leaf, and the number of leaves is a `usize`, there is a root.
pub merkle_root_total :
    (keccak256 : List ℕ → List ℕ) (leaf : List ℕ) (leaves : List (List ℕ))
    → length (leaf ∷ leaves) < 2 ^ 64
    → (root : List ℕ) × (merkle_root keccak256 (leaf ∷ leaves) ≡ some (some root))
unfolding merkle_root
merkle_root_total keccak256 leaf [] short = (leaf, refl)
merkle_root_total keccak256 leaf (second ∷ leaves) short =
    let (k, _, lo, hi) =
      leading_zeros_lem 64 (length (second ∷ leaves)) (omega arith) (omega (arith, short)) in
    (
      _,
      merkle_root_lem keccak256 k (leaf ∷ second ∷ leaves) (omega (arith, lo)) (omega (arith, hi))
          short,
    )
