-- ===== src/Merkle/Pairs.antt =====
-- monero-oxide/src/merkle.rs: the loop over `i` that pairs leaves off in place.
use monero_oxide.Common.{
  ℕ, zero, suc, ◌+◌, ◌*◌, ◌≡◌, refl, ap, sym, ◌∙◌, arith, Option, none, some, List, [], ◌∷◌, ◌++◌,
  append_assoc, length, length-append, append-nil, length-take, length-drop, take-append-drop,
  get_elem?, set, take, take-append, drop,
}
use monero_oxide.Merkle.{pair, write_branch, pair_off}

-- The hashes of each two leaves.
unfoldable pub pair_all : (List ℕ → List ℕ) → List (List ℕ) → List (List ℕ)
pair_all keccak256 [] = []
pair_all keccak256 (leaf ∷ []) = leaf ∷ []
pair_all keccak256 (left ∷ right ∷ leaves) = pair keccak256 left right ∷ pair_all keccak256 leaves

-- Indices behind a prefix.
module _ {ℓ} {A : Type ℓ} where
  get_elem?-append :
      (xs ys : List A) (i j : ℕ) → j ≡ length xs + i → get_elem? (xs ++ ys) j ≡ get_elem? ys i
  get_elem?-append [] ys i j h = ap (get_elem? ys) (omega (arith, h))
  get_elem?-append (x ∷ xs) ys i zero h = absurd (omega (arith, h))
  get_elem?-append (x ∷ xs) ys i (suc j) h = get_elem?-append xs ys i j (omega (arith, h))

  set-append : (xs ys : List A) (v : A) → set (xs ++ ys) (length xs) v ≡ xs ++ set ys 0 v
  set-append [] ys v = refl
  set-append (x ∷ xs) ys v = ap (λ (t : List A). x ∷ t) (set-append xs ys v)

  -- What is left of the used leaves and the next two, once the first of them is overwritten.
  used : List A → A → A → List A
  used [] a b = b ∷ []
  used (x ∷ xs) a b = xs ++ (a ∷ b ∷ [])

  set-used :
      (xs : List A) (a b : A) (rest : List A) (v : A)
      → set (xs ++ (a ∷ b ∷ rest)) 0 v ≡ v ∷ (used xs a b ++ rest)
  unfolding used
  set-used [] a b rest v = refl
  set-used (x ∷ xs) a b rest v =
      ap (λ (t : List A). v ∷ t) (sym (append_assoc xs (a ∷ b ∷ []) rest))

  length-used : (xs : List A) (a b : A) → length (used xs a b) ≡ suc (length xs)
  unfolding used
  length-used [] a b = refl
  length-used (x ∷ xs) a b = omega (arith, length-append xs (a ∷ b ∷ []))

module _ (keccak256 : List ℕ → List ℕ) where
  pair_off_step :
      (rounds start i : ℕ) (leaves : List (List ℕ)) {a b : List ℕ}
      → get_elem? leaves (start + 2 * i) ≡ some a
      → get_elem? leaves (start + 2 * i + 1) ≡ some b
      → pair_off keccak256 (suc rounds) start i leaves
        ≡ pair_off keccak256 rounds start (suc i) (set leaves (start + i) (pair keccak256 a b))
  unfolding pair_off
  pair_off_step rounds start i leaves {a} {b} first second =
      ap
        (λ l.
          next (write_branch keccak256 l (get_elem? leaves (start + 2 * i + 1)) (start + i) leaves))
        first
      ∙ ap (λ r. next (write_branch keccak256 (some a) r (start + i) leaves)) second
    where
      next : Option (List (List ℕ)) → Option (List (List ℕ))
      next o = elim o [
        | none ↦ none
        | some leaves' ↦ pair_off keccak256 rounds start (suc i) leaves'
      ]

  -- A round writes the branch before the used leaves, of which it makes one more.
  pair_off_round :
      (rounds start i : ℕ) (done gap leaves : List (List ℕ)) (a b : List ℕ)
      → length done ≡ start + i
      → length gap ≡ i
      → pair_off keccak256 (suc rounds) start i (done ++ (gap ++ (a ∷ b ∷ leaves)))
        ≡ pair_off keccak256 rounds start
            (suc i)
            ((done ++ (pair keccak256 a b ∷ [])) ++ (used gap a b ++ leaves))
  unfolding pair_off
  pair_off_round rounds start i done gap leaves a b hd hg =
      let first : get_elem? (done ++ (gap ++ (a ∷ b ∷ leaves))) (start + 2 * i) ≡ some a =
        get_elem?-append done _ i _ (omega arith) ∙ get_elem?-append gap _ 0 i (omega arith) in
      let second : get_elem? (done ++ (gap ++ (a ∷ b ∷ leaves))) (start + 2 * i + 1) ≡ some b =
        get_elem?-append done _ (i + 1) _ (omega arith)
        ∙ get_elem?-append gap _ 1 (i + 1) (omega arith) in
      let written =
        set-append done (gap ++ (a ∷ b ∷ leaves)) (pair keccak256 a b)
        ∙ ap (λ t. done ++ t) (set-used gap a b leaves (pair keccak256 a b)) in
      let at_done : set (done ++ (gap ++ (a ∷ b ∷ leaves))) (start + i) (pair keccak256 a b)
          ≡ (done ++ (pair keccak256 a b ∷ [])) ++ (used gap a b ++ leaves) =
        rw (← hd)
          (written ∙ sym (append_assoc done (pair keccak256 a b ∷ []) (used gap a b ++ leaves))) in
      pair_off_step rounds start i _ first second
      ∙ ap (pair_off keccak256 rounds start (suc i)) at_done

  -- The leaves `done` stand before those used up, which are as many as the rounds so far.
  pair_off_lem :
      (rounds start i : ℕ) (done gap leaves : List (List ℕ))
      → length done ≡ start + i
      → length gap ≡ i
      → length leaves ≡ 2 * rounds
      → (gap' : List (List ℕ)) × (pair_off keccak256 rounds start i (done ++ (gap ++ leaves))
          ≡ some ((done ++ pair_all keccak256 leaves) ++ gap'))
  unfolding pair_off pair_all
  pair_off_lem zero start i done gap [] hd hg hl = (gap, ap some (simp append-nil))
  pair_off_lem zero start i done gap (x ∷ leaves) hd hg hl = absurd (omega (arith, hl))
  pair_off_lem (suc rounds) start i done gap [] hd hg hl = absurd (omega (arith, hl))
  pair_off_lem (suc rounds) start i done gap (x ∷ []) hd hg hl = absurd (omega (arith, hl))
  pair_off_lem (suc rounds) start i done gap (a ∷ b ∷ leaves) hd hg hl =
      let done' = done ++ (pair keccak256 a b ∷ []) in
      let longer : length done' ≡ start + suc i =
        omega (arith, length-append done (pair keccak256 a b ∷ []), hd) in
      let more : length (used gap a b) ≡ suc i = length-used gap a b ∙ ap suc hg in
      let (gap', e) =
        pair_off_lem rounds start (suc i) done' (used gap a b) leaves longer more
          (omega (arith, hl)) in
      (
        gap',
        pair_off_round rounds start i done gap leaves a b hd hg
            ∙ e
            ∙ ap (λ t. some (t ++ gap'))
                (append_assoc done (pair keccak256 a b ∷ []) (pair_all keccak256 leaves)),
      )

  pub length-pair_all :
      (n : ℕ) (leaves : List (List ℕ))
      → length leaves ≡ 2 * n
      → length (pair_all keccak256 leaves) ≡ n
  unfolding pair_all
  length-pair_all zero [] h = refl
  length-pair_all zero (x ∷ leaves) h = absurd (omega (arith, h))
  length-pair_all (suc n) [] h = absurd (omega (arith, h))
  length-pair_all (suc n) (x ∷ []) h = absurd (omega (arith, h))
  length-pair_all (suc n) (a ∷ b ∷ leaves) h = ap suc (length-pair_all n leaves (omega (arith, h)))

  -- What stays once the list is cut off behind the branches.
  pub pair_off-take :
      (overage start : ℕ) (leaves : List (List ℕ))
      → length leaves ≡ start + 2 * overage
      → (leaves' : List (List ℕ)) × (pair_off keccak256 overage start 0 leaves ≡ some leaves')
        × (take (start + overage) leaves'
            ≡ take start leaves ++ pair_all keccak256 (drop start leaves))
  pair_off-take overage start leaves h =
      let lt : length (take start leaves) ≡ start = omega (arith, length-take start leaves, h) in
      let ld : length (drop start leaves) ≡ 2 * overage =
        omega (arith, length-drop start leaves, h) in
      let branches = pair_all keccak256 (drop start leaves) in
      let (gap', e) =
        pair_off_lem overage start 0 (take start leaves) [] (drop start leaves) (omega (arith, lt))
          refl ld in
      let size : length (take start leaves ++ branches) ≡ start + overage = omega (
        arith,
        length-append (take start leaves) branches,
        lt,
        length-pair_all overage (drop start leaves) ld,
      ) in
      (
        (take start leaves ++ branches) ++ gap',
        rw (← e) (ap (pair_off keccak256 overage start 0) (sym (take-append-drop start leaves))),
        rw (← size) (take-append (take start leaves ++ branches) gap'),
      )
