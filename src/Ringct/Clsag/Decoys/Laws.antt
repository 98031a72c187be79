-- ===== src/Ringct/Clsag/Decoys/Laws.antt =====
-- monero-oxide/ringct/clsag/src/decoys.rs: what `Decoys::new` checks of a ring, for the functions
-- that rely on it.
use monero_oxide.Common.{
  ℕ, zero, suc, ◌+◌, ◌-◌, ◌/◌, ◌%◌, ◌^◌, ◌<◌, ◌≤◌, ◌≡◌, refl, sym, ◌∙◌, ap, arith, Bool, true,
  false, ◌&&◌, ltb, ◌==◌, ltb→lt, lt→ltb, ==→eq, Bool-cases, inl, inr, some, List, [], ◌∷◌, length,
  get_elem?, get_elem?-All, All, if◌then◌else◌,
}
use monero_oxide.Transaction.Input.Laws.{IsU64}
use monero_oxide.Ringct.Clsag.Decoys.{
  Subtle, Decoys, offsets_representable, ring_len_does_not_exceed_max, new, select_members,
  signer_ring_members_of, positions_from, positions_of, max_ring_size, positions,
  signer_ring_members,
}

-- What the documentation of `subtle` says of its traits.
pub record IsSubtle {ℓ} {Point : Type ℓ} (subtle : Subtle Point) : Type ℓ where
  pub eq : (a b : ℕ) → subtle.ct_eq a b ≡ (a == b)
  pub gt : (a b : ℕ) → subtle.ct_gt a b ≡ ltb b a
  pub lt : (a b : ℕ) → subtle.ct_lt a b ≡ ltb a b
  pub select :
      (a b : Point) (choice : Bool)
      → subtle.conditional_select a b choice ≡ (if choice then b else a)

-- Each position is beyond the one before it.
abbrev pub Increasing : ℕ → List ℕ → Type 0
Increasing prior [] = Unit {0}
Increasing prior (position ∷ positions) = (prior < position) × Increasing position positions

abbrev pub StrictlyIncreasing : List ℕ → Type 0
StrictlyIncreasing [] = Unit {0}
StrictlyIncreasing (position ∷ positions) = Increasing position positions

pub &&-true : (a b : Bool) → (a && b) ≡ true → (a ≡ true) × (b ≡ true)
&&-true true b h = (refl, h)
&&-true false b h = cc

trivially {ℓ} : {A : Type ℓ} (xs : List A) → All (λ _. Unit {0}) xs
trivially [] = tt
trivially (x ∷ xs) = (tt, trivially xs)

some-injective {ℓ} : {A : Type ℓ} {a b : A} → some a ≡ some b → a ≡ b
some-injective h = cc

module _ {ℓ} {Point : Type ℓ} (subtle : Subtle Point) (laws : IsSubtle subtle) where
  positions_from_lem :
      (sum : ℕ) (offsets : List ℕ)
      → IsU64 sum
      → All IsU64 offsets
      → offsets_representable subtle false sum offsets ≡ true
      → (ps : List ℕ) × (positions_from sum offsets ≡ some ps)
        × Increasing sum ps
        × All IsU64 ps
        × (length ps ≡ length offsets)
  unfolding offsets_representable positions_from
  positions_from_lem sum [] hs ho h = ([], refl, tt, tt, refl)
  positions_from_lem sum (offset ∷ offsets) hs (hoff, ho) h =
      let (above, more) = &&-true (subtle.ct_gt ((sum + offset) % 2 ^ 64) sum) _ h in
      let larger : sum < (sum + offset) % 2 ^ 64 =
        ltb→lt _ _ (sym (laws.gt ((sum + offset) % 2 ^ 64) sum) ∙ above) in
      let whole : (sum + offset) % 2 ^ 64 ≡ sum + offset = omega arith in
      let fits : sum + offset < 2 ^ 64 = omega arith in
      let (ps, run, rising, small, len) =
        positions_from_lem (sum + offset) offsets fits ho (rw whole at more) in
      (
        (sum + offset) ∷ ps,
        rw (lt→ltb (sum + offset) (2 ^ 64) fits, run) refl,
        (omega arith, rising),
        (fits, small),
        omega arith,
      )

  positions_lem :
      (offsets : List ℕ) (n : ℕ)
      → length offsets ≡ n
      → 0 < n
      → All IsU64 offsets
      → offsets_representable subtle true 0 offsets ≡ true
      → (ps : List ℕ) × (positions_of offsets ≡ some ps)
        × StrictlyIncreasing ps
        × All IsU64 ps
        × (length ps ≡ n)
  unfolding positions_of offsets_representable
  positions_lem [] n len some_offset ho h = absurd (omega arith)
  positions_lem (offset ∷ offsets) n len some_offset (hoff, ho) h =
      let first : (0 + offset) % 2 ^ 64 ≡ offset = omega arith in
      let (ps, run, rising, small, size) =
        positions_from_lem offset offsets hoff ho (rw first at h) in
      (offset ∷ ps, rw (run, positions_of) refl, rising, (hoff, small), omega arith)

  select_after :
      (signer_index i : ℕ) (result : Point × Point) (ring : List (Point × Point))
      → signer_index < i
      → select_members subtle signer_index i result ring ≡ result
  unfolding select_members
  select_after signer_index i result [] h = refl
  select_after signer_index i (key, commitment) ((key', commitment') ∷ ring) h =
      let past : subtle.ct_eq i signer_index ≡ false = laws.eq i signer_index ∙ ground arith in
      rw (past, laws.select key key' false, laws.select commitment commitment' false)
        (select_after signer_index (suc i) (key, commitment) ring (omega arith))

  select_at :
      (signer_index i : ℕ) (result member : Point × Point) (ring : List (Point × Point))
      → i ≤ signer_index
      → get_elem? ring (signer_index - i) ≡ some member
      → select_members subtle signer_index i result ring ≡ member
  unfolding select_members
  select_at signer_index i result member [] h at = cc
  select_at signer_index i (key, commitment) member ((key', commitment') ∷ ring) h at =
      elim (Bool-cases (i == signer_index)) [
        | inl here ↦
            let hit : subtle.ct_eq i signer_index ≡ true = laws.eq i signer_index ∙ here in
            let zeroth : signer_index - i ≡ 0 = ground arith in
            let found : (key', commitment') ≡ member = some-injective (rw zeroth at at) in
            rw (hit, laws.select key key' true, laws.select commitment commitment' true)
              (select_after signer_index (suc i) (key', commitment') ring (ground arith) ∙ found)
        | inr later ↦
            let miss : subtle.ct_eq i signer_index ≡ false = laws.eq i signer_index ∙ later in
            let before : suc i ≤ signer_index = ground arith in
            let next : signer_index - i ≡ suc (signer_index - suc i) = omega arith in
            rw (miss, laws.select key key' false, laws.select commitment commitment' false)
              (select_at signer_index (suc i) (key, commitment) member ring before (rw next at at))
      ]

  signer_ring_members_lem :
      (signer_index : ℕ) (ring : List (Point × Point))
      → signer_index < length ring
      → signer_ring_members_of subtle signer_index ring ≡ get_elem? ring signer_index
  unfolding signer_ring_members_of
  signer_ring_members_lem signer_index [] h = absurd (omega arith)
  signer_ring_members_lem zero (member ∷ ring) h =
      ap some (select_after zero 1 member ring (omega arith))
  signer_ring_members_lem (suc i) (member ∷ ring) h =
      let (found, at, _) = get_elem?-All (λ _. Unit {0}) ring i (omega arith) (trivially ring) in
      let same : suc i - 1 ≡ i = omega arith in
      rw at (ap some (select_at (suc i) 1 member found ring (omega arith) (rw same at)))

  -- What `new` has checked of its arguments.
  pub checked :
      (offsets : List ℕ) (signer_index : ℕ) (ring : List (Point × Point)) (decoys : Decoys Point)
      → new subtle offsets signer_index ring ≡ some decoys
      → (decoys ≡ record { offsets = offsets; signer_index = signer_index; ring = ring })
        × (length ring ≤ max_ring_size)
        × (signer_index < length ring)
        × (length offsets ≡ length ring)
        × (offsets_representable subtle true 0 offsets ≡ true)
  unfolding new
  checked offsets signer_index ring decoys h = elim (Bool-cases test) [
    | inl passed ↦
        let (short, rest) = &&-true (ring_len_does_not_exceed_max subtle (length ring)) _ passed in
        let (inside, rest') = &&-true (subtle.ct_lt signer_index (length ring % 2 ^ 8)) _ rest in
        let (aligned, representable) =
          &&-true (subtle.ct_eq (length offsets) (length ring)) _ rest' in
        let (high, _) = &&-true (subtle.ct_eq (length ring / 2 ^ 8) 0) _ short in
        let few : length ring / 256 ≡ 0 =
          ==→eq _ _ (sym (laws.eq (length ring / 2 ^ 8) 0) ∙ high) in
        let low : signer_index < length ring % 256 =
          ltb→lt _ _ (sym (laws.lt signer_index (length ring % 2 ^ 8)) ∙ inside) in
        (
          some-injective (sym (rw passed at h)),
          omega arith,
          omega arith,
          ==→eq _ _ (sym (laws.eq (length offsets) (length ring)) ∙ aligned),
          representable,
        )
    | inr failed ↦ let never = rw failed at h in cc
  ]
    where
      test : Bool
      test =
          ring_len_does_not_exceed_max subtle (length ring)
          && (subtle.ct_lt signer_index (length ring % 2 ^ 8)
              && (subtle.ct_eq (length offsets) (length ring)
                  && offsets_representable subtle true 0 offsets))

  -- Decoys that `new` returns for offsets that are `u64`s hold its arguments, and have at most
  -- `MAX_RING_SIZE` members and a signer among them; `positions` returns, without an overflow, one
  -- position for each member, a `u64`, each beyond the one before it, and `signer_ring_members`
  -- returns the signer's member.
  pub new_decoys_lem :
      (offsets : List ℕ) (signer_index : ℕ) (ring : List (Point × Point)) (decoys : Decoys Point)
      → All IsU64 offsets
      → new subtle offsets signer_index ring ≡ some decoys
      → (decoys ≡ record { offsets = offsets; signer_index = signer_index; ring = ring })
        × (length ring ≤ max_ring_size)
        × (signer_index < length ring)
        × ((ps : List ℕ) × (positions decoys ≡ some ps)
            × StrictlyIncreasing ps
            × All IsU64 ps
            × (length ps ≡ length ring))
        × (signer_ring_members subtle decoys ≡ get_elem? ring signer_index)
  new_decoys_lem offsets signer_index ring decoys small h =
      let (made, few, inside, aligned, representable) =
        checked offsets signer_index ring decoys h in
      rw made (
        refl,
        few,
        inside,
        positions_lem offsets (length ring) aligned (omega arith) small representable,
        signer_ring_members_lem signer_index ring inside,
      )
