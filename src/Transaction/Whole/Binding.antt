-- ===== src/Transaction/Whole/Binding.antt =====
-- monero-oxide/src/transaction.rs: what the hash of a transaction commits to.
use mathlib.Core.List.{List-discrete, append_cancel_left}
use mathlib.Core.Option.{some-injective}
use monero_oxide.Common.{
  ℕ, ◌≡◌, ◌≢◌, refl, sym, ap, subst, ◌∙◌, ◌⊎◌, inl, inr, Bool, arith, ℕ_discrete, Option, none,
  some, List, [], ◌++◌, length, take, drop, take-append, drop-append,
}
use monero_oxide.Io.Parses.{Parses}
use monero_oxide.Io.VarInt
use monero_oxide.Ringct.Base
use monero_oxide.Ringct.Base.{RctBase}
use monero_oxide.Ringct.RctType.{RctType}
use monero_oxide.Ringct.Prunable
use monero_oxide.Ringct.Proofs
use monero_oxide.Ringct.Proofs.{RctProofs}
use monero_oxide.Transaction.Prefix
use monero_oxide.Transaction.Prefix.{TransactionPrefix}
use monero_oxide.Transaction.Pruning.{not_pruned}
use monero_oxide.Transaction.Pruning.Laws.{not_pruned-IsPruning}
use monero_oxide.Transaction.Whole.{
  Transaction, v1, v2, ring_length, version, write, hash, prunable_hash, prunable_hash_of,
  hash_with_prunable_hash_internal,
}
use monero_oxide.Transaction.Whole.Laws.{IsValid, read-Parses}

-- What is written of two values that one reader reads back is the same only if they are.
write-injective {ℓ} :
    {A : Type ℓ} {p : _} {u v : List ℕ} {a b : A} → Parses p u a → Parses p v b → u ≡ v → a ≡ b
write-injective {u} {v} {a} {b} hu hv e =
    let left = hu.run [] in let right = hv.run [] in cc (rw e at left)

same_record : (a b : RctProofs) → a.base ≡ b.base → a.prunable ≡ b.prunable → a ≡ b
same_record a b base_is prunable_is = cc

split-append : (a b c d : List ℕ) → length a ≡ length c → a ++ b ≡ c ++ d → (a ≡ c) × (b ≡ d)
split-append a b c d len e =
    let first : a ≡ c =
      sym (take-append a b)
      ∙ ap (take (length a)) e
      ∙ ap (λ n. take n (c ++ d)) len
      ∙ take-append c d in
    let second : b ≡ d =
      sym (drop-append a b)
      ∙ ap (drop (length a)) e
      ∙ ap (λ n. drop n (c ++ d)) len
      ∙ drop-append c d in
    (first, second)

-- Two different inputs of one hash.
abbrev pub Collision : (List ℕ → List ℕ) → Type 0
Collision keccak256 = (x y : List ℕ) × (x ≢ y) × (keccak256 x ≡ keccak256 y)

module _ (keccak256 : List ℕ → List ℕ) where
  abbrev Unless : Type 0 → Type 0
  Unless P = P ⊎ Collision keccak256

  same_input : (x y : List ℕ) → keccak256 x ≡ keccak256 y → Unless (x ≡ y)
  same_input x y e = elim (List-discrete ℕ_discrete x y) [
    | yes same ↦ inl same
    | no other ↦ inr (x, y, other, e)
  ]

  and_then : {P Q : Type 0} → Unless P → (P → Unless Q) → Unless Q
  and_then (inl h) next = next h
  and_then (inr c) next = inr c

  -- The type and the base of proofs, which may be missing.
  abbrev typed_base : Option RctProofs → Option (RctType × RctBase)
  typed_base none = none
  typed_base (some proofs) = some (Proofs.rct_type proofs, proofs.base)

  module _ (reduced : List ℕ → Bool) (len : (xs : List ℕ) → length (keccak256 xs) ≡ 32) where
    -- The bytes that are hashed for version 2.
    abbrev preimage : TransactionPrefix → Option RctProofs → List ℕ
    preimage p o =
        Prefix.hash keccak256 2 p
        ++ (keccak256 (Base.Laws.write_optional (typed_base o)) ++ prunable_hash_of keccak256 o)

    hash-preimage :
        (p : TransactionPrefix) (o : Option RctProofs)
        → hash keccak256 (v2 p o) ≡ some (keccak256 (preimage p o))
    unfolding hash prunable_hash hash_with_prunable_hash_internal
    hash-preimage p none = refl
    hash-preimage p (some proofs) = refl

    prefix-length : (p : TransactionPrefix) → length (Prefix.hash keccak256 2 p) ≡ 32
    unfolding Prefix.hash
    prefix-length p = len (VarInt.write 2 ++ Prefix.write p)

    same_prefix :
        (p q : TransactionPrefix)
        → Prefix.Laws.IsValid 2 p
        → Prefix.Laws.IsValid 2 q
        → Prefix.hash keccak256 2 p ≡ Prefix.hash keccak256 2 q
        → Unless (p ≡ q)
    unfolding Prefix.hash
    same_prefix p q hp hq e =
        and_then
          (same_input (VarInt.write 2 ++ Prefix.write p) (VarInt.write 2 ++ Prefix.write q) e)
          λ bytes. inl (
            write-injective (Prefix.Laws.read-Parses 2 p hp) (Prefix.Laws.read-Parses 2 q hq)
              (append_cancel_left (VarInt.write 2) (Prefix.write p) (Prefix.write q) bytes))

    module _ (ring inputs outputs : ℕ) where
      typed_base-IsValid :
          (o : Option RctProofs)
          → Proofs.Laws.IsValidOptional reduced ring inputs outputs o
          → Base.Laws.IsValidOptional inputs outputs (typed_base o)
      typed_base-IsValid none h = tt
      typed_base-IsValid (some proofs) h = h.base

      same_base :
          (o o' : Option RctProofs)
          → Proofs.Laws.IsValidOptional reduced ring inputs outputs o
          → Proofs.Laws.IsValidOptional reduced ring inputs outputs o'
          → keccak256 (Base.Laws.write_optional (typed_base o))
            ≡ keccak256 (Base.Laws.write_optional (typed_base o'))
          → Unless (typed_base o ≡ typed_base o')
      same_base o o' h h' e =
          and_then
            (same_input (Base.Laws.write_optional (typed_base o))
              (Base.Laws.write_optional (typed_base o')) e)
            λ bytes. inl (
              write-injective
                (Base.Laws.read-Parses inputs outputs (typed_base o) (typed_base-IsValid o h))
                (Base.Laws.read-Parses inputs outputs (typed_base o') (typed_base-IsValid o' h'))
                bytes)

      same_proofs :
          (o o' : Option RctProofs)
          → Proofs.Laws.IsValidOptional reduced ring inputs outputs o
          → Proofs.Laws.IsValidOptional reduced ring inputs outputs o'
          → typed_base o ≡ typed_base o'
          → prunable_hash_of keccak256 o ≡ prunable_hash_of keccak256 o'
          → Unless (o ≡ o')
      same_proofs none none h h' e k = inl refl
      same_proofs none (some proofs) h h' e k = cc
      same_proofs (some proofs) none h h' e k = cc
      same_proofs (some a) (some b) h h' e k =
          let parts = some-injective (Proofs.rct_type a, a.base) (Proofs.rct_type b, b.base) e in
          let type_is : Proofs.rct_type a ≡ Proofs.rct_type b = ap (λ t. t.0) parts in
          let base_is : a.base ≡ b.base = ap (λ t. t.1) parts in
          and_then
            (same_input (Prunable.write a.prunable (Proofs.rct_type a))
              (Prunable.write b.prunable (Proofs.rct_type b)) k)
            λ bytes.
              let valid =
                subst (λ t. Prunable.Laws.IsValid reduced ring inputs outputs t a.prunable) type_is
                  h.prunable in
              let bytes' = ap (Prunable.write a.prunable) (sym type_is) ∙ bytes in
              let prunable_is : a.prunable ≡ b.prunable =
                write-injective
                  (Prunable.Laws.read-Parses reduced ring inputs outputs (Proofs.rct_type b)
                    a.prunable valid)
                  (Prunable.Laws.read-Parses reduced ring inputs outputs (Proofs.rct_type b)
                    b.prunable h'.prunable)
                  bytes' in
              inl (ap some (same_record a b base_is prunable_is))

    same_v2 :
        (p q : TransactionPrefix) (o o' : Option RctProofs)
        → IsValid reduced (v2 p o)
        → IsValid reduced (v2 q o')
        → hash keccak256 (v2 p o) ≡ hash keccak256 (v2 q o')
        → Unless (◌≡◌ {A = Transaction not_pruned} (v2 p o) (v2 q o'))
    same_v2 p q o o' (hp, ho) (hq, ho') e =
        and_then
          (same_input (preimage p o) (preimage q o')
            (some-injective _ _ (sym (hash-preimage p o) ∙ e ∙ hash-preimage q o')))
          λ all.
            let (first, rest) =
              split-append (Prefix.hash keccak256 2 p) _ (Prefix.hash keccak256 2 q) _
                (prefix-length p ∙ sym (prefix-length q)) all in
            let (second, third) = split-append _ _ _ _ (len _ ∙ sym (len _)) rest in
            and_then (same_prefix p q hp hq first) λ prefix_is.
              let valid =
                subst
                  (λ t.
                    Proofs.Laws.IsValidOptional reduced (ring_length t.inputs) (length t.inputs)
                      (length t.outputs) o)
                  prefix_is ho in
              and_then
                (same_base (ring_length q.inputs) (length q.inputs) (length q.outputs) o o' valid
                  ho' second)
                λ base_is.
                  and_then
                    (same_proofs (ring_length q.inputs) (length q.inputs) (length q.outputs) o o'
                      valid ho' base_is third)
                    λ proofs_is. inl cc

    same_v1 :
        (tx tx' : Transaction not_pruned)
        → IsValid reduced tx
        → IsValid reduced tx'
        → keccak256 (write not_pruned tx) ≡ keccak256 (write not_pruned tx')
        → Unless (tx ≡ tx')
    same_v1 tx tx' h h' e =
        and_then (same_input (write not_pruned tx) (write not_pruned tx') e) λ bytes. inl (
          write-injective (read-Parses reduced not_pruned (not_pruned-IsPruning reduced) tx h)
            (read-Parses reduced not_pruned (not_pruned-IsPruning reduced) tx' h') bytes)

    -- Where the hash function returns 32 bytes, two well-formed transactions of one version with the
    -- same hash are the same transaction, or else two different inputs of one hash are at hand.
    pub hash_binds :
        (tx tx' : Transaction not_pruned)
        → IsValid reduced tx
        → IsValid reduced tx'
        → version not_pruned tx ≡ version not_pruned tx'
        → hash keccak256 tx ≡ hash keccak256 tx'
        → (tx ≡ tx') ⊎ Collision keccak256
    unfolding hash hash_with_prunable_hash_internal version write
    hash_binds (v1 p s) (v1 q s') h h' same e =
        same_v1 (v1 p s) (v1 q s') h h' (some-injective _ _ e)
    hash_binds (v1 p s) (v2 q o) h h' same e = absurd (omega (arith, same))
    hash_binds (v2 p o) (v1 q s) h h' same e = absurd (omega (arith, same))
    hash_binds (v2 p o) (v2 q o') h h' same e = same_v2 p q o o' h h' e
