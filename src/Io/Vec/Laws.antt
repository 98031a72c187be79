-- ===== src/Io/Vec/Laws.antt =====
-- monero-oxide/io/src/lib.rs: the readers of sequences against the writers, given those of elements.
use monero_oxide.Common.{
  ℕ, zero, suc, ◌^◌, ◌<◌, ◌≡◌, refl, ap, false, Option, List, [], ◌∷◌, length, All, arith,
}
use monero_oxide.Io.Reader.{Reader}
use monero_oxide.Io.Parses.{
  Parses, IsCanonical, Parses-bind, Parses-map, Parses-fail_if, Accepts-bind, Accepts-last,
  Accepts-pure, Accepts-fail_if,
}
use monero_oxide.Io.VarInt.RoundTrip.{read-Parses}
use monero_oxide.Io.VarInt.Canonical.{read-IsCanonical}
use monero_oxide.Io.Vec.{exceeds, write_raw_vec, write_vec, read_raw_vec, read_array, read_vec}

module _ {ℓ} {A : Type ℓ} (f : Reader A) (write : A → List ℕ) where
  pub read_raw_vec-Parses :
      (xs : List A)
      → All (λ x. Parses f (write x) x) xs
      → Parses (read_raw_vec f (length xs)) (write_raw_vec write xs) xs
  unfolding read_raw_vec write_raw_vec
  read_raw_vec-Parses [] h = record { run = λ rest. refl }
  read_raw_vec-Parses (x ∷ xs) (hx, h) = Parses-bind _ hx (Parses-map _ (read_raw_vec-Parses xs h))

  -- The same with the length given apart.
  pub read_counted-Parses :
      (n : ℕ) (xs : List A)
      → length xs ≡ n
      → All (λ x. Parses f (write x) x) xs
      → Parses (read_raw_vec f n) (write_raw_vec write xs) xs
  read_counted-Parses n xs len h = rw (← len) (read_raw_vec-Parses xs h)

  pub read_array-Parses :
      (n : ℕ) (xs : List A)
      → length xs ≡ n
      → All (λ x. Parses f (write x) x) xs
      → Parses (read_array f n) (write_raw_vec write xs) xs
  unfolding read_array
  read_array-Parses = read_counted-Parses

  pub read_vec-Parses :
      (bound : Option ℕ) (xs : List A)
      → length xs < 2 ^ 64
      → exceeds (length xs) bound ≡ false
      → All (λ x. Parses f (write x) x) xs
      → Parses (read_vec f bound) (write_vec write xs) xs
  unfolding read_vec write_vec
  read_vec-Parses bound xs short within h =
      Parses-bind _ (read-Parses 64 (length xs) (omega arith) short)
        (Parses-fail_if _ within (read_raw_vec-Parses xs h))

  module _ {κ} {Good : A → Type κ} (canonical : IsCanonical Good f write) where
    pub read_raw_vec-IsCanonical :
        (n : ℕ)
        → IsCanonical (λ xs. (length xs ≡ n) × All Good xs) (read_raw_vec f n) (write_raw_vec write)
    unfolding read_raw_vec write_raw_vec
    read_raw_vec-IsCanonical zero = Accepts-pure refl (refl, tt)
    read_raw_vec-IsCanonical (suc n) = Accepts-bind _ canonical λ x good.
        Accepts-bind _ (read_raw_vec-IsCanonical n)
          λ xs (len, goods). Accepts-pure refl (ap suc len, (good, goods))

    pub read_array-IsCanonical :
        (n : ℕ)
        → IsCanonical (λ xs. (length xs ≡ n) × All Good xs) (read_array f n) (write_raw_vec write)
    unfolding read_array
    read_array-IsCanonical n = read_raw_vec-IsCanonical n

    pub read_vec-IsCanonical :
        (bound : Option ℕ)
        → IsCanonical
            (λ xs. (length xs < 2 ^ 64) × (exceeds (length xs) bound ≡ false) × All Good xs)
            (read_vec f bound)
            (write_vec write)
    unfolding read_vec write_vec
    read_vec-IsCanonical bound = Accepts-bind _ (read-IsCanonical 64 (omega arith)) λ n short.
        Accepts-fail_if _ _ λ within.
          Accepts-last (read_raw_vec-IsCanonical n)
            λ xs (len, goods). rw len (refl, (short, within, goods))
