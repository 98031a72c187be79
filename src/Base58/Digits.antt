-- ===== src/Base58/Digits.antt =====
-- monero-oxide/wallet/base58/src/lib.rs: the digits of a number in base 58.
use monero_oxide.Common.{
  ℕ, zero, suc, ◌/◌, ◌%◌, ◌^◌, ◌<◌, ◌≤◌, ◌≡◌, refl, sym, ◌∙◌, ap, arith, Bool, true, false, ◌==◌,
  lt→ltb, Option, none, some, List, [], ◌∷◌, ◌++◌, append_assoc, length, length-append, get_elem?,
  get_or, set, ==→eq, replicate, if◌then◌else◌, Bool-cases, inl, inr,
}
use native.Mathlib.Nat.{pow-suc}
use monero_oxide.Base58.{alphabet, put_digits, position_from}

-- The character of a digit.
abbrev pub char : ℕ → ℕ
char digit = get_or alphabet digit 49

-- The `n` lowest digits of a number as characters, lowest first.
unfoldable pub chars : ℕ → ℕ → List ℕ
chars zero v = []
chars (suc n) v = char (v % 58) ∷ chars n (v / 58)

pub length-chars : (n v : ℕ) → length (chars n v) ≡ n
unfolding chars
length-chars zero v = refl
length-chars (suc n) v = ap suc (length-chars n (v / 58))

agree_below : (ℕ → Bool) → ℕ → Bool
agree_below f zero = true
agree_below f (suc n) = if f n then agree_below f n else false

agree_below→eq : (f : ℕ → Bool) (n : ℕ) → agree_below f n ≡ true → (i : ℕ) → i < n → f i ≡ true
unfolding agree_below
agree_below→eq f zero e i h = absurd (omega arith)
agree_below→eq f (suc n) e i h = ground (arith, agree_below→eq f n (ground arith) i)

abbrev is_some_of : Option ℕ → ℕ → Bool
is_some_of none n = false
is_some_of (some m) n = m == n

is_some_of→eq : (o : Option ℕ) (n : ℕ) → is_some_of o n ≡ true → o ≡ some n
is_some_of→eq none n h = cc
is_some_of→eq (some m) n h = ap some (==→eq m n h)

-- Each digit is found in the alphabet, and is the position of its character.
get_elem?-char : (digit : ℕ) → digit < 58 → get_elem? alphabet digit ≡ some (char digit)
unfolding agree_below
get_elem?-char digit h =
    is_some_of→eq (get_elem? alphabet digit) (char digit)
      (agree_below→eq (λ d. is_some_of (get_elem? alphabet d) (char d)) 58 refl digit h)

pub position-char : (digit : ℕ) → digit < 58 → position_from 0 alphabet (char digit) ≡ some digit
unfolding agree_below position_from
position-char digit h =
    is_some_of→eq (position_from 0 alphabet (char digit)) digit
      (agree_below→eq (λ d. is_some_of (position_from 0 alphabet (char d)) d) 58 refl digit h)

-- Zero is written as the first character, which fills the array at the start.
chars_zero : (n : ℕ) → chars n 0 ≡ replicate n 49
unfolding chars
chars_zero zero = refl
chars_zero (suc n) = ap (λ t. 49 ∷ t) (chars_zero n)

set-append_here :
    (done : List ℕ) (x c : ℕ) (rest : List ℕ) (i : ℕ)
    → i ≡ length done
    → set (done ++ (x ∷ rest)) i c ≡ (done ++ (c ∷ [])) ++ rest
set-append_here [] x c rest zero e = refl
set-append_here [] x c rest (suc i) e = absurd (omega arith)
set-append_here (d ∷ done) x c rest zero e = absurd (omega arith)
set-append_here (d ∷ done) x c rest (suc i) e =
    ap (λ t. d ∷ t) (set-append_here done x c rest i (omega arith))

put_digits_zero : (fuel i : ℕ) (text : List ℕ) → put_digits fuel 0 i text ≡ some text
unfolding put_digits
put_digits_zero zero i text = refl
put_digits_zero (suc fuel) i text = refl

-- The loop of `encode` puts the digits behind those already put.
pub put_digits_lem :
    (fuel n v i : ℕ) (done : List ℕ)
    → i ≡ length done
    → n ≤ fuel
    → v < 58 ^ n
    → put_digits fuel v i (done ++ replicate n 49) ≡ some (done ++ chars n v)
unfolding put_digits chars
put_digits_lem fuel zero v i done e h small =
    let none_left : v ≡ 0 = omega arith in rw none_left (put_digits_zero fuel i (done ++ []))
put_digits_lem zero (suc n) v i done e h small = absurd (omega arith)
put_digits_lem (suc fuel) (suc n) v i done e h small = elim (Bool-cases (v == 0)) [
  | inl over ↦
      let none_left : v ≡ 0 = ==→eq v 0 over in
      rw none_left (ap (λ t. some (done ++ t)) (sym (chars_zero (suc n))))
  | inr more ↦
      let digit : v % 58 < 58 = omega arith in
      let inside : i < length (done ++ (49 ∷ replicate n 49)) =
        omega (arith, length-append done (49 ∷ replicate n 49)) in
      let next =
        put_digits_lem fuel n (v / 58) (suc i) (done ++ (char (v % 58) ∷ []))
          (omega (arith, length-append done (char (v % 58) ∷ []))) (omega arith)
          (omega (arith, pow-suc 58 n)) in
      rw
        (
          more,
          get_elem?-char (v % 58) digit,
          lt→ltb _ _ inside,
          set-append_here done 49 (char (v % 58)) (replicate n 49) i e,
          put_digits,
        )
        (next ∙ ap some (append_assoc done (char (v % 58) ∷ []) (chars n (v / 58))))
]
