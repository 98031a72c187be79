-- ===== src/Epee/Values/Filled.antt =====
-- monero-oxide/epee/src/lib.rs: `to_primitive` fills the slice that it is given, so that neither the
-- conversion of the slice into an array nor its first index panics.
use monero_oxide.Common.{
  ℕ, ◌≤◌, ◌≡◌, arith, ◌||◌, not, eq→==, Bool-cases, inl, inr, List, [], ◌∷◌, ok, err, length, take,
  drop, ltb, length-take,
}
use monero_oxide.Epee.Decoding.{
  EpeeError, short, type_error, Outcome, done, panicked, unfinished, Decoding, pure, fail, ◌>>=◌,
  read_bytes, read_into_slice,
}
use monero_oxide.Epee.Types.{Kind}
use monero_oxide.Epee.Parser.{on_encoding, popped}
use monero_oxide.Epee.View.{
  Epee, EpeeEntry, on_decoder, check_error, take_root, drop_entry, same_kind, is_one,
}
use monero_oxide.Epee.View.Safety.{
  IsWellFormed, Safe, safe, Safe-bind, popped-Safe, on_decoder-Safe, take_root-Safe,
  check_error-Safe, drop_entry-Safe,
}
use monero_oxide.Epee.Values.{check_kind, to_primitive, into_array, first}

-- An outcome in a well-formed state, with `n` bytes where it is a success.
pub data Fills (n : ℕ) : Outcome Epee (List ℕ) → Type 0 where
  filled :
      (buf : List ℕ) (e : Epee)
      → length buf ≡ n
      → IsWellFormed e.decoder
      → Fills n (done (ok buf) e)
  stopped : (x : EpeeError) (e : Epee) → IsWellFormed e.decoder → Fills n (done (err x) e)

Fills-after {ℓ} :
    {A : Type ℓ} (n : ℕ) (p : Decoding Epee A) (f : A → Decoding Epee (List ℕ)) (e : Epee)
    → Safe (p e)
    → ((a : A) (e' : Epee) → IsWellFormed e'.decoder → Fills n (f a e'))
    → Fills n ((p >>= f) e)
Fills-after {A} n p f e before next = go (p e) before
  where
    go :
        (o : Outcome Epee A)
        → Safe o
        → Fills n (elim o [
          | done (ok a) s' ↦ f a s'
          | done (err x) s' ↦ done (err x) s'
          | panicked ↦ panicked
          | unfinished ↦ unfinished
        ])
    go _ (safe (ok a) e' h) = next a e' h
    go _ (safe (err x) e' h) = stopped x e' h

pub Fills-Safe : (n : ℕ) (o : Outcome Epee (List ℕ)) → Fills n o → Safe o
Fills-Safe n _ (filled buf e len h) = safe (ok buf) e h
Fills-Safe n _ (stopped x e h) = safe (err x) e h

pub Fills-bind {ℓ} :
    {A : Type ℓ} (n : ℕ) (p : Decoding Epee (List ℕ)) (f : List ℕ → Decoding Epee A) (e : Epee)
    → Fills n (p e)
    → ((buf : List ℕ) (e' : Epee) → length buf ≡ n → IsWellFormed e'.decoder → Safe (f buf e'))
    → Safe ((p >>= f) e)
Fills-bind {A} n p f e before next = go (p e) before
  where
    go :
        (o : Outcome Epee (List ℕ))
        → Fills n o
        → Safe (elim o [
          | done (ok buf) s' ↦ f buf s'
          | done (err x) s' ↦ done (err x) s'
          | panicked ↦ panicked
          | unfinished ↦ unfinished
        ])
    go _ (filled buf e' len h) = next buf e' len h
    go _ (stopped x e' h) = safe (err x) e' h

pub check_kind-Safe :
    (self : EpeeEntry) (kind : Kind) (e : Epee)
    → IsWellFormed e.decoder
    → Safe (check_kind self kind e)
unfolding check_kind
check_kind-Safe self kind e h =
    elim (Bool-cases (not (same_kind self.kind kind) || not (is_one self.len))) [
      | inl differs ↦ rw differs (
          Safe-bind (drop_entry self) (λ _. fail type_error) e (drop_entry-Safe self e h)
            λ _ e' h'. safe (err type_error) e' h')
      | inr fits ↦ rw fits (safe (ok tt) e h)
    ]

read_into_slice-Fills :
    (n : ℕ) (e : Epee)
    → IsWellFormed e.decoder
    → Fills n (on_decoder (on_encoding (read_into_slice n)) e)
unfolding read_into_slice read_bytes
read_into_slice-Fills n e h = elim (Bool-cases (ltb (length e.decoder.encoding) n)) [
  | inl few ↦ rw (few, read_into_slice, read_bytes, on_encoding, on_decoder) (stopped (short n) e h)
  | inr enough ↦
      let at_least : n ≤ length e.decoder.encoding = ground arith in
      let len : length (take n e.decoder.encoding) ≡ n =
        omega (arith, length-take n e.decoder.encoding) in
      rw (enough, read_into_slice, read_bytes, on_encoding, on_decoder)
        (filled (take n e.decoder.encoding)
          (record e { decoder = record e.decoder { encoding = drop n e.decoder.encoding } }) len h)
]

pub to_primitive-Fills :
    (self : EpeeEntry) (kind : Kind) (n : ℕ) (e : Epee)
    → IsWellFormed e.decoder
    → Fills n (to_primitive self kind n e)
unfolding to_primitive
to_primitive-Fills self kind n e h =
    Fills-after n (check_kind self kind) _ e (check_kind-Safe self kind e h) λ _ e₁ h₁.
      Fills-after n (take_root self) _ e₁ (take_root-Safe self e₁ h₁) λ _ e₂ h₂.
        Fills-after n check_error _ e₂ (check_error-Safe e₂ h₂) λ _ e₃ h₃.
          Fills-after n (on_decoder popped) _ e₃
            (on_decoder-Safe popped e₃ (popped-Safe e₃.decoder h₃))
            λ _ e₄ h₄. read_into_slice-Fills n e₄ h₄

-- Where the slice has the size of the array, the conversion does not panic.
pub into_array-Safe {ℓ} :
    {A : Type ℓ} (n : ℕ) (g : List ℕ → A) (buf : List ℕ) (e : Epee)
    → length buf ≡ n
    → IsWellFormed e.decoder
    → Safe ((into_array n buf >>= λ bytes. pure (g bytes)) e)
into_array-Safe n g buf e len h =
    let same = eq→== (length buf) n len in rw (same, ◌>>=◌) (safe (ok (g buf)) e h)

pub first-Safe :
    (buf : List ℕ) (e : Epee) → length buf ≡ 1 → IsWellFormed e.decoder → Safe (first buf e)
first-Safe [] e len h = absurd (omega (arith, len))
first-Safe (b ∷ buf) e len h = safe (ok b) e h

pub first_then-Safe {ℓ} :
    {A : Type ℓ} (g : ℕ → A) (buf : List ℕ) (e : Epee)
    → length buf ≡ 1
    → IsWellFormed e.decoder
    → Safe ((first buf >>= λ b. pure (g b)) e)
first_then-Safe g [] e len h = absurd (omega (arith, len))
first_then-Safe g (b ∷ buf) e len h = safe (ok (g b)) e h
