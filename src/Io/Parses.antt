-- ===== src/Io/Parses.antt =====
-- What it is for a reader to read back what was written, and to accept nothing else.
use monero_oxide.Common.{
  ℕ, ap, true, if◌then◌else◌, ◌≡◌, refl, ◌∙◌, List, [], ◌++◌, append_assoc, Result, ok, err, Bool,
  false, String, All-right, subst, sym,
}
use monero_oxide.Common.Bytes.{IsBytes}
use monero_oxide.Io.Reader.{IoError, Reader, pure, ◌>>=◌, ◌>>◌, fail_if}

-- The reader takes `bytes` off the front of any input and returns `a`.
pub record Parses {ℓ} {A : Type ℓ} (p : Reader A) (bytes : List ℕ) (a : A) : Type ℓ where
  pub run : (rest : List ℕ) → p (bytes ++ rest) ≡ ok (a, rest)

-- After the bytes `before`, whatever the reader returns is `Good`, and all the bytes that were
-- taken are what `write` writes of it.
pub record Accepts {ℓ κ} {A : Type ℓ} (before : List ℕ) (Good : A → Type κ) (p : Reader A)
    (write : A → List ℕ) : Type (ℓ ⊔ κ) where
  pub run :
      (src : List ℕ) (a : A) (rest : List ℕ)
      → IsBytes src
      → p src ≡ ok (a, rest)
      → (before ++ src ≡ write a ++ rest) × Good a

abbrev pub IsCanonical {ℓ κ} :
    {A : Type ℓ} (Good : A → Type κ) → Reader A → (A → List ℕ) → Type (ℓ ⊔ κ)
IsCanonical Good p write = Accepts [] Good p write

module _ {ℓ κ} {A : Type ℓ} {B : Type κ} where
  pub Parses-bind :
      {p : Reader A} (f : A → Reader B) {u v : List ℕ} {a : A} {b : B}
      → Parses p u a
      → Parses (f a) v b
      → Parses (p >>= f) (u ++ v) b
  Parses-bind {p} f {u} {v} {a} {b} hp hf = record {
    run = λ rest. rw (append_assoc u v rest, hp.run (v ++ rest), ◌>>=◌) (hf.run rest);
  }

  -- What follows the first reader takes no byte.
  pub Parses-then :
      {p : Reader A} (f : A → Reader B) {u : List ℕ} {a : A} {b : B}
      → Parses p u a
      → Parses (f a) [] b
      → Parses (p >>= f) u b
  Parses-then {p} f {u} {a} {b} hp hf = record {
    run = λ rest. rw (hp.run rest, ◌>>=◌) (hf.run rest);
  }

  pub Parses-map :
      {p : Reader A} (g : A → B) {u : List ℕ} {a : A}
      → Parses p u a
      → Parses (p >>= λ x. pure (g x)) u (g a)
  Parses-map {p} g {u} {a} hp = record { run = λ rest. rw (hp.run rest, ◌>>=◌) }

pub Parses-fail_if {ℓ} :
    {B : Type ℓ} {test : Bool} (message : String) {f : Reader B} {v : List ℕ} {b : B}
    → test ≡ false
    → Parses f v b
    → Parses (fail_if test message >> f) v b
Parses-fail_if message h hf = record { run = λ rest. rw (h, ◌>>=◌) (hf.run rest) }

-- A successful chain has a successful first part.
pub >>=-eq-ok {ℓ κ} :
    {A : Type ℓ} {B : Type κ} (p : Reader A) (f : A → Reader B) (src : List ℕ) {b : B}
    {rest : List ℕ}
    → (p >>= f) src ≡ ok (b, rest)
    → (a : A) × (mid : List ℕ) × (p src ≡ ok (a, mid)) × (f a mid ≡ ok (b, rest))
>>=-eq-ok {A} {B} p f src {b} {rest} = go (p src) refl
  where
    go :
        (r : Result IoError (A × List ℕ))
        → p src ≡ r
        → elim r [ ok (a, mid) ↦ f a mid | err e ↦ err e ] ≡ ok (b, rest)
        → (a : A) × (mid : List ℕ) × (p src ≡ ok (a, mid)) × (f a mid ≡ ok (b, rest))
    go (ok (a, mid)) e h = (a, mid, e, h)
    go (err x) e h = cc

module _ {ℓ κ μ} {A : Type ℓ} {B : Type κ} {Good : A → Type μ} {p : Reader A} {write : A → List ℕ}
    {before : List ℕ} where
  -- A chain whose first reader is canonical.
  pub Accepts-bind {ν} :
      {Fine : B → Type ν} (f : A → Reader B) {write' : B → List ℕ}
      → IsCanonical Good p write
      → ((a : A) → Good a → Accepts (before ++ write a) Fine (f a) write')
      → Accepts before Fine (p >>= f) write'
  Accepts-bind {Fine} f {write'} c next = record {
    run = λ src b rest bytes h. go src b rest bytes (>>=-eq-ok p f src h);
  }
    where
      go :
          (src : List ℕ) (b : B) (rest : List ℕ)
          → IsBytes src
          → (a : A) × (mid : List ℕ) × (p src ≡ ok (a, mid)) × (f a mid ≡ ok (b, rest))
          → (before ++ src ≡ write' b ++ rest) × Fine b
      go src b rest bytes (a, mid, first, h) =
          let (split, good) = c.run src a mid bytes first in
          let bytes' = All-right _ (write a) mid (subst IsBytes split bytes) in
          let (all, fine) = (next a good).run mid b rest bytes' h in
          (ap (λ t. before ++ t) split ∙ sym (append_assoc before (write a) mid) ∙ all, fine)

module _ {ℓ κ} {A : Type ℓ} {Good : A → Type κ} {write : A → List ℕ} {before : List ℕ} where
  -- The last reader of a chain.
  pub Accepts-last {μ} :
      {Fine : A → Type μ} {p : Reader A} {write' : A → List ℕ}
      → IsCanonical Fine p write'
      → ((a : A) → Fine a → (before ++ write' a ≡ write a) × Good a)
      → Accepts before Good p write
  Accepts-last {Fine} {p} {write'} c finish = record {
    run = λ src a rest bytes h. go src a rest (c.run src a rest bytes h);
  }
    where
      go :
          (src : List ℕ) (a : A) (rest : List ℕ)
          → (src ≡ write' a ++ rest) × Fine a
          → (before ++ src ≡ write a ++ rest) × Good a
      go src a rest (split, fine) =
          let (all, good) = finish a fine in
          (
            ap (λ t. before ++ t) split
                ∙ sym (append_assoc before (write' a) rest)
                ∙ ap (λ t. t ++ rest) all,
            good,
          )

  pub Accepts-pure : {a : A} → before ≡ write a → Good a → Accepts before Good (pure a) write
  Accepts-pure {a} all good = record { run = λ src b rest bytes h. go src b rest h }
    where
      go :
          (src : List ℕ) (b : A) (rest : List ℕ)
          → pure a src ≡ ok (b, rest)
          → (before ++ src ≡ write b ++ rest) × Good b
      go src b rest h =
          let value : a ≡ b = cc in
          let left : src ≡ rest = cc in
          subst (λ t. (before ++ src ≡ write t ++ rest) × Good t) value
            (rw (← left, all) (refl, good))

  pub Accepts-fail : {message : IoError} → Accepts before Good (λ src. err message) write
  Accepts-fail = record { run = λ src b rest bytes h. cc }

  pub Accepts-if :
      (test : Bool) {p q : Reader A}
      → (test ≡ true → Accepts before Good p write)
      → (test ≡ false → Accepts before Good q write)
      → Accepts before Good (if test then p else q) write
  Accepts-if true yes_case no_case = yes_case refl
  Accepts-if false yes_case no_case = no_case refl

  pub Accepts-fail_if :
      (test : Bool) (message : String) {p : Reader A}
      → (test ≡ false → Accepts before Good p write)
      → Accepts before Good (fail_if test message >> p) write
  Accepts-fail_if true message next = record { run = λ src b rest bytes h. cc }
  Accepts-fail_if false message next = record {
    run = λ src b rest bytes h. (next refl).run src b rest bytes h;
  }

-- A chain that ends in the value read.
pub Parses-pure {ℓ} : {A : Type ℓ} (a : A) → Parses (pure a) [] a
Parses-pure a = record { run = λ rest. refl }
