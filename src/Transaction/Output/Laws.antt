-- ===== src/Transaction/Output/Laws.antt =====
-- monero-oxide/src/transaction.rs: the reader of `Output` against its writer.
use monero_oxide.Common.{
  ℕ, ◌+◌, ◌≡◌, refl, ap, ◌==◌, ==→eq, Bool, true, false, Option, none, some, List, [], ◌∷◌,
  append_assoc, arith, if◌then◌else◌,
}
use monero_oxide.Common.Bytes.{IsByte}
use monero_oxide.Io.Reader.{write_byte}
use monero_oxide.Io.Parses.{
  Parses, IsCanonical, Parses-bind, Parses-then, Parses-map, Parses-pure, Parses-fail_if,
  Accepts-bind, Accepts-if, Accepts-pure, Accepts-fail, Accepts-fail_if,
}
use monero_oxide.Io.Primitives.{read_byte-Parses, read_byte-IsCanonical}
use monero_oxide.Io.VarInt
use monero_oxide.Ed25519.Laws.{IsPoint, read_point-Parses, read_point-IsCanonical}
use monero_oxide.Transaction.Input.{unwrap_amount}
use monero_oxide.Transaction.Input.Laws.{IsU64, u64-Parses, IsU64-IsCanonical}
use monero_oxide.Transaction.Output.{
  Output, is_some, write_view_tag, write, read_amount, read_has_view_tag, read_view_tag, read,
}

-- The amount is in the clear unless the transaction is a RingCT one.
abbrev pub IsAmount : Bool → Option ℕ → Type 0
IsAmount true none = Unit {0}
IsAmount true (some amount) = ⊥
IsAmount false none = ⊥
IsAmount false (some amount) = IsU64 amount

abbrev pub IsViewTag : Option ℕ → Type 0
IsViewTag none = Unit {0}
IsViewTag (some view_tag) = IsByte view_tag

-- The outputs that a reader returns.
pub record IsValid (rct : Bool) (o : Output) : Type 0 where
  pub amount : IsAmount rct o.amount
  pub key : IsPoint o.key
  pub view_tag : IsViewTag o.view_tag

abbrev write_amount : Option ℕ → List ℕ
write_amount amount = VarInt.write (unwrap_amount amount)

read_amount-Parses :
    (rct : Bool) (amount : Option ℕ)
    → IsAmount rct amount
    → Parses (read_amount rct) (write_amount amount) amount
unfolding read_amount
read_amount-Parses true none h =
    Parses-then _ (u64-Parses 0 (omega arith))
      (Parses-fail_if "RCT TX output wasn't 0" refl (Parses-pure none))
read_amount-Parses true (some amount) h = absurd h
read_amount-Parses false none h = absurd h
read_amount-Parses false (some amount) h = Parses-map some (u64-Parses amount h)

read_amount-IsCanonical : (rct : Bool) → IsCanonical (IsAmount rct) (read_amount rct) write_amount
unfolding read_amount
read_amount-IsCanonical true =
    Accepts-bind _ IsU64-IsCanonical λ amount _.
      Accepts-fail_if _ _ λ h. Accepts-pure {a = none} (ap VarInt.write (ground arith)) tt
read_amount-IsCanonical false = Accepts-bind _ IsU64-IsCanonical λ amount h. Accepts-pure refl h

abbrev has_view_tag : Option ℕ → Bool
has_view_tag none = false
has_view_tag (some view_tag) = true

abbrev kind_of : Bool → ℕ
kind_of b = if b then 3 else 2

abbrev write_kind : Bool → List ℕ
write_kind b = kind_of b ∷ []

read_has_view_tag-Parses : (b : Bool) → Parses read_has_view_tag (write_kind b) b
unfolding read_has_view_tag
read_has_view_tag-Parses true = Parses-bind _ (read_byte-Parses 3) (Parses-pure true)
read_has_view_tag-Parses false = Parses-bind _ (read_byte-Parses 2) (Parses-pure false)

read_has_view_tag-IsCanonical : IsCanonical (λ _. Unit {0}) read_has_view_tag write_kind
unfolding read_has_view_tag
read_has_view_tag-IsCanonical = Accepts-bind _ read_byte-IsCanonical λ kind _.
    Accepts-if (kind == 2) (λ is2. Accepts-pure {a = false} (ap write_byte (==→eq kind 2 is2)) tt)
      λ _.
        Accepts-if (kind == 3)
          (λ is3. Accepts-pure {a = true} (ap write_byte (==→eq kind 3 is3)) tt) λ _. Accepts-fail

read_view_tag-Parses :
    (tag : Option ℕ) → Parses (read_view_tag (has_view_tag tag)) (write_view_tag tag) tag
unfolding read_view_tag
read_view_tag-Parses none = Parses-pure none
read_view_tag-Parses (some tag) = Parses-map some (read_byte-Parses tag)

read_view_tag-IsCanonical :
    (b : Bool)
    → IsCanonical (λ tag. IsViewTag tag × (has_view_tag tag ≡ b)) (read_view_tag b) write_view_tag
unfolding read_view_tag
read_view_tag-IsCanonical true =
    Accepts-bind _ read_byte-IsCanonical λ tag h. Accepts-pure refl (h, refl)
read_view_tag-IsCanonical false = Accepts-pure refl (tt, refl)

kind_lem : (tag : Option ℕ) → kind_of (has_view_tag tag) ≡ 2 + is_some tag
kind_lem none = refl
kind_lem (some tag) = refl

pub read-Parses : (rct : Bool) (o : Output) → IsValid rct o → Parses (read rct) (write o) o
unfolding read write
read-Parses rct o v = rw (← kind_lem o.view_tag) (
    Parses-bind _ (read_amount-Parses rct o.amount v.amount) (
      Parses-bind _ (read_has_view_tag-Parses (has_view_tag o.view_tag)) (
        Parses-bind _ (read_point-Parses o.key v.key)
          (Parses-map _ (read_view_tag-Parses o.view_tag)))))

pub read-IsCanonical : (rct : Bool) → IsCanonical (IsValid rct) (read rct) write
unfolding read write
read-IsCanonical rct = Accepts-bind _ (read_amount-IsCanonical rct) λ amount ha.
    Accepts-bind _ read_has_view_tag-IsCanonical λ b _.
      Accepts-bind _ read_point-IsCanonical λ key hk.
        Accepts-bind _ (read_view_tag-IsCanonical b) λ tag (ht, same).
          Accepts-pure {a = record { amount = amount; key = key; view_tag = tag }}
            (rw (← same, kind_lem tag) (simp append_assoc))
            (record { amount = ha; key = hk; view_tag = ht })
