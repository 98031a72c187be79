-- ===== src/Epee/Parser/Runs.antt =====
-- monero-oxide/epee/src/parser.rs: the loop of `step`, which goes over one whole item.
use monero_oxide.Common.{
  ℕ, zero, suc, ◌≤◌, ◌<◌, ◌≡◌, refl, sym, ◌∙◌, ap, subst, arith, Option, none, some, List, [], ◌∷◌,
  ◌++◌, append_assoc, ok, err, length, length-append, Bool-cases, inl, inr, false, ◌==◌, eq→==,
}
use monero_oxide.Epee.Decoding.{EpeeError, Outcome, done, panicked, unfinished, pure, ◌>>=◌}
use monero_oxide.Epee.Types.{TypeOrEntry}
use monero_oxide.Epee.Stack.Laws.{Item, Represents, take_one, peek_lem}
use monero_oxide.Epee.Parser.{
  Decoder, SingleStepResult, single_step, until_depth, step_loop, stop_depth, step,
}
use monero_oxide.Epee.Parser.Steps.{After, stepped, refused, single_step-After}

-- A run over one item: what is left is the list below it, and fewer bytes; or an error, on a stack
-- that is still well formed.
pub data Ran {ℓ} {A : Type ℓ} (a : A) (target : List Item) (size : ℕ)
    : Outcome Decoder A → Type ℓ where
  finished :
      (d : Decoder)
      → Represents d.stack target
      → length d.encoding < size
      → Ran a target size (done (ok a) d)
  broke :
      (e : EpeeError) (d : Decoder) (items : List Item)
      → Represents d.stack items
      → length d.encoding ≤ size
      → Ran a target size (done (err e) d)

Ran-le {ℓ} :
    {A : Type ℓ} (a : A) (target : List Item) (n size : ℕ) (o : Outcome Decoder A)
    → n ≤ size
    → Ran a target n o
    → Ran a target size o
Ran-le a target n size _ h (finished d holds few) = finished d holds (omega arith)
Ran-le a target n size _ h (broke e d items holds few) = broke e d items holds (omega arith)

take_one-append :
    (item : Item) (above below : List Item)
    → take_one (item ∷ (above ++ below)) ≡ take_one (item ∷ above) ++ below
take_one-append (kind, amount) above below = elim (Bool-cases (amount == 1)) [
  | inl one ↦ rw one refl
  | inr many ↦ rw many refl
]

-- A turn of the loop, where the turns after it do as they should.
module _ (fuel : ℕ) (target : List Item) (d : Decoder)
    (more : (item : Item) (above : List Item) (d' : Decoder)
      → Represents d'.stack (item ∷ (above ++ target))
      → length d'.encoding < length d.encoding
      → Ran tt target (length d'.encoding) (step_loop fuel (length target) d')) where
  until_depth-Ran :
      (above : List Item) (d' : Decoder)
      → Represents d'.stack (above ++ target)
      → length d'.encoding < length d.encoding
      → Ran tt target
          (length d.encoding)
          (until_depth (length target) (step_loop fuel (length target)) d')
  until_depth-Ran [] d' holds fewer =
      rw (eq→== d'.stack.depth (length target) holds.2) (finished d' holds fewer)
  until_depth-Ran (item ∷ above) d' holds fewer =
      let deeper : (d'.stack.depth == length target) ≡ false =
        ground (arith, length-append above target, holds.2) in
      rw deeper (
        Ran-le tt target (length d'.encoding) (length d.encoding) _ (omega arith)
          (more item above d' holds fewer))

  turn-Ran :
      (items extra : List Item) (o : Outcome Decoder (Option SingleStepResult))
      → items ≡ extra ++ target
      → After items (length d.encoding) o
      → Ran tt target (length d.encoding) (elim o [
        | done (ok a) s' ↦ until_depth (length target) (step_loop fuel (length target)) s'
        | done (err e) s' ↦ done (err e) s'
        | panicked ↦ panicked
        | unfinished ↦ unfinished
      ])
  turn-Ran items extra _ split (stepped r d' above few holds fewer) =
      until_depth-Ran (above ++ extra) d'
        (subst (Represents d'.stack)
          (ap (λ t. above ++ t) split ∙ sym (append_assoc above extra target)) holds)
        fewer
  turn-Ran items extra _ split (refused e d' holds few) = broke e d' items holds few

-- The loop on a stack that holds `extra` items above those it stops at.
step_loop-Ran :
    (fuel : ℕ) (item : Item) (items extra target : List Item) (d : Decoder)
    → Represents d.stack (item ∷ items)
    → take_one (item ∷ items) ≡ extra ++ target
    → length d.encoding < fuel
    → Ran tt target (length d.encoding) (step_loop fuel (length target) d)
unfolding step_loop
step_loop-Ran zero item items extra target d holds split enough = absurd (omega arith)
step_loop-Ran (suc fuel) item items extra target d holds split enough =
    turn-Ran fuel target d
      (λ next above d' holds' fewer.
        step_loop-Ran fuel next (above ++ target) (take_one (next ∷ above)) target d' holds'
          (take_one-append next above target) (omega arith))
      (take_one (item ∷ items)) extra (single_step d) split (single_step-After item items d holds)

pub stop_depth_lem :
    (kind : TypeOrEntry) (amount depth : ℕ) (items : List Item)
    → 0 < amount
    → depth ≡ suc (length items)
    → stop_depth depth amount ≡ length (take_one ((kind, amount) ∷ items))
stop_depth_lem kind amount depth items some_left h = elim (Bool-cases (amount == 1)) [
  | inl one ↦ rw one (ground arith)
  | inr many ↦ rw many (ground arith)
]

-- The whole loop, with the value that `step` returns.
run-Ran :
    (stop : ℕ) (item : Item) (items : List Item) (d : Decoder)
    → Represents d.stack (item ∷ items)
    → stop ≡ length (take_one (item ∷ items))
    → Ran {A = Option (Unit {0})}
        (some tt)
        (take_one (item ∷ items))
        (length d.encoding)
        ((step_loop (suc (length d.encoding)) stop >>= λ _. pure (some tt)) d)
run-Ran stop item items d holds at = go (step_loop (suc (length d.encoding)) stop d) (
    subst
      (λ t.
        Ran {A = Unit {0}} tt target (length d.encoding) (step_loop (suc (length d.encoding)) t d))
      (sym at)
      (step_loop-Ran (suc (length d.encoding)) item items [] target d holds refl (omega arith)))
  where
    target : List Item
    target = take_one (item ∷ items)

    go :
        (o : Outcome Decoder (Unit {0}))
        → Ran tt target (length d.encoding) o
        → Ran {A = Option (Unit {0})} (some tt) target (length d.encoding) (elim o [
          | done (ok a) s' ↦ pure (some tt) s'
          | done (err e) s' ↦ done (err e) s'
          | panicked ↦ panicked
          | unfinished ↦ unfinished
        ])
    go _ (finished d' holds' fewer) = finished d' holds' fewer
    go _ (broke e d' items' holds' few) = broke e d' items' holds' few

pub step-Ran :
    (item : Item) (items : List Item) (d : Decoder)
    → Represents d.stack (item ∷ items)
    → Ran {A = Option (Unit {0})} (some tt) (take_one (item ∷ items)) (length d.encoding) (step d)
unfolding step
step-Ran (kind, amount) items d (packed, size, depth, few, (k, a, pos, slots)) =
    let holds : Represents d.stack ((kind, amount) ∷ items) =
      (packed, size, depth, few, (k, a, pos, slots)) in
    rw (peek_lem d.stack ((kind, amount) ∷ items) holds, step)
      (run-Ran (stop_depth d.stack.depth amount) (kind, amount) items d holds
        (stop_depth_lem kind amount d.stack.depth items pos depth))

pub step_idle : (d : Decoder) → Represents d.stack [] → step d ≡ done (ok none) d
unfolding step
step_idle d holds = rw (peek_lem d.stack [] holds, step) refl
