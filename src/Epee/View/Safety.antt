-- ===== src/Epee/View/Safety.antt =====
-- monero-oxide/epee/src/lib.rs: the operations of the view on a well-formed state.
use monero_oxide.Common.{
  ℕ, zero, suc, ◌==◌, Bool, true, false, not, ◌||◌, Option, none, some, List, [], ◌∷◌, Result, ok,
  err, length, Bool-cases, Option-cases, inl, inr,
}
use monero_oxide.Epee.Decoding.{
  EpeeError, type_error, epee_reuse, Outcome, done, panicked, unfinished, Decoding, Reading,
  refuse_if, ◌>>=◌,
}
use monero_oxide.Epee.Decoding.Advances.{Advances, went, failed}
use monero_oxide.Epee.Types.{object}
use monero_oxide.Epee.Stack.Laws.{Item, Represents, take_one, pop_lem}
use monero_oxide.Epee.Parser.{
  Decoder, SingleStepResult, object_of, entry_of, unit, on_encoding, popped, single_step, step,
}
use monero_oxide.Epee.Parser.Steps.{After, stepped, refused, single_step-After, single_step_idle}
use monero_oxide.Epee.Parser.Runs.{Ran, finished, broke, step-Ran, step_idle}
use monero_oxide.Epee.View.{
  Epee, EpeeEntry, on_decoder, entry, error_of, drop_items, drop_entry, check_error, same_kind,
  take_root, is_one, is_some, fields, fields_of, iterate,
}

-- The stack stands for some list of items.
abbrev pub IsWellFormed : Decoder → Type 0
IsWellFormed d = (items : List Item) × Represents d.stack items

-- An outcome that is neither a panic nor a loop that ran out of fuel, in a well-formed state.
pub data SafeStep {ℓ} {A : Type ℓ} : Outcome Decoder A → Type ℓ where
  safe_step : (r : Result EpeeError A) (d : Decoder) → IsWellFormed d → SafeStep (done r d)

pub data Safe {ℓ} {A : Type ℓ} : Outcome Epee A → Type ℓ where
  safe : (r : Result EpeeError A) (e : Epee) → IsWellFormed e.decoder → Safe (done r e)

pub Safe-bind {ℓ κ} :
    {A : Type ℓ} {B : Type κ} (p : Decoding Epee A) (f : A → Decoding Epee B) (e : Epee)
    → Safe (p e)
    → ((a : A) (e' : Epee) → IsWellFormed e'.decoder → Safe (f a e'))
    → Safe ((p >>= f) e)
Safe-bind {A} p f e first next = go (p e) first
  where
    go :
        (o : Outcome Epee A)
        → Safe o
        → Safe (elim o [
          | done (ok a) s' ↦ f a s'
          | done (err x) s' ↦ done (err x) s'
          | panicked ↦ panicked
          | unfinished ↦ unfinished
        ])
    go _ (safe (ok a) e' h) = next a e' h
    go _ (safe (err x) e' h) = safe (err x) e' h

pub single_step-Safe : (d : Decoder) → IsWellFormed d → SafeStep (single_step d)
single_step-Safe d ([], holds) = rw (single_step_idle d holds) (safe_step (ok none) d ([], holds))
single_step-Safe d ((item ∷ items), holds) =
    go (single_step d) (single_step-After item items d holds)
  where
    go :
        (o : Outcome Decoder (Option SingleStepResult))
        → After (take_one (item ∷ items)) (length d.encoding) o
        → SafeStep o
    go _ (stepped r d' pushed few holds' fewer) = safe_step (ok (some r)) d' (_, holds')
    go _ (refused e d' holds' few) = safe_step (err e) d' (_, holds')

step-Safe : (d : Decoder) → IsWellFormed d → SafeStep (step d)
step-Safe d ([], holds) = rw (step_idle d holds) (safe_step (ok none) d ([], holds))
step-Safe d ((item ∷ items), holds) = go (step d) (step-Ran item items d holds)
  where
    go :
        (o : Outcome Decoder (Option (Unit {0})))
        → Ran (some tt) (take_one (item ∷ items)) (length d.encoding) o
        → SafeStep o
    go _ (finished d' holds' fewer) = safe_step (ok (some tt)) d' (_, holds')
    go _ (broke e d' items' holds' few) = safe_step (err e) d' (_, holds')

pub popped-Safe : (d : Decoder) → IsWellFormed d → SafeStep (popped d)
unfolding popped
popped-Safe d (items, holds) =
    let (stack, run, holds') = pop_lem d.stack items holds in
    rw (run, popped) (safe_step _ (record d { stack = stack }) (_, holds'))

-- A read leaves the stack.
pub on_encoding-Safe {ℓ} :
    {A : Type ℓ} (n : ℕ) (p : Reading A) (d : Decoder)
    → Advances n d.encoding (p d.encoding)
    → IsWellFormed d
    → SafeStep (on_encoding p d)
on_encoding-Safe {A} n p d reads holds = go (p d.encoding) reads
  where
    go :
        (o : Outcome (List ℕ) A)
        → Advances n d.encoding o
        → SafeStep (elim o [
          | done r rest ↦ done r (record d { encoding = rest })
          | panicked ↦ panicked
          | unfinished ↦ unfinished
        ])
    go _ (went a rest h) = safe_step (ok a) (record d { encoding = rest }) holds
    go _ (failed e rest h) = safe_step (err e) (record d { encoding = rest }) holds

pub on_decoder-Safe {ℓ} :
    {A : Type ℓ} (p : Decoding Decoder A) (e : Epee)
    → SafeStep (p e.decoder)
    → Safe (on_decoder p e)
on_decoder-Safe {A} p e h = go (p e.decoder) h
  where
    go :
        (o : Outcome Decoder A)
        → SafeStep o
        → Safe (elim o [
          | done r d ↦ done r (record e { decoder = d })
          | panicked ↦ panicked
          | unfinished ↦ unfinished
        ])
    go _ (safe_step r d holds) = safe r (record e { decoder = d }) holds

drop_turn-Safe :
    (n : ℕ)
    → ((e : Epee) → IsWellFormed e.decoder → Safe (drop_items n e))
    → (o : Outcome Decoder (Option (Unit {0}))) → SafeStep o
    → Safe {A = Unit {0}} (elim o [
      | done r d ↦ drop_items n (record { decoder = d; error = error_of r })
      | panicked ↦ panicked
      | unfinished ↦ unfinished
    ])
drop_turn-Safe n next _ (safe_step r d holds) =
    next (record { decoder = d; error = error_of r }) holds

pub drop_items-Safe : (n : ℕ) (e : Epee) → IsWellFormed e.decoder → Safe (drop_items n e)
unfolding drop_items
drop_items-Safe zero e h = safe (ok tt) e h
drop_items-Safe (suc n) e h = elim (Bool-cases (is_some e.error)) [
  | inl wrong ↦ rw wrong (safe (ok tt) e h)
  | inr right ↦
      rw right (drop_turn-Safe n (drop_items-Safe n) (step e.decoder) (step-Safe e.decoder h))
]

pub drop_entry-Safe :
    (self : EpeeEntry) (e : Epee) → IsWellFormed e.decoder → Safe (drop_entry self e)
drop_entry-Safe self e h = elim (Bool-cases self.root) [
  | inl held ↦ rw held (drop_items-Safe self.len e h)
  | inr taken ↦ rw taken (safe (ok tt) e h)
]

refuse_if-Safe :
    (test : Bool) (x : EpeeError) (e : Epee) → IsWellFormed e.decoder → Safe (refuse_if test x e)
refuse_if-Safe true x e h = safe (err x) e h
refuse_if-Safe false x e h = safe (ok tt) e h

pub take_root-Safe :
    (self : EpeeEntry) (e : Epee) → IsWellFormed e.decoder → Safe (take_root self e)
take_root-Safe self e h = elim (Bool-cases self.root) [
  | inl held ↦ rw held (safe (ok tt) e h)
  | inr taken ↦ rw taken (safe (err _) e h)
]

pub check_error-Safe : (e : Epee) → IsWellFormed e.decoder → Safe (check_error e)
check_error-Safe e h = elim (Option-cases e.error) [
  | inl right ↦ rw right (safe (ok tt) (record e { error = none }) h)
  | inr (x, wrong) ↦ rw wrong (safe (err x) (record e { error = some x }) h)
]

pub entry-Safe : (e : Epee) → IsWellFormed e.decoder → Safe (entry e)
unfolding entry
entry-Safe e h = elim (Bool-cases (not (e.decoder.stack.depth == 1) || is_some e.error)) [
  | inl used ↦ rw used (safe (err epee_reuse) e h)
  | inr fresh ↦ rw fresh (safe (ok _) e h)
]

fields_of-Safe :
    (r : Option SingleStepResult) (e : Epee) → IsWellFormed e.decoder → Safe (fields_of r e)
fields_of-Safe none e h = safe (err _) e h
fields_of-Safe (some (object_of n)) e h = safe (ok _) e h
fields_of-Safe (some (entry_of key kind n)) e h = safe (err _) e h
fields_of-Safe (some unit) e h = safe (err _) e h

pub fields-Safe : (self : EpeeEntry) (e : Epee) → IsWellFormed e.decoder → Safe (fields self e)
unfolding fields
fields-Safe self e h = Safe-bind (take_root self) _ e (take_root-Safe self e h) λ _ e₁ h₁.
    Safe-bind check_error _ e₁ (check_error-Safe e₁ h₁) λ _ e₂ h₂.
      Safe-bind (refuse_if (not (same_kind self.kind object) || not (is_one self.len)) type_error) _
        e₂ (refuse_if-Safe _ type_error e₂ h₂)
        λ _ e₃ h₃.
          Safe-bind (on_decoder single_step) _ e₃
            (on_decoder-Safe single_step e₃ (single_step-Safe e₃.decoder h₃))
            λ r e₄ h₄. fields_of-Safe r e₄ h₄

pub iterate-Safe : (self : EpeeEntry) (e : Epee) → IsWellFormed e.decoder → Safe (iterate self e)
unfolding iterate
iterate-Safe self e h =
    Safe-bind (take_root self) _ e (take_root-Safe self e h)
      λ _ e₁ h₁. Safe-bind check_error _ e₁ (check_error-Safe e₁ h₁) λ _ e₂ h₂. safe (ok _) e₂ h₂
