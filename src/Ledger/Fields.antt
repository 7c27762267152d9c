-- ===== src/Ledger/Fields.antt =====
-- The dictionaries of src/mellowlang/ledger_core.py, and the cases of its results.
use mellow_programming_langu.Prelude.{
  ◌≡◌, refl, ap, ◌∙◌, ◌⊎◌, inl, inr, Bool, true, false, Option, none, some, if◌then◌else◌,
  Bool-cases,
}
use mellow_programming_langu.Text.{Text, text_eq}
use mellow_programming_langu.Text.Laws.{text_eq_refl, text_eq→eq}
use mellow_programming_langu.Ledger.Values.{
  Json, Fields, no_fields, next_field, LedgerError, and_then, or_raise, get, put_field,
}
use mellow_programming_langu.Ledger.Audit.{ensure}

pub and_then_cases :
    {A B : Type 0} (r : LedgerError ⊎ A) (k : A → LedgerError ⊎ B) (b : B)
    → and_then r k ≡ inr b
    → (a : A) × (r ≡ inr a) × (k a ≡ inr b)
unfolding and_then
and_then_cases (inl e) k b h = absurd cc
and_then_cases (inr a) k b h = (a, refl, h)

pub and_then-inr :
    {A B : Type 0} (r : LedgerError ⊎ A) (k : A → LedgerError ⊎ B) (a : A)
    → r ≡ inr a
    → and_then r k ≡ k a
unfolding and_then
and_then-inr r k a h = rw h refl

pub ensure-true :
    {A : Type 0} (b : Bool) (e : LedgerError) (r : LedgerError ⊎ A) → b ≡ true → ensure b e r ≡ r
unfolding ensure
ensure-true b e r h = rw h refl

pub raised_cases :
    {A : Type 0} (e : LedgerError) (o : Option A) (a : A) → or_raise e o ≡ inr a → o ≡ some a
unfolding or_raise
raised_cases e none a h = absurd cc
raised_cases e (some x) a h = let q : x ≡ a = cc in ap some q

pub ensure_cases :
    {A : Type 0} (b : Bool) (e : LedgerError) (r : LedgerError ⊎ A) (a : A)
    → ensure b e r ≡ inr a
    → (b ≡ true) × (r ≡ inr a)
unfolding ensure
ensure_cases true e r a h = (refl, h)
ensure_cases false e r a h = absurd cc

-- A test that raises when it holds.
pub unless_cases :
    {A : Type 0} (b : Bool) (e : LedgerError) (r : LedgerError ⊎ A) (a : A)
    → (if b then inl e else r) ≡ inr a
    → (b ≡ false) × (r ≡ inr a)
unless_cases true e r a h = absurd cc
unless_cases false e r a h = (refl, h)

module _ {N : Type 0} where
  pub get-put_field :
      (key : Text) (v : Json N) (f : Fields N) → get key (put_field key v f) ≡ some v
  unfolding get put_field
  get-put_field key v no_fields = rw (text_eq_refl key) refl
  get-put_field key v (next_field name old f) = elim (Bool-cases (text_eq name key)) [
    | inl e ↦ rw (e, e) refl
    | inr e ↦ rw (e, e) (get-put_field key v f)
  ]

  pub get-put_field_ne :
      (key name : Text) (v : Json N) (f : Fields N)
      → text_eq key name ≡ false
      → get name (put_field key v f) ≡ get name f
  unfolding get put_field
  get-put_field_ne key name v no_fields h = rw h refl
  get-put_field_ne key name v (next_field other old f) h = elim (Bool-cases (text_eq other key)) [
    | inl e ↦
        let p : other ≡ key = text_eq→eq other key e in
        let q : text_eq other name ≡ false = ap (λ (t : Text). text_eq t name) p ∙ h in
        rw (e, q) refl
    | inr e ↦ elim (Bool-cases (text_eq other name)) [
      | inl q ↦ rw (e, q) refl
      | inr q ↦ rw (e, q) (get-put_field_ne key name v f h)
    ]
  ]
