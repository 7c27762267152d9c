-- ===== src/Prelude/Members.antt =====
-- The items of a list, with the place where they stand.
use mathlib.Core.Path.{◌≡◌}
use mathlib.Core.Logic.{◌⊎◌, inl, inr}
use mathlib.Core.List.{List, [], ◌∷◌, ◌++◌}

module _ {ℓ} {A : Type ℓ} where
  pub data Member (a : A) : List A → Type ℓ where
    here : {x : A} {xs : List A} → a ≡ x → Member a (x ∷ xs)
    there : {x : A} {xs : List A} → Member a xs → Member a (x ∷ xs)

  pub not-Member : {a : A} → Member a [] → ⊥
  not-Member h = elim h [ ]

  pub Member-cons : {a b : A} {xs : List A} → Member a (b ∷ xs) → (a ≡ b) ⊎ Member a xs
  Member-cons (here e) = inl e
  Member-cons (there m) = inr m

  pub Member-left : {a : A} {xs : List A} (ys : List A) → Member a xs → Member a (xs ++ ys)
  Member-left ys (here e) = here e
  Member-left ys (there m) = there (Member-left ys m)

  pub Member-right : {a : A} (xs : List A) {ys : List A} → Member a ys → Member a (xs ++ ys)
  Member-right [] m = m
  Member-right (x ∷ xs) m = there (Member-right xs m)

  pub Member-append : {a : A} (xs ys : List A) → Member a (xs ++ ys) → Member a xs ⊎ Member a ys
  Member-append [] ys m = inr m
  Member-append (x ∷ xs) ys m = elim (Member-cons m) [
    | inl e ↦ inl (here e)
    | inr m' ↦ elim (Member-append xs ys m') [ inl n ↦ inl (there n) | inr n ↦ inr n ]
  ]

  pub Member-one : {a b : A} → Member a (b ∷ []) → a ≡ b
  Member-one (here e) = e
  Member-one (there m) = absurd (not-Member m)
