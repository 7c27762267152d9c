-- ===== src/Dict.antt =====
-- Python's dictionaries with text keys, as lists of entries.
use mathlib.Core.Option.{some-injective}
use mellow_programming_langu.Prelude.{
  ◌≡◌, refl, sym, ap, ◌∙◌, ◌⊎◌, inl, inr, Bool, true, false, Option, none, some, List, [], ◌∷◌,
  if◌then◌else◌, Bool-cases,
}
use mellow_programming_langu.Text.{Text, text_eq}
use mellow_programming_langu.Text.Laws.{text_eq_refl, text_eq→eq}

-- A dictionary: the first entry of a key counts.
module _ {A : Type 0} where
  unfoldable pub find : Text → List (Text × A) → Option A
  unfolding text_eq
  find name [] = none
  find name ((key, value) ∷ entries) =
      let rest = find name entries in if text_eq key name then some value else rest

  unfoldable pub put : Text → A → List (Text × A) → List (Text × A)
  unfolding text_eq
  put name value [] = (name, value) ∷ []
  put name value ((key, old) ∷ entries) =
      let rest = put name value entries in
      if text_eq key name then (key, value) ∷ entries else (key, old) ∷ rest

-- A search that goes on where the first one finds nothing.
unfoldable pub or_else : {A : Type 0} → Option A → Option A → Option A
or_else none o = o
or_else (some a) o = some a

unfoldable pub is_some : {A : Type 0} → Option A → Bool
is_some none = false
is_some (some a) = true

module _ {A : Type 0} where
  pub find-put :
      (name : Text) (v : A) (entries : List (Text × A)) → find name (put name v entries) ≡ some v
  unfolding find put
  find-put name v [] = rw (text_eq_refl name) refl
  find-put name v ((key, old) ∷ entries) = elim (Bool-cases (text_eq key name)) [
    | inl e ↦ rw (e, e) refl
    | inr e ↦ rw (e, e) (find-put name v entries)
  ]

  -- What is found after an entry is put is the new value, under its key, or was there before.
  pub find-put_cases :
      (key name : Text) (v w : A) (entries : List (Text × A))
      → find name (put key v entries) ≡ some w
      → (text_eq key name ≡ true) × (v ≡ w) ⊎ (find name entries ≡ some w)
  unfolding find put
  find-put_cases key name v w [] h = elim (Bool-cases (text_eq key name)) [
    | inl e ↦ inl (e, some-injective _ _ (rw e at h))
    | inr e ↦ inr (rw e at h)
  ]
  find-put_cases key name v w ((k, old) ∷ entries) h = elim (Bool-cases (text_eq k key)) [
    | inl e ↦
        let p : k ≡ key = text_eq→eq k key e in
        elim (Bool-cases (text_eq k name)) [
          | inl e' ↦
              inl (
                ap (λ (x : Text). text_eq x name) (sym p) ∙ e',
                some-injective _ _ (rw (e, e') at h),
              )
          | inr e' ↦ inr (rw e' (rw (e, e') at h))
        ]
    | inr e ↦ elim (Bool-cases (text_eq k name)) [
      | inl e' ↦ inr (rw e' (rw (e, e') at h))
      | inr e' ↦ elim (find-put_cases key name v w entries (rw (e, e') at h)) [
        | inl q ↦ inl q
        | inr q ↦ inr (rw e' q)
      ]
    ]
  ]
