-- ===== src/Lowering/Bindings.antt =====
-- What the arguments of a call hold after the named ones are bound (syscalls.py).
use mellow_programming_langu.Prelude.{
  ℕ, zero, suc, ◌+◌, ◌-◌, ◌≡◌, refl, subst, ◌⊎◌, inl, inr, Option, none, some, List, [], ◌∷◌, ◌++◌,
  Bool-cases, length, set, replicate, All,
}
use mellow_programming_langu.Text.{Text, codes, text_eq, strip}
use mellow_programming_langu.Dict.{find}
use mellow_programming_langu.Lowering.Tables.{syscall_arguments}
use mellow_programming_langu.Lowering.Machine.{LoweringError, unsupported}
use mellow_programming_langu.Lowering.Arguments.{
  Names, lstrip_stars, index_of_name, fill_slot, is_filled, filled_slots, next_slots, bind_slots,
  bind_to, bind_call_arguments, range_set,
}

module _ {κ} {E : Type 0} (C : E → Type κ) where
  All-append : (xs ys : List E) → All C xs → All C ys → All C (xs ++ ys)
  All-append [] ys h k = k
  All-append (x ∷ xs) ys (h, hs) k = (h, All-append xs ys hs k)

  All-replicate : (n : ℕ) (x : E) → C x → All C (replicate n x)
  All-replicate zero x h = tt
  All-replicate (suc n) x h = (h, All-replicate n x h)

  All-set : (xs : List E) (i : ℕ) (x : E) → All C xs → C x → All C (set xs i x)
  All-set [] i x h k = tt
  All-set (y ∷ xs) zero x (h, hs) k = (k, hs)
  All-set (y ∷ xs) (suc i) x (h, hs) k = (h, All-set xs i x hs k)

  pub find-All :
      (name : Text) (v : E) (entries : List (Text × E))
      → All (λ (e : Text × E). C e.1) entries
      → find name entries ≡ some v
      → C v
  unfolding find
  find-All name v [] h f = absurd cc
  find-All name v ((key, w) ∷ entries) (h, hs) f = elim (Bool-cases (text_eq key name)) [
    | inl e ↦ let f' : some w ≡ some v = rw e at f in let q : w ≡ v = cc in subst C q h
    | inr e ↦ find-All name v entries hs (rw e at f)
  ]

  filled_slots-All :
      (none_slot : E) (name : Text) (filled : List ℕ) (at : Option ℕ) (value : E) (slots : List E)
      (slots' : List E) (filled' : List ℕ)
      → C none_slot
      → C value
      → All C slots
      → filled_slots none_slot name filled at value slots ≡ inr (slots', filled')
      → All C slots'
  unfolding filled_slots
  filled_slots-All none_slot name filled none value slots slots' filled' h k ks e = absurd cc
  filled_slots-All none_slot name filled (some i) value slots slots' filled' h k ks e =
      elim (Bool-cases (is_filled i filled)) [
        | inl p ↦
            let nothing : ◌≡◌ {A = LoweringError ⊎ (List E × List ℕ)}
                (inl (unsupported (codes "duplicate argument " ++ name))) (inr (slots', filled')) =
              rw p at e in
            absurd cc
        | inr p ↦
            let q : ◌≡◌ {A = LoweringError ⊎ (List E × List ℕ)}
                (inr (fill_slot none_slot slots i value, i ∷ filled)) (inr (slots', filled')) =
              rw p at e in
            let filled_in : fill_slot none_slot slots i value ≡ slots' = cc in
            subst (All C) filled_in (
              unfold fill_slot in
              All-set _ i value
                (All-append slots _ ks (All-replicate (i + 1 - length slots) none_slot h)) k)
      ]

  next_slots_cases :
      (r : LoweringError ⊎ (List E × List ℕ)) (k : List E → List ℕ → LoweringError ⊎ List E)
      (xs : List E)
      → next_slots r k ≡ inr xs
      → (slots : List E) × (filled : List ℕ) × (r ≡ inr (slots, filled)) × (k slots filled ≡ inr xs)
  unfolding next_slots
  next_slots_cases (inl e) k xs h = absurd cc
  next_slots_cases (inr (slots, filled)) k xs h = (slots, filled, refl, h)

  bind_slots-All :
      (n : Names) (none_slot : E) (signature : List Text) (slots : List E) (filled : List ℕ)
      (kwargs : List (Text × E)) (xs : List E)
      → C none_slot
      → All C slots
      → All (λ (e : Text × E). C e.1) kwargs
      → bind_slots n none_slot signature slots filled kwargs ≡ inr xs
      → All C xs
  unfolding bind_slots
  bind_slots-All n none_slot signature slots filled [] xs h ks hs e =
      let q : slots ≡ xs = cc in subst (All C) q ks
  bind_slots-All n none_slot signature slots filled ((raw_name, value) ∷ kwargs) xs h ks (k, hs) e =
      let at = index_of_name (lstrip_stars (n.lower (strip raw_name))) 0 signature in
      let (slots', filled', p, q) =
        next_slots_cases (filled_slots none_slot raw_name filled at value slots) _ xs e in
      bind_slots-All n none_slot signature slots' filled' kwargs xs h
        (filled_slots-All none_slot raw_name filled at value slots slots' filled' h k ks p) hs q

  bind_to-All :
      (n : Names) (none_slot : E) (signature : Option (List Text)) (args : List E)
      (kwargs : List (Text × E)) (xs : List E)
      → C none_slot
      → All C args
      → All (λ (e : Text × E). C e.1) kwargs
      → bind_to n none_slot signature args kwargs ≡ inr xs
      → All C xs
  unfolding bind_to
  bind_to-All n none_slot none args kwargs xs h ks hs e = absurd cc
  bind_to-All n none_slot (some signature) args kwargs xs h ks hs e =
      bind_slots-All n none_slot signature args (range_set (length args)) kwargs xs h ks hs e

  pub bind_call_arguments-All :
      (n : Names) (none_slot : E) (name : Text) (args : List E) (kwargs : List (Text × E))
      (xs : List E)
      → C none_slot
      → All C args
      → All (λ (e : Text × E). C e.1) kwargs
      → bind_call_arguments n none_slot name args kwargs ≡ inr xs
      → All C xs
  unfolding bind_call_arguments
  bind_call_arguments-All n none_slot name = bind_to-All n none_slot (find name syscall_arguments)
