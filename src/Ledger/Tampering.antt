-- ===== src/Ledger/Tampering.antt =====
-- What the hashes of src/mellowlang/ledger_core.py say of two ledgers that verify.
use mellow_programming_langu.Prelude.{
  ℕ, ◌+◌, ◌≡◌, refl, sym, ap, ◌∙◌, subst, ◌⊎◌, inl, inr, true, false, Option, none, some, List, [],
  ◌∷◌, arith, Bool-cases,
}
use mellow_programming_langu.Text.{Text, codes, text_eq}
use mellow_programming_langu.Text.Laws.{text_eq→eq}
use mellow_programming_langu.Ledger.Values.{
  Json, null, truth, num, text, items, fields, Jsons, no_items, next_item, Fields, no_fields,
  next_field, LedgerError, missing_id, broken_chain, currency_mismatch, unbalanced_entry, Python,
  or_raise, get, get_default, count_items, without, is_text,
}
use mellow_programming_langu.Ledger.Book.{genesis, require_ledger, head_of}
use mellow_programming_langu.Ledger.Audit.{
  verified, check_postings, check_currency, check_hash, check_body, id_of, check_entry,
  check_entries, check_ledger, verify,
}
use mellow_programming_langu.Ledger.Fields.{
  and_then_cases, and_then-inr, raised_cases, ensure_cases,
}
use mellow_programming_langu.Ledger.Chain.{verify_passed}

-- The entries of two ledgers have the same data, but for their own hashes.
pub data Alike {N : Type 0} (Same : Fields N → Fields N → Type 0) : Jsons N → Jsons N → Type 0 where
  both_end : Alike Same no_items no_items
  both_next :
      (f g : Fields N) (es es' : Jsons N)
      → Same (without (codes "hash") f) (without (codes "hash") g)
      → Alike Same es es'
      → Alike Same (next_item (fields f) es) (next_item (fields g) es')

module _ {N : Type 0} where
  is_text_cases : (o : Option (Json N)) (t : Text) → is_text o t ≡ true → o ≡ some (text t)
  unfolding is_text
  is_text_cases none t h = absurd cc
  is_text_cases (some (text s)) t h = ap (λ (x : Text). some (text x)) (text_eq→eq s t h)
  is_text_cases (some null) t h = absurd cc
  is_text_cases (some (truth b)) t h = absurd cc
  is_text_cases (some (num n)) t h = absurd cc
  is_text_cases (some (items xs)) t h = absurd cc
  is_text_cases (some (fields f)) t h = absurd cc

  get-without_ne :
      (key name : Text) (f : Fields N)
      → text_eq key name ≡ false
      → get name (without key f) ≡ get name f
  unfolding get without
  get-without_ne key name no_fields h = refl
  get-without_ne key name (next_field other v f) h = elim (Bool-cases (text_eq other key)) [
    | inl e ↦
        let q : text_eq other name ≡ false =
          ap (λ (t : Text). text_eq t name) (text_eq→eq other key e) ∙ h in
        rw (e, q) (get-without_ne key name f h)
    | inr e ↦ elim (Bool-cases (text_eq other name)) [
      | inl q ↦ rw (e, q) refl
      | inr q ↦ rw (e, q) (get-without_ne key name f h)
    ]
  ]

module _ {N D : Type 0} (p : Python N D) where
  check_hash_cases :
      (index : ℕ) (f : Fields N) (h : Text)
      → check_hash p index f ≡ inr h
      → p.canonical_hash (without (codes "hash") f) ≡ some h
  unfolding check_hash
  check_hash_cases index f h k =
      let (hash, a, b) =
        and_then_cases
          (or_raise (p.hash_error (without (codes "hash") f))
            (p.canonical_hash (without (codes "hash") f)))
          _ h k in
      let (e, r) = ensure_cases (is_text (get (codes "hash") f) hash) _ (inr hash) h b in
      let q : hash ≡ h = cc in raised_cases _ _ hash a ∙ ap (λ (t : Text). some t) q

  check_body_cases :
      (index : ℕ) (source : Json N) (f : Fields N) (h : Text)
      → check_body p index source f ≡ inr h
      → p.canonical_hash (without (codes "hash") f) ≡ some h
  unfolding check_body
  check_body_cases index source f h k =
      let (same, a, k1) =
        and_then_cases (check_currency p index (get_default (codes "currency") null f) source) _ h
          k in
      let (e, k2) = ensure_cases same (currency_mismatch index) _ h k1 in
      let (total, b, k3) =
        and_then_cases (check_postings p index (get_default (codes "postings") null f)) _ h k2 in
      let (e', k4) = ensure_cases (p.is_zero total) (unbalanced_entry index) _ h k3 in
      check_hash_cases index f h k4

  check_entry_cases :
      (index : ℕ) (source : Json N) (previous : Text) (seen : List Text) (f : Fields N) (h : Text)
      → check_entry p index source previous seen f ≡ inr h
      → (get (codes "previous_hash") f ≡ some (text previous))
        × (p.canonical_hash (without (codes "hash") f) ≡ some h)
  unfolding check_entry
  check_entry_cases index source previous seen f h k =
      let (a, k1) = ensure_cases _ (missing_id index) _ h k in
      let (b, k2) =
        ensure_cases (is_text (get (codes "previous_hash") f) previous) (broken_chain index) _ h
          k1 in
      (is_text_cases _ previous b, check_body_cases index source f h k2)

  check_entries_cases :
      (index : ℕ) (source : Json N) (previous : Text) (seen : List Text) (x : Json N) (es : Jsons N)
      (h : Text)
      → check_entries p index source previous seen (next_item x es) ≡ inr h
      → (f : Fields N) × (h1 : Text) × (fields f ≡ x)
        × (check_entry p index source previous seen f ≡ inr h1)
        × (check_entries p (index + 1) source h1 (id_of p f ∷ seen) es ≡ inr h)
  unfolding check_entries
  check_entries_cases index source previous seen (fields f) es h k =
      let (h1, a, b) = and_then_cases (check_entry p index source previous seen f) _ h k in
      (f, h1, refl, a, b)
  check_entries_cases index source previous seen null es h k = absurd cc
  check_entries_cases index source previous seen (truth b) es h k = absurd cc
  check_entries_cases index source previous seen (num n) es h k = absurd cc
  check_entries_cases index source previous seen (text t) es h k = absurd cc
  check_entries_cases index source previous seen (items xs) es h k = absurd cc

  get_previous :
      (f : Fields N)
      → get (codes "previous_hash") (without (codes "hash") f) ≡ get (codes "previous_hash") f
  unfolding text_eq
  get_previous f = get-without_ne (codes "hash") (codes "previous_hash") f refl

  -- The data of dictionaries with the same hash, and the hash of the previous entry in it.
  module _ (Same : Fields N → Fields N → Type 0)
      (unique : (f g : Fields N) (h : Text)
        → p.canonical_hash f ≡ some h
        → p.canonical_hash g ≡ some h
        → Same f g)
      (same_previous : (f g : Fields N) (t : Text)
        → Same f g
        → get (codes "previous_hash") f ≡ some (text t)
        → get (codes "previous_hash") g ≡ some (text t)) where
    check_entries-Alike :
        (i j : ℕ) (source source' : Json N) (previous previous' : Text) (seen seen' : List Text)
        (es es' : Jsons N) (h : Text)
        → count_items es ≡ count_items es'
        → check_entries p i source previous seen es ≡ inr h
        → check_entries p j source' previous' seen' es' ≡ inr h
        → Alike Same es es' × (previous ≡ previous')
    unfolding count_items
    check_entries-Alike i j source source' previous previous' seen seen' no_items no_items h c k
          k' =
        let a : ◌≡◌ {A = LedgerError ⊎ Text} (inr previous) (inr h) = unfold check_entries in k in
        let b : ◌≡◌ {A = LedgerError ⊎ Text} (inr previous') (inr h) = unfold check_entries in k' in
        let q : previous ≡ previous' = cc in (both_end, q)
    check_entries-Alike i j source source' previous previous' seen seen' no_items (next_item y es')
          h c k k' =
        absurd cc
    check_entries-Alike i j source source' previous previous' seen seen' (next_item x es) no_items h
          c k k' =
        absurd cc
    check_entries-Alike i j source source' previous previous' seen seen' (next_item x es)
          (next_item y es') h c k k' =
        let (f, h1, ef, cf, kf) = check_entries_cases i source previous seen x es h k in
        let (g, h2, eg, cg, kg) = check_entries_cases j source' previous' seen' y es' h k' in
        let (rest, q) =
          check_entries-Alike (i + 1) (j + 1) source source' h1 h2 (id_of p f ∷ seen)
            (id_of p g ∷ seen') es es' h (omega arith) kf kg in
        let (prev_f, hash_f) = check_entry_cases i source previous seen f h1 cf in
        let (prev_g, hash_g) = check_entry_cases j source' previous' seen' g h2 cg in
        let same =
          unique (without (codes "hash") f) (without (codes "hash") g) h2
            (hash_f ∙ ap (λ (t : Text). some t) q) hash_g in
        let read_g : get (codes "previous_hash") g ≡ some (text previous) =
          sym (get_previous g)
          ∙ same_previous (without (codes "hash") f) (without (codes "hash") g) previous same
              (get_previous f ∙ prev_f) in
        let both : ◌≡◌ {A = Option (Json N)} (some (text previous)) (some (text previous')) =
          sym read_g ∙ prev_g in
        let linked : previous ≡ previous' = cc in
        (
          subst (λ (x : Json N). Alike Same (next_item x es) (next_item y es')) ef
              (subst (λ (y : Json N). Alike Same (next_item (fields f) es) (next_item y es')) eg
                (both_next f g es es' same rest)),
          linked,
        )

    checked_entries :
        (ledger : Json N) (f : Fields N) (es : Jsons N) (n : ℕ) (h : Text)
        → require_ledger p ledger ≡ inr (f, es)
        → verify p ledger ≡ verified n h
        → (count_items es ≡ n)
          × (check_entries p 0 (get_default (codes "currency") null f) genesis [] es ≡ inr h)
    unfolding verify check_ledger
    checked_entries ledger f es n h r v =
        let passed : check_ledger p ledger ≡ inr (n, h) =
          verify_passed p (check_ledger p ledger) n h v in
        let (h', a, b) =
          and_then_cases (check_entries p 0 (get_default (codes "currency") null f) genesis [] es) _
            (n, h) (sym (and_then-inr (require_ledger p ledger) _ (f, es) r) ∙ passed) in
        let (e, c) =
          ensure_cases (text_eq (head_of p f) h') _ (inr (count_items es, h')) (n, h) b in
        let q : count_items es ≡ n = cc in
        let q' : h' ≡ h = cc in (q, a ∙ ap (λ (t : Text). inr t) q')

    -- When two ledgers verify with the same number of entries and the same head, their entries have
    -- the same data: this is so where dictionaries with one hash have the same data, the hash of the
    -- previous entry included.
    pub verify-Alike :
        (ledger ledger' : Json N) (f f' : Fields N) (es es' : Jsons N) (n : ℕ) (h : Text)
        → require_ledger p ledger ≡ inr (f, es)
        → require_ledger p ledger' ≡ inr (f', es')
        → verify p ledger ≡ verified n h
        → verify p ledger' ≡ verified n h
        → Alike Same es es'
    verify-Alike ledger ledger' f f' es es' n h r r' v v' =
        let (c, k) = checked_entries ledger f es n h r v in
        let (c', k') = checked_entries ledger' f' es' n h r' v' in
        (check_entries-Alike 0 0 (get_default (codes "currency") null f)
          (get_default (codes "currency") null f') genesis genesis [] [] es es' h (c ∙ sym c') k
          k').0
