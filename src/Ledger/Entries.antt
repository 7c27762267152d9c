-- ===== src/Ledger/Entries.antt =====
-- The entries of a ledger in src/mellowlang/ledger_core.py, and the checks of them in order.
use mellow_programming_langu.Prelude.{
  ℕ, ◌+◌, ◌≡◌, refl, ap, ◌∙◌, inl, inr, Bool, true, false, not, ◌||◌, List, [], ◌∷◌, arith,
  Bool-cases,
}
use mellow_programming_langu.Text.{Text, codes, text_eq, is_empty}
use mellow_programming_langu.Ledger.Values.{
  Json, null, truth, num, text, items, fields, Jsons, no_items, next_item, Fields, missing_id,
  broken_chain, Python, get, get_default, append_item, count_items, is_text, is_truthy, text_or,
}
use mellow_programming_langu.Ledger.Book.{has_id}
use mellow_programming_langu.Ledger.Audit.{
  is_seen, ensure, check_body, id_of, check_entry, check_entries,
}
use mellow_programming_langu.Ledger.Fields.{and_then_cases, and_then-inr, ensure_cases}

pub or_false : (a b : Bool) → (a || b) ≡ false → (a ≡ false) × (b ≡ false)
or_false true b h = absurd cc
or_false false b h = (refl, h)

or_not : (a b : Bool) → not (a || b) ≡ true → (a ≡ false) × (b ≡ false)
or_not true b h = absurd cc
or_not false true h = absurd cc
or_not false false h = (refl, refl)

module _ {N D : Type 0} (p : Python N D) where
  -- `str(v or default)` of a text that is not empty
  pub text_or_text : (default t : Text) → is_empty t ≡ false → text_or p default (text t) ≡ t
  unfolding text_or is_truthy
  text_or_text default t h = rw h (p.str_text t)

  id_of_str :
      (f : Fields N)
      → is_empty (id_of p f) ≡ false
      → id_of p f ≡ p.str (get_default (codes "id") null f)
  unfolding id_of text_or
  id_of_str f h = elim (Bool-cases (is_truthy p (get_default (codes "id") null f))) [
    | inl e ↦ rw e refl
    | inr e ↦
        let empty : is_empty (p.str (text [])) ≡ false = rw e at h in
        let no : is_empty (p.str (text [])) ≡ true = ap is_empty (p.str_text []) in absurd cc
  ]

  -- The checks of the entries go on behind them, with ids seen that do not have a new one.
  pub check_entries-append_item :
      (index : ℕ) (source : Json N) (previous : Text) (seen : List Text) (es : Jsons N) (e : Json N)
      (h id : Text)
      → check_entries p index source previous seen es ≡ inr h
      → has_id p id es ≡ false
      → is_seen id seen ≡ false
      → (seen' : List Text) × (is_seen id seen' ≡ false)
        × (check_entries p index source previous seen (append_item es e)
            ≡ check_entries p (index + count_items es) source h seen' (next_item e no_items))
  unfolding check_entries append_item count_items
  check_entries-append_item index source previous seen no_items e h id k new fresh =
      let q : previous ≡ h = cc in
      (
        seen,
        fresh,
        ap (λ (i : ℕ). check_entries p i source previous seen (next_item e no_items)) (omega arith)
            ∙ ap (λ (t : Text). check_entries p (index + 0) source t seen (next_item e no_items)) q,
      )
  check_entries-append_item index source previous seen (next_item (fields f) es) e h id k new
        fresh =
      let (h', q, rest) =
        and_then_cases (check_entry p index source previous seen f)
          (λ h. check_entries p (index + 1) source h (id_of p f ∷ seen) es) h k in
      let (some_id, body) =
        ensure_cases (not (is_empty (id_of p f) || is_seen (id_of p f) seen)) (missing_id index)
          (ensure (is_text (get (codes "previous_hash") f) previous) (broken_chain index)
            (check_body p index source f))
          h' (unfold check_entry in q) in
      let (filled, unseen) = or_not (is_empty (id_of p f)) (is_seen (id_of p f) seen) some_id in
      let (other, later) =
        or_false (text_eq (p.str (get_default (codes "id") null f)) id) (has_id p id es)
          (unfold has_id in new) in
      let other' : text_eq (id_of p f) id ≡ false =
        ap (λ (t : Text). text_eq t id) (id_of_str f filled) ∙ other in
      let fresh' : is_seen id (id_of p f ∷ seen) ≡ false = unfold is_seen in rw other' fresh in
      let (seen', unseen', after) =
        check_entries-append_item (index + 1) source h' (id_of p f ∷ seen) es e h id rest later
          fresh' in
      (
        seen',
        unseen',
        and_then-inr (check_entry p index source previous seen f) _ h' q
            ∙ after
            ∙ ap (λ (i : ℕ). check_entries p i source h seen' (next_item e no_items)) (omega arith),
      )
  check_entries-append_item index source previous seen (next_item null es) e h id k new fresh =
      absurd cc
  check_entries-append_item index source previous seen (next_item (truth b) es) e h id k new fresh =
      absurd cc
  check_entries-append_item index source previous seen (next_item (num n) es) e h id k new fresh =
      absurd cc
  check_entries-append_item index source previous seen (next_item (text t) es) e h id k new fresh =
      absurd cc
  check_entries-append_item index source previous seen (next_item (items xs) es) e h id k new
        fresh =
      absurd cc
