-- ===== src/Ledger/Postings.antt =====
-- The rows of a transaction in src/mellowlang/ledger_core.py, as they are posted and verified.
use mellow_programming_langu.Prelude.{ℕ, ◌≡◌, ap, ◌∙◌, subst, ◌⊎◌, inl, inr, true, some, Bool-cases}
use mellow_programming_langu.Text.{Text, codes, text_eq, is_empty}
use mellow_programming_langu.Ledger.Values.{
  Json, null, truth, num, text, items, fields, Jsons, no_items, next_item, LedgerError, Python,
  or_raise, get, get_default, or_default, amount_value, amount, unbalanced,
}
use mellow_programming_langu.Ledger.Book.{
  row_of, with_account, posting, normalize, balanced, normalized_rows,
}
use mellow_programming_langu.Ledger.Audit.{row_amount, total_of, check_postings}
use mellow_programming_langu.Ledger.Fields.{
  and_then_cases, and_then-inr, raised_cases, unless_cases,
}

module _ {N D : Type 0} (p : Python N D) where
  amount_result :
      (v : Json N) (d : D) → amount p v ≡ inr d → p.parse (p.str (amount_value p v)) ≡ some d
  unfolding amount
  amount_result v d h = raised_cases _ _ d h

  with_account_row :
      (index : ℕ) (account : Text) (v row : Json N) (d : D)
      → with_account p account (amount p v) ≡ inr (row, d)
      → row_amount p index row ≡ inr d
  unfolding with_account row_of
  with_account_row index account v row d h =
      let (e, k) = unless_cases (is_empty account) _ _ (row, d) h in
      let (x, q, l) = and_then_cases (amount p v) (λ x. inr (row_of p account x, x)) (row, d) k in
      let same : x ≡ d = cc in
      let written : row_of p account x ≡ row = cc in
      let read : p.parse (p.format x) ≡ some x =
        p.parse_format (p.str (amount_value p v)) x (amount_result v x q) in
      subst (λ (r : Json N). row_amount p index r ≡ inr d) written
        (unfold row_of row_amount get_default get or_default amount amount_value or_raise text_eq in
          rw (p.str_text (p.format x), read) (ap (λ (y : D). inr y) same))

  posting_row :
      (index : ℕ) (v row : Json N) (d : D)
      → posting p v ≡ inr (row, d)
      → row_amount p index row ≡ inr d
  unfolding posting
  posting_row index (fields f) row d h =
      with_account_row index _ (get_default (codes "amount") (text (codes "0")) f) row d h
  posting_row index null row d h = absurd cc
  posting_row index (truth b) row d h = absurd cc
  posting_row index (num n) row d h = absurd cc
  posting_row index (text t) row d h = absurd cc
  posting_row index (items xs) row d h = absurd cc

  -- The normalized rows have the amounts of the rows.
  total_of-normalize :
      (index : ℕ) (total : D) (rows : Jsons N) (out : Jsons N) (sum : D)
      → normalize p total rows ≡ inr (out, sum)
      → total_of p index total out ≡ inr sum
  unfolding normalize total_of
  total_of-normalize index total no_items out sum h =
      let q : no_items ≡ out = cc in
      let r : total ≡ sum = cc in
      subst (λ (o : Jsons N). total_of p index total o ≡ inr sum) q (ap (λ (d : D). inr d) r)
  total_of-normalize index total (next_item row rows) out sum h =
      let ((row', d), e, k) = and_then_cases (posting p row) _ (out, sum) h in
      let ((more, s), e', k') = and_then_cases (normalize p (p.add total d) rows) _ (out, sum) k in
      let q : next_item row' more ≡ out = cc in
      let r : s ≡ sum = cc in
      subst (λ (o : Jsons N). total_of p index total o ≡ inr sum) q
        (and_then-inr (row_amount p index row') _ d (posting_row index row row' d e)
          ∙ total_of-normalize index (p.add total d) rows more s e'
          ∙ ap (λ (x : D). inr x) r)

  balanced_cases :
      (out : Jsons N) (sum : D) (rows : Jsons N)
      → balanced p (out, sum) ≡ inr rows
      → (p.is_zero sum ≡ true) × (out ≡ rows)
  unfolding balanced
  balanced_cases out sum rows h = elim (Bool-cases (p.is_zero sum)) [
    | inl z ↦
        let k : ◌≡◌ {A = LedgerError ⊎ Jsons N} (inr out) (inr rows) = rw z at h in
        let q : out ≡ rows = cc in (z, q)
    | inr z ↦
        let k : ◌≡◌ {A = LedgerError ⊎ Jsons N} (inl unbalanced) (inr rows) = rw z at h in absurd cc
  ]

  pub normalized_balance :
      (index : ℕ) (postings : Json N) (rows : Jsons N)
      → normalized_rows p postings ≡ inr rows
      → (total : D) × (check_postings p index (items rows) ≡ inr total) × (p.is_zero total ≡ true)
  unfolding normalized_rows check_postings
  normalized_balance index (items (next_item r (next_item r' rs))) rows h =
      let ((out, sum), e, k) =
        and_then_cases (normalize p p.zero_amount (next_item r (next_item r' rs))) (balanced p) rows
          h in
      let (z, q) = balanced_cases out sum rows k in
      (
        sum,
        subst (λ (o : Jsons N). total_of p index p.zero_amount o ≡ inr sum) q
            (total_of-normalize index p.zero_amount (next_item r (next_item r' rs)) out sum e),
        z,
      )
  normalized_balance index (items no_items) rows h = absurd cc
  normalized_balance index (items (next_item r no_items)) rows h = absurd cc
  normalized_balance index null rows h = absurd cc
  normalized_balance index (truth b) rows h = absurd cc
  normalized_balance index (num n) rows h = absurd cc
  normalized_balance index (text t) rows h = absurd cc
  normalized_balance index (fields f) rows h = absurd cc
