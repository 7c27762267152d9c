-- ===== src/Ledger/Audit.antt =====
-- src/mellowlang/ledger_core.py: a ledger is verified.
use mellow_programming_langu.Prelude.{
  ℕ, ◌+◌, ◌⊎◌, inl, inr, Bool, true, false, not, ◌||◌, List, [], ◌∷◌,
}
use mellow_programming_langu.Text.{Text, codes, text_eq, is_empty}
use mellow_programming_langu.Ledger.Values.{
  Json, null, text, items, fields, Jsons, no_items, next_item, Fields, LedgerError, invalid_entry,
  missing_id, broken_chain, currency_mismatch, invalid_postings, invalid_posting, unbalanced_entry,
  hash_mismatch, head_mismatch, Python, and_then, or_raise, get, get_default, without, count_items,
  is_text, text_or, amount, currency,
}
use mellow_programming_langu.Ledger.Book.{genesis, require_ledger, head_of}

-- What `verify` returns.
pub data Report : Type 0 where
  verified : ℕ → Text → Report
  refused : LedgerError → Report

-- `tx_id in seen`
unfoldable pub is_seen : Text → List Text → Bool
unfolding text_eq
is_seen id [] = false
is_seen id (s ∷ seen) = text_eq s id || is_seen id seen

-- A check that raises.
unfoldable pub ensure : {A : Type 0} → Bool → LedgerError → LedgerError ⊎ A → LedgerError ⊎ A
ensure true e r = r
ensure false e r = inl e

module _ {N D : Type 0} (p : Python N D) where
  unfoldable pub row_amount : ℕ → Json N → LedgerError ⊎ D
  unfolding amount get_default
  row_amount index (fields f) = amount p (get_default (codes "amount") (text (codes "0")) f)
  row_amount index _ = inl (invalid_posting index)

  -- The loop over the postings of an entry.
  unfoldable pub total_of : ℕ → D → Jsons N → LedgerError ⊎ D
  unfolding and_then row_amount
  total_of index total no_items = inr total
  total_of index total (next_item row rows) =
      and_then (row_amount index row) λ d. total_of index (p.add total d) rows

  unfoldable pub check_postings : ℕ → Json N → LedgerError ⊎ D
  unfolding total_of
  check_postings index (items rows) = total_of index p.zero_amount rows
  check_postings index _ = inl (invalid_postings index)

  -- The currencies of the entry and of the ledger are the same.
  unfoldable pub check_currency : ℕ → Json N → Json N → LedgerError ⊎ Bool
  unfolding and_then currency text_eq
  check_currency index c source =
      and_then (currency p c) λ a. and_then (currency p source) λ b. inr (text_eq a b)

  -- The rest of the checks of an entry: its hash is the result.
  unfoldable pub check_hash : ℕ → Fields N → LedgerError ⊎ Text
  unfolding and_then or_raise without ensure is_text get
  check_hash index f =
      let body = without (codes "hash") f in
      and_then (or_raise (p.hash_error body) (p.canonical_hash body))
        λ h. ensure (is_text (get (codes "hash") f) h) (hash_mismatch index) (inr h)

  unfoldable pub check_body : ℕ → Json N → Fields N → LedgerError ⊎ Text
  unfolding and_then check_currency check_postings check_hash ensure get_default
  check_body index source_currency f =
      and_then (check_currency index (get_default (codes "currency") null f) source_currency)
        λ same. ensure same (currency_mismatch index) (
          and_then (check_postings index (get_default (codes "postings") null f))
            λ total. ensure (p.is_zero total) (unbalanced_entry index) (check_hash index f))

  -- `str(entry.get("id") or "")`
  unfoldable pub id_of : Fields N → Text
  unfolding text_or get_default
  id_of f = text_or p [] (get_default (codes "id") null f)

  -- One round of the loop over the entries.
  unfoldable pub check_entry : ℕ → Json N → Text → List Text → Fields N → LedgerError ⊎ Text
  unfolding is_seen is_text id_of check_body get ensure
  check_entry index source_currency previous seen f =
      ensure (not (is_empty (id_of f) || is_seen (id_of f) seen)) (missing_id index) (
        ensure (is_text (get (codes "previous_hash") f) previous) (broken_chain index)
          (check_body index source_currency f))

  unfoldable pub check_entries : ℕ → Json N → Text → List Text → Jsons N → LedgerError ⊎ Text
  unfolding and_then check_entry id_of
  check_entries index source_currency previous seen no_items = inr previous
  check_entries index source_currency previous seen (next_item (fields f) es) =
      and_then (check_entry index source_currency previous seen f)
        λ h. check_entries (index + 1) source_currency h (id_of f ∷ seen) es
  check_entries index source_currency previous seen (next_item _ es) = inl (invalid_entry index)

  unfoldable pub check_ledger : Json N → LedgerError ⊎ (ℕ × Text)
  unfolding and_then require_ledger check_entries head_of ensure text_eq get_default count_items
  check_ledger ledger = and_then (require_ledger p ledger) λ r.
      and_then (check_entries 0 (get_default (codes "currency") null r.0) genesis [] r.1)
        λ h. ensure (text_eq (head_of p r.0) h) head_mismatch (inr (count_items r.1, h))

  unfoldable pub report : LedgerError ⊎ (ℕ × Text) → Report
  report (inl e) = refused e
  report (inr (count, head)) = verified count head

  -- `verify`
  unfoldable pub verify : Json N → Report
  unfolding check_ledger report
  verify ledger = report (check_ledger ledger)
