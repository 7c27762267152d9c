-- ===== src/Ledger/NewEntry.antt =====
-- A new entry of a ledger in src/mellowlang/ledger_core.py: what the checks say of it.
use mellow_programming_langu.Prelude.{
  ℕ, ◌≡◌, refl, sym, ap, ◌∙◌, inr, Bool, true, false, ◌||◌, some, List, [], ltb, length,
}
use mellow_programming_langu.Text.{Text, codes, text_eq, strip, is_empty}
use mellow_programming_langu.Text.Laws.{text_eq_refl}
use mellow_programming_langu.Ledger.Values.{
  Json, text, items, Jsons, Fields, no_fields, missing_id, broken_chain, currency_mismatch,
  unbalanced_entry, hash_mismatch, invalid_currency, Python, or_raise, get, get_default, or_default,
  without, is_text, text_or, checked_currency, currency,
}
use mellow_programming_langu.Ledger.Book.{body_of, hash_field}
use mellow_programming_langu.Ledger.Audit.{
  is_seen, check_postings, check_currency, check_hash, check_body, id_of, check_entry,
}
use mellow_programming_langu.Ledger.Fields.{and_then-inr, ensure-true, unless_cases}
use mellow_programming_langu.Ledger.Entries.{or_false, text_or_text}

module _ {N D : Type 0} (p : Python N D) where
  -- A currency that is written is read as it is.
  checked_cases :
      (t c : Text)
      → checked_currency p t ≡ inr c
      → (t ≡ c) × (is_empty t ≡ false) × (checked_currency p t ≡ inr t)
  unfolding checked_currency
  checked_cases t c h =
      let (e, k) = unless_cases (is_empty t || ltb 12 (length t)) invalid_currency (inr t) c h in
      let q : t ≡ c = cc in (q, (or_false (is_empty t) (ltb 12 (length t)) e).0, rw e refl)

  currency_text : (v : Json N) (c : Text) → currency p v ≡ inr c → currency p (text c) ≡ inr c
  unfolding currency
  currency_text v c h =
      let u = strip (text_or p (codes "USD") v) in
      let (q, filled, k) = checked_cases (p.upper u) c h in
      let filled' : is_empty c ≡ false = ap is_empty (sym q) ∙ filled in
      let same : p.upper (strip (text_or p (codes "USD") (text c))) ≡ c =
        ap (λ (t : Text). p.upper (strip t)) (text_or_text p (codes "USD") c filled' ∙ sym q)
        ∙ p.upper_upper (text_or p (codes "USD") v)
        ∙ q in
      ap (checked_currency p) (same ∙ sym q) ∙ k ∙ ap (λ (t : Text). inr t) q

  check_currency_same :
      (index : ℕ) (source : Json N) (c : Text)
      → currency p source ≡ inr c
      → check_currency p index (text c) source ≡ inr true
  unfolding check_currency
  check_currency_same index source c h =
      and_then-inr (currency p (text c)) _ c (currency_text source c h)
      ∙ and_then-inr (currency p source) _ c h
      ∙ ap (λ (b : Bool). inr b) (text_eq_refl c)

  -- The parts of an entry.
  pub record EntryParts : Type 0 where
    pub id : Text
    pub c : Text
    pub memo : Text
    pub previous : Text
    pub hash : Text
    pub rows : Jsons N
    pub meta : Json N

  abbrev pub entry_of : EntryParts → Fields N
  entry_of q = body_of p q.id q.c q.rows q.memo q.meta q.previous (hash_field p q.hash)

  check_hash_of :
      (index : ℕ) (q : EntryParts)
      → p.canonical_hash (body_of p q.id q.c q.rows q.memo q.meta q.previous no_fields)
        ≡ some q.hash
      → check_hash p index (entry_of q) ≡ inr q.hash
  unfolding check_hash body_of hash_field without get text_eq or_raise
  check_hash_of index q h =
      and_then-inr
        (or_raise (p.hash_error (without (codes "hash") (entry_of q)))
          (p.canonical_hash (without (codes "hash") (entry_of q))))
        _ q.hash (rw h refl)
      ∙ ensure-true _ (hash_mismatch index) (inr q.hash) (unfold is_text in text_eq_refl q.hash)

  check_body_of :
      (index : ℕ) (source : Json N) (q : EntryParts) (total : D)
      → currency p source ≡ inr q.c
      → check_postings p index (items q.rows) ≡ inr total
      → p.is_zero total ≡ true
      → p.canonical_hash (body_of p q.id q.c q.rows q.memo q.meta q.previous no_fields)
        ≡ some q.hash
      → check_body p index source (entry_of q) ≡ inr q.hash
  unfolding check_body body_of hash_field get_default get or_default text_eq
  check_body_of index source q total coin sum even hashed =
      and_then-inr (check_currency p index (text q.c) source) _ true
        (check_currency_same index source q.c coin)
      ∙ ensure-true true (currency_mismatch index) _ refl
      ∙ and_then-inr (check_postings p index (items q.rows)) _ total sum
      ∙ ensure-true (p.is_zero total) (unbalanced_entry index) _ even
      ∙ check_hash_of index q hashed

  id_of_entry : (q : EntryParts) → is_empty q.id ≡ false → id_of p (entry_of q) ≡ q.id
  unfolding id_of body_of get_default get or_default text_eq
  id_of_entry q h = text_or_text p [] q.id h

  -- A new entry passes the checks.
  pub check_entry_of :
      (index : ℕ) (source : Json N) (h : Text) (seen : List Text) (q : EntryParts) (total : D)
      → is_empty q.id ≡ false
      → is_seen q.id seen ≡ false
      → text_eq q.previous h ≡ true
      → currency p source ≡ inr q.c
      → check_postings p index (items q.rows) ≡ inr total
      → p.is_zero total ≡ true
      → p.canonical_hash (body_of p q.id q.c q.rows q.memo q.meta q.previous no_fields)
        ≡ some q.hash
      → check_entry p index source h seen (entry_of q) ≡ inr q.hash
  unfolding check_entry
  check_entry_of index source h seen q total some_id unseen chained coin sum even hashed =
      let link : is_text (get (codes "previous_hash") (entry_of q)) h ≡ true =
        unfold body_of get is_text text_eq in chained in
      ensure-true _ (missing_id index) _ (rw (id_of_entry q some_id, some_id, unseen) refl)
      ∙ ensure-true (is_text (get (codes "previous_hash") (entry_of q)) h) (broken_chain index) _
          link
      ∙ check_body_of index source q total coin sum even hashed
