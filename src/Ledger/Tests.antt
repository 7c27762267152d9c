-- ===== src/Ledger/Tests.antt =====
-- A ledger with amounts in strokes, and its first transaction.
use mellow_programming_langu.Prelude.{
  ℕ, zero, suc, ◌≡◌, refl, sym, ap, ◌∙◌, inr, Bool, true, false, not, Option, none, some, [], ◌∷◌,
  ◌==◌, if◌then◌else◌, length, drop, replicate,
}
use mellow_programming_langu.Prelude.Int.{ℤ, pos, negsuc, ◌+ℤ◌}
use mellow_programming_langu.Text.{Text, codes, text_eq, strip, lstrip, rstrip, is_space, is_empty}
use mellow_programming_langu.Ledger.Values.{
  without, count_items, Json, null, text, num, items, fields, truth, no_items, next_item, Fields,
  no_fields, next_field, not_serializable, Python, and_then, or_raise, get, get_default, or_default,
  put_field, append_item, count_items, is_text, is_truthy, text_or, amount_value, amount,
  checked_currency, currency,
}
use mellow_programming_langu.Ledger.Book.{
  genesis, entries_of, require_ledger, has_id, row_of, with_account, posting, normalize, balanced,
  normalized_rows, body_of, hash_field, head_of, extended, append_entry, post_to, post, metadata_of,
}
use mellow_programming_langu.Ledger.Audit.{
  verified, check_entry, check_body, check_hash, check_currency, check_postings, total_of,
  row_amount, id_of, is_seen, check_entries, check_ledger, report, verify, ensure,
}
use mellow_programming_langu.Ledger.Tampering.{Alike, verify-Alike}
use mellow_programming_langu.Ledger.Chain.{verify-post}

abbrev written : ℤ → Text
written (pos n) = replicate n b'1'
written (negsuc n) = b'-' ∷ replicate (suc n) b'1'

abbrev below : ℕ → Option ℤ
below zero = none
below (suc n) = some (negsuc n)

abbrev strokes : Text → Option ℤ
strokes [] = some (pos 0)
strokes (c ∷ t) = if c == b'-' then below (length t) else some (pos (suc (length t)))

length-replicate : (n c : ℕ) → length (replicate n c) ≡ n
length-replicate zero c = refl
length-replicate (suc n) c = ap suc (length-replicate n c)

strokes-written : (d : ℤ) → strokes (written d) ≡ some d
strokes-written (pos zero) = refl
strokes-written (pos (suc n)) = ap (λ (k : ℕ). some (pos (suc k))) (length-replicate n b'1')
strokes-written (negsuc n) = ap (λ (k : ℕ). below (suc k)) (length-replicate n b'1')

abbrev shown : Json ℕ → Text
shown (text t) = t
shown _ = codes "?"

abbrev none_left : ℤ → Bool
none_left (pos zero) = true
none_left _ = false

-- A hash of the previous hash.
abbrev link_hash : Option (Json ℕ) → Option Text
link_hash (some (text t)) = some (b'#' ∷ t)
link_hash _ = none

link_hash_cases :
    (o : Option (Json ℕ)) (h : Text)
    → link_hash o ≡ some h
    → (t : Text) × (o ≡ some (text t)) × (b'#' ∷ t ≡ h)
link_hash_cases (some (text t)) h e = let q : b'#' ∷ t ≡ h = cc in (t, refl, q)
link_hash_cases none h e = absurd cc
link_hash_cases (some null) h e = absurd cc
link_hash_cases (some (truth b)) h e = absurd cc
link_hash_cases (some (num n)) h e = absurd cc
link_hash_cases (some (items xs)) h e = absurd cc
link_hash_cases (some (fields f)) h e = absurd cc

link_hash_filled : (o : Option (Json ℕ)) (h : Text) → link_hash o ≡ some h → is_empty h ≡ false
link_hash_filled o h e = let (t, p, q) = link_hash_cases o h e in ap is_empty (sym q)

link_hash_unique :
    (o o' : Option (Json ℕ)) (h : Text) → link_hash o ≡ some h → link_hash o' ≡ some h → o ≡ o'
link_hash_unique o o' h e e' =
    let (t, p, q) = link_hash_cases o h e in
    let (t', p', q') = link_hash_cases o' h e' in
    p ∙ ap (λ (x : Text). some (text (drop 1 x))) (q ∙ sym q') ∙ sym p'

abbrev python : Python ℕ ℤ
python = record {
  str = shown;
  num_truthy = λ n. not (n == 0);
  upper = λ t. codes "USD";
  zero_amount = pos 0;
  add = λ a b. a +ℤ b;
  is_zero = none_left;
  parse = strokes;
  format = written;
  canonical_hash = λ f. link_hash (get (codes "previous_hash") f);
  hash_error = λ f. not_serializable;
  str_text = λ t. refl;
  upper_upper = λ t. refl;
  parse_format = λ t d e. strokes-written d;
  hash_text = λ f h e. link_hash_filled (get (codes "previous_hash") f) h e;
}

abbrev row : Text → Text → Json ℕ
row account units = fields (
    next_field (codes "account") (text account)
      (next_field (codes "amount") (text units) no_fields))

abbrev rows : Json ℕ
rows = items (
    next_item (row (codes "cash") (codes "11"))
      (next_item (row (codes "sales") (codes "-11")) no_items))

abbrev opened : Json ℕ
opened = fields (
    next_field (codes "type") (text (codes "ledger")) (
      next_field (codes "currency") (text (codes "USD")) (
        next_field (codes "entries") (items no_items)
          (next_field (codes "head") (text genesis) no_fields))))

abbrev first : Text → Json ℕ
first memo = fields (
    next_field (codes "id") (text (codes "t1")) (
      next_field (codes "currency") (text (codes "USD")) (
        next_field (codes "postings") rows (
          next_field (codes "memo") (text memo) (
            next_field (codes "metadata") (fields no_fields) (
              next_field (codes "previous_hash") (text genesis)
                (next_field (codes "hash") (text (b'#' ∷ genesis)) no_fields)))))))

abbrev posted : Text → Json ℕ
posted memo = fields (
    next_field (codes "type") (text (codes "ledger")) (
      next_field (codes "currency") (text (codes "USD")) (
        next_field (codes "entries") (items (next_item (first memo) no_items))
          (next_field (codes "head") (text (b'#' ∷ genesis)) no_fields))))

opened_verified : verify python opened ≡ verified 0 genesis
unfolding verify report check_ledger require_ledger entries_of check_entries head_of count_items
    ensure and_then get_default get or_default is_text text_or is_truthy text_eq
opened_verified = refl

first_posted : post python opened (text (codes " t1")) rows null null ≡ inr (posted [])
unfolding post post_to append_entry extended head_of normalized_rows normalize balanced posting
    with_account row_of metadata_of body_of hash_field has_id require_ledger entries_of and_then
    or_raise get_default get or_default put_field append_item is_text is_truthy text_or amount
    amount_value currency checked_currency text_eq strip lstrip rstrip is_space ◌+ℤ◌
first_posted = refl

verify-post_example : (h : Text) × (verify python (posted []) ≡ verified 1 h)
verify-post_example =
    verify-post python opened (text (codes " t1")) rows null null (posted []) 0 genesis
      opened_verified first_posted

posted_verified : (memo : Text) → verify python (posted memo) ≡ verified 1 (b'#' ∷ genesis)
unfolding verify report check_ledger require_ledger entries_of check_entries check_entry check_body
    check_hash check_currency check_postings total_of row_amount id_of is_seen head_of count_items
    ensure and_then or_raise get get_default or_default without is_text is_truthy text_or amount
    amount_value currency checked_currency text_eq strip lstrip rstrip is_space ◌+ℤ◌
posted_verified memo = refl

posted_entries :
    (memo : Text)
    → (f : Fields ℕ) × (require_ledger python (posted memo)
        ≡ inr (f, next_item (first memo) no_items))
unfolding require_ledger entries_of get get_default or_default is_text text_eq
posted_entries memo = (_, refl)

abbrev SamePrevious : Fields ℕ → Fields ℕ → Type 0
SamePrevious f g = get (codes "previous_hash") f ≡ get (codes "previous_hash") g

verify-Alike_example :
    Alike SamePrevious (next_item (first []) no_items) (next_item (first (codes "gift")) no_items)
verify-Alike_example =
    verify-Alike python SamePrevious
      (λ f g h e e'.
        link_hash_unique (get (codes "previous_hash") f) (get (codes "previous_hash") g) h e e')
      (λ f g t e q. sym e ∙ q) (posted []) (posted (codes "gift")) (posted_entries []).0
      (posted_entries (codes "gift")).0 (next_item (first []) no_items)
      (next_item (first (codes "gift")) no_items) 1 (b'#' ∷ genesis) (posted_entries []).1
      (posted_entries (codes "gift")).1 (posted_verified []) (posted_verified (codes "gift"))
