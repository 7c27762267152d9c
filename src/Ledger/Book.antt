-- ===== src/Ledger/Book.antt =====
-- src/mellowlang/ledger_core.py: a ledger is created, and transactions are posted to it.
use mellow_programming_langu.Prelude.{
  ◌⊎◌, inl, inr, Bool, false, ◌||◌, [], if◌then◌else◌, replicate,
}
use mellow_programming_langu.Text.{Text, codes, text_eq, strip, is_empty}
use mellow_programming_langu.Ledger.Values.{
  Json, null, text, items, fields, num, Jsons, no_items, next_item, Fields, no_fields, next_field,
  LedgerError, expected_ledger, invalid_entries, id_required, few_postings, posting_not_map,
  account_required, unbalanced, duplicate_id, Python, and_then, or_raise, get, get_default,
  put_field, append_item, is_text, text_or, amount, currency,
}

-- `"0" * 64`
abbrev pub genesis : Text
genesis = replicate 64 b'0'

module _ {N D : Type 0} (p : Python N D) where
  unfoldable pub new_ledger : Text → N → Json N
  new_ledger c version = fields (
      next_field (codes "type") (text (codes "ledger")) (
        next_field (codes "version") (num version) (
          next_field (codes "currency") (text c) (
            next_field (codes "entries") (items no_items)
              (next_field (codes "head") (text genesis) no_fields)))))

  -- `create`, where `version` is the number 1
  unfoldable pub create : N → Json N → LedgerError ⊎ Json N
  unfolding and_then currency new_ledger
  create version v = and_then (currency p v) λ c. inr (new_ledger c version)

  unfoldable pub entries_of : Fields N → Json N → LedgerError ⊎ (Fields N × Jsons N)
  entries_of f (items es) = inr (f, es)
  entries_of f _ = inl invalid_entries

  -- `_require_ledger`: the dictionary with its entries
  unfoldable pub require_ledger : Json N → LedgerError ⊎ (Fields N × Jsons N)
  unfolding is_text get_default entries_of get
  require_ledger (fields f) =
      if is_text (get (codes "type") f) (codes "ledger")
      then entries_of f (get_default (codes "entries") null f)
      else inl expected_ledger
  require_ledger _ = inl expected_ledger

  -- An entry has the id.
  unfoldable pub has_id : Text → Jsons N → Bool
  unfolding get_default text_eq
  has_id id no_items = false
  has_id id (next_item (fields f) es) =
      text_eq (p.str (get_default (codes "id") null f)) id || has_id id es
  has_id id (next_item e es) = has_id id es

  unfoldable pub row_of : Text → D → Json N
  row_of account d = fields (
      next_field (codes "account") (text account)
        (next_field (codes "amount") (text (p.format d)) no_fields))

  unfoldable pub with_account : Text → LedgerError ⊎ D → LedgerError ⊎ (Json N × D)
  unfolding and_then row_of
  with_account account d =
      if is_empty account
      then inl account_required
      else and_then d (λ (x : D). inr (row_of account x, x))

  -- One row of the postings, normalized, with its amount.
  unfoldable pub posting : Json N → LedgerError ⊎ (Json N × D)
  unfolding with_account get_default text_or amount
  posting (fields f) =
      with_account (strip (text_or p [] (get_default (codes "account") null f)))
        (amount p (get_default (codes "amount") (text (codes "0")) f))
  posting _ = inl posting_not_map

  -- The loop over the postings: the normalized rows, and the total.
  unfoldable pub normalize : D → Jsons N → LedgerError ⊎ (Jsons N × D)
  unfolding and_then posting
  normalize total no_items = inr (no_items, total)
  normalize total (next_item row rows) =
      and_then (posting row)
        λ r. and_then (normalize (p.add total r.1) rows) λ more. inr (next_item r.0 more.0, more.1)

  unfoldable pub balanced : Jsons N × D → LedgerError ⊎ Jsons N
  balanced (rows, total) = if p.is_zero total then inr rows else inl unbalanced

  -- At least two rows, which balance.
  unfoldable pub normalized_rows : Json N → LedgerError ⊎ Jsons N
  unfolding and_then normalize balanced
  normalized_rows (items (next_item r (next_item r' rows))) =
      and_then (normalize p.zero_amount (next_item r (next_item r' rows))) balanced
  normalized_rows _ = inl few_postings

  unfoldable pub metadata_of : Json N → Json N
  metadata_of (fields f) = fields f
  metadata_of _ = fields no_fields

  -- `body`, with what is behind it.
  unfoldable pub body_of : Text → Text → Jsons N → Text → Json N → Text → Fields N → Fields N
  body_of id c rows memo metadata previous rest = next_field (codes "id") (text id) (
      next_field (codes "currency") (text c) (
        next_field (codes "postings") (items rows) (
          next_field (codes "memo") (text memo) (
            next_field (codes "metadata") metadata
              (next_field (codes "previous_hash") (text previous) rest)))))

  unfoldable pub hash_field : Text → Fields N
  hash_field h = next_field (codes "hash") (text h) no_fields

  unfoldable pub head_of : Fields N → Text
  unfolding text_or get_default
  head_of f = text_or p genesis (get_default (codes "head") null f)

  -- The ledger with one more entry, whose hash is the head.
  unfoldable pub extended : Fields N → Jsons N → Fields N → Text → Json N
  unfolding put_field append_item
  extended source entries entry h = fields (
      put_field (codes "head") (text h)
        (put_field (codes "entries") (items (append_item entries (fields entry))) source))

  -- An entry with these parts is hashed and appended.
  unfoldable pub append_entry :
      Fields N → Jsons N → Text → Jsons N → Text → Json N → Text → LedgerError ⊎ Json N
  unfolding and_then or_raise body_of hash_field head_of extended
  append_entry source entries id rows memo metadata c =
      let body = body_of id c rows memo metadata (head_of source) in
      and_then (or_raise (p.hash_error (body no_fields)) (p.canonical_hash (body no_fields)))
        λ h. inr (extended source entries (body (hash_field h)) h)

  unfoldable pub post_to :
      Fields N → Jsons N → Text → Json N → Json N → Json N → LedgerError ⊎ Json N
  unfolding and_then has_id normalized_rows currency append_entry metadata_of text_or get_default
  post_to source entries id postings memo metadata =
      if is_empty id
      then inl id_required
      else if has_id id entries
      then inl (duplicate_id id)
      else and_then (normalized_rows postings) λ rows.
        and_then (currency p (get_default (codes "currency") null source))
          (append_entry source entries id rows (text_or p [] memo) (metadata_of metadata))

  -- `post`
  unfoldable pub post : Json N → Json N → Json N → Json N → Json N → LedgerError ⊎ Json N
  unfolding and_then require_ledger post_to text_or
  post ledger transaction_id postings memo metadata =
      and_then (require_ledger ledger)
        λ r. post_to r.0 r.1 (strip (text_or p [] transaction_id)) postings memo metadata
