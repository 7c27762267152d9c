-- ===== src/Ledger/Values.antt =====
-- The values that src/mellowlang/ledger_core.py reads, and its amounts and currencies.
use mellow_programming_langu.Prelude.{
  ℕ, suc, ◌≡◌, ◌⊎◌, inl, inr, Bool, true, false, not, ◌||◌, Option, none, some, ltb, if◌then◌else◌,
  length,
}
use mellow_programming_langu.Text.{Text, codes, text_eq, strip, is_empty}

mutual
  -- Values as JSON has them; `N` are Python's numbers.
  pub data Json (N : Type 0) : Type 0 where
    null : Json N
    truth : Bool → Json N
    num : N → Json N
    text : Text → Json N
    items : Jsons N → Json N
    fields : Fields N → Json N

  pub data Jsons (N : Type 0) : Type 0 where
    no_items : Jsons N
    next_item : Json N → Jsons N → Jsons N

  -- A dictionary, in the order of its entries.
  pub data Fields (N : Type 0) : Type 0 where
    no_fields : Fields N
    next_field : Text → Json N → Fields N → Fields N

-- The exceptions, one for each message; `not_encodable` is the `UnicodeEncodeError` of a surrogate
-- in what is hashed, which is no `LedgerError` of the source.
pub data LedgerError : Type 0 where
  expected_ledger invalid_entries : LedgerError
  invalid_amount invalid_currency not_serializable not_encodable : LedgerError
  id_required few_postings posting_not_map account_required unbalanced : LedgerError
  duplicate_id : Text → LedgerError
  invalid_entry missing_id broken_chain currency_mismatch : ℕ → LedgerError
  invalid_postings invalid_posting unbalanced_entry hash_mismatch : ℕ → LedgerError
  head_mismatch : LedgerError

-- What Python gives: `str`, the truth of a number, `str.upper`, the decimals, which are read and
-- rounded to cents by `parse` and written by `format`, and the hash of a dictionary, where it can be
-- written as JSON and encoded, or else the exception that `_canonical_hash` raises.
pub record Python (N D : Type 0) : Type 0 where
  pub str : Json N → Text
  pub num_truthy : N → Bool
  pub upper : Text → Text
  pub zero_amount : D
  pub add : D → D → D
  pub is_zero : D → Bool
  pub parse : Text → Option D
  pub format : D → Text
  pub canonical_hash : Fields N → Option Text
  pub hash_error : Fields N → LedgerError
  pub str_text : (t : Text) → str (text t) ≡ t
  pub upper_upper : (t : Text) → upper (strip (upper (strip t))) ≡ upper (strip t)
  pub parse_format : (t : Text) (d : D) → parse t ≡ some d → parse (format d) ≡ some d
  pub hash_text : (f : Fields N) (h : Text) → canonical_hash f ≡ some h → is_empty h ≡ false

-- What follows a result.
unfoldable pub and_then : {A B : Type 0} → LedgerError ⊎ A → (A → LedgerError ⊎ B) → LedgerError ⊎ B
and_then (inl e) k = inl e
and_then (inr a) k = k a

unfoldable pub or_raise : {A : Type 0} → LedgerError → Option A → LedgerError ⊎ A
or_raise e none = inl e
or_raise e (some a) = inr a

module _ {N : Type 0} where
  -- `d.get(key)`
  unfoldable pub get : Text → Fields N → Option (Json N)
  unfolding text_eq
  get key no_fields = none
  get key (next_field name v f) = let rest = get key f in if text_eq name key then some v else rest

  unfoldable pub or_default : Json N → Option (Json N) → Json N
  or_default default none = default
  or_default default (some v) = v

  -- `d.get(key, default)`
  unfoldable pub get_default : Text → Json N → Fields N → Json N
  unfolding get or_default
  get_default key default f = or_default default (get key f)

  -- `d[key] = value`
  unfoldable pub put_field : Text → Json N → Fields N → Fields N
  unfolding text_eq
  put_field key v no_fields = next_field key v no_fields
  put_field key v (next_field name old f) =
      let rest = put_field key v f in
      if text_eq name key then next_field name v f else next_field name old rest

  -- `{k: v for k, v in d.items() if k != key}`
  unfoldable pub without : Text → Fields N → Fields N
  unfolding text_eq
  without key no_fields = no_fields
  without key (next_field name v f) =
      let rest = without key f in if text_eq name key then rest else next_field name v rest

  -- `xs.append(x)` on a copy
  unfoldable pub append_item : Jsons N → Json N → Jsons N
  append_item no_items x = next_item x no_items
  append_item (next_item y ys) x = next_item y (append_item ys x)

  unfoldable pub count_items : Jsons N → ℕ
  count_items no_items = 0
  count_items (next_item x xs) = suc (count_items xs)

  -- `v == t` for a text `t`
  unfoldable pub is_text : Option (Json N) → Text → Bool
  unfolding text_eq
  is_text (some (text s)) t = text_eq s t
  is_text _ t = false

  module _ {D : Type 0} (p : Python N D) where
    -- `bool(v)`
    unfoldable pub is_truthy : Json N → Bool
    is_truthy null = false
    is_truthy (truth b) = b
    is_truthy (num n) = p.num_truthy n
    is_truthy (text t) = not (is_empty t)
    is_truthy (items no_items) = false
    is_truthy (items (next_item x xs)) = true
    is_truthy (fields no_fields) = false
    is_truthy (fields (next_field name v f)) = true

    -- `str(v or default)`
    unfoldable pub text_or : Text → Json N → Text
    unfolding is_truthy
    text_or default v = if is_truthy v then p.str v else p.str (text default)

    -- `_amount`: the amount of a value of money, or else the value
    unfoldable pub amount_value : Json N → Json N
    unfolding get_default is_text
    amount_value (fields f) =
        if is_text (get (codes "type") f) (codes "money")
        then get_default (codes "amount") (text (codes "0")) f
        else fields f
    amount_value v = v

    unfoldable pub amount : Json N → LedgerError ⊎ D
    unfolding amount_value or_raise
    amount v = or_raise invalid_amount (p.parse (p.str (amount_value v)))

    unfoldable pub checked_currency : Text → LedgerError ⊎ Text
    checked_currency c = if is_empty c || ltb 12 (length c) then inl invalid_currency else inr c

    -- `_currency`
    unfoldable pub currency : Json N → LedgerError ⊎ Text
    unfolding text_or checked_currency
    currency v = checked_currency (p.upper (strip (text_or (codes "USD") v)))
