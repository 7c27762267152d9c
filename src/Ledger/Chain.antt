-- ===== src/Ledger/Chain.antt =====
-- The chain of hashes in src/mellowlang/ledger_core.py: what a transaction does to a verified ledger.
use mellow_programming_langu.Prelude.{
  ℕ, suc, ◌+◌, ◌≡◌, refl, sym, ap, ◌∙◌, subst, ◌⊎◌, inl, inr, true, false, Option, some, [],
  Bool-cases,
}
use mellow_programming_langu.Text.{Text, codes, text_eq, strip, is_empty}
use mellow_programming_langu.Text.Laws.{text_eq_refl}
use mellow_programming_langu.Ledger.Values.{
  Json, null, truth, num, text, items, fields, Jsons, no_items, next_item, Fields, no_fields,
  LedgerError, Python, or_raise, get, get_default, or_default, put_field, append_item, count_items,
  is_text, text_or, currency, expected_ledger, head_mismatch,
}
use mellow_programming_langu.Ledger.Book.{
  genesis, entries_of, require_ledger, has_id, normalized_rows, body_of, head_of, extended,
  append_entry, post_to, post, metadata_of,
}
use mellow_programming_langu.Ledger.Audit.{
  verified, is_seen, check_postings, check_entry, check_entries, check_ledger, report, verify,
}
use mellow_programming_langu.Ledger.Fields.{
  and_then_cases, and_then-inr, raised_cases, ensure-true, ensure_cases, unless_cases,
  get-put_field, get-put_field_ne,
}
use mellow_programming_langu.Ledger.Entries.{text_or_text, check_entries-append_item}
use mellow_programming_langu.Ledger.Postings.{normalized_balance}
use mellow_programming_langu.Ledger.NewEntry.{EntryParts, entry_of, check_entry_of}

module _ {N D : Type 0} (p : Python N D) where
  entries_of_cases :
      (f g : Fields N) (v : Json N) (es : Jsons N)
      → entries_of p f v ≡ inr (g, es)
      → (f ≡ g) × (v ≡ items es)
  unfolding entries_of
  entries_of_cases f g (items xs) es h =
      let q : f ≡ g = cc in let r : xs ≡ es = cc in (q, ap items r)
  entries_of_cases f g null es h = absurd cc
  entries_of_cases f g (truth b) es h = absurd cc
  entries_of_cases f g (num n) es h = absurd cc
  entries_of_cases f g (text t) es h = absurd cc
  entries_of_cases f g (fields d) es h = absurd cc

  -- A value that is taken for a ledger.
  record IsLedger (f : Fields N) (es : Jsons N) : Type 0 where
    marked : is_text (get (codes "type") f) (codes "ledger") ≡ true
    listed : get_default (codes "entries") null f ≡ items es

  require_ledger-IsLedger :
      (ledger : Json N) (f : Fields N) (es : Jsons N)
      → require_ledger p ledger ≡ inr (f, es)
      → IsLedger f es
  unfolding require_ledger
  require_ledger-IsLedger (fields g) f es h =
      elim (Bool-cases (is_text (get (codes "type") g) (codes "ledger"))) [
        | inl e ↦
            let (q, r) =
              entries_of_cases g f (get_default (codes "entries") null g) es (rw e at h) in
            subst (λ (x : Fields N). IsLedger x es) q (record { marked = e; listed = r })
        | inr e ↦
            let k : ◌≡◌ {A = LedgerError ⊎ (Fields N × Jsons N)} (inl expected_ledger)
                (inr (f, es)) =
              rw e at h in
            absurd cc
      ]
  require_ledger-IsLedger null f es h = absurd cc
  require_ledger-IsLedger (truth b) f es h = absurd cc
  require_ledger-IsLedger (num n) f es h = absurd cc
  require_ledger-IsLedger (text t) f es h = absurd cc
  require_ledger-IsLedger (items xs) f es h = absurd cc

  require_ledger_lem :
      (f : Fields N) (es : Jsons N) → IsLedger f es → require_ledger p (fields f) ≡ inr (f, es)
  unfolding require_ledger
  require_ledger_lem f es h = rw (h.marked, h.listed) (unfold entries_of in refl)

  -- The dictionary of a ledger with new entries and a new head.
  abbrev grown : Fields N → Jsons N → Text → Fields N
  grown f es h = put_field (codes "head") (text h) (put_field (codes "entries") (items es) f)

  get-grown_same :
      (key h : Text) (f : Fields N) (es : Jsons N)
      → text_eq (codes "head") key ≡ false
      → text_eq (codes "entries") key ≡ false
      → get key (grown f es h) ≡ get key f
  get-grown_same key h f es a b =
      get-put_field_ne (codes "head") key (text h) (put_field (codes "entries") (items es) f) a
      ∙ get-put_field_ne (codes "entries") key (items es) f b

  grown-IsLedger :
      (f : Fields N) (es new : Jsons N) (h : Text) → IsLedger f es → IsLedger (grown f new h) new
  unfolding get_default or_default text_eq
  grown-IsLedger f es new h l = record {
    marked =
        ap (λ (o : Option (Json N)). is_text o (codes "ledger"))
          (get-grown_same (codes "type") h f new refl refl)
        ∙ l.marked;
    listed = ap (or_default null) (
        get-put_field_ne (codes "head") (codes "entries") (text h)
          (put_field (codes "entries") (items new) f) refl
        ∙ get-put_field (codes "entries") (items new) f);
  }

  head_of-grown :
      (f : Fields N) (es : Jsons N) (h : Text) → is_empty h ≡ false → head_of p (grown f es h) ≡ h
  unfolding head_of get_default or_default
  head_of-grown f es h k =
      ap (λ (o : Option (Json N)). text_or p genesis (or_default null o))
        (get-put_field (codes "head") (text h) (put_field (codes "entries") (items es) f))
      ∙ text_or_text p genesis h k

  count_items-append_item :
      (es : Jsons N) (e : Json N) → count_items (append_item es e) ≡ suc (count_items es)
  unfolding count_items append_item
  count_items-append_item no_items e = refl
  count_items-append_item (next_item x es) e = ap suc (count_items-append_item es e)

  -- What the checks of a ledger that passes them found.
  record Passed (ledger : Json N) (n : ℕ) (h : Text) : Type 0 where
    source : Fields N
    listed : Jsons N
    required : require_ledger p ledger ≡ inr (source, listed)
    checked :
        check_entries p 0 (get_default (codes "currency") null source) genesis [] listed ≡ inr h
    headed : text_eq (head_of p source) h ≡ true
    counted : count_items listed ≡ n

  check_ledger-Passed :
      (ledger : Json N) (n : ℕ) (h : Text) → check_ledger p ledger ≡ inr (n, h) → Passed ledger n h
  unfolding check_ledger
  check_ledger-Passed ledger n h k =
      let ((f, es), e, k') = and_then_cases (require_ledger p ledger) _ (n, h) k in
      let (h0, e', k'') =
        and_then_cases (check_entries p 0 (get_default (codes "currency") null f) genesis [] es) _
          (n, h) k' in
      let (same, r) =
        ensure_cases (text_eq (head_of p f) h0) head_mismatch (inr (count_items es, h0)) (n, h)
          k'' in
      let q : count_items es ≡ n = cc in
      let q' : h0 ≡ h = cc in
      record {
        source = f;
        listed = es;
        required = e;
        checked = e' ∙ ap (λ (t : Text). inr t) q';
        headed = ap (text_eq (head_of p f)) (sym q') ∙ same;
        counted = q;
      }

  Passed-check_ledger :
      (ledger : Json N) (n : ℕ) (h : Text) → Passed ledger n h → check_ledger p ledger ≡ inr (n, h)
  unfolding check_ledger
  Passed-check_ledger ledger n h k =
      and_then-inr (require_ledger p ledger) _ (k.source, k.listed) k.required
      ∙ and_then-inr
          (check_entries p 0 (get_default (codes "currency") null k.source) genesis [] k.listed) _ h
          k.checked
      ∙ ensure-true (text_eq (head_of p k.source) h) head_mismatch (inr (count_items k.listed, h))
          k.headed
      ∙ ap (λ (x : ℕ). inr (x, h)) k.counted

  pub verify_passed :
      (r : LedgerError ⊎ (ℕ × Text)) (n : ℕ) (h : Text) → report p r ≡ verified n h → r ≡ inr (n, h)
  unfolding report
  verify_passed (inl e) n h k = absurd cc
  verify_passed (inr (count, head)) n h k =
      let q : count ≡ n = cc in
      let q' : head ≡ h = cc in ap (λ (x : ℕ). inr (x, head)) q ∙ ap (λ (t : Text). inr (n, t)) q'

  -- A new entry is appended to a ledger that passes.
  Passed-extended :
      (ledger : Json N) (n : ℕ) (h : Text) (k : Passed ledger n h) (q : EntryParts p) (total : D)
      → is_empty q.id ≡ false
      → has_id p q.id k.listed ≡ false
      → q.previous ≡ head_of p k.source
      → currency p (get_default (codes "currency") null k.source) ≡ inr q.c
      → check_postings p (0 + count_items k.listed) (items q.rows) ≡ inr total
      → p.is_zero total ≡ true
      → p.canonical_hash (body_of p q.id q.c q.rows q.memo q.meta q.previous no_fields)
        ≡ some q.hash
      → Passed (extended p k.source k.listed (entry_of p q) q.hash) (suc n) q.hash
  unfolding extended is_seen get_default text_eq check_entries
  Passed-extended ledger n h k q total some_id new linked coin sum even hashed =
      let e : Json N = fields (entry_of p q) in
      let es : Jsons N = append_item k.listed e in
      let cur : Json N = get_default (codes "currency") null k.source in
      let (seen, unseen, after) =
        check_entries-append_item p 0 cur genesis [] k.listed e h q.id k.checked new refl in
      let link : text_eq q.previous h ≡ true = ap (λ (t : Text). text_eq t h) linked ∙ k.headed in
      let one : check_entry p (0 + count_items k.listed) cur h seen (entry_of p q) ≡ inr q.hash =
        check_entry_of p (0 + count_items k.listed) cur h seen q total some_id unseen link coin sum
          even hashed in
      let same : get_default (codes "currency") null (grown k.source es q.hash) ≡ cur =
        ap (or_default null) (get-grown_same (codes "currency") q.hash k.source es refl refl) in
      record {
        source = grown k.source es q.hash;
        listed = es;
        required = require_ledger_lem (grown k.source es q.hash) es (
            grown-IsLedger k.source k.listed es q.hash
              (require_ledger-IsLedger ledger k.source k.listed k.required));
        checked =
            ap (λ (c : Json N). check_entries p 0 c genesis [] es) same
            ∙ after
            ∙ and_then-inr (check_entry p (0 + count_items k.listed) cur h seen (entry_of p q)) _
                q.hash one;
        headed =
            ap (λ (t : Text). text_eq t q.hash)
              (head_of-grown k.source es q.hash (p.hash_text _ q.hash hashed))
            ∙ text_eq_refl q.hash;
        counted = count_items-append_item k.listed e ∙ ap suc k.counted;
      }

  -- Posting to a ledger that passes.
  append_entry-Passed :
      (ledger result : Json N) (n : ℕ) (h id memo c : Text) (k : Passed ledger n h) (rows : Jsons N)
      (meta : Json N) (total : D)
      → is_empty id ≡ false
      → has_id p id k.listed ≡ false
      → currency p (get_default (codes "currency") null k.source) ≡ inr c
      → check_postings p (0 + count_items k.listed) (items rows) ≡ inr total
      → p.is_zero total ≡ true
      → append_entry p k.source k.listed id rows memo meta c ≡ inr result
      → (h' : Text) × Passed result (suc n) h'
  unfolding append_entry
  append_entry-Passed ledger result n h id memo c k rows meta total some_id new coin sum even e =
      let body = body_of p id c rows memo meta (head_of p k.source) no_fields in
      let (hash, a, b) =
        and_then_cases (or_raise (p.hash_error body) (p.canonical_hash body)) _ result e in
      let q : EntryParts p = record {
        id = id;
        c = c;
        memo = memo;
        previous = head_of p k.source;
        hash = hash;
        rows = rows;
        meta = meta;
      } in
      let same : extended p k.source k.listed (entry_of p q) hash ≡ result = cc in
      (
        hash,
        subst (λ (r : Json N). Passed r (suc n) hash) same
            (Passed-extended ledger n h k q total some_id new refl coin sum even
              (raised_cases (p.hash_error body) (p.canonical_hash body) hash a)),
      )

  post-Passed :
      (ledger transaction_id postings memo metadata result : Json N) (n : ℕ) (h : Text)
      → Passed ledger n h
      → post p ledger transaction_id postings memo metadata ≡ inr result
      → (h' : Text) × Passed result (suc n) h'
  unfolding post post_to
  post-Passed ledger transaction_id postings memo metadata result n h k e =
      let id : Text = strip (text_or p [] transaction_id) in
      let called : post_to p k.source k.listed id postings memo metadata ≡ inr result =
        sym (and_then-inr (require_ledger p ledger) _ (k.source, k.listed) k.required) ∙ e in
      let (some_id, e1) = unless_cases (is_empty id) _ _ result called in
      let (new, e2) = unless_cases (has_id p id k.listed) _ _ result e1 in
      let (rows, r, e3) = and_then_cases (normalized_rows p postings) _ result e2 in
      let (c, coin, e4) =
        and_then_cases (currency p (get_default (codes "currency") null k.source)) _ result e3 in
      let (total, sum, even) = normalized_balance p (0 + count_items k.listed) postings rows r in
      append_entry-Passed ledger result n h id (text_or p [] memo) c k rows (metadata_of p metadata)
        total some_id new coin sum even e4

  -- When a ledger verifies and a transaction is posted to it without an exception, the new ledger
  -- verifies, with one entry more. This is for any values that are posted, and any reading of
  -- amounts, currencies and hashes that keeps the laws of `Python`.
  pub verify-post :
      (ledger transaction_id postings memo metadata result : Json N) (n : ℕ) (h : Text)
      → verify p ledger ≡ verified n h
      → post p ledger transaction_id postings memo metadata ≡ inr result
      → (h' : Text) × (verify p result ≡ verified (suc n) h')
  unfolding verify report
  verify-post ledger transaction_id postings memo metadata result n h v e =
      let passed = check_ledger-Passed ledger n h (verify_passed (check_ledger p ledger) n h v) in
      let (h', k) = post-Passed ledger transaction_id postings memo metadata result n h passed e in
      (h', ap (report p) (Passed-check_ledger result (suc n) h' k))
