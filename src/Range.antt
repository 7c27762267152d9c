-- ===== src/Range.antt =====
-- src/mellowlang/range_core.py: a range that is stored as its ends, its step and its length.
mod Members
mod Tests
use mellow_programming_langu.Prelude.{
  ℕ, zero, suc, ◌+◌, ◌-◌, ◌/◌, Option, none, some, List, [], ◌∷◌, leb, if◌then◌else◌,
}
use mellow_programming_langu.Prelude.Int.{ℤ, pos, negsuc, pos_part, ◌+ℤ◌, ◌-ℤ◌, ◌*ℤ◌, leb_ℤ}

pub record MellowLangRange : Type 0 where
  pub start : ℤ
  pub end : ℤ
  pub step : ℤ
  pub len : ℕ

-- `_calc_len`; a step of zero does not get here.
calc_len : ℤ → ℤ → ℤ → ℕ
calc_len s e (pos st) = if leb_ℤ e s then 0 else (pos_part (e -ℤ s) + st - 1) / st
calc_len s e (negsuc k) = if leb_ℤ s e then 0 else (pos_part (s -ℤ e) + suc k - 1) / suc k

-- `__init__`; `none` is the `ValueError` of a step of zero.
pub new_range : ℤ → ℤ → ℤ → Option MellowLangRange
unfolding calc_len
new_range start end (pos zero) = none
new_range start end (pos (suc k)) = some (record {
  start = start;
  end = end;
  step = pos (suc k);
  len = calc_len start end (pos (suc k));
})
new_range start end (negsuc k) =
    some (record { start = start; end = end; step = negsuc k; len = calc_len start end (negsuc k) })

-- `self.start + i * self.step`
pub item_at : MellowLangRange → ℕ → ℤ
item_at r i = r.start +ℤ pos i *ℤ r.step

-- `__getitem__`; `none` is the `IndexError`.
pub get_item : MellowLangRange → ℤ → Option ℤ
unfolding item_at
get_item r (pos i) = if leb r.len i then none else some (item_at r i)
get_item r (negsuc i) = none

-- `__iter__` from the index `i` on, for `n` more items
items_from : MellowLangRange → ℕ → ℕ → List ℤ
unfolding item_at
items_from r i zero = []
items_from r i (suc n) = item_at r i ∷ items_from r (suc i) n

pub iterate : MellowLangRange → List ℤ
unfolding items_from
iterate r = items_from r 0 r.len
