-- ===== src/Range/Members.antt =====
-- The items of a range of src/mellowlang/range_core.py.
use mellow_programming_langu.Prelude.{Bool}
use mellow_programming_langu.Prelude.Int.{ℤ, pos, negsuc, ltb_ℤ}

-- Whether a number reached from the start by steps is before the end.
abbrev pub is_before_end : ℤ → ℤ → ℤ → Bool
is_before_end (pos st) x e = ltb_ℤ x e
is_before_end (negsuc k) x e = ltb_ℤ e x
