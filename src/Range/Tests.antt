-- ===== src/Range/Tests.antt =====
-- Ranges that go up and down.
use mathlib.Core.Option
use mellow_programming_langu.Prelude.{◌≡◌, refl, some, [], ◌∷◌}
use mellow_programming_langu.Prelude.Int.{pos, negsuc, ◌+ℤ◌, ◌-ℤ◌, ◌*ℤ◌}
use mellow_programming_langu.Range.{MellowLangRange, new_range, iterate}

down :
    Option.map iterate (new_range (pos 5) (negsuc 1) (negsuc 2))
    ≡ some (pos 5 ∷ pos 2 ∷ negsuc 0 ∷ [])
unfolding new_range iterate ◌+ℤ◌ ◌-ℤ◌ ◌*ℤ◌
down = refl

abbrev up : MellowLangRange
up = record { start = pos 1; end = pos 8; step = pos 3; len = 3 }
