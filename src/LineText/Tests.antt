-- ===== src/LineText/Tests.antt =====
-- Runs of the line-level helpers, and the theorems about them at concrete lines.
use mellow_programming_langu.Prelude.{
  ◌≡◌, refl, false, ◌||◌, none, some, List, [], ◌∷◌, ◌++◌, map, if◌then◌else◌, length,
}
use mellow_programming_langu.Prelude.Int.{◌+ℤ◌}
use mellow_programming_langu.Text.{Text, codes, is_space, strip, is_empty}
use mellow_programming_langu.LineText.{
  strip_inline_comment, indent_level, balance_delta, split_top_level_commas, split_top_level_assign,
  indent_of, rewrite_modern_aliases,
}
use mellow_programming_langu.LineText.Scan.{start, step, run, depth_after}
use mellow_programming_langu.LineText.Balance.{balance_delta-append}
use mellow_programming_langu.LineText.Assign.{
  SplitAt, is_plain, lacks_plain, begins_comparison, last_of, split_top_level_assign_sound,
  split_top_level_assign_first,
}
use mellow_programming_langu.LineText.Aliases.{rewrite_modern_aliases_stable}

strips_comment : strip_inline_comment (codes "x = \"#\" # note") ≡ codes "x = \"#\""
unfolding strip_inline_comment is_space
strips_comment = refl

-- A sign in single quotes counts as a comment, and one at the end of the line does not.
single_quotes : strip_inline_comment (codes "show 'a # b'") ≡ codes "show 'a"
unfolding strip_inline_comment is_space
single_quotes = refl

trailing_sign : strip_inline_comment (codes "x = 1 #") ≡ codes "x = 1 #"
unfolding strip_inline_comment
trailing_sign = refl

indents : indent_level (codes "\t  x") ≡ 6
unfolding indent_level
indents = refl

splits :
    split_top_level_commas (codes "f(a, b), \",\", [1, 2] ,")
    ≡ map codes ("f(a, b)" ∷ "\",\"" ∷ "[1, 2]" ∷ [])
unfolding split_top_level_commas is_space
splits = refl

assigns : split_top_level_assign (codes "x = y == z") ≡ some (codes "x", codes "y == z")
unfolding split_top_level_assign is_space
assigns = refl

rewrites :
    rewrite_modern_aliases (map codes ("let x = 1" ∷ "  while x < 3 :" ∷ "fn f(a):" ∷ []))
    ≡ map codes ("keep x = 1" ∷ "  loop (x < 3):" ∷ "skill f(a):" ∷ [])
unfolding rewrite_modern_aliases is_space
rewrites = refl

balance_delta-append_example :
    balance_delta (codes "f(\")\"" ++ codes ")")
    ≡ balance_delta (codes "f(\")\"") +ℤ balance_delta (codes ")")
unfolding run step
balance_delta-append_example = balance_delta-append (codes "f(\")\"") (codes ")") refl

abbrev two_parts : List Text
two_parts = codes "f(a, b)" ∷ codes " \",\"" ∷ []

assign_run : split_top_level_assign (codes "a[0] = b") ≡ some (codes "a[0]", codes "b")
unfolding split_top_level_assign is_space
assign_run = refl

split_top_level_assign_sound_example :
    (a : Text) × (b : Text) × SplitAt start none (codes "a[0] = b") a b
    × (codes "a[0]" ≡ strip a)
    × (codes "b" ≡ strip b)
    × (is_empty (codes "a[0]") ≡ false)
    × (is_empty (codes "b") ≡ false)
split_top_level_assign_sound_example =
    split_top_level_assign_sound (codes "a[0] = b") (codes "a[0]") (codes "b") assign_run

-- A comparison that stands before the sign is passed over.
split_top_level_assign_first_example :
    split_top_level_assign (codes "a == \"=\" " ++ b'=' ∷ codes " b") ≡ (
      if is_empty (strip (codes "a == \"=\" ")) || is_empty (strip (codes " b"))
      then none
      else some (strip (codes "a == \"=\" "), strip (codes " b")))
unfolding run step depth_after lacks_plain is_plain begins_comparison last_of
split_top_level_assign_first_example =
    split_top_level_assign_first (codes "a == \"=\" ") (codes " b") refl refl refl

abbrev open_lines : List Text
open_lines = map codes ("x = [1," ∷ "  2, // two" ∷ "]" ∷ "y" ∷ [])

rewrite_modern_aliases_stable_example :
    (length (rewrite_modern_aliases open_lines) ≡ length open_lines)
    × (map indent_of (rewrite_modern_aliases open_lines) ≡ map indent_of open_lines)
    × (rewrite_modern_aliases (rewrite_modern_aliases open_lines)
        ≡ rewrite_modern_aliases open_lines)
rewrite_modern_aliases_stable_example = rewrite_modern_aliases_stable open_lines
