-- ===== src/LineText/Comments.antt =====
-- Where `_strip_inline_comment` of src/mellowlang/parsing/line_text.py cuts a line.
use mellow_programming_langu.Prelude.{ℕ, zero, suc, ◌<◌, ◌≡◌, Bool, true, false, not, ◌&&◌, [], ◌∷◌}
use mellow_programming_langu.Text.{Text, is_empty}
use mellow_programming_langu.LineText.{comment_start}
use mellow_programming_langu.LineText.Scan.{Scan, step, is_outside}

-- A comment starts at position `i` of the text, and a character follows its first one.
pub is_comment : Scan → Text → ℕ → Bool
is_comment st [] i = false
is_comment st (ch ∷ s) zero = is_outside st && (comment_start ch s && not (is_empty s))
is_comment st (ch ∷ s) (suc i) = is_comment (step st ch) s i

abbrev pub FirstAt : Scan → Text → ℕ → Type 0
FirstAt st s j = (is_comment st s j ≡ true) × ((m : ℕ) → m < j → is_comment st s m ≡ false)
