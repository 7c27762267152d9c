-- ===== src/LineText/Collect.antt =====
-- `_collect_multiline_expr` of src/mellowlang/parsing/line_text.py.
use mellow_programming_langu.Prelude.{
  ℕ, ◌+◌, ◌≤◌, ◌<◌, ◌≡◌, false, ◌||◌, List, [], ◌∷◌, ◌++◌, if◌then◌else◌, length, take,
}
use mellow_programming_langu.Prelude.Int.{ℤ, pos, ◌+ℤ◌, leb_ℤ}
use mellow_programming_langu.Text.{Text, codes, strip, is_empty, starts_with, join}
use mellow_programming_langu.LineText.{balance_delta, strip_inline_comment}

-- The balance of several pieces.
pub balances : List Text → ℤ
balances [] = pos 0
balances (c ∷ cs) = balance_delta c +ℤ balances cs

-- What is taken of a line: nothing of a blank or a comment line, else the line without the space
-- around it and without its comment, unless that is empty.
unfoldable pub line_pieces : Text → List Text
line_pieces raw =
    let line = strip raw in
    let chunk = strip_inline_comment line in
    if is_empty line || (starts_with (codes "#") line || starts_with (codes "//") line)
    then []
    else if is_empty chunk
    then []
    else chunk ∷ []

unfoldable pub pieces_of : List Text → List Text
unfolding line_pieces
pieces_of [] = []
pieces_of (raw ∷ rest) = line_pieces raw ++ pieces_of rest

-- What the loop returns from line `j` on: the pieces of so many lines that the balance is zero
-- behind them, and above zero behind each smaller number of lines.
record Closes (rest : List Text) (j : ℕ) (bal : ℤ) (parts : List Text) (t : Text) (k : ℕ)
    : Type 0 where
  count : ℕ
  behind : k ≡ j + count
  below : count ≤ length rest
  text : t ≡ join (codes " ") (parts ++ pieces_of (take count rest))
  closed : bal +ℤ balances (pieces_of (take count rest)) ≡ pos 0
  still_open :
      (n : ℕ) → n < count → leb_ℤ (bal +ℤ balances (pieces_of (take n rest))) (pos 0) ≡ false
