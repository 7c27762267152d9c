-- ===== src/LineText/Scan.antt =====
-- The state that the scanners of line_text.py keep at each character, as a description of its own:
-- the bracket depth, whether the text is inside a string, and whether a backslash stands before.
use mellow_programming_langu.Prelude.{
  ℕ, ◌+◌, ◌-◌, Bool, true, false, not, ◌&&◌, [], ◌∷◌, ◌==◌, if◌then◌else◌,
}
use mellow_programming_langu.Text.{Text, is_one_of}
use mellow_programming_langu.LineText.{backslash, quote_mark, opening, closing}

pub record Scan : Type 0 where
  pub depth : ℕ
  pub in_str : Bool
  pub esc : Bool

abbrev pub start : Scan
start = record { depth = 0; in_str = false; esc = false }

-- The depth never falls below zero.
unfoldable pub depth_after : ℕ → ℕ → ℕ
unfolding is_one_of
depth_after depth ch =
    if is_one_of opening ch then depth + 1 else if is_one_of closing ch then depth - 1 else depth

unfoldable pub step : Scan → ℕ → Scan
step st ch =
    if st.esc
    then record st { esc = false }
    else if ch == backslash
    then record st { esc = true }
    else if ch == quote_mark
    then record st { in_str = not st.in_str }
    else if st.in_str
    then st
    else record st { depth = depth_after st.depth ch }

unfoldable pub run : Scan → Text → Scan
run st [] = st
run st (ch ∷ s) = run (step st ch) s

-- Outside strings, brackets and escapes.
abbrev pub at_top : Scan → Bool
at_top st = not st.esc && (not st.in_str && st.depth == 0)

-- Outside strings and escapes.
abbrev pub is_outside : Scan → Bool
is_outside st = not st.esc && not st.in_str

-- The character `sep` does not stand at top level.
unfoldable pub lacks_top : ℕ → Scan → Text → Bool
lacks_top sep st [] = true
lacks_top sep st (ch ∷ s) = not (at_top st && ch == sep) && lacks_top sep (step st ch) s
