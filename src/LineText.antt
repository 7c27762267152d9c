-- ===== src/LineText.antt =====
-- src/mellowlang/parsing/line_text.py: comment stripping, indentation, bracket balance, the splits
-- at top level and the line-level aliases. The proofs are in the modules below.
pub mod Scan
pub mod Comments
pub mod Balance
pub mod Commas
pub mod Assign
pub mod Collect
pub mod Aliases
mod Tests
use mellow_programming_langu.Prelude.{
  ℕ, ◌+◌, ◌-◌, Bool, true, false, not, ◌&&◌, ◌||◌, Option, none, some, List, [], ◌∷◌, ◌++◌, map,
  ◌==◌, if◌then◌else◌, length, take, drop,
}
use mellow_programming_langu.Prelude.Int.{ℤ, pos, ◌+ℤ◌, ◌-ℤ◌, leb_ℤ, eqb_ℤ}
use mellow_programming_langu.Text.{
  Text, codes, lstrip, rstrip, strip, is_empty, starts_with, ends_with_char, contains, is_one_of,
  join,
}

abbrev pub backslash : ℕ
backslash = b'\\'

abbrev pub quote_mark : ℕ
quote_mark = b'"'

abbrev pub opening : Text
opening = codes "([{"

abbrev pub closing : Text
closing = codes ")]}"

-- The test `line[i:i+2] == '//'` or `ch == '#'` of the comment loop, at `ch` before `s`.
comment_start : ℕ → Text → Bool
comment_start ch s = ch == b'#' || ch == b'/' && starts_with (b'/' ∷ []) s

-- The loop of `_strip_inline_comment`: the index at which it cuts. The last character is not read.
comment_at : Bool → Bool → ℕ → Text → Option ℕ
unfolding starts_with comment_start
comment_at in_str esc i [] = none
comment_at in_str esc i (ch ∷ s) =
    let next = comment_at in_str false (i + 1) s in
    let escape = comment_at in_str true (i + 1) s in
    let quote = comment_at (not in_str) false (i + 1) s in
    if is_empty s
    then none
    else if esc
    then next
    else if ch == backslash
    then escape
    else if ch == quote_mark
    then quote
    else if not in_str && comment_start ch s
    then some i
    else next

cut_at : Text → Option ℕ → Text
unfolding rstrip
cut_at line none = line
cut_at line (some i) = rstrip (take i line)

pub strip_inline_comment : Text → Text
unfolding comment_at cut_at
strip_inline_comment line = cut_at line (comment_at false false 0 line)

pub indent_level : Text → ℕ
indent_level [] = 0
indent_level (ch ∷ line) =
    let rest = indent_level line in
    if ch == b' ' then 1 + rest else if ch == b'\t' then 4 + rest else 0

-- The loop of `_balance_delta`.
balance : ℤ → Bool → Bool → Text → ℤ
unfolding is_one_of
balance depth in_str esc [] = depth
balance depth in_str esc (ch ∷ s) =
    let next = balance depth in_str false s in
    let escape = balance depth in_str true s in
    let quote = balance depth (not in_str) false s in
    let deeper = balance (depth +ℤ pos 1) in_str false s in
    let shallower = balance (depth -ℤ pos 1) in_str false s in
    if esc
    then next
    else if ch == backslash
    then escape
    else if ch == quote_mark
    then quote
    else if in_str
    then next
    else if is_one_of opening ch
    then deeper
    else if is_one_of closing ch
    then shallower
    else next

pub balance_delta : Text → ℤ
unfolding balance
balance_delta s = balance (pos 0) false false s

-- A line that the loop of `_collect_multiline_expr` passes over.
is_skipped : Text → Bool
unfolding strip starts_with
is_skipped raw =
    is_empty (strip raw)
    || starts_with (codes "#") (strip raw)
    || starts_with (codes "//") (strip raw)

-- What `_collect_multiline_expr` does after its loop; `none` is the `ParseError`.
finish : ℤ → List Text → ℕ → Option (Text × ℕ)
unfolding join
finish bal parts j = if eqb_ℤ bal (pos 0) then some (join (codes " ") parts, j) else none

-- The loop of `_collect_multiline_expr` over the lines from `j` on.
collect : List Text → ℕ → ℤ → List Text → Option (Text × ℕ)
unfolding is_skipped strip_inline_comment balance_delta finish
collect [] j bal parts = finish bal parts j
collect (raw ∷ rest) j bal parts =
    let chunk = strip_inline_comment (strip raw) in
    let skip = collect rest (j + 1) bal parts in
    let append = collect rest (j + 1) (bal +ℤ balance_delta chunk) (parts ++ chunk ∷ []) in
    if leb_ℤ bal (pos 0)
    then finish bal parts j
    else if is_skipped raw
    then skip
    else if is_empty chunk
    then skip
    else append

pub collect_multiline_expr : List Text → ℕ → Text → Option (Text × ℕ)
unfolding collect balance_delta
collect_multiline_expr lines i expr_src =
    if leb_ℤ (balance_delta expr_src) (pos 0)
    then some (expr_src, i + 1)
    else collect (drop (i + 1) lines) (i + 1) (balance_delta expr_src) (strip expr_src ∷ [])

-- What a comma, or the end of the text, does with the buffer.
flush : List Text → Text → List Text
unfolding strip
flush parts buf = if is_empty (strip buf) then parts else parts ++ strip buf ∷ []

-- The loop of `_split_top_level_commas`.
commas : List Text → Text → ℕ → Bool → Bool → Text → List Text
unfolding flush is_one_of
commas parts buf depth in_str esc [] = flush parts buf
commas parts buf depth in_str esc (ch ∷ s) =
    let buf' = buf ++ ch ∷ [] in
    let next = commas parts buf' depth in_str false s in
    let escape = commas parts buf' depth in_str true s in
    let quote = commas parts buf' depth (not in_str) false s in
    let deeper = commas parts buf' (depth + 1) in_str false s in
    let shallower = commas parts buf' (depth - 1) in_str false s in
    let cut = commas (flush parts buf) [] depth in_str false s in
    if esc
    then next
    else if ch == backslash
    then escape
    else if ch == quote_mark
    then quote
    else if in_str
    then next
    else if is_one_of opening ch
    then deeper
    else if is_one_of closing ch
    then shallower
    else if ch == b',' && depth == 0
    then cut
    else next

pub split_top_level_commas : Text → List Text
unfolding commas
split_top_level_commas s = commas [] [] 0 false false s

-- `prev in ('=', '!', '>', '<')`, where `none` is the empty string before the first character.
is_comparison_start : Option ℕ → Bool
is_comparison_start none = false
is_comparison_start (some c) = c == b'=' || c == b'!' || c == b'>' || c == b'<'

-- What the assignment loop returns at an '=' between `before` and `after`.
assign_parts : Text → Text → Option (Text × Text)
unfolding strip
assign_parts before after =
    if is_empty (strip before) || is_empty (strip after)
    then none
    else some (strip before, strip after)

-- The loop of `_split_top_level_assign`: `before` is `s[:i]` and `prev` its last character.
assign : Text → Option ℕ → ℕ → Bool → Bool → Text → Option (Text × Text)
unfolding is_comparison_start assign_parts is_one_of starts_with
assign before prev depth in_str esc [] = none
assign before prev depth in_str esc (ch ∷ s) =
    let before' = before ++ ch ∷ [] in
    let next = assign before' (some ch) depth in_str false s in
    let escape = assign before' (some ch) depth in_str true s in
    let quote = assign before' (some ch) depth (not in_str) false s in
    let deeper = assign before' (some ch) (depth + 1) in_str false s in
    let shallower = assign before' (some ch) (depth - 1) in_str false s in
    if esc
    then next
    else if ch == backslash
    then escape
    else if ch == quote_mark
    then quote
    else if in_str
    then next
    else if is_one_of opening ch
    then deeper
    else if is_one_of closing ch
    then shallower
    else if ch == b'=' && depth == 0
    then (if is_comparison_start prev || starts_with (b'=' ∷ []) s
        then next
        else assign_parts before s)
    else next

pub split_top_level_assign : Text → Option (Text × Text)
unfolding assign
split_top_level_assign s = assign [] none 0 false false s

-- `line[:len(line)-len(s)]` for `s = line.lstrip()`
pub indent_of : Text → Text
unfolding lstrip
indent_of line = take (length line - length (lstrip line)) line

-- `cond[:-1].rstrip()` after `cond.rstrip()`: the text without its colon
without_colon : Text → Text
unfolding rstrip
without_colon s = rstrip (take (length (rstrip s) - 1) (rstrip s))

-- The tests of `_rewrite_modern_aliases` on `s`, the line without its indentation.
is_verbatim : Text → Bool
unfolding starts_with
is_verbatim s = is_empty s || starts_with (codes "#") s || starts_with (codes "//") s

is_let : Text → Bool
unfolding starts_with
is_let s = starts_with (codes "let ") s || starts_with (codes "var ") s

is_def : Text → Bool
unfolding starts_with
is_def s = starts_with (codes "def ") s

is_fn : Text → Bool
unfolding starts_with
is_fn s = starts_with (codes "fn ") s

is_function : Text → Bool
unfolding starts_with
is_function s = starts_with (codes "function ") s

is_while : Text → Bool
unfolding starts_with ends_with_char rstrip
is_while s = starts_with (codes "while ") s && ends_with_char b':' (rstrip s)

is_for : Text → Bool
unfolding starts_with ends_with_char rstrip contains
is_for s =
    starts_with (codes "for ") s && (ends_with_char b':' (rstrip s) && contains (codes " in ") s)

-- The rewrite of one line; `let ` and `var ` have four characters each.
alias_of : Text → Text → Text → Text
unfolding is_verbatim is_let is_def is_fn is_function is_while is_for without_colon
alias_of raw indent s =
    if is_verbatim s
    then raw
    else if is_let s
    then indent ++ (codes "keep " ++ drop 4 s)
    else if is_def s
    then indent ++ (codes "skill " ++ drop 4 s)
    else if is_fn s
    then indent ++ (codes "skill " ++ drop 3 s)
    else if is_function s
    then indent ++ (codes "skill " ++ drop 9 s)
    else if is_while s
    then indent ++ (codes "loop " ++ (codes "(" ++ (without_colon (drop 6 s) ++ codes "):")))
    else if is_for s
    then indent ++ (codes "loop " ++ (without_colon (drop 4 s) ++ codes ":"))
    else raw

pub rewrite_line : Text → Text
unfolding alias_of indent_of lstrip
rewrite_line line = alias_of line (indent_of line) (lstrip line)

pub rewrite_modern_aliases : List Text → List Text
unfolding rewrite_line
rewrite_modern_aliases lines = map rewrite_line lines
