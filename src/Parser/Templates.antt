-- ===== src/Parser/Templates.antt =====
-- src/mellowlang/parsing/expression_atoms.py: `_parse_fstring`. The template is scanned into pieces,
-- and the fields among them are parsed as expressions.
use mellow_programming_langu.Parser.Result.{Parsed, done, failed, starved, bind, Parser}
use mellow_programming_langu.Ast.{
  Expr, Parts, literal, fstring, no_parts, literal_part, expr_part, text_const,
}
use mellow_programming_langu.Prelude.{
  ℕ, suc, ◌-◌, Bool, false, ◌&&◌, List, [], ◌∷◌, ◌++◌, ltb, ◌==◌, if◌then◌else◌,
}
use mellow_programming_langu.Text.{Text, is_empty, strip}

-- A piece is a stretch of literal text or the stripped source of a field.
pub data Piece : Type 0 where
  literal_piece : Text → Piece
  field_piece : Text → Piece

-- Where the scan stands: in literal text with `buf`, behind the first brace of "}}", or in a field
-- with the depth of its braces and `expr_buf`.
pub data Mode : Type 0 where
  plain : Text → Mode
  skipping : Text → Mode
  inside : ℕ → Text → Mode

-- `if buf: parts.append(('literal', ''.join(buf)))`
unfoldable pub flush_text : Text → List Piece
flush_text [] = []
flush_text (c ∷ s) = literal_piece (c ∷ s) ∷ []

-- `if expr_src: …` at the end of a field
unfoldable pub end_field : Text → List Piece
unfolding strip
end_field buf = if is_empty (strip buf) then [] else field_piece (strip buf) ∷ []

unfoldable pub starts_with_brace : Text → Bool
starts_with_brace [] = false
starts_with_brace (c ∷ s) = c == b'}'

unfoldable pub inside_step : ℕ → Text → ℕ → Mode × List Piece
unfolding end_field
inside_step depth buf c =
    if c == b'{'
    then (inside (suc depth) (buf ++ c ∷ []), [])
    else if c == b'}'
    then if ltb 1 depth then (inside (depth - 1) (buf ++ c ∷ []), []) else (plain [], end_field buf)
    else (inside depth (buf ++ c ∷ []), [])

-- One character `c` before the text `s`: where the scan stands then, and the pieces that are done.
unfoldable pub scan_step : Mode → ℕ → Text → Mode × List Piece
unfolding flush_text starts_with_brace inside_step
scan_step (plain buf) c s =
    if c == b'{'
    then (inside 1 [], flush_text buf)
    else if c == b'}' && starts_with_brace s
    then (skipping (buf ++ b'}' ∷ []), [])
    else (plain (buf ++ c ∷ []), [])
scan_step (skipping buf) c s = (plain buf, [])
scan_step (inside depth buf) c s = inside_step depth buf c

unfoldable pub scan_end : Mode → List Piece
unfolding flush_text end_field
scan_end (plain buf) = flush_text buf
scan_end (skipping buf) = flush_text buf
scan_end (inside depth buf) = end_field buf

unfoldable pub scan : Mode → Text → List Piece
unfolding scan_step scan_end
scan m [] = scan_end m
scan m (c ∷ s) = (scan_step m c s).1 ++ scan (scan_step m c s).0 s

-- A field that does not parse is a literal of its text.
unfoldable pub or_text : {F : Type 0} → Text → Parsed (Expr F) → Parsed (Expr F)
or_text src (done e) = done e
or_text src (failed err) = done (literal (text_const src))
or_text src starved = starved

-- `source` stands for parsing the text of a field with a parser of its own.
module _ {F : Type 0} (source : Text → Parsed (Expr F)) where
  unfoldable pub parts_of : List Piece → Parsed (Parts F)
  unfolding or_text
  parts_of [] = done no_parts
  parts_of (literal_piece s ∷ ps) = bind (parts_of ps) λ parts. done (literal_part s parts)
  parts_of (field_piece src ∷ ps) =
      bind (or_text src (source src)) λ e. bind (parts_of ps) λ parts. done (expr_part e parts)

  unfoldable pub parse_fstring : Text → Parser (Expr F)
  unfolding parts_of scan
  parse_fstring template ts =
      bind (parts_of (scan (plain []) template)) λ parts. done (fstring template parts, ts)
