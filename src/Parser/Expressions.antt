-- ===== src/Parser/Expressions.antt =====
-- src/mellowlang/parsing/expressions.py: the precedence table, the loop over binary operators, and
-- `parse_expr`.
use mellow_programming_langu.Parser.Result.{
  Parsed, done, starved, bind, Parser, pure, starve, ◌>>=◌, ◌>>◌, with_rounds, peek, advance,
  is_keyword,
}
use mellow_programming_langu.Ast.{Expr, binary_op}
use mathlib.Core.Option
use mellow_programming_langu.Prelude.{
  ℕ, zero, suc, ◌||◌, Option, none, some, List, [], ◌∷◌, ltb, ◌==◌, if◌then◌else◌, length,
}
use mellow_programming_langu.Text.{Text, codes, text_eq}
use mellow_programming_langu.Lexer.{Unicode, Token, lex_expr}
use mellow_programming_langu.Parser.Prefix.{Numbers, parse_prefix}

abbrev pub precedence_table : List (Text × ℕ)
precedence_table =
    (codes "or", 1)
    ∷ (codes "and", 2)
    ∷ (codes "==", 3)
    ∷ (codes "!=", 3)
    ∷ (codes ">", 3)
    ∷ (codes "<", 3)
    ∷ (codes ">=", 3)
    ∷ (codes "<=", 3)
    ∷ (codes "+", 4)
    ∷ (codes "-", 4)
    ∷ (codes "*", 5)
    ∷ (codes "/", 5)
    ∷ (codes "%", 5)
    ∷ (codes "**", 6)
    ∷ []

unfoldable pub precedence_in : List (Text × ℕ) → Text → Option ℕ
unfolding text_eq
precedence_in [] v = none
precedence_in ((op, bp) ∷ ops) v =
    let rest = precedence_in ops v in if text_eq v op then some bp else rest

-- `int(line or 1)`
unfoldable pub or_one : ℕ → ℕ
or_one n = if n == 0 then 1 else n

module _ (u : Unicode) where
  -- The operator at a token, with its precedence.
  unfoldable pub operator : Token → Option (Text × ℕ)
  unfolding precedence_in is_keyword
  operator t =
      let op =
        if is_keyword u (codes "and") t || is_keyword u (codes "or") t
        then u.lower t.value
        else t.value in
      Option.map (λ bp. (op, bp)) (precedence_in precedence_table op)

-- `source` stands for parsing the text of a field of an f-string, `sub min` for `_parse_bp(min)`.
module _ (u : Unicode) {F : Type 0} (numbers : Numbers F) (source : Text → Parsed (Expr F))
    (sub : ℕ → Parser (Expr F)) where
  -- A round of the loop over the binary operators that bind at least as tightly as `least`, at an
  -- operator or none.
  unfoldable pub operate :
      (Expr F → Parser (Expr F)) → ℕ → Expr F → Option (Text × ℕ) → Parser (Expr F)
  unfolding advance
  operate next least lhs none = pure lhs
  operate next least lhs (some (op, bp)) =
      if ltb bp least
      then pure lhs
      else (do advance; rhs ← sub (suc bp); next (binary_op op lhs rhs))

  unfoldable pub bp_round : (Expr F → Parser (Expr F)) → ℕ → Expr F → Parser (Expr F)
  unfolding operator operate peek
  bp_round next least lhs = do t ← peek; operate next least lhs (operator u t)

  unfoldable pub bp_loop : ℕ → ℕ → Expr F → Parser (Expr F)
  unfolding bp_round
  bp_loop zero least lhs = starve
  bp_loop (suc n) least lhs = bp_round (bp_loop n least) least lhs

  unfoldable pub parse_step : ℕ → Parser (Expr F)
  unfolding bp_loop parse_prefix
  parse_step least = do
    lhs ← parse_prefix u numbers source sub
    with_rounds (λ n. bp_loop n least lhs)

module _ (u : Unicode) {F : Type 0} (numbers : Numbers F) where
  -- `_parse_bp`; the fuel is the number of calls that are open at most.
  unfoldable pub parse_bp : (Text → Parsed (Expr F)) → ℕ → ℕ → Parser (Expr F)
  unfolding parse_step
  parse_bp source zero least = starve
  parse_bp source (suc fuel) least = parse_step u numbers source (parse_bp source fuel) least

  -- `ExprParser(src).parse()` on its tokens; `none` is the fuel of the lexer.
  unfoldable pub parse_tokens : (Text → Parsed (Expr F)) → Option (List Token) → Parsed (Expr F)
  unfolding parse_bp
  parse_tokens source none = starved
  parse_tokens source (some ts) = bind (parse_bp source (suc (length ts)) 0 ts) λ (e, rest). done e

  -- The parser of a source at a line and a column; `depth` bounds how deep f-strings nest in it.
  unfoldable pub parse_source : ℕ → ℕ → ℕ → Text → Parsed (Expr F)
  unfolding parse_tokens lex_expr or_one
  parse_source zero line base_col src = starved
  parse_source (suc depth) line base_col src =
      parse_tokens (parse_source depth (or_one line) 1)
        (lex_expr u src (or_one line) (or_one base_col))

  unfoldable pub parse_expr : Text → ℕ → ℕ → Parsed (Expr F)
  unfolding parse_source
  parse_expr src line base_col = parse_source (suc (length src)) line base_col src
