-- ===== src/Parser/Tests.antt =====
-- Runs of the parser of src/mellowlang/parsing/expressions.py.
use mellow_programming_langu.Parser.TemplateScan.{
  template, pieces, NoOpening, NoBrace, WellWritten, scan-template,
}
use mellow_programming_langu.Parser.Templates.{scan, plain, field_piece, literal_piece}
use mellow_programming_langu.Parser.Operators.{Term, name, numeral, signed, joined, spell, bracket}
use mellow_programming_langu.Parser.Total.{parse_expr-ne-starved}
use mellow_programming_langu.Prelude.Int.{ℤ, pos}
use mellow_programming_langu.Parser.Result.{
  Parsed, done, pure, raise, starve, ◌>>=◌, ◌>>◌, or_else, with_rounds, starved,
}
use mellow_programming_langu.Ast.{
  Expr, literal, var, binary_op, call, list_literal, map_literal, fstring, lambda_expr, list_comp,
  spread, slice, no_expr, an_expr, no_exprs, next_expr, no_kwargs, next_kwarg, no_pairs, next_pair,
  no_parts, literal_part, expr_part, int_const, located, return_stmt, no_stmts, next_stmt,
}
use mellow_programming_langu.Prelude.{
  ℕ, suc, ◌+◌, ◌-◌, ◌*◌, String, ◌≡◌, refl, ◌≢◌, Option, none, some, List, [], ◌∷◌, map, All,
}
use mellow_programming_langu.Text.{strip, Text, codes, is_space}
use mellow_programming_langu.Lexer.{
  literal_body, lex_expr, next_token, is_quote, token_at, Token, TokenType, number_tok, keyword_tok,
  ident_tok, op_tok, symbol_tok,
}
use mellow_programming_langu.Lexer.Ascii.{ascii, ascii_digit, ascii_alpha, ascii_alnum, ascii_lower}
use mellow_programming_langu.Parser.Prefix.{Numbers}
use mellow_programming_langu.Parser.Expressions.{parse_expr}

-- Decimal numerals without a sign, and no floats.
decimal : ℕ → Text → Option ℤ
decimal n [] = some (pos n)
decimal n (c ∷ s) = decimal (n * 10 + (c - b'0')) s

abbrev decimals : Numbers ⊥
decimals = record { int_of = decimal 0; float_of = λ s. none }

parsed : String → Parsed (Expr ⊥)
unfolding ◌>>=◌ ◌>>◌ pure raise starve or_else with_rounds decimal parse_expr lex_expr next_token
    is_space is_quote ascii_digit ascii_alpha ascii_alnum ascii_lower token_at
parsed src = parse_expr ascii decimals (codes src) 1 1

precedence_test :
    parsed "1 + 2 * x"
    ≡ done (
        binary_op
          (codes "+")
          (literal (int_const (pos 1)))
          (binary_op (codes "*") (literal (int_const (pos 2))) (var (codes "x"))))
unfolding parsed literal_body
precedence_test = refl

left_test :
    parsed "x ** y ** z"
    ≡ done (
        binary_op
          (codes "**")
          (binary_op (codes "**") (var (codes "x")) (var (codes "y")))
          (var (codes "z")))
unfolding parsed literal_body
left_test = refl

trailing_test : parsed "1 2" ≡ done (literal (int_const (pos 1)))
unfolding parsed literal_body
trailing_test = refl

get_test : parsed "get(x)" ≡ done (var (codes "get"))
unfolding parsed literal_body
get_test = refl

closing_text_test : parsed "f(')', 1)" ≡ done (call (codes "f") no_exprs no_kwargs)
unfolding parsed literal_body
closing_text_test = refl

lambda_test :
    parsed "fn(a, b=1): a[b:]"
    ≡ done (
        lambda_expr
          (codes "a" ∷ codes "b" ∷ [])
          (next_kwarg (codes "b") (literal (int_const (pos 1))) no_kwargs)
          (next_stmt
            (located 0 0 (
              return_stmt
                (an_expr (slice (var (codes "a")) (an_expr (var (codes "b"))) no_expr no_expr))))
            no_stmts))
unfolding parsed literal_body
lambda_test = refl

fstring_test :
    parsed "f'a{b.c(2)}'"
    ≡ done (
        fstring (codes "a{b.c(2)}") (
          literal_part (codes "a") (
            expr_part
              (call (codes "b.c") (next_expr (literal (int_const (pos 2))) no_exprs) no_kwargs)
              no_parts)))
unfolding parsed literal_body
fstring_test = refl

items_test :
    parsed "[*x, {1: x}, [y for y in x if y],]"
    ≡ done (
        list_literal (
          next_expr (spread (var (codes "x"))) (
            next_expr
              (map_literal (next_pair (literal (int_const (pos 1))) (var (codes "x")) no_pairs))
              (next_expr
                (list_comp
                  (var (codes "y"))
                  (codes "y")
                  (var (codes "x"))
                  (an_expr (var (codes "y"))))
                no_exprs))))
unfolding parsed literal_body
items_test = refl

parse_expr-ne-starved_example : parse_expr ascii decimals (codes "f'{x(' + [1,") 1 1 ≢ starved
parse_expr-ne-starved_example = parse_expr-ne-starved ascii decimals (codes "f'{x(' + [1,") 1 1

abbrev at_col : TokenType → String → ℕ → Token
at_col k v c = record { type = k; value = codes v; pos = c; line = 1; col = suc c }

-- (1 + x) * -(y ** 2 and x)
abbrev one_plus : Term
one_plus =
    joined (at_col symbol_tok "+" 3) (codes "+") 4 (numeral (at_col number_tok "1" 1) (pos 1))
      (name (at_col ident_tok "x" 5))

abbrev power_and : Term
power_and =
    joined (at_col keyword_tok "AND" 19) (codes "and") 2
      (joined (at_col op_tok "**" 14) (codes "**") 6 (name (at_col ident_tok "y" 12))
        (numeral (at_col number_tok "2" 17) (pos 2)))
      (name (at_col ident_tok "x" 23))

abbrev product : Term
product =
    joined (at_col symbol_tok "*" 8) (codes "*") 5 one_plus
      (signed (at_col symbol_tok "-" 10) (codes "-") power_and)

-- The parentheses of the product are the needed ones.
product_spelled :
    map (λ (t : Token). t.value) (spell 0 product)
    ≡ map codes (
        "(" ∷ "1" ∷ "+" ∷ "x" ∷ ")" ∷ "*" ∷ "(" ∷ "-" ∷ "(" ∷ "y" ∷ "**" ∷ "2" ∷ "AND" ∷ "x" ∷ ")"
        ∷ ")" ∷ [])
unfolding spell bracket
product_spelled = refl

-- f"{hp}: }}{ x+ }!"
abbrev fields : List (Text × Text)
fields = (codes "", codes "hp") ∷ (codes ": }", codes " x+ ") ∷ []

fields-WellWritten : All WellWritten fields
unfolding WellWritten NoOpening NoBrace
fields-WellWritten = (
  (tt, ((refl, refl), ((refl, refl), tt))),
  (
    (
      (refl, (refl, (refl, tt))),
      ((refl, refl), ((refl, refl), ((refl, refl), ((refl, refl), tt)))),
    ),
    tt,
  ),
)

scan-template_example : scan (plain []) (template fields (codes "!")) ≡ pieces fields (codes "!")
unfolding NoOpening
scan-template_example = scan-template fields (codes "!") fields-WellWritten (refl, tt)

fields_scanned :
    scan (plain []) (template fields (codes "!"))
    ≡ field_piece (codes "hp")
      ∷ literal_piece (codes ": }")
      ∷ field_piece (codes "x+")
      ∷ literal_piece (codes "!")
      ∷ []
unfolding scan template strip is_space
fields_scanned = refl
