-- ===== src/Lexer/Tests.antt =====
-- Runs of the lexer, and the theorems about it at concrete sources.
use mathlib.Core.Option
use mellow_programming_langu.Prelude.{◌+◌, ◌≡◌, refl, some, List, [], ◌∷◌, map, length}
use mellow_programming_langu.Text.{Text, codes, is_space}
use mellow_programming_langu.Lexer.{
  Token, string_tok, eof_tok, number_tok, symbol_tok, op_tok, ident_tok, keyword_tok, lex_expr,
  next_token, string_escape, token_at, is_quote,
}
use mellow_programming_langu.Lexer.Ascii.{ascii, ascii_digit, ascii_alpha, ascii_alnum, ascii_lower}
use mellow_programming_langu.Lexer.Positions.{Placed, lex_expr-Placed}
use mellow_programming_langu.Lexer.Strings.{literal_of, lex_expr-literal_of}
use mellow_programming_langu.Lexer.Values.{values, solid, lex_expr-values}

abbrev src : Text
src = codes "let x1 = 2.5 ** y"

lex_values :
    Option.map (map (λ (t : Token). t.value)) (lex_expr ascii src 1 1)
    ≡ some (map codes ("let" ∷ "x1" ∷ "=" ∷ "2.5" ∷ "**" ∷ "y" ∷ "" ∷ []))
unfolding lex_expr next_token is_space is_quote ascii_digit ascii_alpha ascii_alnum ascii_lower
    token_at
lex_values = refl

lex_types :
    Option.map (map (λ (t : Token). t.type)) (lex_expr ascii src 1 1)
    ≡ some (keyword_tok ∷ ident_tok ∷ symbol_tok ∷ number_tok ∷ op_tok ∷ ident_tok ∷ eof_tok ∷ [])
unfolding lex_expr next_token is_space is_quote ascii_digit ascii_alpha ascii_alnum ascii_lower
    token_at
lex_types = refl

unicode_escape : string_escape (codes "u0041x") ≡ (b'A', 5)
unfolding string_escape
unicode_escape = refl

lex_expr-Placed_example :
    (ts : List Token) × (lex_expr ascii src 3 5 ≡ some ts) × Placed (length src) 3 5 0 ts
lex_expr-Placed_example = lex_expr-Placed ascii src 3 5

lex_expr-literal_of_example :
    lex_expr ascii (literal_of (codes "a\"b")) 1 1
    ≡ some (
        record { type = string_tok; value = codes "a\"b"; pos = 0; line = 1; col = 1 }
        ∷ record {
          type = eof_tok;
          value = [];
          pos = length (literal_of (codes "a\"b"));
          line = 1;
          col = 1 + length (literal_of (codes "a\"b"));
        }
        ∷ [])
lex_expr-literal_of_example = lex_expr-literal_of ascii 1 1 (codes "a\"b")

abbrev short : Text
short = codes "x =1"

lex_expr-values_example :
    (ts : List Token) × (lex_expr ascii short 1 1 ≡ some ts) × (values ts ≡ solid short)
unfolding is_quote
lex_expr-values_example = lex_expr-values ascii short 1 1 (refl, (refl, (refl, (refl, tt))))
