-- ===== src/Parser/Prefix.antt =====
-- src/mellowlang/parsing/expressions.py: the prefix forms, and the lookahead for lambdas.
use mellow_programming_langu.Prelude.Int.{ℤ}
use mellow_programming_langu.Parser.Result.{
  Parsed, done, Parser, pure, raise, ◌>>=◌, ◌>>◌, or_else, peek, advance, is, is_keyword,
  expect_val, is_word, unexpected, value_error,
}
use mellow_programming_langu.Ast.{
  Constant, Expr, Exprs, literal, var, unary_op, get_module, no_exprs, none_const, bool_const,
  int_const, float_const, text_const,
}
use mellow_programming_langu.Prelude.{
  ℕ, zero, suc, ◌-◌, String, Bool, false, ◌&&◌, Option, none, some, List, [], ◌∷◌, map,
  if◌then◌else◌,
}
use mellow_programming_langu.Text.{contains, Text, codes, text_eq}
use mellow_programming_langu.Lexer.{
  Unicode, Token, fstring_tok, string_tok, number_tok, keyword_tok, is_member, TokenType,
}
use mellow_programming_langu.Parser.Postfix.{arguments, parse_postfix}
use mellow_programming_langu.Parser.Atoms.{parse_lambda, parse_list, parse_map}
use mellow_programming_langu.Parser.Templates.{parse_fstring}

-- Python's `int` and `float` of a text; `none` is a ValueError.
pub record Numbers (F : Type 0) : Type 0 where
  pub int_of : Text → Option ℤ
  pub float_of : Text → Option F

unfoldable pub depth_behind : Token → ℕ → ℕ
unfolding text_eq
depth_behind t depth =
    if is (codes "(") t then suc depth else if is (codes ")") t then depth - 1 else depth

-- The tokens behind the `)` that closes the open brackets.
unfoldable pub behind_closing : ℕ → List Token → List Token
unfolding depth_behind
behind_closing zero ts = ts
behind_closing (suc depth) [] = []
behind_closing (suc depth) (t ∷ ts) = behind_closing (depth_behind t (suc depth)) ts

unfoldable pub head_is : Text → List Token → Bool
unfolding text_eq
head_is v [] = false
head_is v (t ∷ ts) = is v t

-- The lookahead at a word that may start a lambda: behind it "(", its ")", and ":".
unfoldable pub lambda_ahead : Parser Bool
unfolding behind_closing head_is
lambda_ahead [] = done (false, [])
lambda_ahead (t ∷ []) = done (false, t ∷ [])
lambda_ahead (t ∷ t' ∷ ts) =
    done (is (codes "(") t' && head_is (codes ":") (behind_closing 1 ts), t ∷ t' ∷ ts)

-- The literal of a number that was read.
unfoldable pub literal_or_error : {F A : Type 0} → (A → Constant F) → Option A → Parser (Expr F)
literal_or_error const (some a) = pure (literal (const a))
literal_or_error const none = raise value_error

module _ (u : Unicode) where
  -- `t.value.lower() in words`
  unfoldable pub low_in : List String → Token → Bool
  unfolding is_member
  low_in words t = is_member (u.lower t.value) (map codes words)

-- `source` stands for parsing the text of a field of an f-string, `sub min` for `_parse_bp(min)`.
module _ (u : Unicode) {F : Type 0} (numbers : Numbers F) (source : Text → Parsed (Expr F))
    (sub : ℕ → Parser (Expr F)) where
  unfoldable pub number_literal : Token → Parser (Expr F)
  unfolding advance contains literal_or_error
  number_literal t = do
    advance
    if contains (codes ".") t.value
        then literal_or_error float_const (numbers.float_of t.value)
        else literal_or_error int_const (numbers.int_of t.value)

  unfoldable pub module_args : Parser (Exprs F)
  unfolding arguments peek advance
  module_args = do t ← peek; if is (codes "(") t then advance >> arguments u sub else pure no_exprs

  -- The function and the arguments of `get m.f(args)`, from the dot on.
  unfoldable pub func_call : Token → Parser (Option (Expr F))
  unfolding module_args is_word peek advance
  func_call mod_tok = do
    advance
    func_tok ← peek
    if is_word func_tok
        then (do
          advance
          args ← module_args
          pure (some (get_module mod_tok.value func_tok.value args)))
        else pure none

  -- `get m.f(args)`; `none` goes on behind what it has read.
  unfoldable pub get_call : Parser (Option (Expr F))
  unfolding func_call is_word peek advance
  get_call = do
    advance
    mod_tok ← peek
    if is_word mod_tok
        then (do advance; t ← peek; if is (codes ".") t then func_call mod_tok else pure none)
        else pure none

  -- The forms from "(" on; `t` is the token at which the prefix starts.
  unfoldable pub group_prefix : Token → Parser (Expr F)
  unfolding parse_postfix parse_list parse_map expect_val is_word peek advance
  group_prefix t =
      if is (codes "(") t
      then (do advance; inner ← sub 0; expect_val u (codes ")"); parse_postfix u sub inner)
      else if is (codes "[") t
      then parse_list u sub >>= parse_postfix u sub
      else if is (codes "{") t
      then parse_map u sub >>= parse_postfix u sub
      else if is_word t
      then advance >> parse_postfix u sub (var t.value)
      else (do t' ← peek; raise (unexpected t'))

  unfoldable pub lambda_prefix : Token → Parser (Expr F)
  unfolding group_prefix parse_lambda lambda_ahead
  lambda_prefix t = do
    ahead ← lambda_ahead
    if ahead then or_else (parse_lambda u sub) (group_prefix t) else group_prefix t

  unfoldable pub or_group : Token → Option (Expr F) → Parser (Expr F)
  unfolding group_prefix
  or_group t (some e) = pure e
  or_group t none = group_prefix t

  unfoldable pub get_prefix : Token → Parser (Expr F)
  unfolding or_group get_call
  get_prefix t = do found ← get_call; or_group t found

  unfoldable pub constant : Constant F → Parser (Expr F)
  unfolding advance
  constant c = do advance; pure (literal c)

  unfoldable pub keyword_prefix : Token → Parser (Expr F)
  unfolding get_prefix lambda_prefix constant low_in text_eq
  keyword_prefix t =
      if low_in u ("true" ∷ "false" ∷ []) t
      then constant (bool_const (text_eq (u.lower t.value) (codes "true")))
      else if low_in u ("none" ∷ "null" ∷ []) t
      then constant none_const
      else if low_in u ("skill" ∷ "fn" ∷ "lambda" ∷ "def" ∷ "function" ∷ []) t
      then lambda_prefix t
      else if low_in u ("get" ∷ "call" ∷ []) t
      then get_prefix t
      else group_prefix t

  unfoldable pub typed_prefix : TokenType → Token → Parser (Expr F)
  unfolding number_literal parse_fstring keyword_prefix constant advance
  typed_prefix number_tok t = number_literal t
  typed_prefix string_tok t = constant (text_const t.value)
  typed_prefix fstring_tok t = advance >> parse_fstring source t.value
  typed_prefix keyword_tok t = keyword_prefix t
  typed_prefix _ t = group_prefix t

  unfoldable pub unary : Text → Parser (Expr F)
  unfolding advance
  unary op = do advance; e ← sub 6; pure (unary_op op e)

  unfoldable pub parse_prefix : Parser (Expr F)
  unfolding typed_prefix unary is_keyword peek
  parse_prefix = do
    t ← peek
    if is_keyword u (codes "not") t
        then unary (codes "not")
        else if is (codes "-") t
        then unary (codes "-")
        else typed_prefix t.type t
