-- ===== src/Parser/Postfix.antt =====
-- src/mellowlang/parsing/expression_postfix.py: what can stand behind an expression, a call, a member
-- or a subscript. `sub min` stands for `_parse_bp(min)`.
use mellow_programming_langu.Prelude.Int.{pos}
use mellow_programming_langu.Prelude.{
  ℕ, zero, suc, Bool, ◌&&◌, ◌||◌, Option, none, some, ◌++◌, if◌then◌else◌,
}
use mellow_programming_langu.Text.{Text, codes}
use mellow_programming_langu.Lexer.{Unicode, Token}
use mellow_programming_langu.Ast.{
  Expr, Exprs, KwArgs, MaybeExpr, literal, var, call, index, get_module, call_val, slice, no_expr,
  an_expr, no_exprs, next_expr, no_kwargs, next_kwarg, int_const,
}
use mellow_programming_langu.Parser.Result.{
  Parser, pure, starve, ◌>>=◌, ◌>>◌, with_rounds, peek, advance, is, match_val, expect_val, is_word,
  next_is,
}

pub data Argument (F : Type 0) : Type 0 where
  positional : Expr F → Argument F
  named : Text → Expr F → Argument F

module _ {F : Type 0} where
  -- `isinstance(expr, Var)`, with the name
  unfoldable pub var_name : Expr F → Option Text
  var_name (var x) = some x
  var_name _ = none

  abbrev pub add_argument : Argument F → Exprs F × KwArgs F → Exprs F × KwArgs F
  add_argument (positional e) (es, ks) = (next_expr e es, ks)
  add_argument (named x e) (es, ks) = (es, next_kwarg x e ks)

  -- `start_e if start_e is not None else Literal(0)`
  abbrev pub or_zero : MaybeExpr F → Expr F
  or_zero no_expr = literal (int_const (pos 0))
  or_zero (an_expr e) = e

module _ (u : Unicode) {F : Type 0} (sub : ℕ → Parser (Expr F)) where
  -- A round of the loop over positional arguments, before the rest of the loop.
  unfoldable pub args_round : Parser (Exprs F) → Parser (Exprs F)
  unfolding match_val expect_val
  args_round next = do
    e ← sub 0
    closed ← match_val u (codes ")")
    if closed
        then pure (next_expr e no_exprs)
        else (do expect_val u (codes ","); es ← next; pure (next_expr e es))

  unfoldable pub args_loop : ℕ → Parser (Exprs F)
  unfolding args_round
  args_loop zero = starve
  args_loop (suc n) = args_round (args_loop n)

  unfoldable pub arguments : Parser (Exprs F)
  unfolding args_loop peek advance
  arguments = do
    t ← peek
    if is (codes ")") t then (advance >> pure no_exprs) else with_rounds args_loop

  unfoldable pub call_argument : Parser (Argument F)
  unfolding peek advance next_is is_word
  call_argument = do
    t ← peek
    assigned ← next_is (codes "=")
    if is_word t && assigned
        then (do advance; advance; e ← sub 0; pure (named t.value e))
        else (do e ← sub 0; pure (positional e))

  unfoldable pub call_args_round : Parser (Exprs F × KwArgs F) → Parser (Exprs F × KwArgs F)
  unfolding call_argument match_val expect_val
  call_args_round next = do
    a ← call_argument
    closed ← match_val u (codes ")")
    if closed
        then pure (add_argument a (no_exprs, no_kwargs))
        else (do expect_val u (codes ","); more ← next; pure (add_argument a more))

  unfoldable pub call_args_loop : ℕ → Parser (Exprs F × KwArgs F)
  unfolding call_args_round
  call_args_loop zero = starve
  call_args_loop (suc n) = call_args_round (call_args_loop n)

  unfoldable pub name_call : Text → Parser (Expr F)
  unfolding call_args_loop peek advance
  name_call x = do
    advance
    t ← peek
    args ←
        if is (codes ")") t
        then (advance >> pure (no_exprs, no_kwargs))
        else with_rounds call_args_loop
    pure (call x args.0 args.1)

  unfoldable pub value_call : Expr F → Parser (Expr F)
  unfolding arguments advance
  value_call e = do advance; args ← arguments; pure (call_val e args)

  unfoldable pub dot_member : Text → Parser (Expr F)
  unfolding arguments peek advance
  dot_member x = do
    advance
    attr ← advance
    t ← peek
    if is (codes "(") t
        then (do
          advance
          args ← arguments
          pure (call (x ++ (codes "." ++ attr.value)) args no_kwargs))
        else pure (get_module x attr.value no_exprs)

  unfoldable pub optional_expr : Bool → Parser (MaybeExpr F)
  optional_expr absent = if absent then pure no_expr else (do e ← sub 0; pure (an_expr e))

  unfoldable pub slice_step : Parser (MaybeExpr F)
  unfolding optional_expr peek advance
  slice_step = do
    t ← peek
    if is (codes ":") t
        then (do advance; t' ← peek; optional_expr (is (codes "]") t'))
        else pure no_expr

  unfoldable pub slice_bounds : Expr F → MaybeExpr F → Parser (Expr F)
  unfolding optional_expr slice_step expect_val peek advance
  slice_bounds e start = do
    advance
    t ← peek
    stop ← optional_expr (is (codes "]") t || is (codes ":") t)
    step ← slice_step
    expect_val u (codes "]")
    pure (slice e start stop step)

  unfoldable pub close_index : Expr F → MaybeExpr F → Parser (Expr F)
  unfolding expect_val
  close_index e start = do expect_val u (codes "]"); pure (index e (or_zero start))

  unfoldable pub index_or_slice : Expr F → MaybeExpr F → Parser (Expr F)
  unfolding close_index slice_bounds peek
  index_or_slice e start = do
    t ← peek
    if is (codes ":") t then slice_bounds e start else close_index e start

  unfoldable pub subscript : Expr F → Parser (Expr F)
  unfolding close_index index_or_slice optional_expr peek advance
  subscript e = do
    advance
    t ← peek
    if is (codes "]") t
        then close_index e no_expr
        else (do start ← optional_expr (is (codes ":") t); index_or_slice e start)

  -- What the loop of `_parse_postfix` reads at the token `t`, behind an expression `e` with the
  -- name of a variable or without; `none` is its `break`.
  unfoldable pub suffix_of : Option Text → Expr F → Token → Option (Parser (Expr F))
  unfolding name_call value_call dot_member subscript
  suffix_of (some x) e t =
      if is (codes "(") t
      then some (name_call x)
      else if is (codes ".") t
      then some (dot_member x)
      else if is (codes "[") t
      then some (subscript e)
      else none
  suffix_of none e t =
      if is (codes "(") t
      then some (value_call e)
      else if is (codes "[") t
      then some (subscript e)
      else none

  unfoldable pub suffix : Expr F → Token → Option (Parser (Expr F))
  unfolding suffix_of var_name
  suffix e t = suffix_of (var_name e) e t

  unfoldable pub follow :
      (Expr F → Parser (Expr F)) → Expr F → Option (Parser (Expr F)) → Parser (Expr F)
  follow next e (some p) = p >>= next
  follow next e none = pure e

  unfoldable pub postfix_round : (Expr F → Parser (Expr F)) → Expr F → Parser (Expr F)
  unfolding suffix follow peek
  postfix_round next e = do t ← peek; follow next e (suffix e t)

  unfoldable pub postfix_loop : ℕ → Expr F → Parser (Expr F)
  unfolding postfix_round
  postfix_loop zero e = starve
  postfix_loop (suc n) e = postfix_round (postfix_loop n) e

  unfoldable pub parse_postfix : Expr F → Parser (Expr F)
  unfolding postfix_loop
  parse_postfix e = with_rounds λ n. postfix_loop n e
