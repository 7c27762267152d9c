-- ===== src/Parser/Atoms.antt =====
-- src/mellowlang/parsing/expression_atoms.py: inline lambdas, lists and maps. `sub min` stands for
-- `_parse_bp(min)`.
use mellow_programming_langu.Lexer.{Unicode}
use mellow_programming_langu.Parser.Result.{
  Parser, pure, raise, starve, ◌>>=◌, ◌>>◌, with_rounds, peek, advance, is, is_keyword, match_val,
  expect_val, expected_in,
}
use mellow_programming_langu.Ast.{
  Expr, Exprs, KwArgs, Pairs, MaybeExpr, list_literal, map_literal, lambda_expr, list_comp, spread,
  no_expr, an_expr, no_exprs, next_expr, no_kwargs, next_kwarg, no_pairs, next_pair, located,
  return_stmt, no_stmts, next_stmt,
}
use mellow_programming_langu.Prelude.{
  ℕ, zero, suc, Bool, true, false, not, ◌&&◌, List, [], ◌∷◌, ◌++◌, if◌then◌else◌,
}
use mellow_programming_langu.Text.{Text, codes, text_eq}

-- `defaults[x] = e` on a dict
unfoldable pub set_default : {F : Type 0} → Text → Expr F → KwArgs F → KwArgs F
unfolding text_eq
set_default x e no_kwargs = next_kwarg x e no_kwargs
set_default x e (next_kwarg y d ks) =
    let rest = set_default x e ks in if text_eq x y then next_kwarg y e ks else next_kwarg y d rest

-- `isinstance(first, SpreadExpr)`
unfoldable pub is_spread_item : {F : Type 0} → Expr F → Bool
is_spread_item (spread e) = true
is_spread_item _ = false

module _ (u : Unicode) {F : Type 0} (sub : ℕ → Parser (Expr F)) where
  -- One parameter, added to the names and the defaults read so far.
  unfoldable pub lambda_param : List Text × KwArgs F → Parser (List Text × KwArgs F)
  unfolding set_default peek advance
  lambda_param (params, defaults) = do
    name ← advance
    t ← peek
    if is (codes "=") t
        then (do
          advance
          e ← sub 0
          pure (params ++ name.value ∷ [], set_default name.value e defaults))
        else pure (params ++ name.value ∷ [], defaults)

  unfoldable pub params_round :
      (List Text × KwArgs F → Parser (List Text × KwArgs F))
      → List Text × KwArgs F
      → Parser (List Text × KwArgs F)
  unfolding lambda_param match_val expect_val
  params_round next acc = do
    acc' ← lambda_param acc
    closed ← match_val u (codes ")")
    if closed then pure acc' else (do expect_val u (codes ","); next acc')

  unfoldable pub params_loop : ℕ → List Text × KwArgs F → Parser (List Text × KwArgs F)
  unfolding params_round
  params_loop zero acc = starve
  params_loop (suc n) acc = params_round (params_loop n) acc

  unfoldable pub parse_lambda : Parser (Expr F)
  unfolding params_loop expect_val peek advance
  parse_lambda = do
    advance
    expect_val u (codes "(")
    t ← peek
    params ←
        if is (codes ")") t
        then (advance >> pure ([], no_kwargs))
        else with_rounds (λ n. params_loop n ([], no_kwargs))
    expect_val u (codes ":")
    body ← sub 0
    pure (
        lambda_expr params.0 params.1
          (next_stmt (located 0 0 (return_stmt (an_expr body))) no_stmts))

  unfoldable pub list_item : Parser (Expr F)
  unfolding peek advance
  list_item = do
    t ← peek
    if is (codes "*") t then (do advance; e ← sub 0; pure (spread e)) else sub 0

  unfoldable pub comp_condition : Parser (MaybeExpr F)
  unfolding is_keyword peek advance
  comp_condition = do
    t ← peek
    if is_keyword u (codes "if") t then (do advance; e ← sub 0; pure (an_expr e)) else pure no_expr

  -- The comprehension behind its first expression, from "for" on.
  unfoldable pub list_comprehension : Expr F → Parser (Expr F)
  unfolding comp_condition is_keyword expect_val peek advance
  list_comprehension first = do
    advance
    name ← advance
    t ← peek
    if is_keyword u (codes "in") t
        then (do
          advance
          iterable ← sub 0
          cond ← comp_condition
          expect_val u (codes "]")
          pure (list_comp first name.value iterable cond))
        else raise expected_in

  -- A round of the loop over the items behind the first one.
  unfoldable pub items_round : Parser (Exprs F) → Parser (Exprs F)
  unfolding list_item peek advance
  items_round next = do
    t ← peek
    if is (codes ",") t
        then (do
          advance
          t' ← peek
          if is (codes "]") t'
              then pure no_exprs
              else (do e ← list_item; es ← next; pure (next_expr e es)))
        else pure no_exprs

  unfoldable pub items_loop : ℕ → Parser (Exprs F)
  unfolding items_round
  items_loop zero = starve
  items_loop (suc n) = items_round (items_loop n)

  unfoldable pub list_items : Expr F → Parser (Expr F)
  unfolding items_loop expect_val
  list_items first = do
    es ← with_rounds items_loop
    expect_val u (codes "]")
    pure (list_literal (next_expr first es))

  unfoldable pub parse_list : Parser (Expr F)
  unfolding list_item list_items list_comprehension is_spread_item is_keyword expect_val peek
      advance
  parse_list = do
    expect_val u (codes "[")
    t ← peek
    if is (codes "]") t then (advance >> pure (list_literal no_exprs)) else (do
      first ← list_item
      t' ← peek
      if not (is_spread_item first) && is_keyword u (codes "for") t'
          then list_comprehension first
          else list_items first)

  unfoldable pub pairs_round : Parser (Pairs F) → Parser (Pairs F)
  unfolding match_val expect_val
  pairs_round next = do
    key ← sub 0
    expect_val u (codes ":")
    val ← sub 0
    closed ← match_val u (codes "}")
    if closed
        then pure (next_pair key val no_pairs)
        else (do expect_val u (codes ","); more ← next; pure (next_pair key val more))

  unfoldable pub pairs_loop : ℕ → Parser (Pairs F)
  unfolding pairs_round
  pairs_loop zero = starve
  pairs_loop (suc n) = pairs_round (pairs_loop n)

  unfoldable pub parse_map : Parser (Expr F)
  unfolding pairs_loop expect_val peek advance
  parse_map = do
    expect_val u (codes "{")
    t ← peek
    pairs ← if is (codes "}") t then (advance >> pure no_pairs) else with_rounds pairs_loop
    pure (map_literal pairs)
