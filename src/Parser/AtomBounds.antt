-- ===== src/Parser/AtomBounds.antt =====
-- What the forms of src/mellowlang/parsing/expression_atoms.py leave of the tokens.
use mellow_programming_langu.Lexer.{Unicode}
use mellow_programming_langu.Parser.Result.{Parser, is_keyword, expected_in}
use mellow_programming_langu.Ast.{Expr, Exprs, KwArgs, Pairs, no_kwargs}
use mellow_programming_langu.Prelude.{ℕ, zero, suc, ◌-◌, ◌≤◌, not, ◌&&◌, List, [], arith}
use mellow_programming_langu.Text.{Text, codes}
use mellow_programming_langu.Parser.Bounded.{
  Bounded, Bounded-if, Bounded-pure, Bounded-raise, Bounded-zero, Bounded-rounds, Bounded-le, ◌▸◌,
  ◌▹◌, peek_bind, eats_keeps, eats_to, advance_eats, advance_keeps, match_val_keeps,
  expect_val_keeps, expect_val_eats,
}
use mellow_programming_langu.Parser.PostfixBounds.{Reads, sub_keeps}
use mellow_programming_langu.Parser.Atoms.{
  is_spread_item, lambda_param, params_round, params_loop, parse_lambda, list_item, comp_condition,
  list_comprehension, items_round, items_loop, list_items, parse_list, pairs_round, pairs_loop,
  parse_map,
}

module _ (u : Unicode) {F : Type 0} (sub : ℕ → Parser (Expr F)) {L N : ℕ}
    (reads : Reads L N sub) where
  lambda_param_eats :
      {n : ℕ} (acc : List Text × KwArgs F)
      → n - 1 ≤ N
      → Bounded L n (n - 1) (lambda_param u sub acc)
  unfolding lambda_param
  lambda_param_eats acc h = advance_eats ▸ λ name. peek_bind λ t s.
      Bounded-if _ (advance_keeps ▹ sub_keeps u sub reads h 0 ▸ λ e. Bounded-pure _)
        (Bounded-pure _)

  params_round_eats :
      {n : ℕ} (next : List Text × KwArgs F → Parser (List Text × KwArgs F))
      (acc : List Text × KwArgs F)
      → n - 1 ≤ N
      → ((acc : List Text × KwArgs F) → Bounded L (n - 1) (n - 1) (next acc))
      → Bounded L n (n - 1) (params_round u sub next acc)
  unfolding params_round
  params_round_eats next acc h more = lambda_param_eats acc h ▸ λ acc'.
      match_val_keeps u _ ▸ λ closed.
      Bounded-if _ (Bounded-pure _) (expect_val_keeps u _ ▹ more acc')

  params_loop_eats :
      (r n : ℕ) (acc : List Text × KwArgs F)
      → n ≤ r
      → n - 1 ≤ N
      → Bounded L n (n - 1) (params_loop u sub r acc)
  unfolding params_loop
  params_loop_eats zero n acc hr h = Bounded-zero _ hr
  params_loop_eats (suc r) n acc hr h =
      params_round_eats _ acc h
        λ acc'. eats_keeps (params_loop_eats r (n - 1) acc' (omega arith) (omega arith))

  pub parse_lambda_eats : {n : ℕ} → n - 1 ≤ N → Bounded L n (n - 1) (parse_lambda u sub)
  unfolding parse_lambda
  parse_lambda_eats h =
      advance_eats
      ▹ expect_val_keeps u _
      ▹ peek_bind λ t s.
        Bounded-if _ (advance_keeps ▹ Bounded-pure _) (
          Bounded-rounds _
            λ k hk. eats_to hk (params_loop_eats k k ([], no_kwargs) (omega arith) (omega arith)))
        ▸ λ params. expect_val_keeps u _ ▹ sub_keeps u sub reads h 0 ▸ λ body. Bounded-pure _

  list_item_eats : {n : ℕ} → n ≤ N → Bounded L n (n - 1) (list_item u sub)
  unfolding list_item
  list_item_eats h = peek_bind λ t s.
      Bounded-if _ (advance_eats ▹ sub_keeps u sub reads (omega arith) 0 ▸ λ e. Bounded-pure _)
        (reads.at _ 0 h)

  comp_condition_keeps : {n : ℕ} → n ≤ N → Bounded L n n (comp_condition u sub)
  unfolding comp_condition
  comp_condition_keeps h = peek_bind λ t s.
      Bounded-if _ (advance_keeps ▹ sub_keeps u sub reads h 0 ▸ λ e. Bounded-pure _)
        (Bounded-pure _)

  list_comprehension_keeps :
      {n : ℕ} (first : Expr F) → n ≤ N → Bounded L n n (list_comprehension u sub first)
  unfolding list_comprehension
  list_comprehension_keeps first h = advance_keeps ▹ advance_keeps ▸ λ name. peek_bind λ t s.
      Bounded-if _
        (advance_keeps ▹ sub_keeps u sub reads h 0 ▸ λ iterable.
          comp_condition_keeps h ▸ λ cond. expect_val_keeps u _ ▹ Bounded-pure _)
        (Bounded-raise expected_in)

  items_round_keeps :
      {n : ℕ} (next : Parser (Exprs F))
      → n - 1 ≤ N
      → Bounded L (n - 1) (n - 1) next
      → Bounded L n n (items_round u sub next)
  unfolding items_round
  items_round_keeps next h more = peek_bind λ t s.
      Bounded-if _
        (eats_keeps (
          advance_eats
          ▹ peek_bind λ t' s'.
            Bounded-if _ (Bounded-pure _)
              (eats_keeps (list_item_eats h) ▸ λ e. more ▸ λ es. Bounded-pure _)))
        (Bounded-pure _)

  items_loop_keeps : (r n : ℕ) → n ≤ r → n - 1 ≤ N → Bounded L n n (items_loop u sub r)
  unfolding items_loop
  items_loop_keeps zero n hr h = Bounded-zero _ hr
  items_loop_keeps (suc r) n hr h =
      items_round_keeps _ h (items_loop_keeps r (n - 1) (omega arith) (omega arith))

  list_items_keeps : {n : ℕ} (first : Expr F) → n ≤ N → Bounded L n n (list_items u sub first)
  unfolding list_items
  list_items_keeps first h =
      Bounded-rounds _
        (λ k hk. Bounded-le (omega arith) hk (items_loop_keeps k k (omega arith) (omega arith)))
      ▸ λ es. expect_val_keeps u _ ▹ Bounded-pure _

  pub parse_list_eats : {n : ℕ} → n - 1 ≤ N → Bounded L n (n - 1) (parse_list u sub)
  unfolding parse_list
  parse_list_eats h =
      expect_val_eats u _
      ▹ peek_bind λ t s. Bounded-if _ (advance_keeps ▹ Bounded-pure _) (
          eats_keeps (list_item_eats h) ▸ λ first. peek_bind λ t' s'.
            Bounded-if (not (is_spread_item first) && is_keyword u (codes "for") t')
              (list_comprehension_keeps first h) (list_items_keeps first h))

  pairs_round_eats :
      {n : ℕ} (next : Parser (Pairs F))
      → n ≤ N
      → Bounded L (n - 1) (n - 1) next
      → Bounded L n (n - 1) (pairs_round u sub next)
  unfolding pairs_round
  pairs_round_eats next h more = reads.at _ 0 h ▸ λ key.
      expect_val_keeps u _ ▹ sub_keeps u sub reads (omega arith) 0 ▸ λ val.
      match_val_keeps u _ ▸ λ closed.
      Bounded-if _ (Bounded-pure _) (expect_val_keeps u _ ▹ more ▸ λ rest. Bounded-pure _)

  pairs_loop_eats : (r n : ℕ) → n ≤ r → n ≤ N → Bounded L n (n - 1) (pairs_loop u sub r)
  unfolding pairs_loop
  pairs_loop_eats zero n hr h = Bounded-zero _ hr
  pairs_loop_eats (suc r) n hr h =
      pairs_round_eats _ h (eats_keeps (pairs_loop_eats r (n - 1) (omega arith) (omega arith)))

  pub parse_map_eats : {n : ℕ} → n - 1 ≤ N → Bounded L n (n - 1) (parse_map u sub)
  unfolding parse_map
  parse_map_eats h =
      expect_val_eats u _
      ▹ peek_bind λ t s.
        Bounded-if _ (advance_keeps ▹ Bounded-pure _)
          (Bounded-rounds _ λ k hk. eats_to hk (pairs_loop_eats k k (omega arith) (omega arith)))
        ▸ λ pairs. Bounded-pure _
