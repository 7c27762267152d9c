-- ===== src/Parser/PostfixBounds.antt =====
-- What the forms of src/mellowlang/parsing/expression_postfix.py leave of the tokens.
use mellow_programming_langu.Lexer.{Unicode, Token}
use mellow_programming_langu.Parser.Result.{Parser, is}
use mellow_programming_langu.Prelude.{
  ℕ, zero, suc, ◌-◌, ◌≤◌, Bool, true, false, Option, none, some, arith, if◌then◌else◌,
}
use mellow_programming_langu.Text.{Text, codes}
use mellow_programming_langu.Ast.{Expr, Exprs, KwArgs, MaybeExpr, no_expr}
use mellow_programming_langu.Parser.Bounded.{
  Bounded, Bounded-if, Bounded-pure, Bounded-zero, Bounded-rounds, ◌▸◌, ◌▹◌, peek_bind, eats_keeps,
  eats_to, advance_eats, advance_keeps, next_is_keeps, match_val_keeps, expect_val_keeps,
  Bounded-le,
}
use mellow_programming_langu.Parser.Postfix.{
  args_round, args_loop, arguments, call_argument, call_args_round, call_args_loop, name_call,
  value_call, dot_member, optional_expr, slice_step, slice_bounds, close_index, index_or_slice,
  subscript, suffix, suffix_of, follow, var_name, postfix_round, postfix_loop, parse_postfix,
}

-- Up to `N` tokens `sub` reads at least one.
pub record Reads {F : Type 0} (L N : ℕ) (sub : ℕ → Parser (Expr F)) : Type 0 where
  pub at : (n k : ℕ) → n ≤ N → Bounded L n (n - 1) (sub k)

-- A suffix, suffix_of, where there is one, reads at least one token.
data Suffixed {F : Type 0} (L n : ℕ) : Option (Parser (Expr F)) → Type 0 where
  stops : Suffixed L n none
  goes : {p : Parser (Expr F)} → Bounded L n (n - 1) p → Suffixed L n (some p)

Suffixed-if :
    {F : Type 0} {L n : ℕ} (b : Bool) {p q : Option (Parser (Expr F))}
    → Suffixed L n p
    → Suffixed L n q
    → Suffixed L n (if b then p else q)
Suffixed-if true hp hq = hp
Suffixed-if false hp hq = hq

module _ (u : Unicode) {F : Type 0} (sub : ℕ → Parser (Expr F)) {L N : ℕ}
    (reads : Reads L N sub) where
  pub sub_keeps : {n : ℕ} → n ≤ N → (k : ℕ) → Bounded L n n (sub k)
  sub_keeps h k = eats_keeps (reads.at _ k h)

  args_round_eats :
      {n : ℕ} (next : Parser (Exprs F))
      → n ≤ N
      → Bounded L (n - 1) (n - 1) next
      → Bounded L n (n - 1) (args_round u sub next)
  unfolding args_round
  args_round_eats next h more = reads.at _ 0 h ▸ λ e. match_val_keeps u _ ▸ λ closed.
      Bounded-if _ (Bounded-pure _) (expect_val_keeps u _ ▹ more ▸ λ es. Bounded-pure _)

  args_loop_eats : (r n : ℕ) → n ≤ r → n ≤ N → Bounded L n (n - 1) (args_loop u sub r)
  unfolding args_loop
  args_loop_eats zero n hr h = Bounded-zero _ hr
  args_loop_eats (suc r) n hr h =
      args_round_eats _ h (eats_keeps (args_loop_eats r (n - 1) (omega arith) (omega arith)))

  pub arguments_keeps : {n : ℕ} → n ≤ N → Bounded L n n (arguments u sub)
  unfolding arguments
  arguments_keeps h = peek_bind λ t s.
      Bounded-if _ (advance_keeps ▹ Bounded-pure _)
        (Bounded-rounds _ λ k hk. eats_to hk (args_loop_eats k k (omega arith) (omega arith)))

  call_argument_eats : {n : ℕ} → n ≤ N → Bounded L n (n - 1) (call_argument u sub)
  unfolding call_argument
  call_argument_eats h = peek_bind λ t s. next_is_keeps _ ▸ λ assigned.
      Bounded-if _ (advance_eats ▹ advance_keeps ▹ sub_keeps (omega arith) 0 ▸ λ e. Bounded-pure _)
        (reads.at _ 0 h ▸ λ e. Bounded-pure _)

  call_args_round_eats :
      {n : ℕ} (next : Parser (Exprs F × KwArgs F))
      → n ≤ N
      → Bounded L (n - 1) (n - 1) next
      → Bounded L n (n - 1) (call_args_round u sub next)
  unfolding call_args_round
  call_args_round_eats next h more = call_argument_eats h ▸ λ a. match_val_keeps u _ ▸ λ closed.
      Bounded-if _ (Bounded-pure _) (expect_val_keeps u _ ▹ more ▸ λ rest. Bounded-pure _)

  call_args_loop_eats : (r n : ℕ) → n ≤ r → n ≤ N → Bounded L n (n - 1) (call_args_loop u sub r)
  unfolding call_args_loop
  call_args_loop_eats zero n hr h = Bounded-zero _ hr
  call_args_loop_eats (suc r) n hr h =
      call_args_round_eats _ h
        (eats_keeps (call_args_loop_eats r (n - 1) (omega arith) (omega arith)))

  name_call_eats : {n : ℕ} (x : Text) → n - 1 ≤ N → Bounded L n (n - 1) (name_call u sub x)
  unfolding name_call
  name_call_eats x h =
      advance_eats
      ▹ peek_bind λ t s.
        Bounded-if _ (advance_keeps ▹ Bounded-pure _) (
          Bounded-rounds _ λ k hk. eats_to hk (call_args_loop_eats k k (omega arith) (omega arith)))
        ▸ λ args. Bounded-pure _

  value_call_eats : {n : ℕ} (e : Expr F) → n - 1 ≤ N → Bounded L n (n - 1) (value_call u sub e)
  unfolding value_call
  value_call_eats e h = advance_eats ▹ arguments_keeps h ▸ λ args. Bounded-pure _

  member_eats : {n : ℕ} (x : Text) → n - 1 ≤ N → Bounded L n (n - 1) (dot_member u sub x)
  unfolding dot_member
  member_eats x h = advance_eats ▹ advance_keeps ▸ λ attr. peek_bind λ t s.
      Bounded-if _ (advance_keeps ▹ arguments_keeps h ▸ λ args. Bounded-pure _) (Bounded-pure _)

  optional_expr_keeps : {n : ℕ} (absent : Bool) → n ≤ N → Bounded L n n (optional_expr u sub absent)
  unfolding optional_expr
  optional_expr_keeps absent h =
      Bounded-if absent (Bounded-pure _) (sub_keeps h 0 ▸ λ e. Bounded-pure _)

  slice_step_keeps : {n : ℕ} → n ≤ N → Bounded L n n (slice_step u sub)
  unfolding slice_step
  slice_step_keeps h = peek_bind λ t s.
      Bounded-if _ (advance_keeps ▹ peek_bind λ t' s'. optional_expr_keeps _ h) (Bounded-pure _)

  slice_bounds_keeps :
      {n : ℕ} (e : Expr F) (start : MaybeExpr F)
      → n ≤ N
      → Bounded L n n (slice_bounds u sub e start)
  unfolding slice_bounds
  slice_bounds_keeps e start h =
      advance_keeps
      ▹ peek_bind λ t s. optional_expr_keeps _ h ▸ λ stop.
          slice_step_keeps h ▸ λ step. expect_val_keeps u _ ▹ Bounded-pure _

  close_index_keeps :
      {n : ℕ} (e : Expr F) (start : MaybeExpr F) → n ≤ N → Bounded L n n (close_index u sub e start)
  unfolding close_index
  close_index_keeps e start h = expect_val_keeps u _ ▹ Bounded-pure _

  index_or_slice_keeps :
      {n : ℕ} (e : Expr F) (start : MaybeExpr F)
      → n ≤ N
      → Bounded L n n (index_or_slice u sub e start)
  unfolding index_or_slice
  index_or_slice_keeps e start h =
      peek_bind λ t s. Bounded-if _ (slice_bounds_keeps e start h) (close_index_keeps e start h)

  subscript_eats : {n : ℕ} (e : Expr F) → n - 1 ≤ N → Bounded L n (n - 1) (subscript u sub e)
  unfolding subscript
  subscript_eats e h =
      advance_eats
      ▹ peek_bind λ t s.
        Bounded-if _ (close_index_keeps e no_expr h)
          (optional_expr_keeps (is (codes ":") t) h ▸ λ start. index_or_slice_keeps e start h)

  suffix_of-Suffixed :
      {n : ℕ} (name : Option Text) (e : Expr F) (t : Token)
      → n - 1 ≤ N
      → Suffixed L n (suffix_of u sub name e t)
  unfolding suffix_of
  suffix_of-Suffixed none e t h =
      Suffixed-if _ (goes (value_call_eats e h)) (Suffixed-if _ (goes (subscript_eats e h)) stops)
  suffix_of-Suffixed (some x) e t h =
      Suffixed-if _ (goes (name_call_eats x h))
        (Suffixed-if _ (goes (member_eats x h)) (Suffixed-if _ (goes (subscript_eats e h)) stops))

  go_on :
      {n : ℕ} (next : Expr F → Parser (Expr F)) (e : Expr F) {o : Option (Parser (Expr F))}
      → ((e : Expr F) → Bounded L (n - 1) (n - 1) (next e))
      → Suffixed L n o
      → Bounded L n n (follow u sub next e o)
  unfolding follow
  go_on next e more stops = Bounded-pure _
  go_on next e more (goes hp) = eats_keeps (hp ▸ more)

  postfix_round_keeps :
      {n : ℕ} (next : Expr F → Parser (Expr F)) (e : Expr F)
      → n - 1 ≤ N
      → ((e : Expr F) → Bounded L (n - 1) (n - 1) (next e))
      → Bounded L n n (postfix_round u sub next e)
  unfolding postfix_round suffix
  postfix_round_keeps next e h more =
      peek_bind λ t s. go_on next e more (suffix_of-Suffixed (var_name e) e t h)

  postfix_loop_keeps :
      (r n : ℕ) (e : Expr F) → n ≤ r → n - 1 ≤ N → Bounded L n n (postfix_loop u sub r e)
  unfolding postfix_loop
  postfix_loop_keeps zero n e hr h = Bounded-zero _ hr
  postfix_loop_keeps (suc r) n e hr h =
      postfix_round_keeps _ e h λ e'. postfix_loop_keeps r (n - 1) e' (omega arith) (omega arith)

  -- Behind an expression that left fewer than `n` tokens `sub` is only asked to read fewer.
  pub parse_postfix_keeps : {n : ℕ} (e : Expr F) → n - 1 ≤ N → Bounded L n n (parse_postfix u sub e)
  unfolding parse_postfix
  parse_postfix_keeps e h =
      Bounded-rounds _
        λ k hk. Bounded-le (omega arith) hk (postfix_loop_keeps k k e (omega arith) (omega arith))
