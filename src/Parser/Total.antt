-- ===== src/Parser/Total.antt =====
-- What src/mellowlang/parsing/expressions.py leaves of the tokens, and that the fuel suffices.
use mellow_programming_langu.Parser.Result.{Parsed, Parser, is, is_word, starved, is_keyword}
use mellow_programming_langu.Prelude.{
  ℕ, zero, suc, ◌-◌, ◌≤◌, ◌<◌, ◌≡◌, refl, ◌≢◌, Option, none, some, List, [], ◌∷◌, arith, ltb,
  length, All,
}
use mellow_programming_langu.Text.{Text, codes, text_eq}
use mellow_programming_langu.Ast.{
  Constant, Expr, var, int_const, float_const, none_const, bool_const,
}
use mellow_programming_langu.Lexer.{
  Unicode, Token, TokenType, fstring_tok, string_tok, number_tok, keyword_tok,
}
use mellow_programming_langu.Lexer.Lengths.{Small, lex_expr-Small}
use mellow_programming_langu.Parser.Bounded.{
  Within, Leaves, Leaves-ne-starved, Bounded, Bounded-if, Bounded-pure, Bounded-raise, Bounded-zero,
  Bounded-rounds, Bounded-le, Bounded-or_else, ◌▸◌, ◌▹◌, peek_bind, eats_keeps, advance_eats,
  advance_keeps, expect_val_keeps,
}
use mellow_programming_langu.Parser.PostfixBounds.{
  Reads, sub_keeps, arguments_keeps, parse_postfix_keeps,
}
use mellow_programming_langu.Parser.AtomBounds.{parse_lambda_eats, parse_list_eats, parse_map_eats}
use mellow_programming_langu.Parser.TemplateBounds.{Answers, parse_fstring_keeps, bind-ne-starved}
use mellow_programming_langu.Parser.Prefix.{
  Numbers, lambda_ahead, literal_or_error, number_literal, module_args, func_call, get_call,
  group_prefix, lambda_prefix, or_group, get_prefix, keyword_prefix, typed_prefix, constant, unary,
  low_in, parse_prefix,
}
use mellow_programming_langu.Parser.Expressions.{
  or_one, operator, operate, bp_round, bp_loop, parse_step, parse_bp, parse_tokens, parse_source,
  parse_expr,
}

lambda_ahead_keeps : {L n : ℕ} → Bounded L n n lambda_ahead
unfolding lambda_ahead Leaves
lambda_ahead_keeps {L} {n} = record { at = at }
  where
    at : (ts : List Token) → Within L n ts → Leaves L n (lambda_ahead ts)
    at [] h = h
    at (t ∷ []) h = h
    at (t ∷ t' ∷ ts) h = h

literal_of_keeps :
    {F A : Type 0} {L n : ℕ} (const : A → Constant F) (o : Option A)
    → Bounded L n n (literal_or_error const o)
unfolding literal_or_error
literal_of_keeps const (some a) = Bounded-pure _
literal_of_keeps const none = Bounded-raise _

module _ (u : Unicode) {F : Type 0} (numbers : Numbers F) (source : Text → Parsed (Expr F))
    (sub : ℕ → Parser (Expr F)) {L N : ℕ} (answers : Answers L source) (reads : Reads L N sub) where
  number_eats : {n : ℕ} (t : Token) → Bounded L n (n - 1) (number_literal u numbers source sub t)
  unfolding number_literal
  number_eats t =
      advance_eats ▹ Bounded-if _ (literal_of_keeps float_const _) (literal_of_keeps int_const _)

  module_args_keeps : {n : ℕ} → n ≤ N → Bounded L n n (module_args u numbers source sub)
  unfolding module_args
  module_args_keeps h =
      peek_bind λ t s. Bounded-if _ (advance_keeps ▹ arguments_keeps u sub reads h) (Bounded-pure _)

  func_call_keeps : {n : ℕ} (m : Token) → n ≤ N → Bounded L n n (func_call u numbers source sub m)
  unfolding func_call
  func_call_keeps m h =
      advance_keeps
      ▹ peek_bind λ f s.
        Bounded-if _ (advance_keeps ▹ module_args_keeps h ▸ λ args. Bounded-pure _) (Bounded-pure _)

  get_call_eats : {n : ℕ} → n - 1 ≤ N → Bounded L n (n - 1) (get_call u numbers source sub)
  unfolding get_call
  get_call_eats h =
      advance_eats
      ▹ peek_bind λ m s.
        Bounded-if _
          (advance_keeps
            ▹ peek_bind
                λ t s'. Bounded-if (is (codes ".") t) (func_call_keeps m h) (Bounded-pure none))
          (Bounded-pure none)

  group_prefix_eats :
      {n : ℕ} (t : Token) → n - 1 ≤ N → Bounded L n (n - 1) (group_prefix u numbers source sub t)
  unfolding group_prefix
  group_prefix_eats t h =
      let behind = λ (e : Expr F). parse_postfix_keeps u sub reads e (omega arith) in
      Bounded-if (is (codes "(") t)
        (advance_eats ▹ sub_keeps u sub reads h 0 ▸ λ inner. expect_val_keeps u _ ▹ behind inner)
        (Bounded-if (is (codes "[") t) (parse_list_eats u sub reads h ▸ behind) (
          Bounded-if (is (codes "{") t) (parse_map_eats u sub reads h ▸ behind) (
            Bounded-if (is_word t) (advance_eats ▹ behind (var t.value))
              (peek_bind λ t' s. Bounded-raise _))))

  or_group_keeps :
      {n : ℕ} (t : Token) (found : Option (Expr F))
      → n - 1 ≤ N
      → Bounded L n n (or_group u numbers source sub t found)
  unfolding or_group
  or_group_keeps t (some e) h = Bounded-pure _
  or_group_keeps t none h = eats_keeps (group_prefix_eats t h)

  get_prefix_eats :
      {n : ℕ} (t : Token) → n - 1 ≤ N → Bounded L n (n - 1) (get_prefix u numbers source sub t)
  unfolding get_prefix
  get_prefix_eats t h = get_call_eats h ▸ λ found. or_group_keeps t found (omega arith)

  lambda_prefix_eats :
      {n : ℕ} (t : Token) → n - 1 ≤ N → Bounded L n (n - 1) (lambda_prefix u numbers source sub t)
  unfolding lambda_prefix
  lambda_prefix_eats t h =
      let group = group_prefix_eats t h in
      lambda_ahead_keeps ▸ λ ahead.
      Bounded-if ahead (Bounded-or_else _ _ (parse_lambda_eats u sub reads h) group) group

  constant_eats : {n : ℕ} (c : Constant F) → Bounded L n (n - 1) (constant u numbers source sub c)
  unfolding constant
  constant_eats c = advance_eats ▹ Bounded-pure _

  keyword_prefix_eats :
      {n : ℕ} (t : Token) → n - 1 ≤ N → Bounded L n (n - 1) (keyword_prefix u numbers source sub t)
  unfolding keyword_prefix
  keyword_prefix_eats t h =
      Bounded-if (low_in u ("true" ∷ "false" ∷ []) t)
        (constant_eats (bool_const (text_eq (u.lower t.value) (codes "true"))))
        (Bounded-if (low_in u ("none" ∷ "null" ∷ []) t) (constant_eats none_const) (
          Bounded-if (low_in u ("skill" ∷ "fn" ∷ "lambda" ∷ "def" ∷ "function" ∷ []) t)
            (lambda_prefix_eats t h)
            (Bounded-if (low_in u ("get" ∷ "call" ∷ []) t) (get_prefix_eats t h)
              (group_prefix_eats t h))))

  typed_prefix_eats :
      {n : ℕ} (k : TokenType) (t : Token)
      → (k ≡ fstring_tok → length t.value < L)
      → n - 1 ≤ N
      → Bounded L n (n - 1) (typed_prefix u numbers source sub k t)
  unfolding typed_prefix
  typed_prefix_eats number_tok t s h = number_eats t
  typed_prefix_eats string_tok t s h = constant_eats _
  typed_prefix_eats fstring_tok t s h =
      advance_eats ▹ parse_fstring_keeps source answers t.value (s refl)
  typed_prefix_eats keyword_tok t s h = keyword_prefix_eats t h
  typed_prefix_eats _ t s h = group_prefix_eats t h

  unary_eats : {n : ℕ} (op : Text) → n - 1 ≤ N → Bounded L n (n - 1) (unary u numbers source sub op)
  unfolding unary
  unary_eats op h = advance_eats ▹ sub_keeps u sub reads h 6 ▸ λ e. Bounded-pure _

  parse_prefix_eats : {n : ℕ} → n - 1 ≤ N → Bounded L n (n - 1) (parse_prefix u numbers source sub)
  unfolding parse_prefix Small
  parse_prefix_eats h = peek_bind λ t s.
      Bounded-if (is_keyword u (codes "not") t) (unary_eats (codes "not") h)
        (Bounded-if (is (codes "-") t) (unary_eats (codes "-") h) (typed_prefix_eats t.type t s h))

  operate_keeps :
      {n : ℕ} (next : Expr F → Parser (Expr F)) (least : ℕ) (lhs : Expr F) (o : Option (Text × ℕ))
      → n - 1 ≤ N
      → ((e : Expr F) → Bounded L (n - 1) (n - 1) (next e))
      → Bounded L n n (operate u numbers source sub next least lhs o)
  unfolding operate
  operate_keeps next least lhs none h more = Bounded-pure _
  operate_keeps next least lhs (some (op, bp)) h more =
      Bounded-if (ltb bp least) (Bounded-pure _)
        (eats_keeps (advance_eats ▹ sub_keeps u sub reads h (suc bp) ▸ λ rhs. more _))

  bp_loop_keeps :
      (r n least : ℕ) (lhs : Expr F)
      → n ≤ r
      → n - 1 ≤ N
      → Bounded L n n (bp_loop u numbers source sub r least lhs)
  unfolding bp_loop bp_round
  bp_loop_keeps zero n least lhs hr h = Bounded-zero _ hr
  bp_loop_keeps (suc r) n least lhs hr h = peek_bind λ t s.
      operate_keeps _ least lhs (operator u t) h
        λ e. bp_loop_keeps r (n - 1) least e (omega arith) (omega arith)

  parse_step_eats :
      {n : ℕ} (least : ℕ) → n - 1 ≤ N → Bounded L n (n - 1) (parse_step u numbers source sub least)
  unfolding parse_step
  parse_step_eats least h = parse_prefix_eats h ▸ λ lhs.
      Bounded-rounds _ λ k hk.
        Bounded-le (omega arith) hk (bp_loop_keeps k k least lhs (omega arith) (omega arith))

module _ (u : Unicode) {F : Type 0} (numbers : Numbers F) where
  parse_bp-Reads :
      (source : Text → Parsed (Expr F)) {L : ℕ}
      → Answers L source
      → (fuel : ℕ) → Reads L fuel (parse_bp u numbers source fuel)
  unfolding parse_bp
  parse_bp-Reads source answers zero = record { at = λ n k h. Bounded-zero _ h }
  parse_bp-Reads source answers (suc fuel) = record {
    at = λ n k h.
        parse_step_eats u numbers source (parse_bp u numbers source fuel) answers
          (parse_bp-Reads source answers fuel) k (omega arith);
  }

  parse_tokens-ne-starved :
      (source : Text → Parsed (Expr F)) {L : ℕ} (ts : List Token)
      → Answers L source
      → All (Small L) ts
      → parse_tokens u numbers source (some ts) ≢ starved
  unfolding parse_tokens Within
  parse_tokens-ne-starved source ts answers small =
      let reads =
        (parse_bp-Reads source answers (suc (length ts))).at (suc (length ts)) 0 (omega arith) in
      bind-ne-starved _ _ (Leaves-ne-starved _ _ _ (reads.at ts (omega arith, small))) λ r. cc

  parse_source-ne-starved :
      (depth line base_col : ℕ) (src : Text)
      → length src < depth
      → parse_source u numbers depth line base_col src ≢ starved
  unfolding parse_source
  parse_source-ne-starved zero line base_col src h = absurd (omega arith)
  parse_source-ne-starved (suc depth) line base_col src h =
      let (ts, lexed, small) = lex_expr-Small u src (or_one line) (or_one base_col) in
      let answers : Answers (length src) (parse_source u numbers depth (or_one line) 1) = record {
        at = λ s k. parse_source-ne-starved depth (or_one line) 1 s (omega arith);
      } in
      rw lexed (parse_tokens-ne-starved _ ts answers small)

-- The parser comes to an end on every source: it returns a tree or raises one of the modelled
-- exceptions, whatever the character classes and the readers of numbers are.
pub parse_expr-ne-starved :
    (u : Unicode) {F : Type 0} (numbers : Numbers F) (src : Text) (line base_col : ℕ)
    → parse_expr u numbers src line base_col ≢ starved
unfolding parse_expr
parse_expr-ne-starved u numbers src line base_col =
    parse_source-ne-starved u numbers (suc (length src)) line base_col src (omega arith)
