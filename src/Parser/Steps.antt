-- ===== src/Parser/Steps.antt =====
-- Single steps of src/mellowlang/parsing/expressions.py on operator expressions.
use mellow_programming_langu.Prelude.Int.{ℤ}
use mellow_programming_langu.Lexer.{Unicode, Token, eof_tok}
use mellow_programming_langu.Parser.Result.{
  Parsed, done, Parser, pure, ◌>>=◌, ◌>>◌, with_rounds, peek, advance, is_keyword, match_val,
  expect_val, is_word,
}
use mellow_programming_langu.Ast.{Expr, literal, var, unary_op, binary_op, int_const}
use mellow_programming_langu.Prelude.{
  ℕ, suc, ◌≤◌, ◌<◌, ◌≡◌, refl, ap, ◌≢◌, inl, inr, Bool, true, false, Option, none, some, List, [],
  ◌∷◌, ◌++◌, arith, ltb, leb, lt→ltb, Option-cases, length, length-append,
}
use mellow_programming_langu.Text.{Text, text_eq}
use mellow_programming_langu.Parser.Postfix.{
  follow, postfix_loop, postfix_round, suffix, suffix_of, var_name, parse_postfix,
}
use mellow_programming_langu.Parser.Operators.{
  Term, name, numeral, signed, joined, bracket, enclose, spell, Separate, Sign, negation, minus,
  Good, good_name, good_numeral, Follows,
}
use mellow_programming_langu.Parser.Prefix.{
  Numbers, literal_or_error, number_literal, group_prefix, typed_prefix, unary, parse_prefix,
}
use mellow_programming_langu.Parser.Expressions.{
  operator, operate, bp_round, bp_loop, parse_step, precedence_in,
}

module _ (u : Unicode) {F : Type 0} (sub : ℕ → Parser (Expr F)) where
  pub suffix_of-Separate :
      (x : Option Text) (e : Expr F) (t : Token) → Separate t → suffix_of u sub x e t ≡ none
  unfolding suffix_of
  suffix_of-Separate none e t s = rw (s.no_call, s.no_index)
  suffix_of-Separate (some x) e t s = rw (s.no_call, s.no_member, s.no_index)

  pub parse_postfix_stops :
      (e : Expr F) (t : Token) (ts : List Token)
      → Separate t
      → parse_postfix u sub e (t ∷ ts) ≡ done (e, t ∷ ts)
  unfolding parse_postfix with_rounds postfix_loop postfix_round peek ◌>>=◌ pure suffix follow
  parse_postfix_stops e t ts s =
      ap (λ o. follow u sub (postfix_loop u sub (suc (length ts))) e o (t ∷ ts))
        (suffix_of-Separate (var_name e) e t s)

module _ (u : Unicode) {F : Type 0} (numbers : Numbers F) (source : Text → Parsed (Expr F))
    (sub : ℕ → Parser (Expr F)) where
  pub parse_prefix-name :
      (t h : Token) (rest : List Token)
      → Good u numbers (name t)
      → Separate h
      → parse_prefix u numbers source sub (t ∷ h ∷ rest) ≡ done (var t.value, h ∷ rest)
  unfolding parse_prefix peek ◌>>=◌ is_keyword typed_prefix group_prefix is_word ◌>>◌ advance
  parse_prefix-name t h rest (good_name k a b c d) s =
      rw (k, a, b, c, d) (parse_postfix_stops u sub (var t.value) h rest s)

  pub parse_prefix-numeral :
      (t : Token) (k : ℤ) (ts : List Token)
      → Good u numbers (numeral t k)
      → parse_prefix u numbers source sub (t ∷ ts) ≡ done (literal (int_const k), ts)
  unfolding parse_prefix peek ◌>>=◌ is_keyword typed_prefix number_literal ◌>>◌ advance
      literal_or_error pure
  parse_prefix-numeral t k ts (good_numeral n a b c) = rw (n, a, b, c)

  pub parse_prefix-signed :
      (t : Token) (op : Text) (e : Expr F) (ts rest : List Token)
      → Sign u t op
      → sub 6 ts ≡ done (e, rest)
      → parse_prefix u numbers source sub (t ∷ ts) ≡ done (unary_op op e, rest)
  unfolding parse_prefix peek ◌>>=◌ ◌>>◌ advance pure unary
  parse_prefix-signed t op e ts rest (negation n) h = rw (n, h)
  parse_prefix-signed t op e ts rest (minus n m) h = rw (n, m, h)

  pub parse_prefix-group :
      (e : Expr F) (h : Token) (ts rest : List Token)
      → Separate h
      → sub 0 ts ≡ done (e, bracket ")" ∷ h ∷ rest)
      → parse_prefix u numbers source sub (bracket "(" ∷ ts) ≡ done (e, h ∷ rest)
  unfolding parse_prefix peek ◌>>=◌ ◌>>◌ advance pure is_keyword typed_prefix group_prefix bracket
      expect_val match_val text_eq
  parse_prefix-group e h ts rest s p = rw p (parse_postfix_stops u sub e h rest s)

  pub loop_stops :
      (r least : ℕ) (e : Expr F) (h : Token) (rest : List Token)
      → ((op : Text) (bp : ℕ) → operator u h ≡ some (op, bp) → bp < least)
      → bp_loop u numbers source sub (suc r) least e (h ∷ rest) ≡ done (e, h ∷ rest)
  unfolding bp_loop bp_round peek ◌>>=◌ operate pure
  loop_stops r least e h rest loose = elim (Option-cases (operator u h)) [
    | inl p ↦ rw p refl
    | inr ((op, bp), p) ↦ rw (p, lt→ltb bp least (loose op bp p)) refl
  ]

  pub loop_joins :
      (n least : ℕ) (l r : Expr F) (t : Token) (op : Text) (bp : ℕ) (ts rest : List Token)
      → operator u t ≡ some (op, bp)
      → ltb bp least ≡ false
      → sub (suc bp) ts ≡ done (r, rest)
      → bp_loop u numbers source sub (suc n) least l (t ∷ ts)
        ≡ bp_loop u numbers source sub n least (binary_op op l r) rest
  unfolding bp_loop bp_round peek ◌>>=◌ ◌>>◌ operate advance
  loop_joins n least l r t op bp ts rest p lt h = rw (p, lt, h)

  pub parse_step-prefix :
      (least : ℕ) (e : Expr F) (ts rest : List Token) (o : Parsed (Expr F × List Token))
      → parse_prefix u numbers source sub ts ≡ done (e, rest)
      → bp_loop u numbers source sub (suc (length rest)) least e rest ≡ o
      → parse_step u numbers source sub least ts ≡ o
  unfolding parse_step ◌>>=◌ with_rounds
  parse_step-prefix least e ts rest o p q = rw p q

pub same_bp :
    {o : Option (Text × ℕ)} {op op' : Text} {bp bp' : ℕ}
    → o ≡ some (op, bp)
    → o ≡ some (op', bp')
    → bp' ≤ bp
same_bp {bp} {bp'} p q = let e : bp ≡ bp' = cc in omega (arith, e)

pub eof_no_operator :
    (u : Unicode) (t : Token)
    → t.type ≡ eof_tok
    → t.value ≡ []
    → (op : Text) (bp : ℕ) → operator u t ≢ some (op, bp)
unfolding operator is_keyword precedence_in text_eq
eof_no_operator u t e v op bp = rw (e, v) cc

pub closing-loose :
    (u : Unicode) (least : ℕ) (op : Text) (bp : ℕ)
    → operator u (bracket ")") ≡ some (op, bp)
    → bp < least
unfolding bracket operator is_keyword precedence_in text_eq
closing-loose u least op bp e = absurd cc

pub closing-Follows : (u : Unicode) (k : ℕ) → Follows u k (bracket ")")
unfolding bracket operator is_keyword precedence_in text_eq
closing-Follows u k = record {
  separate = record { no_call = refl; no_member = refl; no_index = refl };
  loose = λ op bp e. absurd cc;
}

pub length-enclose : (b : Bool) (ts : List Token) → length ts ≤ length (enclose b ts)
unfolding enclose
length-enclose true ts = omega (arith, length-append ts (bracket ")" ∷ []))
length-enclose false ts = omega arith

pub length-spell_pos : (k : ℕ) (e : Term) → 0 < length (spell k e)
unfolding spell
length-spell_pos k (name t) = omega arith
length-spell_pos k (numeral t n) = omega arith
length-spell_pos k (signed t op e) = omega (arith, length-enclose (leb 6 k) (t ∷ spell 6 e))
length-spell_pos k (joined t op bp l r) = omega (
  arith,
  length-enclose (ltb bp k) (spell bp l ++ t ∷ spell (suc bp) r),
  length-append (spell bp l) (t ∷ spell (suc bp) r),
)
