-- ===== src/Parser/Operators.antt =====
-- Operator expressions as src/mellowlang/parsing/expressions.py reads them, and how they are spelled
-- in tokens with parentheses where the precedence asks for them.
use mellow_programming_langu.Prelude.Int.{ℤ}
use mellow_programming_langu.Lexer.{Unicode, Token, number_tok, ident_tok, symbol_tok}
use mellow_programming_langu.Parser.Result.{is, is_keyword}
use mellow_programming_langu.Ast.{Expr, literal, var, unary_op, binary_op, int_const}
use mellow_programming_langu.Prelude.{
  ℕ, suc, ◌≤◌, String, ◌≡◌, Bool, true, false, some, List, [], ◌∷◌, ◌++◌, arith, ltb, leb,
}
use mellow_programming_langu.Text.{Text, codes, contains}
use mellow_programming_langu.Parser.Prefix.{Numbers}
use mellow_programming_langu.Parser.Expressions.{operator}

-- A name, a number with its value, a sign with its operator, and two operands with the token, the
-- operator and the precedence between them.
pub data Term : Type 0 where
  name : Token → Term
  numeral : Token → ℤ → Term
  signed : Token → Text → Term → Term
  joined : Token → Text → ℕ → Term → Term → Term

unfoldable pub to_expr : {F : Type 0} → Term → Expr F
to_expr (name t) = var t.value
to_expr (numeral t k) = literal (int_const k)
to_expr (signed t op e) = unary_op op (to_expr e)
to_expr (joined t op bp l r) = binary_op op (to_expr l) (to_expr r)

unfoldable pub bracket : String → Token
bracket v = record { type = symbol_tok; value = codes v; pos = 0; line = 1; col = 1 }

unfoldable pub enclose : Bool → List Token → List Token
unfolding bracket
enclose true ts = bracket "(" ∷ (ts ++ bracket ")" ∷ [])
enclose false ts = ts

-- A term where operators that bind less tightly than `k` stand in parentheses.
unfoldable pub spell : ℕ → Term → List Token
unfolding enclose
spell k (name t) = t ∷ []
spell k (numeral t n) = t ∷ []
spell k (signed t op e) = enclose (leb 6 k) (t ∷ spell 6 e)
spell k (joined t op bp l r) = enclose (ltb bp k) (spell bp l ++ t ∷ spell (suc bp) r)

-- A token that starts no suffix.
pub record Separate (t : Token) : Type 0 where
  pub no_call : is (codes "(") t ≡ false
  pub no_member : is (codes ".") t ≡ false
  pub no_index : is (codes "[") t ≡ false

module _ (u : Unicode) where
  pub data Sign : Token → Text → Type 0 where
    negation : {t : Token} → is_keyword u (codes "not") t ≡ true → Sign t (codes "not")
    minus :
        {t : Token}
        → is_keyword u (codes "not") t ≡ false
        → is (codes "-") t ≡ true
        → Sign t (codes "-")

  -- The tokens of a term are what they stand for.
  pub data Good {F : Type 0} (numbers : Numbers F) : Term → Type 0 where
    good_name :
        {t : Token}
        → t.type ≡ ident_tok
        → is (codes "-") t ≡ false
        → is (codes "(") t ≡ false
        → is (codes "[") t ≡ false
        → is (codes "{") t ≡ false
        → Good numbers (name t)
    good_numeral :
        {t : Token} {k : ℤ}
        → t.type ≡ number_tok
        → is (codes "-") t ≡ false
        → contains (codes ".") t.value ≡ false
        → numbers.int_of t.value ≡ some k
        → Good numbers (numeral t k)
    good_signed :
        {t : Token} {op : Text} {e : Term}
        → Sign t op
        → Good numbers e
        → Good numbers (signed t op e)
    good_joined :
        {t : Token} {op : Text} {bp : ℕ} {l r : Term}
        → operator u t ≡ some (op, bp)
        → Separate t
        → Good numbers l
        → Good numbers r
        → Good numbers (joined t op bp l r)

  -- A token behind a term of level `k`: no suffix, and no operator that binds more tightly.
  pub record Follows (k : ℕ) (t : Token) : Type 0 where
    pub separate : Separate t
    pub loose : (op : Text) (bp : ℕ) → operator u t ≡ some (op, bp) → bp ≤ k

  pub Follows-le : {k m : ℕ} {t : Token} → k ≤ m → Follows k t → Follows m t
  Follows-le h f = record {
    separate = f.separate;
    loose = λ op bp e. omega (arith, f.loose op bp e);
  }
