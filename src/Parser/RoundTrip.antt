-- ===== src/Parser/RoundTrip.antt =====
-- Operator expressions are read back by src/mellowlang/parsing/expressions.py.
use mellow_programming_langu.Lexer.{Unicode, Token}
use mellow_programming_langu.Parser.Result.{Parsed}
use mellow_programming_langu.Ast.{Expr}
use mellow_programming_langu.Prelude.{ℕ, suc, ◌≤◌, ◌<◌, ◌≡◌, List, ◌∷◌, ◌++◌, length}
use mellow_programming_langu.Text.{Text}
use mellow_programming_langu.Parser.Operators.{Follows}
use mellow_programming_langu.Parser.Prefix.{Numbers}
use mellow_programming_langu.Parser.Expressions.{bp_loop, parse_bp}

module _ (u : Unicode) {F : Type 0} (numbers : Numbers F) (source : Text → Parsed (Expr F)) where
  -- What comes out when the loop goes on behind `e` is `o`, however many rounds are left.
  GoesOn : ℕ → ℕ → Expr F → List Token → Parsed (Expr F × List Token) → Type 0
  GoesOn f least e ts o =
      (r : ℕ)
      → length ts < r
      → bp_loop u numbers source (parse_bp u numbers source f) r least e ts ≡ o

  -- `printed`, before what may follow a term of level `k`, is read as `e`.
  record ReadsAs (k : ℕ) (printed : List Token) (e : Expr F) : Type 0 where
    at :
        (least f : ℕ) (h : Token) (rest : List Token) (o : Parsed (Expr F × List Token))
        → least ≤ k
        → length printed ≤ suc f
        → Follows u k h
        → GoesOn f least e (h ∷ rest) o
        → parse_bp u numbers source (suc f) least (printed ++ h ∷ rest) ≡ o
