-- ===== src/Lexer/Positions.antt =====
-- The places of the tokens of `lex_expr` of src/mellowlang/lexer.py.
use mellow_programming_langu.Prelude.{
  ℕ, zero, suc, ◌+◌, ◌-◌, ◌≤◌, ◌<◌, ◌≡◌, refl, ap, ap₂, ◌∙◌, ◌≢◌, inl, inr, Option, none, some,
  List, [], ◌∷◌, arith, Option-cases, length,
}
use mellow_programming_langu.Text.{Text}
use mellow_programming_langu.Lexer.{
  Unicode, Token, TokenType, eof_tok, next_token, token_at, with_token, lex_loop, lex_expr,
  word_type,
}
use mellow_programming_langu.Lexer.Progress.{next_token_shrinks}

-- Tokens in source order, all at `lo` or behind it, inside the source but for the last, which is the
-- end of the source; each has the line, and its column counted from the base.
pub data Placed (n line base_col : ℕ) : ℕ → List Token → Type 0 where
  at_end :
      {lo : ℕ} (t : Token)
      → t.type ≡ eof_tok
      → t.value ≡ []
      → t.pos ≡ n
      → t.line ≡ line
      → t.col ≡ base_col + n
      → Placed n line base_col lo (t ∷ [])
  then_more :
      {lo : ℕ} {ts : List Token} (t : Token)
      → lo ≤ t.pos
      → t.pos < n
      → t.type ≢ eof_tok
      → t.line ≡ line
      → t.col ≡ base_col + t.pos
      → Placed n line base_col (suc t.pos) ts
      → Placed n line base_col lo (t ∷ ts)

Placed-lower :
    {n line base_col lo : ℕ} {ts : List Token} (lo' : ℕ)
    → lo' ≤ lo
    → Placed n line base_col lo ts
    → Placed n line base_col lo' ts
Placed-lower lo' h (at_end t a b c d e) = at_end t a b c d e
Placed-lower lo' h (then_more t a b c d e p) = then_more t (omega arith) b c d e p

module _ (u : Unicode) (n line base_col : ℕ) where
  next_token-ne-eof :
      (c : ℕ) (s : Text) (type : TokenType) (value : Text)
      → (next_token u c s).0 ≡ some (type, value)
      → type ≢ eof_tok
  unfolding next_token word_type
  next_token-ne-eof c s type value h = ground arith

  pub lex_loop_skip :
      (fuel c : ℕ) (s : Text)
      → (next_token u c s).0 ≡ none
      → lex_loop u (suc fuel) n line base_col (c ∷ s)
        ≡ lex_loop u fuel n line base_col (next_token u c s).1
  unfolding lex_loop
  lex_loop_skip fuel c s e =
      ap
        (λ (t : Option (TokenType × Text)).
          with_token u n line base_col (c ∷ s) t
            (lex_loop u fuel n line base_col (next_token u c s).1))
        e

  pub lex_loop_token :
      (fuel c : ℕ) (s : Text) (type : TokenType) (value : Text) (ts : List Token)
      → (next_token u c s).0 ≡ some (type, value)
      → lex_loop u fuel n line base_col (next_token u c s).1 ≡ some ts
      → lex_loop u (suc fuel) n line base_col (c ∷ s)
        ≡ some (token_at u n line base_col type value (c ∷ s) ∷ ts)
  unfolding lex_loop
  lex_loop_token fuel c s type value ts e f = ap₂ (with_token u n line base_col (c ∷ s)) e f

  token_at-Placed :
      (c : ℕ) (s : Text) (type : TokenType) (value : Text) (lo : ℕ) (ts : List Token)
      → length (c ∷ s) ≤ n
      → lo ≤ n - length (c ∷ s)
      → type ≢ eof_tok
      → Placed n line base_col (n - length s) ts
      → Placed n line base_col lo (token_at u n line base_col type value (c ∷ s) ∷ ts)
  unfolding token_at
  token_at-Placed c s type value lo ts fits low h p =
      then_more (token_at u n line base_col type value (c ∷ s)) low (omega arith) h refl refl
        (Placed-lower _ (omega arith) p)

  pub lex_loop-Placed :
      (fuel lo : ℕ) (rest : Text)
      → length rest < fuel
      → length rest ≤ n
      → lo ≤ n - length rest
      → (ts : List Token) × (lex_loop u fuel n line base_col rest ≡ some ts)
        × Placed n line base_col lo ts
  lex_loop-Placed zero lo rest h fits low = absurd (omega arith)
  lex_loop-Placed (suc fuel) lo [] h fits low =
      unfold lex_loop token_at in
      (
        token_at u n line base_col eof_tok [] [] ∷ [],
        refl,
        at_end (token_at u n line base_col eof_tok [] []) refl refl (omega arith) refl
            (omega arith),
      )
  lex_loop-Placed (suc fuel) lo (c ∷ s) h fits low =
      let (ts, e, p) =
        lex_loop-Placed fuel (n - length s) (next_token u c s).1
          (omega (arith, next_token_shrinks u c s)) (omega (arith, next_token_shrinks u c s))
          (omega (arith, next_token_shrinks u c s)) in
      elim (Option-cases (next_token u c s).0) [
        | inl skipped ↦ (ts, lex_loop_skip fuel c s skipped ∙ e, Placed-lower lo (omega arith) p)
        | inr ((type, value), found) ↦ (
          token_at u n line base_col type value (c ∷ s) ∷ ts,
          lex_loop_token fuel c s type value ts found e,
          token_at-Placed c s type value lo ts fits low (next_token-ne-eof c s type value found) p,
        )
      ]

-- Every source is lexed to the end. Its tokens stand in order of their positions, which lie inside
-- the source, no two at one position; the last and only the last is `EOF`, at the length of the
-- source; all have the given line, and their column is the position counted from the base column.
pub lex_expr-Placed :
    (u : Unicode) (src : Text) (line base_col : ℕ)
    → (ts : List Token) × (lex_expr u src line base_col ≡ some ts)
      × Placed (length src) line base_col 0 ts
unfolding lex_expr
lex_expr-Placed u src line base_col =
    lex_loop-Placed u (length src) line base_col (suc (length src)) 0 src (omega arith)
      (omega arith) (omega arith)
