-- ===== src/Lexer/Lengths.antt =====
-- How long the templates of the f-strings are that `lex_expr` of src/mellowlang/lexer.py returns.
use mellow_programming_langu.Prelude.{
  ℕ, zero, suc, ◌+◌, ◌≤◌, ◌<◌, ◌≡◌, refl, ◌∙◌, inl, inr, some, List, [], ◌∷◌, ◌++◌, arith,
  Option-cases, length, length-append, drop, length-drop, All,
}
use mellow_programming_langu.Text.{Text}
use mellow_programming_langu.Lexer.Progress.{next_token_shrinks}
use mellow_programming_langu.Lexer.Positions.{lex_loop_skip, lex_loop_token}
use mellow_programming_langu.Lexer.{
  literal_body, Unicode, Token, TokenType, fstring_tok, eof_tok, lex_expr, lex_loop, next_token,
  word_type, token_at, fstring_escape, head_or_zero,
}

literal_body-length :
    (escape : Text → ℕ × ℕ) (quote : ℕ) (buf : Text) (skip : ℕ) (s : Text)
    → length (literal_body escape quote buf skip s).0 ≤ length buf + length s
unfolding literal_body
literal_body-length escape quote buf skip [] = omega arith
literal_body-length escape quote buf (suc skip) (c ∷ s) =
    omega (arith, literal_body-length escape quote buf skip s)
literal_body-length escape quote buf zero (c ∷ s) = ground (
  arith,
  literal_body-length escape quote (buf ++ (escape s).0 ∷ []) (escape s).1 s,
  literal_body-length escape quote (buf ++ c ∷ []) 0 s,
  length-append buf ((escape s).0 ∷ []),
  length-append buf (c ∷ []),
)

-- An f-string has a template shorter than `L` characters.
unfoldable pub Small : ℕ → Token → Type 0
Small L t = t.type ≡ fstring_tok → length t.value < L

Small-lt : {L M : ℕ} (ts : List Token) → L ≤ M → All (Small L) ts → All (Small M) ts
unfolding Small
Small-lt [] h a = tt
Small-lt (t ∷ ts) h (f, a) = ((λ e. omega (arith, f e)), Small-lt ts h a)

module _ (u : Unicode) (n line base_col : ℕ) where
  next_token-length :
      (c : ℕ) (s : Text) (type : TokenType) (value : Text)
      → (next_token u c s).0 ≡ some (type, value)
      → type ≡ fstring_tok
      → length value < length (c ∷ s)
  unfolding next_token word_type
  next_token-length c s type value h f = ground (
    arith,
    literal_body-length fstring_escape (head_or_zero u s) [] 0 (drop 1 s),
    length-drop 1 s,
  )

  lex_loop-Small :
      (fuel : ℕ) (rest : Text)
      → length rest < fuel
      → (ts : List Token) × (lex_loop u fuel n line base_col rest ≡ some ts)
        × All (Small (length rest)) ts
  lex_loop-Small zero rest h = absurd (omega arith)
  lex_loop-Small (suc fuel) [] h =
      unfold lex_loop token_at Small in
      (token_at u n line base_col eof_tok [] [] ∷ [], refl, ((λ e. absurd cc), tt))
  lex_loop-Small (suc fuel) (c ∷ s) h =
      let (ts, e, a) =
        lex_loop-Small fuel (next_token u c s).1 (omega (arith, next_token_shrinks u c s)) in
      let more = Small-lt ts (omega (arith, next_token_shrinks u c s)) a in
      elim (Option-cases (next_token u c s).0) [
        | inl skipped ↦ (ts, lex_loop_skip u n line base_col fuel c s skipped ∙ e, more)
        | inr ((type, value), found) ↦ (
          token_at u n line base_col type value (c ∷ s) ∷ ts,
          lex_loop_token u n line base_col fuel c s type value ts found e,
          (unfold Small token_at in next_token-length c s type value found, more),
        )
      ]

pub lex_expr-Small :
    (u : Unicode) (src : Text) (line base_col : ℕ)
    → (ts : List Token) × (lex_expr u src line base_col ≡ some ts) × All (Small (length src)) ts
unfolding lex_expr
lex_expr-Small u src line base_col =
    lex_loop-Small u (length src) line base_col (suc (length src)) src (omega arith)
