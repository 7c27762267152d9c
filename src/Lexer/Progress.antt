-- ===== src/Lexer/Progress.antt =====
-- What each round of `lex_expr` of src/mellowlang/lexer.py reads.
use mellow_programming_langu.Prelude.{
  ℕ, zero, suc, ◌≤◌, ◌<◌, ◌≡◌, true, false, ◌&&◌, ◌||◌, [], ◌∷◌, ◌++◌, arith, ◌==◌, length, drop,
  length-drop,
}
use mellow_programming_langu.Text.{Text}
use mellow_programming_langu.Lexer.{
  Unicode, literal_body, number_length, word_length, next_token, fstring_escape, string_escape,
  starts_with_digit, head_or_zero,
}

pub literal_body_shrinks :
    (escape : Text → ℕ × ℕ) (quote : ℕ) (buf : Text) (skip : ℕ) (s : Text)
    → length (literal_body escape quote buf skip s).1 ≤ length s
unfolding literal_body
literal_body_shrinks escape quote buf skip [] = omega arith
literal_body_shrinks escape quote buf (suc skip) (c ∷ s) =
    omega (arith, literal_body_shrinks escape quote buf skip s)
literal_body_shrinks escape quote buf zero (c ∷ s) = ground (
  arith,
  literal_body_shrinks escape quote (buf ++ (escape s).0 ∷ []) (escape s).1 s,
  literal_body_shrinks escape quote (buf ++ c ∷ []) 0 s,
)

module _ (u : Unicode) where
  pub number_length_pos :
      (c : ℕ) (s : Text)
      → (u.is_digit c || c == b'.' && starts_with_digit u s) ≡ true
      → 0 < number_length u false (c ∷ s)
  unfolding number_length
  number_length_pos c s h = ground arith

  pub next_token_shrinks : (c : ℕ) (s : Text) → length (next_token u c s).1 ≤ length s
  unfolding next_token
  next_token_shrinks c s = ground (
    arith,
    literal_body_shrinks fstring_escape (head_or_zero u s) [] 0 (drop 1 s),
    length-drop 1 s,
    literal_body_shrinks string_escape c [] 0 s,
    number_length_pos c s,
    length-drop (number_length u false (c ∷ s)) (c ∷ s),
    length-drop (word_length u s) s,
    length-drop 1 s,
  )
