-- ===== src/Lexer/Strings.antt =====
-- String literals in `lex_expr` of src/mellowlang/lexer.py.
use mellow_programming_langu.Prelude.{
  ℕ, ◌+◌, ◌≡◌, refl, ap, ◌∙◌, false, ◌||◌, Option, some, [], ◌∷◌, ◌++◌, append-nil, append_assoc,
  arith, ◌==◌, if◌then◌else◌, length,
}
use mellow_programming_langu.Text.{Text, codes, is_space}
use mellow_programming_langu.Lexer.{
  Unicode, TokenType, string_tok, eof_tok, literal_body, string_escape, escaped, next_token,
  token_at, lex_loop, lex_expr, is_quote, backslash, with_token,
}

-- How a character is written between double quotes.
unfoldable pub spelled : ℕ → Text
spelled c =
    if c == b'"' || c == backslash
    then backslash ∷ c ∷ []
    else if c == 10
    then codes "\\n"
    else if c == 9
    then codes "\\t"
    else if c == 13
    then codes "\\r"
    else c ∷ []

unfoldable pub spell : Text → Text
unfolding spelled
spell [] = []
spell (c ∷ s) = spelled c ++ spell s

unfoldable pub literal_of : Text → Text
literal_of s = b'"' ∷ (spell s ++ b'"' ∷ [])

-- An escape that is not `\u` is read as one character, whatever follows.
string_escape_plain :
    (e : ℕ) (s : Text) → (e == b'u') ≡ false → string_escape (e ∷ s) ≡ (escaped e, 1)
unfolding string_escape
string_escape_plain e [] h = refl
string_escape_plain e (a ∷ []) h = refl
string_escape_plain e (a ∷ b ∷ []) h = refl
string_escape_plain e (a ∷ b ∷ c ∷ []) h = refl
string_escape_plain e (a ∷ b ∷ c ∷ d ∷ s) h = rw h

body_escape :
    (buf : Text) (e : ℕ) (s : Text)
    → (e == b'u') ≡ false
    → literal_body string_escape b'"' buf 0 (backslash ∷ e ∷ s)
      ≡ literal_body string_escape b'"' (buf ++ escaped e ∷ []) 0 s
unfolding literal_body
body_escape buf e s h =
    ap (λ (p : ℕ × ℕ). literal_body string_escape b'"' (buf ++ p.0 ∷ []) p.1 (e ∷ s))
      (string_escape_plain e s h)

body_plain :
    (buf : Text) (c : ℕ) (s : Text)
    → (c == backslash) ≡ false
    → (c == b'"') ≡ false
    → literal_body string_escape b'"' buf 0 (c ∷ s)
      ≡ literal_body string_escape b'"' (buf ++ c ∷ []) 0 s
unfolding literal_body
body_plain buf c s h k = rw (h, k)

body_spelled :
    (buf : Text) (c : ℕ) (s : Text)
    → literal_body string_escape b'"' buf 0 (spelled c ++ s)
      ≡ literal_body string_escape b'"' (buf ++ c ∷ []) 0 s
unfolding spelled escaped
body_spelled buf c s = ground (
  arith,
  body_escape buf c s,
  body_escape buf b'n' s,
  body_escape buf b't' s,
  body_escape buf b'r' s,
  body_plain buf c s,
)

body_spell :
    (buf s rest : Text)
    → literal_body string_escape b'"' buf 0 (spell s ++ b'"' ∷ rest) ≡ (buf ++ s, rest)
unfolding spell
body_spell buf [] rest = unfold literal_body in rw append-nil
body_spell buf (c ∷ s) rest = rw (append_assoc (spelled c) (spell s) (b'"' ∷ rest)) (
    body_spelled buf c (spell s ++ b'"' ∷ rest)
    ∙ body_spell (buf ++ c ∷ []) s rest
    ∙ ap (λ (t : Text). (t, rest)) (append_assoc buf (c ∷ []) s))

next_token_string :
    (u : Unicode) (t : Text)
    → next_token u b'"' t ≡ (
      some (string_tok, (literal_body string_escape b'"' [] 0 t).0),
      (literal_body string_escape b'"' [] 0 t).1,
    )
unfolding next_token is_space is_quote
next_token_string u t = refl

next_token-spell :
    (u : Unicode) (s : Text) → next_token u b'"' (spell s ++ b'"' ∷ []) ≡ (some (string_tok, s), [])
next_token-spell u s =
    next_token_string u (spell s ++ b'"' ∷ [])
    ∙ ap (λ (p : Text × Text). (some (string_tok, p.0), p.1)) (body_spell [] s [])

-- The literal of any text is lexed to one string token with that text as its value, and the end.
pub lex_expr-literal_of :
    (u : Unicode) (line base_col : ℕ) (s : Text)
    → lex_expr u (literal_of s) line base_col
      ≡ some (
          record { type = string_tok; value = s; pos = 0; line = line; col = base_col }
          ∷ record {
            type = eof_tok;
            value = [];
            pos = length (literal_of s);
            line = line;
            col = base_col + length (literal_of s);
          }
          ∷ [])
unfolding lex_expr lex_loop token_at literal_of
lex_expr-literal_of u line base_col s =
    ap
      (λ (p : Option (TokenType × Text) × Text).
        with_token u (length (literal_of s)) line base_col (literal_of s) p.0
          (lex_loop u (length (literal_of s)) (length (literal_of s)) line base_col p.1))
      (next_token-spell u s)
    ∙ ground arith
