-- ===== src/Parser/Result.antt =====
-- What running the parser of src/mellowlang/parsing can come to, and the cursor of `ExprParser`: the
-- state `self.i` is the list of the tokens from it on.
use mellow_programming_langu.Prelude.{
  ℕ, suc, Bool, true, false, ◌&&◌, ◌||◌, List, [], ◌∷◌, if◌then◌else◌, length,
}
use mellow_programming_langu.Text.{Text, text_eq}
use mellow_programming_langu.Lexer.{Token, TokenType, Unicode, keyword_tok, ident_tok}

-- The exceptions that leave the parser: the three ParseErrors with the token they are reported at,
-- the IndexError of reading behind the last token, and the ValueError of `int` and `float`.
pub data ParseError : Type 0 where
  expected : Text → Token → ParseError
  unexpected : Token → ParseError
  expected_in : ParseError
  index_error : ParseError
  value_error : ParseError

-- `starved` is fuel that ran out, which the source does not have.
pub data Parsed {ℓ} (A : Type ℓ) : Type ℓ where
  done : A → Parsed A
  failed : ParseError → Parsed A
  starved : Parsed A

abbrev pub bind {ℓ κ} : {A : Type ℓ} {B : Type κ} → Parsed A → (A → Parsed B) → Parsed B
bind (done a) f = f a
bind (failed e) f = failed e
bind starved f = starved

abbrev pub Parser {ℓ} : Type ℓ → Type ℓ
Parser A = List Token → Parsed (A × List Token)

unfoldable pub pure {ℓ} : {A : Type ℓ} → A → Parser A
pure a ts = done (a, ts)

unfoldable pub raise {ℓ} : {A : Type ℓ} → ParseError → Parser A
raise e ts = failed e

unfoldable pub starve {ℓ} : {A : Type ℓ} → Parser A
starve ts = starved

module _ {ℓ κ} {A : Type ℓ} {B : Type κ} where
  infixl 1 ◌>>=◌ ◌>>◌
  unfoldable pub ◌>>=◌ : Parser A → (A → Parser B) → Parser B
  p >>= f = λ ts. bind (p ts) λ (a, rest). f a rest

  unfoldable pub ◌>>◌ : Parser A → Parser B → Parser B
  unfolding ◌>>=◌
  p >> q = p >>= λ _. q

-- `try: return p` with an `except` that puts the cursor back and goes on with `q`
unfoldable pub or_else {ℓ} : {A : Type ℓ} → Parser A → Parser A → Parser A
or_else p q ts = elim (p ts) [ done r ↦ done r | failed e ↦ q ts | starved ↦ starved ]

-- A loop that reads tokens in each round: one round more than there are tokens.
unfoldable pub with_rounds {ℓ} : {A : Type ℓ} → (ℕ → Parser A) → Parser A
with_rounds p ts = p (suc (length ts)) ts

unfoldable pub peek : Parser Token
peek [] = failed index_error
peek (t ∷ ts) = done (t, t ∷ ts)

unfoldable pub advance : Parser Token
advance [] = failed index_error
advance (t ∷ ts) = done (t, ts)

-- `t.value == v`
abbrev pub is : Text → Token → Bool
is v t = text_eq t.value v

unfoldable pub is_keyword_type : TokenType → Bool
is_keyword_type keyword_tok = true
is_keyword_type _ = false

module _ (u : Unicode) where
  -- `t.type == "KW" and t.value.lower() == w`
  unfoldable pub is_keyword : Text → Token → Bool
  unfolding text_eq is_keyword_type
  is_keyword w t = is_keyword_type t.type && text_eq (u.lower t.value) w

  unfoldable pub match_val : Text → Parser Bool
  unfolding peek advance is_keyword text_eq
  match_val v = do t ← peek; if is v t || is_keyword v t then (advance >> pure true) else pure false

  unfoldable pub expect_val : Text → Parser (Unit {0})
  unfolding match_val peek
  expect_val v = do
    matched ← match_val v
    if matched then pure tt else (peek >>= λ t. raise (expected v t))

-- `t.type in ("IDENT", "KW")`
unfoldable pub is_word : Token → Bool
unfolding is_keyword_type
is_word t = elim t.type [ ident_tok ↦ true | keyword_tok ↦ true | _ ↦ false ]

-- `self.i + 1 < len(self.tokens) and self.tokens[self.i + 1].value == v`
unfoldable pub next_is : Text → Parser Bool
unfolding text_eq
next_is v [] = done (false, [])
next_is v (t ∷ []) = done (false, t ∷ [])
next_is v (t ∷ t' ∷ ts) = done (is v t', t ∷ t' ∷ ts)
