-- ===== src/Lexer/Values.antt =====
-- The values of the tokens of `lex_expr` of src/mellowlang/lexer.py.
use mellow_programming_langu.Prelude.{
  ℕ, zero, suc, ◌+◌, ◌≡◌, refl, sym, ap, ◌∙◌, subst, ◌⊎◌, inl, inr, Bool, true, false, ◌&&◌, ◌||◌,
  Option, none, some, List, [], ◌∷◌, ◌++◌, arith, ◌==◌, if◌then◌else◌, if_split, Bool-cases, length,
  take, drop, take-append-drop,
}
use mellow_programming_langu.Text.{Text, is_space}
use mellow_programming_langu.Lexer.{
  Unicode, Token, TokenType, is_quote, number_length, word_length, starts_with_quote,
  starts_with_digit, next_token, is_op, is_two_char, underscore, with_token, token_at, lex_loop,
  lex_expr, number_tok, word_type, op_tok, symbol_tok,
}
use mellow_programming_langu.Lexer.Positions.{lex_expr-Placed}

-- The text without its white space.
unfoldable pub solid : Text → Text
solid [] = []
solid (c ∷ s) = if is_space c then solid s else c ∷ solid s

unfoldable pub values : List Token → Text
values [] = []
values (t ∷ ts) = t.value ++ values ts

abbrev pub NoQuotes : Text → Type 0
NoQuotes [] = Unit
NoQuotes (c ∷ s) = (is_quote c ≡ false) × NoQuotes s

abbrev IsSolid : Text → Type 0
IsSolid [] = Unit
IsSolid (c ∷ s) = (is_space c ≡ false) × IsSolid s

solid-append : (v s : Text) → IsSolid v → solid (v ++ s) ≡ v ++ solid s
unfolding solid
solid-append [] s h = refl
solid-append (c ∷ v) s (hc, h) = rw hc (ap (◌∷◌ c) (solid-append v s h))

solid-take : (n : ℕ) (s : Text) → IsSolid (take n s) → solid s ≡ take n s ++ solid (drop n s)
solid-take n s h = ap solid (sym (take-append-drop n s)) ∙ solid-append (take n s) (drop n s) h

NoQuotes-drop : (n : ℕ) (s : Text) → NoQuotes s → NoQuotes (drop n s)
NoQuotes-drop zero s h = h
NoQuotes-drop (suc n) [] h = tt
NoQuotes-drop (suc n) (c ∷ s) h = NoQuotes-drop n s h.1

IsSolid-suc :
    (c n : ℕ) (s : Text) → is_space c ≡ false → IsSolid (take n s) → IsSolid (take (1 + n) (c ∷ s))
IsSolid-suc c n s hc h =
    let e : 1 + n ≡ suc n = omega arith in subst (λ k. IsSolid (take k (c ∷ s))) (sym e) (hc, h)

dot_solid : (c : ℕ) → (c == b'.') ≡ true → is_space c ≡ false
unfolding is_space
dot_solid c h = ground arith

underscore_solid : (c : ℕ) → (c == underscore) ≡ true → is_space c ≡ false
unfolding is_space
underscore_solid c h = ground arith

two_char_second : (c d : ℕ) → is_two_char c d ≡ true → (d ≡ b'=') ⊎ (d ≡ b'*')
unfolding is_two_char
two_char_second c d h = ground arith

second_solid : (d : ℕ) → (d ≡ b'=') ⊎ (d ≡ b'*') → is_space d ≡ false
unfolding is_space
second_solid d (inl e) = rw e
second_solid d (inr e) = rw e

module _ (u : Unicode) where
  number-IsSolid : (has_dot : Bool) (s : Text) → IsSolid (take (number_length u has_dot s) s)
  unfolding number_length
  number-IsSolid has_dot [] = tt
  number-IsSolid has_dot (c ∷ s) =
      let P : ℕ → Type 0 = λ m. IsSolid (take m (c ∷ s)) in
      if_split P (c == b'.')
        (λ dot.
          if_split P has_dot (λ _. tt)
            (λ _.
              IsSolid-suc c (number_length u true s) s (dot_solid c dot) (number-IsSolid true s)))
        (λ _.
          if_split P (u.is_digit c)
            (λ digit.
              IsSolid-suc c (number_length u has_dot s) s (u.digit_solid c digit)
                (number-IsSolid has_dot s))
            (λ _. tt))

  word_char_solid : (c : ℕ) → (u.is_alnum c || c == underscore) ≡ true → is_space c ≡ false
  word_char_solid c h = elim (Bool-cases (u.is_alnum c)) [
    | inl e ↦ u.alnum_solid c e
    | inr e ↦ underscore_solid c (rw e at h)
  ]

  word-IsSolid : (s : Text) → IsSolid (take (word_length u s) s)
  unfolding word_length
  word-IsSolid [] = tt
  word-IsSolid (c ∷ s) =
      if_split (λ m. IsSolid (take m (c ∷ s))) (u.is_alnum c || c == underscore)
        (λ w. IsSolid-suc c (word_length u s) s (word_char_solid c w) (word-IsSolid s)) (λ _. tt)

  -- What one round takes from the text: a solid value in front of the rest, or white space.
  Takes : Text → Option (TokenType × Text) × Text → Type 0
  Takes s (none, rest) = (solid s ≡ solid rest) × NoQuotes rest
  Takes s (some (type, value), rest) = (solid s ≡ value ++ solid rest) × NoQuotes rest

  Takes-take :
      (n : ℕ) (s : Text) (type : TokenType)
      → NoQuotes s
      → IsSolid (take n s)
      → Takes s (some (type, take n s), drop n s)
  unfolding Takes
  Takes-take n s type q h = (solid-take n s h, NoQuotes-drop n s q)

  op-IsSolid :
      (c : ℕ) (s : Text) → is_space c ≡ false → is_op u c s ≡ true → IsSolid (take 2 (c ∷ s))
  unfolding is_op
  op-IsSolid c [] hc h = cc
  op-IsSolid c (d ∷ s) hc h = (hc, (second_solid d (two_char_second c d h), tt))

  Takes-space : (c : ℕ) (s : Text) → NoQuotes s → is_space c ≡ true → Takes (c ∷ s) (none, s)
  unfolding Takes solid
  Takes-space c s q h = (rw h, q)

  no_fstring : (b : Bool) (s : Text) → NoQuotes s → (b && starts_with_quote u s) ≡ true → ⊥
  unfolding starts_with_quote
  no_fstring b [] q h = ground arith
  no_fstring b (d ∷ s) q h = ground arith

  next_token-Takes : (c : ℕ) (s : Text) → NoQuotes (c ∷ s) → Takes (c ∷ s) (next_token u c s)
  unfolding next_token
  next_token-Takes c s (qc, q) =
      let P : Option (TokenType × Text) × Text → Type 0 = λ r. Takes (c ∷ s) r in
      let n = number_length u false (c ∷ s) in
      let w = suc (word_length u s) in
      if_split P (is_space c) (Takes-space c s q) (λ hc.
        if_split P ((c == b'f' || c == b'F') && starts_with_quote u s)
          (λ h. absurd (no_fstring (c == b'f' || c == b'F') s q h))
          (λ _.
            if_split P (is_quote c) (λ h. cc)
              (λ _.
                if_split P (u.is_digit c || c == b'.' && starts_with_digit u s)
                  (λ _. Takes-take n (c ∷ s) number_tok (qc, q) (number-IsSolid false (c ∷ s)))
                  (λ _.
                    if_split P (u.is_alpha c || c == underscore)
                      (λ _.
                        Takes-take w (c ∷ s) (word_type u (take w (c ∷ s))) (qc, q)
                          (hc, word-IsSolid s))
                      (λ _.
                        if_split P (is_op u c s)
                          (λ o. Takes-take 2 (c ∷ s) op_tok (qc, q) (op-IsSolid c s hc o))
                          (λ _. Takes-take 1 (c ∷ s) symbol_tok (qc, q) (hc, tt)))))))

  values_step :
      (n line base_col : ℕ) (s : Text) (t : Option (TokenType × Text)) (rest : Text)
      (tokens : Option (List Token)) (ts : List Token)
      → Takes s (t, rest)
      → with_token u n line base_col s t tokens ≡ some ts
      → (us : List Token) × (tokens ≡ some us) × (values us ≡ solid rest → values ts ≡ solid s)
  unfolding Takes with_token token_at values
  values_step n line base_col s none rest tokens ts h e = (ts, e, λ p. p ∙ sym h.0)
  values_step n line base_col s (some t) rest none ts h e = cc
  values_step n line base_col s (some (type, value)) rest (some us) ts h e =
      (us, refl, λ p. ground (arith, h.0))

  Takes-rest :
      (s : Text) (t : Option (TokenType × Text)) (rest : Text) → Takes s (t, rest) → NoQuotes rest
  unfolding Takes
  Takes-rest s none rest h = h.1
  Takes-rest s (some t) rest h = h.1

  lex_loop-values :
      (fuel n line base_col : ℕ) (s : Text) (ts : List Token)
      → NoQuotes s
      → lex_loop u fuel n line base_col s ≡ some ts
      → values ts ≡ solid s
  unfolding lex_loop
  lex_loop-values zero n line base_col s ts q e = cc
  lex_loop-values (suc fuel) n line base_col [] ts q e =
      unfold values solid token_at in ground arith
  lex_loop-values (suc fuel) n line base_col (c ∷ s) ts q e =
      let (t, rest) = next_token u c s in
      let h = next_token-Takes c s q in
      let (us, f, step) =
        values_step n line base_col (c ∷ s) t rest (lex_loop u fuel n line base_col rest) ts h e in
      step (lex_loop-values fuel n line base_col rest us (Takes-rest (c ∷ s) t rest h) f)

-- Without quotes in the source nothing is lost and nothing made up: the values of the tokens, put
-- together, are the source without its white space.
pub lex_expr-values :
    (u : Unicode) (src : Text) (line base_col : ℕ)
    → NoQuotes src
    → (ts : List Token) × (lex_expr u src line base_col ≡ some ts) × (values ts ≡ solid src)
unfolding lex_expr
lex_expr-values u src line base_col q =
    let (ts, e, _) = lex_expr-Placed u src line base_col in
    (ts, e, lex_loop-values u (suc (length src)) (length src) line base_col src ts q e)
