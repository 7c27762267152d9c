-- ===== src/Lexer.antt =====
-- src/mellowlang/lexer.py: `lex_expr` turns one line or expression into tokens. The index `i` of the
-- source is `n - length rest` for the text `rest` that is not read yet. The proofs are below.
pub mod Progress
pub mod Positions
pub mod Strings
pub mod Values
pub mod Ascii
pub mod Lengths
mod Tests
use mellow_programming_langu.Prelude.{
  ℕ, zero, suc, ◌+◌, ◌-◌, ◌*◌, ◌≡◌, Bool, true, false, not, ◌&&◌, ◌||◌, Option, none, some, List,
  [], ◌∷◌, ◌++◌, map, leb, ◌==◌, if◌then◌else◌, length, take, drop,
}
use mellow_programming_langu.Text.{Text, codes, is_space, is_empty, is_one_of, text_eq}

-- Python's tables of character classes and lower case, which the source takes from the Unicode
-- database, with what the lexer relies on: a digit, a letter or an
-- alphanumeric character is no white space.
pub record Unicode : Type 0 where
  pub is_digit : ℕ → Bool
  pub is_alpha : ℕ → Bool
  pub is_alnum : ℕ → Bool
  pub lower : Text → Text
  pub digit_solid : (c : ℕ) → is_digit c ≡ true → is_space c ≡ false
  pub alpha_solid : (c : ℕ) → is_alpha c ≡ true → is_space c ≡ false
  pub alnum_solid : (c : ℕ) → is_alnum c ≡ true → is_space c ≡ false

pub data TokenType : Type 0 where
  fstring_tok string_tok number_tok keyword_tok ident_tok op_tok symbol_tok eof_tok : TokenType

pub record Token : Type 0 where
  pub type : TokenType
  pub value : Text
  pub pos : ℕ
  pub line : ℕ
  pub col : ℕ

abbrev pub backslash : ℕ
backslash = b'\\'

abbrev pub underscore : ℕ
underscore = b'_'

abbrev pub keywords : List Text
keywords = map codes (
    "keep" ∷ "show" ∷ "precision" ∷ "check" ∷ "also" ∷ "else" ∷ "loop" ∷ "skill" ∷ "return" ∷ "stop"
    ∷ "wait" ∷ "save" ∷ "load" ∷ "into" ∷ "put" ∷ "in" ∷ "and" ∷ "or" ∷ "not" ∷ "true" ∷ "false"
    ∷ "none" ∷ "null" ∷ "try" ∷ "catch" ∷ "finally" ∷ "repeat" ∷ "until" ∷ "break" ∷ "continue"
    ∷ "import" ∷ "on" ∷ "do" ∷ "let" ∷ "var" ∷ "def" ∷ "fn" ∷ "function" ∷ "print" ∷ "input" ∷ "if"
    ∷ "elif" ∷ "while" ∷ "for" ∷ "get" ∷ "call" ∷ [])

unfoldable pub is_member : Text → List Text → Bool
unfolding text_eq
is_member w [] = false
is_member w (k ∷ ks) = text_eq w k || is_member w ks

-- `src[i:i+2] in TWO_CHAR`, at `c` and the character `d` behind it
pub is_two_char : ℕ → ℕ → Bool
is_two_char c d =
    c == b'=' && d == b'='
    || c == b'!' && d == b'='
    || c == b'>' && d == b'='
    || c == b'<' && d == b'='
    || c == b'*' && d == b'*'

unfoldable pub is_quote : ℕ → Bool
is_quote c = c == b'"' || c == b'\''

-- What the character behind a backslash stands for; any other character stands for itself.
unfoldable pub escaped : ℕ → ℕ
escaped e = if e == b'n' then 10 else if e == b't' then 9 else if e == b'r' then 13 else e

is_hex : ℕ → Bool
unfolding is_one_of
is_hex c = is_one_of (codes "0123456789abcdefABCDEF") c

hex_value : ℕ → ℕ
hex_value c = if leb c b'9' then c - b'0' else if leb c b'F' then c - b'A' + 10 else c - b'a' + 10

-- `chr(int(hex4, 16))`
hex4 : ℕ → ℕ → ℕ → ℕ → ℕ
unfolding hex_value
hex4 a b c d = ((hex_value a * 16 + hex_value b) * 16 + hex_value c) * 16 + hex_value d

-- An escape, at the text behind its backslash: the character, and the number of characters read.
unfoldable pub string_escape : Text → ℕ × ℕ
unfolding escaped is_hex hex4
string_escape [] = (backslash, 0)
string_escape (e ∷ a ∷ b ∷ c ∷ d ∷ s) =
    if e == b'u' && (is_hex a && (is_hex b && (is_hex c && is_hex d)))
    then (hex4 a b c d, 5)
    else (escaped e, 1)
string_escape (e ∷ s) = (escaped e, 1)

-- In an f-string `\u` is no escape of its own.
unfoldable pub fstring_escape : Text → ℕ × ℕ
unfolding escaped
fstring_escape [] = (backslash, 0)
fstring_escape (e ∷ s) = (escaped e, 1)

-- The loop over the body of a literal behind its opening quote: the value, and the text behind the
-- closing quote. `skip` counts the characters of an escape that is read already.
unfoldable pub literal_body : (Text → ℕ × ℕ) → ℕ → Text → ℕ → Text → Text × Text
literal_body escape quote buf skip [] = (buf, [])
literal_body escape quote buf (suc skip) (c ∷ s) = literal_body escape quote buf skip s
literal_body escape quote buf zero (c ∷ s) =
    let after_escape = literal_body escape quote (buf ++ (escape s).0 ∷ []) (escape s).1 s in
    let next = literal_body escape quote (buf ++ c ∷ []) 0 s in
    if c == backslash && not (is_empty s)
    then after_escape
    else if c == quote
    then (buf, s)
    else next

module _ (u : Unicode) where
  -- The length of the number literal at the head of the text; a second dot ends it.
  pub number_length : Bool → Text → ℕ
  number_length has_dot [] = 0
  number_length has_dot (c ∷ s) =
      let dot = number_length true s in
      let digit = number_length has_dot s in
      if c == b'.' then (if has_dot then 0 else 1 + dot) else if u.is_digit c then 1 + digit else 0

  pub word_length : Text → ℕ
  word_length [] = 0
  word_length (c ∷ s) =
      let rest = word_length s in if u.is_alnum c || c == underscore then 1 + rest else 0

  -- `src[i+1].isdigit()` for `src[i+1:]`
  pub starts_with_digit : Text → Bool
  starts_with_digit [] = false
  starts_with_digit (c ∷ s) = u.is_digit c

  pub starts_with_quote : Text → Bool
  unfolding is_quote
  starts_with_quote [] = false
  starts_with_quote (c ∷ s) = is_quote c

  pub head_or_zero : Text → ℕ
  head_or_zero [] = 0
  head_or_zero (c ∷ s) = c

  pub is_op : ℕ → Text → Bool
  unfolding is_two_char
  is_op c [] = false
  is_op c (d ∷ s) = is_two_char c d

  pub word_type : Text → TokenType
  unfolding is_member
  word_type text = if is_member (u.lower text) keywords then keyword_tok else ident_tok

  -- One round of the loop at the character `c` before `s`: the token, unless the character is white
  -- space, and the text behind it.
  unfoldable pub next_token : ℕ → Text → Option (TokenType × Text) × Text
  unfolding number_length word_length starts_with_digit starts_with_quote head_or_zero is_op
      word_type
  next_token c s =
      let lit = literal_body fstring_escape (head_or_zero s) [] 0 (drop 1 s) in
      let str = literal_body string_escape c [] 0 s in
      let n = number_length false (c ∷ s) in
      let w = suc (word_length s) in
      if is_space c
      then (none, s)
      else if (c == b'f' || c == b'F') && starts_with_quote s
      then (some (fstring_tok, lit.0), lit.1)
      else if is_quote c
      then (some (string_tok, str.0), str.1)
      else if u.is_digit c || c == b'.' && starts_with_digit s
      then (some (number_tok, take n (c ∷ s)), drop n (c ∷ s))
      else if u.is_alpha c || c == underscore
      then (some (word_type (take w (c ∷ s)), take w (c ∷ s)), drop w (c ∷ s))
      else if is_op c s
      then (some (op_tok, take 2 (c ∷ s)), drop 2 (c ∷ s))
      else (some (symbol_tok, c ∷ []), s)

  -- `_tok`, at the text that is not read when the token starts
  unfoldable pub token_at : ℕ → ℕ → ℕ → TokenType → Text → Text → Token
  token_at n line base_col type value rest = record {
    type = type;
    value = value;
    pos = n - length rest;
    line = line;
    col = base_col + (n - length rest);
  }

  -- The tokens of the source from `rest` on, given what one round finds and the tokens behind it.
  pub with_token :
      ℕ → ℕ → ℕ → Text → Option (TokenType × Text) → Option (List Token) → Option (List Token)
  with_token n line base_col rest none tokens = tokens
  with_token n line base_col rest (some t) none = none
  with_token n line base_col rest (some (type, value)) (some ts) =
      some (token_at n line base_col type value rest ∷ ts)

  -- The main loop; `none` is fuel that ran out.
  pub lex_loop : ℕ → ℕ → ℕ → ℕ → Text → Option (List Token)
  unfolding with_token
  lex_loop zero n line base_col rest = none
  lex_loop (suc fuel) n line base_col [] = some (token_at n line base_col eof_tok [] [] ∷ [])
  lex_loop (suc fuel) n line base_col (c ∷ s) =
      with_token n line base_col (c ∷ s) (next_token c s).0
        (lex_loop fuel n line base_col (next_token c s).1)

  unfoldable pub lex_expr : Text → ℕ → ℕ → Option (List Token)
  unfolding lex_loop
  lex_expr src line base_col = lex_loop (suc (length src)) (length src) line base_col src
