-- ===== src/Lexer/Ascii.antt =====
-- The character classes and the lower case of ASCII, at which src/mellowlang/lexer.py can be run.
use mellow_programming_langu.Prelude.{
  ℕ, ◌+◌, ◌≡◌, inl, inr, Bool, true, false, ◌&&◌, ◌||◌, map, arith, leb, if◌then◌else◌, Bool-cases,
}
use mellow_programming_langu.Text.{is_space}
use mellow_programming_langu.Lexer.{Unicode}

unfoldable pub ascii_digit : ℕ → Bool
ascii_digit c = leb b'0' c && leb c b'9'

unfoldable pub ascii_alpha : ℕ → Bool
ascii_alpha c = leb b'a' c && leb c b'z' || leb b'A' c && leb c b'Z'

unfoldable pub ascii_alnum : ℕ → Bool
unfolding ascii_digit ascii_alpha
ascii_alnum c = ascii_digit c || ascii_alpha c

unfoldable pub ascii_lower : ℕ → ℕ
ascii_lower c = if leb b'A' c && leb c b'Z' then c + 32 else c

pub ascii_digit_solid : (c : ℕ) → ascii_digit c ≡ true → is_space c ≡ false
unfolding ascii_digit is_space
ascii_digit_solid c h = ground arith

pub ascii_alpha_solid : (c : ℕ) → ascii_alpha c ≡ true → is_space c ≡ false
unfolding ascii_alpha is_space
ascii_alpha_solid c h = ground arith

pub ascii_alnum_solid : (c : ℕ) → ascii_alnum c ≡ true → is_space c ≡ false
unfolding ascii_alnum
ascii_alnum_solid c h = elim (Bool-cases (ascii_digit c)) [
  | inl e ↦ ascii_digit_solid c e
  | inr e ↦ ascii_alpha_solid c (rw e at h)
]

abbrev pub ascii : Unicode
ascii = record {
  is_digit = ascii_digit;
  is_alpha = ascii_alpha;
  is_alnum = ascii_alnum;
  lower = map ascii_lower;
  digit_solid = ascii_digit_solid;
  alpha_solid = ascii_alpha_solid;
  alnum_solid = ascii_alnum_solid;
}
