-- ===== src/Sm/Tests.antt =====
-- A text with a word of the dictionary, with one byte for each character that is no surrogate.
use mathlib.Core.Option.{some-injective}
use mellow_programming_langu.Prelude.{
  ℕ, ◌≡◌, refl, sym, ap, inl, inr, Option, none, some, List, [], ◌∷◌, arith, if◌then◌else◌,
  Bool-cases, length,
}
use mellow_programming_langu.Text.{Text, codes}
use mellow_programming_langu.Sm.{Utf8, is_scalar, tokenize, tokenize_from, best, detokenize}
use mellow_programming_langu.Sm.RoundTrip.{IsScalar, detokenize-tokenize}

abbrev one_byte : ℕ → Option (List ℕ)
one_byte c = if is_scalar c then some (c ∷ []) else none

one_byte_lem : (c : ℕ) (bytes : List ℕ) → one_byte c ≡ some bytes → bytes ≡ c ∷ []
one_byte_lem c bytes h = elim (Bool-cases (is_scalar c)) [
  | inl e ↦ let p : c ∷ [] ≡ bytes = some-injective _ _ (rw e at h) in sym p
  | inr e ↦ let q : none ≡ some bytes = rw e at h in absurd cc
]

abbrev ascii : Utf8
ascii = record {
  encode = one_byte;
  decode = λ bytes. some bytes;
  encode_scalar = λ c h. (c ∷ [], rw h refl);
  encode_some = λ c bytes h. let e = ap length (one_byte_lem c bytes h) in omega arith;
  encode_short = λ c bytes h. let e = ap length (one_byte_lem c bytes h) in omega arith;
  decode-encode = λ c bytes h. ap (λ bs. some bs) (one_byte_lem c bytes h);
}

abbrev words : List Text
words = codes "loop" ∷ codes "show" ∷ []

marked : tokenize ascii (codes "a show") words ≡ some (1 ∷ 97 ∷ 1 ∷ 32 ∷ 255 ∷ 1 ∷ [])
unfolding tokenize tokenize_from best
marked = refl

surrogate : tokenize ascii (55296 ∷ []) words ≡ none
unfolding tokenize tokenize_from best
surrogate = refl

detokenize-tokenize_example :
    (stream : List ℕ) × (tokenize ascii (codes "a show") words ≡ some stream)
    × (detokenize ascii stream words ≡ some (codes "a show"))
unfolding IsScalar
detokenize-tokenize_example =
    detokenize-tokenize ascii words (codes "a show") (omega arith)
      (refl, (refl, (refl, (refl, (refl, (refl, tt))))))
