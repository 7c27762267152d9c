-- ===== src/Parser/TemplateBounds.antt =====
-- How long the fields of f-strings are, and what `_parse_fstring` of
-- src/mellowlang/parsing/expression_atoms.py needs of the parser of the fields.
use mellow_programming_langu.Lexer.{Token}
use mellow_programming_langu.Ast.{Expr, Parts, fstring}
use mellow_programming_langu.Parser.Result.{Parsed, done, failed, starved, bind}
use mellow_programming_langu.Prelude.{
  ℕ, suc, ◌+◌, ◌≤◌, ◌<◌, refl, ◌≢◌, List, [], ◌∷◌, ◌++◌, arith, if_split, length, length-append,
  All,
}
use mellow_programming_langu.Text.{Text, strip, lstrip, rstrip, is_empty}
use mellow_programming_langu.Parser.Templates.{
  Piece, literal_piece, field_piece, Mode, plain, skipping, inside, flush_text, end_field,
  inside_step, scan_step, scan_end, scan, or_text, parts_of, parse_fstring,
}
use mellow_programming_langu.Parser.Bounded.{Bounded, Within, Leaves}

length-lstrip : (s : Text) → length (lstrip s) ≤ length s
unfolding lstrip
length-lstrip [] = omega arith
length-lstrip (c ∷ s) = ground (arith, length-lstrip s)

length-rstrip : (s : Text) → length (rstrip s) ≤ length s
unfolding rstrip
length-rstrip [] = omega arith
length-rstrip (c ∷ s) = ground (arith, length-rstrip s)

length-strip : (s : Text) → length (strip s) ≤ length s
unfolding strip
length-strip s = omega (arith, length-lstrip s, length-rstrip (lstrip s))

-- A field is shorter than `L`.
Below : ℕ → Piece → Type 0
Below L (literal_piece s) = Unit
Below L (field_piece s) = length s < L

All-append : {A : Type 0} (P : A → Type 0) (xs ys : List A) → All P xs → All P ys → All P (xs ++ ys)
All-append P [] ys h k = k
All-append P (x ∷ xs) ys (p, h) k = (p, All-append P xs ys h k)

-- What the scan holds of a field.
room : Mode → ℕ
room (plain buf) = 0
room (skipping buf) = 0
room (inside depth buf) = length buf

flush_text-Below : (L : ℕ) (buf : Text) → All (Below L) (flush_text buf)
unfolding flush_text Below
flush_text-Below L [] = tt
flush_text-Below L (c ∷ s) = (tt, tt)

end_field-Below : (L : ℕ) (buf : Text) → length buf < L → All (Below L) (end_field buf)
unfolding end_field Below
end_field-Below L buf h =
    if_split (All (Below L)) (is_empty (strip buf)) (λ e. tt)
      (λ e. (omega (arith, length-strip buf), tt))

scan_step-Below :
    (L : ℕ) (m : Mode) (c : ℕ) (s : Text)
    → room m < L
    → All (Below L) (scan_step m c s).1 × (room (scan_step m c s).0 ≤ suc (room m))
unfolding scan_step inside_step room
scan_step-Below L (plain buf) c s h = ground (arith, flush_text-Below L buf)
scan_step-Below L (skipping buf) c s h = ground arith
scan_step-Below L (inside depth buf) c s h =
    ground (arith, end_field-Below L buf, length-append buf (c ∷ []))

scan_end-Below : (L : ℕ) (m : Mode) → room m < L → All (Below L) (scan_end m)
unfolding scan_end room
scan_end-Below L (plain buf) h = flush_text-Below L buf
scan_end-Below L (skipping buf) h = flush_text-Below L buf
scan_end-Below L (inside depth buf) h = end_field-Below L buf h

scan-Below : (L : ℕ) (m : Mode) (s : Text) → room m + length s < L → All (Below L) (scan m s)
unfolding scan
scan-Below L m [] h = scan_end-Below L m (omega arith)
scan-Below L m (c ∷ s) h =
    let (done_pieces, grows) = scan_step-Below L m c s (omega arith) in
    All-append (Below L) (scan_step m c s).1 _ done_pieces
      (scan-Below L (scan_step m c s).0 s (omega arith))

-- A parser of fields that comes to an end on texts shorter than `L`.
pub record Answers {F : Type 0} (L : ℕ) (source : Text → Parsed (Expr F)) : Type 0 where
  pub at : (s : Text) → length s < L → source s ≢ starved

pub bind-ne-starved :
    {A B : Type 0} (r : Parsed A) (f : A → Parsed B)
    → r ≢ starved
    → ((a : A) → f a ≢ starved)
    → bind r f ≢ starved
bind-ne-starved (done a) f h next = next a
bind-ne-starved (failed e) f h next = cc
bind-ne-starved starved f h next = absurd (h refl)

or_text-ne-starved :
    {F : Type 0} (src : Text) (r : Parsed (Expr F)) → r ≢ starved → or_text src r ≢ starved
unfolding or_text
or_text-ne-starved src (done e) h = cc
or_text-ne-starved src (failed e) h = cc
or_text-ne-starved src starved h = h

module _ {F : Type 0} (source : Text → Parsed (Expr F)) {L : ℕ} (answers : Answers L source) where
  parts_of-ne-starved : (ps : List Piece) → All (Below L) ps → parts_of source ps ≢ starved
  unfolding parts_of Below
  parts_of-ne-starved [] h = cc
  parts_of-ne-starved (literal_piece s ∷ ps) (h, hs) =
      bind-ne-starved _ _ (parts_of-ne-starved ps hs) λ parts. cc
  parts_of-ne-starved (field_piece s ∷ ps) (h, hs) =
      bind-ne-starved _ _ (or_text-ne-starved s (source s) (answers.at s h))
        λ e. bind-ne-starved _ _ (parts_of-ne-starved ps hs) λ parts. cc

  with_parts :
      (n : ℕ) (template : Text) (ts : List Token) (r : Parsed (Parts F))
      → r ≢ starved
      → Within L n ts
      → Leaves L n (bind r λ parts. done (fstring template parts, ts))
  unfolding Leaves
  with_parts n template ts (done parts) h w = w
  with_parts n template ts (failed e) h w = tt
  with_parts n template ts starved h w = h refl

  pub parse_fstring_keeps :
      {n : ℕ} (template : Text)
      → length template < L
      → Bounded L n n (parse_fstring source template)
  unfolding parse_fstring room
  parse_fstring_keeps template h = record {
    at = λ ts w.
        with_parts _ template ts (parts_of source (scan (plain []) template))
          (parts_of-ne-starved (scan (plain []) template)
            (scan-Below L (plain []) template (omega arith)))
          w;
  }
