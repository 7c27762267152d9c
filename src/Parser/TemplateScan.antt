-- ===== src/Parser/TemplateScan.antt =====
-- The pieces of a template that `_parse_fstring` of src/mellowlang/parsing/expression_atoms.py scans.
use mellow_programming_langu.Prelude.{
  ℕ, ◌≡◌, refl, sym, ap, ap₂, ◌∙◌, ◌⊎◌, inl, inr, false, List, [], ◌∷◌, ◌++◌, append-nil,
  append_assoc, ◌==◌, if◌then◌else◌, ==_iff, Bool-cases, All,
}
use mellow_programming_langu.Text.{Text, strip, is_empty}
use mellow_programming_langu.Parser.Templates.{
  Piece, literal_piece, field_piece, plain, inside, flush_text, end_field, starts_with_brace,
  inside_step, scan_step, scan_end, scan,
}

-- Literal text as it is written: a closing brace twice.
unfoldable pub doubled : Text → Text
doubled [] = []
doubled (c ∷ s) = (if c == b'}' then b'}' ∷ b'}' ∷ [] else c ∷ []) ++ doubled s

-- Fields, each behind its literal text, and the text behind the last.
unfoldable pub template : List (Text × Text) → Text → Text
unfolding doubled
template [] last = doubled last
template ((text, src) ∷ fields) last = doubled text ++ b'{' ∷ (src ++ b'}' ∷ template fields last)

-- A literal text as a piece, and no piece where it is empty.
unfoldable pub literal_pieces : Text → List Piece
literal_pieces text = if is_empty text then [] else literal_piece text ∷ []

-- A field as the piece of its stripped source, and no piece where nothing is left of it.
unfoldable pub field_pieces : Text → List Piece
field_pieces src = let s = strip src in if is_empty s then [] else field_piece s ∷ []

unfoldable pub pieces : List (Text × Text) → Text → List Piece
unfolding literal_pieces field_pieces
pieces [] last = literal_pieces last
pieces ((text, src) ∷ fields) last = literal_pieces text ++ (field_pieces src ++ pieces fields last)

flush_text-literal_pieces : (text : Text) → flush_text text ≡ literal_pieces text
unfolding flush_text literal_pieces
flush_text-literal_pieces [] = refl
flush_text-literal_pieces (c ∷ s) = refl

end_field-field_pieces : (src : Text) → end_field src ≡ field_pieces src
unfolding end_field field_pieces
end_field-field_pieces src = refl

unfoldable pub NoOpening : ℕ → Type 0
NoOpening c = (c == b'{') ≡ false

unfoldable pub NoBrace : ℕ → Type 0
NoBrace c = ((c == b'{') ≡ false) × ((c == b'}') ≡ false)

scan-plain :
    (c : ℕ) (buf rest : Text)
    → (c == b'{') ≡ false
    → (c == b'}') ≡ false
    → scan (plain buf) (c ∷ rest) ≡ scan (plain (buf ++ c ∷ [])) rest
unfolding scan scan_step
scan-plain c buf rest h k = rw (h, k)

scan-closing :
    (buf rest : Text) → scan (plain buf) (b'}' ∷ b'}' ∷ rest) ≡ scan (plain (buf ++ b'}' ∷ [])) rest
unfolding scan scan_step starts_with_brace
scan-closing buf rest = refl

scan-inside :
    (c : ℕ) (buf rest : Text)
    → NoBrace c
    → scan (inside 1 buf) (c ∷ rest) ≡ scan (inside 1 (buf ++ c ∷ [])) rest
unfolding scan scan_step inside_step NoBrace
scan-inside c buf rest (h, k) = rw (h, k)

scan-opening :
    (buf rest : Text) → scan (plain buf) (b'{' ∷ rest) ≡ flush_text buf ++ scan (inside 1 []) rest
unfolding scan scan_step
scan-opening buf rest = refl

scan_at_end : (buf : Text) → scan (plain buf) [] ≡ flush_text buf
unfolding scan scan_end
scan_at_end buf = refl

doubled_cases :
    (c : ℕ) (s : Text)
    → ((c ≡ b'}') × (doubled (c ∷ s) ≡ b'}' ∷ b'}' ∷ doubled s))
      ⊎ (((c == b'}') ≡ false) × (doubled (c ∷ s) ≡ c ∷ doubled s))
unfolding doubled
doubled_cases c s = elim (Bool-cases (c == b'}')) [
  | inl e ↦ inl ((==_iff c b'}').0 e, rw e refl)
  | inr e ↦ inr (e, rw e refl)
]

scan-doubled :
    (s buf rest : Text)
    → All NoOpening s
    → scan (plain buf) (doubled s ++ rest) ≡ scan (plain (buf ++ s)) rest
unfolding NoOpening
scan-doubled [] buf rest h = unfold doubled in ap (λ t. scan (plain t) rest) (sym (append-nil buf))
scan-doubled (c ∷ s) buf rest (h, hs) =
    let more : scan (plain (buf ++ c ∷ [])) (doubled s ++ rest) ≡ scan (plain (buf ++ c ∷ s)) rest =
      scan-doubled s (buf ++ c ∷ []) rest hs
      ∙ ap (λ t. scan (plain t) rest) (append_assoc buf (c ∷ []) s) in
    elim (doubled_cases c s) [
      | inl (is_closing, e) ↦
          ap (λ t. scan (plain buf) (t ++ rest)) e
          ∙ scan-closing buf (doubled s ++ rest)
          ∙ ap (λ d. scan (plain (buf ++ d ∷ [])) (doubled s ++ rest)) (sym is_closing)
          ∙ more
      | inr (k, e) ↦
          ap (λ t. scan (plain buf) (t ++ rest)) e ∙ scan-plain c buf (doubled s ++ rest) h k ∙ more
    ]

scan-field :
    (s buf rest : Text)
    → All NoBrace s
    → scan (inside 1 buf) (s ++ b'}' ∷ rest) ≡ end_field (buf ++ s) ++ scan (plain []) rest
scan-field [] buf rest h =
    unfold scan scan_step inside_step in
    ap (λ t. end_field t ++ scan (plain []) rest) (sym (append-nil buf))
scan-field (c ∷ s) buf rest (h, hs) =
    scan-inside c buf (s ++ b'}' ∷ rest) h
    ∙ scan-field s (buf ++ c ∷ []) rest hs
    ∙ ap (λ t. end_field t ++ scan (plain []) rest) (append_assoc buf (c ∷ []) s)

unfoldable pub WellWritten : Text × Text → Type 0
WellWritten (text, src) = All NoOpening text × All NoBrace src

-- A template of literal texts, each closing brace in them doubled and no opening one, and of fields
-- without braces is scanned into these texts and the stripped fields, without the empty ones.
pub scan-template :
    (fields : List (Text × Text)) (last : Text)
    → All WellWritten fields
    → All NoOpening last
    → scan (plain []) (template fields last) ≡ pieces fields last
unfolding template pieces WellWritten
scan-template [] last h k =
    ap (scan (plain [])) (sym (append-nil (doubled last)))
    ∙ scan-doubled last [] [] k
    ∙ scan_at_end last
    ∙ flush_text-literal_pieces last
scan-template ((text, src) ∷ fields) last ((h, h'), hs) k =
    scan-doubled text [] (b'{' ∷ (src ++ b'}' ∷ template fields last)) h
    ∙ scan-opening text (src ++ b'}' ∷ template fields last)
    ∙ ap₂ ◌++◌ (flush_text-literal_pieces text) (
        scan-field src [] (template fields last) h'
        ∙ ap₂ ◌++◌ (end_field-field_pieces src) (scan-template fields last hs k))
