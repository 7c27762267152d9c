-- ===== src/LineText/Commas.antt =====
-- `_split_top_level_commas` of src/mellowlang/parsing/line_text.py on joined parts.
use mellow_programming_langu.Prelude.{◌≡◌, true, List, [], ◌∷◌, if◌then◌else◌}
use mellow_programming_langu.Text.{Text, strip, is_empty}
use mellow_programming_langu.LineText.Scan.{Scan, start, run, lacks_top}

-- A part that a comma may follow: it ends outside strings and brackets, and has no comma there.
abbrev pub IsPart : Text → Type 0
IsPart p = (run start p ≡ start) × (lacks_top b',' start p ≡ true)

abbrev pub AllParts : List Text → Type 0
AllParts [] = Unit
AllParts (p ∷ ps) = IsPart p × AllParts ps

-- The parts without the white space around them, those of nothing else left out.
unfoldable pub trimmed : List Text → List Text
trimmed [] = []
trimmed (p ∷ ps) = if is_empty (strip p) then trimmed ps else strip p ∷ trimmed ps
