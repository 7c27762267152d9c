-- ===== src/Sm.antt =====
-- src/mellowlang/sm_codec.py: the token stream of the fallback codec, with bytes as numbers.
mod RoundTrip
mod Tests
use mellow_programming_langu.Prelude.{
  ℕ, zero, suc, ◌-◌, ◌≤◌, ◌<◌, ◌≡◌, Bool, true, ◌&&◌, ◌||◌, Option, none, some, List, [], ◌∷◌, ◌++◌,
  ltb, leb, ◌==◌, if◌then◌else◌, length, get_elem?, take, drop,
}
use mellow_programming_langu.Text.{Text, text_eq}

-- A code point that UTF-8 writes: one of Unicode that is no surrogate.
abbrev pub is_scalar : ℕ → Bool
is_scalar c = ltb c 55296 || (leb 57344 c && ltb c 1114112)

-- What Python's UTF-8 does to one character: a few bytes, from which it is read back, or `none`,
-- the `UnicodeEncodeError` of a surrogate.
pub record Utf8 : Type 0 where
  pub encode : ℕ → Option (List ℕ)
  pub decode : List ℕ → Option Text
  pub encode_scalar : (c : ℕ) → is_scalar c ≡ true → (bytes : List ℕ) × (encode c ≡ some bytes)
  pub encode_some : (c : ℕ) (bytes : List ℕ) → encode c ≡ some bytes → 0 < length bytes
  pub encode_short : (c : ℕ) (bytes : List ℕ) → encode c ≡ some bytes → length bytes ≤ 4
  pub decode-encode :
      (c : ℕ) (bytes : List ℕ) → encode c ≡ some bytes → decode bytes ≡ some (c ∷ [])

pub later_of : Option ℕ → Option ℕ → Option ℕ
later_of none o = o
later_of (some j) o = some j

-- `token_to_id.get(chunk)`, for the entries from the index `i` on; the last entry counts.
pub index_of : Text → ℕ → List Text → Option ℕ
unfolding text_eq later_of
index_of chunk i [] = none
index_of chunk i (tok ∷ toks) =
    later_of (index_of chunk (suc i) toks) (if text_eq tok chunk then some i else none)

-- A width in front of the smaller ones, once.
pub insert_width : ℕ → List ℕ → List ℕ
insert_width w [] = w ∷ []
insert_width w (v ∷ vs) =
    let rest = insert_width w vs in
    if ltb v w then w ∷ v ∷ vs else if w == v then v ∷ vs else v ∷ rest

-- `sorted({len(tok) for tok in dictionary if len(tok) > 2}, reverse=True)`
pub token_lengths : List Text → List ℕ
unfolding insert_width
token_lengths [] = []
token_lengths (tok ∷ toks) =
    let rest = token_lengths toks in
    if ltb 2 (length tok) then insert_width (length tok) rest else rest

-- The index and the width of a chunk that is found, or what comes later.
pub chosen : ℕ → Option ℕ → Option (ℕ × ℕ) → Option (ℕ × ℕ)
chosen width none later = later
chosen width (some idx) later = some (idx, width)

-- The loop over the widths, at the rest of the text.
pub best : List Text → List ℕ → Text → Option (ℕ × ℕ)
unfolding index_of chosen
best dictionary [] s = none
best dictionary (width ∷ widths) s =
    let later = best dictionary widths s in
    if ltb (length s) width
    then later
    else chosen width (index_of (take width s) 0 dictionary) later

-- Bytes in front of the stream; `none` is the `ValueError` of a byte that is too large.
pub prepend : {A : Type 0} → List A → Option (List A) → Option (List A)
prepend bytes none = none
prepend bytes (some stream) = some (bytes ++ stream)

-- A character behind the number of its bytes; `none` is the `UnicodeEncodeError`, a `ValueError`,
-- too.
pub prepend_literal : Option (List ℕ) → Option (List ℕ) → Option (List ℕ)
unfolding prepend
prepend_literal none stream = none
prepend_literal (some bytes) stream = prepend (length bytes ∷ bytes) stream

module _ (u : Utf8) where
  -- One round of the loop of `_tokenize` at the character `c`; `k` goes on behind so many more
  -- characters.
  pub token_bytes : Option (ℕ × ℕ) → ℕ → (ℕ → Option (List ℕ)) → Option (List ℕ)
  unfolding prepend prepend_literal
  token_bytes none c k = prepend_literal (u.encode c) (k 0)
  token_bytes (some (idx, width)) c k =
      if ltb idx 256 then prepend (255 ∷ idx ∷ []) (k (width - 1)) else none

  -- The loop; `skip` counts the characters of a token that is written already.
  pub tokenize_from : List Text → List ℕ → ℕ → Text → Option (List ℕ)
  unfolding token_bytes best
  tokenize_from dictionary widths skip [] = some []
  tokenize_from dictionary widths (suc skip) (c ∷ s) = tokenize_from dictionary widths skip s
  tokenize_from dictionary widths zero (c ∷ s) =
      token_bytes (best dictionary widths (c ∷ s)) c (λ k. tokenize_from dictionary widths k s)

  pub tokenize : Text → List Text → Option (List ℕ)
  unfolding tokenize_from token_lengths
  tokenize text dictionary = tokenize_from dictionary (token_lengths dictionary) 0 text

  pub prepend_part : Option Text → Option Text → Option Text
  unfolding prepend
  prepend_part none later = none
  prepend_part (some part) later = prepend part later

  -- A token, at the bytes behind its marker.
  pub read_token : List Text → List ℕ → (List ℕ → Option Text) → Option Text
  unfolding prepend_part
  read_token dictionary [] k = none
  read_token dictionary (idx ∷ bytes) k = prepend_part (get_elem? dictionary idx) (k bytes)

  pub read_literal : ℕ → List ℕ → (List ℕ → Option Text) → Option Text
  unfolding prepend_part
  read_literal marker bytes k =
      if marker == 0
      then none
      else if ltb (length bytes) marker
      then none
      else prepend_part (u.decode (take marker bytes)) (k (drop marker bytes))

  -- The loop of `_detokenize`; `none` is a `ValueError`, or fuel that ran out.
  pub detokenize_from : List Text → ℕ → List ℕ → Option Text
  unfolding read_token read_literal
  detokenize_from dictionary zero bytes = none
  detokenize_from dictionary (suc fuel) [] = some []
  detokenize_from dictionary (suc fuel) (marker ∷ bytes) =
      let token = read_token dictionary bytes (λ d. detokenize_from dictionary fuel d) in
      let literal = read_literal marker bytes (λ d. detokenize_from dictionary fuel d) in
      if marker == 255 then token else literal

  pub detokenize : List ℕ → List Text → Option Text
  unfolding detokenize_from
  detokenize bytes dictionary = detokenize_from dictionary (suc (length bytes)) bytes
