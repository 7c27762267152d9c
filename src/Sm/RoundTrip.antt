-- ===== src/Sm/RoundTrip.antt =====
-- Writing and reading the token stream of src/mellowlang/sm_codec.py.
use mathlib.Core.Option.{some-injective}
use mellow_programming_langu.Prelude.{
  ℕ, zero, suc, ◌+◌, ◌-◌, ◌≤◌, ◌<◌, ◌≡◌, refl, ap, ap₂, ◌∙◌, subst, inl, inr, true, false, Option,
  none, some, List, [], ◌∷◌, ◌++◌, arith, ltb, ◌==◌, if◌then◌else◌, if_split, Bool-cases, length,
  get_elem?, length-append, take, drop, take-append-drop, All,
}
use mellow_programming_langu.Text.{Text, text_eq}
use mellow_programming_langu.Text.Laws.{text_eq→eq}
use mellow_programming_langu.Sm.{
  Utf8, is_scalar, prepend_literal, later_of, index_of, insert_width, token_lengths, chosen, best,
  prepend, token_bytes, tokenize_from, tokenize, prepend_part, read_token, read_literal,
  detokenize_from, detokenize,
}

-- The entry at an index that is found is the chunk.
record IsEntry (chunk : Text) (i n : ℕ) (dictionary : List Text) : Type 0 where
  offset : ℕ
  shifted : n ≡ i + offset
  small : offset < length dictionary
  entry : get_elem? dictionary offset ≡ some chunk

index_of-here :
    (chunk : Text) (i n : ℕ) (tok : Text) (toks : List Text)
    → (if text_eq tok chunk then some i else none) ≡ some n
    → IsEntry chunk i n (tok ∷ toks)
index_of-here chunk i n tok toks h = elim (Bool-cases (text_eq tok chunk)) [
  | inl e ↦
      let p : i ≡ n = some-injective _ _ (rw e at h) in
      record {
        offset = 0;
        shifted = omega arith;
        small = omega arith;
        entry = ap (λ x. some x) (text_eq→eq tok chunk e);
      }
  | inr e ↦ let h' : none ≡ some n = rw e at h in absurd cc
]

index_of-later :
    (chunk : Text) (i n : ℕ) (tok : Text) (toks : List Text) (o : Option ℕ)
    → ((m : ℕ) → o ≡ some m → IsEntry chunk (suc i) m toks)
    → later_of o (if text_eq tok chunk then some i else none) ≡ some n
    → IsEntry chunk i n (tok ∷ toks)
unfolding later_of
index_of-later chunk i n tok toks none ih h = index_of-here chunk i n tok toks h
index_of-later chunk i n tok toks (some m) ih h =
    let r = ih n h in
    let s = r.shifted in
    let t = r.small in
    record { offset = suc r.offset; shifted = omega arith; small = omega arith; entry = r.entry }

index_of-IsEntry :
    (chunk : Text) (i n : ℕ) (dictionary : List Text)
    → index_of chunk i dictionary ≡ some n
    → IsEntry chunk i n dictionary
unfolding index_of
index_of-IsEntry chunk i n [] h = absurd cc
index_of-IsEntry chunk i n (tok ∷ toks) h =
    index_of-later chunk i n tok toks (index_of chunk (suc i) toks)
      (λ m e. index_of-IsEntry chunk (suc i) m toks e) h

abbrev AllPositive : List ℕ → Type 0
AllPositive [] = Unit
AllPositive (w ∷ ws) = (0 < w) × AllPositive ws

insert_width-AllPositive :
    (w : ℕ) (ws : List ℕ) → 0 < w → AllPositive ws → AllPositive (insert_width w ws)
unfolding insert_width
insert_width-AllPositive w [] p h = (p, tt)
insert_width-AllPositive w (v ∷ vs) p (q, h) =
    if_split AllPositive (ltb v w) (λ _. (p, (q, h)))
      (λ _.
        if_split AllPositive (w == v) (λ _. (q, h)) (λ _. (q, insert_width-AllPositive w vs p h)))

token_lengths-AllPositive : (toks : List Text) → AllPositive (token_lengths toks)
unfolding token_lengths
token_lengths-AllPositive [] = tt
token_lengths-AllPositive (tok ∷ toks) =
    if_split AllPositive (ltb 2 (length tok))
      (λ e.
        insert_width-AllPositive (length tok) (token_lengths toks) (ground arith)
          (token_lengths-AllPositive toks))
      (λ _. token_lengths-AllPositive toks)

-- A chunk that is chosen is a beginning of the text, not empty, and the entry at its index.
abbrev IsChunk : List Text → Text → Option (ℕ × ℕ) → Type 0
IsChunk dictionary s none = Unit
IsChunk dictionary s (some (idx, w)) =
    (0 < w) × (idx < length dictionary) × (get_elem? dictionary idx ≡ some (take w s))

chosen-IsChunk :
    (dictionary : List Text) (s : Text) (w : ℕ) (o : Option ℕ) (later : Option (ℕ × ℕ))
    → 0 < w
    → index_of (take w s) 0 dictionary ≡ o
    → IsChunk dictionary s later
    → IsChunk dictionary s (chosen w o later)
unfolding chosen
chosen-IsChunk dictionary s w none later p e h = h
chosen-IsChunk dictionary s w (some idx) later p e h =
    let r = index_of-IsEntry (take w s) 0 idx dictionary e in
    let q : r.offset ≡ idx = let t = r.shifted in omega arith in
    (
      p,
      subst (λ i. i < length dictionary) q r.small,
      subst (λ i. get_elem? dictionary i ≡ some (take w s)) q r.entry,
    )

best-IsChunk :
    (dictionary : List Text) (widths : List ℕ) (s : Text)
    → AllPositive widths
    → IsChunk dictionary s (best dictionary widths s)
unfolding best
best-IsChunk dictionary [] s h = tt
best-IsChunk dictionary (w ∷ ws) s (p, h) =
    if_split (IsChunk dictionary s) (ltb (length s) w) (λ _. best-IsChunk dictionary ws s h)
      (λ _.
        chosen-IsChunk dictionary s w (index_of (take w s) 0 dictionary) (best dictionary ws s) p
          refl (best-IsChunk dictionary ws s h))

take_all : {A : Type 0} (xs ys : List A) → take (length xs) (xs ++ ys) ≡ xs
take_all [] ys = refl
take_all (x ∷ xs) ys = ap (λ zs. x ∷ zs) (take_all xs ys)

drop_all : {A : Type 0} (xs ys : List A) → drop (length xs) (xs ++ ys) ≡ ys
drop_all [] ys = refl
drop_all (x ∷ xs) ys = drop_all xs ys

unfoldable pub IsScalar : ℕ → Type 0
IsScalar c = is_scalar c ≡ true

module _ (u : Utf8) (dictionary : List Text) where
  -- A stream that is there and that is read as the text, with enough fuel.
  record Reads (s : Text) (o : Option (List ℕ)) : Type 0 where
    stream : List ℕ
    made : o ≡ some stream
    reads : (fuel : ℕ) → length stream < fuel → detokenize_from u dictionary fuel stream ≡ some s

  read_literal_lem :
      (c : ℕ) (char : List ℕ) (s : Text) (bytes : List ℕ) (k : List ℕ → Option Text)
      → u.encode c ≡ some char
      → k bytes ≡ some s
      → read_literal u (length char) (char ++ bytes) k ≡ some (c ∷ s)
  unfolding read_literal
  read_literal_lem c char s bytes k encoded h =
      let p = u.encode_some c char encoded in
      let q = length-append char bytes in
      let e : (length char == 0) ≡ false = ground arith in
      let f : ltb (length (char ++ bytes)) (length char) ≡ false = ground arith in
      rw (e, f, take_all char bytes, drop_all char bytes, u.decode-encode c char encoded, h)
        (unfold prepend_part in unfold prepend in refl)

  marker_code : (n : ℕ) → n ≤ 4 → (n == 255) ≡ false
  marker_code n h = ground arith

  read_chunk :
      (idx : ℕ) (part s : Text) (bytes : List ℕ) (k : List ℕ → Option Text)
      → get_elem? dictionary idx ≡ some part
      → k bytes ≡ some s
      → read_token u dictionary (idx ∷ bytes) k ≡ some (part ++ s)
  unfolding read_token prepend_part prepend
  read_chunk idx part s bytes k e h = ap₂ (prepend_part u) e h

  after_literal :
      (c : ℕ) (char : List ℕ) (s : Text) (bytes : List ℕ) (fuel : ℕ)
      → u.encode c ≡ some char
      → ((fuel : ℕ) → length bytes < fuel → detokenize_from u dictionary fuel bytes ≡ some s)
      → suc (length (char ++ bytes)) < fuel
      → detokenize_from u dictionary fuel (length char ∷ char ++ bytes) ≡ some (c ∷ s)
  unfolding detokenize_from
  after_literal c char s bytes zero encoded h small = absurd (omega arith)
  after_literal c char s bytes (suc fuel) encoded h small =
      rw (marker_code (length char) (u.encode_short c char encoded)) (
        read_literal_lem c char s bytes (λ d. detokenize_from u dictionary fuel d) encoded
          (h fuel (omega (arith, length-append char bytes))))

  after_chunk :
      (idx : ℕ) (part s : Text) (bytes : List ℕ) (fuel : ℕ)
      → get_elem? dictionary idx ≡ some part
      → ((fuel : ℕ) → length bytes < fuel → detokenize_from u dictionary fuel bytes ≡ some s)
      → suc (suc (length bytes)) < fuel
      → detokenize_from u dictionary fuel (255 ∷ idx ∷ bytes) ≡ some (part ++ s)
  unfolding detokenize_from
  after_chunk idx part s bytes zero e h small = absurd (omega arith)
  after_chunk idx part s bytes (suc fuel) e h small =
      read_chunk idx part s bytes (λ d. detokenize_from u dictionary fuel d) e
        (h fuel (omega arith))

  literal-Reads :
      (c : ℕ) (s : Text) (o : Option (List ℕ))
      → IsScalar c
      → Reads s o
      → Reads (c ∷ s) (prepend_literal (u.encode c) o)
  unfolding prepend prepend_literal IsScalar
  literal-Reads c s o scalar r =
      let (char, encoded) = u.encode_scalar c scalar in
      record {
        stream = (length char ∷ char) ++ r.stream;
        made = ap₂ prepend_literal encoded r.made;
        reads = λ fuel small. after_literal c char s r.stream fuel encoded r.reads small;
      }

  chunk-Reads :
      (idx : ℕ) (part s : Text) (o : Option (List ℕ))
      → get_elem? dictionary idx ≡ some part
      → Reads s o
      → Reads (part ++ s) (prepend (255 ∷ idx ∷ []) o)
  unfolding prepend
  chunk-Reads idx part s o e r = record {
    stream = 255 ∷ idx ∷ r.stream;
    made = ap (prepend (255 ∷ idx ∷ [])) r.made;
    reads = λ fuel small. after_chunk idx part s r.stream fuel e r.reads small;
  }

  take-drop_pred : (w c : ℕ) (s : Text) → 0 < w → take w (c ∷ s) ++ drop (w - 1) s ≡ c ∷ s
  take-drop_pred zero c s p = absurd (omega arith)
  take-drop_pred (suc w) c s p =
      let e : suc w - 1 ≡ w = omega arith in
      ap (λ n. c ∷ take w s ++ drop n s) e ∙ ap (λ xs. c ∷ xs) (take-append-drop w s)

  token_bytes-Reads :
      (o : Option (ℕ × ℕ)) (c : ℕ) (s : Text) (k : ℕ → Option (List ℕ))
      → length dictionary ≤ 256
      → IsScalar c
      → IsChunk dictionary (c ∷ s) o
      → ((skip : ℕ) → Reads (drop skip s) (k skip))
      → Reads (c ∷ s) (token_bytes u o c k)
  unfolding token_bytes
  token_bytes-Reads none c s k small scalar h ih = literal-Reads c s (k 0) scalar (ih 0)
  token_bytes-Reads (some (idx, w)) c s k small scalar (p, lt, e) ih =
      let f : ltb idx 256 ≡ true = ground arith in
      rw f (
        subst (λ t. Reads t (prepend (255 ∷ idx ∷ []) (k (w - 1)))) (take-drop_pred w c s p)
          (chunk-Reads idx (take w (c ∷ s)) (drop (w - 1) s) (k (w - 1)) e (ih (w - 1))))

  read_end : (fuel : ℕ) → 0 < fuel → detokenize_from u dictionary fuel [] ≡ some []
  unfolding detokenize_from
  read_end zero p = absurd (omega arith)
  read_end (suc fuel) p = refl

  empty-Reads : Reads [] (some [])
  empty-Reads = record { stream = []; made = refl; reads = read_end }

  tokenize_from-Reads :
      (widths : List ℕ) (skip : ℕ) (s : Text)
      → length dictionary ≤ 256
      → AllPositive widths
      → All IsScalar s
      → Reads (drop skip s) (tokenize_from u dictionary widths skip s)
  unfolding tokenize_from
  tokenize_from-Reads widths zero [] small h all = empty-Reads
  tokenize_from-Reads widths (suc skip) [] small h all = empty-Reads
  tokenize_from-Reads widths (suc skip) (c ∷ s) small h (scalar, all) =
      tokenize_from-Reads widths skip s small h all
  tokenize_from-Reads widths zero (c ∷ s) small h (scalar, all) =
      token_bytes-Reads (best dictionary widths (c ∷ s)) c s
        (λ k. tokenize_from u dictionary widths k s) small scalar
        (best-IsChunk dictionary widths (c ∷ s) h)
        (λ skip. tokenize_from-Reads widths skip s small h all)

  -- A text without surrogates has a token stream for every dictionary of at most 256 entries, and
  -- reading the stream back with the dictionary gives the text.
  pub detokenize-tokenize :
      (text : Text)
      → length dictionary ≤ 256
      → All IsScalar text
      → (stream : List ℕ) × (tokenize u text dictionary ≡ some stream)
        × (detokenize u stream dictionary ≡ some text)
  unfolding tokenize detokenize
  detokenize-tokenize text small all =
      let r =
        tokenize_from-Reads (token_lengths dictionary) 0 text small
          (token_lengths-AllPositive dictionary) all in
      (r.stream, r.made, r.reads (suc (length r.stream)) (omega arith))
