-- ===== src/LineText/Assign.antt =====
-- `_split_top_level_assign` of src/mellowlang/parsing/line_text.py.
use mellow_programming_langu.Prelude.{
  ℕ, ◌≡◌, refl, ap, inl, inr, Bool, true, false, not, ◌&&◌, ◌||◌, Option, none, some, [], ◌∷◌, ◌++◌,
  append-nil, append_assoc, arith, ◌==◌, if◌then◌else◌, Bool-cases,
}
use mellow_programming_langu.Text.{Text, codes, strip, is_empty, starts_with}
use mellow_programming_langu.LineText.{
  is_comparison_start, assign_parts, assign, split_top_level_assign,
}
use mellow_programming_langu.LineText.Scan.{Scan, start, step, run, at_top, depth_after}

-- The first character of `==`, `!=`, `>=` or `<=`.
unfoldable pub begins_comparison : Option ℕ → Bool
begins_comparison none = false
begins_comparison (some c) = c == b'=' || (c == b'!' || (c == b'>' || c == b'<'))

begins_comparison_lem : (prev : Option ℕ) → is_comparison_start prev ≡ begins_comparison prev
unfolding is_comparison_start begins_comparison
begins_comparison_lem none = refl
begins_comparison_lem (some c) = ground arith

-- The sign that the loop splits at: no comparison sign before it, no '=' behind it.
unfoldable pub is_plain : Option ℕ → Text → Bool
unfolding begins_comparison starts_with
is_plain prev s = not (begins_comparison prev) && not (starts_with (codes "=") s)

assign-step :
    (before : Text) (prev : Option ℕ) (st : Scan) (ch : ℕ) (s : Text)
    → assign before prev st.depth st.in_str st.esc (ch ∷ s) ≡ (
        if at_top st && (ch == b'=' && is_plain prev s)
        then assign_parts before s
        else let st' = step st ch in
          assign (before ++ ch ∷ []) (some ch) st'.depth st'.in_str st'.esc s)
unfolding assign step depth_after is_plain
assign-step before prev st ch s = ground (arith, begins_comparison_lem prev)

-- The last character of the text, or `prev` where it is empty.
unfoldable pub last_of : Option ℕ → Text → Option ℕ
last_of prev [] = prev
last_of prev (ch ∷ s) = last_of (some ch) s

-- A split of `s` at an assignment sign at top level, with the two sides of the result.
pub record SplitAt (st : Scan) (prev : Option ℕ) (s : Text) (a b : Text) : Type 0 where
  pub whole : s ≡ a ++ b'=' ∷ b
  pub top : at_top (run st a) ≡ true
  pub plain : is_plain (last_of prev a) b ≡ true

SplitAt-cons :
    (st : Scan) (prev : Option ℕ) (ch : ℕ) (s a b : Text)
    → SplitAt (step st ch) (some ch) s a b
    → SplitAt st prev (ch ∷ s) (ch ∷ a) b
unfolding run last_of
SplitAt-cons st prev ch s a b h = record {
  whole = ap (◌∷◌ ch) h.whole;
  top = h.top;
  plain = h.plain;
}

SplitAt-here :
    (st : Scan) (prev : Option ℕ) (ch : ℕ) (s : Text)
    → (at_top st && (ch == b'=' && is_plain prev s)) ≡ true
    → SplitAt st prev (ch ∷ s) [] s
unfolding run last_of
SplitAt-here st prev ch s h = ground arith

assign_sound :
    (before : Text) (prev : Option ℕ) (st : Scan) (s : Text) (r : Text × Text)
    → assign before prev st.depth st.in_str st.esc s ≡ some r
    → (a : Text) × (b : Text) × SplitAt st prev s a b × (assign_parts (before ++ a) b ≡ some r)
assign_sound before prev st [] r h = unfold assign in cc
assign_sound before prev st (ch ∷ s) r h =
    elim (Bool-cases (at_top st && (ch == b'=' && is_plain prev s))) [
      | inl here ↦ (
        [],
        s,
        SplitAt-here st prev ch s here,
        rw append-nil (ground (arith, assign-step before prev st ch s)),
      )
      | inr later ↦
          let (a, b, split, e) =
            assign_sound (before ++ ch ∷ []) (some ch) (step st ch) s r
              (ground (arith, assign-step before prev st ch s)) in
          (ch ∷ a, b, SplitAt-cons st prev ch s a b split, rw append_assoc at e)
    ]

-- A result is the two sides, trimmed and not empty, of an `=` outside double-quoted strings,
-- brackets and escapes, which is no part of `==`, `!=`, `<=` or `>=`. A string in single quotes is
-- text like any other: a sign inside it can be the one.
pub split_top_level_assign_sound :
    (s lhs rhs : Text)
    → split_top_level_assign s ≡ some (lhs, rhs)
    → (a : Text) × (b : Text) × SplitAt start none s a b
      × (lhs ≡ strip a)
      × (rhs ≡ strip b)
      × (is_empty lhs ≡ false)
      × (is_empty rhs ≡ false)
unfolding split_top_level_assign assign_parts
split_top_level_assign_sound s lhs rhs h =
    let (a, b, split, e) = assign_sound [] none start s (lhs, rhs) h in
    (a, b, split, ground arith, ground arith, ground arith, ground arith)

-- No `=` of the text is a plain one at top level, where `tail` goes on behind the text.
unfoldable pub lacks_plain : Option ℕ → Scan → Text → Text → Bool
lacks_plain prev st [] tail = true
lacks_plain prev st (ch ∷ s) tail =
    not (at_top st && (ch == b'=' && is_plain prev (s ++ tail)))
    && lacks_plain (some ch) (step st ch) s tail

assign-append :
    (before : Text) (prev : Option ℕ) (st : Scan) (a b : Text)
    → lacks_plain prev st a (b'=' ∷ b) ≡ true
    → at_top (run st a) ≡ true
    → is_plain (last_of prev a) b ≡ true
    → assign before prev st.depth st.in_str st.esc (a ++ b'=' ∷ b) ≡ assign_parts (before ++ a) b
unfolding run lacks_plain last_of
assign-append before prev st [] b lacks top plain =
    rw append-nil (ground (arith, assign-step before prev st b'=' b))
assign-append before prev st (ch ∷ a) b lacks top plain = ground (
  arith,
  assign-step before prev st ch (a ++ b'=' ∷ b),
  assign-append (before ++ ch ∷ []) (some ch) (step st ch) a b,
  append_assoc before (ch ∷ []) a,
)

-- The first plain `=` outside double-quoted strings, brackets and escapes decides, whatever
-- comparison signs stand before it: both sides are returned, trimmed, or nothing is, when a side is
-- empty. A quotation mark is double; a string in single quotes is text like any other.
pub split_top_level_assign_first :
    (a b : Text)
    → lacks_plain none start a (b'=' ∷ b) ≡ true
    → at_top (run start a) ≡ true
    → is_plain (last_of none a) b ≡ true
    → split_top_level_assign (a ++ b'=' ∷ b)
      ≡ (if is_empty (strip a) || is_empty (strip b) then none else some (strip a, strip b))
unfolding split_top_level_assign assign_parts
split_top_level_assign_first a b lacks top plain = assign-append [] none start a b lacks top plain
