-- ===== src/LineText/Aliases.antt =====
-- `_rewrite_modern_aliases` of src/mellowlang/parsing/line_text.py.
use mellow_programming_langu.Prelude.{
  ℕ, suc, ◌-◌, ◌≡◌, refl, sym, ap, ap₂, ◌∙◌, subst, ◌⊎◌, inl, inr, Bool, true, false, List, [], ◌∷◌,
  ◌++◌, map, arith, if◌then◌else◌, Bool-cases, length, length-append, take, drop,
}
use mellow_programming_langu.Text.{Text, codes, is_space, lstrip, starts_with}
use mellow_programming_langu.LineText.{
  alias_of, indent_of, rewrite_line, rewrite_modern_aliases, without_colon, is_verbatim, is_let,
  is_def, is_fn, is_function, is_while, is_for,
}

abbrev AllSpace : Text → Type 0
AllSpace [] = Unit
AllSpace (c ∷ s) = (is_space c ≡ true) × AllSpace s

lstrip-append : (w s : Text) → AllSpace w → lstrip (w ++ s) ≡ lstrip s
unfolding lstrip
lstrip-append [] s h = refl
lstrip-append (c ∷ w) s (hc, h) = rw hc (lstrip-append w s h)

-- A line is its indentation, all white space, and the rest.
lstrip_split : (line : Text) → (w : Text) × AllSpace w × (line ≡ w ++ lstrip line)
unfolding lstrip
lstrip_split [] = ([], tt, refl)
lstrip_split (c ∷ s) = elim (Bool-cases (is_space c)) [
  | inl e ↦ let (w, h, p) = lstrip_split s in (c ∷ w, (e, h), rw e (ap (◌∷◌ c) p))
  | inr e ↦ ([], tt, rw e)
]

take-length : (w s : Text) → take (length w) (w ++ s) ≡ w
take-length [] s = refl
take-length (c ∷ w) s = ap (◌∷◌ c) (take-length w s)

indent_length : (w s : Text) → length (w ++ s) - length s ≡ length w
indent_length w s = omega (arith, length-append w s)

-- Text behind white space, whose first character is none.
indent_of-append :
    (w : Text) (c : ℕ) (t : Text) → AllSpace w → is_space c ≡ false → indent_of (w ++ c ∷ t) ≡ w
unfolding indent_of lstrip
indent_of-append w c t h hc =
    rw (lstrip-append w (c ∷ t) h, hc, indent_length w (c ∷ t)) (take-length w (c ∷ t))

lstrip_solid :
    (w : Text) (c : ℕ) (t : Text) → AllSpace w → is_space c ≡ false → lstrip (w ++ c ∷ t) ≡ c ∷ t
lstrip_solid w c t h hc = lstrip-append w (c ∷ t) h ∙ unfold lstrip in rw hc

-- A line that the rewriting leaves alone at its first word.
record IsRenamed (indent r : Text) : Type 0 where
  first : ℕ
  rest : Text
  solid : is_space first ≡ false
  shape : r ≡ indent ++ first ∷ rest
  kept : (raw ind : Text) → alias_of raw ind (first ∷ rest) ≡ raw

keep-IsRenamed : (indent t : Text) → IsRenamed indent (indent ++ (codes "keep " ++ t))
unfolding alias_of is_space starts_with
keep-IsRenamed indent t = record {
  first = b'k';
  rest = codes "eep " ++ t;
  solid = refl;
  shape = refl;
  kept = λ raw ind. refl;
}

skill-IsRenamed : (indent t : Text) → IsRenamed indent (indent ++ (codes "skill " ++ t))
unfolding alias_of is_space starts_with
skill-IsRenamed indent t = record {
  first = b's';
  rest = codes "kill " ++ t;
  solid = refl;
  shape = refl;
  kept = λ raw ind. refl;
}

loop-IsRenamed : (indent t : Text) → IsRenamed indent (indent ++ (codes "loop " ++ t))
unfolding alias_of is_space starts_with
loop-IsRenamed indent t = record {
  first = b'l';
  rest = codes "oop " ++ t;
  solid = refl;
  shape = refl;
  kept = λ raw ind. refl;
}

if_cases {ℓ κ} :
    {A : Type ℓ} (P : A → Type κ) (b : Bool) {x y : A} → P x → P y → P (if b then x else y)
if_cases P true px py = px
if_cases P false px py = py

alias_of_cases :
    (raw indent s : Text) → (alias_of raw indent s ≡ raw) ⊎ IsRenamed indent (alias_of raw indent s)
unfolding alias_of
alias_of_cases raw indent s =
    let P : Text → Type 0 = λ r. (r ≡ raw) ⊎ IsRenamed indent r in
    let keep : (t : Text) → P (indent ++ (codes "keep " ++ t)) =
      λ t. inr (keep-IsRenamed indent t) in
    let skill : (t : Text) → P (indent ++ (codes "skill " ++ t)) =
      λ t. inr (skill-IsRenamed indent t) in
    let loop : (t : Text) → P (indent ++ (codes "loop " ++ t)) =
      λ t. inr (loop-IsRenamed indent t) in
    if_cases P (is_verbatim s) (inl refl) (
      if_cases P (is_let s) (keep (drop 4 s)) (
        if_cases P (is_def s) (skill (drop 4 s)) (
          if_cases P (is_fn s) (skill (drop 3 s)) (
            if_cases P (is_function s) (skill (drop 9 s)) (
              if_cases P (is_while s) (loop (codes "(" ++ (without_colon (drop 6 s) ++ codes "):")))
                (if_cases P (is_for s) (loop (without_colon (drop 4 s) ++ codes ":"))
                  (inl refl)))))))

indent_of_lem :
    (line : Text) → (w : Text) × AllSpace w × (indent_of line ≡ w) × (line ≡ w ++ lstrip line)
unfolding indent_of
indent_of_lem line =
    let (w, h, p) = lstrip_split line in
    (
      w,
      h,
      ap (λ (t : Text). take (length t - length (lstrip line)) t) p
          ∙ rw (indent_length w (lstrip line)) (take-length w (lstrip line)),
      p,
    )

rewrite_line_cases :
    (line : Text)
    → (rewrite_line line ≡ line)
      ⊎ ((w : Text) × AllSpace w × (indent_of line ≡ w) × IsRenamed w (rewrite_line line))
unfolding rewrite_line
rewrite_line_cases line =
    let (w, h, e, _) = indent_of_lem line in
    elim (alias_of_cases line (indent_of line) (lstrip line)) [
      | inl same ↦ inl same
      | inr n ↦ inr (w, h, e, subst (λ (i : Text). IsRenamed i (rewrite_line line)) e n)
    ]

renamed_kept : (w r : Text) → AllSpace w → IsRenamed w r → (rewrite_line r ≡ r) × (indent_of r ≡ w)
unfolding rewrite_line
renamed_kept w r h n =
    let e : lstrip r ≡ n.first ∷ n.rest =
      ap lstrip n.shape ∙ lstrip_solid w n.first n.rest h n.solid in
    (
      ap (alias_of r (indent_of r)) e ∙ n.kept r (indent_of r),
      ap indent_of n.shape ∙ indent_of-append w n.first n.rest h n.solid,
    )

-- A rewritten line has the indentation of the line, and rewriting it again changes nothing.
pub rewrite_line_stable :
    (line : Text)
    → (rewrite_line (rewrite_line line) ≡ rewrite_line line)
      × (indent_of (rewrite_line line) ≡ indent_of line)
rewrite_line_stable line = elim (rewrite_line_cases line) [
  | inl same ↦ (ap rewrite_line same, ap indent_of same)
  | inr (w, h, e, n) ↦
      let (kept, indent) = renamed_kept w (rewrite_line line) h n in (kept, indent ∙ sym e)
]

-- The rewriting of a whole source keeps the number of lines, the indentation of each, and changes
-- nothing when it is applied a second time.
pub rewrite_modern_aliases_stable :
    (lines : List Text)
    → (length (rewrite_modern_aliases lines) ≡ length lines)
      × (map indent_of (rewrite_modern_aliases lines) ≡ map indent_of lines)
      × (rewrite_modern_aliases (rewrite_modern_aliases lines) ≡ rewrite_modern_aliases lines)
unfolding rewrite_modern_aliases
rewrite_modern_aliases_stable [] = (refl, refl, refl)
rewrite_modern_aliases_stable (line ∷ lines) =
    let (n, i, e) = rewrite_modern_aliases_stable lines in
    let (e', i') = rewrite_line_stable line in (ap suc n, ap₂ ◌∷◌ i' i, ap₂ ◌∷◌ e' e)
