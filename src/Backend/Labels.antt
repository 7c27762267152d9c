-- ===== src/Backend/Labels.antt =====
-- The labels of src/mellowlang/compiler/bytecode_backend.py and their addresses.
use mathlib.Core.Option.{some-injective}
use mellow_programming_langu.Prelude.{
  ℕ, suc, ◌+◌, ◌≡◌, refl, sym, ap, ◌∙◌, ◌⊎◌, inl, inr, true, false, none, some, List, [], ◌∷◌, ◌++◌,
  arith, if◌then◌else◌, Bool-cases, Option-cases, length, drop,
}
use mellow_programming_langu.Text.{Text}
use mellow_programming_langu.Text.Laws.{text_eq→eq}
use mellow_programming_langu.Dict.{find, put, find-put_cases}
use mellow_programming_langu.Backend.{
  IrInstruction, IrProgram, Function, BackendError, BytecodeBundle, Emitted, both, is_label,
  first_arg, collect_labels, emit_instruction, emitted, emit_all, table, bundle, lower_with, lower,
}

both_cases :
    {A : Type 0} (r : BackendError ⊎ A) (rs : BackendError ⊎ List A) (xs : List A)
    → both r rs ≡ inr xs
    → (x : A) × (xs' : List A) × (rs ≡ inr xs') × (x ∷ xs' ≡ xs)
unfolding both
both_cases (inl e) rs xs h = absurd cc
both_cases (inr x) (inl e) xs h = absurd cc
both_cases (inr x) (inr xs') xs h = (x, xs', refl, cc)

module _ {A : Type 0} (str repr : A → Text) where
  -- How many instructions are code.
  code_count : List (IrInstruction A) → ℕ
  code_count [] = 0
  code_count (ins ∷ rest) = (if is_label str repr ins then 0 else 1) + code_count rest

  -- A place of a label with the name in the instructions.
  pub record Place (name : Text) (instructions : List (IrInstruction A)) : Type 0 where
    pub before : List (IrInstruction A)
    pub label : IrInstruction A
    pub after : List (IrInstruction A)
    pub arg : A
    pub split : before ++ label ∷ after ≡ instructions
    pub labelled : is_label str repr label ≡ true
    pub first : first_arg str repr label.args ≡ some arg
    pub named : str arg ≡ name

  place_later :
      (name : Text) (ins : IrInstruction A) (rest : List (IrInstruction A))
      → Place name rest
      → Place name (ins ∷ rest)
  place_later name ins rest p = record {
    before = ins ∷ p.before;
    label = p.label;
    after = p.after;
    arg = p.arg;
    split = ap (λ xs. ins ∷ xs) p.split;
    labelled = p.labelled;
    first = p.first;
    named = p.named;
  }

  -- A label that the first loop finds was there before, or stands at a place with that much code
  -- in front of it.
  abbrev Found : Text → ℕ → ℕ → List (Text × ℕ) → List (IrInstruction A) → Type 0
  Found name n pc labels instructions =
      (find name labels ≡ some n) ⊎ ((p : Place name instructions) × (n ≡ pc + code_count p.before))

  Found-label :
      (name : Text) (n pc : ℕ) (labels : List (Text × ℕ)) (ins : IrInstruction A) (a : A)
      (rest : List (IrInstruction A))
      → is_label str repr ins ≡ true
      → first_arg str repr ins.args ≡ some a
      → Found name n pc (put (str a) pc labels) rest
      → Found name n pc labels (ins ∷ rest)
  unfolding place_later code_count
  Found-label name n pc labels ins a rest e f (inr (p, q)) =
      inr (place_later name ins rest p, rw e (ground arith))
  Found-label name n pc labels ins a rest e f (inl h) =
      elim (find-put_cases (str a) name pc n labels h) [
        | inl (same, q) ↦ inr (
          record {
            before = [];
            label = ins;
            after = rest;
            arg = a;
            split = refl;
            labelled = e;
            first = f;
            named = text_eq→eq (str a) name same;
          },
          omega arith,
        )
        | inr old ↦ inl old
      ]

  Found-code :
      (name : Text) (n pc : ℕ) (labels : List (Text × ℕ)) (ins : IrInstruction A)
      (rest : List (IrInstruction A))
      → is_label str repr ins ≡ false
      → Found name n (pc + 1) labels rest
      → Found name n pc labels (ins ∷ rest)
  unfolding place_later
  Found-code name n pc labels ins rest e (inl old) = inl old
  Found-code name n pc labels ins rest e (inr (p, q)) =
      inr (place_later name ins rest p, unfold code_count in rw e (omega arith))

  collect_labels-Found :
      (name : Text) (n pc : ℕ) (labels t : List (Text × ℕ)) (instructions : List (IrInstruction A))
      → collect_labels str repr pc labels instructions ≡ some t
      → find name t ≡ some n
      → Found name n pc labels instructions
  unfolding collect_labels
  collect_labels-Found name n pc labels t [] h k = inl (ap (find name) (some-injective _ _ h) ∙ k)
  collect_labels-Found name n pc labels t (ins ∷ rest) h k =
      elim (Bool-cases (is_label str repr ins)) [
        | inl e ↦ elim (Option-cases (first_arg str repr ins.args)) [
          | inl f ↦ let h' : none ≡ some t = rw (e, f) at h in absurd cc
          | inr (a, f) ↦
              Found-label name n pc labels ins a rest e f
                (collect_labels-Found name n pc (put (str a) pc labels) t rest (rw (e, f) at h) k)
        ]
        | inr e ↦
            Found-code name n pc labels ins rest e
              (collect_labels-Found name n (pc + 1) labels t rest (rw e at h) k)
      ]

  code_count-label :
      (ins : IrInstruction A) (rest : List (IrInstruction A))
      → is_label str repr ins ≡ true
      → code_count (ins ∷ rest) ≡ code_count rest
  unfolding code_count
  code_count-label ins rest e = rw e (omega arith)

  code_count-code :
      (ins : IrInstruction A) (rest : List (IrInstruction A))
      → is_label str repr ins ≡ false
      → code_count (ins ∷ rest) ≡ suc (code_count rest)
  unfolding code_count
  code_count-code ins rest e = rw e (omega arith)

  dropped : ℕ → List (Emitted A) → BackendError ⊎ List (Emitted A)
  dropped n cs = inr (drop n cs)

  emit_all-suffix :
      (labels : List (Text × ℕ)) (idx : ℕ) (before after : List (IrInstruction A))
      (cs : List (Emitted A))
      → emit_all str repr labels idx (before ++ after) ≡ inr cs
      → emit_all str repr labels (idx + length before) after ≡ dropped (code_count before) cs
  unfolding emit_all code_count dropped
  emit_all-suffix labels idx [] after cs h =
      ap (λ i. emit_all str repr labels i after) (omega arith) ∙ h
  emit_all-suffix labels idx (ins ∷ before) after cs h =
      let shift : idx + suc (length before) ≡ idx + 1 + length before = omega arith in
      ap (λ i. emit_all str repr labels i after) shift
      ∙ (elim (Bool-cases (is_label str repr ins)) [
        | inl e ↦
            emit_all-suffix labels (idx + 1) before after cs (rw e at h)
            ∙ ap (λ n. dropped n cs) (sym (code_count-label ins before e))
        | inr e ↦
            let (x, xs, p, q) =
              both_cases (emitted str repr idx ins (emit_instruction str repr labels ins))
                (emit_all str repr labels (idx + 1) (before ++ after)) cs (rw e at h) in
            emit_all-suffix labels (idx + 1) before after xs p
            ∙ ap (λ c. dropped (suc (code_count before)) c) q
            ∙ ap (λ n. dropped n cs) (sym (code_count-code ins before e))
      ])

  bundle_code :
      (r : BackendError ⊎ List (Emitted A)) (fs es : BackendError ⊎ List (Text × Function))
      (b : BytecodeBundle A)
      → bundle str repr r fs es ≡ inr b
      → r ≡ inr b.code
  unfolding bundle
  bundle_code (inl e) fs es b h = absurd cc
  bundle_code (inr code) (inl e) es b h = absurd cc
  bundle_code (inr code) (inr fs) (inl e) b h = absurd cc
  bundle_code (inr code) (inr fs) (inr es) b h =
      let p : record { code = code; func_table = fs; event_table = es } ≡ b = cc in
      ap (λ (b : BytecodeBundle A). inr b.code) p

  -- In a program that is lowered, the address of a label is where the code of the instructions behind
  -- a label with that name begins: the bytecode from the address on is what they are emitted as.
  pub lower_resolves :
      (ir : IrProgram A) (b : BytecodeBundle A) (labels : List (Text × ℕ)) (name : Text) (n : ℕ)
      → lower str repr ir ≡ inr b
      → collect_labels str repr 0 [] ir.instructions ≡ some labels
      → find name labels ≡ some n
      → (p : Place name ir.instructions) × (emit_all str repr labels
            (length p.before)
            (p.label ∷ p.after)
          ≡ inr (drop n b.code))
  unfolding lower lower_with dropped
  lower_resolves ir b labels name n h k f =
      elim (collect_labels-Found name n 0 [] labels ir.instructions k f) [
        | inl old ↦ let nothing : none ≡ some n = unfold find in old in absurd cc
        | inr (p, q) ↦
            let code =
              bundle_code (emit_all str repr labels 0 ir.instructions)
                (table str repr labels ir.functions) (table str repr labels ir.events) b
                (rw k at h) in
            let e =
              emit_all-suffix labels 0 p.before (p.label ∷ p.after) b.code
                (ap (emit_all str repr labels 0) p.split ∙ code) in
            (
              p,
              ap (λ i. emit_all str repr labels i (p.label ∷ p.after)) (omega arith)
                  ∙ e
                  ∙ ap (λ n. dropped n b.code) (omega arith),
            )
      ]
