-- ===== src/Lowering/Emission.antt =====
-- src/mellowlang/compiler/bytecode_backend.py on the labels and instructions of the lowering.
use mellow_programming_langu.Prelude.{
  ℕ, ◌+◌, ◌≡◌, refl, sym, ap, ◌∙◌, subst, ◌⊎◌, inl, inr, true, false, Option, none, some, List, [],
  ◌∷◌, map, Bool-cases, length, take, not-Member, Member, Member-cons, here, there,
}
use mellow_programming_langu.Text.{Text, codes, text_eq}
use mellow_programming_langu.Text.Laws.{text_eq_refl}
use mellow_programming_langu.Dict.{find, put, find-put}
use mellow_programming_langu.Ast.{Constant, text_const}
use mellow_programming_langu.Backend.{
  IrInstruction, IrFunction, Operand, address, Emitted, Function, BackendError, op_map, both,
  is_label, first_arg, collect_labels, target, mapped, with_opcode, emit_instruction, emitted,
  emit_all, located, table,
}
use mellow_programming_langu.Lowering.Known.{
  fits, is_plain, Form, label, jump, branch, plain, Labelled,
}

-- A dictionary has the key.
abbrev pub Has : {A : Type 0} → List (Text × A) → Text → Type 0
Has {A} entries name = (v : A) × (find name entries ≡ some v)

Has-put_new :
    {A : Type 0} (name : Text) (v : A) (entries : List (Text × A)) → Has (put name v entries) name
Has-put_new name v entries = (v, find-put name v entries)

Has-put_old :
    {A : Type 0} (key name : Text) (v : A) (entries : List (Text × A))
    → Has entries name
    → Has (put key v entries) name
unfolding find put
Has-put_old key name v [] (w, h) = absurd cc
Has-put_old key name v ((k, old) ∷ entries) (w, h) = elim (Bool-cases (text_eq k key)) [
  | inl e ↦ elim (Bool-cases (text_eq k name)) [
    | inl e' ↦ (v, rw (e, e') refl)
    | inr e' ↦ (w, rw (e, e') (rw e' at h))
  ]
  | inr e ↦ elim (Bool-cases (text_eq k name)) [
    | inl e' ↦ (w, rw (e, e') (rw e' at h))
    | inr e' ↦ let (u, q) = Has-put_old key name v entries (w, rw e' at h) in (u, rw (e, e') q)
  ]
]

both_some :
    {A : Type 0} (r : BackendError ⊎ A) (rs : BackendError ⊎ List A) (x : A) (xs : List A)
    → r ≡ inr x
    → rs ≡ inr xs
    → both r rs ≡ inr (x ∷ xs)
unfolding both
both_some r rs x xs h k = rw (h, k) refl

module _ {F : Type 0} (str repr : Constant F → Text)
    (str_text : (t : Text) → str (text_const t) ≡ t) where
  -- The instructions as the lowering emits them, for the backend.
  abbrev AllForms : (Text → Type 0) → List (IrInstruction (Constant F)) → Type 0
  AllForms K instructions = (i : IrInstruction (Constant F)) → Member i instructions → Form K i

  -- An instruction is a label with a name, or code.
  label_or_code :
      {K : Text → Type 0} (i : IrInstruction (Constant F))
      → Form K i
      → ((name : Text) × (is_label str repr i ≡ true) × (i.args ≡ text_const name ∷ []))
        ⊎ (is_label str repr i ≡ false)
  unfolding is_label text_eq is_plain
  label_or_code i (label name p q) = inl (name, rw p refl, q)
  label_or_code i (jump name p q k) = inr (rw p refl)
  label_or_code i (branch name p q k) = inr (rw p refl)
  label_or_code i (plain p q) = elim (Bool-cases (text_eq i.op (codes "LABEL"))) [
    | inl e ↦ let no : false ≡ true = rw e at p in absurd cc
    | inr e ↦ inr e
  ]

  -- The name in a label's arguments.
  text_const_name : List (Constant F) → Text
  text_const_name (text_const name ∷ args) = name
  text_const_name _ = []

  Labelled-first :
      (i : IrInstruction (Constant F)) (rest : List (IrInstruction (Constant F)))
      (name first : Text)
      → i.args ≡ text_const first ∷ []
      → Labelled (i ∷ rest) name
      → (name ≡ first) ⊎ Labelled rest name
  unfolding text_const_name
  Labelled-first i rest name first q l = elim (Member-cons l.member) [
    | inl e ↦
        inl
          (ap text_const_name (sym l.named ∙ ap (λ (j : IrInstruction (Constant F)). j.args) e ∙ q))
    | inr m ↦ inr (record { at = l.at; member = m; is_label = l.is_label; named = l.named })
  ]

  Labelled-code :
      (i : IrInstruction (Constant F)) (rest : List (IrInstruction (Constant F))) (name : Text)
      → is_label str repr i ≡ false
      → Labelled (i ∷ rest) name
      → Labelled rest name
  unfolding is_label
  Labelled-code i rest name e l = elim (Member-cons l.member) [
    | inl p ↦
        let op : i.op ≡ codes "LABEL" =
          ap (λ (j : IrInstruction (Constant F)). j.op) (sym p) ∙ l.is_label in
        let no : true ≡ false =
          sym (ap (λ (t : Text). text_eq t (codes "LABEL")) op ∙ text_eq_refl (codes "LABEL"))
          ∙ e in
        absurd cc
    | inr m ↦ record { at = l.at; member = m; is_label = l.is_label; named = l.named }
  ]

  -- What the first loop finds.
  pub collect_labels-Has :
      {K : Text → Type 0} (instructions : List (IrInstruction (Constant F))) (pc : ℕ)
      (labels : List (Text × ℕ))
      → AllForms K instructions
      → (t : List (Text × ℕ)) × (collect_labels str repr pc labels instructions ≡ some t)
        × ((name : Text) → Has labels name ⊎ Labelled instructions name → Has t name)
  unfolding collect_labels
  collect_labels-Has [] pc labels h =
      (labels, refl, λ name k. elim k [ inl old ↦ old | inr l ↦ absurd (not-Member l.member) ])
  collect_labels-Has (i ∷ rest) pc labels h = elim (label_or_code i (h i (here refl))) [
    | inl (name, e, q) ↦
        let f : first_arg str repr i.args ≡ some (text_const name) =
          unfold first_arg in rw q refl in
        let (t, p, k) =
          collect_labels-Has rest pc (put (str (text_const name)) pc labels)
            (λ j m. h j (there m)) in
        (
          t,
          rw (e, f) p,
          λ n old. elim old [
            | inl has ↦ k n (inl (Has-put_old _ n pc labels has))
            | inr l ↦ elim (Labelled-first i rest n name q l) [
              | inl same ↦ k n (
                  inl (
                    subst (λ (x : Text). Has (put (str (text_const name)) pc labels) x)
                      (str_text name ∙ sym same) (Has-put_new _ pc labels)))
              | inr l' ↦ k n (inr l')
            ]
          ],
        )
    | inr e ↦
        let (t, p, k) = collect_labels-Has rest (pc + 1) labels (λ j m. h j (there m)) in
        (
          t,
          rw e p,
          λ n old. elim old [
            | inl has ↦ k n (inl has)
            | inr l ↦ k n (inr (Labelled-code i rest n e l))
          ],
        )
  ]

  first_arg_named :
      (args : List (Constant F)) (name : Text)
      → args ≡ text_const name ∷ []
      → first_arg str repr args ≡ some (text_const name)
  unfolding first_arg
  first_arg_named args name q = rw q refl

  target_has :
      (labels : List (Text × ℕ)) (a : Constant F) (pc : ℕ)
      → find (str a) labels ≡ some pc
      → target str repr labels (some a) ≡ inr (address pc ∷ [])
  unfolding target
  target_has labels a pc h = rw (h, target) refl

  jump_operand :
      (labels : List (Text × ℕ)) (args : List (Constant F)) (name : Text) (pc code : ℕ)
      → args ≡ text_const name ∷ []
      → find name labels ≡ some pc
      → with_opcode str repr code (target str repr labels (first_arg str repr args))
        ≡ inr (code, address pc ∷ [])
  unfolding with_opcode
  jump_operand labels args name pc code q h =
      ap (λ o. with_opcode str repr code (target str repr labels o)) (first_arg_named args name q)
      ∙ ap (with_opcode str repr code) (
          target_has labels (text_const name) pc
            (ap (λ (t : Text). find t labels) (str_text name) ∙ h))

  mapped-fits :
      (op : Text) (entry : Option (ℕ × ℕ)) (args : List (Constant F))
      → fits entry args ≡ true
      → (r : ℕ × List (Operand (Constant F))) × (mapped str repr op entry args ≡ inr r)
  unfolding mapped fits
  mapped-fits op none args h = absurd cc
  mapped-fits op (some (code, arity)) args h =
      ((code, map (λ (a : Constant F). Operand.literal a) (take arity args)), rw h refl)

  -- An instruction that has a form, where the labels are there, has code.
  emit_instruction-Form :
      {K : Text → Type 0} (labels : List (Text × ℕ)) (i : IrInstruction (Constant F))
      → ((name : Text) → K name → Has labels name)
      → is_label str repr i ≡ false
      → Form K i
      → (r : ℕ × List (Operand (Constant F))) × (emit_instruction str repr labels i ≡ inr r)
  unfolding emit_instruction is_label text_eq is_plain
  emit_instruction-Form labels i f e (label name p q) =
      let no : true ≡ false = rw p at e in absurd cc
  emit_instruction-Form labels i f e (jump name p q k) =
      let (pc, h) = f name k in
      ((10, address pc ∷ []), rw p (jump_operand labels i.args name pc 10 q h))
  emit_instruction-Form labels i f e (branch name p q k) =
      let (pc, h) = f name k in
      ((11, address pc ∷ []), rw p (jump_operand labels i.args name pc 11 q h))
  emit_instruction-Form labels i f e (plain p q) =
      let (r, h) = mapped-fits i.op (find i.op op_map) i.args q in
      elim (Bool-cases (text_eq i.op (codes "JUMP"))) [
        | inl j ↦ let no : false ≡ true = rw (e, j) at p in absurd cc
        | inr j ↦ elim (Bool-cases (text_eq i.op (codes "JUMP_IF_FALSE"))) [
          | inl b ↦ let no : false ≡ true = rw (e, j, b) at p in absurd cc
          | inr b ↦ (r, rw (j, b) h)
        ]
      ]

  emitted_some :
      (idx : ℕ) (i : IrInstruction (Constant F)) (v : ℕ × List (Operand (Constant F)))
      (r : BackendError ⊎ (ℕ × List (Operand (Constant F))))
      → r ≡ inr v
      → (x : Emitted (Constant F)) × (emitted str repr idx i r ≡ inr x)
  unfolding emitted
  emitted_some idx i v (inl e) h = absurd cc
  emitted_some idx i v (inr (code, operands)) h = (_, refl)

  -- The second loop, where the labels are there.
  pub emit_all-Forms :
      {K : Text → Type 0} (labels : List (Text × ℕ)) (idx : ℕ)
      (instructions : List (IrInstruction (Constant F)))
      → ((name : Text) → K name → Has labels name)
      → AllForms K instructions
      → (code : List (Emitted (Constant F))) × (emit_all str repr labels idx instructions
          ≡ inr code)
  unfolding emit_all
  emit_all-Forms labels idx [] f h = ([], refl)
  emit_all-Forms labels idx (i ∷ rest) f h =
      let (code, p) = emit_all-Forms labels (idx + 1) rest f (λ j m. h j (there m)) in
      elim (Bool-cases (is_label str repr i)) [
        | inl e ↦ (code, rw e p)
        | inr e ↦
            let (r, q) = emit_instruction-Form labels i f e (h i (here refl)) in
            let (x, k) = emitted_some idx i r (emit_instruction str repr labels i) q in
            (x ∷ code, rw e (both_some _ _ x code k p))
      ]

  located_has :
      (labels : List (Text × ℕ)) (name : Text) (meta : IrFunction) (pc : ℕ)
      → find meta.entry_label labels ≡ some pc
      → (f : Text × Function) × (located str repr labels (name, meta) ≡ inr f)
  unfolding located
  located_has labels name meta pc h = (
    (
      name,
      record {
        address = pc;
        param_count = length meta.params;
        params = meta.params;
        kind = meta.kind;
      },
    ),
    rw (h, located) refl,
  )

  pub table-Has :
      (labels : List (Text × ℕ)) (entries : List (Text × IrFunction))
      → ((f : Text × IrFunction) → Member f entries → Has labels f.1.entry_label)
      → (t : List (Text × Function)) × (table str repr labels entries ≡ inr t)
  unfolding table
  table-Has labels [] h = ([], refl)
  table-Has labels ((name, meta) ∷ entries) h =
      let (t, p) = table-Has labels entries (λ f m. h f (there m)) in
      let (pc, q) = h (name, meta) (here refl) in
      let (f, k) = located_has labels name meta pc q in
      (
        f ∷ t,
        both_some (located str repr labels (name, meta)) (table str repr labels entries) f t k p,
      )
