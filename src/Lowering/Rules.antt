-- ===== src/Lowering/Rules.antt =====
-- Rules for the labels of pieces of the lowering (driver.py): sequences, instructions, loops, tables.
use mellow_programming_langu.Prelude.{
  ℕ, ◌+◌, ◌≡◌, refl, sym, ap, ◌∙◌, subst, ◌⊎◌, inl, inr, true, List, [], ◌∷◌, ◌++◌, ◌==◌,
  if◌then◌else◌, drop, there, Member, Member-right, All, Member-cons, here,
}
use mellow_programming_langu.Text.{Text, codes}
use mellow_programming_langu.Dict.{find}
use mellow_programming_langu.Ast.{Constant, text_const}
use mellow_programming_langu.Backend.{IrInstruction, IrFunction, op_map}
use mellow_programming_langu.Lowering.Machine.{
  LoopCtx, Lowerer, LoweringError, Act, and_then, ◌▷◌, fail, nothing, emit, emit_here, set_position,
  push_loop, pop_loop, all_of, with_label, with_temp,
}
use mellow_programming_langu.Lowering.Known.{
  fits, is_plain, Form, label, jump, branch, plain, Sound, Sound-map, Labelled, Known, Inv, Grows,
  Triple, Keeps, Inv-emit, Labelled-append,
}

Member-drop : {A : Type 0} {x : A} (xs : List A) → Member x (drop 1 xs) → Member x xs
Member-drop [] m = m
Member-drop (y ∷ xs) m = there m

module _ {F : Type 0} where
  pub and_then_cases :
      (r : LoweringError ⊎ Lowerer F) (b : Act F) (t : Lowerer F)
      → and_then r b ≡ inr t
      → (u : Lowerer F) × (r ≡ inr u) × (b u ≡ inr t)
  unfolding and_then
  and_then_cases (inl e) b t h = absurd cc
  and_then_cases (inr u) b t h = (u, refl, h)

  infixr 30 ◌⟫◌
  pub ◌⟫◌ : {P Q R : List Text} {a b : Act F} → Triple P a Q → Triple Q b R → Triple P (a ▷ b) R
  unfolding ◌▷◌
  ◌⟫◌ {a = a} {b} f g s t inv h =
      let (u, p, q) = and_then_cases (a s) b t h in
      let (inv_u, grows_u) = f s u inv p in
      let (inv_t, grows_t) = g u t inv_u q in (inv_t, λ name k. grows_t name (grows_u name k))

  infixr 30 ◌⨟◌
  pub ◌⨟◌ : {a b : Act F} → Keeps a → Keeps b → Keeps (a ▷ b)
  ◌⨟◌ f g P = f P ⟫ g P

  pub fail-Keeps : (message : Text) → Keeps {F = F} (fail message)
  unfolding fail
  fail-Keeps message P s t inv h = absurd cc

  pub nothing-Keeps : Keeps {F = F} nothing
  unfolding nothing
  nothing-Keeps P s t inv h =
      let e : s ≡ t = cc in subst (λ (t : Lowerer F). Inv P t × Grows s t) e (inv, λ name k. k)

  -- A step whose outcome is a state.
  pub outcome :
      (P Q : List Text) (act : Act F) (s t u : Lowerer F)
      → Inv Q u × Grows s u
      → act s ≡ inr u
      → act s ≡ inr t
      → Inv Q t × Grows s t
  outcome P Q act s t u h e f =
      let e' : u ≡ t = cc in subst (λ (t : Lowerer F). Inv Q t × Grows s t) e' h

  -- An instruction with its form.
  pub emit_at :
      (P Q : List Text) (op : Text) (args : List (Constant F)) (l c : ℕ) (s t : Lowerer F)
      → Inv P s
      → ((i : IrInstruction (Constant F))
          → i.op ≡ op
          → i.args ≡ args
          → Form (Known Q (s.instructions ++ i ∷ [])) i
            × ((name : Text) → Member name P → Known Q (s.instructions ++ i ∷ []) name))
      → emit op args l c s ≡ inr t
      → Inv Q t × Grows s t
  unfolding emit
  emit_at P Q op args l c s t inv f h =
      let i : IrInstruction (Constant F) = record {
        op = op;
        args = args;
        line = l;
        col = if c == 0 then 1 else c;
      } in
      let (form, moved) = f i refl refl in
      outcome P Q (emit op args l c) s t (record s { instructions = s.instructions ++ i ∷ [] })
        (Inv-emit s i inv form moved, λ name k. Labelled-append s.instructions (i ∷ []) name k) refl
        h

  -- An instruction that is neither a label nor a jump.
  pub emit-Keeps :
      (op : Text) (args : List (Constant F)) (l c : ℕ)
      → is_plain op ≡ true
      → fits (find op op_map) args ≡ true
      → Keeps (emit op args l c)
  emit-Keeps op args l c p q P s t inv =
      emit_at P P op args l c s t inv
        λ i e f. (plain (ap is_plain e ∙ p) (rw (e, f) q), λ name m. inr m)

  pub emit_here-Keeps :
      (op : Text) (args : List (Constant F))
      → is_plain op ≡ true
      → fits (find op op_map) args ≡ true
      → Keeps (emit_here op args)
  unfolding emit_here
  emit_here-Keeps op args p q P s =
      emit-Keeps op args s.current_position.0 s.current_position.1 p q P s

  -- A jump to a label that is still to come.
  pub jump-Triple :
      {P : List Text} (name : Text) (l c : ℕ)
      → Member name P
      → Triple {F = F} P (emit (codes "JUMP") (text_const name ∷ []) l c) P
  jump-Triple {P} name l c m s t inv =
      emit_at P P (codes "JUMP") (text_const name ∷ []) l c s t inv
        λ i e f. (jump name e f (inr m), λ name m. inr m)

  pub branch-Triple :
      {P : List Text} (name : Text) (l c : ℕ)
      → Member name P
      → Triple {F = F} P (emit (codes "JUMP_IF_FALSE") (text_const name ∷ []) l c) P
  branch-Triple {P} name l c m s t inv =
      emit_at P P (codes "JUMP_IF_FALSE") (text_const name ∷ []) l c s t inv
        λ i e f. (branch name e f (inr m), λ name m. inr m)

  -- A label: it is no longer to come.
  pub label-Triple :
      {P Q : List Text} (name : Text) (l c : ℕ)
      → ((n : Text) → Member n P → (n ≡ name) ⊎ Member n Q)
      → Triple {F = F} P (emit (codes "LABEL") (text_const name ∷ []) l c) Q
  label-Triple {P} {Q} name l c f s t inv =
      emit_at P Q (codes "LABEL") (text_const name ∷ []) l c s t inv λ i e g. (
        label name e g,
        λ n m. elim (f n m) [
          | inl q ↦ inl (record {
            at = i;
            member = Member-right s.instructions (here refl);
            is_label = e;
            named = g ∙ ap (λ (n : Text). text_const n ∷ []) (sym q);
          })
          | inr m' ↦ inr m'
        ],
      )

  -- A label may be still to come.
  pub pending :
      {P Q : List Text} {act : Act F} (name : Text) → Triple (name ∷ P) act Q → Triple P act Q
  pending name f s t inv h =
      f s t (Sound-map (λ n k. elim k [ inl x ↦ inl x | inr m ↦ inr (there m) ]) inv) h

  label-Labelled :
      (name : Text) (l c : ℕ) (s t : Lowerer F)
      → emit (codes "LABEL") (text_const name ∷ []) l c s ≡ inr t
      → Labelled t.instructions name
  unfolding emit
  label-Labelled name l c s t h =
      let i : IrInstruction (Constant F) = record {
        op = codes "LABEL";
        args = text_const name ∷ [];
        line = l;
        col = if c == 0 then 1 else c;
      } in
      let e : record s { instructions = s.instructions ++ i ∷ [] } ≡ t = cc in
      subst (λ (t : Lowerer F). Labelled t.instructions name) e
        (record {
          at = i;
          member = Member-right s.instructions (here refl);
          is_label = refl;
          named = refl;
        })

  -- A label that is there is not to come.
  settle :
      {P : List Text} (name : Text) (t : Lowerer F)
      → Labelled t.instructions name
      → Inv (name ∷ P) t
      → Inv P t
  settle {P} name t k = Sound-map λ n known. elim known [
    | inl x ↦ inl x
    | inr m ↦ elim (Member-cons m) [
      | inl e ↦ inl (subst (λ (n : Text). Labelled t.instructions n) (sym e) k)
      | inr m' ↦ inr m'
    ]
  ]

  -- What follows a label may go to it.
  pub opened :
      {P Q : List Text} {act : Act F} (name : Text) (l c : ℕ)
      → Triple (name ∷ P) act (name ∷ Q)
      → Triple {F = F} P (emit (codes "LABEL") (text_const name ∷ []) l c ▷ act) Q
  unfolding ◌▷◌
  opened {P} {act} name l c f s t inv h =
      let a = emit (codes "LABEL") (text_const name ∷ []) l c in
      let (u, p, q) = and_then_cases (a s) act t h in
      let (inv_u, grows_u) = label-Triple {P = P} {Q = P} name l c (λ n m. inr m) s u inv p in
      let (inv_t, grows_t) =
        f u t (Sound-map (λ n k. elim k [ inl x ↦ inl x | inr m ↦ inr (there m) ]) inv_u) q in
      (
        settle name t (grows_t name (label-Labelled name l c s u p)) inv_t,
        λ n k. grows_t n (grows_u n k),
      )

  pub set_position-Keeps : (line col : ℕ) → Keeps {F = F} (set_position line col)
  unfolding set_position
  set_position-Keeps line col P s t inv h =
      outcome P P (set_position line col) s t _ (inv, λ name k. k) refl h

  with_loops :
      {K : Text → Type 0} {instructions : List (IrInstruction (Constant F))}
      {loops loops' : List LoopCtx} {functions events : List (Text × IrFunction)}
      → Sound K instructions loops functions events
      → ((ctx : LoopCtx) → Member ctx loops' → K ctx.break_label × K ctx.continue_label)
      → Sound K instructions loops' functions events
  with_loops h f = record {
    forms = h.forms;
    loops_in = f;
    functions_in = h.functions_in;
    events_in = h.events_in;
  }

  pub push_loop-Triple :
      {P : List Text} (end start : Text)
      → Member end P
      → Member start P
      → Triple {F = F} P (push_loop end start) P
  unfolding push_loop
  push_loop-Triple {P} end start m n s t inv h =
      outcome P P (push_loop end start) s t _
        (
          with_loops inv λ ctx k. elim (Member-cons {xs = s.loop_stack} k) [
            | inl e ↦ (
              inr (subst (λ (c : LoopCtx). Member c.break_label P) (sym e) m),
              inr (subst (λ (c : LoopCtx). Member c.continue_label P) (sym e) n),
            )
            | inr k' ↦ inv.loops_in ctx k'
          ],
          λ name k. k,
        )
        refl h

  pub pop_loop-Keeps : Keeps {F = F} pop_loop
  unfolding pop_loop
  pop_loop-Keeps P s t inv h =
      outcome P P (pop_loop) s t _
        (with_loops inv (λ ctx k. inv.loops_in ctx (Member-drop s.loop_stack k)), λ name k. k) refl
        h

  pub with_label-Triple :
      {P Q : List Text} (decimal : ℕ → Text) {k : Text → Act F} (prefix : Text)
      → ((name : Text) → Triple P (k name) Q)
      → Triple P (with_label decimal prefix k) Q
  unfolding with_label
  with_label-Triple decimal prefix f s t inv h =
      f _ (record s { label_id = s.label_id + 1 }) t inv h

  pub with_temp-Triple :
      {P Q : List Text} (decimal : ℕ → Text) {k : Text → Act F} (prefix : Text)
      → ((name : Text) → Triple P (k name) Q)
      → Triple P (with_temp decimal prefix k) Q
  unfolding with_temp
  with_temp-Triple decimal prefix f s t inv h = f _ (record s { temp_id = s.temp_id + 1 }) t inv h

  pub all_of-Keeps : (acts : List (Act F)) → All (λ act. Keeps act) acts → Keeps (all_of acts)
  unfolding all_of
  all_of-Keeps [] h = nothing-Keeps
  all_of-Keeps (act ∷ acts) (k, ks) = k ⨟ all_of-Keeps acts ks
