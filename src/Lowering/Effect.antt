-- ===== src/Lowering/Effect.antt =====
-- What instructions take from the operand stack and leave on it, as the handlers of
-- src/mellowlang/vm/interp do (op_bindings.py, op_math.py, op_collections.py and op_call.py).
use mellow_programming_langu.Prelude.{
  ℕ, suc, ◌+◌, ◌-◌, ◌*◌, ◌≡◌, refl, sym, ap, ◌∙◌, subst, inr, true, Option, none, some, List, [],
  ◌∷◌, ◌++◌, append-nil, append_assoc, arith, leb, ◌==◌, if◌then◌else◌, length, All,
}
use mellow_programming_langu.Prelude.Int.{pos}
use mellow_programming_langu.Text.{Text, codes, text_eq}
use mellow_programming_langu.Dict.{find}
use mellow_programming_langu.Ast.{Constant, int_const}
use mellow_programming_langu.Backend.{IrInstruction}
use mellow_programming_langu.Lowering.Machine.{
  Lowerer, Act, ◌▷◌, fail, nothing, emit, emit_here, all_of,
}
use mellow_programming_langu.Lowering.Rules.{and_then_cases}

-- How many values an opcode takes and leaves.
abbrev fixed_effects : List (Text × (ℕ × ℕ))
fixed_effects =
    (codes "PUSH", (0, 1))
    ∷ (codes "LOAD", (0, 1))
    ∷ (codes "ADD", (2, 1))
    ∷ (codes "SUB", (2, 1))
    ∷ (codes "MUL", (2, 1))
    ∷ (codes "DIV", (2, 1))
    ∷ (codes "MOD", (2, 1))
    ∷ (codes "POW_OP", (2, 1))
    ∷ (codes "COMPARE", (2, 1))
    ∷ (codes "BOOL_AND", (2, 1))
    ∷ (codes "BOOL_OR", (2, 1))
    ∷ (codes "BOOL_NOT", (1, 1))
    ∷ (codes "GETITEM", (2, 1))
    ∷ []

-- How many values the opcodes take that have a number.
unfoldable pub counted : Text → ℕ → Option (ℕ × ℕ)
unfolding text_eq find
counted op n =
    if text_eq op (codes "SYSCALL")
    then some (suc n, 1)
    else if text_eq op (codes "CALL")
    then some (n, 1)
    else if text_eq op (codes "BUILD_LIST")
    then some (n, 1)
    else if text_eq op (codes "BUILD_MAP")
    then some (2 * n, 1)
    else find op fixed_effects

unfoldable pub stack_effect : Text → Option ℕ → Option (ℕ × ℕ)
unfolding counted find
stack_effect op none = find op fixed_effects
stack_effect op (some n) = counted op n

unfoldable pub changed : Option (ℕ × ℕ) → ℕ → Option ℕ
changed none d = none
changed (some (pops, pushes)) d = if leb pops d then some (d - pops + pushes) else none

unfoldable pub and_depth : Option ℕ → (ℕ → Option ℕ) → Option ℕ
and_depth none k = none
and_depth (some d) k = k d

and_depth_cases :
    (o : Option ℕ) (k : ℕ → Option ℕ) (y : ℕ)
    → and_depth o k ≡ some y
    → (x : ℕ) × (o ≡ some x) × (k x ≡ some y)
unfolding and_depth
and_depth_cases none k y h = absurd cc
and_depth_cases (some x) k y h = (x, refl, h)

changed_enough : (k m d : ℕ) → changed (some (k, m)) (k + d) ≡ some (m + d)
unfolding changed
changed_enough k m d =
    let enough : leb k (k + d) ≡ true = ground arith in
    let left : k + d - k + m ≡ m + d = omega arith in rw (enough, left) refl

module _ {F : Type 0} where
  -- The number that an instruction has last.
  unfoldable pub last_count : List (Constant F) → Option ℕ
  last_count (int_const (pos n) ∷ []) = some n
  last_count (name ∷ int_const (pos n) ∷ []) = some n
  last_count _ = none

  -- How many values are on the stack behind a run of code, from so many in front of it; `none` where
  -- an instruction takes more than there are.
  unfoldable pub depth : List (IrInstruction (Constant F)) → ℕ → Option ℕ
  unfolding stack_effect last_count changed and_depth
  depth [] d = some d
  depth (i ∷ code) d =
      and_depth (changed (stack_effect i.op (last_count i.args)) d) (λ d'. depth code d')

  -- A state with more code.
  abbrev pub appended : Lowerer F → List (IrInstruction (Constant F)) → Lowerer F
  appended s code = record s { instructions = s.instructions ++ code }

  -- A piece of the lowering that only adds code, which takes `k` values and leaves `m`.
  pub record Lifts (k m : ℕ) (act : Act F) : Type 0 where
    pub lifts :
        (s t : Lowerer F)
        → act s ≡ inr t
        → (code : List (IrInstruction (Constant F))) × (t ≡ appended s code)
          × ((d : ℕ) → depth code (k + d) ≡ some (m + d))

  depth-append :
      (c e : List (IrInstruction (Constant F))) (x y : ℕ)
      → depth c x ≡ some y
      → depth (c ++ e) x ≡ depth e y
  unfolding depth
  depth-append [] e x y h = let q : x ≡ y = cc in ap (depth e) q
  depth-append (i ∷ c) e x y h =
      let (z, p, q) =
        and_depth_cases (changed (stack_effect i.op (last_count i.args)) x) (depth c) y h in
      ap (λ (o : Option ℕ). and_depth o (λ d'. depth (c ++ e) d')) p
      ∙ (unfold and_depth in depth-append c e z y q)

  pub Lifts-frame : {k m : ℕ} {act : Act F} (j : ℕ) → Lifts k m act → Lifts (j + k) (j + m) act
  Lifts-frame {k} {m} j h = record {
    lifts = λ s t e.
        let (code, p, q) = h.lifts s t e in
        let shift : (d : ℕ) → j + k + d ≡ k + (j + d) = λ d. omega arith in
        let back : (d : ℕ) → m + (j + d) ≡ j + m + d = λ d. omega arith in
        (code, p, λ d. ap (depth code) (shift d) ∙ q (j + d) ∙ ap (λ (x : ℕ). some x) (back d));
  }

  infixr 30 ◌⨾◌
  pub ◌⨾◌ : {k m j : ℕ} {a b : Act F} → Lifts k m a → Lifts m j b → Lifts k j (a ▷ b)
  unfolding ◌▷◌
  ◌⨾◌ {k} {m} {a = a} {b} f g = record {
    lifts = λ s t h.
        let (u, p, q) = and_then_cases (a s) b t h in
        let (c, e, x) = f.lifts s u p in
        let (c', e', x') = g.lifts u t q in
        (
          c ++ c',
          e'
              ∙ ap (λ (v : Lowerer F). appended v c') e
              ∙ ap (λ (is : List (IrInstruction (Constant F))). record s { instructions = is })
                  (append_assoc s.instructions c c'),
          λ d. depth-append c c' (k + d) (m + d) (x d) ∙ x' d,
        );
  }

  pub fail-Lifts : {k m : ℕ} (message : Text) → Lifts k m (fail message)
  unfolding fail
  fail-Lifts message = record { lifts = λ s t h. absurd cc }

  pub nothing-Lifts : Lifts 0 0 nothing
  unfolding nothing depth
  nothing-Lifts = record {
    lifts = λ s t h.
        let q : s ≡ t = cc in
        (
          [],
          sym q
              ∙ ap (λ (is : List (IrInstruction (Constant F))). record s { instructions = is })
                  (sym (append-nil s.instructions)),
          λ d. refl,
        );
  }

  one_depth :
      (i : IrInstruction (Constant F)) (k m d : ℕ)
      → stack_effect i.op (last_count i.args) ≡ some (k, m)
      → depth (i ∷ []) (k + d) ≡ some (m + d)
  unfolding depth and_depth
  one_depth i k m d h = rw (h, changed_enough k m d) refl

  pub emit_here-Lifts :
      (op : Text) (args : List (Constant F)) (k m : ℕ)
      → stack_effect op (last_count args) ≡ some (k, m)
      → Lifts k m (emit_here op args)
  unfolding emit_here emit
  emit_here-Lifts op args k m h = record {
    lifts = λ s t e.
        let i : IrInstruction (Constant F) = record {
          op = op;
          args = args;
          line = s.current_position.0;
          col = if s.current_position.1 == 0 then 1 else s.current_position.1;
        } in
        let q : appended s (i ∷ []) ≡ t = cc in (i ∷ [], sym q, λ d. one_depth i k m d h);
  }

  pub Lifts-cast : {k k' m m' : ℕ} {act : Act F} → k ≡ k' → m ≡ m' → Lifts k m act → Lifts k' m' act
  Lifts-cast {k'} {m} {act} p q h =
      subst (λ (x : ℕ). Lifts k' x act) q (subst (λ (x : ℕ). Lifts x m act) p h)

  -- Pieces that each leave `w` values.
  pub all_of-Lifts :
      (w : ℕ) (acts : List (Act F))
      → All (λ act. Lifts 0 w act) acts
      → Lifts 0 (w * length acts) (all_of acts)
  unfolding all_of
  all_of-Lifts w [] h = Lifts-cast refl (ground arith) nothing-Lifts
  all_of-Lifts w (act ∷ acts) (h, hs) =
      h ⨾ Lifts-cast (ground arith) (ground arith) (Lifts-frame w (all_of-Lifts w acts hs))
