-- ===== src/Lowering/Stack.antt =====
-- What the code of an expression leaves on the stack (expressions.py).
use mellow_programming_langu.Prelude.{
  ℕ, suc, ◌+◌, ◌*◌, ◌≡◌, refl, ap, ◌∙◌, subst, ◌⊎◌, inl, inr, Bool, true, false, Option, none, some,
  List, [], ◌∷◌, arith, Bool-cases, length, All,
}
use mellow_programming_langu.Text.{Text, codes, text_eq}
use mellow_programming_langu.Dict.{find}
use mellow_programming_langu.Ast.{
  Constant, none_const, text_const, Expr, literal, var, unary_op, binary_op, call, index,
  list_literal, map_literal, fstring, get_module, call_val, lambda_expr, list_comp, spread, slice,
  Exprs, no_exprs, next_expr, KwArgs, no_kwargs, next_kwarg, Pairs, no_pairs, next_pair, Parts,
  no_parts, literal_part, expr_part,
}
use mellow_programming_langu.Lowering.Machine.{
  ◌▷◌, all_of, LoweringError, Act, emit_here, Lowerer, all_of,
}
use mellow_programming_langu.Backend.{IrInstruction}
use mellow_programming_langu.Lowering.Tables.{stdlib_calls}
use mellow_programming_langu.Lowering.Arguments.{Names, module_syscall}
use mellow_programming_langu.Lowering.Expressions.{
  count_const, binary_ops, unary_code, binary_code, syscall_code, call_arguments, skill_code,
  call_code, added, fstring_code, build_code, unsupported_node, item_code, is_spread, lower_expr,
  lower_exprs, lower_items, lower_kwargs, lower_pairs, lower_parts,
}
use mellow_programming_langu.Lowering.Bindings.{find-All, bind_call_arguments-All}
use mellow_programming_langu.Lowering.Effect.{
  counted, last_count, stack_effect, depth, appended, Lifts, Lifts-frame, ◌⨾◌, fail-Lifts,
  emit_here-Lifts, Lifts-cast, all_of-Lifts, nothing-Lifts,
}

-- The opcode of a binary operator.
abbrev Binary : {F : Type 0} → Text × List (Constant F) → Type 0
Binary v = stack_effect v.0 (last_count v.1) ≡ some (2, 1)

binary_ops-Binary :
    (F : Type 0) → All (λ (e : Text × (Text × List (Constant F))). Binary e.1) binary_ops
unfolding stack_effect counted last_count find text_eq
binary_ops-Binary F = (
  refl,
  (
    refl,
    (
      refl,
      (refl, (refl, (refl, (refl, (refl, (refl, (refl, (refl, (refl, (refl, (refl, tt))))))))))),
    ),
  ),
)

push_effect : (o : Option ℕ) → stack_effect (codes "PUSH") o ≡ some (0, 1)
unfolding stack_effect counted find text_eq
push_effect none = refl
push_effect (some n) = refl

module _ {F : Type 0} where
  push-Lifts : (v : Constant F) → Lifts 0 1 (emit_here (codes "PUSH") (v ∷ []))
  unfolding stack_effect counted find text_eq
  push-Lifts v = emit_here-Lifts (codes "PUSH") (v ∷ []) 0 1 (push_effect (last_count (v ∷ [])))

  unary_code-Lifts : (op : Text) → Lifts {F = F} 1 1 (unary_code op)
  unfolding unary_code stack_effect counted last_count find
  unary_code-Lifts op = elim (Bool-cases (text_eq op (codes "not"))) [
    | inl e ↦ rw e (emit_here-Lifts (codes "BOOL_NOT") [] 1 1 refl)
    | inr e ↦ elim (Bool-cases (text_eq op (codes "-"))) [
      | inl e' ↦
          rw (e, e') (Lifts-frame 1 (push-Lifts _) ⨾ emit_here-Lifts (codes "MUL") [] 2 1 refl)
      | inr e' ↦ rw (e, e') (fail-Lifts _)
    ]
  ]

  binary_code-Lifts :
      (op : Text) (found : Option (Text × List (Constant F)))
      → ((v : Text × List (Constant F)) → found ≡ some v → Binary v)
      → Lifts 2 1 (binary_code op found)
  unfolding binary_code
  binary_code-Lifts op none h = fail-Lifts _
  binary_code-Lifts op (some (opcode, args)) h =
      emit_here-Lifts opcode args 2 1 (h (opcode, args) refl)

  -- Pieces that each leave one value, and what makes one of them.
  gathered :
      (acts : List (Act F)) (after : Act F)
      → All (λ act. Lifts 0 1 act) acts
      → Lifts (length acts) 1 after
      → Lifts 0 1 (all_of acts ▷ after)
  gathered acts after h k = Lifts-cast refl (omega arith) (all_of-Lifts 1 acts h) ⨾ k

  syscall_code-Lifts :
      (name : Text) (r : LoweringError ⊎ List (Act F))
      → ((acts : List (Act F)) → r ≡ inr acts → All (λ act. Lifts 0 1 act) acts)
      → Lifts 0 1 (syscall_code name r)
  unfolding syscall_code stack_effect counted last_count text_eq
  syscall_code-Lifts name (inl e) h = record { lifts = λ s t k. absurd cc }
  syscall_code-Lifts name (inr acts) h = record {
    lifts =
        (push-Lifts (text_const name)
          ⨾ Lifts-cast {k' = 1} {m' = suc (length acts)} refl (omega arith)
              (Lifts-frame 1 (all_of-Lifts 1 acts (h acts refl)))
          ⨾ emit_here-Lifts (codes "SYSCALL") (count_const (length acts) ∷ []) (suc (length acts)) 1
              refl).lifts;
  }

  call_arguments-Lifts :
      (n : Names) (name : Text) (args : List (Act F)) (kwargs : List (Text × Act F))
      (acts : List (Act F))
      → All (λ act. Lifts 0 1 act) args
      → All (λ (e : Text × Act F). Lifts 0 1 e.1) kwargs
      → call_arguments n name args kwargs ≡ inr acts
      → All (λ act. Lifts 0 1 act) acts
  unfolding call_arguments
  call_arguments-Lifts n name args [] acts h k e =
      let q : args ≡ acts = cc in subst (All (λ act. Lifts 0 1 act)) q h
  call_arguments-Lifts n name args (kwarg ∷ kwargs) acts h k e =
      bind_call_arguments-All (λ act. Lifts 0 1 act) n _ name args (kwarg ∷ kwargs) acts
        (push-Lifts none_const) h k e

  skill_code-Lifts :
      (name : Text) (args : List (Act F)) (kwargs : List (Text × Act F))
      → All (λ act. Lifts 0 1 act) args
      → Lifts 0 1 (skill_code name args kwargs)
  unfolding skill_code stack_effect counted last_count text_eq
  skill_code-Lifts name args [] h = gathered args _ h (
      emit_here-Lifts (codes "CALL") (text_const name ∷ count_const (length args) ∷ [])
        (length args) 1 refl)
  skill_code-Lifts name args (kwarg ∷ kwargs) h = gathered args _ h (fail-Lifts _)

  call_code-Lifts :
      (n : Names) (name : Text) (syscall : Option Text) (args : List (Act F))
      (kwargs : List (Text × Act F))
      → All (λ act. Lifts 0 1 act) args
      → All (λ (e : Text × Act F). Lifts 0 1 e.1) kwargs
      → Lifts 0 1 (call_code n name syscall args kwargs)
  unfolding call_code
  call_code-Lifts n name none args kwargs h k = skill_code-Lifts name args kwargs h
  call_code-Lifts n name (some syscall) args kwargs h k =
      syscall_code-Lifts syscall _ (λ acts e. call_arguments-Lifts n syscall args kwargs acts h k e)

  added-Lifts : (parts : List (Act F)) → All (λ act. Lifts 0 1 act) parts → Lifts 1 1 (added parts)
  unfolding added stack_effect counted last_count find text_eq
  added-Lifts [] h = Lifts-frame 1 nothing-Lifts
  added-Lifts (part ∷ parts) (h, hs) =
      Lifts-frame 1 h ⨾ emit_here-Lifts (codes "ADD") [] 2 1 refl ⨾ added-Lifts parts hs

  fstring_code-Lifts :
      (parts : List (Act F)) → All (λ act. Lifts 0 1 act) parts → Lifts 0 1 (fstring_code parts)
  unfolding fstring_code
  fstring_code-Lifts [] h = push-Lifts (text_const [])
  fstring_code-Lifts (part ∷ parts) (h, hs) = h ⨾ added-Lifts parts hs

  item_code-Lifts : (b : Bool) (act : Act F) → Lifts 0 1 act → Lifts 0 1 (item_code b act)
  unfolding item_code
  item_code-Lifts true act h = fail-Lifts _
  item_code-Lifts false act h = h

  mutual
    unfolding lower_expr lower_exprs lower_items lower_kwargs lower_pairs lower_parts build_code
        unsupported_node stack_effect counted last_count find text_eq

    lower_expr-Lifts : (n : Names) (e : Expr F) → Lifts 0 1 (lower_expr n e)
    lower_expr-Lifts n (literal v) = push-Lifts v
    lower_expr-Lifts n (var name) = emit_here-Lifts (codes "LOAD") (text_const name ∷ []) 0 1 refl
    lower_expr-Lifts n (unary_op op e) = lower_expr-Lifts n e ⨾ unary_code-Lifts op
    lower_expr-Lifts n (binary_op op l r) =
        lower_expr-Lifts n l
        ⨾ Lifts-frame 1 (lower_expr-Lifts n r)
        ⨾ binary_code-Lifts op (find op binary_ops)
            (λ v f. find-All Binary op v binary_ops (binary_ops-Binary F) f)
    lower_expr-Lifts n (call name args kwargs) =
        call_code-Lifts n name (find (n.lower name) stdlib_calls) (lower_exprs n args)
          (lower_kwargs n kwargs) (lower_exprs-Lifts n args) (lower_kwargs-Lifts n kwargs)
    lower_expr-Lifts n (get_module m f args) =
        syscall_code-Lifts (module_syscall n m f) (inr (lower_exprs n args)) λ acts e.
          let q : lower_exprs n args ≡ acts = cc in
          subst (All (λ act. Lifts 0 1 act)) q (lower_exprs-Lifts n args)
    lower_expr-Lifts n (index t i) =
        lower_expr-Lifts n t
        ⨾ Lifts-frame 1 (lower_expr-Lifts n i)
        ⨾ emit_here-Lifts (codes "GETITEM") [] 2 1 refl
    lower_expr-Lifts n (list_literal items) =
        gathered (lower_items n items) _ (lower_items-Lifts n items)
          (emit_here-Lifts (codes "BUILD_LIST") _ (length (lower_items n items)) 1 refl)
    lower_expr-Lifts n (map_literal pairs) =
        all_of-Lifts 2 (lower_pairs n pairs) (lower_pairs-Lifts n pairs)
        ⨾ emit_here-Lifts (codes "BUILD_MAP") _ (2 * length (lower_pairs n pairs)) 1 refl
    lower_expr-Lifts n (fstring template parts) =
        fstring_code-Lifts (lower_parts n parts) (lower_parts-Lifts n parts)
    lower_expr-Lifts n (call_val e args) = fail-Lifts _
    lower_expr-Lifts n (lambda_expr params defaults body) = fail-Lifts _
    lower_expr-Lifts n (list_comp e v i c) = fail-Lifts _
    lower_expr-Lifts n (spread e) = fail-Lifts _
    lower_expr-Lifts n (slice t a b c) = fail-Lifts _

    lower_exprs-Lifts : (n : Names) (es : Exprs F) → All (λ act. Lifts 0 1 act) (lower_exprs n es)
    lower_exprs-Lifts n no_exprs = tt
    lower_exprs-Lifts n (next_expr e es) = (lower_expr-Lifts n e, lower_exprs-Lifts n es)

    lower_items-Lifts : (n : Names) (es : Exprs F) → All (λ act. Lifts 0 1 act) (lower_items n es)
    lower_items-Lifts n no_exprs = tt
    lower_items-Lifts n (next_expr e es) = (
      item_code-Lifts (is_spread e) (lower_expr n e) (lower_expr-Lifts n e),
      lower_items-Lifts n es,
    )

    lower_kwargs-Lifts :
        (n : Names) (es : KwArgs F) → All (λ (e : Text × Act F). Lifts 0 1 e.1) (lower_kwargs n es)
    lower_kwargs-Lifts n no_kwargs = tt
    lower_kwargs-Lifts n (next_kwarg name e es) = (lower_expr-Lifts n e, lower_kwargs-Lifts n es)

    lower_pairs-Lifts : (n : Names) (ps : Pairs F) → All (λ act. Lifts 0 2 act) (lower_pairs n ps)
    lower_pairs-Lifts n no_pairs = tt
    lower_pairs-Lifts n (next_pair k v ps) =
        (lower_expr-Lifts n k ⨾ Lifts-frame 1 (lower_expr-Lifts n v), lower_pairs-Lifts n ps)

    lower_parts-Lifts : (n : Names) (ps : Parts F) → All (λ act. Lifts 0 1 act) (lower_parts n ps)
    lower_parts-Lifts n no_parts = tt
    lower_parts-Lifts n (literal_part t ps) = (push-Lifts (text_const t), lower_parts-Lifts n ps)
    lower_parts-Lifts n (expr_part e ps) = (lower_expr-Lifts n e, lower_parts-Lifts n ps)

  -- When an expression is lowered, the state is as before but for code added at the end. Each
  -- instruction of that code has an effect on the operand stack, none takes more values than the code
  -- has put there, and together they leave one value more than there was.
  pub depth-lower_expr :
      (n : Names) (e : Expr F) (s t : Lowerer F)
      → lower_expr n e s ≡ inr t
      → (code : List (IrInstruction (Constant F))) × (t ≡ appended s code)
        × ((d : ℕ) → depth code d ≡ some (suc d))
  depth-lower_expr n e s t h =
      let (code, p, q) = (lower_expr-Lifts n e).lifts s t h in
      (
        code,
        p,
        λ d.
            let none : d ≡ 0 + d = omega arith in
            let one : 1 + d ≡ suc d = omega arith in
            ap (depth code) none ∙ q d ∙ ap (λ (x : ℕ). some x) one,
      )
