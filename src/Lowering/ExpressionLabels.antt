-- ===== src/Lowering/ExpressionLabels.antt =====
-- The labels of the code of an expression (expressions.py).
use mellow_programming_langu.Prelude.{
  ◌≡◌, refl, subst, ◌⊎◌, inl, inr, Bool, true, false, Option, none, some, List, [], ◌∷◌, Bool-cases,
  length, All,
}
use mellow_programming_langu.Text.{Text, codes, text_eq}
use mellow_programming_langu.Dict.{find}
use mellow_programming_langu.Ast.{
  Constant, none_const, text_const, Expr, literal, var, unary_op, binary_op, call, index,
  list_literal, map_literal, fstring, get_module, call_val, lambda_expr, list_comp, spread, slice,
  Exprs, no_exprs, next_expr, KwArgs, no_kwargs, next_kwarg, Pairs, no_pairs, next_pair, Parts,
  no_parts, literal_part, expr_part,
}
use mellow_programming_langu.Lowering.Machine.{LoweringError, Act, emit_here}
use mellow_programming_langu.Lowering.Tables.{stdlib_calls}
use mellow_programming_langu.Lowering.Arguments.{Names, module_syscall}
use mellow_programming_langu.Lowering.Expressions.{
  count_const, binary_ops, unary_code, binary_code, syscall_code, call_arguments, skill_code,
  call_code, added, fstring_code, build_code, unsupported_node, item_code, is_spread, lower_expr,
  lower_exprs, lower_items, lower_kwargs, lower_pairs, lower_parts,
}
use mellow_programming_langu.Lowering.Known.{fits, is_plain, Keeps}
use mellow_programming_langu.Lowering.Rules.{
  ◌⨟◌, fail-Keeps, nothing-Keeps, emit_here-Keeps, all_of-Keeps,
}
use mellow_programming_langu.Lowering.Bindings.{find-All, bind_call_arguments-All}
use mellow_programming_langu.Backend as Backend

-- The opcode of a binary operator.
abbrev Fits : {F : Type 0} → Text × List (Constant F) → Type 0
Fits v = (is_plain v.0 ≡ true) × (fits (find v.0 Backend.op_map) v.1 ≡ true)

binary_ops-Fits :
    (F : Type 0)
    → All {A = Text × (Text × List (Constant F))}
        (λ (e : Text × (Text × List (Constant F))). Fits e.1)
        binary_ops
unfolding is_plain fits find text_eq
binary_ops-Fits F = (
  (refl, refl),
  (
    (refl, refl),
    (
      (refl, refl),
      (
        (refl, refl),
        (
          (refl, refl),
          (
            (refl, refl),
            (
              (refl, refl),
              (
                (refl, refl),
                (
                  (refl, refl),
                  (
                    (refl, refl),
                    ((refl, refl), ((refl, refl), ((refl, refl), ((refl, refl), tt)))),
                  ),
                ),
              ),
            ),
          ),
        ),
      ),
    ),
  ),
)

module _ {F : Type 0} where
  push-Keeps : (v : Constant F) → Keeps (emit_here (codes "PUSH") (v ∷ []))
  unfolding is_plain fits find text_eq
  push-Keeps v = emit_here-Keeps (codes "PUSH") (v ∷ []) refl refl

  unary_code-Keeps : (op : Text) → Keeps {F = F} (unary_code op)
  unfolding unary_code is_plain fits find
  unary_code-Keeps op = elim (Bool-cases (text_eq op (codes "not"))) [
    | inl e ↦ rw e (emit_here-Keeps (codes "BOOL_NOT") [] refl refl)
    | inr e ↦ elim (Bool-cases (text_eq op (codes "-"))) [
      | inl e' ↦ rw (e, e') (push-Keeps _ ⨟ emit_here-Keeps (codes "MUL") [] refl refl)
      | inr e' ↦ rw (e, e') (fail-Keeps _)
    ]
  ]

  binary_code-Keeps :
      (op : Text) (found : Option (Text × List (Constant F)))
      → ((v : Text × List (Constant F)) → found ≡ some v → Fits v)
      → Keeps (binary_code op found)
  unfolding binary_code
  binary_code-Keeps op none h = fail-Keeps _
  binary_code-Keeps op (some (opcode, args)) h =
      emit_here-Keeps opcode args (h (opcode, args) refl).0 (h (opcode, args) refl).1

  syscall_code-Keeps :
      (name : Text) (r : LoweringError ⊎ List (Act F))
      → ((acts : List (Act F)) → r ≡ inr acts → All (λ act. Keeps act) acts)
      → Keeps (syscall_code name r)
  unfolding syscall_code is_plain fits find text_eq
  syscall_code-Keeps name (inl e) h P s t inv k = absurd cc
  syscall_code-Keeps name (inr acts) h P s t inv k =
      (push-Keeps (text_const name)
          ⨟ all_of-Keeps acts (h acts refl)
          ⨟ emit_here-Keeps (codes "SYSCALL") (count_const (length acts) ∷ []) refl refl)
        P s t inv k

  call_arguments-Keeps :
      (n : Names) (name : Text) (args : List (Act F)) (kwargs : List (Text × Act F))
      (acts : List (Act F))
      → All (λ act. Keeps act) args
      → All (λ (e : Text × Act F). Keeps e.1) kwargs
      → call_arguments n name args kwargs ≡ inr acts
      → All (λ act. Keeps act) acts
  unfolding call_arguments
  call_arguments-Keeps n name args [] acts h k e =
      let q : args ≡ acts = cc in subst (All (λ act. Keeps act)) q h
  call_arguments-Keeps n name args (kwarg ∷ kwargs) acts h k e =
      bind_call_arguments-All (λ act. Keeps act) n _ name args (kwarg ∷ kwargs) acts
        (push-Keeps none_const) h k e

  skill_code-Keeps :
      (name : Text) (args : List (Act F)) (kwargs : List (Text × Act F))
      → All (λ act. Keeps act) args
      → Keeps (skill_code name args kwargs)
  unfolding skill_code is_plain fits find text_eq
  skill_code-Keeps name args [] h =
      all_of-Keeps args h
      ⨟ emit_here-Keeps (codes "CALL") (text_const name ∷ count_const (length args) ∷ []) refl refl
  skill_code-Keeps name args (kwarg ∷ kwargs) h = all_of-Keeps args h ⨟ fail-Keeps _

  call_code-Keeps :
      (n : Names) (name : Text) (syscall : Option Text) (args : List (Act F))
      (kwargs : List (Text × Act F))
      → All (λ act. Keeps act) args
      → All (λ (e : Text × Act F). Keeps e.1) kwargs
      → Keeps (call_code n name syscall args kwargs)
  unfolding call_code
  call_code-Keeps n name none args kwargs h k = skill_code-Keeps name args kwargs h
  call_code-Keeps n name (some syscall) args kwargs h k =
      syscall_code-Keeps syscall _ (λ acts e. call_arguments-Keeps n syscall args kwargs acts h k e)

  added-Keeps : (parts : List (Act F)) → All (λ act. Keeps act) parts → Keeps (added parts)
  unfolding added is_plain fits find text_eq
  added-Keeps [] h = nothing-Keeps
  added-Keeps (part ∷ parts) (h, hs) =
      h ⨟ emit_here-Keeps (codes "ADD") [] refl refl ⨟ added-Keeps parts hs

  fstring_code-Keeps :
      (parts : List (Act F)) → All (λ act. Keeps act) parts → Keeps (fstring_code parts)
  unfolding fstring_code
  fstring_code-Keeps [] h = push-Keeps (text_const [])
  fstring_code-Keeps (part ∷ parts) (h, hs) = h ⨟ added-Keeps parts hs

  item_code-Keeps : (b : Bool) (act : Act F) → Keeps act → Keeps (item_code b act)
  unfolding item_code
  item_code-Keeps true act h = fail-Keeps _
  item_code-Keeps false act h = h

  mutual
    unfolding lower_expr lower_exprs lower_items lower_kwargs lower_pairs lower_parts build_code
        unsupported_node is_plain fits find text_eq

    pub lower_expr-Keeps : (n : Names) (e : Expr F) → Keeps (lower_expr n e)
    lower_expr-Keeps n (literal v) = push-Keeps v
    lower_expr-Keeps n (var name) = emit_here-Keeps (codes "LOAD") (text_const name ∷ []) refl refl
    lower_expr-Keeps n (unary_op op e) = lower_expr-Keeps n e ⨟ unary_code-Keeps op
    lower_expr-Keeps n (binary_op op l r) =
        lower_expr-Keeps n l
        ⨟ lower_expr-Keeps n r
        ⨟ binary_code-Keeps op (find op binary_ops)
            (λ v f. find-All Fits op v binary_ops (binary_ops-Fits F) f)
    lower_expr-Keeps n (call name args kwargs) =
        call_code-Keeps n name (find (n.lower name) stdlib_calls) (lower_exprs n args)
          (lower_kwargs n kwargs) (lower_exprs-Keeps n args) (lower_kwargs-Keeps n kwargs)
    lower_expr-Keeps n (get_module m f args) =
        syscall_code-Keeps (module_syscall n m f) (inr (lower_exprs n args)) λ acts e.
          let q : lower_exprs n args ≡ acts = cc in
          subst (All (λ act. Keeps act)) q (lower_exprs-Keeps n args)
    lower_expr-Keeps n (index t i) =
        lower_expr-Keeps n t ⨟ lower_expr-Keeps n i ⨟ emit_here-Keeps (codes "GETITEM") [] refl refl
    lower_expr-Keeps n (list_literal items) =
        all_of-Keeps (lower_items n items) (lower_items-Keeps n items)
        ⨟ emit_here-Keeps (codes "BUILD_LIST") _ refl refl
    lower_expr-Keeps n (map_literal pairs) =
        all_of-Keeps (lower_pairs n pairs) (lower_pairs-Keeps n pairs)
        ⨟ emit_here-Keeps (codes "BUILD_MAP") _ refl refl
    lower_expr-Keeps n (fstring template parts) =
        fstring_code-Keeps (lower_parts n parts) (lower_parts-Keeps n parts)
    lower_expr-Keeps n (call_val e args) = fail-Keeps _
    lower_expr-Keeps n (lambda_expr params defaults body) = fail-Keeps _
    lower_expr-Keeps n (list_comp e v i c) = fail-Keeps _
    lower_expr-Keeps n (spread e) = fail-Keeps _
    lower_expr-Keeps n (slice t a b c) = fail-Keeps _

    pub lower_exprs-Keeps : (n : Names) (es : Exprs F) → All (λ act. Keeps act) (lower_exprs n es)
    lower_exprs-Keeps n no_exprs = tt
    lower_exprs-Keeps n (next_expr e es) = (lower_expr-Keeps n e, lower_exprs-Keeps n es)

    lower_items-Keeps : (n : Names) (es : Exprs F) → All (λ act. Keeps act) (lower_items n es)
    lower_items-Keeps n no_exprs = tt
    lower_items-Keeps n (next_expr e es) = (
      item_code-Keeps (is_spread e) (lower_expr n e) (lower_expr-Keeps n e),
      lower_items-Keeps n es,
    )

    lower_kwargs-Keeps :
        (n : Names) (es : KwArgs F) → All (λ (e : Text × Act F). Keeps e.1) (lower_kwargs n es)
    lower_kwargs-Keeps n no_kwargs = tt
    lower_kwargs-Keeps n (next_kwarg name e es) = (lower_expr-Keeps n e, lower_kwargs-Keeps n es)

    lower_pairs-Keeps : (n : Names) (ps : Pairs F) → All (λ act. Keeps act) (lower_pairs n ps)
    lower_pairs-Keeps n no_pairs = tt
    lower_pairs-Keeps n (next_pair k v ps) =
        (lower_expr-Keeps n k ⨟ lower_expr-Keeps n v, lower_pairs-Keeps n ps)

    lower_parts-Keeps : (n : Names) (ps : Parts F) → All (λ act. Keeps act) (lower_parts n ps)
    lower_parts-Keeps n no_parts = tt
    lower_parts-Keeps n (literal_part t ps) = (push-Keeps (text_const t), lower_parts-Keeps n ps)
    lower_parts-Keeps n (expr_part e ps) = (lower_expr-Keeps n e, lower_parts-Keeps n ps)
