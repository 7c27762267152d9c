-- ===== src/Lowering/Expressions.antt =====
-- src/mellowlang/compiler/lowering/expressions.py: an expression is a run of instructions.
use mellow_programming_langu.Prelude.{
  ℕ, ◌⊎◌, inl, inr, Bool, true, false, Option, none, some, List, [], ◌∷◌, ◌++◌, if◌then◌else◌,
  length,
}
use mellow_programming_langu.Prelude.Int.{pos, negsuc}
use mellow_programming_langu.Text.{Text, codes, text_eq}
use mellow_programming_langu.Dict.{find}
use mellow_programming_langu.Ast.{
  Constant, none_const, int_const, text_const, Expr, literal, var, unary_op, binary_op, call, index,
  list_literal, map_literal, fstring, get_module, call_val, lambda_expr, list_comp, spread, slice,
  Exprs, no_exprs, next_expr, KwArgs, no_kwargs, next_kwarg, Pairs, no_pairs, next_pair, Parts,
  no_parts, literal_part, expr_part,
}
use mellow_programming_langu.Lowering.Machine.{
  LoweringError, Act, ◌▷◌, fail, nothing, emit_here, all_of,
}
use mellow_programming_langu.Lowering.Tables.{stdlib_calls}
use mellow_programming_langu.Lowering.Arguments.{Names, bind_call_arguments, module_syscall}

abbrev pub count_const : {F : Type 0} → ℕ → Constant F
count_const n = int_const (pos n)

module _ {F : Type 0} where
  -- `binary_ops` of a binary operator: the opcode and its arguments
  abbrev pub binary_ops : List (Text × (Text × List (Constant F)))
  binary_ops =
      (codes "+", (codes "ADD", []))
      ∷ (codes "-", (codes "SUB", []))
      ∷ (codes "*", (codes "MUL", []))
      ∷ (codes "/", (codes "DIV", []))
      ∷ (codes "%", (codes "MOD", []))
      ∷ (codes "**", (codes "POW_OP", []))
      ∷ (codes "and", (codes "BOOL_AND", []))
      ∷ (codes "or", (codes "BOOL_OR", []))
      ∷ (codes "==", (codes "COMPARE", text_const (codes "==") ∷ []))
      ∷ (codes "!=", (codes "COMPARE", text_const (codes "!=") ∷ []))
      ∷ (codes ">", (codes "COMPARE", text_const (codes ">") ∷ []))
      ∷ (codes "<", (codes "COMPARE", text_const (codes "<") ∷ []))
      ∷ (codes ">=", (codes "COMPARE", text_const (codes ">=") ∷ []))
      ∷ (codes "<=", (codes "COMPARE", text_const (codes "<=") ∷ []))
      ∷ []

  unfoldable pub unary_code : Text → Act F
  unary_code op =
      let negate =
        emit_here (codes "PUSH") (int_const (negsuc 0) ∷ []) ▷ emit_here (codes "MUL") [] in
      if text_eq op (codes "not")
      then emit_here (codes "BOOL_NOT") []
      else if text_eq op (codes "-")
      then negate
      else fail (codes "unsupported unary operator: " ++ op)

  unfoldable pub binary_code : Text → Option (Text × List (Constant F)) → Act F
  binary_code op none = fail (codes "unsupported binary operator: " ++ op)
  binary_code op (some (opcode, args)) = emit_here opcode args

  -- A system call with its arguments, where binding them has not failed.
  unfoldable pub syscall_code : Text → LoweringError ⊎ List (Act F) → Act F
  syscall_code name (inl e) s = inl e
  syscall_code name (inr args) s =
      (emit_here (codes "PUSH") (text_const name ∷ [])
          ▷ all_of args
          ▷ emit_here (codes "SYSCALL") (count_const (length args) ∷ []))
        s

  -- The arguments of a system call: the named ones are bound to their slots.
  unfoldable pub call_arguments :
      Names → Text → List (Act F) → List (Text × Act F) → LoweringError ⊎ List (Act F)
  call_arguments n name args [] = inr args
  call_arguments n name args (kwarg ∷ kwargs) =
      bind_call_arguments n (emit_here (codes "PUSH") (none_const ∷ [])) name args (kwarg ∷ kwargs)

  unfoldable pub skill_code : Text → List (Act F) → List (Text × Act F) → Act F
  skill_code name args [] =
      all_of args ▷ emit_here (codes "CALL") (text_const name ∷ count_const (length args) ∷ [])
  skill_code name args (kwarg ∷ kwargs) =
      all_of args ▷ fail (codes "named arguments are not yet lowered in IR pipeline")

  unfoldable pub call_code : Names → Text → Option Text → List (Act F) → List (Text × Act F) → Act F
  unfolding syscall_code call_arguments skill_code
  call_code n name none args kwargs = skill_code name args kwargs
  call_code n name (some syscall_name) args kwargs =
      syscall_code syscall_name (call_arguments n syscall_name args kwargs)

  -- The parts behind the first one, each added to what is there.
  unfoldable pub added : List (Act F) → Act F
  added [] = nothing
  added (part ∷ parts) = part ▷ emit_here (codes "ADD") [] ▷ added parts

  unfoldable pub fstring_code : List (Act F) → Act F
  unfolding added
  fstring_code [] = emit_here (codes "PUSH") (text_const [] ∷ [])
  fstring_code (part ∷ parts) = part ▷ added parts

  -- A list or a map behind its items.
  unfoldable pub build_code : Text → ℕ → List (Act F) → Act F
  build_code op n items = all_of items ▷ emit_here op (count_const n ∷ [])

  unfoldable pub unsupported_node : Text → Act F
  unsupported_node name = fail (codes "Expr node not supported by IR pipeline: " ++ name)

  unfoldable pub is_spread : Expr F → Bool
  is_spread (spread e) = true
  is_spread _ = false

  -- An item of a list, which may not be spread.
  unfoldable pub item_code : Bool → Act F → Act F
  item_code true act = fail (codes "spread in list literals is not yet lowered in IR pipeline")
  item_code false act = act

  unfoldable mutual
    unfolding unary_code binary_code syscall_code call_code fstring_code build_code unsupported_node
        item_code is_spread

    -- `_expr`
    pub lower_expr : Names → Expr F → Act F
    lower_expr n (literal v) = emit_here (codes "PUSH") (v ∷ [])
    lower_expr n (var name) = emit_here (codes "LOAD") (text_const name ∷ [])
    lower_expr n (unary_op op e) = lower_expr n e ▷ unary_code op
    lower_expr n (binary_op op l r) =
        lower_expr n l ▷ lower_expr n r ▷ binary_code op (find op binary_ops)
    lower_expr n (call name args kwargs) =
        call_code n name (find (n.lower name) stdlib_calls) (lower_exprs n args)
          (lower_kwargs n kwargs)
    lower_expr n (get_module m f args) =
        syscall_code (module_syscall n m f) (inr (lower_exprs n args))
    lower_expr n (index t i) = lower_expr n t ▷ lower_expr n i ▷ emit_here (codes "GETITEM") []
    lower_expr n (list_literal items) =
        build_code (codes "BUILD_LIST") (length (lower_items n items)) (lower_items n items)
    lower_expr n (map_literal pairs) =
        build_code (codes "BUILD_MAP") (length (lower_pairs n pairs)) (lower_pairs n pairs)
    lower_expr n (fstring template parts) = fstring_code (lower_parts n parts)
    lower_expr n (call_val e args) = unsupported_node (codes "CallValExpr")
    lower_expr n (lambda_expr params defaults body) = unsupported_node (codes "LambdaExpr")
    lower_expr n (list_comp e v i c) = unsupported_node (codes "ListCompExpr")
    lower_expr n (spread e) = unsupported_node (codes "SpreadExpr")
    lower_expr n (slice t a b c) = unsupported_node (codes "SliceExpr")

    -- What lowers each argument.
    pub lower_exprs : Names → Exprs F → List (Act F)
    lower_exprs n no_exprs = []
    lower_exprs n (next_expr e es) = lower_expr n e ∷ lower_exprs n es

    pub lower_items : Names → Exprs F → List (Act F)
    lower_items n no_exprs = []
    lower_items n (next_expr e es) = item_code (is_spread e) (lower_expr n e) ∷ lower_items n es

    pub lower_kwargs : Names → KwArgs F → List (Text × Act F)
    lower_kwargs n no_kwargs = []
    lower_kwargs n (next_kwarg name e es) = (name, lower_expr n e) ∷ lower_kwargs n es

    -- What lowers each pair, the key first.
    pub lower_pairs : Names → Pairs F → List (Act F)
    lower_pairs n no_pairs = []
    lower_pairs n (next_pair k v ps) = (lower_expr n k ▷ lower_expr n v) ∷ lower_pairs n ps

    pub lower_parts : Names → Parts F → List (Act F)
    lower_parts n no_parts = []
    lower_parts n (literal_part t ps) =
        emit_here (codes "PUSH") (text_const t ∷ []) ∷ lower_parts n ps
    lower_parts n (expr_part e ps) = lower_expr n e ∷ lower_parts n ps
