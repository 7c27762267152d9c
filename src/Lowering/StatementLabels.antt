-- ===== src/Lowering/StatementLabels.antt =====
-- The labels of the code of a statement (statements.py).
use mellow_programming_langu.Prelude.{ℕ, ◌+◌, refl, List, [], ◌∷◌, reverse, Member, here}
use mellow_programming_langu.Text.{Text, codes, text_eq}
use mellow_programming_langu.Dict.{find}
use mellow_programming_langu.Ast.{
  none_const, text_const, MaybeExpr, no_expr, an_expr, Stmt, located, Node, keep_stmt,
  keep_multi_stmt, assign_stmt, expr_stmt, show_stmt, precision_stmt, stop_stmt, wait_stmt,
  save_stmt, load_stmt, put_stmt, return_stmt, break_stmt, continue_stmt, try_stmt, skill_def,
  if_group, loop_while, loop_for_each, loop_for_map, do_block, loop_for_range, repeat_until,
  loop_count, on_def, get_module_stmt, import_stmt, skill_def_v2, Stmts, no_stmts, next_stmt,
  Branches, no_branches, next_branch,
}
use mellow_programming_langu.Lowering.Machine.{Act}
use mellow_programming_langu.Lowering.Arguments.{Names, module_syscall}
use mellow_programming_langu.Lowering.Expressions.{lower_exprs}
use mellow_programming_langu.Lowering.Statements.{
  emit_label, emit_jump, emit_load, maybe_code, unsupported_stmt, skill_node, on_node, lower_stmt,
  lower_node, lower_stmts, lower_branches,
}
use mellow_programming_langu.Lowering.Known.{fits, is_plain, Triple, Keeps}
use mellow_programming_langu.Lowering.Rules.{
  ◌⟫◌, ◌⨟◌, fail-Keeps, nothing-Keeps, emit-Keeps, pending, set_position-Keeps, with_label-Triple,
  all_of-Keeps,
}
use mellow_programming_langu.Lowering.Tabled.{
  add_function-Triple, add_event-Triple, break-Keeps, continue-Keeps,
}
use mellow_programming_langu.Lowering.ExpressionLabels.{lower_expr-Keeps, lower_exprs-Keeps}
use mellow_programming_langu.Lowering.PieceLabels.{
  emit_names-Keeps, load-Keeps, count-Keeps, print-Keeps, keep_result-Keeps, closes,
}
use mellow_programming_langu.Lowering.LoopLabels.{
  while_loop-Keeps, count_loop-Keeps, range_loop-Keeps, each_loop-Keeps, if_branch-Triple,
  definition-Triple,
}

module _ {F : Type 0} where
  maybe_code-Keeps :
      (n : Names) (e : MaybeExpr F) (default : Act F)
      → Keeps default
      → Keeps (maybe_code n e default)
  unfolding maybe_code
  maybe_code-Keeps n no_expr default h = h
  maybe_code-Keeps n (an_expr e) default h = lower_expr-Keeps n e

  skill_node-Keeps :
      (n : Names) (name : Text) (params : List Text) (body : Act F) (l c : ℕ)
      → Keeps body
      → Keeps (skill_node n name params body l c)
  unfolding skill_node
  skill_node-Keeps n name params body l c h P = with_label-Triple n.decimal _ λ skip.
      with_label-Triple n.decimal _ λ entry.
        definition-Triple skip entry params body _ l c h (add_function-Triple name _ (here refl))

  on_node-Keeps :
      (n : Names) (event : Text) (params : List Text) (body : Act F) (l c : ℕ)
      → Keeps body
      → Keeps (on_node n event params body l c)
  unfolding on_node
  on_node-Keeps n event params body l c h P = with_label-Triple n.decimal _ λ skip.
      with_label-Triple n.decimal _ λ entry.
        definition-Triple skip entry params body _ l c h (add_event-Triple event _ (here refl))

  -- What a statement does at its position.
  placed :
      (code : ℕ → ℕ → Act F)
      → ((l c : ℕ) → Keeps (code l c))
      → Keeps (λ s. code s.current_position.0 s.current_position.1 s)
  placed code h P s = h s.current_position.0 s.current_position.1 P s

  mutual
    unfolding lower_stmt lower_node lower_stmts lower_branches unsupported_stmt emit_jump emit_load
        emit_label is_plain fits find text_eq

    lower_stmt-Keeps : (n : Names) (stmt : Stmt F) → Keeps (lower_stmt n stmt)
    lower_stmt-Keeps n (located line col node) P s =
        (set_position-Keeps line col ⨟ placed (lower_node n node) (lower_node-Keeps n node)) P s

    lower_node-Keeps : (n : Names) (node : Node F) (l c : ℕ) → Keeps (lower_node n node l c)
    lower_node-Keeps n (keep_stmt name e) l c =
        lower_expr-Keeps n e ⨟ emit-Keeps (codes "STORE_KEEP") (text_const name ∷ []) l c refl refl
    lower_node-Keeps n (keep_multi_stmt names es) l c =
        all_of-Keeps (lower_exprs n es) (lower_exprs-Keeps n es)
        ⨟ emit_names-Keeps (codes "STORE_KEEP") (reverse names) l c refl (λ name. refl)
    lower_node-Keeps n (assign_stmt names es) l c =
        all_of-Keeps (lower_exprs n es) (lower_exprs-Keeps n es)
        ⨟ emit_names-Keeps (codes "STORE_AUTO") (reverse names) l c refl (λ name. refl)
    lower_node-Keeps n (expr_stmt e) l c =
        lower_expr-Keeps n e ⨟ emit-Keeps (codes "POP") [] l c refl refl
    lower_node-Keeps n (show_stmt es) l c =
        all_of-Keeps (lower_exprs n es) (lower_exprs-Keeps n es) ⨟ print-Keeps _ l c
    lower_node-Keeps n (precision_stmt e) l c =
        lower_expr-Keeps n e ⨟ emit-Keeps (codes "SHOW_PREC") [] l c refl refl
    lower_node-Keeps n stop_stmt l c = emit-Keeps (codes "STOP") [] l c refl refl
    lower_node-Keeps n (wait_stmt e) l c =
        lower_expr-Keeps n e ⨟ emit-Keeps (codes "WAIT") [] l c refl refl
    lower_node-Keeps n (save_stmt file value) l c =
        lower_expr-Keeps n file
        ⨟ lower_expr-Keeps n value
        ⨟ emit-Keeps (codes "SAVE_VAL") [] l c refl refl
    lower_node-Keeps n (load_stmt file name) l c =
        lower_expr-Keeps n file ⨟ emit-Keeps (codes "LOAD_F") (text_const name ∷ []) l c refl refl
    lower_node-Keeps n (put_stmt item name) l c =
        lower_expr-Keeps n item
        ⨟ load-Keeps name l c
        ⨟ emit-Keeps (codes "LIST_PUT") [] l c refl refl
    lower_node-Keeps n (return_stmt e) l c =
        maybe_code-Keeps n e _ (emit-Keeps (codes "PUSH") (none_const ∷ []) l c refl refl)
        ⨟ emit-Keeps (codes "RETURN") [] l c refl refl
    lower_node-Keeps n break_stmt l c = break-Keeps _ l c
    lower_node-Keeps n continue_stmt l c = continue-Keeps _ l c
    lower_node-Keeps n (try_stmt body name handler final) l c = fail-Keeps _
    lower_node-Keeps n (skill_def name params body defaults) l c =
        skill_node-Keeps n name params _ l c (lower_stmts-Keeps n body)
    lower_node-Keeps n (if_group branches else_block) l c = λ P.
        with_label-Triple n.decimal _ λ end. pending end (
          lower_branches-Triple n 0 end branches l c (here refl)
          ⟫ lower_stmts-Keeps n else_block (end ∷ P)
          ⟫ closes end l c)
    lower_node-Keeps n (loop_while cond body) l c =
        while_loop-Keeps n _ _ l c (lower_expr-Keeps n cond) (lower_stmts-Keeps n body)
    lower_node-Keeps n (loop_for_each var_name names iterable body) l c =
        each_loop-Keeps n names _ _ l c (lower_expr-Keeps n iterable) (lower_stmts-Keeps n body)
    lower_node-Keeps n (loop_for_map key value e body) l c = fail-Keeps _
    lower_node-Keeps n (do_block body) l c = lower_stmts-Keeps n body
    lower_node-Keeps n (loop_for_range var start end step body) l c =
        range_loop-Keeps n var _ _ _ _ l c (lower_expr-Keeps n start) (lower_expr-Keeps n end)
          (maybe_code-Keeps n step _ (count-Keeps 1 l c)) (lower_stmts-Keeps n body)
    lower_node-Keeps n (repeat_until body cond) l c = fail-Keeps _
    lower_node-Keeps n (loop_count limit body) l c =
        count_loop-Keeps n _ _ l c (lower_expr-Keeps n limit) (lower_stmts-Keeps n body)
    lower_node-Keeps n (on_def event params body) l c =
        on_node-Keeps n event params _ l c (lower_stmts-Keeps n body)
    lower_node-Keeps n (get_module_stmt m f args name) l c =
        emit-Keeps (codes "PUSH") (text_const (module_syscall n m f) ∷ []) l c refl refl
        ⨟ all_of-Keeps (lower_exprs n args) (lower_exprs-Keeps n args)
        ⨟ emit-Keeps (codes "SYSCALL") _ l c refl refl
        ⨟ keep_result-Keeps name l c
    lower_node-Keeps n (import_stmt path alias) l c =
        emit-Keeps (codes "IMPORT") (text_const path ∷ text_const alias ∷ []) l c refl refl
    lower_node-Keeps n (skill_def_v2 name params defaults body lifted) l c = fail-Keeps _

    pub lower_stmts-Keeps : (n : Names) (stmts : Stmts F) → Keeps (lower_stmts n stmts)
    lower_stmts-Keeps n no_stmts = nothing-Keeps
    lower_stmts-Keeps n (next_stmt stmt stmts) = lower_stmt-Keeps n stmt ⨟ lower_stmts-Keeps n stmts

    lower_branches-Triple :
        {P : List Text} (n : Names) (idx : ℕ) (end : Text) (branches : Branches F) (l c : ℕ)
        → Member end P
        → Triple P (lower_branches n idx end branches l c) P
    lower_branches-Triple {P} n idx end no_branches l c m = nothing-Keeps P
    lower_branches-Triple n idx end (next_branch cond body branches) l c m =
        if_branch-Triple n _ end _ _ l c m (lower_expr-Keeps n cond) (lower_stmts-Keeps n body)
        ⟫ lower_branches-Triple n (idx + 1) end branches l c m
