-- ===== src/Lowering/Statements.antt =====
-- src/mellowlang/compiler/lowering/statements.py, and `lower` of driver.py.
use mellow_programming_langu.Prelude.{
  ℕ, ◌+◌, ◌⊎◌, inl, inr, List, [], ◌∷◌, ◌++◌, reverse, ltb, if◌then◌else◌, length,
}
use mellow_programming_langu.Text.{Text, codes, is_empty}
use mellow_programming_langu.Ast.{
  Constant, none_const, text_const, MaybeExpr, no_expr, an_expr, Stmt, located, Node, keep_stmt,
  keep_multi_stmt, assign_stmt, expr_stmt, show_stmt, precision_stmt, stop_stmt, wait_stmt,
  save_stmt, load_stmt, put_stmt, return_stmt, break_stmt, continue_stmt, try_stmt, skill_def,
  if_group, loop_while, loop_for_each, loop_for_map, do_block, loop_for_range, repeat_until,
  loop_count, on_def, get_module_stmt, import_stmt, skill_def_v2, Stmts, no_stmts, next_stmt,
  Branches, no_branches, next_branch,
}
use mellow_programming_langu.Backend.{IrProgram}
use mellow_programming_langu.Lowering.Machine.{
  LoweringError, Lowerer, Act, ◌▷◌, fail, nothing, emit, set_position, push_loop, pop_loop,
  jump_out, add_function, add_event, all_of, with_label, with_temp,
}
use mellow_programming_langu.Lowering.Arguments.{Names, module_syscall}
use mellow_programming_langu.Lowering.Expressions.{lower_expr, lower_exprs, count_const}

module _ {F : Type 0} where
  -- A run of instructions of one opcode, each with a name.
  unfoldable pub emit_names : Text → List Text → ℕ → ℕ → Act F
  emit_names op [] l c = nothing
  emit_names op (name ∷ names) l c = emit op (text_const name ∷ []) l c ▷ emit_names op names l c

  unfoldable pub emit_label : Text → ℕ → ℕ → Act F
  emit_label label l c = emit (codes "LABEL") (text_const label ∷ []) l c

  unfoldable pub emit_jump : Text → ℕ → ℕ → Act F
  emit_jump label l c = emit (codes "JUMP") (text_const label ∷ []) l c

  unfoldable pub emit_branch : Text → ℕ → ℕ → Act F
  emit_branch label l c = emit (codes "JUMP_IF_FALSE") (text_const label ∷ []) l c

  unfoldable pub emit_load : Text → ℕ → ℕ → Act F
  emit_load name l c = emit (codes "LOAD") (text_const name ∷ []) l c

  unfoldable pub emit_store : Text → ℕ → ℕ → Act F
  emit_store name l c = emit (codes "STORE") (text_const name ∷ []) l c

  unfoldable pub emit_count : ℕ → ℕ → ℕ → Act F
  emit_count n l c = emit (codes "PUSH") (count_const n ∷ []) l c

  -- The test of a counting loop, which leaves it at `end`.
  unfoldable pub test_less : Text → ℕ → ℕ → Act F
  test_less end l c = emit (codes "COMPARE") (text_const (codes "<") ∷ []) l c ▷ emit_branch end l c

  -- `print` of some values, which are on the stack.
  unfoldable pub emit_print : ℕ → ℕ → ℕ → Act F
  emit_print count l c =
      emit (if ltb 1 count then codes "PRINTN" else codes "PRINT") (count_const count ∷ []) l c

  -- A result that is kept under a name, or dropped.
  unfoldable pub keep_result : Text → ℕ → ℕ → Act F
  keep_result name l c =
      if is_empty name
      then emit (codes "POP") [] l c
      else emit (codes "STORE_AUTO") (text_const name ∷ []) l c

  -- A loop at `start` around a body, which it leaves at `end`.
  unfoldable pub loop_body : Text → Text → Act F → Act F
  loop_body end start body = push_loop end start ▷ body ▷ pop_loop

  -- The counter is one more, and the loop goes back to its start.
  unfoldable pub count_on : Text → Act F → Text → Text → ℕ → ℕ → Act F
  count_on counter step start end l c =
      emit_load counter l c
      ▷ step
      ▷ emit (codes "ADD") [] l c
      ▷ emit_store counter l c
      ▷ emit_jump start l c
      ▷ emit_label end l c

  -- The code of a definition, which the code around it jumps over, and its entry in a table.
  unfoldable pub definition : Text → Text → List Text → Act F → Act F → ℕ → ℕ → Act F
  definition skip entry params body add l c =
      emit_jump skip l c
      ▷ emit_label entry l c
      ▷ emit_names (codes "ARG") params l c
      ▷ body
      ▷ emit (codes "PUSH") (none_const ∷ []) l c
      ▷ emit (codes "RETURN") [] l c
      ▷ emit_label skip l c
      ▷ add

  unfoldable pub foreach_name : List Text → ℕ → ℕ → Act F
  foreach_name (name ∷ []) l c = emit_store name l c
  foreach_name [] l c = fail (codes "foreach unpacking is not yet supported in IR pipeline")
  foreach_name (name ∷ more ∷ names) l c =
      fail (codes "foreach unpacking is not yet supported in IR pipeline")

  unfoldable pub maybe_code : Names → MaybeExpr F → Act F → Act F
  maybe_code n no_expr default = default
  maybe_code n (an_expr e) default = lower_expr n e

  unfoldable pub unsupported_stmt : Text → Act F
  unsupported_stmt name = fail (codes "AST node not supported by IR pipeline: " ++ name)

  -- A loop of the form `loop start <= counter < limit`, with the code of its parts.
  unfoldable pub count_loop : Names → Act F → Act F → ℕ → ℕ → Act F
  count_loop n limit body l c = with_temp n.decimal (codes "count") λ counter.
      with_label n.decimal (codes "count_start") λ start.
        with_label n.decimal (codes "count_end") λ end.
          (emit_count 0 l c
            ▷ emit_store counter l c
            ▷ emit_label start l c
            ▷ emit_load counter l c
            ▷ limit
            ▷ test_less end l c
            ▷ loop_body end start body
            ▷ count_on counter (emit_count 1 l c) start end l c)

  unfoldable pub range_loop : Names → Text → Act F → Act F → Act F → Act F → ℕ → ℕ → Act F
  range_loop n var start end step body l c = with_temp n.decimal (codes "range_start") λ start_tmp.
      with_temp n.decimal (codes "range_end") λ end_tmp.
        with_temp n.decimal (codes "range_step") λ step_tmp.
          with_label n.decimal (codes "for_range") λ loop.
            with_label n.decimal (codes "for_range_end") λ end_label.
              (start
                ▷ emit_store start_tmp l c
                ▷ end
                ▷ emit_store end_tmp l c
                ▷ step
                ▷ emit_store step_tmp l c
                ▷ emit_load start_tmp l c
                ▷ emit_store var l c
                ▷ emit_label loop l c
                ▷ emit_load var l c
                ▷ emit_load end_tmp l c
                ▷ test_less end_label l c
                ▷ loop_body end_label loop body
                ▷ count_on var (emit_load step_tmp l c) loop end_label l c)

  unfoldable pub each_loop : Names → List Text → Act F → Act F → ℕ → ℕ → Act F
  each_loop n names iterable body l c = with_temp n.decimal (codes "foreach_items") λ items.
      with_temp n.decimal (codes "foreach_len") λ len.
        with_temp n.decimal (codes "foreach_idx") λ idx.
          with_label n.decimal (codes "foreach") λ loop.
            with_label n.decimal (codes "foreach_end") λ end_label.
              (iterable
                ▷ emit_store items l c
                ▷ emit_load items l c
                ▷ emit (codes "LEN") [] l c
                ▷ emit_store len l c
                ▷ emit_count 0 l c
                ▷ emit_store idx l c
                ▷ emit_label loop l c
                ▷ emit_load idx l c
                ▷ emit_load len l c
                ▷ test_less end_label l c
                ▷ emit_load items l c
                ▷ emit_load idx l c
                ▷ emit (codes "GETITEM") [] l c
                ▷ foreach_name names l c
                ▷ loop_body end_label loop body
                ▷ count_on idx (emit_count 1 l c) loop end_label l c)

  unfoldable pub while_loop : Names → Act F → Act F → ℕ → ℕ → Act F
  while_loop n cond body l c = with_label n.decimal (codes "while_start") λ start.
      with_label n.decimal (codes "while_end") λ end.
        (emit_label start l c
          ▷ cond
          ▷ emit_branch end l c
          ▷ loop_body end start body
          ▷ emit_jump start l c
          ▷ emit_label end l c)

  -- One branch of a conditional, which leaves it at `end`.
  unfoldable pub if_branch : Text → Text → Act F → Act F → ℕ → ℕ → Act F
  if_branch end next cond body l c =
      cond ▷ emit_branch next l c ▷ body ▷ emit_jump end l c ▷ emit_label next l c

  unfoldable pub skill_node : Names → Text → List Text → Act F → ℕ → ℕ → Act F
  skill_node n name params body l c = with_label n.decimal (codes "after_skill_" ++ name) λ skip.
      with_label n.decimal (codes "skill_" ++ name) λ entry.
        definition skip entry params body
          (add_function name
            (record { entry_label = entry; params = params; kind = codes "skill" }))
          l c

  unfoldable pub on_node : Names → Text → List Text → Act F → ℕ → ℕ → Act F
  on_node n event params body l c = with_label n.decimal (codes "after_on_" ++ event) λ skip.
      with_label n.decimal (codes "on_" ++ event) λ entry.
        definition skip entry params body
          (add_event event (record { entry_label = entry; params = params; kind = codes "event" }))
          l c

  unfoldable mutual
    -- `_stmt`: the position of the statement, then its code.
    pub lower_stmt : Names → Stmt F → Act F
    lower_stmt n (located line col node) s =
        (set_position line col ▷ λ s'.
        lower_node n node s'.current_position.0 s'.current_position.1 s')
          s

    pub lower_node : Names → Node F → ℕ → ℕ → Act F
    lower_node n (keep_stmt name e) l c =
        lower_expr n e ▷ emit (codes "STORE_KEEP") (text_const name ∷ []) l c
    lower_node n (keep_multi_stmt names es) l c =
        all_of (lower_exprs n es) ▷ emit_names (codes "STORE_KEEP") (reverse names) l c
    lower_node n (assign_stmt names es) l c =
        all_of (lower_exprs n es) ▷ emit_names (codes "STORE_AUTO") (reverse names) l c
    lower_node n (expr_stmt e) l c = lower_expr n e ▷ emit (codes "POP") [] l c
    lower_node n (show_stmt es) l c =
        all_of (lower_exprs n es) ▷ emit_print (length (lower_exprs n es)) l c
    lower_node n (precision_stmt e) l c = lower_expr n e ▷ emit (codes "SHOW_PREC") [] l c
    lower_node n stop_stmt l c = emit (codes "STOP") [] l c
    lower_node n (wait_stmt e) l c = lower_expr n e ▷ emit (codes "WAIT") [] l c
    lower_node n (save_stmt file value) l c =
        lower_expr n file ▷ lower_expr n value ▷ emit (codes "SAVE_VAL") [] l c
    lower_node n (load_stmt file name) l c =
        lower_expr n file ▷ emit (codes "LOAD_F") (text_const name ∷ []) l c
    lower_node n (put_stmt item name) l c =
        lower_expr n item ▷ emit_load name l c ▷ emit (codes "LIST_PUT") [] l c
    lower_node n (return_stmt e) l c =
        maybe_code n e (emit (codes "PUSH") (none_const ∷ []) l c) ▷ emit (codes "RETURN") [] l c
    lower_node n break_stmt l c =
        jump_out (λ ctx. ctx.break_label) (codes "break used outside loop")
          (λ label. emit_jump label l c)
    lower_node n continue_stmt l c =
        jump_out (λ ctx. ctx.continue_label) (codes "continue used outside loop")
          (λ label. emit_jump label l c)
    lower_node n (try_stmt body name handler final) l c = unsupported_stmt (codes "TryStmt")
    lower_node n (skill_def name params body defaults) l c =
        skill_node n name params (lower_stmts n body) l c
    lower_node n (if_group branches else_block) l c =
        with_label n.decimal (codes "if_end") λ end.
          (lower_branches n 0 end branches l c ▷ lower_stmts n else_block ▷ emit_label end l c)
    lower_node n (loop_while cond body) l c =
        while_loop n (lower_expr n cond) (lower_stmts n body) l c
    lower_node n (loop_for_each var_name names iterable body) l c =
        each_loop n names (lower_expr n iterable) (lower_stmts n body) l c
    lower_node n (loop_for_map key value e body) l c = unsupported_stmt (codes "LoopForMap")
    lower_node n (do_block body) l c = lower_stmts n body
    lower_node n (loop_for_range var start end step body) l c =
        range_loop n var (lower_expr n start) (lower_expr n end)
          (maybe_code n step (emit_count 1 l c)) (lower_stmts n body) l c
    lower_node n (repeat_until body cond) l c = unsupported_stmt (codes "RepeatUntil")
    lower_node n (loop_count limit body) l c =
        count_loop n (lower_expr n limit) (lower_stmts n body) l c
    lower_node n (on_def event params body) l c = on_node n event params (lower_stmts n body) l c
    lower_node n (get_module_stmt m f args name) l c =
        emit (codes "PUSH") (text_const (module_syscall n m f) ∷ []) l c
        ▷ all_of (lower_exprs n args)
        ▷ emit (codes "SYSCALL") (count_const (length (lower_exprs n args)) ∷ []) l c
        ▷ keep_result name l c
    lower_node n (import_stmt path alias) l c =
        emit (codes "IMPORT") (text_const path ∷ text_const alias ∷ []) l c
    lower_node n (skill_def_v2 name params defaults body lifted) l c =
        fail (codes "SkillDefV2/default args are not yet lowered in IR pipeline")

    pub lower_stmts : Names → Stmts F → Act F
    lower_stmts n no_stmts = nothing
    lower_stmts n (next_stmt stmt stmts) = lower_stmt n stmt ▷ lower_stmts n stmts

    pub lower_branches : Names → ℕ → Text → Branches F → ℕ → ℕ → Act F
    lower_branches n idx end no_branches l c = nothing
    lower_branches n idx end (next_branch cond body branches) l c =
        with_label n.decimal (codes "if_next_" ++ n.decimal idx)
          (λ next. if_branch end next (lower_expr n cond) (lower_stmts n body) l c)
        ▷ lower_branches n (idx + 1) end branches l c

  unfoldable pub new_lowerer : Lowerer F
  new_lowerer = record {
    instructions = [];
    functions = [];
    events = [];
    label_id = 0;
    temp_id = 0;
    loop_stack = [];
    current_position = (0, 1);
  }

  unfoldable pub ir_program : LoweringError ⊎ Lowerer F → LoweringError ⊎ IrProgram (Constant F)
  ir_program (inl e) = inl e
  ir_program (inr s) =
      inr (record { instructions = s.instructions; functions = s.functions; events = s.events })

  -- `lower` of driver.py
  unfoldable pub lower_program : Names → Stmts F → LoweringError ⊎ IrProgram (Constant F)
  unfolding ir_program
  lower_program n program =
      ir_program ((lower_stmts n program ▷ emit (codes "HALT") [] 0 1) new_lowerer)
