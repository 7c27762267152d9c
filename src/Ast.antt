-- ===== src/Ast.antt =====
-- src/mellowlang/ast_nodes: expressions and statements. A list of nodes is a data type of its own.
use mellow_programming_langu.Prelude.{ℕ, Bool, Option, List}
use mellow_programming_langu.Prelude.Int.{ℤ}
use mellow_programming_langu.Text.{Text}

-- The constants of the source; `F` are Python's floats.
pub data Constant (F : Type 0) : Type 0 where
  none_const : Constant F
  bool_const : Bool → Constant F
  int_const : ℤ → Constant F
  float_const : F → Constant F
  text_const : Text → Constant F

mutual
  pub data Expr (F : Type 0) : Type 0 where
    literal : Constant F → Expr F
    var : Text → Expr F
    unary_op : Text → Expr F → Expr F
    binary_op : Text → Expr F → Expr F → Expr F
    call : Text → Exprs F → KwArgs F → Expr F
    index : Expr F → Expr F → Expr F
    list_literal : Exprs F → Expr F
    map_literal : Pairs F → Expr F
    fstring : Text → Parts F → Expr F
    get_module : Text → Text → Exprs F → Expr F
    call_val : Expr F → Exprs F → Expr F
    lambda_expr : List Text → KwArgs F → Stmts F → Expr F
    list_comp : Expr F → Text → Expr F → MaybeExpr F → Expr F
    spread : Expr F → Expr F
    slice : Expr F → MaybeExpr F → MaybeExpr F → MaybeExpr F → Expr F

  pub data MaybeExpr (F : Type 0) : Type 0 where
    no_expr : MaybeExpr F
    an_expr : Expr F → MaybeExpr F

  pub data Exprs (F : Type 0) : Type 0 where
    no_exprs : Exprs F
    next_expr : Expr F → Exprs F → Exprs F

  -- Named arguments, and the defaults of parameters.
  pub data KwArgs (F : Type 0) : Type 0 where
    no_kwargs : KwArgs F
    next_kwarg : Text → Expr F → KwArgs F → KwArgs F

  pub data Pairs (F : Type 0) : Type 0 where
    no_pairs : Pairs F
    next_pair : Expr F → Expr F → Pairs F → Pairs F

  pub data Parts (F : Type 0) : Type 0 where
    no_parts : Parts F
    literal_part : Text → Parts F → Parts F
    expr_part : Expr F → Parts F → Parts F

  -- A statement with its `_line` and `_col`; a line of 0 is a statement without them.
  pub data Stmt (F : Type 0) : Type 0 where
    located : ℕ → ℕ → Node F → Stmt F

  pub data Node (F : Type 0) : Type 0 where
    keep_stmt : Text → Expr F → Node F
    keep_multi_stmt : List Text → Exprs F → Node F
    assign_stmt : List Text → Exprs F → Node F
    expr_stmt : Expr F → Node F
    show_stmt : Exprs F → Node F
    precision_stmt : Expr F → Node F
    stop_stmt : Node F
    wait_stmt : Expr F → Node F
    save_stmt : Expr F → Expr F → Node F
    load_stmt : Expr F → Text → Node F
    put_stmt : Expr F → Text → Node F
    return_stmt : MaybeExpr F → Node F
    break_stmt continue_stmt : Node F
    try_stmt : Stmts F → Option Text → Stmts F → Stmts F → Node F
    skill_def : Text → List Text → Stmts F → KwArgs F → Node F
    if_group : Branches F → Stmts F → Node F
    loop_while : Expr F → Stmts F → Node F
    loop_for_each : Text → List Text → Expr F → Stmts F → Node F
    loop_for_map : Text → Text → Expr F → Stmts F → Node F
    do_block : Stmts F → Node F
    loop_for_range : Text → Expr F → Expr F → MaybeExpr F → Stmts F → Node F
    repeat_until : Stmts F → Expr F → Node F
    loop_count : Expr F → Stmts F → Node F
    on_def : Text → List Text → Stmts F → Node F
    get_module_stmt : Text → Text → Exprs F → Text → Node F
    import_stmt : Text → Text → Node F
    skill_def_v2 : Text → List Text → KwArgs F → Stmts F → Bool → Node F

  pub data Stmts (F : Type 0) : Type 0 where
    no_stmts : Stmts F
    next_stmt : Stmt F → Stmts F → Stmts F

  pub data Branches (F : Type 0) : Type 0 where
    no_branches : Branches F
    next_branch : Expr F → Stmts F → Branches F → Branches F
