-- ===== src/Lowering/Tests.antt =====
-- A loop that is left at once, and a skill.
use mellow_programming_langu.Prelude.{ℕ, suc, ◌≡◌, refl, inr, some, List, [], ◌∷◌, replicate}
use mellow_programming_langu.Text.{Text, codes, text_eq}
use mellow_programming_langu.Dict.{find, put}
use mellow_programming_langu.Prelude.Int.{pos, negsuc}
use mellow_programming_langu.Lowering.Effect.{appended, depth}
use mellow_programming_langu.Lowering.Stack.{depth-lower_expr}
use mellow_programming_langu.Ast.{
  Expr, index, unary_op, int_const, Constant, none_const, text_const, var, Stmts, no_stmts,
  next_stmt, located, loop_while, no_kwargs, break_stmt, skill_def, binary_op, literal,
}
use mellow_programming_langu.Backend as Backend
use mellow_programming_langu.Backend.{IrInstruction, IrProgram, BytecodeBundle}
use mellow_programming_langu.Lowering.Arguments.{Names}
use mellow_programming_langu.Lowering.Statements.{
  lower_program, lower_stmts, while_loop, loop_body, skill_node, definition, emit_names, emit_label,
  emit_jump, emit_branch, ir_program, new_lowerer,
}
use mellow_programming_langu.Lowering.Machine.{
  ◌▷◌, and_then, nothing, emit, emit_here, set_position, position_of, push_loop, pop_loop, jump_out,
  out_of, add_function, with_label,
}
use mellow_programming_langu.Lowering.Expressions.{unary_code, binary_code, lower_expr}
use mellow_programming_langu.Lowering.Assembly.{lower-lower_program}

-- A number as that many strokes.
abbrev strokes : Names
strokes = record { lower = λ t. t; decimal = λ n. replicate n b'1'; allowlist = [] }

abbrev printed : Constant Unit → Text
printed (text_const t) = t
printed _ = codes "?"

abbrev program : Stmts Unit
program =
    next_stmt
      (located 1 3 (loop_while (var (codes "x")) (next_stmt (located 2 5 break_stmt) no_stmts)))
      (next_stmt (located 3 1 (skill_def (codes "f") (codes "a" ∷ []) no_stmts no_kwargs)) no_stmts)

abbrev at : ℕ → ℕ → Text → List (Constant Unit) → IrInstruction (Constant Unit)
at line col op args = record { op = op; args = args; line = line; col = col }

abbrev ir : IrProgram (Constant Unit)
ir = record {
  instructions =
      at 1 3 (codes "LABEL") (text_const (codes "while_start_1") ∷ [])
      ∷ at 1 3 (codes "LOAD") (text_const (codes "x") ∷ [])
      ∷ at 1 3 (codes "JUMP_IF_FALSE") (text_const (codes "while_end_11") ∷ [])
      ∷ at 2 5 (codes "JUMP") (text_const (codes "while_end_11") ∷ [])
      ∷ at 1 3 (codes "JUMP") (text_const (codes "while_start_1") ∷ [])
      ∷ at 1 3 (codes "LABEL") (text_const (codes "while_end_11") ∷ [])
      ∷ at 3 1 (codes "JUMP") (text_const (codes "after_skill_f_111") ∷ [])
      ∷ at 3 1 (codes "LABEL") (text_const (codes "skill_f_1111") ∷ [])
      ∷ at 3 1 (codes "ARG") (text_const (codes "a") ∷ [])
      ∷ at 3 1 (codes "PUSH") (none_const ∷ [])
      ∷ at 3 1 (codes "RETURN") []
      ∷ at 3 1 (codes "LABEL") (text_const (codes "after_skill_f_111") ∷ [])
      ∷ at 0 1 (codes "HALT") []
      ∷ [];
  functions =
      (
        codes "f",
        record {
          entry_label = codes "skill_f_1111";
          params = codes "a" ∷ [];
          kind = codes "skill";
        },
      )
      ∷ [];
  events = [];
}

lowered : lower_program strokes program ≡ inr ir
unfolding lower_program lower_stmts lower_expr while_loop loop_body skill_node definition emit_names
    emit_label emit_jump emit_branch ir_program new_lowerer ◌▷◌ and_then nothing emit emit_here
    set_position position_of push_loop pop_loop jump_out out_of add_function with_label find put
    text_eq
lowered = refl

lower-lower_program_example :
    (b : BytecodeBundle (Constant Unit)) × (Backend.lower printed printed ir ≡ inr b)
lower-lower_program_example =
    lower-lower_program printed printed (λ t. refl) strokes program ir lowered

-- `xs[-i] + 2`
abbrev sum : Expr Unit
sum =
    binary_op (codes "+") (index (var (codes "xs")) (unary_op (codes "-") (var (codes "i"))))
      (literal (int_const (pos 2)))

abbrev sum_code : List (IrInstruction (Constant Unit))
sum_code =
    at 0 1 (codes "LOAD") (text_const (codes "xs") ∷ [])
    ∷ at 0 1 (codes "LOAD") (text_const (codes "i") ∷ [])
    ∷ at 0 1 (codes "PUSH") (int_const (negsuc 0) ∷ [])
    ∷ at 0 1 (codes "MUL") []
    ∷ at 0 1 (codes "GETITEM") []
    ∷ at 0 1 (codes "PUSH") (int_const (pos 2) ∷ [])
    ∷ at 0 1 (codes "ADD") []
    ∷ []

lowered_sum : lower_expr strokes sum new_lowerer ≡ inr (appended new_lowerer sum_code)
unfolding lower_expr unary_code binary_code new_lowerer ◌▷◌ and_then emit emit_here find text_eq
lowered_sum = refl

depth-lower_expr_example :
    (code : List (IrInstruction (Constant Unit))) × (appended new_lowerer sum_code
      ≡ appended new_lowerer code)
    × ((d : ℕ) → depth code d ≡ some (suc d))
depth-lower_expr_example =
    depth-lower_expr strokes sum new_lowerer (appended new_lowerer sum_code) lowered_sum
