-- ===== src/Lowering/Machine.antt =====
-- src/mellowlang/compiler/lowering/driver.py: the state of the lowering, and what adds to it. The
-- newest loop is the head of `loop_stack`.
use mellow_programming_langu.Prelude.{
  ℕ, ◌+◌, ◌⊎◌, inl, inr, List, [], ◌∷◌, ◌++◌, ◌==◌, if◌then◌else◌, drop,
}
use mellow_programming_langu.Text.{Text, codes}
use mellow_programming_langu.Ast.{Constant}
use mellow_programming_langu.Dict.{put}
use mellow_programming_langu.Backend.{IrInstruction, IrFunction}

pub record LoopCtx : Type 0 where
  pub break_label : Text
  pub continue_label : Text

pub record Lowerer (F : Type 0) : Type 0 where
  pub instructions : List (IrInstruction (Constant F))
  pub functions : List (Text × IrFunction)
  pub events : List (Text × IrFunction)
  pub label_id : ℕ
  pub temp_id : ℕ
  pub loop_stack : List LoopCtx
  pub current_position : ℕ × ℕ

-- `UnsupportedLoweringError`
pub data LoweringError : Type 0 where
  unsupported : Text → LoweringError

-- A piece of the lowering: it changes the state or raises.
abbrev pub Act : Type 0 → Type 0
Act F = Lowerer F → LoweringError ⊎ Lowerer F

module _ {F : Type 0} where
  unfoldable pub and_then : LoweringError ⊎ Lowerer F → Act F → LoweringError ⊎ Lowerer F
  and_then (inl e) act = inl e
  and_then (inr s) act = act s

  infixr 30 ◌▷◌
  unfoldable pub ◌▷◌ : Act F → Act F → Act F
  unfolding and_then
  ◌▷◌ a b s = and_then (a s) b

  unfoldable pub fail : Text → Act F
  fail message s = inl (unsupported message)

  unfoldable pub nothing : Act F
  nothing s = inr s

  -- `emit` with a position; `int(col or 1)`
  unfoldable pub emit : Text → List (Constant F) → ℕ → ℕ → Act F
  emit op args line col s = inr (record s {
    instructions =
        s.instructions
        ++ record { op = op; args = args; line = line; col = if col == 0 then 1 else col } ∷ [];
  })

  -- `emit` at the position of an expression: nodes of expressions carry none, so it is the current.
  unfoldable pub emit_here : Text → List (Constant F) → Act F
  unfolding emit
  emit_here op args s = emit op args s.current_position.0 s.current_position.1 s

  -- `pos` of a statement
  unfoldable pub position_of : ℕ → ℕ → Lowerer F → ℕ × ℕ
  position_of line col s =
      if line == 0 then s.current_position else (line, if col == 0 then 1 else col)

  unfoldable pub set_position : ℕ → ℕ → Act F
  unfolding position_of
  set_position line col s = inr (record s { current_position = position_of line col s })

  unfoldable pub push_loop : Text → Text → Act F
  push_loop break_label continue_label s = inr (record s {
    loop_stack =
        record { break_label = break_label; continue_label = continue_label } ∷ s.loop_stack;
  })

  unfoldable pub pop_loop : Act F
  pop_loop s = inr (record s { loop_stack = drop 1 s.loop_stack })

  -- Goes on with the label of the newest loop.
  unfoldable pub out_of : (LoopCtx → Text) → Text → (Text → Act F) → List LoopCtx → Act F
  unfolding fail
  out_of label message k [] = fail message
  out_of label message k (ctx ∷ loops) = k (label ctx)

  unfoldable pub jump_out : (LoopCtx → Text) → Text → (Text → Act F) → Act F
  unfolding out_of
  jump_out label message k s = out_of label message k s.loop_stack s

  unfoldable pub add_function : Text → IrFunction → Act F
  add_function name meta s = inr (record s { functions = put name meta s.functions })

  unfoldable pub add_event : Text → IrFunction → Act F
  add_event name meta s = inr (record s { events = put name meta s.events })

  -- One piece after the other.
  unfoldable pub all_of : List (Act F) → Act F
  unfolding nothing
  all_of [] = nothing
  all_of (act ∷ acts) = act ▷ all_of acts

  -- `new_label` and `new_temp`, where `decimal` writes a number: what follows gets the name.
  module _ (decimal : ℕ → Text) where
    unfoldable pub with_label : Text → (Text → Act F) → Act F
    with_label prefix k s =
        k (prefix ++ (codes "_" ++ decimal (s.label_id + 1)))
          (record s { label_id = s.label_id + 1 })

    unfoldable pub with_temp : Text → (Text → Act F) → Act F
    with_temp prefix k s =
        k (prefix ++ (codes "_" ++ decimal (s.temp_id + 1))) (record s { temp_id = s.temp_id + 1 })
