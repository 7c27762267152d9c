-- ===== src/Interp/State.antt =====
-- The state of src/mellowlang/vm/interp/frame.py, with the debugger off and no replay, the scopes,
-- and the errors. Stacks are lists with the top at the head.
use mellow_programming_langu.Prelude.{ℕ, ◌⊎◌, Bool, true, false, Option, none, some, List, [], ◌∷◌}
unfoldable pub use mellow_programming_langu.Dict.{find, put, or_else, is_some}
use mellow_programming_langu.Text.{Text}

-- A value; numbers, lists, maps and what else Python holds are the objects.
pub data Value (P : Type 0) : Type 0 where
  none_value : Value P
  bool_value : Bool → Value P
  text_value : Text → Value P
  func_value : Text → Value P
  object : P → Value P

-- The instructions for control, bindings and calls, which are a part of OP_HANDLERS of execute.py;
-- a program with others, for arithmetic, collections, input and output, system calls or imports, is
-- not modelled. `unknown` is an opcode without a handler.
pub data Instr (P : Type 0) : Type 0 where
  halt stop : Instr P
  try_begin : ℕ → ℕ → Option Text → Instr P
  try_end : Instr P
  jump jump_if_false : ℕ → Instr P
  call : Text → ℕ → Instr P
  call_val : ℕ → Instr P
  return : Instr P
  arg : Text → Instr P
  push : Value P → Instr P
  push_func : Text → Instr P
  store store_auto store_keep load : Text → Instr P
  pop : Instr P
  unknown : ℕ → Instr P

pub record TryFrame : Type 0 where
  pub catch_pc : ℕ
  pub finally_pc : ℕ
  pub err_name : Option Text
  pub stack_len : ℕ

pub record FuncMeta : Type 0 where
  pub address : ℕ
  pub param_count : ℕ

pub record Machine (P : Type 0) : Type 0 where
  pub pc : ℕ
  pub stack : List (Value P)
  pub variables : List (List (Text × Value P))
  pub call_stack : List ℕ
  pub frame_stack : List Text
  pub try_stack : List TryFrame
  pub keep_values : List (Text × Value P)
  pub keep_dirty : Bool
  pub halted : Bool
  pub steps : ℕ

-- What the handlers and the loop raise: a refusal of the sandbox, an error of the program, or an
-- exception of Python.
pub data Error : Type 0 where
  sandbox runtime python : Text → Error

-- The program and its limits. From outside come the truth of an object, the reading of a number (`none` is
-- its `ValueError`),
-- what the limits say of a list or a map, the clock, and the text of an error at a position; also
-- the built-in functions for ranges and storage, which take their arguments off the operand stack
-- and leave an error or the stack with their result, and are `none` for any other name.
pub record Setup (P : Type 0) : Type 0 where
  pub bytecode : List (Instr P)
  pub func_table : List (Text × FuncMeta)
  pub max_steps : ℕ
  pub max_stack : ℕ
  pub max_string_len : ℕ
  pub keep_enabled : Bool
  pub lower : Text → Text
  pub is_digit : ℕ → Bool
  pub truth : P → Bool
  pub number : Text → Option P
  pub object_error : P → Option Text
  pub timed_out : ℕ → Bool
  pub builtin : Text → ℕ → List (Value P) → Option ((Error × List (Value P)) ⊎ List (Value P))
  pub error_text : Error → ℕ → Text

module _ {P : Type 0} where
  -- `self.stack.pop() if self.stack else default`: the value, and the stack that is left.
  unfoldable pub popped : Value P → List (Value P) → Value P × List (Value P)
  popped default [] = (default, [])
  popped default (v ∷ stack) = (v, stack)

  -- `self.variables[-1][name] = value`; `none` is the `IndexError` when there is no scope.
  unfoldable pub bind :
      Text → Value P → List (List (Text × Value P)) → Option (List (List (Text × Value P)))
  unfolding put
  bind name value [] = none
  bind name value (scope ∷ scopes) = some (put name value scope ∷ scopes)

  -- The first scope from the inside that has the name.
  unfoldable pub find_scoped : Text → List (List (Text × Value P)) → Option (Value P)
  unfolding find or_else
  find_scoped name [] = none
  find_scoped name (scope ∷ scopes) = or_else (find name scope) (find_scoped name scopes)

  unfoldable pub truthy : Setup P → Value P → Bool
  truthy s none_value = false
  truthy s (bool_value b) = b
  truthy s (text_value t) = elim t [ [] ↦ false | c ∷ t' ↦ true ]
  truthy s (func_value f) = true
  truthy s (object p) = s.truth p
