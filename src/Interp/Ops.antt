-- ===== src/Interp/Ops.antt =====
-- The handlers of src/mellowlang/vm/interp/op_control.py, op_bindings.py (less the seeds),
-- op_call.py (CALL, CALL_VAL, PUSH_FUNC) and POP of op_collections.py.
use mathlib.Core.Option
use mellow_programming_langu.Prelude.{
  ℕ, zero, suc, ◌+◌, ◌-◌, ◌⊎◌, inl, inr, Bool, true, false, ◌&&◌, ◌||◌, Option, none, some, List,
  [], ◌∷◌, ◌++◌, ltb, ◌==◌, if◌then◌else◌, length, drop, replicate,
}
use mellow_programming_langu.Text.{Text, codes, text_eq}
use mellow_programming_langu.Interp.State.{
  Value, none_value, bool_value, text_value, func_value, object, Instr, halt, stop, try_begin,
  try_end, jump, jump_if_false, call, call_val, return, arg, push, push_func, store, store_auto,
  store_keep, load, pop, unknown, FuncMeta, Machine, Error, sandbox, runtime, python, Setup, find,
  put, is_some, or_else, popped, bind, find_scoped, truthy,
}

-- `_STEP`, `_NEXT` and `_HALT` of actions.py
pub data Action : Type 0 where
  step next stopped : Action

-- What a handler does: an action, or an exception, with the machine that it leaves.
pub data Result (P : Type 0) : Type 0 where
  done : Action → Machine P → Result P
  raised : Error → Machine P → Result P

-- `s.replace(c, '', 1)`
pub remove_first : ℕ → Text → Text
remove_first c [] = []
remove_first c (d ∷ s) = let rest = remove_first c s in if c == d then s else d ∷ rest

all_digits : (ℕ → Bool) → Text → Bool
all_digits is_digit [] = true
all_digits is_digit (c ∷ s) = is_digit c && all_digits is_digit s

-- `s.isdigit()`, which is false for the empty text
pub isdigit : (ℕ → Bool) → Text → Bool
unfolding all_digits
isdigit is_digit [] = false
isdigit is_digit (c ∷ s) = all_digits is_digit (c ∷ s)

module _ {P : Type 0} (s : Setup P) where
  -- The value that PUSH makes of its operand; `none` is the `ValueError` of a text that looks like a
  -- number and is none.
  pub normalized : Value P → Option (Value P)
  unfolding isdigit remove_first
  normalized (text_value t) =
      let low = s.lower t in
      if text_eq low (codes "true")
      then some (bool_value true)
      else if text_eq low (codes "false")
      then some (bool_value false)
      else if text_eq low (codes "none") || text_eq low (codes "null")
      then some none_value
      else if isdigit s.is_digit (remove_first b'-' (remove_first b'.' t))
      then Option.map (λ (p : P). object p) (s.number t)
      else some (text_value t)
  normalized none_value = some none_value
  normalized (bool_value b) = some (bool_value b)
  normalized (func_value f) = some (func_value f)
  normalized (object p) = some (object p)

  -- `_enforce_value_limits`: what it raises
  pub value_error : Value P → Option Error
  value_error (text_value t) =
      if ltb s.max_string_len (length t) then some (sandbox (codes "String too large")) else none
  value_error (object p) = elim (s.object_error p) [ none ↦ none | some e ↦ some (sandbox e) ]
  value_error none_value = none
  value_error (bool_value b) = none
  value_error (func_value f) = none

  unfoldable pub pushed : Option Error → Value P → Machine P → Result P
  pushed none v m = done step (record m { stack = v ∷ m.stack })
  pushed (some e) v m = raised e m

  unfoldable pub exec_push : Option (Value P) → Machine P → Result P
  unfolding pushed value_error
  exec_push none m = raised (python (codes "could not convert string to a number")) m
  exec_push (some v) m = pushed (value_error v) v m

  unfoldable pub keep_value : Bool → Text → Value P → Machine P → Machine P
  keep_value kept name v m =
      if kept then record m { keep_values = put name v m.keep_values; keep_dirty = true } else m

  -- A step with new scopes, or the `IndexError` of `self.variables[-1]`.
  unfoldable pub bound :
      Bool → Text → Value P → Option (List (List (Text × Value P))) → Machine P → Result P
  unfolding keep_value
  bound kept name v none m = raised (python (codes "list index out of range")) m
  bound kept name v (some scopes) m =
      done step (record (keep_value kept name v m) { variables = scopes })

  -- A store takes the value off the stack first; then it binds the name, and keeps the value.
  unfoldable pub stored : Bool → Text → Machine P → Result P
  unfolding bound
  stored kept name m =
      let (v, stack) = popped none_value m.stack in
      bound kept name v (bind name v m.variables) (record m { stack = stack })

  -- A variable, from the inside out, or else a kept value.
  unfoldable pub known : Text → Machine P → Option (Value P)
  known name m =
      or_else (find_scoped name m.variables)
        (if s.keep_enabled then find name m.keep_values else none)

  -- What LOAD finds: a known value, or a skill.
  unfoldable pub loaded : Text → Machine P → Option (Value P)
  unfolding known
  loaded name m =
      or_else (known name m)
        (if is_some (find name s.func_table) then some (func_value name) else none)

  unfoldable pub push_loaded : Text → Option (Value P) → Machine P → Result P
  push_loaded name none m = raised (python (codes "undefined name: " ++ name)) m
  push_loaded name (some v) m = done step (record m { stack = v ∷ m.stack })

  unfoldable pub exec_load : Text → Machine P → Result P
  unfolding loaded push_loaded
  exec_load name m = push_loaded name (loaded name m) m

  -- The frame of a call, with `missing` values for the parameters without an argument.
  unfoldable pub entered : Text → FuncMeta → ℕ → Machine P → Machine P
  entered name meta missing m = record m {
    stack = replicate missing none_value ++ m.stack;
    call_stack = (m.pc + 1) ∷ m.call_stack;
    frame_stack = name ∷ m.frame_stack;
    variables = [] ∷ m.variables;
    pc = meta.address;
  }

  -- The skill that a value refers to, or else the name itself.
  pub referred : Text → Option (Value P) → Text
  referred name (some (func_value f)) = f
  referred name _ = name

  pub callee : Text → Machine P → Text
  unfolding referred known
  callee name m = referred name (known name m)

  -- What a built-in function leaves of the operand stack, also where it raises.
  unfoldable pub call_builtin :
      Option ((Error × List (Value P)) ⊎ List (Value P)) → Text → Machine P → Result P
  call_builtin none name m = raised (runtime (codes "Unknown skill: " ++ name)) m
  call_builtin (some (inl (e, stack))) name m = raised e (record m { stack = stack })
  call_builtin (some (inr stack)) name m = done next (record m { stack = stack; pc = m.pc + 1 })

  unfoldable pub call_skill : Option FuncMeta → Text → ℕ → Machine P → Result P
  unfolding entered call_builtin
  call_skill none name argc m = call_builtin (s.builtin name argc m.stack) name m
  call_skill (some meta) name argc m =
      if ltb meta.param_count argc
      then raised (sandbox (codes "too many args for " ++ name)) m
      else done next (entered name meta (meta.param_count - argc) m)

  unfoldable pub exec_call : Text → ℕ → Machine P → Result P
  unfolding callee call_skill
  exec_call name argc m = call_skill (find (callee name m) s.func_table) (callee name m) argc m

  -- The arguments, the last one first, and the stack below them.
  pub pop_args : ℕ → List (Value P) → List (Value P) × List (Value P)
  pop_args zero stack = ([], stack)
  pop_args (suc n) stack =
      let (v, below) = popped none_value stack in
      let (vs, rest) = pop_args n below in (v ∷ vs, rest)

  -- A value that is called: the arguments go back for a skill that is there.
  unfoldable pub call_found : Text → Option FuncMeta → List (Value P) → ℕ → Machine P → Result P
  unfolding entered
  call_found name none args argc m = done step (record m { stack = none_value ∷ m.stack })
  call_found name (some meta) args argc m =
      done next (entered name meta (meta.param_count - argc) (record m { stack = args ++ m.stack }))

  unfoldable pub call_ref : Value P → List (Value P) → ℕ → Machine P → Result P
  unfolding call_found
  call_ref (func_value name) args argc m = call_found name (find name s.func_table) args argc m
  call_ref none_value args argc m = done step (record m { stack = none_value ∷ m.stack })
  call_ref (bool_value b) args argc m = done step (record m { stack = none_value ∷ m.stack })
  call_ref (text_value t) args argc m = done step (record m { stack = none_value ∷ m.stack })
  call_ref (object p) args argc m = done step (record m { stack = none_value ∷ m.stack })

  unfoldable pub exec_call_val : ℕ → Machine P → Result P
  unfolding pop_args call_ref
  exec_call_val argc m =
      let (args, below) = pop_args argc m.stack in
      let (ref, rest) = popped none_value below in
      call_ref ref args argc (record m { stack = rest })

  -- Where RETURN goes: the newest return address, or behind the end of the bytecode.
  unfoldable pub return_pc : List ℕ → ℕ
  return_pc [] = length s.bytecode
  return_pc (pc ∷ calls) = pc

  unfoldable pub exec_return : Machine P → Result P
  unfolding return_pc
  exec_return m =
      let (v, stack) = popped none_value m.stack in
      done next (record m {
        stack = v ∷ stack;
        variables = drop 1 m.variables;
        pc = return_pc m.call_stack;
        call_stack = drop 1 m.call_stack;
        frame_stack = drop 1 m.frame_stack;
      })

  unfoldable pub exec_jump_if_false : ℕ → Machine P → Result P
  exec_jump_if_false target m =
      let (v, stack) = popped (bool_value false) m.stack in
      if truthy s v
      then done step (record m { stack = stack })
      else done next (record m { stack = stack; pc = target })

  -- The handler that OP_HANDLERS has for the instruction.
  unfoldable pub exec : Instr P → Machine P → Result P
  unfolding normalized exec_push stored exec_load exec_call exec_call_val exec_return
      exec_jump_if_false
  exec halt m = done stopped (record m { halted = true })
  exec stop m = done stopped (record m { halted = true })
  exec (try_begin catch finally err) m = done step (record m {
    try_stack =
        record {
          catch_pc = catch;
          finally_pc = finally;
          err_name = err;
          stack_len = length m.stack;
        }
        ∷ m.try_stack;
  })
  exec try_end m = done step (record m { try_stack = drop 1 m.try_stack })
  exec (jump target) m = done next (record m { pc = target })
  exec (jump_if_false target) m = exec_jump_if_false target m
  exec (call name argc) m = exec_call name argc m
  exec (call_val argc) m = exec_call_val argc m
  exec return m = exec_return m
  exec (arg name) m = stored false name m
  exec (push v) m = exec_push (normalized v) m
  exec (push_func name) m = done step (record m { stack = func_value name ∷ m.stack })
  exec (store name) m = stored false name m
  exec (store_auto name) m = stored (s.keep_enabled && is_some (find name m.keep_values)) name m
  exec (store_keep name) m = stored s.keep_enabled name m
  exec (load name) m = exec_load name m
  exec pop m = done step (record m { stack = drop 1 m.stack })
  exec (unknown op) m = raised (runtime (codes "Unknown opcode")) m
