-- ===== src/Interp/Tests.antt =====
-- A program that calls a skill on a text, and runs of its instructions.
use mellow_programming_langu.Prelude.{
  ℕ, ◌≡◌, refl, false, ◌&&◌, Option, none, some, List, [], ◌∷◌, ltb, leb, length,
}
use mellow_programming_langu.Text.{codes}
use mellow_programming_langu.Interp.State.{
  Value, none_value, text_value, halt, call, return, arg, push, load, Machine, runtime, Setup, find,
  popped, bind, find_scoped, or_else,
}
use mellow_programming_langu.Interp.Ops.{
  step, next, done, exec, exec_call, stored, exec_return, exec_load,
}
use mellow_programming_langu.Interp.Run.{Outcome, finished, go, round, run, loop, handled}
use mellow_programming_langu.Interp.Limits.{run_ends}
use mellow_programming_langu.Interp.Scopes.{IsSound, here, then, reached-IsSound}
use mellow_programming_langu.Interp.Calls.{call_returns, try_catches, store_load}

abbrev setup : Setup ℕ
setup = record {
  bytecode =
      push (text_value (codes "hi"))
      ∷ call (codes "f") 1
      ∷ halt
      ∷ arg (codes "x")
      ∷ load (codes "x")
      ∷ return
      ∷ [];
  func_table = (codes "f", record { address = 3; param_count = 1 }) ∷ [];
  max_steps = 100;
  max_stack = 10;
  max_string_len = 20;
  keep_enabled = false;
  lower = λ t. t;
  is_digit = λ c. leb b'0' c && leb c b'9';
  truth = λ n. ltb 0 n;
  number = λ t. some (length t);
  object_error = λ n. none;
  timed_out = λ n. false;
  builtin = λ name argc stack. none;
  error_text = λ e pc. codes "error";
}

abbrev machine : Machine ℕ
machine = record {
  pc = 0;
  stack = [];
  variables = [] ∷ [];
  call_stack = [];
  frame_stack = [];
  try_stack = [];
  keep_values = [];
  keep_dirty = false;
  halted = false;
  steps = 0;
}

-- The machine at the CALL, with its argument.
abbrev calling : Machine ℕ
calling = record machine { pc = 1; stack = text_value (codes "hi") ∷ [] }

abbrev called : Machine ℕ
called = record calling {
  pc = 3;
  variables = [] ∷ [] ∷ [];
  call_stack = 2 ∷ [];
  frame_stack = codes "f" ∷ [];
}

run_ends_example : (o : Outcome ℕ) × (run setup machine ≡ some o)
run_ends_example = run_ends setup machine

abbrev final_stack : Option (Outcome ℕ) → List (Value ℕ)
final_stack (some (finished m)) = m.stack
final_stack _ = []

greets : final_stack (run setup machine) ≡ text_value (codes "hi") ∷ []
unfolding run loop round exec exec_call find or_else find_scoped stored bind popped exec_load
    exec_return
greets = refl

reached-IsSound_example : IsSound setup (record called { steps = 1 })
unfolding round exec exec_call find or_else find_scoped
reached-IsSound_example =
    reached-IsSound setup calling (record called { steps = 1 })
      (record { scopes = refl; frames = refl }) (then here refl)

call_returns_example :
    exec setup return (record called {
      pc = 5;
      stack = text_value (codes "hi") ∷ [];
      variables = ((codes "x", text_value (codes "hi")) ∷ []) ∷ [] ∷ [];
    })
    ≡ done next (record calling { pc = 2 })
unfolding exec exec_call find or_else find_scoped
call_returns_example =
    call_returns setup calling called (record called { pc = 5 }) (codes "f") 1
      (record { address = 3; param_count = 1 }) ((codes "x", text_value (codes "hi")) ∷ [])
      (text_value (codes "hi")) [] refl refl

abbrev trying : Machine ℕ
trying = record machine {
  pc = 1;
  try_stack = record { catch_pc = 7; finally_pc = 9; err_name = none; stack_len = 0 } ∷ [];
}

try_catches_example :
    handled setup
      (runtime (codes "bad"))
      (record called { stack = none_value ∷ []; try_stack = trying.try_stack })
      trying.try_stack
    ≡ go (record called { pc = 7; stack = []; try_stack = [] })
unfolding exec
try_catches_example =
    try_catches setup machine (record machine { try_stack = trying.try_stack }) called 7 9
      (runtime (codes "bad")) (none_value ∷ []) refl

store_load_example :
    exec setup
      (load (codes "x"))
      (record machine { variables = ((codes "x", text_value (codes "hi")) ∷ []) ∷ [] })
    ≡ done step (record machine {
      stack = text_value (codes "hi") ∷ [];
      variables = ((codes "x", text_value (codes "hi")) ∷ []) ∷ [];
    })
unfolding exec stored bind popped
store_load_example =
    store_load setup machine (codes "x") [] [] (text_value (codes "hi")) []
      (record machine { variables = ((codes "x", text_value (codes "hi")) ∷ []) ∷ [] }) refl
