-- ===== src/Interp/Run.antt =====
-- `_tick`, `_handle_exception` and the loop of `run` of src/mellowlang/vm/interp/frame.py, errors.py
-- and execute.py, without what follows the loop: writing the kept values and the timeline.
use mellow_programming_langu.Prelude.{
  ℕ, zero, suc, ◌+◌, ◌-◌, Option, none, some, List, [], ◌∷◌, ltb, if◌then◌else◌, length, get_elem?,
  drop,
}
use mellow_programming_langu.Text.{Text, codes, is_empty}
use mellow_programming_langu.Interp.State.{
  Value, text_value, Instr, TryFrame, Machine, Error, sandbox, runtime, python, Setup, bind,
}
use mellow_programming_langu.Interp.Ops.{step, next, stopped, Result, done, raised, exec}

pub data Outcome (P : Type 0) : Type 0 where
  finished : Machine P → Outcome P
  failed : Error → Machine P → Outcome P

-- A round of the loop goes on with a machine or stops.
pub data Round (P : Type 0) : Type 0 where
  go : Machine P → Round P
  over : Outcome P → Round P

module _ {P : Type 0} (s : Setup P) where
  -- What `_tick` raises after it has counted the step.
  unfoldable pub tick_error : Machine P → Option Error
  tick_error m =
      if ltb s.max_steps m.steps
      then some (sandbox (codes "Step limit exceeded"))
      else if s.timed_out m.steps
      then some (sandbox (codes "Time limit exceeded"))
      else if ltb s.max_stack (length m.stack)
      then some (sandbox (codes "Stack limit exceeded"))
      else none

  -- The scopes of the handler: the name of the error, when there is one, is bound to its text.
  unfoldable pub with_error :
      Option Text → Text → List (List (Text × Value P)) → Option (List (List (Text × Value P)))
  with_error none text scopes = some scopes
  with_error (some name) text scopes =
      if is_empty name then some scopes else bind name (text_value text) scopes

  unfoldable pub caught : TryFrame → Machine P → Option (List (List (Text × Value P))) → Round P
  caught frame m none = over (failed (python (codes "list index out of range")) m)
  caught frame m (some scopes) = go (record m { variables = scopes; pc = frame.catch_pc })

  -- `_handle_exception`: the newest frame catches, with the stack cut to its length; without one
  -- the error leaves the loop.
  unfoldable pub handled : Error → Machine P → List TryFrame → Round P
  unfolding caught with_error
  handled e m [] = over (failed (runtime (s.error_text e m.pc)) m)
  handled e m (frame ∷ frames) =
      let m' = record m {
        try_stack = frames;
        stack = drop (length m.stack - frame.stack_len) m.stack;
      } in
      caught frame m' (with_error frame.err_name (s.error_text e m.pc) m.variables)

  unfoldable pub acted : Result P → Round P
  unfolding handled
  acted (done step m) = go (record m { pc = m.pc + 1 })
  acted (done next m) = go m
  acted (done stopped m) = over (finished m)
  acted (raised e m) = handled e m m.try_stack

  -- A round with the instruction at the counter; there is none behind the end.
  unfoldable pub fetched : Option (Instr P) → Machine P → Round P
  unfolding acted exec
  fetched none m = over (finished m)
  fetched (some i) m = acted (exec s i m)

  unfoldable pub ticked : Option Error → Machine P → Round P
  unfolding fetched
  ticked (some e) m = over (failed e m)
  ticked none m = fetched (get_elem? s.bytecode m.pc) m

  unfoldable pub round : Machine P → Round P
  unfolding ticked tick_error
  round m =
      let m' = record m { steps = m.steps + 1 } in
      if ltb m.pc (length s.bytecode) then ticked (tick_error m') m' else over (finished m)

  unfoldable pub after : Round P → (Machine P → Option (Outcome P)) → Option (Outcome P)
  after (go m) k = k m
  after (over o) k = some o

  -- The loop; `none` is fuel that ran out.
  unfoldable pub loop : ℕ → Machine P → Option (Outcome P)
  unfolding after round
  loop zero m = none
  loop (suc fuel) m = after (round m) (λ m'. loop fuel m')

  unfoldable pub run : Machine P → Option (Outcome P)
  unfolding loop
  run m = if m.halted then some (finished m) else loop (suc (s.max_steps - m.steps)) m
