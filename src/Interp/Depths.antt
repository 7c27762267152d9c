-- ===== src/Interp/Depths.antt =====
-- What one instruction of src/mellowlang/vm/interp does to the counter of steps and to the depths of
-- the scopes, the return addresses and the frames.
use mellow_programming_langu.Prelude.{
  ℕ, suc, ◌-◌, ◌≡◌, refl, ap, ◌⊎◌, inl, inr, Bool, true, false, ◌&&◌, Option, none, some, List, [],
  ◌∷◌, ◌++◌, arith, ltb, if_split, length, drop, length-drop,
}
use mellow_programming_langu.Text.{Text}
use mellow_programming_langu.Interp.State.{
  Value, text_value, Instr, Machine, Error, Setup, bind, FuncMeta, none_value, bool_value,
  func_value, object, find, popped, truthy, halt, stop, try_begin, try_end, jump, jump_if_false,
  call, call_val, return, arg, push, push_func, store, store_auto, store_keep, load, pop, unknown,
  is_some,
}
use mellow_programming_langu.Interp.Ops.{
  step, next, stopped, Result, done, raised, exec, pushed, exec_push, bound, stored, exec_load,
  call_skill, call_builtin, exec_call, call_ref, exec_call_val, exec_return, exec_jump_if_false,
  entered, keep_value, return_pc, push_loaded, call_found, loaded, callee, pop_args, normalized,
  value_error,
}

module _ {P : Type 0} (s : Setup P) where
  pub record Same (m m' : Machine P) : Type 0 where
    pub steps : m'.steps ≡ m.steps
    pub scopes : length m'.variables ≡ length m.variables
    pub calls : length m'.call_stack ≡ length m.call_stack
    pub frames : length m'.frame_stack ≡ length m.frame_stack

  pub record Entered (m m' : Machine P) : Type 0 where
    pub steps : m'.steps ≡ m.steps
    pub scopes : length m'.variables ≡ suc (length m.variables)
    pub calls : length m'.call_stack ≡ suc (length m.call_stack)
    pub frames : length m'.frame_stack ≡ suc (length m.frame_stack)

  pub record Left (m m' : Machine P) : Type 0 where
    pub steps : m'.steps ≡ m.steps
    pub scopes : length m'.variables ≡ length m.variables - 1
    pub calls : length m'.call_stack ≡ length m.call_stack - 1
    pub frames : length m'.frame_stack ≡ length m.frame_stack - 1
    pub ended : length m.call_stack ≡ 0 → m'.pc ≡ length s.bytecode

  -- An exception leaves the depths; an action may also enter or leave a frame, then it is `next`.
  abbrev pub Moves : Machine P → Result P → Type 0
  Moves m (raised e m') = Same m m'
  Moves m (done step m') = Same m m'
  Moves m (done stopped m') = Same m m'
  Moves m (done next m') = Same m m' ⊎ (Entered m m' ⊎ Left m m')

  still : (m : Machine P) → Same m m
  still m = record { steps = refl; scopes = refl; calls = refl; frames = refl }

  pushed-Moves : (e : Option Error) (v : Value P) (m : Machine P) → Moves m (pushed s e v m)
  unfolding pushed
  pushed-Moves none v m = record { steps = refl; scopes = refl; calls = refl; frames = refl }
  pushed-Moves (some e) v m = still m

  exec_push-Moves : (o : Option (Value P)) (m : Machine P) → Moves m (exec_push s o m)
  unfolding exec_push
  exec_push-Moves none m = still m
  exec_push-Moves (some v) m = pushed-Moves (value_error s v) v m

  -- The scopes after binding a name in the innermost one.
  abbrev pub Bound : Machine P → Option (List (List (Text × Value P))) → Type 0
  Bound m none = Unit
  Bound m (some scopes) = length scopes ≡ length m.variables

  pub bind-Bound :
      (name : Text) (v : Value P) (m : Machine P) (scopes : List (List (Text × Value P)))
      → length scopes ≡ length m.variables
      → Bound m (bind name v scopes)
  unfolding bind
  bind-Bound name v m [] e = tt
  bind-Bound name v m (scope ∷ scopes) e = e

  bound-Moves :
      (kept : Bool) (name : Text) (v : Value P) (m m' : Machine P)
      (o : Option (List (List (Text × Value P))))
      → Same m m'
      → Bound m o
      → Moves m (bound s kept name v o m')
  unfolding bound keep_value
  bound-Moves kept name v m m' none h b = h
  bound-Moves true name v m m' (some scopes) h b = record {
    steps = h.steps;
    scopes = b;
    calls = h.calls;
    frames = h.frames;
  }
  bound-Moves false name v m m' (some scopes) h b = record {
    steps = h.steps;
    scopes = b;
    calls = h.calls;
    frames = h.frames;
  }

  stored-Moves : (kept : Bool) (name : Text) (m : Machine P) → Moves m (stored s kept name m)
  unfolding stored
  stored-Moves kept name m =
      let (v, stack) = popped none_value m.stack in
      bound-Moves kept name v m (record m { stack = stack }) (bind name v m.variables)
        (record { steps = refl; scopes = refl; calls = refl; frames = refl })
        (bind-Bound name v m m.variables refl)

  push_loaded-Moves :
      (name : Text) (o : Option (Value P)) (m : Machine P) → Moves m (push_loaded s name o m)
  unfolding push_loaded
  push_loaded-Moves name none m = still m
  push_loaded-Moves name (some v) m = record {
    steps = refl;
    scopes = refl;
    calls = refl;
    frames = refl;
  }

  call_builtin-Moves :
      (o : Option ((Error × List (Value P)) ⊎ List (Value P))) (name : Text) (m : Machine P)
      → Moves m (call_builtin s o name m)
  unfolding call_builtin
  call_builtin-Moves none name m = still m
  call_builtin-Moves (some (inl (e, stack))) name m = record {
    steps = refl;
    scopes = refl;
    calls = refl;
    frames = refl;
  }
  call_builtin-Moves (some (inr stack)) name m =
      inl (record { steps = refl; scopes = refl; calls = refl; frames = refl })

  entered-Entered :
      (name : Text) (meta : FuncMeta) (missing : ℕ) (m m' : Machine P)
      → Same m m'
      → Entered m (entered s name meta missing m')
  unfolding entered
  entered-Entered name meta missing m m' h = record {
    steps = h.steps;
    scopes = ap suc h.scopes;
    calls = ap suc h.calls;
    frames = ap suc h.frames;
  }

  call_skill-Moves :
      (o : Option FuncMeta) (name : Text) (argc : ℕ) (m : Machine P)
      → Moves m (call_skill s o name argc m)
  unfolding call_skill
  call_skill-Moves none name argc m = call_builtin-Moves (s.builtin name argc m.stack) name m
  call_skill-Moves (some meta) name argc m =
      if_split (Moves m) (ltb meta.param_count argc) (λ _. still m)
        (λ _. inr (inl (entered-Entered name meta (meta.param_count - argc) m m (still m))))

  call_found-Moves :
      (name : Text) (o : Option FuncMeta) (args : List (Value P)) (argc : ℕ) (m m' : Machine P)
      → Same m m'
      → Moves m (call_found s name o args argc m')
  unfolding call_found
  call_found-Moves name none args argc m m' h = record {
    steps = h.steps;
    scopes = h.scopes;
    calls = h.calls;
    frames = h.frames;
  }
  call_found-Moves name (some meta) args argc m m' h = inr (
      inl (
        entered-Entered name meta (meta.param_count - argc) m
          (record m' { stack = args ++ m'.stack })
          (record { steps = h.steps; scopes = h.scopes; calls = h.calls; frames = h.frames })))

  call_ref-Moves :
      (ref : Value P) (args : List (Value P)) (argc : ℕ) (m m' : Machine P)
      → Same m m'
      → Moves m (call_ref s ref args argc m')
  unfolding call_ref
  call_ref-Moves (func_value f) args argc m m' h =
      call_found-Moves f (find f s.func_table) args argc m m' h
  call_ref-Moves none_value args argc m m' h = record {
    steps = h.steps;
    scopes = h.scopes;
    calls = h.calls;
    frames = h.frames;
  }
  call_ref-Moves (bool_value b) args argc m m' h = record {
    steps = h.steps;
    scopes = h.scopes;
    calls = h.calls;
    frames = h.frames;
  }
  call_ref-Moves (text_value t) args argc m m' h = record {
    steps = h.steps;
    scopes = h.scopes;
    calls = h.calls;
    frames = h.frames;
  }
  call_ref-Moves (object p) args argc m m' h = record {
    steps = h.steps;
    scopes = h.scopes;
    calls = h.calls;
    frames = h.frames;
  }

  length-drop_one : {A : Type 0} (xs : List A) → length (drop 1 xs) ≡ length xs - 1
  length-drop_one xs = length-drop 1 xs

  return_pc-end : (calls : List ℕ) → length calls ≡ 0 → return_pc s calls ≡ length s.bytecode
  unfolding return_pc
  return_pc-end [] h = refl
  return_pc-end (pc ∷ calls) h = omega arith

  exec_return-Moves : (m : Machine P) → Moves m (exec_return s m)
  unfolding exec_return
  exec_return-Moves m = inr (
      inr (record {
        steps = refl;
        scopes = length-drop_one m.variables;
        calls = length-drop_one m.call_stack;
        frames = length-drop_one m.frame_stack;
        ended = return_pc-end m.call_stack;
      }))

  jump_if_false-Moves : (target : ℕ) (m : Machine P) → Moves m (exec_jump_if_false s target m)
  unfolding exec_jump_if_false
  jump_if_false-Moves target m =
      let (v, stack) = popped (bool_value false) m.stack in
      if_split (Moves m) (truthy s v)
        (λ _. record { steps = refl; scopes = refl; calls = refl; frames = refl })
        (λ _. inl (record { steps = refl; scopes = refl; calls = refl; frames = refl }))

  -- Every instruction moves the depths in one of the four ways.
  pub exec-Moves : (i : Instr P) (m : Machine P) → Moves m (exec s i m)
  unfolding exec exec_load exec_call exec_call_val
  exec-Moves halt m = record { steps = refl; scopes = refl; calls = refl; frames = refl }
  exec-Moves stop m = record { steps = refl; scopes = refl; calls = refl; frames = refl }
  exec-Moves (try_begin catch finally err) m = record {
    steps = refl;
    scopes = refl;
    calls = refl;
    frames = refl;
  }
  exec-Moves try_end m = record { steps = refl; scopes = refl; calls = refl; frames = refl }
  exec-Moves (jump target) m =
      inl (record { steps = refl; scopes = refl; calls = refl; frames = refl })
  exec-Moves (jump_if_false target) m = jump_if_false-Moves target m
  exec-Moves (call name argc) m =
      call_skill-Moves (find (callee s name m) s.func_table) (callee s name m) argc m
  exec-Moves (call_val argc) m =
      let (args, below) = pop_args s argc m.stack in
      let (ref, rest) = popped none_value below in
      call_ref-Moves ref args argc m (record m { stack = rest })
        (record { steps = refl; scopes = refl; calls = refl; frames = refl })
  exec-Moves return m = exec_return-Moves m
  exec-Moves (arg name) m = stored-Moves false name m
  exec-Moves (push v) m = exec_push-Moves (normalized s v) m
  exec-Moves (push_func name) m = record {
    steps = refl;
    scopes = refl;
    calls = refl;
    frames = refl;
  }
  exec-Moves (store name) m = stored-Moves false name m
  exec-Moves (store_auto name) m =
      stored-Moves (s.keep_enabled && is_some (find name m.keep_values)) name m
  exec-Moves (store_keep name) m = stored-Moves s.keep_enabled name m
  exec-Moves (load name) m = push_loaded-Moves name (loaded s name m) m
  exec-Moves pop m = record { steps = refl; scopes = refl; calls = refl; frames = refl }
  exec-Moves (unknown op) m = still m
