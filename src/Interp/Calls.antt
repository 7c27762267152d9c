-- ===== src/Interp/Calls.antt =====
-- Pairs of instructions of src/mellowlang/vm/interp that belong together: a call and its return, a
-- try frame and the exception it catches, a store and a load.
use mellow_programming_langu.Prelude.{
  ℕ, ◌+◌, ◌-◌, ◌≡◌, refl, sym, ap, ◌∙◌, subst, inl, inr, Option, none, some, List, [], ◌∷◌, ◌++◌,
  arith, ltb, if◌then◌else◌, Bool-cases, length, length-append, drop,
}
use mellow_programming_langu.Text.{Text, codes}
use mellow_programming_langu.Dict.{find-put}
use mellow_programming_langu.Interp.State.{
  Value, func_value, is_some, or_else, Machine, Error, sandbox, Setup, bind, find, put, FuncMeta,
  call, return, try_begin, store, load, find_scoped, popped,
}
use mellow_programming_langu.Interp.Ops.{
  step, next, done, raised, exec, exec_call, call_skill, callee, entered, exec_return, return_pc,
  stored, bound, keep_value, exec_load, loaded, push_loaded, known,
}
use mellow_programming_langu.Interp.Run.{go, handled, caught, with_error}

module _ {A : Type 0} where
  drop_all : (xs ys : List A) → drop (length xs) (xs ++ ys) ≡ ys
  drop_all [] ys = refl
  drop_all (x ∷ xs) ys = drop_all xs ys

  drop-append : (xs ys : List A) → drop (length (xs ++ ys) - length ys) (xs ++ ys) ≡ ys
  drop-append xs ys =
      let e : length (xs ++ ys) - length ys ≡ length xs = omega (arith, length-append xs ys) in
      ap (λ n. drop n (xs ++ ys)) e ∙ drop_all xs ys

module _ {P : Type 0} (s : Setup P) where
  next-injective : (m m' : Machine P) → done next m ≡ done next m' → m ≡ m'
  next-injective m m' h = cc

  step-injective : (m m' : Machine P) → done step m ≡ done step m' → m ≡ m'
  step-injective m m' h = cc

  raised-next : (e : Error) (m m' : Machine P) {A : Type 0} → raised e m ≡ done next m' → A
  raised-next e m m' h = absurd cc

  call_skill-entered :
      (meta : FuncMeta) (name : Text) (argc : ℕ) (m m1 : Machine P)
      → call_skill s (some meta) name argc m ≡ done next m1
      → entered s name meta (meta.param_count - argc) m ≡ m1
  unfolding call_skill
  call_skill-entered meta name argc m m1 h = elim (Bool-cases (ltb meta.param_count argc)) [
    | inl e ↦ raised-next (sandbox (codes "too many args for " ++ name)) m m1 (rw e at h)
    | inr e ↦ next-injective (entered s name meta (meta.param_count - argc) m) m1 (rw e at h)
  ]

  -- The machine `b` at a RETURN in the frame that the call made: what the body did to the operand
  -- stack, to its own scope and to the rest is free.
  abbrev at_return : Machine P → Machine P → List (Text × Value P) → List (Value P) → Machine P
  at_return m1 b scope stack = record b {
    stack = stack;
    variables = scope ∷ drop 1 m1.variables;
    call_stack = m1.call_stack;
    frame_stack = m1.frame_stack;
  }

  -- After a call of a skill that is there, the RETURN of its frame goes on behind the call, with the
  -- scopes, return addresses and frames of the caller and the result on the operand stack.
  pub call_returns :
      (m m1 b : Machine P) (name : Text) (argc : ℕ) (meta : FuncMeta)
      (scope : List (Text × Value P)) (v : Value P) (below : List (Value P))
      → find (callee s name m) s.func_table ≡ some meta
      → exec s (call name argc) m ≡ done next m1
      → exec s return (at_return m1 b scope (v ∷ below))
        ≡ done next (record b {
          pc = m.pc + 1;
          stack = v ∷ below;
          variables = m.variables;
          call_stack = m.call_stack;
          frame_stack = m.frame_stack;
        })
  unfolding exec exec_call exec_return return_pc entered popped
  call_returns m m1 b name argc meta scope v below found h =
      let h' : call_skill s (some meta) (callee s name m) argc m ≡ done next m1 =
        ap (λ o. call_skill s o (callee s name m) argc m) (sym found) ∙ h in
      subst
        (λ (m1 : Machine P).
          exec s return (at_return m1 b scope (v ∷ below))
          ≡ done next (record b {
            pc = m.pc + 1;
            stack = v ∷ below;
            variables = m.variables;
            call_stack = m.call_stack;
            frame_stack = m.frame_stack;
          }))
        (call_skill-entered meta (callee s name m) argc m m1 h') refl

  -- An exception that the frame of a TRY without an error name catches, on a machine whose operand
  -- stack is that of the TRY with what was pushed since on top (nothing below was popped), goes to
  -- the handler with the operand stack of the TRY and the frames around it; the return addresses
  -- and the scopes of calls that are open stay.
  pub try_catches :
      (m t b : Machine P) (catch finally : ℕ) (e : Error) (grown : List (Value P))
      → exec s (try_begin catch finally none) m ≡ done step t
      → handled s e (record b { stack = grown ++ t.stack; try_stack = t.try_stack }) t.try_stack
        ≡ go (record b { pc = catch; stack = m.stack; try_stack = m.try_stack })
  unfolding exec handled caught with_error
  try_catches m t b catch finally e grown h =
      subst
        (λ (t : Machine P).
          handled s e (record b { stack = grown ++ t.stack; try_stack = t.try_stack }) t.try_stack
          ≡ go (record b { pc = catch; stack = m.stack; try_stack = m.try_stack }))
        (step-injective _ _ h)
        (ap
          (λ (st : List (Value P)).
            go (record b { pc = catch; stack = st; try_stack = m.try_stack }))
          (drop-append grown m.stack))

  find_scoped-put :
      (name : Text) (v : Value P) (scope : List (Text × Value P))
      (scopes : List (List (Text × Value P)))
      → find_scoped name (put name v scope ∷ scopes) ≡ some v
  unfolding find_scoped or_else
  find_scoped-put name v scope scopes =
      ap (λ (o : Option (Value P)). or_else o (find_scoped name scopes)) (find-put name v scope)

  exec_load-found :
      (name : Text) (v : Value P) (m : Machine P)
      → find_scoped name m.variables ≡ some v
      → exec_load s name m ≡ done step (record m { stack = v ∷ m.stack })
  unfolding exec_load push_loaded loaded known or_else
  exec_load-found name v m h =
      ap
        (λ (o : Option (Value P)).
          push_loaded s name
            (or_else (or_else o (if s.keep_enabled then find name m.keep_values else none))
              (if is_some (find name s.func_table) then some (func_value name) else none))
            m)
        h

  -- What a store takes off the operand stack, a load of the name puts back, when there is a scope.
  pub store_load :
      (m : Machine P) (name : Text) (scope : List (Text × Value P))
      (scopes : List (List (Text × Value P))) (v : Value P) (below : List (Value P))
      → (m1 : Machine P)
      → exec s (store name) (record m { stack = v ∷ below; variables = scope ∷ scopes })
        ≡ done step m1
      → exec s (load name) m1 ≡ done step (record m1 { stack = v ∷ below })
  unfolding exec stored bound keep_value bind popped
  store_load m name scope scopes v below m1 h =
      subst
        (λ (m1 : Machine P). exec s (load name) m1 ≡ done step (record m1 { stack = v ∷ below }))
        (step-injective _ _ h)
        (exec_load-found name v (record m { stack = below; variables = put name v scope ∷ scopes })
          (find_scoped-put name v scope scopes))
