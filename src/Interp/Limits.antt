-- ===== src/Interp/Limits.antt =====
-- The counter of steps of src/mellowlang/vm/interp and the rounds of a run.
use mellow_programming_langu.Prelude.{
  ℕ, zero, suc, ◌+◌, ◌-◌, ◌≤◌, ◌<◌, ◌≡◌, refl, subst, inl, inr, Option, none, some, List, [], ◌∷◌,
  arith, ltb, if_split, length, get_elem?, drop,
}
use mellow_programming_langu.Text.{Text}
use mellow_programming_langu.Interp.State.{Value, Machine, Error, Setup, TryFrame, Instr, Value}
use mellow_programming_langu.Interp.Ops.{step, next, stopped, Result, done, raised, exec}
use mellow_programming_langu.Interp.Run.{
  Outcome, finished, Round, go, over, caught, handled, acted, fetched, tick_error, ticked, round,
  after, loop, run, with_error,
}
use mellow_programming_langu.Interp.Depths.{Moves, exec-Moves}

module _ {P : Type 0} (s : Setup P) where
  -- A round that goes on has the counter `n`.
  abbrev Counts : ℕ → Round P → Type 0
  Counts n (over o) = Unit
  Counts n (go m) = m.steps ≡ n

  caught-Counts :
      (frame : TryFrame) (m : Machine P) (o : Option (List (List (Text × Value P))))
      → Counts m.steps (caught s frame m o)
  unfolding caught
  caught-Counts frame m none = tt
  caught-Counts frame m (some scopes) = refl

  handled-Counts :
      (e : Error) (m : Machine P) (frames : List TryFrame) → Counts m.steps (handled s e m frames)
  unfolding handled
  handled-Counts e m [] = tt
  handled-Counts e m (frame ∷ frames) =
      caught-Counts frame
        (record m { try_stack = frames; stack = drop (length m.stack - frame.stack_len) m.stack })
        (with_error s frame.err_name (s.error_text e m.pc) m.variables)

  acted-Counts : (m : Machine P) (r : Result P) → Moves s m r → Counts m.steps (acted s r)
  unfolding acted
  acted-Counts m (done step m') h = h.steps
  acted-Counts m (done stopped m') h = tt
  acted-Counts m (done next m') (inl h) = h.steps
  acted-Counts m (done next m') (inr (inl h)) = h.steps
  acted-Counts m (done next m') (inr (inr h)) = h.steps
  acted-Counts m (raised e m') h =
      subst (λ n. Counts n (handled s e m' m'.try_stack)) h.steps (handled-Counts e m' m'.try_stack)

  fetched-Counts : (o : Option (Instr P)) (m : Machine P) → Counts m.steps (fetched s o m)
  unfolding fetched
  fetched-Counts none m = tt
  fetched-Counts (some i) m = acted-Counts m (exec s i m) (exec-Moves s i m)

  -- A round that goes on has counted one step, within the limit.
  abbrev Within : ℕ → Round P → Type 0
  Within n (over o) = Unit
  Within n (go m) = (m.steps ≡ n) × (n ≤ s.max_steps)

  within : (n : ℕ) (r : Round P) → Counts n r → n ≤ s.max_steps → Within n r
  within n (over o) h k = tt
  within n (go m) h k = (h, k)

  tick_error-none : (m : Machine P) → tick_error s m ≡ none → m.steps ≤ s.max_steps
  unfolding tick_error
  tick_error-none m h = ground arith

  ticked-Within :
      (e : Option Error) (m : Machine P) → tick_error s m ≡ e → Within m.steps (ticked s e m)
  unfolding ticked
  ticked-Within (some e) m h = tt
  ticked-Within none m h =
      within m.steps (fetched s (get_elem? s.bytecode m.pc) m)
        (fetched-Counts (get_elem? s.bytecode m.pc) m) (tick_error-none m h)

  round-Within : (m : Machine P) → Within (m.steps + 1) (round s m)
  unfolding round
  round-Within m =
      let m' = record m { steps = m.steps + 1 } in
      if_split (Within (m.steps + 1)) (ltb m.pc (length s.bytecode))
        (λ _. ticked-Within (tick_error s m') m' refl) (λ _. tt)

  -- A loop that goes on has fuel left.
  after-total :
      (fuel n : ℕ) (r : Round P)
      → Within (n + 1) r
      → s.max_steps ≤ fuel + n
      → ((m : Machine P)
          → s.max_steps < fuel + m.steps
          → 0 < fuel
          → (o : Outcome P) × (loop s fuel m ≡ some o))
      → (o : Outcome P) × (after s r (λ m. loop s fuel m) ≡ some o)
  unfolding after
  after-total fuel n (over o) h k ih = (o, refl)
  after-total fuel n (go m) (e, le) k ih = ih m (omega arith) (omega arith)

  loop-total :
      (fuel : ℕ) (m : Machine P)
      → s.max_steps < fuel + m.steps
      → 0 < fuel
      → (o : Outcome P) × (loop s fuel m ≡ some o)
  unfolding loop
  loop-total zero m h positive = absurd (omega arith)
  loop-total (suc fuel) m h positive =
      after-total fuel m.steps (round s m) (round-Within m) (omega arith) (λ m'. loop-total fuel m')

  -- Every run of a program of the modelled instructions, which are control, bindings and calls, comes
  -- to an end, whatever the program and the machine: with as many rounds as the limit of steps
  -- leaves, and one, the loop has returned or raised. A call of a built-in function, which is
  -- a parameter that returns, is a part of one round.
  pub run_ends : (m : Machine P) → (o : Outcome P) × (run s m ≡ some o)
  unfolding run
  run_ends m =
      if_split (λ (r : Option (Outcome P)). (o : Outcome P) × (r ≡ some o)) m.halted
        (λ _. (finished m, refl))
        (λ _. loop-total (suc (s.max_steps - m.steps)) m (omega arith) (omega arith))
