-- ===== src/Interp/Scopes.antt =====
-- The scopes, the return addresses and the frames of src/mellowlang/vm/interp along a run.
use mellow_programming_langu.Prelude.{
  suc, ◌+◌, ◌-◌, ◌≤◌, ◌≡◌, refl, sym, ap, ◌∙◌, subst, ◌⊎◌, inl, inr, Option, none, some, List, [],
  ◌∷◌, arith, ltb, ◌==◌, if_split, Bool-cases, length, get_elem?, drop,
}
use mellow_programming_langu.Text.{Text, is_empty}
use mellow_programming_langu.Interp.State.{
  Value, text_value, Machine, Error, Setup, TryFrame, Instr,
}
use mellow_programming_langu.Interp.Ops.{step, next, stopped, Result, done, raised, exec}
use mellow_programming_langu.Interp.Run.{
  Round, go, over, caught, handled, acted, fetched, tick_error, ticked, round, with_error,
}
use mellow_programming_langu.Interp.Depths.{
  Moves, Same, Entered, Left, exec-Moves, Bound, bind-Bound,
}

module _ {P : Type 0} (s : Setup P) where
  -- One scope more than return addresses, and a frame for each of these.
  pub record IsLevel (m : Machine P) : Type 0 where
    pub scopes : length m.variables ≡ suc (length m.call_stack)
    pub frames : length m.frame_stack ≡ length m.call_stack

  -- A machine is level, or it has run off the end by a RETURN of the main program.
  abbrev pub IsSound : Machine P → Type 0
  IsSound m = IsLevel m ⊎ (length s.bytecode ≤ m.pc)

  -- One round of the loop leads from the first machine to the second.
  pub data Reaches (m : Machine P) : Machine P → Type 0 where
    here : Reaches m m
    then : {a b : Machine P} → Reaches m a → round s a ≡ go b → Reaches m b

  abbrev SoundRound : Round P → Type 0
  SoundRound (over o) = Unit
  SoundRound (go m) = IsSound m

  Same-IsLevel : (m m' : Machine P) → Same s m m' → IsLevel m → IsLevel m'
  Same-IsLevel m m' h l =
      let a = l.scopes in
      let b = l.frames in
      record { scopes = h.scopes ∙ a ∙ ap suc (sym h.calls); frames = h.frames ∙ b ∙ sym h.calls }

  Entered-IsLevel : (m m' : Machine P) → Entered s m m' → IsLevel m → IsLevel m'
  Entered-IsLevel m m' h l = record {
    scopes = h.scopes ∙ ap suc l.scopes ∙ ap suc (sym h.calls);
    frames = h.frames ∙ ap suc l.frames ∙ sym h.calls;
  }

  Left-IsSound : (m m' : Machine P) → Left s m m' → IsLevel m → IsSound m'
  Left-IsSound m m' h l =
      let a = l.scopes in
      let b = l.frames in
      let a' = h.scopes in
      let b' = h.frames in
      let c = h.calls in
      elim (Bool-cases (length m.call_stack == 0)) [
        | inl e ↦ let p = h.ended (ground arith) in inr (omega arith)
        | inr e ↦ inl (record { scopes = ground arith; frames = omega arith })
      ]

  with_error-Bound :
      (name : Option Text) (text : Text) (m : Machine P)
      → Bound s m (with_error s name text m.variables)
  unfolding with_error
  with_error-Bound none text m = refl
  with_error-Bound (some name) text m =
      if_split (Bound s m) (is_empty name) (λ _. refl)
        (λ _. bind-Bound s name (text_value text) m m.variables refl)

  caught-Sound :
      (frame : TryFrame) (m : Machine P) (o : Option (List (List (Text × Value P))))
      → IsLevel m
      → Bound s m o
      → SoundRound (caught s frame m o)
  unfolding caught
  caught-Sound frame m none l b = tt
  caught-Sound frame m (some scopes) l b = inl (record { scopes = b ∙ l.scopes; frames = l.frames })

  handled-Sound :
      (e : Error) (m : Machine P) (frames : List TryFrame)
      → IsLevel m
      → SoundRound (handled s e m frames)
  unfolding handled
  handled-Sound e m [] l = tt
  handled-Sound e m (frame ∷ frames) l =
      caught-Sound frame
        (record m { try_stack = frames; stack = drop (length m.stack - frame.stack_len) m.stack })
        (with_error s frame.err_name (s.error_text e m.pc) m.variables)
        (record { scopes = l.scopes; frames = l.frames })
        (with_error-Bound frame.err_name (s.error_text e m.pc) m)

  acted-Sound : (m : Machine P) (r : Result P) → Moves s m r → IsLevel m → SoundRound (acted s r)
  unfolding acted
  acted-Sound m (done step m') h l =
      let l' = Same-IsLevel m m' h l in inl (record { scopes = l'.scopes; frames = l'.frames })
  acted-Sound m (done stopped m') h l = tt
  acted-Sound m (done next m') (inl h) l = inl (Same-IsLevel m m' h l)
  acted-Sound m (done next m') (inr (inl h)) l = inl (Entered-IsLevel m m' h l)
  acted-Sound m (done next m') (inr (inr h)) l = Left-IsSound m m' h l
  acted-Sound m (raised e m') h l = handled-Sound e m' m'.try_stack (Same-IsLevel m m' h l)

  fetched-Sound : (o : Option (Instr P)) (m : Machine P) → IsLevel m → SoundRound (fetched s o m)
  unfolding fetched
  fetched-Sound none m l = tt
  fetched-Sound (some i) m l = acted-Sound m (exec s i m) (exec-Moves s i m) l

  ticked-Sound : (e : Option Error) (m : Machine P) → IsLevel m → SoundRound (ticked s e m)
  unfolding ticked
  ticked-Sound (some e) m l = tt
  ticked-Sound none m l = fetched-Sound (get_elem? s.bytecode m.pc) m l

  round-Sound : (m : Machine P) → IsSound m → SoundRound (round s m)
  unfolding round
  round-Sound m (inl l) =
      let m' : Machine P = record m { steps = m.steps + 1 } in
      if_split SoundRound (ltb m.pc (length s.bytecode))
        (λ _. ticked-Sound (tick_error s m') m' (record { scopes = l.scopes; frames = l.frames }))
        (λ _. tt)
  round-Sound m (inr e) =
      if_split SoundRound (ltb m.pc (length s.bytecode)) (λ h. absurd (ground arith)) (λ _. tt)

  -- From a level machine, every machine that the rounds of a run reach is level, unless its counter
  -- has left the bytecode: a scope for each call that is open and one for the main program, and a
  -- frame for each call.
  pub reached-IsSound : (m m' : Machine P) → IsLevel m → Reaches m m' → IsSound m'
  reached-IsSound m m' l here = inl l
  reached-IsSound m m' l (then {a} r e) =
      subst SoundRound e (round-Sound a (reached-IsSound m a l r))
