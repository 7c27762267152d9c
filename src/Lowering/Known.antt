-- ===== src/Lowering/Known.antt =====
-- The labels that the code of the lowering goes to (driver.py): those that the instructions have, and
-- those that are still to come.
use mellow_programming_langu.Prelude.{
  ℕ, ◌≡◌, sym, subst, ◌⊎◌, inl, inr, Bool, true, false, not, ◌&&◌, Option, none, some, List, [],
  ◌∷◌, ◌++◌, leb, length, Member-left, Member, Member-append, Member-one,
}
use mellow_programming_langu.Text.{Text, codes, text_eq}
use mellow_programming_langu.Dict.{find}
use mellow_programming_langu.Ast.{Constant, text_const}
use mellow_programming_langu.Backend.{IrInstruction, IrFunction, op_map}
use mellow_programming_langu.Lowering.Machine.{LoopCtx, Lowerer, Act}

-- The backend has the opcode, and the arguments it wants are there.
unfoldable pub fits : {A : Type 0} → Option (ℕ × ℕ) → List A → Bool
fits none args = false
fits (some (code, arity)) args = leb arity (length args)

-- An opcode that is neither a label nor a jump.
unfoldable pub is_plain : Text → Bool
unfolding text_eq
is_plain op =
    not (text_eq op (codes "LABEL"))
    && not (text_eq op (codes "JUMP"))
    && not (text_eq op (codes "JUMP_IF_FALSE"))

module _ {F : Type 0} where
  -- An instruction that the backend can emit, where it knows the labels in `K`.
  pub data Form (K : Text → Type 0) (i : IrInstruction (Constant F)) : Type 0 where
    label : (name : Text) → i.op ≡ codes "LABEL" → i.args ≡ text_const name ∷ [] → Form K i
    jump : (name : Text) → i.op ≡ codes "JUMP" → i.args ≡ text_const name ∷ [] → K name → Form K i
    branch :
        (name : Text)
        → i.op ≡ codes "JUMP_IF_FALSE"
        → i.args ≡ text_const name ∷ []
        → K name
        → Form K i
    plain : is_plain i.op ≡ true → fits (find i.op op_map) i.args ≡ true → Form K i

  pub Form-map :
      {K L : Text → Type 0} {i : IrInstruction (Constant F)}
      → ((name : Text) → K name → L name)
      → Form K i
      → Form L i
  Form-map f (label name p q) = label name p q
  Form-map f (jump name p q k) = jump name p q (f name k)
  Form-map f (branch name p q k) = branch name p q (f name k)
  Form-map f (plain p q) = plain p q

  -- Everything in a state of the lowering goes to labels in `K`.
  pub record Sound (K : Text → Type 0) (instructions : List (IrInstruction (Constant F)))
      (loops : List LoopCtx) (functions events : List (Text × IrFunction)) : Type 0 where
    pub forms : (i : IrInstruction (Constant F)) → Member i instructions → Form K i
    pub loops_in : (ctx : LoopCtx) → Member ctx loops → K ctx.break_label × K ctx.continue_label
    pub functions_in : (f : Text × IrFunction) → Member f functions → K f.1.entry_label
    pub events_in : (f : Text × IrFunction) → Member f events → K f.1.entry_label

  pub Sound-map :
      {K L : Text → Type 0} {instructions : List (IrInstruction (Constant F))}
      {loops : List LoopCtx} {functions events : List (Text × IrFunction)}
      → ((name : Text) → K name → L name)
      → Sound K instructions loops functions events
      → Sound L instructions loops functions events
  Sound-map f h = record {
    forms = λ i m. Form-map f (h.forms i m);
    loops_in = λ ctx m. (f _ (h.loops_in ctx m).0, f _ (h.loops_in ctx m).1);
    functions_in = λ g m. f _ (h.functions_in g m);
    events_in = λ g m. f _ (h.events_in g m);
  }

  -- A label of the instructions.
  pub record Labelled (instructions : List (IrInstruction (Constant F))) (name : Text)
      : Type 0 where
    pub at : IrInstruction (Constant F)
    pub member : Member at instructions
    pub is_label : at.op ≡ codes "LABEL"
    pub named : at.args ≡ text_const name ∷ []

  abbrev pub Known : List Text → List (IrInstruction (Constant F)) → Text → Type 0
  Known pending instructions name = Labelled instructions name ⊎ Member name pending

  abbrev pub Inv : List Text → Lowerer F → Type 0
  Inv pending s =
      Sound (Known pending s.instructions) s.instructions s.loop_stack s.functions s.events

  -- The labels of a state are still there in a later one.
  abbrev pub Grows : Lowerer F → Lowerer F → Type 0
  Grows s t = (name : Text) → Labelled s.instructions name → Labelled t.instructions name

  -- A piece of the lowering that takes the first labels still to come to the second ones.
  abbrev pub Triple : List Text → Act F → List Text → Type 0
  Triple before act after =
      (s t : Lowerer F) → Inv before s → act s ≡ inr t → Inv after t × Grows s t

  abbrev pub Keeps : Act F → Type 0
  Keeps act = (pending : List Text) → Triple pending act pending

  pub Labelled-append :
      (xs ys : List (IrInstruction (Constant F))) (name : Text)
      → Labelled xs name
      → Labelled (xs ++ ys) name
  Labelled-append xs ys name h = record {
    at = h.at;
    member = Member-left ys h.member;
    is_label = h.is_label;
    named = h.named;
  }

  -- One more instruction.
  pub Inv-emit :
      {P Q : List Text} (s : Lowerer F) (i : IrInstruction (Constant F))
      → Inv P s
      → Form (Known Q (s.instructions ++ i ∷ [])) i
      → ((name : Text) → Member name P → Known Q (s.instructions ++ i ∷ []) name)
      → Sound
          (Known Q (s.instructions ++ i ∷ []))
          (s.instructions ++ i ∷ [])
          s.loop_stack
          s.functions
          s.events
  Inv-emit {P} {Q} s i h form f =
      let lifted : (name : Text)
          → Known P s.instructions name
          → Known Q (s.instructions ++ i ∷ []) name =
        λ name k. elim k [
          | inl here ↦ inl (Labelled-append s.instructions (i ∷ []) name here)
          | inr m ↦ f name m
        ] in
      let old = Sound-map lifted h in
      record {
        forms = λ j m. elim (Member-append s.instructions (i ∷ []) m) [
          | inl m' ↦ old.forms j m'
          | inr m' ↦ subst (Form (Known Q (s.instructions ++ i ∷ []))) (sym (Member-one m')) form
        ];
        loops_in = old.loops_in;
        functions_in = old.functions_in;
        events_in = old.events_in;
      }
