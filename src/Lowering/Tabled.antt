-- ===== src/Lowering/Tabled.antt =====
-- The labels of the tables of skills and events (driver.py), and those of the newest loop.
use mellow_programming_langu.Prelude.{
  ℕ, ◌≡◌, refl, sym, ap, subst, ◌⊎◌, inl, inr, List, [], ◌∷◌, Bool-cases, Member, Member-one,
  Member-cons, there, here,
}
use mellow_programming_langu.Text.{Text, codes, text_eq}
use mellow_programming_langu.Dict.{put}
use mellow_programming_langu.Ast.{text_const}
use mellow_programming_langu.Backend.{IrFunction}
use mellow_programming_langu.Lowering.Machine.{
  LoopCtx, Lowerer, fail, emit, out_of, jump_out, add_function, add_event,
}
use mellow_programming_langu.Lowering.Known.{
  Known, Labelled-append, Inv, Grows, Triple, Keeps, jump,
}
use mellow_programming_langu.Lowering.Rules.{outcome, emit_at}

Member-put :
    {A : Type 0} {x : Text × A} (name : Text) (v : A) (entries : List (Text × A))
    → Member x (put name v entries)
    → (x.1 ≡ v) ⊎ Member x entries
unfolding put
Member-put name v [] m = inl (ap (λ x. x.1) (Member-one m))
Member-put name v ((key, old) ∷ entries) m = elim (Bool-cases (text_eq key name)) [
  | inl e ↦ elim (Member-cons (rw e at m)) [
    | inl q ↦ inl (ap (λ x. x.1) q)
    | inr m' ↦ inr (there m')
  ]
  | inr e ↦ elim (Member-cons (rw e at m)) [
    | inl q ↦ inr (here q)
    | inr m' ↦ elim (Member-put name v entries m') [ inl q ↦ inl q | inr n ↦ inr (there n) ]
  ]
]

-- A new entry of a table.
entry_known :
    (K : Text → Type 0) (name : Text) (meta : IrFunction) (entries : List (Text × IrFunction))
    → K meta.entry_label
    → ((f : Text × IrFunction) → Member f entries → K f.1.entry_label)
    → (f : Text × IrFunction) → Member f (put name meta entries)
    → K f.1.entry_label
entry_known K name meta entries k h f m = elim (Member-put name meta entries m) [
  | inl q ↦ subst (λ (g : IrFunction). K g.entry_label) (sym q) k
  | inr m' ↦ h f m'
]

module _ {F : Type 0} where
  pub add_function-Triple :
      {P : List Text} (name : Text) (meta : IrFunction)
      → Member meta.entry_label P
      → Triple {F = F} P (add_function name meta) P
  unfolding add_function
  add_function-Triple {P} name meta k s t inv h =
      outcome P P (add_function name meta) s t _
        (
          record {
            forms = inv.forms;
            loops_in = inv.loops_in;
            functions_in =
                entry_known (Known P s.instructions) name meta s.functions (inr k) inv.functions_in;
            events_in = inv.events_in;
          },
          λ name k. k,
        )
        refl h

  pub add_event-Triple :
      {P : List Text} (name : Text) (meta : IrFunction)
      → Member meta.entry_label P
      → Triple {F = F} P (add_event name meta) P
  unfolding add_event
  add_event-Triple {P} name meta k s t inv h =
      outcome P P (add_event name meta) s t _
        (
          record {
            forms = inv.forms;
            loops_in = inv.loops_in;
            functions_in = inv.functions_in;
            events_in =
                entry_known (Known P s.instructions) name meta s.events (inr k) inv.events_in;
          },
          λ name k. k,
        )
        refl h

  Known-jump :
      (P : List Text) (name : Text) (l c : ℕ) (s t : Lowerer F)
      → Inv P s
      → Known P s.instructions name
      → emit (codes "JUMP") (text_const name ∷ []) l c s ≡ inr t
      → Inv P t × Grows s t
  Known-jump P name l c s t inv k =
      emit_at P P (codes "JUMP") (text_const name ∷ []) l c s t inv λ i e f. (
        jump name e f (elim k [
          | inl x ↦ inl (Labelled-append s.instructions (i ∷ []) name x)
          | inr m ↦ inr m
        ]),
        λ name m. inr m,
      )

  out_of-Known :
      (field : LoopCtx → Text) (message : Text) (l c : ℕ) (P : List Text) (s t : Lowerer F)
      (loops : List LoopCtx)
      → Inv P s
      → ((ctx : LoopCtx) → Member ctx loops → Known P s.instructions (field ctx))
      → out_of field message (λ name. emit (codes "JUMP") (text_const name ∷ []) l c) loops s
        ≡ inr t
      → Inv P t × Grows s t
  unfolding out_of fail
  out_of-Known field message l c P s t [] inv k h = absurd cc
  out_of-Known field message l c P s t (ctx ∷ loops) inv k h =
      Known-jump P (field ctx) l c s t inv (k ctx (here refl)) h

  -- A jump to a label of the newest loop.
  pub break-Keeps :
      (message : Text) (l c : ℕ)
      → Keeps {F = F} (
          jump_out
            (λ ctx. ctx.break_label)
            message
            (λ name. emit (codes "JUMP") (text_const name ∷ []) l c))
  unfolding jump_out
  break-Keeps message l c P s t inv h =
      out_of-Known (λ ctx. ctx.break_label) message l c P s t s.loop_stack inv
        (λ ctx m. (inv.loops_in ctx m).0) h

  pub continue-Keeps :
      (message : Text) (l c : ℕ)
      → Keeps {F = F} (
          jump_out
            (λ ctx. ctx.continue_label)
            message
            (λ name. emit (codes "JUMP") (text_const name ∷ []) l c))
  unfolding jump_out
  continue-Keeps message l c P s t inv h =
      out_of-Known (λ ctx. ctx.continue_label) message l c P s t s.loop_stack inv
        (λ ctx m. (inv.loops_in ctx m).1) h
