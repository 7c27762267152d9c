-- ===== src/Lowering/Assembly.antt =====
-- The lowering (driver.py) and the backend (bytecode_backend.py), one after the other.
use mellow_programming_langu.Prelude.{◌≡◌, refl, subst, ◌⊎◌, inl, inr, List, [], not-Member}
use mellow_programming_langu.Text.{Text, codes, text_eq}
use mellow_programming_langu.Dict.{find}
use mellow_programming_langu.Ast.{Constant, text_const, Stmts}
use mellow_programming_langu.Backend.{IrProgram, BytecodeBundle, bundle, lower_with, lower}
use mellow_programming_langu.Lowering.Machine.{LoopCtx, Lowerer, LoweringError, ◌▷◌, emit}
use mellow_programming_langu.Lowering.Arguments.{Names}
use mellow_programming_langu.Lowering.Statements.{
  lower_stmts, lower_program, new_lowerer, ir_program,
}
use mellow_programming_langu.Lowering.Known.{fits, is_plain, Sound, Known, Inv}
use mellow_programming_langu.Lowering.Rules.{◌⨟◌, emit-Keeps}
use mellow_programming_langu.Lowering.StatementLabels.{lower_stmts-Keeps}
use mellow_programming_langu.Lowering.Emission.{Has, collect_labels-Has, emit_all-Forms, table-Has}

module _ {F : Type 0} (str repr : Constant F → Text)
    (str_text : (t : Text) → str (text_const t) ≡ t) where
  -- Everything in a sound state has code.
  Sound-lower :
      (ir : IrProgram (Constant F)) (loops : List LoopCtx)
      → Sound (Known [] ir.instructions) ir.instructions loops ir.functions ir.events
      → (b : BytecodeBundle (Constant F)) × (lower str repr ir ≡ inr b)
  unfolding lower lower_with bundle
  Sound-lower ir loops h =
      let (labels, p, has) = collect_labels-Has str repr str_text ir.instructions 0 [] h.forms in
      let found : (name : Text) → Known [] ir.instructions name → Has labels name =
        λ name k. elim k [ inl l ↦ has name (inr l) | inr m ↦ absurd (not-Member m) ] in
      let (code, q) = emit_all-Forms str repr str_text labels 0 ir.instructions found h.forms in
      let (fs, r) =
        table-Has str repr str_text labels ir.functions (λ f m. found _ (h.functions_in f m)) in
      let (es, t) =
        table-Has str repr str_text labels ir.events (λ f m. found _ (h.events_in f m)) in
      (record { code = code; func_table = fs; event_table = es }, rw (p, q, r, t) refl)

  empty-Inv : Inv {F = F} [] new_lowerer
  unfolding new_lowerer
  empty-Inv = record {
    forms = λ i m. absurd (not-Member m);
    loops_in = λ ctx m. absurd (not-Member m);
    functions_in = λ f m. absurd (not-Member m);
    events_in = λ f m. absurd (not-Member m);
  }

  ir_program_lower :
      (r : LoweringError ⊎ Lowerer F) (ir : IrProgram (Constant F))
      → ((t : Lowerer F) → r ≡ inr t → Inv [] t)
      → ir_program r ≡ inr ir
      → (b : BytecodeBundle (Constant F)) × (lower str repr ir ≡ inr b)
  unfolding ir_program
  ir_program_lower (inl e) ir h k = absurd cc
  ir_program_lower (inr t) ir h k =
      let program : IrProgram (Constant F) = record {
        instructions = t.instructions;
        functions = t.functions;
        events = t.events;
      } in
      let e : program ≡ ir = cc in
      subst
        (λ (p : IrProgram (Constant F)).
          (b : BytecodeBundle (Constant F)) × (lower str repr p ≡ inr b))
        e (Sound-lower program t.loop_stack (h t refl))

  -- When the lowering accepts a program, the backend gives its bytecode: each label that a jump, a
  -- skill or an event names is there, each opcode has a number, and its arguments are there. This is
  -- for any program and any name tables, where `str` of a text is that text.
  pub lower-lower_program :
      (n : Names) (program : Stmts F) (ir : IrProgram (Constant F))
      → lower_program n program ≡ inr ir
      → (b : BytecodeBundle (Constant F)) × (lower str repr ir ≡ inr b)
  unfolding lower_program is_plain fits find text_eq
  lower-lower_program n program ir h =
      ir_program_lower ((lower_stmts n program ▷ emit (codes "HALT") [] 0 1) new_lowerer) ir
        (λ t e.
          ((lower_stmts-Keeps n program ⨟ emit-Keeps (codes "HALT") [] 0 1 refl refl) [] new_lowerer
            t empty-Inv e).0)
        h
