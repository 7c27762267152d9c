-- ===== src/Lowering/PieceLabels.antt =====
-- The labels of the pieces of a statement (statements.py).
use mellow_programming_langu.Prelude.{
  ℕ, ◌≡◌, refl, inl, inr, true, List, [], ◌∷◌, ltb, Bool-cases, Member-cons, Member, there,
}
use mellow_programming_langu.Text.{Text, codes, text_eq}
use mellow_programming_langu.Dict.{find}
use mellow_programming_langu.Ast.{Constant, text_const}
use mellow_programming_langu.Lowering.Machine.{Act}
use mellow_programming_langu.Lowering.Expressions.{count_const}
use mellow_programming_langu.Lowering.Statements.{
  emit_names, emit_label, emit_jump, emit_branch, emit_load, emit_store, emit_count, test_less,
  emit_print, keep_result, loop_body, count_on,
}
use mellow_programming_langu.Lowering.Known.{fits, is_plain, Triple, Keeps}
use mellow_programming_langu.Lowering.Rules.{
  ◌⟫◌, ◌⨟◌, nothing-Keeps, emit-Keeps, jump-Triple, branch-Triple, label-Triple, push_loop-Triple,
  pop_loop-Keeps,
}
use mellow_programming_langu.Backend as Backend

module _ {F : Type 0} where
  pub emit_names-Keeps :
      (op : Text) (names : List Text) (l c : ℕ)
      → is_plain op ≡ true
      → ((name : Text)
          → fits {A = Constant F} (find op Backend.op_map) (text_const name ∷ []) ≡ true)
      → Keeps {F = F} (emit_names op names l c)
  unfolding emit_names
  emit_names-Keeps op [] l c p q = nothing-Keeps
  emit_names-Keeps op (name ∷ names) l c p q =
      emit-Keeps op (text_const name ∷ []) l c p (q name) ⨟ emit_names-Keeps op names l c p q

  pub load-Keeps : (name : Text) (l c : ℕ) → Keeps {F = F} (emit_load name l c)
  unfolding emit_load is_plain fits find text_eq
  load-Keeps name l c = emit-Keeps (codes "LOAD") (text_const name ∷ []) l c refl refl

  pub store-Keeps : (name : Text) (l c : ℕ) → Keeps {F = F} (emit_store name l c)
  unfolding emit_store is_plain fits find text_eq
  store-Keeps name l c = emit-Keeps (codes "STORE") (text_const name ∷ []) l c refl refl

  pub count-Keeps : (n l c : ℕ) → Keeps {F = F} (emit_count n l c)
  unfolding emit_count is_plain fits find text_eq
  count-Keeps n l c = emit-Keeps (codes "PUSH") (count_const n ∷ []) l c refl refl

  pub print-Keeps : (count l c : ℕ) → Keeps {F = F} (emit_print count l c)
  unfolding emit_print is_plain fits find text_eq
  print-Keeps count l c = elim (Bool-cases (ltb 1 count)) [
    | inl e ↦ rw e (emit-Keeps (codes "PRINTN") (count_const count ∷ []) l c refl refl)
    | inr e ↦ rw e (emit-Keeps (codes "PRINT") (count_const count ∷ []) l c refl refl)
  ]

  pub keep_result-Keeps : (name : Text) (l c : ℕ) → Keeps {F = F} (keep_result name l c)
  unfolding keep_result is_plain fits find text_eq
  keep_result-Keeps [] l c = emit-Keeps (codes "POP") [] l c refl refl
  keep_result-Keeps (x ∷ name) l c =
      emit-Keeps (codes "STORE_AUTO") (text_const (x ∷ name) ∷ []) l c refl refl

  pub test_less-Triple :
      {P : List Text} (end : Text) (l c : ℕ) → Member end P → Triple {F = F} P (test_less end l c) P
  unfolding test_less emit_branch is_plain fits find text_eq
  test_less-Triple {P} end l c m =
      emit-Keeps (codes "COMPARE") (text_const (codes "<") ∷ []) l c refl refl P
      ⟫ branch-Triple end l c m

  pub loop_body-Triple :
      {P : List Text} (end start : Text) (body : Act F)
      → Member end P
      → Member start P
      → Keeps body
      → Triple P (loop_body end start body) P
  unfolding loop_body
  loop_body-Triple {P} end start body m k h =
      push_loop-Triple end start m k ⟫ h P ⟫ pop_loop-Keeps P

  -- A label that is the first of those still to come.
  pub closes :
      {P : List Text} (end : Text) (l c : ℕ) → Triple {F = F} (end ∷ P) (emit_label end l c) P
  unfolding emit_label
  closes end l c = label-Triple end l c (λ n m. Member-cons m)

  pub count_on-Triple :
      {P : List Text} (counter : Text) (step : Act F) (start end : Text) (l c : ℕ)
      → Keeps step
      → Member start P
      → Triple (end ∷ P) (count_on counter step start end l c) P
  unfolding count_on emit_jump is_plain fits find text_eq
  count_on-Triple {P} counter step start end l c h m =
      load-Keeps counter l c (end ∷ P)
      ⟫ h (end ∷ P)
      ⟫ emit-Keeps (codes "ADD") [] l c refl refl (end ∷ P)
      ⟫ store-Keeps counter l c (end ∷ P)
      ⟫ jump-Triple start l c (there m)
      ⟫ closes end l c
