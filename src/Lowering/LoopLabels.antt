-- ===== src/Lowering/LoopLabels.antt =====
-- The labels of loops, conditionals and definitions (statements.py).
use mellow_programming_langu.Prelude.{
  ℕ, refl, inl, inr, List, [], ◌∷◌, Member-cons, Member, there, here,
}
use mellow_programming_langu.Text.{Text, codes, text_eq}
use mellow_programming_langu.Dict.{find}
use mellow_programming_langu.Ast.{none_const}
use mellow_programming_langu.Lowering.Machine.{Act, ◌▷◌, with_label}
use mellow_programming_langu.Lowering.Arguments.{Names}
use mellow_programming_langu.Lowering.Statements.{
  emit_label, emit_jump, emit_branch, emit_load, emit_count, test_less, loop_body, count_on,
  definition, foreach_name, count_loop, range_loop, each_loop, while_loop, if_branch,
}
use mellow_programming_langu.Lowering.Known.{fits, is_plain, Triple, Keeps}
use mellow_programming_langu.Lowering.Rules.{
  ◌⟫◌, fail-Keeps, emit-Keeps, jump-Triple, branch-Triple, label-Triple, pending, opened,
  with_label-Triple, with_temp-Triple,
}
use mellow_programming_langu.Lowering.PieceLabels.{
  emit_names-Keeps, load-Keeps, store-Keeps, count-Keeps, test_less-Triple, loop_body-Triple,
  count_on-Triple, closes,
}

module _ {F : Type 0} where
  pub while_loop-Keeps :
      (n : Names) (cond body : Act F) (l c : ℕ)
      → Keeps cond
      → Keeps body
      → Keeps (while_loop n cond body l c)
  unfolding while_loop emit_label emit_branch emit_jump
  while_loop-Keeps n cond body l c h k P = with_label-Triple n.decimal _ λ start.
      with_label-Triple n.decimal _ λ end. opened start l c (
        pending end (
          h (end ∷ start ∷ P)
          ⟫ branch-Triple end l c (here refl)
          ⟫ loop_body-Triple end start body (here refl) (there (here refl)) k
          ⟫ jump-Triple start l c (there (here refl))
          ⟫ closes end l c))

  -- The rest of a counting loop, behind what sets its counter up.
  counting :
      {P : List Text} (counter start end : Text) (limit step body : Act F) (l c : ℕ)
      → Keeps limit
      → Keeps step
      → Keeps body
      → Triple P
          (emit_label start l c
            ▷ emit_load counter l c
            ▷ limit
            ▷ test_less end l c
            ▷ loop_body end start body
            ▷ count_on counter step start end l c)
          P
  unfolding emit_label
  counting {P} counter start end limit step body l c h g k = opened start l c (
      pending end (
        load-Keeps counter l c (end ∷ start ∷ P)
        ⟫ h (end ∷ start ∷ P)
        ⟫ test_less-Triple end l c (here refl)
        ⟫ loop_body-Triple end start body (here refl) (there (here refl)) k
        ⟫ count_on-Triple counter step start end l c g (here refl)))

  pub count_loop-Keeps :
      (n : Names) (limit body : Act F) (l c : ℕ)
      → Keeps limit
      → Keeps body
      → Keeps (count_loop n limit body l c)
  unfolding count_loop
  count_loop-Keeps n limit body l c h k P = with_temp-Triple n.decimal _ λ counter.
      with_label-Triple n.decimal _ λ start. with_label-Triple n.decimal _ λ end.
        count-Keeps 0 l c P
        ⟫ store-Keeps counter l c P
        ⟫ counting counter start end limit (emit_count 1 l c) body l c h (count-Keeps 1 l c) k

  pub range_loop-Keeps :
      (n : Names) (var : Text) (start end step body : Act F) (l c : ℕ)
      → Keeps start
      → Keeps end
      → Keeps step
      → Keeps body
      → Keeps (range_loop n var start end step body l c)
  unfolding range_loop
  range_loop-Keeps n var start end step body l c h g f k P =
      with_temp-Triple n.decimal _ λ start_tmp. with_temp-Triple n.decimal _ λ end_tmp.
        with_temp-Triple n.decimal _ λ step_tmp. with_label-Triple n.decimal _ λ loop.
          with_label-Triple n.decimal _ λ end_label.
            h P
            ⟫ store-Keeps start_tmp l c P
            ⟫ g P
            ⟫ store-Keeps end_tmp l c P
            ⟫ f P
            ⟫ store-Keeps step_tmp l c P
            ⟫ load-Keeps start_tmp l c P
            ⟫ store-Keeps var l c P
            ⟫ counting var loop end_label (emit_load end_tmp l c) (emit_load step_tmp l c) body l c
                (load-Keeps end_tmp l c) (load-Keeps step_tmp l c) k

  foreach_name-Keeps : (names : List Text) (l c : ℕ) → Keeps {F = F} (foreach_name names l c)
  unfolding foreach_name
  foreach_name-Keeps [] l c = fail-Keeps _
  foreach_name-Keeps (name ∷ []) l c = store-Keeps name l c
  foreach_name-Keeps (name ∷ more ∷ names) l c = fail-Keeps _

  pub each_loop-Keeps :
      (n : Names) (names : List Text) (iterable body : Act F) (l c : ℕ)
      → Keeps iterable
      → Keeps body
      → Keeps (each_loop n names iterable body l c)
  unfolding each_loop emit_label is_plain fits find text_eq
  each_loop-Keeps n names iterable body l c h k P = with_temp-Triple n.decimal _ λ items.
      with_temp-Triple n.decimal _ λ len. with_temp-Triple n.decimal _ λ idx.
        with_label-Triple n.decimal _ λ loop. with_label-Triple n.decimal _ λ end.
          h P
          ⟫ store-Keeps items l c P
          ⟫ load-Keeps items l c P
          ⟫ emit-Keeps (codes "LEN") [] l c refl refl P
          ⟫ store-Keeps len l c P
          ⟫ count-Keeps 0 l c P
          ⟫ store-Keeps idx l c P
          ⟫ opened loop l c (
              pending end (
                load-Keeps idx l c (end ∷ loop ∷ P)
                ⟫ load-Keeps len l c (end ∷ loop ∷ P)
                ⟫ test_less-Triple end l c (here refl)
                ⟫ load-Keeps items l c (end ∷ loop ∷ P)
                ⟫ load-Keeps idx l c (end ∷ loop ∷ P)
                ⟫ emit-Keeps (codes "GETITEM") [] l c refl refl (end ∷ loop ∷ P)
                ⟫ foreach_name-Keeps names l c (end ∷ loop ∷ P)
                ⟫ loop_body-Triple end loop body (here refl) (there (here refl)) k
                ⟫ count_on-Triple idx (emit_count 1 l c) loop end l c (count-Keeps 1 l c)
                    (here refl)))

  pub if_branch-Triple :
      {P : List Text} (n : Names) (idx end : Text) (cond body : Act F) (l c : ℕ)
      → Member end P
      → Keeps cond
      → Keeps body
      → Triple P (with_label n.decimal idx (λ next. if_branch end next cond body l c)) P
  unfolding if_branch emit_branch emit_jump
  if_branch-Triple {P} n idx end cond body l c m h k = with_label-Triple n.decimal idx λ next.
      pending next (
        h (next ∷ P)
        ⟫ branch-Triple next l c (here refl)
        ⟫ k (next ∷ P)
        ⟫ jump-Triple end l c (there m)
        ⟫ closes next l c)

  pub definition-Triple :
      {P : List Text} (skip entry : Text) (params : List Text) (body add : Act F) (l c : ℕ)
      → Keeps body
      → Triple (entry ∷ P) add (entry ∷ P)
      → Triple P (definition skip entry params body add l c) P
  unfolding definition emit_label emit_jump is_plain fits find text_eq
  definition-Triple {P} skip entry params body add l c h g = pending skip (
      jump-Triple skip l c (here refl)
      ⟫ opened entry l c (
          emit_names-Keeps (codes "ARG") params l c refl (λ name. refl) (entry ∷ skip ∷ P)
          ⟫ h (entry ∷ skip ∷ P)
          ⟫ emit-Keeps (codes "PUSH") (none_const ∷ []) l c refl refl (entry ∷ skip ∷ P)
          ⟫ emit-Keeps (codes "RETURN") [] l c refl refl (entry ∷ skip ∷ P)
          ⟫ label-Triple skip l c (λ n m. elim (Member-cons m) [
            | inl e ↦ inr (here e)
            | inr m' ↦ elim (Member-cons m') [ inl e ↦ inl e | inr m'' ↦ inr (there m'') ]
          ])
          ⟫ g))
