-- ===== src/Optimizer/Tests.antt =====
-- Runs of the removal of labels of src/mellowlang/compiler/optimizations/cleanup.py.
use mellow_programming_langu.Prelude.{◌≡◌, refl, some, List, [], ◌∷◌}
use mellow_programming_langu.Text.{Text, codes, text_eq}
use mellow_programming_langu.Backend.{IrInstruction}
use mellow_programming_langu.Optimizer.{remove_unused_labels}
use mellow_programming_langu.Optimizer.Labels.{Labels}

abbrev instruction : Text → List Text → IrInstruction Text
instruction op args = record { op = op; args = args; line = 1; col = 1 }

abbrev str : Text → Text
str a = a

-- LABEL start; PUSH 1; LABEL unused; LABEL end; JUMP end
abbrev program : List (IrInstruction Text)
program =
    instruction (codes "LABEL") (codes "start" ∷ [])
    ∷ instruction (codes "PUSH") (codes "1" ∷ [])
    ∷ instruction (codes "LABEL") (codes "unused" ∷ [])
    ∷ instruction (codes "LABEL") (codes "end" ∷ [])
    ∷ instruction (codes "JUMP") (codes "end" ∷ [])
    ∷ []

pruned_test :
    remove_unused_labels str str program
    ≡ some (
      instruction (codes "LABEL") (codes "start" ∷ [])
          ∷ instruction (codes "PUSH") (codes "1" ∷ [])
          ∷ instruction (codes "LABEL") (codes "end" ∷ [])
          ∷ instruction (codes "JUMP") (codes "end" ∷ [])
          ∷ [],
      1,
    )
unfolding remove_unused_labels text_eq
pruned_test = refl
