-- ===== src/Optimizer/Labels.antt =====
-- What removing labels by src/mellowlang/compiler/optimizations/cleanup.py keeps of a program.
use mellow_programming_langu.Prelude.{
  ℕ, ◌+◌, ◌≡◌, ◌⊎◌, true, ◌||◌, some, List, [], ◌∷◌, if◌then◌else◌, length,
}
use mellow_programming_langu.Text.{Text}
use mellow_programming_langu.Lexer.{is_member}
use mellow_programming_langu.Backend.{IrInstruction, is_label}
use mellow_programming_langu.Optimizer.{is_jump, name_of}

module _ {A : Type 0} (str repr : A → Text) where
  -- A label or a jump has a name as its first argument.
  pub record Named (ins : IrInstruction A) : Type 0 where
    pub name : Text
    pub named :
        (is_label str repr ins || is_jump str repr ins) ≡ true → name_of str repr ins ≡ some name

  -- The instructions that are no labels.
  unfoldable pub code_of : List (IrInstruction A) → List (IrInstruction A)
  code_of [] = []
  code_of (ins ∷ rest) =
      let later = code_of rest in if is_label str repr ins then later else ins ∷ later

  -- Some label, or some jump, has the name.
  unfoldable pub Labels : Text → List (IrInstruction A) → Type 0
  Labels name [] = ⊥
  Labels name (ins ∷ rest) =
      (is_label str repr ins ≡ true) × (name_of str repr ins ≡ some name) ⊎ Labels name rest

  unfoldable pub JumpsTo : Text → List (IrInstruction A) → Type 0
  JumpsTo name [] = ⊥
  JumpsTo name (ins ∷ rest) =
      (is_jump str repr ins ≡ true) × (name_of str repr ins ≡ some name) ⊎ JumpsTo name rest

  -- The code is the same, each instruction stays or is counted, and the labels of used names stay.
  pub record Pruned (used : List Text) (instructions : List (IrInstruction A))
      (result : List (IrInstruction A) × ℕ) : Type 0 where
    pub code : code_of result.0 ≡ code_of instructions
    pub count : length result.0 + result.1 ≡ length instructions
    pub labels :
        (name : Text) → is_member name used ≡ true → Labels name instructions → Labels name result.0
