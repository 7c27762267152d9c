-- ===== src/Optimizer.antt =====
-- src/mellowlang/compiler/optimizations/cleanup.py: labels that nothing jumps to are removed.
mod Labels
mod Tests
use mathlib.Core.Option
use mellow_programming_langu.Prelude.{
  ℕ, suc, Bool, false, not, ◌&&◌, ◌||◌, Option, none, some, List, [], ◌∷◌, map, if◌then◌else◌,
}
use mellow_programming_langu.Text.{Text, codes, text_eq}
use mellow_programming_langu.Lexer.{is_member}
use mellow_programming_langu.Backend.{IrInstruction, is_label, first_arg}

unfoldable pub both_of : {A B C : Type 0} → (A → B → C) → Option A → Option B → Option C
both_of f (some a) (some b) = some (f a b)
both_of f (some a) none = none
both_of f none b = none

-- `entry is not None and str(ins.args[0]) == entry`
unfoldable pub is_entry : Text → Option Text → Bool
unfolding text_eq
is_entry name none = false
is_entry name (some entry) = text_eq name entry

module _ {A : Type 0} (str repr : A → Text) where
  -- `ins.op in {"JUMP", "JUMP_IF_FALSE"}`
  unfoldable pub is_jump : IrInstruction A → Bool
  unfolding text_eq
  is_jump ins = text_eq ins.op (codes "JUMP") || text_eq ins.op (codes "JUMP_IF_FALSE")

  -- `str(ins.args[0])`; `none` is the IndexError.
  unfoldable pub name_of : IrInstruction A → Option Text
  unfolding first_arg
  name_of ins = Option.map str (first_arg str repr ins.args)

  unfoldable pub used_labels : List (IrInstruction A) → Option (List Text)
  unfolding is_jump name_of both_of
  used_labels [] = some []
  used_labels (ins ∷ rest) =
      let later = used_labels rest in
      if is_jump ins then both_of (λ name names. name ∷ names) (name_of ins) later else later

  -- The label that the program starts with, if it starts with one.
  unfoldable pub entry_label_of : List (IrInstruction A) → Option (Option Text)
  unfolding is_label name_of
  entry_label_of [] = some none
  entry_label_of (ins ∷ rest) =
      if is_label str repr ins then Option.map (λ name. some name) (name_of ins) else some none

  unfoldable pub without_label :
      List Text
      → Option Text
      → IrInstruction A
      → Text
      → List (IrInstruction A) × ℕ
      → List (IrInstruction A) × ℕ
  unfolding is_member is_entry
  without_label used entry ins name (pruned, removed) =
      if not (is_member name used) && not (is_entry name entry)
      then (pruned, suc removed)
      else (ins ∷ pruned, removed)

  -- The last loop: the instructions that stay, and how many labels are gone.
  unfoldable pub prune :
      List Text → Option Text → List (IrInstruction A) → Option (List (IrInstruction A) × ℕ)
  unfolding is_label name_of both_of without_label
  prune used entry [] = some ([], 0)
  prune used entry (ins ∷ rest) =
      let later = prune used entry rest in
      if is_label str repr ins
      then both_of (without_label used entry ins) (name_of ins) later
      else Option.map (λ (pruned, removed). (ins ∷ pruned, removed)) later

  unfoldable pub prune_with :
      List (IrInstruction A)
      → Option (List Text)
      → Option (Option Text)
      → Option (List (IrInstruction A) × ℕ)
  unfolding prune
  prune_with instructions none entry = none
  prune_with instructions (some used) none = none
  prune_with instructions (some used) (some entry) = prune used entry instructions

  unfoldable pub remove_unused_labels : List (IrInstruction A) → Option (List (IrInstruction A) × ℕ)
  unfolding prune_with used_labels entry_label_of
  remove_unused_labels instructions =
      prune_with instructions (used_labels instructions) (entry_label_of instructions)
