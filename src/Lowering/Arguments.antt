-- ===== src/Lowering/Arguments.antt =====
-- src/mellowlang/compiler/lowering/syscalls.py. The arguments are of any type: the lowering hands in
-- what lowers them.
use mellow_programming_langu.Prelude.{
  ℕ, zero, suc, ◌+◌, ◌-◌, ◌⊎◌, inl, inr, Bool, false, ◌||◌, Option, none, some, List, [], ◌∷◌, ◌++◌,
  ◌==◌, if◌then◌else◌, length, set, replicate,
}
use mellow_programming_langu.Text.{Text, codes, text_eq, strip}
use mellow_programming_langu.Dict.{find}
use mellow_programming_langu.Lowering.Tables.{syscall_arguments}
use mellow_programming_langu.Lowering.Machine.{LoweringError, unsupported}

-- What Python and the host give the lowering: `str.lower`, `str` of a number, and MODULE_ALLOWLIST.
pub record Names : Type 0 where
  pub lower : Text → Text
  pub decimal : ℕ → Text
  pub allowlist : List (Text × List (Text × Text))

-- `s.lstrip('*')`
unfoldable pub lstrip_stars : Text → Text
lstrip_stars [] = []
lstrip_stars (c ∷ s) = let rest = lstrip_stars s in if c == b'*' then rest else c ∷ s

-- `signature.index(name)`, where it is in the signature
unfoldable pub index_of_name : Text → ℕ → List Text → Option ℕ
unfolding text_eq
index_of_name name i [] = none
index_of_name name i (p ∷ ps) =
    let rest = index_of_name name (i + 1) ps in if text_eq p name then some i else rest

unfoldable pub is_filled : ℕ → List ℕ → Bool
is_filled i [] = false
is_filled i (j ∷ js) = i == j || is_filled i js

-- `set(range(n))`
unfoldable pub range_set : ℕ → List ℕ
range_set zero = []
range_set (suc n) = n ∷ range_set n

module _ {E : Type 0} where
  -- `slots[index] = value`, after slots are added up to the index
  unfoldable pub fill_slot : E → List E → ℕ → E → List E
  fill_slot none_slot slots i value =
      set (slots ++ replicate (i + 1 - length slots) none_slot) i value

  unfoldable pub filled_slots :
      E → Text → List ℕ → Option ℕ → E → List E → LoweringError ⊎ (List E × List ℕ)
  unfolding fill_slot is_filled
  filled_slots none_slot name filled none value slots =
      inl (unsupported (codes "unknown named argument " ++ name))
  filled_slots none_slot name filled (some i) value slots =
      if is_filled i filled
      then inl (unsupported (codes "duplicate argument " ++ name))
      else inr (fill_slot none_slot slots i value, i ∷ filled)

  unfoldable pub next_slots :
      LoweringError ⊎ (List E × List ℕ)
      → (List E → List ℕ → LoweringError ⊎ List E)
      → LoweringError ⊎ List E
  next_slots (inl e) k = inl e
  next_slots (inr (slots, filled)) k = k slots filled

  -- The loop over the named arguments.
  unfoldable pub bind_slots :
      Names → E → List Text → List E → List ℕ → List (Text × E) → LoweringError ⊎ List E
  unfolding filled_slots index_of_name next_slots lstrip_stars
  bind_slots n none_slot signature slots filled [] = inr slots
  bind_slots n none_slot signature slots filled ((raw_name, value) ∷ kwargs) =
      next_slots
        (filled_slots none_slot raw_name filled
          (index_of_name (lstrip_stars (n.lower (strip raw_name))) 0 signature) value slots)
        (λ slots' filled'. bind_slots n none_slot signature slots' filled' kwargs)

  unfoldable pub bind_to :
      Names → E → Option (List Text) → List E → List (Text × E) → LoweringError ⊎ List E
  unfolding bind_slots range_set
  bind_to n none_slot none args kwargs =
      inl (unsupported (codes "named arguments are not yet lowered in IR pipeline"))
  bind_to n none_slot (some signature) args kwargs =
      bind_slots n none_slot signature args (range_set (length args)) kwargs

  unfoldable pub bind_call_arguments :
      Names → E → Text → List E → List (Text × E) → LoweringError ⊎ List E
  unfolding bind_to
  bind_call_arguments n none_slot syscall_name args kwargs =
      bind_to n none_slot (find syscall_name syscall_arguments) args kwargs

-- The name that the allowlist has for a function of a module, or else the standard one.
pub allowed : Text → Text → Option Text → Text
allowed module_name func (some name) = name
allowed module_name func none = codes "std." ++ (module_name ++ (codes "." ++ func))

pub functions_of : Option (List (Text × Text)) → Text → Option Text
functions_of none func = none
functions_of (some functions) func = find func functions

pub module_syscall : Names → Text → Text → Text
unfolding allowed functions_of
module_syscall n module_name func =
    allowed (n.lower module_name) (n.lower func)
      (functions_of (find (n.lower module_name) n.allowlist) (n.lower func))
