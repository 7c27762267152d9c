-- ===== src/Backend.antt =====
-- src/mellowlang/compiler/bytecode_backend.py, over the instructions of ir.py: labels become
-- addresses, and each other instruction becomes one of the bytecode.
mod Labels
mod Tests
use mellow_programming_langu.Prelude.{
  ℕ, ◌+◌, ◌-◌, max, ◌⊎◌, inl, inr, Bool, Option, none, some, List, [], ◌∷◌, map, leb, ◌==◌,
  if◌then◌else◌, length, take,
}
use mellow_programming_langu.Text.{Text, codes, text_eq, join}
use mellow_programming_langu.Dict.{find, put}

pub record IrInstruction (A : Type 0) : Type 0 where
  pub op : Text
  pub args : List A
  pub line : ℕ
  pub col : ℕ

pub record IrFunction : Type 0 where
  pub entry_label : Text
  pub params : List Text
  pub kind : Text

pub record IrProgram (A : Type 0) : Type 0 where
  pub instructions : List (IrInstruction A)
  pub functions : List (Text × IrFunction)
  pub events : List (Text × IrFunction)

pub data Operand (A : Type 0) : Type 0 where
  address : ℕ → Operand A
  literal : A → Operand A

-- An instruction of the bytecode with what the maps say of it.
pub record Emitted (A : Type 0) : Type 0 where
  pub opcode : ℕ
  pub operands : List (Operand A)
  pub line : ℕ
  pub col : ℕ
  pub end_line : ℕ
  pub end_col : ℕ
  pub hint : Text
  pub ir_index : ℕ

pub record Function : Type 0 where
  pub address : ℕ
  pub param_count : ℕ
  pub params : List Text
  pub kind : Text

-- The exceptions: a label that is not there, an unsupported opcode, a missing argument.
pub data BackendError : Type 0 where
  key_error unsupported : Text → BackendError
  index_error : BackendError

pub record BytecodeBundle (A : Type 0) : Type 0 where
  pub code : List (Emitted A)
  pub func_table : List (Text × Function)
  pub event_table : List (Text × Function)

-- OP_MAP: the number of each opcode in constants.py, and how many arguments it takes.
abbrev pub op_map : List (Text × (ℕ × ℕ))
op_map =
    (codes "HALT", (0, 0))
    ∷ (codes "PUSH", (1, 1))
    ∷ (codes "STORE", (2, 1))
    ∷ (codes "STORE_KEEP", (40, 1))
    ∷ (codes "STORE_AUTO", (41, 1))
    ∷ (codes "LOAD", (3, 1))
    ∷ (codes "ADD", (4, 0))
    ∷ (codes "SUB", (5, 0))
    ∷ (codes "MUL", (6, 0))
    ∷ (codes "DIV", (7, 0))
    ∷ (codes "COMPARE", (8, 1))
    ∷ (codes "PRINT", (9, 0))
    ∷ (codes "PRINTN", (44, 1))
    ∷ (codes "CALL", (12, 2))
    ∷ (codes "RETURN", (13, 0))
    ∷ (codes "ARG", (14, 1))
    ∷ (codes "SHOW_PREC", (15, 0))
    ∷ (codes "STOP", (18, 0))
    ∷ (codes "WAIT", (19, 0))
    ∷ (codes "SAVE_VAL", (32, 0))
    ∷ (codes "LOAD_F", (24, 1))
    ∷ (codes "LIST_PUT", (26, 0))
    ∷ (codes "BOOL_AND", (27, 0))
    ∷ (codes "BOOL_OR", (28, 0))
    ∷ (codes "BOOL_NOT", (29, 0))
    ∷ (codes "SYSCALL", (30, 1))
    ∷ (codes "POP", (31, 0))
    ∷ (codes "GETITEM", (33, 0))
    ∷ (codes "LEN", (34, 0))
    ∷ (codes "BUILD_LIST", (35, 1))
    ∷ (codes "BUILD_MAP", (36, 1))
    ∷ (codes "RANDOM", (17, 0))
    ∷ (codes "SEED", (42, 0))
    ∷ (codes "GLOBAL_SEED", (43, 0))
    ∷ (codes "MOD", (50, 0))
    ∷ (codes "POW_OP", (51, 0))
    ∷ (codes "IMPORT", (49, 2))
    ∷ []

-- Both results, or the exception of the first that has one.
unfoldable pub both :
    {A : Type 0} → BackendError ⊎ A → BackendError ⊎ List A → BackendError ⊎ List A
both (inl e) r = inl e
both (inr x) (inl e) = inl e
both (inr x) (inr xs) = inr (x ∷ xs)

module _ {A : Type 0} (str repr : A → Text) where
  unfoldable pub is_label : IrInstruction A → Bool
  unfolding text_eq
  is_label ins = text_eq ins.op (codes "LABEL")

  -- `ins.args[0]`
  unfoldable pub first_arg : List A → Option A
  first_arg [] = none
  first_arg (a ∷ args) = some a

  -- The first loop: each label stands for the number of instructions before it, the last one counts
  -- when a name comes twice; `none` is the `IndexError` of a label without a name.
  unfoldable pub collect_labels :
      ℕ → List (Text × ℕ) → List (IrInstruction A) → Option (List (Text × ℕ))
  unfolding is_label first_arg put
  collect_labels pc labels [] = some labels
  collect_labels pc labels (ins ∷ rest) =
      let label = elim (first_arg ins.args) as (λ x. Option (List (Text × ℕ))) [
        | none ↦ none
        | some a ↦ collect_labels pc (put (str a) pc labels) rest
      ] in
      let code = collect_labels (pc + 1) labels rest in if is_label ins then label else code

  unfoldable pub target : List (Text × ℕ) → Option A → BackendError ⊎ List (Operand A)
  target labels none = inl index_error
  target labels (some a) = elim (find (str a) labels) [
    | none ↦ inl (key_error (str a))
    | some pc ↦ inr (address pc ∷ [])
  ]

  -- The emitter that OP_MAP has for an opcode.
  unfoldable pub mapped : Text → Option (ℕ × ℕ) → List A → BackendError ⊎ (ℕ × List (Operand A))
  mapped op none args = inl (unsupported op)
  mapped op (some (code, arity)) args =
      if leb arity (length args)
      then inr (code, map (λ (a : A). literal a) (take arity args))
      else inl index_error

  unfoldable pub with_opcode :
      ℕ → BackendError ⊎ List (Operand A) → BackendError ⊎ (ℕ × List (Operand A))
  with_opcode code (inl e) = inl e
  with_opcode code (inr operands) = inr (code, operands)

  unfoldable pub emit_instruction :
      List (Text × ℕ) → IrInstruction A → BackendError ⊎ (ℕ × List (Operand A))
  unfolding text_eq target mapped with_opcode first_arg
  emit_instruction labels ins =
      if text_eq ins.op (codes "JUMP")
      then with_opcode 10 (target labels (first_arg ins.args))
      else if text_eq ins.op (codes "JUMP_IF_FALSE")
      then with_opcode 11 (target labels (first_arg ins.args))
      else mapped ins.op (find ins.op op_map) ins.args

  pub render_instruction_hint : IrInstruction A → Text
  unfolding join
  render_instruction_hint ins = join (codes " ") (ins.op ∷ map repr ins.args)

  -- `int(ins.col or 1)`
  pub start_col : IrInstruction A → ℕ
  start_col ins = if ins.col == 0 then 1 else ins.col

  unfoldable pub emitted :
      ℕ → IrInstruction A → BackendError ⊎ (ℕ × List (Operand A)) → BackendError ⊎ Emitted A
  unfolding render_instruction_hint start_col
  emitted idx ins (inl e) = inl e
  emitted idx ins (inr (code, operands)) = inr (record {
    opcode = code;
    operands = operands;
    line = ins.line;
    col = start_col ins;
    end_line = ins.line;
    end_col = start_col ins + max 1 (length (render_instruction_hint ins) - 1);
    hint = render_instruction_hint ins;
    ir_index = idx;
  })

  -- The second loop, from the instruction with the index `idx` on.
  unfoldable pub emit_all :
      List (Text × ℕ) → ℕ → List (IrInstruction A) → BackendError ⊎ List (Emitted A)
  unfolding is_label both emitted emit_instruction
  emit_all labels idx [] = inr []
  emit_all labels idx (ins ∷ rest) =
      let later = emit_all labels (idx + 1) rest in
      let code = both (emitted idx ins (emit_instruction labels ins)) later in
      if is_label ins then later else code

  unfoldable pub located : List (Text × ℕ) → Text × IrFunction → BackendError ⊎ (Text × Function)
  located labels (name, meta) = elim (find meta.entry_label labels) [
    | none ↦ inl (key_error meta.entry_label)
    | some pc ↦ inr (
      name,
      record {
        address = pc;
        param_count = length meta.params;
        params = meta.params;
        kind = meta.kind;
      },
    )
  ]

  unfoldable pub table :
      List (Text × ℕ) → List (Text × IrFunction) → BackendError ⊎ List (Text × Function)
  unfolding located both
  table labels [] = inr []
  table labels (f ∷ fs) = both (located labels f) (table labels fs)

  unfoldable pub bundle :
      BackendError ⊎ List (Emitted A)
      → BackendError ⊎ List (Text × Function)
      → BackendError ⊎ List (Text × Function)
      → BackendError ⊎ BytecodeBundle A
  bundle (inl e) fs es = inl e
  bundle (inr code) (inl e) es = inl e
  bundle (inr code) (inr fs) (inl e) = inl e
  bundle (inr code) (inr fs) (inr es) =
      inr (record { code = code; func_table = fs; event_table = es })

  unfoldable pub lower_with :
      IrProgram A → Option (List (Text × ℕ)) → BackendError ⊎ BytecodeBundle A
  unfolding emit_all table bundle
  lower_with ir none = inl index_error
  lower_with ir (some labels) =
      bundle (emit_all labels 0 ir.instructions) (table labels ir.functions)
        (table labels ir.events)

  unfoldable pub lower : IrProgram A → BackendError ⊎ BytecodeBundle A
  unfolding collect_labels lower_with
  lower ir = lower_with ir (collect_labels 0 [] ir.instructions)
