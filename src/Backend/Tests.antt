-- ===== src/Backend/Tests.antt =====
-- A loop that jumps back.
use mellow_programming_langu.Prelude.{◌≡◌, refl, inr, [], ◌∷◌, length, drop}
use mellow_programming_langu.Text.{Text, codes}
use mellow_programming_langu.Dict.{find, put}
use mellow_programming_langu.Backend.{
  IrProgram, BytecodeBundle, address, literal, lower, collect_labels, emit_all,
}
use mellow_programming_langu.Backend.Labels.{Place, lower_resolves}

abbrev same : Text → Text
same t = t

abbrev looping : IrProgram Text
looping = record {
  instructions =
      record { op = codes "PUSH"; args = codes "1" ∷ []; line = 1; col = 1 }
      ∷ record { op = codes "LABEL"; args = codes "L" ∷ []; line = 1; col = 1 }
      ∷ record { op = codes "PRINT"; args = []; line = 2; col = 0 }
      ∷ record { op = codes "JUMP"; args = codes "L" ∷ []; line = 3; col = 4 }
      ∷ [];
  functions = [];
  events = [];
}

abbrev lowered : BytecodeBundle Text
lowered = record {
  code =
      record {
        opcode = 1;
        operands = literal (codes "1") ∷ [];
        line = 1;
        col = 1;
        end_line = 1;
        end_col = 6;
        hint = codes "PUSH 1";
        ir_index = 0;
      }
      ∷ record {
        opcode = 9;
        operands = [];
        line = 2;
        col = 1;
        end_line = 2;
        end_col = 5;
        hint = codes "PRINT";
        ir_index = 2;
      }
      ∷ record {
        opcode = 10;
        operands = address 1 ∷ [];
        line = 3;
        col = 4;
        end_line = 3;
        end_col = 9;
        hint = codes "JUMP L";
        ir_index = 3;
      }
      ∷ [];
  func_table = [];
  event_table = [];
}

lower_resolves_example :
    (p : Place same same (codes "L") looping.instructions) × (emit_all same same
        ((codes "L", 1) ∷ [])
        (length p.before)
        (p.label ∷ p.after)
      ≡ inr (drop 1 lowered.code))
unfolding lower collect_labels find put
lower_resolves_example =
    lower_resolves same same looping lowered ((codes "L", 1) ∷ []) (codes "L") 1 refl refl refl
