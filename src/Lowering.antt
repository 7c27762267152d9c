-- ===== src/Lowering.antt =====
-- src/mellowlang/compiler/lowering: statements and expressions become instructions. Machine models
-- the state of driver.py, Tables and Arguments tables.py and syscalls.py, Expressions and Statements
-- the files of these names; the other children prove.
pub mod Tables
pub mod Machine
pub mod Arguments
pub mod Expressions
pub mod Statements
pub mod Known
pub mod Rules
pub mod Tabled
pub mod Bindings
pub mod ExpressionLabels
pub mod PieceLabels
pub mod LoopLabels
pub mod StatementLabels
pub mod Emission
pub mod Assembly
pub mod Effect
pub mod Stack
mod Tests
