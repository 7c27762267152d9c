-- ===== src/Interp.antt =====
-- src/mellowlang/vm/interp: the stack machine that runs the bytecode. State holds the machine, Ops
-- the handlers of control, bindings and calls, Run the loop; the other children prove.
pub mod State
pub mod Ops
pub mod Run
pub mod Depths
pub mod Limits
pub mod Scopes
pub mod Calls
mod Tests
