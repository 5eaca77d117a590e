-- ===== src/Interp.antt =====
-- src/interp/interp.c: one handler for each instruction.
pub mod Const
pub mod Load
pub mod Store
pub mod StackOps
pub mod IntArith
pub mod LongArith
pub mod Convert
pub mod Branch
pub mod Return
pub mod Switch
pub mod Array
pub mod Creation
pub mod FieldAccess
pub mod Rules
