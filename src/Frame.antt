-- ===== src/Frame.antt =====
-- src/interp/stackmanager.c and stackmanager.h: the frame of a Java method (`struct JFrame_t`), the
-- operand stack (`push`, `pop`), the local variables (`LOAD`, `STORE`) and, from src/interp/interp.c,
-- the reads of the instruction stream (`INTERP_U1`, `INTERP_U2`, `INTERP_U4`, `PC_MOVE`).
-- The machine is the 32 bit target of the README: an int and a reference are one slot, a long long
-- and a double two slots, the low word first.
pub mod Defs
pub mod View
pub mod Effects
pub mod Writes
pub mod Steps
pub mod Operands
pub mod Locals
pub mod Fetch
pub mod Bounds
