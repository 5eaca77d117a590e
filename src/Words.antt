-- ===== src/Words.antt =====
-- Facts about bit patterns that the handlers of src/interp/interp.c rest on.
pub mod Wrap
pub mod Mask
pub mod Shift
pub mod Divide
