-- ===== src/Interp/Convert.antt =====
-- The handlers of src/interp/interp.c that convert between int and long.
pub mod Casts
use turkey_vm.Prelude.{◌%◌, ◌^◌, Bool, Run, ok, ◌>>=◌, int_to_long}
use turkey_vm.Frame.Defs.{Frame, type_int, type_long, pop, push}
use turkey_vm.Interp.StackOps.{trace_opc}

unfoldable pub trace_exe_opc_i2l : Frame → Run Frame
trace_exe_opc_i2l f = do (value, f₁) ← pop f type_int; push f₁ (int_to_long value) type_long

unfoldable pub exe_opc_i2l : Bool → Frame → Run Frame
unfolding trace_exe_opc_i2l trace_opc
exe_opc_i2l traced f = trace_opc traced trace_exe_opc_i2l f

unfoldable pub exe_opc_l2i : Frame → Run Frame
exe_opc_l2i f = do (value, f₁) ← pop f type_long; push f₁ (value % 2 ^ 32) type_int

-- These three have empty bodies.
unfoldable pub exe_opc_i2b : Frame → Run Frame
exe_opc_i2b f = ok f

unfoldable pub exe_opc_i2c : Frame → Run Frame
exe_opc_i2c f = ok f

unfoldable pub exe_opc_i2s : Frame → Run Frame
exe_opc_i2s f = ok f
