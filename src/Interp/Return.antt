-- ===== src/Interp/Return.antt =====
-- The handlers of src/interp/interp.c that return a value to the frame of the caller.
pub mod Values
use turkey_vm.Prelude.{Run, ok, ◌>>=◌}
use turkey_vm.Frame.Defs.{Frame, type_int, type_double, type_reference, pop, push}

-- `ret_frame` is the frame that takes the value. Both frames are left.
unfoldable pub exe_opc_ireturn : Frame → Frame → Run (Frame × Frame)
exe_opc_ireturn ret_frame f = do
  (value, f₁) ← pop f type_int
  ret_frame₁ ← push ret_frame value type_int
  ok (ret_frame₁, f₁)

unfoldable pub exe_opc_dreturn : Frame → Frame → Run (Frame × Frame)
exe_opc_dreturn ret_frame f = do
  (value, f₁) ← pop f type_double
  ret_frame₁ ← push ret_frame value type_double
  ok (ret_frame₁, f₁)

unfoldable pub exe_opc_areturn : Frame → Frame → Run (Frame × Frame)
exe_opc_areturn ret_frame f = do
  (array_ref, f₁) ← pop f type_reference
  ret_frame₁ ← push ret_frame array_ref type_reference
  ok (ret_frame₁, f₁)

-- These three have empty bodies.
unfoldable pub exe_opc_lreturn : Frame → Run Frame
exe_opc_lreturn f = ok f

unfoldable pub exe_opc_freturn : Frame → Run Frame
exe_opc_freturn f = ok f

unfoldable pub exe_opc_return : Frame → Run Frame
exe_opc_return f = ok f
