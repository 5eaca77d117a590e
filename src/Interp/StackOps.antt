-- ===== src/Interp/StackOps.antt =====
-- The handlers of src/interp/interp.c that rearrange the operand stack.
pub mod Moves
use turkey_vm.Prelude.{Bool, if◌then◌else◌, Run, ok, halt, exited, ◌>>=◌}
use turkey_vm.Frame.Defs.{Frame, type_int, type_long, pop, push}

unfoldable pub exe_opc_pop : Frame → Run Frame
exe_opc_pop f = do (temp, f₁) ← pop f type_int; ok f₁

unfoldable pub exe_opc_pop2 : Frame → Run Frame
exe_opc_pop2 f = do (temp, f₁) ← pop f type_long; ok f₁

unfoldable pub exe_opc_dup : Frame → Run Frame
exe_opc_dup f = do (value, f₁) ← pop f type_int; f₂ ← push f₁ value type_int; push f₂ value type_int

unfoldable pub exe_opc_dup_x1 : Frame → Run Frame
exe_opc_dup_x1 f = do
  (value1, f₁) ← pop f type_int
  (value2, f₂) ← pop f₁ type_int
  f₃ ← push f₂ value1 type_int
  f₄ ← push f₃ value2 type_int
  push f₄ value1 type_int

-- These four have empty bodies.
unfoldable pub exe_opc_dup_x2 : Frame → Run Frame
exe_opc_dup_x2 f = ok f

unfoldable pub exe_opc_dup2 : Frame → Run Frame
exe_opc_dup2 f = ok f

unfoldable pub exe_opc_dup2_x1 : Frame → Run Frame
exe_opc_dup2_x1 f = ok f

unfoldable pub exe_opc_dup2_x2 : Frame → Run Frame
exe_opc_dup2_x2 f = ok f

unfoldable pub trace_exe_opc_swap : Frame → Run Frame
trace_exe_opc_swap f = do
  (value1, f₁) ← pop f type_int
  (value2, f₂) ← pop f₁ type_int
  f₃ ← push f₂ value1 type_int
  push f₃ value2 type_int

-- `Trace_Opc`: a traced instruction ends the process behind itself. `traced` is `Trace_contains`.
unfoldable pub trace_opc : Bool → (Frame → Run Frame) → Frame → Run Frame
trace_opc traced handler f = do f₁ ← handler f; if traced then halt exited else ok f₁

unfoldable pub exe_opc_swap : Bool → Frame → Run Frame
unfolding trace_exe_opc_swap trace_opc
exe_opc_swap traced f = trace_opc traced trace_exe_opc_swap f
