-- ===== src/Interp/Load.antt =====
-- The handlers of src/interp/interp.c that push a local variable.
pub mod Pushes
use turkey_vm.Prelude.{Run, ◌>>=◌}
use turkey_vm.Frame.Defs.{
  Frame, type_int, type_long, type_double, type_reference, type_float, push, load, load_wide,
  interp_u1,
}

unfoldable pub exe_opc_iload : Frame → Run Frame
exe_opc_iload f = do
  (locals_idx, f₁) ← interp_u1 f
  value ← load f₁ locals_idx
  push f₁ value type_int

unfoldable pub exe_opc_lload : Frame → Run Frame
exe_opc_lload f = do
  (locals_idx, f₁) ← interp_u1 f
  value ← load_wide f₁ locals_idx
  push f₁ value type_long

unfoldable pub exe_opc_fload : Frame → Run Frame
exe_opc_fload f = do
  (locals_idx, f₁) ← interp_u1 f
  value ← load f₁ locals_idx
  push f₁ value type_float

unfoldable pub exe_opc_dload : Frame → Run Frame
exe_opc_dload f = do
  (locals_idx, f₁) ← interp_u1 f
  value ← load_wide f₁ locals_idx
  push f₁ value type_double

unfoldable pub exe_opc_aload : Frame → Run Frame
exe_opc_aload f = do
  (locals_idx, f₁) ← interp_u1 f
  value ← load f₁ locals_idx
  push f₁ value type_reference

unfoldable pub exe_opc_iload_0 : Frame → Run Frame
exe_opc_iload_0 f = do value ← load f 0; push f value type_int

unfoldable pub exe_opc_iload_1 : Frame → Run Frame
exe_opc_iload_1 f = do value ← load f 1; push f value type_int

unfoldable pub exe_opc_iload_2 : Frame → Run Frame
exe_opc_iload_2 f = do value ← load f 2; push f value type_int

unfoldable pub exe_opc_iload_3 : Frame → Run Frame
exe_opc_iload_3 f = do value ← load f 3; push f value type_int

unfoldable pub exe_opc_lload_0 : Frame → Run Frame
exe_opc_lload_0 f = do value ← load_wide f 0; push f value type_long

unfoldable pub exe_opc_lload_1 : Frame → Run Frame
exe_opc_lload_1 f = do value ← load_wide f 1; push f value type_long

unfoldable pub exe_opc_lload_2 : Frame → Run Frame
exe_opc_lload_2 f = do value ← load_wide f 2; push f value type_long

unfoldable pub exe_opc_lload_3 : Frame → Run Frame
exe_opc_lload_3 f = do value ← load_wide f 3; push f value type_long

unfoldable pub exe_opc_fload_0 : Frame → Run Frame
exe_opc_fload_0 f = do value ← load f 0; push f value type_float

unfoldable pub exe_opc_fload_1 : Frame → Run Frame
exe_opc_fload_1 f = do value ← load f 1; push f value type_float

unfoldable pub exe_opc_fload_2 : Frame → Run Frame
exe_opc_fload_2 f = do value ← load f 2; push f value type_float

unfoldable pub exe_opc_fload_3 : Frame → Run Frame
exe_opc_fload_3 f = do value ← load f 3; push f value type_float

unfoldable pub exe_opc_dload_0 : Frame → Run Frame
exe_opc_dload_0 f = do value ← load_wide f 0; push f value type_double

unfoldable pub exe_opc_dload_1 : Frame → Run Frame
exe_opc_dload_1 f = do value ← load_wide f 1; push f value type_double

unfoldable pub exe_opc_dload_2 : Frame → Run Frame
exe_opc_dload_2 f = do value ← load_wide f 2; push f value type_double

unfoldable pub exe_opc_dload_3 : Frame → Run Frame
exe_opc_dload_3 f = do value ← load_wide f 3; push f value type_double

unfoldable pub exe_opc_aload_0 : Frame → Run Frame
exe_opc_aload_0 f = do value ← load f 0; push f value type_reference

unfoldable pub exe_opc_aload_1 : Frame → Run Frame
exe_opc_aload_1 f = do value ← load f 1; push f value type_reference

unfoldable pub exe_opc_aload_2 : Frame → Run Frame
exe_opc_aload_2 f = do value ← load f 2; push f value type_reference

unfoldable pub exe_opc_aload_3 : Frame → Run Frame
exe_opc_aload_3 f = do value ← load f 3; push f value type_reference
