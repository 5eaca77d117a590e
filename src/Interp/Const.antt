-- ===== src/Interp/Const.antt =====
-- The handlers of src/interp/interp.c that push a constant.
pub mod Pushes
use turkey_vm.Prelude.{◌-◌, ◌%◌, ◌^◌, Run, ok, ◌>>=◌, short_to_int}
use turkey_vm.Frame.Defs.{
  Frame, type_int, type_long, type_double, type_float, push, interp_u1, interp_u2,
}

unfoldable pub exe_opc_nop : Frame → Run Frame
exe_opc_nop f = ok f

unfoldable pub exe_opc_aconst_null : Frame → Run Frame
exe_opc_aconst_null f = push f 0 type_int

unfoldable pub exe_opc_iconst_m1 : Frame → Run Frame
exe_opc_iconst_m1 f = push f (2 ^ 32 - 1) type_int

unfoldable pub exe_opc_iconst_0 : Frame → Run Frame
exe_opc_iconst_0 f = push f 0 type_int

unfoldable pub exe_opc_iconst_1 : Frame → Run Frame
exe_opc_iconst_1 f = push f 1 type_int

unfoldable pub exe_opc_iconst_2 : Frame → Run Frame
exe_opc_iconst_2 f = push f 2 type_int

unfoldable pub exe_opc_iconst_3 : Frame → Run Frame
exe_opc_iconst_3 f = push f 3 type_int

unfoldable pub exe_opc_iconst_4 : Frame → Run Frame
exe_opc_iconst_4 f = push f 4 type_int

unfoldable pub exe_opc_iconst_5 : Frame → Run Frame
exe_opc_iconst_5 f = push f 5 type_int

unfoldable pub exe_opc_lconst_0 : Frame → Run Frame
exe_opc_lconst_0 f = push f 0 type_long

unfoldable pub exe_opc_lconst_1 : Frame → Run Frame
exe_opc_lconst_1 f = push f 1 type_long

-- The patterns of 0, 1 and 2 as IEEE 754 numbers.
unfoldable pub exe_opc_fconst_0 : Frame → Run Frame
exe_opc_fconst_0 f = push f 0 type_float

unfoldable pub exe_opc_fconst_1 : Frame → Run Frame
exe_opc_fconst_1 f = push f 0x3f800000 type_float

unfoldable pub exe_opc_fconst_2 : Frame → Run Frame
exe_opc_fconst_2 f = push f 0x40000000 type_float

unfoldable pub exe_opc_dconst_0 : Frame → Run Frame
exe_opc_dconst_0 f = push f 0 type_double

unfoldable pub exe_opc_dconst_1 : Frame → Run Frame
exe_opc_dconst_1 f = push f 0x3ff0000000000000 type_double

-- `value` is an int, and the byte is an `unsigned char`.
unfoldable pub exe_opc_bipush : Frame → Run Frame
exe_opc_bipush f = do (value, f₁) ← interp_u1 f; push f₁ value type_int

-- `value0` is a short.
unfoldable pub exe_opc_sipush : Frame → Run Frame
exe_opc_sipush f = do (value₀, f₁) ← interp_u2 f; push f₁ (short_to_int (value₀ % 2 ^ 16)) type_int
