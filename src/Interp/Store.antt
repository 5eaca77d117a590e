-- ===== src/Interp/Store.antt =====
-- The handlers of src/interp/interp.c that pop into a local variable.
pub mod Pops
use turkey_vm.Prelude.{Run, ok, ◌>>=◌}
use turkey_vm.Frame.Defs.{
  Frame, type_int, type_long, type_double, type_reference, type_float, pop, store, store_wide,
  interp_u1,
}

unfoldable pub exe_opc_istore : Frame → Run Frame
exe_opc_istore f = do
  (locals_idx, f₁) ← interp_u1 f
  (value, f₂) ← pop f₁ type_int
  store f₂ value locals_idx

unfoldable pub exe_opc_lstore : Frame → Run Frame
exe_opc_lstore f = do
  (locals_idx, f₁) ← interp_u1 f
  (value, f₂) ← pop f₁ type_long
  store_wide f₂ value locals_idx

unfoldable pub exe_opc_fstore : Frame → Run Frame
exe_opc_fstore f = do
  (locals_idx, f₁) ← interp_u1 f
  (value, f₂) ← pop f₁ type_float
  store f₂ value locals_idx

unfoldable pub exe_opc_dstore : Frame → Run Frame
exe_opc_dstore f = do
  (locals_idx, f₁) ← interp_u1 f
  (value, f₂) ← pop f₁ type_double
  store_wide f₂ value locals_idx

unfoldable pub exe_opc_astore : Frame → Run Frame
exe_opc_astore f = do
  (locals_idx, f₁) ← interp_u1 f
  (value, f₂) ← pop f₁ type_reference
  store f₂ value locals_idx

unfoldable pub exe_opc_istore_0 : Frame → Run Frame
exe_opc_istore_0 f = do (value, f₁) ← pop f type_int; store f₁ value 0

unfoldable pub exe_opc_istore_1 : Frame → Run Frame
exe_opc_istore_1 f = do (value, f₁) ← pop f type_int; store f₁ value 1

unfoldable pub exe_opc_istore_2 : Frame → Run Frame
exe_opc_istore_2 f = do (value, f₁) ← pop f type_int; store f₁ value 2

unfoldable pub exe_opc_istore_3 : Frame → Run Frame
exe_opc_istore_3 f = do (value, f₁) ← pop f type_int; store f₁ value 3

unfoldable pub exe_opc_lstore_0 : Frame → Run Frame
exe_opc_lstore_0 f = do (value, f₁) ← pop f type_long; store_wide f₁ value 0

unfoldable pub exe_opc_lstore_1 : Frame → Run Frame
exe_opc_lstore_1 f = do (value, f₁) ← pop f type_long; store_wide f₁ value 1

unfoldable pub exe_opc_lstore_2 : Frame → Run Frame
exe_opc_lstore_2 f = do (value, f₁) ← pop f type_long; store_wide f₁ value 2

unfoldable pub exe_opc_lstore_3 : Frame → Run Frame
exe_opc_lstore_3 f = do (value, f₁) ← pop f type_long; store_wide f₁ value 3

unfoldable pub exe_opc_fstore_0 : Frame → Run Frame
exe_opc_fstore_0 f = do (value, f₁) ← pop f type_float; store f₁ value 0

unfoldable pub exe_opc_fstore_1 : Frame → Run Frame
exe_opc_fstore_1 f = do (value, f₁) ← pop f type_float; store f₁ value 1

unfoldable pub exe_opc_fstore_2 : Frame → Run Frame
exe_opc_fstore_2 f = do (value, f₁) ← pop f type_float; store f₁ value 2

unfoldable pub exe_opc_fstore_3 : Frame → Run Frame
exe_opc_fstore_3 f = do (value, f₁) ← pop f type_float; store f₁ value 3

-- There is no `STORE` here.
unfoldable pub exe_opc_dstore_0 : Frame → Run Frame
exe_opc_dstore_0 f = do (value, f₁) ← pop f type_double; ok f₁

unfoldable pub exe_opc_dstore_1 : Frame → Run Frame
exe_opc_dstore_1 f = do (value, f₁) ← pop f type_double; store_wide f₁ value 1

unfoldable pub exe_opc_dstore_2 : Frame → Run Frame
exe_opc_dstore_2 f = do (value, f₁) ← pop f type_double; store_wide f₁ value 2

unfoldable pub exe_opc_dstore_3 : Frame → Run Frame
exe_opc_dstore_3 f = do (value, f₁) ← pop f type_double; store_wide f₁ value 3

unfoldable pub exe_opc_astore_0 : Frame → Run Frame
exe_opc_astore_0 f = do (value, f₁) ← pop f type_reference; store f₁ value 0

unfoldable pub exe_opc_astore_1 : Frame → Run Frame
exe_opc_astore_1 f = do (value, f₁) ← pop f type_reference; store f₁ value 1

unfoldable pub exe_opc_astore_2 : Frame → Run Frame
exe_opc_astore_2 f = do (value, f₁) ← pop f type_reference; store f₁ value 2

unfoldable pub exe_opc_astore_3 : Frame → Run Frame
exe_opc_astore_3 f = do (value, f₁) ← pop f type_reference; store f₁ value 3
