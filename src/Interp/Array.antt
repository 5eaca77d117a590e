-- ===== src/Interp/Array.antt =====
-- The handlers of src/interp/interp.c that load and store elements of arrays.
pub mod Elements
pub mod Loads
pub mod Stores
pub mod Checks
use turkey_vm.Prelude.{ℕ, ◌%◌, ◌^◌, Run, ok, ◌>>=◌, char_to_int, short_to_int}
use turkey_vm.Frame.Defs.{
  Frame, type_int, type_long, type_double, type_reference, type_float, pop, push,
}
use turkey_vm.Objects.{Object, Heap, deref, set_object, check_array, array_data, set_array_data}

unfoldable pub exe_opc_iaload : Heap → Frame → Run Frame
exe_opc_iaload heap f = do
  (index, f₁) ← pop f type_int
  (obj, f₂) ← pop f₁ type_reference
  o ← check_array heap obj index
  value ← array_data o index 4
  push f₂ value type_int

-- There is no `CHECK_ARRAY` here.
unfoldable pub exe_opc_laload : Heap → Frame → Run Frame
exe_opc_laload heap f = do
  (index, f₁) ← pop f type_int
  (obj, f₂) ← pop f₁ type_reference
  o ← deref heap obj
  value ← array_data o index 8
  push f₂ value type_long

unfoldable pub exe_opc_faload : Heap → Frame → Run Frame
exe_opc_faload heap f = do
  (index, f₁) ← pop f type_int
  (obj, f₂) ← pop f₁ type_reference
  o ← check_array heap obj index
  value ← array_data o index 4
  push f₂ value type_float

unfoldable pub exe_opc_daload : Heap → Frame → Run Frame
exe_opc_daload heap f = do
  (index, f₁) ← pop f type_int
  (obj, f₂) ← pop f₁ type_reference
  o ← check_array heap obj index
  value ← array_data o index 8
  push f₂ value type_double

unfoldable pub exe_opc_aaload : Heap → Frame → Run Frame
exe_opc_aaload heap f = do
  (index, f₁) ← pop f type_int
  (obj, f₂) ← pop f₁ type_reference
  o ← check_array heap obj index
  value ← array_data o index 4
  push f₂ value type_reference

-- A `char` is signed on the target.
unfoldable pub exe_opc_baload : Heap → Frame → Run Frame
exe_opc_baload heap f = do
  (index, f₁) ← pop f type_int
  (obj, f₂) ← pop f₁ type_reference
  o ← check_array heap obj index
  value ← array_data o index 1
  push f₂ (char_to_int value) type_int

-- The element is read as a short.
unfoldable pub exe_opc_caload : Heap → Frame → Run Frame
exe_opc_caload heap f = do
  (index, f₁) ← pop f type_int
  (obj, f₂) ← pop f₁ type_reference
  o ← check_array heap obj index
  value ← array_data o index 2
  push f₂ (short_to_int value) type_int

unfoldable pub exe_opc_saload : Heap → Frame → Run Frame
exe_opc_saload heap f = do
  (index, f₁) ← pop f type_int
  (obj, f₂) ← pop f₁ type_reference
  o ← check_array heap obj index
  value ← array_data o index 2
  push f₂ (short_to_int value) type_int

unfoldable pub exe_opc_iastore : Heap → Frame → Run (Heap × Frame)
exe_opc_iastore heap f = do
  (value, f₁) ← pop f type_int
  (index, f₂) ← pop f₁ type_int
  (obj, f₃) ← pop f₂ type_reference
  o ← check_array heap obj index
  o₁ ← set_array_data o index 4 value
  ok (set_object heap obj o₁, f₃)

unfoldable pub exe_opc_lastore : Heap → Frame → Run (Heap × Frame)
exe_opc_lastore heap f = do
  (value, f₁) ← pop f type_long
  (index, f₂) ← pop f₁ type_int
  (obj, f₃) ← pop f₂ type_reference
  o ← check_array heap obj index
  o₁ ← set_array_data o index 8 value
  ok (set_object heap obj o₁, f₃)

unfoldable pub exe_opc_fastore : Heap → Frame → Run (Heap × Frame)
exe_opc_fastore heap f = do
  (value, f₁) ← pop f type_float
  (index, f₂) ← pop f₁ type_int
  (obj, f₃) ← pop f₂ type_reference
  o ← check_array heap obj index
  o₁ ← set_array_data o index 4 value
  ok (set_object heap obj o₁, f₃)

unfoldable pub exe_opc_dastore : Heap → Frame → Run (Heap × Frame)
exe_opc_dastore heap f = do
  (value, f₁) ← pop f type_double
  (index, f₂) ← pop f₁ type_int
  (obj, f₃) ← pop f₂ type_reference
  o ← check_array heap obj index
  o₁ ← set_array_data o index 8 value
  ok (set_object heap obj o₁, f₃)

unfoldable pub exe_opc_aastore : Heap → Frame → Run (Heap × Frame)
exe_opc_aastore heap f = do
  (value, f₁) ← pop f type_reference
  (index, f₂) ← pop f₁ type_int
  (obj, f₃) ← pop f₂ type_reference
  o ← check_array heap obj index
  o₁ ← set_array_data o index 4 value
  ok (set_object heap obj o₁, f₃)

unfoldable pub exe_opc_bastore : Heap → Frame → Run (Heap × Frame)
exe_opc_bastore heap f = do
  (value, f₁) ← pop f type_int
  (index, f₂) ← pop f₁ type_int
  (obj, f₃) ← pop f₂ type_reference
  o ← check_array heap obj index
  o₁ ← set_array_data o index 1 (value % 2 ^ 8)
  ok (set_object heap obj o₁, f₃)

unfoldable pub exe_opc_castore : Heap → Frame → Run (Heap × Frame)
exe_opc_castore heap f = do
  (value, f₁) ← pop f type_int
  (index, f₂) ← pop f₁ type_int
  (obj, f₃) ← pop f₂ type_reference
  o ← check_array heap obj index
  o₁ ← set_array_data o index 2 (value % 2 ^ 16)
  ok (set_object heap obj o₁, f₃)

unfoldable pub exe_opc_sastore : Heap → Frame → Run (Heap × Frame)
exe_opc_sastore heap f = do
  (value, f₁) ← pop f type_int
  (index, f₂) ← pop f₁ type_int
  (obj, f₃) ← pop f₂ type_reference
  o ← check_array heap obj index
  o₁ ← set_array_data o index 2 (value % 2 ^ 16)
  ok (set_object heap obj o₁, f₃)
