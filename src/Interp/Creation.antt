-- ===== src/Interp/Creation.antt =====
-- The handlers of src/interp/interp.c that make objects and arrays and that ask for the length of
-- an array. `loadClass` and `resolveClass` of the class loader are arguments that take the heap and
-- return it as they leave it: they make the objects of the classes that they load, and run `<clinit>`
-- in frames of its own. The address that `malloc` returns after that is an argument too.
pub mod Arrays
pub mod Instances
use turkey_vm.Prelude.{
  ℕ, ◌+◌, ◌*◌, ◌%◌, ◌^◌, Bool, Option, none, List, ◌==◌, if◌then◌else◌, Run, ok, halt, ◌>>=◌,
  assertion_failed, exception,
}
use turkey_vm.Frame.Defs.{Frame, type_int, type_reference, pop, push, interp_u1, interp_u2, pc_move}
use turkey_vm.Objects.{Heap, deref, is_array, alloc_object, alloc_type_array}

-- `resolve_class` is `resolveClass(GET_CLASS(f), class_idx)`: the class, its `obj_size`, and the heap
-- that the resolution leaves.
unfoldable pub exe_opc_new :
    (ℕ → Heap → Run ((ℕ × ℕ) × Heap)) → ℕ → Heap → Frame → Run (Heap × Frame)
exe_opc_new resolve_class fresh heap f = do
  (class_idx, f₁) ← interp_u2 f
  ((class, obj_size), heap₁) ← resolve_class class_idx heap
  (obj, heap₂) ← alloc_object fresh class obj_size heap₁
  f₂ ← push f₁ obj type_reference
  ok (heap₂, f₂)

-- The name of the elements is `NULL`.
unfoldable pub exe_opc_newarray :
    (Option (List ℕ) → Heap → Run (ℕ × Heap)) → ℕ → Heap → Frame → Run (Heap × Frame)
exe_opc_newarray load_class fresh heap f = do
  (array_type, f₁) ← interp_u1 f
  (count, f₂) ← pop f₁ type_int
  (obj, heap₁) ← alloc_type_array load_class fresh array_type count none heap
  if obj == 0 then halt exception else do f₃ ← push f₂ obj type_reference; ok (heap₁, f₃)

unfoldable pub exe_opc_arraylength : Heap → Frame → Run Frame
exe_opc_arraylength heap f = do
  (arrayref, f₁) ← pop f type_reference
  if arrayref == 0 then halt assertion_failed else do
    o ← deref heap arrayref
    if is_array o.kind then push f₁ o.length type_int else halt assertion_failed

-- `ATHROW` stops before it takes its operand.
unfoldable pub exe_opc_athrow : Frame → Run Frame
exe_opc_athrow f = halt exception

unfoldable pub exe_opc_checkcast : Frame → Run Frame
exe_opc_checkcast f = pc_move 2 f

-- `resolve_class` is `resolveClass(GET_CLASS(f), index)`, which returns no `NULL`, and
-- `is_instance_of` is `isInstanceOf`.
unfoldable pub exe_opc_instanceof :
    (ℕ → Heap → Run (ℕ × Heap)) → (ℕ → ℕ → Run Bool) → Heap → Frame → Run (Heap × Frame)
exe_opc_instanceof resolve_class is_instance_of heap f = do
  (index, f₁) ← interp_u2 f
  (obj, f₂) ← pop f₁ type_reference
  if obj == 0 then (do f₃ ← push f₂ 0 type_int; ok (heap, f₃)) else do
    (class, heap₁) ← resolve_class index heap
    o ← deref heap₁ obj
    result ← is_instance_of class o.class
    f₃ ← push f₂ (if result then 1 else 0) type_int
    ok (heap₁, f₃)

unfoldable pub exe_opc_monitorenter : Frame → Run Frame
exe_opc_monitorenter f = do (obj, f₁) ← pop f type_reference; ok f₁

unfoldable pub exe_opc_monitorexit : Frame → Run Frame
exe_opc_monitorexit f = do (obj, f₁) ← pop f type_reference; ok f₁
