-- ===== src/Interp/FieldAccess.antt =====
-- The handlers of src/interp/interp.c that read and write the fields of objects. `resolve_field` is
-- `resolveField(GET_CLASS(f), _)`, which goes through the constant pool to `find_field`; it gives
-- `none` for `NULL`.
pub mod Stored
pub mod Access
pub mod RoundTrip
use turkey_vm.Prelude.{
  ℕ, ◌+◌, ◌-◌, ◌%◌, ◌^◌, Bool, Option, none, some, List, [], ◌∷◌, if◌then◌else◌, Run, ok, halt,
  ◌>>=◌, assertion_failed,
}
use turkey_vm.Frame.Defs.{
  Frame, type_int, type_long, type_double, type_float, type_reference, pop, push, interp_u2,
}
use turkey_vm.Objects.{Heap, deref, set_object, object_data, set_object_data}
use turkey_vm.Classes.{Text, FieldBlock, equals, letter_J, letter_D}

abbrev pub letter_F : Text
letter_F = 70 ∷ []

-- `offset - 1`.
abbrev pub field_index : FieldBlock → ℕ
field_index fb = (fb.offset + 2 ^ 32 - 1) % 2 ^ 32

unfoldable pub get_field : Heap → Frame → FieldBlock → Run Frame
get_field heap f fb = do
  (objref, f₁) ← pop f type_reference
  o ← deref heap objref
  if equals fb.type letter_J
      then (do value ← object_data o (field_index fb) 8; push f₁ value type_long)
      else (if equals fb.type letter_D
          then (do value ← object_data o (field_index fb) 8; push f₁ value type_double)
          else (if equals fb.type letter_F
              then (do value ← object_data o (field_index fb) 4; push f₁ value type_float)
              else (do value ← object_data o (field_index fb) 4; push f₁ value type_int)))

unfoldable pub exe_opc_getfield : (ℕ → Run (Option FieldBlock)) → Heap → Frame → Run Frame
unfolding get_field
exe_opc_getfield resolve_field heap f = do
  (fieldref_idx, f₁) ← interp_u2 f
  found ← resolve_field fieldref_idx
  elim found [ none ↦ halt assertion_failed | some fb ↦ get_field heap f₁ fb ]

-- The end of each branch: the object is popped, and the value written to it.
unfoldable pub set_field : Heap → Frame → FieldBlock → ℕ → ℕ → Run (Heap × Frame)
set_field heap f fb width value = do
  (objref, f₁) ← pop f type_reference
  o ← deref heap objref
  o₁ ← set_object_data o (field_index fb) width value
  ok (set_object heap objref o₁, f₁)

unfoldable pub put_field : Heap → Frame → FieldBlock → Run (Heap × Frame)
unfolding set_field
put_field heap f fb =
    if equals fb.type letter_J
    then (do (value, f₁) ← pop f type_long; set_field heap f₁ fb 8 value)
    else if equals fb.type letter_D
    then (do (value, f₁) ← pop f type_double; set_field heap f₁ fb 8 value)
    else if equals fb.type letter_F
    then (do (value, f₁) ← pop f type_float; set_field heap f₁ fb 4 value)
    else do (value, f₁) ← pop f type_int; set_field heap f₁ fb 4 value

unfoldable pub exe_opc_putfield : (ℕ → Run (Option FieldBlock)) → Heap → Frame → Run (Heap × Frame)
unfolding put_field
exe_opc_putfield resolve_field heap f = do
  (fieldref_idx, f₁) ← interp_u2 f
  found ← resolve_field fieldref_idx
  elim found [ none ↦ halt assertion_failed | some fb ↦ put_field heap f₁ fb ]
