-- ===== src/Tests/Fields.antt =====
-- An object with an int `x` and a long `y`, and frames that write and read its fields.
use turkey_vm.Prelude.{
  ℕ, ◌<◌, ◌≤◌, ◌≡◌, ◌≢◌, refl, ap, Option, some, none, [], ◌∷◌, arith, ◌==◌, if◌then◌else◌, Run, ok,
  Returns,
}
use turkey_vm.Memory.{read_bytes}
use turkey_vm.Frame.Defs.{Frame}
use turkey_vm.Frame.View.{operands, IsFrame, Leaves}
use turkey_vm.Frame.Steps.{Effect}
use turkey_vm.Objects.{Object, Heap, object_object}
use turkey_vm.Classes.{
  ClassBlock, find_field, LoadedClass, null, class_block, FieldBlock, equals, field_words, has,
}
use turkey_vm.Classes.Layout.{Instance, HasLayout, done, placed}
use turkey_vm.Classes.Fields.{own, here, there}
use turkey_vm.Interp.Rules.{long_on}
use turkey_vm.Interp.FieldAccess.{exe_opc_getfield, exe_opc_putfield}
use turkey_vm.Interp.FieldAccess.Stored.{ObjectAt, FieldStored}
use turkey_vm.Interp.FieldAccess.Access.{field_on, getfield-Effect, putfield-Effect}
use turkey_vm.Interp.FieldAccess.RoundTrip.{Asks, putfield-getfield}
use turkey_vm.Interp.Creation.{exe_opc_new}
use turkey_vm.Interp.Creation.Instances.{NewObject, new-NewObject}
use turkey_vm.Classes.Resolved.{Decided, find_field-Decided}
use turkey_vm.Tests.Frames.{some_frame}

abbrev x_field : FieldBlock
x_field = record { access_flags = 1; name = 120 ∷ []; type = 73 ∷ []; static_value = 0; offset = 1 }

abbrev y_field : FieldBlock
y_field = record { access_flags = 1; name = 121 ∷ []; type = 74 ∷ []; static_value = 0; offset = 2 }

abbrev point_block : ClassBlock
point_block = record {
  access_flags = 33;
  fields = x_field ∷ y_field ∷ [];
  methods = [];
  methods_table = λ i. none;
  methods_table_size = 0;
  obj_size = 3;
}

abbrev point : LoadedClass
point = class_block null point_block

x_words : field_words x_field ≡ 1
unfolding field_words equals
x_words = refl

y_words : field_words y_field ≡ 2
unfolding field_words equals
y_words = refl

x-Instance : Instance x_field
unfolding has
x-Instance = refl

y-Instance : Instance y_field
unfolding has
y-Instance = refl

point-HasLayout : HasLayout point
unfolding field_words equals has
point-HasLayout = (tt, placed refl refl (placed refl refl done))

abbrev origin : Object
origin = record {
  class = 1;
  kind = object_object;
  length = 3;
  atype = 0;
  el_size = 4;
  bytes = 12;
  cell = λ p. if p == 4 then 200 else 0;
}

abbrev heap_64 : Heap
heap_64 p = if p == 64 then some origin else none

origin-ObjectAt : ObjectAt heap_64 64 origin point
origin-ObjectAt = record {
  address = omega arith;
  found = refl;
  words_lt = omega arith;
  sized = refl;
  cells = λ p. ground arith;
}

-- The indices 1 and 2 of the code resolve to the two fields. The stack has a reference to the
-- object, and 9 on top of it.
abbrev resolve : ℕ → Run (Option FieldBlock)
resolve i = ok (some (if i == 1 then x_field else y_field))

abbrev field_frame : ℕ → ℕ → Frame
field_frame pc height = record some_frame {
  code = 0 ∷ 1 ∷ 0 ∷ 2 ∷ [];
  pc = pc;
  pc_offset = pc;
  cell = λ i. if i == 5 then 64 else if i == 6 then 9 else 0;
  ostack = height;
}

field_frame-IsFrame :
    (pc height : ℕ) → pc < 4 → 5 ≤ height → height ≤ 13 → IsFrame (field_frame pc height)
field_frame-IsFrame pc height small low high = record {
  lower = low;
  upper = high;
  fits = refl;
  words = λ i. ground arith;
  synced = omega arith;
}

reference : (pc : ℕ) → operands (field_frame pc 6) ≡ 64 ∷ []
unfolding operands
reference pc = refl

value_and_reference : operands (field_frame 0 7) ≡ field_on x_field 9 (64 ∷ [])
unfolding operands field_words equals
value_and_reference = refl

reads_x : Asks point resolve 64 (field_frame 0 6) x_field []
reads_x = record {
  valid = field_frame-IsFrame 0 6 (omega arith) (omega arith) (omega arith);
  b₀ = 0;
  b₁ = 1;
  first = refl;
  second = refl;
  resolved = refl;
  member = own (here refl);
  inst = x-Instance;
  stack = reference 0;
  room = omega (arith, x_words);
}

reads_y : Asks point resolve 64 (field_frame 2 6) y_field []
reads_y = record {
  valid = field_frame-IsFrame 2 6 (omega arith) (omega arith) (omega arith);
  b₀ = 0;
  b₁ = 2;
  first = refl;
  second = refl;
  resolved = refl;
  member = own (there (here refl));
  inst = y-Instance;
  stack = reference 2;
  room = omega (arith, y_words);
}

getfield-Effect_example :
    Effect
      (field_frame 2 6)
      (exe_opc_getfield resolve heap_64 (field_frame 2 6))
      (field_frame 2 6).cell
      4
      (long_on 200 [])
unfolding field_words equals read_bytes
getfield-Effect_example =
    getfield-Effect heap_64 64 origin point origin-ObjectAt point-HasLayout resolve
      (field_frame 2 6) (field_frame-IsFrame 2 6 (omega arith) (omega arith) (omega arith)) [] 0 2
      refl refl y_field refl (own (there (here refl))) y-Instance (reference 2)
      (omega (arith, y_words))

putfield-Effect_example :
    Returns (exe_opc_putfield resolve heap_64 (field_frame 0 7)) (λ (heap', g).
      Leaves (field_frame 0 7) (field_frame 0 7).cell 2 [] g
      × FieldStored heap_64 heap' 64 origin point x_field 9)
putfield-Effect_example =
    putfield-Effect heap_64 64 origin point origin-ObjectAt point-HasLayout resolve
      (field_frame 0 7) (field_frame-IsFrame 0 7 (omega arith) (omega arith) (omega arith)) [] 0 1
      refl refl x_field refl (own (here refl)) x-Instance 9 value_and_reference

differ : x_field ≢ y_field
differ e = let bad : x_field.offset ≡ y_field.offset = ap (λ fb. fb.offset) e in omega arith

putfield-getfield_example :
    Returns (exe_opc_putfield resolve heap_64 (field_frame 0 7)) (λ (heap', g).
      Effect
        (field_frame 0 6)
        (exe_opc_getfield resolve heap' (field_frame 0 6))
        (field_frame 0 6).cell
        2
        (9 ∷ [])
      × Effect
          (field_frame 2 6)
          (exe_opc_getfield resolve heap' (field_frame 2 6))
          (field_frame 2 6).cell
          4
          (long_on 200 []))
unfolding field_words equals read_bytes
putfield-getfield_example =
    putfield-getfield heap_64 64 origin point origin-ObjectAt point-HasLayout resolve
      (field_frame 0 7) (field_frame-IsFrame 0 7 (omega arith) (omega arith) (omega arith)) [] 0 1
      refl refl x_field refl (own (here refl)) x-Instance 9 value_and_reference (field_frame 0 6)
      (field_frame 2 6) y_field [] [] reads_x reads_y differ

-- The resolution puts the object of the class at 96.
abbrev resolved_heap : Heap
resolved_heap p = if p == 96 then some (record origin { class = 9 }) else heap_64 p

new-NewObject_example :
    Returns
      (exe_opc_new (λ i heap. ok ((7, 3), resolved_heap)) 128 heap_64 (field_frame 0 6))
      (λ (heap', g).
        Leaves (field_frame 0 6) (field_frame 0 6).cell 2 (128 ∷ 64 ∷ []) g
        × NewObject resolved_heap 128 7 point heap')
new-NewObject_example =
    new-NewObject (λ i heap. ok ((7, 3), resolved_heap)) 128 heap_64 resolved_heap (field_frame 0 6)
      (field_frame-IsFrame 0 6 (omega arith) (omega arith) (omega arith)) (64 ∷ []) (reference 0)
      (omega arith) 0 1 refl refl 7 point refl (omega arith) (omega arith) (omega arith)

find_field-Decided_example :
    Returns (find_field point (121 ∷ []) (74 ∷ [])) (Decided (121 ∷ []) (74 ∷ []) point)
find_field-Decided_example = find_field-Decided (121 ∷ []) (74 ∷ []) null point_block
