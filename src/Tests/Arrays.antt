-- ===== src/Tests/Arrays.antt =====
-- An array of two ints, and frames that store to it and load from it.
use turkey_vm.Prelude.{
  ℕ, ◌-◌, ◌^◌, ◌<◌, ◌≤◌, ◌≡◌, refl, some, none, [], ◌∷◌, arith, ◌==◌, if◌then◌else◌, ok, halt,
  exception, Returns,
}
use turkey_vm.Memory.{read_bytes}
use turkey_vm.Frame.Defs.{Frame}
use turkey_vm.Frame.View.{operands, IsFrame, Leaves}
use turkey_vm.Frame.Steps.{Effect}
use turkey_vm.Objects.{Object, Heap, object_object, object_array}
use turkey_vm.Objects.Invariant.{ArrayAt}
use turkey_vm.Objects.Alloc.{NewArray}
use turkey_vm.Interp.Array.Elements.{int, load_handler, store_handler}
use turkey_vm.Interp.Array.Loads.{array_load-Effect}
use turkey_vm.Interp.Array.Stores.{StoreEffect, array_store-Effect, array_store-load}
use turkey_vm.Interp.Array.Checks.{array_index-exception}
use turkey_vm.Interp.Creation.{exe_opc_newarray}
use turkey_vm.Interp.Creation.Arrays.{Primitive, newarray-new}
use turkey_vm.Tests.Frames.{some_frame, some_frame-IsFrame, some_frame-operands, at_any_height}

abbrev pair : Object
pair = record {
  class = 1;
  kind = object_array;
  length = 2;
  atype = 10;
  el_size = 4;
  bytes = 8;
  cell = λ p. if p == 4 then 200 else 0;
}

abbrev place : ℕ
place = 2 ^ 32 - 3

abbrev pair_heap : Heap
pair_heap p = if p == place then some pair else none

pair-ArrayAt : ArrayAt pair_heap place pair
pair-ArrayAt = record {
  address = omega arith;
  found = refl;
  kind = refl;
  length_lt = omega arith;
  sized = refl;
  cells = λ p. ground arith;
}

-- An index on top of the reference.
abbrev index_frame : ℕ → Frame
index_frame i = record some_frame {
  cell = λ j. if j == 5 then place else if j == 6 then i else 0;
  ostack = 7;
}

index_frame-IsFrame : IsFrame (index_frame 1)
index_frame-IsFrame = record {
  lower = omega arith;
  upper = omega arith;
  fits = refl;
  words = λ i. ground arith;
  synced = refl;
}

index_frame-operands : operands (index_frame 1) ≡ 1 ∷ place ∷ []
unfolding operands
index_frame-operands = refl

array_load-Effect_example :
    Effect
      (index_frame 1)
      (load_handler int pair_heap (index_frame 1))
      (index_frame 1).cell
      (index_frame 1).pc
      (200 ∷ [])
unfolding read_bytes
array_load-Effect_example =
    array_load-Effect pair_heap (index_frame 1) index_frame-IsFrame place 1 pair [] pair-ArrayAt
      (omega arith) index_frame-operands int refl

array_store-Effect_example :
    Returns
      (store_handler int pair_heap some_frame)
      (StoreEffect pair_heap some_frame place pair 4 0 2 [])
array_store-Effect_example =
    array_store-Effect pair_heap some_frame some_frame-IsFrame place 0 2 pair [] pair-ArrayAt
      (omega arith) int refl some_frame-operands

zero_index : operands (record some_frame { ostack = 7 }) ≡ 0 ∷ place ∷ []
unfolding operands
zero_index = refl

array_store-load_example : Returns (store_handler int pair_heap some_frame) (λ (heap', g).
    Effect
      (record some_frame { ostack = 7 })
      (load_handler int heap' (record some_frame { ostack = 7 }))
      some_frame.cell
      some_frame.pc
      (2 ∷ []))
array_store-load_example =
    array_store-load pair_heap some_frame some_frame-IsFrame place 0 2 pair [] pair-ArrayAt
      (omega arith) int (record some_frame { ostack = 7 }) [] refl some_frame-operands
      (at_any_height 7 (omega arith) (omega arith)) zero_index

-- The reference `r` below the index 3, and 9 on top of them: the operands of a store, and without
-- the 9 those of a load.
abbrev outside_frame : ℕ → ℕ → Frame
outside_frame r height = record some_frame {
  cell = λ j. if j == 5 then r else if j == 6 then 3 else 9;
  ostack = height;
}

outside_frame-IsFrame :
    (r height : ℕ) → r < 2 ^ 32 → 5 ≤ height → height ≤ 13 → IsFrame (outside_frame r height)
outside_frame-IsFrame r height small low high = record {
  lower = low;
  upper = high;
  fits = refl;
  words = λ i. ground arith;
  synced = refl;
}

load_operands : (r : ℕ) → operands (outside_frame r 7) ≡ 3 ∷ r ∷ []
unfolding operands
load_operands r = refl

store_operands : (r : ℕ) → operands (outside_frame r 8) ≡ 9 ∷ 3 ∷ r ∷ []
unfolding operands
store_operands r = refl

array_index-exception_example :
    (load_handler int pair_heap (outside_frame place 7) ≡ halt exception)
    × (store_handler int pair_heap (outside_frame place 8) ≡ halt exception)
array_index-exception_example =
    array_index-exception pair_heap (outside_frame place 7) (outside_frame place 8)
      (outside_frame-IsFrame place 7 (omega arith) (omega arith) (omega arith))
      (outside_frame-IsFrame place 8 (omega arith) (omega arith) (omega arith)) 3 9 [] int refl
      place pair pair-ArrayAt (omega arith) (load_operands place) (store_operands place)

-- The loading puts the object of the class at 96.
abbrev array_class : Object
array_class = record {
  class = 9;
  kind = object_object;
  length = 0;
  atype = 0;
  el_size = 4;
  bytes = 0;
  cell = λ p. 0;
}

abbrev loaded_heap : Heap
loaded_heap p = if p == 96 then some array_class else pair_heap p

-- The code 10 asks for ints, and 2 of them.
abbrev newarray_frame : Frame
newarray_frame = record some_frame { code = 10 ∷ []; pc = 0; pc_offset = 0 }

newarray_frame-IsFrame : IsFrame newarray_frame
newarray_frame-IsFrame = record {
  lower = omega arith;
  upper = omega arith;
  fits = refl;
  words = λ i. ground arith;
  synced = refl;
}

newarray-new_example :
    Returns
      (exe_opc_newarray (λ name heap. ok (7, loaded_heap)) 64 pair_heap newarray_frame)
      (λ (heap', g).
        Leaves newarray_frame newarray_frame.cell 1 (64 ∷ 0 ∷ place ∷ []) g
        × NewArray loaded_heap 64 7 2 4 heap')
unfolding operands
newarray-new_example =
    newarray-new (λ name heap. ok (7, loaded_heap)) 64 pair_heap loaded_heap newarray_frame
      newarray_frame-IsFrame 2 (0 ∷ place ∷ []) Primitive.int 7 some_frame-operands refl refl
      (omega arith) (omega arith) (omega arith)
