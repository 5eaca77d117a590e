-- ===== src/Tests/Calls.antt =====
-- Calls at concrete methods.
use turkey_vm.Calls.Defs.{Method, NativeFrame, create_frame, create_native_frame}
use turkey_vm.Calls.Descriptor.{create_frame_from, parse_args}
use turkey_vm.Calls.Descriptor.Count.{parse_args-counts}
use turkey_vm.Calls.Descriptor.Placed.{words_from}
use turkey_vm.Calls.Descriptor.Scan.{create_frame_from-passes}
use turkey_vm.Calls.Descriptor.Types.{
  FieldType, IsFieldType, IsNotFloat, print_descriptor, total_words,
}
use turkey_vm.Calls.Passing.{Starts, create_frame-passes, create_native_frame-passes}
use turkey_vm.Frame.Defs.{Frame}
use turkey_vm.Frame.View.{IsFrame, Leaves, operands, words_above}
use turkey_vm.Prelude.{
  All, List, [], ap, arith, false, length, ok, refl, some, true, ℕ, ◌-◌, ◌<◌, ◌^◌, ◌also◌, ◌∷◌, ◌≡◌,
  ◌≤◌,
}
use turkey_vm.Tests.Frames.{some_frame, some_frame-IsFrame, some_frame-operands}

-- A method with `this` and one argument, and one with `this` and four words of arguments.
abbrev some_method : Method
some_method = record {
  code = 177 ∷ [];
  max_stack = 2;
  max_locals = 4;
  args_count = 1;
  is_static = false;
}

abbrev wide_method : Method
wide_method = record some_method { max_locals = 6; args_count = 4 }

-- A long, an array of ints, and an object of class `A`.
abbrev some_types : List FieldType
some_types = FieldType.long ∷ FieldType.array FieldType.int ∷ FieldType.object (65 ∷ []) ∷ []

some_types-named : All IsFieldType some_types
some_types-named = tt also tt also ((λ e. omega (arith, e)) also tt) also tt

-- The codes that tell the types apart from floats.
abbrev is_float : FieldType → ℕ
is_float FieldType.float = 1
is_float _ = 0

float-differs : (t : FieldType) → is_float t ≡ 0 → IsNotFloat t
float-differs t z e = let bad : is_float t ≡ 1 = ap is_float e in omega arith

some_types-IsNotFloat : All IsNotFloat some_types
some_types-IsNotFloat =
    float-differs _ refl also float-differs _ refl also float-differs _ refl also tt

abbrev five_words : List ℕ
five_words = 11 ∷ 12 ∷ 13 ∷ 14 ∷ 15 ∷ []

five_words-small : All (λ (w : ℕ). w < 2 ^ 32) five_words
five_words-small =
    omega arith also omega arith also omega arith also omega arith also omega arith also tt

abbrev two_words : List ℕ
two_words = 2 ∷ 0 ∷ []

create_frame-passes_example :
    (g : Frame) × (new : Frame) × (create_frame true some_method some_frame ≡ ok (g, new))
    × Leaves some_frame some_frame.cell some_frame.pc ((2 ^ 32 - 3) ∷ []) g
    × Starts some_method two_words new
create_frame-passes_example =
    create_frame-passes some_method some_frame some_frame-IsFrame two_words ((2 ^ 32 - 3) ∷ [])
      some_frame-operands refl true (omega arith)

create_native_frame-passes_example :
    (g : Frame) × (new : NativeFrame) × (create_native_frame some_method some_frame ≡ ok (g, new))
    × Leaves some_frame some_frame.cell some_frame.pc ((2 ^ 32 - 3) ∷ []) g
    × (length two_words ≤ new.size)
    × (words_above new.cell 0 (length two_words) ≡ two_words)
create_native_frame-passes_example =
    create_native_frame-passes some_method some_frame some_frame-IsFrame two_words
      ((2 ^ 32 - 3) ∷ []) some_frame-operands refl (omega arith)

parse_args-counts_example :
    parse_args (print_descriptor some_types (86 ∷ [])) ≡ some (ok (total_words some_types))
parse_args-counts_example =
    parse_args-counts some_types (86 ∷ []) some_types-named some_types-IsNotFloat

create_frame_from-passes_example :
    (new : Frame) × (create_frame_from true wide_method
        (print_descriptor some_types (86 ∷ []))
        five_words
      ≡ some (ok new))
    × IsFrame new
    × (operands new ≡ [])
    × (words_from new.cell 0 (length five_words) ≡ five_words)
    × ((i : ℕ) → length five_words ≤ i → new.cell i ≡ 0)
create_frame_from-passes_example =
    create_frame_from-passes wide_method some_types (86 ∷ []) five_words some_types-named
      five_words-small refl refl (omega arith) true
