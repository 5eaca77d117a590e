-- ===== src/Interp/Creation/Arrays.antt =====
-- What `newarray` and `arraylength` leave.
use turkey_vm.Prelude.{
  ℕ, ◌+◌, ◌^◌, ◌<◌, ◌≡◌, ◌≢◌, refl, false, List, [], ◌∷◌, Option, none, some, arith, get_elem?,
  ◌==◌, Run, ok, Returns,
}
use turkey_vm.Frame.Defs.{Frame, type_int, type_reference}
use turkey_vm.Frame.View.{operands, IsFrame, Leaves}
use turkey_vm.Frame.Steps.{Effect, Leaves-self, operands-room}
use turkey_vm.Frame.Operands.{with_pop, push-Effect}
use turkey_vm.Frame.Fetch.{with_u1}
use turkey_vm.Objects.{Object, Heap, class_name, array_type, alloc_type_array}
use turkey_vm.Objects.Invariant.{ArrayAt, deref-ok}
use turkey_vm.Objects.Alloc.{NewArray, Fits, alloc_array-new}
use turkey_vm.Interp.Creation.{exe_opc_newarray, exe_opc_arraylength}

-- The types of elements that `newarray` has a code for.
pub data Primitive : Type 0 where
  boolean char float double byte short int long : Primitive

-- The code of the type, the bytes of an element, and the name that is loaded for the array's class.
abbrev pub type_code : Primitive → ℕ
type_code boolean = 4
type_code char = 5
type_code float = 6
type_code double = 7
type_code byte = 8
type_code short = 9
type_code int = 10
type_code long = 11

abbrev pub width : Primitive → ℕ
width boolean = 4
width char = 2
width float = 4
width double = 8
width byte = 1
width short = 2
width int = 4
width long = 8

abbrev pub array_name : Primitive → List ℕ
array_name boolean = class_name 90
array_name char = class_name 67
array_name float = 70 ∷ []
array_name double = class_name 68
array_name byte = class_name 66
array_name short = class_name 83
array_name int = class_name 73
array_name long = class_name 74

positive : (t : Primitive) → 0 < width t
positive boolean = omega arith
positive char = omega arith
positive float = omega arith
positive double = omega arith
positive byte = omega arith
positive short = omega arith
positive int = omega arith
positive long = omega arith

array_type-ok : (t : Primitive) → array_type (type_code t) none ≡ ok (some (array_name t), width t)
unfolding array_type
array_type-ok boolean = refl
array_type-ok char = refl
array_type-ok float = refl
array_type-ok double = refl
array_type-ok byte = refl
array_type-ok short = refl
array_type-ok int = refl
array_type-ok long = refl

module _ (load_class : Option (List ℕ) → Heap → Run (ℕ × Heap)) (fresh : ℕ) (heap heap₁ : Heap)
    (f : Frame) (valid : IsFrame f) (size : ℕ) (s : List ℕ) where
  -- On a frame in order with a number of elements on top and next in the code the code of a
  -- primitive type (boolean, char, float, double, byte, short, int or long), where `loadClass`, on
  -- the name that the code has for the type, returns a class and leaves a heap, `malloc` then returns
  -- an address that is neither `NULL` nor 2 ^ 32 or more, and the header of an object and the
  -- elements take less than 2 ^ 31 bytes: `newarray` takes the number and leaves the address, where
  -- a new array of the class with that many elements of the type's width stands, all bytes zero; the
  -- objects at other addresses are those of the heap that `loadClass` left.
  pub newarray-new :
      (t : Primitive) (class : ℕ)
      → operands f ≡ size ∷ s
      → get_elem? f.code (f.pc + 0) ≡ some (type_code t)
      → load_class (some (array_name t)) heap ≡ ok (class, heap₁)
      → fresh ≢ 0
      → fresh < 2 ^ 32
      → Fits size (width t)
      → Returns (exe_opc_newarray load_class fresh heap f) (λ (heap', g).
        Leaves f f.cell (f.pc + 1) (fresh ∷ s) g × NewArray heap₁ fresh class size (width t) heap')
  unfolding exe_opc_newarray alloc_type_array
  newarray-new t class h code loads ne small fits = with_u1 _ code (Leaves-self f valid h) λ f₁ l₁.
      with_pop type_int _ refl l₁ λ f₂ hs l₂.
        let ((r, heap'), runs, (e, new)) =
          alloc_array-new size (width t) (positive t) fits fresh class (type_code t) heap₁ ne in
        let found : (r == 0) ≡ false = rw e (ground arith) in
        let (g, pushed, l₃) =
          push-Effect fresh type_reference refl l₂ small (omega (arith, operands-room f valid h)) in
        rw (array_type-ok t, loads, runs, found, e, pushed) (_, refl, (l₃, rw e at new))

-- On a frame in order with a reference to an array on top, `arraylength` takes it and leaves the
-- number of the array's elements; all else stays.
pub arraylength-Effect :
    (heap : Heap) (f : Frame)
    → IsFrame f
    → (s : List ℕ) (r : ℕ) (o : Object) → ArrayAt heap r o
    → operands f ≡ r ∷ s
    → Effect f (exe_opc_arraylength heap f) f.cell f.pc (o.length ∷ s)
unfolding exe_opc_arraylength
arraylength-Effect heap f valid s r o a h =
    with_pop type_reference _ refl (Leaves-self f valid h) λ f₁ hr l₁.
      let found : (r == 0) ≡ false = let ne = a.address in ground arith in
      let small = a.length_lt in
      rw (found, deref-ok a, a.kind)
        (push-Effect _ type_int refl l₁ (omega arith) (omega (arith, operands-room f valid h)))
