-- ===== src/Objects.antt =====
-- src/heapManager/alloc.c and alloc.h: the objects of the virtual machine. A reference is an
-- address, `NULL` is zero, and the heap gives the object at each address. A number in an object
-- stands in its bytes.
pub mod Alloc
pub mod Invariant
use turkey_vm.Prelude.{
  ℕ, ◌+◌, ◌-◌, ◌*◌, ◌^◌, Bool, true, false, ◌&&◌, ◌||◌, Option, none, some, List, [], ◌∷◌, ltb, leb,
  ◌==◌, if◌then◌else◌, Run, ok, halt, error, assertion_failed, exception, undefined, ◌>>=◌,
}
use turkey_vm.Memory.{read_bytes, write_bytes}

-- `Object_e`.
pub data ObjectKind : Type 0 where
  object_object object_array object_string : ObjectKind

-- `struct O`. `bytes` is the number of bytes behind the header, where `data` points, and `cell` is
-- what they hold. `length`, `atype` and `el_size` are patterns of ints.
pub record Object : Type 0 where
  pub class : ℕ
  pub kind : ObjectKind
  pub length : ℕ
  pub atype : ℕ
  pub el_size : ℕ
  pub bytes : ℕ
  pub cell : ℕ → ℕ

abbrev pub Heap : Type 0
Heap = ℕ → Option Object

abbrev pub is_array : ObjectKind → Bool
is_array object_array = true
is_array object_object = false
is_array object_string = false

-- `*obj`, which C leaves undefined at `NULL` and where no object is.
unfoldable pub deref : Heap → ℕ → Run Object
deref heap obj =
    if obj == 0 then halt undefined else elim (heap obj) [ none ↦ halt undefined | some o ↦ ok o ]

unfoldable pub set_object : Heap → ℕ → Object → Heap
set_object heap obj o p = if obj == p then some o else heap p

-- `CHECK_ARRAY`. The index is the pattern of an int.
unfoldable pub check_array : Heap → ℕ → ℕ → Run Object
unfolding deref
check_array heap array index = if array == 0 then halt assertion_failed else do
  o ← deref heap array
  if is_array o.kind
      then (if leb (2 ^ 31) index || leb o.length index then halt exception else ok o)
      else halt assertion_failed

-- A number of `width` bytes at a distance from `data`, read and written. A distance that stands for
-- a negative number, or that leaves the object, is undefined.
unfoldable pub read_data : Object → ℕ → ℕ → Run ℕ
read_data o width p =
    if leb (p + width) o.bytes then ok (read_bytes width o.cell p) else halt undefined

unfoldable pub write_data : Object → ℕ → ℕ → ℕ → Run Object
write_data o width p v =
    if leb (p + width) o.bytes
    then ok (record o { cell = write_bytes width o.cell p v })
    else halt undefined

-- `ARRAY_DATA` at a type of `width` bytes.
unfoldable pub array_data : Object → ℕ → ℕ → Run ℕ
unfolding read_data
array_data o index width =
    if ltb index (2 ^ 31) then read_data o width (index * width) else halt undefined

unfoldable pub set_array_data : Object → ℕ → ℕ → ℕ → Run Object
unfolding write_data
set_array_data o index width v =
    if ltb index (2 ^ 31) then write_data o width (index * width) v else halt undefined

-- `OBJECT_DATA` at a type of `width` bytes; `index` counts words.
unfoldable pub object_data : Object → ℕ → ℕ → Run ℕ
unfolding read_data
object_data o index width =
    if ltb index (2 ^ 31) then read_data o width (index * 4) else halt undefined

unfoldable pub set_object_data : Object → ℕ → ℕ → ℕ → Run Object
unfolding write_data
set_object_data o index width v =
    if ltb index (2 ^ 31) then write_data o width (index * 4) v else halt undefined

-- `sizeof(struct O)` on the 32 bit target.
abbrev pub obj_header_size : ℕ
obj_header_size = 32

-- `sysMalloc` for a header and `count * width` bytes; `fresh` is what `malloc` returns. `bytes` is
-- the part behind the header. A signed overflow is undefined, and so is the `memset` of a negative
-- number of bytes that the callers make.
unfoldable pub sys_malloc : ℕ → ℕ → ℕ → Run ℕ
sys_malloc fresh count width =
    if ltb count (2 ^ 31)
    then if ltb (obj_header_size + count * width) (2 ^ 31)
      then if fresh == 0 then halt error else ok (count * width)
      else halt undefined
    else if leb ((2 ^ 32 - count) * width) (2 ^ 31)
    then if fresh == 0 then halt error else halt undefined
    else halt undefined

-- `obj_size` is that of the class.
unfoldable pub alloc_object : ℕ → ℕ → ℕ → Heap → Run (ℕ × Heap)
unfolding sys_malloc set_object
alloc_object fresh class obj_size heap = do
  bytes ← sys_malloc fresh obj_size 4
  ok (
    fresh,
    set_object heap fresh (record {
      class = class;
      kind = object_object;
      length = obj_size;
      atype = 0;
      el_size = 4;
      bytes = bytes;
      cell = λ p. 0;
    }),
  )

unfoldable pub alloc_array : ℕ → ℕ → ℕ → ℕ → ℕ → Heap → Run (ℕ × Heap)
unfolding sys_malloc set_object
alloc_array fresh class size el_size atype heap = do
  bytes ← sys_malloc fresh size el_size
  ok (
    fresh,
    set_object heap fresh (record {
      class = class;
      kind = object_array;
      length = size;
      atype = atype;
      el_size = el_size;
      bytes = bytes;
      cell = λ p. 0;
    }),
  )

unfoldable pub object_size : Heap → ℕ → Run ℕ
unfolding deref
object_size heap obj =
    if obj == 0
    then halt assertion_failed
    else do o ← deref heap obj; ok (obj_header_size + o.length * o.el_size)

-- The names of classes, as the characters of the texts.
abbrev pub class_name : ℕ → List ℕ
class_name letter = 91 ∷ letter ∷ []

-- The `switch` of `allocTypeArray`: the name that it hands to `loadClass` and the size of an element.
-- `element_name` is what the caller gives for references; `none` is `NULL`.
unfoldable pub array_type : ℕ → Option (List ℕ) → Run (Option (List ℕ) × ℕ)
array_type type element_name =
    if type == 8
    then ok (some (class_name 66), 1)
    else if type == 5
    then ok (some (class_name 67), 2)
    else if type == 9
    then ok (some (class_name 83), 2)
    else if type == 10
    then ok (some (class_name 73), 4)
    else if type == 4
    then ok (some (class_name 90), 4)
    else if type == 6
    then ok (some (70 ∷ []), 4)
    else if type == 7
    then ok (some (class_name 68), 8)
    else if type == 11
    then ok (some (class_name 74), 8)
    else if type == 12
    then ok (element_name, 4)
    else halt exception

-- `allocTypeArray`. `load_class` is `loadClass` of the class loader: from the name and the heap, the
-- class and the heap that the loading leaves, with the objects that it makes. `fresh` is what `malloc`
-- returns after that.
unfoldable pub alloc_type_array :
    (Option (List ℕ) → Heap → Run (ℕ × Heap)) → ℕ → ℕ → ℕ → Option (List ℕ) → Heap → Run (ℕ × Heap)
unfolding array_type alloc_array
alloc_type_array load_class fresh type size element_name heap = do
  (name, el_size) ← array_type type element_name
  (class, heap₁) ← load_class name heap
  alloc_array fresh class size el_size type heap₁
