-- ===== src/Objects/Alloc.antt =====
-- What the allocation of arrays and objects leaves in the heap.
use turkey_vm.Prelude.{
  ℕ, ◌+◌, ◌*◌, ◌^◌, ◌<◌, ◌≤◌, ◌≡◌, ◌≢◌, refl, true, false, arith, lt→ltb, ◌==◌, ok, halt, error,
  Returns,
}
use turkey_vm.Objects.{
  Object, Heap, object_array, set_object, obj_header_size, sys_malloc, alloc_array,
}
use turkey_vm.Objects.Invariant.{ArrayAt}

-- At `r` stands a new array of `size` elements of `w` bytes, all zero, of the class `class`; the
-- objects at other addresses are those of `heap`.
pub record NewArray (heap : Heap) (r class size w : ℕ) (heap' : Heap) : Type 0 where
  pub object : Object
  pub array : ArrayAt heap' r object
  pub of_class : object.class ≡ class
  pub has_length : object.length ≡ size
  pub has_size : object.el_size ≡ w
  pub zeros : (p : ℕ) → object.cell p ≡ 0
  pub elsewhere : (p : ℕ) → p ≢ r → heap' p ≡ heap p

abbrev blank : ℕ → ℕ → ℕ → ℕ → Object
blank class size w atype = record {
  class = class;
  kind = object_array;
  length = size;
  atype = atype;
  el_size = w;
  bytes = size * w;
  cell = λ p. 0;
}

-- The memory that the array needs is in the range of an int.
abbrev pub Fits : ℕ → ℕ → Type 0
Fits size w = obj_header_size + size * w < 2 ^ 31

module _ (size w : ℕ) (positive : 0 < w) (fits : Fits size w) where
  count_lt : size < 2 ^ 31
  count_lt = let less : size ≤ size * w = grind arith in omega arith

  pub sys_malloc-ok : (fresh : ℕ) → fresh ≢ 0 → sys_malloc fresh size w ≡ ok (size * w)
  unfolding sys_malloc
  sys_malloc-ok fresh ne =
      let found : (fresh == 0) ≡ false = ground arith in
      rw (lt→ltb size (2 ^ 31) count_lt, lt→ltb _ (2 ^ 31) fits, found) refl

  sys_malloc-fails : sys_malloc 0 size w ≡ halt error
  unfolding sys_malloc
  sys_malloc-fails = rw (lt→ltb size (2 ^ 31) count_lt, lt→ltb _ (2 ^ 31) fits) refl

  pub alloc_array-new :
      (fresh class atype : ℕ) (heap : Heap)
      → fresh ≢ 0
      → Returns
          (alloc_array fresh class size w atype heap)
          (λ (r, heap'). (r ≡ fresh) × NewArray heap r class size w heap')
  unfolding alloc_array set_object
  alloc_array-new fresh class atype heap ne = rw (sys_malloc-ok fresh ne) (
    (fresh, set_object heap fresh (blank class size w atype)),
    refl,
    (
      refl,
      record {
        object = blank class size w atype;
        array = record {
          address = ne;
          found = let e : (fresh == fresh) ≡ true = ground arith in rw e refl;
          kind = refl;
          length_lt = count_lt;
          sized = refl;
          cells = λ p. omega arith;
        };
        of_class = refl;
        has_length = refl;
        has_size = refl;
        zeros = λ p. refl;
        elsewhere = λ p other. let e : (fresh == p) ≡ false = ground arith in rw e refl;
      },
    ),
  )
