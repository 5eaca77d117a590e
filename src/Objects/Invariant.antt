-- ===== src/Objects/Invariant.antt =====
-- Arrays and objects in order, and the handling of their bytes.
use turkey_vm.Prelude.{
  ℕ, ◌+◌, ◌*◌, ◌^◌, ◌<◌, ◌≤◌, ◌≡◌, ◌≢◌, refl, true, false, some, arith, ltb, leb, ◌==◌, lt→ltb, ok,
  inl, inr, ◌⊎◌, Bool-cases, ltb→lt, ltb-false,
}
use turkey_vm.Memory.{read_bytes, write_bytes}
use turkey_vm.Memory.Laws.{write_bytes-bytes, read_bytes-write_bytes, read_bytes-apart}
use turkey_vm.Objects.{
  Object, object_array, Heap, deref, set_object, check_array, read_data, write_data, array_data,
  set_array_data,
}

-- The address `r` holds the array `o`: its bytes are those of its elements.
pub record ArrayAt (heap : Heap) (r : ℕ) (o : Object) : Type 0 where
  pub address : r ≢ 0
  pub found : heap r ≡ some o
  pub kind : o.kind ≡ object_array
  pub length_lt : o.length < 2 ^ 31
  pub sized : o.bytes ≡ o.length * o.el_size
  pub cells : (p : ℕ) → o.cell p < 256

module _ {heap : Heap} {r : ℕ} {o : Object} (a : ArrayAt heap r o) where
  not_null : (r == 0) ≡ false
  not_null = let ne = a.address in ground arith

  pub deref-ok : deref heap r ≡ ok o
  unfolding deref
  deref-ok = rw (not_null, a.found, deref) refl

  pub check_array-ok : (i : ℕ) → i < o.length → check_array heap r i ≡ ok o
  unfolding check_array
  check_array-ok i h =
      let small : leb (2 ^ 31) i ≡ false = let l = a.length_lt in ground arith in
      let inside : leb o.length i ≡ false = ground arith in
      rw (not_null, a.found, a.kind, small, inside, check_array) refl

  -- The position of an element is inside.
  inside : (i w : ℕ) → o.el_size ≡ w → i < o.length → leb (i * w + w) o.bytes ≡ true
  inside i w e h =
      let whole = a.sized in
      let room : i * w + w ≤ o.length * w = grind arith in
      let whole' : o.bytes ≡ o.length * w = rw (← e) whole in ground arith

  pub array_data-ok :
      (i w : ℕ) → o.el_size ≡ w → i < o.length → array_data o i w ≡ ok (read_bytes w o.cell (i * w))
  unfolding array_data read_data
  array_data-ok i w e h = rw (lt→ltb i (2 ^ 31) (omega (arith, a.length_lt)), inside i w e h) refl

  pub set_array_data-ok :
      (i w v : ℕ)
      → o.el_size ≡ w
      → i < o.length
      → set_array_data o i w v ≡ ok (record o { cell = write_bytes w o.cell (i * w) v })
  unfolding set_array_data write_data
  set_array_data-ok i w v e h =
      rw (lt→ltb i (2 ^ 31) (omega (arith, a.length_lt)), inside i w e h) refl

-- Element `i`, of `w` bytes, of the array `o` at `r` has become `v`, and nothing else has changed.
pub record Stored (heap heap' : Heap) (r : ℕ) (o : Object) (w i v : ℕ) : Type 0 where
  pub object : Object
  pub array : ArrayAt heap' r object
  pub same_length : object.length ≡ o.length
  pub same_size : object.el_size ≡ o.el_size
  pub kept : read_bytes w object.cell (i * w) ≡ v
  pub others : (j : ℕ) → j ≢ i → read_bytes w object.cell (j * w) ≡ read_bytes w o.cell (j * w)
  pub elsewhere : (p : ℕ) → p ≢ r → heap' p ≡ heap p

-- Elements do not overlap.
apart : (i j w : ℕ) → j ≢ i → (j * w + w ≤ i * w) ⊎ (i * w + w ≤ j * w)
apart i j w ne = elim (Bool-cases (ltb j i)) [
  | inl h ↦ inl (let less = ltb→lt j i h in grind arith)
  | inr h ↦ inr (let less : i < j = let le = ltb-false j i h in omega arith in grind arith)
]

pub set_element-Stored :
    {heap : Heap} {r : ℕ} {o : Object} (a : ArrayAt heap r o) (i w v : ℕ)
    → v < 256 ^ w
    → Stored heap (set_object heap r (record o { cell = write_bytes w o.cell (i * w) v })) r o w i v
unfolding set_object
set_element-Stored {r} {o} a i w v small = record {
  object = record o { cell = write_bytes w o.cell (i * w) v };
  array = record {
    address = a.address;
    found = let e : (r == r) ≡ true = ground arith in rw e refl;
    kind = a.kind;
    length_lt = a.length_lt;
    sized = a.sized;
    cells = write_bytes-bytes w o.cell (i * w) v a.cells;
  };
  same_length = refl;
  same_size = refl;
  kept = read_bytes-write_bytes w o.cell (i * w) v small;
  others = λ j ne. read_bytes-apart w w o.cell (i * w) (j * w) v (apart i j w ne);
  elsewhere = λ p ne. let e : (r == p) ≡ false = ground arith in rw e refl;
}
