-- ===== src/Interp/FieldAccess/Stored.antt =====
-- Objects whose fields stand where the class has laid them, and writing to one field.
use turkey_vm.Prelude.{
  ℕ, ◌+◌, ◌-◌, ◌*◌, ◌^◌, ◌<◌, ◌≤◌, ◌≡◌, ◌≢◌, ◌⊎◌, refl, true, false, some, arith, ltb, leb, lt→ltb,
  ◌==◌, inl, inr, ok,
}
use turkey_vm.Memory.{read_bytes, write_bytes}
use turkey_vm.Memory.Laws.{write_bytes-bytes, read_bytes-write_bytes, read_bytes-apart}
use turkey_vm.Objects.{
  Object, Heap, deref, set_object, object_data, set_object_data, read_data, write_data,
}
use turkey_vm.Classes.{LoadedClass, FieldBlock, field_words, object_words}
use turkey_vm.Classes.Layout.{Instance, HasLayout}
use turkey_vm.Classes.Fields.{FieldOf, field_within, fields-Apart}
use turkey_vm.Interp.FieldAccess.{field_index}

-- The address `r` holds the object `o` of the class `c`: its bytes are those of the class's words.
pub record ObjectAt (heap : Heap) (r : ℕ) (o : Object) (c : LoadedClass) : Type 0 where
  pub address : r ≢ 0
  pub found : heap r ≡ some o
  pub words_lt : object_words c < 2 ^ 29
  pub sized : o.bytes ≡ object_words c * 4
  pub cells : (p : ℕ) → o.cell p < 256

-- The value of a field in an object.
abbrev pub field_value : FieldBlock → Object → ℕ
field_value fb o = read_bytes (field_words fb * 4) o.cell ((fb.offset - 1) * 4)

-- The field `fb` of the object `o` of the class `c` at `r` has become `v`; the other fields of the
-- class and the other objects are as they were.
pub record FieldStored (heap heap' : Heap) (r : ℕ) (o : Object) (c : LoadedClass) (fb : FieldBlock)
    (v : ℕ) : Type 0 where
  pub object : Object
  pub at : ObjectAt heap' r object c
  pub same_class : object.class ≡ o.class
  pub kept : field_value fb object ≡ v
  pub others :
      (fb' : FieldBlock)
      → FieldOf fb' c
      → Instance fb'
      → fb ≢ fb'
      → field_value fb' object ≡ field_value fb' o
  pub elsewhere : (p : ℕ) → p ≢ r → heap' p ≡ heap p

module _ {heap : Heap} {r : ℕ} {o : Object} {c : LoadedClass} (a : ObjectAt heap r o c)
    (layout : HasLayout c) (fb : FieldBlock) (member : FieldOf fb c) (inst : Instance fb) where
  pub deref-object : deref heap r ≡ ok o
  unfolding deref
  deref-object =
      let no : (r == 0) ≡ false = let ne = a.address in ground arith in rw (no, a.found, deref) refl

  index : field_index fb ≡ fb.offset - 1
  index =
      let (low, high) = field_within fb c layout member inst in
      let small = a.words_lt in omega arith

  small_index : ltb (fb.offset - 1) (2 ^ 31) ≡ true
  small_index =
      let (low, high) = field_within fb c layout member inst in
      lt→ltb (fb.offset - 1) (2 ^ 31) (omega (arith, a.words_lt))

  inside : leb ((fb.offset - 1) * 4 + field_words fb * 4) o.bytes ≡ true
  inside =
      let (low, high) = field_within fb c layout member inst in
      let whole = a.sized in
      let le : (fb.offset - 1) * 4 + field_words fb * 4 ≤ o.bytes = omega arith in ground arith

  pub object_data-ok :
      (w : ℕ) → w ≡ field_words fb * 4 → object_data o (field_index fb) w ≡ ok (field_value fb o)
  unfolding object_data read_data
  object_data-ok w e = rw (e, index, small_index, inside) refl

  pub set_object_data-ok :
      (w v : ℕ)
      → w ≡ field_words fb * 4
      → set_object_data o (field_index fb) w v
        ≡ ok (record o { cell = write_bytes (field_words fb * 4) o.cell ((fb.offset - 1) * 4) v })
  unfolding set_object_data write_data
  set_object_data-ok w v e = rw (e, index, small_index, inside) refl

  pub set_field-FieldStored :
      (v : ℕ)
      → v < 256 ^ (field_words fb * 4)
      → FieldStored heap
          (set_object heap r
            (record o { cell = write_bytes (field_words fb * 4) o.cell ((fb.offset - 1) * 4) v }))
          r
          o
          c
          fb
          v
  unfolding set_object
  set_field-FieldStored v small = record {
    object = record o { cell = write_bytes (field_words fb * 4) o.cell ((fb.offset - 1) * 4) v };
    at = record {
      address = a.address;
      found = let e : (r == r) ≡ true = ground arith in rw e refl;
      words_lt = a.words_lt;
      sized = a.sized;
      cells = write_bytes-bytes (field_words fb * 4) o.cell ((fb.offset - 1) * 4) v a.cells;
    };
    same_class = refl;
    kept = read_bytes-write_bytes (field_words fb * 4) o.cell ((fb.offset - 1) * 4) v small;
    others = λ fb' member' inst' ne.
        read_bytes-apart (field_words fb * 4) (field_words fb' * 4) o.cell ((fb.offset - 1) * 4)
          ((fb'.offset - 1) * 4) v (places fb' member' inst' ne);
    elsewhere = λ p ne. let e : (r == p) ≡ false = ground arith in rw e refl;
  }
    where
      places :
          (fb' : FieldBlock)
          → FieldOf fb' c
          → Instance fb'
          → fb ≢ fb'
          → ((fb'.offset - 1) * 4 + field_words fb' * 4 ≤ (fb.offset - 1) * 4)
            ⊎ ((fb.offset - 1) * 4 + field_words fb * 4 ≤ (fb'.offset - 1) * 4)
      places fb' member' inst' ne =
          let (low, high) = field_within fb c layout member inst in
          let (low', high') = field_within fb' c layout member' inst' in
          elim (fields-Apart fb fb' c layout member member' inst inst') [
            | inl same ↦ absurd (ne same)
            | inr (inl before) ↦ inr (omega arith)
            | inr (inr behind) ↦ inl (omega arith)
          ]
