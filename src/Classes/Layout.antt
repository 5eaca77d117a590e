-- ===== src/Classes/Layout.antt =====
-- The layout of fields in objects.
use turkey_vm.Prelude.{
  ℕ, ◌+◌, ◌*◌, ◌^◌, ◌<◌, ◌≤◌, ◌≡◌, refl, true, false, ◌||◌, List, [], ◌∷◌, length, inl, inr,
  Bool-cases, arith, lt→ltb, Returns,
}
use turkey_vm.Classes.{
  FieldBlock, LoadedClass, null, class_block, has, acc_static, equals, letter_J, letter_D,
  field_words, prepare_fields, object_words,
}

-- The field is not one of the class itself.
abbrev pub Instance : FieldBlock → Type 0
Instance fb = has fb.access_flags acc_static ≡ false

-- The fields of objects stand one behind the other, from `from` to `end`.
pub data Laid : ℕ → List FieldBlock → ℕ → Type 0 where
  done : {from : ℕ} → Laid from [] from
  static :
      {from end : ℕ} {fb : FieldBlock} {fbs : List FieldBlock}
      → has fb.access_flags acc_static ≡ true
      → Laid from fbs end
      → Laid from (fb ∷ fbs) end
  placed :
      {from end : ℕ} {fb : FieldBlock} {fbs : List FieldBlock}
      → Instance fb
      → fb.offset ≡ from
      → Laid (from + field_words fb) fbs end
      → Laid from (fb ∷ fbs) end

pub field_words-bounds : (fb : FieldBlock) → (1 ≤ field_words fb) × (field_words fb ≤ 2)
unfolding field_words
field_words-bounds fb = elim (Bool-cases (equals fb.type letter_J || equals fb.type letter_D)) [
  | inl h ↦ rw (h, field_words) (omega arith, omega arith)
  | inr h ↦ rw (h, field_words) (omega arith, omega arith)
]

-- Where the offsets stay in the range of an int, the loop returns, and the fields are laid from the
-- first offset to the last.
pub prepare_fields-Laid :
    (fbs : List FieldBlock) (from : ℕ)
    → from + 2 * length fbs < 2 ^ 31
    → Returns
        (prepare_fields from fbs)
        (λ (fbs', end). Laid from fbs' end × (from ≤ end) × (end ≤ from + 2 * length fbs))
unfolding prepare_fields field_words
prepare_fields-Laid [] from room = (([], from), refl, (done, omega arith, omega arith))
prepare_fields-Laid (fb ∷ fbs) from room =
    let (low, high) = field_words-bounds fb in
    elim (Bool-cases (has fb.access_flags acc_static)) [
      | inl s ↦
          let ((rest, end), runs, (laid, above, below)) =
            prepare_fields-Laid fbs from (omega arith) in
          rw (s, runs, prepare_fields) (_, refl, (static s laid, above, omega arith))
      | inr s ↦
          let ((rest, end), runs, (laid, above, below)) =
            prepare_fields-Laid fbs (from + field_words fb) (omega arith) in
          let fits = lt→ltb (from + field_words fb) (2 ^ 31) (omega arith) in
          rw (s, fits, runs, prepare_fields)
            (_, refl, (placed s refl laid, omega arith, omega arith))
    ]

-- The fields of a class lie behind those of its super class, and all of them in its objects.
abbrev pub HasLayout : LoadedClass → Type 0
HasLayout null = Unit
HasLayout (class_block super cb) =
    HasLayout super × Laid (1 + object_words super) cb.fields (cb.obj_size + 1)
