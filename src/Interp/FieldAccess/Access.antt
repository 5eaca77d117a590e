-- ===== src/Interp/FieldAccess/Access.antt =====
-- What `getfield` and `putfield` do to the stack and to the heap.
use turkey_vm.Prelude.{
  ℕ, ◌+◌, ◌-◌, ◌*◌, ◌^◌, ◌<◌, ◌≤◌, ◌≡◌, ◌≢◌, refl, true, false, ◌||◌, some, List, ◌∷◌, arith,
  length, get_elem?, ◌==◌, if◌then◌else◌, inl, inr, Bool-cases, Run, ok, ◌>>=◌, Option, Returns,
}
use turkey_vm.Memory.Laws.{read_bytes-lt}
use turkey_vm.Frame.Defs.{
  Frame, Operand, type_int, type_long, type_double, type_ulong, type_float, type_reference, pop,
  push,
}
use turkey_vm.Frame.View.{operands, IsFrame, Leaves}
use turkey_vm.Frame.Steps.{is_word, is_wide, Effect, Leaves-self}
use turkey_vm.Frame.Operands.{with_pop, with_pop_wide, push-Effect, push_wide-Effect}
use turkey_vm.Frame.Fetch.{with_u2}
use turkey_vm.Objects.{Object, Heap, object_data}
use turkey_vm.Classes.{LoadedClass, FieldBlock, equals, letter_J, letter_D, field_words}
use turkey_vm.Classes.Layout.{Instance, HasLayout}
use turkey_vm.Classes.Fields.{FieldOf}
use turkey_vm.Interp.Rules.{long_on, long_parts}
use turkey_vm.Interp.FieldAccess.{
  letter_F, field_index, get_field, exe_opc_getfield, set_field, put_field, exe_opc_putfield,
}
use turkey_vm.Interp.FieldAccess.Stored.{
  ObjectAt, field_value, FieldStored, deref-object, object_data-ok, set_object_data-ok,
  set_field-FieldStored,
}

-- The value `v` of a field on top of `s`: two words or one.
abbrev pub field_on : FieldBlock → ℕ → List ℕ → List ℕ
field_on fb v s = if field_words fb == 2 then long_on v s else v ∷ s

wide_words :
    (fb : FieldBlock)
    → (equals fb.type letter_J || equals fb.type letter_D) ≡ true
    → field_words fb ≡ 2
unfolding field_words
wide_words fb h = rw h refl

one_word :
    (fb : FieldBlock)
    → equals fb.type letter_J ≡ false
    → equals fb.type letter_D ≡ false
    → field_words fb ≡ 1
unfolding field_words
one_word fb h h' = rw (h, h') refl

module _ (heap : Heap) (r : ℕ) (o : Object) (c : LoadedClass) (a : ObjectAt heap r o c)
    (layout : HasLayout c) (fb : FieldBlock) (member : FieldOf fb c) (inst : Instance fb)
    (f g : Frame) (p : ℕ) (s : List ℕ) where
  value_lt : field_value fb o < 256 ^ (field_words fb * 4)
  value_lt = read_bytes-lt (field_words fb * 4) o.cell ((fb.offset - 1) * 4) a.cells

  wide-get :
      (t : Operand)
      → is_wide t ≡ true
      → t ≢ type_ulong
      → field_words fb ≡ 2
      → length s + field_words fb ≤ f.top - f.bottom
      → Leaves f f.cell p s g
      → Effect f
          (object_data o (field_index fb) 8 >>= λ value. push g value t)
          f.cell
          p
          (field_on fb (field_value fb o) s)
  wide-get t w ne two room l =
      rw (object_data-ok a layout fb member inst 8 (omega (arith, two)))
        (rw two (push_wide-Effect _ t w ne l (rw two at value_lt) (omega (arith, room, two))))

  word-get :
      (t : Operand)
      → is_word t ≡ true
      → field_words fb ≡ 1
      → length s + field_words fb ≤ f.top - f.bottom
      → Leaves f f.cell p s g
      → Effect f
          (object_data o (field_index fb) 4 >>= λ value. push g value t)
          f.cell
          p
          (field_on fb (field_value fb o) s)
  word-get t w one room l =
      rw (object_data-ok a layout fb member inst 4 (omega (arith, one)))
        (rw one (push-Effect _ t w l (rw one at value_lt) (omega (arith, room, one))))

module _ (heap : Heap) (r : ℕ) (o : Object) (c : LoadedClass) (a : ObjectAt heap r o c)
    (layout : HasLayout c) (fb : FieldBlock) (member : FieldOf fb c) (inst : Instance fb)
    (f g : Frame) (p : ℕ) (s : List ℕ) where
  -- The four branches on the type of the field.
  get_field-Effect :
      Leaves f f.cell p (r ∷ s) g
      → length s + field_words fb ≤ f.top - f.bottom
      → Effect f (get_field heap g fb) f.cell p (field_on fb (field_value fb o) s)
  unfolding get_field
  get_field-Effect l room = with_pop type_reference _ refl l λ h hr l₁.
      let object = deref-object a layout fb member inst in
      let wide = wide-get heap r o c a layout fb member inst f h p s in
      let word = word-get heap r o c a layout fb member inst f h p s in
      elim (Bool-cases (equals fb.type letter_J)) [
        | inl j ↦ rw (object, j) (wide type_long refl (λ e. cc) (wide_words fb (rw j refl)) room l₁)
        | inr j ↦ elim (Bool-cases (equals fb.type letter_D)) [
          | inl d ↦
              rw (object, j, d)
                (wide type_double refl (λ e. cc) (wide_words fb (rw (j, d) refl)) room l₁)
          | inr d ↦ elim (Bool-cases (equals fb.type letter_F)) [
            | inl e ↦ rw (object, j, d, e) (word type_float refl (one_word fb j d) room l₁)
            | inr e ↦ rw (object, j, d, e) (word type_int refl (one_word fb j d) room l₁)
          ]
        ]
      ]

  -- The frame is left with `s` on its stack, and the field has the value `v`.
  abbrev pub PutEffect : ℕ → Heap × Frame → Type 0
  PutEffect v (heap', h) = Leaves f f.cell p s h × FieldStored heap heap' r o c fb v

  set_field-Effect :
      (h : Frame) (w v : ℕ)
      → w ≡ field_words fb * 4
      → v < 256 ^ (field_words fb * 4)
      → Leaves f f.cell p (r ∷ s) h
      → Returns (set_field heap h fb w v) (PutEffect v)
  unfolding set_field
  set_field-Effect h w v e small l = with_pop type_reference _ refl l λ h' hr l₁.
      rw (deref-object a layout fb member inst, set_object_data-ok a layout fb member inst w v e)
        (_, refl, (l₁, set_field-FieldStored a layout fb member inst v small))

  wide-put :
      (t : Operand) (v : ℕ)
      → is_wide t ≡ true
      → field_words fb ≡ 2
      → Leaves f f.cell p (field_on fb v (r ∷ s)) g
      → Returns (pop g t >>= λ (value, h). set_field heap h fb 8 value) (PutEffect v)
  wide-put t v w two l = with_pop_wide t _ w (rw two at l) λ h hv l₁. rw (long_parts v) (
      set_field-Effect h 8 v (omega (arith, two))
        (rw two (let small = rw (long_parts v) at hv in omega arith)) l₁)

  word-put :
      (t : Operand) (v : ℕ)
      → is_word t ≡ true
      → field_words fb ≡ 1
      → Leaves f f.cell p (field_on fb v (r ∷ s)) g
      → Returns (pop g t >>= λ (value, h). set_field heap h fb 4 value) (PutEffect v)
  word-put t v w one l =
      with_pop t _ w (rw one at l)
        λ h hv l₁. set_field-Effect h 4 v (omega (arith, one)) (rw one (omega arith)) l₁

  put_field-Effect :
      (v : ℕ)
      → Leaves f f.cell p (field_on fb v (r ∷ s)) g
      → Returns (put_field heap g fb) (PutEffect v)
  unfolding put_field
  put_field-Effect v l = elim (Bool-cases (equals fb.type letter_J)) [
    | inl j ↦ rw j (wide-put type_long v refl (wide_words fb (rw j refl)) l)
    | inr j ↦ elim (Bool-cases (equals fb.type letter_D)) [
      | inl d ↦ rw (j, d) (wide-put type_double v refl (wide_words fb (rw (j, d) refl)) l)
      | inr d ↦ elim (Bool-cases (equals fb.type letter_F)) [
        | inl e ↦ rw (j, d, e) (word-put type_float v refl (one_word fb j d) l)
        | inr e ↦ rw (j, d, e) (word-put type_int v refl (one_word fb j d) l)
      ]
    ]
  ]

module _ (heap : Heap) (r : ℕ) (o : Object) (c : LoadedClass) (a : ObjectAt heap r o c)
    (layout : HasLayout c) (resolve : ℕ → Run (Option FieldBlock)) (f : Frame) (valid : IsFrame f)
    (s : List ℕ) (b₀ b₁ : ℕ) (first : get_elem? f.code (f.pc + 0) ≡ some b₀)
    (second : get_elem? f.code (f.pc + 1) ≡ some b₁) (fb : FieldBlock)
    (resolved : resolve (b₀ * 2 ^ 8 + b₁) ≡ ok (some fb)) (member : FieldOf fb c)
    (inst : Instance fb) where
  -- On a frame in order with a reference on top to an object of a class whose fields are laid out,
  -- where the two bytes next in the code resolve to an instance field of the class, and there is
  -- room for its value: `getfield` takes the reference and leaves the value of the field, of two
  -- words or one; all else stays.
  pub getfield-Effect :
      operands f ≡ r ∷ s
      → length s + field_words fb ≤ f.top - f.bottom
      → Effect f
          (exe_opc_getfield resolve heap f)
          f.cell
          (f.pc + 2)
          (field_on fb (field_value fb o) s)
  unfolding exe_opc_getfield
  getfield-Effect h room = with_u2 _ first second (Leaves-self f valid h) λ g l.
      rw resolved (get_field-Effect heap r o c a layout fb member inst f g (f.pc + 2) s l room)

  -- With a value of the field's width on top of such a reference: `putfield` takes the two, the
  -- field has the value, and the other instance fields of the class, the other objects and the rest
  -- of the frame stay.
  pub putfield-Effect :
      (v : ℕ)
      → operands f ≡ field_on fb v (r ∷ s)
      → Returns
          (exe_opc_putfield resolve heap f)
          (λ (heap', g). Leaves f f.cell (f.pc + 2) s g × FieldStored heap heap' r o c fb v)
  unfolding exe_opc_putfield
  putfield-Effect v h =
      with_u2 _ first second (Leaves-self f valid h) λ g l.
        rw resolved (put_field-Effect heap r o c a layout fb member inst f g (f.pc + 2) s v l)
