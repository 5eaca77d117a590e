-- ===== src/Interp/Array/Stores.antt =====
-- What the stores to arrays leave in the heap.
use turkey_vm.Prelude.{ℕ, ◌%◌, ◌^◌, ◌<◌, ◌≡◌, refl, ◌∙◌, true, List, ◌∷◌, arith, ok, ◌>>=◌, Returns}
use turkey_vm.Frame.Defs.{
  Frame, Operand, type_int, type_reference, type_float, type_long, type_double, pop,
}
use turkey_vm.Frame.View.{operands, IsFrame, Leaves}
use turkey_vm.Frame.Steps.{is_word, is_wide, Effect, Leaves-self}
use turkey_vm.Frame.Operands.{with_pop, with_pop_wide}
use turkey_vm.Objects.{Object, Heap, check_array, set_array_data, set_object}
use turkey_vm.Objects.Invariant.{
  ArrayAt, Stored, check_array-ok, set_array_data-ok, set_element-Stored,
}
use turkey_vm.Interp.Rules.{long_on, long_parts}
use turkey_vm.Interp.Array.{
  exe_opc_iastore, exe_opc_lastore, exe_opc_fastore, exe_opc_dastore, exe_opc_aastore,
  exe_opc_bastore, exe_opc_castore, exe_opc_sastore,
}
use turkey_vm.Interp.Array.Elements.{
  ElementType, int, long, float, double, reference, byte, char, short, width, value_on, extended,
  lowered, load_handler, store_handler,
}
use turkey_vm.Interp.Array.Loads.{array_load-Effect}

-- The frame is left with `s` on its stack, and element `i` of the array is `v`.
abbrev pub StoreEffect : Heap → Frame → ℕ → Object → ℕ → ℕ → ℕ → List ℕ → Heap × Frame → Type 0
StoreEffect heap f r o w i v s (heap', g) = Leaves f f.cell f.pc s g × Stored heap heap' r o w i v

module _ (heap : Heap) (f : Frame) (valid : IsFrame f) (r i v : ℕ) (o : Object) (s : List ℕ)
    (a : ArrayAt heap r o) (within : i < o.length) where
  word-store :
      (t : Operand) (w : ℕ) (low : ℕ → ℕ)
      → is_word t ≡ true
      → operands f ≡ v ∷ i ∷ r ∷ s
      → o.el_size ≡ w
      → (v < 2 ^ 32 → low v < 256 ^ w)
      → Returns
          (pop f t >>= λ (value, f₁). pop f₁ type_int >>= λ (index, f₂).
            pop f₂ type_reference >>= λ (obj, f₃). check_array heap obj index >>= λ o₁.
            set_array_data o₁ index w (low value) >>= λ o₂. ok (set_object heap obj o₂, f₃))
          (StoreEffect heap f r o w i (low v) s)
  word-store t w low ok_t h sized small = with_pop t _ ok_t (Leaves-self f valid h) λ f₁ hv l₁.
      with_pop type_int _ refl l₁ λ f₂ hi l₂. with_pop type_reference _ refl l₂ λ f₃ hr l₃.
        rw (check_array-ok a i within, set_array_data-ok a i w (low v) sized within)
          (_, refl, (l₃, set_element-Stored a i w (low v) (small hv)))

  wide-store :
      (t : Operand)
      → is_wide t ≡ true
      → operands f ≡ long_on v (i ∷ r ∷ s)
      → o.el_size ≡ 8
      → Returns
          (pop f t >>= λ (value, f₁). pop f₁ type_int >>= λ (index, f₂).
            pop f₂ type_reference >>= λ (obj, f₃). check_array heap obj index >>= λ o₁.
            set_array_data o₁ index 8 value >>= λ o₂. ok (set_object heap obj o₂, f₃))
          (StoreEffect heap f r o 8 i v s)
  wide-store t ok_t h sized = with_pop_wide t _ ok_t (Leaves-self f valid h) λ f₁ hv l₁.
      with_pop type_int _ refl l₁ λ f₂ hi l₂. with_pop type_reference _ refl l₂ λ f₃ hr l₃.
        let small : v < 256 ^ 8 = let hv' = rw (long_parts v) at hv in omega arith in
        rw (long_parts v, check_array-ok a i within, set_array_data-ok a i 8 v sized within)
          (_, refl, (l₃, set_element-Stored a i 8 v small))

  -- On a frame in order with a value, an index within an array and a reference to the array on its
  -- stack, the value on top, where the elements have the type of the handler: each of the eight
  -- stores takes the three, and the element becomes the low bytes of the value; the other elements,
  -- the array's length and the other objects stay, and so does the rest of the frame.
  pub array_store-Effect :
      (t : ElementType)
      → o.el_size ≡ width t
      → operands f ≡ value_on t v (i ∷ r ∷ s)
      → Returns (store_handler t heap f) (StoreEffect heap f r o (width t) i (lowered t v) s)
  unfolding exe_opc_iastore exe_opc_lastore exe_opc_fastore exe_opc_dastore exe_opc_aastore
      exe_opc_bastore exe_opc_castore exe_opc_sastore
  array_store-Effect int sized h = word-store type_int 4 (λ x. x) refl h sized (λ b. omega arith)
  array_store-Effect float sized h =
      word-store type_float 4 (λ x. x) refl h sized (λ b. omega arith)
  array_store-Effect reference sized h =
      word-store type_reference 4 (λ x. x) refl h sized (λ b. omega arith)
  array_store-Effect byte sized h =
      word-store type_int 1 (λ x. x % 2 ^ 8) refl h sized (λ b. omega arith)
  array_store-Effect char sized h =
      word-store type_int 2 (λ x. x % 2 ^ 16) refl h sized (λ b. omega arith)
  array_store-Effect short sized h =
      word-store type_int 2 (λ x. x % 2 ^ 16) refl h sized (λ b. omega arith)
  array_store-Effect long sized h = wide-store type_long refl h sized
  array_store-Effect double sized h = wide-store type_double refl h sized

  -- A value that one of the eight stores has put in an array is what the load of the same type
  -- then leaves on the stack of a frame in order that asks for that element, cut to the element's
  -- width and extended by its sign.
  pub array_store-load :
      (t : ElementType) (f' : Frame) (s' : List ℕ)
      → o.el_size ≡ width t
      → operands f ≡ value_on t v (i ∷ r ∷ s)
      → IsFrame f'
      → operands f' ≡ i ∷ r ∷ s'
      → Returns (store_handler t heap f) (λ (heap', g).
        Effect f'
          (load_handler t heap' f')
          f'.cell
          f'.pc
          (value_on t (extended t (lowered t v)) s'))
  array_store-load t f' s' sized h valid' h' =
      let ((heap', g), runs, (l, stored)) = array_store-Effect t sized h in
      (
        (heap', g),
        runs,
        rw (← stored.kept) (
            array_load-Effect heap' f' valid' r i stored.object s' stored.array
              (rw (stored.same_length) within) h' t (stored.same_size ∙ sized)),
      )
