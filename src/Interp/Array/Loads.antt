-- ===== src/Interp/Array/Loads.antt =====
-- What the loads from arrays leave on the stack.
use turkey_vm.Prelude.{
  ℕ, ◌*◌, ◌^◌, ◌<◌, ◌≡◌, refl, true, List, ◌∷◌, arith, ◌>>=◌, char_to_int, short_to_int,
}
use turkey_vm.Memory.Laws.{read_bytes-lt}
use turkey_vm.Frame.Defs.{
  Frame, Operand, type_int, type_reference, type_float, type_long, type_double, pop, push,
}
use turkey_vm.Frame.View.{operands, IsFrame}
use turkey_vm.Frame.Steps.{is_word, Effect, Leaves-self, operands-room}
use turkey_vm.Frame.Operands.{with_pop, push-Effect, push_wide-Effect}
use turkey_vm.Objects.{Object, Heap, check_array, array_data}
use turkey_vm.Objects.Invariant.{ArrayAt, check_array-ok, array_data-ok, deref-ok}
use turkey_vm.Interp.Rules.{long_on}
use turkey_vm.Interp.Array.{
  exe_opc_iaload, exe_opc_laload, exe_opc_faload, exe_opc_daload, exe_opc_aaload, exe_opc_baload,
  exe_opc_caload, exe_opc_saload,
}
use turkey_vm.Interp.Array.Elements.{
  ElementType, int, long, float, double, reference, byte, char, short, width, value_on, extended,
  load_handler, element,
}

module _ (heap : Heap) (f : Frame) (valid : IsFrame f) (r i : ℕ) (o : Object) (s : List ℕ)
    (a : ArrayAt heap r o) (within : i < o.length) (h : operands f ≡ i ∷ r ∷ s) where
  word-load :
      (t : Operand) (w : ℕ) (extend : ℕ → ℕ)
      → is_word t ≡ true
      → o.el_size ≡ w
      → extend (element o w i) < 2 ^ 32
      → Effect f
          (pop f type_int >>= λ (index, f₁). pop f₁ type_reference >>= λ (obj, f₂).
            check_array heap obj index >>= λ o₁.
            array_data o₁ index w >>= λ value. push f₂ (extend value) t)
          f.cell
          f.pc
          (extend (element o w i) ∷ s)
  word-load t w extend ok_t sized small =
      with_pop type_int _ refl (Leaves-self f valid h) λ f₁ hi l₁.
        with_pop type_reference _ refl l₁ λ f₂ hr l₂.
          rw (check_array-ok a i within, array_data-ok a i w sized within)
            (push-Effect _ t ok_t l₂ small (omega (arith, operands-room f valid h)))

  long_lt : element o 8 i < 2 ^ 64
  long_lt = omega (arith, read_bytes-lt 8 o.cell (i * 8) a.cells)

  long-load :
      o.el_size ≡ 8 → Effect f (exe_opc_laload heap f) f.cell f.pc (long_on (element o 8 i) s)
  unfolding exe_opc_laload
  long-load sized = with_pop type_int _ refl (Leaves-self f valid h) λ f₁ hi l₁.
      with_pop type_reference _ refl l₁ λ f₂ hr l₂.
        rw (deref-ok a, array_data-ok a i 8 sized within)
          (push_wide-Effect _ type_long refl (λ e. cc) l₂ long_lt
            (omega (arith, operands-room f valid h)))

  double-load :
      o.el_size ≡ 8 → Effect f (exe_opc_daload heap f) f.cell f.pc (long_on (element o 8 i) s)
  unfolding exe_opc_daload
  double-load sized = with_pop type_int _ refl (Leaves-self f valid h) λ f₁ hi l₁.
      with_pop type_reference _ refl l₁ λ f₂ hr l₂.
        rw (check_array-ok a i within, array_data-ok a i 8 sized within)
          (push_wide-Effect _ type_double refl (λ e. cc) l₂ long_lt
            (omega (arith, operands-room f valid h)))

  word_lt : element o 4 i < 2 ^ 32
  word_lt = omega (arith, read_bytes-lt 4 o.cell (i * 4) a.cells)

  byte_lt : char_to_int (element o 1 i) < 2 ^ 32
  byte_lt = ground (arith, read_bytes-lt 1 o.cell (i * 1) a.cells)

  short_lt : short_to_int (element o 2 i) < 2 ^ 32
  short_lt = ground (arith, read_bytes-lt 2 o.cell (i * 2) a.cells)

  -- On a frame in order with an index within an array on top of a reference to the array, whose
  -- elements have the type of the handler, each of the eight loads takes the two and leaves the
  -- element, a byte, a char and a short extended by their sign; all else stays.
  pub array_load-Effect :
      (t : ElementType)
      → o.el_size ≡ width t
      → Effect f
          (load_handler t heap f)
          f.cell
          f.pc
          (value_on t (extended t (element o (width t) i)) s)
  unfolding exe_opc_iaload exe_opc_faload exe_opc_aaload exe_opc_baload exe_opc_caload
      exe_opc_saload
  array_load-Effect int sized = word-load type_int 4 (λ v. v) refl sized word_lt
  array_load-Effect float sized = word-load type_float 4 (λ v. v) refl sized word_lt
  array_load-Effect reference sized = word-load type_reference 4 (λ v. v) refl sized word_lt
  array_load-Effect byte sized = word-load type_int 1 char_to_int refl sized byte_lt
  array_load-Effect char sized = word-load type_int 2 short_to_int refl sized short_lt
  array_load-Effect short sized = word-load type_int 2 short_to_int refl sized short_lt
  array_load-Effect long sized = long-load sized
  array_load-Effect double sized = double-load sized
