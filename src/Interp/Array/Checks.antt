-- ===== src/Interp/Array/Checks.antt =====
-- How the handlers of arrays stop at a bad index, at a null reference and at an object of another
-- kind.
use turkey_vm.Prelude.{
  ℕ, ◌≤◌, ◌≡◌, refl, Bool, true, false, List, ◌∷◌, arith, leb, ◌==◌, Run, halt, ◌>>=◌, Halt,
  assertion_failed, exception,
}
use turkey_vm.Frame.Defs.{
  Frame, Operand, type_int, type_long, type_double, type_float, type_reference, pop,
}
use turkey_vm.Frame.View.{operands, IsFrame}
use turkey_vm.Frame.Steps.{is_word, is_wide, Leaves-self}
use turkey_vm.Frame.Operands.{pop-Effect, pop_wide_type-Effect}
use turkey_vm.Objects.{Object, Heap, check_array}
use turkey_vm.Objects.Invariant.{ArrayAt}
use turkey_vm.Interp.Rules.{long_on}
use turkey_vm.Interp.Array.{
  exe_opc_iaload, exe_opc_faload, exe_opc_daload, exe_opc_aaload, exe_opc_baload, exe_opc_caload,
  exe_opc_saload, exe_opc_iastore, exe_opc_lastore, exe_opc_fastore, exe_opc_dastore,
  exe_opc_aastore, exe_opc_bastore, exe_opc_castore, exe_opc_sastore,
}
use turkey_vm.Interp.Array.Elements.{
  ElementType, int, long, float, double, reference, byte, char, short, value_on, load_handler,
  store_handler,
}

-- The loads that test their array: all but that of long longs.
abbrev pub tests : ElementType → Bool
tests long = false
tests int = true
tests float = true
tests double = true
tests reference = true
tests byte = true
tests char = true
tests short = true

module _ (heap : Heap) (f : Frame) (valid : IsFrame f) (r i : ℕ) (s : List ℕ) (why : Halt)
    (fails : check_array heap r i ≡ halt why) where
  load-halt :
      {A : Type 0} (next : ℕ → Frame → Object → Run A)
      → operands f ≡ i ∷ r ∷ s
      → (pop f type_int >>= λ (index, f₁). pop f₁ type_reference >>= λ (obj, f₂).
          check_array heap obj index >>= λ o. next index f₂ o)
        ≡ halt why
  load-halt next h =
      let (f₁, runs, l₁) = pop-Effect type_int refl (Leaves-self f valid h) in
      let (f₂, runs', l₂) = pop-Effect type_reference refl l₁ in rw (runs, runs', fails) refl

  loads-halt :
      (t : ElementType) → tests t ≡ true → operands f ≡ i ∷ r ∷ s → load_handler t heap f ≡ halt why
  unfolding exe_opc_iaload exe_opc_faload exe_opc_daload exe_opc_aaload exe_opc_baload
      exe_opc_caload exe_opc_saload
  loads-halt int c h = load-halt _ h
  loads-halt float c h = load-halt _ h
  loads-halt double c h = load-halt _ h
  loads-halt reference c h = load-halt _ h
  loads-halt byte c h = load-halt _ h
  loads-halt char c h = load-halt _ h
  loads-halt short c h = load-halt _ h
  loads-halt long c h = cc

  word_store-halt :
      {A : Type 0} (t : Operand) (v : ℕ) (next : ℕ → ℕ → ℕ → Frame → Object → Run A)
      → is_word t ≡ true
      → operands f ≡ v ∷ i ∷ r ∷ s
      → (pop f t >>= λ (value, f₁). pop f₁ type_int >>= λ (index, f₂).
          pop f₂ type_reference >>= λ (obj, f₃).
          check_array heap obj index >>= λ o. next value index obj f₃ o)
        ≡ halt why
  word_store-halt t v next w h =
      let (f₁, runs, l₁) = pop-Effect t w (Leaves-self f valid h) in
      let (f₂, runs', l₂) = pop-Effect type_int refl l₁ in
      let (f₃, runs'', l₃) = pop-Effect type_reference refl l₂ in
      rw (runs, runs', runs'', fails) refl

  wide_store-halt :
      {A : Type 0} (t : Operand) (v : ℕ) (next : ℕ → ℕ → ℕ → Frame → Object → Run A)
      → is_wide t ≡ true
      → operands f ≡ long_on v (i ∷ r ∷ s)
      → (pop f t >>= λ (value, f₁). pop f₁ type_int >>= λ (index, f₂).
          pop f₂ type_reference >>= λ (obj, f₃).
          check_array heap obj index >>= λ o. next value index obj f₃ o)
        ≡ halt why
  wide_store-halt t v next w h =
      let (f₁, runs, l₁) = pop_wide_type-Effect t w (Leaves-self f valid h) in
      let (f₂, runs', l₂) = pop-Effect type_int refl l₁ in
      let (f₃, runs'', l₃) = pop-Effect type_reference refl l₂ in
      rw (runs, runs', runs'', fails) refl

  stores-halt :
      (t : ElementType) (v : ℕ)
      → operands f ≡ value_on t v (i ∷ r ∷ s)
      → store_handler t heap f ≡ halt why
  unfolding exe_opc_iastore exe_opc_lastore exe_opc_fastore exe_opc_dastore exe_opc_aastore
      exe_opc_bastore exe_opc_castore exe_opc_sastore
  stores-halt int v h = word_store-halt type_int v _ refl h
  stores-halt float v h = word_store-halt type_float v _ refl h
  stores-halt reference v h = word_store-halt type_reference v _ refl h
  stores-halt byte v h = word_store-halt type_int v _ refl h
  stores-halt char v h = word_store-halt type_int v _ refl h
  stores-halt short v h = word_store-halt type_int v _ refl h
  stores-halt long v h = wide_store-halt type_long v _ refl h
  stores-halt double v h = wide_store-halt type_double v _ refl h

outside :
    {heap : Heap} {r : ℕ} {o : Object}
    → ArrayAt heap r o
    → (i : ℕ) → o.length ≤ i
    → check_array heap r i ≡ halt exception
unfolding check_array
outside {r = r} {o = o} a i h =
    let not_null : (r == 0) ≡ false = let ne = a.address in ground arith in
    let over : leb o.length i ≡ true = ground arith in
    rw (not_null, a.found, a.kind, over, check_array) ground arith

null : (heap : Heap) (i : ℕ) → check_array heap 0 i ≡ halt assertion_failed
unfolding check_array
null heap i = refl

module _ (heap : Heap) (f f' : Frame) (valid : IsFrame f) (valid' : IsFrame f') (i v : ℕ)
    (s : List ℕ) (t : ElementType) (tested : tests t ≡ true) where
  -- On frames in order with the operands of a load and of a store of an array on their stacks, the
  -- index being the pattern of an int that is negative or not less than the array's length: each load
  -- but that of long longs, and the store of the same type, stop with the exception.
  pub array_index-exception :
      (r : ℕ) (o : Object)
      → ArrayAt heap r o
      → o.length ≤ i
      → operands f ≡ i ∷ r ∷ s
      → operands f' ≡ value_on t v (i ∷ r ∷ s)
      → (load_handler t heap f ≡ halt exception) × (store_handler t heap f' ≡ halt exception)
  array_index-exception r o a beyond h h' =
      let fails = outside a i beyond in
      (
        loads-halt heap f valid r i s exception fails t tested h,
        stores-halt heap f' valid' r i s exception fails t v h',
      )

  -- With a null reference in place of the array the same handlers stop with the failed assertion.
  pub array_null-assertion :
      operands f ≡ i ∷ 0 ∷ s
      → operands f' ≡ value_on t v (i ∷ 0 ∷ s)
      → (load_handler t heap f ≡ halt assertion_failed)
        × (store_handler t heap f' ≡ halt assertion_failed)
  array_null-assertion h h' =
      let fails = null heap i in
      (
        loads-halt heap f valid 0 i s assertion_failed fails t tested h,
        stores-halt heap f' valid' 0 i s assertion_failed fails t v h',
      )
