-- ===== src/Interp/Store/Pops.antt =====
-- What the stores leave in the local variables.
use turkey_vm.Prelude.{
  ℕ, ◌+◌, ◌/◌, ◌%◌, ◌^◌, ◌<◌, ◌≡◌, refl, true, List, [], ◌∷◌, some, arith, get_elem?, update, Run,
  ◌>>=◌, ◌also◌, All,
}
use turkey_vm.Frame.Defs.{
  Frame, Operand, type_int, type_long, type_double, type_float, type_reference, pop, store,
  store_wide,
}
use turkey_vm.Frame.View.{operands, IsFrame}
use turkey_vm.Frame.Steps.{is_word, is_wide, Effect, Leaves-self}
use turkey_vm.Frame.Operands.{with_pop, with_pop_wide}
use turkey_vm.Frame.Locals.{store-Effect, store_wide-Effect}
use turkey_vm.Frame.Fetch.{with_u1}
use turkey_vm.Interp.Rules.{long_on, long_parts}
use turkey_vm.Interp.Store.{
  exe_opc_istore, exe_opc_lstore, exe_opc_fstore, exe_opc_dstore, exe_opc_astore, exe_opc_istore_0,
  exe_opc_istore_1, exe_opc_istore_2, exe_opc_istore_3, exe_opc_lstore_0, exe_opc_lstore_1,
  exe_opc_lstore_2, exe_opc_lstore_3, exe_opc_fstore_0, exe_opc_fstore_1, exe_opc_fstore_2,
  exe_opc_fstore_3, exe_opc_dstore_0, exe_opc_dstore_1, exe_opc_dstore_2, exe_opc_dstore_3,
  exe_opc_astore_0, exe_opc_astore_1, exe_opc_astore_2, exe_opc_astore_3,
}

-- The handlers that name their local variable in the opcode, at one slot and at two. `dstore_0`
-- stands by itself.
abbrev pub word_stores : List (ℕ × (Frame → Run Frame))
word_stores =
    (0, exe_opc_istore_0)
    ∷ (1, exe_opc_istore_1)
    ∷ (2, exe_opc_istore_2)
    ∷ (3, exe_opc_istore_3)
    ∷ (0, exe_opc_fstore_0)
    ∷ (1, exe_opc_fstore_1)
    ∷ (2, exe_opc_fstore_2)
    ∷ (3, exe_opc_fstore_3)
    ∷ (0, exe_opc_astore_0)
    ∷ (1, exe_opc_astore_1)
    ∷ (2, exe_opc_astore_2)
    ∷ (3, exe_opc_astore_3)
    ∷ []

abbrev pub wide_stores : List (ℕ × (Frame → Run Frame))
wide_stores =
    (0, exe_opc_lstore_0)
    ∷ (1, exe_opc_lstore_1)
    ∷ (2, exe_opc_lstore_2)
    ∷ (3, exe_opc_lstore_3)
    ∷ (1, exe_opc_dstore_1)
    ∷ (2, exe_opc_dstore_2)
    ∷ (3, exe_opc_dstore_3)
    ∷ []

-- The local variables with `v` as two words at `i`.
abbrev pub update_wide : (ℕ → ℕ) → ℕ → ℕ → ℕ → ℕ
update_wide m i v = update (update m i (v % 2 ^ 32)) (i + 1) (v / 2 ^ 32)

module _ (f : Frame) (valid : IsFrame f) (v : ℕ) (s : List ℕ) where
  pop-store :
      (i : ℕ) (t : Operand)
      → is_word t ≡ true
      → operands f ≡ v ∷ s
      → i < f.bottom
      → Effect f (pop f t >>= λ (value, f₁). store f₁ value i) (update f.cell i v) f.pc s
  pop-store i t w h inside =
      with_pop t _ w (Leaves-self f valid h) λ f₁ small l. store-Effect v i l small inside

  pop-store_wide :
      (i : ℕ) (t : Operand)
      → is_wide t ≡ true
      → operands f ≡ long_on v s
      → i + 1 < f.bottom
      → Effect f (pop f t >>= λ (value, f₁). store_wide f₁ value i) (update_wide f.cell i v) f.pc s
  pop-store_wide i t w h inside =
      with_pop_wide t _ w (Leaves-self f valid h) λ f₁ small l.
        rw (long_parts v) (store_wide-Effect v i l (rw (long_parts v) at small) inside)

  -- On a frame in order with four local variables or more, each handler of `istore_<n>`,
  -- `fstore_<n>` and `astore_<n>` moves the top word to local variable n; all else stays.
  pub word_stores-pop :
      operands f ≡ v ∷ s
      → 3 < f.bottom
      → All (λ (i, handler). Effect f (handler f) (update f.cell i v) f.pc s) word_stores
  unfolding exe_opc_istore_0 exe_opc_istore_1 exe_opc_istore_2 exe_opc_istore_3 exe_opc_fstore_0
      exe_opc_fstore_1 exe_opc_fstore_2 exe_opc_fstore_3 exe_opc_astore_0 exe_opc_astore_1
      exe_opc_astore_2 exe_opc_astore_3
  word_stores-pop h inside =
      pop-store 0 type_int refl h (omega arith)
      also pop-store 1 type_int refl h (omega arith)
      also pop-store 2 type_int refl h (omega arith)
      also pop-store 3 type_int refl h (omega arith)
      also pop-store 0 type_float refl h (omega arith)
      also pop-store 1 type_float refl h (omega arith)
      also pop-store 2 type_float refl h (omega arith)
      also pop-store 3 type_float refl h (omega arith)
      also pop-store 0 type_reference refl h (omega arith)
      also pop-store 1 type_reference refl h (omega arith)
      also pop-store 2 type_reference refl h (omega arith)
      also pop-store 3 type_reference refl h (omega arith)
      also tt

  -- On a frame in order with five local variables or more, each handler of `lstore_<n>`, and of
  -- `dstore_<n>` but for `dstore_0`, moves the top two words to local variables n and n + 1;
  -- `dstore_0` takes them off the stack and leaves every local variable as it was.
  pub wide_stores-pop :
      operands f ≡ long_on v s
      → 4 < f.bottom
      → All (λ (i, handler). Effect f (handler f) (update_wide f.cell i v) f.pc s) wide_stores
        × Effect f (exe_opc_dstore_0 f) f.cell f.pc s
  unfolding exe_opc_lstore_0 exe_opc_lstore_1 exe_opc_lstore_2 exe_opc_lstore_3 exe_opc_dstore_0
      exe_opc_dstore_1 exe_opc_dstore_2 exe_opc_dstore_3
  wide_stores-pop h inside = (
    pop-store_wide 0 type_long refl h (omega arith)
        also pop-store_wide 1 type_long refl h (omega arith)
        also pop-store_wide 2 type_long refl h (omega arith)
        also pop-store_wide 3 type_long refl h (omega arith)
        also pop-store_wide 1 type_double refl h (omega arith)
        also pop-store_wide 2 type_double refl h (omega arith)
        also pop-store_wide 3 type_double refl h (omega arith)
        also tt,
    with_pop_wide type_double _ refl (Leaves-self f valid h) λ f₁ small l. (f₁, refl, l),
  )

  -- On a frame in order whose next byte of code is the index of a local variable, `istore`,
  -- `fstore` and `astore` move the top word to that variable and step over the byte; all else
  -- stays.
  pub indexed_stores-pop :
      (i : ℕ)
      → operands f ≡ v ∷ s
      → get_elem? f.code (f.pc + 0) ≡ some i
      → i < f.bottom
      → Effect f (exe_opc_istore f) (update f.cell i v) (f.pc + 1) s
        × Effect f (exe_opc_fstore f) (update f.cell i v) (f.pc + 1) s
        × Effect f (exe_opc_astore f) (update f.cell i v) (f.pc + 1) s
  unfolding exe_opc_istore exe_opc_fstore exe_opc_astore
  indexed_stores-pop i h byte inside = (
    with_u1 _ byte (Leaves-self f valid h)
        λ g l. with_pop type_int _ refl l λ f₁ small l₁. store-Effect v i l₁ small inside,
    with_u1 _ byte (Leaves-self f valid h)
        λ g l. with_pop type_float _ refl l λ f₁ small l₁. store-Effect v i l₁ small inside,
    with_u1 _ byte (Leaves-self f valid h)
        λ g l. with_pop type_reference _ refl l λ f₁ small l₁. store-Effect v i l₁ small inside,
  )

  -- On a frame in order whose next byte of code is an index with two local variables at it,
  -- `lstore` and `dstore` move the top two words to these variables and step over the byte; all
  -- else stays.
  pub indexed_wide_stores-pop :
      (i : ℕ)
      → operands f ≡ long_on v s
      → get_elem? f.code (f.pc + 0) ≡ some i
      → i + 1 < f.bottom
      → Effect f (exe_opc_lstore f) (update_wide f.cell i v) (f.pc + 1) s
        × Effect f (exe_opc_dstore f) (update_wide f.cell i v) (f.pc + 1) s
  unfolding exe_opc_lstore exe_opc_dstore
  indexed_wide_stores-pop i h byte inside = (
    with_u1 _ byte (Leaves-self f valid h) λ g l. with_pop_wide type_long _ refl l λ f₁ small l₁.
        rw (long_parts v) (store_wide-Effect v i l₁ (rw (long_parts v) at small) inside),
    with_u1 _ byte (Leaves-self f valid h) λ g l. with_pop_wide type_double _ refl l λ f₁ small l₁.
        rw (long_parts v) (store_wide-Effect v i l₁ (rw (long_parts v) at small) inside),
  )
