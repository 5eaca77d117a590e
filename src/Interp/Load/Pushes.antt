-- ===== src/Interp/Load/Pushes.antt =====
-- What the loads leave on the stack.
use turkey_vm.Prelude.{
  ℕ, ◌+◌, ◌-◌, ◌*◌, ◌^◌, ◌<◌, ◌≡◌, ◌≢◌, refl, true, List, [], ◌∷◌, some, arith, length, get_elem?,
  Run, ◌>>=◌, ◌also◌, All,
}
use turkey_vm.Frame.Defs.{
  Frame, Operand, type_int, type_long, type_double, type_float, type_reference, type_ulong, push,
  load, load_wide,
}
use turkey_vm.Frame.View.{operands, IsFrame}
use turkey_vm.Frame.Steps.{is_word, is_wide, Effect, Leaves-self}
use turkey_vm.Frame.Operands.{push-Effect, push_wide-Effect}
use turkey_vm.Frame.Locals.{with_load, with_load_wide}
use turkey_vm.Frame.Fetch.{with_u1}
use turkey_vm.Interp.Rules.{long_on}
use turkey_vm.Interp.Load.{
  exe_opc_iload, exe_opc_lload, exe_opc_fload, exe_opc_dload, exe_opc_aload, exe_opc_iload_0,
  exe_opc_iload_1, exe_opc_iload_2, exe_opc_iload_3, exe_opc_lload_0, exe_opc_lload_1,
  exe_opc_lload_2, exe_opc_lload_3, exe_opc_fload_0, exe_opc_fload_1, exe_opc_fload_2,
  exe_opc_fload_3, exe_opc_dload_0, exe_opc_dload_1, exe_opc_dload_2, exe_opc_dload_3,
  exe_opc_aload_0, exe_opc_aload_1, exe_opc_aload_2, exe_opc_aload_3,
}

-- The handlers that name their local variable in the opcode, at one slot and at two.
abbrev pub word_loads : List (ℕ × (Frame → Run Frame))
word_loads =
    (0, exe_opc_iload_0)
    ∷ (1, exe_opc_iload_1)
    ∷ (2, exe_opc_iload_2)
    ∷ (3, exe_opc_iload_3)
    ∷ (0, exe_opc_fload_0)
    ∷ (1, exe_opc_fload_1)
    ∷ (2, exe_opc_fload_2)
    ∷ (3, exe_opc_fload_3)
    ∷ (0, exe_opc_aload_0)
    ∷ (1, exe_opc_aload_1)
    ∷ (2, exe_opc_aload_2)
    ∷ (3, exe_opc_aload_3)
    ∷ []

abbrev pub wide_loads : List (ℕ × (Frame → Run Frame))
wide_loads =
    (0, exe_opc_lload_0)
    ∷ (1, exe_opc_lload_1)
    ∷ (2, exe_opc_lload_2)
    ∷ (3, exe_opc_lload_3)
    ∷ (0, exe_opc_dload_0)
    ∷ (1, exe_opc_dload_1)
    ∷ (2, exe_opc_dload_2)
    ∷ (3, exe_opc_dload_3)
    ∷ []

-- The long long or double at local variable `i`.
abbrev pub wide_at : Frame → ℕ → ℕ
wide_at f i = f.cell i + f.cell (i + 1) * 2 ^ 32

module _ (f : Frame) (valid : IsFrame f) (s : List ℕ) (h : operands f ≡ s) where
  load-push :
      (i : ℕ) (t : Operand)
      → is_word t ≡ true
      → i < f.bottom
      → length s < f.top - f.bottom
      → Effect f (load f i >>= λ value. push f value t) f.cell f.pc (f.cell i ∷ s)
  load-push i t w inside room =
      with_load i _ inside (Leaves-self f valid h)
        λ small. push-Effect (f.cell i) t w (Leaves-self f valid h) small room

  load_wide-push :
      (i : ℕ) (t : Operand)
      → is_wide t ≡ true
      → t ≢ type_ulong
      → i + 1 < f.bottom
      → length s + 1 < f.top - f.bottom
      → Effect f (load_wide f i >>= λ value. push f value t) f.cell f.pc (long_on (wide_at f i) s)
  load_wide-push i t w n inside room =
      with_load_wide i _ inside (Leaves-self f valid h)
        λ small. push_wide-Effect _ t w n (Leaves-self f valid h) small room

  -- On a frame in order with four local variables or more and room for a word, each handler of
  -- `iload_<n>`, `fload_<n>` and `aload_<n>` puts local variable n on the stack; all else stays.
  pub word_loads-push :
      3 < f.bottom
      → length s < f.top - f.bottom
      → All (λ (i, handler). Effect f (handler f) f.cell f.pc (f.cell i ∷ s)) word_loads
  unfolding exe_opc_iload_0 exe_opc_iload_1 exe_opc_iload_2 exe_opc_iload_3 exe_opc_fload_0
      exe_opc_fload_1 exe_opc_fload_2 exe_opc_fload_3 exe_opc_aload_0 exe_opc_aload_1
      exe_opc_aload_2 exe_opc_aload_3
  word_loads-push inside room =
      load-push 0 type_int refl (omega arith) room
      also load-push 1 type_int refl (omega arith) room
      also load-push 2 type_int refl (omega arith) room
      also load-push 3 type_int refl (omega arith) room
      also load-push 0 type_float refl (omega arith) room
      also load-push 1 type_float refl (omega arith) room
      also load-push 2 type_float refl (omega arith) room
      also load-push 3 type_float refl (omega arith) room
      also load-push 0 type_reference refl (omega arith) room
      also load-push 1 type_reference refl (omega arith) room
      also load-push 2 type_reference refl (omega arith) room
      also load-push 3 type_reference refl (omega arith) room
      also tt

  -- On a frame in order with five local variables or more and room for two words, each handler of
  -- `lload_<n>` and `dload_<n>` puts the two words of local variables n and n + 1 on the stack;
  -- all else stays.
  pub wide_loads-push :
      4 < f.bottom
      → length s + 1 < f.top - f.bottom
      → All (λ (i, handler). Effect f (handler f) f.cell f.pc (long_on (wide_at f i) s)) wide_loads
  unfolding exe_opc_lload_0 exe_opc_lload_1 exe_opc_lload_2 exe_opc_lload_3 exe_opc_dload_0
      exe_opc_dload_1 exe_opc_dload_2 exe_opc_dload_3
  wide_loads-push inside room =
      load_wide-push 0 type_long refl (λ e. cc) (omega arith) room
      also load_wide-push 1 type_long refl (λ e. cc) (omega arith) room
      also load_wide-push 2 type_long refl (λ e. cc) (omega arith) room
      also load_wide-push 3 type_long refl (λ e. cc) (omega arith) room
      also load_wide-push 0 type_double refl (λ e. cc) (omega arith) room
      also load_wide-push 1 type_double refl (λ e. cc) (omega arith) room
      also load_wide-push 2 type_double refl (λ e. cc) (omega arith) room
      also load_wide-push 3 type_double refl (λ e. cc) (omega arith) room
      also tt

  -- On a frame in order with room for a word whose next byte of code is the index of a local
  -- variable, `iload`, `fload` and `aload` put that variable on the stack and step over the byte;
  -- all else stays.
  pub indexed_loads-push :
      (i : ℕ)
      → get_elem? f.code (f.pc + 0) ≡ some i
      → i < f.bottom
      → length s < f.top - f.bottom
      → Effect f (exe_opc_iload f) f.cell (f.pc + 1) (f.cell i ∷ s)
        × Effect f (exe_opc_fload f) f.cell (f.pc + 1) (f.cell i ∷ s)
        × Effect f (exe_opc_aload f) f.cell (f.pc + 1) (f.cell i ∷ s)
  unfolding exe_opc_iload exe_opc_fload exe_opc_aload
  indexed_loads-push i byte inside room = (
    with_u1 _ byte (Leaves-self f valid h)
        λ g l. with_load i _ inside l λ small. push-Effect (f.cell i) type_int refl l small room,
    with_u1 _ byte (Leaves-self f valid h)
        λ g l. with_load i _ inside l λ small. push-Effect (f.cell i) type_float refl l small room,
    with_u1 _ byte (Leaves-self f valid h) λ g l.
        with_load i _ inside l λ small. push-Effect (f.cell i) type_reference refl l small room,
  )

  -- On a frame in order with room for two words whose next byte of code is an index with two local
  -- variables at it, `lload` and `dload` put these two words on the stack and step over the byte;
  -- all else stays.
  pub indexed_wide_loads-push :
      (i : ℕ)
      → get_elem? f.code (f.pc + 0) ≡ some i
      → i + 1 < f.bottom
      → length s + 1 < f.top - f.bottom
      → Effect f (exe_opc_lload f) f.cell (f.pc + 1) (long_on (wide_at f i) s)
        × Effect f (exe_opc_dload f) f.cell (f.pc + 1) (long_on (wide_at f i) s)
  unfolding exe_opc_lload exe_opc_dload
  indexed_wide_loads-push i byte inside room = (
    with_u1 _ byte (Leaves-self f valid h) λ g l.
        with_load_wide i _ inside l
          λ small. push_wide-Effect _ type_long refl (λ e. cc) l small room,
    with_u1 _ byte (Leaves-self f valid h) λ g l.
        with_load_wide i _ inside l
          λ small. push_wide-Effect _ type_double refl (λ e. cc) l small room,
  )
