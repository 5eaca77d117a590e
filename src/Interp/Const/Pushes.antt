-- ===== src/Interp/Const/Pushes.antt =====
-- What the constants leave on the stack.
use turkey_vm.Prelude.{
  ℕ, ◌+◌, ◌-◌, ◌*◌, ◌%◌, ◌^◌, ◌<◌, ◌≡◌, refl, List, [], ◌∷◌, some, arith, length, get_elem?, Run,
  ◌also◌, All, signed16, wrap32, short_to_int,
}
use turkey_vm.Frame.Defs.{Frame, type_int, type_long, type_double, type_float}
use turkey_vm.Frame.View.{operands, IsFrame}
use turkey_vm.Frame.Steps.{Effect, Leaves-self}
use turkey_vm.Frame.Operands.{push-Effect, push_wide-Effect}
use turkey_vm.Frame.Fetch.{with_u1, with_u2}
use turkey_vm.Interp.Rules.{long_on}
use turkey_vm.Interp.Const.{
  exe_opc_aconst_null, exe_opc_iconst_m1, exe_opc_iconst_0, exe_opc_iconst_1, exe_opc_iconst_2,
  exe_opc_iconst_3, exe_opc_iconst_4, exe_opc_iconst_5, exe_opc_fconst_0, exe_opc_fconst_1,
  exe_opc_fconst_2, exe_opc_lconst_0, exe_opc_lconst_1, exe_opc_dconst_0, exe_opc_dconst_1,
  exe_opc_bipush, exe_opc_sipush,
}

-- The constants of one word, and of two, with their handlers.
abbrev pub word_constants : List (ℕ × (Frame → Run Frame))
word_constants =
    (0, exe_opc_aconst_null)
    ∷ ((2 ^ 32 - 1), exe_opc_iconst_m1)
    ∷ (0, exe_opc_iconst_0)
    ∷ (1, exe_opc_iconst_1)
    ∷ (2, exe_opc_iconst_2)
    ∷ (3, exe_opc_iconst_3)
    ∷ (4, exe_opc_iconst_4)
    ∷ (5, exe_opc_iconst_5)
    ∷ (0, exe_opc_fconst_0)
    ∷ (0x3f800000, exe_opc_fconst_1)
    ∷ (0x40000000, exe_opc_fconst_2)
    ∷ []

abbrev pub wide_constants : List (ℕ × (Frame → Run Frame))
wide_constants =
    (0, exe_opc_lconst_0)
    ∷ (1, exe_opc_lconst_1)
    ∷ (0, exe_opc_dconst_0)
    ∷ (0x3ff0000000000000, exe_opc_dconst_1)
    ∷ []

sign_extends : (v : ℕ) → v < 2 ^ 16 → short_to_int (v % 2 ^ 16) ≡ wrap32 (signed16 v)
sign_extends v h = ground arith

short_to_int-lt : (v : ℕ) → short_to_int (v % 2 ^ 16) < 2 ^ 32
short_to_int-lt v = ground arith

module _ (f : Frame) (valid : IsFrame f) (s : List ℕ) (h : operands f ≡ s) where
  -- On a frame in order with room for two words, each handler of `aconst_null`, `iconst_<n>` and
  -- `fconst_<n>` puts its constant on the stack as one word, and each of `lconst_<n>` and
  -- `dconst_<n>` puts its constant as two; the floating constants are the patterns of IEEE 754, and
  -- all else stays.
  pub constants-push :
      length s + 1 < f.top - f.bottom
      → All (λ (v, handler). Effect f (handler f) f.cell f.pc (v ∷ s)) word_constants
        × All (λ (v, handler). Effect f (handler f) f.cell f.pc (long_on v s)) wide_constants
  unfolding exe_opc_aconst_null exe_opc_iconst_m1 exe_opc_iconst_0 exe_opc_iconst_1 exe_opc_iconst_2
      exe_opc_iconst_3 exe_opc_iconst_4 exe_opc_iconst_5 exe_opc_fconst_0 exe_opc_fconst_1
      exe_opc_fconst_2 exe_opc_lconst_0 exe_opc_lconst_1 exe_opc_dconst_0 exe_opc_dconst_1
  constants-push room =
      let l = Leaves-self f valid h in
      let room' : length s < f.top - f.bottom = omega arith in
      (
        push-Effect 0 type_int refl l (omega arith) room'
            also push-Effect (2 ^ 32 - 1) type_int refl l (omega arith) room'
            also push-Effect 0 type_int refl l (omega arith) room'
            also push-Effect 1 type_int refl l (omega arith) room'
            also push-Effect 2 type_int refl l (omega arith) room'
            also push-Effect 3 type_int refl l (omega arith) room'
            also push-Effect 4 type_int refl l (omega arith) room'
            also push-Effect 5 type_int refl l (omega arith) room'
            also push-Effect 0 type_float refl l (omega arith) room'
            also push-Effect 0x3f800000 type_float refl l (omega arith) room'
            also push-Effect 0x40000000 type_float refl l (omega arith) room'
            also tt,
        push_wide-Effect 0 type_long refl (λ e. cc) l (omega arith) room
            also push_wide-Effect 1 type_long refl (λ e. cc) l (omega arith) room
            also push_wide-Effect 0 type_double refl (λ e. cc) l (omega arith) room
            also push_wide-Effect 0x3ff0000000000000 type_double refl (λ e. cc) l (omega arith) room
            also tt,
      )

  -- On a frame in order with room for a word, `bipush` puts the next byte of the code on the stack
  -- as an unsigned number, and `sipush` puts the next two bytes as a signed number of 16 bits; each
  -- steps over what it reads, and all else stays.
  pub immediates-push :
      (b c : ℕ)
      → get_elem? f.code (f.pc + 0) ≡ some b
      → get_elem? f.code (f.pc + 1) ≡ some c
      → b < 2 ^ 8
      → c < 2 ^ 8
      → length s < f.top - f.bottom
      → Effect f (exe_opc_bipush f) f.cell (f.pc + 1) (b ∷ s)
        × Effect f (exe_opc_sipush f) f.cell (f.pc + 2) (wrap32 (signed16 (b * 2 ^ 8 + c)) ∷ s)
  unfolding exe_opc_bipush exe_opc_sipush
  immediates-push b c first second hb hc room = (
    with_u1 _ first (Leaves-self f valid h) λ g l. push-Effect b type_int refl l (omega arith) room,
    with_u2 _ first second (Leaves-self f valid h) λ g l.
        rw (← sign_extends (b * 2 ^ 8 + c) (omega arith))
          (push-Effect _ type_int refl l (short_to_int-lt (b * 2 ^ 8 + c)) room),
  )
