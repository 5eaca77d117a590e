-- ===== src/Interp/IntArith/Shifts.antt =====
-- Shifts of ints: the handlers against multiplication and floor division.
use native.Mathlib.Nat.{div-le_self}
use turkey_vm.Prelude.{
  ℕ, ◌*◌, ◌/◌, ◌%◌, ◌^◌, ◌≡◌, refl, List, ◌∷◌, arith, bit_and, pos, ◌*ℤ◌, signed32, wrap32,
}
use turkey_vm.Words.Wrap.{wrap32-lt}
use turkey_vm.Words.Mask.{bit_and_mask}
use turkey_vm.Words.Shift.{floor_div, shl_wrap32, shr_wrap32}
use turkey_vm.Frame.Defs.{Frame, type_int, type_uint}
use turkey_vm.Frame.View.{operands, IsFrame}
use turkey_vm.Frame.Steps.{Effect}
use turkey_vm.Interp.Rules.{binary-Effect}
use turkey_vm.Interp.IntArith.{int_shr, exe_opc_ishl, exe_opc_ishr, exe_opc_iushr}

-- The masked count.
count : (b : ℕ) → bit_and b 0x1f ≡ b % 32
count b = bit_and_mask 5 b

module _ (f : Frame) (valid : IsFrame f) (a b : ℕ) (s : List ℕ) (h : operands f ≡ b ∷ a ∷ s) where
  exe_opc_ishl_lem :
      Effect f (exe_opc_ishl f) f.cell f.pc (wrap32 (signed32 a *ℤ pos (2 ^ (b % 32))) ∷ s)
  unfolding exe_opc_ishl
  exe_opc_ishl_lem =
      binary-Effect f valid type_int type_int (λ x y. x * 2 ^ bit_and y 0x1f % 2 ^ 32) a b _ s refl
        refl h λ ha hb. (rw (count b) (shl_wrap32 a (2 ^ (b % 32)) ha), wrap32-lt _)

  exe_opc_ishr_lem :
      Effect f (exe_opc_ishr f) f.cell f.pc (wrap32 (floor_div (signed32 a) (2 ^ (b % 32))) ∷ s)
  unfolding exe_opc_ishr
  exe_opc_ishr_lem =
      binary-Effect f valid type_int type_int (λ x y. int_shr x (bit_and y 0x1f)) a b _ s refl refl
        h λ ha hb. (rw (count b) (shr_wrap32 a (2 ^ (b % 32)) ha), wrap32-lt _)

  exe_opc_iushr_lem : Effect f (exe_opc_iushr f) f.cell f.pc ((a / 2 ^ (b % 32)) ∷ s)
  unfolding exe_opc_iushr
  exe_opc_iushr_lem =
      binary-Effect f valid type_int type_uint (λ x y. x / 2 ^ bit_and y 0x1f) a b _ s refl refl h
        λ ha hb. (rw (count b), omega (arith, div-le_self a (2 ^ (b % 32))))

  -- On a frame in order, with a count on top of an int, `ishl` multiplies the int by two to the
  -- power of the count's low five bits and keeps 32 bits, `ishr` divides it by that power rounding
  -- down, and `iushr` divides its pattern; the rest of the frame stays.
  pub int_shifts :
      Effect f (exe_opc_ishl f) f.cell f.pc (wrap32 (signed32 a *ℤ pos (2 ^ (b % 32))) ∷ s)
      × Effect f (exe_opc_ishr f) f.cell f.pc (wrap32 (floor_div (signed32 a) (2 ^ (b % 32))) ∷ s)
      × Effect f (exe_opc_iushr f) f.cell f.pc ((a / 2 ^ (b % 32)) ∷ s)
  int_shifts = (exe_opc_ishl_lem, exe_opc_ishr_lem, exe_opc_iushr_lem)
