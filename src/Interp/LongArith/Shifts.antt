-- ===== src/Interp/LongArith/Shifts.antt =====
-- Shifts of longs: the handlers against multiplication and floor division.
use turkey_vm.Prelude.{ℕ, ◌*◌, ◌%◌, ◌^◌, ◌≡◌, refl, List, ◌∷◌, bit_and, pos, ◌*ℤ◌, signed64, wrap64}
use turkey_vm.Words.Wrap.{wrap64-lt}
use turkey_vm.Words.Mask.{bit_and_mask}
use turkey_vm.Words.Shift.{floor_div, shl_wrap64, shr_wrap64}
use turkey_vm.Frame.Defs.{Frame, type_long, type_ulong}
use turkey_vm.Frame.View.{operands, IsFrame}
use turkey_vm.Frame.Steps.{Effect}
use turkey_vm.Interp.Rules.{long_on, long_int-Effect}
use turkey_vm.Interp.LongArith.{long_shr, exe_opc_lshl, exe_opc_lshr, exe_opc_lushr}

count : (b : ℕ) → bit_and b 0x3f ≡ b % 64
count b = bit_and_mask 6 b

module _ (f : Frame) (valid : IsFrame f) (a b : ℕ) (s : List ℕ)
    (h : operands f ≡ b ∷ long_on a s) where
  exe_opc_lshl_lem :
      Effect f (exe_opc_lshl f) f.cell f.pc (long_on (wrap64 (signed64 a *ℤ pos (2 ^ (b % 64)))) s)
  unfolding exe_opc_lshl
  exe_opc_lshl_lem =
      long_int-Effect f valid type_long (λ x y. x * 2 ^ bit_and y 0x3f % 2 ^ 64) a b _ s refl h
        λ ha hb. (rw (count b) (shl_wrap64 a (2 ^ (b % 64)) ha), wrap64-lt _)

  exe_opc_lshr_lem :
      Effect f
        (exe_opc_lshr f)
        f.cell
        f.pc
        (long_on (wrap64 (floor_div (signed64 a) (2 ^ (b % 64)))) s)
  unfolding exe_opc_lshr
  exe_opc_lshr_lem =
      long_int-Effect f valid type_long (λ x y. long_shr x (bit_and y 0x3f)) a b _ s refl h
        λ ha hb. (rw (count b) (shr_wrap64 a (2 ^ (b % 64)) ha), wrap64-lt _)

  exe_opc_lushr_lem :
      Effect f
        (exe_opc_lushr f)
        f.cell
        f.pc
        (long_on (wrap64 (floor_div (signed64 a) (2 ^ (b % 64)))) s)
  unfolding exe_opc_lushr
  exe_opc_lushr_lem =
      long_int-Effect f valid type_ulong (λ x y. long_shr x (bit_and y 0x3f)) a b _ s refl h
        λ ha hb. (rw (count b) (shr_wrap64 a (2 ^ (b % 64)) ha), wrap64-lt _)

  -- On a frame in order, with a count on top of a long, `lshl` multiplies the long by two to the
  -- power of the count's low six bits and keeps 64 bits, and both `lshr` and `lushr` divide it by
  -- that power rounding down, as a signed number; the rest of the frame stays.
  pub long_shifts :
      Effect f (exe_opc_lshl f) f.cell f.pc (long_on (wrap64 (signed64 a *ℤ pos (2 ^ (b % 64)))) s)
      × Effect f
          (exe_opc_lshr f)
          f.cell
          f.pc
          (long_on (wrap64 (floor_div (signed64 a) (2 ^ (b % 64)))) s)
      × Effect f
          (exe_opc_lushr f)
          f.cell
          f.pc
          (long_on (wrap64 (floor_div (signed64 a) (2 ^ (b % 64)))) s)
  long_shifts = (exe_opc_lshl_lem, exe_opc_lshr_lem, exe_opc_lushr_lem)
