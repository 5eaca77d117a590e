-- ===== src/Interp/LongArith/Sums.antt =====
-- Sums, differences, products and negation of longs: the handlers against the integers.
use turkey_vm.Prelude.{
  ℕ, ◌+◌, ◌-◌, ◌*◌, ◌%◌, ◌^◌, ◌≡◌, refl, List, pos, ◌+ℤ◌, ◌-ℤ◌, ◌*ℤ◌, signed64, wrap64,
}
use turkey_vm.Words.Wrap.{add_wrap64, sub_wrap64, mul_wrap64, neg_wrap64, wrap64-lt}
use turkey_vm.Frame.Defs.{Frame, type_long}
use turkey_vm.Frame.View.{operands, IsFrame}
use turkey_vm.Frame.Steps.{Effect}
use turkey_vm.Interp.Rules.{long_on, long_unary-Effect, long_binary-Effect}
use turkey_vm.Interp.LongArith.{exe_opc_ladd, exe_opc_lsub, exe_opc_lmul, exe_opc_lneg}

module _ (f : Frame) (valid : IsFrame f) where
  exe_opc_ladd_lem :
      (a b : ℕ) (s : List ℕ)
      → operands f ≡ long_on b (long_on a s)
      → Effect f (exe_opc_ladd f) f.cell f.pc (long_on (wrap64 (signed64 a +ℤ signed64 b)) s)
  unfolding exe_opc_ladd
  exe_opc_ladd_lem a b s h =
      long_binary-Effect f valid type_long (λ x y. (x + y) % 2 ^ 64) a b _ s refl h
        λ ha hb. (add_wrap64 a b ha hb, wrap64-lt _)

  exe_opc_lsub_lem :
      (a b : ℕ) (s : List ℕ)
      → operands f ≡ long_on b (long_on a s)
      → Effect f (exe_opc_lsub f) f.cell f.pc (long_on (wrap64 (signed64 a -ℤ signed64 b)) s)
  unfolding exe_opc_lsub
  exe_opc_lsub_lem a b s h =
      long_binary-Effect f valid type_long (λ x y. (x + 2 ^ 64 - y) % 2 ^ 64) a b _ s refl h
        λ ha hb. (sub_wrap64 a b ha hb, wrap64-lt _)

  exe_opc_lmul_lem :
      (a b : ℕ) (s : List ℕ)
      → operands f ≡ long_on b (long_on a s)
      → Effect f (exe_opc_lmul f) f.cell f.pc (long_on (wrap64 (signed64 a *ℤ signed64 b)) s)
  unfolding exe_opc_lmul
  exe_opc_lmul_lem a b s h =
      long_binary-Effect f valid type_long (λ x y. x * y % 2 ^ 64) a b _ s refl h
        λ ha hb. (mul_wrap64 a b ha hb, wrap64-lt _)

  exe_opc_lneg_lem :
      (a : ℕ) (s : List ℕ)
      → operands f ≡ long_on a s
      → Effect f (exe_opc_lneg f) f.cell f.pc (long_on (wrap64 (pos 0 -ℤ signed64 a)) s)
  unfolding exe_opc_lneg
  exe_opc_lneg_lem a s h =
      long_unary-Effect f valid (λ x. (2 ^ 64 - x) % 2 ^ 64) a _ s h
        λ ha. (neg_wrap64 a ha, wrap64-lt _)

  -- On a frame in order, `ladd`, `lsub` and `lmul` take the two longs on top and leave the low 64
  -- bits of their sum, difference and product as integers, `lneg` those of the negated top; the
  -- pc, the local variables and the rest of the stack stay.
  pub long_sums :
      (a b : ℕ) (s : List ℕ)
      → operands f ≡ long_on b (long_on a s)
      → Effect f (exe_opc_ladd f) f.cell f.pc (long_on (wrap64 (signed64 a +ℤ signed64 b)) s)
        × Effect f (exe_opc_lsub f) f.cell f.pc (long_on (wrap64 (signed64 a -ℤ signed64 b)) s)
        × Effect f (exe_opc_lmul f) f.cell f.pc (long_on (wrap64 (signed64 a *ℤ signed64 b)) s)
        × Effect f
            (exe_opc_lneg f)
            f.cell
            f.pc
            (long_on (wrap64 (pos 0 -ℤ signed64 b)) (long_on a s))
  long_sums a b s h = (
    exe_opc_ladd_lem a b s h,
    exe_opc_lsub_lem a b s h,
    exe_opc_lmul_lem a b s h,
    exe_opc_lneg_lem b (long_on a s) h,
  )
