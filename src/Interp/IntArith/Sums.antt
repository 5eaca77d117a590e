-- ===== src/Interp/IntArith/Sums.antt =====
-- Sums, differences, products and negation of ints: the handlers against the integers.
use turkey_vm.Prelude.{
  ℕ, ◌+◌, ◌-◌, ◌*◌, ◌%◌, ◌^◌, ◌≡◌, refl, List, ◌∷◌, pos, ◌+ℤ◌, ◌-ℤ◌, ◌*ℤ◌, signed32, wrap32, ◌∙◌,
  ap,
}
use native.Mathlib.Nat.{add_comm}
use turkey_vm.Words.Wrap.{add_wrap32, sub_wrap32, mul_wrap32, neg_wrap32, wrap32-lt}
use turkey_vm.Frame.Defs.{Frame, type_int}
use turkey_vm.Frame.View.{operands, IsFrame}
use turkey_vm.Frame.Steps.{Effect}
use turkey_vm.Interp.Rules.{unary-Effect, binary-Effect}
use turkey_vm.Interp.IntArith.{exe_opc_iadd, exe_opc_isub, exe_opc_imul, exe_opc_ineg}

module _ (f : Frame) (valid : IsFrame f) where
  exe_opc_iadd_lem :
      (a b : ℕ) (s : List ℕ)
      → operands f ≡ b ∷ a ∷ s
      → Effect f (exe_opc_iadd f) f.cell f.pc (wrap32 (signed32 a +ℤ signed32 b) ∷ s)
  unfolding exe_opc_iadd
  exe_opc_iadd_lem a b s h =
      binary-Effect f valid type_int type_int (λ x y. (y + x) % 2 ^ 32) a b _ s refl refl h
        λ ha hb. (ap (λ (t : ℕ). t % 2 ^ 32) (add_comm b a) ∙ add_wrap32 a b ha hb, wrap32-lt _)

  exe_opc_isub_lem :
      (a b : ℕ) (s : List ℕ)
      → operands f ≡ b ∷ a ∷ s
      → Effect f (exe_opc_isub f) f.cell f.pc (wrap32 (signed32 a -ℤ signed32 b) ∷ s)
  unfolding exe_opc_isub
  exe_opc_isub_lem a b s h =
      binary-Effect f valid type_int type_int (λ x y. (x + 2 ^ 32 - y) % 2 ^ 32) a b _ s refl refl h
        λ ha hb. (sub_wrap32 a b ha hb, wrap32-lt _)

  exe_opc_imul_lem :
      (a b : ℕ) (s : List ℕ)
      → operands f ≡ b ∷ a ∷ s
      → Effect f (exe_opc_imul f) f.cell f.pc (wrap32 (signed32 a *ℤ signed32 b) ∷ s)
  unfolding exe_opc_imul
  exe_opc_imul_lem a b s h =
      binary-Effect f valid type_int type_int (λ x y. x * y % 2 ^ 32) a b _ s refl refl h
        λ ha hb. (mul_wrap32 a b ha hb, wrap32-lt _)

  exe_opc_ineg_lem :
      (a : ℕ) (s : List ℕ)
      → operands f ≡ a ∷ s
      → Effect f (exe_opc_ineg f) f.cell f.pc (wrap32 (pos 0 -ℤ signed32 a) ∷ s)
  unfolding exe_opc_ineg
  exe_opc_ineg_lem a s h =
      unary-Effect f valid type_int (λ x. (2 ^ 32 - x) % 2 ^ 32) a _ s refl h
        λ ha. (neg_wrap32 a ha, wrap32-lt _)

  -- On a frame in order, `iadd`, `isub` and `imul` take the two ints on top and leave the low 32
  -- bits of their sum, difference and product as integers, `ineg` those of the negated top; the
  -- pc, the local variables and the rest of the stack stay.
  pub int_sums :
      (a b : ℕ) (s : List ℕ)
      → operands f ≡ b ∷ a ∷ s
      → Effect f (exe_opc_iadd f) f.cell f.pc (wrap32 (signed32 a +ℤ signed32 b) ∷ s)
        × Effect f (exe_opc_isub f) f.cell f.pc (wrap32 (signed32 a -ℤ signed32 b) ∷ s)
        × Effect f (exe_opc_imul f) f.cell f.pc (wrap32 (signed32 a *ℤ signed32 b) ∷ s)
        × Effect f (exe_opc_ineg f) f.cell f.pc (wrap32 (pos 0 -ℤ signed32 b) ∷ a ∷ s)
  int_sums a b s h = (
    exe_opc_iadd_lem a b s h,
    exe_opc_isub_lem a b s h,
    exe_opc_imul_lem a b s h,
    exe_opc_ineg_lem b (a ∷ s) h,
  )
