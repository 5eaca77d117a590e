-- ===== src/Interp/LongArith/Compare.antt =====
-- The comparison of longs against the order of the integers.
use turkey_vm.Prelude.{
  ℕ, ℤ, zero, suc, ◌-◌, ◌^◌, ◌<◌, ◌≡◌, refl, List, ◌∷◌, arith, pos, negsuc, ◌==◌, if◌then◌else◌,
  ltb_ℤ, ◌-ℤ◌, signed64, wrap32,
}
use turkey_vm.Frame.Defs.{Frame, type_int, type_long}
use turkey_vm.Frame.View.{operands, IsFrame}
use turkey_vm.Frame.Steps.{Effect, Leaves-self, operands-room}
use turkey_vm.Frame.Operands.{with_pop_wide, push-Effect}
use turkey_vm.Words.Wrap.{wrap32-lt}
use turkey_vm.Interp.Rules.{long_on, long_parts}
use turkey_vm.Interp.LongArith.{exe_opc_lcmp}

-- The sign of an integer: -1, 0 or 1.
abbrev pub sign : ℤ → ℤ
sign (pos zero) = pos 0
sign (pos (suc n)) = pos 1
sign (negsuc n) = negsuc 0

compares :
    (a b : ℕ)
    → a < 2 ^ 64
    → b < 2 ^ 64
    → (if ltb_ℤ (signed64 b) (signed64 a) then 1 else if a == b then 0 else 2 ^ 32 - 1)
      ≡ wrap32 (sign (signed64 a -ℤ signed64 b))
unfolding ◌-ℤ◌
compares a b ha hb = ground arith

module _ (f : Frame) (valid : IsFrame f) where
  -- On a frame in order, `lcmp` takes the two longs on top and leaves an int, the sign of the one
  -- below less the one on top: 1, 0 or -1.
  pub long_compares :
      (a b : ℕ) (s : List ℕ)
      → operands f ≡ long_on b (long_on a s)
      → Effect f (exe_opc_lcmp f) f.cell f.pc (wrap32 (sign (signed64 a -ℤ signed64 b)) ∷ s)
  unfolding exe_opc_lcmp
  long_compares a b s h = with_pop_wide type_long _ refl (Leaves-self f valid h) λ f₁ hb l₁.
      with_pop_wide type_long _ refl l₁ λ f₂ ha l₂.
        rw
          (
            long_parts a,
            long_parts b,
            compares a b (rw (long_parts a) at ha) (rw (long_parts b) at hb),
          )
          (push-Effect _ type_int refl l₂ (wrap32-lt _) (omega (arith, operands-room f valid h)))
