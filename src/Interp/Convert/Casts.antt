-- ===== src/Interp/Convert/Casts.antt =====
-- Conversions between int and long: the handlers against the integers.
use turkey_vm.Prelude.{
  ℕ, ◌+◌, ◌-◌, ◌%◌, ◌^◌, ◌<◌, ◌≡◌, refl, List, ◌∷◌, arith, length, false, true, halt, exited,
  int_to_long, signed32, signed64, wrap32, wrap64,
}
use turkey_vm.Words.Wrap.{wrap64-lt, wrap32-lt}
use turkey_vm.Frame.Defs.{Frame, type_int, type_long}
use turkey_vm.Frame.View.{operands, IsFrame}
use turkey_vm.Frame.Steps.{Effect, Leaves-self, operands-room}
use turkey_vm.Frame.Operands.{with_pop, with_pop_wide, push-Effect, push_wide-Effect}
use turkey_vm.Interp.Rules.{long_on, long_parts}
use turkey_vm.Interp.StackOps.{trace_opc}
use turkey_vm.Interp.Convert.{trace_exe_opc_i2l, exe_opc_i2l, exe_opc_l2i}

widens : (a : ℕ) → a < 2 ^ 32 → int_to_long a ≡ wrap64 (signed32 a)
widens a h = ground arith

narrows : (a : ℕ) → a < 2 ^ 64 → a % 2 ^ 32 ≡ wrap32 (signed64 a)
narrows a h = ground arith

module _ (f : Frame) (valid : IsFrame f) (a : ℕ) (s : List ℕ) where
  trace_exe_opc_i2l_lem :
      operands f ≡ a ∷ s
      → length s + 1 < f.top - f.bottom
      → Effect f (trace_exe_opc_i2l f) f.cell f.pc (long_on (wrap64 (signed32 a)) s)
  unfolding trace_exe_opc_i2l
  trace_exe_opc_i2l_lem h room = with_pop type_int _ refl (Leaves-self f valid h) λ f₁ small l.
      rw (widens a small)
        (push_wide-Effect _ type_long refl (λ e. cc) l (wrap64-lt (signed32 a)) room)

  -- On a frame in order with an int on top and room for one word more, `i2l`, when it is not
  -- traced, puts the same integer in its place as a long; a traced `i2l` ends the process.
  pub int_widens :
      operands f ≡ a ∷ s
      → length s + 1 < f.top - f.bottom
      → Effect f (exe_opc_i2l false f) f.cell f.pc (long_on (wrap64 (signed32 a)) s)
        × (exe_opc_i2l true f ≡ halt exited)
  unfolding exe_opc_i2l trace_opc
  int_widens h room =
      let (g, runs, l) = trace_exe_opc_i2l_lem h room in ((g, rw runs refl, l), rw runs refl)

  -- On a frame in order with a long on top, `l2i` puts the low 32 bits of the integer in its place
  -- as an int.
  pub long_narrows :
      operands f ≡ long_on a s → Effect f (exe_opc_l2i f) f.cell f.pc (wrap32 (signed64 a) ∷ s)
  unfolding exe_opc_l2i
  long_narrows h = with_pop_wide type_long _ refl (Leaves-self f valid h) λ f₁ small l.
      rw (long_parts a, narrows a (rw (long_parts a) at small))
        (push-Effect _ type_int refl l (wrap32-lt (signed64 a))
          (omega (arith, operands-room f valid h)))
