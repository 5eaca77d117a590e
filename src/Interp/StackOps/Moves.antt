-- ===== src/Interp/StackOps/Moves.antt =====
-- What the stack handlers leave.
use turkey_vm.Prelude.{
  ℕ, ◌+◌, ◌-◌, ◌<◌, ◌≤◌, ◌≡◌, refl, true, false, List, ◌∷◌, arith, length, halt, exited,
}
use turkey_vm.Frame.Defs.{Frame, type_int, type_long}
use turkey_vm.Frame.View.{operands, IsFrame}
use turkey_vm.Frame.Steps.{Effect, Leaves-self, operands-room}
use turkey_vm.Frame.Operands.{with_pop, with_pop_wide, with_push, push-Effect}
use turkey_vm.Interp.StackOps.{
  exe_opc_pop, exe_opc_pop2, exe_opc_dup, exe_opc_dup_x1, trace_exe_opc_swap, exe_opc_swap,
}

module _ (f : Frame) (valid : IsFrame f) (a b : ℕ) (s : List ℕ) (h : operands f ≡ b ∷ a ∷ s) where
  room : 2 + length s ≤ f.top - f.bottom
  room = omega (arith, operands-room f valid h)

  exe_opc_dup_lem :
      2 + length s < f.top - f.bottom → Effect f (exe_opc_dup f) f.cell f.pc (b ∷ b ∷ a ∷ s)
  unfolding exe_opc_dup
  exe_opc_dup_lem more = with_pop type_int _ refl (Leaves-self f valid h) λ f₁ hb l₁.
      with_push b type_int _ refl l₁ hb (omega arith)
        λ f₂ l₂. push-Effect b type_int refl l₂ hb (omega arith)

  exe_opc_dup_x1_lem :
      2 + length s < f.top - f.bottom → Effect f (exe_opc_dup_x1 f) f.cell f.pc (b ∷ a ∷ b ∷ s)
  unfolding exe_opc_dup_x1
  exe_opc_dup_x1_lem more = with_pop type_int _ refl (Leaves-self f valid h) λ f₁ hb l₁.
      with_pop type_int _ refl l₁ λ f₂ ha l₂.
        with_push b type_int _ refl l₂ hb (omega arith) λ f₃ l₃.
          with_push a type_int _ refl l₃ ha (omega arith)
            λ f₄ l₄. push-Effect b type_int refl l₄ hb (omega arith)

  trace_exe_opc_swap_lem : Effect f (trace_exe_opc_swap f) f.cell f.pc (a ∷ b ∷ s)
  unfolding trace_exe_opc_swap
  trace_exe_opc_swap_lem = with_pop type_int _ refl (Leaves-self f valid h) λ f₁ hb l₁.
      with_pop type_int _ refl l₁ λ f₂ ha l₂.
        with_push b type_int _ refl l₂ hb (omega (arith, room))
          λ f₃ l₃. push-Effect a type_int refl l₃ ha (omega (arith, room))

  -- On a frame in order with two words on the stack: `pop` takes the top one off, `pop2` both, and
  -- `swap`, when it is not traced, exchanges them; a traced `swap` ends the process.
  pub stack_moves :
      Effect f (exe_opc_pop f) f.cell f.pc (a ∷ s)
      × Effect f (exe_opc_pop2 f) f.cell f.pc s
      × Effect f (exe_opc_swap false f) f.cell f.pc (a ∷ b ∷ s)
      × (exe_opc_swap true f ≡ halt exited)
  unfolding exe_opc_pop exe_opc_pop2 exe_opc_swap
  stack_moves =
      let (g, runs, l) = trace_exe_opc_swap_lem in
      (
        with_pop type_int _ refl (Leaves-self f valid h) λ f₁ hb l₁. (f₁, refl, l₁),
        with_pop_wide type_long _ refl (Leaves-self f valid h) λ f₁ hb l₁. (f₁, refl, l₁),
        (g, rw runs, l),
        rw runs,
      )

  -- On a frame in order with two words on the stack and room for one word more, `dup` puts a copy
  -- of the top word on top, and `dup_x1` a copy of it under the two; all else stays.
  pub stack_copies :
      2 + length s < f.top - f.bottom
      → Effect f (exe_opc_dup f) f.cell f.pc (b ∷ b ∷ a ∷ s)
        × Effect f (exe_opc_dup_x1 f) f.cell f.pc (b ∷ a ∷ b ∷ s)
  stack_copies more = (exe_opc_dup_lem more, exe_opc_dup_x1_lem more)
