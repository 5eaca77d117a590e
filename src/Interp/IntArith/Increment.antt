-- ===== src/Interp/IntArith/Increment.antt =====
-- `iinc` against the integers.
use turkey_vm.Prelude.{
  ℕ, ◌+◌, ◌%◌, ◌^◌, ◌<◌, ◌≡◌, List, some, arith, get_elem?, update, char_to_int, ◌+ℤ◌, signed8,
  signed32, wrap32,
}
use turkey_vm.Frame.Defs.{Frame}
use turkey_vm.Frame.View.{operands, IsFrame}
use turkey_vm.Frame.Steps.{Effect, Leaves-self}
use turkey_vm.Frame.Fetch.{with_u1}
use turkey_vm.Frame.Locals.{with_load, store-Effect}
use turkey_vm.Words.Wrap.{wrap32-lt}
use turkey_vm.Interp.IntArith.{exe_opc_iinc}

increments :
    (v c : ℕ)
    → v < 2 ^ 32
    → c < 2 ^ 8
    → (v + char_to_int c) % 2 ^ 32 ≡ wrap32 (signed32 v +ℤ signed8 c)
unfolding ◌+ℤ◌
increments v c hv hc = ground arith

module _ (f : Frame) (valid : IsFrame f) (s : List ℕ) (h : operands f ≡ s) where
  -- On a frame in order whose next two bytes of code are the index of a local variable and a signed
  -- number of 8 bits, `iinc` adds the number to the variable, keeping 32 bits, and steps over the
  -- bytes; all else stays.
  pub iinc-adds :
      (i c : ℕ)
      → get_elem? f.code (f.pc + 0) ≡ some i
      → get_elem? f.code (f.pc + 1 + 0) ≡ some c
      → c < 2 ^ 8
      → i < f.bottom
      → Effect f
          (exe_opc_iinc f)
          (update f.cell i (wrap32 (signed32 (f.cell i) +ℤ signed8 c)))
          (f.pc + 1 + 1)
          s
  unfolding exe_opc_iinc
  iinc-adds i c first second hc inside = with_u1 _ first (Leaves-self f valid h) λ f₁ l₁.
      with_u1 _ second l₁ λ f₂ l₂. with_load i _ inside l₂ λ small.
        rw (increments (f.cell i) c small hc)
          (store-Effect _ i l₂ (wrap32-lt (signed32 (f.cell i) +ℤ signed8 c)) inside)
