-- ===== src/Interp/Branch/IntTargets.antt =====
-- Comparisons of two ints: where the pc goes.
use turkey_vm.Prelude.{ℕ, ◌+◌, ◌≡◌, refl, List, ◌∷◌, ◌==◌, if◌then◌else◌, signed32, ltb_ℤ}
use turkey_vm.Frame.Defs.{Frame, type_int}
use turkey_vm.Frame.View.{operands, IsFrame}
use turkey_vm.Frame.Steps.{Effect}
use turkey_vm.Frame.Operands.{with_pop}
use turkey_vm.Interp.Branch.Jumps.{AtBranch, branch-Effect, not_branch-Effect, started}
use turkey_vm.Interp.Branch.{
  exe_opc_if_icmpeq, exe_opc_if_icmpne, exe_opc_if_icmplt, exe_opc_if_icmpge, exe_opc_if_icmpgt,
  exe_opc_if_icmple,
}

module _ (f : Frame) (valid : IsFrame f) (p target : ℕ) (o : AtBranch f p target) where
  exe_opc_if_icmpeq_lem :
      (a b₂ : ℕ) (s : List ℕ)
      → operands f ≡ b₂ ∷ a ∷ s
      → Effect f (exe_opc_if_icmpeq f) f.cell (if a == b₂ then target else p + 3) s
  unfolding exe_opc_if_icmpeq
  exe_opc_if_icmpeq_lem a b₂ s h =
      with_pop type_int _ refl (started f valid p target o (b₂ ∷ a ∷ s) h) λ f₁ hb₂ l.
        with_pop type_int _ refl l
          λ f₂ ha l₂. branch-Effect f valid p target o (a == b₂) f.cell s l₂

  exe_opc_if_icmpne_lem :
      (a b₂ : ℕ) (s : List ℕ)
      → operands f ≡ b₂ ∷ a ∷ s
      → Effect f (exe_opc_if_icmpne f) f.cell (if a == b₂ then p + 3 else target) s
  unfolding exe_opc_if_icmpne
  exe_opc_if_icmpne_lem a b₂ s h =
      with_pop type_int _ refl (started f valid p target o (b₂ ∷ a ∷ s) h) λ f₁ hb₂ l.
        with_pop type_int _ refl l
          λ f₂ ha l₂. not_branch-Effect f valid p target o (a == b₂) f.cell s l₂

  exe_opc_if_icmplt_lem :
      (a b₂ : ℕ) (s : List ℕ)
      → operands f ≡ b₂ ∷ a ∷ s
      → Effect f
          (exe_opc_if_icmplt f)
          f.cell
          (if ltb_ℤ (signed32 a) (signed32 b₂) then target else p + 3)
          s
  unfolding exe_opc_if_icmplt
  exe_opc_if_icmplt_lem a b₂ s h =
      with_pop type_int _ refl (started f valid p target o (b₂ ∷ a ∷ s) h) λ f₁ hb₂ l.
        with_pop type_int _ refl l λ f₂ ha l₂.
          branch-Effect f valid p target o (ltb_ℤ (signed32 a) (signed32 b₂)) f.cell s l₂

  exe_opc_if_icmpge_lem :
      (a b₂ : ℕ) (s : List ℕ)
      → operands f ≡ b₂ ∷ a ∷ s
      → Effect f
          (exe_opc_if_icmpge f)
          f.cell
          (if ltb_ℤ (signed32 a) (signed32 b₂) then p + 3 else target)
          s
  unfolding exe_opc_if_icmpge
  exe_opc_if_icmpge_lem a b₂ s h =
      with_pop type_int _ refl (started f valid p target o (b₂ ∷ a ∷ s) h) λ f₁ hb₂ l.
        with_pop type_int _ refl l λ f₂ ha l₂.
          not_branch-Effect f valid p target o (ltb_ℤ (signed32 a) (signed32 b₂)) f.cell s l₂

  exe_opc_if_icmpgt_lem :
      (a b₂ : ℕ) (s : List ℕ)
      → operands f ≡ b₂ ∷ a ∷ s
      → Effect f
          (exe_opc_if_icmpgt f)
          f.cell
          (if ltb_ℤ (signed32 b₂) (signed32 a) then target else p + 3)
          s
  unfolding exe_opc_if_icmpgt
  exe_opc_if_icmpgt_lem a b₂ s h =
      with_pop type_int _ refl (started f valid p target o (b₂ ∷ a ∷ s) h) λ f₁ hb₂ l.
        with_pop type_int _ refl l λ f₂ ha l₂.
          branch-Effect f valid p target o (ltb_ℤ (signed32 b₂) (signed32 a)) f.cell s l₂

  exe_opc_if_icmple_lem :
      (a b₂ : ℕ) (s : List ℕ)
      → operands f ≡ b₂ ∷ a ∷ s
      → Effect f
          (exe_opc_if_icmple f)
          f.cell
          (if ltb_ℤ (signed32 b₂) (signed32 a) then p + 3 else target)
          s
  unfolding exe_opc_if_icmple
  exe_opc_if_icmple_lem a b₂ s h =
      with_pop type_int _ refl (started f valid p target o (b₂ ∷ a ∷ s) h) λ f₁ hb₂ l.
        with_pop type_int _ refl l λ f₂ ha l₂.
          not_branch-Effect f valid p target o (ltb_ℤ (signed32 b₂) (signed32 a)) f.cell s l₂

  -- On a frame in order that has read a comparison of two ints at position `p`: both operands are
  -- taken, and the pc goes to `p` plus the signed offset if the comparison holds between the one
  -- below and the one on top, else to the next instruction at `p + 3`; the local variables and the
  -- rest of the stack stay.
  pub int_branches :
      (a b₂ : ℕ) (s : List ℕ)
      → operands f ≡ b₂ ∷ a ∷ s
      → Effect f (exe_opc_if_icmpeq f) f.cell (if a == b₂ then target else p + 3) s
        × Effect f (exe_opc_if_icmpne f) f.cell (if a == b₂ then p + 3 else target) s
        × Effect f
            (exe_opc_if_icmplt f)
            f.cell
            (if ltb_ℤ (signed32 a) (signed32 b₂) then target else p + 3)
            s
        × Effect f
            (exe_opc_if_icmpge f)
            f.cell
            (if ltb_ℤ (signed32 a) (signed32 b₂) then p + 3 else target)
            s
        × Effect f
            (exe_opc_if_icmpgt f)
            f.cell
            (if ltb_ℤ (signed32 b₂) (signed32 a) then target else p + 3)
            s
        × Effect f
            (exe_opc_if_icmple f)
            f.cell
            (if ltb_ℤ (signed32 b₂) (signed32 a) then p + 3 else target)
            s
  int_branches a b₂ s h = (
    exe_opc_if_icmpeq_lem a b₂ s h,
    exe_opc_if_icmpne_lem a b₂ s h,
    exe_opc_if_icmplt_lem a b₂ s h,
    exe_opc_if_icmpge_lem a b₂ s h,
    exe_opc_if_icmpgt_lem a b₂ s h,
    exe_opc_if_icmple_lem a b₂ s h,
  )
