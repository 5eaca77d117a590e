-- ===== src/Interp/Branch/ZeroTargets.antt =====
-- Comparisons with zero and null, and `goto`: where the pc goes.
use turkey_vm.Prelude.{ℕ, ◌+◌, ◌≡◌, refl, List, ◌∷◌, ◌==◌, if◌then◌else◌, pos, signed32, ltb_ℤ}
use turkey_vm.Frame.Defs.{Frame, type_int, type_reference}
use turkey_vm.Frame.View.{operands, IsFrame}
use turkey_vm.Frame.Steps.{Effect}
use turkey_vm.Frame.Operands.{with_pop}
use turkey_vm.Interp.Branch.Jumps.{AtBranch, jump-Effect, branch-Effect, not_branch-Effect, started}
use turkey_vm.Interp.Branch.{
  exe_opc_ifeq, exe_opc_ifne, exe_opc_iflt, exe_opc_ifge, exe_opc_ifgt, exe_opc_ifle,
  exe_opc_ifnull, exe_opc_ifnonnull, exe_opc_goto,
}

module _ (f : Frame) (valid : IsFrame f) (p target : ℕ) (o : AtBranch f p target) where
  exe_opc_ifeq_lem :
      (v : ℕ) (s : List ℕ)
      → operands f ≡ v ∷ s
      → Effect f (exe_opc_ifeq f) f.cell (if v == 0 then target else p + 3) s
  unfolding exe_opc_ifeq
  exe_opc_ifeq_lem v s h =
      with_pop type_int _ refl (started f valid p target o (v ∷ s) h)
        λ f₁ hv l. branch-Effect f valid p target o (v == 0) f.cell s l

  exe_opc_ifne_lem :
      (v : ℕ) (s : List ℕ)
      → operands f ≡ v ∷ s
      → Effect f (exe_opc_ifne f) f.cell (if v == 0 then p + 3 else target) s
  unfolding exe_opc_ifne
  exe_opc_ifne_lem v s h =
      with_pop type_int _ refl (started f valid p target o (v ∷ s) h)
        λ f₁ hv l. not_branch-Effect f valid p target o (v == 0) f.cell s l

  exe_opc_iflt_lem :
      (v : ℕ) (s : List ℕ)
      → operands f ≡ v ∷ s
      → Effect f (exe_opc_iflt f) f.cell (if ltb_ℤ (signed32 v) (pos 0) then target else p + 3) s
  unfolding exe_opc_iflt
  exe_opc_iflt_lem v s h =
      with_pop type_int _ refl (started f valid p target o (v ∷ s) h)
        λ f₁ hv l. branch-Effect f valid p target o (ltb_ℤ (signed32 v) (pos 0)) f.cell s l

  exe_opc_ifge_lem :
      (v : ℕ) (s : List ℕ)
      → operands f ≡ v ∷ s
      → Effect f (exe_opc_ifge f) f.cell (if ltb_ℤ (signed32 v) (pos 0) then p + 3 else target) s
  unfolding exe_opc_ifge
  exe_opc_ifge_lem v s h =
      with_pop type_int _ refl (started f valid p target o (v ∷ s) h)
        λ f₁ hv l. not_branch-Effect f valid p target o (ltb_ℤ (signed32 v) (pos 0)) f.cell s l

  exe_opc_ifgt_lem :
      (v : ℕ) (s : List ℕ)
      → operands f ≡ v ∷ s
      → Effect f (exe_opc_ifgt f) f.cell (if ltb_ℤ (pos 0) (signed32 v) then target else p + 3) s
  unfolding exe_opc_ifgt
  exe_opc_ifgt_lem v s h =
      with_pop type_int _ refl (started f valid p target o (v ∷ s) h)
        λ f₁ hv l. branch-Effect f valid p target o (ltb_ℤ (pos 0) (signed32 v)) f.cell s l

  exe_opc_ifle_lem :
      (v : ℕ) (s : List ℕ)
      → operands f ≡ v ∷ s
      → Effect f (exe_opc_ifle f) f.cell (if ltb_ℤ (pos 0) (signed32 v) then p + 3 else target) s
  unfolding exe_opc_ifle
  exe_opc_ifle_lem v s h =
      with_pop type_int _ refl (started f valid p target o (v ∷ s) h)
        λ f₁ hv l. not_branch-Effect f valid p target o (ltb_ℤ (pos 0) (signed32 v)) f.cell s l

  exe_opc_ifnull_lem :
      (v : ℕ) (s : List ℕ)
      → operands f ≡ v ∷ s
      → Effect f (exe_opc_ifnull f) f.cell (if v == 0 then target else p + 3) s
  unfolding exe_opc_ifnull
  exe_opc_ifnull_lem v s h =
      with_pop type_reference _ refl (started f valid p target o (v ∷ s) h)
        λ f₁ hv l. branch-Effect f valid p target o (v == 0) f.cell s l

  exe_opc_ifnonnull_lem :
      (v : ℕ) (s : List ℕ)
      → operands f ≡ v ∷ s
      → Effect f (exe_opc_ifnonnull f) f.cell (if v == 0 then p + 3 else target) s
  unfolding exe_opc_ifnonnull
  exe_opc_ifnonnull_lem v s h =
      with_pop type_reference _ refl (started f valid p target o (v ∷ s) h)
        λ f₁ hv l. not_branch-Effect f valid p target o (v == 0) f.cell s l

  -- On a frame in order that has read a comparison with zero, or with null, at position `p`: the
  -- operand is taken, and the pc goes to `p` plus the signed offset if the comparison holds, else to
  -- the next instruction at `p + 3`; the local variables and the rest of the stack stay.
  pub zero_branches :
      (v : ℕ) (s : List ℕ)
      → operands f ≡ v ∷ s
      → Effect f (exe_opc_ifeq f) f.cell (if v == 0 then target else p + 3) s
        × Effect f (exe_opc_ifne f) f.cell (if v == 0 then p + 3 else target) s
        × Effect f (exe_opc_iflt f) f.cell (if ltb_ℤ (signed32 v) (pos 0) then target else p + 3) s
        × Effect f (exe_opc_ifge f) f.cell (if ltb_ℤ (signed32 v) (pos 0) then p + 3 else target) s
        × Effect f (exe_opc_ifgt f) f.cell (if ltb_ℤ (pos 0) (signed32 v) then target else p + 3) s
        × Effect f (exe_opc_ifle f) f.cell (if ltb_ℤ (pos 0) (signed32 v) then p + 3 else target) s
        × Effect f (exe_opc_ifnull f) f.cell (if v == 0 then target else p + 3) s
        × Effect f (exe_opc_ifnonnull f) f.cell (if v == 0 then p + 3 else target) s
  zero_branches v s h = (
    exe_opc_ifeq_lem v s h,
    exe_opc_ifne_lem v s h,
    exe_opc_iflt_lem v s h,
    exe_opc_ifge_lem v s h,
    exe_opc_ifgt_lem v s h,
    exe_opc_ifle_lem v s h,
    exe_opc_ifnull_lem v s h,
    exe_opc_ifnonnull_lem v s h,
  )

  -- On a frame in order that has read a `goto` at position `p`, the pc goes to `p` plus the signed
  -- offset, and all else stays.
  pub goto-target : (s : List ℕ) → operands f ≡ s → Effect f (exe_opc_goto f) f.cell target s
  unfolding exe_opc_goto
  goto-target s h = jump-Effect f valid p target o f.cell s (started f valid p target o s h)
