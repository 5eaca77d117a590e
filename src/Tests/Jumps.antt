-- ===== src/Tests/Jumps.antt =====
-- Branches at concrete frames.
use turkey_vm.Frame.Steps.{Effect}
use turkey_vm.Interp.Branch.{
  exe_opc_if_icmpeq, exe_opc_if_icmpge, exe_opc_if_icmpgt, exe_opc_if_icmple, exe_opc_if_icmplt,
  exe_opc_if_icmpne, exe_opc_ifeq, exe_opc_ifge, exe_opc_ifgt, exe_opc_ifle, exe_opc_iflt,
  exe_opc_ifne, exe_opc_ifnonnull, exe_opc_ifnull,
}
use turkey_vm.Interp.Branch.IntTargets.{int_branches}
use turkey_vm.Interp.Branch.Jumps.{AtBranch}
use turkey_vm.Interp.Branch.ZeroTargets.{zero_branches}
use turkey_vm.Prelude.{
  [], arith, if◌then◌else◌, ltb_ℤ, pos, refl, signed16, signed32, ◌*◌, ◌+ℤ◌, ◌+◌, ◌-◌, ◌==◌, ◌^◌,
  ◌∷◌, ◌≡◌,
}
use turkey_vm.Tests.Frames.{some_frame, some_frame-IsFrame, some_frame-operands}

lands_four : pos 0 +ℤ signed16 (0 * 2 ^ 8 + 4) ≡ pos 4
unfolding ◌+ℤ◌
lands_four = refl

-- The instruction at position 0 has the offset 4.
some_branch : AtBranch some_frame 0 4
some_branch = record {
  high = 0;
  low = 4;
  high_lt = omega arith;
  low_lt = omega arith;
  at = refl;
  first = refl;
  second = refl;
  lands = lands_four;
}

zero_branches_example :
    Effect some_frame
      (exe_opc_ifeq some_frame)
      some_frame.cell
      (if 2 == 0 then 4 else 0 + 3)
      (0 ∷ (2 ^ 32 - 3) ∷ [])
    × Effect some_frame
        (exe_opc_ifne some_frame)
        some_frame.cell
        (if 2 == 0 then 0 + 3 else 4)
        (0 ∷ (2 ^ 32 - 3) ∷ [])
    × Effect some_frame
        (exe_opc_iflt some_frame)
        some_frame.cell
        (if ltb_ℤ (signed32 2) (pos 0) then 4 else 0 + 3)
        (0 ∷ (2 ^ 32 - 3) ∷ [])
    × Effect some_frame
        (exe_opc_ifge some_frame)
        some_frame.cell
        (if ltb_ℤ (signed32 2) (pos 0) then 0 + 3 else 4)
        (0 ∷ (2 ^ 32 - 3) ∷ [])
    × Effect some_frame
        (exe_opc_ifgt some_frame)
        some_frame.cell
        (if ltb_ℤ (pos 0) (signed32 2) then 4 else 0 + 3)
        (0 ∷ (2 ^ 32 - 3) ∷ [])
    × Effect some_frame
        (exe_opc_ifle some_frame)
        some_frame.cell
        (if ltb_ℤ (pos 0) (signed32 2) then 0 + 3 else 4)
        (0 ∷ (2 ^ 32 - 3) ∷ [])
    × Effect some_frame
        (exe_opc_ifnull some_frame)
        some_frame.cell
        (if 2 == 0 then 4 else 0 + 3)
        (0 ∷ (2 ^ 32 - 3) ∷ [])
    × Effect some_frame
        (exe_opc_ifnonnull some_frame)
        some_frame.cell
        (if 2 == 0 then 0 + 3 else 4)
        (0 ∷ (2 ^ 32 - 3) ∷ [])
zero_branches_example =
    zero_branches some_frame some_frame-IsFrame 0 4 some_branch 2 (0 ∷ (2 ^ 32 - 3) ∷ [])
      some_frame-operands

int_branches_example :
    Effect some_frame
      (exe_opc_if_icmpeq some_frame)
      some_frame.cell
      (if 0 == 2 then 4 else 0 + 3)
      ((2 ^ 32 - 3) ∷ [])
    × Effect some_frame
        (exe_opc_if_icmpne some_frame)
        some_frame.cell
        (if 0 == 2 then 0 + 3 else 4)
        ((2 ^ 32 - 3) ∷ [])
    × Effect some_frame
        (exe_opc_if_icmplt some_frame)
        some_frame.cell
        (if ltb_ℤ (signed32 0) (signed32 2) then 4 else 0 + 3)
        ((2 ^ 32 - 3) ∷ [])
    × Effect some_frame
        (exe_opc_if_icmpge some_frame)
        some_frame.cell
        (if ltb_ℤ (signed32 0) (signed32 2) then 0 + 3 else 4)
        ((2 ^ 32 - 3) ∷ [])
    × Effect some_frame
        (exe_opc_if_icmpgt some_frame)
        some_frame.cell
        (if ltb_ℤ (signed32 2) (signed32 0) then 4 else 0 + 3)
        ((2 ^ 32 - 3) ∷ [])
    × Effect some_frame
        (exe_opc_if_icmple some_frame)
        some_frame.cell
        (if ltb_ℤ (signed32 2) (signed32 0) then 0 + 3 else 4)
        ((2 ^ 32 - 3) ∷ [])
int_branches_example =
    int_branches some_frame some_frame-IsFrame 0 4 some_branch 0 2 ((2 ^ 32 - 3) ∷ [])
      some_frame-operands
