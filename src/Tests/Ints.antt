-- ===== src/Tests/Ints.antt =====
-- Ints at concrete frames.
use turkey_vm.Frame.Defs.{Frame}
use turkey_vm.Frame.Steps.{Effect}
use turkey_vm.Frame.View.{IsFrame, operands}
use turkey_vm.Interp.IntArith.{
  exe_opc_iadd, exe_opc_idiv, exe_opc_imul, exe_opc_ineg, exe_opc_irem, exe_opc_ishl, exe_opc_ishr,
  exe_opc_isub, exe_opc_iushr,
}
use turkey_vm.Interp.IntArith.Division.{int_quotients}
use turkey_vm.Interp.IntArith.Shifts.{int_shifts}
use turkey_vm.Interp.IntArith.Sums.{int_sums}
use turkey_vm.Interp.Rules.{long_on}
use turkey_vm.Prelude.{
  [], arith, if◌then◌else◌, pos, refl, signed32, wrap32, ◌%◌, ◌*ℤ◌, ◌+ℤ◌, ◌-ℤ◌, ◌-◌, ◌/◌, ◌==◌, ◌^◌,
  ◌∷◌, ◌≡◌,
}
use turkey_vm.Words.Divide.{quot, rem}
use turkey_vm.Words.Shift.{floor_div}
use turkey_vm.Tests.Frames.{some_frame}

-- The ints 2 and -7, with 2 on top.
abbrev quotient_frame : Frame
quotient_frame = record some_frame {
  cell = λ i. if i == 5 then 2 ^ 32 - 7 else if i == 6 then 2 else 0;
  ostack = 7;
}

quotient_frame-IsFrame : IsFrame quotient_frame
quotient_frame-IsFrame = record {
  lower = omega arith;
  upper = omega arith;
  fits = refl;
  words = λ i. ground arith;
  synced = refl;
}

quotient_frame-operands : operands quotient_frame ≡ 2 ∷ (2 ^ 32 - 7) ∷ []
unfolding operands
quotient_frame-operands = refl

-- Zero on top, as an int and as a long.
abbrev zero_frame : Frame
zero_frame = record some_frame { ostack = 7 }

zero_frame-operands : operands zero_frame ≡ 0 ∷ (2 ^ 32 - 3) ∷ []
unfolding operands
zero_frame-operands = refl

abbrev zero_long : Frame
zero_long = record some_frame { cell = λ i. if i == 5 then 3 else 0; ostack = 9 }

zero_long-IsFrame : IsFrame zero_long
zero_long-IsFrame = record {
  lower = omega arith;
  upper = omega arith;
  fits = refl;
  words = λ i. ground arith;
  synced = refl;
}

zero_long-operands : operands zero_long ≡ long_on 0 (long_on 3 [])
unfolding operands
zero_long-operands = refl

int_quotients_example :
    Effect quotient_frame
      (exe_opc_idiv quotient_frame)
      quotient_frame.cell
      quotient_frame.pc
      (wrap32 (quot (signed32 (2 ^ 32 - 7)) (signed32 2)) ∷ [])
    × Effect quotient_frame
        (exe_opc_irem quotient_frame)
        quotient_frame.cell
        quotient_frame.pc
        (wrap32 (rem (signed32 (2 ^ 32 - 7)) (signed32 2)) ∷ [])
int_quotients_example =
    int_quotients quotient_frame quotient_frame-IsFrame (2 ^ 32 - 7) 2 [] quotient_frame-operands
      (omega arith) (λ e. omega arith)

int_sums_example :
    Effect quotient_frame
      (exe_opc_iadd quotient_frame)
      quotient_frame.cell
      quotient_frame.pc
      (wrap32 (signed32 (2 ^ 32 - 7) +ℤ signed32 2) ∷ [])
    × Effect quotient_frame
        (exe_opc_isub quotient_frame)
        quotient_frame.cell
        quotient_frame.pc
        (wrap32 (signed32 (2 ^ 32 - 7) -ℤ signed32 2) ∷ [])
    × Effect quotient_frame
        (exe_opc_imul quotient_frame)
        quotient_frame.cell
        quotient_frame.pc
        (wrap32 (signed32 (2 ^ 32 - 7) *ℤ signed32 2) ∷ [])
    × Effect quotient_frame
        (exe_opc_ineg quotient_frame)
        quotient_frame.cell
        quotient_frame.pc
        (wrap32 (pos 0 -ℤ signed32 2) ∷ (2 ^ 32 - 7) ∷ [])
int_sums_example =
    int_sums quotient_frame quotient_frame-IsFrame (2 ^ 32 - 7) 2 [] quotient_frame-operands

int_shifts_example :
    Effect quotient_frame
      (exe_opc_ishl quotient_frame)
      quotient_frame.cell
      quotient_frame.pc
      (wrap32 (signed32 (2 ^ 32 - 7) *ℤ pos (2 ^ (2 % 32))) ∷ [])
    × Effect quotient_frame
        (exe_opc_ishr quotient_frame)
        quotient_frame.cell
        quotient_frame.pc
        (wrap32 (floor_div (signed32 (2 ^ 32 - 7)) (2 ^ (2 % 32))) ∷ [])
    × Effect quotient_frame
        (exe_opc_iushr quotient_frame)
        quotient_frame.cell
        quotient_frame.pc
        (((2 ^ 32 - 7) / 2 ^ (2 % 32)) ∷ [])
int_shifts_example =
    int_shifts quotient_frame quotient_frame-IsFrame (2 ^ 32 - 7) 2 [] quotient_frame-operands
