-- ===== src/Tests/Longs.antt =====
-- Longs and returns at concrete frames.
use turkey_vm.Frame.Defs.{Frame}
use turkey_vm.Frame.Steps.{Effect}
use turkey_vm.Frame.View.{IsFrame, operands}
use turkey_vm.Interp.LongArith.{
  exe_opc_ladd, exe_opc_lcmp, exe_opc_ldiv, exe_opc_lmul, exe_opc_lneg, exe_opc_lrem, exe_opc_lshl,
  exe_opc_lshr, exe_opc_lsub, exe_opc_lushr,
}
use turkey_vm.Interp.LongArith.Compare.{long_compares, sign}
use turkey_vm.Interp.LongArith.Division.{long_quotients}
use turkey_vm.Interp.LongArith.Shifts.{long_shifts}
use turkey_vm.Interp.LongArith.Sums.{long_sums}
use turkey_vm.Interp.Rules.{long_on}
use turkey_vm.Prelude.{
  [], arith, if◌then◌else◌, pos, refl, signed64, wrap32, wrap64, ◌%◌, ◌*ℤ◌, ◌+ℤ◌, ◌-ℤ◌, ◌==◌, ◌^◌,
  ◌∷◌, ◌≡◌,
}
use turkey_vm.Words.Divide.{quot, rem}
use turkey_vm.Words.Shift.{floor_div}
use turkey_vm.Tests.Frames.{some_frame}

-- The longs 3 below 1, and below them the count 2 on an int, as the operands of one frame each.
abbrev two_longs : Frame
two_longs = record some_frame {
  cell = λ i. if i == 5 then 3 else if i == 7 then 1 else 0;
  ostack = 9;
}

two_longs-IsFrame : IsFrame two_longs
two_longs-IsFrame = record {
  lower = omega arith;
  upper = omega arith;
  fits = refl;
  words = λ i. ground arith;
  synced = refl;
}

two_longs-operands : operands two_longs ≡ long_on 1 (long_on 3 [])
unfolding operands
two_longs-operands = refl

abbrev long_and_count : Frame
long_and_count = record some_frame {
  cell = λ i. if i == 6 then 2 ^ 31 else if i == 7 then 4 else 0;
}

long_and_count-IsFrame : IsFrame long_and_count
long_and_count-IsFrame = record {
  lower = omega arith;
  upper = omega arith;
  fits = refl;
  words = λ i. ground arith;
  synced = refl;
}

long_and_count-operands : operands long_and_count ≡ 4 ∷ long_on (2 ^ 63) []
unfolding operands
long_and_count-operands = refl

long_sums_example :
    Effect two_longs
      (exe_opc_ladd two_longs)
      two_longs.cell
      two_longs.pc
      (long_on (wrap64 (signed64 3 +ℤ signed64 1)) [])
    × Effect two_longs
        (exe_opc_lsub two_longs)
        two_longs.cell
        two_longs.pc
        (long_on (wrap64 (signed64 3 -ℤ signed64 1)) [])
    × Effect two_longs
        (exe_opc_lmul two_longs)
        two_longs.cell
        two_longs.pc
        (long_on (wrap64 (signed64 3 *ℤ signed64 1)) [])
    × Effect two_longs
        (exe_opc_lneg two_longs)
        two_longs.cell
        two_longs.pc
        (long_on (wrap64 (pos 0 -ℤ signed64 1)) (long_on 3 []))
long_sums_example = long_sums two_longs two_longs-IsFrame 3 1 [] two_longs-operands

long_shifts_example :
    Effect long_and_count
      (exe_opc_lshl long_and_count)
      long_and_count.cell
      long_and_count.pc
      (long_on (wrap64 (signed64 (2 ^ 63) *ℤ pos (2 ^ (4 % 64)))) [])
    × Effect long_and_count
        (exe_opc_lshr long_and_count)
        long_and_count.cell
        long_and_count.pc
        (long_on (wrap64 (floor_div (signed64 (2 ^ 63)) (2 ^ (4 % 64)))) [])
    × Effect long_and_count
        (exe_opc_lushr long_and_count)
        long_and_count.cell
        long_and_count.pc
        (long_on (wrap64 (floor_div (signed64 (2 ^ 63)) (2 ^ (4 % 64)))) [])
long_shifts_example =
    long_shifts long_and_count long_and_count-IsFrame (2 ^ 63) 4 [] long_and_count-operands

long_quotients_example :
    Effect two_longs
      (exe_opc_ldiv two_longs)
      two_longs.cell
      two_longs.pc
      (long_on (wrap64 (quot (signed64 3) (signed64 1))) [])
    × Effect two_longs
        (exe_opc_lrem two_longs)
        two_longs.cell
        two_longs.pc
        (long_on (wrap64 (rem (signed64 3) (signed64 1))) [])
long_quotients_example =
    long_quotients two_longs two_longs-IsFrame 3 1 [] two_longs-operands (omega arith)
      (λ e. omega arith)

long_compares_example :
    Effect two_longs
      (exe_opc_lcmp two_longs)
      two_longs.cell
      two_longs.pc
      (wrap32 (sign (signed64 3 -ℤ signed64 1)) ∷ [])
long_compares_example = long_compares two_longs two_longs-IsFrame 3 1 [] two_longs-operands
