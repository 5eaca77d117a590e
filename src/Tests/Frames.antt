-- ===== src/Tests/Frames.antt =====
-- A frame of a method with five local variables and eight words of operand stack.
use turkey_vm.Prelude.{ℕ, ◌-◌, ◌^◌, ◌≤◌, ◌≡◌, refl, true, [], ◌∷◌, arith, ◌==◌, if◌then◌else◌}
use turkey_vm.Frame.Defs.{Frame}
use turkey_vm.Frame.View.{operands, IsFrame}

-- `locals[1]` is 40, the operands are -3, 0 and 2 with 2 on top.
abbrev pub memory : ℕ → ℕ
memory i = if i == 1 then 40 else if i == 5 then 2 ^ 32 - 3 else if i == 7 then 2 else 0

abbrev pub some_frame : Frame
some_frame = record {
  code = 153 ∷ 0 ∷ 4 ∷ 2 ∷ 177 ∷ [];
  pc = 1;
  pc_offset = 1;
  size = 13;
  cell = memory;
  ostack = 8;
  bottom = 5;
  top = 13;
  assert_stack = true;
}

pub some_frame-IsFrame : IsFrame some_frame
some_frame-IsFrame = record {
  lower = omega arith;
  upper = omega arith;
  fits = refl;
  words = λ i. ground arith;
  synced = refl;
}

pub some_frame-operands : operands some_frame ≡ 2 ∷ 0 ∷ (2 ^ 32 - 3) ∷ []
unfolding operands
some_frame-operands = refl

-- The same with the stack pointer at either end.
abbrev pub empty_frame : Frame
empty_frame = record some_frame { ostack = 5 }

abbrev pub full_frame : Frame
full_frame = record some_frame { ostack = 13 }

abbrev pub nearly_full_frame : Frame
nearly_full_frame = record some_frame { ostack = 12 }

pub at_any_height : (n : ℕ) → 5 ≤ n → n ≤ 13 → IsFrame (record some_frame { ostack = n })
at_any_height n lo hi = record {
  lower = lo;
  upper = hi;
  fits = refl;
  words = λ i. ground arith;
  synced = refl;
}
