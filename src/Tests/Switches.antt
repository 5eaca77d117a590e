-- ===== src/Tests/Switches.antt =====
-- Switches at concrete instructions.
use turkey_vm.Frame.Defs.{Frame}
use turkey_vm.Frame.Fetch.{WordAt}
use turkey_vm.Frame.Steps.{Effect}
use turkey_vm.Frame.View.{IsFrame, operands}
use turkey_vm.Interp.Switch.{exe_opc_lookupswitch, exe_opc_tableswitch}
use turkey_vm.Interp.Switch.Lookup.{later, here, LookupAt, lookupswitch-target}
use turkey_vm.Interp.Switch.Table.{TableAt, tableswitch-default, tableswitch-entry}
use turkey_vm.Prelude.{
  List, [], arith, get_elem?, pos, refl, signed32, some, ℕ, ◌+ℤ◌, ◌+◌, ◌-◌, ◌<◌, ◌^◌, ◌∷◌, ◌≡◌,
}
use turkey_vm.Tests.Frames.{some_frame}

from_start : (n : ℕ) → n < 2 ^ 31 → pos 0 +ℤ signed32 n ≡ pos n
unfolding ◌+ℤ◌
from_start n h = ground arith

-- The default offset 30, and the offsets 28 and 29 for 1 and 2.
abbrev table_frame : Frame
table_frame = record some_frame {
  code =
      170 ∷ 0 ∷ 0 ∷ 0 ∷ 0 ∷ 0 ∷ 0 ∷ 30 ∷ 0 ∷ 0 ∷ 0 ∷ 1 ∷ 0 ∷ 0 ∷ 0 ∷ 2 ∷ 0 ∷ 0 ∷ 0 ∷ 28 ∷ 0 ∷ 0 ∷ 0
      ∷ 29 ∷ [];
}

-- The same with zero on top.
abbrev table_zero : Frame
table_zero = record table_frame { ostack = 7 }

abbrev lookup_code : List ℕ
lookup_code =
    171 ∷ 0 ∷ 0 ∷ 0 ∷ 0 ∷ 0 ∷ 0 ∷ 30 ∷ 0 ∷ 0 ∷ 0 ∷ 2 ∷ 0 ∷ 0 ∷ 0 ∷ 1 ∷ 0 ∷ 0 ∷ 0 ∷ 28 ∷ 0 ∷ 0 ∷ 0
    ∷ 2 ∷ 0 ∷ 0 ∷ 0 ∷ 29 ∷ []

-- The same as pairs.
abbrev lookup_frame : Frame
lookup_frame = record some_frame { code = lookup_code }

abbrev some_pairs : List (ℕ × ℕ)
some_pairs = (1, 28) ∷ (2, 29) ∷ []

low_byte :
    (code : List ℕ) (p w : ℕ)
    → get_elem? code (p + 0) ≡ some 0
    → get_elem? code (p + 1) ≡ some 0
    → get_elem? code (p + 2) ≡ some 0
    → get_elem? code (p + 3) ≡ some w
    → w < 2 ^ 8
    → WordAt code p w
low_byte code p w a b c d h = record {
  b₀ = 0;
  b₁ = 0;
  b₂ = 0;
  b₃ = w;
  first = a;
  second = b;
  third = c;
  fourth = d;
  value = omega arith;
  small = omega arith;
}

table_frame-IsFrame : IsFrame table_frame
table_frame-IsFrame = record {
  lower = omega arith;
  upper = omega arith;
  fits = refl;
  words = λ i. ground arith;
  synced = refl;
}

table_zero-IsFrame : IsFrame table_zero
table_zero-IsFrame = record {
  lower = omega arith;
  upper = omega arith;
  fits = refl;
  words = λ i. ground arith;
  synced = refl;
}

lookup_frame-IsFrame : IsFrame lookup_frame
lookup_frame-IsFrame = record {
  lower = omega arith;
  upper = omega arith;
  fits = refl;
  words = λ i. ground arith;
  synced = refl;
}

some_table : TableAt table_frame.code 0 30 1 2
some_table = record {
  def_at = low_byte table_frame.code 4 30 refl refl refl refl (omega arith);
  low_at = low_byte table_frame.code 8 1 refl refl refl refl (omega arith);
  high_at = low_byte table_frame.code 12 2 refl refl refl refl (omega arith);
}

some_lookup : LookupAt lookup_frame.code 0 30 some_pairs
some_lookup = record {
  def_at = low_byte lookup_code 4 30 refl refl refl refl (omega arith);
  count_at = low_byte lookup_code 8 2 refl refl refl refl (omega arith);
  pairs_at = (
    low_byte lookup_code 12 1 refl refl refl refl (omega arith),
    low_byte lookup_code 16 28 refl refl refl refl (omega arith),
    (
      low_byte lookup_code 20 2 refl refl refl refl (omega arith),
      low_byte lookup_code 24 29 refl refl refl refl (omega arith),
      tt,
    ),
  );
}

table_frame-operands : operands table_frame ≡ 2 ∷ 0 ∷ (2 ^ 32 - 3) ∷ []
unfolding operands
table_frame-operands = refl

table_zero-operands : operands table_zero ≡ 0 ∷ (2 ^ 32 - 3) ∷ []
unfolding operands
table_zero-operands = refl

lookup_frame-operands : operands lookup_frame ≡ 2 ∷ 0 ∷ (2 ^ 32 - 3) ∷ []
unfolding operands
lookup_frame-operands = refl

one_more : signed32 1 +ℤ pos 1 ≡ signed32 2
unfolding ◌+ℤ◌
one_more = refl

tableswitch-default_example :
    Effect table_zero (exe_opc_tableswitch table_zero) table_zero.cell 30 ((2 ^ 32 - 3) ∷ [])
tableswitch-default_example =
    tableswitch-default table_zero table_zero-IsFrame 0 30 1 2 0 ((2 ^ 32 - 3) ∷ []) refl some_table
      (omega arith) table_zero-operands 30 refl (from_start 30 (omega arith)) (omega arith)

tableswitch-entry_example :
    Effect table_frame (exe_opc_tableswitch table_frame) table_frame.cell 29 (0 ∷ (2 ^ 32 - 3) ∷ [])
tableswitch-entry_example =
    tableswitch-entry table_frame table_frame-IsFrame 0 30 1 2 2 (0 ∷ (2 ^ 32 - 3) ∷ []) refl
      some_table (omega arith) table_frame-operands 1 29 29 one_more refl
      (low_byte table_frame.code 20 29 refl refl refl refl (omega arith)) (omega arith)
      (from_start 29 (omega arith)) (omega arith)

lookupswitch-target_example :
    Effect lookup_frame
      (exe_opc_lookupswitch lookup_frame)
      lookup_frame.cell
      29
      (0 ∷ (2 ^ 32 - 3) ∷ [])
lookupswitch-target_example =
    lookupswitch-target lookup_frame lookup_frame-IsFrame 0 30 some_pairs 2 (0 ∷ (2 ^ 32 - 3) ∷ [])
      refl some_lookup (omega arith) (omega arith) lookup_frame-operands 29 29
      (later (λ e. omega arith) here) (omega arith) (from_start 29 (omega arith)) (omega arith)
