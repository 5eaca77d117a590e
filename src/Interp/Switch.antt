-- ===== src/Interp/Switch.antt =====
-- The handlers of src/interp/interp.c for the two switch instructions.
pub mod Moves
pub mod Table
pub mod Lookup
pub mod Negative
use turkey_vm.Prelude.{
  ℕ, zero, suc, ◌+◌, ◌-◌, ◌*◌, ◌%◌, ◌^◌, ◌||◌, Option, none, some, List, [], ◌∷◌, ltb, ◌==◌,
  if◌then◌else◌, Run, ok, halt, error, ◌>>=◌, signed32, ltb_ℤ,
}
use turkey_vm.Frame.Defs.{Frame, type_int, pop, interp_u4, pc_move}

-- `4 - temp % 4` for an int `temp`, whose remainder has its sign.
unfoldable pub switch_pad : ℕ → ℕ
switch_pad temp = if ltb temp (2 ^ 31) then 4 - temp % 4 else 4 + (2 ^ 32 - temp) % 4

-- `jump - (temp - base)` with the current offset for `temp`, and the move by it.
unfoldable pub switch_jump : ℕ → ℕ → Frame → Run Frame
switch_jump base jump f =
    pc_move ((jump + 2 ^ 32 - (f.pc_offset + 2 ^ 32 - base) % 2 ^ 32) % 2 ^ 32) f

-- `base` is the offset of the instruction itself.
unfoldable pub exe_opc_tableswitch : Frame → Run Frame
unfolding switch_pad switch_jump
exe_opc_tableswitch f = do
  f₁ ← pc_move (2 ^ 32 - 1) f
  f₂ ← pc_move (switch_pad f₁.pc_offset) f₁
  (def, f₃) ← interp_u4 f₂
  (low, f₄) ← interp_u4 f₃
  (high, f₅) ← interp_u4 f₄
  (index, f₆) ← pop f₅ type_int
  if ltb_ℤ (signed32 index) (signed32 low) || ltb_ℤ (signed32 high) (signed32 index)
      then switch_jump f₁.pc_offset def f₆
      else (do
        f₇ ← pc_move ((index + 2 ^ 32 - low) * 4 % 2 ^ 32) f₆
        (jump, f₈) ← interp_u4 f₇
        switch_jump f₁.pc_offset jump f₈)

-- `match[i]` and `_offset[i]` for the pairs that are still to be read.
unfoldable pub read_pairs : ℕ → Frame → Run (List (ℕ × ℕ) × Frame)
read_pairs zero f = ok ([], f)
read_pairs (suc n) f = do
  (match, f₁) ← interp_u4 f
  (offset, f₂) ← interp_u4 f₁
  (pairs, f₃) ← read_pairs n f₂
  ok ((match, offset) ∷ pairs, f₃)

-- The offset of the first pair with the key.
unfoldable pub find_pair : ℕ → List (ℕ × ℕ) → Option ℕ
find_pair key [] = none
find_pair key ((match, offset) ∷ pairs) =
    let later = find_pair key pairs in if key == match then some offset else later

-- `Mem_newSize` ends the process for a negative number of pairs. `malloc` is taken to return
-- the two blocks for the pairs.
unfoldable pub exe_opc_lookupswitch : Frame → Run Frame
unfolding switch_pad switch_jump read_pairs find_pair
exe_opc_lookupswitch f = do
  f₁ ← pc_move (2 ^ 32 - 1) f
  (key, f₂) ← pop f₁ type_int
  f₃ ← pc_move (switch_pad f₂.pc_offset) f₂
  (def, f₄) ← interp_u4 f₃
  (npairs, f₅) ← interp_u4 f₄
  (pairs, f₆) ← (if ltb npairs (2 ^ 31) then read_pairs npairs f₅ else halt error)
  elim (find_pair key pairs) [
    | none ↦ switch_jump f₂.pc_offset def f₆
    | some jump ↦ switch_jump f₂.pc_offset jump f₆
  ]
