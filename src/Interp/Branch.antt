-- ===== src/Interp/Branch.antt =====
-- The handlers of src/interp/interp.c that branch on numbers and references.
pub mod Jumps
pub mod ZeroTargets
pub mod IntTargets
use turkey_vm.Prelude.{
  ◌+◌, ◌-◌, ◌%◌, ◌^◌, not, ◌==◌, if◌then◌else◌, Run, ok, ◌>>=◌, signed32, short_to_int, ltb_ℤ, pos,
}
use turkey_vm.Frame.Defs.{Frame, type_int, type_reference, pop, push, interp_u2, pc_move}

-- The two ends of a conditional jump: the offset is read and `PC_MOVE(offset - 3, f)` made, or the
-- offset is stepped over. `offset` is a short.
unfoldable pub jump : Frame → Run Frame
jump f = do
  (offset, f₁) ← interp_u2 f
  pc_move ((short_to_int (offset % 2 ^ 16) + 2 ^ 32 - 3) % 2 ^ 32) f₁

unfoldable pub fall_through : Frame → Run Frame
fall_through f = pc_move 2 f

unfoldable pub exe_opc_ifeq : Frame → Run Frame
unfolding jump fall_through
exe_opc_ifeq f = do (value, f₁) ← pop f type_int; if value == 0 then jump f₁ else fall_through f₁

unfoldable pub exe_opc_ifne : Frame → Run Frame
unfolding jump fall_through
exe_opc_ifne f = do
  (value, f₁) ← pop f type_int
  if not (value == 0) then jump f₁ else fall_through f₁

unfoldable pub exe_opc_iflt : Frame → Run Frame
unfolding jump fall_through
exe_opc_iflt f = do
  (value, f₁) ← pop f type_int
  if ltb_ℤ (signed32 value) (pos 0) then jump f₁ else fall_through f₁

unfoldable pub exe_opc_ifge : Frame → Run Frame
unfolding jump fall_through
exe_opc_ifge f = do
  (value, f₁) ← pop f type_int
  if not (ltb_ℤ (signed32 value) (pos 0)) then jump f₁ else fall_through f₁

unfoldable pub exe_opc_ifgt : Frame → Run Frame
unfolding jump fall_through
exe_opc_ifgt f = do
  (value, f₁) ← pop f type_int
  if ltb_ℤ (pos 0) (signed32 value) then jump f₁ else fall_through f₁

unfoldable pub exe_opc_ifle : Frame → Run Frame
unfolding jump fall_through
exe_opc_ifle f = do
  (value, f₁) ← pop f type_int
  if not (ltb_ℤ (pos 0) (signed32 value)) then jump f₁ else fall_through f₁

unfoldable pub exe_opc_if_icmpeq : Frame → Run Frame
unfolding jump fall_through
exe_opc_if_icmpeq f = do
  (value2, f₁) ← pop f type_int
  (value1, f₂) ← pop f₁ type_int
  if value1 == value2 then jump f₂ else fall_through f₂

unfoldable pub exe_opc_if_icmpne : Frame → Run Frame
unfolding jump fall_through
exe_opc_if_icmpne f = do
  (value2, f₁) ← pop f type_int
  (value1, f₂) ← pop f₁ type_int
  if not (value1 == value2) then jump f₂ else fall_through f₂

unfoldable pub exe_opc_if_icmplt : Frame → Run Frame
unfolding jump fall_through
exe_opc_if_icmplt f = do
  (value2, f₁) ← pop f type_int
  (value1, f₂) ← pop f₁ type_int
  if ltb_ℤ (signed32 value1) (signed32 value2) then jump f₂ else fall_through f₂

unfoldable pub exe_opc_if_icmpge : Frame → Run Frame
unfolding jump fall_through
exe_opc_if_icmpge f = do
  (value2, f₁) ← pop f type_int
  (value1, f₂) ← pop f₁ type_int
  if not (ltb_ℤ (signed32 value1) (signed32 value2)) then jump f₂ else fall_through f₂

unfoldable pub exe_opc_if_icmpgt : Frame → Run Frame
unfolding jump fall_through
exe_opc_if_icmpgt f = do
  (value2, f₁) ← pop f type_int
  (value1, f₂) ← pop f₁ type_int
  if ltb_ℤ (signed32 value2) (signed32 value1) then jump f₂ else fall_through f₂

unfoldable pub exe_opc_if_icmple : Frame → Run Frame
unfolding jump fall_through
exe_opc_if_icmple f = do
  (value2, f₁) ← pop f type_int
  (value1, f₂) ← pop f₁ type_int
  if not (ltb_ℤ (signed32 value2) (signed32 value1)) then jump f₂ else fall_through f₂

unfoldable pub exe_opc_ifnull : Frame → Run Frame
unfolding jump fall_through
exe_opc_ifnull f = do
  (obj, f₁) ← pop f type_reference
  if obj == 0 then jump f₁ else fall_through f₁

unfoldable pub exe_opc_ifnonnull : Frame → Run Frame
unfolding jump fall_through
exe_opc_ifnonnull f = do
  (obj, f₁) ← pop f type_reference
  if not (obj == 0) then jump f₁ else fall_through f₁

unfoldable pub exe_opc_goto : Frame → Run Frame
unfolding jump
exe_opc_goto f = jump f

-- `address` is the offset itself, and the pc stays behind the instruction.
unfoldable pub exe_opc_jsr : Frame → Run Frame
exe_opc_jsr f = do (offset, f₁) ← interp_u2 f; push f₁ (short_to_int (offset % 2 ^ 16)) type_int

unfoldable pub exe_opc_ret : Frame → Run Frame
exe_opc_ret f = ok f
