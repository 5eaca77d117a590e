-- ===== src/Interp/IntArith.antt =====
-- The handlers of src/interp/interp.c for int arithmetic. Sums and products wrap, as the JVM wants.
pub mod Sums
pub mod Shifts
pub mod Increment
pub mod Division
use turkey_vm.Prelude.{
  ℕ, ◌+◌, ◌-◌, ◌*◌, ◌/◌, ◌%◌, ◌^◌, ◌&&◌, ltb, ◌==◌, if◌then◌else◌, bit_and, bit_or, bit_xor, Run,
  ok, halt, assertion_failed, undefined, ◌>>=◌, char_to_int,
}
use turkey_vm.Frame.Defs.{Frame, type_int, type_uint, pop, push, load, store, interp_u1}

-- `/` on ints truncates towards zero: the quotient of the magnitudes, with the sign of the product.
-- `INT_MIN / -1` does not fit.
unfoldable pub int_div : ℕ → ℕ → Run ℕ
int_div a b =
    let p = if ltb a (2 ^ 31) then a else 2 ^ 32 - a in
    let q = if ltb b (2 ^ 31) then b else 2 ^ 32 - b in
    if (a == 2 ^ 31) && (b == 2 ^ 32 - 1)
    then halt undefined
    else if ltb a (2 ^ 31)
    then ok (if ltb b (2 ^ 31) then p / q else (2 ^ 32 - p / q) % 2 ^ 32)
    else ok (if ltb b (2 ^ 31) then (2 ^ 32 - p / q) % 2 ^ 32 else p / q)

unfoldable pub exe_opc_iadd : Frame → Run Frame
exe_opc_iadd f = do
  (value1, f₁) ← pop f type_int
  (value2, f₂) ← pop f₁ type_int
  push f₂ ((value1 + value2) % 2 ^ 32) type_int

unfoldable pub exe_opc_isub : Frame → Run Frame
exe_opc_isub f = do
  (value2, f₁) ← pop f type_int
  (value1, f₂) ← pop f₁ type_int
  push f₂ ((value1 + 2 ^ 32 - value2) % 2 ^ 32) type_int

unfoldable pub exe_opc_imul : Frame → Run Frame
exe_opc_imul f = do
  (value2, f₁) ← pop f type_int
  (value1, f₂) ← pop f₁ type_int
  push f₂ (value1 * value2 % 2 ^ 32) type_int

-- The assertion is checked between the two pops.
unfoldable pub exe_opc_idiv : Frame → Run Frame
unfolding int_div
exe_opc_idiv f = do
  (value2, f₁) ← pop f type_int
  f₂ ← (if value2 == 0 then halt assertion_failed else ok f₁)
  (value1, f₃) ← pop f₂ type_int
  result ← int_div value1 value2
  push f₃ result type_int

-- value1 - (value1 / value2) * value2
unfoldable pub exe_opc_irem : Frame → Run Frame
unfolding int_div
exe_opc_irem f = do
  (value2, f₁) ← pop f type_int
  f₂ ← (if value2 == 0 then halt assertion_failed else ok f₁)
  (value1, f₃) ← pop f₂ type_int
  quotient ← int_div value1 value2
  push f₃ ((value1 + 2 ^ 32 - quotient * value2 % 2 ^ 32) % 2 ^ 32) type_int

unfoldable pub exe_opc_ineg : Frame → Run Frame
exe_opc_ineg f = do (value, f₁) ← pop f type_int; push f₁ ((2 ^ 32 - value) % 2 ^ 32) type_int

-- `>>` on an int repeats the sign bit.
unfoldable pub int_shr : ℕ → ℕ → ℕ
int_shr v k = if ltb v (2 ^ 31) then v / 2 ^ k else 2 ^ 32 - 1 - (2 ^ 32 - 1 - v) / 2 ^ k

unfoldable pub exe_opc_ishl : Frame → Run Frame
exe_opc_ishl f = do
  (value2, f₁) ← pop f type_int
  (value1, f₂) ← pop f₁ type_int
  push f₂ (value1 * 2 ^ bit_and value2 0x1f % 2 ^ 32) type_int

unfoldable pub exe_opc_ishr : Frame → Run Frame
unfolding int_shr
exe_opc_ishr f = do
  (value2, f₁) ← pop f type_int
  (value1, f₂) ← pop f₁ type_int
  push f₂ (int_shr value1 (bit_and value2 0x1f)) type_int

-- `value1` is unsigned.
unfoldable pub exe_opc_iushr : Frame → Run Frame
exe_opc_iushr f = do
  (value2, f₁) ← pop f type_int
  (value1, f₂) ← pop f₁ type_uint
  push f₂ (value1 / 2 ^ bit_and value2 0x1f) type_int

unfoldable pub exe_opc_iand : Frame → Run Frame
exe_opc_iand f = do
  (value2, f₁) ← pop f type_int
  (value1, f₂) ← pop f₁ type_int
  push f₂ (bit_and value1 value2) type_int

unfoldable pub exe_opc_ior : Frame → Run Frame
exe_opc_ior f = do
  (value2, f₁) ← pop f type_int
  (value1, f₂) ← pop f₁ type_int
  push f₂ (bit_or value1 value2) type_int

unfoldable pub exe_opc_ixor : Frame → Run Frame
exe_opc_ixor f = do
  (value2, f₁) ← pop f type_int
  (value1, f₂) ← pop f₁ type_int
  push f₂ (bit_xor value1 value2) type_int

-- `c` is a char, which is signed on the target.
unfoldable pub exe_opc_iinc : Frame → Run Frame
exe_opc_iinc f = do
  (index, f₁) ← interp_u1 f
  (c, f₂) ← interp_u1 f₁
  value ← load f₂ index
  store f₂ ((value + char_to_int c) % 2 ^ 32) index
