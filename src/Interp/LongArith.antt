-- ===== src/Interp/LongArith.antt =====
-- The handlers of src/interp/interp.c for long arithmetic.
pub mod Sums
pub mod Shifts
pub mod Compare
pub mod Division
use turkey_vm.Prelude.{
  ℕ, ◌+◌, ◌-◌, ◌*◌, ◌/◌, ◌%◌, ◌^◌, ◌&&◌, ltb, ◌==◌, if◌then◌else◌, bit_and, bit_or, bit_xor, Run,
  ok, halt, assertion_failed, undefined, ◌>>=◌, signed64, ltb_ℤ,
}
use turkey_vm.Frame.Defs.{Frame, type_int, type_long, type_ulong, pop, push}

-- `/` on long longs, as on ints; `LLONG_MIN / -1` does not fit.
unfoldable pub long_div : ℕ → ℕ → Run ℕ
long_div a b =
    let p = if ltb a (2 ^ 63) then a else 2 ^ 64 - a in
    let q = if ltb b (2 ^ 63) then b else 2 ^ 64 - b in
    if (a == 2 ^ 63) && (b == 2 ^ 64 - 1)
    then halt undefined
    else if ltb a (2 ^ 63)
    then ok (if ltb b (2 ^ 63) then p / q else (2 ^ 64 - p / q) % 2 ^ 64)
    else ok (if ltb b (2 ^ 63) then (2 ^ 64 - p / q) % 2 ^ 64 else p / q)

-- `%` has the sign of the dividend.
unfoldable pub long_rem : ℕ → ℕ → Run ℕ
long_rem a b =
    let p = if ltb a (2 ^ 63) then a else 2 ^ 64 - a in
    let q = if ltb b (2 ^ 63) then b else 2 ^ 64 - b in
    if (a == 2 ^ 63) && (b == 2 ^ 64 - 1)
    then halt undefined
    else ok (if ltb a (2 ^ 63) then p % q else (2 ^ 64 - p % q) % 2 ^ 64)

-- `>>` on a long long repeats the sign bit.
unfoldable pub long_shr : ℕ → ℕ → ℕ
long_shr v k = if ltb v (2 ^ 63) then v / 2 ^ k else 2 ^ 64 - 1 - (2 ^ 64 - 1 - v) / 2 ^ k

unfoldable pub exe_opc_ladd : Frame → Run Frame
exe_opc_ladd f = do
  (value2, f₁) ← pop f type_long
  (value1, f₂) ← pop f₁ type_long
  push f₂ ((value1 + value2) % 2 ^ 64) type_long

unfoldable pub exe_opc_lsub : Frame → Run Frame
exe_opc_lsub f = do
  (value2, f₁) ← pop f type_long
  (value1, f₂) ← pop f₁ type_long
  push f₂ ((value1 + 2 ^ 64 - value2) % 2 ^ 64) type_long

unfoldable pub exe_opc_lmul : Frame → Run Frame
exe_opc_lmul f = do
  (value2, f₁) ← pop f type_long
  (value1, f₂) ← pop f₁ type_long
  push f₂ (value1 * value2 % 2 ^ 64) type_long

unfoldable pub exe_opc_ldiv : Frame → Run Frame
unfolding long_div
exe_opc_ldiv f = do
  (value2, f₁) ← pop f type_long
  f₂ ← (if value2 == 0 then halt assertion_failed else ok f₁)
  (value1, f₃) ← pop f₂ type_long
  result ← long_div value1 value2
  push f₃ result type_long

unfoldable pub exe_opc_lrem : Frame → Run Frame
unfolding long_rem
exe_opc_lrem f = do
  (value2, f₁) ← pop f type_long
  f₂ ← (if value2 == 0 then halt assertion_failed else ok f₁)
  (value1, f₃) ← pop f₂ type_long
  result ← long_rem value1 value2
  push f₃ result type_long

unfoldable pub exe_opc_lneg : Frame → Run Frame
exe_opc_lneg f = do (value, f₁) ← pop f type_long; push f₁ ((2 ^ 64 - value) % 2 ^ 64) type_long

unfoldable pub exe_opc_lshl : Frame → Run Frame
exe_opc_lshl f = do
  (value2, f₁) ← pop f type_int
  (value1, f₂) ← pop f₁ type_long
  push f₂ (value1 * 2 ^ bit_and value2 0x3f % 2 ^ 64) type_long

unfoldable pub exe_opc_lshr : Frame → Run Frame
unfolding long_shr
exe_opc_lshr f = do
  (value2, f₁) ← pop f type_int
  (value1, f₂) ← pop f₁ type_long
  push f₂ (long_shr value1 (bit_and value2 0x3f)) type_long

-- `value1` is popped as `TYPE_ULONG` into a signed long long, so `>>` repeats its sign bit.
unfoldable pub exe_opc_lushr : Frame → Run Frame
unfolding long_shr
exe_opc_lushr f = do
  (value2, f₁) ← pop f type_int
  (value1, f₂) ← pop f₁ type_ulong
  push f₂ (long_shr value1 (bit_and value2 0x3f)) type_long

unfoldable pub exe_opc_land : Frame → Run Frame
exe_opc_land f = do
  (value2, f₁) ← pop f type_long
  (value1, f₂) ← pop f₁ type_long
  push f₂ (bit_and value1 value2) type_long

unfoldable pub exe_opc_lor : Frame → Run Frame
exe_opc_lor f = do
  (value2, f₁) ← pop f type_long
  (value1, f₂) ← pop f₁ type_long
  push f₂ (bit_or value1 value2) type_long

unfoldable pub exe_opc_lxor : Frame → Run Frame
exe_opc_lxor f = do
  (value2, f₁) ← pop f type_long
  (value1, f₂) ← pop f₁ type_long
  push f₂ (bit_xor value1 value2) type_long

unfoldable pub exe_opc_lcmp : Frame → Run Frame
exe_opc_lcmp f = do
  (value2, f₁) ← pop f type_long
  (value1, f₂) ← pop f₁ type_long
  push f₂
      (if ltb_ℤ (signed64 value2) (signed64 value1)
        then 1
        else if value1 == value2
        then 0
        else 2 ^ 32 - 1)
      type_int
