-- ===== src/Prelude/Word.antt =====
-- Bit patterns of the fixed widths, and the integers that they stand for.
use Prim.Native.Nat.{ℕ, ◌+◌, ◌-◌, ◌%◌, ◌^◌}
use turkey_vm.Prelude.Tests.{ltb, if◌then◌else◌}
use turkey_vm.Prelude.Int.{ℤ, pos, negsuc}

-- The integer that a two's complement pattern stands for, at 8, 16, 32 and 64 bits.
abbrev pub signed8 : ℕ → ℤ
signed8 w = if ltb w (2 ^ 7) then pos w else negsuc (2 ^ 8 - w - 1)

abbrev pub signed16 : ℕ → ℤ
signed16 w = if ltb w (2 ^ 15) then pos w else negsuc (2 ^ 16 - w - 1)

abbrev pub signed32 : ℕ → ℤ
signed32 w = if ltb w (2 ^ 31) then pos w else negsuc (2 ^ 32 - w - 1)

abbrev pub signed64 : ℕ → ℤ
signed64 w = if ltb w (2 ^ 63) then pos w else negsuc (2 ^ 64 - w - 1)

-- The pattern of an integer: its low 32 or 64 bits.
abbrev pub wrap32 : ℤ → ℕ
wrap32 (pos n) = n % 2 ^ 32
wrap32 (negsuc n) = 2 ^ 32 - 1 - n % 2 ^ 32

abbrev pub wrap64 : ℤ → ℕ
wrap64 (pos n) = n % 2 ^ 64
wrap64 (negsuc n) = 2 ^ 64 - 1 - n % 2 ^ 64

-- Casts to int of a char, a short, and to long long of an int: the sign bit is repeated.
abbrev pub char_to_int : ℕ → ℕ
char_to_int w = if ltb w (2 ^ 7) then w else w + (2 ^ 32 - 2 ^ 8)

abbrev pub short_to_int : ℕ → ℕ
short_to_int w = if ltb w (2 ^ 15) then w else w + (2 ^ 32 - 2 ^ 16)

abbrev pub int_to_long : ℕ → ℕ
int_to_long w = if ltb w (2 ^ 31) then w else w + (2 ^ 64 - 2 ^ 32)
